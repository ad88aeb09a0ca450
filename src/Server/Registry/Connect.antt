-- ===== src/Server/Registry/Connect.antt =====
-- Adding a client keeps the registry consistent. The id is drawn at random; that it is not in use
-- is a hypothesis.
use nnel.Base.{
  ℕ, ◌≡◌, refl, sym, ◌∙◌, ◌⊎◌, inl, inr, none, some, [], ◌∷◌, Text, length, lookup, lookup-insert,
  get_elem?, lt-of-get_elem?, get_elem?-append_end, get_elem?-append_lt, All-mono, Bool-cases,
  text_eq, text_eqb, text_eqb_iff, arith,
}
use nnel.Server.Registry.{Registry, ClientEntry, add_client}
use nnel.Server.Registry.Routes.{Key, key_of, route}
use nnel.Server.Registry.Consistent.{IsConsistent, IsLive}

pub route-add_client :
    (entry : ClientEntry) (reg : Registry) (k : Key) → route (add_client entry reg) k ≡ route reg k
unfolding route add_client
route-add_client entry reg (Key.subdomain s) = refl
route-add_client entry reg (Key.port p) = refl

module _ (entry : ClientEntry) (reg : Registry) (ok : IsConsistent reg) where
  -- After the call the connected clients are the new one and those that were.
  IsLive-add_client :
      (p : ℕ) (e : ClientEntry)
      → IsLive (add_client entry reg) p e
      → ((p ≡ length reg.entries) × (e ≡ entry)) ⊎ IsLive reg p e
  unfolding add_client
  IsLive-add_client p e (at, known) = elim (Bool-cases (text_eqb entry.id e.id)) [
    | inl same ↦
        let here : p ≡ length reg.entries =
          ground (arith, lookup-insert entry.id e.id (length reg.entries) reg.by_id) in
        inl (here, ground (arith, get_elem?-append_end reg.entries entry))
    | inr other ↦
        let old : lookup e.id reg.by_id ≡ some p =
          ground (arith, lookup-insert entry.id e.id (length reg.entries) reg.by_id) in
        let (e₀, at₀, _) = ok.named e.id p old in
        inr (
          sym (get_elem?-append_lt reg.entries (entry ∷ []) p (lt-of-get_elem? reg.entries p at₀))
              ∙ at,
          old,
        )
  ]

  module _ (fresh : lookup entry.id reg.by_id ≡ none) where
    IsLive-before_add_client :
        (p : ℕ) (e : ClientEntry) → IsLive reg p e → IsLive (add_client entry reg) p e
    unfolding add_client
    IsLive-before_add_client p e (at, known) = (
      get_elem?-append_lt reg.entries (entry ∷ []) p (lt-of-get_elem? reg.entries p at) ∙ at,
      ground (
        arith,
        lookup-insert entry.id e.id (length reg.entries) reg.by_id,
        text_eqb_iff entry.id e.id,
      ),
    )

    pub IsLive-new : IsLive (add_client entry reg) (length reg.entries) entry
    unfolding add_client
    IsLive-new = (
      get_elem?-append_end reg.entries entry,
      ground (
        arith,
        lookup-insert entry.id entry.id (length reg.entries) reg.by_id,
        text_eqb_iff entry.id entry.id,
      ),
    )

    named_after :
        (id : Text) (p : ℕ)
        → lookup id (add_client entry reg).by_id ≡ some p
        → (e : ClientEntry) × (get_elem? (add_client entry reg).entries p ≡ some e) × (e.id ≡ id)
    unfolding add_client
    named_after id p known = elim (Bool-cases (text_eqb entry.id id)) [
      | inl same ↦ (
        entry,
        ground (
          arith,
          lookup-insert entry.id id (length reg.entries) reg.by_id,
          get_elem?-append_end reg.entries entry,
        ),
        (text_eqb_iff entry.id id).0 same,
      )
      | inr other ↦
          let old : lookup id reg.by_id ≡ some p =
            ground (arith, lookup-insert entry.id id (length reg.entries) reg.by_id) in
          let (e, at, name) = ok.named id p old in
          (
            e,
            get_elem?-append_lt reg.entries (entry ∷ []) p (lt-of-get_elem? reg.entries p at) ∙ at,
            name,
          )
    ]

    pub add_client-IsConsistent : entry.tunnels ≡ [] → IsConsistent (add_client entry reg)
    add_client-IsConsistent no_tunnels = record {
      named = named_after;
      routed = λ p e live. elim (IsLive-add_client p e live) [
        | inl (_, new) ↦ rw (new, no_tunnels) tt
        | inr old ↦
            All-mono e.tunnels (λ t here. route-add_client entry reg (key_of t) ∙ here)
              (ok.routed p e old)
      ];
      distinct = λ p e live. elim (IsLive-add_client p e live) [
        | inl (_, new) ↦ rw (new, no_tunnels) tt
        | inr old ↦ ok.distinct p e old
      ];
      backed = λ k p h.
          let (e, live, has) = ok.backed k p (sym (route-add_client entry reg k) ∙ h) in
          (e, IsLive-before_add_client p e live, has);
    }
