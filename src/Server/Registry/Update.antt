-- ===== src/Server/Registry/Update.antt =====
-- A call that rewrites the entry of one connected client, and perhaps routes of its own, keeps the
-- registry consistent.
use nnel.Base.{
  ℕ, ◌≡◌, ◌≢◌, sym, ◌∙◌, subst, ◌⊎◌, inl, inr, true, some, Text, ==_dec, lookup, get_elem?, set,
  lt-of-get_elem?, get_elem?-set_self, get_elem?-set_ne, All, All-mono, text_eq, nat_eq,
  nat_eqb_iff, arith,
}
use nnel.Server.Registry.{Registry, ClientEntry}
use nnel.Server.Registry.Routes.{Key, key_eq, key_of, has_key, route}
use nnel.Server.Registry.Consistent.{IsConsistent, IsLive, DistinctKeys}

module _ (reg after : Registry) (p : ℕ) (e e' : ClientEntry) (live : IsLive reg p e)
    (same_id : e'.id ≡ e.id) (ents : after.entries ≡ set reg.entries p e')
    (ids : after.by_id ≡ reg.by_id) where
  pub IsLive-self : IsLive after p e'
  IsLive-self = (
    rw ents (get_elem?-set_self reg.entries p e' (lt-of-get_elem? reg.entries p live.0)),
    rw (ids, same_id) live.1,
  )

  pub IsLive-other : (q : ℕ) (f : ClientEntry) → p ≢ q → IsLive reg q f → IsLive after q f
  IsLive-other q f ne (at, known) =
      (rw ents (get_elem?-set_ne reg.entries p q e' ne ∙ at), rw ids known)

  -- The rewritten client, and the others as they were.
  IsLive-cases :
      (q : ℕ) (f : ClientEntry)
      → IsLive after q f
      → ((p ≡ q) × (f ≡ e')) ⊎ ((p ≢ q) × IsLive reg q f)
  IsLive-cases q f (at, known) = elim (==_dec p q) [
    | inl same ↦ inl (same, ground (arith, IsLive-self, at))
    | inr other ↦
        let ne : p ≢ q = λ same. ground (arith, nat_eqb_iff p q) in
        inr (ne, (sym (get_elem?-set_ne reg.entries p q e' ne) ∙ (rw ents at at), rw ids at known))
  ]

  module _ (ok : IsConsistent reg) (routed' : All (λ t. route after (key_of t) ≡ some p) e'.tunnels)
      (distinct' : DistinctKeys e'.tunnels)
      (others : (j : Key) (q : ℕ) → p ≢ q → route reg j ≡ some q → route after j ≡ some q)
      (own : (j : Key) → route after j ≡ some p → has_key j e'.tunnels ≡ true)
      (back : (j : Key) (q : ℕ) → p ≢ q → route after j ≡ some q → route reg j ≡ some q) where
    named_after :
        (id : Text) (q : ℕ)
        → lookup id after.by_id ≡ some q
        → (f : ClientEntry) × (get_elem? after.entries q ≡ some f) × (f.id ≡ id)
    named_after id q known =
        let before : lookup id reg.by_id ≡ some q = rw ids at known in
        let (f, at, name) = ok.named id q before in
        elim (==_dec p q) [
          | inl same ↦
              let same_entry : some f ≡ some e = ground (arith, live.0) in
              (e', ground (arith, IsLive-self.0), ground arith)
          | inr other ↦ (
            f,
            (IsLive-other q f (λ same. ground (arith, nat_eqb_iff p q)) (at, ground arith)).0,
            name,
          )
        ]

    backed_after :
        (j : Key) (q : ℕ)
        → route after j ≡ some q
        → (f : ClientEntry) × IsLive after q f × (has_key j f.tunnels ≡ true)
    backed_after j q h = elim (==_dec p q) [
      | inl same ↦ (e', subst (λ n. IsLive after n e') same IsLive-self, own j (h ∙ ground arith))
      | inr other ↦
          let ne : p ≢ q = λ same. ground (arith, nat_eqb_iff p q) in
          let (f, old, has) = ok.backed j q (back j q ne h) in (f, IsLive-other q f ne old, has)
    ]

    pub update-IsConsistent : IsConsistent after
    update-IsConsistent = record {
      named = named_after;
      routed = λ q f l. elim (IsLive-cases q f l) [
        | inl (same, new) ↦ rw (new, ← same) routed'
        | inr (ne, old) ↦ All-mono f.tunnels (λ t h. others (key_of t) q ne h) (ok.routed q f old)
      ];
      distinct = λ q f l. elim (IsLive-cases q f l) [
        | inl (same, new) ↦ rw new distinct'
        | inr (ne, old) ↦ ok.distinct q f old
      ];
      backed = backed_after;
    }
