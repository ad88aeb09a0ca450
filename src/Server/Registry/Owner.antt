-- ===== src/Server/Registry/Owner.antt =====
-- The registry as its clients see it: a table from keys to the ids of the clients that hold them.
use nnel.Base.{
  get_elem?-append_lt, ◌∷◌, [], ℕ, ◌≡◌, refl, sym, ◌∙◌, subst, inl, inr, true, Option, none, some,
  List, Text, ◌==◌, ==_dec, lookup, get_elem?, set, lt-of-get_elem?, get_elem?-set_self,
  get_elem?-set_ne, Bool-cases, Option-cases, text_eq, text_eqb_iff, nat_eq, nat_eqb_iff, arith,
  if◌then◌else◌,
}
use nnel.Server.Registry.{
  add_client, Registry, ClientEntry, TunnelEntry, remove_client, find_tunnel, remove_tunnel_by_name,
}
use nnel.Server.Registry.Routes.{Key, key_eq, key_of, has_key, route}
use nnel.Server.Registry.Consistent.{
  IsConsistent, IsLive, live_same, live_unique, routed_of_has_key,
}
use nnel.Server.Registry.Connect.{route-add_client}
use nnel.Server.Registry.Register.{register, route-register, entries_after}
use nnel.Server.Registry.Remove.{
  drop_client, route-drop_client, entries-drop_client, remove_client_lem, remove_client_unknown,
}
use nnel.Server.Registry.Evict
use nnel.Server.Registry.Evict.{evict, route-evict, remove_tunnel_by_name_lem}

abbrev pub id_at : List ClientEntry → ℕ → Option Text
id_at entries p = elim (get_elem? entries p) [ none ↦ none | some e ↦ some e.id ]

abbrev pub id_of_route : List ClientEntry → Option ℕ → Option Text
id_of_route entries none = none
id_of_route entries (some p) = id_at entries p

pub owner : Registry → Key → Option Text
owner reg k = id_of_route reg.entries (route reg k)

-- The table without the keys of one client.
abbrev pub without_owner : Text → Option Text → Option Text
without_owner id none = none
without_owner id (some o) = if o == id then none else some o

id_at-set :
    (entries : List ClientEntry) (p q : ℕ) (e e' : ClientEntry)
    → get_elem? entries p ≡ some e
    → e'.id ≡ e.id
    → id_at (set entries p e') q ≡ id_at entries q
id_at-set entries p q e e' at same = elim (==_dec p q) [
  | inl here ↦ ground (arith, get_elem?-set_self entries p e' (lt-of-get_elem? entries p at))
  | inr other ↦
      rw (get_elem?-set_ne entries p q e' (λ here. ground (arith, nat_eqb_iff p q)), id_at)
]

-- A key is held by the client to which it is routed.
pub owner_of_route :
    (reg : Registry) (k : Key) (p : ℕ) (e : ClientEntry)
    → route reg k ≡ some p
    → get_elem? reg.entries p ≡ some e
    → owner reg k ≡ some e.id
unfolding owner
owner_of_route reg k p e h at = rw (h, at, id_of_route, id_at)

-- A key that a connected client holds is that of one of its tunnels, and each such key is held.
owner_iff :
    (reg : Registry) (p : ℕ) (e : ClientEntry) (k : Key)
    → IsConsistent reg
    → IsLive reg p e
    → ((owner reg k ≡ some e.id) → has_key k e.tunnels ≡ true)
      × ((has_key k e.tunnels ≡ true) → owner reg k ≡ some e.id)
owner_iff reg p e k ok live = (held, holds)
  where
    holds : (has_key k e.tunnels ≡ true) → owner reg k ≡ some e.id
    holds h =
        owner_of_route reg k p e (routed_of_has_key reg k p e.tunnels (ok.routed p e live) h) live.0

    held : (owner reg k ≡ some e.id) → has_key k e.tunnels ≡ true
    held h = elim (Option-cases (route reg k)) [
      | inl free ↦ absurd (unfold owner in (ground arith))
      | inr (q, to) ↦
          let (f, old, has) = ok.backed k q to in
          let named : some f.id ≡ some e.id = sym (owner_of_route reg k q f to old.0) ∙ h in
          let here : some q ≡ some p = ground (arith, old.1, live.1) in
          let there : q ≡ p = ground arith in
          let one : f ≡ e = live_same reg q p f e old live there in rw (← one) has
    ]

module _ (te : TunnelEntry) (p : ℕ) (e : ClientEntry) (reg : Registry) (live : IsLive reg p e) where
  pub owner-register :
      (j : Key)
      → owner (register (key_of te) te p reg) j
        ≡ (if key_of te == j then some e.id else owner reg j)
  unfolding owner
  owner-register j =
      rw (route-register (key_of te) j te p reg, entries_after te p e reg live)
        (elim (Bool-cases (key_of te == j)) [
          | inl same ↦ rw same (id_at-set reg.entries p p e _ live.0 refl ∙ ground (arith, live.0))
          | inr other ↦ rw other (elim (Option-cases (route reg j)) [
            | inl free ↦ rw free
            | inr (q, to) ↦ rw to (id_at-set reg.entries p q e _ live.0 refl)
          ])
        ])

pub owner-none : (reg : Registry) (k : Key) → route reg k ≡ none → owner reg k ≡ none
unfolding owner
owner-none reg k h = rw h

-- A client that connects holds no key.
pub owner-add_client :
    (entry : ClientEntry) (reg : Registry) (k : Key)
    → IsConsistent reg
    → owner (add_client entry reg) k ≡ owner reg k
unfolding owner add_client
owner-add_client entry reg k ok =
    rw (route-add_client entry reg k) (elim (Option-cases (route reg k)) [
      | inl free ↦ rw free refl
      | inr (q, to) ↦
          let (f, live, _) = ok.backed k q to in
          rw
            (
              to,
              get_elem?-append_lt reg.entries (entry ∷ []) q (lt-of-get_elem? reg.entries q live.0),
              id_of_route,
              id_at,
            )
            refl
    ])

owner-drop_client :
    (reg : Registry) (p : ℕ) (e : ClientEntry) (k : Key)
    → IsConsistent reg
    → IsLive reg p e
    → owner (drop_client e.id e.tunnels reg) k ≡ without_owner e.id (owner reg k)
owner-drop_client reg p e k ok live = elim (Bool-cases (has_key k e.tunnels)) [
  | inl has ↦ rw ((owner_iff reg p e k ok live).1 has) (
      owner-none (drop_client e.id e.tunnels reg) k
        (rw (route-drop_client e.id e.tunnels reg k, has))
      ∙ ground (arith, text_eqb_iff e.id e.id))
  | inr hasnt ↦ elim (Option-cases (route reg k)) [
    | inl free ↦ rw (owner-none reg k free) (
        owner-none (drop_client e.id e.tunnels reg) k
          (rw (route-drop_client e.id e.tunnels reg k, hasnt) free))
    | inr (q, to) ↦
        let (f, old, has) = ok.backed k q to in
        rw (owner_of_route reg k q f to old.0) (
          owner_of_route (drop_client e.id e.tunnels reg) k q f
            (rw (route-drop_client e.id e.tunnels reg k, hasnt) to)
            (rw (entries-drop_client e.id e.tunnels reg) old.0)
          ∙ ground (arith, text_eqb_iff f.id e.id, live_unique reg q p f e old live))
  ]
]

pub unknown_owner :
    (id : Text) (reg : Registry) (k : Key)
    → IsConsistent reg
    → lookup id reg.by_id ≡ none
    → owner reg k ≡ without_owner id (owner reg k)
unknown_owner id reg k ok unknown = elim (Option-cases (route reg k)) [
  | inl free ↦ rw (owner-none reg k free)
  | inr (q, to) ↦
      let (f, old, has) = ok.backed k q to in
      rw (owner_of_route reg k q f to old.0) (ground (arith, text_eqb_iff f.id id, old.1, unknown))
]

-- In a consistent registry, disconnecting a client frees exactly the keys that it holds, whether or
-- not the id is known.
pub owner-remove_client :
    (id : Text) (reg : Registry) (k : Key)
    → IsConsistent reg
    → owner (remove_client id reg).0 k ≡ without_owner id (owner reg k)
owner-remove_client id reg k ok = elim (Option-cases (lookup id reg.by_id)) [
  | inl unknown ↦ rw (remove_client_unknown id reg unknown) (unknown_owner id reg k ok unknown)
  | inr (p, known) ↦
      let (e, at, name) = ok.named id p known in
      let live : IsLive reg p e = (at, rw name known) in
      rw (remove_client_lem id reg p e live name) (
        subst (λ j. owner (drop_client j e.tunnels reg) k ≡ without_owner j (owner reg k)) name
          (owner-drop_client reg p e k ok live))
]

-- In a consistent registry, removing a tunnel of a connected client by its name frees the key of the
-- first tunnel of the client that is so named, which the client held, and changes nothing else.
pub owner-remove_tunnel_by_name :
    (name : Text) (t : TunnelEntry) (p : ℕ) (e : ClientEntry) (reg : Registry) (k : Key)
    → IsConsistent reg
    → IsLive reg p e
    → find_tunnel name e.tunnels ≡ some t
    → (owner reg (key_of t) ≡ some e.id)
      × (owner (remove_tunnel_by_name e.id name reg).0 k
          ≡ (if key_of t == k then none else owner reg k))
owner-remove_tunnel_by_name name t p e reg k ok live hit = (
  owner_of_route reg (key_of t) p e (Evict.route_evicted name t p e reg live hit ok) live.0,
  rw (remove_tunnel_by_name_lem e.id name reg p e t live refl hit) freed,
)
  where
    freed : owner (evict name t p reg) k ≡ (if key_of t == k then none else owner reg k)
    freed =
        unfold owner in
        (rw (route-evict name t p reg k, Evict.entries_after name t p e reg live hit)
          (elim (Bool-cases (key_of t == k)) [
            | inl same ↦ rw same
            | inr other ↦ rw other (elim (Option-cases (route reg k)) [
              | inl free ↦ rw free
              | inr (q, to) ↦ rw to (id_at-set reg.entries p q e _ live.0 refl)
            ])
          ]))
