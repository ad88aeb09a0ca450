-- ===== src/Server/Registry/Register.antt =====
-- Registering a tunnel under a free key keeps the registry consistent.
use nnel.Base.{
  ℕ, ◌≡◌, refl, inl, inr, true, false, ◌||◌, none, some, List, [], ◌∷◌, ◌++◌, ℤ, Text, ◌==◌, ==_dec,
  lookup, set, All-mono, All-append, text_eq, nat_eq, arith, if◌then◌else◌,
}
use nnel.Server.Registry.{
  Registry, ClientEntry, TunnelEntry, append_tunnel, modify, register_http, register_tcp,
}
use nnel.Server.Registry.Routes.{
  Key, key_eq, key_eqb_iff, key_of, has_key, route, put_route, route-put_route,
}
use nnel.Server.Registry.Consistent.{IsConsistent, IsLive, DistinctKeys, no_key_of-route, live_same}
use nnel.Server.Registry.Update.{IsLive-self, update-IsConsistent}

-- What both calls do once the client is found.
unfoldable pub register : Key → TunnelEntry → ℕ → Registry → Registry
register k te p reg = record (put_route k p reg) {
  entries = modify p (append_tunnel te) reg.entries;
}

pub register_http_lem :
    (id s : Text) (te : TunnelEntry) (reg : Registry) (p : ℕ)
    → lookup id reg.by_id ≡ some p
    → register_http id s te reg ≡ some (register (Key.subdomain s) te p reg)
unfolding register_http register
register_http_lem id s te reg p h = rw (h, register_http)

pub register_tcp_lem :
    (id : Text) (n : ℤ) (te : TunnelEntry) (reg : Registry) (p : ℕ)
    → lookup id reg.by_id ≡ some p
    → register_tcp id n te reg ≡ some (register (Key.port n) te p reg)
unfolding register_tcp register
register_tcp_lem id n te reg p h = rw (h, register_tcp)

pub route-register :
    (k j : Key) (te : TunnelEntry) (p : ℕ) (reg : Registry)
    → route (register k te p reg) j ≡ (if k == j then some p else route reg j)
unfolding register route
route-register k (Key.subdomain s) te p reg = route-put_route k (Key.subdomain s) p reg
route-register k (Key.port s) te p reg = route-put_route k (Key.port s) p reg

by_id-register :
    (k : Key) (te : TunnelEntry) (p : ℕ) (reg : Registry) → (register k te p reg).by_id ≡ reg.by_id
unfolding register
by_id-register (Key.subdomain s) te p reg = refl
by_id-register (Key.port s) te p reg = refl

pub has_key-append :
    (k : Key) (ts us : List TunnelEntry) → has_key k (ts ++ us) ≡ (has_key k ts || has_key k us)
has_key-append k [] us = refl
has_key-append k (t ∷ ts) us = ground (arith, has_key-append k ts us)

DistinctKeys-append :
    (ts : List TunnelEntry) (te : TunnelEntry)
    → DistinctKeys ts
    → has_key (key_of te) ts ≡ false
    → DistinctKeys (ts ++ te ∷ [])
DistinctKeys-append [] te d h = (refl, tt)
DistinctKeys-append (t ∷ ts) te (fresh, d) h = (
  ground (
    arith,
    has_key-append (key_of t) ts (te ∷ []),
    key_eqb_iff (key_of t) (key_of te),
    key_eqb_iff (key_of te) (key_of t),
  ),
  DistinctKeys-append ts te d (ground arith),
)

module _ (te : TunnelEntry) (p : ℕ) (e : ClientEntry) (reg : Registry) (live : IsLive reg p e) where
  abbrev after : Registry
  after = register (key_of te) te p reg

  pub entries_after : after.entries ≡ set reg.entries p (append_tunnel te e)
  unfolding register
  entries_after = rw (live.0, modify)

  pub by_id_after : after.by_id ≡ reg.by_id
  by_id_after = by_id-register (key_of te) te p reg

  pub IsLive-after_register : IsLive after p (append_tunnel te e)
  IsLive-after_register =
      IsLive-self reg after p e (append_tunnel te e) live refl entries_after by_id_after

  module _ (ok : IsConsistent reg) (free : route reg (key_of te) ≡ none) where
    route_kept : (j : Key) (q : ℕ) → route reg j ≡ some q → route after j ≡ some q
    route_kept j q h =
        ground (arith, route-register (key_of te) j te p reg, key_eqb_iff (key_of te) j)

    route_self : route after (key_of te) ≡ some p
    route_self = ground (
      arith,
      route-register (key_of te) (key_of te) te p reg,
      key_eqb_iff (key_of te) (key_of te),
    )

    own_key : (j : Key) → route after j ≡ some p → has_key j (e.tunnels ++ te ∷ []) ≡ true
    own_key j h = rw (has_key-append j e.tunnels (te ∷ [])) (elim (==_dec (key_of te) j) [
      | inl same ↦ ground (arith, key_eqb_iff (key_of te) j)
      | inr other ↦
          let before : route reg j ≡ some p =
            ground (arith, route-register (key_of te) j te p reg) in
          let (f, old, has) = ok.backed j p before in
          let one : e ≡ f = live_same reg p p e f live old refl in
          let has_e : has_key j e.tunnels ≡ true = rw one has in ground arith
    ])

    pub register-IsConsistent : IsConsistent after
    register-IsConsistent =
        update-IsConsistent reg after p e (append_tunnel te e) live refl entries_after by_id_after
          ok
          (All-append _ e.tunnels (te ∷ [])
            (All-mono e.tunnels (λ t h. route_kept (key_of t) p h) (ok.routed p e live))
            (route_self, tt))
          (DistinctKeys-append e.tunnels te (ok.distinct p e live)
            (no_key_of-route reg (key_of te) p e.tunnels (ok.routed p e live) (λ h. cc)))
          (λ j q ne h. route_kept j q h) own_key
          (λ j q ne h.
            ground (arith, route-register (key_of te) j te p reg, key_eqb_iff (key_of te) j))
