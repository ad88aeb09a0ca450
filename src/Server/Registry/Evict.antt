-- ===== src/Server/Registry/Evict.antt =====
-- Removing one tunnel by its name drops the route of the first tunnel so named, and no other.
use nnel.Base.{
  ℕ, ◌≡◌, refl, inl, inr, true, false, none, some, List, [], ◌∷◌, Text, ◌==◌, ==_dec, lookup, set,
  All, Bool-cases, Option-cases, text_eq, text_eqb, nat_eq, arith, if◌then◌else◌,
}
use nnel.Server.Registry.{
  Registry, ClientEntry, TunnelEntry, find_tunnel, without_tunnel, drop_tunnel, modify, unroute,
  tunnels_at, remove_tunnel_by_name, closed_by,
}
use nnel.Server.Registry.Routes.{
  Key, key_eq, key_eqb_iff, key_of, has_key, route, route-drop_route, drop_route_keeps,
}
use nnel.Server.Registry.Consistent.{
  IsConsistent, IsLive, live_same, DistinctKeys, routed_of_has_key,
}
use nnel.Server.Registry.Update.{update-IsConsistent}

pub evict : Text → TunnelEntry → ℕ → Registry → Registry
evict name t p reg = record (unroute t reg) { entries = modify p (drop_tunnel name) reg.entries }

pub remove_tunnel_by_name_lem :
    (id name : Text) (reg : Registry) (p : ℕ) (e : ClientEntry) (t : TunnelEntry)
    → IsLive reg p e
    → e.id ≡ id
    → find_tunnel name e.tunnels ≡ some t
    → remove_tunnel_by_name id name reg
      ≡ (evict name t p reg, true, closed_by t.tunnel_type t.tcp_ln)
unfolding remove_tunnel_by_name evict
remove_tunnel_by_name_lem id name reg p e t (at, known) same h =
    let found : lookup id reg.by_id ≡ some p = rw same at known in
    let hit : find_tunnel name (tunnels_at reg.entries p) ≡ some t = rw (at, tunnels_at) h in
    rw (found, hit, remove_tunnel_by_name)

pub remove_tunnel_by_name_missing :
    (id name : Text) (reg : Registry) (p : ℕ) (e : ClientEntry)
    → IsLive reg p e
    → e.id ≡ id
    → find_tunnel name e.tunnels ≡ none
    → remove_tunnel_by_name id name reg ≡ (reg, false, [])
unfolding remove_tunnel_by_name
remove_tunnel_by_name_missing id name reg p e (at, known) same h =
    let found : lookup id reg.by_id ≡ some p = rw same at known in
    let miss : find_tunnel name (tunnels_at reg.entries p) ≡ none = rw (at, tunnels_at) h in
    rw (found, miss, remove_tunnel_by_name)

remove_tunnel_by_name_unknown :
    (id name : Text) (reg : Registry)
    → lookup id reg.by_id ≡ none
    → remove_tunnel_by_name id name reg ≡ (reg, false, [])
unfolding remove_tunnel_by_name
remove_tunnel_by_name_unknown id name reg h = rw (h, remove_tunnel_by_name)

has_key-find_tunnel :
    (name : Text) (ts : List TunnelEntry) (t : TunnelEntry)
    → find_tunnel name ts ≡ some t
    → has_key (key_of t) ts ≡ true
unfolding find_tunnel
has_key-find_tunnel name [] t h = absurd (cc)
has_key-find_tunnel name (u ∷ ts) t h =
    ground (arith, has_key-find_tunnel name ts t, key_eqb_iff (key_of u) (key_of t))

-- What is left has every key but that of the removed tunnel.
has_key-without_tunnel :
    (name : Text) (ts : List TunnelEntry) (t : TunnelEntry) (k : Key)
    → DistinctKeys ts
    → find_tunnel name ts ≡ some t
    → has_key k (without_tunnel name ts) ≡ (if key_of t == k then false else has_key k ts)
unfolding find_tunnel without_tunnel
has_key-without_tunnel name [] t k d h = absurd (cc)
has_key-without_tunnel name (u ∷ ts) t k (fresh, d) h = elim (Bool-cases (text_eqb u.name name)) [
  | inl hit ↦
      let one : u ≡ t = ground arith in
      ground (arith, key_eqb_iff (key_of t) k, key_eqb_iff (key_of u) k)
  | inr miss ↦
      let later : find_tunnel name ts ≡ some t = ground arith in
      ground (
        arith,
        has_key-without_tunnel name ts t k d later,
        has_key-find_tunnel name ts t later,
        key_eqb_iff (key_of t) k,
        key_eqb_iff (key_of u) k,
      )
]

All-without_tunnel :
    (P : TunnelEntry → Type 0) (name : Text) (ts : List TunnelEntry)
    → All P ts
    → All P (without_tunnel name ts)
unfolding without_tunnel
All-without_tunnel P name [] h = tt
All-without_tunnel P name (t ∷ ts) (here, h) = ground (arith, All-without_tunnel P name ts h)

has_key-without_tunnel_le :
    (name : Text) (ts : List TunnelEntry) (k : Key)
    → has_key k ts ≡ false
    → has_key k (without_tunnel name ts) ≡ false
unfolding without_tunnel
has_key-without_tunnel_le name [] k h = refl
has_key-without_tunnel_le name (t ∷ ts) k h = ground (arith, has_key-without_tunnel_le name ts k)

DistinctKeys-without_tunnel :
    (name : Text) (ts : List TunnelEntry) → DistinctKeys ts → DistinctKeys (without_tunnel name ts)
unfolding without_tunnel
DistinctKeys-without_tunnel name [] d = tt
DistinctKeys-without_tunnel name (t ∷ ts) (fresh, d) = ground (
  arith,
  DistinctKeys-without_tunnel name ts d,
  has_key-without_tunnel_le name ts (key_of t) fresh,
)

pub route-evict :
    (name : Text) (t : TunnelEntry) (p : ℕ) (reg : Registry) (k : Key)
    → route (evict name t p reg) k ≡ (if key_of t == k then none else route reg k)
unfolding evict route
route-evict name t p reg (Key.subdomain s) =
    route-drop_route t.tunnel_type t.subdomain t.remote_port (Key.subdomain s) reg
route-evict name t p reg (Key.port s) =
    route-drop_route t.tunnel_type t.subdomain t.remote_port (Key.port s) reg

-- A tunnel of the list has none of the keys but its own.
routed_without :
    (reg after : Registry) (p : ℕ) (k : Key) (us : List TunnelEntry)
    → ((j : Key) → route after j ≡ (if k == j then none else route reg j))
    → has_key k us ≡ false
    → All (λ u. route reg (key_of u) ≡ some p) us
    → All (λ u. route after (key_of u) ≡ some p) us
routed_without reg after p k [] step missing all = tt
routed_without reg after p k (u ∷ us) step missing (here, all) = (
  ground (arith, step (key_of u), key_eqb_iff k (key_of u), key_eqb_iff (key_of u) k),
  routed_without reg after p k us step (ground arith) all,
)

module _ (name : Text) (t : TunnelEntry) (p : ℕ) (e : ClientEntry) (reg : Registry)
    (live : IsLive reg p e) (hit : find_tunnel name e.tunnels ≡ some t) where
  abbrev after : Registry
  after = evict name t p reg

  pub entries_after : after.entries ≡ set reg.entries p (drop_tunnel name e)
  unfolding evict
  entries_after = rw (live.0, modify)

  by_id_after : after.by_id ≡ reg.by_id
  unfolding evict
  by_id_after = (drop_route_keeps t.tunnel_type t.subdomain t.remote_port reg).0

  module _ (ok : IsConsistent reg) where
    pub route_evicted : route reg (key_of t) ≡ some p
    route_evicted =
        routed_of_has_key reg (key_of t) p e.tunnels (ok.routed p e live)
          (has_key-find_tunnel name e.tunnels t hit)

    no_key_left : has_key (key_of t) (without_tunnel name e.tunnels) ≡ false
    no_key_left = ground (
      arith,
      has_key-without_tunnel name e.tunnels t (key_of t) (ok.distinct p e live) hit,
      key_eqb_iff (key_of t) (key_of t),
    )

    own_key : (j : Key) → route after j ≡ some p → has_key j (without_tunnel name e.tunnels) ≡ true
    own_key j h = elim (==_dec (key_of t) j) [
      | inl same ↦ absurd (ground (arith, route-evict name t p reg j, key_eqb_iff (key_of t) j))
      | inr other ↦
          let before : route reg j ≡ some p = ground (arith, route-evict name t p reg j) in
          let (f, old, has) = ok.backed j p before in
          let one : e ≡ f = live_same reg p p e f live old refl in
          let has_e : has_key j e.tunnels ≡ true = rw one has in
          ground (arith, has_key-without_tunnel name e.tunnels t j (ok.distinct p e live) hit)
    ]

    evict-IsConsistent : IsConsistent after
    evict-IsConsistent =
        update-IsConsistent reg after p e (drop_tunnel name e) live refl entries_after by_id_after
          ok
          (routed_without reg after p (key_of t) (without_tunnel name e.tunnels)
            (route-evict name t p reg) no_key_left
            (All-without_tunnel _ name e.tunnels (ok.routed p e live)))
          (DistinctKeys-without_tunnel name e.tunnels (ok.distinct p e live))
          (λ j q ne h.
            ground (arith, route-evict name t p reg j, route_evicted, key_eqb_iff (key_of t) j))
          own_key (λ j q ne h. ground (arith, route-evict name t p reg j, key_eqb_iff (key_of t) j))

pub remove_tunnel_by_name-IsConsistent :
    (id name : Text) (reg : Registry)
    → IsConsistent reg
    → IsConsistent (remove_tunnel_by_name id name reg).0
remove_tunnel_by_name-IsConsistent id name reg ok = elim (Option-cases (lookup id reg.by_id)) [
  | inl unknown ↦ rw (remove_tunnel_by_name_unknown id name reg unknown) ok
  | inr (p, known) ↦
      let (e, at, same) = ok.named id p known in
      let live : IsLive reg p e = (at, rw same known) in
      elim (Option-cases (find_tunnel name e.tunnels)) [
        | inl miss ↦ rw (remove_tunnel_by_name_missing id name reg p e live same miss) ok
        | inr (t, hit) ↦
            rw (remove_tunnel_by_name_lem id name reg p e t live same hit)
              (evict-IsConsistent name t p e reg live hit ok)
      ]
]
