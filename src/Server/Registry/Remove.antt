-- ===== src/Server/Registry/Remove.antt =====
-- Removing a client drops its routes and no other, and keeps the registry consistent.
use nnel.Base.{
  ℕ, ◌≡◌, ◌≢◌, ap, subst, inl, inr, true, false, none, some, List, [], Text, ==_dec, lookup, delete,
  lookup-delete, get_elem?, All-mono, Option-cases, text_eq, text_eqb, text_eqb_iff, nat_eq, arith,
  if◌then◌else◌,
}
use nnel.Server.Registry.{
  Registry, ClientEntry, TunnelEntry, unroute_all, tunnels_at, remove_client, closed_listeners,
}
use nnel.Server.Registry.Routes.{
  Key, key_eq, key_of, has_key, route, route-unroute_all, unroute_all_keeps,
}
use nnel.Server.Registry.Consistent.{IsConsistent, IsLive, live_same, live_unique, no_key_of-route}

pub drop_client : Text → List TunnelEntry → Registry → Registry
drop_client id ts reg = record (unroute_all ts reg) { by_id = delete id reg.by_id }

pub remove_client_lem :
    (id : Text) (reg : Registry) (p : ℕ) (e : ClientEntry)
    → IsLive reg p e
    → e.id ≡ id
    → remove_client id reg ≡ (drop_client id e.tunnels reg, closed_listeners e.tunnels)
unfolding remove_client drop_client
remove_client_lem id reg p e (at, known) same =
    let found : lookup id reg.by_id ≡ some p = rw same at known in
    rw (found, at, remove_client, tunnels_at)

pub remove_client_unknown :
    (id : Text) (reg : Registry) → lookup id reg.by_id ≡ none → remove_client id reg ≡ (reg, [])
unfolding remove_client
remove_client_unknown id reg h = rw (h, remove_client)

pub route-drop_client :
    (id : Text) (ts : List TunnelEntry) (reg : Registry) (k : Key)
    → route (drop_client id ts reg) k ≡ (if has_key k ts then none else route reg k)
unfolding drop_client route
route-drop_client id ts reg (Key.subdomain s) = route-unroute_all ts (Key.subdomain s) reg
route-drop_client id ts reg (Key.port s) = route-unroute_all ts (Key.port s) reg

pub entries-drop_client :
    (id : Text) (ts : List TunnelEntry) (reg : Registry)
    → (drop_client id ts reg).entries ≡ reg.entries
unfolding drop_client
entries-drop_client id ts reg = (unroute_all_keeps ts reg).1

pub lookup-drop_client :
    (id j : Text) (ts : List TunnelEntry) (reg : Registry)
    → lookup j (drop_client id ts reg).by_id ≡ (if text_eqb id j then none else lookup j reg.by_id)
unfolding drop_client
lookup-drop_client id j ts reg = lookup-delete id j reg.by_id

module _ (reg : Registry) (ok : IsConsistent reg) (p : ℕ) (e : ClientEntry)
    (live : IsLive reg p e) where
  abbrev gone : Registry
  gone = drop_client e.id e.tunnels reg

  -- The clients that stay connected are the others.
  IsLive-drop_client : (q : ℕ) (f : ClientEntry) → IsLive gone q f → (p ≢ q) × IsLive reg q f
  IsLive-drop_client q f (at, known) =
      let before : IsLive reg q f = (
        rw (entries-drop_client e.id e.tunnels reg) at at,
        ground (arith, lookup-drop_client e.id f.id e.tunnels reg),
      ) in
      (
        λ same.
            let one : e ≡ f = live_same reg p q e f live before same in
            ground (
              arith,
              lookup-drop_client e.id f.id e.tunnels reg,
              text_eqb_iff e.id f.id,
              ap (λ (c : ClientEntry). c.id) one,
            ),
        before,
      )

  IsLive-after_drop : (q : ℕ) (f : ClientEntry) → p ≢ q → IsLive reg q f → IsLive gone q f
  IsLive-after_drop q f ne old = (
    rw (entries-drop_client e.id e.tunnels reg) old.0,
    elim (==_dec e.id f.id) [
      | inl same ↦ absurd (ne (live_unique reg p q e f live old same).0)
      | inr other ↦ rw (lookup-drop_client e.id f.id e.tunnels reg, other) old.1
    ],
  )

  -- The keys of the other clients are not among those dropped.
  kept_key : (q : ℕ) (k : Key) → p ≢ q → route reg k ≡ some q → has_key k e.tunnels ≡ false
  kept_key q k ne h =
      no_key_of-route reg k p e.tunnels (ok.routed p e live) (λ to_p. ne (ground arith))

  route_kept : (q : ℕ) (k : Key) → p ≢ q → route reg k ≡ some q → route gone k ≡ some q
  route_kept q k ne h = rw (route-drop_client e.id e.tunnels reg k, kept_key q k ne h) h

  named_after :
      (id : Text) (q : ℕ)
      → lookup id gone.by_id ≡ some q
      → (f : ClientEntry) × (get_elem? gone.entries q ≡ some f) × (f.id ≡ id)
  named_after id q known =
      let before : lookup id reg.by_id ≡ some q =
        ground (arith, lookup-drop_client e.id id e.tunnels reg) in
      let (f, at, name) = ok.named id q before in
      (f, rw (entries-drop_client e.id e.tunnels reg) at, name)

  backed_after :
      (k : Key) (q : ℕ)
      → route gone k ≡ some q
      → (f : ClientEntry) × IsLive gone q f × (has_key k f.tunnels ≡ true)
  backed_after k q h =
      let none_dropped : has_key k e.tunnels ≡ false =
        ground (arith, route-drop_client e.id e.tunnels reg k) in
      let before : route reg k ≡ some q = ground (arith, route-drop_client e.id e.tunnels reg k) in
      let (f, old, has) = ok.backed k q before in
      (
        f,
        IsLive-after_drop q f
            (λ same.
              let one : e ≡ f = live_same reg p q e f live old same in
              let both : has_key k e.tunnels ≡ true = rw one has in ground arith)
            old,
        has,
      )

  drop_client-IsConsistent : IsConsistent gone
  drop_client-IsConsistent = record {
    named = named_after;
    routed = λ q f l.
        let (ne, old) = IsLive-drop_client q f l in
        All-mono f.tunnels (λ t h. route_kept q (key_of t) ne h) (ok.routed q f old);
    distinct = λ q f l. ok.distinct q f (IsLive-drop_client q f l).1;
    backed = backed_after;
  }

pub remove_client-IsConsistent :
    (id : Text) (reg : Registry) → IsConsistent reg → IsConsistent (remove_client id reg).0
remove_client-IsConsistent id reg ok = elim (Option-cases (lookup id reg.by_id)) [
  | inl unknown ↦ rw (remove_client_unknown id reg unknown) ok
  | inr (p, known) ↦
      let (e, at, name) = ok.named id p known in
      let live : IsLive reg p e = (at, rw name known) in
      rw (remove_client_lem id reg p e live name) (
        subst (λ j. IsConsistent (drop_client j e.tunnels reg)) name
          (drop_client-IsConsistent reg ok p e live))
]
