-- ===== src/Server/Registry/Routes.antt =====
-- The two routing maps of the registry seen as one, from the keys of tunnels to client pointers.
use nnel.Base.{
  ℕ, ◌≡◌, refl, ◌↔◌, Bool, true, false, Option, none, some, List, [], ◌∷◌, ℤ, Text, ◌==◌, Eq,
  if◌then◌else◌, any, lookup, insert, lookup-insert, lookup-delete, text_eq, int_eq, text_eqb,
  text_eqb_iff, int_eqb, int_eqb_iff, arith,
}
use nnel.Server.Registry.{
  Registry, TunnelType, http, tcp, TunnelEntry, drop_route, unroute, unroute_all,
}

pub data Key : Type 0 where
  subdomain : Text → Key
  port : ℤ → Key

abbrev pub key_eqb : Key → Key → Bool
key_eqb (subdomain s) (subdomain t) = text_eqb s t
key_eqb (port p) (port q) = int_eqb p q
key_eqb (subdomain s) (port q) = false
key_eqb (port p) (subdomain t) = false

pub key_eqb_iff : (a b : Key) → (key_eqb a b ≡ true) ↔ (a ≡ b)
key_eqb_iff (subdomain s) (subdomain t) = ground (arith, text_eqb_iff s t)
key_eqb_iff (port p) (port q) = ground (arith, int_eqb_iff p q)
key_eqb_iff (subdomain s) (port q) = ground arith
key_eqb_iff (port p) (subdomain t) = ground arith

instance abbrev pub key_eq : Eq Key
key_eq = record { eqb = key_eqb; eqb_iff = key_eqb_iff }

abbrev pub key_for : TunnelType → Text → ℤ → Key
key_for http s p = subdomain s
key_for tcp s p = port p

-- What a tunnel is reached by.
abbrev pub key_of : TunnelEntry → Key
key_of t = key_for t.tunnel_type t.subdomain t.remote_port

abbrev pub has_key : Key → List TunnelEntry → Bool
has_key k ts = any (λ t. key_of t == k) ts

unfoldable pub route : Registry → Key → Option ℕ
route reg (subdomain s) = lookup s reg.by_subdomain
route reg (port p) = lookup p reg.by_port

-- The registry with a route put in.
abbrev pub put_route : Key → ℕ → Registry → Registry
put_route (subdomain s) p reg = record reg { by_subdomain = insert s p reg.by_subdomain }
put_route (port q) p reg = record reg { by_port = insert q p reg.by_port }

pub route-put_route :
    (k j : Key) (p : ℕ) (reg : Registry)
    → route (put_route k p reg) j ≡ (if k == j then some p else route reg j)
unfolding route
route-put_route (subdomain s) (subdomain t) p reg = lookup-insert s t p reg.by_subdomain
route-put_route (port s) (port t) p reg = lookup-insert s t p reg.by_port
route-put_route (subdomain s) (port t) p reg = refl
route-put_route (port s) (subdomain t) p reg = refl

pub route-drop_route :
    (ty : TunnelType) (s : Text) (p : ℤ) (k : Key) (reg : Registry)
    → route (drop_route ty s p reg) k ≡ (if key_for ty s p == k then none else route reg k)
unfolding route drop_route
route-drop_route http s p (subdomain t) reg = lookup-delete s t reg.by_subdomain
route-drop_route http s p (port t) reg = refl
route-drop_route tcp s p (subdomain t) reg = refl
route-drop_route tcp s p (port t) reg = lookup-delete p t reg.by_port

-- Dropping the routes of a list of tunnels drops their keys, and no other.
pub route-unroute_all :
    (ts : List TunnelEntry) (k : Key) (reg : Registry)
    → route (unroute_all ts reg) k ≡ (if has_key k ts then none else route reg k)
unfolding unroute_all
route-unroute_all [] k reg = refl
route-unroute_all (t ∷ ts) k reg = ground (
  arith,
  route-unroute_all ts k (unroute t reg),
  route-drop_route t.tunnel_type t.subdomain t.remote_port k reg,
)

-- Routing is all that is changed.
pub drop_route_keeps :
    (ty : TunnelType) (s : Text) (p : ℤ) (reg : Registry)
    → ((drop_route ty s p reg).by_id ≡ reg.by_id) × ((drop_route ty s p reg).entries ≡ reg.entries)
unfolding drop_route
drop_route_keeps http s p reg = (refl, refl)
drop_route_keeps tcp s p reg = (refl, refl)

pub unroute_all_keeps :
    (ts : List TunnelEntry) (reg : Registry)
    → ((unroute_all ts reg).by_id ≡ reg.by_id) × ((unroute_all ts reg).entries ≡ reg.entries)
unfolding unroute_all
unroute_all_keeps [] reg = (refl, refl)
unroute_all_keeps (t ∷ ts) reg = ground (
  arith,
  unroute_all_keeps ts (unroute t reg),
  drop_route_keeps t.tunnel_type t.subdomain t.remote_port reg,
)
