-- ===== src/Server/Deploy/Evicting.antt =====
-- The eviction of the tunnel on a subdomain, in handlePromoteUpload of internal/server/deploy.go.
use nnel.Base.{ℕ, ◌≡◌, refl, ◌∙◌, inl, inr, none, some, Option-cases, Text, text_eq, arith}
use nnel.Server.Registry.{
  Registry, ClientEntry, TunnelEntry, find_tunnel, lookup_http, remove_tunnel_by_name,
}
use nnel.Server.Registry.Routes.{Key, key_eq, key_eqb_iff, key_of, route}
use nnel.Server.Registry.Consistent.{IsConsistent, IsLive}
use nnel.Server.Registry.Evict.{
  evict, route-evict, remove_tunnel_by_name_lem, remove_tunnel_by_name-IsConsistent,
}
use nnel.Server.Deploy.{evict_tunnel}

-- The first tunnel of that name of the client that holds the subdomain, if one does, is the one on it.
abbrev pub NamedBySubdomain : Registry → Text → Type 0
NamedBySubdomain reg name =
    (p : ℕ) (e : ClientEntry)
    → IsLive reg p e
    → lookup_http name reg ≡ some p
    → (t : TunnelEntry) × (find_tunnel name e.tunnels ≡ some t) × (key_of t ≡ Key.subdomain name)

pub evict_tunnel_free :
    (name : Text) (reg : Registry)
    → lookup_http name reg ≡ none
    → evict_tunnel name reg ≡ (reg, none)
unfolding evict_tunnel lookup_http
evict_tunnel_free name reg h = rw (h, evict_tunnel)

pub evict_tunnel_held :
    (name : Text) (reg : Registry) (p : ℕ) (e : ClientEntry)
    → IsLive reg p e
    → lookup_http name reg ≡ some p
    → evict_tunnel name reg ≡ ((remove_tunnel_by_name e.id name reg).0, some p)
unfolding evict_tunnel lookup_http
evict_tunnel_held name reg p e live h = rw (h, live.0, evict_tunnel)

pub holder :
    (name : Text) (reg : Registry) (p : ℕ)
    → IsConsistent reg
    → lookup_http name reg ≡ some p
    → (e : ClientEntry) × IsLive reg p e
unfolding lookup_http
holder name reg p consistent h =
    let (e, live, _) = consistent.backed (Key.subdomain name) p (unfold route in h) in (e, live)

pub evict_tunnel-IsConsistent :
    (name : Text) (reg : Registry) → IsConsistent reg → IsConsistent (evict_tunnel name reg).0
evict_tunnel-IsConsistent name reg consistent = elim (Option-cases (lookup_http name reg)) [
  | inl free ↦ rw (evict_tunnel_free name reg free) consistent
  | inr (p, held) ↦
      let (e, live) = holder name reg p consistent held in
      rw (evict_tunnel_held name reg p e live held)
        (remove_tunnel_by_name-IsConsistent e.id name reg consistent)
]

pub evict_tunnel_frees :
    (name : Text) (reg : Registry)
    → IsConsistent reg
    → NamedBySubdomain reg name
    → lookup_http name (evict_tunnel name reg).0 ≡ none
evict_tunnel_frees name reg consistent named = elim (Option-cases (lookup_http name reg)) [
  | inl free ↦ rw (evict_tunnel_free name reg free) free
  | inr (p, held) ↦
      let (e, live) = holder name reg p consistent held in
      let (t, hit, key) = named p e live held in
      rw
        (
          evict_tunnel_held name reg p e live held,
          remove_tunnel_by_name_lem e.id name reg p e t live refl hit,
        )
        (gone t p key)
]
  where
    gone :
        (t : TunnelEntry) (p : ℕ)
        → key_of t ≡ Key.subdomain name
        → lookup_http name (evict name t p reg) ≡ none
    gone t p key =
        unfold lookup_http route in
        (route-evict name t p reg (Key.subdomain name)
          ∙ ground (arith, key_eqb_iff (key_of t) (Key.subdomain name)))
