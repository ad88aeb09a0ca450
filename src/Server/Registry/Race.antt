-- ===== src/Server/Registry/Race.antt =====
-- Registration under interleaving. registerHTTP in internal/server/control.go first asks the registry
-- whether the subdomain is taken, and registers it in a second critical section. Here two clients
-- ask before either registers.
use nnel.Base.{
  ℕ, ◌≡◌, ◌≢◌, refl, sym, false, Bool-cases, inl, inr, text_eqb, text_eqb_iff, none, some, [], ◌∷◌,
  Text, lookup, text_eq, arith,
}
use nnel.Server.Registry.{
  Registry, ClientEntry, TunnelEntry, append_tunnel, is_some, is_subdomain_taken, register_http,
  remove_client,
}
use nnel.Server.Registry.Routes.{Key, key_eq, key_eqb_iff, key_of, route}
use nnel.Server.Registry.Consistent.{IsLive, live_unique}
use nnel.Server.Registry.Update.{IsLive-other}
use nnel.Server.Registry.Register
use nnel.Server.Registry.Register.{
  register, register_http_lem, route-register, has_key-append, IsLive-after_register,
}
use nnel.Server.Registry.Remove.{
  drop_client, remove_client_lem, route-drop_client, entries-drop_client, lookup-drop_client,
}

module _ (sub : Text) (a b : TunnelEntry) (p q : ℕ) (e f : ClientEntry) (reg : Registry)
    (key_a : key_of a ≡ Key.subdomain sub) (key_b : key_of b ≡ Key.subdomain sub)
    (live_e : IsLive reg p e) (live_f : IsLive reg q f) (others : p ≢ q) where
  abbrev first : Registry
  first = register (key_of a) a p reg

  abbrev both : Registry
  both = register (key_of b) b q first

  f-IsLive : IsLive first q f
  f-IsLive =
      IsLive-other reg first p e (append_tunnel a e) live_e refl
        (Register.entries_after a p e reg live_e) (Register.by_id_after a p e reg live_e) q f others
        live_f

  e-IsLive : IsLive both p (append_tunnel a e)
  e-IsLive =
      IsLive-other first both q f (append_tunnel b f) f-IsLive refl
        (Register.entries_after b q f first f-IsLive) (Register.by_id_after b q f first f-IsLive) p
        (append_tunnel a e) (λ same. others (sym same)) (IsLive-after_register a p e reg live_e)

  first_registers : register_http e.id sub a reg ≡ some first
  first_registers = rw key_a (register_http_lem e.id sub a reg p live_e.1)

  second_registers : register_http f.id sub b first ≡ some both
  second_registers = rw key_b (register_http_lem f.id sub b first q f-IsLive.1)

  abbrev gone : Registry
  gone = drop_client e.id (append_tunnel a e).tunnels both

  no_route : route gone (Key.subdomain sub) ≡ none
  no_route =
      rw
        (
          route-drop_client e.id (append_tunnel a e).tunnels both (Key.subdomain sub),
          has_key-append (Key.subdomain sub) e.tunnels (a ∷ []),
        )
        (ground (arith, key_eqb_iff (key_of a) (Key.subdomain sub)))

  f_stays : IsLive gone q (append_tunnel b f)
  f_stays =
      let f_both : IsLive both q (append_tunnel b f) = IsLive-after_register b q f first f-IsLive in
      (
        rw (entries-drop_client e.id (append_tunnel a e).tunnels both) f_both.0,
        rw (lookup-drop_client e.id f.id (append_tunnel a e).tunnels both)
            (elim (Bool-cases (text_eqb e.id f.id)) [
              | inl same ↦ absurd (
                  others
                    (live_unique reg p q e f live_e live_f ((text_eqb_iff e.id f.id).0 same)).0)
              | inr other ↦ rw other f_both.1
            ]),
      )

  -- Two clients that register one subdomain, as they can when both have asked before whether it is
  -- taken, are both served, for neither call looks again. When the first of them leaves, the
  -- subdomain is free for all others, although the second is still connected and has its tunnel.
  pub both-register_http :
      (s s' : Registry) × (register_http e.id sub a reg ≡ some s)
      × (register_http f.id sub b s ≡ some s')
      × (is_subdomain_taken sub (remove_client e.id s').0 ≡ false)
      × IsLive (remove_client e.id s').0 q (append_tunnel b f)
  unfolding is_subdomain_taken route
  both-register_http = (
    first,
    both,
    first_registers,
    second_registers,
    rw (remove_client_lem e.id both p (append_tunnel a e) e-IsLive refl)
        ((let free : lookup sub gone.by_subdomain ≡ none = no_route in rw (free, is_some) refl)),
    rw (remove_client_lem e.id both p (append_tunnel a e) e-IsLive refl) f_stays,
  )
