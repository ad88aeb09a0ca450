-- ===== src/Server/Control/Registering.antt =====
-- What a request to register a tunnel does to the state, and what the client is told.
use nnel.Base.{
  ℕ, ◌≡◌, refl, ◌⊎◌, inl, inr, true, Option, none, some, [], ◌∷◌, Bool-cases, Option-cases, ℤ, pos,
  Text, text, text_eqb, text_eqb_iff, int_eqb, int_eqb_iff, ◌==◌, text_eq, int_eq, lookup,
  if◌then◌else◌, Result, ok, err,
}
use nnel.Proto.{RegisterTunnel}
use nnel.Server.Registry.{
  ClientEntry, TunnelEntry, TunnelType, http, tcp, is_subdomain_taken, is_port_taken, is_some,
}
use nnel.Server.Registry.Routes.{Key, key_eq, key_of, route}
use nnel.Server.Registry.Consistent.{IsConsistent, IsLive}
use nnel.Server.Registry.Register.{
  register, register_http_lem, register_tcp_lem, register-IsConsistent,
}
use nnel.Server.Registry.Owner.{owner, owner-none, owner-register}
use nnel.Server.State.{Server}
use nnel.Server.Ports.{PickError, pick_tcp_port}
use nnel.Server.Url.{Url, build_public_http_url}
use nnel.Server.Control.{
  Handled, tunnel_error, tunnel_registered, no_port, refuse, registered, wanted_subdomain,
  http_entry, tcp_entry, is_allowed_port, tcp_public_url, handle_register_http, handle_register_tcp,
  handle_register, on_port, listening,
}

-- The tunnel is of the type that was asked for, under a key that the server may give.
abbrev pub Grants : Server → RegisterTunnel → TunnelType → TunnelEntry → Type 0
Grants s reg http te =
    (reg.type ≡ text "http")
    × (te.subdomain ≡ wanted_subdomain reg)
    × (lookup te.subdomain s.deployed_apps ≡ none)
Grants s reg tcp te =
    (reg.type ≡ text "tcp")
    × (is_allowed_port s.cfg te.remote_port ≡ true)
    × ((reg.remote_port ≡ te.remote_port)
        ⊎ ((reg.remote_port ≡ pos 0) × (pick_tcp_port s.cfg s.registry ≡ ok te.remote_port)))

-- What an answer to a request of the client `e` means for the state before and after.
abbrev pub Answered : Server → ClientEntry → RegisterTunnel → Handled → Type 0
Answered s e reg (some (s', tunnel_error name problem ∷ [])) = (name ≡ reg.name) × (s' ≡ s)
Answered s e reg (some (s', tunnel_registered name url ∷ [])) =
    (name ≡ reg.name)
    × (te : TunnelEntry) × (te.name ≡ reg.name)
    × Grants s reg te.tunnel_type te
    × (owner s.registry (key_of te) ≡ none)
    × ((k : Key) → owner s'.registry k ≡ (if key_of te == k then some e.id else owner s.registry k))
    × IsConsistent s'.registry
    × (s' ≡ record s { registry = s'.registry })
Answered s e reg _ = ⊥

module _ (parse_url : Text → Option Url) (listen : ℤ → Result Text ℕ) (s : Server) (p : ℕ)
    (e : ClientEntry) (reg : RegisterTunnel) (live : IsLive s.registry p e)
    (consistent : IsConsistent s.registry) where
  Answered-registered :
      (te : TunnelEntry) (url : Text)
      → te.name ≡ reg.name
      → Grants s reg te.tunnel_type te
      → route s.registry (key_of te) ≡ none
      → Answered s e reg (registered s reg.name url (some (register (key_of te) te p s.registry)))
  Answered-registered te url named grants free = (
    refl,
    te,
    named,
    grants,
    owner-none s.registry (key_of te) free,
    owner-register te p e s.registry live,
    register-IsConsistent te p e s.registry live consistent free,
    refl,
  )

  Answered-http :
      reg.type ≡ text "http" → Answered s e reg (handle_register_http parse_url listen s e.id reg)
  unfolding handle_register_http is_subdomain_taken
  Answered-http http_type =
      let sub = wanted_subdomain reg in
      elim (Option-cases (lookup sub s.registry.by_subdomain)) [
        | inr (q, taken) ↦ rw (taken, is_some) (refl, refl)
        | inl free ↦
            rw (free, is_some)
              (elim (Option-cases (lookup sub s.deployed_apps)) [
                | inr (app, deployed) ↦ rw (deployed, is_some) (refl, refl)
                | inl undeployed ↦
                    rw
                      (
                        undeployed,
                        is_some,
                        register_http_lem e.id sub (http_entry reg sub) s.registry p live.1,
                      )
                      (Answered-registered (http_entry reg sub)
                        (build_public_http_url parse_url s.cfg sub) refl
                        (http_type, refl, undeployed) (unfold route in free))
              ])
      ]

  Answered-port :
      (port : ℤ)
      → reg.type ≡ text "tcp"
      → ((reg.remote_port ≡ port)
          ⊎ ((reg.remote_port ≡ pos 0) × (pick_tcp_port s.cfg s.registry ≡ ok port)))
      → Answered s e reg (on_port parse_url listen s e.id reg port)
  unfolding is_port_taken
  Answered-port port tcp_type asked = elim (Bool-cases (is_allowed_port s.cfg port)) [
    | inr forbidden ↦ rw forbidden (refl, refl)
    | inl allowed ↦ rw allowed (elim (Option-cases (lookup port s.registry.by_port)) [
      | inr (q, taken) ↦ rw (taken, is_some) (refl, refl)
      | inl free ↦ rw (free, is_some) (listened free allowed (listen port))
    ])
  ]
    where
      listened :
          lookup port s.registry.by_port ≡ none
          → is_allowed_port s.cfg port ≡ true
          → (r : Result Text ℕ) → Answered s e reg (listening parse_url listen s e.id reg port r)
      listened free allowed (err message) = (refl, refl)
      listened free allowed (ok ln) =
          rw (register_tcp_lem e.id port (tcp_entry reg port ln) s.registry p live.1) (
            Answered-registered (tcp_entry reg port ln) (tcp_public_url s.cfg port) refl
              (tcp_type, allowed, asked) (unfold route in free))

  -- In a consistent registry every request of a connected client is answered once, by its name, and
  -- the server never fails. A refusal changes nothing. A grant gives the client one key that was
  -- free, of the type and the subdomain or port that were asked for, under the server's rules: no
  -- deployed app has the subdomain, the port is an allowed one, and port 0 gets the port that
  -- pickTCPPort picks. All other keys stay with their clients, the registry stays consistent, and the
  -- rest of the server is as before.
  pub handle_register-Answered : Answered s e reg (handle_register parse_url listen s e.id reg)
  unfolding handle_register handle_register_tcp
  handle_register-Answered = elim (Bool-cases (text_eqb reg.type (text "http"))) [
    | inl is_http ↦ rw is_http (Answered-http ((text_eqb_iff reg.type (text "http")).0 is_http))
    | inr not_http ↦ rw not_http (elim (Bool-cases (text_eqb reg.type (text "tcp"))) [
      | inr unknown ↦ rw unknown (refl, refl)
      | inl is_tcp ↦
          let tcp_type = (text_eqb_iff reg.type (text "tcp")).0 is_tcp in
          rw is_tcp (elim (Bool-cases (int_eqb reg.remote_port (pos 0))) [
            | inr wanted ↦ rw wanted (Answered-port reg.remote_port tcp_type (inl refl))
            | inl any_port ↦ rw any_port (
                picked tcp_type ((int_eqb_iff reg.remote_port (pos 0)).0 any_port)
                  (pick_tcp_port s.cfg s.registry) refl)
          ])
    ])
  ]
    where
      picked :
          reg.type ≡ text "tcp"
          → reg.remote_port ≡ pos 0
          → (r : Result PickError ℤ) → pick_tcp_port s.cfg s.registry ≡ r
          → Answered s e reg (elim r [
            | err problem ↦ refuse s reg.name (no_port problem)
            | ok port ↦ on_port parse_url listen s e.id reg port
          ])
      picked tcp_type any_port (err problem) h = (refl, refl)
      picked tcp_type any_port (ok port) h = Answered-port port tcp_type (inr (any_port, h))
