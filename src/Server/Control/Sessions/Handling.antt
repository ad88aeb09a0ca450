-- ===== src/Server/Control/Sessions/Handling.antt =====
-- What a message of a connected client leaves as it is.
use nnel.Base.{
  ℕ, ◌≡◌, refl, sym, ap, ◌∙◌, inl, inr, Bool-cases, Option-cases, Option, none, some, List, [], ◌∷◌,
  ℤ, Text, text_eqb, text_eqb_iff, text_eq, ◌==◌, Bool, true, false, if◌then◌else◌, lookup, Result,
  arith,
}
use nnel.Proto.{
  Envelope, RegisterTunnel, PromoteError, payload, unmarshal_register_tunnel,
  unmarshal_promote_error, type_register_tunnel, type_heartbeat, type_promote_error,
}
use nnel.Server.Registry.{Registry, ClientEntry}
use nnel.Server.Registry.Routes.{Key, key_eq, key_eqb_iff, key_of, route}
use nnel.Server.Registry.Consistent.{IsConsistent, IsLive}
use nnel.Server.Registry.Owner.{owner, without_owner, owner_of_route, owner-none}
use nnel.Server.State.{Server}
use nnel.Server.Sound.{IsSound}
use nnel.Server.Url.{Url}
use nnel.Server.Control.{
  Handled, Reply, tunnel_error, tunnel_registered, handle_message, handle_promote_error,
}
use nnel.Server.Control.Registering.{Answered, handle_register-Answered}

-- Some connected client has this id.
abbrev pub IsConnected : Registry → Text → Type 0
IsConnected reg id = (p : ℕ) × (e : ClientEntry) × IsLive reg p e × (e.id ≡ id)

-- After a message of the client `id` the state is sound, the client is still connected, no key of
-- another client has changed hands, and the deployed apps and the settings are the same.
abbrev pub Kept : Text → Server → Handled → Type 0
Kept id s none = ⊥
Kept id s (some (s', replies)) =
    IsSound s'
    × IsConnected s'.registry id
    × ((k : Key) → without_owner id (owner s'.registry k) ≡ without_owner id (owner s.registry k))
    × (s'.deployed_apps ≡ s.deployed_apps)

pub Kept-same :
    (id : Text) (s : Server) (replies : List Reply)
    → IsSound s
    → IsConnected s.registry id
    → Kept id s (some (s, replies))
Kept-same id s replies sound connected = (sound, connected, (λ k. refl), refl)

-- Who holds a key is connected.
IsConnected-owner :
    (reg : Registry) (k : Key) (id : Text)
    → IsConsistent reg
    → owner reg k ≡ some id
    → IsConnected reg id
IsConnected-owner reg k id consistent h = elim (Option-cases (route reg k)) [
  | inl free ↦ absurd (ground (arith, owner-none reg k free))
  | inr (q, to) ↦
      let (f, live, _) = consistent.backed k q to in
      let named : some f.id ≡ some id = sym (owner_of_route reg k q f to live.0) ∙ h in
      (q, f, live, ground arith)
]

-- A key that was free, and is given to the client.
without_given :
    (id : Text) (given : Bool) (before : Option Text)
    → (given ≡ true → before ≡ none)
    → without_owner id (if given then some id else before) ≡ without_owner id before
without_given id true before free = rw (free refl) (ground (arith, text_eqb_iff id id))
without_given id false before free = refl

Kept-Answered :
    (s : Server) (e : ClientEntry) (reg : RegisterTunnel) (r : Handled)
    → IsSound s
    → IsConnected s.registry e.id
    → Answered s e reg r
    → Kept e.id s r
Kept-Answered s e reg (some (s', tunnel_error name problem ∷ [])) sound connected (_, same) =
    rw same (Kept-same e.id s (tunnel_error name problem ∷ []) sound connected)
Kept-Answered s e reg (some (s', tunnel_registered name url ∷ [])) sound connected
      (_, te, _, _, free, owners, ok', same) =
    (
      record {
        consistent = ok';
        keyed = rw (ap (λ (t : Server). t.deployed_apps) same) sound.keyed;
      },
      IsConnected-owner s'.registry (key_of te) e.id ok'
          (owners (key_of te) ∙ ground (arith, key_eqb_iff (key_of te) (key_of te))),
      (λ k.
          ap (without_owner e.id) (owners k)
          ∙ without_given e.id (key_of te == k) (owner s.registry k) (λ same_key.
            ap (owner s.registry) (sym ((key_eqb_iff (key_of te) k).0 same_key)) ∙ free)),
      ap (λ (t : Server). t.deployed_apps) same,
    )
Kept-Answered s e reg _ sound connected h = absurd h

Kept-promote_error :
    (id : Text) (s : Server) (pe : PromoteError)
    → IsSound s
    → IsConnected s.registry id
    → Kept id s (some (handle_promote_error s pe, []))
unfolding handle_promote_error
Kept-promote_error id s pe sound connected =
    elim (Option-cases (lookup pe.tunnel_name s.pending_builds)) [
      | inl missing ↦ rw (missing, handle_promote_error) (Kept-same id s [] sound connected)
      | inr (b, found) ↦
          rw (found, handle_promote_error)
            (
              record { consistent = sound.consistent; keyed = sound.keyed },
              connected,
              (λ k. refl),
              refl,
            )
    ]

-- Whatever the message is.
pub Kept-message :
    (parse_url : Text → Option Url) (listen : ℤ → Result Text ℕ) (s : Server) (p : ℕ)
    (e : ClientEntry) (env : Envelope)
    → IsSound s
    → IsLive s.registry p e
    → Kept e.id s (handle_message parse_url listen s e.id env)
unfolding handle_message
Kept-message parse_url listen s p e env sound live =
    elim (Bool-cases (text_eqb env.type type_register_tunnel)) [
      | inl is_reg ↦ rw is_reg (elim (Option-cases (payload unmarshal_register_tunnel env)) [
        | inl bad ↦ rw bad ignored
        | inr (reg, read) ↦ rw read (
            Kept-Answered s e reg _ sound (p, e, live, refl)
              (handle_register-Answered parse_url listen s p e reg live sound.consistent))
      ])
      | inr not_reg ↦ rw not_reg (elim (Bool-cases (text_eqb env.type type_heartbeat)) [
        | inl beat ↦ rw beat ignored
        | inr no_beat ↦ rw no_beat (elim (Bool-cases (text_eqb env.type type_promote_error)) [
          | inl is_pe ↦ rw is_pe (elim (Option-cases (payload unmarshal_promote_error env)) [
            | inl bad ↦ rw bad ignored
            | inr (pe, read) ↦ rw read (Kept-promote_error e.id s pe sound (p, e, live, refl))
          ])
          | inr other ↦ rw other ignored
        ])
      ])
    ]
  where
    ignored : Kept e.id s (some (s, []))
    ignored = Kept-same e.id s [] sound (p, e, live, refl)
