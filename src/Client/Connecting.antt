-- ===== src/Client/Connecting.antt =====
-- What the client asks for when it connects.
use nnel.Base.{
  ◌≡◌, refl, ap, inl, inr, Bool, true, false, Option, none, some, Bool-cases, List, [], ◌∷◌, map,
  text_eqb, text_eqb_iff, text_eq, ◌≤◌, length, arith,
}
use nnel.Config.{ClientConfig, TunnelConfig}
use nnel.Proto.{Envelope, type_auth_ack}
use nnel.Client.{
  Sent, auth, register_tunnel, ConnectError, auth_message, register_message, after_ack,
  register_all, read_answers, connect,
}

-- The registrations of a list of tunnels.
abbrev pub requests : List TunnelConfig → List Sent
requests ts = map (λ t. register_tunnel (register_message t)) ts

register_all_done :
    (ts : List TunnelConfig) (sends : List Bool)
    → (register_all ts sends).1 ≡ none
    → (register_all ts sends).0 ≡ requests ts
unfolding register_all
register_all_done [] sends h = refl
register_all_done (t ∷ ts) [] h =
    ap (◌∷◌ (register_tunnel (register_message t))) (register_all_done ts [] h)
register_all_done (t ∷ ts) (true ∷ sends) h =
    ap (◌∷◌ (register_tunnel (register_message t))) (register_all_done ts sends h)
register_all_done (t ∷ ts) (false ∷ sends) h = absurd (cc)

read_answers_done :
    (ts : List TunnelConfig) (answers : List (Option Envelope))
    → read_answers ts answers ≡ none
    → length ts ≤ length answers
unfolding read_answers
read_answers_done [] answers h = omega arith
read_answers_done (t ∷ ts) [] h = absurd (cc)
read_answers_done (t ∷ ts) (none ∷ answers) h = absurd (cc)
read_answers_done (t ∷ ts) (some env ∷ answers) h = omega (arith, read_answers_done ts answers h)

after_ack_done :
    (cfg : ClientConfig) (answers : List (Option Envelope)) (r : List Sent × Option ConnectError)
    → (r.1 ≡ none → r.0 ≡ requests cfg.tunnels)
    → (after_ack cfg answers r).1 ≡ none
    → ((after_ack cfg answers r).0 ≡ auth (auth_message cfg) ∷ requests cfg.tunnels)
      × (length cfg.tunnels ≤ length answers)
after_ack_done cfg answers (sent, some problem) all h = absurd (cc)
after_ack_done cfg answers (sent, none) all h =
    (ap (◌∷◌ (auth (auth_message cfg))) (all refl), read_answers_done cfg.tunnels answers h)

-- A connection succeeds only after the server has acknowledged the client. Then the client has sent
-- its credentials and, after them, one registration for each tunnel of its configuration, in their
-- order, and has read an answer to each.
pub connect_done :
    (cfg : ClientConfig) (can_send : Bool) (first : Option Envelope) (sends : List Bool)
    (answers : List (Option Envelope))
    → (connect cfg can_send first sends answers).1 ≡ none
    → (env : Envelope) × (first ≡ some env)
      × (env.type ≡ type_auth_ack)
      × ((connect cfg can_send first sends answers).0
          ≡ auth (auth_message cfg) ∷ requests cfg.tunnels)
      × (length cfg.tunnels ≤ length answers)
unfolding connect
connect_done cfg false first sends answers h = absurd (cc)
connect_done cfg true none sends answers h = absurd (cc)
connect_done cfg true (some env) sends answers h =
    elim (Bool-cases (text_eqb env.type type_auth_ack)) [
      | inl ack ↦
          let (sent, enough) =
            after_ack_done cfg answers (register_all cfg.tunnels sends)
              (register_all_done cfg.tunnels sends) (rw ack at h) in
          (env, refl, (text_eqb_iff env.type type_auth_ack).0 ack, rw ack sent, enough)
      | inr other ↦ absurd (ground arith)
    ]

register_all_sends : (ts : List TunnelConfig) → register_all ts [] ≡ (requests ts, none)
unfolding register_all
register_all_sends [] = refl
register_all_sends (t ∷ ts) = rw (register_all_sends ts)

read_answers_enough :
    (ts : List TunnelConfig) (envs : List Envelope)
    → length ts ≤ length envs
    → read_answers ts (map some envs) ≡ none
unfolding read_answers
read_answers_enough [] envs h = refl
read_answers_enough (t ∷ ts) [] h = absurd (omega arith)
read_answers_enough (t ∷ ts) (env ∷ envs) h = read_answers_enough ts envs (omega arith)

-- When no send and no read fails, the first answer is the acknowledgement, and there is an answer
-- for each tunnel, the client connects, whatever the answers say.
pub connect_succeeds :
    (cfg : ClientConfig) (env : Envelope) (envs : List Envelope)
    → env.type ≡ type_auth_ack
    → length cfg.tunnels ≤ length envs
    → connect cfg true (some env) [] (map some envs)
      ≡ (auth (auth_message cfg) ∷ requests cfg.tunnels, none)
unfolding connect
connect_succeeds cfg env envs ack enough =
    rw
      (
        register_all_sends cfg.tunnels,
        (text_eqb_iff env.type type_auth_ack).1 ack,
        read_answers_enough cfg.tunnels envs enough,
      )
      refl
