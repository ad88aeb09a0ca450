-- ===== src/Relay/Handshake.antt =====
-- The handshake: connect in internal/client/control.go on one side, authenticate and loop in
-- internal/server/control.go on the other. Each side's messages are put in JSON and read from it by the
-- other. No send fails, and no heartbeat comes between.
use nnel.Base.{
  ℕ, suc, ◌≡◌, ◌≢◌, refl, ap, ◌⊎◌, Bool, true, Option, none, some, List, [], ◌∷◌, map, length,
  length-map, ◌≤◌, ℤ, is_int64, Text, text, text_eqb_iff, text_eqb-ne, text_eq, lookup, Result, All,
  arith,
}
use nnel.Config.{ClientConfig, TunnelConfig}
use nnel.Proto.{RegisterTunnel, Envelope, payload, unmarshal_auth, unmarshal_auth_error}
use nnel.Proto.RoundTrip.{Message}
use nnel.Proto.Wire.{envelope, transmit, transmit_lem}
use nnel.Server.Registry.{session, add_client}
use nnel.Server.Registry.Connect.{add_client-IsConsistent, IsLive-new}
use nnel.Server.State.{Server}
use nnel.Server.Registry.Routes.{Key, key_of}
use nnel.Server.Sound.{IsSound}
use nnel.Server.Url.{Url}
use nnel.Server.Control.{Reply, auth_ack, auth_error, tunnel_registered, tunnel_error, authenticate}
use nnel.Server.Control.Problems.{reply_message}
use nnel.Server.Control.Sessions.{Connection, entry_of, loop, run, control_stream, resource}
use nnel.Server.Control.Sessions.Serving.{AnswersTo, loop-requests}
use nnel.Client.{
  Sent, auth, register_tunnel, heartbeat, promote_error, auth_rejected, auth_message,
  register_message, connect,
}
use nnel.Client.Connecting.{requests, connect_succeeds}

-- ctrl.Send of the client; a heartbeat carries the time.
abbrev pub client_message : ℤ → Sent → Message
client_message now (auth m) = Message.auth m
client_message now (register_tunnel m) = Message.register_tunnel m
client_message now heartbeat = Message.heartbeat (record { timestamp = now })
client_message now (promote_error m) = Message.promote_error m

-- The messages that are read.
abbrev pub received : List (Option Envelope) → List Envelope
received [] = []
received (none ∷ envs) = []
received (some env ∷ envs) = env ∷ received envs

-- A connection of the client, with its messages as the server reads them.
abbrev pub connection_of : Connection → ℤ → ClientConfig → Connection
connection_of c now cfg = record c {
  opened = true;
  ack_sent = true;
  first = transmit (client_message now (auth (auth_message cfg)));
  messages = received (map (λ m. transmit (client_message now m)) (requests cfg.tunnels));
}

abbrev request_of : TunnelConfig → Envelope
request_of t = envelope (Message.register_tunnel (register_message t))

received-requests :
    (now : ℤ) (ts : List TunnelConfig)
    → received (map (λ m. transmit (client_message now m)) (requests ts))
      ≡ map (λ reg. envelope (Message.register_tunnel reg)) (map register_message ts)
received-requests now [] = refl
received-requests now (t ∷ ts) =
    rw (transmit_lem (Message.register_tunnel (register_message t)), received)
      (ap (◌∷◌ (request_of t)) (received-requests now ts))

in_range-requests :
    (ts : List TunnelConfig)
    → All (λ t. is_int64 t.remote_port ≡ true) ts
    → All (λ reg. is_int64 reg.remote_port ≡ true) (map register_message ts)
in_range-requests [] all = tt
in_range-requests (t ∷ ts) (fits, all) = (fits, in_range-requests ts all)

-- The answers to the tunnels of a list are as many.
length-AnswersTo :
    (id : Text) (s : Server) (taken : List Key) (regs : List RegisterTunnel) (rs : List Reply)
    → AnswersTo id s taken regs rs
    → length regs ≡ length rs
length-AnswersTo id s taken [] [] answers = refl
length-AnswersTo id s taken [] (r ∷ rs) answers = absurd answers
length-AnswersTo id s taken (reg ∷ regs) [] answers = absurd answers
length-AnswersTo id s taken (reg ∷ regs) (tunnel_registered name url ∷ rs)
      (_, te, _, _, _, _, answers) =
    ap suc (length-AnswersTo id s (key_of te ∷ taken) regs rs answers)
length-AnswersTo id s taken (reg ∷ regs) (tunnel_error name problem ∷ rs) (_, answers) =
    ap suc (length-AnswersTo id s taken regs rs answers)
length-AnswersTo id s taken (reg ∷ regs) (_ ∷ rs) answers = absurd answers

module _ (quote : Text → Text) where
  -- What the client reads of the server's messages.
  abbrev pub reads : List Reply → List (Option Envelope)
  reads rs = map (λ r. transmit (reply_message quote r)) rs

  reads_lem :
      (rs : List Reply) → reads rs ≡ map some (map (λ r. envelope (reply_message quote r)) rs)
  reads_lem [] = refl
  reads_lem (r ∷ rs) =
      rw (transmit_lem (reply_message quote r))
        (ap (◌∷◌ (some (envelope (reply_message quote r)))) (reads_lem rs))

-- The server with the client in its registry.
abbrev pub entered : Server → Connection → ClientConfig → Server
entered s c cfg = record s { registry = add_client (entry_of c (c.new_id, cfg.name)) s.registry }

module _ (parse_url : Text → Option Url) (listen : ℤ → Result Text ℕ) (quote : Text → Text)
    (s : Server) (c : Connection) (now : ℤ) (cfg : ClientConfig) where
  authenticate-auth :
      (s.cfg.auth_token ≡ []) ⊎ (cfg.auth_token ≡ s.cfg.auth_token)
      → authenticate s.cfg c.new_id true (connection_of c now cfg).first
        ≡ (auth_ack c.new_id ∷ [], some (c.new_id, cfg.name))
  unfolding authenticate payload unmarshal_auth
  authenticate-auth allowed =
      rw (transmit_lem (Message.auth (auth_message cfg)), authenticate)
        (ground
          (arith, text_eqb_iff s.cfg.auth_token [], text_eqb_iff cfg.auth_token s.cfg.auth_token))

  authenticate-refused :
      s.cfg.auth_token ≢ []
      → cfg.auth_token ≢ s.cfg.auth_token
      → authenticate s.cfg c.new_id true (connection_of c now cfg).first
        ≡ (auth_error (text "invalid token") ∷ [], none)
  unfolding authenticate payload unmarshal_auth
  authenticate-refused set differs =
      rw (transmit_lem (Message.auth (auth_message cfg)), authenticate)
        (ground (
          arith,
          text_eqb-ne s.cfg.auth_token [] set,
          text_eqb-ne cfg.auth_token s.cfg.auth_token differs,
        ))

  enough :
      (t : Server) (replies : List Reply)
      → AnswersTo c.new_id t [] (map register_message cfg.tunnels) replies
      → length cfg.tunnels ≤ length (map (λ r. envelope (reply_message quote r)) replies)
  enough t replies answers = omega (
    arith,
    length-map register_message cfg.tunnels,
    length-map (λ r. envelope (reply_message quote r)) replies,
    length-AnswersTo c.new_id t [] (map register_message cfg.tunnels) replies answers,
  )

  -- When no message is lost, nothing but the answers is sent to the client until all are read, and the
  -- server handles nothing else in the meantime, a client that has the server's token, or any client of
  -- a server without one, connects: it is let in under the new id; the server answers each of its
  -- tunnels once, in their order and by name; for each tunnel that is granted the client has, when all
  -- are answered, the subdomain that it asked for, or the port, which may be any if it asked for port
  -- 0, and no other of its tunnels was granted the same; and the client reads all answers and has no
  -- error. The state is sound, the id is not in use, and the ports that the client asks for fit in an
  -- integer.
  pub handshake :
      IsSound s
      → lookup c.new_id s.registry.by_id ≡ none
      → (s.cfg.auth_token ≡ []) ⊎ (cfg.auth_token ≡ s.cfg.auth_token)
      → All (λ t. is_int64 t.remote_port ≡ true) cfg.tunnels
      → (t : Server) × (replies : List Reply) × (authenticate s.cfg c.new_id true
            (connection_of c now cfg).first
          ≡ (auth_ack c.new_id ∷ [], some (c.new_id, cfg.name)))
        × (loop parse_url listen c.new_id (connection_of c now cfg).messages (entered s c cfg)
            ≡ some (t, replies))
        × AnswersTo c.new_id t [] (map register_message cfg.tunnels) replies
        × (connect cfg true
              (transmit (reply_message quote (auth_ack c.new_id)))
              []
              (reads quote replies)
            ≡ (auth (auth_message cfg) ∷ requests cfg.tunnels, none))
  handshake sound fresh allowed in_range =
      let entry = entry_of c (c.new_id, cfg.name) in
      let (t, replies, looped, answers, _) =
        loop-requests parse_url listen c.new_id (map register_message cfg.tunnels) (entered s c cfg)
          (in_range-requests cfg.tunnels in_range)
          (record {
            consistent = add_client-IsConsistent entry s.registry sound.consistent fresh refl;
            keyed = sound.keyed;
          })
          (_, entry, IsLive-new entry s.registry sound.consistent fresh, refl) in
      (
        t,
        replies,
        authenticate-auth allowed,
        rw (received-requests now cfg.tunnels) looped,
        answers [] tt,
        rw (reads_lem quote replies, transmit_lem (reply_message quote (auth_ack c.new_id)))
            (connect_succeeds cfg (envelope (reply_message quote (auth_ack c.new_id)))
              (map (λ r. envelope (reply_message quote r)) replies) refl
              (enough t replies (answers [] tt))),
      )

  -- A client with another token than the server's is told so, and gives up with that error; the server
  -- is as before, and closes the control stream and the session.
  pub handshake_rejected :
      (sends : List Bool) (answers : List (Option Envelope))
      → s.cfg.auth_token ≢ []
      → cfg.auth_token ≢ s.cfg.auth_token
      → (run parse_url listen s (connection_of c now cfg)
          ≡ some (
            s,
            auth_error (text "invalid token") ∷ [],
            control_stream c.ctrl_handle ∷ resource (session c.session_handle) ∷ [],
          ))
        × (connect cfg true
              (transmit (reply_message quote (auth_error (text "invalid token"))))
              sends
              answers
            ≡ (auth (auth_message cfg) ∷ [], some (auth_rejected (text "invalid token"))))
  unfolding run payload connect unmarshal_auth_error
  handshake_rejected sends answers set differs = (
    rw (authenticate-refused set differs) refl,
    rw (transmit_lem (reply_message quote (auth_error (text "invalid token"))), connect) refl,
  )
