-- ===== src/Client/Running.antt =====
-- internal/client: Run and saveConfig (client.go), and a session from its dialling to its end: connect,
-- run and controlLoop (control.go). The loop of Run goes over a list of attempts.
pub mod Laws
use nnel.Base.{
  ℕ, zero, suc, Bool, true, false, not, ◌&&◌, Option, none, some, List, [], ◌∷◌, ◌++◌, Text,
  text_eq, ◌==◌, if◌then◌else◌,
}
use nnel.Config.{ClientConfig}
use nnel.Proto.{Envelope}
use nnel.Client.{Sent, ConnectError, Reaction, connect, handle_control}
use nnel.Client.Backoff.{delay}

-- What the dialling gives: an error of one of its three calls, or a control stream.
pub data Dialled : Type 0 where
  dial_failed yamux_failed open_failed opened : Dialled

pub data SessionError : Type 0 where
  dial yamux_client open_control_stream : SessionError
  handshake : ConnectError → SessionError

pub data Closed : Type 0 where
  websocket mux : Closed

-- What an attempt meets: the dialling; the outcomes that `connect` takes; and the control messages
-- that are received until the session dies, each with the outcome of a send that answers it.
pub record Attempt : Type 0 where
  pub dialled : Dialled
  pub can_send : Bool
  pub first : Option Envelope
  pub sends : List Bool
  pub answers : List (Option Envelope)
  pub messages : List (Envelope × Bool)

-- What was sent, the error if any, and what is closed then.
abbrev pub Connected : Type 0
Connected = List Sent × Option SessionError × List Closed

abbrev pub handshaken : List Sent × Option ConnectError → Connected
handshaken (sent, none) = (sent, none, [])
handshaken (sent, some problem) = (sent, some (handshake problem), mux ∷ [])

abbrev pub connect_opened : Dialled → List Sent × Option ConnectError → Connected
connect_opened dial_failed shaken = ([], some dial, [])
connect_opened yamux_failed shaken = ([], some yamux_client, websocket ∷ [])
connect_opened open_failed shaken = ([], some open_control_stream, mux ∷ [])
connect_opened opened shaken = handshaken shaken

-- `connect`, with its first part.
unfoldable pub connect_session : ClientConfig → Attempt → Connected
connect_session cfg a = connect_opened a.dialled (connect cfg a.can_send a.first a.sends a.answers)

-- The configuration, what its file holds, what was sent, the tunnels whose promotion was started,
-- and the delays.
pub record State : Type 0 where
  pub cfg : ClientConfig
  pub file : ClientConfig
  pub sent : List Sent
  pub promotes : List Text
  pub slept : List ℕ

-- `save` of Run, by saveConfig, whose errors are only logged: the file is taken to be written.
abbrev pub save_config : ClientConfig → ClientConfig → ClientConfig
save_config cfg file = if cfg.config_file == [] then file else cfg

abbrev pub listed : Option Text → List Text
listed none = []
listed (some name) = name ∷ []

abbrev pub react : Reaction → State → State
react r st = record st {
  cfg = r.cfg;
  file = if r.saved then save_config r.cfg st.file else st.file;
  sent = st.sent ++ r.sent;
  promotes = st.promotes ++ listed r.promotes;
}

module _ (home_dir : Option Text) (join_path : Text → Text → Text) where
  unfoldable pub control_loop : List (Envelope × Bool) → State → State
  control_loop [] st = st
  control_loop ((env, can_send) ∷ messages) st =
      control_loop messages (react (handle_control home_dir join_path can_send env st.cfg) st)

  -- One round of Run, with the attempts that failed before it.
  abbrev pub round : Attempt → ℕ → State → Connected → ℕ × State
  round a attempt st (sent, none, closed) =
      (0, control_loop a.messages (record st { sent = st.sent ++ sent }))
  round a attempt st (sent, some e, closed) =
      (suc attempt, record st { sent = st.sent ++ sent; slept = st.slept ++ delay attempt ∷ [] })

  unfoldable pub run : List Attempt → ℕ × State → ℕ × State
  unfolding connect_session control_loop
  run [] at = at
  run (a ∷ attempts) (attempt, st) = run attempts (round a attempt st (connect_session st.cfg a))
