-- ===== src/Server/Control/Sessions.antt =====
-- internal/server/control.go, controlHandler.run and loop: one client's session, from the first stream
-- to its end, with the messages that are received until Recv fails. Between two messages no other
-- session is served here. The timer of loop, which closes a session that is silent, stands in
-- Server/Control/Watching: to the loop it is the end of the messages.
pub mod Handling
pub mod Laws
pub mod Serving
use nnel.Base.{ℕ, Bool, Option, none, some, List, [], ◌∷◌, ◌++◌, ℤ, Text, Result, if◌then◌else◌}
use nnel.Proto.{Envelope}
use nnel.Server.Registry.{ClientEntry, Closed, session, listener, add_client, remove_client}
use nnel.Server.State.{Server}
use nnel.Server.Url.{Url}
use nnel.Server.Control.{Reply, Handled, handle_message, authenticate}

-- A connection: the handles of the multiplexer's session and of the control stream, whether that stream
-- is opened, the id that newID draws, whether the acknowledgement can be sent, and what is received:
-- the first message (`none` if it cannot be read), and those after it.
pub record Connection : Type 0 where
  pub session_handle : ℕ
  pub ctrl_handle : ℕ
  pub opened : Bool
  pub remote : Text
  pub now : ℕ
  pub new_id : Text
  pub ack_sent : Bool
  pub first : Option Envelope
  pub messages : List Envelope

-- The control stream is closed by its own handle; a session closes all its streams.
pub data Ended : Type 0 where
  control_stream : ℕ → Ended
  resource : Closed → Ended

abbrev pub entry_of : Connection → Text × Text → ClientEntry
entry_of c (id, name) = record {
  id = id;
  name = name;
  remote = c.remote;
  connected_at = c.now;
  session = c.session_handle;
  tunnels = [];
  ctrl = some c.ctrl_handle;
}

abbrev pub ended : List Closed → List Ended
ended [] = []
ended (c ∷ cs) = resource c ∷ ended cs

-- The state, the replies and what was closed; `none` is a nil dereference.
abbrev pub followed_by : Handled → (Server → Handled) → Handled
followed_by none rest = none
followed_by (some (s, replies)) rest = elim (rest s) [
  | none ↦ none
  | some (s', more) ↦ some (s', replies ++ more)
]

-- The deferred calls, in their order: the session is closed, then the client is removed.
abbrev pub leave : Connection → Text → Handled → Option (Server × List Reply × List Ended)
leave c id none = none
leave c id (some (s, replies)) =
    let (reg, closed) = remove_client id s.registry in
    some (record s { registry = reg }, replies, resource (session c.session_handle) ∷ ended closed)

module _ (parse_url : Text → Option Url) (listen : ℤ → Result Text ℕ) where
  unfoldable pub loop : Text → List Envelope → Server → Handled
  loop id [] s = some (s, [])
  loop id (env ∷ envs) s = followed_by (handle_message parse_url listen s id env) (loop id envs)

  abbrev pub admitted :
      Server
      → Connection
      → List Reply × Option (Text × Text)
      → Option (Server × List Reply × List Ended)
  admitted s c (replies, none) =
      some (s, replies, control_stream c.ctrl_handle ∷ resource (session c.session_handle) ∷ [])
  admitted s c (replies, some (id, name)) =
      let entered = record s { registry = add_client (entry_of c (id, name)) s.registry } in
      leave c id (followed_by (some (entered, replies)) (loop id c.messages))

  unfoldable pub run : Server → Connection → Option (Server × List Reply × List Ended)
  unfolding loop
  run s c =
      if c.opened
      then admitted s c (authenticate s.cfg c.new_id c.ack_sent c.first)
      else some (s, [], resource (session c.session_handle) ∷ [])
