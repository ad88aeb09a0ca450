-- ===== src/Client.antt =====
-- internal/client: the tunnel client. The configuration outlives a session: a reconnect registers
-- the tunnels that it then has. What a handler sends and whether it saves the configuration is
-- returned beside the new configuration.
pub mod Connecting
pub mod Tunnels
pub mod Backoff
pub mod Running
pub mod Packing
pub mod Promoting
pub mod Streams
mod Tests
use nnel.Base.{
  ℕ, zero, suc, ◌+◌, ◌*◌, ◌^◌, ltb, Bool, true, false, not, ◌&&◌, Option, none, some, List, [], ◌∷◌,
  ◌++◌, map, keep, ℤ, pos, Text, text, ◌==◌, text_eq, if◌then◌else◌, length, has_prefix, Result, ok,
  err,
}
use nnel.Config.{ClientConfig, TunnelConfig}
use nnel.Proto.{
  Auth, RegisterTunnel, Heartbeat, AddTunnel, RemoveTunnel, Promote, PromoteError, SetTunnelDir,
  StreamHeader, Envelope, payload, type_auth_ack, type_auth_error, type_heartbeat, type_add_tunnel,
  type_remove_tunnel, type_promote, type_set_tunnel_dir, type_tunnel_registered, type_tunnel_error,
  unmarshal_auth_error, unmarshal_add_tunnel, unmarshal_remove_tunnel, unmarshal_set_tunnel_dir,
  unmarshal_promote, AuthError,
}

-- Messages of the client on the control stream.
pub data Sent : Type 0 where
  auth : Auth → Sent
  register_tunnel : RegisterTunnel → Sent
  heartbeat : Sent
  promote_error : PromoteError → Sent

pub data ConnectError : Type 0 where
  send_auth recv_auth_ack : ConnectError
  auth_rejected : Text → ConnectError
  unexpected_message : Text → ConnectError
  send_register : Text → ConnectError
  recv_registration : ConnectError

-- ── connect ──

abbrev pub auth_message : ClientConfig → Auth
auth_message cfg = record { token = cfg.auth_token; version = text "1.0"; name = cfg.name }

abbrev pub register_message : TunnelConfig → RegisterTunnel
register_message t = record {
  name = t.name;
  type = t.type;
  subdomain = if t.subdomain == [] then t.name else t.subdomain;
  remote_port = t.remote_port;
  local_addr = t.local;
  has_dir = not (t.dir == []);
  dir = t.dir;
}

-- The loop that registers the tunnels; the flags say which sends succeed, and a missing flag is a
-- send that does.
unfoldable pub register_all : List TunnelConfig → List Bool → List Sent × Option ConnectError
register_all [] sends = ([], none)
register_all (t ∷ ts) (false ∷ sends) = ([], some (send_register t.name))
register_all (t ∷ ts) [] =
    let (sent, e) = register_all ts [] in (register_tunnel (register_message t) ∷ sent, e)
register_all (t ∷ ts) (true ∷ sends) =
    let (sent, e) = register_all ts sends in (register_tunnel (register_message t) ∷ sent, e)

-- The loop that reads one answer for each tunnel; `none` is a read that fails.
unfoldable pub read_answers : List TunnelConfig → List (Option Envelope) → Option ConnectError
read_answers [] answers = none
read_answers (t ∷ ts) [] = some recv_registration
read_answers (t ∷ ts) (none ∷ answers) = some recv_registration
read_answers (t ∷ ts) (some env ∷ answers) = read_answers ts answers

abbrev pub auth_error_text : Envelope → Text
auth_error_text env = elim (payload unmarshal_auth_error env) [ none ↦ [] | some ae ↦ ae.error ]

-- Once the client is let in: what was sent, and the answers if all was.
abbrev pub after_ack :
    ClientConfig
    → List (Option Envelope)
    → List Sent × Option ConnectError
    → List Sent × Option ConnectError
after_ack cfg answers (sent, some problem) = (auth (auth_message cfg) ∷ sent, some problem)
after_ack cfg answers (sent, none) =
    (auth (auth_message cfg) ∷ sent, read_answers cfg.tunnels answers)

-- What follows the dialling and the opening of the control stream: whether the first send
-- succeeds, the first answer, and the sends and the answers after it.
unfoldable pub connect :
    ClientConfig
    → Bool
    → Option Envelope
    → List Bool
    → List (Option Envelope)
    → List Sent × Option ConnectError
unfolding register_all read_answers
connect cfg false first sends answers = ([], some send_auth)
connect cfg true none sends answers = (auth (auth_message cfg) ∷ [], some recv_auth_ack)
connect cfg true (some env) sends answers =
    if env.type == type_auth_ack
    then after_ack cfg answers (register_all cfg.tunnels sends)
    else if env.type == type_auth_error
    then (auth (auth_message cfg) ∷ [], some (auth_rejected (auth_error_text env)))
    else (auth (auth_message cfg) ∷ [], some (unexpected_message env.type))

-- ── control messages ──

pub record Reaction : Type 0 where
  pub cfg : ClientConfig
  pub sent : List Sent
  -- onSave was called on the new configuration
  pub saved : Bool
  -- the tunnel whose promotion is started in the background
  pub promotes : Option Text

abbrev pub quiet : ClientConfig → Reaction
quiet cfg = record { cfg = cfg; sent = []; saved = false; promotes = none }

abbrev pub add_message : AddTunnel → RegisterTunnel
add_message at = record {
  name = at.name;
  type = at.type;
  subdomain = if at.subdomain == [] && at.type == text "http" then at.name else at.subdomain;
  remote_port = at.remote_port;
  local_addr = at.local_addr;
  has_dir = false;
  dir = [];
}

abbrev pub added_config : AddTunnel → TunnelConfig
added_config at = record {
  name = at.name;
  local = at.local_addr;
  type = at.type;
  subdomain = at.subdomain;
  remote_port = at.remote_port;
  dir = [];
}

-- Whether the send succeeds; a request that cannot be sent changes nothing.
unfoldable pub dynamic_add : Bool → AddTunnel → ClientConfig → Reaction
dynamic_add false at cfg = quiet cfg
dynamic_add true at cfg = record {
  cfg = record cfg { tunnels = cfg.tunnels ++ added_config at ∷ [] };
  sent = register_tunnel (add_message at) ∷ [];
  saved = true;
  promotes = none;
}

unfoldable pub dynamic_remove : Text → ClientConfig → Reaction
dynamic_remove name cfg = record {
  cfg = record cfg { tunnels = keep (λ t. not (t.name == name)) cfg.tunnels };
  sent = [];
  saved = true;
  promotes = none;
}

-- The directory of the first tunnel of that name.
unfoldable pub set_dir : Text → Text → List TunnelConfig → List TunnelConfig
set_dir name dir [] = []
set_dir name dir (t ∷ ts) =
    if t.name == name then record t { dir = dir } ∷ ts else t ∷ set_dir name dir ts

-- expandHome, with os.UserHomeDir (`none` if it fails) and filepath.Join as parameters.
module _ (home_dir : Option Text) (join_path : Text → Text → Text) where
  unfoldable pub expand_home : Text → Text
  expand_home [] = []
  expand_home (c ∷ path) =
      if not (has_prefix (c ∷ path) (b'~' ∷ []))
      then c ∷ path
      else elim home_dir [ none ↦ c ∷ path | some home ↦ join_path home path ]

  unfoldable pub set_tunnel_dir : SetTunnelDir → ClientConfig → Reaction
  unfolding set_dir expand_home
  set_tunnel_dir msg cfg = record {
    cfg = record cfg { tunnels = set_dir msg.tunnel_name (expand_home msg.dir) cfg.tunnels };
    sent = [];
    saved = true;
    promotes = none;
  }

  -- One round of controlLoop; the flag says whether sends succeed.
  unfoldable pub handle_control : Bool → Envelope → ClientConfig → Reaction
  unfolding dynamic_add dynamic_remove set_tunnel_dir
  handle_control can_send env cfg =
      if env.type == type_heartbeat
      then record (quiet cfg) { sent = if can_send then heartbeat ∷ [] else [] }
      else if env.type == type_add_tunnel
      then elim (payload unmarshal_add_tunnel env) [
        | none ↦ quiet cfg
        | some at ↦ dynamic_add can_send at cfg
      ]
      else if env.type == type_remove_tunnel
      then elim (payload unmarshal_remove_tunnel env) [
        | none ↦ quiet cfg
        | some rt ↦ dynamic_remove rt.name cfg
      ]
      else if env.type == type_promote
      then elim (payload unmarshal_promote env) [
        | none ↦ quiet cfg
        | some p ↦ record (quiet cfg) { promotes = some p.tunnel_name }
      ]
      else if env.type == type_set_tunnel_dir
      then elim (payload unmarshal_set_tunnel_dir env) [
        | none ↦ quiet cfg
        | some std ↦ set_tunnel_dir std cfg
      ]
      else quiet cfg
