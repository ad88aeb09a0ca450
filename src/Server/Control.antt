-- ===== src/Server/Control.antt =====
-- internal/server/control.go: one client's control session on the server. A handler returns the
-- new state and what it sends, in order. The texts of errors are constructors with the
-- arguments that they print; Problems has the texts.
pub mod Registering
pub mod Authenticating
pub mod Problems
pub mod Watching
pub mod Sessions
use nnel.Base.{
  ℕ, ◌<◌, ltb, Bool, true, false, not, ◌&&◌, ◌||◌, Option, none, some, List, [], ◌∷◌, ◌++◌, ℤ, pos,
  Text, text, ◌==◌, text_eq, int_eq, if◌then◌else◌, any, lookup, insert, print_int, length, Result,
  ok, err,
}
use nnel.Config.{ServerConfig}
use nnel.Proto.{
  Envelope, payload, RegisterTunnel, unmarshal_register_tunnel, PromoteError,
  unmarshal_promote_error, Auth, unmarshal_auth, type_auth, type_register_tunnel, type_heartbeat,
  type_promote_error,
}
use nnel.Server.Registry.{
  Registry, ClientEntry, TunnelEntry, http, tcp, is_subdomain_taken, is_port_taken, register_http,
  register_tcp, is_some,
}
use nnel.Server.State.{Server}
use nnel.Server.Build.{finish}
use nnel.Server.Ports.{PickError, pick_tcp_port}
use nnel.Server.Url.{Url, build_public_http_url}

pub data TunnelProblem : Type 0 where
  unknown_type : Text → TunnelProblem
  subdomain_in_use : Text → TunnelProblem
  deployed_app_in_use : Text → TunnelProblem
  no_port : PickError → TunnelProblem
  port_not_allowed : ℤ → TunnelProblem
  port_in_use : ℤ → TunnelProblem
  listen_failed : ℤ → Text → TunnelProblem

-- Messages of the server on the control stream.
pub data Reply : Type 0 where
  auth_ack : Text → Reply
  auth_error : Text → Reply
  tunnel_registered : Text → Text → Reply
  tunnel_error : Text → TunnelProblem → Reply

-- A handler's result: `none` is a nil dereference, which stops the process.
abbrev pub Handled : Type 0
Handled = Option (Server × List Reply)

abbrev pub refuse : Server → Text → TunnelProblem → Handled
refuse s name problem = some (s, tunnel_error name problem ∷ [])

-- The new registry is stored, and the client is told the public URL.
abbrev pub registered : Server → Text → Text → Option Registry → Handled
registered s name url none = none
registered s name url (some reg) =
    some (record s { registry = reg }, tunnel_registered name url ∷ [])

abbrev pub wanted_subdomain : RegisterTunnel → Text
wanted_subdomain reg = if reg.subdomain == [] then reg.name else reg.subdomain

abbrev pub http_entry : RegisterTunnel → Text → TunnelEntry
http_entry reg subdomain = record {
  name = reg.name;
  tunnel_type = http;
  subdomain = subdomain;
  remote_port = pos 0;
  local_addr = reg.local_addr;
  has_dir = reg.has_dir;
  dir = reg.dir;
  tcp_ln = none;
  bytes_in = 0;
  bytes_out = 0;
  requests = 0;
  active_conns = 0;
}

abbrev pub tcp_entry : RegisterTunnel → ℤ → ℕ → TunnelEntry
tcp_entry reg port ln = record {
  name = reg.name;
  tunnel_type = tcp;
  subdomain = [];
  remote_port = port;
  local_addr = reg.local_addr;
  has_dir = false;
  dir = [];
  tcp_ln = some ln;
  bytes_in = 0;
  bytes_out = 0;
  requests = 0;
  active_conns = 0;
}

-- The list of allowed ports, if it is not empty.
unfoldable pub is_allowed_port : ServerConfig → ℤ → Bool
is_allowed_port cfg port =
    not (ltb 0 (length cfg.allowed_ports)) || any (λ p. p == port) cfg.allowed_ports

unfoldable pub tcp_public_url : ServerConfig → ℤ → Text
tcp_public_url cfg port =
    if cfg.domain == []
    then text "(port: " ++ (print_int port ++ text ")")
    else cfg.domain ++ b':' ∷ print_int port

-- The build of that name, if there is one, is finished.
unfoldable pub handle_promote_error : Server → PromoteError → Server
handle_promote_error s pe = elim (lookup pe.tunnel_name s.pending_builds) [
  | none ↦ s
  | some b ↦ record s {
    pending_builds =
        insert pe.tunnel_name (finish (text "client error: " ++ pe.error) b) s.pending_builds;
  }
]

-- url.Parse, and net.Listen on a port of the host: a listener's handle, or the error's text.
module _ (parse_url : Text → Option Url) (listen : ℤ → Result Text ℕ) where
  unfoldable pub handle_register_http : Server → Text → RegisterTunnel → Handled
  handle_register_http s client_id reg =
      let subdomain = wanted_subdomain reg in
      if is_subdomain_taken subdomain s.registry
      then refuse s reg.name (subdomain_in_use subdomain)
      else if is_some (lookup subdomain s.deployed_apps)
      then refuse s reg.name (deployed_app_in_use subdomain)
      else registered s reg.name (build_public_http_url parse_url s.cfg subdomain)
          (register_http client_id subdomain (http_entry reg subdomain) s.registry)

  abbrev pub listening : Server → Text → RegisterTunnel → ℤ → Result Text ℕ → Handled
  listening s client_id reg port (err message) = refuse s reg.name (listen_failed port message)
  listening s client_id reg port (ok ln) =
      registered s reg.name (tcp_public_url s.cfg port)
        (register_tcp client_id port (tcp_entry reg port ln) s.registry)

  abbrev pub on_port : Server → Text → RegisterTunnel → ℤ → Handled
  on_port s client_id reg port =
      if not (is_allowed_port s.cfg port)
      then refuse s reg.name (port_not_allowed port)
      else if is_port_taken port s.registry
      then refuse s reg.name (port_in_use port)
      else listening s client_id reg port (listen port)

  -- Port 0 asks for any port of the range.
  unfoldable pub handle_register_tcp : Server → Text → RegisterTunnel → Handled
  handle_register_tcp s client_id reg =
      if reg.remote_port == pos 0
      then elim (pick_tcp_port s.cfg s.registry) [
        | err problem ↦ refuse s reg.name (no_port problem)
        | ok port ↦ on_port s client_id reg port
      ]
      else on_port s client_id reg reg.remote_port

  unfoldable pub handle_register : Server → Text → RegisterTunnel → Handled
  handle_register s client_id reg =
      if reg.type == text "http"
      then handle_register_http s client_id reg
      else if reg.type == text "tcp"
      then handle_register_tcp s client_id reg
      else refuse s reg.name (unknown_type reg.type)

  -- One round of `loop`, on a message that was received.
  unfoldable pub handle_message : Server → Text → Envelope → Handled
  unfolding handle_register handle_promote_error
  handle_message s client_id env =
      if env.type == type_register_tunnel
      then elim (payload unmarshal_register_tunnel env) [
        | none ↦ some (s, [])
        | some reg ↦ handle_register s client_id reg
      ]
      else if env.type == type_heartbeat
      then some (s, [])
      else if env.type == type_promote_error
      then elim (payload unmarshal_promote_error env) [
        | none ↦ some (s, [])
        | some pe ↦ some (handle_promote_error s pe, [])
      ]
      else some (s, [])

-- `authenticate`, on the id that newID draws, whether the acknowledgement can be sent, and the first
-- message of a client (`none` if it cannot be read): the replies, and the id and the name of a
-- client that is let in.
unfoldable pub authenticate :
    ServerConfig → Text → Bool → Option Envelope → List Reply × Option (Text × Text)
authenticate cfg new_id ack_sent none = ([], none)
authenticate cfg new_id ack_sent (some env) =
    if not (env.type == type_auth) then ([], none) else elim (payload unmarshal_auth env) [
      | none ↦ ([], none)
      | some auth ↦
          if not (cfg.auth_token == []) && not (auth.token == cfg.auth_token)
          then (auth_error (text "invalid token") ∷ [], none)
          else if ack_sent
          then (auth_ack new_id ∷ [], some (new_id, auth.name))
          else ([], none)
    ]
