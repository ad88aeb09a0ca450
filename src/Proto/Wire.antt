-- ===== src/Proto/Wire.antt =====
-- Package internal/proto: a message from ControlConn.Send on one side to ControlConn.Recv on the other.
use nnel.Base.{◌≡◌, refl, Option, some, Text}
use nnel.Proto.Encoding.{Json}
use nnel.Proto.{
  Envelope, send, recv, type_auth, type_auth_ack, type_auth_error, type_register_tunnel,
  type_tunnel_registered, type_tunnel_error, type_heartbeat, type_add_tunnel, type_remove_tunnel,
  type_promote, type_promote_error, type_set_tunnel_dir, marshal_auth, marshal_auth_ack,
  marshal_auth_error, marshal_register_tunnel, marshal_tunnel_registered, marshal_tunnel_error,
  marshal_heartbeat, marshal_add_tunnel, marshal_remove_tunnel, marshal_promote,
  marshal_promote_error, marshal_set_tunnel_dir,
}
use nnel.Proto.RoundTrip.{Message}

-- The type of a message, and its payload.
abbrev pub type_of : Message → Text
type_of (Message.auth m) = type_auth
type_of (Message.auth_ack m) = type_auth_ack
type_of (Message.auth_error m) = type_auth_error
type_of (Message.register_tunnel m) = type_register_tunnel
type_of (Message.tunnel_registered m) = type_tunnel_registered
type_of (Message.tunnel_error m) = type_tunnel_error
type_of (Message.heartbeat m) = type_heartbeat
type_of (Message.add_tunnel m) = type_add_tunnel
type_of (Message.remove_tunnel m) = type_remove_tunnel
type_of (Message.promote m) = type_promote
type_of (Message.promote_error m) = type_promote_error
type_of (Message.set_tunnel_dir m) = type_set_tunnel_dir

abbrev pub raw_of : Message → Json
raw_of (Message.auth m) = marshal_auth m
raw_of (Message.auth_ack m) = marshal_auth_ack m
raw_of (Message.auth_error m) = marshal_auth_error m
raw_of (Message.register_tunnel m) = marshal_register_tunnel m
raw_of (Message.tunnel_registered m) = marshal_tunnel_registered m
raw_of (Message.tunnel_error m) = marshal_tunnel_error m
raw_of (Message.heartbeat m) = marshal_heartbeat m
raw_of (Message.add_tunnel m) = marshal_add_tunnel m
raw_of (Message.remove_tunnel m) = marshal_remove_tunnel m
raw_of (Message.promote m) = marshal_promote m
raw_of (Message.promote_error m) = marshal_promote_error m
raw_of (Message.set_tunnel_dir m) = marshal_set_tunnel_dir m

-- What Recv gives of it.
abbrev pub envelope : Message → Envelope
envelope m = record { type = type_of m; raw = some (raw_of m) }

unfoldable pub transmit : Message → Option Envelope
transmit m = recv (send (type_of m) (raw_of m))

pub transmit_lem : (m : Message) → transmit m ≡ some (envelope m)
unfolding transmit recv send
transmit_lem m = refl
