-- ===== src/Proto.antt =====
-- internal/proto/messages.go: the payloads of the control channel, their JSON forms and the
-- envelope. `marshal_x` is what json.Marshal makes of a struct and `unmarshal_x` is
-- Envelope.Unmarshal into it; a failed decoding is `none`.
pub mod Encoding
pub mod Stream
mod Authentication
mod Dashboard
pub mod RoundTrip
pub mod Wire
mod Tests
use nnel.Base.{
  ◌&&◌, Bool, true, false, Option, none, some, [], ℤ, pos, Text, text, text_eqb, int_eqb,
  if◌then◌else◌,
}
use Encoding.{
  Json, null, bool, num, str, obj, Fields, end, field, is_key, set_text, set_int, set_bool,
  unmarshal, ◌>>=◌,
}
unfoldable pub use Authentication.*
unfoldable pub use Dashboard.*

abbrev pub type_auth : Text
type_auth = text "auth"

abbrev pub type_auth_ack : Text
type_auth_ack = text "auth_ack"

abbrev pub type_auth_error : Text
type_auth_error = text "auth_error"

abbrev pub type_register_tunnel : Text
type_register_tunnel = text "register_tunnel"

abbrev pub type_tunnel_registered : Text
type_tunnel_registered = text "tunnel_registered"

abbrev pub type_tunnel_error : Text
type_tunnel_error = text "tunnel_error"

abbrev pub type_heartbeat : Text
type_heartbeat = text "heartbeat"

abbrev pub type_add_tunnel : Text
type_add_tunnel = text "add_tunnel"

abbrev pub type_remove_tunnel : Text
type_remove_tunnel = text "remove_tunnel"

abbrev pub type_promote : Text
type_promote = text "promote"

abbrev pub type_promote_error : Text
type_promote_error = text "promote_error"

abbrev pub type_set_tunnel_dir : Text
type_set_tunnel_dir = text "set_tunnel_dir"

pub record RegisterTunnel : Type 0 where
  pub name : Text
  pub type : Text
  pub subdomain : Text
  pub remote_port : ℤ
  pub local_addr : Text
  pub has_dir : Bool
  pub dir : Text

abbrev pub marshal_register_tunnel : RegisterTunnel → Json
marshal_register_tunnel m = obj (
    field (text "name") (str m.name) (
      field (text "type") (str m.type) (
        field (text "subdomain") (str m.subdomain) (
          field (text "remote_port") (num m.remote_port) (
            field (text "local_addr") (str m.local_addr)
              (field (text "has_dir") (bool m.has_dir) (field (text "dir") (str m.dir) (end))))))))

abbrev put_register_tunnel : Text → Json → RegisterTunnel → Option RegisterTunnel
put_register_tunnel key v m =
    if is_key (text "name") key
    then set_text (λ x. record m { name = x }) v m
    else if is_key (text "type") key
    then set_text (λ x. record m { type = x }) v m
    else if is_key (text "subdomain") key
    then set_text (λ x. record m { subdomain = x }) v m
    else if is_key (text "remote_port") key
    then set_int (λ x. record m { remote_port = x }) v m
    else if is_key (text "local_addr") key
    then set_text (λ x. record m { local_addr = x }) v m
    else if is_key (text "has_dir") key
    then set_bool (λ x. record m { has_dir = x }) v m
    else if is_key (text "dir") key
    then set_text (λ x. record m { dir = x }) v m
    else some m

unfoldable pub unmarshal_register_tunnel : Json → Option RegisterTunnel
unmarshal_register_tunnel = unmarshal put_register_tunnel (record {
  name = [];
  type = [];
  subdomain = [];
  remote_port = pos 0;
  local_addr = [];
  has_dir = false;
  dir = [];
})

pub record TunnelRegistered : Type 0 where
  pub name : Text
  pub public_url : Text

abbrev pub marshal_tunnel_registered : TunnelRegistered → Json
marshal_tunnel_registered m =
    obj (field (text "name") (str m.name) (field (text "public_url") (str m.public_url) (end)))

abbrev put_tunnel_registered : Text → Json → TunnelRegistered → Option TunnelRegistered
put_tunnel_registered key v m =
    if is_key (text "name") key
    then set_text (λ x. record m { name = x }) v m
    else if is_key (text "public_url") key
    then set_text (λ x. record m { public_url = x }) v m
    else some m

unfoldable pub unmarshal_tunnel_registered : Json → Option TunnelRegistered
unmarshal_tunnel_registered =
    unmarshal put_tunnel_registered (record { name = []; public_url = [] })

pub record TunnelError : Type 0 where
  pub name : Text
  pub error : Text

abbrev pub marshal_tunnel_error : TunnelError → Json
marshal_tunnel_error m =
    obj (field (text "name") (str m.name) (field (text "error") (str m.error) (end)))

abbrev put_tunnel_error : Text → Json → TunnelError → Option TunnelError
put_tunnel_error key v m =
    if is_key (text "name") key
    then set_text (λ x. record m { name = x }) v m
    else if is_key (text "error") key
    then set_text (λ x. record m { error = x }) v m
    else some m

unfoldable pub unmarshal_tunnel_error : Json → Option TunnelError
unmarshal_tunnel_error = unmarshal put_tunnel_error (record { name = []; error = [] })

pub record Heartbeat : Type 0 where
  pub timestamp : ℤ

abbrev pub marshal_heartbeat : Heartbeat → Json
marshal_heartbeat m = obj (field (text "timestamp") (num m.timestamp) (end))

abbrev put_heartbeat : Text → Json → Heartbeat → Option Heartbeat
put_heartbeat key v m =
    if is_key (text "timestamp") key then set_int (λ x. record m { timestamp = x }) v m else some m

unfoldable pub unmarshal_heartbeat : Json → Option Heartbeat
unmarshal_heartbeat = unmarshal put_heartbeat (record { timestamp = pos 0 })

pub record StreamHeader : Type 0 where
  pub tunnel_name : Text
  pub local_addr : Text

abbrev pub marshal_stream_header : StreamHeader → Json
marshal_stream_header m = obj (
    field (text "tunnel_name") (str m.tunnel_name)
      (field (text "local_addr") (str m.local_addr) (end)))

abbrev put_stream_header : Text → Json → StreamHeader → Option StreamHeader
put_stream_header key v m =
    if is_key (text "tunnel_name") key
    then set_text (λ x. record m { tunnel_name = x }) v m
    else if is_key (text "local_addr") key
    then set_text (λ x. record m { local_addr = x }) v m
    else some m

unfoldable pub unmarshal_stream_header : Json → Option StreamHeader
unmarshal_stream_header = unmarshal put_stream_header (record { tunnel_name = []; local_addr = [] })

-- The data is kept raw; `none` stands for a message that has none.
pub record Envelope : Type 0 where
  pub type : Text
  pub raw : Option Json

-- Envelope.Unmarshal; a missing payload is an error.
unfoldable pub payload {ℓ} : {A : Type ℓ} → (Json → Option A) → Envelope → Option A
payload decode e = e.raw >>= decode

-- ControlConn.Send: what is written.
unfoldable pub send : Text → Json → Json
send msg_type raw = obj (field (text "type") (str msg_type) (field (text "data") raw end))

abbrev put_envelope : Text → Json → Envelope → Option Envelope
put_envelope key v e =
    if is_key (text "type") key
    then set_text (λ x. record e { type = x }) v e
    else if is_key (text "data") key
    then some (record e { raw = some v })
    else some e

-- ControlConn.Recv, on the next JSON value of the stream.
unfoldable pub recv : Json → Option Envelope
recv = unmarshal put_envelope (record { type = []; raw = none })
