-- ===== src/Proto/Authentication.antt =====
-- internal/proto/messages.go: the payloads that open a session.
use nnel.Base.{Option, some, [], Text, text, if◌then◌else◌}
use nnel.Proto.Encoding.{Json, str, obj, end, field, is_key, set_text, unmarshal}

pub record Auth : Type 0 where
  pub token : Text
  pub version : Text
  pub name : Text

abbrev pub marshal_auth : Auth → Json
marshal_auth m = obj (
    field (text "token") (str m.token)
      (field (text "version") (str m.version) (field (text "name") (str m.name) (end))))

abbrev put_auth : Text → Json → Auth → Option Auth
put_auth key v m =
    if is_key (text "token") key
    then set_text (λ x. record m { token = x }) v m
    else if is_key (text "version") key
    then set_text (λ x. record m { version = x }) v m
    else if is_key (text "name") key
    then set_text (λ x. record m { name = x }) v m
    else some m

unfoldable pub unmarshal_auth : Json → Option Auth
unmarshal_auth = unmarshal put_auth (record { token = []; version = []; name = [] })

pub record AuthAck : Type 0 where
  pub client_id : Text

abbrev pub marshal_auth_ack : AuthAck → Json
marshal_auth_ack m = obj (field (text "client_id") (str m.client_id) (end))

abbrev put_auth_ack : Text → Json → AuthAck → Option AuthAck
put_auth_ack key v m =
    if is_key (text "client_id") key then set_text (λ x. record m { client_id = x }) v m else some m

unfoldable pub unmarshal_auth_ack : Json → Option AuthAck
unmarshal_auth_ack = unmarshal put_auth_ack (record { client_id = [] })

pub record AuthError : Type 0 where
  pub error : Text

abbrev pub marshal_auth_error : AuthError → Json
marshal_auth_error m = obj (field (text "error") (str m.error) (end))

abbrev put_auth_error : Text → Json → AuthError → Option AuthError
put_auth_error key v m =
    if is_key (text "error") key then set_text (λ x. record m { error = x }) v m else some m

unfoldable pub unmarshal_auth_error : Json → Option AuthError
unmarshal_auth_error = unmarshal put_auth_error (record { error = [] })
