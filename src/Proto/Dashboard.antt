-- ===== src/Proto/Dashboard.antt =====
-- internal/proto/messages.go: the payloads that start at the dashboard, and the answer to a promotion.
use nnel.Base.{Option, some, [], ℤ, pos, Text, text, text_eqb, int_eqb, if◌then◌else◌}
use nnel.Proto.Encoding.{
  Json, num, str, obj, Fields, end, field, is_key, set_text, set_int, unmarshal,
}

pub record AddTunnel : Type 0 where
  pub name : Text
  pub type : Text
  pub local_addr : Text
  pub subdomain : Text
  pub remote_port : ℤ

-- An empty subdomain and port 0 are left out (omitempty).
abbrev pub marshal_add_tunnel : AddTunnel → Json
marshal_add_tunnel m =
    let port : Fields =
      if int_eqb m.remote_port (pos 0)
      then end
      else field (text "remote_port") (num m.remote_port) end in
    let rest : Fields =
      if text_eqb m.subdomain [] then port else field (text "subdomain") (str m.subdomain) port in
    obj (
      field (text "name") (str m.name)
        (field (text "type") (str m.type) (field (text "local_addr") (str m.local_addr) (rest))))

abbrev put_add_tunnel : Text → Json → AddTunnel → Option AddTunnel
put_add_tunnel key v m =
    if is_key (text "name") key
    then set_text (λ x. record m { name = x }) v m
    else if is_key (text "type") key
    then set_text (λ x. record m { type = x }) v m
    else if is_key (text "local_addr") key
    then set_text (λ x. record m { local_addr = x }) v m
    else if is_key (text "subdomain") key
    then set_text (λ x. record m { subdomain = x }) v m
    else if is_key (text "remote_port") key
    then set_int (λ x. record m { remote_port = x }) v m
    else some m

unfoldable pub unmarshal_add_tunnel : Json → Option AddTunnel
unmarshal_add_tunnel =
    unmarshal put_add_tunnel
      (record { name = []; type = []; local_addr = []; subdomain = []; remote_port = pos 0 })

pub record RemoveTunnel : Type 0 where
  pub name : Text

abbrev pub marshal_remove_tunnel : RemoveTunnel → Json
marshal_remove_tunnel m = obj (field (text "name") (str m.name) (end))

abbrev put_remove_tunnel : Text → Json → RemoveTunnel → Option RemoveTunnel
put_remove_tunnel key v m =
    if is_key (text "name") key then set_text (λ x. record m { name = x }) v m else some m

unfoldable pub unmarshal_remove_tunnel : Json → Option RemoveTunnel
unmarshal_remove_tunnel = unmarshal put_remove_tunnel (record { name = [] })

pub record Promote : Type 0 where
  pub tunnel_name : Text

abbrev pub marshal_promote : Promote → Json
marshal_promote m = obj (field (text "tunnel_name") (str m.tunnel_name) (end))

abbrev put_promote : Text → Json → Promote → Option Promote
put_promote key v m =
    if is_key (text "tunnel_name") key
    then set_text (λ x. record m { tunnel_name = x }) v m
    else some m

unfoldable pub unmarshal_promote : Json → Option Promote
unmarshal_promote = unmarshal put_promote (record { tunnel_name = [] })

pub record PromoteError : Type 0 where
  pub tunnel_name : Text
  pub error : Text

abbrev pub marshal_promote_error : PromoteError → Json
marshal_promote_error m =
    obj (field (text "tunnel_name") (str m.tunnel_name) (field (text "error") (str m.error) (end)))

abbrev put_promote_error : Text → Json → PromoteError → Option PromoteError
put_promote_error key v m =
    if is_key (text "tunnel_name") key
    then set_text (λ x. record m { tunnel_name = x }) v m
    else if is_key (text "error") key
    then set_text (λ x. record m { error = x }) v m
    else some m

unfoldable pub unmarshal_promote_error : Json → Option PromoteError
unmarshal_promote_error = unmarshal put_promote_error (record { tunnel_name = []; error = [] })

pub record SetTunnelDir : Type 0 where
  pub tunnel_name : Text
  pub dir : Text

abbrev pub marshal_set_tunnel_dir : SetTunnelDir → Json
marshal_set_tunnel_dir m =
    obj (field (text "tunnel_name") (str m.tunnel_name) (field (text "dir") (str m.dir) (end)))

abbrev put_set_tunnel_dir : Text → Json → SetTunnelDir → Option SetTunnelDir
put_set_tunnel_dir key v m =
    if is_key (text "tunnel_name") key
    then set_text (λ x. record m { tunnel_name = x }) v m
    else if is_key (text "dir") key
    then set_text (λ x. record m { dir = x }) v m
    else some m

unfoldable pub unmarshal_set_tunnel_dir : Json → Option SetTunnelDir
unmarshal_set_tunnel_dir = unmarshal put_set_tunnel_dir (record { tunnel_name = []; dir = [] })
