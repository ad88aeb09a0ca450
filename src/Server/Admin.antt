-- ===== src/Server/Admin.antt =====
-- internal/server/dashboard.go and server.go: the handlers of the dashboard, and the check of the
-- token before them. A handler takes the body as it was read and whether the message to the client
-- can be sent; it returns the new state, the message and the answer.
pub mod Laws
pub mod Paths
pub mod Payload
pub mod Stream
use nnel.Base.{
  delete, ℕ, Bool, true, false, not, ◌&&◌, ◌||◌, Option, none, some, List, [], ◌∷◌, ◌++◌, Text,
  text, ◌==◌, text_eq, if◌then◌else◌, lookup, get_elem?, set, has_prefix, trim_prefix,
}
use nnel.Config.{ServerConfig}
use nnel.Proto.{AddTunnel, RemoveTunnel, SetTunnelDir, Promote, unmarshal_add_tunnel}
use nnel.Proto.Encoding.{Json}
use nnel.Server.Registry.{
  Registry, ClientEntry, TunnelEntry, modify, remove_tunnel_by_name, disconnect_client, find_tunnel,
  Closed,
}
use nnel.Server.State.{Server}

-- Where the token may stand in a request: the query, the password of basic authentication, and the
-- Authorization header. The first two are empty, or `none`, if they are missing.
pub record Credentials : Type 0 where
  pub query_token : Text
  pub basic_password : Option Text
  pub authorization : Text

abbrev pub first_token : Credentials → Text
first_token c =
    if not (c.query_token == [])
    then c.query_token
    else elim c.basic_password [ none ↦ [] | some pass ↦ pass ]

-- adminAuth: whether the handler behind it is called.
unfoldable pub admin_auth : ServerConfig → Credentials → Bool
admin_auth cfg c =
    let tok = first_token c in
    let token =
      if tok == [] && has_prefix c.authorization (text "Bearer ")
      then trim_prefix c.authorization (text "Bearer ")
      else tok in
    cfg.auth_token == [] || token == cfg.auth_token

-- Messages that the dashboard makes the server send to a client.
pub data Relayed : Type 0 where
  add_tunnel : AddTunnel → Relayed
  remove_tunnel : RemoveTunnel → Relayed
  set_tunnel_dir : SetTunnelDir → Relayed
  promote : Promote → Relayed

pub data Answer : Type 0 where
  -- 200
  ok_json : Answer
  -- 400
  bad_json fields_required : Answer
  -- 404
  client_not_found tunnel_not_found : Answer
  -- 500
  send_failed : Answer

-- The message and the answer of a handler that fails if the message cannot be sent.
abbrev pub relay : Bool → Relayed → List Relayed × Answer
relay true m = (m ∷ [], ok_json)
relay false m = ([], send_failed)

unfoldable pub handle_add_tunnel : Text → Json → Bool → Server → List Relayed × Answer
handle_add_tunnel client_id body can_send s = elim (unmarshal_add_tunnel body) [
  | none ↦ ([], bad_json)
  | some msg ↦
      if msg.name == []
        || msg.local_addr == []
        || not (msg.type == text "http") && not (msg.type == text "tcp")
      then ([], fields_required)
      else elim (lookup client_id s.registry.by_id) [
        | none ↦ ([], client_not_found)
        | some p ↦ relay can_send (add_tunnel msg)
      ]
]

-- The client is told if it can be; the tunnel is removed in any case.
unfoldable pub handle_remove_tunnel : Text → Text → Bool → Server → Server × List Relayed × Answer
handle_remove_tunnel client_id name can_send s = elim (lookup client_id s.registry.by_id) [
  | none ↦ (s, [], client_not_found)
  | some p ↦ (
    record s { registry = (remove_tunnel_by_name client_id name s.registry).0 },
    (if can_send then remove_tunnel (record { name = name }) ∷ [] else []),
    ok_json,
  )
]

unfoldable pub handle_disconnect : Text → Server → List Closed × Answer
handle_disconnect client_id s =
    let (found, closed) = disconnect_client client_id s.registry in
    if found then (closed, ok_json) else ([], client_not_found)

-- The loop over the tunnels of the client: the first of that name.
unfoldable pub set_dir : Text → Text → List TunnelEntry → List TunnelEntry
set_dir name dir [] = []
set_dir name dir (t ∷ ts) =
    if t.name == name
    then record t { dir = dir; has_dir = not (dir == []) } ∷ ts
    else t ∷ set_dir name dir ts

abbrev pub with_dir : Text → Text → ClientEntry → ClientEntry
with_dir name dir e = record e { tunnels = set_dir name dir e.tunnels }

-- The directory stays set when the message cannot be sent.
unfoldable pub handle_set_tunnel_dir :
    Text → Text → Text → Bool → Server → Server × (List Relayed × Answer)
unfolding set_dir
handle_set_tunnel_dir client_id name dir can_send s = elim (lookup client_id s.registry.by_id) [
  | none ↦ (s, ([], client_not_found))
  | some p ↦ elim (get_elem? s.registry.entries p) [
    | none ↦ (s, ([], client_not_found))
    | some e ↦ elim (find_tunnel name e.tunnels) [
      | none ↦ (s, ([], tunnel_not_found))
      | some t ↦ (
        record s {
          registry = record (s.registry) {
            entries = modify p (with_dir name dir) s.registry.entries;
          };
        },
        relay can_send (set_tunnel_dir (record { tunnel_name = name; dir = dir })),
      )
    ]
  ]
]

unfoldable pub handle_promote_trigger : Text → Text → Bool → Server → List Relayed × Answer
handle_promote_trigger client_id name can_send s = elim (lookup client_id s.registry.by_id) [
  | none ↦ ([], client_not_found)
  | some p ↦ relay can_send (promote (record { tunnel_name = name }))
]

-- DELETE /builds/<name>.
unfoldable pub dismiss_build : Text → Server → Server
dismiss_build name s = record s { pending_builds = delete name s.pending_builds }
