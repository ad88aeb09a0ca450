-- ===== src/Server/Registry.antt =====
-- internal/server/server.go, the registry of client sessions. A *clientEntry is a pointer: its
-- position in `entries`, the store of all entries ever allocated, which the three maps share. Each
-- function is one critical section under Registry.mu. What a call closes (listeners and sessions,
-- by their handles) is returned beside the new state.
pub mod Routes
pub mod Consistent
pub mod Connect
pub mod Register
pub mod Remove
pub mod Update
pub mod Evict
pub mod Owner
pub mod Race
use nnel.Base.{
  ℕ, Bool, true, false, Option, none, some, List, [], ◌∷◌, ◌++◌, ℤ, Text, ◌==◌, if◌then◌else◌,
  length, get_elem?, set, lookup, insert, delete, text_eq, int_eq,
}

-- The source keeps one of the strings "http" and "tcp".
pub data TunnelType : Type 0 where
  http tcp : TunnelType

pub record TunnelEntry : Type 0 where
  pub name : Text
  pub tunnel_type : TunnelType
  pub subdomain : Text
  pub remote_port : ℤ
  pub local_addr : Text
  pub has_dir : Bool
  pub dir : Text
  pub tcp_ln : Option ℕ
  pub bytes_in : ℕ
  pub bytes_out : ℕ
  pub requests : ℕ
  pub active_conns : ℕ

pub record ClientEntry : Type 0 where
  pub id : Text
  pub name : Text
  pub remote : Text
  pub connected_at : ℕ
  pub session : ℕ
  pub tunnels : List TunnelEntry
  pub ctrl : Option ℕ

pub record Registry : Type 0 where
  pub by_subdomain : List (Text × ℕ)
  pub by_port : List (ℤ × ℕ)
  pub by_id : List (Text × ℕ)
  pub entries : List ClientEntry

pub data Closed : Type 0 where
  listener session : ℕ → Closed

unfoldable pub new_registry : Registry
new_registry = record { by_subdomain = []; by_port = []; by_id = []; entries = [] }

unfoldable pub add_client : ClientEntry → Registry → Registry
add_client entry reg = record reg {
  by_id = insert entry.id (length reg.entries) reg.by_id;
  entries = reg.entries ++ entry ∷ [];
}

-- `delete(reg.bySubdomain, …)` or `delete(reg.byPort, …)`, by the type of the tunnel.
unfoldable pub drop_route : TunnelType → Text → ℤ → Registry → Registry
drop_route http subdomain port reg = record reg { by_subdomain = delete subdomain reg.by_subdomain }
drop_route tcp subdomain port reg = record reg { by_port = delete port reg.by_port }

abbrev pub unroute : TunnelEntry → Registry → Registry
unroute t reg = drop_route t.tunnel_type t.subdomain t.remote_port reg

abbrev pub closed_by : TunnelType → Option ℕ → List Closed
closed_by http ln = []
closed_by tcp none = []
closed_by tcp (some ln) = listener ln ∷ []

-- The loop of `removeClient` over the copy of the client's tunnels.
unfoldable pub unroute_all : List TunnelEntry → Registry → Registry
unroute_all [] reg = reg
unroute_all (t ∷ ts) reg = unroute_all ts (unroute t reg)

unfoldable pub closed_listeners : List TunnelEntry → List Closed
closed_listeners [] = []
closed_listeners (t ∷ ts) = closed_by t.tunnel_type t.tcp_ln ++ closed_listeners ts

abbrev pub tunnels_at : List ClientEntry → ℕ → List TunnelEntry
tunnels_at entries p = elim (get_elem? entries p) [ none ↦ [] | some e ↦ e.tunnels ]

unfoldable pub remove_client : Text → Registry → Registry × List Closed
unfolding unroute_all
remove_client id reg = elim (lookup id reg.by_id) [
  | none ↦ (reg, [])
  | some p ↦
      let tunnels = tunnels_at reg.entries p in
      (record (unroute_all tunnels reg) { by_id = delete id reg.by_id }, closed_listeners tunnels)
]

abbrev pub append_tunnel : TunnelEntry → ClientEntry → ClientEntry
append_tunnel te e = record e { tunnels = e.tunnels ++ te ∷ [] }

-- A write through the pointer `p`.
abbrev pub modify : ℕ → (ClientEntry → ClientEntry) → List ClientEntry → List ClientEntry
modify p f entries = elim (get_elem? entries p) [ none ↦ entries | some e ↦ set entries p (f e) ]

-- `none` is the nil dereference of an id that is not registered.
unfoldable pub register_http : Text → Text → TunnelEntry → Registry → Option Registry
register_http client_id subdomain te reg = elim (lookup client_id reg.by_id) [
  | none ↦ none
  | some p ↦ some (record reg {
    by_subdomain = insert subdomain p reg.by_subdomain;
    entries = modify p (append_tunnel te) reg.entries;
  })
]

unfoldable pub register_tcp : Text → ℤ → TunnelEntry → Registry → Option Registry
register_tcp client_id port te reg = elim (lookup client_id reg.by_id) [
  | none ↦ none
  | some p ↦ some (record reg {
    by_port = insert port p reg.by_port;
    entries = modify p (append_tunnel te) reg.entries;
  })
]

unfoldable pub lookup_http : Text → Registry → Option ℕ
lookup_http subdomain reg = lookup subdomain reg.by_subdomain

abbrev pub is_some {ℓ} : {A : Type ℓ} → Option A → Bool
is_some none = false
is_some (some a) = true

unfoldable pub is_subdomain_taken : Text → Registry → Bool
is_subdomain_taken subdomain reg = is_some (lookup subdomain reg.by_subdomain)

unfoldable pub is_port_taken : ℤ → Registry → Bool
is_port_taken port reg = is_some (lookup port reg.by_port)

-- The loop of `removeTunnelByName`: the first tunnel of that name, and the list without it.
unfoldable pub find_tunnel : Text → List TunnelEntry → Option TunnelEntry
find_tunnel name [] = none
find_tunnel name (t ∷ ts) = if t.name == name then some t else find_tunnel name ts

unfoldable pub without_tunnel : Text → List TunnelEntry → List TunnelEntry
without_tunnel name [] = []
without_tunnel name (t ∷ ts) = if t.name == name then ts else t ∷ without_tunnel name ts

abbrev pub drop_tunnel : Text → ClientEntry → ClientEntry
drop_tunnel name e = record e { tunnels = without_tunnel name e.tunnels }

unfoldable pub remove_tunnel_by_name : Text → Text → Registry → Registry × Bool × List Closed
unfolding find_tunnel without_tunnel
remove_tunnel_by_name client_id name reg = elim (lookup client_id reg.by_id) [
  | none ↦ (reg, false, [])
  | some p ↦ elim (find_tunnel name (tunnels_at reg.entries p)) [
    | none ↦ (reg, false, [])
    | some t ↦ (
      record (unroute t reg) { entries = modify p (drop_tunnel name) reg.entries },
      true,
      closed_by t.tunnel_type t.tcp_ln,
    )
  ]
]

-- The session is closed; its entry goes when its control loop ends.
unfoldable pub disconnect_client : Text → Registry → Bool × List Closed
disconnect_client id reg = elim (lookup id reg.by_id) [
  | none ↦ (false, [])
  | some p ↦ elim (get_elem? reg.entries p) [
    | none ↦ (true, [])
    | some e ↦ (true, session e.session ∷ [])
  ]
]
