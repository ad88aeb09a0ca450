-- ===== src/Server/Admin/Payload.antt =====
-- What the dashboard shows: buildSSEPayload and fmtDuration in internal/server/dashboard.go,
-- Registry.snapshot in internal/server/server.go, fmtBytes in internal/server/util.go, and
-- internal/server/metrics.go. The clock, its format and the output of `docker logs` enter as arguments.
pub mod Filling
pub mod Laws
use nnel.Base.{
  ℕ, ◌+◌, ◌-◌, ◌*◌, ◌/◌, ◌%◌, ◌^◌, ltb, leb, nat_eqb, Bool, true, false, ◌&&◌, ◌||◌, Option, none,
  some, List, [], ◌∷◌, ◌++◌, map, ℤ, Text, text, if◌then◌else◌, ◌==◌, text_eq, length, take,
  get_elem?, split, print_nat, print_int,
}
use nnel.Server.Registry.{Registry, ClientEntry, TunnelEntry, TunnelType, http, tcp}
use nnel.Server.State.{Server, DeployedApp, PendingBuild}
use nnel.Server.Build.{snapshot}
use nnel.Server.Url.{Url, build_public_http_url}

pub record TunnelSnapshot : Type 0 where
  pub name : Text
  pub type : TunnelType
  pub endpoint : Text
  pub local_addr : Text
  pub can_promote : Bool
  pub dir : Text
  pub bytes_in : ℕ
  pub bytes_out : ℕ
  pub requests : ℕ
  pub active_conns : ℕ

pub record ClientSnapshot : Type 0 where
  pub id : Text
  pub name : Text
  pub remote : Text
  pub connected_at : ℕ
  pub tunnels : List TunnelSnapshot

abbrev pub endpoint_of : TunnelEntry → TunnelType → Text
endpoint_of t http = t.subdomain
endpoint_of t tcp = b':' ∷ print_int t.remote_port

abbrev pub snapshot_tunnel : TunnelEntry → TunnelSnapshot
snapshot_tunnel t = record {
  name = t.name;
  type = t.tunnel_type;
  endpoint = endpoint_of t t.tunnel_type;
  local_addr = t.local_addr;
  can_promote = t.has_dir;
  dir = t.dir;
  bytes_in = t.bytes_in;
  bytes_out = t.bytes_out;
  requests = t.requests;
  active_conns = t.active_conns;
}

abbrev pub snapshot_client : ClientEntry → ClientSnapshot
snapshot_client e = record {
  id = e.id;
  name = e.name;
  remote = e.remote;
  connected_at = e.connected_at;
  tunnels = map snapshot_tunnel e.tunnels;
}

-- Over the values of byID, in some order. Each is the position of an entry of the store.
unfoldable pub snapshot_all : List ClientEntry → List (Text × ℕ) → List ClientSnapshot
snapshot_all entries [] = []
snapshot_all entries ((id, p) ∷ rest) = elim (get_elem? entries p) [
  | none ↦ snapshot_all entries rest
  | some e ↦ snapshot_client e ∷ snapshot_all entries rest
]

unfoldable pub snapshot_registry : Registry → List ClientSnapshot
unfolding snapshot_all
snapshot_registry reg = snapshot_all reg.entries reg.by_id

-- `%.1f` of a quotient by a power of two, which a float64 holds exactly below 2 ^ 53 bytes: the tenths,
-- rounded to the nearest, and to the even one of two.
abbrev pub tenths : ℕ → ℕ → ℕ
tenths n unit =
    let q = 10 * n / unit in
    let r = 10 * n % unit in
    if ltb unit (2 * r) || nat_eqb unit (2 * r) && nat_eqb (q % 2) 1 then q + 1 else q

abbrev pub in_units : ℕ → ℕ → Text → Text
in_units n unit name =
    print_nat (tenths n unit / 10) ++ b'.' ∷ (print_nat (tenths n unit % 10) ++ b' ' ∷ name)

unfoldable pub fmt_bytes : ℕ → Text
fmt_bytes n =
    if leb (2 ^ 30) n
    then in_units n (2 ^ 30) (text "GB")
    else if leb (2 ^ 20) n
    then in_units n (2 ^ 20) (text "MB")
    else if leb (2 ^ 10) n
    then in_units n (2 ^ 10) (text "KB")
    else print_nat n ++ text " B"

-- Of whole seconds, to which the source rounds first.
unfoldable pub fmt_duration : ℕ → Text
fmt_duration seconds =
    let h = seconds / 3600 in
    let m = seconds / 60 % 60 in
    let sec = seconds % 60 in
    if ltb 0 h
    then print_nat h ++ (text "h " ++ (print_nat m ++ text "m"))
    else if ltb 0 m
    then print_nat m ++ (text "m " ++ (print_nat sec ++ text "s"))
    else print_nat sec ++ text "s"

pub record SseTunnel : Type 0 where
  pub client_id : Text
  pub name : Text
  pub type : TunnelType
  pub endpoint : Text
  pub local_addr : Text
  pub can_promote : Bool
  pub dir : Text
  pub bytes_in : ℕ
  pub bytes_out : ℕ
  pub bytes_in_human : Text
  pub bytes_out_human : Text
  pub requests : ℕ
  pub active_conns : ℕ

pub record SseClient : Type 0 where
  pub id : Text
  pub short_id : Text
  pub name : Text
  pub remote : Text
  pub connected_at : Text
  pub connected_ago : Text
  pub tunnels : List SseTunnel

pub record SseTotals : Type 0 where
  pub clients : ℕ
  pub http_tunnels : ℕ
  pub tcp_tunnels : ℕ
  pub total_bytes_in : ℕ
  pub total_bytes_out : ℕ

pub record SseDeployedApp : Type 0 where
  pub name : Text
  pub public_url : Text
  pub port : ℤ
  pub started_at : Text
  pub requests : ℕ
  pub active_conns : ℕ
  pub recent_logs : List Text

pub record SsePendingBuild : Type 0 where
  pub name : Text
  pub started_at : Text
  pub elapsed_s : ℕ
  pub lines : List Text
  pub error : Text
  pub done : Bool

pub record SsePayload : Type 0 where
  pub uptime_seconds : ℕ
  pub server_time : Text
  pub clients : List SseClient
  pub totals : SseTotals
  pub deployed_apps : List SseDeployedApp
  pub pending_builds : List SsePendingBuild

abbrev pub count_type : TunnelType → SseTotals → SseTotals
count_type http totals = record totals { http_tunnels = totals.http_tunnels + 1 }
count_type tcp totals = record totals { tcp_tunnels = totals.tcp_tunnels + 1 }

abbrev pub count_bytes : TunnelSnapshot → SseTotals → SseTotals
count_bytes t totals = record totals {
  total_bytes_in = totals.total_bytes_in + t.bytes_in;
  total_bytes_out = totals.total_bytes_out + t.bytes_out;
}

unfoldable pub count_tunnels : List TunnelSnapshot → SseTotals → SseTotals
count_tunnels [] totals = totals
count_tunnels (t ∷ ts) totals = count_tunnels ts (count_bytes t (count_type t.type totals))

unfoldable pub count_clients : List ClientSnapshot → SseTotals → SseTotals
unfolding count_tunnels
count_clients [] totals = totals
count_clients (c ∷ cs) totals = count_clients cs (count_tunnels c.tunnels totals)
