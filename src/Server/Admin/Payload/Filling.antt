-- ===== src/Server/Admin/Payload/Filling.antt =====
-- internal/server/dashboard.go, buildSSEPayload, and internal/server/metrics.go, handleMetrics.
use nnel.Base.{
  trim_right, ℕ, ◌-◌, Option, List, [], map, Text, if◌then◌else◌, ◌==◌, text_eq, length, take,
  split,
}
use nnel.Server.Registry.{TunnelType, http, tcp}
use nnel.Server.State.{Server, DeployedApp, PendingBuild}
use nnel.Server.Build.{snapshot}
use nnel.Server.Url.{Url, build_public_http_url}
use nnel.Server.Admin.Payload.{
  TunnelSnapshot, ClientSnapshot, snapshot_registry, fmt_bytes, fmt_duration, SseTunnel, SseClient,
  SseTotals, SseDeployedApp, SsePendingBuild, SsePayload, count_clients,
}

-- The lines of an output; none for an empty one.
unfoldable pub recent_logs_of : Text → List Text
recent_logs_of out =
    let trimmed = trim_right b'\n' out in if trimmed == [] then [] else split b'\n' trimmed

-- The totals before the loop, with the number of clients.
abbrev pub no_totals : ℕ → SseTotals
no_totals n = record {
  clients = n;
  http_tunnels = 0;
  tcp_tunnels = 0;
  total_bytes_in = 0;
  total_bytes_out = 0;
}

-- The time now in seconds, the format of a time, and the end of the logs of an app.
module _ (parse_url : Text → Option Url) (format_time : ℕ → Text) (docker_logs : Text → Text) where
  abbrev pub shown_endpoint : Server → TunnelSnapshot → TunnelType → Text
  shown_endpoint s t http = build_public_http_url parse_url s.cfg t.endpoint
  shown_endpoint s t tcp = t.endpoint

  abbrev pub sse_tunnel : Server → Text → TunnelSnapshot → SseTunnel
  sse_tunnel s client_id t = record {
    client_id = client_id;
    name = t.name;
    type = t.type;
    endpoint = shown_endpoint s t t.type;
    local_addr = t.local_addr;
    can_promote = t.can_promote;
    dir = t.dir;
    bytes_in = t.bytes_in;
    bytes_out = t.bytes_out;
    bytes_in_human = fmt_bytes t.bytes_in;
    bytes_out_human = fmt_bytes t.bytes_out;
    requests = t.requests;
    active_conns = t.active_conns;
  }

  abbrev pub sse_client : Server → ℕ → ClientSnapshot → SseClient
  sse_client s now c = record {
    id = c.id;
    short_id = take 8 c.id;
    name = c.name;
    remote = c.remote;
    connected_at = format_time c.connected_at;
    connected_ago = fmt_duration (now - c.connected_at);
    tunnels = map (sse_tunnel s c.id) c.tunnels;
  }

  abbrev pub sse_app : Server → Text × DeployedApp → SseDeployedApp
  sse_app s (key, app) = record {
    name = app.name;
    public_url = build_public_http_url parse_url s.cfg app.subdomain;
    port = app.port;
    started_at = format_time app.started_at;
    requests = app.requests;
    active_conns = app.active_conns;
    recent_logs = recent_logs_of (docker_logs app.name);
  }

  abbrev pub sse_build : ℕ → Text × PendingBuild → SsePendingBuild
  sse_build now (key, b) =
      let (lines, err_msg, done) = snapshot b in
      record {
        name = b.name;
        started_at = format_time b.started_at;
        elapsed_s = now - b.started_at;
        lines = lines;
        error = err_msg;
        done = done;
      }

  unfoldable pub build_sse_payload : ℕ → ℕ → Server → SsePayload
  build_sse_payload started_at now s =
      let snaps = snapshot_registry s.registry in
      record {
        uptime_seconds = now - started_at;
        server_time = format_time now;
        clients = map (sse_client s now) snaps;
        totals = count_clients snaps (no_totals (length snaps));
        deployed_apps = map (sse_app s) s.deployed_apps;
        pending_builds = map (sse_build now) s.pending_builds;
      }

pub record TunnelCounts : Type 0 where
  pub http : ℕ
  pub tcp : ℕ

pub record MetricsResponse : Type 0 where
  pub uptime_seconds : ℕ
  pub connected_clients : ℕ
  pub active_tunnels : TunnelCounts

unfoldable pub handle_metrics : ℕ → ℕ → Server → MetricsResponse
handle_metrics started_at now s = record {
  uptime_seconds = now - started_at;
  connected_clients = length s.registry.by_id;
  active_tunnels = record {
    http = length s.registry.by_subdomain;
    tcp = length s.registry.by_port;
  };
}
