-- ===== src/Server/Http.antt =====
-- internal/server/http_proxy.go: routing of public HTTP traffic. The reverse proxy itself
-- (net/http/httputil) is not modelled; the outcome says to what a request is handed.
pub mod Subdomain
pub mod Routing
use nnel.Base.{
  ℕ, ◌+◌, ◌-◌, ◌<◌, ltb, Bool, true, false, ◌&&◌, ◌||◌, Option, none, some, List, [], ◌∷◌, ◌++◌,
  map, leb, ℤ, Text, text, text_eqb, ◌==◌, text_eq, if◌then◌else◌, last_index, index, take,
  contains, has_suffix, before_last, length, lookup, insert, get_elem?,
}
use nnel.Server.Registry.{Registry, ClientEntry, TunnelEntry, lookup_http}
use nnel.Server.State.{Server, DeployedApp}

unfoldable pub extract_subdomain : Text → Text → Text
extract_subdomain host_port base =
    let host = before_last b':' host_port in
    let suffix = b'.' ∷ base in
    let sub = take (length host - length suffix) host in
    if base == []
    then elim (index b'.' host) [ none ↦ [] | some i ↦ if ltb 0 i then take i host else [] ]
    else if has_suffix host suffix
    then if contains b'.' sub then [] else sub
    else []

pub data Outcome : Type 0 where
  -- the dashboard page
  index_page : Outcome
  -- ReverseProxy over the session of this client, to this tunnel
  proxied : ℕ → TunnelEntry → Outcome
  -- handleWSProxy over the session of this client, to this tunnel
  hijacked : ℕ → TunnelEntry → Outcome
  -- the reverse proxy to a deployed app, at its address
  deployed : Text → Outcome
  -- 503
  app_not_ready : Outcome
  -- 502
  no_tunnel : Text → Outcome
  -- 500
  entry_missing : Outcome

-- strings.EqualFold on ASCII letters.
abbrev pub equal_fold : Text → Text → Bool
equal_fold s t = text_eqb (map lower s) (map lower t)
  where
    lower : ℕ → ℕ
    lower c = if leb b'A' c && leb c b'Z' then c + 32 else c

-- The loop over the client's tunnels.
unfoldable pub find_subdomain : Text → List TunnelEntry → Option TunnelEntry
find_subdomain s [] = none
find_subdomain s (t ∷ ts) = if t.subdomain == s then some t else find_subdomain s ts

-- A request that the app serves is counted.
unfoldable pub serve_deployed_app : Text → DeployedApp → Server → Server × Outcome
serve_deployed_app key app s = if app.listen_addr == [] then (s, app_not_ready) else (
  record s {
    deployed_apps = insert key (record app { requests = app.requests + 1 }) s.deployed_apps;
  },
  deployed app.listen_addr,
)

abbrev pub tunnels_of : Registry → ℕ → List TunnelEntry
tunnels_of reg p = elim (get_elem? reg.entries p) [ none ↦ [] | some e ↦ e.tunnels ]

-- handleHTTP, by the Host and Upgrade headers of the request.
unfoldable pub handle_http : Server → Text → Text → Server × Outcome
unfolding serve_deployed_app find_subdomain
handle_http s host upgrade =
    let subdomain = extract_subdomain host s.cfg.domain in
    if subdomain == [] then (s, index_page) else elim (lookup_http subdomain s.registry) [
      | none ↦ elim (lookup subdomain s.deployed_apps) [
        | some app ↦ serve_deployed_app subdomain app s
        | none ↦ (s, no_tunnel subdomain)
      ]
      | some p ↦ elim (find_subdomain subdomain (tunnels_of s.registry p)) [
        | none ↦ (s, entry_missing)
        | some te ↦
            if equal_fold upgrade (text "websocket") then (s, hijacked p te) else (s, proxied p te)
      ]
    ]
