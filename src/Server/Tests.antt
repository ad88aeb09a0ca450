-- ===== src/Server/Tests.antt =====
-- The theorems about the server at concrete inputs: the client "laptop" holds the subdomain "web"
-- by a tunnel of that name, and "old" by a tunnel named "api".
mod Deploys
mod Archives
mod Lifetimes
mod Sessions
mod Requests
use nnel.Base.{
  arith, ℕ, ◌≡◌, ◌≢◌, refl, Bool, true, false, Option, none, some, List, [], ◌∷◌, ◌++◌, ℤ, pos,
  Text, text, if◌then◌else◌, ◌==◌, length, lookup, insert, Result, ok, err, arith,
}
use nnel.Config.{ServerConfig}
use nnel.Proto.{
  marshal_auth, unmarshal_auth, Envelope, RegisterTunnel, marshal_register_tunnel,
  unmarshal_register_tunnel, payload, type_register_tunnel,
}
use nnel.Server.Registry.{
  Registry, ClientEntry, TunnelEntry, http, register_http, is_subdomain_taken, new_registry,
  add_client, append_tunnel, remove_client, remove_tunnel_by_name, lookup_http, find_tunnel,
}
use nnel.Server.Registry.Routes.{Key, key_eq, key_of, route, put_route}
use nnel.Server.Registry.Consistent.{IsConsistent, IsLive, new_registry-IsConsistent}
use nnel.Server.Registry.Connect.{add_client-IsConsistent}
use nnel.Server.Registry.Register.{register, register-IsConsistent, IsLive-after_register}
use nnel.Server.Registry.Owner.{
  owner, without_owner, owner-remove_client, owner-remove_tunnel_by_name,
}
use nnel.Server.Registry.Race.{both-register_http}
use nnel.Server.Sound.{IsSound}
use nnel.Server.State.{Server, DeployedApp, PendingBuild}
use nnel.Server.Url.{Url, build_public_http_url, url_of_config}
use nnel.Server.Control.{
  Reply, tunnel_registered, handle_message, handle_register, handle_register_http, http_entry,
}
use nnel.Server.Control.{authenticate}
use nnel.Server.Control.Authenticating.{Checked, authenticate-Checked}
use nnel.Server.Control.Sessions.{Connection, run}
use nnel.Server.Control.Sessions.Laws.{LeavesNoTrace, run-LeavesNoTrace}
use nnel.Server.Control.Registering.{Answered, handle_register-Answered}
use nnel.Server.Http.{Outcome, deployed, handle_http, extract_subdomain}
use nnel.Server.Http.Routing.{Routed, handle_http-Routed}
use nnel.Server.Deploy.{load_apps}
use nnel.Server.Steps.{started, Step, connects, receives, Reach, here, next}
use nnel.Server.Steps.Reachable.{Reach-IsSound, message-IsSound}

abbrev pub parse_nothing : Text → Option Url
parse_nothing s = none

abbrev pub listen_at : ℤ → Result Text ℕ
listen_at port = ok 7

abbrev nothing_runs : Text → Bool
nothing_runs name = false

abbrev all_run : Text → Bool
all_run name = true

abbrev pub sample_cfg : ServerConfig
sample_cfg = record {
  domain = text "ex.io";
  port = pos 443;
  auth_token = text "key";
  dev = false;
  tls_cert = [];
  tls_key = [];
  acme_cache = [];
  allowed_ports = [];
  tcp_port_min = pos 2000;
  tcp_port_max = pos 2002;
  deploy_dir = [];
  public_url = [];
}

abbrev pub laptop : ClientEntry
laptop = record {
  id = text "c1";
  name = text "laptop";
  remote = text "10.0.0.1:1";
  connected_at = 0;
  session = 3;
  tunnels = [];
  ctrl = some 4;
}

abbrev web_request : RegisterTunnel
web_request = record {
  name = text "web";
  type = text "http";
  subdomain = [];
  remote_port = pos 0;
  local_addr = text "localhost:3000";
  has_dir = false;
  dir = [];
}

abbrev api_request : RegisterTunnel
api_request = record web_request { name = text "api"; subdomain = text "old" }

abbrev pub web_envelope : Envelope
web_envelope = record {
  type = type_register_tunnel;
  raw = some (marshal_register_tunnel web_request);
}

abbrev pub web_tunnel : TunnelEntry
web_tunnel = http_entry web_request (text "web")

abbrev api_tunnel : TunnelEntry
api_tunnel = http_entry api_request (text "old")

abbrev pub connected : Registry
connected = add_client laptop new_registry

abbrev with_web : Registry
with_web = register (key_of web_tunnel) web_tunnel 0 connected

abbrev with_api : Registry
with_api = register (key_of api_tunnel) api_tunnel 0 with_web

abbrev laptop_web : ClientEntry
laptop_web = append_tunnel web_tunnel laptop

abbrev laptop_api : ClientEntry
laptop_api = append_tunnel api_tunnel laptop_web

pub connected-IsConsistent : IsConsistent connected
unfolding new_registry lookup
connected-IsConsistent =
    add_client-IsConsistent laptop new_registry new_registry-IsConsistent refl refl

connected-IsLive : IsLive connected 0 laptop
unfolding add_client new_registry lookup insert
connected-IsLive = (refl, refl)

with_web-IsConsistent : IsConsistent with_web
unfolding add_client new_registry lookup route
with_web-IsConsistent =
    register-IsConsistent web_tunnel 0 laptop connected connected-IsLive connected-IsConsistent refl

with_web-IsLive : IsLive with_web 0 laptop_web
with_web-IsLive = IsLive-after_register web_tunnel 0 laptop connected connected-IsLive

with_api-IsConsistent : IsConsistent with_api
unfolding add_client new_registry lookup route register insert
with_api-IsConsistent =
    register-IsConsistent api_tunnel 0 laptop_web with_web with_web-IsLive with_web-IsConsistent
      refl

with_api-IsLive : IsLive with_api 0 laptop_api
with_api-IsLive = IsLive-after_register api_tunnel 0 laptop_web with_web with_web-IsLive

abbrev pub server : Registry → Server
server reg = record { cfg = sample_cfg; registry = reg; deployed_apps = []; pending_builds = [] }

abbrev web_host : Text
web_host = text "web.ex.io:443"

web_connects : Reach parse_nothing listen_at (started nothing_runs sample_cfg []) (server connected)
unfolding started new_registry lookup load_apps add_client
web_connects = next here (connects laptop refl refl)

web_is_answered :
    handle_message parse_nothing listen_at (server connected) (text "c1") web_envelope
    ≡ some (server with_web, tunnel_registered (text "web") (text "https://web.ex.io") ∷ [])
unfolding handle_message register register_http is_subdomain_taken lookup insert add_client
    new_registry build_public_http_url unmarshal_register_tunnel payload url_of_config
    handle_register_http handle_register
web_is_answered = refl

Reach-IsSound_example : IsSound (server with_web)
Reach-IsSound_example =
    Reach-IsSound parse_nothing listen_at nothing_runs sample_cfg [] (server with_web) (
      next web_connects
        (receives 0 laptop web_envelope (server with_web) _ connected-IsLive web_is_answered))

handle_register-Answered_example :
    Answered
      (server connected)
      laptop
      web_request
      (handle_register parse_nothing listen_at (server connected) (text "c1") web_request)
handle_register-Answered_example =
    handle_register-Answered parse_nothing listen_at (server connected) 0 laptop web_request
      connected-IsLive connected-IsConsistent

owner-remove_client_example :
    owner (remove_client (text "c1") with_api).0 (Key.subdomain (text "old"))
    ≡ without_owner (text "c1") (owner with_api (Key.subdomain (text "old")))
owner-remove_client_example =
    owner-remove_client (text "c1") with_api (Key.subdomain (text "old")) with_api-IsConsistent

owner-remove_tunnel_by_name_example :
    (owner with_api (key_of api_tunnel) ≡ some (text "c1"))
    × (owner (remove_tunnel_by_name (text "c1") (text "api") with_api).0 (key_of web_tunnel) ≡ (
        if key_of api_tunnel == key_of web_tunnel
        then none
        else owner with_api (key_of web_tunnel)))
unfolding find_tunnel
owner-remove_tunnel_by_name_example =
    owner-remove_tunnel_by_name (text "api") api_tunnel 0 laptop_api with_api (key_of web_tunnel)
      with_api-IsConsistent with_api-IsLive refl

message-IsSound_example :
    (s' : Server) × (replies : List Reply) × (handle_message parse_nothing listen_at
        (server connected)
        (text "c1")
        web_envelope
      ≡ some (s', replies))
    × IsSound s'
message-IsSound_example =
    message-IsSound parse_nothing listen_at (server connected) 0 laptop web_envelope
      (record { consistent = connected-IsConsistent; keyed = tt }) connected-IsLive
