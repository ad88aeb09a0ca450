-- ===== src/Server/Tests/Deploys.antt =====
-- The theorems about promotion, deployed apps, URLs, ports and the dashboard at concrete inputs.
use nnel.Base.{
  Any, ◌≡◌, ◌≢◌, refl, true, false, some, [], ◌∷◌, ◌++◌, pos, Text, text, lookup, insert, contains,
  before_last, ok, err, text_eq, arith,
}
use nnel.Server.Registry.{new_registry, add_client, lookup_http, find_tunnel}
use nnel.Server.Registry.Consistent.{live_same}
use nnel.Server.Registry.Register.{register}
use nnel.Server.State.{Server, DeployedApp, PendingBuild}
use nnel.Server.Url.{build_public_http_url}
use nnel.Server.Ports.{pick_tcp_port}
use nnel.Server.Ports.Laws.{Picked, pick_tcp_port-Picked}
use nnel.Server.Http.{deployed, handle_http, extract_subdomain}
use nnel.Server.Http.Subdomain.{extract_subdomain_sound, extract-build_public_http_url, OnPort}
use nnel.Server.Tls.{build_tls_config, host_policy, host_policy-extract_subdomain}
use nnel.Server.Admin.Payload.Filling.{build_sse_payload}
use nnel.Server.Admin.Payload.Laws.{ShowsClient, AddsUp, build_sse_payload-ShowsClient}
use nnel.Server.Deploy.{
  Upload, BuildRun, build_failed, already_building, is_valid_deploy_name, new_app, promote_begin,
  promote_end, deploy,
}
use nnel.Server.Deploy.Evicting.{NamedBySubdomain}
use nnel.Server.Deploy.Promotion.{
  Begun, promote_begin-Begun, deploy_serves, deploy_shadowed, failed_build_blocks,
}
use nnel.Server.Tests.{
  parse_nothing, sample_cfg, server, connected, with_web, with_web-IsConsistent, with_api,
  with_api-IsConsistent, with_api-IsLive, with_web-IsLive, laptop_web, laptop_api, web_tunnel,
  web_host,
}

abbrev web_upload : Upload
web_upload = record {
  is_post = true;
  form_ok = true;
  name = text "web";
  has_tarball = true;
  temp_dir = some (text "/tmp/a");
  extracted = true;
  ports_ok = true;
  now = 9;
}

abbrev web_app : DeployedApp
web_app = new_app (text "web") (text "/tmp/a") (text "f00") (text "127.0.0.1:3000", pos 3000) 10

abbrev old_app : DeployedApp
old_app = new_app (text "old") (text "/tmp/b") (text "f01") (text "127.0.0.1:3001", pos 3001) 10

abbrev failing : BuildRun
failing = record {
  output = text "installing" ∷ [];
  build_error = some (text "exit status 1");
  run = ok (text "f00");
  detected = err [];
  finished_at = 10;
}

abbrev web_build : PendingBuild
web_build = record { name = text "web"; started_at = 9; lines = []; err_msg = []; done = false }

abbrev building : Server
building = record (server connected) { pending_builds = (text "web", web_build) ∷ [] }

promote_begin-Begun_example :
    Begun (server with_web) web_upload (promote_begin (server with_web) web_upload)
promote_begin-Begun_example = promote_begin-Begun (server with_web) web_upload

web_is_named : NamedBySubdomain with_web (text "web")
unfolding lookup_http lookup register insert add_client new_registry find_tunnel
web_is_named p e live held =
    let here : p ≡ 0 = ground arith in
    let same : e ≡ laptop_web = live_same with_web p 0 e laptop_web live with_web-IsLive here in
    rw same (web_tunnel, refl, refl)

deploy_serves_example :
    (handle_http (deploy (text "web") web_app (server with_web)) web_host []).1
    ≡ deployed (text "127.0.0.1:3000")
unfolding extract_subdomain lookup_http lookup register insert add_client new_registry
deploy_serves_example =
    deploy_serves (server with_web) (text "web") web_host [] web_app with_web-IsConsistent
      web_is_named (λ e. ground arith) (λ e. ground arith) refl

deploy_shadowed_example :
    ((deploy (text "old") old_app (server with_api)).registry ≡ with_api)
    × ((handle_http (deploy (text "old") old_app (server with_api)) (text "old.ex.io") []).1
        ≢ deployed (text "127.0.0.1:3001"))
unfolding extract_subdomain lookup_http lookup register insert add_client new_registry find_tunnel
deploy_shadowed_example =
    deploy_shadowed (server with_api) (text "old") (text "old.ex.io") [] (text "127.0.0.1:3001")
      old_app 0 laptop_api with_api-IsConsistent with_api-IsLive refl refl refl

failed_build_blocks_example :
    let s' = (promote_end building (text "web") (text "/tmp/a") failing).0 in
    ((promote_end building (text "web") (text "/tmp/a") failing).1 ≡ some build_failed)
    × (promote_begin s' web_upload ≡ (s', err already_building))
unfolding lookup is_valid_deploy_name
failed_build_blocks_example =
    failed_build_blocks building (text "/tmp/a") (text "exit status 1") failing web_build web_upload
      refl refl refl refl refl refl

pick_tcp_port-Picked_example : Picked sample_cfg connected (pick_tcp_port sample_cfg connected)
pick_tcp_port-Picked_example = pick_tcp_port-Picked sample_cfg connected

extract_subdomain_sound_example :
    (contains b'.' (text "web") ≡ false)
    × (before_last b':' web_host ≡ text "web" ++ b'.' ∷ text "ex.io")
unfolding extract_subdomain
extract_subdomain_sound_example =
    extract_subdomain_sound web_host (text "ex.io") (text "web") (λ e. ground arith)
      (λ e. ground arith) refl

host_policy-extract_subdomain_example :
    (host_policy sample_cfg (before_last b':' (text "web.ex.io:443")) ≡ true)
    × (host_policy sample_cfg (text "ex.io") ≡ true)
unfolding extract_subdomain build_tls_config
host_policy-extract_subdomain_example =
    host_policy-extract_subdomain (λ cert key. true) sample_cfg [] (text "web.ex.io:443")
      (text "web") refl (λ e. ground arith) refl

build_sse_payload-ShowsClient_example :
    Any
      (ShowsClient parse_nothing (λ t. []) (λ name. []) (server with_web) laptop_web)
      (build_sse_payload parse_nothing (λ t. []) (λ name. []) 0 90 (server with_web)).clients
    × AddsUp (build_sse_payload parse_nothing (λ t. []) (λ name. []) 0 90 (server with_web))
build_sse_payload-ShowsClient_example =
    build_sse_payload-ShowsClient parse_nothing (λ t. []) (λ name. []) (server with_web) 0 90 0
      laptop_web with_web-IsLive

extract-build_public_http_url_example :
    (host : Text) × (build_public_http_url parse_nothing sample_cfg (text "web")
      ≡ text "https" ++ (text "://" ++ host))
    × OnPort (text "https") sample_cfg.port (text "web") (text "ex.io") host
    × (extract_subdomain host (text "ex.io") ≡ text "web")
extract-build_public_http_url_example =
    extract-build_public_http_url parse_nothing sample_cfg (text "web") refl (λ e. ground arith)
      refl refl refl
