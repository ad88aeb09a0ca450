-- ===== src/Relay/Tests/Promotions.antt =====
-- A promotion that fails on the client, at a concrete input.
use nnel.Base.{refl, false, Option, none, some, [], ◌∷◌, ℕ, ℤ, pos, Text, text, Result, ok, lookup}
use nnel.Config.{ClientConfig, ServerConfig}
use nnel.Proto.{Promote}
use nnel.Server.Registry.{new_registry}
use nnel.Server.State.{Server, PendingBuild}
use nnel.Server.Url.{Url}
use nnel.Client.Promoting.{UrlPackage, Answer, answered, UploadRequest, handle_promote}
use nnel.Relay.Promoting.{Told, Told-handle_promote}

abbrev pub relay_cfg : ServerConfig
relay_cfg = record {
  domain = text "ex.io";
  port = pos 443;
  auth_token = [];
  dev = false;
  tls_cert = [];
  tls_key = [];
  acme_cache = [];
  allowed_ports = [];
  tcp_port_min = pos 0;
  tcp_port_max = pos 0;
  deploy_dir = [];
  public_url = [];
}

abbrev web_build : PendingBuild
web_build = record { name = text "web"; started_at = 1; lines = []; err_msg = []; done = false }

abbrev building : Server
building = record {
  cfg = relay_cfg;
  registry = new_registry;
  deployed_apps = [];
  pending_builds = (text "web", web_build) ∷ [];
}

abbrev pub laptop : ClientConfig
laptop = record {
  name = text "laptop";
  server = text "wss://ex.io/";
  auth_token = [];
  tunnels =
      record {
        name = text "web";
        local = text "localhost:3000";
        type = text "http";
        subdomain = text "web";
        remote_port = pos 0;
        dir = text "/src/web";
      }
      ∷ [];
  config_file = [];
}

abbrev plain_urls : UrlPackage
plain_urls = record {
  Parsed = Text;
  parse = λ s. some s;
  scheme = λ s. text "wss";
  with_scheme = λ scheme s. s;
  string = λ s. s;
}

abbrev promote_web : Promote
promote_web = record { tunnel_name = text "web" }

abbrev no_url : Text → Option Url
no_url s = none

abbrev listen_at : ℤ → Result Text ℕ
listen_at port = ok 7

abbrev packs : Text → Result Text Text
packs dir = ok (text "tar")

abbrev refuses : UploadRequest → Answer
refuses r = answered 409 (text "already building")

Told-handle_promote_example :
    Told no_url listen_at building
      (text "c1")
      none
      (λ home path. path)
      (λ body. body)
      plain_urls
      packs
      refuses
      laptop
      promote_web
      web_build
      (handle_promote none
        (λ home path. path)
        (λ body. body)
        plain_urls
        packs
        refuses
        laptop
        promote_web)
unfolding lookup
Told-handle_promote_example =
    Told-handle_promote no_url listen_at building (text "c1") none (λ home path. path)
      (λ body. body) plain_urls packs refuses laptop promote_web web_build refl
