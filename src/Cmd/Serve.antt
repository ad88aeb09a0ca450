-- ===== src/Cmd/Serve.antt =====
-- cmd/server/main.go, runServer up to the start of the server: the configuration of the flags.
use nnel.Base.{
  ◌≡◌, ◌≢◌, refl, Bool, not, ◌&&◌, List, [], ℤ, pos, Text, if◌then◌else◌, Result, ok, err,
}
use nnel.Config.{ServerConfig}
use nnel.Cmd.Range.{RangeError, parse_tcp_port_range}
use nnel.Cmd.Range.Laws.{GoodRange, parse_tcp_port_range-GoodRange}

pub record ServerFlags : Type 0 where
  pub domain : Text
  pub port : ℤ
  -- Changed("port")
  pub port_changed : Bool
  pub auth_token : Text
  pub dev : Bool
  pub tls_cert : Text
  pub tls_key : Text
  pub acme_cache : Text
  pub allowed_ports : List ℤ
  pub tcp_port_range : Text
  pub deploy_dir : Text
  pub public_url : Text

abbrev pub config_of_flags : ServerFlags → ℤ × ℤ → ServerConfig
config_of_flags f (min, max) = record {
  domain = f.domain;
  port = if f.dev && not f.port_changed then pos 8080 else f.port;
  auth_token = f.auth_token;
  dev = f.dev;
  tls_cert = f.tls_cert;
  tls_key = f.tls_key;
  acme_cache = f.acme_cache;
  allowed_ports = f.allowed_ports;
  tcp_port_min = min;
  tcp_port_max = max;
  deploy_dir = f.deploy_dir;
  public_url = f.public_url;
}

-- What New gets.
unfoldable pub server_config : ServerFlags → Result RangeError ServerConfig
server_config f = elim (parse_tcp_port_range f.tcp_port_range) [
  | err e ↦ err e
  | ok range ↦ ok (config_of_flags f range)
]

-- A configuration is that of the flags, with a good range of TCP ports, and with the port 8080 in the
-- development mode if no port is given; there is one unless a range is given that is not good.
abbrev pub Configured : ServerFlags → Result RangeError ServerConfig → Type 0
Configured f (err e) = f.tcp_port_range ≢ []
Configured f (ok cfg) =
    GoodRange f.tcp_port_range (ok (cfg.tcp_port_min, cfg.tcp_port_max))
    × (cfg ≡ config_of_flags f (cfg.tcp_port_min, cfg.tcp_port_max))

-- Whatever the flags, the server starts from them with a range of TCP ports that is empty, where none
-- is given, or goes up from an end that is not negative; it does not start only for a range that is
-- given.
pub server_config-Configured : (f : ServerFlags) → Configured f (server_config f)
unfolding server_config
server_config-Configured f =
    of_range (parse_tcp_port_range f.tcp_port_range)
      (parse_tcp_port_range-GoodRange f.tcp_port_range)
  where
    of_range :
        (r : Result RangeError (ℤ × ℤ))
        → GoodRange f.tcp_port_range r
        → Configured f (elim r [ err e ↦ err e | ok range ↦ ok (config_of_flags f range) ])
    of_range (err e) good = good
    of_range (ok (min, max)) good = (good, refl)
