-- ===== src/Config.antt =====
-- internal/config/config.go: the settings of the server and of the client.
use nnel.Base.{Bool, List, ℤ, Text}

pub record ServerConfig : Type 0 where
  pub domain : Text
  pub port : ℤ
  pub auth_token : Text
  pub dev : Bool
  pub tls_cert : Text
  pub tls_key : Text
  pub acme_cache : Text
  pub allowed_ports : List ℤ
  pub tcp_port_min : ℤ
  pub tcp_port_max : ℤ
  pub deploy_dir : Text
  pub public_url : Text

pub record TunnelConfig : Type 0 where
  pub name : Text
  pub local : Text
  pub type : Text
  pub subdomain : Text
  pub remote_port : ℤ
  pub dir : Text

pub record ClientConfig : Type 0 where
  pub name : Text
  pub server : Text
  pub auth_token : Text
  pub tunnels : List TunnelConfig
  pub config_file : Text
