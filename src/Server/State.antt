-- ===== src/Server/State.antt =====
-- internal/server: the state of the relay server. server.go has the Server, deploy.go the
-- deployed apps and the pending builds. The two sync.Maps are association lists, and times are
-- seconds.
use nnel.Base.{ℕ, Bool, List, ℤ, Text}
use nnel.Config.{ServerConfig}
use nnel.Server.Registry.{Registry}

pub record DeployedApp : Type 0 where
  pub name : Text
  pub subdomain : Text
  pub container_id : Text
  pub listen_addr : Text
  pub port : ℤ
  pub dir : Text
  pub started_at : ℕ
  pub requests : ℕ
  pub active_conns : ℕ

pub record PendingBuild : Type 0 where
  pub name : Text
  pub started_at : ℕ
  pub lines : List Text
  pub err_msg : Text
  pub done : Bool

pub record Server : Type 0 where
  pub cfg : ServerConfig
  pub registry : Registry
  pub deployed_apps : List (Text × DeployedApp)
  pub pending_builds : List (Text × PendingBuild)
