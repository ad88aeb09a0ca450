-- ===== src/Server/Sound.antt =====
-- What the handlers of the server rely on, and keep, of its state.
use nnel.Server.Registry.Consistent.{IsConsistent}
use nnel.Server.State.{Server}
use nnel.Server.Deploy.Persistence.{IsKeyed}

-- The registry is consistent, and each deployed app is stored once, under its name.
pub record IsSound (s : Server) : Type 0 where
  pub consistent : IsConsistent s.registry
  pub keyed : IsKeyed s.deployed_apps
