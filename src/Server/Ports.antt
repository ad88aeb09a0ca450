-- ===== src/Server/Ports.antt =====
-- internal/server/server.go, pickTCPPort: the first free port of the configured range.
pub mod Laws
use nnel.Base.{
  ℕ, zero, suc, Option, none, some, ℤ, pos, suc_ℤ, span, ◌==◌, int_eq, if◌then◌else◌, Result, ok,
  err,
}
use nnel.Config.{ServerConfig}
use nnel.Server.Registry.{Registry, is_port_taken}

pub data PickError : Type 0 where
  no_range : PickError
  no_free_port : ℤ → ℤ → PickError

-- The loop, by the rounds that are left.
pub pick_from : ℕ → ℤ → Registry → Option ℤ
pick_from zero port reg = none
pick_from (suc n) port reg =
    let rest = pick_from n (suc_ℤ port) reg in if is_port_taken port reg then rest else some port

unfoldable pub pick_tcp_port : ServerConfig → Registry → Result PickError ℤ
unfolding pick_from
pick_tcp_port cfg reg =
    if cfg.tcp_port_min == pos 0
    then err no_range
    else elim (pick_from (span cfg.tcp_port_min cfg.tcp_port_max) cfg.tcp_port_min reg) [
      | none ↦ err (no_free_port cfg.tcp_port_min cfg.tcp_port_max)
      | some port ↦ ok port
    ]
