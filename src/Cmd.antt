-- ===== src/Cmd.antt =====
-- cmd/server/main.go and cmd/client/main.go: the command lines.
pub mod Share
pub mod Check
pub mod Install
pub mod Range
pub mod Specs
pub mod Serve
pub mod Connect
mod Tests
