-- ===== src/Cmd/Install/Laws.antt =====
-- The service that runInstall sets up starts the client that was asked for.
use nnel.Base.{text_eq}
