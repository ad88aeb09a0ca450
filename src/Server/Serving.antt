-- ===== src/Server/Serving.antt =====
-- The requests that the server gets: the mux of Run and the upgrade of handleControl in
-- internal/server/server.go. http.ServeMux takes a pattern that ends in a slash for all paths below
-- it and redirects the path without that slash; paths are taken to be clean, as it redirects others
-- too.
pub mod Laws
use nnel.Base.{
  ℕ, Bool, true, false, Option, none, some, List, [], ◌∷◌, ℤ, Text, text, text_eq, ◌==◌,
  if◌then◌else◌, has_prefix, trim_prefix, Result,
}
use nnel.Server.State.{Server}
use nnel.Server.Url.{Url}
use nnel.Server.Http.{Outcome, handle_http}
use nnel.Server.Admin.{Credentials, admin_auth}
use nnel.Server.Admin.Paths.{Method, AdminRoute, handle_admin}
use nnel.Server.Registry.{Closed, session}
use nnel.Server.Control.{Reply}
use nnel.Server.Control.Sessions.{Connection, Ended, resource, run}

pub record Request : Type 0 where
  pub method : Method
  pub path : Text
  pub host : Text
  pub upgrade : Text
  pub credentials : Credentials

pub data Served : Type 0 where
  -- handleControl
  control : Served
  -- to the path with a slash
  redirected : Served
  -- 401
  unauthorized : Served
  admin : AdminRoute → Served
  public : Outcome → Served

abbrev pub served_public : Server × Outcome → Server × Served
served_public (s, o) = (s, public o)

unfoldable pub serve : Server → Request → Server × Served
serve s r =
    if r.path == text "/ws"
    then (s, control)
    else if r.path == text "/_2nnel"
    then (s, redirected)
    else if has_prefix r.path (text "/_2nnel/")
    then if admin_auth s.cfg r.credentials
      then (s, admin (handle_admin r.method (trim_prefix r.path (text "/_2nnel"))))
      else (s, unauthorized)
    else served_public (handle_http s r.host r.upgrade)

-- The upgrade and yamux.Server: an error of the first, or of the second, which closes the WebSocket;
-- or a connection.
pub data Upgraded : Type 0 where
  upgrade_failed : Upgraded
  yamux_failed : (websocket : ℕ) → Upgraded
  upgraded : Connection → Upgraded

module _ (parse_url : Text → Option Url) (listen : ℤ → Result Text ℕ) where
  -- The state, the replies, what the session closed, and the WebSocket if it is closed here.
  abbrev pub handle_control :
      Server → Upgraded → Option (Server × List Reply × List Ended) × Option ℕ
  handle_control s upgrade_failed = (some (s, [], []), none)
  handle_control s (yamux_failed ws) = (some (s, [], []), some ws)
  handle_control s (upgraded c) = (run parse_url listen s c, none)
