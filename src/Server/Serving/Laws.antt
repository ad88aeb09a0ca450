-- ===== src/Server/Serving/Laws.antt =====
-- Where a request goes, by its path, its host and its credentials.
use nnel.Base.{◌≡◌, ◌≢◌, ◌⊎◌, true, false, [], text, text_eq, has_prefix, trim_prefix}
use nnel.Server.State.{Server}
use nnel.Server.Http.{extract_subdomain}
use nnel.Server.Http.Routing.{Routed}
use nnel.Server.Admin.Laws.{Presents}
use nnel.Server.Admin.Paths.{handle_admin}
use nnel.Server.Serving.{Request, Served, control, redirected, unauthorized, admin, public}

-- What each outcome means for the request.
abbrev pub Dispatched : Server → Request → Served → Type 0
Dispatched s r control = r.path ≡ text "/ws"
Dispatched s r redirected = r.path ≡ text "/_2nnel"
Dispatched s r unauthorized = (s.cfg.auth_token ≢ []) × (has_prefix r.path (text "/_2nnel/") ≡ true)
Dispatched s r (admin route) =
    (has_prefix r.path (text "/_2nnel/") ≡ true)
    × (route ≡ handle_admin r.method (trim_prefix r.path (text "/_2nnel")))
    × ((s.cfg.auth_token ≡ []) ⊎ Presents r.credentials s.cfg.auth_token)
Dispatched s r (public o) =
    (r.path ≢ text "/ws")
    × (has_prefix r.path (text "/_2nnel/") ≡ false)
    × Routed s (extract_subdomain r.host s.cfg.domain) o
