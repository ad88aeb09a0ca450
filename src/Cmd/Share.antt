-- ===== src/Cmd/Share.antt =====
-- cmd/client/main.go, runShare and sharePublicURL: a file behind a tunnel of its own. The file
-- system, the listener and filepath.Base enter as what they give; url.Parse is a parameter.
pub mod Laws
use nnel.Base.{
  Bool, Option, none, some, List, [], ◌∷◌, ◌++◌, pos, ℤ, Text, text, text_eq, ◌==◌, if◌then◌else◌,
  print_int, Result, ok, err,
}
use nnel.Config.{ClientConfig, TunnelConfig}
use nnel.Server.Url.{Url, tunnel_url}

pub data ShareError : Type 0 where
  file_not_found is_directory no_listener : ShareError

-- The flags; what os.Stat says of the path, if it exists; the base name; the random hexadecimal
-- digits; and the port on which the file is served.
pub record Sharing : Type 0 where
  pub server : Text
  pub auth_token : Text
  pub name : Text
  pub is_dir : Option Bool
  pub filename : Text
  pub random : Text
  pub port : Option ℤ

abbrev pub share_name : Sharing → Text
share_name s = if s.name == [] then text "share-" ++ s.random else s.name

abbrev pub share_tunnel : Sharing → ℤ → TunnelConfig
share_tunnel s port = record {
  name = share_name s;
  local = text "127.0.0.1:" ++ print_int port;
  type = text "http";
  subdomain = share_name s;
  remote_port = pos 0;
  dir = [];
}

abbrev pub share_config : Sharing → ℤ → ClientConfig
share_config s port = record {
  name = [];
  server = s.server;
  auth_token = s.auth_token;
  tunnels = share_tunnel s port ∷ [];
  config_file = [];
}

-- The handlers of the file's own path and of all others.
pub data ShareAnswer : Type 0 where
  -- the file, with the Content-Disposition header
  attachment : Text → ShareAnswer
  file_unavailable : ShareAnswer
  redirect : Text → ShareAnswer

abbrev pub serve_file : Text → Bool → ShareAnswer
serve_file filename opens =
    if opens
    then attachment (text "attachment; filename=\"" ++ (filename ++ text "\""))
    else file_unavailable

abbrev pub serve_other : Text → ShareAnswer
serve_other filename = redirect (b'/' ∷ filename)

module _ (parse_url : Text → Option Url) where
  unfoldable pub share_public_url : Text → Text → Text → Text
  share_public_url server_url subdomain filename = elim (parse_url server_url) [
    | none ↦ text "https://" ++ (subdomain ++ (text ".?/" ++ filename))
    | some u ↦
        tunnel_url (if u.scheme == text "ws" then text "http" else text "https") subdomain u.host
        ++ b'/' ∷ filename
  ]

  -- The link that is printed, and the configuration with which the client runs.
  unfoldable pub run_share : Sharing → Result ShareError (Text × ClientConfig)
  unfolding share_public_url
  run_share s = elim s.is_dir [
    | none ↦ err file_not_found
    | some is_dir ↦ if is_dir then err is_directory else elim s.port [
      | none ↦ err no_listener
      | some port ↦ ok (share_public_url s.server (share_name s) s.filename, share_config s port)
    ]
  ]
