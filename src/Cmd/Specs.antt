-- ===== src/Cmd/Specs.antt =====
-- cmd/client/main.go, parseTunnelSpecs: the tunnels that --tunnel flags name.
pub mod Laws
use nnel.Base.{
  ℕ, Bool, Option, none, some, List, [], ◌∷◌, ◌++◌, ℤ, pos, Text, text, ◌==◌, text_eq,
  if◌then◌else◌, split, join, atoi, Result, ok, err,
}
use nnel.Config.{TunnelConfig}

pub data SpecError : Type 0 where
  invalid_spec : Text → SpecError
  invalid_remote_port : Text → SpecError

abbrev pub http_config : Text → Text → TunnelConfig
http_config name local = record {
  name = name;
  local = local;
  type = text "http";
  subdomain = name;
  remote_port = pos 0;
  dir = [];
}

abbrev pub tcp_config : Text → Text → ℤ → TunnelConfig
tcp_config name local port = record {
  name = name;
  local = local;
  type = text "tcp";
  subdomain = [];
  remote_port = port;
  dir = [];
}

abbrev pub with_remote_port : Text → Text → Text → Option ℤ → Result SpecError TunnelConfig
with_remote_port spec name local none = err (invalid_remote_port spec)
with_remote_port spec name local (some port) = ok (tcp_config name local port)

-- The branches on what follows `name:host:port`.
abbrev pub config_of_parts : Text → Text → Text → Text → List Text → Result SpecError TunnelConfig
config_of_parts spec name host port [] = ok (http_config name (join b':' (host ∷ port ∷ [])))
config_of_parts spec name host port (kind ∷ []) =
    if kind == text "tcp"
    then ok (tcp_config name (host ++ b':' ∷ port) (pos 0))
    else ok (http_config name (join b':' (host ∷ port ∷ kind ∷ [])))
config_of_parts spec name host port (kind ∷ remote ∷ []) =
    if kind == text "tcp"
    then with_remote_port spec name (host ++ b':' ∷ port) (atoi remote)
    else ok (http_config name (join b':' (host ∷ port ∷ kind ∷ remote ∷ [])))
config_of_parts spec name host port (kind ∷ remote ∷ more ∷ rest) =
    ok (http_config name (join b':' (host ∷ port ∷ kind ∷ remote ∷ more ∷ rest)))

abbrev pub parts_to_config : Text → List Text → Result SpecError TunnelConfig
parts_to_config spec [] = err (invalid_spec spec)
parts_to_config spec (name ∷ []) = err (invalid_spec spec)
parts_to_config spec (name ∷ host ∷ []) = err (invalid_spec spec)
parts_to_config spec (name ∷ host ∷ port ∷ rest) = config_of_parts spec name host port rest

-- One round of the loop.
unfoldable pub parse_tunnel_spec : Text → Result SpecError TunnelConfig
parse_tunnel_spec spec = parts_to_config spec (split b':' spec)

abbrev pub add_config :
    Result SpecError TunnelConfig
    → Result SpecError (List TunnelConfig)
    → Result SpecError (List TunnelConfig)
add_config (err e) rest = err e
add_config (ok t) (err e) = err e
add_config (ok t) (ok ts) = ok (t ∷ ts)

unfoldable pub parse_tunnel_specs : List Text → Result SpecError (List TunnelConfig)
unfolding parse_tunnel_spec
parse_tunnel_specs [] = ok []
parse_tunnel_specs (spec ∷ specs) = add_config (parse_tunnel_spec spec) (parse_tunnel_specs specs)
