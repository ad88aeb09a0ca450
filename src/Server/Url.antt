-- ===== src/Server/Url.antt =====
-- internal/server/server.go, buildPublicHTTPURL. url.Parse is a parameter; of its result the code
-- uses the scheme, the host, and the methods Hostname and Port, which are modelled.
use nnel.Base.{
  Bool, true, ◌&&◌, ◌||◌, Option, none, some, [], ◌∷◌, ◌++◌, ◌-◌, ℤ, pos, Text, text, ◌==◌, text_eq,
  int_eq, nat_eq, if◌then◌else◌, last_index, take, drop, all, has_prefix, has_suffix, length,
  is_digit, print_int,
}
use nnel.Config.{ServerConfig}

-- The parts of net/url's URL that are used.
pub record Url : Type 0 where
  pub scheme : Text
  pub host : Text

-- validOptionalPort of package net/url: `:` and digits.
abbrev valid_optional_port : Text → Bool
valid_optional_port [] = true
valid_optional_port (c ∷ digits) = c == b':' && all is_digit digits

abbrev split_host_port : Text → Text × Text
split_host_port host = elim (last_index b':' host) [
  | none ↦ (host, [])
  | some i ↦
      if valid_optional_port (drop i host) then (take i host, drop 1 (drop i host)) else (host, [])
]

-- An IPv6 address stands in brackets.
abbrev strip_brackets : Text → Text
strip_brackets s =
    if has_prefix s (b'[' ∷ []) && has_suffix s (b']' ∷ [])
    then take (length s - 2) (drop 1 s)
    else s

unfoldable pub hostname : Url → Text
hostname u = strip_brackets (split_host_port u.host).0

unfoldable pub url_port : Url → Text
url_port u = (split_host_port u.host).1

-- `scheme://subdomain.host`, and a port.
abbrev pub tunnel_url : Text → Text → Text → Text
tunnel_url scheme subdomain host = scheme ++ (text "://" ++ (subdomain ++ b'.' ∷ host))

abbrev pub default_port : Text → ℤ → Bool
default_port scheme port =
    scheme == text "https" && port == pos 443 || scheme == text "http" && port == pos 80

-- The branch for a public URL that parses and has a host.
unfoldable pub url_behind_proxy : Url → Text → Text
unfolding hostname url_port
url_behind_proxy u subdomain =
    let scheme : Text = if u.scheme == [] then text "https" else u.scheme in
    let host = hostname u in
    let port = url_port u in
    if port == []
      || scheme == text "https" && port == text "443"
      || scheme == text "http" && port == text "80"
    then tunnel_url scheme subdomain host
    else tunnel_url scheme subdomain (host ++ b':' ∷ port)

unfoldable pub url_of_config : ServerConfig → Text → Text
url_of_config cfg subdomain =
    let scheme : Text = if cfg.dev then text "http" else text "https" in
    if cfg.domain == []
    then text "(subdomain: " ++ (subdomain ++ text ")")
    else if default_port scheme cfg.port
    then tunnel_url scheme subdomain cfg.domain
    else tunnel_url scheme subdomain (cfg.domain ++ b':' ∷ print_int cfg.port)

module _ (parse_url : Text → Option Url) where
  unfoldable pub build_public_http_url : ServerConfig → Text → Text
  unfolding url_behind_proxy url_of_config
  build_public_http_url cfg subdomain =
      if cfg.public_url == []
      then url_of_config cfg subdomain
      else elim (parse_url cfg.public_url) [
        | none ↦ url_of_config cfg subdomain
        | some u ↦
            if u.host == [] then url_of_config cfg subdomain else url_behind_proxy u subdomain
      ]
