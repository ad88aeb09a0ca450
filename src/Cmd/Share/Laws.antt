-- ===== src/Cmd/Share/Laws.antt =====
-- The link that runShare prints, and the tunnel that it asks for.
use nnel.Base.{
  ◌≡◌, ◌≢◌, refl, sym, ◌∙◌, ◌⊎◌, inl, inr, false, Option, some, Option-cases, [], ◌∷◌, ◌++◌,
  append_assoc, ℤ, Text, text, text_eq, ◌==◌, contains, if◌then◌else◌, ok, arith,
}
use nnel.Config.{ClientConfig}
use nnel.Proto.{RegisterTunnel}
use nnel.Server.Url.{Url}
use nnel.Server.Http.{extract_subdomain}
use nnel.Server.Http.Subdomain.{extract_subdomain_complete}
use nnel.Server.Control.{wanted_subdomain}
use nnel.Client.{register_tunnel, register_message}
use nnel.Client.Connecting.{requests}
use nnel.Cmd.Share.{Sharing, share_name, share_tunnel, share_config, share_public_url, run_share}

abbrev scheme_of : Url → Text
scheme_of u = if u.scheme == text "ws" then text "http" else text "https"

share_public_url_parsed :
    (parse_url : Text → Option Url) (server sub filename : Text) (u : Url)
    → parse_url server ≡ some u
    → share_public_url parse_url server sub filename
      ≡ scheme_of u ++ (text "://" ++ ((sub ++ b'.' ∷ u.host) ++ b'/' ∷ filename))
unfolding share_public_url
share_public_url_parsed parse_url server sub filename u h =
    rw (h, share_public_url)
      (append_assoc (scheme_of u) (text "://" ++ (sub ++ b'.' ∷ u.host)) (b'/' ∷ filename))

-- A successful run has a port.
run_share_ok :
    (parse_url : Text → Option Url) (s : Sharing) (url : Text) (cfg : ClientConfig)
    → run_share parse_url s ≡ ok (url, cfg)
    → (port : ℤ) × (url ≡ share_public_url parse_url s.server (share_name s) s.filename)
      × (cfg ≡ share_config s port)
unfolding run_share
run_share_ok parse_url s url cfg h = elim (Option-cases s.port) [
  | inl missing ↦ absurd (ground (arith, h, missing))
  | inr (port, held) ↦ (port, ground (arith, h, held), ground (arith, h, held))
]

-- The link of a shared file names its tunnel: the host in it is one from which the server takes the
-- subdomain that the client asks for, and behind the host stand a slash and the file's name as it is,
-- not escaped. The server's URL is that of its base domain, with a port or without one, and the name
-- of the share is one label without a colon.
pub run_share-extract_subdomain :
    (parse_url : Text → Option Url) (s : Sharing) (u : Url) (domain port url : Text)
    (cfg : ClientConfig)
    → run_share parse_url s ≡ ok (url, cfg)
    → parse_url s.server ≡ some u
    → (u.host ≡ domain) ⊎ (u.host ≡ domain ++ b':' ∷ port)
    → domain ≢ []
    → contains b'.' (share_name s) ≡ false
    → contains b':' (share_name s) ≡ false
    → contains b':' domain ≡ false
    → contains b':' port ≡ false
    → (scheme : Text) × (host : Text) × (m : RegisterTunnel) × (url
        ≡ scheme ++ (text "://" ++ (host ++ b'/' ∷ s.filename)))
      × (requests cfg.tunnels ≡ register_tunnel m ∷ [])
      × (m.type ≡ text "http")
      × (extract_subdomain host domain ≡ wanted_subdomain m)
run_share-extract_subdomain parse_url s u domain port url cfg h parsed at set label hs hd hp =
    let (p, linked, built) = run_share_ok parse_url s url cfg h in
    let (plain, with_port) =
      extract_subdomain_complete (share_name s) domain port set label hs hd hp in
    let m : RegisterTunnel = register_message (share_tunnel s p) in
    let wanted : wanted_subdomain m ≡ share_name s = ground arith in
    let found : extract_subdomain (share_name s ++ b'.' ∷ u.host) domain ≡ share_name s = elim at [
      | inl e ↦ rw e plain
      | inr e ↦ rw e with_port
    ] in
    (
      scheme_of u,
      share_name s ++ b'.' ∷ u.host,
      m,
      linked ∙ share_public_url_parsed parse_url s.server (share_name s) s.filename u parsed,
      rw built refl,
      refl,
      found ∙ sym wanted,
    )
