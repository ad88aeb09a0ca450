-- ===== src/Server/Deploy/Names.antt =====
-- What the names of deployed apps may hold.
use nnel.Base.{
  ℕ, ◌≤◌, ◌<◌, ◌≡◌, ◌≢◌, refl, true, false, Option, [], ◌∷◌, ◌++◌, Text, text, contains, all,
  length, arith, if◌then◌else◌,
}
use nnel.Config.{ServerConfig}
use nnel.Server.Url.{Url, build_public_http_url}
use nnel.Server.Http.{extract_subdomain}
use nnel.Server.Http.Subdomain.{extract-build_public_http_url, OnPort}
use nnel.Server.Deploy.{is_deploy_char, is_valid_deploy_name}

contains-all :
    (c : ℕ) (s : Text)
    → is_deploy_char c ≡ false
    → all is_deploy_char s ≡ true
    → contains c s ≡ false
contains-all c [] bad h = refl
contains-all c (d ∷ s) bad h = ground (arith, contains-all c s bad)

-- A valid name has 1 to 40 bytes, and none that is no letter, digit or hyphen.
pub valid_deploy_name_chars :
    (name : Text)
    → is_valid_deploy_name name ≡ true
    → (0 < length name)
      × (length name ≤ 40)
      × ((c : ℕ) → is_deploy_char c ≡ false → contains c name ≡ false)
unfolding is_valid_deploy_name
valid_deploy_name_chars name h =
    (ground arith, ground arith, λ c bad. contains-all c name bad (ground arith))

-- The URL that is reported for a deployed app leads back to it, whatever its valid name, if a base
-- domain without a colon is set and no public URL.
pub valid_deploy_name_routes :
    (parse_url : Text → Option Url) (cfg : ServerConfig) (name : Text)
    → is_valid_deploy_name name ≡ true
    → cfg.public_url ≡ []
    → cfg.domain ≢ []
    → contains b':' cfg.domain ≡ false
    → let scheme : Text = if cfg.dev then text "http" else text "https" in
      (host : Text) × (build_public_http_url parse_url cfg name ≡ scheme ++ (text "://" ++ host))
      × OnPort scheme cfg.port name cfg.domain host
      × (extract_subdomain host cfg.domain ≡ name)
      × (name ≢ [])
valid_deploy_name_routes parse_url cfg name valid direct set hd =
    let (nonempty, _, free) = valid_deploy_name_chars name valid in
    let (host, url, at, back) =
      extract-build_public_http_url parse_url cfg name direct set (free b'.' refl) (free b':' refl)
        hd in
    (host, url, at, back, λ e. ground (arith, nonempty))
