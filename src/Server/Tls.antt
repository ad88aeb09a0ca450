-- ===== src/Server/Tls.antt =====
-- internal/server/tls.go, buildTLSConfig. Package crypto/tls enters as the function that loads a key
-- pair; the manager of autocert is its cache and its host policy, which uses the domain.
use nnel.Base.{
  ◌≡◌, ◌≢◌, refl, ap, ◌∙◌, Bool, true, false, not, ◌&&◌, ◌||◌, [], ◌∷◌, Text, text_eq, text_eqb,
  text_eqb_iff, ◌==◌, if◌then◌else◌, has_suffix, has_suffix-append, before_last, Result, ok, err,
  arith,
}
use nnel.Config.{ServerConfig}
use nnel.Server.Http.{extract_subdomain}
use nnel.Server.Http.Subdomain.{extract_subdomain_sound}

pub data TlsError : Type 0 where
  load_key_pair domain_required : TlsError

-- The versions below TLS 1.2 are refused in both.
pub data TlsResult : Type 0 where
  key_pair : Text → Text → TlsResult
  -- autocert, with the directory of its cache
  autocert : Text → TlsResult

module _ (loads : Text → Text → Bool) where
  unfoldable pub build_tls_config : ServerConfig → Result TlsError TlsResult
  build_tls_config cfg =
      if not (cfg.tls_cert == []) && not (cfg.tls_key == [])
      then if loads cfg.tls_cert cfg.tls_key
        then ok (key_pair cfg.tls_cert cfg.tls_key)
        else err load_key_pair
      else if cfg.domain == []
      then err domain_required
      else ok (autocert cfg.acme_cache)

-- HostPolicy of the manager: whether a certificate for the host is asked for.
unfoldable pub host_policy : ServerConfig → Text → Bool
host_policy cfg host = host == cfg.domain || has_suffix host (b'.' ∷ cfg.domain)

autocert_else :
    (given loads unset : Bool) (cert key cache cache' : Text)
    → (if given
        then (if loads then ok (key_pair cert key) else err load_key_pair)
        else if unset
        then err domain_required
        else ok (autocert cache'))
      ≡ ok (autocert cache)
    → unset ≡ false
autocert_else true true unset cert key cache cache' h = absurd (cc)
autocert_else true false unset cert key cache cache' h = absurd (cc)
autocert_else false loads true cert key cache cache' h = absurd (cc)
autocert_else false loads false cert key cache cache' h = refl

-- Without a domain there is no autocert.
build_tls_config-domain :
    (loads : Text → Text → Bool) (cfg : ServerConfig) (cache : Text)
    → build_tls_config loads cfg ≡ ok (autocert cache)
    → cfg.domain ≢ []
unfolding build_tls_config
build_tls_config-domain loads cfg cache h empty =
    let set : text_eqb cfg.domain [] ≡ false =
      autocert_else (not (cfg.tls_cert == []) && not (cfg.tls_key == []))
        (loads cfg.tls_cert cfg.tls_key) (cfg.domain == []) cfg.tls_cert cfg.tls_key cache
        cfg.acme_cache h in
    absurd (ground (arith, set, (text_eqb_iff cfg.domain []).1 empty))

-- When certificates come from autocert, its policy admits each host whose requests go by a subdomain,
-- and the domain itself, so that no tunnel is without a certificate.
pub host_policy-extract_subdomain :
    (loads : Text → Text → Bool) (cfg : ServerConfig) (cache host sub : Text)
    → build_tls_config loads cfg ≡ ok (autocert cache)
    → sub ≢ []
    → extract_subdomain host cfg.domain ≡ sub
    → (host_policy cfg (before_last b':' host) ≡ true) × (host_policy cfg cfg.domain ≡ true)
unfolding host_policy
host_policy-extract_subdomain loads cfg cache host sub built found e =
    let (label, whole) =
      extract_subdomain_sound host cfg.domain sub (build_tls_config-domain loads cfg cache built)
        found e in
    let suffix : has_suffix (before_last b':' host) (b'.' ∷ cfg.domain) ≡ true =
      ap (λ s. has_suffix s (b'.' ∷ cfg.domain)) whole
      ∙ has_suffix-append sub (b'.' ∷ cfg.domain) in
    (ground (arith, suffix), ground (arith, text_eqb_iff cfg.domain cfg.domain))
