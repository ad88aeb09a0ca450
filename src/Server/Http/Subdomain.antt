-- ===== src/Server/Http/Subdomain.antt =====
-- The subdomain that extractSubdomain finds in a Host header.
use nnel.Base.{
  ◌-◌, ◌≡◌, ◌≢◌, sym, ◌∙◌, ap, ◌⊎◌, inl, inr, true, false, refl, ℤ, pos, int_eqb_iff, int_eq,
  Option, [], ◌∷◌, ◌++◌, append_assoc, Bool-cases, Text, text, text_eqb_iff, text_eq, if◌then◌else◌,
  take, contains, contains-append, has_suffix, has_suffix-append, has_suffix_split,
  take_before_suffix, before_last, before_last-none, before_last-append, length, arith, print_int,
  contains-print_int_colon,
}
use nnel.Config.{ServerConfig}
use nnel.Server.Http.{extract_subdomain}
use nnel.Server.Url.{Url, default_port, build_public_http_url}

-- A host that ends in the base domain yields what stands before it, if that is one label.
extract_of_host :
    (host base : Text)
    → base ≢ []
    → extract_subdomain host base ≡ (
        let h = before_last b':' host in
        let sub = take (length h - length (b'.' ∷ base)) h in
        if has_suffix h (b'.' ∷ base) then if contains b'.' sub then [] else sub else [])
unfolding extract_subdomain
extract_of_host host base set = ground (arith, text_eqb_iff base [])

-- With a base domain set, a subdomain that is found is one nonempty label, and the host without
-- its port is that label, a dot and the domain.
pub extract_subdomain_sound :
    (host base sub : Text)
    → base ≢ []
    → sub ≢ []
    → extract_subdomain host base ≡ sub
    → (contains b'.' sub ≡ false) × (before_last b':' host ≡ sub ++ b'.' ∷ base)
extract_subdomain_sound host base sub set found e =
    let h = before_last b':' host in
    let front = take (length h - length (b'.' ∷ base)) h in
    let whole : (if has_suffix h (b'.' ∷ base)
          then if contains b'.' front then [] else front
          else [])
        ≡ sub =
      sym (extract_of_host host base set) ∙ e in
    elim (Bool-cases (has_suffix h (b'.' ∷ base))) [
      | inr miss ↦ absurd (found (sym (rw miss at whole)))
      | inl hit ↦
          let inner : (if contains b'.' front then [] else front) ≡ sub = rw hit at whole in
          elim (Bool-cases (contains b'.' front)) [
            | inl dotted ↦ absurd (found (sym (rw dotted at inner)))
            | inr one_label ↦
                let same : front ≡ sub = rw one_label at inner in
                (
                  rw (← same) one_label,
                  has_suffix_split h (b'.' ∷ base) hit ∙ ap (λ s. s ++ b'.' ∷ base) same,
                )
          ]
    ]

extract_of_label :
    (host base sub : Text)
    → base ≢ []
    → contains b'.' sub ≡ false
    → before_last b':' host ≡ sub ++ b'.' ∷ base
    → extract_subdomain host base ≡ sub
extract_of_label host base sub set label e =
    rw (extract_of_host host base set, e, has_suffix-append sub (b'.' ∷ base))
      (rw (take_before_suffix sub (b'.' ∷ base), label))

no_colon :
    (sub base : Text)
    → contains b':' sub ≡ false
    → contains b':' base ≡ false
    → contains b':' (sub ++ b'.' ∷ base) ≡ false
no_colon sub base hs hb = ground (arith, contains-append b':' sub (b'.' ∷ base))

-- A label in front of the base domain is found, without a port or with one.
pub extract_subdomain_complete :
    (sub base port : Text)
    → base ≢ []
    → contains b'.' sub ≡ false
    → contains b':' sub ≡ false
    → contains b':' base ≡ false
    → contains b':' port ≡ false
    → (extract_subdomain (sub ++ b'.' ∷ base) base ≡ sub)
      × (extract_subdomain (sub ++ b'.' ∷ (base ++ b':' ∷ port)) base ≡ sub)
extract_subdomain_complete sub base port set label hs hb hp = (
  extract_of_label (sub ++ b'.' ∷ base) base sub set label
      (before_last-none b':' _ (no_colon sub base hs hb)),
  extract_of_label (sub ++ b'.' ∷ (base ++ b':' ∷ port)) base sub set label (
      ap (before_last b':') (sym (append_assoc sub (b'.' ∷ base) (b':' ∷ port)))
      ∙ before_last-append b':' (sub ++ b'.' ∷ base) port hp),
)

-- The host of a URL names the port: it may be left out only if it is the one of the scheme.
abbrev pub OnPort : Text → ℤ → Text → Text → Text → Type 0
OnPort scheme port sub domain host =
    ((host ≡ sub ++ b'.' ∷ domain)
      × (((scheme ≡ text "https") × (port ≡ pos 443)) ⊎ ((scheme ≡ text "http") × (port ≡ pos 80))))
    ⊎ (host ≡ sub ++ b'.' ∷ (domain ++ b':' ∷ print_int port))

default_port_sound :
    (scheme : Text) (port : ℤ)
    → default_port scheme port ≡ true
    → ((scheme ≡ text "https") × (port ≡ pos 443)) ⊎ ((scheme ≡ text "http") × (port ≡ pos 80))
default_port_sound scheme port h = ground (
  arith,
  text_eqb_iff scheme (text "https"),
  text_eqb_iff scheme (text "http"),
  int_eqb_iff port (pos 443),
  int_eqb_iff port (pos 80),
)

-- The public URL that is announced for an HTTP tunnel leads back to it: the URL is the scheme of the
-- server, "://" and a host that names the server's port, if it is not the one of the scheme, and from
-- which handleHTTP extracts the subdomain. The subdomain is one label without a colon, a base domain
-- is set that has no colon, and no public URL is configured.
pub extract-build_public_http_url :
    (parse_url : Text → Option Url) (cfg : ServerConfig) (sub : Text)
    → cfg.public_url ≡ []
    → cfg.domain ≢ []
    → contains b'.' sub ≡ false
    → contains b':' sub ≡ false
    → contains b':' cfg.domain ≡ false
    → let scheme : Text = if cfg.dev then text "http" else text "https" in
      (host : Text) × (build_public_http_url parse_url cfg sub ≡ scheme ++ (text "://" ++ host))
      × OnPort scheme cfg.port sub cfg.domain host
      × (extract_subdomain host cfg.domain ≡ sub)
unfolding build_public_http_url
extract-build_public_http_url parse_url cfg sub direct set label hs hd =
    let scheme : Text = if cfg.dev then text "http" else text "https" in
    let (plain, with_port) =
      extract_subdomain_complete sub cfg.domain (print_int cfg.port) set label hs hd
        (contains-print_int_colon cfg.port) in
    elim (Bool-cases (default_port scheme cfg.port)) [
      | inl default ↦ (
        sub ++ b'.' ∷ cfg.domain,
        rw direct (ground (arith, text_eqb_iff cfg.domain [])),
        inl (refl, default_port_sound scheme cfg.port default),
        plain,
      )
      | inr other ↦ (
        sub ++ b'.' ∷ (cfg.domain ++ b':' ∷ print_int cfg.port),
        rw direct (ground (arith, text_eqb_iff cfg.domain [])),
        inr refl,
        with_port,
      )
    ]
