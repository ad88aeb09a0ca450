-- ===== src/Server/Http/Routing.antt =====
-- Where handleHTTP sends a request, when the registry is consistent.
use nnel.Base.{
  ℕ, ◌≡◌, ◌≢◌, refl, inl, inr, true, none, some, List, [], ◌∷◌, Bool-cases, Option-cases, Text,
  text_eqb, text_eqb_iff, text_eq, lookup, arith, In, text,
}
use nnel.Server.Registry.{ClientEntry, TunnelEntry, lookup_http}
use nnel.Server.Registry.Routes.{Key, key_eq, has_key, route}
use nnel.Server.Registry.Consistent.{IsConsistent, IsLive}
use nnel.Server.State.{Server, DeployedApp}
use nnel.Server.Http.{
  Outcome, index_page, proxied, hijacked, deployed, app_not_ready, no_tunnel, entry_missing,
  extract_subdomain, handle_http, find_subdomain, tunnels_of, serve_deployed_app, equal_fold,
}

-- A subdomain that is a key of the list is found, at a tunnel of the list.
find_subdomain_of_key :
    (s : Text) (ts : List TunnelEntry)
    → has_key (Key.subdomain s) ts ≡ true
    → (t : TunnelEntry) × (find_subdomain s ts ≡ some t)
unfolding find_subdomain
find_subdomain_of_key s [] h = absurd (cc)
find_subdomain_of_key s (t ∷ ts) h = elim (Bool-cases (text_eqb t.subdomain s)) [
  | inl hit ↦ (t, rw hit)
  | inr miss ↦
      let later : has_key (Key.subdomain s) ts ≡ true = ground arith in
      let (u, found) = find_subdomain_of_key s ts later in (u, rw miss found)
]

find_subdomain_sound :
    (s : Text) (ts : List TunnelEntry) (t : TunnelEntry)
    → find_subdomain s ts ≡ some t
    → (t.subdomain ≡ s) × In t ts
unfolding find_subdomain
find_subdomain_sound s [] t h = absurd (cc)
find_subdomain_sound s (u ∷ ts) t h = elim (Bool-cases (text_eqb u.subdomain s)) [
  | inl hit ↦
      let here : u ≡ t = ground arith in
      (rw (← here) ((text_eqb_iff u.subdomain s).0 hit), inl here)
  | inr miss ↦ let (same, later) = find_subdomain_sound s ts t (ground arith) in (same, inr later)
]

-- A tunnel of a connected client, to whose subdomain the registry routes that client.
abbrev pub ServesTunnel : Server → Text → ℕ → TunnelEntry → Type 0
ServesTunnel s sub p te =
    (e : ClientEntry) × IsLive s.registry p e
    × In te e.tunnels
    × (te.subdomain ≡ sub)
    × (lookup_http sub s.registry ≡ some p)

-- What each outcome of handleHTTP means for the subdomain of the request.
abbrev pub Routed : Server → Text → Outcome → Type 0
Routed s sub index_page = sub ≡ []
Routed s sub (proxied p te) = ServesTunnel s sub p te
Routed s sub (hijacked p te) = ServesTunnel s sub p te
Routed s sub (deployed addr) =
    (lookup_http sub s.registry ≡ none)
    × (addr ≢ [])
    × (app : DeployedApp) × (lookup sub s.deployed_apps ≡ some app)
    × (app.listen_addr ≡ addr)
Routed s sub app_not_ready =
    (lookup_http sub s.registry ≡ none)
    × (app : DeployedApp) × (lookup sub s.deployed_apps ≡ some app)
    × (app.listen_addr ≡ [])
Routed s sub (no_tunnel name) =
    (name ≡ sub) × (lookup_http sub s.registry ≡ none) × (lookup sub s.deployed_apps ≡ none)
Routed s sub entry_missing = ⊥

served_app :
    (s : Server) (sub : Text) (app : DeployedApp)
    → lookup_http sub s.registry ≡ none
    → lookup sub s.deployed_apps ≡ some app
    → Routed s sub (serve_deployed_app sub app s).1
unfolding serve_deployed_app
served_app s sub app free known = elim (Bool-cases (text_eqb app.listen_addr [])) [
  | inl empty ↦ rw empty (free, app, known, (text_eqb_iff app.listen_addr []).0 empty)
  | inr set ↦
      rw set (free, (λ e. ground (arith, text_eqb_iff app.listen_addr [])), app, known, refl)
]

served_tunnel :
    (s : Server) (sub upgrade : Text) (p : ℕ)
    → IsConsistent s.registry
    → lookup_http sub s.registry ≡ some p
    → (te : TunnelEntry) × (find_subdomain sub (tunnels_of s.registry p) ≡ some te)
      × ServesTunnel s sub p te
unfolding lookup_http
served_tunnel s sub upgrade p ok routed =
    let (e, live, has) = ok.backed (Key.subdomain sub) p (unfold route in routed) in
    let (te, found) = find_subdomain_of_key sub e.tunnels has in
    let (same, listed) = find_subdomain_sound sub e.tunnels te found in
    (te, rw (live.0, tunnels_of) found, (e, live, listed, same, routed))

-- Each request goes where its subdomain says: to a tunnel of the client that holds the subdomain,
-- else to the deployed app of that name, else it is refused; a consistent registry has the tunnel
-- of every subdomain that it routes.
pub handle_http-Routed :
    (s : Server) (host upgrade : Text)
    → IsConsistent s.registry
    → Routed s (extract_subdomain host s.cfg.domain) (handle_http s host upgrade).1
unfolding handle_http
handle_http-Routed s host upgrade ok =
    let sub = extract_subdomain host s.cfg.domain in
    elim (Bool-cases (text_eqb sub [])) [
      | inl empty ↦ rw empty ((text_eqb_iff sub []).0 empty)
      | inr named ↦ rw named (elim (Option-cases (lookup_http sub s.registry)) [
        | inl free ↦ rw free (elim (Option-cases (lookup sub s.deployed_apps)) [
          | inl unknown ↦ rw unknown (refl, free, unknown)
          | inr (app, known) ↦ rw known (served_app s sub app free known)
        ])
        | inr (p, routed) ↦
            let (te, found, serves) = served_tunnel s sub upgrade p ok routed in
            rw (routed, found)
              (elim (Bool-cases (equal_fold upgrade (text "websocket"))) [
                | inl ws ↦ rw ws serves
                | inr plain ↦ rw plain serves
              ])
      ])
    ]
