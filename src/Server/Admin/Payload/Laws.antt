-- ===== src/Server/Admin/Payload/Laws.antt =====
-- What the dashboard shows is what the registry holds.
use nnel.Base.{
  ℕ, ◌+◌, ◌≡◌, refl, sym, ap, ◌∙◌, inl, inr, Option, some, Option-cases, List, [], ◌∷◌, map, Text,
  length, get_elem?, lookup, In, Any, Any-map, length-map, subst, text_eq, ◌==◌, print_int,
  Bool-cases, arith,
}
use nnel.Server.Registry.{ClientEntry, TunnelEntry, TunnelType, http, tcp}
use nnel.Server.Registry.Consistent.{IsLive}
use nnel.Server.State.{Server}
use nnel.Server.Url.{Url, build_public_http_url}
use nnel.Server.Admin.Payload.{
  TunnelSnapshot, ClientSnapshot, endpoint_of, snapshot_tunnel, snapshot_client, snapshot_all,
  snapshot_registry, SseTunnel, SseClient, SseTotals, SsePayload, count_type, count_bytes,
  count_tunnels, count_clients,
}
use nnel.Server.Admin.Payload.Filling.{
  no_totals, shown_endpoint, sse_tunnel, sse_client, build_sse_payload,
}

abbrev pub sum {ℓ} : {A : Type ℓ} → (A → ℕ) → List A → ℕ
sum f [] = 0
sum f (x ∷ xs) = f x + sum f xs

-- Numbers of the tunnels that are shown.
abbrev pub tunnel_sum : (SseTunnel → ℕ) → List SseClient → ℕ
tunnel_sum f clients = sum (λ c. sum f c.tunnels) clients

-- 1 for a tunnel of the type, else 0.
abbrev pub is_http : TunnelType → ℕ
is_http http = 1
is_http tcp = 0

abbrev pub is_tcp : TunnelType → ℕ
is_tcp http = 0
is_tcp tcp = 1

-- The totals are those of what is shown, tunnels of each type apart.
abbrev pub AddsUp : SsePayload → Type 0
AddsUp p =
    (p.totals.clients ≡ length p.clients)
    × (p.totals.http_tunnels ≡ tunnel_sum (λ t. is_http t.type) p.clients)
    × (p.totals.tcp_tunnels ≡ tunnel_sum (λ t. is_tcp t.type) p.clients)
    × (p.totals.total_bytes_in ≡ tunnel_sum (λ t. t.bytes_in) p.clients)
    × (p.totals.total_bytes_out ≡ tunnel_sum (λ t. t.bytes_out) p.clients)

-- Totals after more tunnels and clients.
abbrev Grown : SseTotals → SseTotals → ℕ → ℕ → ℕ → ℕ → Type 0
Grown before after https tcps bytes_in bytes_out =
    (after.clients ≡ before.clients)
    × (after.http_tunnels ≡ before.http_tunnels + https)
    × (after.tcp_tunnels ≡ before.tcp_tunnels + tcps)
    × (after.total_bytes_in ≡ before.total_bytes_in + bytes_in)
    × (after.total_bytes_out ≡ before.total_bytes_out + bytes_out)

Grown-trans :
    (a b c : SseTotals) (h h' m n x y x' y' : ℕ)
    → Grown a b h m x y
    → Grown b c h' n x' y'
    → Grown a c (h + h') (m + n) (x + x') (y + y')
Grown-trans a b c h h' m n x y x' y' (p, o, q, r, u) (p', o', q', r', u') =
    (p' ∙ p, omega arith, omega arith, omega arith, omega arith)

Grown-count_type :
    (ty : TunnelType) (t : TunnelSnapshot) (before : SseTotals)
    → Grown before
        (count_bytes t (count_type ty before))
        (is_http ty)
        (is_tcp ty)
        t.bytes_in
        t.bytes_out
Grown-count_type http t before = (refl, omega arith, omega arith, refl, refl)
Grown-count_type tcp t before = (refl, omega arith, omega arith, refl, refl)

module _ (parse_url : Text → Option Url) (format_time : ℕ → Text) (docker_logs : Text → Text)
    (s : Server) where
  Grown-count_tunnels :
      (id : Text) (ts : List TunnelSnapshot) (before : SseTotals)
      → Grown before
          (count_tunnels ts before)
          (sum (λ t. is_http t.type) (map (sse_tunnel parse_url format_time docker_logs s id) ts))
          (sum (λ t. is_tcp t.type) (map (sse_tunnel parse_url format_time docker_logs s id) ts))
          (sum (λ t. t.bytes_in) (map (sse_tunnel parse_url format_time docker_logs s id) ts))
          (sum (λ t. t.bytes_out) (map (sse_tunnel parse_url format_time docker_logs s id) ts))
  unfolding count_tunnels
  Grown-count_tunnels id [] before = (refl, omega arith, omega arith, omega arith, omega arith)
  Grown-count_tunnels id (t ∷ ts) before =
      let next = count_bytes t (count_type t.type before) in
      Grown-trans before next (count_tunnels ts next) (is_http t.type) _ (is_tcp t.type) _
        t.bytes_in t.bytes_out _ _ (Grown-count_type t.type t before)
        (Grown-count_tunnels id ts next)

  Grown-count_clients :
      (now : ℕ) (cs : List ClientSnapshot) (before : SseTotals)
      → Grown before
          (count_clients cs before)
          (tunnel_sum
            (λ t. is_http t.type)
            (map (sse_client parse_url format_time docker_logs s now) cs))
          (tunnel_sum
            (λ t. is_tcp t.type)
            (map (sse_client parse_url format_time docker_logs s now) cs))
          (tunnel_sum
            (λ t. t.bytes_in)
            (map (sse_client parse_url format_time docker_logs s now) cs))
          (tunnel_sum
            (λ t. t.bytes_out)
            (map (sse_client parse_url format_time docker_logs s now) cs))
  unfolding count_clients
  Grown-count_clients now [] before = (refl, omega arith, omega arith, omega arith, omega arith)
  Grown-count_clients now (c ∷ cs) before =
      let next = count_tunnels c.tunnels before in
      Grown-trans before next (count_clients cs next) _ _ _ _ _ _ _ _
        (Grown-count_tunnels c.id c.tunnels before) (Grown-count_clients now cs next)

  build_sse_payload-AddsUp :
      (started_at now : ℕ)
      → AddsUp (build_sse_payload parse_url format_time docker_logs started_at now s)
  unfolding build_sse_payload
  build_sse_payload-AddsUp started_at now =
      let snaps = snapshot_registry s.registry in
      let (same, https, tcps, bytes_in, bytes_out) =
        Grown-count_clients now snaps (no_totals (length snaps)) in
      (
        same ∙ sym (length-map (sse_client parse_url format_time docker_logs s now) snaps),
        omega arith,
        omega arith,
        omega arith,
        omega arith,
      )

-- A client of the registry is in the snapshot.
In-snapshot_all :
    (entries : List ClientEntry) (ids : List (Text × ℕ)) (id : Text) (p : ℕ) (e : ClientEntry)
    → lookup id ids ≡ some p
    → get_elem? entries p ≡ some e
    → In (snapshot_client e) (snapshot_all entries ids)
unfolding snapshot_all lookup
In-snapshot_all entries [] id p e h at = absurd (cc)
In-snapshot_all entries ((j, q) ∷ ids) id p e h at = elim (Option-cases (get_elem? entries q)) [
  | inl gone ↦
      rw (gone, snapshot_all)
        (elim (Bool-cases (j == id)) [
          | inl same ↦
              let here : q ≡ p = ground arith in
              absurd (ground (arith, gone, at, ap (get_elem? entries) here))
          | inr other ↦
              let later : lookup id ids ≡ some p = rw (other, lookup) at h in
              In-snapshot_all entries ids id p e later at
        ])
  | inr (e', there) ↦
      rw (there, snapshot_all)
        (elim (Bool-cases (j == id)) [
          | inl same ↦
              let here : q ≡ p = ground arith in
              let found : e' ≡ e = ground (arith, there, at, ap (get_elem? entries) here) in
              inl (ap snapshot_client found)
          | inr other ↦
              let later : lookup id ids ≡ some p = rw (other, lookup) at h in
              inr (In-snapshot_all entries ids id p e later at)
        ])
]

module _ (parse_url : Text → Option Url) (format_time : ℕ → Text) (docker_logs : Text → Text)
    (s : Server) where
  -- An HTTP tunnel is shown by its public URL, a TCP tunnel by its port.
  abbrev pub ShowsEndpoint : Text → TunnelEntry → TunnelType → Type 0
  ShowsEndpoint shown t http = shown ≡ build_public_http_url parse_url s.cfg t.subdomain
  ShowsEndpoint shown t tcp = shown ≡ b':' ∷ print_int t.remote_port

  -- What is shown of a tunnel of the client `id`.
  abbrev pub Shows : Text → SseTunnel → TunnelEntry → Type 0
  Shows id shown t =
      (shown.client_id ≡ id)
      × (shown.name ≡ t.name)
      × (shown.type ≡ t.tunnel_type)
      × (shown.local_addr ≡ t.local_addr)
      × (shown.bytes_in ≡ t.bytes_in)
      × (shown.bytes_out ≡ t.bytes_out)
      × (shown.requests ≡ t.requests)
      × (shown.active_conns ≡ t.active_conns)
      × (shown.can_promote ≡ t.has_dir)
      × (shown.dir ≡ t.dir)
      × ShowsEndpoint shown.endpoint t t.tunnel_type

  abbrev pub ShowsAll : Text → List SseTunnel → List TunnelEntry → Type 0
  ShowsAll id [] [] = Unit
  ShowsAll id (x ∷ xs) (t ∷ ts) = Shows id x t × ShowsAll id xs ts
  ShowsAll id xs ts = ⊥

  -- What is shown of a client: its id, its name, and each of its tunnels, in their order.
  abbrev pub ShowsClient : ClientEntry → SseClient → Type 0
  ShowsClient e shown =
      (shown.id ≡ e.id) × (shown.name ≡ e.name) × ShowsAll e.id shown.tunnels e.tunnels

  ShowsEndpoint-shown_endpoint :
      (t : TunnelEntry) (ty : TunnelType)
      → ShowsEndpoint
          (shown_endpoint parse_url format_time docker_logs s
            (record (snapshot_tunnel t) { endpoint = endpoint_of t ty })
            ty)
          t
          ty
  ShowsEndpoint-shown_endpoint t http = refl
  ShowsEndpoint-shown_endpoint t tcp = refl

  ShowsAll-sse_tunnel :
      (id : Text) (ts : List TunnelEntry)
      → ShowsAll id
          (map (sse_tunnel parse_url format_time docker_logs s id) (map snapshot_tunnel ts))
          ts
  ShowsAll-sse_tunnel id [] = tt
  ShowsAll-sse_tunnel id (t ∷ ts) = (
    (
      refl,
      refl,
      refl,
      refl,
      refl,
      refl,
      refl,
      refl,
      refl,
      refl,
      ShowsEndpoint-shown_endpoint t t.tunnel_type,
    ),
    ShowsAll-sse_tunnel id ts,
  )

  -- The dashboard shows each connected client with exactly its tunnels, in their order, each with its
  -- type, address, directory and counters, an HTTP tunnel by its public URL and a TCP tunnel by its
  -- port; and its totals are the number of clients, of HTTP and of TCP tunnels, and the bytes, of what
  -- it shows.
  pub build_sse_payload-ShowsClient :
      (started_at now p : ℕ) (e : ClientEntry)
      → IsLive s.registry p e
      → Any
          (ShowsClient e)
          (build_sse_payload parse_url format_time docker_logs started_at now s).clients
        × AddsUp (build_sse_payload parse_url format_time docker_logs started_at now s)
  unfolding build_sse_payload snapshot_registry
  build_sse_payload-ShowsClient started_at now p e (at, registered) =
      let listed = In-snapshot_all s.registry.entries s.registry.by_id e.id p e registered at in
      (
        Any-map (ShowsClient e) (sse_client parse_url format_time docker_logs s now)
            (snapshot_registry s.registry)
            (λ c same.
              subst (λ x. ShowsClient e (sse_client parse_url format_time docker_logs s now x))
                (sym same) (refl, refl, ShowsAll-sse_tunnel e.id e.tunnels))
            listed,
        build_sse_payload-AddsUp parse_url format_time docker_logs s started_at now,
      )
