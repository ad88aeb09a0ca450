-- ===== src/Relay/Asking.antt =====
-- What the dashboard asks a client for, said of the client's configuration before and after.
use nnel.Base.{
  ◌≡◌, ◌≢◌, refl, ◌⊎◌, inl, inr, true, false, not, Bool-cases, Option, none, some, List, [], ◌∷◌,
  ◌++◌, keep, Text, text, text_eqb, text_eqb_iff, ◌==◌, text_eq, has_prefix, arith,
}
use nnel.Config.{ClientConfig, TunnelConfig}
use nnel.Proto.{AddTunnel, RegisterTunnel, SetTunnelDir, RemoveTunnel}
use nnel.Server.Admin.{Relayed, add_tunnel, remove_tunnel, set_tunnel_dir, promote}
use nnel.Client.{
  Reaction, register_tunnel, add_message, added_config, dynamic_add, dynamic_remove, set_dir,
  expand_home,
}
use nnel.Client

-- The tunnels of another name, in their order.
abbrev pub Without : Text → List TunnelConfig → List TunnelConfig → Type 0
Without name [] us = us ≡ []
Without name (t ∷ ts) us =
    ((t.name ≡ name) × Without name ts us)
    ⊎ ((t.name ≢ name) × (rest : List TunnelConfig) × (us ≡ t ∷ rest) × Without name ts rest)

-- The first tunnel of the name has the directory; all else is as before.
abbrev pub Redirected : Text → Text → List TunnelConfig → List TunnelConfig → Type 0
Redirected name dir [] us = us ≡ []
Redirected name dir (t ∷ ts) us =
    ((t.name ≡ name) × (us ≡ record t { dir = dir } ∷ ts))
    ⊎ ((t.name ≢ name) × (rest : List TunnelConfig) × (us ≡ t ∷ rest) × Redirected name dir ts rest)

-- The tunnel that is added is registered under the subdomain that it names, or, for HTTP, its name.
abbrev pub Added : AddTunnel → TunnelConfig → RegisterTunnel → Type 0
Added m t req =
    (t.name ≡ m.name)
    × (t.local ≡ m.local_addr)
    × (t.type ≡ m.type)
    × (t.subdomain ≡ m.subdomain)
    × (t.remote_port ≡ m.remote_port)
    × (req.name ≡ m.name)
    × (req.local_addr ≡ m.local_addr)
    × (req.type ≡ m.type)
    × (req.remote_port ≡ m.remote_port)
    × (m.subdomain ≢ [] → req.subdomain ≡ m.subdomain)
    × (m.subdomain ≡ [] → m.type ≡ text "http" → req.subdomain ≡ m.name)

Without-keep :
    (name : Text) (ts : List TunnelConfig) → Without name ts (keep (λ t. not (t.name == name)) ts)
Without-keep name [] = refl
Without-keep name (t ∷ ts) = elim (Bool-cases (text_eqb t.name name)) [
  | inl same ↦ rw same (inl ((text_eqb_iff t.name name).0 same, Without-keep name ts))
  | inr other ↦
      rw other (
        inr ((λ e. ground (arith, other, text_eqb_iff t.name name)), _, refl, Without-keep name ts))
]

Redirected-set_dir :
    (name dir : Text) (ts : List TunnelConfig) → Redirected name dir ts (set_dir name dir ts)
unfolding set_dir
Redirected-set_dir name dir [] = refl
Redirected-set_dir name dir (t ∷ ts) = elim (Bool-cases (text_eqb t.name name)) [
  | inl same ↦ rw same (inl ((text_eqb_iff t.name name).0 same, refl))
  | inr other ↦ rw other (
      inr (
        (λ e. ground (arith, other, text_eqb_iff t.name name)),
        _,
        refl,
        Redirected-set_dir name dir ts,
      ))
]

module _ (home_dir : Option Text) (join_path : Text → Text → Text) where
  -- A directory that starts with a tilde lies in the home directory, if that is known.
  abbrev pub Expanded : Text → Text → Type 0
  Expanded dir dir' =
      (has_prefix dir (b'~' ∷ []) ≡ false → dir' ≡ dir)
      × ((path home : Text) → dir ≡ b'~' ∷ path → home_dir ≡ some home → dir' ≡ join_path home path)

  -- What the client has done: the one change of its tunnels that was asked for, and nothing else of its
  -- configuration; what it sends; whether it saves; and what it promotes.
  abbrev pub Done : Relayed → ClientConfig → Reaction → Type 0
  Done (add_tunnel m) cfg r =
      (t : TunnelConfig) × (req : RegisterTunnel) × (r.cfg
        ≡ record cfg { tunnels = cfg.tunnels ++ t ∷ [] })
      × (r.sent ≡ register_tunnel req ∷ [])
      × Added m t req
      × (r.saved ≡ true)
      × (r.promotes ≡ none)
  Done (remove_tunnel m) cfg r =
      (r.cfg ≡ record cfg { tunnels = r.cfg.tunnels })
      × Without m.name cfg.tunnels r.cfg.tunnels
      × (r.sent ≡ [])
      × (r.saved ≡ true)
      × (r.promotes ≡ none)
  Done (set_tunnel_dir m) cfg r =
      (r.cfg ≡ record cfg { tunnels = r.cfg.tunnels })
      × (dir : Text) × Expanded m.dir dir
      × Redirected m.tunnel_name dir cfg.tunnels r.cfg.tunnels
      × (r.sent ≡ [])
      × (r.saved ≡ true)
      × (r.promotes ≡ none)
  Done (promote m) cfg r =
      (r.cfg ≡ cfg) × (r.sent ≡ []) × (r.saved ≡ false) × (r.promotes ≡ some m.tunnel_name)

  expand_home_plain :
      (dir : Text) → has_prefix dir (b'~' ∷ []) ≡ false → expand_home home_dir join_path dir ≡ dir
  unfolding expand_home
  expand_home_plain [] plain = refl
  expand_home_plain (c ∷ path) plain = rw plain refl

  expand_home_tilde :
      (path home : Text)
      → home_dir ≡ some home
      → expand_home home_dir join_path (b'~' ∷ path) ≡ join_path home path
  unfolding expand_home
  expand_home_tilde path home known = rw known refl

  Expanded-expand_home : (dir : Text) → Expanded dir (expand_home home_dir join_path dir)
  Expanded-expand_home dir =
      (expand_home_plain dir, λ path home e known. rw e (expand_home_tilde path home known))

  pub Done-set_tunnel_dir :
      (m : SetTunnelDir) (cfg : ClientConfig)
      → Done (set_tunnel_dir m) cfg (Client.set_tunnel_dir home_dir join_path m cfg)
  unfolding Client.set_tunnel_dir
  Done-set_tunnel_dir m cfg = (
    refl,
    expand_home home_dir join_path m.dir,
    Expanded-expand_home m.dir,
    Redirected-set_dir m.tunnel_name (expand_home home_dir join_path m.dir) cfg.tunnels,
    refl,
    refl,
    refl,
  )

  pub Done-dynamic_remove :
      (m : RemoveTunnel) (cfg : ClientConfig)
      → Done (remove_tunnel m) cfg (dynamic_remove m.name cfg)
  unfolding dynamic_remove
  Done-dynamic_remove m cfg = (refl, Without-keep m.name cfg.tunnels, refl, refl, refl)

  pub Done-dynamic_add :
      (m : AddTunnel) (cfg : ClientConfig) → Done (add_tunnel m) cfg (dynamic_add true m cfg)
  unfolding dynamic_add
  Done-dynamic_add m cfg = (
    added_config m,
    add_message m,
    refl,
    refl,
    (
      refl,
      refl,
      refl,
      refl,
      refl,
      refl,
      refl,
      refl,
      refl,
      (λ given. ground (arith, given, text_eqb_iff m.subdomain [])),
      λ missing http.
          ground
            (arith, missing, http, text_eqb_iff m.subdomain [], text_eqb_iff m.type (text "http")),
    ),
    refl,
    refl,
  )
