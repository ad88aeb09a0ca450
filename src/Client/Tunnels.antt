-- ===== src/Client/Tunnels.antt =====
-- Tunnels that are added, changed and removed while the client runs, and the next connection.
use nnel.Base.{
  ◌≡◌, ◌≢◌, refl, ap, ◌∙◌, inl, inr, Bool, true, false, not, Bool-cases, List, [], ◌∷◌, ◌++◌,
  append-nil, keep, All, Text, text, text_eqb, text_eqb_iff, ◌==◌, text_eq, arith,
}
use nnel.Config.{ClientConfig, TunnelConfig}
use nnel.Proto.{AddTunnel}
use nnel.Client.{
  Sent, register_tunnel, register_message, add_message, added_config, dynamic_add, dynamic_remove,
}
use nnel.Client.Connecting.{requests}

requests-append :
    (ts : List TunnelConfig) (t : TunnelConfig)
    → requests (ts ++ t ∷ []) ≡ requests ts ++ register_tunnel (register_message t) ∷ []
requests-append [] t = refl
requests-append (u ∷ ts) t = ap (◌∷◌ (register_tunnel (register_message u))) (requests-append ts t)

-- An HTTP tunnel that is added from the dashboard is asked for now, is saved, and is asked for by the
-- same message, behind all others, at each later connection.
pub dynamic_add_reconnects :
    (at : AddTunnel) (cfg : ClientConfig)
    → at.type ≡ text "http"
    → ((dynamic_add true at cfg).saved ≡ true)
      × ((dynamic_add true at cfg).sent ≡ register_tunnel (add_message at) ∷ [])
      × (requests (dynamic_add true at cfg).cfg.tunnels
          ≡ requests cfg.tunnels ++ (dynamic_add true at cfg).sent)
unfolding dynamic_add
dynamic_add_reconnects at cfg http = (
  refl,
  refl,
  requests-append cfg.tunnels (added_config at)
      ∙ ap (λ m. requests cfg.tunnels ++ register_tunnel m ∷ []) same_message,
)
  where
    same_message : register_message (added_config at) ≡ add_message at
    same_message = ground (arith, text_eqb_iff at.type (text "http"), text_eqb_iff at.subdomain [])

abbrev pub Names : Text → Sent → Type 0
Names name (register_tunnel m) = m.name ≡ name
Names name _ = ⊥

none_named :
    (name : Text) (ts : List TunnelConfig)
    → All (λ m. ¬ (Names name m)) (requests (keep (λ t. not (t.name == name)) ts))
none_named name [] = tt
none_named name (t ∷ ts) = elim (Bool-cases (text_eqb t.name name)) [
  | inl same ↦ rw same (none_named name ts)
  | inr other ↦ rw other ((λ e. ground (arith, text_eqb_iff t.name name)), none_named name ts)
]

keep_other :
    (name : Text) (ts : List TunnelConfig)
    → All (λ t. t.name ≢ name) ts
    → keep (λ t. not (t.name == name)) ts ≡ ts
keep_other name [] h = refl
keep_other name (t ∷ ts) (here, h) =
    let other : text_eqb t.name name ≡ false = ground (arith, text_eqb_iff t.name name) in
    rw other (ap (◌∷◌ t) (keep_other name ts h))

keep_append :
    (p : TunnelConfig → Bool) (ts us : List TunnelConfig)
    → keep p (ts ++ us) ≡ keep p ts ++ keep p us
keep_append p [] us = refl
keep_append p (t ∷ ts) us = ground (arith, keep_append p ts us)

-- After a tunnel is removed no later connection asks for one of its name. Removing a tunnel that
-- was just added, under a name that no other tunnel has, gives back the tunnels as they were.
pub dynamic_remove_lem :
    (name : Text) (cfg : ClientConfig) (at : AddTunnel)
    → at.name ≡ name
    → All (λ t. t.name ≢ name) cfg.tunnels
    → All (λ m. ¬ (Names name m)) (requests (dynamic_remove name cfg).cfg.tunnels)
      × ((dynamic_remove name (dynamic_add true at cfg).cfg).cfg.tunnels ≡ cfg.tunnels)
unfolding dynamic_remove dynamic_add
dynamic_remove_lem name cfg at same others = (
  none_named name cfg.tunnels,
  keep_append (λ t. not (t.name == name)) cfg.tunnels (added_config at ∷ [])
      ∙ (ap (λ ts. ts ++ keep (λ t. not (t.name == name)) (added_config at ∷ []))
            (keep_other name cfg.tunnels others)
          ∙ dropped),
)
  where
    dropped : cfg.tunnels ++ keep (λ t. not (t.name == name)) (added_config at ∷ []) ≡ cfg.tunnels
    dropped = rw ((text_eqb_iff at.name name).1 same) (append-nil cfg.tunnels)
