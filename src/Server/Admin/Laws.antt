-- ===== src/Server/Admin/Laws.antt =====
-- Who may use the dashboard, and what its handlers keep.
use mathlib.Core.Path.{fun_ext}
use nnel.Base.{
  ℕ, ◌≡◌, ◌≢◌, refl, sym, ap, ◌∙◌, ◌⊎◌, inl, inr, Bool, true, false, ◌&&◌, some, Bool-cases,
  Option-cases, List, [], ◌∷◌, All, Text, text, text_eqb, text_eqb_iff, text_eq, if◌then◌else◌,
  lookup, set, has_prefix, drop, arith,
}
use nnel.Config.{ServerConfig}
use nnel.Server.Registry.{Registry, ClientEntry, TunnelEntry, find_tunnel, modify}
use nnel.Server.Registry.Routes.{Key, key_eq, key_of, has_key, route}
use nnel.Server.Registry.Consistent.{IsConsistent, IsLive, DistinctKeys, live_same}
use nnel.Server.Registry.Update.{update-IsConsistent}
use nnel.Server.Registry.Evict.{remove_tunnel_by_name-IsConsistent}
use nnel.Server.State.{Server}
use nnel.Server.Admin.{
  Credentials, first_token, admin_auth, set_dir, with_dir, handle_set_tunnel_dir,
  handle_remove_tunnel,
}

-- The token of a request, by the three places in their order.
abbrev pub Presents : Credentials → Text → Type 0
Presents c token =
    ((c.query_token ≡ token) × (token ≢ []))
    ⊎ ((c.query_token ≡ []) × (c.basic_password ≡ some token) × (token ≢ []))
    ⊎ ((first_token c ≡ [])
        × (has_prefix c.authorization (text "Bearer ") ≡ true)
        × (drop 7 c.authorization ≡ token))

-- The token that is compared, and when it is the configured one.
chosen_cases :
    (tok whole rest token : Text) (bearer : Bool)
    → token ≢ []
    → (text_eqb (if text_eqb tok [] && bearer then (if bearer then rest else whole) else tok) token
        ≡ true)
    → ((tok ≡ token) × (tok ≢ [])) ⊎ ((tok ≡ []) × (bearer ≡ true) × (rest ≡ token))
chosen_cases tok whole rest token bearer set h = elim (Bool-cases (text_eqb tok [])) [
  | inr some_tok ↦
      let same : tok ≡ token = (text_eqb_iff tok token).0 (rw some_tok at h) in
      inl (same, λ e. ground (arith, text_eqb_iff tok []))
  | inl no_tok ↦
      let empty : tok ≡ [] = (text_eqb_iff tok []).0 no_tok in
      elim (Bool-cases bearer) [
        | inl yes' ↦
            let left : text_eqb rest token ≡ true = rw (no_tok, yes') at h in
            inr (empty, yes', (text_eqb_iff rest token).0 left)
        | inr no' ↦
            let left : text_eqb tok token ≡ true = rw (no_tok, no') at h in
            absurd (set (ground (arith, text_eqb_iff tok token)))
      ]
]

first_token_cases :
    (c : Credentials) (token : Text)
    → token ≢ []
    → first_token c ≡ token
    → ((c.query_token ≡ token) × (token ≢ []))
      ⊎ ((c.query_token ≡ []) × (c.basic_password ≡ some token) × (token ≢ []))
first_token_cases c token set h = elim (Bool-cases (text_eqb c.query_token [])) [
  | inr given ↦ inl ((rw given at h), set)
  | inl missing ↦ elim (Option-cases c.basic_password) [
    | inl nothing ↦ absurd (ground (arith, text_eqb_iff c.query_token []))
    | inr (pass, basic) ↦
        let same : pass ≡ token = rw (missing, basic) at h in
        inr ((text_eqb_iff c.query_token []).0 missing, basic ∙ ap some same, set)
  ]
]

-- When a token is configured, a handler of the dashboard is reached only by a request that presents
-- it in the first place of the three that has one: the query, the basic password, a bearer header.
pub admin_auth_sound :
    (cfg : ServerConfig) (c : Credentials)
    → cfg.auth_token ≢ []
    → admin_auth cfg c ≡ true
    → Presents c cfg.auth_token
unfolding admin_auth
admin_auth_sound cfg c set h =
    let closed : text_eqb cfg.auth_token [] ≡ false =
      ground (arith, text_eqb_iff cfg.auth_token []) in
    elim (chosen_cases (first_token c) c.authorization (drop 7 c.authorization) cfg.auth_token
      (has_prefix c.authorization (text "Bearer ")) set (rw closed at h)) [
        | inl (same, given) ↦ elim (first_token_cases c cfg.auth_token set same) [
          | inl query ↦ inl query
          | inr basic ↦ inr (inl basic)
        ]
        | inr (empty, bearer, same) ↦ inr (inr (empty, bearer, same))
      ]

-- Changing a directory changes no key.
has_key-set_dir :
    (name dir : Text) (k : Key) (ts : List TunnelEntry)
    → has_key k (set_dir name dir ts) ≡ has_key k ts
unfolding set_dir
has_key-set_dir name dir k [] = refl
has_key-set_dir name dir k (t ∷ ts) = ground (arith, has_key-set_dir name dir k ts)

DistinctKeys-set_dir :
    (name dir : Text) (ts : List TunnelEntry) → DistinctKeys ts → DistinctKeys (set_dir name dir ts)
unfolding set_dir
DistinctKeys-set_dir name dir [] d = tt
DistinctKeys-set_dir name dir (t ∷ ts) (fresh, d) = elim (Bool-cases (text_eqb t.name name)) [
  | inl hit ↦ rw hit (fresh, d)
  | inr miss ↦
      rw miss (has_key-set_dir name dir (key_of t) ts ∙ fresh, DistinctKeys-set_dir name dir ts d)
]

All-set_dir :
    (P : Key → Type 0) (name dir : Text) (ts : List TunnelEntry)
    → All (λ t. P (key_of t)) ts
    → All (λ t. P (key_of t)) (set_dir name dir ts)
unfolding set_dir
All-set_dir P name dir [] h = tt
All-set_dir P name dir (t ∷ ts) (here, h) = elim (Bool-cases (text_eqb t.name name)) [
  | inl hit ↦ rw hit (here, h)
  | inr miss ↦ rw miss (here, All-set_dir P name dir ts h)
]

route_of_maps :
    (reg : Registry) (entries : List ClientEntry) (k : Key)
    → route (record reg { entries = entries }) k ≡ route reg k
unfolding route
route_of_maps reg entries (Key.subdomain s) = refl
route_of_maps reg entries (Key.port q) = refl

with_dir-IsConsistent :
    (name dir : Text) (p : ℕ) (e : ClientEntry) (reg : Registry)
    → IsConsistent reg
    → IsLive reg p e
    → IsConsistent (record reg { entries = modify p (with_dir name dir) reg.entries })
with_dir-IsConsistent name dir p e reg ok live =
    update-IsConsistent reg after p e (with_dir name dir e) live refl (rw (live.0, modify)) refl ok
      (rw (fun_ext (route_of_maps reg after.entries))
        (All-set_dir (λ k. route reg k ≡ some p) name dir e.tunnels (ok.routed p e live)))
      (DistinctKeys-set_dir name dir e.tunnels (ok.distinct p e live))
      (λ j q ne h. route_of_maps reg after.entries j ∙ h)
      (λ j h.
        let before : route reg j ≡ some p = sym (route_of_maps reg after.entries j) ∙ h in
        let (f, old, has) = ok.backed j p before in
        let one : e ≡ f = live_same reg p p e f live old refl in
        has_key-set_dir name dir j e.tunnels ∙ rw one has)
      (λ j q ne h. sym (route_of_maps reg after.entries j) ∙ h)
  where
    after : Registry
    after = record reg { entries = modify p (with_dir name dir) reg.entries }

-- Changing a directory keeps the registry consistent.
pub handle_set_tunnel_dir-IsConsistent :
    (client_id name dir : Text) (can_send : Bool) (s : Server)
    → IsConsistent s.registry
    → IsConsistent (handle_set_tunnel_dir client_id name dir can_send s).0.registry
unfolding handle_set_tunnel_dir
handle_set_tunnel_dir-IsConsistent client_id name dir can_send s ok =
    elim (Option-cases (lookup client_id s.registry.by_id)) [
      | inl unknown ↦ rw (unknown, handle_set_tunnel_dir) ok
      | inr (p, known) ↦
          let (e, at, same) = ok.named client_id p known in
          rw (known, at, handle_set_tunnel_dir)
            (elim (Option-cases (find_tunnel name e.tunnels)) [
              | inl miss ↦ rw miss ok
              | inr (t, hit) ↦
                  rw hit (with_dir-IsConsistent name dir p e s.registry ok (at, rw same known))
            ])
    ]

pub handle_remove_tunnel-IsConsistent :
    (client_id name : Text) (can_send : Bool) (s : Server)
    → IsConsistent s.registry
    → IsConsistent (handle_remove_tunnel client_id name can_send s).0.registry
unfolding handle_remove_tunnel
handle_remove_tunnel-IsConsistent client_id name can_send s ok =
    elim (Option-cases (lookup client_id s.registry.by_id)) [
      | inl unknown ↦ rw (unknown, handle_remove_tunnel) ok
      | inr (p, known) ↦
          rw (known, handle_remove_tunnel)
            (remove_tunnel_by_name-IsConsistent client_id name s.registry ok)
    ]
