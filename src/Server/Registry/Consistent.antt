-- ===== src/Server/Registry/Consistent.antt =====
-- The invariant of the registry: the routes and the tunnels of the connected clients are the same.
use nnel.Base.{
  ℕ, ◌≡◌, ◌≢◌, inl, inr, true, false, some, List, [], ◌∷◌, Text, ◌==◌, lookup, get_elem?, All,
  Bool-cases, text_eq, arith,
}
use nnel.Server.Registry.{Registry, ClientEntry, TunnelEntry, new_registry}
use nnel.Server.Registry.Routes.{Key, key_eq, key_eqb_iff, key_of, has_key, route}

-- The pointer `p` is that of the connected client `e`.
abbrev pub IsLive : Registry → ℕ → ClientEntry → Type 0
IsLive reg p e = (get_elem? reg.entries p ≡ some e) × (lookup e.id reg.by_id ≡ some p)

abbrev pub DistinctKeys : List TunnelEntry → Type 0
DistinctKeys [] = Unit
DistinctKeys (t ∷ ts) = (has_key (key_of t) ts ≡ false) × DistinctKeys ts

pub record IsConsistent (reg : Registry) : Type 0 where
  -- every registered id names the entry that carries it;
  pub named :
      (id : Text) (p : ℕ)
      → lookup id reg.by_id ≡ some p
      → (e : ClientEntry) × (get_elem? reg.entries p ≡ some e) × (e.id ≡ id)
  -- every tunnel of a connected client is routed to that client;
  pub routed :
      (p : ℕ) (e : ClientEntry)
      → IsLive reg p e
      → All (λ t. route reg (key_of t) ≡ some p) e.tunnels
  -- no client has two tunnels with one key;
  pub distinct : (p : ℕ) (e : ClientEntry) → IsLive reg p e → DistinctKeys e.tunnels
  -- every route leads to a connected client that has a tunnel with its key.
  pub backed :
      (k : Key) (p : ℕ)
      → route reg k ≡ some p
      → (e : ClientEntry) × IsLive reg p e × (has_key k e.tunnels ≡ true)

pub new_registry-IsConsistent : IsConsistent new_registry
unfolding new_registry lookup route
new_registry-IsConsistent = record {
  named = λ id p h. absurd (cc);
  routed = λ p e live. absurd (cc);
  distinct = λ p e live. absurd (cc);
  backed = λ k p h. no_route k p h;
}
  where
    no_route :
        (k : Key) (p : ℕ)
        → route new_registry k ≡ some p
        → (e : ClientEntry) × IsLive new_registry p e × (has_key k e.tunnels ≡ true)
    no_route (Key.subdomain s) p h = absurd (cc)
    no_route (Key.port s) p h = absurd (cc)

pub routed_of_has_key :
    (reg : Registry) (k : Key) (p : ℕ) (ts : List TunnelEntry)
    → All (λ t. route reg (key_of t) ≡ some p) ts
    → has_key k ts ≡ true
    → route reg k ≡ some p
routed_of_has_key reg k p [] all h = absurd (cc)
routed_of_has_key reg k p (t ∷ ts) (here, all) h = elim (Bool-cases (key_of t == k)) [
  | inl same ↦ rw ((key_eqb_iff (key_of t) k).0 same) at here
  | inr other ↦ routed_of_has_key reg k p ts all (ground arith)
]

-- A key that leads elsewhere is none of the client's.
pub no_key_of-route :
    (reg : Registry) (k : Key) (p : ℕ) (ts : List TunnelEntry)
    → All (λ t. route reg (key_of t) ≡ some p) ts
    → route reg k ≢ some p
    → has_key k ts ≡ false
no_key_of-route reg k p ts all other = elim (Bool-cases (has_key k ts)) [
  | inl h ↦ absurd (other (routed_of_has_key reg k p ts all h))
  | inr h ↦ h
]

module _ (reg : Registry) (p q : ℕ) (e f : ClientEntry) where
  -- Two connected clients with one id are one.
  pub live_unique : IsLive reg p e → IsLive reg q f → e.id ≡ f.id → (p ≡ q) × (e ≡ f)
  live_unique (at_p, named_p) (at_q, named_q) same = (same_p, same_e)
    where
      same_p : p ≡ q
      same_p = cc

      same_e : e ≡ f
      same_e = cc

  -- Two connected clients with one pointer are one.
  pub live_same : IsLive reg p e → IsLive reg q f → p ≡ q → e ≡ f
  live_same (at_p, _) (at_q, _) same = cc
