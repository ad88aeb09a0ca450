-- ===== src/Server/Lifetime/Closing.antt =====
-- internal/server/server.go, closeAll: what the registry closes at the end.
use nnel.Base.{
  ℕ, ◌≡◌, refl, inl, inr, Option, none, some, Bool-cases, Option-cases, List, [], ◌∷◌, Text,
  text_eqb, lookup, In, All, get_elem?, Any-append_left, Any-append_right, text_eq, arith,
}
use nnel.Server.Registry.{Registry, ClientEntry, TunnelEntry, Closed, session, listener}
use nnel.Server.Registry.Consistent.{IsLive}
use nnel.Server.Lifetime.{close_all, close_ids, close_entry, listeners_of}

abbrev IsClosed : List Closed → Option ℕ → Type 0
IsClosed cs none = Unit
IsClosed cs (some ln) = In (listener ln) cs

-- The listener of a tunnel, if it has one, is closed.
abbrev pub ClosedIn : List Closed → TunnelEntry → Type 0
ClosedIn cs t = IsClosed cs t.tcp_ln

ClosedIn-listeners_of :
    (cs : List Closed) (ts : List TunnelEntry)
    → ((c : Closed) → In c (listeners_of ts) → In c cs)
    → All (ClosedIn cs) ts
ClosedIn-listeners_of cs [] among = tt
ClosedIn-listeners_of cs (t ∷ ts) among = elim (Option-cases t.tcp_ln) [
  | inl closed ↦ (
    rw (closed, IsClosed) tt,
    ClosedIn-listeners_of cs ts (λ c at. among c (rw (closed, listeners_of) at)),
  )
  | inr (ln, held) ↦ (
    rw (held, IsClosed) (among (listener ln) (rw (held, listeners_of) (inl refl))),
    ClosedIn-listeners_of cs ts (λ c at. among c (rw (held, listeners_of) (inr at))),
  )
]

close_ids-lookup :
    (entries : List ClientEntry) (ids : List (Text × ℕ)) (id : Text) (p : ℕ) (c : Closed)
    → lookup id ids ≡ some p
    → In c (close_entry (get_elem? entries p))
    → In c (close_ids entries ids)
unfolding lookup
close_ids-lookup entries [] id p c h at = absurd (cc)
close_ids-lookup entries ((j, q) ∷ ids) id p c h at = elim (Bool-cases (text_eqb j id)) [
  | inl hit ↦
      let same : q ≡ p = ground (arith, hit, h) in
      Any-append_left _ (close_entry (get_elem? entries q)) (close_ids entries ids) (rw same at)
  | inr miss ↦
      Any-append_right _ (close_entry (get_elem? entries q)) (close_ids entries ids)
        (close_ids-lookup entries ids id p c (ground (arith, miss, h)) at)
]

-- closeAll closes the session of every connected client and the listeners of all its tunnels.
pub close_all-IsLive :
    (reg : Registry) (p : ℕ) (e : ClientEntry)
    → IsLive reg p e
    → In (session e.session) (close_all reg) × All (ClosedIn (close_all reg)) e.tunnels
unfolding close_all
close_all-IsLive reg p e (at_p, named) = (
  among (session e.session) (inl refl),
  ClosedIn-listeners_of (close_all reg) e.tunnels (λ c at. among c (inr at)),
)
  where
    among : (c : Closed) → In c (close_entry (some e)) → In c (close_all reg)
    among c at = close_ids-lookup reg.entries reg.by_id e.id p c named (rw at_p at)
