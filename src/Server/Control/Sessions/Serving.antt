-- ===== src/Server/Control/Sessions/Serving.antt =====
-- The control loop on a series of requests for tunnels.
use nnel.Base.{
  ℕ, ◌≡◌, ◌≢◌, ◌⊎◌, inl, inr, text, pos, refl, ap, sym, subst, ◌∙◌, Bool, ◌==◌, true, false, Option,
  none, some, List, [], ◌∷◌, ◌++◌, map, ℤ, is_int64, Text, text_eq, Result, All, if◌then◌else◌,
  arith,
}
use nnel.Proto.{RegisterTunnel, Envelope, payload, unmarshal_register_tunnel}
use nnel.Proto.RoundTrip.{Message}
use nnel.Proto.Wire.{envelope}
use nnel.Server.Registry.{ClientEntry, TunnelEntry, TunnelType, http, tcp}
use nnel.Server.Registry.Routes.{Key, key_eq, key_eqb_iff, key_of}
use nnel.Server.Registry.Consistent.{IsLive}
use nnel.Server.Registry.Owner.{owner}
use nnel.Server.State.{Server}
use nnel.Server.Sound.{IsSound}
use nnel.Server.Url.{Url}
use nnel.Server.Control.{
  Handled, Reply, tunnel_registered, tunnel_error, handle_message, handle_register,
  wanted_subdomain,
}
use nnel.Server.Control.Registering.{Grants, Answered, handle_register-Answered}
use nnel.Server.Control.Sessions.{followed_by, loop}
use nnel.Server.Control.Sessions.Handling.{IsConnected, Kept, Kept-message}

-- The tunnel is of the type that was asked for, on the subdomain or the port that was asked for.
abbrev pub AsAsked : RegisterTunnel → TunnelType → TunnelEntry → Type 0
AsAsked reg http te = (reg.type ≡ text "http") × (te.subdomain ≡ wanted_subdomain reg)
AsAsked reg tcp te =
    (reg.type ≡ text "tcp") × ((reg.remote_port ≡ te.remote_port) ⊎ (reg.remote_port ≡ pos 0))

-- One answer for each request, in their order. What is granted to the client `id` is what was asked
-- for, under a key that is the client's and was not granted for an earlier request; `taken` has the
-- keys that were.
abbrev pub AnswersTo : Text → Server → List Key → List RegisterTunnel → List Reply → Type 0
AnswersTo id s taken [] [] = Unit
AnswersTo id s taken (reg ∷ regs) (tunnel_registered name url ∷ rs) =
    (name ≡ reg.name)
    × (te : TunnelEntry) × (te.name ≡ reg.name)
    × AsAsked reg te.tunnel_type te
    × All (λ k. k ≢ key_of te) taken
    × (owner s.registry (key_of te) ≡ some id)
    × AnswersTo id s (key_of te ∷ taken) regs rs
AnswersTo id s taken (reg ∷ regs) (tunnel_error name problem ∷ rs) =
    (name ≡ reg.name) × AnswersTo id s taken regs rs
AnswersTo id s taken _ _ = ⊥

abbrev request : RegisterTunnel → Envelope
request reg = envelope (Message.register_tunnel reg)

-- A client keeps its keys.
abbrev Holds : Text → Server → Server → Type 0
Holds id s t = (k : Key) → owner s.registry k ≡ some id → owner t.registry k ≡ some id

-- What one answer says of the state before and after: what is granted was free.
abbrev AnswerTo : Text → Server → Server → RegisterTunnel → Reply → Type 0
AnswerTo id s t reg (tunnel_registered name url) =
    (name ≡ reg.name)
    × (te : TunnelEntry) × (te.name ≡ reg.name)
    × AsAsked reg te.tunnel_type te
    × (owner s.registry (key_of te) ≡ none)
    × (owner t.registry (key_of te) ≡ some id)
AnswerTo id s t reg (tunnel_error name problem) = name ≡ reg.name
AnswerTo id s t reg _ = ⊥

-- The client has all the keys.
abbrev HasAll : Text → Server → List Key → Type 0
HasAll id s taken = All (λ k. owner s.registry k ≡ some id) taken

HasAll-Holds :
    (id : Text) (s t : Server) (taken : List Key)
    → Holds id s t
    → HasAll id s taken
    → HasAll id t taken
HasAll-Holds id s t [] holds had = tt
HasAll-Holds id s t (k ∷ taken) holds (here, had) =
    (holds k here, HasAll-Holds id s t taken holds had)

-- A key that is free is none of them.
HasAll-free :
    (id : Text) (s : Server) (taken : List Key) (free : Key)
    → owner s.registry free ≡ none
    → HasAll id s taken
    → All (λ k. k ≢ free) taken
HasAll-free id s [] free unowned had = tt
HasAll-free id s (k ∷ taken) free unowned (here, had) = (
  (λ e. absurd (let owned : owner s.registry free ≡ some id = rw e at here in cc)),
  HasAll-free id s taken free unowned had,
)

-- One answer before the others: `s` is the state before the request, `t` the one after it, and `u` the
-- one after all.
AnswersTo-cons :
    (id : Text) (s t u : Server) (taken : List Key) (reg : RegisterTunnel) (reply : Reply)
    (regs : List RegisterTunnel) (rs : List Reply)
    → AnswerTo id s t reg reply
    → HasAll id s taken
    → Holds id s t
    → Holds id t u
    → ((later : List Key) → HasAll id t later → AnswersTo id u later regs rs)
    → AnswersTo id u taken (reg ∷ regs) (reply ∷ rs)
AnswersTo-cons id s t u taken reg (tunnel_registered name url) regs rs
      (named, te, te_named, asked, free, given) had holds keeps rest =
    (
      named,
      te,
      te_named,
      asked,
      HasAll-free id s taken (key_of te) free had,
      keeps (key_of te) given,
      rest (key_of te ∷ taken) (given, HasAll-Holds id s t taken holds had),
    )
AnswersTo-cons id s t u taken reg (tunnel_error name problem) regs rs named had holds keeps rest =
    (named, rest taken (HasAll-Holds id s t taken holds had))
AnswersTo-cons id s t u taken reg _ regs rs answer had holds keeps rest = absurd answer

Grants-AsAsked :
    (s : Server) (reg : RegisterTunnel) (ty : TunnelType) (te : TunnelEntry)
    → Grants s reg ty te
    → AsAsked reg ty te
Grants-AsAsked s reg http te (typed, at, undeployed) = (typed, at)
Grants-AsAsked s reg tcp te (typed, allowed, inl same) = (typed, inl same)
Grants-AsAsked s reg tcp te (typed, allowed, inr (any_port, picked)) = (typed, inr any_port)

-- The state after one request.
abbrev Registered : Text → Server → RegisterTunnel → Handled → Type 0
Registered id s reg r =
    (t : Server) × (reply : Reply) × (r ≡ some (t, reply ∷ []))
    × IsSound t
    × IsConnected t.registry id
    × AnswerTo id s t reg reply
    × Holds id s t

Holds-given :
    (id : Text) (given : Bool) (before : Option Text)
    → (given ≡ true → before ≡ none)
    → before ≡ some id
    → (if given then some id else before) ≡ some id
Holds-given id true before free h = refl
Holds-given id false before free h = h

Registered-Answered :
    (s : Server) (e : ClientEntry) (reg : RegisterTunnel) (r : Handled)
    → Answered s e reg r
    → Kept e.id s r
    → Registered e.id s reg r
Registered-Answered s e reg (some (t, tunnel_error name problem ∷ [])) (named, unchanged)
      (sound, connected, _, _) =
    (t, tunnel_error name problem, refl, sound, connected, named, λ k h. rw unchanged h)
Registered-Answered s e reg (some (t, tunnel_registered name url ∷ []))
      (named, te, te_named, grants, free, owners, _, _) (sound, connected, _, _) =
    (
      t,
      tunnel_registered name url,
      refl,
      sound,
      connected,
      (
        named,
        te,
        te_named,
        Grants-AsAsked s reg te.tunnel_type te grants,
        free,
        owners (key_of te) ∙ ground (arith, key_eqb_iff (key_of te) (key_of te)),
      ),
      λ k h.
          owners k
          ∙ Holds-given e.id (key_of te == k) (owner s.registry k)
              (λ hit. ap (owner s.registry) (sym ((key_eqb_iff (key_of te) k).0 hit)) ∙ free) h,
    )
Registered-Answered s e reg _ h kept = absurd h

module _ (parse_url : Text → Option Url) (listen : ℤ → Result Text ℕ) where
  handle_message-request :
      (s : Server) (id : Text) (reg : RegisterTunnel)
      → is_int64 reg.remote_port ≡ true
      → handle_message parse_url listen s id (request reg)
        ≡ handle_register parse_url listen s id reg
  unfolding handle_message payload unmarshal_register_tunnel
  handle_message-request s id reg h = rw h

  Registered-request :
      (s : Server) (p : ℕ) (e : ClientEntry) (reg : RegisterTunnel)
      → is_int64 reg.remote_port ≡ true
      → IsSound s
      → IsLive s.registry p e
      → Registered e.id s reg (handle_message parse_url listen s e.id (request reg))
  Registered-request s p e reg h sound live =
      let same = handle_message-request s e.id reg h in
      subst (Registered e.id s reg) (sym same) (
        Registered-Answered s e reg (handle_register parse_url listen s e.id reg)
          (handle_register-Answered parse_url listen s p e reg live sound.consistent)
          (subst (Kept e.id s) same (Kept-message parse_url listen s p e (request reg) sound live)))

  followed_by_lem :
      (s : Server) (replies : List Reply) (rest : Server → Handled) (t : Server) (more : List Reply)
      → rest s ≡ some (t, more)
      → followed_by (some (s, replies)) rest ≡ some (t, replies ++ more)
  followed_by_lem s replies rest t more h = rw (h, followed_by) refl

  -- The requests of a connected client are all answered.
  pub loop-requests :
      (id : Text) (regs : List RegisterTunnel) (s : Server)
      → All (λ reg. is_int64 reg.remote_port ≡ true) regs
      → IsSound s
      → IsConnected s.registry id
      → (t : Server) × (replies : List Reply) × (loop parse_url listen id (map request regs) s
          ≡ some (t, replies))
        × ((taken : List Key) → HasAll id s taken → AnswersTo id t taken regs replies)
        × Holds id s t
  unfolding loop
  loop-requests id [] s in_range sound connected = (s, [], refl, (λ taken had. tt), λ k h. h)
  loop-requests id (reg ∷ regs) s (fits, in_range) sound (p, e, live, named) =
      let (t, reply, now, sound', connected', answer, holds) =
        subst (λ c. Registered c s reg (handle_message parse_url listen s c (request reg))) named
          (Registered-request s p e reg fits sound live) in
      let (u, more, later, answers, keeps) = loop-requests id regs t in_range sound' connected' in
      (
        u,
        (reply ∷ more),
        rw now (
            followed_by_lem t (reply ∷ []) (loop parse_url listen id (map request regs)) u more
              later),
        (λ taken had.
            AnswersTo-cons id s t u taken reg reply regs more answer had holds keeps answers),
        λ k h. keeps k (holds k h),
      )
