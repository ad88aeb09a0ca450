-- ===== src/Cmd/Connect/Laws.antt =====
-- What the client starts with.
use nnel.Base.{
  ◌≡◌, ◌≢◌, inl, inr, Bool, true, false, not, Option, none, some, [], Text, text, text_eq,
  text_eqb_iff, ==_dec, if◌then◌else◌, arith,
}
use nnel.Config.{ClientConfig}
use nnel.Cmd.Specs.Laws.{SpellAll}
use nnel.Cmd.Connect.{ClientFlags, Machine, given_or, resolve_client_name}

pub given_or_lem : (given other : Text) → other ≢ [] → given_or given other ≢ []
given_or_lem given other h = elim (==_dec given []) [
  | inl empty ↦ rw empty h
  | inr set ↦ λ e. absurd (ground (arith, set, text_eqb_iff given []))
]

pub resolve_client_name_lem : (m : Machine) → resolve_client_name m ≢ []
unfolding resolve_client_name
resolve_client_name_lem m = by_line m.interactive m.line
  where
    host_set : given_or m.hostname (text "client") ≢ []
    host_set = given_or_lem m.hostname (text "client") (λ e. absurd (cc))

    by_line :
        (interactive : Bool) (line : Option Text)
        → (if not interactive then given_or m.hostname (text "client") else elim line [
          | none ↦ given_or m.hostname (text "client")
          | some l ↦ given_or l (given_or m.hostname (text "client"))
        ])
          ≢ []
    by_line false line = host_set
    by_line true none = host_set
    by_line true (some l) = given_or_lem l (given_or m.hostname (text "client")) host_set

-- A configuration from the flags alone.
abbrev pub FromFlags : ClientFlags → ClientConfig × Bool → Type 0
FromFlags f (cfg, saved) =
    (cfg.name ≢ [])
    × (cfg.server ≡ f.server)
    × (cfg.auth_token ≡ f.auth_token)
    × SpellAll f.tunnels cfg.tunnels
    × (saved ≡ false)
