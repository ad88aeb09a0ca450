-- ===== src/Server/Deploy/Detecting/Laws.antt =====
-- Which address is taken for the one of a new app.
use nnel.Base.{
  ℕ, ◌<◌, ◌≡◌, ◌≢◌, Option, none, some, List, Text, text_eq, int_eq, All, Any, get_elem?, split, ℤ,
  pos,
}
use nnel.Server.Deploy.Detecting.{parse_ss_port, known_debug_ports, Poll}
use nnel.Server.Deploy.Detecting.Scanning.{Answers, Heard}

-- The port of an address that was found: it was not listening before, and no tool of a developer has
-- it.
pub record IsNew (before : Text) (p : ℤ) : Type 0 where
  pub n : ℕ
  pub is_port : p ≡ pos n
  pub unprivileged : 1024 < n
  pub not_before : All (λ line. parse_ss_port line ≢ p) (split b'\n' before)
  pub no_debug : All (λ q. q ≢ p) known_debug_ports

-- A line of the output of a poll whose port is new, with one of the two addresses of the port, which
-- accepts.
abbrev pub HeardNew : Text → Text → Poll → Type 0
HeardNew before addr poll =
    (i : ℕ) × (line : Text) × (get_elem? (split b'\n' poll.out) i ≡ some line)
    × IsNew before (parse_ss_port line)
    × Answers (poll.accepts i) (parse_ss_port line) addr

-- What the detection returns: an address that was heard at a new port, or an error if none was.
abbrev pub Detected : Text → List ℤ → List Poll → Option Text → Type 0
Detected before known polls (some addr) = Any (HeardNew before addr) polls
Detected before known polls none = (addr : Text) → ¬ Any (λ poll. Heard known poll addr) polls
