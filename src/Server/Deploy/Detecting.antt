-- ===== src/Server/Deploy/Detecting.antt =====
-- internal/server/deploy.go, the detection of the port of an app: snapshotListeningPorts,
-- detectContainerPort and parseSSPort. The command `ss` and the network enter as what they give:
-- the output of a run, and whether an address accepts a connection.
pub mod Scanning
pub mod Laws
use nnel.Base.{
  ℕ, zero, suc, Bool, true, false, not, ◌&&◌, ◌||◌, Option, none, some, List, [], ◌∷◌, ◌++◌, Text,
  text, ◌==◌, text_eq, int_eq, nat_eqb, if◌then◌else◌, any, drop, get_elem?, last_index, split,
  atoi, ℤ, pos, int_leb, print_int,
}

-- The white space of ASCII, by which strings.Fields cuts a text of ASCII, as the output of `ss` is.
abbrev pub is_space : ℕ → Bool
is_space c =
    nat_eqb c b' '
    || nat_eqb c b'\t'
    || nat_eqb c b'\n'
    || nat_eqb c 11
    || nat_eqb c 12
    || nat_eqb c b'\r'

abbrev pub cons_field : Text → List Text → List Text
cons_field [] fields = fields
cons_field (c ∷ field) fields = (c ∷ field) ∷ fields

-- strings.Fields: the field before the first space, and the fields after it.
unfoldable pub next_fields : Text → Text × List Text
next_fields [] = ([], [])
next_fields (c ∷ s) =
    let (field, fields) = next_fields s in
    if is_space c then ([], cons_field field fields) else (c ∷ field, fields)

unfoldable pub fields_of : Text → List Text
unfolding next_fields
fields_of s = let (field, fields) = next_fields s in cons_field field fields

abbrev pub port_of : Text → ℤ
port_of addr = elim (last_index b':' addr) [
  | none ↦ pos 0
  | some i ↦ elim (atoi (drop (suc i) addr)) [ none ↦ pos 0 | some p ↦ p ]
]

unfoldable pub parse_ss_port : Text → ℤ
unfolding fields_of
parse_ss_port line = elim (get_elem? (fields_of line) 3) [ none ↦ pos 0 | some addr ↦ port_of addr ]

abbrev pub add_port : ℤ → List ℤ → List ℤ
add_port p ports = if not (int_leb p (pos 0)) then p ∷ ports else ports

unfoldable pub ports_of : List Text → List ℤ
unfolding parse_ss_port
ports_of [] = []
ports_of (line ∷ lines) = add_port (parse_ss_port line) (ports_of lines)

-- The set of the ports, unless `ss` fails.
unfoldable pub snapshot_listening_ports : Option Text → Option (List ℤ)
unfolding ports_of
snapshot_listening_ports none = none
snapshot_listening_ports (some out) = some (ports_of (split b'\n' out))

abbrev pub known_debug_ports : List ℤ
known_debug_ports = pos 9229 ∷ pos 9230 ∷ pos 9090 ∷ pos 8125 ∷ []

-- One turn of the loop that starts before the deadline: the output of `ss`, and whether the address
-- that is dialed for a line of it, counted from 0, accepts.
pub record Poll : Type 0 where
  pub out : Text
  pub accepts : ℕ → Text → Bool

abbrev pub is_candidate : List ℤ → ℤ → Bool
is_candidate known p =
    not (int_leb p (pos 1024) || any (λ q. q == p) known || any (λ q. q == p) known_debug_ports)

-- net.JoinHostPort puts a host with a colon in brackets.
abbrev pub ipv4_addr : ℤ → Text
ipv4_addr p = text "127.0.0.1:" ++ print_int p

abbrev pub ipv6_addr : ℤ → Text
ipv6_addr p = text "[::1]:" ++ print_int p

abbrev pub probe : (Text → Bool) → ℤ → Option Text
probe accepts p =
    if accepts (ipv4_addr p)
    then some (ipv4_addr p)
    else if accepts (ipv6_addr p)
    then some (ipv6_addr p)
    else none

abbrev pub scan_line : List ℤ → (Text → Bool) → ℤ → Option Text
scan_line known accepts p = if is_candidate known p then probe accepts p else none

-- The first address that is found ends the loops.
abbrev pub or_else {ℓ} : {A : Type ℓ} → Option A → Option A → Option A
or_else none later = later
or_else (some a) later = some a

unfoldable pub scan : List ℤ → (ℕ → Text → Bool) → List Text → Option Text
unfolding parse_ss_port
scan known accepts [] = none
scan known accepts (line ∷ lines) =
    or_else (scan_line known (accepts 0) (parse_ss_port line))
      (scan known (λ i. accepts (suc i)) lines)

-- The polls that are made before the deadline, with an error after them.
unfoldable pub detect_container_port : List ℤ → List Poll → Option Text
unfolding scan
detect_container_port known [] = none
detect_container_port known (poll ∷ polls) =
    or_else (scan known poll.accepts (split b'\n' poll.out)) (detect_container_port known polls)
