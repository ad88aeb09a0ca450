-- ===== src/Cmd/Range.antt =====
-- cmd/server/main.go, parseTCPPortRange.
pub mod Laws
use nnel.Base.{
  ℕ, Bool, Option, none, some, List, [], ◌∷◌, ◌++◌, ℤ, pos, int_leb, Text, ◌==◌, text_eq,
  if◌then◌else◌, index, take, drop, atoi, Result, ok, err,
}

pub data RangeError : Type 0 where
  not_min_max : RangeError
  invalid_number : RangeError
  min_not_less : RangeError

-- strings.SplitN at one byte, into two parts at most: the second, if the byte is there.
abbrev pub split_two : ℕ → Text → Option (Text × Text)
split_two c s = elim (index c s) [ none ↦ none | some i ↦ some (take i s, drop 1 (drop i s)) ]

-- The lower and the upper end; 0 and 0 for no range.
unfoldable pub parse_tcp_port_range : Text → Result RangeError (ℤ × ℤ)
parse_tcp_port_range s = if s == [] then ok (pos 0, pos 0) else elim (split_two b'-' s) [
  | none ↦ err not_min_max
  | some (low, high) ↦ elim (atoi low) [
    | none ↦ err invalid_number
    | some min ↦ elim (atoi high) [
      | none ↦ err invalid_number
      | some max ↦ if int_leb max min then err min_not_less else ok (min, max)
    ]
  ]
]
