-- ===== src/Cmd/Range/Laws.antt =====
-- What range the server is started with.
use nnel.Base.{
  ℕ, ◌≡◌, ◌≢◌, refl, ◌⊎◌, inl, inr, true, false, none, some, Bool-cases, Option-cases, [], ◌∷◌,
  ◌++◌, ℤ, pos, int_leb, int_leb_iff, ◌<ℤ◌, Text, text_eqb, text_eqb_iff, if◌then◌else◌, index,
  contains, take, drop, atoi, contains-print_nat, is_int64, leb, print_nat, atoi-print_nat,
  atoi_nonneg, index-append, take-append, drop-append, contains-take-index, Result, ok, err, arith,
}
use nnel.Cmd.Range.{RangeError, invalid_number, min_not_less, split_two, parse_tcp_port_range}

split_two-append :
    (c : ℕ) (s t : Text) → contains c s ≡ false → split_two c (s ++ c ∷ t) ≡ some (s, t)
split_two-append c s t h =
    rw (index-append c s t h, split_two) (rw (take-append s (c ∷ t), drop-append s (c ∷ t)))

print_ne_nil : (n : ℕ) (t : Text) → text_eqb (print_nat n ++ b'-' ∷ t) [] ≡ false
print_ne_nil n t = nonempty (print_nat n) t
  where
    nonempty : (s t : Text) → text_eqb (s ++ b'-' ∷ t) [] ≡ false
    nonempty [] t = refl
    nonempty (c ∷ s) t = refl

-- MIN-MAX in decimal is accepted exactly if MIN is less than MAX, with these two numbers.
pub parse-print_range :
    (a b : ℕ)
    → is_int64 (pos a) ≡ true
    → is_int64 (pos b) ≡ true
    → parse_tcp_port_range (print_nat a ++ b'-' ∷ print_nat b)
      ≡ (if leb b a then err min_not_less else ok (pos a, pos b))
unfolding parse_tcp_port_range
parse-print_range a b ha hb = rw (
  print_ne_nil a (print_nat b),
  split_two-append b'-' (print_nat a) (print_nat b) (contains-print_nat b'-' a refl),
  atoi-print_nat a ha,
  atoi-print_nat b hb,
)

abbrev pub GoodRange : Text → Result RangeError (ℤ × ℤ) → Type 0
GoodRange s (err e) = s ≢ []
GoodRange s (ok (min, max)) =
    ((s ≡ []) × (min ≡ pos 0) × (max ≡ pos 0)) ⊎ ((m : ℕ) × (min ≡ pos m) × (min <ℤ max))

-- Whatever the flag, a range that is accepted is empty, for the empty text, or goes up from an end
-- that is not negative; the empty text is always accepted.
pub parse_tcp_port_range-GoodRange : (s : Text) → GoodRange s (parse_tcp_port_range s)
unfolding parse_tcp_port_range
parse_tcp_port_range-GoodRange s = elim (Bool-cases (text_eqb s [])) [
  | inl empty ↦ rw empty (inl ((text_eqb_iff s []).0 empty, refl, refl))
  | inr set ↦
      let nonempty : s ≢ [] = λ e. ground (arith, text_eqb_iff s []) in
      rw set (elim (Option-cases (index b'-' s)) [
        | inl no_dash ↦ rw (no_dash, split_two) nonempty
        | inr (i, dash) ↦
            rw (dash, split_two)
              (ends s nonempty (take i s) (drop 1 (drop i s)) (contains-take-index b'-' s i dash))
      ])
]
  where
    ends :
        (s : Text)
        → s ≢ []
        → (low high : Text) → contains b'-' low ≡ false
        → GoodRange s (elim (atoi low) [
          | none ↦ err invalid_number
          | some min ↦ elim (atoi high) [
            | none ↦ err invalid_number
            | some max ↦ if int_leb max min then err min_not_less else ok (min, max)
          ]
        ])
    ends s nonempty low high plain = elim (Option-cases (atoi low)) [
      | inl bad ↦ rw bad nonempty
      | inr (min, read) ↦ rw read (elim (Option-cases (atoi high)) [
        | inl bad ↦ rw bad nonempty
        | inr (max, read_high) ↦ rw read_high (elim (Bool-cases (int_leb max min)) [
          | inl falls ↦ rw falls nonempty
          | inr rises ↦
              let (m, e) = atoi_nonneg low min plain read in
              rw rises (inr (m, e, ground (arith, int_leb_iff max min)))
        ])
      ])
    ]
