-- ===== src/Base/Strings.antt =====
-- What the program calls of package strings, over bytes. Positions count bytes.
use Prim.Native.Nat.{ℕ, zero, suc, ◌-◌, ◌<◌}
use mathlib.Core.Path.{◌≡◌, refl, ap, sym, ◌∙◌}
use mathlib.Core.Logic.{inl, inr}
use mathlib.Core.Bool.{Bool, true, false, ◌&&◌, ◌||◌}
use mathlib.Core.Option.{Option, none, some}
use mathlib.Core.List.{List, [], ◌∷◌, ◌++◌}
use native.Mathlib.Omega.{arith}
use nnel.Base.Tests.{nat_eqb, nat_eqb_iff, leb, if◌then◌else◌, Bool-cases}
use nnel.Base.Lists.{All, length, take, drop, length-append, take-append-drop}
use nnel.Base.Bytes.{Text, text_eqb, text_eqb_iff}

-- The byte `c` stands in `s`.
abbrev pub contains : ℕ → Text → Bool
contains c [] = false
contains c (d ∷ s) = nat_eqb d c || contains c s

-- strings.Index of one byte.
abbrev pub index : ℕ → Text → Option ℕ
index c [] = none
index c (d ∷ s) =
    if nat_eqb d c then some 0 else elim (index c s) [ none ↦ none | some i ↦ some (suc i) ]

-- strings.LastIndex of one byte.
abbrev pub last_index : ℕ → Text → Option ℕ
last_index c [] = none
last_index c (d ∷ s) = elim (last_index c s) [
  | none ↦ if nat_eqb d c then some 0 else none
  | some i ↦ some (suc i)
]

abbrev pub has_prefix : Text → Text → Bool
has_prefix s [] = true
has_prefix [] (c ∷ p) = false
has_prefix (d ∷ s) (c ∷ p) = nat_eqb d c && has_prefix s p

abbrev pub trim_prefix : Text → Text → Text
trim_prefix s p = if has_prefix s p then drop (length p) s else s

abbrev pub has_suffix : Text → Text → Bool
has_suffix s p = leb (length p) (length s) && text_eqb (drop (length s - length p) s) p

abbrev pub trim_suffix : Text → Text → Text
trim_suffix s p = if has_suffix s p then take (length s - length p) s else s

-- strings.TrimRight of one byte.
abbrev pub cons_kept : ℕ → ℕ → Text → Text
cons_kept c d [] = if nat_eqb d c then [] else d ∷ []
cons_kept c d (e ∷ s) = d ∷ e ∷ s

unfoldable pub trim_right : ℕ → Text → Text
trim_right c [] = []
trim_right c (d ∷ s) = cons_kept c d (trim_right c s)

-- strings.Split at one byte: the parts, of which there is at least one.
abbrev pub push_part : ℕ → List Text → List Text
push_part d [] = (d ∷ []) ∷ []
push_part d (part ∷ parts) = (d ∷ part) ∷ parts

abbrev pub split : ℕ → Text → List Text
split c [] = [] ∷ []
split c (d ∷ s) = let parts = split c s in if nat_eqb d c then [] ∷ parts else push_part d parts

-- strings.Join with one byte.
abbrev pub join : ℕ → List Text → Text
join c [] = []
join c (part ∷ []) = part
join c (part ∷ other ∷ parts) = part ++ c ∷ join c (other ∷ parts)

pub take-append : (s t : Text) → take (length s) (s ++ t) ≡ s
take-append [] t = refl
take-append (c ∷ s) t = ap (◌∷◌ c) (take-append s t)

pub drop-append : (s t : Text) → drop (length s) (s ++ t) ≡ t
drop-append [] t = refl
drop-append (c ∷ s) t = drop-append s t

pub contains-append : (c : ℕ) (s t : Text) → contains c (s ++ t) ≡ (contains c s || contains c t)
contains-append c [] t = refl
contains-append c (d ∷ s) t = ground (arith, contains-append c s t)

-- A text with the byte `c`, cut at its last occurrence, or the whole text.
abbrev pub before_last : ℕ → Text → Text
before_last c s = elim (last_index c s) [ none ↦ s | some i ↦ take i s ]

last_index-none : (c : ℕ) (s : Text) → contains c s ≡ false → last_index c s ≡ none
last_index-none c [] h = refl
last_index-none c (d ∷ s) h = ground (arith, last_index-none c s)

last_index-append :
    (c : ℕ) (s t : Text) → contains c t ≡ false → last_index c (s ++ c ∷ t) ≡ some (length s)
last_index-append c [] t h = ground (arith, last_index-none c t h)
last_index-append c (d ∷ s) t h = rw (last_index-append c s t h)

pub before_last-none : (c : ℕ) (s : Text) → contains c s ≡ false → before_last c s ≡ s
before_last-none c s h = rw (last_index-none c s h, before_last)

pub before_last-append :
    (c : ℕ) (s t : Text) → contains c t ≡ false → before_last c (s ++ c ∷ t) ≡ s
before_last-append c s t h = rw (last_index-append c s t h, before_last) (take-append s (c ∷ t))

pub has_suffix-append : (s t : Text) → has_suffix (s ++ t) t ≡ true
has_suffix-append s t =
    let front : length (s ++ t) - length t ≡ length s = omega (arith, length-append s t) in
    rw (front, drop-append s t, has_suffix) (ground (arith, text_eqb_iff t t, length-append s t))

pub has_suffix_split : (s t : Text) → has_suffix s t ≡ true → s ≡ take (length s - length t) s ++ t
has_suffix_split s t h =
    let same : drop (length s - length t) s ≡ t =
      ground (arith, text_eqb_iff (drop (length s - length t) s) t) in
    sym (take-append-drop (length s - length t) s) ∙ ap (◌++◌ (take (length s - length t) s)) same

pub take_before_suffix : (s t : Text) → take (length (s ++ t) - length t) (s ++ t) ≡ s
take_before_suffix s t =
    let front : length (s ++ t) - length t ≡ length s = omega (arith, length-append s t) in
    rw front (take-append s t)

pub split_ne_nil : (c : ℕ) (s : Text) → (p : Text) × (ps : List Text) × (split c s ≡ p ∷ ps)
split_ne_nil c [] = ([], [], refl)
split_ne_nil c (d ∷ s) =
    let (p, ps, e) = split_ne_nil c s in
    elim (Bool-cases (nat_eqb d c)) [
      | inl h ↦ ([], split c s, rw h)
      | inr h ↦ ((d ∷ p), ps, rw (h, e))
    ]

join-push_part :
    (c d : ℕ) (p : Text) (ps : List Text) → join c (push_part d (p ∷ ps)) ≡ d ∷ join c (p ∷ ps)
join-push_part c d p [] = refl
join-push_part c d p (q ∷ ps) = refl

-- Joining the parts gives the text back.
pub join-split : (c : ℕ) (s : Text) → join c (split c s) ≡ s
join-split c [] = refl
join-split c (d ∷ s) =
    let (p, ps, e) = split_ne_nil c s in
    let whole : join c (p ∷ ps) ≡ s = rw (← e) (join-split c s) in
    elim (Bool-cases (nat_eqb d c)) [
      | inl h ↦ rw (h, e) (ground (arith, whole, nat_eqb_iff d c))
      | inr h ↦ rw (h, e) (join-push_part c d p ps ∙ ap (◌∷◌ d) whole)
    ]

length_pos_split : (c : ℕ) (s : Text) → 0 < length (split c s)
length_pos_split c s = let (p, ps, e) = split_ne_nil c s in ground (arith, e)

pub index-append :
    (c : ℕ) (s t : Text) → contains c s ≡ false → index c (s ++ c ∷ t) ≡ some (length s)
index-append c [] t h = ground (arith, nat_eqb_iff c c)
index-append c (d ∷ s) t h =
    let later : contains c s ≡ false = ground arith in rw (index-append c s t later) (ground arith)

-- What stands before the first occurrence holds none.
pub contains-take-index :
    (c : ℕ) (s : Text) (i : ℕ) → index c s ≡ some i → contains c (take i s) ≡ false
contains-take-index c [] i h = absurd (cc)
contains-take-index c (d ∷ s) zero h = refl
contains-take-index c (d ∷ s) (suc i) h = elim (Bool-cases (nat_eqb d c)) [
  | inl hit ↦ absurd (ground arith)
  | inr miss ↦
      let later : index c s ≡ some i = ground arith in rw (miss, contains-take-index c s i later)
]

push_part-plain :
    (c d : ℕ) (parts : List Text)
    → nat_eqb d c ≡ false
    → All (λ part. contains c part ≡ false) parts
    → All (λ part. contains c part ≡ false) (push_part d parts)
push_part-plain c d [] more h = (rw more, tt)
push_part-plain c d (part ∷ parts) more (here, h) = (rw more here, h)

-- No part holds the byte at which the text is split.
pub no_part_contains : (c : ℕ) (s : Text) → All (λ part. contains c part ≡ false) (split c s)
no_part_contains c [] = (refl, tt)
no_part_contains c (d ∷ s) = elim (Bool-cases (nat_eqb d c)) [
  | inl cut ↦ rw cut (refl, no_part_contains c s)
  | inr more ↦ rw more (push_part-plain c d (split c s) more (no_part_contains c s))
]

pub has_prefix-append : (p s : Text) → has_prefix (p ++ s) p ≡ true
has_prefix-append [] s = refl
has_prefix-append (c ∷ p) s = ground (arith, has_prefix-append p s)
