-- ===== src/Base/Elements.antt =====
-- The elements of a clean path.
use Prim.Native.Nat.{ℕ}
use mathlib.Core.Path.{◌≡◌, refl, ap, sym, ◌∙◌}
use mathlib.Core.Logic.{◌⊎◌, inl, inr}
use mathlib.Core.Bool.{Bool, true, false}
use mathlib.Core.List.{List, [], ◌∷◌, ◌++◌, append-nil, append_assoc}
use native.Mathlib.Omega.{arith}
use nnel.Base.Tests.{nat_eqb, nat_eqb_iff, Bool-cases}
use nnel.Base.Lists.{All}
use nnel.Base.Bytes.{Text, text, text_eqb, text_eqb_iff, text_eq}
use nnel.Base.Strings.{contains, split, join, split_ne_nil, no_part_contains}
use nnel.Base.Paths.{is_abs, back, push, walk, rev_onto, elements, render, clean_path, is_name}

abbrev pub Names : List Text → Type 0
Names parts = All (λ part. is_name part ≡ true) parts

pub split-append : (c : ℕ) (s t : Text) → split c (s ++ c ∷ t) ≡ split c s ++ split c t
split-append c [] t = ground (arith, nat_eqb_iff c c)
split-append c (d ∷ s) t =
    let (p, ps, e) = split_ne_nil c s in
    elim (Bool-cases (nat_eqb d c)) [
      | inl cut ↦ rw (cut, split-append c s t) refl
      | inr more ↦ rw (more, split-append c s t, e) refl
    ]

pub split-plain : (c : ℕ) (s : Text) → contains c s ≡ false → split c s ≡ s ∷ []
split-plain c [] h = refl
split-plain c (d ∷ s) h =
    let other : nat_eqb d c ≡ false = ground arith in
    let later : contains c s ≡ false = ground arith in rw (other, split-plain c s later) refl

pub split-join :
    (c : ℕ) (part : Text) (parts : List Text)
    → All (λ p. contains c p ≡ false) (part ∷ parts)
    → split c (join c (part ∷ parts)) ≡ part ∷ parts
split-join c part [] (plain, _) = split-plain c part plain
split-join c part (q ∷ parts) (plain, more) =
    split-append c part (join c (q ∷ parts))
    ∙ rw (split-plain c part plain, split-join c q parts more) refl

walk-append :
    (r : Bool) (stack xs ys : List Text) → walk r stack (xs ++ ys) ≡ walk r (walk r stack xs) ys
unfolding walk
walk-append r stack [] ys = refl
walk-append r stack (x ∷ xs) ys = walk-append r (push r stack x) xs ys

walk-Names :
    (r : Bool) (stack parts : List Text) → Names parts → walk r stack parts ≡ rev_onto parts stack
unfolding walk
walk-Names r stack [] h = refl
walk-Names r stack (part ∷ parts) (name, names) =
    let kept : push r stack part ≡ part ∷ stack = ground arith in
    rw kept (walk-Names r (part ∷ stack) parts names)

rev_onto-rev_onto :
    (xs ys acc : List Text) → rev_onto (rev_onto xs ys) acc ≡ rev_onto ys (xs ++ acc)
rev_onto-rev_onto [] ys acc = refl
rev_onto-rev_onto (x ∷ xs) ys acc = rev_onto-rev_onto xs (x ∷ ys) acc

rev_onto-append : (xs acc more : List Text) → rev_onto xs (acc ++ more) ≡ rev_onto xs acc ++ more
rev_onto-append [] acc more = refl
rev_onto-append (x ∷ xs) acc more = rev_onto-append xs (x ∷ acc) more

-- Names below a directory come after the elements of the directory.
pub elements-append :
    (c : ℕ) (dir path : Text) (parts : List Text)
    → split b'/' path ≡ parts
    → Names parts
    → elements (c ∷ dir ++ b'/' ∷ path) ≡ elements (c ∷ dir) ++ parts
unfolding elements
elements-append c dir path parts e names =
    let r = is_abs (c ∷ dir) in
    let stack = walk r [] (split b'/' (c ∷ dir)) in
    ap (λ ps. rev_onto (walk r [] ps) []) (split-append b'/' (c ∷ dir) path)
    ∙ ap (λ s. rev_onto s []) (walk-append r [] (split b'/' (c ∷ dir)) (split b'/' path))
    ∙ ap (λ ps. rev_onto (walk r stack ps) []) e
    ∙ ap (λ s. rev_onto s []) (walk-Names r stack parts names)
    ∙ rev_onto-rev_onto parts stack []
    ∙ ap (rev_onto stack) (append-nil parts)
    ∙ rev_onto-append stack [] parts

Dots : List Text → Type 0
Dots parts = All (λ part. part ≡ text "..") parts

-- The elements of a path that is not absolute, the last one first: names, and `..` in front of them.
abbrev IsStack : List Text → Type 0
IsStack [] = Unit
IsStack (top ∷ stack) = ((is_name top ≡ true) × IsStack stack) ⊎ ((top ≡ text "..") × Dots stack)

IsStack-back : (stack : List Text) → IsStack stack → IsStack (back false stack)
unfolding Dots
IsStack-back [] h = inr (refl, tt)
IsStack-back (top ∷ stack) h = elim (Bool-cases (text_eqb top (text ".."))) [
  | inl dots ↦ rw dots (elim h [
    | inl (name, _) ↦ absurd (ground arith)
    | inr (same, more) ↦ inr (refl, (same, more))
  ])
  | inr other ↦ rw other (elim h [
    | inl (_, below) ↦ below
    | inr (same, more) ↦ absurd (ground (arith, text_eqb_iff top (text "..")))
  ])
]

IsStack-push :
    (stack : List Text) (part : Text)
    → contains b'/' part ≡ false
    → IsStack stack
    → IsStack (push false stack part)
IsStack-push stack part plain h = elim (Bool-cases (text_eqb part [])) [
  | inl empty ↦ rw empty h
  | inr full ↦ rw full (elim (Bool-cases (text_eqb part (text "."))) [
    | inl dot ↦ rw dot h
    | inr no_dot ↦ rw no_dot (elim (Bool-cases (text_eqb part (text ".."))) [
      | inl dots ↦ rw dots (IsStack-back stack h)
      | inr no_dots ↦ rw no_dots (inl (ground arith, h))
    ])
  ])
]

IsStack-walk :
    (parts stack : List Text)
    → All (λ part. contains b'/' part ≡ false) parts
    → IsStack stack
    → IsStack (walk false stack parts)
unfolding walk
IsStack-walk [] stack plain h = h
IsStack-walk (part ∷ parts) stack (here, plain) h =
    IsStack-walk parts (push false stack part) plain (IsStack-push stack part here h)

Dots-first :
    (top : Text) (stack acc : List Text)
    → top ≡ text ".."
    → Dots stack
    → (rest : List Text) × (rev_onto (top ∷ stack) acc ≡ text ".." ∷ rest)
unfolding Dots
Dots-first top [] acc same more = (acc, ap (λ x. x ∷ acc) same)
Dots-first top (next ∷ stack) acc same (same', more) = Dots-first next stack (top ∷ acc) same' more

Names-or_dots :
    (stack acc : List Text)
    → IsStack stack
    → Names stack ⊎ ((rest : List Text) × (rev_onto stack acc ≡ text ".." ∷ rest))
Names-or_dots [] acc h = inl tt
Names-or_dots (top ∷ stack) acc (inl (name, below)) = elim (Names-or_dots stack (top ∷ acc) below) [
  | inl names ↦ inl (name, names)
  | inr dots ↦ inr dots
]
Names-or_dots (top ∷ stack) acc (inr (same, more)) = inr (Dots-first top stack acc same more)

Names-rev_onto : (xs acc : List Text) → Names xs → Names acc → Names (rev_onto xs acc)
Names-rev_onto [] acc h k = k
Names-rev_onto (x ∷ xs) acc (name, h) k = Names-rev_onto xs (x ∷ acc) h (name, k)

-- A path that is not absolute has names as its elements, or it starts by going up.
pub elements_cases :
    (path : Text)
    → is_abs path ≡ false
    → Names (elements path) ⊎ ((rest : List Text) × (elements path ≡ text ".." ∷ rest))
unfolding elements
elements_cases path relative =
    let stack = walk false [] (split b'/' path) in
    rw relative
      (elim (Names-or_dots stack []
        (IsStack-walk (split b'/' path) [] (no_part_contains b'/' path) tt)) [
          | inl names ↦ inl (Names-rev_onto stack [] names tt)
          | inr dots ↦ inr dots
        ])

pub Names-plain : (parts : List Text) → Names parts → All (λ p. contains b'/' p ≡ false) parts
Names-plain [] h = tt
Names-plain (part ∷ parts) (name, h) = (ground arith, Names-plain parts h)

-- `.` below a directory is the directory.
pub elements_dot : (c : ℕ) (dir : Text) → elements (c ∷ dir ++ b'/' ∷ text ".") ≡ elements (c ∷ dir)
unfolding elements walk
elements_dot c dir =
    let r = is_abs (c ∷ dir) in
    ap (λ ps. rev_onto (walk r [] ps) []) (split-append b'/' (c ∷ dir) (text "."))
    ∙ ap (λ s. rev_onto s []) (walk-append r [] (split b'/' (c ∷ dir)) (text "." ∷ []))

pub join-append :
    (x : Text) (xs : List Text) (y : Text) (ys : List Text)
    → join b'/' ((x ∷ xs) ++ y ∷ ys) ≡ join b'/' (x ∷ xs) ++ b'/' ∷ join b'/' (y ∷ ys)
join-append x [] y ys = refl
join-append x (z ∷ xs) y ys =
    ap (λ s. x ++ b'/' ∷ s) (join-append z xs y ys)
    ∙ sym (append_assoc x (b'/' ∷ join b'/' (z ∷ xs)) (b'/' ∷ join b'/' (y ∷ ys)))

pub render-append :
    (r : Bool) (d : Text) (ds : List Text) (p : Text) (ps : List Text)
    → render r ((d ∷ ds) ++ p ∷ ps) ≡ render r (d ∷ ds) ++ b'/' ∷ join b'/' (p ∷ ps)
render-append true d ds p ps = ap (λ s. b'/' ∷ s) (join-append d ds p ps)
render-append false d ds p ps = join-append d ds p ps

pub is_abs-Names :
    (p : Text) (ps : List Text) → Names (p ∷ ps) → is_abs (join b'/' (p ∷ ps)) ≡ false
is_abs-Names [] ps h = absurd (ground arith)
is_abs-Names (c ∷ p) [] h = ground arith
is_abs-Names (c ∷ p) (q ∷ ps) h = ground arith

-- A path of names is clean and relative.
pub clean_path-Names :
    (p : Text) (ps : List Text)
    → Names (p ∷ ps)
    → clean_path (join b'/' (p ∷ ps)) ≡ join b'/' (p ∷ ps)
unfolding clean_path elements
clean_path-Names p ps h =
    rw
      (
        is_abs-Names p ps h,
        split-join b'/' p ps (Names-plain (p ∷ ps) h),
        walk-Names false [] (p ∷ ps) h,
        rev_onto-rev_onto (p ∷ ps) [] [],
        append-nil ps,
      )
      refl
