-- ===== src/Base/Paths.antt =====
-- Package path/filepath on Unix, lexically: Clean, IsAbs, and Join of a directory and a path.
use mathlib.Core.Bool.{Bool, true, false, not, ◌&&◌, ◌||◌}
use mathlib.Core.Path.{refl}
use mathlib.Core.Logic.{◌≢◌, inl, inr}
use native.Mathlib.Omega.{arith}
use mathlib.Core.List.{List, [], ◌∷◌, ◌++◌}
use nnel.Base.Tests.{Bool-cases, if◌then◌else◌, nat_eqb, ◌==◌}
use nnel.Base.Lists.{All}
use nnel.Base.Bytes.{Text, text, text_eqb, text_eqb_iff, text_eq}
use nnel.Base.Strings.{contains, split, join}

abbrev pub is_abs : Text → Bool
is_abs [] = false
is_abs (c ∷ path) = nat_eqb c b'/'

-- The elements that Clean keeps, the last one first: `..` takes one back, and stays only in front of a
-- path that is not absolute.
abbrev pub back : Bool → List Text → List Text
back true [] = []
back false [] = text ".." ∷ []
back rooted (top ∷ stack) = if top == text ".." then text ".." ∷ top ∷ stack else stack

abbrev pub push : Bool → List Text → Text → List Text
push rooted stack part =
    if part == [] || part == text "."
    then stack
    else if part == text ".."
    then back rooted stack
    else part ∷ stack

unfoldable pub walk : Bool → List Text → List Text → List Text
walk rooted stack [] = stack
walk rooted stack (part ∷ parts) = walk rooted (push rooted stack part) parts

abbrev pub rev_onto : List Text → List Text → List Text
rev_onto [] acc = acc
rev_onto (x ∷ xs) acc = rev_onto xs (x ∷ acc)

unfoldable pub elements : Text → List Text
elements path = rev_onto (walk (is_abs path) [] (split b'/' path)) []

abbrev pub render : Bool → List Text → Text
render true parts = b'/' ∷ join b'/' parts
render false [] = text "."
render false (part ∷ parts) = join b'/' (part ∷ parts)

unfoldable pub clean_path : Text → Text
clean_path path = render (is_abs path) (elements path)

-- Of two paths that are not empty.
unfoldable pub join_path : Text → Text → Text
join_path dir path = clean_path (dir ++ b'/' ∷ path)

-- The name of a file or a directory in its directory.
abbrev pub is_name : Text → Bool
is_name part =
    not (text_eqb part [])
    && not (text_eqb part (text "."))
    && not (text_eqb part (text ".."))
    && not (contains b'/' part)

abbrev Nonempty : Text → Type 0
Nonempty part = part ≢ []

back-Nonempty :
    (rooted : Bool) (stack : List Text) → All Nonempty stack → All Nonempty (back rooted stack)
back-Nonempty true [] set = tt
back-Nonempty false [] set = ((λ e. absurd (cc)), tt)
back-Nonempty rooted (top ∷ stack) (here, set) = elim (Bool-cases (text_eqb top (text ".."))) [
  | inl up ↦ rw up ((λ e. absurd (cc)), (here, set))
  | inr down ↦ rw down set
]

push-Nonempty :
    (rooted : Bool) (stack : List Text) (part : Text)
    → All Nonempty stack
    → All Nonempty (push rooted stack part)
push-Nonempty rooted stack part set = elim (Bool-cases (text_eqb part [])) [
  | inl empty ↦ rw empty set
  | inr named ↦ rw named (elim (Bool-cases (text_eqb part (text "."))) [
    | inl here ↦ rw here set
    | inr other ↦ rw other (elim (Bool-cases (text_eqb part (text ".."))) [
      | inl up ↦ rw up (back-Nonempty rooted stack set)
      | inr down ↦ rw down ((λ e. absurd (ground (arith, text_eqb_iff part [], e))), set)
    ])
  ])
]

walk-Nonempty :
    (rooted : Bool) (stack parts : List Text)
    → All Nonempty stack
    → All Nonempty (walk rooted stack parts)
unfolding walk
walk-Nonempty rooted stack [] set = set
walk-Nonempty rooted stack (part ∷ parts) set =
    walk-Nonempty rooted (push rooted stack part) parts (push-Nonempty rooted stack part set)

rev_onto-Nonempty :
    (xs acc : List Text) → All Nonempty xs → All Nonempty acc → All Nonempty (rev_onto xs acc)
rev_onto-Nonempty [] acc set held = held
rev_onto-Nonempty (x ∷ xs) acc (here, set) held = rev_onto-Nonempty xs (x ∷ acc) set (here, held)

render_ne_nil : (rooted : Bool) (parts : List Text) → All Nonempty parts → render rooted parts ≢ []
render_ne_nil true parts set = λ e. absurd (cc)
render_ne_nil false [] set = λ e. absurd (cc)
render_ne_nil false (part ∷ []) (here, set) = here
render_ne_nil false ([] ∷ other ∷ parts) (here, set) = absurd (here refl)
render_ne_nil false ((c ∷ part) ∷ other ∷ parts) set = λ e. absurd (cc)

-- A cleaned path is not empty.
pub clean_path_ne_nil : (path : Text) → clean_path path ≢ []
unfolding clean_path elements
clean_path_ne_nil path =
    render_ne_nil (is_abs path) _
      (rev_onto-Nonempty _ [] (walk-Nonempty (is_abs path) [] (split b'/' path) tt) tt)
