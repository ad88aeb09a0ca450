-- ===== src/Server/Deploy/Archive/Laws.antt =====
-- An archive is unpacked below its directory, and nowhere else.
use nnel.Base.{
  ℕ, ◌<◌, ◌≡◌, refl, sym, ap, subst, ◌∙◌, ◌⊎◌, inl, inr, Bool, true, false, ◌||◌, Bool-cases,
  Option-cases, none, some, List, [], ◌∷◌, ◌++◌, Text, text, if◌then◌else◌, All, All-append, length,
  length-append, join, has_prefix, is_abs, clean_path, join_path, elements, render, Names,
  Names-plain, elements-append, elements_cases, split-join, elements_dot, join-append, if_some,
  else_some, arith,
}
use nnel.Server.Deploy.Archive.{
  TarEntry, Tarball, Write, make_dir, make_parent, write_file, entry_target, writes_of, attempt,
  next_entry, extract_entries, extract_tarball,
}

-- A path below the directory, by names only: no `..`, no `.`, nothing empty.
abbrev pub Inside : Text → Text → Type 0
Inside dir target =
    (part : Text) × (parts : List Text) × Names (part ∷ parts)
    × (target ≡ clean_path dir ++ b'/' ∷ join b'/' (part ∷ parts))

has_prefix_longer : (s p : Text) → length s < length p → has_prefix s p ≡ false
has_prefix_longer s [] h = elim h [ ]
has_prefix_longer [] (c ∷ p) h = refl
has_prefix_longer (d ∷ s) (c ∷ p) h = ground (arith, has_prefix_longer s p)

-- A relative path of names below a directory, and the test of the directory's prefix.
name_head :
    (p : Text) (ps : List Text)
    → Names (p ∷ ps)
    → (has_prefix (b'/' ∷ join b'/' (p ∷ ps)) (text "//") ≡ false)
      × (has_prefix (join b'/' (p ∷ ps)) (text "./") ≡ false)
name_head [] ps h = absurd (ground arith)
name_head (c ∷ []) [] h = ground arith
name_head (c ∷ []) (q ∷ ps) h = ground arith
name_head (c ∷ d ∷ p) [] h = ground arith
name_head (c ∷ d ∷ p) (q ∷ ps) h = ground arith

-- Names below a directory are its path, a slash and the names, if the directory is not the root or the
-- current one, for which the path of the directory is no prefix.
Inside_or_refused :
    (r : Bool) (ds : List Text) (p : Text) (ps : List Text)
    → Names (p ∷ ps)
    → (render r (ds ++ p ∷ ps) ≡ render r ds ++ b'/' ∷ join b'/' (p ∷ ps))
      ⊎ (has_prefix (render r (ds ++ p ∷ ps)) (render r ds ++ b'/' ∷ []) ≡ false)
Inside_or_refused true [] p ps h = inr ((name_head p ps h).0)
Inside_or_refused false [] p ps h = inr ((name_head p ps h).1)
Inside_or_refused true (d ∷ ds) p ps h = inl (ap (λ s. b'/' ∷ s) (join-append d ds p ps))
Inside_or_refused false (d ∷ ds) p ps h = inl (join-append d ds p ps)

-- The target of a clean path of names.
pub Names-target :
    (c : ℕ) (dir : Text) (p : Text) (ps : List Text)
    → Names (p ∷ ps)
    → join_path (c ∷ dir) (join b'/' (p ∷ ps))
      ≡ render (is_abs (c ∷ dir)) (elements (c ∷ dir) ++ p ∷ ps)
unfolding join_path clean_path
Names-target c dir p ps h = ap (render (is_abs (c ∷ dir))) (
    elements-append c dir (join b'/' (p ∷ ps)) (p ∷ ps)
      (split-join b'/' p ps (Names-plain (p ∷ ps) h)) h)

accepted-Names :
    (c : ℕ) (dir : Text) (p : Text) (ps : List Text) (target : Text)
    → Names (p ∷ ps)
    → (if has_prefix (join_path (c ∷ dir) (join b'/' (p ∷ ps))) (clean_path (c ∷ dir) ++ b'/' ∷ [])
        then some (join_path (c ∷ dir) (join b'/' (p ∷ ps)))
        else none)
      ≡ some target
    → Inside (c ∷ dir) target
unfolding clean_path
accepted-Names c dir p ps target names h =
    let same = Names-target c dir p ps names in
    let prefix = clean_path (c ∷ dir) ++ b'/' ∷ [] in
    let (passed, found) = if_some _ (some (join_path (c ∷ dir) (join b'/' (p ∷ ps)))) target h in
    let this : join_path (c ∷ dir) (join b'/' (p ∷ ps)) ≡ target = ground arith in
    elim (Inside_or_refused (is_abs (c ∷ dir)) (elements (c ∷ dir)) p ps names) [
      | inl inside ↦ (p, ps, names, sym this ∙ same ∙ inside)
      | inr refused ↦
          let no' : has_prefix (join_path (c ∷ dir) (join b'/' (p ∷ ps))) prefix ≡ false =
            ap (λ s. has_prefix s prefix) same ∙ refused in
          absurd (ground (arith, passed, no'))
    ]

dot_refused :
    (c : ℕ) (dir : Text)
    → has_prefix (join_path (c ∷ dir) (text ".")) (clean_path (c ∷ dir) ++ b'/' ∷ []) ≡ false
unfolding join_path clean_path
dot_refused c dir =
    let dir' = render (is_abs (c ∷ dir)) (elements (c ∷ dir)) in
    ap (λ es. has_prefix (render (is_abs (c ∷ dir)) es) (dir' ++ b'/' ∷ [])) (elements_dot c dir)
    ∙ has_prefix_longer dir' (dir' ++ b'/' ∷ []) (omega (arith, length-append dir' (b'/' ∷ [])))

dots_prefix : (ps : List Text) → has_prefix (join b'/' (text ".." ∷ ps)) (text "..") ≡ true
dots_prefix [] = refl
dots_prefix (p ∷ ps) = refl

-- The guards on the clean name, and the test of the target.
abbrev Guarded : ℕ → Text → Text → Text → Type 0
Guarded c dir clean target =
    (if is_abs clean || has_prefix clean (text "..")
      then none
      else if has_prefix (join_path (c ∷ dir) clean) (clean_path (c ∷ dir) ++ b'/' ∷ [])
      then some (join_path (c ∷ dir) clean)
      else none)
    ≡ some target

from_clean :
    (c : ℕ) (dir target : Text) (r : Bool) (es : List Text)
    → (r ≡ false → Names es ⊎ ((rest : List Text) × (es ≡ text ".." ∷ rest)))
    → Guarded c dir (render r es) target
    → Inside (c ∷ dir) target
from_clean c dir target true es cases h = absurd (cc)
from_clean c dir target false [] cases h =
    let (passed, _) = if_some _ (some (join_path (c ∷ dir) (text "."))) target h in
    absurd (ground (arith, passed, dot_refused c dir))
from_clean c dir target false (p ∷ ps) cases h =
    let clean = join b'/' (p ∷ ps) in
    let joined = join_path (c ∷ dir) clean in
    let tested =
      if has_prefix joined (clean_path (c ∷ dir) ++ b'/' ∷ []) then some joined else none in
    let (guards, rest) = else_some (is_abs clean || has_prefix clean (text "..")) tested target h in
    elim (cases refl) [
      | inl names ↦ accepted-Names c dir p ps target names rest
      | inr (more, e) ↦
          let up : p ≡ text ".." = ground arith in
          let dots : has_prefix (join b'/' (p ∷ ps)) (text "..") ≡ true =
            subst (λ q. has_prefix (join b'/' (q ∷ ps)) (text "..") ≡ true) (sym up)
              (dots_prefix ps) in
          absurd (ground (arith, guards, dots))
    ]

-- An entry of an archive, whatever its name, is written below the directory or not at all.
pub Inside-entry_target :
    (c : ℕ) (dir name target : Text)
    → entry_target (c ∷ dir) name ≡ some target
    → Inside (c ∷ dir) target
unfolding entry_target clean_path
Inside-entry_target c dir name target h =
    from_clean c dir target (is_abs name) (elements name) (elements_cases name) h

abbrev pub path_of : Write → Text
path_of (make_dir target) = target
path_of (make_parent target) = target
path_of (write_file target mode content) = target

module _ (works : List Write → Write → Bool) where
  All-attempt :
      (P : Write → Type 0) (ws done : List Write)
      → All P ws
      → All P done
      → All P (attempt works ws done).0
  unfolding attempt
  All-attempt P [] done h k = k
  All-attempt P (w ∷ ws) done (here, h) k = elim (Bool-cases (works done w)) [
    | inl fine ↦
        rw (fine, attempt)
          (All-attempt P ws (done ++ w ∷ []) h (All-append P done (w ∷ []) k (here, tt)))
    | inr failed ↦ rw (failed, attempt) (All-append P done (w ∷ []) k (here, tt))
  ]

  All-writes_of :
      (P : Write → Type 0) (e : TarEntry) (target : Text)
      → ((w : Write) → path_of w ≡ target → P w)
      → All P (writes_of e target)
  All-writes_of P e target h = elim (Bool-cases e.is_dir) [
    | inl dir ↦ rw dir (h (make_dir target) refl, tt)
    | inr file ↦
        rw file (h (make_parent target) refl, (h (write_file target e.mode e.content) refl, tt))
  ]

  All-next_entry :
      (P : Write → Type 0) (r : List Write × Bool) (rest : List Write → List Write × Bool)
      → All P r.0
      → ((done : List Write) → All P done → All P (rest done).0)
      → All P (next_entry works r rest).0
  All-next_entry P (done, false) rest h k = h
  All-next_entry P (done, true) rest h k = k done h

  Inside-extract_entries :
      (c : ℕ) (dir : Text) (es : List TarEntry) (ends_well : Bool) (done : List Write)
      → All (λ w. Inside (c ∷ dir) (path_of w)) done
      → All
          (λ w. Inside (c ∷ dir) (path_of w))
          (extract_entries works (c ∷ dir) es ends_well done).0
  unfolding extract_entries
  Inside-extract_entries c dir [] ends_well done h = h
  Inside-extract_entries c dir (e ∷ es) ends_well done h =
      elim (Option-cases (entry_target (c ∷ dir) e.name)) [
        | inl skipped ↦
            rw (skipped, extract_entries) (Inside-extract_entries c dir es ends_well done h)
        | inr (target, taken) ↦
            rw (taken, extract_entries)
              (All-next_entry _ (attempt works (writes_of e target) done)
                (extract_entries works (c ∷ dir) es ends_well)
                (All-attempt _ (writes_of e target) done
                  (All-writes_of _ e target (λ w same.
                    subst (Inside (c ∷ dir)) (sym same)
                      (Inside-entry_target c dir e.name target taken)))
                  h)
                (Inside-extract_entries c dir es ends_well))
      ]

  -- Whatever an archive holds, and whatever fails on the way, each directory that is made and each file
  -- that is written lies below the directory of the upload, whose path is not empty: its path is the
  -- clean path of the directory, and then names, none of which is `..`.
  pub Inside-extract_tarball :
      (c : ℕ) (dir : Text) (tarball : Tarball)
      → All (λ w. Inside (c ∷ dir) (path_of w)) (extract_tarball works (c ∷ dir) tarball).0
  unfolding extract_tarball
  Inside-extract_tarball c dir tarball = elim (Bool-cases tarball.is_gzip) [
    | inl gzip ↦
        rw (gzip, extract_tarball)
          (Inside-extract_entries c dir tarball.entries tarball.ends_well [] tt)
    | inr other ↦ rw (other, extract_tarball) tt
  ]
