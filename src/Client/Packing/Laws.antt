-- ===== src/Client/Packing/Laws.antt =====
-- Which files an upload holds: the pruned walk packs what a walk over everything finds and a test
-- admits.
use nnel.Base.{
  ◌≡◌, refl, sym, ap, ◌∙◌, inl, inr, Bool, true, false, not, ◌&&◌, Bool-cases, Option, none, some,
  ℕ, List, [], ◌∷◌, ◌++◌, append_assoc, append-nil, Text, keep, arith,
}
use nnel.Server.Deploy.Archive.{TarEntry}
use nnel.Client.Packing.{
  Node, file, folder, Nodes, nil, cons, directory, parse_gitignore, is_junk, joined, is_pruned,
  pack_file, pack, pack_all, create_tarball,
}

-- What a walk that prunes nothing finds: each file, and each directory that cannot be read.
pub data Visit : Type 0 where
  visit_file : List Text → Text → ℕ → Option Text → Visit
  unreadable : List Text → Visit

unfoldable mutual
  pub visits : List Text → Node → List Visit
  visits above (file name mode content) = visit_file above name mode content ∷ []
  visits above (folder name true nodes) = visits_all (above ++ name ∷ []) nodes
  visits above (folder name false nodes) = unreadable (above ++ name ∷ []) ∷ []

  pub visits_all : List Text → Nodes → List Visit
  visits_all above nil = []
  visits_all above (cons node nodes) = visits above node ++ visits_all above nodes

module _ (matches : Text → Text → Bool) (patterns : List Text) where
  -- No directory on the way is pruned.
  unfoldable pub is_reached : List Text → List Text → Bool
  is_reached above [] = true
  is_reached above (name ∷ names) =
      not (is_pruned matches patterns above name) && is_reached (above ++ name ∷ []) names

  abbrev pub is_admitted : Visit → Bool
  is_admitted (visit_file above name mode content) = not (is_junk name) && is_reached [] above
  is_admitted (unreadable names) = is_reached [] names

abbrev pub taken : Visit → Option (List TarEntry)
taken (visit_file above name mode content) = pack_file above name mode content
taken (unreadable names) = none

-- The entries for what was found, in its order; one failure is the failure of all.
unfoldable pub collect : List Visit → Option (List TarEntry)
collect [] = some []
collect (v ∷ vs) = joined (taken v) (collect vs)

keep-append {ℓ} :
    {A : Type ℓ} (p : A → Bool) (xs ys : List A) → keep p (xs ++ ys) ≡ keep p xs ++ keep p ys
keep-append p [] ys = refl
keep-append p (x ∷ xs) ys = elim (Bool-cases (p x)) [
  | inl kept ↦ rw kept (ap (◌∷◌ x) (keep-append p xs ys))
  | inr dropped ↦ rw dropped (keep-append p xs ys)
]

joined_assoc {ℓ} :
    {A : Type ℓ} (x y z : Option (List A)) → joined (joined x y) z ≡ joined x (joined y z)
joined_assoc none y z = refl
joined_assoc (some xs) none z = refl
joined_assoc (some xs) (some ys) none = refl
joined_assoc (some xs) (some ys) (some zs) = ap some (append_assoc xs ys zs)

joined_nil {ℓ} : {A : Type ℓ} (x : Option (List A)) → joined (some []) x ≡ x
joined_nil none = refl
joined_nil (some xs) = refl

joined-nil {ℓ} : {A : Type ℓ} (x : Option (List A)) → joined x (some []) ≡ x
joined-nil none = refl
joined-nil (some xs) = ap some (append-nil xs)

and_false : (b : Bool) → (b && false) ≡ false
and_false true = refl
and_false false = refl

collect-append : (xs ys : List Visit) → collect (xs ++ ys) ≡ joined (collect xs) (collect ys)
unfolding collect
collect-append [] ys = sym (joined_nil (collect ys))
collect-append (x ∷ xs) ys =
    ap (joined (taken x)) (collect-append xs ys)
    ∙ sym (joined_assoc (taken x) (collect xs) (collect ys))

module _ (matches : Text → Text → Bool) (patterns : List Text) where
  is_reached-append :
      (start above : List Text) (name : Text)
      → is_reached matches patterns start (above ++ name ∷ []) ≡ (
          is_reached matches patterns start above
          && not (is_pruned matches patterns (start ++ above) name))
  unfolding is_reached
  is_reached-append start [] name =
      rw (append-nil start) (ground (arith, Bool-cases (is_pruned matches patterns start name)))
  is_reached-append start (first ∷ above) name =
      rw (is_reached-append (start ++ first ∷ []) above name, append_assoc start (first ∷ []) above)
        (elim (Bool-cases (is_pruned matches patterns start first)) [
          | inl pruned ↦ rw pruned refl
          | inr entered ↦ rw entered refl
        ])

  keep_out :
      (v : Visit)
      → is_admitted matches patterns v ≡ false
      → keep (is_admitted matches patterns) (v ∷ []) ≡ []
  keep_out v h = rw h refl

  keep_in :
      (v : Visit)
      → is_admitted matches patterns v ≡ true
      → keep (is_admitted matches patterns) (v ∷ []) ≡ v ∷ []
  keep_in v h = rw h refl

  -- Below a directory that is not reached nothing is admitted.
  mutual
    unfolding visits

    visits-unreached :
        (above : List Text) (node : Node)
        → is_reached matches patterns [] above ≡ false
        → keep (is_admitted matches patterns) (visits above node) ≡ []
    visits-unreached above (file name mode content) h =
        keep_out (visit_file above name mode content) (rw h (and_false (not (is_junk name))))
    visits-unreached above (folder name true nodes) h =
        visits_all-unreached (above ++ name ∷ []) nodes
          (rw (is_reached-append [] above name, h) refl)
    visits-unreached above (folder name false nodes) h =
        keep_out (unreadable (above ++ name ∷ [])) (rw (is_reached-append [] above name, h) refl)

    visits_all-unreached :
        (above : List Text) (nodes : Nodes)
        → is_reached matches patterns [] above ≡ false
        → keep (is_admitted matches patterns) (visits_all above nodes) ≡ []
    visits_all-unreached above nil h = refl
    visits_all-unreached above (cons node nodes) h =
        keep-append (is_admitted matches patterns) (visits above node) (visits_all above nodes)
        ∙ rw (visits-unreached above node h, visits_all-unreached above nodes h) refl

  -- The walk from a directory that is reached.
  mutual
    unfolding visits pack collect

    pack-collect :
        (above : List Text) (node : Node)
        → is_reached matches patterns [] above ≡ true
        → pack matches patterns above node
          ≡ collect (keep (is_admitted matches patterns) (visits above node))
    pack-collect above (file name mode content) h = elim (Bool-cases (is_junk name)) [
      | inl junk ↦ rw junk refl
      | inr kept ↦ rw (kept, h) (sym (joined-nil (pack_file above name mode content)))
    ]
    pack-collect above (folder name true nodes) h =
        let below = is_reached-append [] above name in
        elim (Bool-cases (is_pruned matches patterns above name)) [
          | inl pruned ↦ rw pruned (
              sym (
                ap collect
                  (visits_all-unreached (above ++ name ∷ []) nodes (rw (below, h, pruned) refl))))
          | inr entered ↦
              rw entered (pack_all-collect (above ++ name ∷ []) nodes (rw (below, h, entered) refl))
        ]
    pack-collect above (folder name false nodes) h =
        let below = is_reached-append [] above name in
        let v = unreadable (above ++ name ∷ []) in
        elim (Bool-cases (is_pruned matches patterns above name)) [
          | inl pruned ↦ rw pruned (sym (ap collect (keep_out v (rw (below, h, pruned) refl))))
          | inr entered ↦ rw entered (sym (ap collect (keep_in v (rw (below, h, entered) refl))))
        ]

    pack_all-collect :
        (above : List Text) (nodes : Nodes)
        → is_reached matches patterns [] above ≡ true
        → pack_all matches patterns above nodes
          ≡ collect (keep (is_admitted matches patterns) (visits_all above nodes))
    pack_all-collect above nil h = refl
    pack_all-collect above (cons node nodes) h =
        let kept =
          keep-append (is_admitted matches patterns) (visits above node) (visits_all above nodes) in
        rw (pack-collect above node h, pack_all-collect above nodes h)
          (sym (
            ap collect kept
            ∙ collect-append (keep (is_admitted matches patterns) (visits above node))
                (keep (is_admitted matches patterns) (visits_all above nodes))))

-- For every .gitignore, and for every way to match its patterns: an upload holds what a walk over the
-- whole directory finds and the tests admit, in the order of the walk. A file is admitted if its own
-- name is not junk and no directory on the way to it is pruned. A failure to read stops the upload
-- where it is admitted, and nowhere else.
pub create_tarball-collect :
    (trim_space : Text → Text) (matches : Text → Text → Bool) (gitignore : Option (List Text))
    (nodes : Nodes)
    → create_tarball trim_space matches (directory true nodes) gitignore
      ≡ collect
          (keep (is_admitted matches (parse_gitignore trim_space gitignore)) (visits_all [] nodes))
unfolding create_tarball is_reached
create_tarball-collect trim_space matches gitignore nodes =
    pack_all-collect matches (parse_gitignore trim_space gitignore) [] nodes refl
