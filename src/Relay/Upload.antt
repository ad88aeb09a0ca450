-- ===== src/Relay/Upload.antt =====
-- internal/client/promote.go and internal/server/deploy.go: an upload is unpacked as it was packed.
use nnel.Base.{
  ◌≡◌, refl, inl, inr, Bool, true, false, ◌&&◌, Bool-cases, Option, none, some, ℕ, List, [], ◌∷◌,
  ◌++◌, Text, text, All, All-append, has_prefix, join, is_name, Names, clean_path, arith,
}
use nnel.Server.Deploy.Archive.{TarEntry, Write, make_parent, write_file}
use nnel.Client.Packing.{
  Node, file, folder, Nodes, nil, cons, Root, directory, is_junk, is_pruned, rel_of, joined,
  pack_file, pack, pack_all,
}

-- What a file system gives: each name is the name of a file in a directory.
unfoldable mutual
  pub has_names : Node → Bool
  has_names (file name mode content) = is_name name
  has_names (folder name readable nodes) = is_name name && all_have_names nodes

  pub all_have_names : Nodes → Bool
  all_have_names nil = true
  all_have_names (cons node nodes) = has_names node && all_have_names nodes

abbrev pub IsNamedRoot : Root → Type 0
IsNamedRoot (directory readable nodes) = all_have_names nodes ≡ true
IsNamedRoot root = Unit

-- A file that was packed: its name is a relative path of names.
abbrev pub IsPacked : TarEntry → Type 0
IsPacked e =
    (e.is_dir ≡ false)
    × ((part : Text) × (parts : List Text) × Names (part ∷ parts)
        × (e.name ≡ join b'/' (part ∷ parts)))

abbrev ArePacked : Option (List TarEntry) → Type 0
ArePacked none = Unit
ArePacked (some es) = All IsPacked es

ArePacked-joined :
    (x y : Option (List TarEntry)) → ArePacked x → ArePacked y → ArePacked (joined x y)
ArePacked-joined none y h k = tt
ArePacked-joined (some xs) none h k = tt
ArePacked-joined (some xs) (some ys) h k = All-append IsPacked xs ys h k

relative :
    (above : List Text) (name : Text)
    → Names above
    → is_name name ≡ true
    → (part : Text) × (parts : List Text) × Names (part ∷ parts)
      × (rel_of above name ≡ join b'/' (part ∷ parts))
relative [] name h k = (name, [], (k, tt), refl)
relative (first ∷ above) name (here, h) k = (
  first,
  above ++ name ∷ [],
  (here, All-append (λ part. is_name part ≡ true) above (name ∷ []) h (k, tt)),
  refl,
)

ArePacked-pack_file :
    (above : List Text) (name : Text) (mode : ℕ) (content : Option Text)
    → Names above
    → is_name name ≡ true
    → ArePacked (pack_file above name mode content)
ArePacked-pack_file above name mode none h k = tt
ArePacked-pack_file above name mode (some content) h k = ((refl, relative above name h k), tt)

module _ (matches : Text → Text → Bool) (patterns : List Text) where
  mutual
    unfolding pack has_names

    ArePacked-pack :
        (above : List Text) (node : Node)
        → Names above
        → has_names node ≡ true
        → ArePacked (pack matches patterns above node)
    ArePacked-pack above (file name mode content) h k = elim (Bool-cases (is_junk name)) [
      | inl junk ↦ rw junk tt
      | inr kept ↦ rw kept (ArePacked-pack_file above name mode content h k)
    ]
    ArePacked-pack above (folder name readable nodes) h k =
        let named : is_name name ≡ true = ground arith in
        let inside : all_have_names nodes ≡ true = ground arith in
        let inner =
          ArePacked-pack_all (above ++ name ∷ []) nodes
            (All-append (λ part. is_name part ≡ true) above (name ∷ []) h (named, tt)) inside in
        elim (Bool-cases (is_pruned matches patterns above name)) [
          | inl pruned ↦ rw pruned tt
          | inr entered ↦
              rw entered (elim (Bool-cases readable) [
                | inl fine ↦ rw fine inner
                | inr failed ↦ rw failed tt
              ])
        ]

    ArePacked-pack_all :
        (above : List Text) (nodes : Nodes)
        → Names above
        → all_have_names nodes ≡ true
        → ArePacked (pack_all matches patterns above nodes)
    ArePacked-pack_all above nil h k = tt
    ArePacked-pack_all above (cons node nodes) h k =
        ArePacked-joined (pack matches patterns above node) (pack_all matches patterns above nodes)
          (ArePacked-pack above node h (ground arith))
          (ArePacked-pack_all above nodes h (ground arith))

-- Where a file is unpacked: its relative path, below the directory.
abbrev pub below : Text → Text → Text
below dir name = clean_path dir ++ b'/' ∷ name

-- The test by which the server takes an entry for one that leaves the directory.
abbrev pub HasNoDots : TarEntry → Type 0
HasNoDots e = has_prefix e.name (text "..") ≡ false

abbrev pub unpacked : Text → List TarEntry → List Write
unpacked dir [] = []
unpacked dir (e ∷ es) =
    make_parent (below dir e.name)
    ∷ write_file (below dir e.name) e.mode e.content
    ∷ unpacked dir es

-- A file system on which no write fails.
abbrev pub never_fails : List Write → Write → Bool
never_fails done w = true
