-- ===== src/Client/Packing.antt =====
-- internal/client/promote.go, createTarball, parseGitignore and isGitignored. A directory is what
-- WalkDir finds below it, in its order; packages filepath (Match), bufio (the lines of .gitignore),
-- archive/tar and compress/gzip enter as what they give. The path of a file relative to the directory
-- is the names on the way to it.
pub mod Laws
use nnel.Base.{
  ℕ, Bool, true, false, not, ◌&&◌, ◌||◌, Option, none, some, List, [], ◌∷◌, ◌++◌, Text, text,
  text_eq, ◌==◌, if◌then◌else◌, any, has_prefix, has_suffix, join,
}
use nnel.Server.Deploy.Archive.{TarEntry}

mutual
  pub data Node : Type 0 where
    -- A file with its mode and, if nothing fails from Info to Copy, its content.
    file : Text → ℕ → Option Text → Node
    -- A directory, and whether its entries can be read.
    folder : Text → Bool → Nodes → Node

  pub data Nodes : Type 0 where
    nil : Nodes
    cons : Node → Nodes → Nodes

pub data Root : Type 0 where
  missing : Root
  -- A file, or a symbolic link, for which the walk stops at once.
  no_directory : Root
  directory : Bool → Nodes → Root

-- Package strings' TrimSpace.
module _ (trim_space : Text → Text) where
  unfoldable pub patterns_of : List Text → List Text
  patterns_of [] = []
  patterns_of (next ∷ lines) =
      let line = trim_space next in
      let rest = patterns_of lines in
      if line == [] || has_prefix line (text "#") then rest else line ∷ rest

  -- A .gitignore that cannot be opened has no patterns.
  abbrev pub parse_gitignore : Option (List Text) → List Text
  parse_gitignore none = []
  parse_gitignore (some lines) = patterns_of lines

abbrev pub is_junk : Text → Bool
is_junk base = base == text ".DS_Store" || has_suffix base (text ".pyc")

abbrev pub skip_dirs : List Text
skip_dirs =
    text ".git"
    ∷ text "node_modules"
    ∷ text "__pycache__"
    ∷ text ".venv"
    ∷ text "venv"
    ∷ text "dist"
    ∷ text "build"
    ∷ text ".next"
    ∷ text ".nuxt"
    ∷ text "coverage"
    ∷ text ".turbo"
    ∷ []

abbrev pub rel_of : List Text → Text → Text
rel_of above name = join b'/' (above ++ name ∷ [])

abbrev pub joined {ℓ} : {A : Type ℓ} → Option (List A) → Option (List A) → Option (List A)
joined none rest = none
joined (some xs) none = none
joined (some xs) (some ys) = some (xs ++ ys)

abbrev pub pack_file : List Text → Text → ℕ → Option Text → Option (List TarEntry)
pack_file above name mode none = none
pack_file above name mode (some content) =
    some (record { name = rel_of above name; is_dir = false; mode = mode; content = content } ∷ [])

module _ (matches : Text → Text → Bool) where
  abbrev pub is_gitignored : Text → Text → List Text → Bool
  is_gitignored rel base patterns = any (λ p. matches p base || matches p rel) patterns

  module _ (patterns : List Text) where
    -- A directory that the walk does not enter. The test for junk comes first, and lets it enter.
    unfoldable pub is_pruned : List Text → Text → Bool
    is_pruned above name =
        not (is_junk name)
        && (any (λ skipped. skipped == name) skip_dirs
            || is_gitignored (rel_of above name) name patterns)

    -- The entries for what a directory holds, with the names above it, or an error.
    unfoldable mutual
      unfolding is_pruned

      pub pack : List Text → Node → Option (List TarEntry)
      pack above (file name mode content) =
          if is_junk name then some [] else pack_file above name mode content
      pack above (folder name readable nodes) =
          let inner = pack_all (above ++ name ∷ []) nodes in
          if is_pruned above name then some [] else if readable then inner else none

      pub pack_all : List Text → Nodes → Option (List TarEntry)
      pack_all above nil = some []
      pack_all above (cons node nodes) = joined (pack above node) (pack_all above nodes)

module _ (trim_space : Text → Text) (matches : Text → Text → Bool) where
  unfoldable pub create_tarball : Root → Option (List Text) → Option (List TarEntry)
  unfolding pack
  create_tarball missing gitignore = none
  create_tarball no_directory gitignore = some []
  create_tarball (directory false nodes) gitignore = none
  create_tarball (directory true nodes) gitignore =
      pack_all matches (parse_gitignore trim_space gitignore) [] nodes
