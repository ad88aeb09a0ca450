-- ===== src/Server/Deploy/Archive.antt =====
-- internal/server/deploy.go, extractTarball. Packages compress/gzip and archive/tar enter as what they
-- give: whether the stream is a gzip stream, the entries, and whether they end without an error. The
-- file system enters as a function that says, after the writes that were tried, whether a write works.
pub mod Laws
use nnel.Base.{
  ℕ, Bool, true, false, ◌||◌, Option, none, some, List, [], ◌∷◌, ◌++◌, Text, text, if◌then◌else◌,
  has_prefix, is_abs, clean_path, join_path,
}

pub record TarEntry : Type 0 where
  pub name : Text
  pub is_dir : Bool
  pub mode : ℕ
  pub content : Text

pub record Tarball : Type 0 where
  pub is_gzip : Bool
  pub entries : List TarEntry
  pub ends_well : Bool

pub data Write : Type 0 where
  -- MkdirAll
  make_dir : Text → Write
  -- MkdirAll of the parent directory
  make_parent : Text → Write
  -- OpenFile, which creates or truncates the file, and the copy into it
  write_file : Text → ℕ → Text → Write

-- Where an entry is written, if it is.
unfoldable pub entry_target : Text → Text → Option Text
entry_target dir name =
    let clean = clean_path name in
    let target = join_path dir clean in
    if is_abs clean || has_prefix clean (text "..")
    then none
    else if has_prefix target (clean_path dir ++ b'/' ∷ [])
    then some target
    else none

abbrev pub writes_of : TarEntry → Text → List Write
writes_of e target =
    if e.is_dir
    then make_dir target ∷ []
    else make_parent target ∷ write_file target e.mode e.content ∷ []

module _ (works : List Write → Write → Bool) where
  -- The writes that were tried, in their order, and whether none failed, which ends the unpacking.
  unfoldable pub attempt : List Write → List Write → List Write × Bool
  attempt [] done = (done, true)
  attempt (w ∷ ws) done =
      if works done w then attempt ws (done ++ w ∷ []) else (done ++ w ∷ [], false)

  abbrev pub next_entry : List Write × Bool → (List Write → List Write × Bool) → List Write × Bool
  next_entry (done, false) rest = (done, false)
  next_entry (done, true) rest = rest done

  unfoldable pub extract_entries : Text → List TarEntry → Bool → List Write → List Write × Bool
  unfolding entry_target attempt
  extract_entries dir [] ends_well done = (done, ends_well)
  extract_entries dir (e ∷ es) ends_well done = elim (entry_target dir e.name) [
    | none ↦ extract_entries dir es ends_well done
    | some target ↦
        next_entry (attempt (writes_of e target) done) (extract_entries dir es ends_well)
  ]

  unfoldable pub extract_tarball : Text → Tarball → List Write × Bool
  unfolding extract_entries
  extract_tarball dir tarball =
      if tarball.is_gzip
      then extract_entries dir tarball.entries tarball.ends_well []
      else ([], false)
