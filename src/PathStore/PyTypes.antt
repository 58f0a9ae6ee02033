-- ===== src/PathStore/PyTypes.antt =====
-- `PyTypesPathStore` of modules/pytagsfs/pathstore/pytypes.py.
pub mod Validity
pub mod Readers
pub mod FileStack
use pytagsfs.Base.{
  ℕ, ◌++◌, Bool, true, false, not, ◌&&◌, ◌==◌, Option, none, some, List, [], ◌∷◌, Text, lookup,
  Exec, Proc, Result, ok, err, raise, pure, gets, zoom, catch, is_path_not_found, Exc, value_error,
  assertion_error, path_exists, is_a_directory, not_a_directory, fake_path_not_found,
  real_path_not_found, path_does_not_exist_in_path_mapping, directory_not_empty, not_an_end_point,
  is_empty, starts_with, ◌>>=◌, ◌>>◌, list_eq, nat_eq, if◌then◌else◌, get_elem?, set, insert,
  is_none, index_error, no_meta_data_exists,
}
use pytagsfs.Util.Paths.{root, sep, path_split, ends_with_sep}
use pytagsfs.PathStore.Mapping
use pytagsfs.PathStore.Mapping.{PathMapping}
use pytagsfs.PathStore.Entries
use pytagsfs.PathStore.Entries.{Entry, EntryStore}

-- The attribute `meta_data` of the object is never used: meta-data is kept on the entries.
pub record PathStore {ℓ} (M : Type ℓ) : Type ℓ where
  pub path_mapping : PathMapping
  pub entries : EntryStore M

-- [p for p in real_paths if p.startswith(real_path)]
with_prefix : Text → List Text → List Text
with_prefix prefix [] = []
with_prefix prefix (p ∷ ps) =
    let rest = with_prefix prefix ps in if starts_with p prefix then p ∷ rest else rest

-- isinstance(e, PathDoesNotExistInPathMapping)
pub is_missing_mapping : Exc → Bool
is_missing_mapping path_does_not_exist_in_path_mapping = true
is_missing_mapping _ = false

module _ {ℓ} {M : Type ℓ} where
  abbrev pub empty : PathStore M
  empty = record { path_mapping = Mapping.empty; entries = Entries.new_store }

  -- self.path_mapping.m() and self.entries.m()
  abbrev pub on_mapping {κ} : {A : Type κ} → Exec PathMapping A → Exec (PathStore M) A
  on_mapping = zoom (λ s. s.path_mapping) (λ p s. record s { path_mapping = p })

  abbrev pub on_entries {κ} : {A : Type κ} → Exec (EntryStore M) A → Exec (PathStore M) A
  on_entries = zoom (λ s. s.entries) (λ e s. record s { entries = e })

  unfoldable pub is_file : PathStore M → Text → Bool
  is_file s fake_path = elim (Mapping.real_path_at fake_path s.path_mapping) [
    | none ↦ false
    | some _ ↦ true
  ]

  unfoldable pub is_dir : PathStore M → Text → Bool
  is_dir s fake_path = elim (lookup fake_path s.entries) [ none ↦ false | some _ ↦ true ]

  unfoldable pub is_empty_dir : PathStore M → Text → Bool
  is_empty_dir s fake_path = elim (lookup fake_path s.entries) [
    | none ↦ false
    | some es ↦ is_empty es
  ]

  unfoldable pub is_path : PathStore M → Text → Bool
  unfolding is_file is_dir
  is_path s fake_path = if is_file s fake_path then true else is_dir s fake_path

  -- if test: raise …
  abbrev pub refuse : (PathStore M → Bool) → Exc → Proc (PathStore M)
  refuse test c s = if test s then raise c s else pure tt s

  unfoldable pub must_exist : Text → Proc (PathStore M)
  unfolding is_path
  must_exist p = refuse (λ s. not (is_path s p)) fake_path_not_found

  unfoldable pub must_not_exist : Text → Proc (PathStore M)
  unfolding is_path
  must_not_exist p = refuse (λ s. is_path s p) path_exists

  unfoldable pub must_be_dir : Text → Proc (PathStore M)
  unfolding must_exist is_dir
  must_be_dir p = do must_exist p; refuse (λ s. not (is_dir s p)) not_a_directory

  unfoldable pub must_be_empty_directory : Text → Proc (PathStore M)
  unfolding must_exist is_empty_dir is_file
  must_be_empty_directory p = do
    must_exist p
    λ s.
        if is_empty_dir s p
        then pure tt s
        else if is_file s p
        then raise not_a_directory s
        else raise not_an_end_point s

  unfoldable pub must_be_end_point : Text → Proc (PathStore M)
  unfolding must_exist is_empty_dir is_file
  must_be_end_point p = do
    must_exist p
    λ s.
        if is_file s p
        then pure tt s
        else if is_empty_dir s p
        then pure tt s
        else raise not_an_end_point s

  unfoldable pub assert_not_root : Text → Proc (PathStore M)
  assert_not_root p = refuse (λ _. p == root) assertion_error

  unfoldable pub get_real_path : Text → Exec (PathStore M) Text
  unfolding is_dir
  get_real_path fake_path s = elim (Mapping.real_path_at fake_path s.path_mapping) [
    | some p ↦ pure p s
    | none ↦ if is_dir s fake_path then raise is_a_directory s else raise fake_path_not_found s
  ]

  unfoldable pub get_fake_paths : Text → Exec (PathStore M) (List Text)
  unfolding Mapping.get_fake_paths is_missing_mapping
  get_fake_paths real_path =
      catch is_missing_mapping (raise real_path_not_found)
        (on_mapping (Mapping.get_fake_paths real_path))

  unfoldable pub get_real_subpaths : Text → Exec (PathStore M) (List Text)
  unfolding with_prefix ends_with_sep
  get_real_subpaths real_path =
      if ends_with_sep real_path
      then raise value_error
      else gets (λ s. with_prefix (real_path ++ sep ∷ []) (Mapping.get_reverse_keys s.path_mapping))

  unfoldable pub get_entries : Text → Exec (PathStore M) (List Text)
  unfolding must_be_dir
  get_entries p = do must_be_dir p; on_entries (Entries.get_entries p)

  -- `real_path == self.get_real_path(fake_path)` raises ValueError; PathNotFound is passed over.
  unfoldable pub refuse_duplicate : Text → Text → Proc (PathStore M)
  unfolding get_real_path
  refuse_duplicate fake_path real_path =
      catch is_path_not_found (pure tt)
        (do p ← get_real_path fake_path; if real_path == p then raise value_error else pure tt)

  unfoldable pub add_file : Text → Text → Proc (PathStore M)
  add_file fake_path real_path = do
    refuse (λ s. is_dir s fake_path) path_exists
    refuse_duplicate fake_path real_path
    on_mapping (Mapping.add_real_path fake_path real_path)
    on_entries (Entries.add_entries_and_directories_recursive fake_path)

  unfoldable pub add_directory : Text → Proc (PathStore M)
  unfolding must_not_exist
  add_directory fake_path = do
    must_not_exist fake_path
    on_entries (Entries.add_entries_and_directories_recursive fake_path)
    on_entries (Entries.add_directory fake_path)

  unfoldable pub remove_file : Text → Option Text → Proc (PathStore M)
  remove_file fake_path real_path = do
    on_mapping (Mapping.remove_real_path fake_path real_path)
    on_entries (Entries.remove_entries_and_directories_recursive fake_path)

  -- `_remove_directory`
  unfoldable pub remove_empty_directory : Text → Proc (PathStore M)
  unfolding assert_not_root must_be_empty_directory
  remove_empty_directory fake_path = do
    assert_not_root fake_path
    must_be_empty_directory fake_path
    on_entries (Entries.remove_directory fake_path)
    on_entries (Entries.remove_entries_and_directories_recursive fake_path)

  unfoldable pub remove : Text → Option Text → Proc (PathStore M)
  remove fake_path real_path s =
      if is_dir s fake_path
      then (if not (is_none real_path)
          then raise is_a_directory s
          else if is_empty_dir s fake_path
          then remove_empty_directory fake_path s
          else raise directory_not_empty s)
      else if is_file s fake_path
      then remove_file fake_path real_path s
      else raise fake_path_not_found s

  unfoldable pub verify_rename : Text → Text → Proc (PathStore M)
  unfolding ends_with_sep
  verify_rename old new = do
    refuse (λ _. old == new) value_error
    refuse (λ _. ends_with_sep old) value_error
    refuse (λ _. ends_with_sep new) value_error

  unfoldable pub rename_file : Text → Text → Proc (PathStore M)
  unfolding get_real_path verify_rename remove_file add_file
  rename_file old new = do
    real_path ← get_real_path old
    verify_rename old new
    if (path_split old).0 == (path_split new).0
        then (do
          on_entries
              (Entries.replace_entry (path_split old).0 (path_split old).1 (path_split new).1)
          on_mapping (Mapping.remove_real_path old (some real_path))
          on_mapping (Mapping.add_real_path new real_path))
        else (do remove_file old (some real_path); add_file new real_path)

  unfoldable pub rename_directory : Text → Text → Proc (PathStore M)
  unfolding must_be_empty_directory assert_not_root verify_rename remove_empty_directory
      add_directory
  rename_directory old new = do
    must_be_empty_directory old
    assert_not_root old
    assert_not_root new
    verify_rename old new
    es ← on_entries (Entries.get_all_entries old)
    if (path_split old).0 == (path_split new).0
        then (do
          on_entries (Entries.remove_directory old)
          on_entries
              (Entries.replace_entry (path_split old).0 (path_split old).1 (path_split new).1)
          on_entries (Entries.add_directory new))
        else (do remove_empty_directory old; add_directory new)
    on_entries (Entries.add_entries new es)

  unfoldable pub rename : Text → Text → Proc (PathStore M)
  unfolding is_dir is_file rename_directory rename_file
  rename old new s =
      if is_dir s old
      then rename_directory old new s
      else if is_file s old
      then rename_file old new s
      else raise fake_path_not_found s

  -- The entry object that `get_entry` finds, by its place.
  unfoldable pub entry_at : Text × ℕ → Exec (EntryStore M) (Entry M)
  entry_at (directory, index) s = elim (lookup directory s) [
    | none ↦ raise index_error s
    | some es ↦ elim (get_elem? es index) [ none ↦ raise index_error s | some e ↦ pure e s ]
  ]

  -- A write to an attribute of that object.
  unfoldable pub write_entry : Text × ℕ → Option M → Proc (EntryStore M)
  unfolding entry_at
  write_entry (directory, index) x = do
    e ← entry_at (directory, index)
    Entries.change_entries directory (λ es. set es index (record e { meta_data = x }))

  unfoldable pub set_meta_data : Text → M → Proc (PathStore M)
  unfolding must_be_end_point write_entry
  set_meta_data p x = do
    must_be_end_point p
    place ← on_entries (Entries.locate_entry_by_fake_path p)
    on_entries (write_entry place (some x))

  unfoldable pub get_meta_data : Text → Exec (PathStore M) M
  unfolding must_be_end_point entry_at
  get_meta_data p = do
    must_be_end_point p
    place ← on_entries (Entries.locate_entry_by_fake_path p)
    e ← on_entries (entry_at place)
    λ s. (Entries.get_meta_data e, s)

  -- `del self.meta_data` of the entry
  unfoldable pub unset_at : Text × ℕ → Option M → Proc (PathStore M)
  unfolding write_entry
  unset_at place none = raise no_meta_data_exists
  unset_at place (some _) = on_entries (write_entry place none)

  unfoldable pub unset_meta_data : Text → Proc (PathStore M)
  unfolding must_be_end_point entry_at unset_at
  unset_meta_data p = do
    must_be_end_point p
    place ← on_entries (Entries.locate_entry_by_fake_path p)
    e ← on_entries (entry_at place)
    unset_at place e.meta_data
