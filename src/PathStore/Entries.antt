-- ===== src/PathStore/Entries.antt =====
-- `Entry` and `EntryStore` of modules/pytagsfs/pathstore/pytypes.py, over the type of the stored
-- meta-data. The lists of entries are private to the dict.
pub mod Ancestors
pub mod Undo
pub mod Restore
pub mod Rooted
use pytagsfs.Base.{
  ℕ, zero, suc, ◌+◌, ◌-◌, Bool, true, false, not, ◌&&◌, ◌==◌, Option, none, some, List, [], ◌∷◌,
  ◌++◌, map, reverse, Text, Dict, lookup, insert, erase, Exec, Proc, Result, ok, err, raise, pure,
  modify, zoom, catch, Exc, key_error, value_error, no_meta_data_exists, directory_already_exists,
  directory_does_not_exist, index_of, is_empty, get_elem?, set, delete_at, length, ◌>>=◌, ◌>>◌,
  list_eq, nat_eq, if◌then◌else◌,
}
use pytagsfs.Util.Paths.{root, path_split, ends_with_sep}
use pytagsfs.Util.Unique.{last_unique}

-- A subclass of `unicode` that may carry meta-data: it compares as its text.
pub record Entry {ℓ} (M : Type ℓ) : Type ℓ where
  pub name : Text
  pub meta_data : Option M

module _ {ℓ} {M : Type ℓ} where
  abbrev pub new_entry : Text → Entry M
  new_entry name = record { name = name; meta_data = none }

  abbrev pub names : List (Entry M) → List Text
  names [] = []
  names (e ∷ es) = e.name ∷ names es

  unfoldable pub get_meta_data : Entry M → Result M
  get_meta_data e = elim e.meta_data [ none ↦ err no_meta_data_exists | some x ↦ ok x ]

-- The `while` loop of `iter_directories_and_entries_recursive_reversed`: the pairs of a directory
-- and an entry on the way up. Each round takes a character off the path.
unfoldable pub ancestors_loop : ℕ → Text → List (Text × Text)
ancestors_loop zero fake_path = []
ancestors_loop (suc fuel) fake_path = elim (path_split fake_path).1 [
  | [] ↦ []
  | c ∷ entry ↦ ((path_split fake_path).0, c ∷ entry) ∷ ancestors_loop fuel (path_split fake_path).0
]

unfoldable pub ancestors : Text → List (Text × Text)
unfolding ancestors_loop path_split
ancestors fake_path = ancestors_loop (length fake_path) fake_path

abbrev pub EntryStore {ℓ} : Type ℓ → Type ℓ
EntryStore M = Dict Text (List (Entry M))

module _ {ℓ} {M : Type ℓ} where
  unfoldable pub add_directory : Text → Proc (EntryStore M)
  add_directory directory s = elim (lookup directory s) [
    | none ↦ pure tt (insert directory [] s)
    | some _ ↦ raise directory_already_exists s
  ]

  abbrev pub new_store : EntryStore M
  new_store = (root, []) ∷ []

  unfoldable pub remove_directory : Text → Proc (EntryStore M)
  remove_directory directory s =
      if directory == root then raise value_error s else elim (lookup directory s) [
        | none ↦ raise key_error s
        | some _ ↦ pure tt (erase directory s)
      ]

  unfoldable pub get_all_entries : Text → Exec (EntryStore M) (List (Entry M))
  get_all_entries directory s = elim (lookup directory s) [
    | none ↦ raise directory_does_not_exist s
    | some es ↦ pure es s
  ]

  unfoldable pub add_entry : Text → Entry M → Proc (EntryStore M)
  add_entry directory entry s = elim (lookup directory s) [
    | none ↦ raise directory_does_not_exist s
    | some es ↦ pure tt (insert directory (es ++ entry ∷ []) s)
  ]

  unfoldable pub add_entries : Text → List (Entry M) → Proc (EntryStore M)
  unfolding add_entry
  add_entries directory [] = pure tt
  add_entries directory (e ∷ es) = do add_entry directory e; add_entries directory es

  -- The position of the last entry of a name. `index` raises ValueError where there is none, and
  -- the code catches IndexError, so the ValueError goes on to the caller.
  unfoldable pub last_index : Text → List (Entry M) → Result ℕ
  last_index entry es = elim (index_of entry (reverse (names es))) [
    | none ↦ err value_error
    | some reverse_index ↦ ok (length es - reverse_index - 1)
  ]

  unfoldable pub locate_entry : Text → Text → Exec (EntryStore M) ℕ
  unfolding get_all_entries
  locate_entry directory entry = do es ← get_all_entries directory; λ s. (last_index entry es, s)

  -- self.entries[directory] = f(self.entries[directory])
  abbrev pub change_entries : Text → (List (Entry M) → List (Entry M)) → Proc (EntryStore M)
  change_entries directory f s = elim (lookup directory s) [
    | none ↦ raise key_error s
    | some es ↦ pure tt (insert directory (f es) s)
  ]

  unfoldable pub remove_entry : Text → Text → Proc (EntryStore M)
  unfolding locate_entry
  remove_entry directory entry = do
    index ← locate_entry directory entry
    change_entries directory (λ es. delete_at es index)

  unfoldable pub replace_entry : Text → Text → Text → Proc (EntryStore M)
  unfolding locate_entry
  replace_entry directory entry name = do
    index ← locate_entry directory entry
    change_entries directory (λ es. set es index (new_entry name))

  -- The names that `get_entries` shows.
  unfoldable pub get_entries : Text → Exec (EntryStore M) (List Text)
  unfolding get_all_entries last_unique
  get_entries directory = do es ← get_all_entries directory; pure (last_unique (names es))

  unfoldable pub locate_entry_by_fake_path : Text → Exec (EntryStore M) (Text × ℕ)
  unfolding locate_entry path_split ends_with_sep
  locate_entry_by_fake_path fake_path = if ends_with_sep fake_path then raise value_error else do
    index ← locate_entry (path_split fake_path).0 (path_split fake_path).1
    pure ((path_split fake_path).0, index)

  unfoldable pub remove_entries_loop : List (Text × Text) → Proc (EntryStore M)
  remove_entries_loop [] = pure tt
  remove_entries_loop ((directory, entry) ∷ rest) = do
    remove_entry directory entry
    remove_entries_loop rest

  -- One round of the second loop: an empty directory goes, but for the root.
  unfoldable pub remove_if_empty : Text → Proc (EntryStore M)
  unfolding get_all_entries remove_directory
  remove_if_empty directory = do
    es ← get_all_entries directory
    if is_empty es && not (directory == root) then remove_directory directory else pure tt

  unfoldable pub remove_directories_loop : List (Text × Text) → Proc (EntryStore M)
  remove_directories_loop [] = pure tt
  remove_directories_loop ((directory, _) ∷ rest) = do
    remove_if_empty directory
    remove_directories_loop rest

  unfoldable pub remove_entries_and_directories_recursive : Text → Proc (EntryStore M)
  unfolding remove_entries_loop remove_entry remove_directories_loop remove_if_empty ancestors
      ends_with_sep
  remove_entries_and_directories_recursive fake_path =
      if ends_with_sep fake_path then raise value_error else do
        remove_entries_loop (ancestors fake_path)
        remove_directories_loop (reverse (ancestors fake_path))

  -- One round of the loop of `add_entries_and_directories_recursive`, up to `add_entry`: a missing
  -- directory is made, and an empty one is taken out of its parents, which list it once more now.
  unfoldable pub make_room : Text → Proc (EntryStore M)
  unfolding add_directory remove_entries_and_directories_recursive
  make_room fake_path s = elim (lookup fake_path s) [
    | none ↦ add_directory fake_path s
    | some es ↦
        if not (fake_path == root) && is_empty es
        then remove_entries_and_directories_recursive fake_path s
        else pure tt s
  ]

  -- One round of that loop.
  unfoldable pub add_step : Text → Text → Proc (EntryStore M)
  unfolding make_room add_entry
  add_step fake_path entry = do make_room fake_path; add_entry fake_path (new_entry entry)

  unfoldable pub add_loop : List (Text × Text) → Proc (EntryStore M)
  add_loop [] = pure tt
  add_loop ((fake_path, entry) ∷ rest) = do add_step fake_path entry; add_loop rest

  unfoldable pub add_entries_and_directories_recursive : Text → Proc (EntryStore M)
  unfolding add_loop add_step ancestors ends_with_sep
  add_entries_and_directories_recursive fake_path =
      if ends_with_sep fake_path
      then raise value_error
      else add_loop (reverse (ancestors fake_path))
