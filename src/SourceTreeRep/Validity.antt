-- ===== src/SourceTreeRep/Validity.antt =====
-- The path store of a source tree representation stays valid, through source files and directories.
pub mod SourceDirs
pub mod Virtual
pub mod Attributes
pub mod Calls
use pytagsfs.Base.{
  ℕ, zero, suc, ◌+◌, Bool, true, false, not, ◌&&◌, ◌==◌, Option, none, some, List, [], ◌∷◌, Text,
  Exec, Proc, Result, ok, err, Exc, arith, pure, raise, gets, no_fuel, is_path_not_found,
  assertion_error, key_error, is_empty, length, list_eq, nat_eq,
}
use pytagsfs.Base.Invariants.{
  Keeps, Keeps-pure, Keeps-raise, Keeps-if, Keeps-if_at, Keeps-catch, Keeps-bind, Keeps-zoom,
}
use pytagsfs.Util.Paths.{root, path_join, path_dirname, starts_with_sep, ends_with_sep}
use pytagsfs.PathPropCache
use pytagsfs.PathPropCache.{PathPropCache}
use pytagsfs.PathStore.PyTypes
use pytagsfs.PathStore.PyTypes.{PathStore}
use pytagsfs.PathStore.PyTypes.Validity.{
  IsValid, add_file-IsValid, remove-IsValid, set_meta_data-IsValid,
}
use pytagsfs.PathStore.PyTypes.Readers.{get_fake_paths-IsValid, get_real_subpaths-IsValid}
use pytagsfs.Values.{iter_permutations}
use pytagsfs.Patterns.Splitting.{Splitter}
use pytagsfs.SourceTreeRep.{
  SourceTreeRep, Cached, on_path_store, outside, refuse, validate_path, on_cache, cache_prune,
  is_key_error, prune_loop, cache_prune_branch_to,
}
use pytagsfs.SourceTreeRep.Filling.{set_splitters, filter_path}
use pytagsfs.SourceTreeRep.SourceFiles.{
  Settings, Place, lift, is_refused_watch, is_missing_watch, get_fake_paths, fake_paths_of,
  remove_fake_paths, remove_found, remove_source_file, find_places, is_watched, add_place,
  add_places, add_found, without_existing, replace_source_file, add_source_file,
  remove_source_files, remove_source_dir, add_source_files,
}
use pytagsfs.SourceTreeRep.SourceDirs.{
  Directory, directory, Directories, no_directories, directory_before, enter_source_dir, one_round,
  add_source_dir, add_source_dirs, walk_on, add_source_path,
}

module _ {ℓ} {W : Type ℓ} where
  -- The path store is valid.
  abbrev pub HasValidStore : SourceTreeRep W → Type 0
  HasValidStore s = IsValid s.path_store

  pub on_path_store-HasValidStore {κ} :
      {A : Type κ} (m : Exec (PathStore (List Splitter)) A)
      → Keeps IsValid m
      → Keeps HasValidStore (on_path_store m)
  on_path_store-HasValidStore m h =
      Keeps-zoom (λ s. s.path_store) (λ p s. record s { path_store = p }) m (λ s v. v)
        (λ s t v r. r) h

  pub outside-HasValidStore {κ} : {A : Type κ} (m : Exec W A) → Keeps HasValidStore (outside m)
  outside-HasValidStore m = record { at = λ s v. v }

  pub lift-HasValidStore {κ} : {A : Type κ} (r : Result A) → Keeps HasValidStore (lift r)
  lift-HasValidStore r = record { at = λ s v. v }

  pub refuse-HasValidStore : (test : Bool) (c : Exc) → Keeps HasValidStore (refuse test c)
  refuse-HasValidStore test c =
      Keeps-if_at (λ _. test) (raise c) (pure tt) (Keeps-raise c) (Keeps-pure tt)

  pub validate_path-HasValidStore : (p : Text) → Keeps HasValidStore (validate_path p)
  unfolding validate_path
  validate_path-HasValidStore p =
      Keeps-bind (refuse (not (starts_with_sep p)) assertion_error) _ (refuse-HasValidStore _ _)
        λ _. refuse-HasValidStore (ends_with_sep p && not (p == root)) assertion_error

  pub on_cache-HasValidStore {κ} :
      {A : Type κ} (without : Exec (SourceTreeRep W) A) (m : Exec (PathPropCache Cached) A)
      → Keeps HasValidStore without
      → Keeps HasValidStore (on_cache without m)
  unfolding on_cache
  on_cache-HasValidStore {A = A} without m h = record { at = λ s v. go s.cache s v }
    where
      go :
          (o : Option (PathPropCache Cached)) (s : SourceTreeRep W)
          → HasValidStore s
          → HasValidStore
              (elim o as (λ _. Result A × SourceTreeRep W) [
                | none ↦ without s
                | some d ↦ ((m d).0, record s { cache = some (m d).1 })
              ]).1
      go none s v = h.at s v
      go (some d) s v = v

  prune_loop-HasValidStore :
      (fuel : ℕ) (p : Text) (key : Option Text) → Keeps HasValidStore (prune_loop fuel p key)
  unfolding prune_loop cache_prune
  prune_loop-HasValidStore zero p key = Keeps-raise no_fuel
  prune_loop-HasValidStore (suc fuel) p key =
      Keeps-bind _ _
        (Keeps-catch is_key_error (pure tt) _ (Keeps-pure tt)
          (on_cache-HasValidStore _ (PathPropCache.prune (some p) key) (Keeps-raise key_error)))
        λ _.
          Keeps-if (p == root) (pure tt) _ (Keeps-pure tt)
            (prune_loop-HasValidStore fuel (path_dirname p) key)

  pub prune_branch-HasValidStore :
      (p : Text) (key : Option Text) → Keeps HasValidStore (cache_prune_branch_to p key)
  unfolding cache_prune_branch_to
  prune_branch-HasValidStore p key = prune_loop-HasValidStore (length p + 1) p key

module _ {ℓ} {W : Type ℓ} (settings : Settings W) where
  get_fake_paths-HasValidStore : (r : Text) → Keeps HasValidStore (get_fake_paths settings r)
  unfolding get_fake_paths
  get_fake_paths-HasValidStore r =
      Keeps-bind (validate_path r) _ (validate_path-HasValidStore r)
        λ _. on_path_store-HasValidStore _ (get_fake_paths-IsValid r)

  fake_paths_of-HasValidStore : (r : Text) → Keeps HasValidStore (fake_paths_of settings r)
  unfolding fake_paths_of
  fake_paths_of-HasValidStore r = Keeps-catch is_path_not_found (pure none) _ (Keeps-pure none) (
      Keeps-bind (get_fake_paths settings r) _ (get_fake_paths-HasValidStore r)
        λ l. Keeps-pure (some l))

  remove_fake_paths-HasValidStore :
      (r : Text) (l : List Text) → Keeps HasValidStore (remove_fake_paths settings r l)
  unfolding remove_fake_paths
  remove_fake_paths-HasValidStore r [] = Keeps-pure tt
  remove_fake_paths-HasValidStore r (f ∷ l) =
      Keeps-bind _ _
        (Keeps-catch is_path_not_found (pure tt) _ (Keeps-pure tt)
          (on_path_store-HasValidStore _ (remove-IsValid f (some r))))
        λ _.
          Keeps-bind (cache_prune_branch_to f none) _ (prune_branch-HasValidStore f none)
            λ _. remove_fake_paths-HasValidStore r l

  remove_found-HasValidStore :
      (r : Text) (o : Option (List Text)) → Keeps HasValidStore (remove_found settings r o)
  remove_found-HasValidStore r none = Keeps-pure tt
  remove_found-HasValidStore r (some l) =
      Keeps-bind (remove_fake_paths settings r l) _ (remove_fake_paths-HasValidStore r l)
        λ _. Keeps-catch is_missing_watch (pure tt) _ (Keeps-pure tt) (outside-HasValidStore _)

  pub remove_source_file-HasValidStore :
      (r : Text) → Keeps HasValidStore (remove_source_file settings r)
  unfolding remove_source_file
  remove_source_file-HasValidStore r =
      Keeps-bind (fake_paths_of settings r) _ (fake_paths_of-HasValidStore r)
        λ o. remove_found-HasValidStore r o

  is_watched-HasValidStore : (r : Text) → Keeps HasValidStore (is_watched settings r)
  unfolding is_watched
  is_watched-HasValidStore r = Keeps-catch is_refused_watch (pure false) _ (Keeps-pure false) (
      Keeps-bind (outside (settings.objects.monitor_add_source_file r)) _ (outside-HasValidStore _)
        λ _. Keeps-pure true)

  add_place-HasValidStore :
      (r : Text) (place : Place) → Keeps HasValidStore (add_place settings r place)
  unfolding add_place
  add_place-HasValidStore r (f, splitters) =
      Keeps-bind _ _ (on_path_store-HasValidStore _ (add_file-IsValid f r)) λ _.
        Keeps-bind _ _ (on_path_store-HasValidStore _ (set_meta_data-IsValid f splitters))
          λ _. prune_branch-HasValidStore f none

  add_places-HasValidStore :
      (r : Text) (places : List Place) → Keeps HasValidStore (add_places settings r places)
  unfolding add_places
  add_places-HasValidStore r [] = Keeps-pure tt
  add_places-HasValidStore r (place ∷ places) =
      Keeps-bind _ _ (lift-HasValidStore (settings.relative_path r)) λ relative.
        Keeps-if (not (filter_path settings.search settings.filters relative place.0)) _ _
          (Keeps-pure tt)
          (Keeps-bind (is_watched settings r) _ (is_watched-HasValidStore r) λ watched.
            Keeps-if watched _ _
              (Keeps-bind (add_place settings r place) _ (add_place-HasValidStore r place)
                λ _. add_places-HasValidStore r places)
              (Keeps-pure tt))

  add_found-HasValidStore :
      (r : Text) (o : Option (List Place)) → Keeps HasValidStore (add_found settings r o)
  add_found-HasValidStore r none = Keeps-pure tt
  add_found-HasValidStore r (some places) =
      Keeps-bind (fake_paths_of settings r) _ (fake_paths_of-HasValidStore r)
        λ existing. add_places-HasValidStore r _

  replace_source_file-HasValidStore :
      (r : Text) → Keeps HasValidStore (replace_source_file settings r)
  unfolding replace_source_file
  replace_source_file-HasValidStore r =
      Keeps-bind _ _
        (Keeps-catch is_path_not_found (pure tt) _ (Keeps-pure tt)
          (remove_source_file-HasValidStore r))
        λ _. Keeps-bind _ _ (outside-HasValidStore _) λ values.
          Keeps-bind _ _ (lift-HasValidStore (find_places settings [] (iter_permutations values)))
            λ found. add_found-HasValidStore r found

  pub add_source_file-HasValidStore : (r : Text) → Keeps HasValidStore (add_source_file settings r)
  unfolding add_source_file
  add_source_file-HasValidStore r =
      Keeps-bind _ _ (outside-HasValidStore (settings.objects.isreadable r)) λ readable.
        Keeps-if (not readable) _ _ (Keeps-pure tt) (
          Keeps-bind _ _ (outside-HasValidStore (settings.objects.issymlink r))
            λ symlink. Keeps-if symlink _ _ (Keeps-pure tt) (replace_source_file-HasValidStore r))
