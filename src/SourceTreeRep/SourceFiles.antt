-- ===== src/SourceTreeRep/SourceFiles.antt =====
-- Source files and source directories of a source tree representation: they are added, removed and
-- updated as the monitor of modules/pytagsfs/sourcetreemon reports them.
use pytagsfs.Base.{
  ◌++◌, Bool, true, false, not, if◌then◌else◌, Option, none, some, List, [], ◌∷◌, Text, Result, ok,
  err, Exc, unrepresentable_path, contains, Exec, Proc, ◌>>=◌, ◌>>◌, pure, catch, is_path_not_found,
  not_a_directory, watch_exists, no_such_watch, source_tree_monitor_error, list_eq, nat_eq, ◌==◌,
}
use pytagsfs.Values.{iter_permutations}
use pytagsfs.Patterns.{Nodes}
use pytagsfs.Patterns.Filling.{CaseMap, Substitutions}
use pytagsfs.Patterns.Splitting.{Re, Splitter}
use pytagsfs.PathStore.PyTypes
use pytagsfs.Util.Paths.{path_join}
use pytagsfs.SourceTreeRep.{
  SourceTreeRep, Outside, on_path_store, outside, validate_source_path, cache_prune_branch_to,
}
use pytagsfs.SourceTreeRep.Filling.{fill_path, filter_path, Filter, create_splitters, set_splitters}

-- What a representation is made with.
pub record Settings {ℓ} (W : Type ℓ) : Type ℓ where
  pub substitution_patterns : List Nodes
  pub filters : List Filter
  pub relative_path : Text → Result Text
  pub case_map : CaseMap
  pub re : Re
  pub search : Text → Text → Bool
  pub objects : Outside W

-- except (PathNotFound, NotADirectory, WatchExistsError), and except SourceTreeMonitorError
abbrev pub is_refused_watch : Exc → Bool
is_refused_watch not_a_directory = true
is_refused_watch watch_exists = true
is_refused_watch source_tree_monitor_error = true
is_refused_watch c = is_path_not_found c

-- except NoSuchWatchError, and except SourceTreeMonitorError
abbrev pub is_missing_watch : Exc → Bool
is_missing_watch no_such_watch = true
is_missing_watch source_tree_monitor_error = true
is_missing_watch _ = false

-- except UnrepresentablePath
unfoldable pub is_unrepresentable : Exc → Bool
is_unrepresentable unrepresentable_path = true
is_unrepresentable _ = false

-- A fake path with its splitters: the lists `fake_paths` and `splitter_groups` side by side.
abbrev pub Place : Type 0
Place = Text × List Splitter

unfoldable pub has_path : Text → List Place → Bool
has_path fake_path [] = false
has_path fake_path ((p, splitters) ∷ places) =
    let rest = has_path fake_path places in if p == fake_path then true else rest

-- A result as the end of a method.
abbrev pub lift {ℓ κ} : {S : Type ℓ} → {A : Type κ} → Result A → Exec S A
lift r s = (r, s)

-- The places whose fake paths the path store does not have yet.
unfoldable pub without_existing : List Text → List Place → List Place
without_existing existing [] = []
without_existing existing ((p, splitters) ∷ places) =
    let rest = without_existing existing places in
    if contains p existing then rest else (p, splitters) ∷ rest

module _ {ℓ} {W : Type ℓ} (settings : Settings W) where
  abbrev objects : Outside W
  objects = settings.objects

  unfoldable pub get_fake_paths : Text → Exec (SourceTreeRep W) (List Text)
  get_fake_paths real_path = do
    validate_source_path real_path
    on_path_store (PyTypes.get_fake_paths real_path)

  -- The answer of `get_fake_paths`, or nothing for PathNotFound.
  unfoldable pub fake_paths_of : Text → Exec (SourceTreeRep W) (Option (List Text))
  unfolding get_fake_paths
  fake_paths_of real_path =
      catch is_path_not_found (pure none)
        (do fake_paths ← get_fake_paths real_path; pure (some fake_paths))

  -- The loop of `remove_source_file`.
  unfoldable pub remove_fake_paths : Text → List Text → Proc (SourceTreeRep W)
  unfolding cache_prune_branch_to
  remove_fake_paths real_path [] = pure tt
  remove_fake_paths real_path (fake_path ∷ fake_paths) = do
    catch is_path_not_found (pure tt) (on_path_store (PyTypes.remove fake_path (some real_path)))
    cache_prune_branch_to fake_path none
    remove_fake_paths real_path fake_paths

  abbrev pub remove_found : Text → Option (List Text) → Proc (SourceTreeRep W)
  remove_found real_path none = pure tt
  remove_found real_path (some fake_paths) = do
    remove_fake_paths real_path fake_paths
    catch is_missing_watch (pure tt) (outside (objects.monitor_remove_source_file real_path))

  unfoldable pub remove_source_file : Text → Proc (SourceTreeRep W)
  unfolding fake_paths_of remove_fake_paths
  remove_source_file real_path = do found ← fake_paths_of real_path; remove_found real_path found

  -- The loop over the permutations: nothing where a path is unrepresentable.
  unfoldable pub find_places : List Place → List Substitutions → Result (Option (List Place))
  unfolding fill_path create_splitters has_path is_unrepresentable
  find_places places [] = ok (some places)
  find_places places (substitutions ∷ rest) =
      elim (fill_path settings.case_map settings.substitution_patterns substitutions) [
        | err c ↦ if is_unrepresentable c then ok none else err c
        | ok fake_path ↦
            if has_path fake_path places
            then find_places places rest
            else (elim (create_splitters settings.re settings.substitution_patterns fake_path
                substitutions) [
                  | err c ↦ err c
                  | ok splitters ↦ find_places (places ++ (fake_path, splitters) ∷ []) rest
                ])
      ]

  -- `try` around the call of the monitor, and whether it returned.
  unfoldable pub is_watched : Text → Exec (SourceTreeRep W) Bool
  is_watched real_path =
      catch is_refused_watch (pure false)
        (do outside (objects.monitor_add_source_file real_path); pure true)

  -- One fake path that passed the filters and whose file is watched.
  unfoldable pub add_place : Text → Place → Proc (SourceTreeRep W)
  unfolding cache_prune_branch_to
  add_place real_path (fake_path, splitters) = do
    on_path_store (PyTypes.add_file fake_path real_path)
    set_splitters fake_path splitters
    cache_prune_branch_to fake_path none

  -- The last loop of `add_source_file`, which a `return` ends.
  unfoldable pub add_places : Text → List Place → Proc (SourceTreeRep W)
  unfolding filter_path is_watched add_place
  add_places real_path [] = pure tt
  add_places real_path (place ∷ places) = do
    relative ← lift (settings.relative_path real_path)
    let rest = add_places real_path places in
        if not (filter_path settings.search settings.filters relative place.0) then pure tt else (do
          watched ← is_watched real_path
          if watched then (do add_place real_path place; rest) else pure tt)

  abbrev pub add_found : Text → Option (List Place) → Proc (SourceTreeRep W)
  add_found real_path none = pure tt
  add_found real_path (some places) = do
    existing ← fake_paths_of real_path
    add_places real_path
        (elim existing [ none ↦ places | some fake_paths ↦ without_existing fake_paths places ])

  -- The part of `add_source_file` behind its two tests of the file.
  unfoldable pub replace_source_file : Text → Proc (SourceTreeRep W)
  unfolding remove_source_file find_places fake_paths_of add_places without_existing
  replace_source_file real_path = do
    catch is_path_not_found (pure tt) (remove_source_file real_path)
    values ← outside (objects.meta_store_get real_path)
    found ← lift (find_places [] (iter_permutations values))
    add_found real_path found

  unfoldable pub add_source_file : Text → Proc (SourceTreeRep W)
  unfolding replace_source_file
  add_source_file real_path = do
    readable ← outside (objects.isreadable real_path)
    if not readable then pure tt else (do
      symlink ← outside (objects.issymlink real_path)
      if symlink then pure tt else replace_source_file real_path)

  abbrev pub update_source_file : Text → Proc (SourceTreeRep W)
  update_source_file = add_source_file

  unfoldable pub remove_source_files : List Text → Proc (SourceTreeRep W)
  unfolding remove_source_file
  remove_source_files [] = pure tt
  remove_source_files (real_path ∷ real_paths) = do
    remove_source_file real_path
    remove_source_files real_paths

  unfoldable pub remove_source_dir : Text → Proc (SourceTreeRep W)
  unfolding remove_source_files
  remove_source_dir real_path = do
    real_subpaths ← on_path_store (PyTypes.get_real_subpaths real_path)
    remove_source_files real_subpaths
    catch is_missing_watch (pure tt) (outside (objects.monitor_remove_source_dir real_path))

  abbrev pub remove_source_path : Text → Proc (SourceTreeRep W)
  remove_source_path real_path = do remove_source_file real_path; remove_source_dir real_path

  unfoldable pub add_source_files : Text → List Text → Proc (SourceTreeRep W)
  unfolding add_source_file
  add_source_files dirpath [] = pure tt
  add_source_files dirpath (filename ∷ filenames) = do
    add_source_file (path_join dirpath filename)
    add_source_files dirpath filenames
