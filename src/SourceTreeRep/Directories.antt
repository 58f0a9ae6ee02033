-- ===== src/SourceTreeRep/Directories.antt =====
-- Virtual directories of a source tree representation.
use pytagsfs.Base.{
  Bool, true, false, if◌then◌else◌, leb, none, List, [], ◌∷◌, Text, Proc, Result, ok, err, Exc,
  ◌>>=◌, ◌>>◌, pure, raise, catch, invalid_argument, index_error, pattern_error, list_eq, nat_eq,
  length,
}
use pytagsfs.PathStore.PyTypes
use pytagsfs.Util.Paths.{root, path_join, split_path}
use pytagsfs.Patterns.Splitting.{Splitter, split}
use pytagsfs.SourceTreeRep.{
  SourceTreeRep, on_path_store, validate_fake_path, refuse, cache_prune_branch_to,
}
use pytagsfs.SourceTreeRep.Filling.{create_splitters, set_splitters}
use pytagsfs.SourceTreeRep.SourceFiles.{Settings, lift}
use pytagsfs.SourceTreeRep.Queries.{is_dir}

-- except PatternError: raise InvalidArgument
unfoldable pub is_pattern_error : Exc → Bool
is_pattern_error pattern_error = true
is_pattern_error _ = false

-- xs[-1]
unfoldable pub last_item {ℓ} : {A : Type ℓ} → List A → Result A
last_item [] = err index_error
last_item (x ∷ []) = ok x
last_item (x ∷ y ∷ xs) = last_item (y ∷ xs)

module _ {ℓ} {W : Type ℓ} (settings : Settings W) where
  unfoldable pub split_last : List Splitter → List Text → Proc (SourceTreeRep W)
  unfolding last_item split is_pattern_error
  split_last splitters parts = do
    splitter ← lift (last_item splitters)
    part ← lift (last_item parts)
    catch is_pattern_error (raise invalid_argument)
        (do groups ← lift (split settings.re splitter part); pure tt)

  unfoldable pub add_directory : Text → Proc (SourceTreeRep W)
  unfolding split_path create_splitters split_last cache_prune_branch_to
  add_directory fake_path = do
    validate_fake_path fake_path
    parts ← lift (split_path fake_path)
    refuse (leb (length settings.substitution_patterns) (length parts)) invalid_argument
    splitters ← lift (create_splitters settings.re settings.substitution_patterns fake_path [])
    split_last splitters parts
    on_path_store (PyTypes.add_directory fake_path)
    set_splitters fake_path splitters
    cache_prune_branch_to fake_path none

  -- The loop of `add_directory_with_parents`.
  unfoldable pub add_parents : Text → List Text → Proc (SourceTreeRep W)
  unfolding add_directory is_dir path_join
  add_parents path [] = pure tt
  add_parents path (part ∷ parts) = do
    dir ← is_dir (path_join path part)
    if dir then pure tt else add_directory (path_join path part)
    add_parents (path_join path part) parts

  unfoldable pub add_directory_with_parents : Text → Proc (SourceTreeRep W)
  unfolding add_parents split_path
  add_directory_with_parents fake_path = do
    parts ← lift (split_path fake_path)
    add_parents root parts

module _ {ℓ} {W : Type ℓ} where
  unfoldable pub remove_directory : Text → Proc (SourceTreeRep W)
  unfolding cache_prune_branch_to
  remove_directory fake_path = do
    validate_fake_path fake_path
    on_path_store (PyTypes.remove fake_path none)
    cache_prune_branch_to fake_path none
