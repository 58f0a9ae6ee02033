-- ===== src/SourceTreeRep.antt =====
-- `SourceTreeRepresentation` of modules/pytagsfs/sourcetreerep/__init__.py: its state, the objects
-- that it calls, and its cache. The path store is the one of PathStore, whose meta-data are the
-- splitters. What lies outside, the source tree, the meta-data store and the monitor, is the
-- interface `Outside` on a world `W`.
pub mod Filling
pub mod SourceFiles
pub mod SourceDirs
pub mod Queries
pub mod Directories
pub mod Renaming
pub mod Times
pub mod Attributes
pub mod Callbacks
pub mod Validity
pub mod FilledPaths
pub mod Pruning
use pytagsfs.Base.{suc}
use pytagsfs.Util.Paths.{path_split}
use pytagsfs.Base.{◌+◌}
use pytagsfs.Base.{
  ℕ, zero, suc, ◌+◌, no_fuel, Bool, true, false, ◌==◌, if◌then◌else◌, Option, none, some, List, [],
  ◌∷◌, Text, text, length, Exec, Proc, Result, ok, err, Exc, raise, pure, gets, zoom, catch,
  key_error, assertion_error, no_such_watch, not_a_directory, path_not_found, watch_exists,
  source_tree_monitor_error, unrepresentable_path, ◌>>=◌, ◌>>◌, list_eq, nat_eq, not, ◌&&◌,
  is_path_not_found,
}
use pytagsfs.Util.Paths.{root, sep, path_dirname, starts_with_sep, ends_with_sep}
use pytagsfs.PathStore.PyTypes.{PathStore}
use pytagsfs.PathPropCache
use pytagsfs.PathPropCache.{PathPropCache}
use pytagsfs.Values.{Values}
use pytagsfs.Patterns.Splitting.{Splitter}

-- The fields of an os.stat_result.
pub record Stat : Type 0 where
  pub st_mode : ℕ
  pub st_ino : ℕ
  pub st_dev : ℕ
  pub st_nlink : ℕ
  pub st_uid : ℕ
  pub st_gid : ℕ
  pub st_size : ℕ
  pub st_atime : ℕ
  pub st_mtime : ℕ
  pub st_ctime : ℕ

-- What the cache holds under the keys STAT and ENTRIES.
pub data Cached : Type 0 where
  stat_value : Stat → Cached
  entries_value : List Text → Cached

abbrev pub stat_key : Text
stat_key = text "STAT"

abbrev pub entries_key : Text
entries_key = text "ENTRIES"

pub record Outside {ℓ} (W : Type ℓ) : Type ℓ where
  pub isreadable : Text → Exec W Bool
  pub issymlink : Text → Exec W Bool
  pub lstat : Text → Exec W Stat
  pub set_times : Text → ℕ × ℕ → Proc W
  pub meta_store_get : Text → Exec W Values
  pub meta_store_set : Text → Values → Proc W
  pub monitor_add_source_dir : Text → Proc W
  pub monitor_remove_source_dir : Text → Proc W
  pub monitor_add_source_file : Text → Proc W
  pub monitor_remove_source_file : Text → Proc W

pub record SourceTreeRep {ℓ} (W : Type ℓ) : Type ℓ where
  pub path_store : PathStore (List Splitter)
  pub cache : Option (PathPropCache Cached)
  pub world : W

-- `except KeyError`
abbrev pub is_key_error : Exc → Bool
is_key_error key_error = true
is_key_error _ = false

module _ {ℓ} {W : Type ℓ} where
  -- self.path_store.m(), and a method of one of the other objects
  abbrev pub on_path_store {κ} :
      {A : Type κ} → Exec (PathStore (List Splitter)) A → Exec (SourceTreeRep W) A
  on_path_store = zoom (λ s. s.path_store) (λ p s. record s { path_store = p })

  abbrev pub outside {κ} : {A : Type κ} → Exec W A → Exec (SourceTreeRep W) A
  outside = zoom (λ s. s.world) (λ w s. record s { world = w })

  -- if test: raise …
  abbrev pub refuse : Bool → Exc → Proc (SourceTreeRep W)
  refuse test c s = if test then raise c s else pure tt s

  -- A path is a unicode object here, so the test of its type is left out.
  unfoldable pub validate_path : Text → Proc (SourceTreeRep W)
  unfolding starts_with_sep ends_with_sep
  validate_path path = do
    refuse (not (starts_with_sep path)) assertion_error
    refuse (ends_with_sep path && not (path == root)) assertion_error

  abbrev pub validate_source_path : Text → Proc (SourceTreeRep W)
  validate_source_path = validate_path

  abbrev pub validate_fake_path : Text → Proc (SourceTreeRep W)
  validate_fake_path = validate_path

  -- A method of the cache, where there is one.
  unfoldable pub on_cache {κ} :
      {A : Type κ}
      → Exec (SourceTreeRep W) A
      → Exec (PathPropCache Cached) A
      → Exec (SourceTreeRep W) A
  on_cache without m s = elim s.cache [
    | none ↦ without s
    | some d ↦ ((m d).0, record s { cache = some (m d).1 })
  ]

  unfoldable pub cache_put : Text → Text → Cached → Proc (SourceTreeRep W)
  unfolding on_cache
  cache_put fake_path key value = on_cache (pure tt) (PathPropCache.put fake_path key value)

  unfoldable pub cache_get : Text → Text → Exec (SourceTreeRep W) Cached
  unfolding on_cache
  cache_get fake_path key = on_cache (raise key_error) (PathPropCache.get fake_path key)

  unfoldable pub cache_prune : Option Text → Option Text → Proc (SourceTreeRep W)
  unfolding on_cache
  cache_prune fake_path key = on_cache (raise key_error) (PathPropCache.prune fake_path key)

  -- The loop up to the root: `os.path.dirname` makes a path shorter until it is the root.
  unfoldable pub prune_loop : ℕ → Text → Option Text → Proc (SourceTreeRep W)
  unfolding cache_prune path_split
  prune_loop zero fake_path key = raise no_fuel
  prune_loop (suc fuel) fake_path key =
      let above = prune_loop fuel (path_dirname fake_path) key in
      catch is_key_error (pure tt) (cache_prune (some fake_path) key)
      >> (if fake_path == root then pure tt else above)

  unfoldable pub cache_prune_branch_to : Text → Option Text → Proc (SourceTreeRep W)
  unfolding prune_loop
  cache_prune_branch_to fake_path key = prune_loop (length fake_path + 1) fake_path key
