-- ===== src/SourceTreeRep/Attributes.antt =====
-- `getattr` of a source tree representation, and the times of its directories. What the interpreter
-- does with a result of `lstat` that is no stat result is left out: here it always is one.
use pytagsfs.Base.{
  is_os_error, ℕ, zero, suc, ◌+◌, ◌==◌, Bool, true, false, leb, if◌then◌else◌, Option, none, some,
  List, [], ◌∷◌, ◌++◌, Text, Exec, Exc, ◌>>=◌, ◌>>◌, pure, raise, catch, is_path_not_found,
  is_a_directory, type_error, length, no_fuel, keys, nat_eq,
}
use Prim.Native.Nat.{◌%◌}
use pytagsfs.Util.Paths.{path_join}
use pytagsfs.PathStore.EndPoints.{longest}
use pytagsfs.SourceTreeRep.{
  SourceTreeRep, Outside, outside, validate_fake_path, Stat, Cached, stat_value, entries_value,
  stat_key, cache_get, cache_put, is_key_error,
}
use pytagsfs.SourceTreeRep.Queries.{get_entries, get_real_path, is_dir, is_file}

-- except (IsADirectory, PathNotFound), and except OSError
unfoldable pub is_no_file : Exc → Bool
is_no_file is_a_directory = true
is_no_file c = is_path_not_found c

-- max(times), where there is one
unfoldable pub latest : List ℕ → ℕ
latest [] = 0
latest (t ∷ ts) = let m = latest ts in if leb t m then m else t

-- The time of a directory, or of the root where it is 0.
abbrev pub or_root : ℕ → ℕ → ℕ
or_root time root_time = if time == 0 then root_time else time

abbrev pub with_item {ℓ} : {A : Type ℓ} → Option A → List A → List A
with_item none xs = xs
with_item (some x) xs = x ∷ xs

-- stat.S_IFDIR | stat.S_IMODE(mode): the kind of the file and the last twelve bits.
abbrev pub directory_mode : ℕ → ℕ
directory_mode mode = 16384 + mode % 4096

module _ {ℓ} {W : Type ℓ} (objects : Outside W) (root_path : Text) where
  -- The paths of the entries for which a test holds.
  unfoldable pub entries_where :
      (Text → Exec (SourceTreeRep W) Bool) → Text → List Text → Exec (SourceTreeRep W) (List Text)
  unfolding path_join
  entries_where test fake_path [] = pure []
  entries_where test fake_path (entry ∷ entries) = do
    holds ← test (path_join fake_path entry)
    rest ← entries_where test fake_path entries
    if holds then pure (path_join fake_path entry ∷ rest) else pure rest

  unfoldable pub get_subdirectories : Text → Exec (SourceTreeRep W) (List Text)
  unfolding get_entries entries_where is_dir
  get_subdirectories fake_path = do
    entries ← get_entries fake_path
    entries_where (λ p. catch is_path_not_found (pure false) (is_dir p)) fake_path entries

  -- The times of paths, without those for which the call raises OSError.
  unfoldable pub times_of :
      (Text → Exec (SourceTreeRep W) ℕ) → List Text → Exec (SourceTreeRep W) (List ℕ)
  times_of time [] = pure []
  times_of time (path ∷ paths) = do
    t ← catch is_os_error (pure none) (do x ← time path; pure (some x))
    rest ← times_of time paths
    pure (with_item t rest)

  -- The value of the cache under STAT is a stat result.
  abbrev pub as_stat : Cached → Exec (SourceTreeRep W) (Option Stat)
  as_stat (stat_value st) = pure (some st)
  as_stat (entries_value entries) = raise type_error

  unfoldable pub cached_stat : Text → Exec (SourceTreeRep W) (Option Stat)
  unfolding cache_get
  cached_stat fake_path =
      catch is_key_error (pure none) (do v ← cache_get fake_path stat_key; as_stat v)

  -- The stat result of a directory, by the method that finds its times.
  unfoldable pub directory_stat :
      ((Stat → ℕ) → Text → Exec (SourceTreeRep W) ℕ) → Text → Exec (SourceTreeRep W) Stat
  unfolding get_subdirectories
  directory_stat directory_time fake_path = do
    subdirs ← get_subdirectories fake_path
    source_root ← outside (objects.lstat root_path)
    atime ← directory_time (λ st. st.st_atime) fake_path
    mtime ← directory_time (λ st. st.st_mtime) fake_path
    ctime ← directory_time (λ st. st.st_ctime) fake_path
    pure (record {
      st_mode = directory_mode source_root.st_mode;
      st_ino = 0;
      st_dev = 0;
      st_nlink = 2 + length subdirs;
      st_uid = source_root.st_uid;
      st_gid = source_root.st_gid;
      st_size = 0;
      st_atime = or_root atime source_root.st_atime;
      st_mtime = or_root mtime source_root.st_mtime;
      st_ctime = or_root ctime source_root.st_ctime;
    })

  -- `_getattr`
  unfoldable pub fresh_stat :
      ((Stat → ℕ) → Text → Exec (SourceTreeRep W) ℕ) → Text → Exec (SourceTreeRep W) Stat
  unfolding directory_stat is_no_file get_real_path
  fresh_stat directory_time fake_path = do
    real_path ← catch is_no_file (pure none) (do p ← get_real_path fake_path; pure (some p))
    elim real_path [
      | some p ↦ outside (objects.lstat p)
      | none ↦ directory_stat directory_time fake_path
    ]

  unfoldable pub getattr_with :
      ((Stat → ℕ) → Text → Exec (SourceTreeRep W) ℕ) → Text → Exec (SourceTreeRep W) Stat
  unfolding cached_stat fresh_stat cache_put
  getattr_with directory_time fake_path = do
    validate_fake_path fake_path
    found ← cached_stat fake_path
    elim found [
      | some st ↦ pure st
      | none ↦ (do
        st ← fresh_stat directory_time fake_path
        cache_put fake_path stat_key (stat_value st)
        pure st)
    ]

  -- `_get_directory_time_attr`, whose recursive calls are for longer paths.
  unfoldable pub directory_time_loop : ℕ → (Stat → ℕ) → Text → Exec (SourceTreeRep W) ℕ
  unfolding get_entries entries_where is_dir is_file times_of getattr_with latest
  directory_time_loop zero attr fake_path = raise no_fuel
  directory_time_loop (suc fuel) attr fake_path = do
    entries ← get_entries fake_path
    subdirs ← entries_where is_dir fake_path entries
    files ← entries_where is_file fake_path entries
    subdir_times ← times_of (directory_time_loop fuel attr) subdirs
    file_times ←
        times_of (λ p. do st ← getattr_with (directory_time_loop fuel) p; pure (attr st)) files
    pure (latest (subdir_times ++ file_times))

  unfoldable pub getattr : Text → Exec (SourceTreeRep W) Stat
  unfolding getattr_with directory_time_loop longest
  getattr fake_path s =
      getattr_with (directory_time_loop (longest (keys s.path_store.entries) + 1)) fake_path s
