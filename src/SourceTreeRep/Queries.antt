-- ===== src/SourceTreeRep/Queries.antt =====
-- What a source tree representation answers about virtual paths.
use pytagsfs.Base.{
  Bool, false, not, if◌then◌else◌, Option, none, some, List, Text, Exec, ◌>>=◌, ◌>>◌, pure, raise,
  gets, catch, is_empty, type_error,
}
use pytagsfs.PathStore.PyTypes
use pytagsfs.SourceTreeRep.{
  SourceTreeRep, on_path_store, validate_fake_path, Cached, stat_value, entries_value, entries_key,
  cache_get, cache_put, is_key_error,
}

module _ {ℓ} {W : Type ℓ} where
  unfoldable pub get_real_path : Text → Exec (SourceTreeRep W) Text
  get_real_path fake_path = do
    validate_fake_path fake_path
    on_path_store (PyTypes.get_real_path fake_path)

  unfoldable pub path_exists : Text → Exec (SourceTreeRep W) Bool
  path_exists fake_path = do
    validate_fake_path fake_path
    gets (λ s. PyTypes.is_path s.path_store fake_path)

  unfoldable pub is_file : Text → Exec (SourceTreeRep W) Bool
  is_file fake_path = do
    validate_fake_path fake_path
    gets (λ s. PyTypes.is_file s.path_store fake_path)

  unfoldable pub is_dir : Text → Exec (SourceTreeRep W) Bool
  is_dir fake_path = do
    validate_fake_path fake_path
    gets (λ s. PyTypes.is_dir s.path_store fake_path)

  -- The value of the cache under ENTRIES is a list of entries.
  abbrev pub as_entries : Cached → Exec (SourceTreeRep W) (Option (List Text))
  as_entries (entries_value entries) = pure (some entries)
  as_entries (stat_value st) = raise type_error

  unfoldable pub cached_entries : Text → Exec (SourceTreeRep W) (Option (List Text))
  unfolding cache_get
  cached_entries fake_path =
      catch is_key_error (pure none) (do v ← cache_get fake_path entries_key; as_entries v)

  unfoldable pub read_entries : Text → Option (List Text) → Exec (SourceTreeRep W) (List Text)
  unfolding cache_put
  read_entries fake_path (some entries) = pure entries
  read_entries fake_path none = do
    entries ← on_path_store (PyTypes.get_entries fake_path)
    cache_put fake_path entries_key (entries_value entries)
    pure entries

  unfoldable pub get_entries : Text → Exec (SourceTreeRep W) (List Text)
  unfolding cached_entries read_entries
  get_entries fake_path = do
    validate_fake_path fake_path
    found ← cached_entries fake_path
    read_entries fake_path found

  unfoldable pub is_empty_dir : Text → Exec (SourceTreeRep W) Bool
  unfolding is_dir get_entries
  is_empty_dir fake_path = do
    dir ← is_dir fake_path
    if not dir then pure false else (do entries ← get_entries fake_path; pure (is_empty entries))
