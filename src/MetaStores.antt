-- ===== src/MetaStores.antt =====
-- `DelegateMultiMetaStore` of modules/pytagsfs/metastore/__init__.py, over a list of meta-data stores on
-- a world `W`. All stores get the same dict of values, so that what one of them changes in it is what the
-- next one finds: it is part of the state of `set`.
pub mod Keys
pub mod PathTags
use pytagsfs.Base.{
  Bool, true, false, Option, none, some, List, [], ◌∷◌, ◌++◌, Text, lookup, insert, erase, Exec,
  Proc, Exc, pure, raise, catch, key_error, not_implemented, ◌>>=◌, ◌>>◌, list_eq, nat_eq,
}
use pytagsfs.Values.{Values}

-- A store's `set` returns the keys that it took. It may change the dict that it is passed, and that
-- change stays where it raises.
pub record MetaStore {ℓ} (W : Type ℓ) : Type ℓ where
  pub get : Text → Exec W Values
  pub set : Text → Exec (Values × W) (List Text)

-- except NotImplementedError
unfoldable pub is_not_implemented : Exc → Bool
is_not_implemented not_implemented = true
is_not_implemented _ = false

-- values.update(found)
unfoldable pub update : Values → Values → Values
update values [] = values
update values ((k, v) ∷ found) = update (insert k v values) found

abbrev pub update_found : Values → Option Values → Values
update_found values none = values
update_found values (some found) = update values found

module _ {ℓ} {W : Type ℓ} where
  -- for key in new_keys: del values[key]
  unfoldable pub delete_keys : List Text → Proc (Values × W)
  delete_keys [] s = pure tt s
  delete_keys (key ∷ new_keys) (values, w) = elim (lookup key values) [
    | none ↦ raise key_error (values, w)
    | some v ↦ delete_keys new_keys (erase key values, w)
  ]

  unfoldable pub get_loop : List (MetaStore W) → Text → Values → Exec W Values
  unfolding update is_not_implemented
  get_loop [] path values = pure values
  get_loop (meta_store ∷ meta_stores) path values = do
    found ← catch is_not_implemented (pure none) (do v ← meta_store.get path; pure (some v))
    get_loop meta_stores path (update_found values found)

  unfoldable pub delegate_get : List (MetaStore W) → Text → Exec W Values
  unfolding get_loop
  delegate_get meta_stores path = get_loop meta_stores path []

  -- Where a store raises NotImplementedError, no keys are deleted and none are added.
  unfoldable pub set_loop : List (MetaStore W) → Text → Exec (Values × W) (List Text)
  unfolding delete_keys is_not_implemented
  set_loop [] path = pure []
  set_loop (meta_store ∷ meta_stores) path = do
    new_keys ← catch is_not_implemented (pure []) (meta_store.set path)
    delete_keys new_keys
    keys ← set_loop meta_stores path
    pure (new_keys ++ keys)

  -- values = dict(values): the dict of the caller stays as it is.
  unfoldable pub delegate_set : List (MetaStore W) → Text → Values → Exec W (List Text)
  unfolding set_loop
  delegate_set meta_stores path values w =
      let (r, (rest, v)) = set_loop meta_stores path (values, w) in (r, v)
