-- ===== src/PathPropCache.antt =====
-- modules/pytagsfs/pathpropcache.py: a cache of properties by path and key. The inner dicts are
-- private to the cache, so a write to one is a write to the outer dict.
pub mod Laws
use pytagsfs.Base.{
  ok, Option, none, some, [], Text, Dict, lookup, insert, erase, Exec, Proc, pure, raise, key_error,
  value_error, list_eq, nat_eq,
}

abbrev pub PathPropCache {ℓ} : Type ℓ → Type ℓ
PathPropCache V = Dict Text (Dict Text V)

module _ {ℓ} {V : Type ℓ} where
  -- self.d.get(path, {}), the dict that `put` writes to
  unfoldable pub path_dict : Text → PathPropCache V → Dict Text V
  path_dict path d = elim (lookup path d) [ none ↦ [] | some path_d ↦ path_d ]

  unfoldable pub put : Text → Text → V → Proc (PathPropCache V)
  put path key value d = (ok tt, insert path (insert key value (path_dict path d)) d)

  unfoldable pub get : Text → Text → Exec (PathPropCache V) V
  get path key d = elim (lookup path d) [
    | none ↦ raise key_error d
    | some path_d ↦ elim (lookup key path_d) [
      | none ↦ raise key_error d
      | some value ↦ pure value d
    ]
  ]

  -- del self.d[path][key]
  unfoldable pub delete_key : Text → Text → Proc (PathPropCache V)
  delete_key path key d = elim (lookup path d) [
    | none ↦ raise key_error d
    | some path_d ↦ elim (lookup key path_d) [
      | none ↦ raise key_error d
      | some value ↦ (ok tt, insert path (erase key path_d) d)
    ]
  ]

  -- del self.d[path]
  unfoldable pub delete_path : Text → Proc (PathPropCache V)
  delete_path path d = elim (lookup path d) [
    | none ↦ raise key_error d
    | some path_d ↦ (ok tt, erase path d)
  ]

  unfoldable pub prune : Option Text → Option Text → Proc (PathPropCache V)
  prune none (some key) = raise value_error
  prune (some path) (some key) = delete_key path key
  prune (some path) none = delete_path path
  prune none none = λ d. (ok tt, [])
