-- ===== src/Util/Unique.antt =====
-- `unique` and `last_unique` of modules/pytagsfs/util.py.
pub mod Laws
use pytagsfs.Base.{List, [], ◌∷◌, ◌++◌, Eq, contains, remove_first, if◌then◌else◌}

module _ {ℓ} {A : Type ℓ} ⦃e : Eq A⦄ where
  -- The generator's loop: `seen` grows by every item, also by one that is skipped.
  unique_loop : List A → List A → List A
  unique_loop seen [] = []
  unique_loop seen (item ∷ items) =
      let rest = unique_loop (seen ++ item ∷ []) items in
      if contains item seen then rest else item ∷ rest

  unfoldable pub unique : List A → List A
  unfolding unique_loop
  unique items = unique_loop [] items

  -- `result.remove(item)` with its ValueError ignored, then `result.append(item)`
  unfoldable pub last_unique_loop : List A → List A → List A
  last_unique_loop result [] = result
  last_unique_loop result (item ∷ items) =
      last_unique_loop (remove_first item result ++ item ∷ []) items

  unfoldable pub last_unique : List A → List A
  unfolding last_unique_loop
  last_unique items = last_unique_loop [] items
