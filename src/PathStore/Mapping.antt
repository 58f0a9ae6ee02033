-- ===== src/PathStore/Mapping.antt =====
-- `DictList` and `PathMapping` of modules/pytagsfs/pathstore/pytypes.py. The lists are private to
-- the dicts, so a method that changes one in place is a write to the dict.
pub mod DictLists
pub mod Consistency
use pytagsfs.Base.{
  Option, none, some, List, [], ◌∷◌, Text, Dict, lookup, keys, Exec, Proc, raise, pure, modify,
  zoom, on_raise, path_does_not_exist_in_path_mapping, get_last?, ◌>>=◌, ◌>>◌, list_eq, nat_eq,
}
use DictLists.{DictList, append_value, pop_and_clean, remove_value, clean}

pub record PathMapping : Type 0 where
  pub forward_mapping : DictList
  pub reverse_mapping : DictList

abbrev pub empty : PathMapping
empty = record { forward_mapping = []; reverse_mapping = [] }

-- self.forward_mapping.m() and self.reverse_mapping.m()
abbrev pub forward {ℓ} : {A : Type ℓ} → Exec DictList A → Exec PathMapping A
forward = zoom (λ m. m.forward_mapping) (λ d m. record m { forward_mapping = d })

abbrev pub backward {ℓ} : {A : Type ℓ} → Exec DictList A → Exec PathMapping A
backward = zoom (λ m. m.reverse_mapping) (λ d m. record m { reverse_mapping = d })

unfoldable pub add_real_path : Text → Text → Proc PathMapping
add_real_path fake_path real_path = do
  forward (append_value fake_path real_path)
  on_raise (forward (pop_and_clean fake_path)) (backward (append_value real_path fake_path))

-- The first half of `remove_real_path`: the real path that is taken off.
unfoldable pub take_real_path : Text → Option Text → Exec DictList Text
take_real_path fake_path none = pop_and_clean fake_path
take_real_path fake_path (some real_path) = do
  remove_value fake_path real_path
  clean fake_path
  pure real_path

-- `if not self.reverse_mapping[real_path]: del …` is `clean` written out.
unfoldable pub remove_real_path : Text → Option Text → Proc PathMapping
remove_real_path fake_path real_path = do
  taken ← forward (take_real_path fake_path real_path)
  on_raise (forward (append_value fake_path taken))
      (backward (do remove_value taken fake_path; clean taken))

-- `none` for PathDoesNotExistInPathMapping, which a missing key and an empty list both raise
unfoldable pub real_path_at : Text → PathMapping → Option Text
real_path_at fake_path m = elim (lookup fake_path m.forward_mapping) [
  | none ↦ none
  | some l ↦ get_last? l
]

unfoldable pub get_real_path : Text → Exec PathMapping Text
unfolding real_path_at
get_real_path fake_path m = elim (real_path_at fake_path m) [
  | none ↦ raise path_does_not_exist_in_path_mapping m
  | some p ↦ pure p m
]

unfoldable pub get_fake_paths : Text → Exec PathMapping (List Text)
get_fake_paths real_path m = elim (lookup real_path m.reverse_mapping) [
  | none ↦ raise path_does_not_exist_in_path_mapping m
  | some l ↦ pure l m
]

unfoldable pub get_reverse_keys : PathMapping → List Text
get_reverse_keys m = keys m.reverse_mapping
