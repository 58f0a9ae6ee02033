-- ===== src/Values.antt =====
-- `Values` of modules/pytagsfs/values.py: a dict of lists of values by tag. The constructor and
-- `__setitem__` copy the lists, so no two values share one. `items` and `popitem` go through the
-- dict in the order of its entries, which stands for the interpreter's.
pub mod Laws
pub mod Diff
pub mod Permutations
use pytagsfs.Base.{
  Bool, true, false, not, ◌&&◌, Option, none, some, List, [], ◌∷◌, ◌++◌, map, Text, Dict, lookup,
  insert, erase, keys, contains, remove_first, Result, ok, err, key_error, index_error, list_eq,
  nat_eq, if◌then◌else◌,
}
use pytagsfs.Util.Unique.{unique}

abbrev pub Values : Type 0
Values = Dict Text (List Text)

-- A flat dict, in which a value may be None.
abbrev pub FlatDict : Type 0
FlatDict = Dict Text (Option Text)

-- list of at most one value
abbrev optional_list : Option Text → List Text
optional_list none = []
optional_list (some v) = v ∷ []

unfoldable pub from_flat_loop : Values → FlatDict → Values
from_flat_loop result [] = result
from_flat_loop result ((k, v) ∷ d) = from_flat_loop (insert k (optional_list v) result) d

unfoldable pub from_flat_dict : FlatDict → Values
unfolding from_flat_loop
from_flat_dict d = from_flat_loop [] d

-- self[k][0] for each key
unfoldable pub to_flat_dict : Values → Result (Dict Text Text)
to_flat_dict [] = ok []
to_flat_dict ((k, []) ∷ d) = err index_error
to_flat_dict ((k, v ∷ vs) ∷ d) = elim (to_flat_dict d) [ ok e ↦ ok ((k, v) ∷ e) | err c ↦ err c ]

-- The inner loop of `combine`, over the items of one of the values.
unfoldable pub merge : Values → Values → Values
merge merged [] = merged
merge merged ((k, value) ∷ items) =
    merge
      (elim (lookup k merged) [
        | none ↦ insert k value merged
        | some l ↦ insert k (l ++ value) merged
      ])
      items

unfoldable pub merge_all : Values → List Values → Values
unfolding merge
merge_all merged [] = merged
merge_all merged (values ∷ rest) = merge_all (merge merged values) rest

-- merged[k] = list(unique(merged[k])) for each key
unfoldable pub unique_values : Values → Values
unique_values [] = []
unique_values ((k, l) ∷ d) = (k, unique l) ∷ unique_values d

unfoldable pub combine : List Values → Values
unfolding merge_all unique_values unique
combine list_of_values = unique_values (merge_all [] list_of_values)

unfoldable pub all_in : List Text → List Text → Bool
all_in [] ys = true
all_in (x ∷ xs) ys = contains x ys && all_in xs ys

-- set(xs) == set(ys)
unfoldable pub same_set : List Text → List Text → Bool
unfolding all_in
same_set xs ys = all_in xs ys && all_in ys xs

-- One round of the loop of `diff2`.
unfoldable pub diff2_step : Text → List Text → Values → Values
diff2_step k v difference = elim (lookup k difference) [
  | none ↦ insert k [] difference
  | some l ↦ if same_set l v then erase k difference else difference
]

unfoldable pub diff2_loop : Values → Values → Values
diff2_loop [] difference = difference
diff2_loop ((k, v) ∷ old) difference = diff2_loop old (diff2_step k v difference)

unfoldable pub diff2 : Values → Values → Values
diff2 old new = diff2_loop old new

-- The first loop of `diff3`: the keys of `base` that did not change are dropped.
unfoldable pub keep_changed : Values → List Text → Values → Values
keep_changed difference [] merged = merged
keep_changed difference (k ∷ ks) merged =
    keep_changed difference ks
      (elim (lookup k difference) [ none ↦ erase k merged | some _ ↦ merged ])

-- The loop that takes the old values of a key off its base values.
unfoldable pub remove_all : List Text → List Text → List Text
remove_all [] merged = merged
remove_all (v ∷ vs) merged = remove_all vs (remove_first v merged)

-- The merged values of a key of the difference: `old[k]` raises KeyError where `old` lacks it.
unfoldable pub merged_values :
    Option (List Text) → Option (List Text) → List Text → Result (List Text)
merged_values none old v = ok v
merged_values (some base) none v = err key_error
merged_values (some base) (some old) v = ok (remove_all old base ++ v)

-- The second loop of `diff3`.
unfoldable pub diff3_loop : Values → Values → Values → Values → Result Values
diff3_loop base old [] merged = ok merged
diff3_loop base old ((k, v) ∷ difference) merged =
    elim (merged_values (lookup k base) (lookup k old) v) [
      | ok l ↦ diff3_loop base old difference (insert k l merged)
      | err c ↦ err c
    ]

unfoldable pub diff3 : Values → Values → Values → Result Values
unfolding keep_changed diff3_loop merged_values remove_all
diff3 base old new =
    let difference = diff2 old new in
    diff3_loop base old difference (keep_changed difference (keys base) base)

-- The inner loop of `iter_permutations`: each choice of a value for one key.
unfoldable pub with_each : Text → List Text → Dict Text Text → List (Dict Text Text)
with_each key [] d = []
with_each key (value ∷ values) d = insert key value d ∷ with_each key values (insert key value d)

unfoldable pub extend_all : Text → List Text → List (Dict Text Text) → List (Dict Text Text)
unfolding with_each
extend_all key values [] = []
extend_all key values (d ∷ ds) = with_each key values d ++ extend_all key values ds

-- Without an item there is one permutation, the empty dict.
unfoldable pub iter_permutations : Values → List (Dict Text Text)
unfolding extend_all
iter_permutations [] = [] ∷ []
iter_permutations ((key, values) ∷ rest) = extend_all key values (iter_permutations rest)
