-- ===== src/Tests/ValuesRuns.antt =====
-- The theorems on `Values` and the path property cache at concrete values.
use pytagsfs.Base.{
  ◌&&◌, ◌≡◌, refl, none, some, [], ◌∷◌, Text, text, lookup, insert, keys, All, ok, err, key_error,
  list_eq, nat_eq, contains, list_beq, arith, erase, ℕ, if◌then◌else◌,
}
use pytagsfs.Values.{
  Values, diff2, diff3, combine, iter_permutations, diff2_loop, diff2_step, same_set, all_in,
}
use pytagsfs.Values.Diff.{lookup-diff2, lookup-diff3, difference_at, merged_at, Mergeable}
use pytagsfs.Values.Laws.{lookup-combine, unique?, gathered}
use pytagsfs.Values.Permutations.{IsPermutation, iter_permutations-IsPermutation}
use pytagsfs.PathPropCache.{PathPropCache, get, put, prune}
use pytagsfs.PathPropCache.Laws.{get-put, get-prune, prune_answer, is_pruned, is_ok}

abbrev artist : Text
artist = text "artist"

abbrev title : Text
title = text "title"

abbrev a : Text
a = text "a"

abbrev b : Text
b = text "b"

abbrev base_values : Values
base_values = (artist, a ∷ b ∷ []) ∷ (title, a ∷ []) ∷ []

abbrev old_values : Values
old_values = (artist, a ∷ []) ∷ []

abbrev new_values : Values
new_values = (artist, b ∷ []) ∷ []

lookup-diff2_example :
    lookup artist (diff2 old_values new_values)
    ≡ difference_at (lookup artist old_values) (lookup artist new_values)
unfolding keys contains
lookup-diff2_example = lookup-diff2 old_values new_values artist (refl, tt)

base-Mergeable : Mergeable base_values old_values (diff2 old_values new_values)
unfolding diff2 diff2_loop diff2_step same_set all_in lookup contains insert erase list_beq
base-Mergeable k changed there = ground arith

lookup-diff3_example :
    (m : Values) × (diff3 base_values old_values new_values ≡ ok m)
    × ((k : Text)
        → lookup k m
          ≡ merged_at
              (lookup k base_values)
              (lookup k old_values)
              (difference_at (lookup k old_values) (lookup k new_values)))
unfolding keys contains
lookup-diff3_example =
    lookup-diff3 base_values old_values new_values (refl, tt) (refl, tt) base-Mergeable

lookup-combine_example :
    lookup artist (combine (base_values ∷ new_values ∷ []))
    ≡ unique? (gathered artist none (base_values ∷ new_values ∷ []))
unfolding keys contains list_beq
lookup-combine_example =
    lookup-combine (base_values ∷ new_values ∷ []) artist ((refl, (refl, tt)), ((refl, tt), tt))

iter_permutations-IsPermutation_example :
    All (IsPermutation base_values) (iter_permutations base_values)
iter_permutations-IsPermutation_example = iter_permutations-IsPermutation base_values

abbrev cache : PathPropCache ℕ
cache = (put a title 1 []).1

get-put_example : (get a artist (put a artist 2 cache).1).0 ≡ ok 2
unfolding list_beq
get-put_example = get-put a artist 2 cache a artist

get-prune_example :
    ((prune (some a) (some title) cache).0 ≡ prune_answer (some a) (some title) cache)
    × ((get a title (prune (some a) (some title) cache).1).0 ≡ (
        if is_ok (prune_answer (some a) (some title) cache)
          && is_pruned (some a) (some title) a title
        then err key_error
        else (get a title cache).0))
get-prune_example = get-prune (some a) (some title) cache a title
