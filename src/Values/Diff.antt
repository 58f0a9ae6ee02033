-- ===== src/Values/Diff.antt =====
-- What `diff2` and `diff3` give at each key, on dicts (no key stands twice).
use mathlib.Core.Path.{sym}
use pytagsfs.Base.{
  eq_refl, eq_of_beq, ◌≡◌, ◌≢◌, refl, ap, ◌∙◌, Bool, true, false, ◌&&◌, ◌==◌, Option, none, some,
  List, [], ◌∷◌, ◌++◌, Text, lookup, insert, erase, keys, contains, IsDistinct, ok, err, arith,
  list_eq, nat_eq, list_beq_iff, lookup-insert, lookup-erase, lookup_absent, contains-keys,
  insert-IsDistinct, erase-IsDistinct, is_none, Option-cases, Bool-cases, inl, inr, if◌then◌else◌,
}
use pytagsfs.Values.{
  Values, same_set, diff2, diff2_loop, diff2_step, keep_changed, merged_values, remove_all, diff3,
  diff3_loop,
}

-- The difference at a key, from its old and its new values: a key that is gone has none left, and
-- one whose set of values is the same is no difference.
abbrev pub difference_at : Option (List Text) → Option (List Text) → Option (List Text)
difference_at none new = new
difference_at (some v) none = some []
difference_at (some v) (some l) = if same_set l v then none else some l

lookup-diff2_step :
    (j : Text) (v : List Text) (d : Values) (k : Text)
    → lookup k (diff2_step j v d)
      ≡ (if j == k then difference_at (some v) (lookup k d) else lookup k d)
unfolding diff2_step
lookup-diff2_step j v d k = elim (Option-cases (lookup j d)) [
  | inl e ↦ ground (arith, lookup-insert j k [] d, list_beq_iff j k)
  | inr (l, e) ↦ ground (arith, lookup-erase j k d, list_beq_iff j k)
]

lookup-diff2_loop :
    (old d : Values) (k : Text)
    → IsDistinct (keys old)
    → lookup k (diff2_loop old d) ≡ difference_at (lookup k old) (lookup k d)
unfolding diff2_loop keys lookup
lookup-diff2_loop [] d k h = refl
lookup-diff2_loop ((j, v) ∷ old) d k h =
    lookup-diff2_loop old (diff2_step j v d) k h.1
    ∙ ground (arith, lookup-diff2_step j v d k, lookup_absent j old h.0, list_beq_iff j k)

-- `diff2` of two dicts, at every key: the new values where the sets differ or the key is new, the
-- empty list where the key is gone, and nothing where the sets of values are equal.
pub lookup-diff2 :
    (old new : Values) (k : Text)
    → IsDistinct (keys old)
    → lookup k (diff2 old new) ≡ difference_at (lookup k old) (lookup k new)
unfolding diff2
lookup-diff2 old new k h = lookup-diff2_loop old new k h

diff2_step-IsDistinct :
    (k : Text) (v : List Text) (d : Values)
    → IsDistinct (keys d)
    → IsDistinct (keys (diff2_step k v d))
unfolding diff2_step
diff2_step-IsDistinct k v d h = go (lookup k d)
  where
    drop_same : (b : Bool) → IsDistinct (keys (if b then erase k d else d))
    drop_same true = erase-IsDistinct k d h
    drop_same false = h

    go :
        (o : Option (List Text))
        → IsDistinct (
            keys (elim o [ none ↦ insert k [] d | some l ↦ if same_set l v then erase k d else d ]))
    go none = insert-IsDistinct k [] d h
    go (some l) = drop_same (same_set l v)

diff2_loop-IsDistinct :
    (old d : Values) → IsDistinct (keys d) → IsDistinct (keys (diff2_loop old d))
unfolding diff2_loop
diff2_loop-IsDistinct [] d h = h
diff2_loop-IsDistinct ((k, v) ∷ old) d h =
    diff2_loop-IsDistinct old (diff2_step k v d) (diff2_step-IsDistinct k v d h)

diff2-IsDistinct : (old new : Values) → IsDistinct (keys new) → IsDistinct (keys (diff2 old new))
unfolding diff2
diff2-IsDistinct old new h = diff2_loop-IsDistinct old new h

lookup-keep_changed :
    (difference : Values) (ks : List Text) (merged : Values) (k : Text)
    → lookup k (keep_changed difference ks merged)
      ≡ (if contains k ks && is_none (lookup k difference) then none else lookup k merged)
unfolding keep_changed contains
lookup-keep_changed difference [] merged k = refl
lookup-keep_changed difference (j ∷ ks) merged k = elim (Option-cases (lookup j difference)) [
  | inl e ↦ ground (
    arith,
    lookup-keep_changed difference ks (erase j merged) k,
    lookup-erase j k merged,
    list_beq_iff j k,
  )
  | inr (l, e) ↦ ground (arith, lookup-keep_changed difference ks merged k, list_beq_iff j k)
]

-- What `diff3` leaves at a key: nothing where the key did not change, and else the base values
-- without one occurrence of each old value, followed by the new ones.
abbrev pub merged_at :
    Option (List Text) → Option (List Text) → Option (List Text) → Option (List Text)
merged_at base old none = none
merged_at none old (some v) = some v
merged_at (some b) none (some v) = none
merged_at (some b) (some o) (some v) = some (remove_all o b ++ v)

-- `merged_values` at a key of the difference succeeds.
abbrev pub Mergeable : Values → Values → Values → Type 0
Mergeable base old difference =
    (k : Text) → lookup k difference ≢ none → lookup k base ≢ none → lookup k old ≢ none

merged_values_lem :
    (base old : Option (List Text)) (v : List Text)
    → (base ≢ none → old ≢ none)
    → (l : List Text) × (merged_values base old v ≡ ok l) × (merged_at base old (some v) ≡ some l)
unfolding merged_values
merged_values_lem none old v able = (v, refl, refl)
merged_values_lem (some b) none v able = elim (able (λ e. cc) refl) [ ]
merged_values_lem (some b) (some o) v able = (remove_all o b ++ v, refl, refl)

diff3_loop_ok :
    (base old : Values) (j : Text) (v : List Text) (difference merged : Values) (l : List Text)
    → merged_values (lookup j base) (lookup j old) v ≡ ok l
    → diff3_loop base old ((j, v) ∷ difference) merged
      ≡ diff3_loop base old difference (insert j l merged)
unfolding diff3_loop
diff3_loop_ok base old j v difference merged l e =
    ap (λ r. elim r [ ok l ↦ diff3_loop base old difference (insert j l merged) | err c ↦ err c ]) e

diff3_loop_lem :
    (base old difference merged : Values)
    → IsDistinct (keys difference)
    → Mergeable base old difference
    → (m : Values) × (diff3_loop base old difference merged ≡ ok m)
      × ((k : Text)
          → lookup k m ≡ (
              if is_none (lookup k difference)
              then lookup k merged
              else merged_at (lookup k base) (lookup k old) (lookup k difference)))
unfolding diff3_loop keys lookup
diff3_loop_lem base old [] merged h able = (merged, refl, λ k. refl)
diff3_loop_lem base old ((j, v) ∷ difference) merged h able =
    let now =
      merged_values_lem (lookup j base) (lookup j old) v
        (able j (ground (arith, list_beq_iff j j))) in
    let rest =
      diff3_loop_lem base old difference (insert j now.0 merged) h.1
        (λ k changed. able k (ground (arith, list_beq_iff j k, lookup_absent j difference h.0))) in
    (
      rest.0,
      diff3_loop_ok base old j v difference merged now.0 now.1 ∙ rest.1,
      λ k. elim (Bool-cases (j == k)) [
        | inl same ↦ rw (sym (eq_of_beq j k same)) (
            rw (eq_refl j) (
              rest.2 j
              ∙ ground (
                arith,
                lookup-insert j j now.0 merged,
                now.2,
                list_beq_iff j j,
                lookup_absent j difference h.0,
              )))
        | inr other ↦ rw other (rest.2 k ∙ ground (arith, lookup-insert j k now.0 merged))
      ],
    )

-- Where `base` has an old value for each of its keys that changed, and no key stands twice in
-- `old` and `new`, `diff3` succeeds, and its result has at each key: nothing where the key did not
-- change from `old` to `new`, the new values where `base` lacks the key, and else the base values
-- without one occurrence of each old value, followed by the new values.
pub lookup-diff3 :
    (base old new : Values)
    → IsDistinct (keys old)
    → IsDistinct (keys new)
    → Mergeable base old (diff2 old new)
    → (m : Values) × (diff3 base old new ≡ ok m)
      × ((k : Text)
          → lookup k m
            ≡ merged_at
                (lookup k base)
                (lookup k old)
                (difference_at (lookup k old) (lookup k new)))
unfolding diff3
lookup-diff3 base old new h n able =
    let difference = diff2 old new in
    let result =
      diff3_loop_lem base old difference (keep_changed difference (keys base) base)
        (diff2-IsDistinct old new n) able in
    (
      result.0,
      result.1,
      λ k. rw (sym (lookup-diff2 old new k h)) (
          result.2 k ∙ elim (Option-cases (lookup k difference)) [
            | inl e ↦
                ground
                  (arith, lookup-keep_changed difference (keys base) base k, contains-keys k base)
            | inr (l, e) ↦ ground arith
          ]),
    )
