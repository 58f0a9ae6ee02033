-- ===== src/Values/Laws.antt =====
-- What `combine` gives at each key.
use pytagsfs.Base.{
  inr, inl, ap, Option-cases, All, ◌≡◌, refl, ◌∙◌, Option, none, some, List, [], ◌∷◌, ◌++◌, Text,
  lookup, insert, keys, IsDistinct, arith, list_eq, nat_eq, list_beq_iff, lookup-insert,
  lookup_absent,
}
use pytagsfs.Util.Unique.{unique}
use pytagsfs.Values.{Values, merge, merge_all, unique_values, combine}

-- The lists of two places put together.
abbrev pub join : Option (List Text) → Option (List Text) → Option (List Text)
join none b = b
join (some a) none = some a
join (some a) (some b) = some (a ++ b)

-- All the lists that stand at a key, put together.
abbrev pub gathered : Text → Option (List Text) → List Values → Option (List Text)
gathered k before [] = before
gathered k before (values ∷ rest) = gathered k (join before (lookup k values)) rest

abbrev pub unique? : Option (List Text) → Option (List Text)
unique? none = none
unique? (some l) = some (unique l)

lookup-merge :
    (merged items : Values) (k : Text)
    → IsDistinct (keys items)
    → lookup k (merge merged items) ≡ join (lookup k merged) (lookup k items)
unfolding merge keys lookup
lookup-merge merged [] k h = elim (Option-cases (lookup k merged)) [
  | inl e ↦ ground arith
  | inr (l, e) ↦ ground arith
]
lookup-merge merged ((j, l) ∷ items) k h = elim (Option-cases (lookup j merged)) [
  | inl e ↦ ground (
    arith,
    lookup-merge (insert j l merged) items k h.1,
    lookup-insert j k l merged,
    list_beq_iff j k,
    lookup_absent j items h.0,
  )
  | inr (before, e) ↦ ground (
    arith,
    lookup-merge (insert j (before ++ l) merged) items k h.1,
    lookup-insert j k (before ++ l) merged,
    list_beq_iff j k,
    lookup_absent j items h.0,
  )
]

lookup-merge_all :
    (merged : Values) (list_of_values : List Values) (k : Text)
    → All (λ values. IsDistinct (keys values)) list_of_values
    → lookup k (merge_all merged list_of_values) ≡ gathered k (lookup k merged) list_of_values
unfolding merge_all
lookup-merge_all merged [] k h = refl
lookup-merge_all merged (values ∷ rest) k h =
    lookup-merge_all (merge merged values) rest k h.1
    ∙ ap (λ before. gathered k before rest) (lookup-merge merged values k h.0)

lookup-unique_values : (d : Values) (k : Text) → lookup k (unique_values d) ≡ unique? (lookup k d)
unfolding unique_values lookup
lookup-unique_values [] k = refl
lookup-unique_values ((j, l) ∷ d) k = ground (arith, lookup-unique_values d k)

-- `combine` of dicts in which no key stands twice has at each key the lists that stand there in
-- each of them, put together in their order and without repetitions, and lacks a key that none has.
pub lookup-combine :
    (list_of_values : List Values) (k : Text)
    → All (λ values. IsDistinct (keys values)) list_of_values
    → lookup k (combine list_of_values) ≡ unique? (gathered k none list_of_values)
unfolding combine lookup
lookup-combine list_of_values k h =
    lookup-unique_values (merge_all [] list_of_values) k
    ∙ ap unique? (lookup-merge_all [] list_of_values k h)
