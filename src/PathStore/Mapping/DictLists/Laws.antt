-- ===== src/PathStore/Mapping/DictLists/Laws.antt =====
-- The operations of `DictList` as changes of the list at a key, where no list is empty.
use pytagsfs.Base.{
  true, contains, Exc, value_error, key_error, remove_first_absent, get_last?-nonempty,
  Option-cases, Bool-cases, inl, inr, eq_refl, ◌≡◌, refl, false, Option, none, some, List, [], ◌∷◌,
  ◌++◌, Text, lookup, insert, Proc, ok, err, get_last?, init, is_empty, remove_first, ◌>>◌, list_eq,
  nat_eq, if◌then◌else◌, arith, lookup-insert, lookup-erase, list_beq_iff, ◌==◌,
}
use pytagsfs.PathStore.Mapping.DictLists.{
  DictList, append_value, clean, pop_and_clean, remove_value,
}

abbrev pub values_at : Text → DictList → List Text
values_at k d = elim (lookup k d) [ none ↦ [] | some l ↦ l ]

-- Every list that is there has an item.
pub record HasNoEmpty (d : DictList) : Type 0 where
  pub at_key : (k : Text) (l : List Text) → lookup k d ≡ some l → is_empty l ≡ false

-- A list as it stands in a dict that drops the empty ones.
abbrev pub nonempty : List Text → Option (List Text)
nonempty [] = none
nonempty (v ∷ l) = some (v ∷ l)

-- `self[k].remove(v)` and `self.clean(k)`
abbrev pub remove_and_clean : Text → Text → Proc DictList
remove_and_clean k v = do remove_value k v; clean k

some-nonempty : (l : List Text) → is_empty l ≡ false → some l ≡ nonempty l
some-nonempty [] e = cc
some-nonempty (v ∷ l) e = refl

nonempty-append : (l : List Text) (v : Text) → nonempty (l ++ v ∷ []) ≡ some (l ++ v ∷ [])
nonempty-append [] v = refl
nonempty-append (x ∷ l) v = refl

pub lookup-nonempty :
    (k : Text) (d : DictList) → HasNoEmpty d → lookup k d ≡ nonempty (values_at k d)
lookup-nonempty k d h = elim (Option-cases (lookup k d)) [
  | inl e ↦ ground arith
  | inr (l, e) ↦ ground (arith, some-nonempty l (h.at_key k l e))
]

nonempty-is_empty : (xs l : List Text) → nonempty xs ≡ some l → is_empty l ≡ false
nonempty-is_empty [] l h = cc
nonempty-is_empty (x ∷ xs) l h = ground arith

-- One key was written, with no empty list.
write-HasNoEmpty :
    (k : Text) (xs : List Text) (d d' : DictList)
    → HasNoEmpty d
    → ((j : Text) → lookup j d' ≡ (if k == j then nonempty xs else lookup j d))
    → HasNoEmpty d'
write-HasNoEmpty k xs d d' h w = record {
  at_key = λ j l p. elim (Bool-cases (k == j)) [
    | inl e ↦ nonempty-is_empty xs l (ground (arith, w j))
    | inr e ↦ h.at_key j l (ground (arith, w j))
  ];
}

values_at_of_write :
    (k : Text) (xs : List Text) (d d' : DictList)
    → ((j : Text) → lookup j d' ≡ (if k == j then nonempty xs else lookup j d))
    → (j : Text) → values_at j d' ≡ (if k == j then xs else values_at j d)
values_at_of_write k [] d d' w j = ground (arith, w j)
values_at_of_write k (x ∷ xs) d d' w j = ground (arith, w j)

module _ (k v : Text) (d : DictList) where
  lookup-append_value :
      (j : Text)
      → lookup j (append_value k v d).1
        ≡ (if k == j then nonempty (values_at k d ++ v ∷ []) else lookup j d)
  unfolding append_value
  lookup-append_value j = elim (Option-cases (lookup k d)) [
    | inl e ↦ ground (arith, lookup-insert k j [] d, lookup-insert k j (v ∷ []) (insert k [] d))
    | inr (l, e) ↦ ground (arith, nonempty-append l v, lookup-insert k j (l ++ v ∷ []) d)
  ]

  pub append_value-HasNoEmpty : HasNoEmpty d → HasNoEmpty (append_value k v d).1
  append_value-HasNoEmpty h = write-HasNoEmpty k _ d _ h lookup-append_value

  pub values_at-append_value :
      (j : Text)
      → values_at j (append_value k v d).1
        ≡ (if k == j then values_at k d ++ v ∷ [] else values_at j d)
  values_at-append_value = values_at_of_write k _ d _ lookup-append_value

  pub append_value-ok : (append_value k v d).0 ≡ ok tt
  unfolding append_value
  append_value-ok = ground arith

  lookup-remove_and_clean :
      HasNoEmpty d
      → (j : Text)
      → lookup j (remove_and_clean k v d).1
        ≡ (if k == j then nonempty (remove_first v (values_at k d)) else lookup j d)
  unfolding remove_value clean remove_first
  lookup-remove_and_clean h j = elim (Option-cases (lookup k d)) [
    | inl e ↦ ground (arith, list_beq_iff k j)
    | inr (l, e) ↦ ground (
      arith,
      lookup-insert k j (remove_first v l) d,
      lookup-insert k k (remove_first v l) d,
      eq_refl k,
      lookup-erase k j (insert k (remove_first v l) d),
      list_beq_iff k j,
      some-nonempty l (h.at_key k l e),
      remove_first_absent v l,
    )
  ]

module _ (k : Text) (d : DictList) (h : HasNoEmpty d) where
  lookup-pop_and_clean :
      (j : Text)
      → lookup j (pop_and_clean k d).1
        ≡ (if k == j then nonempty (init (values_at k d)) else lookup j d)
  unfolding pop_and_clean
  lookup-pop_and_clean j = elim (Option-cases (lookup k d)) [
    | inl e ↦ ground (arith, list_beq_iff k j)
    | inr (l, e) ↦ ground (
      arith,
      lookup-insert k j (init l) d,
      lookup-insert k k (init l) d,
      eq_refl k,
      lookup-erase k j (insert k (init l) d),
      get_last?-nonempty l,
      h.at_key k l e,
    )
  ]

  pub pop_and_clean_result :
      (pop_and_clean k d).0
      ≡ elim (get_last? (values_at k d)) [ none ↦ err key_error | some v ↦ ok v ]
  unfolding pop_and_clean
  pop_and_clean_result = elim (Option-cases (lookup k d)) [
    | inl e ↦ ground arith
    | inr (l, e) ↦
        ground
          (arith, lookup-insert k k (init l) d, eq_refl k, get_last?-nonempty l, h.at_key k l e)
  ]

  pub pop_and_clean-HasNoEmpty : HasNoEmpty (pop_and_clean k d).1
  pop_and_clean-HasNoEmpty = write-HasNoEmpty k _ d _ h lookup-pop_and_clean

  pub values_at-pop_and_clean :
      (j : Text)
      → values_at j (pop_and_clean k d).1 ≡ (if k == j then init (values_at k d) else values_at j d)
  values_at-pop_and_clean = values_at_of_write k _ d _ lookup-pop_and_clean

  pub pop_and_clean-err : get_last? (values_at k d) ≡ none → pop_and_clean k d ≡ (err key_error, d)
  unfolding pop_and_clean
  pop_and_clean-err none_left = elim (Option-cases (lookup k d)) [
    | inl e ↦ ground arith
    | inr (l, e) ↦ ground (arith, get_last?-nonempty l, h.at_key k l e)
  ]

module _ (k v : Text) (d : DictList) (h : HasNoEmpty d) where
  pub remove_and_clean-HasNoEmpty : HasNoEmpty (remove_and_clean k v d).1
  remove_and_clean-HasNoEmpty = write-HasNoEmpty k _ d _ h (lookup-remove_and_clean k v d h)

  pub values_at-remove_and_clean :
      (j : Text)
      → values_at j (remove_and_clean k v d).1
        ≡ (if k == j then remove_first v (values_at k d) else values_at j d)
  values_at-remove_and_clean = values_at_of_write k _ d _ (lookup-remove_and_clean k v d h)

  pub remove_and_clean-ok : contains v (values_at k d) ≡ true → (remove_and_clean k v d).0 ≡ ok tt
  unfolding remove_value clean contains
  remove_and_clean-ok present = elim (Option-cases (lookup k d)) [
    | inl e ↦ ground arith
    | inr (l, e) ↦ ground (arith, lookup-insert k k (remove_first v l) d, eq_refl k)
  ]

  pub remove_and_clean-err :
      contains v (values_at k d) ≡ false → (c : Exc) × (remove_and_clean k v d ≡ (err c, d))
  unfolding remove_value clean contains
  remove_and_clean-err absent = elim (Option-cases (lookup k d)) [
    | inl e ↦ (key_error, ground arith)
    | inr (l, e) ↦ (value_error, ground arith)
  ]
