-- ===== src/Util/Unique/Laws.antt =====
-- What `unique` and `last_unique` keep, and the equation that the docstring of the second states.
use mathlib.Core.List.{append-nil, reverse-append, append_assoc}
use pytagsfs.Base.{
  ◌≡◌, refl, sym, ◌∙◌, ap, false, List, [], ◌∷◌, ◌++◌, reverse, arith, Eq, IsDistinct,
  remove_first-IsDistinct, append-IsDistinct, contains-remove_first_self, contains-reverse,
  Bool-cases, inl, inr, contains, remove_first, count, contains-append, if◌then◌else◌,
}
use pytagsfs.Util.Unique.{unique, unique_loop, last_unique, last_unique_loop}

module _ {ℓ} {A : Type ℓ} ⦃e : Eq A⦄ where
  count-unique_loop :
      (a : A) (seen items : List A)
      → count a (unique_loop seen items)
        ≡ (if contains a seen then 0 else if contains a items then 1 else 0)
  unfolding unique_loop count contains
  count-unique_loop a seen [] = ground arith
  count-unique_loop a seen (x ∷ items) = ground (
    arith,
    count-unique_loop a (seen ++ x ∷ []) items,
    contains-append a seen (x ∷ []),
    e.beq_iff x a,
  )

  -- Each item of the input stands in the result exactly once, and nothing else does.
  pub count-unique :
      (a : A) (items : List A) → count a (unique items) ≡ (if contains a items then 1 else 0)
  unfolding unique contains
  count-unique a items = count-unique_loop a [] items

  unique_loop-append :
      (seen items : List A) (x : A)
      → unique_loop seen (items ++ x ∷ [])
        ≡ unique_loop seen items ++ (if contains x (seen ++ items) then [] else x ∷ [])
  unfolding unique_loop
  unique_loop-append seen [] x = rw append-nil refl
  unique_loop-append seen (y ∷ items) x = elim (Bool-cases (contains y seen)) [
    | inl old ↦ rw old (unique_loop-append (seen ++ y ∷ []) items x ∙ rw append_assoc)
    | inr new ↦
        rw new (ap (λ l. y ∷ l) (unique_loop-append (seen ++ y ∷ []) items x ∙ rw append_assoc))
  ]

  unique-append :
      (items : List A) (x : A)
      → unique (items ++ x ∷ []) ≡ unique items ++ (if contains x items then [] else x ∷ [])
  unfolding unique
  unique-append items x = unique_loop-append [] items x

  -- An item is kept where it does not come again.
  keep_last : List A → List A
  keep_last [] = []
  keep_last (x ∷ xs) = let rest = keep_last xs in if contains x xs then rest else x ∷ rest

  -- The items of the second list that are not in the first.
  without : List A → List A → List A
  without xs [] = []
  without xs (r ∷ rs) = let rest = without xs rs in if contains r xs then rest else r ∷ rest

  without-append :
      (xs rs : List A) (x : A)
      → without xs (rs ++ x ∷ []) ≡ without xs rs ++ (if contains x xs then [] else x ∷ [])
  unfolding without
  without-append xs [] x = refl
  without-append xs (r ∷ rs) x = ground (arith, without-append xs rs x)

  without_fresh :
      (x : A) (xs rs : List A) → contains x rs ≡ false → without (x ∷ xs) rs ≡ without xs rs
  unfolding without contains
  without_fresh x xs [] h = refl
  without_fresh x xs (r ∷ rs) h =
      ground (arith, without_fresh x xs rs, e.beq_iff x r, e.beq_iff r x)

  without-remove_first :
      (x : A) (xs rs : List A)
      → IsDistinct rs
      → without xs (remove_first x rs) ≡ without (x ∷ xs) rs
  unfolding without remove_first contains
  without-remove_first x xs [] d = refl
  without-remove_first x xs (r ∷ rs) d =
      ground (
        arith,
        without-remove_first x xs rs d.1,
        without_fresh x xs rs,
        e.beq_iff r x,
        e.beq_iff x r,
      )

  without-nil : (rs : List A) → without [] rs ≡ rs
  unfolding without contains
  without-nil [] = refl
  without-nil (r ∷ rs) = ap (λ l. r ∷ l) (without-nil rs)

  last_unique_loop_lem :
      (rs xs : List A) → IsDistinct rs → last_unique_loop rs xs ≡ without xs rs ++ keep_last xs
  unfolding last_unique_loop keep_last
  last_unique_loop_lem rs [] d = sym (rw (without-nil, append-nil) refl)
  last_unique_loop_lem rs (x ∷ xs) d =
      last_unique_loop_lem (remove_first x rs ++ x ∷ []) xs (
        append-IsDistinct (remove_first x rs) x (remove_first-IsDistinct x rs d)
          (contains-remove_first_self x rs d))
      ∙ rw (without-append, without-remove_first x xs rs d, append_assoc)
          (ap (λ l. without (x ∷ xs) rs ++ l) (ground arith))

  keep_last_lem : (xs : List A) → keep_last xs ≡ reverse (unique (reverse xs))
  unfolding keep_last
  keep_last_lem [] = unfold unique unique_loop in refl
  keep_last_lem (x ∷ xs) =
      rw
        (
          reverse-append (x ∷ []) xs,
          unique-append,
          contains-reverse,
          reverse-append,
          ← keep_last_lem xs,
        )
        (ground arith)

  -- `last_unique l` is `list(reversed(list(unique(reversed(l)))))`, for every list.
  pub last_unique-unique : (items : List A) → last_unique items ≡ reverse (unique (reverse items))
  unfolding last_unique keep_last without
  last_unique-unique items = last_unique_loop_lem [] items tt ∙ keep_last_lem items
