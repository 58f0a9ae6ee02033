-- ===== src/Base/Lists.antt =====
-- Python's list operations over native numbers, and their laws.
use Prim.Native.Nat.{ℕ, zero, suc, ◌+◌, ◌-◌, ◌<◌}
use mathlib.Core.Path.{◌≡◌, refl, ap, ◌∙◌}
use mathlib.Core.Logic.{inl, inr}
use mathlib.Core.Bool.{Bool, true, false, ◌||◌}
use mathlib.Core.List.{List, [], ◌∷◌, ◌++◌, reverse, reverse-append}
use mathlib.Core.Option.{Option, none, some}
use native.Mathlib.Omega.{arith}
use pytagsfs.Base.Tests.{Bool-cases, if◌then◌else◌}
use pytagsfs.Base.Equality.{Eq, ◌==◌}

module _ {ℓ} {A : Type ℓ} where
  abbrev pub length : List A → ℕ
  length [] = 0
  length (x ∷ xs) = suc (length xs)

  abbrev pub get_elem? : List A → ℕ → Option A
  get_elem? [] i = none
  get_elem? (x ∷ xs) zero = some x
  get_elem? (x ∷ xs) (suc i) = get_elem? xs i

  -- l[i] = v, within bounds
  abbrev pub set : List A → ℕ → A → List A
  set [] i v = []
  set (x ∷ xs) zero v = v ∷ xs
  set (x ∷ xs) (suc i) v = x ∷ set xs i v

  -- del l[i], within bounds
  abbrev pub delete_at : List A → ℕ → List A
  delete_at [] i = []
  delete_at (x ∷ xs) zero = xs
  delete_at (x ∷ xs) (suc i) = x ∷ delete_at xs i

  abbrev pub take : ℕ → List A → List A
  take zero xs = []
  take (suc n) [] = []
  take (suc n) (x ∷ xs) = x ∷ take n xs

  abbrev pub drop : ℕ → List A → List A
  drop zero xs = xs
  drop (suc n) [] = []
  drop (suc n) (x ∷ xs) = drop n xs

  -- l[-1]
  abbrev pub get_last? : List A → Option A
  get_last? [] = none
  get_last? (x ∷ []) = some x
  get_last? (x ∷ y ∷ xs) = get_last? (y ∷ xs)

  -- l[:-1], what `pop` leaves
  abbrev pub init : List A → List A
  init [] = []
  init (x ∷ []) = []
  init (x ∷ y ∷ xs) = x ∷ init (y ∷ xs)

  -- not l
  abbrev pub is_empty : List A → Bool
  is_empty [] = true
  is_empty (x ∷ xs) = false

  abbrev pub All {κ} : (A → Type κ) → List A → Type κ
  All P [] = Unit
  All P (x ∷ xs) = P x × All P xs

module _ {ℓ} {A : Type ℓ} where
  pub length-append : (xs ys : List A) → length (xs ++ ys) ≡ length xs + length ys
  length-append [] ys = omega arith
  length-append (x ∷ xs) ys = omega (arith, length-append xs ys)

  pub get_last?-append : (xs : List A) (x : A) → get_last? (xs ++ x ∷ []) ≡ some x
  get_last?-append [] x = refl
  get_last?-append (y ∷ []) x = refl
  get_last?-append (y ∷ z ∷ xs) x = get_last?-append (z ∷ xs) x

  pub get_last?-nonempty : (xs : List A) → get_last? xs ≡ none → is_empty xs ≡ true
  get_last?-nonempty [] h = refl
  get_last?-nonempty (x ∷ []) h = cc
  get_last?-nonempty (x ∷ y ∷ xs) h = cc (get_last?-nonempty (y ∷ xs) h)

  pub init-append : (xs : List A) (x : A) → init (xs ++ x ∷ []) ≡ xs
  init-append [] x = refl
  init-append (y ∷ []) x = refl
  init-append (y ∷ z ∷ xs) x = ap (λ l. y ∷ l) (init-append (z ∷ xs) x)

  pub delete_at-append : (xs : List A) (x : A) → delete_at (xs ++ x ∷ []) (length xs) ≡ xs
  delete_at-append [] x = refl
  delete_at-append (y ∷ xs) x = ap (λ l. y ∷ l) (delete_at-append xs x)

module _ {ℓ} {A : Type ℓ} ⦃e : Eq A⦄ where
  -- x in l
  unfoldable pub contains : A → List A → Bool
  contains a [] = false
  contains a (x ∷ xs) = x == a || contains a xs

  -- l.remove(x), which takes the first; the caller raises where it is absent
  unfoldable pub remove_first : A → List A → List A
  remove_first a [] = []
  remove_first a (x ∷ xs) = if x == a then xs else x ∷ remove_first a xs

  -- l.index(x), `none` for a ValueError
  unfoldable pub index_of : A → List A → Option ℕ
  index_of a [] = none
  index_of a (x ∷ xs) =
      if x == a then some 0 else elim (index_of a xs) [ none ↦ none | some i ↦ some (suc i) ]

  unfoldable pub count : A → List A → ℕ
  count a [] = 0
  count a (x ∷ xs) = (if x == a then 1 else 0) + count a xs

  pub contains-append :
      (a : A) (xs ys : List A) → contains a (xs ++ ys) ≡ (contains a xs || contains a ys)
  unfolding contains
  contains-append a [] ys = refl
  contains-append a (x ∷ xs) ys = ground (arith, contains-append a xs ys)

  pub count-append : (a : A) (xs ys : List A) → count a (xs ++ ys) ≡ count a xs + count a ys
  unfolding count
  count-append a [] ys = omega arith
  count-append a (x ∷ xs) ys = omega (arith, count-append a xs ys)

  pub count_pos-contains : (a : A) (xs : List A) → contains a xs ≡ true → 0 < count a xs
  unfolding contains count
  count_pos-contains a [] h = cc
  count_pos-contains a (x ∷ xs) h = ground (arith, count_pos-contains a xs)

  pub contains-count_pos : (a : A) (xs : List A) → 0 < count a xs → contains a xs ≡ true
  unfolding contains count
  contains-count_pos a [] h = elim h [ ]
  contains-count_pos a (x ∷ xs) h = ground (arith, contains-count_pos a xs)

  pub count-remove_first :
      (a b : A) (xs : List A)
      → count b (remove_first a xs) ≡ (if a == b then count b xs - 1 else count b xs)
  unfolding count remove_first
  count-remove_first a b [] = ground arith
  count-remove_first a b (x ∷ xs) = ground (
    arith,
    count-remove_first a b xs,
    e.beq_iff x a,
    e.beq_iff x b,
    e.beq_iff a b,
    count_pos-contains a xs,
  )

  -- No item stands twice.
  abbrev pub IsDistinct : List A → Type 0
  IsDistinct [] = Unit
  IsDistinct (x ∷ xs) = (contains x xs ≡ false) × IsDistinct xs

  pub contains-remove_first :
      (a b : A) (xs : List A) → contains b (remove_first a xs) ≡ true → contains b xs ≡ true
  unfolding contains remove_first
  contains-remove_first a b [] h = h
  contains-remove_first a b (x ∷ xs) h = ground (arith, contains-remove_first a b xs)

  pub contains-remove_first_self :
      (a : A) (xs : List A) → IsDistinct xs → contains a (remove_first a xs) ≡ false
  unfolding contains remove_first
  contains-remove_first_self a [] h = refl
  contains-remove_first_self a (x ∷ xs) h =
      ground (arith, contains-remove_first_self a xs h.1, e.beq_iff x a)

  pub remove_first-IsDistinct :
      (a : A) (xs : List A) → IsDistinct xs → IsDistinct (remove_first a xs)
  unfolding remove_first
  remove_first-IsDistinct a [] h = tt
  remove_first-IsDistinct a (x ∷ xs) h = elim (Bool-cases (x == a)) [
    | inl same ↦ rw same h.1
    | inr other ↦
        rw other (ground (arith, contains-remove_first a x xs), remove_first-IsDistinct a xs h.1)
  ]

  pub append-IsDistinct :
      (xs : List A) (x : A) → IsDistinct xs → contains x xs ≡ false → IsDistinct (xs ++ x ∷ [])
  unfolding contains
  append-IsDistinct [] x h fresh = (refl, tt)
  append-IsDistinct (y ∷ xs) x h fresh = (
    ground (arith, contains-append y xs (x ∷ []), e.beq_iff x y, e.beq_iff y x),
    append-IsDistinct xs x h.1 (ground arith),
  )

  pub contains-reverse : (a : A) (xs : List A) → contains a (reverse xs) ≡ contains a xs
  unfolding contains
  contains-reverse a [] = refl
  contains-reverse a (x ∷ xs) =
      rw (reverse-append (x ∷ []) xs)
        (ground (arith, contains-append a (reverse xs) (x ∷ []), contains-reverse a xs))

  pub remove_first_absent : (a : A) (xs : List A) → contains a xs ≡ false → remove_first a xs ≡ xs
  unfolding contains remove_first
  remove_first_absent a [] h = refl
  remove_first_absent a (x ∷ xs) h = ground (arith, remove_first_absent a xs)

  pub count-init :
      (a v : A) (xs : List A)
      → get_last? xs ≡ some v
      → count a xs ≡ count a (init xs) + (if v == a then 1 else 0)
  unfolding count
  count-init a v [] h = cc
  count-init a v (x ∷ []) h = ground arith
  count-init a v (x ∷ y ∷ xs) h = omega (arith, count-init a v (y ∷ xs) h)

module _ {ℓ} {A : Type ℓ} where
  pub length-reverse : (xs : List A) → length (reverse xs) ≡ length xs
  length-reverse [] = refl
  length-reverse (x ∷ xs) =
      rw (reverse-append (x ∷ []) xs)
        (omega (arith, length-append (reverse xs) (x ∷ []), length-reverse xs))

  pub All-append {κ} : (P : A → Type κ) (l r : List A) → All P l → All P r → All P (l ++ r)
  All-append P [] r none_left right = right
  All-append P (a ∷ l) r left right = (left.0, All-append P l r left.1 right)

  pub All-left {κ} : (P : A → Type κ) (l r : List A) → All P (l ++ r) → All P l
  All-left P [] r h = tt
  All-left P (a ∷ l) r h = (h.0, All-left P l r h.1)

  pub All-right {κ} : (P : A → Type κ) (l r : List A) → All P (l ++ r) → All P r
  All-right P [] r h = h
  All-right P (a ∷ l) r h = All-right P l r h.1

  pub All-reverse {κ} : (P : A → Type κ) (xs : List A) → All P xs → All P (reverse xs)
  All-reverse P [] h = tt
  All-reverse P (x ∷ xs) h =
      rw (reverse-append (x ∷ []) xs)
        (All-append P (reverse xs) (x ∷ []) (All-reverse P xs h.1) (h.0, tt))

module _ {ℓ} {A : Type ℓ} ⦃e : Eq A⦄ where
  pub reverse-IsDistinct : (xs : List A) → IsDistinct xs → IsDistinct (reverse xs)
  reverse-IsDistinct [] h = tt
  reverse-IsDistinct (x ∷ xs) h =
      rw (reverse-append (x ∷ []) xs)
        (append-IsDistinct (reverse xs) x (reverse-IsDistinct xs h.1) (contains-reverse x xs ∙ h.0))
