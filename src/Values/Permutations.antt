-- ===== src/Values/Permutations.antt =====
-- What `iter_permutations` yields.
use Prim.Native.Nat.{ℕ, ◌*◌}
use pytagsfs.Base.{
  ◌==◌, eq_refl, ◌≡◌, refl, Bool, true, false, Option, none, some, List, [], ◌∷◌, Text, Dict,
  lookup, insert, contains, length, length-append, All, All-append, arith, list_eq, nat_eq,
  lookup-insert,
}
use pytagsfs.Values.{Values, with_each, extend_all, iter_permutations}

-- A value of a list of values, and no value of a key that is not there.
abbrev pub picks : Option (List Text) → Option Text → Bool
picks none none = true
picks none (some v) = false
picks (some l) none = false
picks (some l) (some v) = contains v l

-- `d` has for each key of `values` one of its values, and no other key.
abbrev pub IsPermutation : Values → Dict Text Text → Type 0
IsPermutation values d = (k : Text) → picks (lookup k values) (lookup k d) ≡ true

-- The number of ways to pick a value for each key.
abbrev pub combinations : Values → ℕ
combinations [] = 1
combinations ((k, l) ∷ values) = combinations values * length l

length-with_each :
    (key : Text) (l : List Text) (d : Dict Text Text) → length (with_each key l d) ≡ length l
unfolding with_each
length-with_each key [] d = refl
length-with_each key (v ∷ l) d = omega (arith, length-with_each key l (insert key v d))

length-extend_all :
    (key : Text) (l : List Text) (ds : List (Dict Text Text))
    → length (extend_all key l ds) ≡ length ds * length l
unfolding extend_all
length-extend_all key l [] = omega arith
length-extend_all key l (d ∷ ds) = grind (
  arith,
  length-append (with_each key l d) (extend_all key l ds),
  length-with_each key l d,
  length-extend_all key l ds,
)

-- There are as many permutations as ways to pick a value for each key.
pub length-iter_permutations :
    (values : Values) → length (iter_permutations values) ≡ combinations values
unfolding iter_permutations
length-iter_permutations [] = refl
length-iter_permutations ((key, l) ∷ values) =
    grind
      (arith, length-extend_all key l (iter_permutations values), length-iter_permutations values)

-- A dict that picks for each key but `key`, whatever it has there.
abbrev IsPermutationButFor : Text → Values → Dict Text Text → Type 0
IsPermutationButFor key values d =
    (k : Text) → (key == k) ≡ false → picks (lookup k values) (lookup k d) ≡ true

with_each-IsPermutation :
    (key : Text) (all l : List Text) (values : Values) (d : Dict Text Text)
    → ((v : Text) → contains v l ≡ true → contains v all ≡ true)
    → IsPermutationButFor key values d
    → All (IsPermutation ((key, all) ∷ values)) (with_each key l d)
unfolding with_each lookup contains
with_each-IsPermutation key all [] values d among h = tt
with_each-IsPermutation key all (v ∷ l) values d among h = (
  λ k. ground (arith, h k, lookup-insert key k v d, among v, eq_refl v),
  with_each-IsPermutation key all l values (insert key v d) (λ w into. among w (ground arith))
      (λ k other. ground (arith, h k other, lookup-insert key k v d)),
)

extend_all-IsPermutation :
    (key : Text) (l : List Text) (values : Values) (ds : List (Dict Text Text))
    → All (IsPermutation values) ds
    → All (IsPermutation ((key, l) ∷ values)) (extend_all key l ds)
unfolding extend_all
extend_all-IsPermutation key l values [] h = tt
extend_all-IsPermutation key l values (d ∷ ds) h =
    All-append (IsPermutation ((key, l) ∷ values)) (with_each key l d) (extend_all key l ds)
      (with_each-IsPermutation key l l values d (λ v into. into) (λ k other. h.0 k))
      (extend_all-IsPermutation key l values ds h.1)

-- Each dict that `iter_permutations` yields has one of its values for each key of `values`, and no
-- other key.
pub iter_permutations-IsPermutation :
    (values : Values) → All (IsPermutation values) (iter_permutations values)
unfolding iter_permutations lookup
iter_permutations-IsPermutation [] = (λ k. refl, tt)
iter_permutations-IsPermutation ((key, l) ∷ values) =
    extend_all-IsPermutation key l values (iter_permutations values)
      (iter_permutations-IsPermutation values)
