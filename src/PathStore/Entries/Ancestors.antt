-- ===== src/PathStore/Entries/Ancestors.antt =====
-- The way up a path: it ends, no directory stands on it twice, and its entries are the parts that
-- `split_path` gives.
use pytagsfs.Base.{
  ℕ, zero, suc, ◌+◌, ◌≤◌, ◌<◌, ◌≡◌, refl, ap, ◌∙◌, false, List, [], ◌∷◌, reverse, Text, length,
  contains, IsDistinct, All, arith, list_beq_iff, list_eq, nat_eq, if◌then◌else◌, ok, err,
  value_error,
}
use pytagsfs.Util.Paths.{path_split, split_path, split_path_loop, ends_with_sep}
use pytagsfs.Util.Paths.Laws.{length-path_split}
use pytagsfs.PathStore.Entries.{ancestors, ancestors_loop}
use pytagsfs.PathStore.Entries.Undo.{directories}

-- One more round on the way up.
abbrev pub climb : (Text → List (Text × Text)) → Text × Text → List (Text × Text)
climb rest (head, []) = []
climb rest (head, c ∷ entry) = (head, c ∷ entry) ∷ rest head

ancestors_loop_lem :
    (fuel : ℕ) (path : Text)
    → ancestors_loop (suc fuel) path ≡ climb (ancestors_loop fuel) (path_split path)
unfolding ancestors_loop
ancestors_loop_lem fuel path = ground arith

ancestors_loop_enough :
    (fuel more : ℕ) (path : Text)
    → length path ≤ fuel
    → length path ≤ more
    → ancestors_loop fuel path ≡ ancestors_loop more path
ancestors_loop_enough zero zero path h k = refl
ancestors_loop_enough zero (suc m) [] h k = unfold ancestors_loop path_split in refl
ancestors_loop_enough zero (suc m) (c ∷ path) h k = absurd (omega arith)
ancestors_loop_enough (suc n) zero [] h k = unfold ancestors_loop path_split in refl
ancestors_loop_enough (suc n) zero (c ∷ path) h k = absurd (omega arith)
ancestors_loop_enough (suc n) (suc m) path h k =
    rw (ancestors_loop_lem n path, ancestors_loop_lem m path)
      (go (path_split path) (length-path_split path) (λ p h k. ancestors_loop_enough n m p h k))
  where
    go :
        (t : Text × Text)
        → length t.0 + length t.1 ≤ length path
        → ((p : Text) → length p ≤ n → length p ≤ m → ancestors_loop n p ≡ ancestors_loop m p)
        → climb (ancestors_loop n) t ≡ climb (ancestors_loop m) t
    go (head, []) l ih = refl
    go (head, c ∷ entry) l ih =
        ap (λ rest. (head, c ∷ entry) ∷ rest) (ih head (omega arith) (omega arith))

-- The loop on the way up ends by its own test, for every path: its result is the step taken from
-- the path, followed by the way up from the head.
pub ancestors_lem : (path : Text) → ancestors path ≡ climb ancestors (path_split path)
unfolding ancestors
ancestors_lem [] = unfold ancestors_loop path_split in refl
ancestors_lem (c ∷ path) =
    ancestors_loop_lem (length path) (c ∷ path)
    ∙ go (path_split (c ∷ path)) (length-path_split (c ∷ path))
  where
    go :
        (t : Text × Text)
        → length t.0 + length t.1 ≤ length (c ∷ path)
        → climb (ancestors_loop (length path)) t ≡ climb ancestors t
    go (head, []) l = refl
    go (head, d ∷ entry) l =
        ap (λ rest. (head, d ∷ entry) ∷ rest)
          (ancestors_loop_enough (length path) (length head) head (omega arith) (omega arith))

abbrev AllShorter : ℕ → List Text → Type 0
AllShorter n ds = All (λ d. length d < n) ds

AllShorter-le : (n m : ℕ) (ds : List Text) → n ≤ m → AllShorter n ds → AllShorter m ds
AllShorter-le n m [] h a = tt
AllShorter-le n m (d ∷ ds) h a = (omega arith, AllShorter-le n m ds h a.1)

contains-AllShorter : (p : Text) (ds : List Text) → AllShorter (length p) ds → contains p ds ≡ false
unfolding contains
contains-AllShorter p [] a = refl
contains-AllShorter p (d ∷ ds) a =
    ground (arith, contains-AllShorter p ds a.1, list_beq_iff d p, a.0, λ (e : d ≡ p). ap length e)

ancestors_loop_shape :
    (fuel : ℕ) (path : Text)
    → AllShorter (length path) (directories (ancestors_loop fuel path))
      × IsDistinct (directories (ancestors_loop fuel path))
ancestors_loop_shape zero path = unfold ancestors_loop in (tt, tt)
ancestors_loop_shape (suc fuel) path =
    rw ancestors_loop_lem
      (go (path_split path) (length-path_split path) (λ p. ancestors_loop_shape fuel p))
  where
    go :
        (t : Text × Text)
        → length t.0 + length t.1 ≤ length path
        → ((p : Text)
            → AllShorter (length p) (directories (ancestors_loop fuel p))
              × IsDistinct (directories (ancestors_loop fuel p)))
        → AllShorter (length path) (directories (climb (ancestors_loop fuel) t))
          × IsDistinct (directories (climb (ancestors_loop fuel) t))
    go (head, []) l ih = (tt, tt)
    go (head, c ∷ entry) l ih = (
      (omega arith, AllShorter-le (length head) (length path) _ (omega arith) (ih head).0),
      (contains-AllShorter head _ (ih head).0, (ih head).1),
    )

pub ancestors-IsDistinct : (path : Text) → IsDistinct (directories (ancestors path))
unfolding ancestors
ancestors-IsDistinct path = (ancestors_loop_shape (length path) path).1

pub not-contains-ancestors : (path : Text) → contains path (directories (ancestors path)) ≡ false
unfolding ancestors
not-contains-ancestors path = contains-AllShorter path _ (ancestors_loop_shape (length path) path).0

abbrev pub steps : List (Text × Text) → List Text
steps [] = []
steps ((d, e) ∷ rest) = e ∷ steps rest

split_path_loop-ancestors_loop :
    (fuel : ℕ) (path : Text) → split_path_loop fuel path ≡ steps (ancestors_loop fuel path)
unfolding split_path_loop ancestors_loop
split_path_loop-ancestors_loop zero path = refl
split_path_loop-ancestors_loop (suc fuel) path =
    ground (arith, split_path_loop-ancestors_loop fuel (path_split path).0)

-- `split_path` gives the entries on the way to a path from the top, and refuses a path that ends
-- with a separator.
pub split_path-ancestors :
    (path : Text)
    → split_path path
      ≡ (if ends_with_sep path then err value_error else ok (reverse (steps (ancestors path))))
unfolding split_path ancestors
split_path-ancestors path = rw split_path_loop-ancestors_loop refl
