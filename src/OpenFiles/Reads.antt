-- ===== src/OpenFiles/Reads.antt =====
-- `read` and the size in `fgetattr` of `ReadOnlyFile` of modules/pytagsfs/file.py. What the real
-- file holds is an argument: `seek` and `read` of a file give its bytes from an offset on.
use pytagsfs.Base.{
  ℕ, zero, suc, ◌-◌, ◌≡◌, refl, ap, ◌∙◌, sym, Option, none, some, List, [], ◌∷◌, length, take, drop,
  ltb, arith, if◌then◌else◌,
}
use pytagsfs.OpenFiles.{shown_size}

-- A truncated file is read up to its new end. Subtraction stops at 0, as the code's test does.
unfoldable pub read_length : Option ℕ → ℕ → ℕ → ℕ
read_length none count offset = count
read_length (some truncate_to) count offset = truncate_to - offset

unfoldable pub read_only_read : Option ℕ → ℕ → ℕ → List ℕ → List ℕ
unfolding read_length
read_only_read truncate_to count offset content =
    take (read_length truncate_to count offset) (drop offset content)

-- st_size of `fgetattr`
unfoldable pub fgetattr_size : Option ℕ → List ℕ → ℕ
unfolding shown_size
fgetattr_size truncate_to content = shown_size (length content) truncate_to

take_none : (n : ℕ) → take {A = ℕ} n [] ≡ []
take_none zero = refl
take_none (suc n) = refl

take-drop :
    (t offset : ℕ) (content : List ℕ)
    → take (t - offset) (drop offset content) ≡ drop offset (take t content)
take-drop t zero content = ap (λ n. take n content) {y = t} (omega arith)
take-drop zero (suc offset) content =
    ap (λ n. take n (drop (suc offset) content)) {y = 0} (omega arith)
take-drop (suc t) (suc offset) [] = take_none (suc t - suc offset)
take-drop (suc t) (suc offset) (c ∷ content) =
    ap (λ n. take n (drop offset content)) {y = t - offset} (omega arith)
    ∙ take-drop t offset content

length-take :
    (t : ℕ) (content : List ℕ)
    → length (take t content) ≡ (if ltb t (length content) then t else length content)
length-take zero [] = ground arith
length-take zero (c ∷ content) = ground arith
length-take (suc t) [] = ground arith
length-take (suc t) (c ∷ content) = ground (arith, length-take t content)

-- A read-only file that was truncated is read as if it were cut off there: a read at an offset gives
-- all that is left of the file, cut at the truncated length, however many bytes were asked for, and
-- the size that `fgetattr` shows is the number of bytes of the file, cut at that length.
pub read_only_read_lem :
    (truncate_to count offset : ℕ) (content : List ℕ)
    → (read_only_read (some truncate_to) count offset content
        ≡ drop offset (take truncate_to content))
      × (fgetattr_size (some truncate_to) content ≡ length (take truncate_to content))
unfolding read_only_read read_length fgetattr_size shown_size
read_only_read_lem truncate_to count offset content =
    (take-drop truncate_to offset content, sym (length-take truncate_to content))
