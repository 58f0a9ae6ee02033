-- ===== src/OpenFiles/Bounds.antt =====
-- The handles that `open` returns, in the states that the calls reach.
use pytagsfs.Base.{
  ℕ, zero, suc, ◌+◌, ◌≤◌, ◌<◌, ◌≡◌, refl, sym, ap, ◌∙◌, Option, none, some, List, [], ◌∷◌, Text,
  Result, ok, err, Exc, raise, modify, attribute_error, length, get_elem?, set, arith, Option-cases,
  inl, inr, lookup, list_eq, nat_eq,
}
use pytagsfs.Base.Invariants.{Keeps, Keeps-raise, Keeps-bind, Keeps-if}
use pytagsfs.OpenFiles.{
  File, FileSystem, Os, max_open_files, free_slots, is_writable, thaw, forget_read_only,
  forget_none, file_at, defer_truncate, set_truncate_to,
}
use pytagsfs.OpenFiles.Calls.{open_file, release_file, release, truncate}
use pytagsfs.OpenFiles.Reachable.{Reachable, started, opened, truncated, released}
use pytagsfs.OpenFiles.Slots.{Opens, open_file-Opens}

module _ {ℓ} {A : Type ℓ} where
  length-set : (l : List A) (i : ℕ) (x : A) → length (set l i x) ≡ length l
  length-set [] i x = refl
  length-set (y ∷ l) zero x = refl
  length-set (y ∷ l) (suc i) x = ap suc (length-set l i x)

  get_elem?-bound : (l : List A) (i : ℕ) (x : A) → get_elem? l i ≡ some x → i < length l
  get_elem?-bound [] i x h = cc
  get_elem?-bound (y ∷ l) zero x h = omega arith
  get_elem?-bound (y ∷ l) (suc i) x h = omega (arith, get_elem?-bound l i x h)

ok-injective : {x y : ℕ} → ok x ≡ ok y → x ≡ y
ok-injective e = cc

length-free_slots : (n : ℕ) → length (free_slots n) ≡ n
length-free_slots zero = refl
length-free_slots (suc n) = ap suc (length-free_slots n)

module _ {ℓ} {W : Type ℓ} where
  -- The size of the table.
  abbrev HasSize : ℕ → FileSystem W → Type 0
  HasSize n s = length s.open_files ≡ n

  thaw-HasSize : (n : ℕ) (p : Text) → Keeps (HasSize n) (thaw p)
  unfolding thaw
  thaw-HasSize n p = record { at = λ s e. ground arith }

  forget_read_only-HasSize :
      (n : ℕ) (p : Text) (f : File) → Keeps (HasSize n) (forget_read_only p f)
  unfolding forget_read_only
  forget_read_only-HasSize n p f = record { at = λ s e. ground arith }

  forget_none-HasSize : (n : ℕ) (p : Text) → Keeps (HasSize n) (forget_none p)
  unfolding forget_none
  forget_none-HasSize n p = record { at = λ s e. ground arith }

  file_at-HasSize : (n fh : ℕ) → Keeps (HasSize n) (file_at fh)
  file_at-HasSize n fh = record { at = λ s e. ground arith }

  defer_truncate-HasSize : (n : ℕ) (p : Text) (len : ℕ) → Keeps (HasSize n) (defer_truncate p len)
  unfolding defer_truncate set_truncate_to
  defer_truncate-HasSize n p len = record { at = λ s e. ground arith }

  opened_size :
      (n : ℕ) (s : FileSystem W) (t : Result ℕ × FileSystem W)
      → Opens s.open_files t
      → HasSize n s
      → HasSize n t.1
  opened_size n s (err c, t) h e = ap length h ∙ e
  opened_size n s (ok fh, t) (free, f, h) e = ap length h ∙ length-set s.open_files fh (some f) ∙ e

module _ {ℓ} {W : Type ℓ} (os : Os W) where
  truncate-HasSize : (n : ℕ) (p : Text) (len : ℕ) → Keeps (HasSize n) (truncate os p len)
  unfolding truncate
  truncate-HasSize n p len = record {
    at = λ s e. elim (Option-cases (lookup p s.frozen_path_mappings)) [
      | inl h ↦ rw (h, truncate) ((defer_truncate-HasSize n p len).at s e)
      | inr (f, h) ↦ rw (h, truncate) e
    ];
  }

  release_file-HasSize :
      (n : ℕ) (p : Text) (flags : ℕ) (f : Option File)
      → Keeps (HasSize n) (release_file os p flags f)
  unfolding release_file
  release_file-HasSize n p flags none =
      Keeps-if (is_writable flags) (raise attribute_error) (forget_none p)
        (Keeps-raise attribute_error) (forget_none-HasSize n p)
  release_file-HasSize n p flags (some f) =
      Keeps-bind _ _
        (Keeps-if (is_writable flags) (thaw p) (forget_read_only p f) (thaw-HasSize n p)
          (forget_read_only-HasSize n p f))
        λ _. record { at = λ s e. e }

  release-HasSize : (n : ℕ) (p : Text) (flags fh : ℕ) → Keeps (HasSize n) (release os p flags fh)
  unfolding release
  release-HasSize n p flags fh = Keeps-bind (file_at fh) _ (file_at-HasSize n fh) λ f.
      Keeps-bind (modify (λ s. record s { open_files = set s.open_files fh none })) _
        (record { at = λ s e. length-set s.open_files fh none ∙ e })
        λ _. release_file-HasSize n p flags f

  Reachable-HasSize : (s : FileSystem W) → Reachable os s → HasSize (max_open_files + 1) s
  Reachable-HasSize _ (started w) = length-free_slots (max_open_files + 1)
  Reachable-HasSize _ (opened p flags s r) =
      opened_size _ s (open_file os p flags s) (open_file-Opens os p flags s)
        (Reachable-HasSize s r)
  Reachable-HasSize _ (truncated p len s r) =
      (truncate-HasSize _ p len).at s (Reachable-HasSize s r)
  Reachable-HasSize _ (released fh flags f s r e same) =
      (release-HasSize _ f.fake_path flags fh).at s (Reachable-HasSize s r)

  -- In every state that is reached by calls of `open`, `truncate` and `release`, where `open` returns
  -- a handle it is at most the number of files that may be open, its slot was free, and the table is
  -- the one before with a file in that slot. Where `open` raises, the table is the one before.
  pub open_file-bounds :
      (p : Text) (flags : ℕ) (s : FileSystem W)
      → Reachable os s
      → ((fh : ℕ)
          → (open_file os p flags s).0 ≡ ok fh
          → (fh ≤ max_open_files)
            × (get_elem? s.open_files fh ≡ some none)
            × (f : File) × ((open_file os p flags s).1.open_files ≡ set s.open_files fh (some f)))
        × ((c : Exc)
            → (open_file os p flags s).0 ≡ err c
            → (open_file os p flags s).1.open_files ≡ s.open_files)
  open_file-bounds p flags s r = go (open_file os p flags s) (open_file-Opens os p flags s)
    where
      go :
          (t : Result ℕ × FileSystem W)
          → Opens s.open_files t
          → ((fh : ℕ)
              → t.0 ≡ ok fh
              → (fh ≤ max_open_files)
                × (get_elem? s.open_files fh ≡ some none)
                × (f : File) × (t.1.open_files ≡ set s.open_files fh (some f)))
            × ((c : Exc) → t.0 ≡ err c → t.1.open_files ≡ s.open_files)
      go (err c, t) h = (λ fh e. cc, λ d e. h)
      go (ok i, t) (free, f, h) = (
        λ fh e.
            let same = ok-injective e in
            (
              omega (arith, same, get_elem?-bound s.open_files i none free, Reachable-HasSize s r),
              ap (get_elem? s.open_files) (sym same) ∙ free,
              f,
              h ∙ ap (λ j. set s.open_files j (some f)) same,
            ),
        λ c e. cc,
      )
