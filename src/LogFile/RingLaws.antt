-- ===== src/LogFile/RingLaws.antt =====
-- The ring buffer holds the end of all that was written to it.
use mathlib.Core.List.{append_assoc, append-nil}
use Prim.Native.Nat.{zero, suc, ℕ, ◌+◌, ◌-◌, ◌≤◌}
use mathlib.Core.Path.{sym}
use pytagsfs.Base.{
  ◌≡◌, refl, ◌∙◌, ap, ltb, List, [], ◌∷◌, ◌++◌, length, drop, length-append, Bool-cases, inl, inr,
  arith,
}
use pytagsfs.LogFile.{
  Bytes, RingCharacterBuffer, new_buffer, write, write_full, write_growing, write_all, tell,
  getvalue,
}

-- The last `n` bytes.
abbrev pub last_bytes : ℕ → Bytes → Bytes
last_bytes n l = drop (length l - n) l

abbrev pub concat : List Bytes → Bytes
concat [] = []
concat (s ∷ chunks) = s ++ concat chunks

module _ {ℓ} {A : Type ℓ} where
  length-drop : (n : ℕ) (l : List A) → length (drop n l) ≡ length l - n
  length-drop zero l = omega arith
  length-drop (suc n) [] = omega arith
  length-drop (suc n) (x ∷ l) = omega (arith, length-drop n l)

  drop_by : (m n : ℕ) (l : List A) → m ≡ n → drop m l ≡ drop n l
  drop_by m n l e = ap (λ k. drop k l) e

  drop_nil : (m : ℕ) → drop {A = A} m [] ≡ []
  drop_nil zero = refl
  drop_nil (suc m) = refl

  drop-append : (n : ℕ) (l r : List A) → n ≤ length l → drop n l ++ r ≡ drop n (l ++ r)
  drop-append zero l r h = refl
  drop-append (suc n) [] r h = ground arith
  drop-append (suc n) (x ∷ l) r h = drop-append n l r (omega arith)

  drop-drop : (m n : ℕ) (l : List A) → drop m (drop n l) ≡ drop (n + m) l
  drop-drop m zero l = drop_by m (0 + m) l (omega arith)
  drop-drop m (suc n) [] = drop_nil m ∙ sym (drop_nil (suc n + m))
  drop-drop m (suc n) (x ∷ l) =
      drop-drop m n l ∙ drop_by (suc (n + m)) (suc n + m) (x ∷ l) (omega arith)

last_bytes_short : (n : ℕ) (l : Bytes) → length l ≤ n → last_bytes n l ≡ l
last_bytes_short n l h = drop_by (length l - n) 0 l (omega arith)

length-last_bytes : (n : ℕ) (l : Bytes) → length (last_bytes n l) ≡ length l - (length l - n)
length-last_bytes n l = length-drop (length l - n) l

-- What was dropped before is not missed.
last_bytes-append :
    (n : ℕ) (w s : Bytes) → last_bytes n (last_bytes n w ++ s) ≡ last_bytes n (w ++ s)
last_bytes-append n w s =
    ap (last_bytes n) (drop-append (length w - n) w s (omega arith))
    ∙ drop-drop (length (drop (length w - n) (w ++ s)) - n) (length w - n) (w ++ s)
    ∙ drop_by ((length w - n) + (length (drop (length w - n) (w ++ s)) - n)) (length (w ++ s) - n)
        (w ++ s) (omega (arith, length-drop (length w - n) (w ++ s), length-append w s))

-- The buffer after the bytes `w` were written to a new one.
pub record IsRing (max_length : ℕ) (w : Bytes) (b : RingCharacterBuffer) : Type 0 where
  pub bound : b.max_length ≡ max_length
  pub holds : b.buffer ≡ last_bytes max_length w
  pub counts : b.len ≡ length b.buffer
  pub full : b.is_full ≡ ltb max_length (length w)

new_buffer-IsRing : (max_length : ℕ) → IsRing max_length [] (new_buffer max_length)
new_buffer-IsRing max_length = record {
  bound = refl;
  holds = sym (last_bytes_short max_length [] (omega arith));
  counts = refl;
  full = ground arith;
}

write-IsRing :
    (max_length : ℕ) (w s : Bytes) (b : RingCharacterBuffer)
    → IsRing max_length w b
    → IsRing max_length (w ++ s) (write s b)
unfolding write write_full write_growing
write-IsRing max_length w s b h =
    let size = length-append b.buffer s in
    let all = length-append w s in
    let held = ap length h.holds ∙ length-last_bytes max_length w in
    let whole =
      ap (λ l. last_bytes max_length (l ++ s)) h.holds ∙ last_bytes-append max_length w s in
    elim (Bool-cases b.is_full) [
      | inl full ↦ record {
        bound = ground arith;
        holds = ground (
          arith,
          whole,
          drop_by (length s) (length (b.buffer ++ s) - max_length) (b.buffer ++ s) (ground arith),
        );
        counts = ground (arith, length-drop (length s) (b.buffer ++ s));
        full = ground arith;
      }
      | inr growing ↦ elim (Bool-cases (ltb b.max_length (b.len + length s))) [
        | inl more ↦ record {
          bound = ground arith;
          holds = ground (
            arith,
            whole,
            drop_by (b.len + length s - b.max_length) (length (b.buffer ++ s) - max_length)
                (b.buffer ++ s) (ground arith),
          );
          counts = ground (arith, length-drop (b.len + length s - b.max_length) (b.buffer ++ s));
          full = ground arith;
        }
        | inr fits ↦ record {
          bound = ground arith;
          holds = ground (arith, whole, last_bytes_short max_length (b.buffer ++ s) (ground arith));
          counts = ground arith;
          full = ground arith;
        }
      ]
    ]

write_all-IsRing :
    (max_length : ℕ) (chunks : List Bytes) (w : Bytes) (b : RingCharacterBuffer)
    → IsRing max_length w b
    → IsRing max_length (w ++ concat chunks) (write_all chunks b)
unfolding write_all
write_all-IsRing max_length [] w b h = rw (append-nil w) h
write_all-IsRing max_length (s ∷ chunks) w b h =
    rw (sym (append_assoc w s (concat chunks)))
      (write_all-IsRing max_length chunks (w ++ s) (write s b) (write-IsRing max_length w s b h))

-- However the log is cut into chunks, a new ring buffer that they are written to holds the last
-- `max_length` bytes of all of them, whether it filled up or not, and `tell` is their number.
pub getvalue-write_all :
    (max_length : ℕ) (chunks : List Bytes)
    → let b = write_all chunks (new_buffer max_length) in
      (getvalue b ≡ last_bytes max_length (concat chunks)) × (tell b ≡ length (getvalue b))
getvalue-write_all max_length chunks =
    let h =
      write_all-IsRing max_length chunks [] (new_buffer max_length)
        (new_buffer-IsRing max_length) in
    (h.holds, h.counts)
