-- ===== src/OpenFiles/Reachable.antt =====
-- The states that `open`, `release` and `truncate` reach, where each handle is released once with
-- the path and the mode that it was opened with.
use Prim.Native.Nat.{ℕ, zero, suc}
use pytagsfs.Base.{
  ◌≡◌, refl, sym, nat_beq, some, Text, lookup, get_elem?, is_none, arith, list_eq, nat_eq,
}
use pytagsfs.OpenFiles.Calls.{release, open_file, truncate}
use pytagsfs.OpenFiles.{free_slots, File, FileSystem, Os, is_writable, new_file_system}
use pytagsfs.OpenFiles.Balance.{handles, IsBalanced, frozen_count, open_file-Keeps}
use pytagsfs.OpenFiles.Closing.{release-IsBalanced, truncate-Keeps}

module _ {ℓ} {W : Type ℓ} (os : Os W) where
  -- The states that the calls reach from a new table.
  pub data Reachable : FileSystem W → Type ℓ where
    started : (w : W) → Reachable (new_file_system w)
    opened :
        (p : Text) (flags : ℕ) (s : FileSystem W)
        → Reachable s
        → Reachable (open_file os p flags s).1
    truncated :
        (p : Text) (len : ℕ) (s : FileSystem W) → Reachable s → Reachable (truncate os p len s).1
    released :
        (fh flags : ℕ) (f : File) (s : FileSystem W)
        → Reachable s
        → get_elem? s.open_files fh ≡ some (some f)
        → is_writable flags ≡ is_writable f.flags
        → Reachable (release os f.fake_path flags fh s).1

handles-free_slots : (p : Text) (n : ℕ) → handles p (free_slots n) ≡ 0
handles-free_slots p zero = refl
handles-free_slots p (suc n) = omega (arith, handles-free_slots p n)

module _ {ℓ} {W : Type ℓ} (os : Os W) where
  Reachable-IsBalanced : (s : FileSystem W) → Reachable os s → IsBalanced s
  unfolding lookup
  Reachable-IsBalanced _ (started w) = record {
    counted = λ p. sym (handles-free_slots p 1025);
    present = λ p. ground (arith, handles-free_slots p 1025);
  }
  Reachable-IsBalanced _ (opened p flags s r) =
      (open_file-Keeps os p flags).at s (Reachable-IsBalanced s r)
  Reachable-IsBalanced _ (truncated p len s r) =
      (truncate-Keeps os p len).at s (Reachable-IsBalanced s r)
  Reachable-IsBalanced _ (released fh flags f s r e same) =
      release-IsBalanced os flags fh f s (Reachable-IsBalanced s r) e same

  -- In every state that is reached by calls of `open`, `truncate` and `release`, whether they
  -- return or raise, where a handle is released with the path and the mode that it was opened with,
  -- a path is frozen exactly while some handle is open for writing at it, and the count of its
  -- frozen mapping is the number of those handles.
  pub frozen_lem :
      (s : FileSystem W) (p : Text)
      → Reachable os s
      → (is_none (lookup p s.frozen_path_mappings) ≡ nat_beq (handles p s.open_files) 0)
        × (frozen_count (lookup p s.frozen_path_mappings) ≡ handles p s.open_files)
  frozen_lem s p r = let h = Reachable-IsBalanced s r in (h.present p, h.counted p)
