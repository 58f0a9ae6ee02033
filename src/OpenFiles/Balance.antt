-- ===== src/OpenFiles/Balance.antt =====
-- A path is frozen exactly while a handle on it is open for writing.
use pytagsfs.OpenFiles.Calls.{
  open_to_read, truncate_opened, open_to_write, read_write_file, open_file, create_file,
}
use Prim.Native.Nat.{ℕ, zero, suc, ◌+◌}
use pytagsfs.Base.{
  gets, Result, value_error, pure, raise, continue, ◌≡◌, refl, Bool, true, false, if◌then◌else◌,
  ◌&&◌, ◌==◌, nat_beq, Option, none, some, List, [], ◌∷◌, Text, Dict, lookup, insert, set,
  get_elem?, is_none, Option-cases, inl, inr, arith, Exec, list_eq, nat_eq, list_beq_iff,
  lookup-insert,
}
use pytagsfs.Base.Invariants.{Keeps, Keeps-pure, Keeps-bind, Keeps-if}
use pytagsfs.OpenFiles.{
  pop_truncated, outside, del_truncate_to, note, place, FrozenPath, File, FileSystem, Os,
  is_writable, free_slot, frozen_path, get_next_fh, freeze, note_read_only, install, increment,
}

-- One for a slot that holds a file open for writing at a path.
abbrev pub weight : Text → Option File → ℕ
weight p none = 0
weight p (some f) = if is_writable f.flags && f.fake_path == p then 1 else 0

-- The handles open for writing at a path.
abbrev pub handles : Text → List (Option File) → ℕ
handles p [] = 0
handles p (slot ∷ slots) = weight p slot + handles p slots

abbrev pub frozen_count : Option FrozenPath → ℕ
frozen_count none = 0
frozen_count (some f) = f.count

-- The count of each frozen path is the number of its handles, and no path stays frozen at zero.
pub record IsBalance (frozen : Dict Text FrozenPath) (slots : List (Option File)) : Type 0 where
  pub counted : (p : Text) → frozen_count (lookup p frozen) ≡ handles p slots
  pub present : (p : Text) → is_none (lookup p frozen) ≡ nat_beq (handles p slots) 0

module _ {ℓ} {W : Type ℓ} where
  abbrev pub IsBalanced : FileSystem W → Type 0
  IsBalanced s = IsBalance s.frozen_path_mappings s.open_files

pub handles-set :
    (p : Text) (slots : List (Option File)) (fh : ℕ) (old new : Option File)
    → get_elem? slots fh ≡ some old
    → handles p (set slots fh new) + weight p old ≡ handles p slots + weight p new
handles-set p [] fh old new e = cc
handles-set p (slot ∷ slots) zero old new e = ground arith
handles-set p (slot ∷ slots) (suc fh) old new e = omega (arith, handles-set p slots fh old new e)

pub free_slot_lem :
    (slots : List (Option File)) (fh : ℕ)
    → free_slot slots ≡ some fh
    → get_elem? slots fh ≡ some none
unfolding free_slot
free_slot_lem [] fh e = cc
free_slot_lem (none ∷ slots) fh e = ground arith
free_slot_lem (some f ∷ slots) fh e = elim (Option-cases (free_slot slots)) [
  | inl e' ↦ ground arith
  | inr (i, e') ↦ ground (arith, free_slot_lem slots i e')
]

freeze-IsBalance :
    (frozen : Dict Text FrozenPath) (slots : List (Option File)) (fh : ℕ) (f : File)
    → IsBalance frozen slots
    → get_elem? slots fh ≡ some none
    → is_writable f.flags ≡ true
    → IsBalance
        (insert f.fake_path
          (increment (frozen_path f.real_path (lookup f.fake_path frozen)))
          frozen)
        (set slots fh (some f))
unfolding frozen_path
freeze-IsBalance frozen slots fh f h free writable = record {
  counted = λ p. elim (Option-cases (lookup f.fake_path frozen)) [
    | inl e ↦ ground (
      arith,
      handles-set p slots fh none (some f) free,
      h.counted p,
      h.present p,
      lookup-insert f.fake_path p (increment (frozen_path f.real_path (lookup f.fake_path frozen)))
          frozen,
      list_beq_iff f.fake_path p,
    )
    | inr (g, e) ↦ ground (
      arith,
      handles-set p slots fh none (some f) free,
      h.counted p,
      h.present p,
      lookup-insert f.fake_path p (increment (frozen_path f.real_path (lookup f.fake_path frozen)))
          frozen,
      list_beq_iff f.fake_path p,
    )
  ];
  present = λ p. elim (Option-cases (lookup f.fake_path frozen)) [
    | inl e ↦ ground (
      arith,
      handles-set p slots fh none (some f) free,
      h.counted p,
      h.present p,
      lookup-insert f.fake_path p (increment (frozen_path f.real_path (lookup f.fake_path frozen)))
          frozen,
      list_beq_iff f.fake_path p,
    )
    | inr (g, e) ↦ ground (
      arith,
      handles-set p slots fh none (some f) free,
      h.counted p,
      h.present p,
      lookup-insert f.fake_path p (increment (frozen_path f.real_path (lookup f.fake_path frozen)))
          frozen,
      list_beq_iff f.fake_path p,
    )
  ];
}

read_only-IsBalance :
    (frozen : Dict Text FrozenPath) (slots : List (Option File)) (fh : ℕ) (f : File)
    → IsBalance frozen slots
    → get_elem? slots fh ≡ some none
    → is_writable f.flags ≡ false
    → IsBalance frozen (set slots fh (some f))
read_only-IsBalance frozen slots fh f h free reads = record {
  counted = λ p. ground (arith, handles-set p slots fh none (some f) free, h.counted p);
  present = λ p. ground (arith, handles-set p slots fh none (some f) free, h.present p);
}

module _ {ℓ} {W : Type ℓ} where
  place-IsBalanced :
      (f : File) (fh : ℕ) (s : FileSystem W)
      → IsBalanced s
      → get_elem? s.open_files fh ≡ some none
      → IsBalanced (place f fh s).1
  unfolding place note freeze note_read_only
  place-IsBalanced f fh s h free = go (is_writable f.flags) refl
    where
      t : FileSystem W
      t = record s { open_files = set s.open_files fh (some f) }

      go :
          (b : Bool)
          → is_writable f.flags ≡ b
          → IsBalanced
              (continue
                ((if b then freeze f else note_read_only f) t).0
                (λ _. pure fh)
                ((if b then freeze f else note_read_only f) t).1).1
      go true writable = freeze-IsBalance s.frozen_path_mappings s.open_files fh f h free writable
      go false reads = read_only-IsBalance s.frozen_path_mappings s.open_files fh f h free reads

  install-Keeps : (f : File) → Keeps (IsBalanced {W = W}) (install f)
  unfolding install get_next_fh
  install-Keeps f = record { at = λ s h. go s h (free_slot s.open_files) refl }
    where
      outcome : FileSystem W → Option ℕ → Result ℕ × FileSystem W
      outcome s o = elim o [ none ↦ raise value_error s | some fh ↦ pure fh s ]

      go :
          (s : FileSystem W)
          → IsBalanced s
          → (o : Option ℕ) → free_slot s.open_files ≡ o
          → IsBalanced (continue (outcome s o).0 (place f) (outcome s o).1).1
      go s h none e = h
      go s h (some fh) e = place-IsBalanced f fh s h (free_slot_lem s.open_files fh e)

module _ {ℓ} {W : Type ℓ} where
  pub outside-Keeps {κ} : {A : Type κ} (m : Exec W A) → Keeps (IsBalanced {W = W}) (outside m)
  outside-Keeps m = record { at = λ s h. h }

  del_truncate_to-Keeps :
      (p : Text) (t : Option ℕ) → Keeps (IsBalanced {W = W}) (del_truncate_to p t)
  unfolding del_truncate_to
  del_truncate_to-Keeps p none = record { at = λ s h. h }
  del_truncate_to-Keeps p (some len) = record { at = λ s h. h }

  module _ (os : Os W) where
    create_file-Keeps :
        (p : Text) (flags : ℕ) (t : Option ℕ)
        → Keeps (IsBalanced {W = W}) (create_file os p flags t)
    unfolding create_file
    create_file-Keeps p flags t =
        Keeps-bind (outside (os.get_real_path p)) _ (outside-Keeps (os.get_real_path p))
          (λ real_path.
            Keeps-bind (outside (os.os_open real_path flags)) _
              (outside-Keeps (os.os_open real_path flags)) (λ fd. record { at = λ s h. h }))

    read_write_file-Keeps :
        (p : Text) (flags : ℕ) (t : Option ℕ)
        → Keeps (IsBalanced {W = W}) (read_write_file os p flags t)
    unfolding read_write_file truncate_opened
    read_write_file-Keeps p flags t =
        Keeps-bind (create_file os p flags t) _ (create_file-Keeps p flags t)
          (λ f. Keeps-bind (truncate_opened os f t) _ (truncated f t) (λ _. Keeps-pure f))
      where
        truncated : (f : File) (t : Option ℕ) → Keeps (IsBalanced {W = W}) (truncate_opened os f t)
        truncated f none = Keeps-pure tt
        truncated f (some len) = outside-Keeps (os.os_ftruncate f.fd len)

    -- `open`, whether it returns or raises, keeps the counts right.
    pub open_file-Keeps : (p : Text) (flags : ℕ) → Keeps (IsBalanced {W = W}) (open_file os p flags)
    unfolding open_file open_to_write open_to_read pop_truncated
    open_file-Keeps p flags =
        Keeps-if (is_writable flags) _ _
          (Keeps-bind (pop_truncated p) _ (record { at = λ s h. h })
            (λ t.
              Keeps-bind (read_write_file os p flags t) _ (read_write_file-Keeps p flags t) (λ f.
                Keeps-bind (del_truncate_to p t) _ (del_truncate_to-Keeps p t)
                  (λ _. install-Keeps f))))
          (Keeps-bind (gets (λ s. lookup p s.truncated_paths)) _ (record { at = λ s h. h })
            (λ t.
              Keeps-bind (create_file os p flags t) _ (create_file-Keeps p flags t)
                (λ f. install-Keeps f)))
