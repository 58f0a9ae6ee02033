-- ===== src/OpenFiles/Closing.antt =====
-- `release` and `truncate` keep the counts of the frozen paths right.
use Prim.Native.Nat.{ℕ, ◌-◌, ◌<◌}
use pytagsfs.Base.{
  Result, modify, contains, ◌>>=◌, ◌≡◌, refl, ap, sym, Bool, true, false, if◌then◌else◌, nat_beq,
  Option, none, some, List, Text, Dict, lookup, insert, erase, set, get_elem?, is_none, Bool-cases,
  Option-cases, inl, inr, arith, Proc, list_eq, nat_eq, list_beq_iff, lookup-insert, lookup-erase,
  ok, continue,
}
use pytagsfs.Base.Invariants.{continue-keeps, Keeps}
use pytagsfs.OpenFiles.Calls.{release, release_file, truncate}
use pytagsfs.OpenFiles.{
  is_shorter, set_truncate_to, defer_truncate, outside, file_at, FrozenPath, File, FileSystem, Os,
  is_writable, thaw, forget_read_only,
}
use pytagsfs.OpenFiles.Balance.{
  outside-Keeps, handles, handles-set, IsBalance, IsBalanced, frozen_count,
}

-- What `thaw` leaves of the frozen paths.
abbrev thawed : Text → FrozenPath → Dict Text FrozenPath → Dict Text FrozenPath
thawed p g frozen =
    if nat_beq (g.count - 1) 0
    then erase p frozen
    else insert p (record g { count = g.count - 1 }) frozen

thawed-IsBalance :
    (frozen : Dict Text FrozenPath) (slots : List (Option File)) (fh : ℕ) (f : File)
    (g : FrozenPath)
    → IsBalance frozen slots
    → get_elem? slots fh ≡ some (some f)
    → is_writable f.flags ≡ true
    → lookup f.fake_path frozen ≡ some g
    → IsBalance (thawed f.fake_path g frozen) (set slots fh none)
thawed-IsBalance frozen slots fh f g h e writable there = record {
  counted = λ p. ground (
    arith,
    handles-set p slots fh (some f) none e,
    h.counted p,
    h.present p,
    h.counted f.fake_path,
    h.present f.fake_path,
    lookup-erase f.fake_path p frozen,
    list_beq_iff f.fake_path p,
    lookup-insert f.fake_path p (record g { count = g.count - 1 }) frozen,
  );
  present = λ p. ground (
    arith,
    handles-set p slots fh (some f) none e,
    h.counted p,
    h.present p,
    h.counted f.fake_path,
    h.present f.fake_path,
    lookup-erase f.fake_path p frozen,
    list_beq_iff f.fake_path p,
    lookup-insert f.fake_path p (record g { count = g.count - 1 }) frozen,
  );
}

closed-IsBalance :
    (frozen : Dict Text FrozenPath) (slots : List (Option File)) (fh : ℕ) (f : File)
    → IsBalance frozen slots
    → get_elem? slots fh ≡ some (some f)
    → is_writable f.flags ≡ false
    → IsBalance frozen (set slots fh none)
closed-IsBalance frozen slots fh f h e reads = record {
  counted = λ p. ground (arith, handles-set p slots fh (some f) none e, h.counted p);
  present = λ p. ground (arith, handles-set p slots fh (some f) none e, h.present p);
}

-- The path of a handle that is open for writing is frozen.
handle-frozen :
    (frozen : Dict Text FrozenPath) (slots : List (Option File)) (fh : ℕ) (f : File)
    → IsBalance frozen slots
    → get_elem? slots fh ≡ some (some f)
    → is_writable f.flags ≡ true
    → (g : FrozenPath) × (lookup f.fake_path frozen ≡ some g) × (0 < g.count)
handle-frozen frozen slots fh f h e writable = elim (Option-cases (lookup f.fake_path frozen)) [
  | inl absent ↦ ground (
    arith,
    handles-set f.fake_path slots fh (some f) none e,
    h.counted f.fake_path,
    h.present f.fake_path,
    list_beq_iff f.fake_path f.fake_path,
  )
  | inr (g, there) ↦ (
    g,
    there,
    ground (
      arith,
      handles-set f.fake_path slots fh (some f) none e,
      h.counted f.fake_path,
      list_beq_iff f.fake_path f.fake_path,
    ),
  )
]

module _ {ℓ} {W : Type ℓ} where
  thaw_lem :
      (p : Text) (g : FrozenPath) (s : FileSystem W)
      → lookup p s.frozen_path_mappings ≡ some g
      → 0 < g.count
      → thaw p s ≡ (ok tt, record s { frozen_path_mappings = thawed p g s.frozen_path_mappings })
  unfolding thaw
  thaw_lem p g s there positive = ground arith

  forget_read_only-Keeps : (p : Text) (f : File) → Keeps (IsBalanced {W = W}) (forget_read_only p f)
  unfolding forget_read_only
  forget_read_only-Keeps p f = record {
    at = λ s h. record {
      counted = λ q.
          same s (λ frozen slots. frozen_count (lookup q frozen) ≡ handles q slots) (h.counted q);
      present = λ q.
          same s (λ frozen slots. is_none (lookup q frozen) ≡ nat_beq (handles q slots) 0)
            (h.present q);
    };
  }
    where
      same :
          (s : FileSystem W) (P : Dict Text FrozenPath → List (Option File) → Type 0)
          → P s.frozen_path_mappings s.open_files
          → P (forget_read_only p f s).1.frozen_path_mappings (forget_read_only p f s).1.open_files
      same s P h = elim (Option-cases (lookup p s.read_only_files_by_fake_path)) [
        | inl e ↦ rw (e, forget_read_only) h
        | inr (ids, e) ↦ elim (Bool-cases (contains f.id ids)) [
          | inl b ↦ rw (e, forget_read_only) (rw b h)
          | inr b ↦ rw (e, forget_read_only) (rw b h)
        ]
      ]

  -- The state in which `release` has cleared the slot.
  abbrev cleared : ℕ → FileSystem W → FileSystem W
  cleared fh s = record s { open_files = set s.open_files fh none }

  file_at_lem :
      (fh : ℕ) (o : Option File) (s : FileSystem W)
      → get_elem? s.open_files fh ≡ some o
      → file_at fh s ≡ (ok o, s)
  file_at_lem fh o s e = rw (e, file_at) refl

  module _ (os : Os W) where
    release_lem :
        (p : Text) (flags fh : ℕ) (o : Option File) (s : FileSystem W)
        → get_elem? s.open_files fh ≡ some o
        → release os p flags fh s ≡ release_file os p flags o (cleared fh s)
    unfolding release
    release_lem p flags fh o s e =
        ap
          (λ r.
            continue r.0 (λ o. modify (λ s. cleared fh s) >>= λ _. release_file os p flags o) r.1)
          (file_at_lem fh o s e)

    release_file-IsBalanced :
        (flags fh : ℕ) (f : File) (s : FileSystem W)
        → IsBalanced s
        → get_elem? s.open_files fh ≡ some (some f)
        → is_writable flags ≡ is_writable f.flags
        → IsBalanced (release_file os f.fake_path flags (some f) (cleared fh s)).1
    unfolding release_file
    release_file-IsBalanced flags fh f s h e same =
        continue-keeps (m t).0 (λ _. outside (os.os_close f.fd)) (m t).1
          (λ _. outside-Keeps (os.os_close f.fd)) (go (is_writable flags) same)
      where
        t : FileSystem W
        t = cleared fh s

        m : Proc (FileSystem W)
        m = if is_writable flags then thaw f.fake_path else forget_read_only f.fake_path f

        go :
            (b : Bool)
            → b ≡ is_writable f.flags
            → IsBalanced ((if b then thaw f.fake_path else forget_read_only f.fake_path f) t).1
        go true writes =
            let g = handle-frozen s.frozen_path_mappings s.open_files fh f h e (sym writes) in
            rw (thaw_lem f.fake_path g.0 t g.1 g.2)
              (thawed-IsBalance s.frozen_path_mappings s.open_files fh f g.0 h e (sym writes) g.1)
        go false reads =
            (forget_read_only-Keeps f.fake_path f).at t
              (closed-IsBalance s.frozen_path_mappings s.open_files fh f h e (sym reads))

    pub release-IsBalanced :
        (flags fh : ℕ) (f : File) (s : FileSystem W)
        → IsBalanced s
        → get_elem? s.open_files fh ≡ some (some f)
        → is_writable flags ≡ is_writable f.flags
        → IsBalanced (release os f.fake_path flags fh s).1
    release-IsBalanced flags fh f s h e same =
        rw (release_lem f.fake_path flags fh (some f) s e)
          (release_file-IsBalanced flags fh f s h e same)

    pub truncate-Keeps : (p : Text) (len : ℕ) → Keeps (IsBalanced {W = W}) (truncate os p len)
    unfolding truncate defer_truncate set_truncate_to
    truncate-Keeps p len = record { at = λ s h. go s h (lookup p s.frozen_path_mappings) }
      where
        deferred : FileSystem W → FileSystem W
        deferred s = record s { truncated_paths = insert p len s.truncated_paths }

        maybe :
            (s : FileSystem W) (b : Bool)
            → IsBalanced s
            → IsBalanced (if b then set_truncate_to p len (deferred s) else (ok tt, s)).1
        maybe s true h = h
        maybe s false h = h

        outcome : FileSystem W → Option FrozenPath → Result (Unit {0}) × FileSystem W
        outcome s o = elim o [
          | none ↦ defer_truncate p len s
          | some f ↦ outside (os.ftruncate_path f.real_path len) s
        ]

        go :
            (s : FileSystem W) → IsBalanced s → (o : Option FrozenPath) → IsBalanced (outcome s o).1
        go s h none = maybe s (is_shorter len (lookup p s.truncated_paths)) h
        go s h (some f) = h
