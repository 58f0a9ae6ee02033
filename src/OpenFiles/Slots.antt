-- ===== src/OpenFiles/Slots.antt =====
-- The table of handles: `open` takes a free slot of it, and it never grows.
use mathlib.Core.Path.{subst}
use pytagsfs.Base.{
  ◌>>=◌, if◌then◌else◌, ℕ, ◌≡◌, refl, Bool, true, false, Option, none, some, List, Text, Exec,
  Result, ok, err, continue, gets, get_elem?, set, Bool-cases, Option-cases, inl, inr, lookup,
  list_eq, nat_eq,
}
use pytagsfs.Base.Invariants.{Keeps, Keeps-pure, Keeps-bind}
use pytagsfs.OpenFiles.{
  File, FileSystem, Os, free_slot, get_next_fh, place, install, note, freeze, note_read_only,
  is_writable, outside, pop_truncated, del_truncate_to,
}
use pytagsfs.OpenFiles.Balance.{free_slot_lem}
use pytagsfs.OpenFiles.Calls.{
  create_file, truncate_opened, read_write_file, open_to_write, open_to_read, open_file,
}

module _ {ℓ} {W : Type ℓ} where
  -- The table is `l`.
  abbrev HasTable : List (Option File) → FileSystem W → Type 0
  HasTable l s = s.open_files ≡ l

  -- A handle is one of a free slot of `l`, which has a file then, and without one the table is `l`.
  abbrev pub Opens : List (Option File) → Result ℕ × FileSystem W → Type 0
  Opens l (err c, s) = s.open_files ≡ l
  Opens l (ok fh, s) =
      (get_elem? l fh ≡ some none) × (f : File) × (s.open_files ≡ set l fh (some f))

  place-Opens :
      (f : File) (fh : ℕ) (s : FileSystem W)
      → get_elem? s.open_files fh ≡ some none
      → Opens s.open_files (place f fh s)
  unfolding place note freeze note_read_only
  place-Opens f fh s h = elim (Bool-cases (is_writable f.flags)) [
    | inl e ↦ rw (e, place) (h, f, refl)
    | inr e ↦ rw (e, place) (h, f, refl)
  ]

  install-Opens : (f : File) (s : FileSystem W) → Opens s.open_files (install f s)
  unfolding install get_next_fh
  install-Opens f s = elim (Option-cases (free_slot s.open_files)) [
    | inl e ↦ rw (e, install, get_next_fh) refl
    | inr (fh, e) ↦
        rw (e, install, get_next_fh) (place-Opens f fh s (free_slot_lem s.open_files fh e))
  ]

  -- A method that leaves the table, and then one that opens.
  Opens-bind {κ} :
      {A : Type κ} (l : List (Option File)) (m : Exec (FileSystem W) A)
      (f : A → Exec (FileSystem W) ℕ) (s : FileSystem W)
      → Keeps (HasTable l) m
      → ((a : A) (t : FileSystem W) → t.open_files ≡ l → Opens l (f a t))
      → s.open_files ≡ l
      → Opens l ((m >>= f) s)
  Opens-bind {A = A} l m f s h k e = go (m s).0 (m s).1 (h.at s e)
    where
      go : (r : Result A) (t : FileSystem W) → t.open_files ≡ l → Opens l (continue r f t)
      go (ok a) t e = k a t e
      go (err c) t e = e

  install-Opens_table :
      (l : List (Option File)) (f : File) (s : FileSystem W)
      → s.open_files ≡ l
      → Opens l (install f s)
  install-Opens_table l f s e = subst (λ l. Opens l (install f s)) e (install-Opens f s)

  outside-HasTable {κ} :
      {A : Type κ} (l : List (Option File)) (m : Exec W A) → Keeps (HasTable l) (outside {W = W} m)
  outside-HasTable l m = record { at = λ s e. e }

  del_truncate_to-HasTable :
      (l : List (Option File)) (p : Text) (t : Option ℕ)
      → Keeps (HasTable l) (del_truncate_to {W = W} p t)
  unfolding del_truncate_to
  del_truncate_to-HasTable l p none = record { at = λ s e. e }
  del_truncate_to-HasTable l p (some len) = record { at = λ s e. e }

module _ {ℓ} {W : Type ℓ} (os : Os W) where
  create_file-HasTable :
      (l : List (Option File)) (p : Text) (flags : ℕ) (t : Option ℕ)
      → Keeps (HasTable l) (create_file os p flags t)
  unfolding create_file
  create_file-HasTable l p flags t =
      Keeps-bind (outside (os.get_real_path p)) _ (outside-HasTable l _) λ real_path.
        Keeps-bind (outside (os.os_open real_path flags)) _ (outside-HasTable l _)
          λ fd. record { at = λ s e. e }

  truncate_opened-HasTable :
      (l : List (Option File)) (f : File) (t : Option ℕ)
      → Keeps (HasTable l) (truncate_opened os f t)
  unfolding truncate_opened
  truncate_opened-HasTable l f none = Keeps-pure tt
  truncate_opened-HasTable l f (some len) = outside-HasTable l (os.os_ftruncate f.fd len)

  read_write_file-HasTable :
      (l : List (Option File)) (p : Text) (flags : ℕ) (t : Option ℕ)
      → Keeps (HasTable l) (read_write_file os p flags t)
  unfolding read_write_file
  read_write_file-HasTable l p flags t =
      Keeps-bind (create_file os p flags t) _ (create_file-HasTable l p flags t) λ f.
        Keeps-bind (truncate_opened os f t) _ (truncate_opened-HasTable l f t) λ _. Keeps-pure f

  pub open_file-Opens :
      (p : Text) (flags : ℕ) (s : FileSystem W) → Opens s.open_files (open_file os p flags s)
  unfolding open_file open_to_write open_to_read pop_truncated
  open_file-Opens p flags s = go (is_writable flags)
    where
      go :
          (b : Bool)
          → Opens s.open_files ((if b then open_to_write os p flags else open_to_read os p flags) s)
      go true =
          Opens-bind s.open_files (pop_truncated p) _ s (record { at = λ s e. e })
            (λ t u e.
              Opens-bind s.open_files (read_write_file os p flags t) _ u
                (read_write_file-HasTable s.open_files p flags t)
                (λ f v d.
                  Opens-bind s.open_files (del_truncate_to p t) _ v
                    (del_truncate_to-HasTable s.open_files p t)
                    (λ _ w c. install-Opens_table s.open_files f w c) d)
                e)
            refl
      go false =
          Opens-bind s.open_files (gets (λ s. lookup p s.truncated_paths)) _ s
            (record { at = λ s e. e })
            (λ t u e.
              Opens-bind s.open_files (create_file os p flags t) _ u
                (create_file-HasTable s.open_files p flags t)
                (λ f v d. install-Opens_table s.open_files f v d) e)
            refl
