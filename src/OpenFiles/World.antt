-- ===== src/OpenFiles/World.antt =====
-- What the operating system and the source tree representation keep of their state, the table of
-- open files keeps too.
use pytagsfs.Base.{
  arith, ◌≡◌, refl, ℕ, Bool, true, false, if◌then◌else◌, Option, none, some, Text, lookup, set,
  Exec, Result, raise, pure, gets, modify, attribute_error, list_eq, nat_eq, value_error,
}
use pytagsfs.Base.Invariants.{Keeps, Keeps-pure, Keeps-raise, Keeps-if, Keeps-bind}
use pytagsfs.OpenFiles.{
  FrozenPath, File, FileSystem, Os, outside, is_writable, del_truncate_to, install, get_next_fh,
  place, note, freeze, note_read_only, pop_truncated, thaw, forget_read_only, forget_none, file_at,
  defer_truncate, free_slot,
}
use pytagsfs.OpenFiles.Calls.{
  create_file, truncate_opened, read_write_file, open_to_write, open_to_read, open_file,
  release_file, release, truncate,
}

-- Each call of an `Os` keeps a property of its state.
pub record OsKeeps {ℓ κ} {W : Type ℓ} (Q : W → Type κ) (os : Os W) : Type (ℓ ⊔ κ) where
  pub keeps_get_real_path : (p : Text) → Keeps Q (os.get_real_path p)
  pub keeps_open : (p : Text) (flags : ℕ) → Keeps Q (os.os_open p flags)
  pub keeps_ftruncate : (fd len : ℕ) → Keeps Q (os.os_ftruncate fd len)
  pub keeps_close : (fd : ℕ) → Keeps Q (os.os_close fd)
  pub keeps_ftruncate_path : (p : Text) (len : ℕ) → Keeps Q (os.ftruncate_path p len)

-- The state outside the table has the property.
abbrev pub InWorld {ℓ κ} : {W : Type ℓ} → (W → Type κ) → FileSystem W → Type κ
InWorld Q s = Q s.world

module _ {ℓ κ} {W : Type ℓ} (Q : W → Type κ) where
  pub outside-InWorld {μ} : {A : Type μ} (m : Exec W A) → Keeps Q m → Keeps (InWorld Q) (outside m)
  outside-InWorld m h = record { at = λ s q. h.at s.world q }

  -- A method that leaves the state outside as it is.
  pub same-InWorld {μ} :
      {A : Type μ} (m : Exec (FileSystem W) A)
      → ((s : FileSystem W) → (m s).1.world ≡ s.world)
      → Keeps (InWorld Q) m
  same-InWorld m e = record { at = λ s q. rw (e s) q }

  same_freeze : (f : File) (s : FileSystem W) → (freeze f s).1.world ≡ s.world
  unfolding freeze
  same_freeze f s = refl

  same_note : (f : File) (s : FileSystem W) → (note f s).1.world ≡ s.world
  unfolding note freeze note_read_only
  same_note f s = go (is_writable f.flags)
    where
      go : (b : Bool) → ((if b then freeze f else note_read_only f) s).1.world ≡ s.world
      go true = refl
      go false = refl

  install-InWorld : (f : File) → Keeps (InWorld Q) (install f)
  unfolding install place get_next_fh
  install-InWorld f =
      Keeps-bind get_next_fh (place f)
        (same-InWorld get_next_fh (λ s. next s (free_slot s.open_files)))
        (λ fh.
          Keeps-bind (modify (λ s. record s { open_files = set s.open_files fh (some f) })) _
            (record { at = λ s q. q })
            (λ _. Keeps-bind (note f) _ (same-InWorld (note f) (same_note f)) (λ _. Keeps-pure fh)))
    where
      next :
          (s : FileSystem W) (o : Option ℕ)
          → (elim o as (λ _. Result ℕ × FileSystem W) [
            | none ↦ raise value_error s
            | some fh ↦ pure fh s
          ]).1.world
            ≡ s.world
      next s none = refl
      next s (some fh) = refl

  del_truncate_to-InWorld : (p : Text) (t : Option ℕ) → Keeps (InWorld Q) (del_truncate_to p t)
  unfolding del_truncate_to
  del_truncate_to-InWorld p none = record { at = λ s q. q }
  del_truncate_to-InWorld p (some len) = record { at = λ s q. q }

  same_thaw : (p : Text) (s : FileSystem W) → (thaw p s).1.world ≡ s.world
  unfolding thaw
  same_thaw p s = ground arith

  same_forget_read_only :
      (p : Text) (f : File) (s : FileSystem W) → (forget_read_only p f s).1.world ≡ s.world
  unfolding forget_read_only
  same_forget_read_only p f s = ground arith

  same_forget_none : (p : Text) (s : FileSystem W) → (forget_none p s).1.world ≡ s.world
  unfolding forget_none
  same_forget_none p s = ground arith

  same_file_at : (fh : ℕ) (s : FileSystem W) → (file_at fh s).1.world ≡ s.world
  same_file_at fh s = ground arith

  same_defer_truncate :
      (p : Text) (len : ℕ) (s : FileSystem W) → (defer_truncate p len s).1.world ≡ s.world
  unfolding defer_truncate
  same_defer_truncate p len s = ground arith

  module _ (os : Os W) (h : OsKeeps Q os) where
    create_file-InWorld :
        (p : Text) (flags : ℕ) (t : Option ℕ) → Keeps (InWorld Q) (create_file os p flags t)
    unfolding create_file
    create_file-InWorld p flags t =
        Keeps-bind (outside (os.get_real_path p)) _
          (outside-InWorld (os.get_real_path p) (h.keeps_get_real_path p))
          (λ r.
            Keeps-bind (outside (os.os_open r flags)) _
              (outside-InWorld (os.os_open r flags) (h.keeps_open r flags))
              (λ fd. record { at = λ s q. q }))

    truncate_opened-InWorld : (f : File) (t : Option ℕ) → Keeps (InWorld Q) (truncate_opened os f t)
    unfolding truncate_opened
    truncate_opened-InWorld f none = Keeps-pure tt
    truncate_opened-InWorld f (some len) =
        outside-InWorld (os.os_ftruncate f.fd len) (h.keeps_ftruncate f.fd len)

    pub open_file-InWorld : (p : Text) (flags : ℕ) → Keeps (InWorld Q) (open_file os p flags)
    unfolding open_file open_to_write open_to_read pop_truncated read_write_file
    open_file-InWorld p flags =
        Keeps-if (is_writable flags) _ _
          (Keeps-bind (pop_truncated p) _ (record { at = λ s q. q })
            (λ t.
              Keeps-bind (read_write_file os p flags t) _
                (Keeps-bind (create_file os p flags t) _ (create_file-InWorld p flags t) (λ f.
                  Keeps-bind (truncate_opened os f t) _ (truncate_opened-InWorld f t)
                    (λ _. Keeps-pure f)))
                (λ f.
                  Keeps-bind (del_truncate_to p t) _ (del_truncate_to-InWorld p t)
                    (λ _. install-InWorld f))))
          (Keeps-bind (gets (λ s. lookup p s.truncated_paths)) _ (record { at = λ s q. q })
            (λ t.
              Keeps-bind (create_file os p flags t) _ (create_file-InWorld p flags t)
                (λ f. install-InWorld f)))

    release_file-InWorld :
        (p : Text) (flags : ℕ) (o : Option File) → Keeps (InWorld Q) (release_file os p flags o)
    unfolding release_file
    release_file-InWorld p flags none =
        Keeps-if (is_writable flags) _ _ (Keeps-raise attribute_error)
          (same-InWorld (forget_none p) (same_forget_none p))
    release_file-InWorld p flags (some f) =
        Keeps-bind (if is_writable flags then thaw p else forget_read_only p f) _
          (Keeps-if (is_writable flags) _ _ (same-InWorld (thaw p) (same_thaw p))
            (same-InWorld (forget_read_only p f) (same_forget_read_only p f)))
          (λ _. outside-InWorld (os.os_close f.fd) (h.keeps_close f.fd))

    pub release-InWorld : (p : Text) (flags fh : ℕ) → Keeps (InWorld Q) (release os p flags fh)
    unfolding release
    release-InWorld p flags fh =
        Keeps-bind (file_at fh) _ (same-InWorld (file_at fh) (same_file_at fh)) (λ o.
          Keeps-bind (modify (λ s. record s { open_files = set s.open_files fh none })) _
            (record { at = λ s q. q }) (λ _. release_file-InWorld p flags o))

    pub truncate-InWorld : (p : Text) (len : ℕ) → Keeps (InWorld Q) (truncate os p len)
    unfolding truncate
    truncate-InWorld p len = record { at = λ s q. go s q (lookup p s.frozen_path_mappings) }
      where
        go :
            (s : FileSystem W)
            → Q s.world
            → (o : Option FrozenPath)
            → Q
                (elim o as (λ _. Result (Unit {0}) × FileSystem W) [
                  | none ↦ defer_truncate p len s
                  | some f ↦ outside (os.ftruncate_path f.real_path len) s
                ]).1.world
        go s q none = (same-InWorld (defer_truncate p len) (same_defer_truncate p len)).at s q
        go s q (some f) = (h.keeps_ftruncate_path f.real_path len).at s.world q
