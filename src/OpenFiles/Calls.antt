-- ===== src/OpenFiles/Calls.antt =====
-- `open`, `release`, `truncate` and `getattr` of modules/pytagsfs/fs/__init__.py, over the table of
-- open files and the interface of the operating system.
use pytagsfs.Base.{
  ◌+◌, ◌>>=◌, ◌>>◌, modify, gets, pure, raise, attribute_error, ℕ, if◌then◌else◌, Option, none,
  some, Text, lookup, insert, set, Exec, Proc, list_eq, nat_eq,
}
use pytagsfs.OpenFiles.{
  File, FileSystem, Os, defer_truncate, del_truncate_to, file_at, forget_none, forget_read_only,
  install, is_writable, outside, pop_truncated, shown_size, thaw,
}

module _ {ℓ} {W : Type ℓ} (os : Os W) where
  -- The constructors of the two classes of files.
  unfoldable pub create_file : Text → ℕ → Option ℕ → Exec (FileSystem W) File
  create_file fake_path flags t = do
    real_path ← outside (os.get_real_path fake_path)
    fd ← outside (os.os_open real_path flags)
    λ s.
        pure
          (record {
            id = s.next_id;
            fake_path = fake_path;
            real_path = real_path;
            flags = flags;
            fd = fd;
          })
          (record s { next_id = s.next_id + 1; truncate_to = insert s.next_id t s.truncate_to })

  unfoldable pub truncate_opened : File → Option ℕ → Proc (FileSystem W)
  truncate_opened f none = pure tt
  truncate_opened f (some len) = outside (os.os_ftruncate f.fd len)

  abbrev pub read_only_file : Text → ℕ → Option ℕ → Exec (FileSystem W) File
  read_only_file = create_file

  unfoldable pub read_write_file : Text → ℕ → Option ℕ → Exec (FileSystem W) File
  unfolding create_file truncate_opened
  read_write_file fake_path flags t = do
    f ← create_file fake_path flags t
    truncate_opened f t
    pure f

  unfoldable pub open_to_write : Text → ℕ → Exec (FileSystem W) ℕ
  unfolding pop_truncated read_write_file create_file del_truncate_to install
  open_to_write fake_path flags = do
    t ← pop_truncated fake_path
    f ← read_write_file fake_path flags t
    del_truncate_to fake_path t
    install f

  unfoldable pub open_to_read : Text → ℕ → Exec (FileSystem W) ℕ
  unfolding create_file install
  open_to_read fake_path flags = do
    t ← gets (λ s. lookup fake_path s.truncated_paths)
    f ← read_only_file fake_path flags t
    install f

  unfoldable pub open_file : Text → ℕ → Exec (FileSystem W) ℕ
  unfolding open_to_write open_to_read
  open_file fake_path flags =
      if is_writable flags then open_to_write fake_path flags else open_to_read fake_path flags

  -- A slot that holds None has no `real_path` nor `release`: the attribute is read by the call
  -- of log_debug for a file opened for writing, and `remove` does not find None in the list.
  unfoldable pub release_file : Text → ℕ → Option File → Proc (FileSystem W)
  unfolding thaw forget_read_only forget_none
  release_file fake_path flags none =
      if is_writable flags then raise attribute_error else forget_none fake_path
  release_file fake_path flags (some f) = do
    if is_writable flags then thaw fake_path else forget_read_only fake_path f
    outside (os.os_close f.fd)

  unfoldable pub release : Text → ℕ → ℕ → Proc (FileSystem W)
  unfolding release_file
  release fake_path flags fh = do
    f ← file_at fh
    modify (λ s. record s { open_files = set s.open_files fh none })
    release_file fake_path flags f

  -- A path that is frozen is truncated at once, and else the new length is noted, if it is
  -- shorter than the one noted before.
  unfoldable pub truncate : Text → ℕ → Proc (FileSystem W)
  unfolding defer_truncate
  truncate fake_path len s = elim (lookup fake_path s.frozen_path_mappings) [
    | none ↦ defer_truncate fake_path len s
    | some f ↦ outside (os.ftruncate_path f.real_path len) s
  ]

  unfoldable pub getattr_size : Text → Exec (FileSystem W) ℕ
  unfolding shown_size
  getattr_size fake_path s = elim (lookup fake_path s.frozen_path_mappings) [
    | none ↦
        (outside (os.source_size fake_path) >>= λ st_size s.
        pure (shown_size st_size (lookup fake_path s.truncated_paths)) s)
          s
    | some f ↦ outside (os.lstat_size f.real_path) s
  ]
