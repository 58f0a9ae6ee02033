-- ===== src/Handlers.antt =====
-- The calls of the kernel, `FileSystemMappingToRealFiles` of modules/pytagsfs/fs/__init__.py with the
-- files of modules/pytagsfs/file.py, over a source tree representation: the table of open files of
-- OpenFiles has the representation of SourceTreeRep as its world. The operating system is the
-- interface `Disk`. Paths are decoded already.
pub mod Validity
pub mod Stats
use pytagsfs.Base.{
  ℕ, Bool, true, false, ◌&&◌, ltb, if◌then◌else◌, Option, none, some, List, Text, Dict, lookup,
  Exec, Proc, Result, ok, err, Exc, pure, raise, gets, ◌>>=◌, ◌>>◌, list_eq, nat_eq,
  attribute_error, invalid_argument, not_implemented, os_error, path_not_found, fake_path_not_found,
  real_path_not_found, not_a_directory, path_exists, directory_not_empty,
}
use pytagsfs.OpenFiles.{File, FileSystem, Os, outside, file_at, is_writable, shown_size}
use pytagsfs.OpenFiles.Reads.{read_length}
use pytagsfs.SourceTreeRep
use pytagsfs.SourceTreeRep.{SourceTreeRep, Stat}
use pytagsfs.SourceTreeRep.SourceFiles.{Settings}
use pytagsfs.SourceTreeRep.Queries.{get_real_path, get_entries}
use pytagsfs.SourceTreeRep.Directories.{add_directory, remove_directory}
use pytagsfs.SourceTreeRep.Renaming.{rename_path}
use pytagsfs.SourceTreeRep.Times.{utime}
use pytagsfs.SourceTreeRep.Attributes.{getattr}

pub record Disk {ℓ} (W : Type ℓ) : Type ℓ where
  pub os_open : Text → ℕ → Exec W ℕ
  pub os_ftruncate : ℕ → ℕ → Proc W
  pub os_close : ℕ → Proc W
  pub ftruncate_path : Text → ℕ → Proc W
  pub os_lstat : Text → Exec W Stat
  pub os_fstat : ℕ → Exec W Stat
  -- os.lseek and os.read, and os.lseek and os.write, at an offset
  pub os_read : ℕ → ℕ → ℕ → Exec W (List ℕ)
  pub os_write : ℕ → List ℕ → ℕ → Exec W ℕ
  -- os.close(os.dup(fd)), and os.fdatasync or os.fsync
  pub os_close_dup : ℕ → Proc W
  pub os_sync : ℕ → Bool → Proc W

-- What `return_errno` makes of an exception: the error number, or the exception itself. An error
-- of the operating system has a number of its own.
pub data Errno : Type 0 where
  enoent enotdir eexist enotempty einval enosys errno_of_error : Errno

pub data Reply {ℓ} (A : Type ℓ) : Type ℓ where
  answer : A → Reply A
  fuse_error : Errno → Reply A
  raised : Exc → Reply A

unfoldable pub errno_reply {ℓ} : {A : Type ℓ} → Exc → Reply A
errno_reply path_not_found = fuse_error enoent
errno_reply fake_path_not_found = fuse_error enoent
errno_reply real_path_not_found = fuse_error enoent
errno_reply not_a_directory = fuse_error enotdir
errno_reply path_exists = fuse_error eexist
errno_reply directory_not_empty = fuse_error enotempty
errno_reply invalid_argument = fuse_error einval
errno_reply not_implemented = fuse_error enosys
errno_reply os_error = fuse_error errno_of_error
errno_reply c = raised c

unfoldable pub return_errno {ℓ} : {A : Type ℓ} → Result A → Reply A
unfolding errno_reply
return_errno (ok a) = answer a
return_errno (err c) = errno_reply c

abbrev pub post_process_stat_result : Stat → Stat
post_process_stat_result st = record st { st_ino = 0; st_dev = 0 }

abbrev pub with_size : ℕ → Stat → Stat
with_size size st = record st { st_size = size }

module _ {ℓ} {W : Type ℓ} (settings : Settings W) (root_path : Text) (disk : Disk W) where
  abbrev pub on_rep {κ} :
      {A : Type κ} → Exec (SourceTreeRep W) A → Exec (FileSystem (SourceTreeRep W)) A
  on_rep = outside

  abbrev pub on_disk {κ} : {A : Type κ} → Exec W A → Exec (FileSystem (SourceTreeRep W)) A
  on_disk m = outside (SourceTreeRep.outside m)

  -- What the table of open files uses.
  abbrev pub os : Os (SourceTreeRep W)
  os = record {
    get_real_path = λ p. get_real_path p;
    os_open = λ p flags. SourceTreeRep.outside (disk.os_open p flags);
    os_ftruncate = λ fd len. SourceTreeRep.outside (disk.os_ftruncate fd len);
    os_close = λ fd. SourceTreeRep.outside (disk.os_close fd);
    ftruncate_path = λ p len. SourceTreeRep.outside (disk.ftruncate_path p len);
    source_size = λ p. (do st ← getattr settings.objects root_path p; pure st.st_size);
    lstat_size = λ p. (do st ← SourceTreeRep.outside (disk.os_lstat p); pure st.st_size);
  }

  unfoldable pub getattr_of : Text → Exec (FileSystem (SourceTreeRep W)) Stat
  unfolding getattr shown_size
  getattr_of fake_path s = elim (lookup fake_path s.frozen_path_mappings) [
    | none ↦
        (do
          st ← on_rep (getattr settings.objects root_path fake_path)
          t ← gets (λ s. lookup fake_path s.truncated_paths)
          pure (post_process_stat_result (with_size (shown_size st.st_size t) st)))
          s
    | some f ↦ (do st ← on_disk (disk.os_lstat f.real_path); pure (post_process_stat_result st)) s
  ]

  unfoldable pub mkdir : Text → Proc (FileSystem (SourceTreeRep W))
  unfolding add_directory
  mkdir fake_path = on_rep (add_directory settings fake_path)

  unfoldable pub rmdir : Text → Proc (FileSystem (SourceTreeRep W))
  unfolding remove_directory
  rmdir fake_path = on_rep (remove_directory fake_path)

  unfoldable pub rename : Text → Text → Proc (FileSystem (SourceTreeRep W))
  unfolding rename_path
  rename old_fake_path new_fake_path = on_rep (rename_path settings old_fake_path new_fake_path)

  unfoldable pub readdir : Text → Exec (FileSystem (SourceTreeRep W)) (List Text)
  unfolding get_entries
  readdir fake_path = on_rep (get_entries fake_path)

  unfoldable pub utimens : Text → ℕ × ℕ → Proc (FileSystem (SourceTreeRep W))
  unfolding utime
  utimens fake_path times = on_rep (utime settings.objects root_path fake_path times)

  -- A method of a file, `none` for None, which has no attributes.
  unfoldable pub on_file {κ} :
      {A : Type κ}
      → (File → Exec (FileSystem (SourceTreeRep W)) A)
      → ℕ
      → Exec (FileSystem (SourceTreeRep W)) A
  on_file method fh = do f ← file_at fh; elim f [ none ↦ raise attribute_error | some f ↦ method f ]

  -- self.truncate_to: AttributeError after `del_truncate_to`
  unfoldable pub truncate_to_of : File → Exec (FileSystem (SourceTreeRep W)) (Option ℕ)
  truncate_to_of f s = elim (lookup f.id s.truncate_to) [
    | none ↦ raise attribute_error s
    | some t ↦ pure t s
  ]

  unfoldable pub fgetattr : ℕ → Exec (FileSystem (SourceTreeRep W)) Stat
  unfolding on_file truncate_to_of shown_size
  fgetattr = on_file (λ f. do
    st ← on_disk (disk.os_fstat f.fd)
    if is_writable f.flags then pure (post_process_stat_result st) else (do
      t ← truncate_to_of f
      pure (post_process_stat_result (with_size (shown_size st.st_size t) st))))

  unfoldable pub read : ℕ → ℕ → ℕ → Exec (FileSystem (SourceTreeRep W)) (List ℕ)
  unfolding on_file truncate_to_of read_length
  read length offset = on_file (λ f.
      if is_writable f.flags then on_disk (disk.os_read f.fd length offset) else (do
        t ← truncate_to_of f
        on_disk (disk.os_read f.fd (read_length t length offset) offset)))

  unfoldable pub write : List ℕ → ℕ → ℕ → Exec (FileSystem (SourceTreeRep W)) ℕ
  unfolding on_file
  write buf offset = on_file (λ f.
      if is_writable f.flags
      then on_disk (disk.os_write f.fd buf offset)
      else raise invalid_argument)

  unfoldable pub ftruncate : ℕ → ℕ → Proc (FileSystem (SourceTreeRep W))
  unfolding on_file
  ftruncate len = on_file (λ f.
      if is_writable f.flags then on_disk (disk.os_ftruncate f.fd len) else raise invalid_argument)

  -- A read-only file has `flush` and `fsync` of the base class, which raise.
  unfoldable pub flush : ℕ → Proc (FileSystem (SourceTreeRep W))
  unfolding on_file
  flush =
      on_file (λ f.
        if is_writable f.flags then on_disk (disk.os_close_dup f.fd) else raise not_implemented)

  unfoldable pub fsync : Bool → ℕ → Proc (FileSystem (SourceTreeRep W))
  unfolding on_file
  fsync datasync = on_file (λ f.
      if is_writable f.flags then on_disk (disk.os_sync f.fd datasync) else raise not_implemented)
