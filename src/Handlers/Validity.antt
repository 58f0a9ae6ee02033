-- ===== src/Handlers/Validity.antt =====
-- The calls of the kernel keep the path store valid, over the representation and the table of open
-- files together.
use pytagsfs.Base.{ℕ, Bool, List, [], ◌∷◌, Text, ◌>>=◌, list_eq, nat_eq}
use pytagsfs.OpenFiles.{FileSystem}
use pytagsfs.OpenFiles.Calls.{open_file, release, truncate}
use pytagsfs.OpenFiles.World.{InWorld}
use pytagsfs.SourceTreeRep
use pytagsfs.SourceTreeRep.{SourceTreeRep}
use pytagsfs.SourceTreeRep.SourceFiles.{Settings}
use pytagsfs.SourceTreeRep.Validity.{HasValidStore}
use pytagsfs.SourceTreeRep.Validity.Calls.{Call, perform}
use pytagsfs.Handlers.{
  Disk, os, getattr_of, mkdir, rmdir, rename, readdir, utimens, fgetattr, read, write, ftruncate,
  flush, fsync,
}

-- A call of the kernel, or of the monitor.
pub data KernelCall : Type 0 where
  call_getattr call_readdir call_mkdir call_rmdir : Text → KernelCall
  call_rename : Text → Text → KernelCall
  call_utimens : Text → ℕ × ℕ → KernelCall
  call_open call_truncate : Text → ℕ → KernelCall
  call_release : Text → ℕ → ℕ → KernelCall
  call_fgetattr call_flush : ℕ → KernelCall
  call_fsync : Bool → ℕ → KernelCall
  call_ftruncate : ℕ → ℕ → KernelCall
  call_read : ℕ → ℕ → ℕ → KernelCall
  call_write : List ℕ → ℕ → ℕ → KernelCall
  call_monitor : Call → KernelCall

module _ {ℓ} {W : Type ℓ} (settings : Settings W) (root_path : Text) (disk : Disk W) where
  pub handle : KernelCall → FileSystem (SourceTreeRep W) → FileSystem (SourceTreeRep W)
  handle (call_getattr p) s = (getattr_of settings root_path disk p s).1
  handle (call_readdir p) s = (readdir settings root_path disk p s).1
  handle (call_mkdir p) s = (mkdir settings root_path disk p s).1
  handle (call_rmdir p) s = (rmdir settings root_path disk p s).1
  handle (call_rename p q) s = (rename settings root_path disk p q s).1
  handle (call_utimens p times) s = (utimens settings root_path disk p times s).1
  handle (call_open p flags) s = (open_file (os settings root_path disk) p flags s).1
  handle (call_truncate p len) s = (truncate (os settings root_path disk) p len s).1
  handle (call_release p flags fh) s = (release (os settings root_path disk) p flags fh s).1
  handle (call_fgetattr fh) s = (fgetattr settings root_path disk fh s).1
  handle (call_flush fh) s = (flush settings root_path disk fh s).1
  handle (call_fsync datasync fh) s = (fsync settings root_path disk datasync fh s).1
  handle (call_ftruncate len fh) s = (ftruncate settings root_path disk len fh s).1
  handle (call_read length offset fh) s = (read settings root_path disk length offset fh s).1
  handle (call_write buf offset fh) s = (write settings root_path disk buf offset fh s).1
  handle (call_monitor c) s = record s { world = perform settings c s.world }

  -- The file system after any calls, of which some may raise.
  pub handle_all : List KernelCall → FileSystem (SourceTreeRep W) → FileSystem (SourceTreeRep W)
  handle_all [] s = s
  handle_all (c ∷ calls) s = handle_all calls (handle c s)

  abbrev pub StoreIsValid : FileSystem (SourceTreeRep W) → Type 0
  StoreIsValid = InWorld HasValidStore
