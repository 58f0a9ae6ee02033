-- ===== src/Tests/KernelCalls.antt =====
-- Calls of the kernel on a filesystem over a source tree with one file, and a truncation.
use pytagsfs.Base.{
  true, List, [], ◌∷◌, ◌++◌, map, text, pure, ◌≡◌, refl, Text, ok, some, lookup, insert, list_beq,
}
use pytagsfs.PathPropCache.{put, get}
use pytagsfs.PathPropCache
use pytagsfs.SourceTreeRep
use pytagsfs.SourceTreeRep.{SourceTreeRep, Stat, stat_key, stat_value}
use pytagsfs.SourceTreeRep.Attributes.{getattr}
use pytagsfs.OpenFiles.{new_file_system, FileSystem}
use pytagsfs.OpenFiles.Calls.{truncate}
use pytagsfs.Handlers.Stats.{cut_stat, getattr_of-truncate}
use pytagsfs.Handlers.{os, getattr_of, Disk}
use pytagsfs.Handlers.Validity.{
  KernelCall, call_monitor, call_getattr, call_open, call_write, call_rename, call_release,
  call_mkdir, call_utimens,
}
use pytagsfs.Tests.Representation.{World, settings, calls, start, no_stat}

-- A disk on which every call succeeds.
abbrev pub disk : Disk World
disk = record {
  os_open = λ p flags. pure 3;
  os_ftruncate = λ fd len. pure tt;
  os_close = λ fd. pure tt;
  ftruncate_path = λ p len. pure tt;
  os_lstat = λ p. pure no_stat;
  os_fstat = λ fd. pure no_stat;
  os_read = λ fd length offset. pure [];
  os_write = λ fd buf offset. pure 1;
  os_close_dup = λ fd. pure tt;
  os_sync = λ fd datasync. pure tt;
}

abbrev kernel_calls : List KernelCall
kernel_calls =
    map call_monitor calls
    ++ call_getattr (text "/Eno")
      ∷ call_open (text "/Eno/Help.ogg") 1
      ∷ call_write (1 ∷ []) 0 0
      ∷ call_rename (text "/Eno") (text "/Cale")
      ∷ call_release (text "/Eno/Help.ogg") 1 0
      ∷ call_mkdir (text "/New")
      ∷ call_utimens (text "/New") (1, 2)
      ∷ []

abbrev track : Text
track = text "/Eno/Help.ogg"

-- A representation that has the stat result of a track, of nine bytes.
abbrev one_track : FileSystem (SourceTreeRep World)
one_track = new_file_system (record start {
  cache = some (put track stat_key (stat_value (record no_stat { st_size = 9 })) []).1;
})

track_stat :
    (getattr_of settings (text "/src") disk track one_track).0 ≡ ok (record no_stat { st_size = 9 })
unfolding getattr_of getattr put lookup list_beq get insert SourceTreeRep.validate_path
    PathPropCache.path_dict
track_stat = refl

getattr_of-truncate_example :
    (getattr_of settings
      (text "/src")
      disk
      track
      (truncate (os settings (text "/src") disk) track 4 one_track).1).0
    ≡ cut_stat true 4 (getattr_of settings (text "/src") disk track one_track).0
unfolding lookup list_beq
getattr_of-truncate_example =
    getattr_of-truncate settings (text "/src") disk track track 4 one_track refl
