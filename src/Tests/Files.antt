-- ===== src/Tests/Files.antt =====
-- The theorems on the log file and the table of open files at concrete values.
use pytagsfs.SourceTree.{validate_path, get_absolute_path, get_relative_path}
use pytagsfs.SourceTree.RelativePaths.{get_relative_path-get_absolute_path}
use pytagsfs.Util.Paths.{starts_with_sep, ends_with_sep}
use pytagsfs.DeferredMonitor.Draining.{finish_processing_raised}
use pytagsfs.DeferredMonitor.{
  remove, is_update, finish_processing, after_callback, Event, update, report_all, is_collapsed,
}
use pytagsfs.DeferredMonitor.Collapse.{only, only-report_all}
use pytagsfs.LogFile.{write_all, new_buffer, getvalue, tell}
use pytagsfs.LogFile.RingLaws.{getvalue-write_all}
use pytagsfs.OpenFiles.Calls.{open_file, truncate, getattr_size}
use pytagsfs.OpenFiles.Balance.{handles, frozen_count}
use pytagsfs.Base.{
  none, some, ◌≡◌, refl, ℕ, [], ◌∷◌, ◌++◌, Text, text, lookup, length, ok, pure, list_eq, nat_eq,
  is_none, nat_beq, if◌then◌else◌, ◌==◌, ◌&&◌, ltb, list_beq, Proc, err, value_error, ◌+◌, ◌≤◌, Exc,
  get_elem?, set,
}
use pytagsfs.OpenFiles.{File, Os, FileSystem, new_file_system, max_open_files}
use pytagsfs.OpenFiles.Bounds.{open_file-bounds}
use pytagsfs.OpenFiles.Reachable.{started, opened, frozen_lem}
use pytagsfs.OpenFiles.Reads.{read_only_read, fgetattr_size, read_only_read_lem}
use pytagsfs.OpenFiles.Truncation.{getattr_size-truncate}

getvalue-write_all_example :
    (getvalue (write_all ((1 ∷ 2 ∷ []) ∷ (3 ∷ []) ∷ []) (new_buffer 2)) ≡ 2 ∷ 3 ∷ [])
    × (tell (write_all ((1 ∷ 2 ∷ []) ∷ (3 ∷ []) ∷ []) (new_buffer 2))
        ≡ length (getvalue (write_all ((1 ∷ 2 ∷ []) ∷ (3 ∷ []) ∷ []) (new_buffer 2))))
getvalue-write_all_example = getvalue-write_all 2 ((1 ∷ 2 ∷ []) ∷ (3 ∷ []) ∷ [])

-- An operating system with the state of one number, the size of the one file.
abbrev one_file : Os ℕ
one_file = record {
  get_real_path = λ p. pure (text "/src" ++ p);
  os_open = λ p flags. pure 3;
  os_ftruncate = λ fd len w. (ok tt, len);
  os_close = λ fd. pure tt;
  ftruncate_path = λ p len w. (ok tt, len);
  source_size = λ p w. (ok w, w);
  lstat_size = λ p w. (ok w, w);
}

abbrev track : Text
track = text "/track"

abbrev opened_once : FileSystem ℕ
opened_once = (open_file one_file track 1 (new_file_system 9)).1

frozen_lem_example :
    (is_none (lookup track opened_once.frozen_path_mappings)
      ≡ nat_beq (handles track opened_once.open_files) 0)
    × (frozen_count (lookup track opened_once.frozen_path_mappings)
        ≡ handles track opened_once.open_files)
frozen_lem_example =
    frozen_lem one_file opened_once track (opened track 1 (new_file_system 9) (started 9))

open_file-bounds_example :
    ((fh : ℕ)
      → (open_file one_file track 0 opened_once).0 ≡ ok fh
      → (fh ≤ max_open_files)
        × (get_elem? opened_once.open_files fh ≡ some none)
        × (f : File) × ((open_file one_file track 0 opened_once).1.open_files
            ≡ set opened_once.open_files fh (some f)))
    × ((c : Exc)
        → (open_file one_file track 0 opened_once).0 ≡ err c
        → (open_file one_file track 0 opened_once).1.open_files ≡ opened_once.open_files)
open_file-bounds_example =
    open_file-bounds one_file track 0 opened_once (opened track 1 (new_file_system 9) (started 9))

getattr_size-truncate_example :
    ((truncate one_file track 4 (new_file_system 9)).0 ≡ ok tt)
    × ((truncate one_file track 4 (new_file_system 9)).1.world ≡ 9)
    × (m : ℕ) × ((getattr_size one_file track (new_file_system 9)).0 ≡ ok m)
    × ((getattr_size one_file track (truncate one_file track 4 (new_file_system 9)).1).0
        ≡ ok (if track == track && ltb 4 m then 4 else m))
unfolding lookup
getattr_size-truncate_example =
    getattr_size-truncate one_file track track 4 9 (new_file_system 9) refl refl refl

abbrev music : Text
music = text "/music"

get_relative_path-get_absolute_path_example :
    (abs_path : Text) × (get_absolute_path music track ≡ ok abs_path)
    × (get_relative_path music abs_path ≡ ok track)
unfolding validate_path starts_with_sep ends_with_sep list_beq
get_relative_path-get_absolute_path_example =
    get_relative_path-get_absolute_path music track refl refl

abbrev updated : Event ℕ
updated = record { action = update; path = track; args = 0 }

only-report_all_example : only track (report_all (updated ∷ updated ∷ []) []) ≡ updated ∷ []
unfolding list_beq is_collapsed
only-report_all_example = only-report_all track (updated ∷ updated ∷ []) []

-- A callback that notes the path's length, and raises for a removal.
abbrev noting : Event ℕ → Proc ℕ
noting e w = if is_update e.action then (ok tt, w + length e.path) else (err value_error, w)

abbrev removed : Event ℕ
removed = record { action = remove; path = music; args = 0 }

finish_processing_raised_example :
    finish_processing noting (updated ∷ removed ∷ updated ∷ []) 1
    ≡ (err value_error, updated ∷ [], 7)
unfolding finish_processing after_callback
finish_processing_raised_example =
    finish_processing_raised noting (updated ∷ []) (updated ∷ []) removed 1 7 7 value_error refl
      refl

read_only_read_lem_example :
    (read_only_read (some 3) 1 0 (5 ∷ 6 ∷ 7 ∷ 8 ∷ []) ≡ 5 ∷ 6 ∷ 7 ∷ [])
    × (fgetattr_size (some 3) (5 ∷ 6 ∷ 7 ∷ 8 ∷ []) ≡ 3)
read_only_read_lem_example = read_only_read_lem 3 1 0 (5 ∷ 6 ∷ 7 ∷ 8 ∷ [])
