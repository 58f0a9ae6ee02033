-- ===== src/LogFile.antt =====
-- modules/pytagsfs/specialfile/logfile.py: the ring buffer of the log and the file that shows it.
-- A byte is a number. The clock's readings and the encoding of text are arguments of the callers.
pub mod RingLaws
use Prim.Native.Nat.{ℕ, ◌+◌, ◌-◌}
use pytagsfs.Base.{
  ◌∷◌, Bool, true, false, if◌then◌else◌, ltb, Option, none, some, List, [], ◌++◌, length, take,
  drop, Result, ok, err, invalid_argument,
}

abbrev pub Bytes : Type 0
Bytes = List ℕ

-- `is_full` is the class: FullRingCharacterBuffer where it is true.
pub record RingCharacterBuffer : Type 0 where
  pub max_length : ℕ
  pub buffer : Bytes
  pub len : ℕ
  pub is_full : Bool

abbrev pub new_buffer : ℕ → RingCharacterBuffer
new_buffer max_length = record { max_length = max_length; buffer = []; len = 0; is_full = false }

-- FullRingCharacterBuffer.write
unfoldable pub write_full : Bytes → RingCharacterBuffer → RingCharacterBuffer
write_full s b = record b { buffer = drop (length s) (b.buffer ++ s) }

-- RingCharacterBuffer.write of a buffer that is not full
unfoldable pub write_growing : Bytes → RingCharacterBuffer → RingCharacterBuffer
write_growing s b =
    let len = b.len + length s in
    if ltb b.max_length len
    then record b {
      buffer = drop (len - b.max_length) (b.buffer ++ s);
      len = b.max_length;
      is_full = true;
    }
    else record b { buffer = b.buffer ++ s; len = len }

unfoldable pub write : Bytes → RingCharacterBuffer → RingCharacterBuffer
unfolding write_full write_growing
write s b = if b.is_full then write_full s b else write_growing s b

-- The log, written chunk by chunk.
unfoldable pub write_all : List Bytes → RingCharacterBuffer → RingCharacterBuffer
write_all [] b = b
write_all (s ∷ chunks) b = write_all chunks (write s b)

abbrev pub tell : RingCharacterBuffer → ℕ
tell b = b.len

abbrev pub getvalue : RingCharacterBuffer → Bytes
getvalue b = b.buffer

pub record VirtualLogFile : Type 0 where
  pub file_obj : RingCharacterBuffer
  pub atime : ℕ
  pub mtime : ℕ

unfoldable pub log_write : ℕ → Bytes → VirtualLogFile → VirtualLogFile
unfolding write
log_write now s f = record f { file_obj = write s f.file_obj; mtime = now }

unfoldable pub set_max_length : ℕ → VirtualLogFile → VirtualLogFile
set_max_length bytes f = record f { file_obj = record f.file_obj { max_length = bytes } }

-- getvalue()[offset:offset + length]
unfoldable pub read : ℕ → ℕ → VirtualLogFile → Bytes
read count offset f = take count (drop offset (getvalue f.file_obj))

-- The file can be opened to read, and not after a truncate.
abbrev pub open_read_only : Option ℕ → Result (Unit {0})
open_read_only none = ok tt
open_read_only (some truncate_to) = err invalid_argument

abbrev pub open_read_write : Option ℕ → Result (Unit {0})
open_read_write truncate_to = err invalid_argument

-- `times` is None for the present time.
unfoldable pub utimens : ℕ → Option (ℕ × ℕ) → VirtualLogFile → VirtualLogFile
utimens now none f = record f { atime = now; mtime = now }
utimens now (some (atime, mtime)) f = record f { atime = atime; mtime = mtime }
