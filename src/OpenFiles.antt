-- ===== src/OpenFiles.antt =====
-- The table of open files of modules/pytagsfs/fs/__init__.py (`FrozenPath` and the attributes of
-- `FileSystemMappingToRealFiles`), with the files of modules/pytagsfs/file.py. The attributes of a
-- file object never change after its constructor, save `truncate_to`: the objects stand by value
-- with their identity, and `truncate_to` is a store by identity. The operating system and the source
-- tree representation are the interface `Os`.
pub mod Calls
pub mod Balance
pub mod Closing
pub mod Reachable
pub mod Truncation
pub mod Reads
pub mod Slots
pub mod Bounds
pub mod World
use Prim.Native.Nat.{ℕ, zero, suc, ◌+◌, ◌-◌, ◌%◌}
use pytagsfs.Base.{
  Bool, true, false, not, if◌then◌else◌, nat_beq, ltb, Option, none, some, List, [], ◌∷◌, ◌++◌,
  Text, Dict, lookup, insert, erase, set, is_empty, get_elem?, remove_first, contains, Exec, Proc,
  Result, ok, err, pure, raise, gets, modify, zoom, ◌>>=◌, ◌>>◌, assertion_error, value_error,
  key_error, index_error, attribute_error, list_eq, nat_eq, Eq,
}

pub record FrozenPath : Type 0 where
  pub real_path : Text
  pub count : ℕ

abbrev pub increment : FrozenPath → FrozenPath
increment f = record f { count = f.count + 1 }

-- AssertionError at zero
abbrev pub decrement : FrozenPath → Option FrozenPath
decrement f = if nat_beq f.count 0 then none else some (record f { count = f.count - 1 })

pub record File : Type 0 where
  pub id : ℕ
  pub fake_path : Text
  pub real_path : Text
  pub flags : ℕ
  pub fd : ℕ

-- (os.O_RDWR | os.O_WRONLY) & flags, the two low bits
abbrev pub is_writable : ℕ → Bool
is_writable flags = not (nat_beq (flags % 4) 0)

-- What the open files use of the operating system and of the source tree representation.
pub record Os {ℓ} (W : Type ℓ) : Type ℓ where
  pub get_real_path : Text → Exec W Text
  pub os_open : Text → ℕ → Exec W ℕ
  pub os_ftruncate : ℕ → ℕ → Proc W
  pub os_close : ℕ → Proc W
  pub ftruncate_path : Text → ℕ → Proc W
  -- The sizes that source_tree_rep.getattr of a virtual path and os.lstat of a real one give.
  pub source_size : Text → Exec W ℕ
  pub lstat_size : Text → Exec W ℕ

pub record FileSystem {ℓ} (W : Type ℓ) : Type ℓ where
  pub world : W
  pub open_files : List (Option File)
  pub truncate_to : Dict ℕ (Option ℕ)
  pub next_id : ℕ
  pub read_only_files_by_fake_path : Dict Text (List ℕ)
  pub frozen_path_mappings : Dict Text FrozenPath
  pub truncated_paths : Dict Text ℕ

abbrev pub free_slots : ℕ → List (Option File)
free_slots zero = []
free_slots (suc n) = none ∷ free_slots n

abbrev pub max_open_files : ℕ
max_open_files = 1024

-- The first free slot, `none` for ValueError.
unfoldable pub free_slot : List (Option File) → Option ℕ
free_slot [] = none
free_slot (none ∷ slots) = some 0
free_slot (some f ∷ slots) = elim (free_slot slots) [ none ↦ none | some fh ↦ some (suc fh) ]

-- set_truncate_to of each file of a list
unfoldable pub write_truncate_to : List ℕ → ℕ → Dict ℕ (Option ℕ) → Dict ℕ (Option ℕ)
write_truncate_to [] len d = d
write_truncate_to (id ∷ ids) len d = write_truncate_to ids len (insert id (some len) d)

-- del_truncate_to: a second `del` of one attribute raises AttributeError
unfoldable pub delete_attribute : ℕ → Proc (Dict ℕ (Option ℕ))
delete_attribute id d = elim (lookup id d) [
  | none ↦ raise attribute_error d
  | some t ↦ (ok tt, erase id d)
]

unfoldable pub delete_truncate_to : List ℕ → Proc (Dict ℕ (Option ℕ))
unfolding delete_attribute
delete_truncate_to [] = pure tt
delete_truncate_to (id ∷ ids) = do delete_attribute id; delete_truncate_to ids

-- The mapping of a path that is opened for writing, made at the first time.
unfoldable pub frozen_path : Text → Option FrozenPath → FrozenPath
frozen_path real_path none = record { real_path = real_path; count = 0 }
frozen_path real_path (some f) = f

unfoldable pub is_shorter : ℕ → Option ℕ → Bool
is_shorter len none = true
is_shorter len (some t) = ltb len t

-- The size that `getattr` shows: the other fields are those of the real file.
unfoldable pub shown_size : ℕ → Option ℕ → ℕ
shown_size st_size none = st_size
shown_size st_size (some t) = if ltb t st_size then t else st_size

module _ {ℓ} {W : Type ℓ} where
  abbrev pub new_file_system : W → FileSystem W
  new_file_system w = record {
    world = w;
    open_files = free_slots (max_open_files + 1);
    truncate_to = [];
    next_id = 0;
    read_only_files_by_fake_path = [];
    frozen_path_mappings = [];
    truncated_paths = [];
  }

  -- A call of the operating system.
  abbrev pub outside {κ} : {A : Type κ} → Exec W A → Exec (FileSystem W) A
  outside = zoom (λ s. s.world) (λ w s. record s { world = w })

  unfoldable pub get_next_fh : Exec (FileSystem W) ℕ
  get_next_fh s = elim (free_slot s.open_files) [ none ↦ raise value_error s | some fh ↦ pure fh s ]

  -- self.read_only_files_by_fake_path.get(fake_path, ())
  unfoldable pub read_only_files : Text → FileSystem W → List ℕ
  read_only_files fake_path s = elim (lookup fake_path s.read_only_files_by_fake_path) [
    | none ↦ []
    | some ids ↦ ids
  ]

  unfoldable pub set_truncate_to : Text → ℕ → Proc (FileSystem W)
  unfolding write_truncate_to read_only_files
  set_truncate_to fake_path len = modify (λ s. record s {
    truncate_to = write_truncate_to (read_only_files fake_path s) len s.truncate_to;
  })

  unfoldable pub del_truncate_to : Text → Option ℕ → Proc (FileSystem W)
  unfolding delete_truncate_to read_only_files
  del_truncate_to fake_path none = pure tt
  del_truncate_to fake_path (some len) = λ s.
      zoom (λ s. s.truncate_to) (λ d s. record s { truncate_to = d })
        (delete_truncate_to (read_only_files fake_path s)) s

  -- self.truncated_paths.pop(fake_path, None)
  unfoldable pub pop_truncated : Text → Exec (FileSystem W) (Option ℕ)
  pop_truncated fake_path s = (
    ok (lookup fake_path s.truncated_paths),
    record s { truncated_paths = erase fake_path s.truncated_paths },
  )

  unfoldable pub freeze : File → Proc (FileSystem W)
  unfolding frozen_path
  freeze f = modify (λ s. record s {
    frozen_path_mappings =
        insert f.fake_path
          (increment (frozen_path f.real_path (lookup f.fake_path s.frozen_path_mappings)))
          s.frozen_path_mappings;
  })

  unfoldable pub note_read_only : File → Proc (FileSystem W)
  unfolding read_only_files
  note_read_only f = modify (λ s. record s {
    read_only_files_by_fake_path =
        insert f.fake_path (read_only_files f.fake_path s ++ f.id ∷ [])
          s.read_only_files_by_fake_path;
  })

  -- What `open` does once a file has its handle.
  unfoldable pub note : File → Proc (FileSystem W)
  unfolding freeze note_read_only
  note f = if is_writable f.flags then freeze f else note_read_only f

  unfoldable pub place : File → ℕ → Exec (FileSystem W) ℕ
  unfolding note
  place f fh = do
    modify (λ s. record s { open_files = set s.open_files fh (some f) })
    note f
    pure fh

  unfoldable pub install : File → Exec (FileSystem W) ℕ
  unfolding get_next_fh place
  install f = do fh ← get_next_fh; place f fh

  -- The bookkeeping of `release`: KeyError for a path that is not frozen, AssertionError at zero.
  unfoldable pub thaw : Text → Proc (FileSystem W)
  thaw fake_path s = elim (lookup fake_path s.frozen_path_mappings) [
    | none ↦ raise key_error s
    | some f ↦ elim (decrement f) [
      | none ↦ raise assertion_error s
      | some g ↦ (
        ok tt,
        record s {
          frozen_path_mappings =
              if nat_beq g.count 0
              then erase fake_path s.frozen_path_mappings
              else insert fake_path g s.frozen_path_mappings;
        },
      )
    ]
  ]

  -- KeyError for a path without a list, ValueError for a file that is not in it.
  unfoldable pub forget_read_only : Text → File → Proc (FileSystem W)
  forget_read_only fake_path f s = elim (lookup fake_path s.read_only_files_by_fake_path) [
    | none ↦ raise key_error s
    | some ids ↦
        if contains f.id ids
        then (let rest = remove_first f.id ids in
            (
              ok tt,
              record s {
                read_only_files_by_fake_path =
                    if is_empty rest
                    then erase fake_path s.read_only_files_by_fake_path
                    else insert fake_path rest s.read_only_files_by_fake_path;
              },
            ))
        else raise value_error s
  ]

  -- self.read_only_files_by_fake_path[fake_path].remove(None)
  unfoldable pub forget_none : Text → Proc (FileSystem W)
  forget_none fake_path s = elim (lookup fake_path s.read_only_files_by_fake_path) [
    | none ↦ raise key_error s
    | some ids ↦ raise value_error s
  ]

  -- self.open_files[fh]: IndexError past the end, and `none` for None.
  abbrev pub file_at : ℕ → Exec (FileSystem W) (Option File)
  file_at fh s = elim (get_elem? s.open_files fh) [ none ↦ raise index_error s | some f ↦ pure f s ]

  unfoldable pub defer_truncate : Text → ℕ → Proc (FileSystem W)
  unfolding set_truncate_to is_shorter
  defer_truncate fake_path len s =
      if is_shorter len (lookup fake_path s.truncated_paths)
      then set_truncate_to fake_path len
          (record s { truncated_paths = insert fake_path len s.truncated_paths })
      else pure tt s
