-- ===== src/SpecialFiles.antt =====
-- modules/pytagsfs/specialfile/__init__.py: the files that the filesystem shows beside the virtual
-- paths, and the calls that go to them. The filesystem that the mixin stands before is the interface
-- `Super` on a state `S`, and a class of special files is the record `SpecialFile`.
pub mod Delegation
use pytagsfs.Base.{
  ℕ, ◌+◌, ◌==◌, if◌then◌else◌, Option, none, some, List, [], ◌∷◌, ◌++◌, map, Text, Dict, lookup,
  insert, Exec, Proc, pure, raise, ◌>>=◌, ◌>>◌, length, list_eq, nat_eq, attribute_error,
  not_implemented, invalid_argument,
}
use pytagsfs.Util.Paths.{root, join_path_abs}
use pytagsfs.SourceTreeRep.{Stat}
use pytagsfs.LogFile.{VirtualLogFile, tell}

pub record SpecialFile {ℓ} (S : Type ℓ) : Type ℓ where
  pub filename : Text
  pub getattr_file : Text → Exec S Stat
  pub truncate_file : Text → ℕ → Proc S
  pub utimens_file : Text → ℕ × ℕ → Proc S
  -- ReadOnly and ReadWrite, which give the handle of a new instance
  pub read_only : Text → ℕ → Option ℕ → Exec S ℕ
  pub read_write : Text → ℕ → Option ℕ → Exec S ℕ

pub record Super {ℓ} (S : Type ℓ) : Type ℓ where
  pub super_getattr : Text → Exec S Stat
  pub super_readdir : Text → Exec S (List Text)
  pub super_rename : Text → Text → Proc S
  pub super_rmdir : Text → Proc S
  pub super_truncate : Text → ℕ → Proc S
  pub super_utimens : Text → ℕ × ℕ → Proc S
  pub super_read_only : Text → ℕ → Option ℕ → Exec S ℕ
  pub super_read_write : Text → ℕ → Option ℕ → Exec S ℕ

-- The methods of the class `SpecialFile`, which its subclasses replace.
abbrev pub base_file {ℓ} : {S : Type ℓ} → Text → (Text → ℕ → Option ℕ → Exec S ℕ) → SpecialFile S
base_file filename create = record {
  filename = filename;
  getattr_file = λ p. raise not_implemented;
  truncate_file = λ p len. raise not_implemented;
  utimens_file = λ p times. raise not_implemented;
  read_only = create;
  read_write = create;
}

-- `getattr` of the log file, which asks the filesystem for the root.
unfoldable pub getattr_log {ℓ} :
    {S : Type ℓ} → (S → VirtualLogFile) → ℕ → (Text → Exec S Stat) → Exec S Stat
getattr_log log ctime getattr = do
  root_statinfo ← getattr root
  λ s.
      pure
        (record {
          st_mode = 33060;
          st_ino = 0;
          st_dev = root_statinfo.st_dev;
          st_nlink = 1;
          st_uid = root_statinfo.st_uid;
          st_gid = root_statinfo.st_gid;
          st_size = tell (log s).file_obj;
          st_atime = (log s).atime;
          st_mtime = (log s).mtime;
          st_ctime = ctime;
        })
        s

module _ {ℓ} {S : Type ℓ} where
  abbrev pub path_of : SpecialFile S → Text
  path_of cls = join_path_abs (cls.filename ∷ [])

  unfoldable pub add_classes :
      List (SpecialFile S) → Dict Text (SpecialFile S) → Dict Text (SpecialFile S)
  add_classes [] d = d
  add_classes (cls ∷ classes) d = add_classes classes (insert (path_of cls) cls d)

  -- What `init` makes of `special_file_classes`.
  unfoldable pub classes_by_path : List (SpecialFile S) → Dict Text (SpecialFile S)
  unfolding add_classes
  classes_by_path classes = add_classes classes []

  -- `super` is used for a path that is not a special file's. A class that lacks the method
  -- raises AttributeError, as do the classes of special files for `readdir`, `rename` and `rmdir`.
  unfoldable pub delegated {κ} :
      {A : Type κ} → Option (SpecialFile S) → (SpecialFile S → Exec S A) → Exec S A → Exec S A
  delegated none method super_method = super_method
  delegated (some cls) method super_method = method cls

  module _ (super : Super S) (classes : List (SpecialFile S)) where
    unfoldable pub class_at : Text → Option (SpecialFile S)
    unfolding classes_by_path
    class_at fake_path = lookup fake_path (classes_by_path classes)

    -- `_getattr`, and `getattr` with the special files counted in the root's links
    unfoldable pub getattr_delegated : Text → Exec S Stat
    unfolding delegated class_at
    getattr_delegated fake_path =
        delegated (class_at fake_path) (λ cls. cls.getattr_file fake_path)
          (super.super_getattr fake_path)

    abbrev pub with_links : Stat → Stat
    with_links st = record st { st_nlink = st.st_nlink + length classes }

    unfoldable pub getattr_mixed : Text → Exec S Stat
    unfolding getattr_delegated
    getattr_mixed fake_path = do
      stat_result ← getattr_delegated fake_path
      if fake_path == root then pure (with_links stat_result) else pure stat_result

    unfoldable pub readdir_mixed : Text → Exec S (List Text)
    unfolding delegated class_at
    readdir_mixed fake_path = do
      result ←
          delegated (class_at fake_path) (λ cls. raise attribute_error)
            (super.super_readdir fake_path)
      if fake_path == root then pure (map (λ cls. cls.filename) classes ++ result) else pure result

    unfoldable pub rename_mixed : Text → Text → Proc S
    unfolding delegated class_at
    rename_mixed fake_path new_fake_path =
        delegated (class_at fake_path) (λ cls. raise attribute_error)
          (super.super_rename fake_path new_fake_path)

    unfoldable pub rmdir_mixed : Text → Proc S
    unfolding delegated class_at
    rmdir_mixed fake_path =
        delegated (class_at fake_path) (λ cls. raise attribute_error) (super.super_rmdir fake_path)

    unfoldable pub truncate_mixed : Text → ℕ → Proc S
    unfolding delegated class_at
    truncate_mixed fake_path len =
        delegated (class_at fake_path) (λ cls. cls.truncate_file fake_path len)
          (super.super_truncate fake_path len)

    unfoldable pub utimens_mixed : Text → ℕ × ℕ → Proc S
    unfolding delegated class_at
    utimens_mixed fake_path times =
        delegated (class_at fake_path) (λ cls. cls.utimens_file fake_path times)
          (super.super_utimens fake_path times)

    unfoldable pub get_read_only_file_instance : Text → ℕ → Option ℕ → Exec S ℕ
    unfolding delegated class_at
    get_read_only_file_instance fake_path flags truncate_to =
        delegated (class_at fake_path) (λ cls. cls.read_only fake_path flags truncate_to)
          (super.super_read_only fake_path flags truncate_to)

    unfoldable pub get_read_write_file_instance : Text → ℕ → Option ℕ → Exec S ℕ
    unfolding delegated class_at
    get_read_write_file_instance fake_path flags truncate_to =
        delegated (class_at fake_path) (λ cls. cls.read_write fake_path flags truncate_to)
          (super.super_read_write fake_path flags truncate_to)
