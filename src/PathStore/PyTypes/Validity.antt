-- ===== src/PathStore/PyTypes/Validity.antt =====
-- The invariant of the path store, kept by every method whether it returns or raises.
use mathlib.Core.Path.{subst}
use pytagsfs.Base.{
  no_meta_data_exists, ℕ, Exc, is_path_not_found, value_error, path_exists, fake_path_not_found,
  not_a_directory, not_an_end_point, assertion_error, is_a_directory, directory_not_empty, is_none,
  not, not, value_error, Bool, Option, none, some, List, [], ◌∷◌, Text, Exec, Proc, arith, ◌==◌,
  list_eq, nat_eq, pure, raise,
}
use pytagsfs.Base.Invariants.{
  Keeps, Keeps-pure, Keeps-raise, Keeps-if, Keeps-if_at, Keeps-catch, Keeps-bind, Keeps-zoom,
}
use pytagsfs.Util.Paths.{path_split, root, ends_with_sep}
use pytagsfs.PathStore.Mapping.{PathMapping, add_real_path, remove_real_path}
use pytagsfs.PathStore.Mapping.Consistency.{
  IsConsistent, add_real_path-IsConsistent, remove_real_path-IsConsistent,
}
use pytagsfs.PathStore.Entries.{
  locate_entry_by_fake_path, locate_entry, EntryStore, remove_directory,
  add_entries_and_directories_recursive, replace_entry, get_all_entries,
}
use pytagsfs.PathStore.Entries.Rooted.{
  HasRoot, add_recursive-HasRoot, remove_recursive-HasRoot, add_directory-HasRoot,
  remove_directory-HasRoot, replace_entry-HasRoot, get_all_entries-HasRoot, add_entries-HasRoot,
  locate_entry-HasRoot, change_entries-HasRoot,
}
use pytagsfs.PathStore.Mapping
use pytagsfs.PathStore.PyTypes
use pytagsfs.PathStore.PyTypes.{
  on_mapping, on_entries, unset_at, PathStore, refuse, refuse_duplicate, get_real_path, is_dir,
  is_file, is_path, is_empty_dir, add_file, must_not_exist, must_exist, must_be_empty_directory,
  assert_not_root, remove_file, remove_empty_directory, remove, verify_rename, rename_file,
  rename_directory, rename, must_be_end_point, set_meta_data, get_meta_data, unset_meta_data,
  write_entry, entry_at,
}

module _ {ℓ} {M : Type ℓ} where
  -- The two directions of the mapping agree, and the root directory is there.
  pub record IsValid (s : PathStore M) : Type 0 where
    pub mapping : IsConsistent s.path_mapping
    pub rooted : HasRoot s.entries

  pub on_entries-IsValid {κ} :
      {A : Type κ} (m : Exec (EntryStore M) A) → Keeps HasRoot m → Keeps IsValid (on_entries m)
  on_entries-IsValid m h =
      Keeps-zoom (λ s. s.entries) (λ e s. record s { entries = e }) m (λ s v. v.rooted)
        (λ s t v r. record { mapping = v.mapping; rooted = r }) h

  pub on_mapping-IsValid {κ} :
      {A : Type κ} (m : Exec PathMapping A) → Keeps IsConsistent m → Keeps IsValid (on_mapping m)
  on_mapping-IsValid m h =
      Keeps-zoom (λ s. s.path_mapping) (λ p s. record s { path_mapping = p }) m (λ s v. v.mapping)
        (λ s t v r. record { mapping = r; rooted = v.rooted }) h

  pub refuse-IsValid : (test : PathStore M → Bool) (c : Exc) → Keeps IsValid (refuse test c)
  refuse-IsValid test c = Keeps-if_at test (raise c) (pure tt) (Keeps-raise c) (Keeps-pure tt)

  pub get_real_path-IsValid : (f : Text) → Keeps IsValid (get_real_path {M = M} f)
  unfolding get_real_path
  get_real_path-IsValid f = record { at = λ s v. subst IsValid (ground arith) v }

  refuse_duplicate-IsValid : (f r : Text) → Keeps IsValid (refuse_duplicate {M = M} f r)
  unfolding refuse_duplicate
  refuse_duplicate-IsValid f r = Keeps-catch is_path_not_found (pure tt) _ (Keeps-pure tt) (
      Keeps-bind (get_real_path f) _ (get_real_path-IsValid f) (λ p.
        Keeps-if (r == p) (raise value_error) (pure tt) (Keeps-raise value_error) (Keeps-pure tt)))

  pub add_file-IsValid : (f r : Text) → Keeps IsValid (add_file {M = M} f r)
  unfolding add_file
  add_file-IsValid f r =
      Keeps-bind (refuse (λ s. is_dir s f) path_exists) _ (refuse-IsValid _ path_exists) λ _.
        Keeps-bind (refuse_duplicate f r) _ (refuse_duplicate-IsValid f r) λ _.
          Keeps-bind (on_mapping (Mapping.add_real_path f r)) _
            (on_mapping-IsValid _ (record { at = add_real_path-IsConsistent f r }))
            λ _. on_entries-IsValid _ (add_recursive-HasRoot f)

  must_not_exist-IsValid : (f : Text) → Keeps IsValid (must_not_exist {M = M} f)
  unfolding must_not_exist
  must_not_exist-IsValid f = refuse-IsValid (λ s. is_path s f) path_exists

  pub must_exist-IsValid : (f : Text) → Keeps IsValid (must_exist {M = M} f)
  unfolding must_exist
  must_exist-IsValid f = refuse-IsValid (λ s. not (is_path s f)) fake_path_not_found

  pub add_directory-IsValid : (f : Text) → Keeps IsValid (PyTypes.add_directory {M = M} f)
  unfolding PyTypes.add_directory
  add_directory-IsValid f = Keeps-bind (must_not_exist f) _ (must_not_exist-IsValid f) λ _.
      Keeps-bind (on_entries (add_entries_and_directories_recursive f)) _
        (on_entries-IsValid _ (add_recursive-HasRoot f))
        λ _. on_entries-IsValid _ (add_directory-HasRoot f)

  remove_file-IsValid : (f : Text) (r : Option Text) → Keeps IsValid (remove_file {M = M} f r)
  unfolding remove_file
  remove_file-IsValid f r =
      Keeps-bind (on_mapping (Mapping.remove_real_path f r)) _
        (on_mapping-IsValid _ (record { at = remove_real_path-IsConsistent f r }))
        λ _. on_entries-IsValid _ (remove_recursive-HasRoot f)

  must_be_empty_directory-IsValid : (f : Text) → Keeps IsValid (must_be_empty_directory {M = M} f)
  unfolding must_be_empty_directory
  must_be_empty_directory-IsValid f = Keeps-bind (must_exist f) _ (must_exist-IsValid f) λ _.
      Keeps-if_at (λ s. is_empty_dir s f) (pure tt) _ (Keeps-pure tt)
        (Keeps-if_at (λ s. is_file s f) (raise not_a_directory) (raise not_an_end_point)
          (Keeps-raise not_a_directory) (Keeps-raise not_an_end_point))

  assert_not_root-IsValid : (f : Text) → Keeps IsValid (assert_not_root {M = M} f)
  unfolding assert_not_root
  assert_not_root-IsValid f = refuse-IsValid (λ _. f == root) assertion_error

  remove_empty_directory-IsValid : (f : Text) → Keeps IsValid (remove_empty_directory {M = M} f)
  unfolding remove_empty_directory
  remove_empty_directory-IsValid f =
      Keeps-bind (assert_not_root f) _ (assert_not_root-IsValid f) λ _.
        Keeps-bind (must_be_empty_directory f) _ (must_be_empty_directory-IsValid f) λ _.
          Keeps-bind (on_entries (remove_directory f)) _
            (on_entries-IsValid _ (remove_directory-HasRoot f))
            λ _. on_entries-IsValid _ (remove_recursive-HasRoot f)

  pub remove-IsValid : (f : Text) (r : Option Text) → Keeps IsValid (remove {M = M} f r)
  unfolding remove
  remove-IsValid f r =
      Keeps-if_at (λ s. is_dir s f) _ _
        (Keeps-if_at (λ _. not (is_none r)) (raise is_a_directory) _ (Keeps-raise is_a_directory)
          (Keeps-if_at (λ s. is_empty_dir s f) (remove_empty_directory f)
            (raise directory_not_empty) (remove_empty_directory-IsValid f)
            (Keeps-raise directory_not_empty)))
        (Keeps-if_at (λ s. is_file s f) (remove_file f r) (raise fake_path_not_found)
          (remove_file-IsValid f r) (Keeps-raise fake_path_not_found))

  verify_rename-IsValid : (old new : Text) → Keeps IsValid (verify_rename {M = M} old new)
  unfolding verify_rename
  verify_rename-IsValid old new =
      Keeps-bind (refuse (λ _. old == new) value_error) _ (refuse-IsValid _ value_error) λ _.
        Keeps-bind (refuse (λ _. ends_with_sep old) value_error) _ (refuse-IsValid _ value_error)
          λ _. refuse-IsValid (λ _. ends_with_sep new) value_error

  rename_file-IsValid : (old new : Text) → Keeps IsValid (rename_file {M = M} old new)
  unfolding rename_file
  rename_file-IsValid old new = Keeps-bind (get_real_path old) _ (get_real_path-IsValid old) λ r.
      Keeps-bind (verify_rename old new) _ (verify_rename-IsValid old new) λ _.
        Keeps-if ((path_split old).0 == (path_split new).0) _ _
          (Keeps-bind
            (on_entries (replace_entry (path_split old).0 (path_split old).1 (path_split new).1)) _
            (on_entries-IsValid _ (replace_entry-HasRoot _ _ _))
            λ _.
              Keeps-bind (on_mapping (Mapping.remove_real_path old (some r))) _
                (on_mapping-IsValid _ (record { at = remove_real_path-IsConsistent old (some r) }))
                λ _. on_mapping-IsValid _ (record { at = add_real_path-IsConsistent new r }))
          (Keeps-bind (remove_file old (some r)) _ (remove_file-IsValid old (some r))
            λ _. add_file-IsValid new r)

  rename_directory-IsValid : (old new : Text) → Keeps IsValid (rename_directory {M = M} old new)
  unfolding rename_directory
  rename_directory-IsValid old new =
      Keeps-bind (must_be_empty_directory old) _ (must_be_empty_directory-IsValid old) λ _.
        Keeps-bind (assert_not_root old) _ (assert_not_root-IsValid old) λ _.
          Keeps-bind (assert_not_root new) _ (assert_not_root-IsValid new) λ _.
            Keeps-bind (verify_rename old new) _ (verify_rename-IsValid old new) λ _.
              Keeps-bind (on_entries (get_all_entries old)) _
                (on_entries-IsValid _ (get_all_entries-HasRoot old))
                λ es.
                  Keeps-bind _ _
                    (Keeps-if ((path_split old).0 == (path_split new).0) _ _
                      (Keeps-bind (on_entries (remove_directory old)) _
                        (on_entries-IsValid _ (remove_directory-HasRoot old))
                        λ _.
                          Keeps-bind
                            (on_entries (
                              replace_entry (path_split old).0 (path_split old).1
                                (path_split new).1))
                            _ (on_entries-IsValid _ (replace_entry-HasRoot _ _ _))
                            λ _. on_entries-IsValid _ (add_directory-HasRoot new))
                      (Keeps-bind (remove_empty_directory old) _
                        (remove_empty_directory-IsValid old) λ _. add_directory-IsValid new))
                    λ _. on_entries-IsValid _ (add_entries-HasRoot new es)

  rename-IsValid : (old new : Text) → Keeps IsValid (rename {M = M} old new)
  unfolding rename
  rename-IsValid old new =
      Keeps-if_at (λ s. is_dir s old) (rename_directory old new) _
        (rename_directory-IsValid old new)
        (Keeps-if_at (λ s. is_file s old) (rename_file old new) (raise fake_path_not_found)
          (rename_file-IsValid old new) (Keeps-raise fake_path_not_found))

  pub must_be_end_point-IsValid : (f : Text) → Keeps IsValid (must_be_end_point {M = M} f)
  unfolding must_be_end_point
  must_be_end_point-IsValid f = Keeps-bind (must_exist f) _ (must_exist-IsValid f) λ _.
      Keeps-if_at (λ s. is_file s f) (pure tt) _ (Keeps-pure tt)
        (Keeps-if_at (λ s. is_empty_dir s f) (pure tt) (raise not_an_end_point) (Keeps-pure tt)
          (Keeps-raise not_an_end_point))

  pub locate-HasRoot : (f : Text) → Keeps HasRoot (locate_entry_by_fake_path {M = M} f)
  unfolding locate_entry_by_fake_path
  locate-HasRoot f = Keeps-if (ends_with_sep f) (raise value_error) _ (Keeps-raise value_error) (
      Keeps-bind (locate_entry (path_split f).0 (path_split f).1) _
        (locate_entry-HasRoot (path_split f).0 (path_split f).1)
        λ i. Keeps-pure ((path_split f).0, i))

  pub entry_at-HasRoot : (place : Text × ℕ) → Keeps HasRoot (entry_at {M = M} place)
  unfolding entry_at
  entry_at-HasRoot (d, i) = record { at = λ s h. subst HasRoot (ground arith) h }

  write_entry-HasRoot : (place : Text × ℕ) (x : Option M) → Keeps HasRoot (write_entry place x)
  unfolding write_entry
  write_entry-HasRoot (d, i) x =
      Keeps-bind (entry_at (d, i)) _ (entry_at-HasRoot (d, i)) λ e. change_entries-HasRoot d _

  pub set_meta_data-IsValid : (f : Text) (x : M) → Keeps IsValid (set_meta_data f x)
  unfolding set_meta_data
  set_meta_data-IsValid f x = Keeps-bind (must_be_end_point f) _ (must_be_end_point-IsValid f) λ _.
      Keeps-bind (on_entries (locate_entry_by_fake_path f)) _
        (on_entries-IsValid _ (locate-HasRoot f))
        λ place. on_entries-IsValid _ (write_entry-HasRoot place (some x))

  unset_at-IsValid : (place : Text × ℕ) (o : Option M) → Keeps IsValid (unset_at place o)
  unfolding unset_at
  unset_at-IsValid place none = Keeps-raise no_meta_data_exists
  unset_at-IsValid place (some x) = on_entries-IsValid _ (write_entry-HasRoot place none)

  unset_meta_data-IsValid : (f : Text) → Keeps IsValid (unset_meta_data {M = M} f)
  unfolding unset_meta_data
  unset_meta_data-IsValid f = Keeps-bind (must_be_end_point f) _ (must_be_end_point-IsValid f) λ _.
      Keeps-bind (on_entries (locate_entry_by_fake_path f)) _
        (on_entries-IsValid _ (locate-HasRoot f))
        λ place.
          Keeps-bind (on_entries (entry_at place)) _ (on_entries-IsValid _ (entry_at-HasRoot place))
            λ e. unset_at-IsValid place e.meta_data

-- A call of a method that changes the store.
pub data Call {ℓ} (M : Type ℓ) : Type ℓ where
  call_add_file : Text → Text → Call M
  call_add_directory : Text → Call M
  call_rename : Text → Text → Call M
  call_remove : Text → Option Text → Call M
  call_set_meta_data : Text → M → Call M
  call_unset_meta_data : Text → Call M

module _ {ℓ} {M : Type ℓ} where
  pub perform : Call M → Proc (PathStore M)
  perform (call_add_file f r) = add_file f r
  perform (call_add_directory f) = PyTypes.add_directory f
  perform (call_rename old new) = rename old new
  perform (call_remove f r) = remove f r
  perform (call_set_meta_data f x) = set_meta_data f x
  perform (call_unset_meta_data f) = unset_meta_data f

  -- The store after any calls, of which some may raise.
  pub perform_all : List (Call M) → PathStore M → PathStore M
  perform_all [] s = s
  perform_all (c ∷ cs) s = perform_all cs (perform c s).1

  perform-IsValid : (c : Call M) → Keeps IsValid (perform c)
  unfolding perform
  perform-IsValid (call_add_file f r) = add_file-IsValid f r
  perform-IsValid (call_add_directory f) = add_directory-IsValid f
  perform-IsValid (call_rename old new) = rename-IsValid old new
  perform-IsValid (call_remove f r) = remove-IsValid f r
  perform-IsValid (call_set_meta_data f x) = set_meta_data-IsValid f x
  perform-IsValid (call_unset_meta_data f) = unset_meta_data-IsValid f

  -- Any calls, whether they return or raise, leave a valid store valid: its two mappings agree, no
  -- key keeps an empty list of paths, and the root directory is there.
  pub perform_all-IsValid :
      (cs : List (Call M)) (s : PathStore M) → IsValid s → IsValid (perform_all cs s)
  unfolding perform_all
  perform_all-IsValid [] s v = v
  perform_all-IsValid (c ∷ cs) s v =
      perform_all-IsValid cs (perform c s).1 ((perform-IsValid c).at s v)
