-- ===== src/PathStore/PyTypes/FileStack.antt =====
-- `add_file` and `remove` as the push and the pop of a stack of real paths at a virtual path.
use pytagsfs.Base.{
  ◌≡◌, ◌≢◌, refl, true, false, none, some, Text, lookup, ok, arith, list_eq, nat_eq, list_beq_iff,
  Option-cases, inl, inr,
}
use pytagsfs.Util.Paths.{ends_with_sep}
use pytagsfs.PathStore.Mapping
use pytagsfs.PathStore.Mapping.{PathMapping, real_path_at}
use pytagsfs.PathStore.Mapping.Consistency.{
  IsConsistent, remove_real_path-add_real_path, add_real_path_lem,
}
use pytagsfs.PathStore.Entries.{
  add_entries_and_directories_recursive, remove_entries_and_directories_recursive,
}
use pytagsfs.PathStore.Entries.Restore.{
  IsOpenFor, restore, lookup-add_entries_and_directories_recursive,
}
use pytagsfs.PathStore.Entries.Ancestors.{not-contains-ancestors}
use pytagsfs.PathStore.PyTypes.{
  PathStore, is_dir, is_file, refuse_duplicate, get_real_path, add_file, remove, remove_file,
}

module _ {ℓ} {M : Type ℓ} (f : Text) (t : PathStore M) where
  remove_lem :
      is_dir t f ≡ false
      → is_file t f ≡ true
      → (Mapping.remove_real_path f none t.path_mapping).0 ≡ ok tt
      → remove f none t ≡ (
        (remove_entries_and_directories_recursive f t.entries).0,
        record {
          path_mapping = (Mapping.remove_real_path f none t.path_mapping).1;
          entries = (remove_entries_and_directories_recursive f t.entries).1;
        },
      )
  unfolding remove remove_file
  remove_lem not_dir file taken = rw (not_dir, file, taken) refl

  get_real_path_lem :
      (r : Text) → real_path_at f t.path_mapping ≡ some r → get_real_path f t ≡ (ok r, t)
  unfolding get_real_path
  get_real_path_lem r e = ground arith

  is_file_lem : (r : Text) → real_path_at f t.path_mapping ≡ some r → is_file t f ≡ true
  unfolding is_file
  is_file_lem r e = ground arith

module _ {ℓ} {M : Type ℓ} (f r : Text) (s : PathStore M) where
  refuse_duplicate_passes :
      is_dir s f ≡ false
      → real_path_at f s.path_mapping ≢ some r
      → refuse_duplicate f r s ≡ (ok tt, s)
  unfolding refuse_duplicate get_real_path
  refuse_duplicate_passes here new = elim (Option-cases (real_path_at f s.path_mapping)) [
    | inl e ↦ ground arith
    | inr (p, e) ↦ ground (arith, list_beq_iff r p)
  ]

  added : PathStore M
  added = record {
    path_mapping = (Mapping.add_real_path f r s.path_mapping).1;
    entries = (add_entries_and_directories_recursive f s.entries).1;
  }

  add_file_lem :
      is_dir s f ≡ false
      → real_path_at f s.path_mapping ≢ some r
      → (add_entries_and_directories_recursive f s.entries).0 ≡ ok tt
      → add_file f r s ≡ (ok tt, added)
  unfolding add_file added
  add_file_lem here new entered =
      ground
        (arith, refuse_duplicate_passes here new, entered, add_real_path_lem f r s.path_mapping)

  -- Where a virtual path is no directory and can be entered, and the real path is not the one that
  -- is there, `add_file` succeeds, the real path is the one that is read, and `remove` of the
  -- virtual path then succeeds and takes all of it back: every virtual path has the real paths
  -- that it had, and every directory, or no directory, is where it was with the same entries.
  pub remove-add_file :
      IsConsistent s.path_mapping
      → is_dir s f ≡ false
      → real_path_at f s.path_mapping ≢ some r
      → ends_with_sep f ≡ false
      → IsOpenFor s.entries f
      → let t = add_file f r s in
        let u = remove f none t.1 in
        (t.0 ≡ ok tt)
        × (get_real_path f t.1 ≡ (ok r, t.1))
        × (u.0 ≡ ok tt)
        × ((x : Text)
            → lookup x u.1.path_mapping.forward_mapping ≡ lookup x s.path_mapping.forward_mapping)
        × ((d : Text) → lookup d u.1.entries ≡ lookup d s.entries)
  remove-add_file consistent here new plain opened =
      let stack = remove_real_path-add_real_path f r s.path_mapping consistent in
      let entries = restore f s.entries plain opened in
      let first = add_file_lem here new entries.0 in
      let outside : is_dir added f ≡ false =
        unfold added is_dir in
        ground (
          arith,
          here,
          lookup-add_entries_and_directories_recursive f f s.entries plain opened
              (not-contains-ancestors f),
        ) in
      let gone =
        remove_lem f added outside (is_file_lem f added r (unfold added in stack.0))
          (unfold added in stack.1) in
      rw (first, gone)
        (
          refl,
          get_real_path_lem f added r (unfold added in stack.0),
          unfold added in entries.1,
          unfold added in stack.2,
          unfold added in entries.2,
        )
