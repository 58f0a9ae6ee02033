-- ===== src/SourceTreeRep/Validity/Virtual.antt =====
-- The path store stays valid through the methods on virtual paths.
use pytagsfs.Base.{
  ℕ, not, leb, Option, none, some, List, [], ◌∷◌, Text, pure, raise, length, invalid_argument, Dict,
  type_error, insert, list_eq, nat_eq, key_error, get_elem?, nat_beq,
}
use pytagsfs.Base.Invariants.{Keeps, Keeps-pure, Keeps-raise, Keeps-if, Keeps-catch, Keeps-bind}
use pytagsfs.Util.Paths.{path_join, split_path, join_path_abs, root}
use pytagsfs.PathPropCache
use pytagsfs.PathStore.PyTypes.Validity.{
  get_real_path-IsValid, add_directory-IsValid, remove-IsValid, set_meta_data-IsValid,
}
use pytagsfs.PathStore.PyTypes.Readers.{
  get_entries-IsValid, get_meta_data-IsValid, get_end_points-IsValid,
}
use pytagsfs.Values.{diff3}
use pytagsfs.Patterns.Splitting.{Splitter, split}
use pytagsfs.SourceTreeRep.{
  Cached, stat_value, entries_value, validate_path, is_key_error, cache_get, cache_put, entries_key,
  outside,
}
use pytagsfs.SourceTreeRep.SourceFiles.{Settings, lift}
use pytagsfs.SourceTreeRep.Filling.{create_splitters}
use pytagsfs.SourceTreeRep.Queries.{
  get_real_path, is_file, is_dir, cached_entries, as_entries, read_entries, get_entries,
}
use pytagsfs.SourceTreeRep.Directories.{
  is_pattern_error, last_item, split_last, add_directory, add_parents, add_directory_with_parents,
  remove_directory,
}
use pytagsfs.SourceTreeRep.Renaming.{
  at_index, bound_index, changed_index, replace_part, is_unsettable, Changes, sort_end_points,
  move_directories, changed_values, find_changes, group_end_points, add_to_group, combine_groups,
  apply_changes, rename_from, rename_path,
}
use pytagsfs.SourceTreeRep.Validity.{
  HasValidStore, on_path_store-HasValidStore, outside-HasValidStore, lift-HasValidStore,
  refuse-HasValidStore, validate_path-HasValidStore, on_cache-HasValidStore,
  prune_branch-HasValidStore,
}

module _ {ℓ} {W : Type ℓ} where
  pub get_real_path-HasValidStore : (p : Text) → Keeps HasValidStore (get_real_path {W = W} p)
  unfolding get_real_path
  get_real_path-HasValidStore p =
      Keeps-bind (validate_path p) _ (validate_path-HasValidStore p)
        λ _. on_path_store-HasValidStore _ (get_real_path-IsValid p)

  pub is_file-HasValidStore : (p : Text) → Keeps HasValidStore (is_file {W = W} p)
  unfolding is_file
  is_file-HasValidStore p =
      Keeps-bind (validate_path p) _ (validate_path-HasValidStore p) λ _. record { at = λ s v. v }

  pub is_dir-HasValidStore : (p : Text) → Keeps HasValidStore (is_dir {W = W} p)
  unfolding is_dir
  is_dir-HasValidStore p =
      Keeps-bind (validate_path p) _ (validate_path-HasValidStore p) λ _. record { at = λ s v. v }

  as_entries-HasValidStore : (c : Cached) → Keeps HasValidStore (as_entries {W = W} c)
  as_entries-HasValidStore (entries_value es) = Keeps-pure (some es)
  as_entries-HasValidStore (stat_value st) = Keeps-raise type_error

  cached_entries-HasValidStore : (p : Text) → Keeps HasValidStore (cached_entries {W = W} p)
  unfolding cached_entries cache_get
  cached_entries-HasValidStore p = Keeps-catch is_key_error (pure none) _ (Keeps-pure none) (
      Keeps-bind (cache_get p entries_key) _
        (on_cache-HasValidStore _ (PathPropCache.get p entries_key) (Keeps-raise key_error))
        λ c. as_entries-HasValidStore c)

  read_entries-HasValidStore :
      (p : Text) (o : Option (List Text)) → Keeps HasValidStore (read_entries {W = W} p o)
  unfolding read_entries cache_put
  read_entries-HasValidStore p (some es) = Keeps-pure es
  read_entries-HasValidStore p none =
      Keeps-bind _ _ (on_path_store-HasValidStore _ (get_entries-IsValid p)) λ es.
        Keeps-bind (cache_put p entries_key (entries_value es)) _
          (on_cache-HasValidStore _ (PathPropCache.put p entries_key (entries_value es))
            (Keeps-pure tt))
          λ _. Keeps-pure es

  pub get_entries-HasValidStore : (p : Text) → Keeps HasValidStore (get_entries {W = W} p)
  unfolding get_entries
  get_entries-HasValidStore p = Keeps-bind (validate_path p) _ (validate_path-HasValidStore p) λ _.
      Keeps-bind (cached_entries p) _ (cached_entries-HasValidStore p)
        λ o. read_entries-HasValidStore p o

  pub remove_directory-HasValidStore : (p : Text) → Keeps HasValidStore (remove_directory {W = W} p)
  unfolding remove_directory
  remove_directory-HasValidStore p =
      Keeps-bind (validate_path p) _ (validate_path-HasValidStore p) λ _.
        Keeps-bind _ _ (on_path_store-HasValidStore _ (remove-IsValid p none))
          λ _. prune_branch-HasValidStore p none

module _ {ℓ} {W : Type ℓ} (settings : Settings W) where
  split_last-HasValidStore :
      (l : List Splitter) (parts : List Text) → Keeps HasValidStore (split_last settings l parts)
  unfolding split_last
  split_last-HasValidStore l parts =
      Keeps-bind (lift (last_item l)) _ (lift-HasValidStore _) λ splitter.
        Keeps-bind (lift (last_item parts)) _ (lift-HasValidStore _) λ part.
          Keeps-catch is_pattern_error (raise invalid_argument) _ (Keeps-raise invalid_argument) (
            Keeps-bind (lift (split settings.re splitter part)) _ (lift-HasValidStore _)
              λ _. Keeps-pure tt)

  pub add_directory-HasValidStore : (p : Text) → Keeps HasValidStore (add_directory settings p)
  unfolding add_directory
  add_directory-HasValidStore p =
      Keeps-bind (validate_path p) _ (validate_path-HasValidStore p) λ _.
        Keeps-bind (lift (split_path p)) _ (lift-HasValidStore _) λ parts.
          Keeps-bind _ _
            (refuse-HasValidStore (leb (length settings.substitution_patterns) (length parts))
              invalid_argument)
            λ _.
              Keeps-bind (lift (create_splitters settings.re settings.substitution_patterns p [])) _
                (lift-HasValidStore _)
                λ l.
                  Keeps-bind (split_last settings l parts) _ (split_last-HasValidStore l parts) λ _.
                    Keeps-bind _ _ (on_path_store-HasValidStore _ (add_directory-IsValid p)) λ _.
                      Keeps-bind _ _ (on_path_store-HasValidStore _ (set_meta_data-IsValid p l))
                        λ _. prune_branch-HasValidStore p none

  add_parents-HasValidStore :
      (p : Text) (parts : List Text) → Keeps HasValidStore (add_parents settings p parts)
  unfolding add_parents
  add_parents-HasValidStore p [] = Keeps-pure tt
  add_parents-HasValidStore p (part ∷ parts) =
      let q = path_join p part in
      Keeps-bind (is_dir q) _ (is_dir-HasValidStore q) λ dir.
        Keeps-bind _ _
          (Keeps-if dir (pure tt) (add_directory settings q) (Keeps-pure tt)
            (add_directory-HasValidStore q))
          λ _. add_parents-HasValidStore q parts

  pub add_directory_with_parents-HasValidStore :
      (p : Text) → Keeps HasValidStore (add_directory_with_parents settings p)
  unfolding add_directory_with_parents
  add_directory_with_parents-HasValidStore p =
      Keeps-bind (lift (split_path p)) _ (lift-HasValidStore _)
        λ parts. add_parents-HasValidStore root parts

  sort_end_points-HasValidStore : (l : List Text) → Keeps HasValidStore (sort_end_points settings l)
  unfolding sort_end_points
  sort_end_points-HasValidStore [] = Keeps-pure ([], [])
  sort_end_points-HasValidStore (p ∷ l) = Keeps-bind (is_file p) _ (is_file-HasValidStore p) λ file.
      Keeps-bind (sort_end_points settings l) _ (sort_end_points-HasValidStore l) λ rest.
        Keeps-if file _ _ (Keeps-pure (p ∷ rest.0, rest.1)) (Keeps-pure (rest.0, p ∷ rest.1))

  move_directories-HasValidStore :
      (i : ℕ) (part : Text) (l : List Text)
      → Keeps HasValidStore (move_directories settings i part l)
  unfolding move_directories
  move_directories-HasValidStore i part [] = Keeps-pure tt
  move_directories-HasValidStore i part (p ∷ l) =
      Keeps-bind (remove_directory p) _ (remove_directory-HasValidStore p) λ _.
        Keeps-bind (lift (split_path p)) _ (lift-HasValidStore _) λ parts.
          Keeps-bind (lift (replace_part parts i part)) _ (lift-HasValidStore _) λ new_parts.
            Keeps-bind _ _ (add_directory_with_parents-HasValidStore (join_path_abs new_parts))
              λ _. move_directories-HasValidStore i part l

  changed_values-HasValidStore :
      (i : ℕ) (old new p : Text) → Keeps HasValidStore (changed_values settings i old new p)
  unfolding changed_values
  changed_values-HasValidStore i old new p =
      Keeps-bind _ _ (on_path_store-HasValidStore _ (get_meta_data-IsValid p)) λ l.
        Keeps-bind _ _ (lift-HasValidStore _) λ splitter.
          Keeps-bind (lift (split settings.re splitter old)) _ (lift-HasValidStore _) λ a.
            Keeps-bind _ _
              (Keeps-catch is_pattern_error (raise invalid_argument)
                (lift (split settings.re splitter new)) (Keeps-raise invalid_argument)
                (lift-HasValidStore _))
              λ b. Keeps-pure _

  find_changes-HasValidStore :
      (i : ℕ) (old new : Text) (c : Changes) (l : List Text)
      → Keeps HasValidStore (find_changes settings i old new c l)
  unfolding find_changes
  find_changes-HasValidStore i old new c [] = Keeps-pure c
  find_changes-HasValidStore i old new c (p ∷ l) =
      Keeps-bind (changed_values settings i old new p) _ (changed_values-HasValidStore i old new p)
        λ pair. find_changes-HasValidStore i old new (insert p pair c) l

  group_end_points-HasValidStore :
      (g : Dict Text (List Text)) (l : List Text)
      → Keeps HasValidStore (group_end_points settings g l)
  unfolding group_end_points
  group_end_points-HasValidStore g [] = Keeps-pure g
  group_end_points-HasValidStore g (p ∷ l) =
      Keeps-bind (get_real_path p) _ (get_real_path-HasValidStore p)
        λ r. group_end_points-HasValidStore (add_to_group r p g) l

  apply_changes-HasValidStore : (c : Changes) → Keeps HasValidStore (apply_changes settings c)
  unfolding apply_changes
  apply_changes-HasValidStore [] = Keeps-pure tt
  apply_changes-HasValidStore ((r, (old, new)) ∷ c) =
      Keeps-bind _ _ (outside-HasValidStore (settings.objects.meta_store_get r)) λ current.
        Keeps-bind (lift (diff3 current old new)) _ (lift-HasValidStore _) λ applied.
          Keeps-bind _ _
            (Keeps-catch is_unsettable (raise invalid_argument)
              (outside (settings.objects.meta_store_set r applied)) (Keeps-raise invalid_argument)
              (outside-HasValidStore _))
            λ _. apply_changes-HasValidStore c

  rename_from-HasValidStore :
      (i : ℕ) (old : Text) (a b : List Text) → Keeps HasValidStore (rename_from settings i old a b)
  unfolding rename_from
  rename_from-HasValidStore i old a b =
      Keeps-bind _ _ (lift-HasValidStore (at_index (get_elem? a i))) λ old_part.
        Keeps-bind _ _ (lift-HasValidStore (at_index (get_elem? b i))) λ new_part.
          Keeps-bind _ _ (on_path_store-HasValidStore _ (get_end_points-IsValid old)) λ l.
            Keeps-bind _ _ (sort_end_points-HasValidStore l) λ sorted.
              Keeps-bind _ _ (move_directories-HasValidStore i new_part sorted.1) λ _.
                Keeps-bind _ _ (find_changes-HasValidStore i old_part new_part [] sorted.0)
                  λ changes. Keeps-bind _ _ (group_end_points-HasValidStore [] sorted.0) λ groups.
                    Keeps-bind (lift (combine_groups settings changes groups)) _
                      (lift-HasValidStore _) λ combined. apply_changes-HasValidStore combined

  pub rename_path-HasValidStore :
      (old new : Text) → Keeps HasValidStore (rename_path settings old new)
  unfolding rename_path
  rename_path-HasValidStore old new =
      Keeps-bind (validate_path old) _ (validate_path-HasValidStore old) λ _.
        Keeps-bind (validate_path new) _ (validate_path-HasValidStore new) λ _.
          Keeps-bind (lift (split_path old)) _ (lift-HasValidStore _) λ a.
            Keeps-bind (lift (split_path new)) _ (lift-HasValidStore _) λ b.
              Keeps-bind _ _
                (refuse-HasValidStore (not (nat_beq (length a) (length b))) invalid_argument)
                λ _.
                  Keeps-bind _ _ (lift-HasValidStore (bound_index (changed_index a b)))
                    λ i. rename_from-HasValidStore i old a b
