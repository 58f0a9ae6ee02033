-- ===== src/SourceTreeRep/Renaming.antt =====
-- `rename_path` of a source tree representation: a virtual path is renamed by a change of the tags of
-- the files below it.
use pytagsfs.Base.{
  ◌==◌, ℕ, zero, suc, Bool, true, false, not, if◌then◌else◌, Option, none, some, List, [], ◌∷◌,
  ◌++◌, Text, Exec, Proc, Result, ok, err, Exc, ◌>>=◌, ◌>>◌, pure, raise, catch, invalid_argument,
  index_error, name_error, unsettable_key_error, key_error, list_eq, nat_eq, nat_beq, length,
  get_elem?, Dict, lookup, insert, map,
}
use pytagsfs.PathStore.PyTypes
use pytagsfs.PathStore.EndPoints.{get_end_points}
use pytagsfs.Util.Paths.{join_path_abs, split_path}
use pytagsfs.Values.{Values, from_flat_dict, combine, diff3}
use pytagsfs.Patterns.Splitting.{split}
use pytagsfs.SourceTreeRep.{SourceTreeRep, on_path_store, outside, validate_fake_path, refuse}
use pytagsfs.SourceTreeRep.SourceFiles.{Settings, lift}
use pytagsfs.SourceTreeRep.Queries.{is_file, get_real_path}
use pytagsfs.SourceTreeRep.Directories.{
  is_pattern_error, remove_directory, add_directory_with_parents,
}

-- xs[i]
abbrev pub at_index {ℓ} : {A : Type ℓ} → Option A → Result A
at_index none = err index_error
at_index (some x) = ok x

-- d[k]
abbrev pub at_key {ℓ} : {A : Type ℓ} → Option A → Result A
at_key none = err key_error
at_key (some x) = ok x

-- The index at which the loop over the zipped parts ends: the first difference, or else the last.
unfoldable pub changed_index : List Text → List Text → Option ℕ
changed_index [] new_parts = none
changed_index (p ∷ ps) [] = none
changed_index (p ∷ ps) (q ∷ qs) =
    let rest = changed_index ps qs in
    if p == q then elim rest [ none ↦ some 0 | some i ↦ some (suc i) ] else some 0

-- An index that the loop never bound.
abbrev pub bound_index : Option ℕ → Result ℕ
bound_index none = err name_error
bound_index (some i) = ok i

-- end_point_parts[index] = part
unfoldable pub replace_part : List Text → ℕ → Text → Result (List Text)
replace_part [] index part = err index_error
replace_part (p ∷ ps) zero part = ok (part ∷ ps)
replace_part (p ∷ ps) (suc index) part = elim (replace_part ps index part) [
  | err c ↦ err c
  | ok parts ↦ ok (p ∷ parts)
]

-- except UnsettableKeyError
unfoldable pub is_unsettable : Exc → Bool
is_unsettable unsettable_key_error = true
is_unsettable _ = false

-- The two dicts of values by end point, as one dict of pairs.
abbrev pub Changes : Type 0
Changes = Dict Text (Values × Values)

-- The pairs of the end points of one real path, from the dict.
unfoldable pub pairs_of : Changes → List Text → Result (List (Values × Values))
pairs_of changes [] = ok []
pairs_of changes (end_point ∷ end_points) = elim (lookup end_point changes) [
  | none ↦ err key_error
  | some pair ↦ elim (pairs_of changes end_points) [ err c ↦ err c | ok pairs ↦ ok (pair ∷ pairs) ]
]

-- end_points_by_real_path, with one end point more
unfoldable pub add_to_group : Text → Text → Dict Text (List Text) → Dict Text (List Text)
add_to_group real_path end_point groups = elim (lookup real_path groups) [
  | none ↦ insert real_path (end_point ∷ []) groups
  | some l ↦ insert real_path (l ++ end_point ∷ []) groups
]

module _ {ℓ} {W : Type ℓ} (settings : Settings W) where
  -- The end points, apart by whether they are files.
  unfoldable pub sort_end_points : List Text → Exec (SourceTreeRep W) (List Text × List Text)
  unfolding is_file
  sort_end_points [] = pure ([], [])
  sort_end_points (end_point ∷ end_points) = do
    file ← is_file end_point
    rest ← sort_end_points end_points
    if file then pure (end_point ∷ rest.0, rest.1) else pure (rest.0, end_point ∷ rest.1)

  unfoldable pub move_directories : ℕ → Text → List Text → Proc (SourceTreeRep W)
  unfolding remove_directory add_directory_with_parents replace_part split_path join_path_abs
  move_directories index new_part [] = pure tt
  move_directories index new_part (end_point ∷ end_points) = do
    remove_directory end_point
    parts ← lift (split_path end_point)
    new_parts ← lift (replace_part parts index new_part)
    add_directory_with_parents settings (join_path_abs new_parts)
    move_directories index new_part end_points

  unfoldable pub changed_values : ℕ → Text → Text → Text → Exec (SourceTreeRep W) (Values × Values)
  unfolding split from_flat_dict is_pattern_error
  changed_values index old_part new_part end_point = do
    splitters ← on_path_store (PyTypes.get_meta_data end_point)
    splitter ← lift (at_index (get_elem? splitters index))
    old_values ← lift (split settings.re splitter old_part)
    new_values ←
        catch is_pattern_error (raise invalid_argument) (lift (split settings.re splitter new_part))
    pure (from_flat_dict old_values, from_flat_dict new_values)

  unfoldable pub find_changes :
      ℕ → Text → Text → Changes → List Text → Exec (SourceTreeRep W) Changes
  unfolding changed_values
  find_changes index old_part new_part changes [] = pure changes
  find_changes index old_part new_part changes (end_point ∷ end_points) = do
    pair ← changed_values index old_part new_part end_point
    find_changes index old_part new_part (insert end_point pair changes) end_points

  unfoldable pub group_end_points :
      Dict Text (List Text) → List Text → Exec (SourceTreeRep W) (Dict Text (List Text))
  unfolding get_real_path add_to_group
  group_end_points groups [] = pure groups
  group_end_points groups (end_point ∷ end_points) = do
    real_path ← get_real_path end_point
    group_end_points (add_to_group real_path end_point groups) end_points

  -- The old and the new values of each real path.
  unfoldable pub combine_groups : Changes → Dict Text (List Text) → Result Changes
  unfolding pairs_of combine
  combine_groups changes [] = ok []
  combine_groups changes ((real_path, end_points) ∷ groups) = elim (pairs_of changes end_points) [
    | err c ↦ err c
    | ok pairs ↦ elim (combine_groups changes groups) [
      | err c ↦ err c
      | ok rest ↦
          ok ((real_path, (combine (map (λ p. p.0) pairs), combine (map (λ p. p.1) pairs))) ∷ rest)
    ]
  ]

  unfoldable pub apply_changes : Changes → Proc (SourceTreeRep W)
  unfolding diff3 is_unsettable
  apply_changes [] = pure tt
  apply_changes ((real_path, (old_values, new_values)) ∷ changes) = do
    current_values ← outside (settings.objects.meta_store_get real_path)
    apply_values ← lift (diff3 current_values old_values new_values)
    catch is_unsettable (raise invalid_argument)
        (outside (settings.objects.meta_store_set real_path apply_values))
    apply_changes changes

  -- The part of `rename_path` behind its tests, from the index of the part that changed.
  unfoldable pub rename_from : ℕ → Text → List Text → List Text → Proc (SourceTreeRep W)
  unfolding get_end_points sort_end_points move_directories find_changes group_end_points
      combine_groups apply_changes
  rename_from index old_fake_path old_parts new_parts = do
    old_part ← lift (at_index (get_elem? old_parts index))
    new_part ← lift (at_index (get_elem? new_parts index))
    end_points ← on_path_store (get_end_points old_fake_path)
    sorted ← sort_end_points end_points
    move_directories index new_part sorted.1
    changes ← find_changes index old_part new_part [] sorted.0
    groups ← group_end_points [] sorted.0
    combined ← lift (combine_groups changes groups)
    apply_changes combined

  unfoldable pub rename_path : Text → Text → Proc (SourceTreeRep W)
  unfolding split_path changed_index rename_from
  rename_path old_fake_path new_fake_path = do
    validate_fake_path old_fake_path
    validate_fake_path new_fake_path
    old_parts ← lift (split_path old_fake_path)
    new_parts ← lift (split_path new_fake_path)
    refuse (not (nat_beq (length old_parts) (length new_parts))) invalid_argument
    index ← lift (bound_index (changed_index old_parts new_parts))
    rename_from index old_fake_path old_parts new_parts
