-- ===== src/PathStore/PyTypes/Readers.antt =====
-- The methods that only read a path store keep it valid.
use mathlib.Core.Path.{subst}
use pytagsfs.Base.{
  ℕ, zero, suc, List, [], ◌∷◌, Text, Exec, arith, pure, raise, no_fuel, is_empty,
  real_path_not_found, value_error, not_a_directory, list_eq, nat_eq, not, keys,
}
use pytagsfs.Base.Invariants.{
  Keeps, Keeps-pure, Keeps-raise, Keeps-if, Keeps-if_at, Keeps-catch, Keeps-bind,
}
use pytagsfs.Util.Paths.{ends_with_sep, join_path_abs}
use pytagsfs.PathStore.Mapping
use pytagsfs.PathStore.Mapping.Consistency.{IsConsistent}
use pytagsfs.PathStore.Entries
use pytagsfs.PathStore.Entries.{locate_entry_by_fake_path}
use pytagsfs.PathStore.Entries.Rooted.{get_all_entries-HasRoot}
use pytagsfs.PathStore.PyTypes
use pytagsfs.PathStore.PyTypes.{
  PathStore, is_dir, is_file, on_entries, on_mapping, must_be_dir, must_exist, refuse,
  is_missing_mapping, must_be_end_point, entry_at,
}
use pytagsfs.PathStore.PyTypes.Validity.{
  IsValid, on_entries-IsValid, on_mapping-IsValid, refuse-IsValid, must_exist-IsValid,
  must_be_end_point-IsValid, locate-HasRoot, entry_at-HasRoot,
}
use pytagsfs.PathStore.EndPoints.{longest, collect, end_points_loop, get_end_points}

fake_paths-IsConsistent : (r : Text) → Keeps IsConsistent (Mapping.get_fake_paths r)
unfolding Mapping.get_fake_paths
fake_paths-IsConsistent r = record { at = λ s v. subst IsConsistent (ground arith) v }

module _ {ℓ} {M : Type ℓ} where
  pub get_fake_paths-IsValid : (r : Text) → Keeps IsValid (PyTypes.get_fake_paths {M = M} r)
  unfolding PyTypes.get_fake_paths
  get_fake_paths-IsValid r =
      Keeps-catch is_missing_mapping (raise real_path_not_found) _ (Keeps-raise real_path_not_found)
        (on_mapping-IsValid _ (fake_paths-IsConsistent r))

  pub get_real_subpaths-IsValid : (r : Text) → Keeps IsValid (PyTypes.get_real_subpaths {M = M} r)
  unfolding PyTypes.get_real_subpaths
  get_real_subpaths-IsValid r =
      Keeps-if (ends_with_sep r) (raise value_error) _ (Keeps-raise value_error)
        (record { at = λ s v. v })

  pub get_entries-IsValid : (p : Text) → Keeps IsValid (PyTypes.get_entries {M = M} p)
  unfolding PyTypes.get_entries must_be_dir Entries.get_entries
  get_entries-IsValid p =
      Keeps-bind (must_be_dir p) _
        (Keeps-bind (must_exist p) _ (must_exist-IsValid p)
          λ _. refuse-IsValid (λ s. not (is_dir s p)) not_a_directory)
        λ _. on_entries-IsValid (Entries.get_entries p) (
          Keeps-bind (Entries.get_all_entries p) _ (get_all_entries-HasRoot p)
            λ es. record { at = λ s h. h })

  pub get_meta_data-IsValid : (p : Text) → Keeps IsValid (PyTypes.get_meta_data {M = M} p)
  unfolding PyTypes.get_meta_data
  get_meta_data-IsValid p = Keeps-bind (must_be_end_point p) _ (must_be_end_point-IsValid p) λ _.
      Keeps-bind (on_entries (locate_entry_by_fake_path p)) _
        (on_entries-IsValid _ (locate-HasRoot p))
        λ place.
          Keeps-bind (on_entries (entry_at place)) _ (on_entries-IsValid _ (entry_at-HasRoot place))
            λ e. record { at = λ s h. h }

  collect-IsValid :
      (below : Text → Exec (PathStore M) (List Text))
      → ((p : Text) → Keeps IsValid (below p))
      → (p : Text) (es : List Text) → Keeps IsValid (collect below p es)
  unfolding collect
  collect-IsValid below h p [] = Keeps-pure []
  collect-IsValid below h p (e ∷ es) =
      Keeps-bind (below (join_path_abs (p ∷ e ∷ []))) _ (h _)
        λ l. Keeps-bind (collect below p es) _ (collect-IsValid below h p es) λ r. Keeps-pure _

  end_points_loop-IsValid : (fuel : ℕ) (p : Text) → Keeps IsValid (end_points_loop {M = M} fuel p)
  unfolding end_points_loop
  end_points_loop-IsValid zero p =
      Keeps-if_at (λ s. is_file s p) (pure (p ∷ [])) _ (Keeps-pure _)
        (Keeps-bind (PyTypes.get_entries p) _ (get_entries-IsValid p)
          λ es. Keeps-if (is_empty es) _ _ (Keeps-pure _) (Keeps-raise no_fuel))
  end_points_loop-IsValid (suc fuel) p =
      Keeps-if_at (λ s. is_file s p) (pure (p ∷ [])) _ (Keeps-pure _)
        (Keeps-bind (PyTypes.get_entries p) _ (get_entries-IsValid p) λ es.
          Keeps-if (is_empty es) _ _ (Keeps-pure _)
            (collect-IsValid (end_points_loop fuel) (end_points_loop-IsValid fuel) p es))

  pub get_end_points-IsValid : (p : Text) → Keeps IsValid (get_end_points {M = M} p)
  unfolding get_end_points
  get_end_points-IsValid p = record {
    at = λ s v. (end_points_loop-IsValid (longest (keys s.entries)) p).at s v;
  }
