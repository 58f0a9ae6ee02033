-- ===== src/PathStore/Entries/Rooted.antt =====
-- No method of the entry store loses the root directory, whether it returns or raises.
use pytagsfs.Base.{
  Option-cases, inl, inr, is_empty, ◌&&◌, not, value_error, ◌≡◌, Bool, true, false, none, some,
  List, [], ◌∷◌, ◌++◌, reverse, Text, lookup, insert, arith, ◌==◌, list_eq, nat_eq, lookup-insert,
  lookup-erase, list_beq_iff, pure, raise,
}
use pytagsfs.Base.Invariants.{Keeps, Keeps-pure, Keeps-raise, Keeps-if, Keeps-bind}
use pytagsfs.Util.Paths.{root, ends_with_sep}
use pytagsfs.PathStore.Entries.{
  EntryStore, Entry, new_entry, get_all_entries, add_directory, remove_directory, add_entry,
  add_entries, change_entries, remove_entry, replace_entry, locate_entry, remove_entries_loop,
  remove_if_empty, remove_directories_loop, remove_entries_and_directories_recursive, make_room,
  add_step, add_loop, add_entries_and_directories_recursive, ancestors,
}

module _ {ℓ} {M : Type ℓ} where
  abbrev is_there : Text → EntryStore M → Bool
  is_there d s = elim (lookup d s) [ none ↦ false | some _ ↦ true ]

  -- The root directory is there.
  abbrev pub HasRoot : EntryStore M → Type 0
  HasRoot s = is_there root s ≡ true

  pub add_directory-HasRoot : (d : Text) → Keeps HasRoot (add_directory {M = M} d)
  unfolding add_directory
  add_directory-HasRoot d = record { at = λ s h. ground (arith, lookup-insert d root [] s) }

  pub remove_directory-HasRoot : (d : Text) → Keeps HasRoot (remove_directory {M = M} d)
  unfolding remove_directory
  remove_directory-HasRoot d = record {
    at = λ s h. ground (arith, lookup-erase d root s, list_beq_iff d root);
  }

  pub insert-HasRoot :
      (d : Text) (es : List (Entry M)) (s : EntryStore M) → HasRoot s → HasRoot (insert d es s)
  insert-HasRoot d es s h = ground (arith, lookup-insert d root es s)

  pub change_entries-HasRoot :
      (d : Text) (f : List (Entry M) → List (Entry M)) → Keeps HasRoot (change_entries d f)
  change_entries-HasRoot d f = record {
    at = λ s h. elim (Option-cases (lookup d s)) [
      | inl e ↦ ground arith
      | inr (es, e) ↦ ground (arith, insert-HasRoot d (f es) s)
    ];
  }

  pub add_entry-HasRoot : (d : Text) (e : Entry M) → Keeps HasRoot (add_entry d e)
  unfolding add_entry
  add_entry-HasRoot d x = record {
    at = λ s h. elim (Option-cases (lookup d s)) [
      | inl e ↦ ground arith
      | inr (es, e) ↦ ground (arith, insert-HasRoot d (es ++ x ∷ []) s)
    ];
  }

  pub add_entries-HasRoot : (d : Text) (es : List (Entry M)) → Keeps HasRoot (add_entries d es)
  unfolding add_entries
  add_entries-HasRoot d [] = Keeps-pure tt
  add_entries-HasRoot d (e ∷ es) =
      Keeps-bind (add_entry d e) _ (add_entry-HasRoot d e) (λ _. add_entries-HasRoot d es)

  get_all_entries-state : (d : Text) (s : EntryStore M) → (get_all_entries d s).1 ≡ s
  unfolding get_all_entries
  get_all_entries-state d s = ground arith

  pub get_all_entries-HasRoot : (d : Text) → Keeps HasRoot (get_all_entries {M = M} d)
  get_all_entries-HasRoot d = record { at = λ s h. rw get_all_entries-state h }

  pub locate_entry-HasRoot : (d e : Text) → Keeps HasRoot (locate_entry {M = M} d e)
  unfolding locate_entry
  locate_entry-HasRoot d e =
      Keeps-bind (get_all_entries d) _ (get_all_entries-HasRoot d) (λ es. record { at = λ s h. h })

  pub remove_entry-HasRoot : (d e : Text) → Keeps HasRoot (remove_entry {M = M} d e)
  unfolding remove_entry
  remove_entry-HasRoot d e =
      Keeps-bind (locate_entry d e) _ (locate_entry-HasRoot d e) (λ i. change_entries-HasRoot d _)

  pub replace_entry-HasRoot : (d e n : Text) → Keeps HasRoot (replace_entry {M = M} d e n)
  unfolding replace_entry
  replace_entry-HasRoot d e n =
      Keeps-bind (locate_entry d e) _ (locate_entry-HasRoot d e) (λ i. change_entries-HasRoot d _)

  pub remove_entries_loop-HasRoot :
      (qs : List (Text × Text)) → Keeps HasRoot (remove_entries_loop {M = M} qs)
  unfolding remove_entries_loop
  remove_entries_loop-HasRoot [] = Keeps-pure tt
  remove_entries_loop-HasRoot ((d, e) ∷ qs) =
      Keeps-bind (remove_entry d e) _ (remove_entry-HasRoot d e)
        (λ _. remove_entries_loop-HasRoot qs)

  pub remove_if_empty-HasRoot : (d : Text) → Keeps HasRoot (remove_if_empty {M = M} d)
  unfolding remove_if_empty
  remove_if_empty-HasRoot d = Keeps-bind (get_all_entries d) _ (get_all_entries-HasRoot d) (λ es.
      Keeps-if (is_empty es && not (d == root)) (remove_directory d) (pure tt)
        (remove_directory-HasRoot d) (Keeps-pure tt))

  pub remove_directories_loop-HasRoot :
      (qs : List (Text × Text)) → Keeps HasRoot (remove_directories_loop {M = M} qs)
  unfolding remove_directories_loop
  remove_directories_loop-HasRoot [] = Keeps-pure tt
  remove_directories_loop-HasRoot ((d, e) ∷ qs) =
      Keeps-bind (remove_if_empty d) _ (remove_if_empty-HasRoot d)
        (λ _. remove_directories_loop-HasRoot qs)

  pub remove_recursive-HasRoot :
      (p : Text) → Keeps HasRoot (remove_entries_and_directories_recursive {M = M} p)
  unfolding remove_entries_and_directories_recursive
  remove_recursive-HasRoot p =
      Keeps-if (ends_with_sep p) (raise value_error) _ (Keeps-raise value_error) (
        Keeps-bind (remove_entries_loop (ancestors p)) _ (remove_entries_loop-HasRoot (ancestors p))
          (λ _. remove_directories_loop-HasRoot (reverse (ancestors p))))

  pub make_room-HasRoot : (p : Text) → Keeps HasRoot (make_room {M = M} p)
  unfolding make_room
  make_room-HasRoot p = record {
    at = λ s h.
        ground (arith, (add_directory-HasRoot p).at s h, (remove_recursive-HasRoot p).at s h);
  }

  pub add_loop-HasRoot : (qs : List (Text × Text)) → Keeps HasRoot (add_loop {M = M} qs)
  unfolding add_loop add_step
  add_loop-HasRoot [] = Keeps-pure tt
  add_loop-HasRoot ((d, e) ∷ qs) =
      Keeps-bind (add_step d e) _
        (Keeps-bind (make_room d) _ (make_room-HasRoot d) (λ _. add_entry-HasRoot d (new_entry e)))
        (λ _. add_loop-HasRoot qs)

  pub add_recursive-HasRoot :
      (p : Text) → Keeps HasRoot (add_entries_and_directories_recursive {M = M} p)
  unfolding add_entries_and_directories_recursive
  add_recursive-HasRoot p =
      Keeps-if (ends_with_sep p) (raise value_error) _ (Keeps-raise value_error)
        (add_loop-HasRoot (reverse (ancestors p)))
