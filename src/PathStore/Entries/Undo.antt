-- ===== src/PathStore/Entries/Undo.antt =====
-- `remove_entries_and_directories_recursive` undoes `add_entries_and_directories_recursive`.
use mathlib.Core.Path.{fun_ext}
use mathlib.Core.List.{reverse-append}
use pytagsfs.Base.{
  bind-pure, ◌≡◌, refl, sym, ap, ◌∙◌, inl, inr, Bool, true, false, not, ◌&&◌, ◌||◌, ◌==◌, none,
  some, List, [], ◌∷◌, ◌++◌, reverse, Text, lookup, insert, Proc, Result, ok, continue, arith,
  length, is_empty, index_of, length-append, delete_at-append, contains, IsDistinct, lookup-insert,
  lookup-erase, list_beq_iff, eq_refl, Option-cases, ◌>>◌, bind_assoc, list_eq, nat_eq,
  if◌then◌else◌, All,
}
use pytagsfs.Util.Paths.{root}
use pytagsfs.PathStore.Entries.{
  Entry, EntryStore, new_entry, names, add_directory, last_index, remove_entry, remove_entries_loop,
  remove_if_empty, remove_directories_loop, add_step, add_loop,
}

abbrev pub directories : List (Text × Text) → List Text
directories [] = []
directories ((d, e) ∷ rest) = d ∷ directories rest

module _ {ℓ} {M : Type ℓ} where
  abbrev pub entries_at : Text → EntryStore M → List (Entry M)
  entries_at d s = elim (lookup d s) [ none ↦ [] | some es ↦ es ]

  -- A path may be added below the directory with nothing taken away: it is missing, or holds
  -- something, or is the root, which is there.
  abbrev pub is_open : EntryStore M → Text → Bool
  is_open s d = elim (lookup d s) [
    | none ↦ not (d == root)
    | some es ↦ d == root || not (is_empty es)
  ]

  -- One directory was written.
  abbrev Writes : Text → List (Entry M) → EntryStore M → EntryStore M → Type ℓ
  Writes d es s s' = (x : Text) → lookup x s' ≡ (if d == x then some es else lookup x s)

  add_step_lem :
      (d e : Text) (s : EntryStore M)
      → is_open s d ≡ true
      → ((add_step d e s).0 ≡ ok tt)
        × Writes d (entries_at d s ++ new_entry e ∷ []) s (add_step d e s).1
  unfolding add_step add_directory
  add_step_lem d e s open_here = elim (Option-cases (lookup d s)) [
    | inl p ↦ (
      ground (arith, lookup-insert d d [] s, eq_refl d),
      λ x. ground (
        arith,
        lookup-insert d d [] s,
        lookup-insert d x [] s,
        eq_refl d,
        lookup-insert d x (new_entry {M = M} e ∷ []) (insert d [] s),
      ),
    )
    | inr (es, p) ↦
        (ground arith, λ x. ground (arith, lookup-insert d x (es ++ new_entry e ∷ []) s))
  ]

  names-append :
      (es : List (Entry M)) (e : Entry M) → names (es ++ e ∷ []) ≡ names es ++ e.name ∷ []
  names-append [] e = refl
  names-append (x ∷ es) e = ap (λ l. x.name ∷ l) (names-append es e)

  index_of-last :
      (es : List (Entry M)) (e : Text)
      → index_of e (reverse (names (es ++ new_entry e ∷ []))) ≡ some 0
  unfolding index_of
  index_of-last es e =
      rw (names-append es (new_entry e), reverse-append (names es) (e ∷ []), eq_refl e) refl

  last_index-append :
      (es : List (Entry M)) (e : Text) → last_index e (es ++ new_entry e ∷ []) ≡ ok (length es)
  unfolding last_index
  last_index-append es e =
      ground (arith, index_of-last es e, length-append es (new_entry {M = M} e ∷ []))

  remove_entry_lem :
      (d e : Text) (es : List (Entry M)) (s : EntryStore M)
      → lookup d s ≡ some (es ++ new_entry e ∷ [])
      → remove_entry d e s ≡ (ok tt, insert d es s)
  unfolding remove_entry
  remove_entry_lem d e es s p =
      ground (arith, last_index-append es e, delete_at-append es (new_entry {M = M} e))

  remove_entries_loop-append :
      (xs : List (Text × Text)) (d e : Text) (s : EntryStore M)
      → remove_entries_loop (xs ++ (d, e) ∷ []) s ≡ (remove_entries_loop xs >> remove_entry d e) s
  unfolding remove_entries_loop
  remove_entries_loop-append [] d e s = bind-pure (remove_entry d e s)
  remove_entries_loop-append ((d', e') ∷ xs) d e s =
      ap
        (λ (f : Unit {0} → Proc (EntryStore M)).
          continue (remove_entry d' e' s).0 f (remove_entry d' e' s).1)
        (fun_ext λ _. fun_ext λ t. remove_entries_loop-append xs d e t)
      ∙ sym
          (bind_assoc (remove_entry d' e') (λ _. remove_entries_loop xs) (λ _. remove_entry d e) s)

  remove_entries_loop-reverse :
      (d e : Text) (qs : List (Text × Text)) (s : EntryStore M)
      → remove_entries_loop (reverse ((d, e) ∷ qs)) s
        ≡ (remove_entries_loop (reverse qs) >> remove_entry d e) s
  remove_entries_loop-reverse d e qs s =
      ap (λ l. remove_entries_loop l s) (reverse-append ((d, e) ∷ []) qs)
      ∙ remove_entries_loop-append (reverse qs) d e s

  is_open-Writes :
      (d : Text) (es : List (Entry M)) (s s' : EntryStore M)
      → Writes d es s s'
      → (ds : List Text) → contains d ds ≡ false
      → All (λ x. is_open s x ≡ true) ds
      → All (λ x. is_open s' x ≡ true) ds
  unfolding contains
  is_open-Writes d es s s' w [] fresh o = tt
  is_open-Writes d es s s' w (x ∷ ds) fresh o = (
    ground (arith, w x, list_beq_iff d x, list_beq_iff x d, o.0),
    is_open-Writes d es s s' w ds (ground arith) o.1,
  )

  -- Where the directories of a list are there, with the entries that they had before.
  abbrev pub Refilled : List (Text × Text) → EntryStore M → EntryStore M → Type ℓ
  Refilled qs s s' =
      (x : Text)
      → lookup x s' ≡ (if contains x (directories qs) then some (entries_at x s) else lookup x s)

  -- The entries that a run of `add_loop` makes are taken away, and the directories stay.
  pub add_then_remove :
      (qs : List (Text × Text)) (s : EntryStore M)
      → IsDistinct (directories qs)
      → All (λ d. is_open s d ≡ true) (directories qs)
      → ((add_loop qs s).0 ≡ ok tt)
        × ((remove_entries_loop (reverse qs) (add_loop qs s).1).0 ≡ ok tt)
        × Refilled qs s (remove_entries_loop (reverse qs) (add_loop qs s).1).1
  unfolding contains
  add_then_remove [] s d o = (
    unfold add_loop in refl,
    unfold add_loop remove_entries_loop in refl,
    unfold add_loop remove_entries_loop in λ x. refl,
  )
  add_then_remove ((d, e) ∷ qs) s distinct opened =
      let s1 : EntryStore M = (add_step d e s).1 in
      let es : List (Entry M) = entries_at d s in
      let step = add_step_lem d e s opened.0 in
      let rest = add_then_remove qs s1 distinct.1 (
        is_open-Writes d (es ++ new_entry e ∷ []) s s1 step.1 (directories qs) distinct.0
          opened.1) in
      let s2 : EntryStore M = (remove_entries_loop (reverse qs) (add_loop qs s1).1).1 in
      let first : add_loop ((d, e) ∷ qs) s ≡ add_loop qs s1 = unfold add_loop in rw step.0 refl in
      let here : lookup d s2 ≡ some (es ++ new_entry e ∷ []) =
        ground (arith, rest.2 d, step.1 d, eq_refl d, distinct.0) in
      let whole : remove_entries_loop (reverse ((d, e) ∷ qs)) (add_loop ((d, e) ∷ qs) s).1
          ≡ (ok tt, insert d es s2) =
        ap (λ t. remove_entries_loop (reverse ((d, e) ∷ qs)) t)
          (ap (λ (t : Result (Unit {0}) × EntryStore M). t.1) first)
        ∙ remove_entries_loop-reverse d e qs (add_loop qs s1).1
        ∙ rw rest.1 (remove_entry_lem d e es s2 here) in
      (
        ap (λ (t : Result (Unit {0}) × EntryStore M). t.0) first ∙ rest.0,
        ap (λ (t : Result (Unit {0}) × EntryStore M). t.0) whole,
        λ x.
            ap (λ (t : Result (Unit {0}) × EntryStore M). lookup x t.1) whole
            ∙ ground (arith, lookup-insert d x es s2, rest.2 x, step.1 x, list_beq_iff d x),
      )

  remove_if_empty_lem :
      (d : Text) (es : List (Entry M)) (s : EntryStore M)
      → lookup d s ≡ some es
      → ((remove_if_empty d s).0 ≡ ok tt)
        × ((x : Text)
            → lookup x (remove_if_empty d s).1
              ≡ (if d == x && is_empty es && not (d == root) then none else lookup x s))
  unfolding remove_if_empty
  remove_if_empty_lem d es s p = (ground arith, λ x. ground (arith, lookup-erase d x s))

  -- The directories that are empty now go, but for the root.
  pub remove_directories_loop_lem :
      (qs : List (Text × Text)) (s : EntryStore M)
      → IsDistinct (directories qs)
      → ((x : Text) → contains x (directories qs) ≡ true → lookup x s ≡ some (entries_at x s))
      → ((remove_directories_loop qs s).0 ≡ ok tt)
        × ((x : Text)
            → lookup x (remove_directories_loop qs s).1 ≡ (
                if contains x (directories qs) && is_empty (entries_at x s) && not (x == root)
                then none
                else lookup x s))
  unfolding remove_directories_loop contains
  remove_directories_loop_lem [] s distinct there = (refl, λ x. refl)
  remove_directories_loop_lem ((d, e) ∷ qs) s distinct there =
      let s1 : EntryStore M = (remove_if_empty d s).1 in
      let step = remove_if_empty_lem d (entries_at d s) s (there d (ground (arith, eq_refl d))) in
      let rest =
        remove_directories_loop_lem qs s1 distinct.1
          (λ x h. ground (arith, step.1 x, there x, list_beq_iff d x, distinct.0)) in
      (
        rw step.0 rest.0,
        λ x. rw step.0 (rest.1 x ∙ ground (arith, step.1 x, list_beq_iff d x, distinct.0)),
      )

  -- What does not lie on the way is left alone.
  pub lookup-add_loop_ne :
      (x : Text) (qs : List (Text × Text)) (s : EntryStore M)
      → IsDistinct (directories qs)
      → All (λ d. is_open s d ≡ true) (directories qs)
      → contains x (directories qs) ≡ false
      → lookup x (add_loop qs s).1 ≡ lookup x s
  unfolding add_loop contains
  lookup-add_loop_ne x [] s distinct opened out = refl
  lookup-add_loop_ne x ((d, e) ∷ qs) s distinct opened out =
      let step = add_step_lem d e s opened.0 in
      rw step.0 (
        lookup-add_loop_ne x qs (add_step d e s).1 distinct.1
          (is_open-Writes d (entries_at d s ++ new_entry e ∷ []) s (add_step d e s).1 step.1
            (directories qs) distinct.0 opened.1)
          (ground arith)
        ∙ ground (arith, step.1 x))
