-- ===== src/DeferredMonitor/Collapse.antt =====
-- The events that the queue keeps for each path.
use mathlib.Core.List.{append-nil, reverse-append}
use mathlib.Core.Path.{sym}
use pytagsfs.Base.{
  ◌≡◌, refl, ap, ◌∙◌, Bool, true, false, ◌&&◌, ◌==◌, if◌then◌else◌, Option, none, some, List, [],
  ◌∷◌, ◌++◌, reverse, Text, get_last?, arith, list_eq, nat_eq, list_beq_iff, Bool-cases, inl, inr,
}
use pytagsfs.DeferredMonitor.{
  Action, add, remove, update, Event, is_update, find_path, is_collapsed, dstm_add_cb,
  dstm_remove_cb, dstm_update_cb, report, report_all,
}

module _ {ℓ} {A : Type ℓ} where
  -- The events for a path.
  abbrev pub only : Text → List (Event A) → List (Event A)
  only p [] = []
  only p (e ∷ es) = if e.path == p then e ∷ only p es else only p es

  -- One more event for a path, where an update is dropped that comes right after an update.
  abbrev pub collapse_one : List (Event A) → Event A → List (Event A)
  collapse_one done e =
      if is_update e.action && is_collapsed (get_last? done) then done else done ++ e ∷ []

  abbrev pub collapse : List (Event A) → List (Event A) → List (Event A)
  collapse done [] = done
  collapse done (e ∷ es) = collapse (collapse_one done e) es

  only-append : (p : Text) (xs ys : List (Event A)) → only p (xs ++ ys) ≡ only p xs ++ only p ys
  only-append p [] ys = refl
  only-append p (x ∷ xs) ys = ground (arith, only-append p xs ys)

  either : Option (Event A) → Option (Event A) → Option (Event A)
  either none o = o
  either (some e) o = some e

  find_path-append :
      (p : Text) (xs ys : List (Event A))
      → find_path p (xs ++ ys) ≡ either (find_path p xs) (find_path p ys)
  unfolding find_path either
  find_path-append p [] ys = refl
  find_path-append p (x ∷ xs) ys = ground (arith, find_path-append p xs ys)

  get_last?-cons :
      (x : Event A) (xs : List (Event A)) → get_last? (x ∷ xs) ≡ either (get_last? xs) (some x)
  unfolding either
  get_last?-cons x [] = refl
  get_last?-cons x (y ∷ xs) = rw (get_last?-cons y xs) (either_some (get_last? xs))
    where
      either_some : (o : Option (Event A)) → either o (some y) ≡ either (either o (some y)) (some x)
      either_some none = refl
      either_some (some e) = refl

  find_path-reverse :
      (p : Text) (queue : List (Event A)) → find_path p (reverse queue) ≡ get_last? (only p queue)
  unfolding find_path either
  find_path-reverse p [] = refl
  find_path-reverse p (e ∷ queue) = rw (reverse-append (e ∷ []) queue) (
      find_path-append p (reverse queue) (e ∷ [])
      ∙ rw (find_path-reverse p queue) (last_one (e.path == p)))
    where
      either_none : (o : Option (Event A)) → either o none ≡ o
      either_none none = refl
      either_none (some e) = refl

      last_one :
          (b : Bool)
          → either (get_last? (only p queue)) (if b then some e else none)
            ≡ get_last? (if b then e ∷ only p queue else only p queue)
      last_one true = sym (get_last?-cons e (only p queue))
      last_one false = either_none (get_last? (only p queue))

  only_snoc :
      (p : Text) (queue : List (Event A)) (e : Event A)
      → only p (queue ++ e ∷ []) ≡ (if e.path == p then only p queue ++ e ∷ [] else only p queue)
  only_snoc p queue e = ground (arith, only-append p queue (e ∷ []), append-nil (only p queue))

  only-report_parts :
      (p : Text) (a : Action) (q : Text) (x : A) (queue : List (Event A))
      → only p (report (record { action = a; path = q; args = x }) queue) ≡ (
          if q == p
          then collapse_one (only p queue) (record { action = a; path = q; args = x })
          else only p queue)
  unfolding report dstm_add_cb dstm_remove_cb dstm_update_cb
  only-report_parts p add q x queue =
      only_snoc p queue (record { action = add; path = q; args = x })
  only-report_parts p remove q x queue =
      only_snoc p queue (record { action = remove; path = q; args = x })
  only-report_parts p update q x queue =
      elim (Bool-cases (is_collapsed (find_path q (reverse queue)))) [
        | inl skipped ↦
            rw (skipped, dstm_update_cb)
              (ground (arith, list_beq_iff q p, ap is_collapsed (find_path-reverse q queue)))
        | inr kept ↦
            rw (kept, dstm_update_cb)
              (ground (
                arith,
                list_beq_iff q p,
                ap is_collapsed (find_path-reverse q queue),
                only_snoc p queue (record { action = update; path = q; args = x }),
              ))
      ]

  only-report :
      (p : Text) (e : Event A) (queue : List (Event A))
      → only p (report e queue)
        ≡ (if e.path == p then collapse_one (only p queue) e else only p queue)
  only-report p e queue = only-report_parts p e.action e.path e.args queue

  -- For each path, the events that the queue holds for it after any sequence of reports are the
  -- events reported for it in their order, without the updates that come right after an update for
  -- the same path, and the events for other paths make no difference.
  pub only-report_all :
      (p : Text) (es queue : List (Event A))
      → only p (report_all es queue) ≡ collapse (only p queue) (only p es)
  unfolding report_all
  only-report_all p [] queue = refl
  only-report_all p (e ∷ es) queue = elim (Bool-cases (e.path == p)) [
    | inl same ↦ rw same (
        only-report_all p es (report e queue)
        ∙ ap (λ done. collapse done (only p es)) (ground (arith, only-report p e queue)))
    | inr other ↦ rw other (
        only-report_all p es (report e queue)
        ∙ ap (λ done. collapse done (only p es)) (ground (arith, only-report p e queue)))
  ]
