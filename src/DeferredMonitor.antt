-- ===== src/DeferredMonitor.antt =====
-- modules/pytagsfs/sourcetreemon/deferred.py: a monitor that holds its events back. The arguments
-- of the callbacks after the path are of any type. The callbacks of the source tree representation
-- are a parameter, over a state of theirs, so that they do not reach the queue.
pub mod Collapse
pub mod Draining
use pytagsfs.Base.{
  Bool, true, false, ◌==◌, if◌then◌else◌, Option, none, some, List, [], ◌∷◌, ◌++◌, reverse, Text,
  Exec, Proc, pure, Result, ok, err, list_eq, nat_eq,
}

pub data Action : Type 0 where
  add remove update : Action

pub record Event {ℓ} (A : Type ℓ) : Type ℓ where
  pub action : Action
  pub path : Text
  pub args : A

abbrev pub is_update : Action → Bool
is_update update = true
is_update _ = false

module _ {ℓ} {A : Type ℓ} where
  -- The first event for a path.
  unfoldable pub find_path : Text → List (Event A) → Option (Event A)
  find_path p [] = none
  find_path p (e ∷ es) = if e.path == p then some e else find_path p es

  unfoldable pub dstm_add_cb : Text → A → List (Event A) → List (Event A)
  dstm_add_cb path args queue = queue ++ record { action = add; path = path; args = args } ∷ []

  unfoldable pub dstm_remove_cb : Text → A → List (Event A) → List (Event A)
  dstm_remove_cb path args queue =
      queue ++ record { action = remove; path = path; args = args } ∷ []

  -- Whether the last event for the path is an update.
  unfoldable pub is_collapsed : Option (Event A) → Bool
  is_collapsed none = false
  is_collapsed (some e) = is_update e.action

  unfoldable pub dstm_update_cb : Text → A → List (Event A) → List (Event A)
  unfolding find_path is_collapsed
  dstm_update_cb path args queue =
      if is_collapsed (find_path path (reverse queue))
      then queue
      else queue ++ record { action = update; path = path; args = args } ∷ []

  -- The callback of an event.
  unfoldable pub report : Event A → List (Event A) → List (Event A)
  unfolding dstm_add_cb dstm_remove_cb dstm_update_cb
  report e queue = elim e.action [
    | add ↦ dstm_add_cb e.path e.args queue
    | remove ↦ dstm_remove_cb e.path e.args queue
    | update ↦ dstm_update_cb e.path e.args queue
  ]

  unfoldable pub report_all : List (Event A) → List (Event A) → List (Event A)
  report_all [] queue = queue
  report_all (e ∷ es) queue = report_all es (report e queue)

  module _ {κ} {W : Type κ} (callback : Event A → Proc W) where
    unfoldable pub after_callback :
        Result (Unit {0}) × W
        → (W → Result (Unit {0}) × List (Event A) × W)
        → List (Event A)
        → Result (Unit {0}) × List (Event A) × W
    after_callback (ok _, w) next queue = next w
    after_callback (err c, w) next queue = (err c, queue, w)

    -- The event leaves the queue before its callback, so one that raises is gone.
    unfoldable pub finish_processing : List (Event A) → W → Result (Unit {0}) × List (Event A) × W
    unfolding after_callback
    finish_processing [] w = (ok tt, [], w)
    finish_processing (e ∷ queue) w = after_callback (callback e w) (finish_processing queue) queue
