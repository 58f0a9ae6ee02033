-- ===== src/Kqueue/Turns.antt =====
-- A `KqueueManager` over any calls and events, with callbacks that call it.
use pytagsfs.Base.{List, [], ◌∷◌, Proc, Result, list_eq, nat_eq}
use pytagsfs.Base.Invariants.{Keeps}
use pytagsfs.Kqueue.{Kernel, KqueueManager, KqueueEvent, new_manager, stop}
use pytagsfs.Kqueue.Processing.{get_events}
use pytagsfs.Kqueue.Watches.{KernelLaws, IsTracked}
use pytagsfs.Kqueue.Refinement.{
  Call, to_watch_directory, to_watch_file, to_watch_path, to_stop_watch, perform,
  new_manager-IsTracked,
}
use pytagsfs.Kqueue.Tracked.{
  InStep, watch_directory-InStep, watch_file-InStep, watch_path-InStep, stop_watch-InStep,
  stop-InStep, get_events-InStep,
}

-- What is asked of a manager: a call, the processing of its events, or its end.
pub data Turn : Type 0 where
  make_call : Call → Turn
  take_events : Turn
  stop_all : Turn

module _ {ℓ} {W : Type ℓ} (k : Kernel W) where
  -- The manager after calls, of which some may raise.
  abbrev pub after_calls : List Call → KqueueManager W → KqueueManager W
  after_calls [] s = s
  after_calls (c ∷ calls) s = after_calls calls (perform k c s).1

  -- A callback makes calls of the manager, and returns or raises.
  module _ (calls_for : KqueueEvent → KqueueManager W → List Call)
      (result_of : KqueueEvent → KqueueManager W → Result (Unit {0})) where
    abbrev pub respond : KqueueEvent → Proc (KqueueManager W)
    respond event s = (result_of event s, after_calls (calls_for event s) s)

    abbrev pub take_turn : Turn → KqueueManager W → KqueueManager W
    take_turn (make_call c) s = (perform k c s).1
    take_turn take_events s = (get_events k respond s).1
    take_turn stop_all s = (stop k s).1

    abbrev pub take_turns : List Turn → KqueueManager W → KqueueManager W
    take_turns [] s = s
    take_turns (t ∷ turns) s = take_turns turns (take_turn t s)

  module _ (laws : KernelLaws k) where
    perform-InStep : (c : Call) → Keeps (InStep k laws) (perform k c)
    perform-InStep (to_watch_directory p) = watch_directory-InStep k laws p
    perform-InStep (to_watch_file p) = watch_file-InStep k laws p
    perform-InStep (to_watch_path p) = watch_path-InStep k laws p
    perform-InStep (to_stop_watch p) = stop_watch-InStep k laws p

    after_calls-InStep :
        (calls : List Call) (s : KqueueManager W)
        → InStep k laws s
        → InStep k laws (after_calls calls s)
    after_calls-InStep [] s v = v
    after_calls-InStep (c ∷ calls) s v =
        after_calls-InStep calls (perform k c s).1 ((perform-InStep c).at s v)

    module _ (calls_for : KqueueEvent → KqueueManager W → List Call)
        (result_of : KqueueEvent → KqueueManager W → Result (Unit {0})) where
      turn-InStep :
          (t : Turn) (s : KqueueManager W)
          → InStep k laws s
          → InStep k laws (take_turn calls_for result_of t s)
      turn-InStep (make_call c) s v = (perform-InStep c).at s v
      turn-InStep take_events s v =
          (get_events-InStep k laws (respond calls_for result_of)
              (λ e. record { at = λ s v. after_calls-InStep (calls_for e s) s v })).at
            s v
      turn-InStep stop_all s v = (stop-InStep k laws).at s v

      turns-InStep :
          (turns : List Turn) (s : KqueueManager W)
          → InStep k laws s
          → InStep k laws (take_turns calls_for result_of turns s)
      turns-InStep [] s v = v
      turns-InStep (t ∷ turns) s v =
          turns-InStep turns (take_turn calls_for result_of t s) (turn-InStep t s v)

      -- Over a kernel that opens no file descriptor twice and closes none but the one that it is told
      -- to, whatever watches a new manager is asked for, whatever events the kernel reports and
      -- whatever calls the callbacks make of the manager while the events are processed, whether they
      -- and the calls return or raise, the dicts stay in step: a file descriptor has a type and a
      -- base event exactly if it has a path, no two have the same path, each is open, and the
      -- directories with known entries are those that are watched as directories.
      pub take_turns-IsTracked :
          (w : W) (turns : List Turn)
          → IsTracked laws.is_open (take_turns calls_for result_of turns (new_manager w))
      take_turns-IsTracked w turns =
          turns-InStep turns (new_manager w) (new_manager-IsTracked k laws w)
