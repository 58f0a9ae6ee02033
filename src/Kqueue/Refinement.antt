-- ===== src/Kqueue/Refinement.antt =====
-- A `KqueueManager` against a set of watched paths, over any calls.
use pytagsfs.Base.{refl, List, [], ◌∷◌, Text, lookup, nat_eq, list_eq, Proc, keys}
use pytagsfs.Kqueue.{
  Kernel, KqueueManager, watch_directory, watch_file, watch_path, stop_watch, new_manager,
}
use pytagsfs.Kqueue.Watches.{KernelLaws, IsTracked, has_watch}
use pytagsfs.Kqueue.Ready.{Request, begin, end, IsAllowed, Answers}
use pytagsfs.Kqueue.Answers.{
  watch_directory-Answers, watch_file-Answers, watch_path-Answers, stop_watch-Answers,
}

-- The calls of a manager.
pub data Call : Type 0 where
  to_watch_directory : Text → Call
  to_watch_file : Text → Call
  to_watch_path : Text → Call
  to_stop_watch : Text → Call

abbrev pub request : Call → Request
request (to_watch_directory p) = begin p
request (to_watch_file p) = begin p
request (to_watch_path p) = begin p
request (to_stop_watch p) = end p

module _ {ℓ} {W : Type ℓ} (k : Kernel W) where
  abbrev pub perform : Call → Proc (KqueueManager W)
  perform (to_watch_directory p) = watch_directory k p
  perform (to_watch_file p) = watch_file k p
  perform (to_watch_path p) = watch_path k p
  perform (to_stop_watch p) = stop_watch k p

  -- Each call answers, and changes the watched paths, as a set of watched paths may.
  abbrev pub Refines : List Call → KqueueManager W → Type 0
  Refines [] s = Unit
  Refines (c ∷ calls) s =
      IsAllowed (λ q. has_watch q s.paths) (λ q. has_watch q (perform c s).1.paths) (request c)
        (perform c s).0
      × Refines calls (perform c s).1

  module _ (laws : KernelLaws k) where
    perform-Answers :
        (c : Call) (s : KqueueManager W)
        → IsTracked laws.is_open s
        → Answers k laws (λ q. has_watch q s.paths) (request c) (perform c s)
    perform-Answers (to_watch_directory p) s v =
        watch_directory-Answers k laws (λ q. has_watch q s.paths) p s
          (record { tracked = v; same = λ q. refl })
    perform-Answers (to_watch_file p) s v =
        watch_file-Answers k laws (λ q. has_watch q s.paths) p s
          (record { tracked = v; same = λ q. refl })
    perform-Answers (to_watch_path p) s v =
        watch_path-Answers k laws (λ q. has_watch q s.paths) p s
          (record { tracked = v; same = λ q. refl })
    perform-Answers (to_stop_watch p) s v =
        stop_watch-Answers k laws (λ q. has_watch q s.paths) p s
          (record { tracked = v; same = λ q. refl })

    IsTracked-Refines :
        (calls : List Call) (s : KqueueManager W) → IsTracked laws.is_open s → Refines calls s
    IsTracked-Refines [] s v = tt
    IsTracked-Refines (c ∷ calls) s v = (
      (perform-Answers c s v).1,
      IsTracked-Refines calls (perform c s).1 (perform-Answers c s v).0,
    )

    pub new_manager-IsTracked : (w : W) → IsTracked laws.is_open (new_manager w)
    unfolding lookup keys
    new_manager-IsTracked w = record {
      is_distinct = tt;
      typed = λ fd. refl;
      has_kevent = λ fd. refl;
      single = λ f g p h e. cc;
      listed = λ fd p h. cc;
      lists_watched = λ p h. cc;
      opened = λ fd h. cc;
    }

    -- Over a kernel that opens no file descriptor twice and closes none but the one that it is told
    -- to, any sequence of calls of `watch_directory`, `watch_file`, `watch_path` and `stop_watch` on
    -- a new manager, whatever the kernel answers to them, refines a set of watched paths. To watch a
    -- path that is in the set raises WatchExistsError and changes nothing, and to watch another
    -- one adds that path alone and returns, or changes nothing. To stop a watch takes that path
    -- alone away, and raises NoSuchWatchError and changes nothing where it is not in the set.
    pub new_manager-Refines : (w : W) (calls : List Call) → Refines calls (new_manager w)
    new_manager-Refines w calls = IsTracked-Refines calls (new_manager w) (new_manager-IsTracked w)
