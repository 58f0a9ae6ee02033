-- ===== src/Kqueue/Answers.antt =====
-- What `watch_directory`, `watch_file`, `watch_path` and `stop_watch` answer, as a set of watched
-- paths answers, and that they keep the dicts of a manager in step.
use pytagsfs.Base.{
  continue, catch_result, ℕ, ◌≡◌, refl, sym, ◌∙◌, Bool, true, false, not, if◌then◌else◌, Option,
  none, some, List, Text, lookup, lookup-erase, nat_eq, list_eq, nat_beq_iff, arith, Exc, Result,
  ok, err, Bool-cases, inl, inr, Proc, ◌>>=◌, ◌>>◌, pure, not_a_directory, invalid_argument,
  is_os_error,
}
use pytagsfs.Kqueue.{
  Kind, Kernel, KqueueManager, Kevent, get_fd_for_path, note_watch, finish_directory, note_entries,
  call, refuse, refuse_watched, try_open, try_listdir, add_kevent, start_directory, start_file,
  watch_directory, watch_file, watch_path, is_not_a_directory, forget, stop_watch, directory_kevent,
  file_kevent,
}
use pytagsfs.Kqueue.Watches.{
  KernelLaws, IsTracked, has_watch, has_watch-insert, has_watch-erase, lookup-get_fd_for_path,
}
use pytagsfs.Kqueue.Tracking.{
  world-IsTracked, with_file-IsTracked, with_directory-IsTracked, forgotten, forgotten-IsTracked,
}
use pytagsfs.Kqueue.Ready.{
  begin, end, begin_refused, begun, not_begun, end_refused, ended, delete_fd-some, IsSame, IsReady,
  Answers, failed, world-IsSame, call-IsReady, step-Answers, refuse-IsReady, add_kevent-IsReady,
  try_listdir-IsReady,
}

module _ {ℓ} {W : Type ℓ} (k : Kernel W) (laws : KernelLaws k) (before : Text → Bool) where
  finish_directory-Answers :
      (fd : ℕ) (p : Text) (o : Option (List Text)) (s : KqueueManager W)
      → IsReady k laws before fd p s
      → Answers k laws before (begin p) (finish_directory k p fd o s)
  unfolding finish_directory note_watch note_entries
  finish_directory-Answers fd p none s v =
      failed k laws before p (k.os_close fd s.world).0
        (record s { world = (k.os_close fd s.world).1 }) v.unwatched
        (world-IsSame k laws before (k.os_close fd s.world).1 s
          (λ g h. laws.close_keeps fd s.world g (ground (arith, v.is_fresh, nat_beq_iff fd g)))
          v.is_same)
  finish_directory-Answers fd p (some entries) s v = (
    with_directory-IsTracked laws.is_open fd p (directory_kevent fd) entries s
        (v.is_same.same p ∙ v.unwatched) v.is_fresh v.is_open v.is_same.tracked,
    begun p v.unwatched
        (λ q. rw (has_watch-insert p q fd s.paths v.is_fresh, v.is_same.same q) refl),
  )

  start_file-Answers :
      (fd : ℕ) (p : Text) (s : KqueueManager W)
      → IsReady k laws before fd p s
      → Answers k laws before (begin p) (start_file k p (some fd) s)
  unfolding start_file note_watch
  start_file-Answers fd p =
      step-Answers k laws before (call (k.os_fstat_mode fd)) _ fd p
        (call-IsReady k laws before (k.os_fstat_mode fd) fd p (laws.fstat_keeps fd))
        (λ mode.
          step-Answers k laws before (refuse (not (k.s_isreg mode)) invalid_argument) _ fd p
            (refuse-IsReady k laws before (not (k.s_isreg mode)) invalid_argument fd p)
            (λ _.
              step-Answers k laws before (add_kevent k (file_kevent fd)) _ fd p
                (add_kevent-IsReady k laws before (file_kevent fd) fd p)
                (λ _. λ s v. (
                  with_file-IsTracked laws.is_open fd p (file_kevent fd) s
                      (v.is_same.same p ∙ v.unwatched) v.is_fresh v.is_open v.is_same.tracked,
                  begun p v.unwatched
                      (λ q. rw (has_watch-insert p q fd s.paths v.is_fresh, v.is_same.same q) refl),
                ))))

  start_directory-Answers :
      (fd : ℕ) (p : Text) (s : KqueueManager W)
      → IsReady k laws before fd p s
      → Answers k laws before (begin p) (start_directory k p (some fd) s)
  unfolding start_directory
  start_directory-Answers fd p =
      step-Answers k laws before (call (k.os_fstat_mode fd)) _ fd p
        (call-IsReady k laws before (k.os_fstat_mode fd) fd p (laws.fstat_keeps fd))
        (λ mode.
          step-Answers k laws before (refuse (not (k.s_isdir mode)) not_a_directory) _ fd p
            (refuse-IsReady k laws before (not (k.s_isdir mode)) not_a_directory fd p)
            (λ _.
              step-Answers k laws before (add_kevent k (directory_kevent fd)) _ fd p
                (add_kevent-IsReady k laws before (directory_kevent fd) fd p)
                (λ _.
                  step-Answers k laws before (try_listdir k p) _ fd p
                    (try_listdir-IsReady k laws before fd p)
                    (λ entries. finish_directory-Answers fd p entries))))

  -- What `try_open` leads to: a file descriptor that is ready, or nothing that changed.
  Opened : Text → Result (Option ℕ) × KqueueManager W → Type 0
  Opened p (ok (some fd), s) = IsReady k laws before fd p s
  Opened p (ok none, s) = IsSame k laws before s
  Opened p (err c, s) = IsSame k laws before s

  open-IsSame :
      (p : Text) (s : KqueueManager W)
      → IsSame k laws before s
      → IsSame k laws before (record s { world = (k.os_open p s.world).1 })
  open-IsSame p s v =
      world-IsSame k laws before (k.os_open p s.world).1 s (λ g _. laws.open_keeps p s.world g) v

  try_open-Opened :
      (p : Text) (s : KqueueManager W)
      → before p ≡ false
      → IsSame k laws before s
      → Opened p (try_open k p s)
  unfolding try_open Opened
  try_open-Opened p s n v = go (k.os_open p s.world).0 refl
    where
      after : KqueueManager W
      after = record s { world = (k.os_open p s.world).1 }

      raised : (b : Bool) (c : Exc) → Opened p (if b then (ok none, after) else (err c, after))
      raised true c = open-IsSame p s v
      raised false c = open-IsSame p s v

      go :
          (r : Result ℕ)
          → (k.os_open p s.world).0 ≡ r
          → Opened p
              (catch_result is_os_error (pure none) (continue r (λ fd. pure (some fd)) after))
      go (ok fd) e = record {
        is_same = open-IsSame p s v;
        is_fresh = ground (arith, v.tracked.opened fd, laws.fresh p s.world fd e);
        is_open = laws.opens p s.world fd e;
        unwatched = n;
      }
      go (err c) e = raised (is_os_error c) c

  -- `watch_directory` and `watch_file`, with what they do to a path once it is opened.
  watch-Answers :
      (p : Text) (start : Option ℕ → Proc (KqueueManager W)) (s : KqueueManager W)
      → ((fd : ℕ) (s : KqueueManager W)
          → IsReady k laws before fd p s
          → Answers k laws before (begin p) (start (some fd) s))
      → ((s : KqueueManager W) → start none s ≡ (ok tt, s))
      → IsSame k laws before s
      → Answers k laws before (begin p) ((do refuse_watched p; fd ← try_open k p; start fd) s)
  unfolding refuse_watched Opened
  watch-Answers p start s h idle v = elim (Bool-cases (has_watch p s.paths)) [
    | inl e ↦ rw e (v.tracked, begin_refused p (sym (v.same p) ∙ e) v.same)
    | inr e ↦ rw e (
        start_from (try_open k p s).0 (try_open k p s).1 (sym (v.same p) ∙ e)
          (try_open-Opened p s (sym (v.same p) ∙ e) v))
  ]
    where
      start_from :
          (r : Result (Option ℕ)) (t : KqueueManager W)
          → before p ≡ false
          → Opened p (r, t)
          → Answers k laws before (begin p) (continue r start t)
      start_from (ok none) t n o = rw (idle t) (failed k laws before p (ok tt) t n o)
      start_from (ok (some fd)) t n o = h fd t o
      start_from (err c) t n o = failed k laws before p (err c) t n o

  pub watch_file-Answers :
      (p : Text) (s : KqueueManager W)
      → IsSame k laws before s
      → Answers k laws before (begin p) (watch_file k p s)
  unfolding watch_file start_file
  watch_file-Answers p s v =
      watch-Answers p (start_file k p) s (λ fd. start_file-Answers fd p) (λ t. refl) v

  pub watch_directory-Answers :
      (p : Text) (s : KqueueManager W)
      → IsSame k laws before s
      → Answers k laws before (begin p) (watch_directory k p s)
  unfolding watch_directory start_directory
  watch_directory-Answers p s v =
      watch-Answers p (start_directory k p) s (λ fd. start_directory-Answers fd p) (λ t. refl) v

  -- A watch that raised has changed nothing.
  raised-IsSame :
      (p : Text) (c : Exc) (s : KqueueManager W)
      → Answers k laws before (begin p) (err c, s)
      → IsSame k laws before s
  raised-IsSame p c s (v, begin_refused _ _ same) = record { tracked = v; same = same }
  raised-IsSame p c s (v, not_begun _ _ _ same) = record { tracked = v; same = same }

  pub watch_path-Answers :
      (p : Text) (s : KqueueManager W)
      → IsSame k laws before s
      → Answers k laws before (begin p) (watch_path k p s)
  unfolding watch_path
  watch_path-Answers p s v =
      caught (watch_directory k p s).0 (watch_directory k p s).1 (watch_directory-Answers p s v)
    where
      handled :
          (b : Bool) (c : Exc) (t : KqueueManager W)
          → Answers k laws before (begin p) (err c, t)
          → Answers k laws before (begin p) (if b then watch_file k p t else (err c, t))
      handled true c t a = watch_file-Answers p t (raised-IsSame p c t a)
      handled false c t a = a

      caught :
          (r : Result (Unit {0})) (t : KqueueManager W)
          → Answers k laws before (begin p) (r, t)
          → Answers k laws before
              (begin p)
              (catch_result is_not_a_directory (watch_file k p) (r, t))
      caught (ok u) t a = a
      caught (err c) t a = handled (is_not_a_directory c) c t a

  -- Where the path is watched, its file descriptor has an entry in each dict.
  forget-forgotten :
      (fd : ℕ) (p : Text) (s : KqueueManager W)
      → lookup fd s.paths ≡ some p
      → IsTracked laws.is_open s
      → forget fd p s ≡ (ok tt, forgotten laws.is_open fd p s)
  unfolding forget
  forget-forgotten fd p s e v = go (lookup fd s.types) (lookup fd s.base_kevents) refl refl
    where
      go :
          (o : Option Kind) (j : Option Kevent)
          → lookup fd s.types ≡ o
          → lookup fd s.base_kevents ≡ j
          → forget fd p s ≡ (ok tt, forgotten laws.is_open fd p s)
      go none j a b = absurd (ground (arith, v.typed fd, a, e))
      go (some o) none a b = absurd (ground (arith, v.has_kevent fd, b, e))
      go (some o) (some j) a b =
          rw
            (
              delete_fd-some fd p s.paths e,
              delete_fd-some fd o s.types a,
              delete_fd-some fd j s.base_kevents b,
            )
            refl

  pub stop_watch-Answers :
      (p : Text) (s : KqueueManager W)
      → IsSame k laws before s
      → Answers k laws before (end p) (stop_watch k p s)
  unfolding stop_watch
  stop_watch-Answers p s v = go (get_fd_for_path p s.paths) refl
    where
      go :
          (o : Option ℕ)
          → get_fd_for_path p s.paths ≡ o
          → Answers k laws before (end p) (stop_watch k p s)
      go none e = rw (e, stop_watch) (v.tracked, end_refused p (ground (arith, v.same p, e)) v.same)
      go (some fd) e =
          let found = lookup-get_fd_for_path p fd s.paths v.tracked.is_distinct e in
          rw (e, stop_watch, forget-forgotten fd p s found v.tracked)
            (
              world-IsTracked laws.is_open (k.os_close fd s.world).1 (forgotten laws.is_open fd p s)
                  (λ g h.
                    laws.close_keeps fd s.world g (ground (arith, h, lookup-erase fd g s.paths)))
                  (forgotten-IsTracked laws.is_open fd p s found v.tracked),
              ended p (k.os_close fd s.world).0 (ground (arith, v.same p, e)) (λ q.
                  rw
                    (
                      has_watch-erase p q fd s.paths v.tracked.is_distinct found
                          (λ g h. v.tracked.single fd g p found h),
                      v.same q,
                    )
                    refl),
            )
