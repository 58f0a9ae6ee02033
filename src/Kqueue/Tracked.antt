-- ===== src/Kqueue/Tracked.antt =====
-- Each method of a `KqueueManager`, the processing of events among them, keeps its dicts in step.
use pytagsfs.Base.{
  ℕ, ◌≡◌, refl, true, false, if◌then◌else◌, Option, none, some, List, [], ◌∷◌, Text, lookup,
  contains, lookup-insert, Exec, Proc, Result, ◌>>=◌, ◌>>◌, pure, raise, is_os_error, key_error,
  list_eq, nat_eq, list_beq_iff, arith,
}
use pytagsfs.Base.Invariants.{
  Keeps, Keeps-pure, Keeps-if, Keeps-if_at, Keeps-catch, Keeps-bind, continue-keeps,
}
use pytagsfs.Util.Paths.{path_split, path_dirname}
use pytagsfs.Kqueue.{
  Kernel, KqueueManager, KqueueEvent, Kevent, add, update, call, try_listdir, known_entries,
  note_entries, for_each, is_dir, watch_directory, watch_file, watch_path, stop_watch, stop, values,
}
use pytagsfs.Kqueue.Processing.{
  listed_entries, directory_events, directory_kevent_events, deleted_events, file_kevent_events,
  kevent_events, get_events, has_delete,
}
use pytagsfs.Kqueue.Watches.{KernelLaws, IsTracked, has_watch}
use pytagsfs.Kqueue.Tracking.{world-IsTracked}
use pytagsfs.Kqueue.Answers.{
  watch_directory-Answers, watch_file-Answers, watch_path-Answers, stop_watch-Answers,
}

module _ {ℓ} {W : Type ℓ} (k : Kernel W) (laws : KernelLaws k) where
  abbrev pub InStep : KqueueManager W → Type 0
  InStep = IsTracked laws.is_open

  call-InStep {κ} :
      {A : Type κ} (m : Exec W A)
      → ((w : W) (g : ℕ) → laws.is_open w g ≡ true → laws.is_open (m w).1 g ≡ true)
      → Keeps InStep (call m)
  call-InStep m h = record {
    at = λ s v. world-IsTracked laws.is_open (m s.world).1 s (λ g _. h s.world g) v;
  }

  pub watch_directory-InStep : (p : Text) → Keeps InStep (watch_directory k p)
  watch_directory-InStep p = record {
    at = λ s v.
        (watch_directory-Answers k laws (λ q. has_watch q s.paths) p s
          (record { tracked = v; same = λ q. refl })).0;
  }

  pub watch_file-InStep : (p : Text) → Keeps InStep (watch_file k p)
  watch_file-InStep p = record {
    at = λ s v.
        (watch_file-Answers k laws (λ q. has_watch q s.paths) p s
          (record { tracked = v; same = λ q. refl })).0;
  }

  pub watch_path-InStep : (p : Text) → Keeps InStep (watch_path k p)
  watch_path-InStep p = record {
    at = λ s v.
        (watch_path-Answers k laws (λ q. has_watch q s.paths) p s
          (record { tracked = v; same = λ q. refl })).0;
  }

  pub stop_watch-InStep : (p : Text) → Keeps InStep (stop_watch k p)
  stop_watch-InStep p = record {
    at = λ s v.
        (stop_watch-Answers k laws (λ q. has_watch q s.paths) p s
          (record { tracked = v; same = λ q. refl })).0;
  }

  for_each-InStep {κ} :
      {A : Type κ} (m : A → Proc (KqueueManager W)) (l : List A)
      → ((a : A) → Keeps InStep (m a))
      → Keeps InStep (for_each m l)
  unfolding for_each
  for_each-InStep m [] h = Keeps-pure tt
  for_each-InStep m (a ∷ l) h = Keeps-bind (m a) _ (h a) (λ _. for_each-InStep m l h)

  pub stop-InStep : Keeps InStep (stop k)
  unfolding stop
  stop-InStep = record {
    at = λ s v. (for_each-InStep (stop_watch k) (values s.paths) stop_watch-InStep).at s v;
  }

  try_listdir-InStep : (p : Text) → Keeps InStep (try_listdir k p)
  unfolding try_listdir
  try_listdir-InStep p = Keeps-catch is_os_error (pure none) _ (Keeps-pure none) (
      Keeps-bind (call (k.os_listdir p)) _ (call-InStep (k.os_listdir p) (laws.listdir_keeps p))
        (λ entries. Keeps-pure (some entries)))

  known_entries-InStep : (p : Text) → Keeps InStep (known_entries {W = W} p)
  unfolding known_entries
  known_entries-InStep p = record { at = λ s v. go s v (lookup p s.directory_entries) }
    where
      go :
          (s : KqueueManager W)
          → InStep s
          → (o : Option (List Text))
          → InStep
              (elim o as (λ _. Result (List Text) × KqueueManager W) [
                | none ↦ raise key_error s
                | some entries ↦ pure entries s
              ]).1
      go s v none = v
      go s v (some entries) = v

  -- The entries of a directory that has some already.
  note_entries-InStep :
      (p : Text) (old new : List Text) (s : KqueueManager W)
      → lookup p s.directory_entries ≡ some old
      → InStep s
      → InStep (note_entries p new s).1
  unfolding note_entries
  note_entries-InStep p old new s e v = record {
    is_distinct = v.is_distinct;
    typed = v.typed;
    has_kevent = v.has_kevent;
    single = v.single;
    listed = λ fd q h.
        ground
          (arith, v.listed fd q, h, e, lookup-insert p q new s.directory_entries, list_beq_iff p q);
    lists_watched = λ q h. ground (
      arith,
      v.lists_watched q,
      h,
      e,
      lookup-insert p q new s.directory_entries,
      list_beq_iff p q,
    );
    opened = v.opened;
  }

  module _ (body : KqueueEvent → Proc (KqueueManager W))
      (h : (e : KqueueEvent) → Keeps InStep (body e)) where
    events-InStep :
        (p : Text) (kevent : Kevent) (listing : Option (List Text))
        → Keeps InStep (do
          old_entries ← known_entries p
          note_entries p (listed_entries listing)
          for_each body (directory_events p kevent old_entries (listed_entries listing)))
    unfolding known_entries
    events-InStep p kevent listing = record {
      at = λ s v. go s v (lookup p s.directory_entries) refl;
    }
      where
        noted : List Text → Proc (KqueueManager W)
        noted old = do
          note_entries p (listed_entries listing)
          for_each body (directory_events p kevent old (listed_entries listing))

        go :
            (s : KqueueManager W)
            → InStep s
            → (o : Option (List Text)) → lookup p s.directory_entries ≡ o
            → InStep ((known_entries p >>= noted) s).1
        go s v none e = rw (e, known_entries) v
        go s v (some old) e =
            rw (e, known_entries)
              (continue-keeps (note_entries p (listed_entries listing) s).0 _
                (note_entries p (listed_entries listing) s).1
                (λ _.
                  for_each-InStep body (directory_events p kevent old (listed_entries listing)) h)
                (note_entries-InStep p old (listed_entries listing) s e v))

    directory-InStep :
        (p : Text) (kevent : Kevent) → Keeps InStep (directory_kevent_events k body p kevent)
    unfolding directory_kevent_events
    directory-InStep p kevent =
        Keeps-bind (try_listdir k p) _ (try_listdir-InStep p)
          (λ listing. events-InStep p kevent listing)

    deleted-InStep :
        (p : Text) (entries : List Text) → Keeps InStep (deleted_events k body p entries)
    unfolding deleted_events
    deleted-InStep p entries =
        Keeps-if (contains (path_split p).1 entries) _ _
          (Keeps-bind (stop_watch k p) _ (stop_watch-InStep p) (λ _.
            Keeps-bind (watch_file k p) _ (watch_file-InStep p)
              (λ _. h (record { path = p; type = add; is_dir = some false; kevent = none }))))
          (Keeps-pure tt)

    file-InStep : (p : Text) (kevent : Kevent) → Keeps InStep (file_kevent_events k body p kevent)
    unfolding file_kevent_events
    file-InStep p kevent =
        Keeps-if (has_delete kevent.fflags) _ _
          (Keeps-bind (known_entries (path_dirname p)) _ (known_entries-InStep (path_dirname p))
            (λ entries. deleted-InStep p entries))
          (h (record { path = p; type = update; is_dir = some false; kevent = some kevent }))

    kevent-InStep : (kevent : Kevent) → Keeps InStep (kevent_events k body kevent)
    unfolding kevent_events
    kevent-InStep kevent = record { at = λ s v. go s v (lookup kevent.ident s.paths) }
      where
        go :
            (s : KqueueManager W)
            → InStep s
            → (o : Option Text)
            → InStep
                (elim o as (λ _. Result (Unit {0}) × KqueueManager W) [
                  | none ↦ pure tt s
                  | some path ↦
                      if is_dir path s
                      then directory_kevent_events k body path kevent s
                      else file_kevent_events k body path kevent s
                ]).1
        go s v none = v
        go s v (some path) =
            (Keeps-if_at (is_dir path) (directory_kevent_events k body path kevent)
                (file_kevent_events k body path kevent) (directory-InStep path kevent)
                (file-InStep path kevent)).at
              s v

    pub get_events-InStep : Keeps InStep (get_events k body)
    unfolding get_events
    get_events-InStep =
        Keeps-bind (call k.kevent_poll) _ (call-InStep k.kevent_poll laws.poll_keeps)
          (λ kevents. for_each-InStep (kevent_events k body) kevents kevent-InStep)
