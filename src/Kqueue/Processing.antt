-- ===== src/Kqueue/Processing.antt =====
-- The events of a `KqueueManager`, as `get_events` of
-- modules/pytagsfs/sourcetreemon/kqueue_.py yields them, and what the monitor makes of them.
use pytagsfs.Base.{
  ◌++◌, map, Bool, true, false, ◌||◌, if◌then◌else◌, Option, none, some, List, [], ◌∷◌, Text,
  lookup, contains, Proc, pure, ◌>>=◌, ◌>>◌, list_eq, nat_eq,
}
use pytagsfs.Util.Paths.{path_join, path_dirname, path_split}
use pytagsfs.Kqueue.{
  Note, note_delete, Kevent, Action, add, remove, update, KqueueEvent, Kernel, KqueueManager,
  for_each, call, note_entries, is_dir, known_entries, try_listdir, watch_file, stop_watch,
}

abbrev pub has_delete : List Note → Bool
has_delete [] = false
has_delete (note_delete ∷ notes) = true
has_delete (_ ∷ notes) = has_delete notes

-- set(xs) - set(ys), in some order
unfoldable pub difference : List Text → List Text → List Text
difference [] ys = []
difference (x ∷ xs) ys =
    let rest = difference xs ys in if contains x ys || contains x xs then rest else x ∷ rest

abbrev pub listed_entries : Option (List Text) → List Text
listed_entries none = []
listed_entries (some entries) = entries

abbrev pub entry_event : Text → Action → Kevent → Text → KqueueEvent
entry_event path action kevent entry = record {
  path = path_join path entry;
  type = action;
  is_dir = none;
  kevent = some kevent;
}

-- The events of a directory, whose entries were `old` and are `new`.
unfoldable pub directory_events : Text → Kevent → List Text → List Text → List KqueueEvent
unfolding difference
directory_events path kevent old new =
    map (entry_event path add kevent) (difference new old)
    ++ map (entry_event path remove kevent) (difference old new)

module _ {ℓ} {W : Type ℓ} (k : Kernel W) where
  module _ (body : KqueueEvent → Proc (KqueueManager W)) where
    unfoldable pub directory_kevent_events : Text → Kevent → Proc (KqueueManager W)
    unfolding try_listdir known_entries note_entries directory_events for_each
    directory_kevent_events path kevent = do
      listed ← try_listdir k path
      old_entries ← known_entries path
      note_entries path (listed_entries listed)
      for_each body (directory_events path kevent old_entries (listed_entries listed))

    -- A file that was replaced at once is watched anew.
    unfoldable pub deleted_events : Text → List Text → Proc (KqueueManager W)
    unfolding stop_watch watch_file
    deleted_events path entries =
        if contains (path_split path).1 entries
        then (do
          stop_watch k path
          watch_file k path
          body (record { path = path; type = add; is_dir = some false; kevent = none }))
        else pure tt

    unfoldable pub file_kevent_events : Text → Kevent → Proc (KqueueManager W)
    unfolding known_entries deleted_events
    file_kevent_events path kevent =
        if has_delete kevent.fflags
        then (do entries ← known_entries (path_dirname path); deleted_events path entries)
        else body (record { path = path; type = update; is_dir = some false; kevent = some kevent })

    unfoldable pub kevent_events : Kevent → Proc (KqueueManager W)
    unfolding is_dir directory_kevent_events file_kevent_events
    kevent_events kevent s = elim (lookup kevent.ident s.paths) [
      | none ↦ pure tt s
      | some path ↦
          if is_dir path s
          then directory_kevent_events path kevent s
          else file_kevent_events path kevent s
    ]

    unfoldable pub get_events : Proc (KqueueManager W)
    unfolding for_each kevent_events
    get_events = do kevents ← call k.kevent_poll; for_each kevent_events kevents

-- The callbacks of a source tree monitor.
pub record Callbacks {ℓ} (S : Type ℓ) : Type ℓ where
  pub add_cb : Text → Option Bool → Proc S
  pub remove_cb : Text → Option Bool → Proc S
  pub update_cb : Text → Option Bool → Proc S

module _ {ℓ} {W : Type ℓ} (k : Kernel W) (callbacks : Callbacks (KqueueManager W)) where
  unfoldable pub report : KqueueEvent → Proc (KqueueManager W)
  report event = elim event.type [
    | add ↦ callbacks.add_cb event.path event.is_dir
    | remove ↦ callbacks.remove_cb event.path event.is_dir
    | update ↦ callbacks.update_cb event.path event.is_dir
  ]

  unfoldable pub process_events : Proc (KqueueManager W)
  unfolding get_events report
  process_events = get_events k report
