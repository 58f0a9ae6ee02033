-- ===== src/Tests/Monitors.antt =====
-- The kqueue monitor over a kernel whose state is the next file descriptor.
use pytagsfs.Base.{
  ℕ, ◌≡◌, refl, ◌+◌, true, false, ltb, List, [], ◌∷◌, Text, text, pure, ok, nat_eq, list_eq,
  list_beq, arith, ◌==◌, insert,
}
use pytagsfs.Util.Paths.{starts_with_sep}
use pytagsfs.Kqueue.Processing.{directory_events}
use pytagsfs.Kqueue.Refinement.{
  Call, to_watch_directory, to_watch_path, to_stop_watch, Refines, new_manager-Refines, perform,
}
use pytagsfs.Kqueue.Turns.{Turn, make_call, take_events, stop_all, take_turns, take_turns-IsTracked}
use pytagsfs.Kqueue.Watches.{KernelLaws, has_watch, IsTracked}
use pytagsfs.Kqueue.{
  Kernel, Kevent, note_write, get_fd_for_path, watch_directory, new_manager, KqueueEvent,
  KqueueManager,
}
use pytagsfs.Kqueue.Events.{replay, mentions, lists, replay-directory_events}

-- A kernel in which every path is a directory of one entry, and that closes nothing.
abbrev one_entry : Kernel ℕ
one_entry = record {
  os_open = λ p w. (ok w, w + 1);
  os_fstat_mode = λ fd. pure 16384;
  os_listdir = λ p. pure (text "a" ∷ []);
  os_close = λ fd. pure tt;
  kevent_add = λ e. pure tt;
  kevent_poll = pure [];
  s_isdir = λ mode. mode == 16384;
  s_isreg = λ mode. mode == 32768;
}

one_entry-KernelLaws : KernelLaws one_entry
one_entry-KernelLaws = record {
  is_open = λ w fd. ltb fd w;
  fresh = λ p w fd e. ground arith;
  opens = λ p w fd e. ground arith;
  open_keeps = λ p w g h. ground arith;
  fstat_keeps = λ fd w g h. h;
  listdir_keeps = λ p w g h. h;
  add_keeps = λ e w g h. h;
  poll_keeps = λ w g h. h;
  close_keeps = λ fd w g n h. h;
}

abbrev some_calls : List Call
some_calls =
    to_watch_directory (text "/m")
    ∷ to_watch_path (text "/m")
    ∷ to_stop_watch (text "/m")
    ∷ to_stop_watch (text "/n")
    ∷ []

watched_once :
    has_watch
      (text "/m")
      (perform one_entry (to_watch_directory (text "/m")) (new_manager 3)).1.paths
    ≡ true
unfolding get_fd_for_path watch_directory insert list_beq
watched_once = refl

new_manager-Refines_example : Refines one_entry some_calls (new_manager 3)
new_manager-Refines_example = new_manager-Refines one_entry one_entry-KernelLaws 3 some_calls

abbrev written : Kevent
written = record { ident = 3; fflags = note_write ∷ [] }

abbrev old_listing : List Text
old_listing = text "a" ∷ text "b" ∷ []

abbrev new_listing : List Text
new_listing = text "b" ∷ text "c" ∷ []

replay-directory_events_example :
    (replay
        (directory_events (text "/m") written old_listing new_listing)
        (lists (text "/m") old_listing)
        (text "/m/c")
      ≡ lists (text "/m") new_listing (text "/m/c"))
    × (lists (text "/m") old_listing (text "/m/c") ≡ lists (text "/m") new_listing (text "/m/c")
        → mentions (directory_events (text "/m") written old_listing new_listing) (text "/m/c")
          ≡ false)
unfolding starts_with_sep
replay-directory_events_example =
    replay-directory_events (text "/m") written old_listing new_listing (text "/m/c")
      (refl, (refl, tt)) (refl, (refl, tt))

-- Turns in which an added path is watched by the callback.
abbrev some_turns : List Turn
some_turns = make_call (to_watch_directory (text "/m")) ∷ take_events ∷ stop_all ∷ []

abbrev watch_added : KqueueEvent → KqueueManager ℕ → List Call
watch_added event s = to_watch_path event.path ∷ []

take_turns-IsTracked_example :
    IsTracked one_entry-KernelLaws.is_open
      (take_turns one_entry watch_added (λ event s. ok tt) some_turns (new_manager 3))
take_turns-IsTracked_example =
    take_turns-IsTracked one_entry one_entry-KernelLaws watch_added (λ event s. ok tt) 3 some_turns
