-- ===== src/Kqueue.antt =====
-- `KqueueManager` and `KqueueSourceTreeMonitor` of modules/pytagsfs/sourcetreemon/kqueue_.py: the
-- watches of files and directories over the kqueue of BSD kernels. The kernel and the kqueue module
-- are the interface `Kernel` on a world `W`. In Processing, a generator's `yield` is a call of the body
-- of the loop that it feeds.
pub mod Watches
pub mod Tracking
pub mod Ready
pub mod Answers
pub mod Refinement
pub mod Tracked
pub mod Turns
pub mod Processing
pub mod Events
use pytagsfs.Base.{◌++◌}
use pytagsfs.Base.{ok}
use pytagsfs.Base.{map}
use pytagsfs.Base.{
  ℕ, Bool, true, false, not, ◌&&◌, ◌||◌, ◌==◌, if◌then◌else◌, Option, none, some, List, [], ◌∷◌,
  Text, Dict, lookup, insert, erase, contains, Exec, Proc, pure, raise, gets, modify, zoom, catch,
  ◌>>=◌, ◌>>◌, is_os_error, name_error, key_error, watch_exists, no_such_watch, not_a_directory,
  invalid_argument, list_eq, nat_eq, Exc, is_none,
}
use pytagsfs.Util.Paths.{path_join, path_dirname, path_split}

-- The fflags of a kevent.
pub data Note : Type 0 where
  note_write note_attrib note_extend note_delete : Note

-- A kevent of the filter EVFILT_VNODE, with the flags EV_ADD, EV_ENABLE and EV_CLEAR.
pub record Kevent : Type 0 where
  pub ident : ℕ
  pub fflags : List Note

-- FILE and DIRECTORY
pub data Kind : Type 0 where
  file directory : Kind

-- ADD, REMOVE and UPDATE
pub data Action : Type 0 where
  add remove update : Action

pub record KqueueEvent : Type 0 where
  pub path : Text
  pub type : Action
  pub is_dir : Option Bool
  pub kevent : Option Kevent

pub record Kernel {ℓ} (W : Type ℓ) : Type ℓ where
  pub os_open : Text → Exec W ℕ
  pub os_fstat_mode : ℕ → Exec W ℕ
  pub os_listdir : Text → Exec W (List Text)
  pub os_close : ℕ → Proc W
  -- kqueue.kevent(base_kevent, 0, 0) and kqueue.kevent(None, 1024, 0)
  pub kevent_add : Kevent → Proc W
  pub kevent_poll : Exec W (List Kevent)
  -- stat.S_ISDIR and stat.S_ISREG
  pub s_isdir : ℕ → Bool
  pub s_isreg : ℕ → Bool

pub record KqueueManager {ℓ} (W : Type ℓ) : Type ℓ where
  pub world : W
  pub directory_entries : Dict Text (List Text)
  pub paths : Dict ℕ Text
  pub types : Dict ℕ Kind
  pub base_kevents : Dict ℕ Kevent

-- for fd, path_ in self.paths.items(), `none` for ValueError
unfoldable pub get_fd_for_path : Text → Dict ℕ Text → Option ℕ
get_fd_for_path path [] = none
get_fd_for_path path ((fd, path_) ∷ items) =
    if path_ == path then some fd else get_fd_for_path path items

-- d.values()
unfoldable pub values : Dict ℕ Text → List Text
values [] = []
values ((fd, path) ∷ items) = path ∷ values items

-- del d[k]
unfoldable pub delete_fd {ℓ} : {V : Type ℓ} → ℕ → Proc (Dict ℕ V)
delete_fd fd d = elim (lookup fd d) [ none ↦ raise key_error d | some v ↦ (ok tt, erase fd d) ]

unfoldable pub for_each {ℓ κ} : {S : Type ℓ} {A : Type κ} → (A → Proc S) → List A → Proc S
for_each m [] = pure tt
for_each m (a ∷ items) = do m a; for_each m items

abbrev pub directory_kevent : ℕ → Kevent
directory_kevent fd = record { ident = fd; fflags = note_write ∷ [] }

abbrev pub file_kevent : ℕ → Kevent
file_kevent fd = record {
  ident = fd;
  fflags = note_write ∷ note_attrib ∷ note_extend ∷ note_delete ∷ [];
}

abbrev pub is_not_a_directory : Exc → Bool
is_not_a_directory not_a_directory = true
is_not_a_directory _ = false

module _ {ℓ} {W : Type ℓ} where
  abbrev pub new_manager : W → KqueueManager W
  new_manager w = record {
    world = w;
    directory_entries = [];
    paths = [];
    types = [];
    base_kevents = [];
  }

  -- A call of the kernel.
  abbrev pub call {κ} : {A : Type κ} → Exec W A → Exec (KqueueManager W) A
  call = zoom (λ s. s.world) (λ w s. record s { world = w })

  abbrev pub refuse : Bool → Exc → Proc (KqueueManager W)
  refuse test c s = if test then raise c s else pure tt s

  unfoldable pub refuse_watched : Text → Proc (KqueueManager W)
  refuse_watched path s = refuse (not (is_none (get_fd_for_path path s.paths))) watch_exists s

  unfoldable pub note_watch : ℕ → Text → Kind → Kevent → Proc (KqueueManager W)
  note_watch fd path kind base_kevent = modify (λ s. record s {
    paths = insert fd path s.paths;
    types = insert fd kind s.types;
    base_kevents = insert fd base_kevent s.base_kevents;
  })

  unfoldable pub note_entries : Text → List Text → Proc (KqueueManager W)
  note_entries path entries =
      modify (λ s. record s { directory_entries = insert path entries s.directory_entries })

  unfoldable pub forget : ℕ → Text → Proc (KqueueManager W)
  unfolding delete_fd
  forget fd path = do
    zoom (λ s. s.paths) (λ d s. record s { paths = d }) (delete_fd fd)
    zoom (λ s. s.types) (λ d s. record s { types = d }) (delete_fd fd)
    modify (λ s. record s { directory_entries = erase path s.directory_entries })
    zoom (λ s. s.base_kevents) (λ d s. record s { base_kevents = d }) (delete_fd fd)

  unfoldable pub is_dir : Text → KqueueManager W → Bool
  is_dir path s = not (is_none (lookup path s.directory_entries))

  -- self.directory_entries[path]
  unfoldable pub known_entries : Text → Exec (KqueueManager W) (List Text)
  known_entries path s = elim (lookup path s.directory_entries) [
    | none ↦ raise key_error s
    | some entries ↦ pure entries s
  ]

module _ {ℓ} {W : Type ℓ} (k : Kernel W) where
  -- `none` for an OSError
  unfoldable pub try_open : Text → Exec (KqueueManager W) (Option ℕ)
  try_open path = catch is_os_error (pure none) (do fd ← call (k.os_open path); pure (some fd))

  unfoldable pub try_listdir : Text → Exec (KqueueManager W) (Option (List Text))
  try_listdir path =
      catch is_os_error (pure none) (do entries ← call (k.os_listdir path); pure (some entries))

  -- The handler reads the name `errno`, which no import binds.
  unfoldable pub add_kevent : Kevent → Proc (KqueueManager W)
  add_kevent base_kevent = catch is_os_error (raise name_error) (call (k.kevent_add base_kevent))

  -- `watch_directory` after os.listdir, which closes the file where that failed.
  unfoldable pub finish_directory : Text → ℕ → Option (List Text) → Proc (KqueueManager W)
  unfolding note_watch note_entries
  finish_directory path fd none = call (k.os_close fd)
  finish_directory path fd (some entries) = do
    note_watch fd path directory (directory_kevent fd)
    note_entries path entries

  -- `watch_directory` after os.open
  unfoldable pub start_directory : Text → Option ℕ → Proc (KqueueManager W)
  unfolding add_kevent try_listdir finish_directory
  start_directory path none = pure tt
  start_directory path (some fd) = do
    mode ← call (k.os_fstat_mode fd)
    refuse (not (k.s_isdir mode)) not_a_directory
    add_kevent (directory_kevent fd)
    entries ← try_listdir path
    finish_directory path fd entries

  unfoldable pub watch_directory : Text → Proc (KqueueManager W)
  unfolding refuse_watched try_open start_directory
  watch_directory path = do refuse_watched path; fd ← try_open path; start_directory path fd

  unfoldable pub start_file : Text → Option ℕ → Proc (KqueueManager W)
  unfolding add_kevent note_watch
  start_file path none = pure tt
  start_file path (some fd) = do
    mode ← call (k.os_fstat_mode fd)
    refuse (not (k.s_isreg mode)) invalid_argument
    add_kevent (file_kevent fd)
    note_watch fd path file (file_kevent fd)

  unfoldable pub watch_file : Text → Proc (KqueueManager W)
  unfolding refuse_watched try_open start_file
  watch_file path = do refuse_watched path; fd ← try_open path; start_file path fd

  unfoldable pub watch_path : Text → Proc (KqueueManager W)
  unfolding watch_directory watch_file
  watch_path path = catch is_not_a_directory (watch_file path) (watch_directory path)

  unfoldable pub stop_watch : Text → Proc (KqueueManager W)
  unfolding forget
  stop_watch path s = elim (get_fd_for_path path s.paths) [
    | none ↦ raise no_such_watch s
    | some fd ↦ (do forget fd path; call (k.os_close fd)) s
  ]

  unfoldable pub stop : Proc (KqueueManager W)
  unfolding for_each values stop_watch
  stop s = for_each stop_watch (values s.paths) s
