-- ===== src/SourceTreeRep/Validity/Calls.antt =====
-- Any calls of a source tree representation, in the order in which they come.
use pytagsfs.Base.{Bool, true, false, Option, none, some, List, [], ◌∷◌, Text}
use pytagsfs.Base.Invariants.{Keeps, Keeps-pure, Keeps-bind}
use pytagsfs.Util.Paths.{rstrip_sep}
use pytagsfs.PathStore.PyTypes.Validity.{IsValid}
use pytagsfs.SourceTreeRep.{SourceTreeRep}
use pytagsfs.SourceTreeRep.SourceFiles.{Settings, remove_source_path}
use pytagsfs.SourceTreeRep.SourceDirs.{Directory, add_source_path}
use pytagsfs.SourceTreeRep.Directories.{add_directory, remove_directory}
use pytagsfs.SourceTreeRep.Renaming.{rename_path}
use pytagsfs.SourceTreeRep.Queries.{get_entries}
use pytagsfs.SourceTreeRep.Callbacks.{add_cb, remove_cb, update_cb}
use pytagsfs.SourceTreeRep.Validity.{
  HasValidStore, validate_path-HasValidStore, add_source_file-HasValidStore,
  remove_source_file-HasValidStore,
}
use pytagsfs.SourceTreeRep.Validity.SourceDirs.{
  remove_source_dir-HasValidStore, add_source_dir-HasValidStore,
}
use pytagsfs.SourceTreeRep.Validity.Virtual.{
  add_directory-HasValidStore, remove_directory-HasValidStore, rename_path-HasValidStore,
  get_entries-HasValidStore,
}

-- A callback of the monitor, where the first argument of an added path is what a walk from it
-- finds, or a call of the filesystem.
pub data Call : Type 0 where
  call_add_cb : Directory → Text → Option Bool → Call
  call_remove_cb : Text → Option Bool → Call
  call_update_cb : Text → Option Bool → Call
  call_add_directory : Text → Call
  call_remove_directory : Text → Call
  call_rename_path : Text → Text → Call
  call_get_entries : Text → Call

module _ {ℓ} {W : Type ℓ} (settings : Settings W) where
  pub perform : Call → SourceTreeRep W → SourceTreeRep W
  perform (call_add_cb found p is_dir) s = (add_cb settings found p is_dir s).1
  perform (call_remove_cb p is_dir) s = (remove_cb settings p is_dir s).1
  perform (call_update_cb p is_dir) s = (update_cb settings p is_dir s).1
  perform (call_add_directory p) s = (add_directory settings p s).1
  perform (call_remove_directory p) s = (remove_directory p s).1
  perform (call_rename_path old new) s = (rename_path settings old new s).1
  perform (call_get_entries p) s = (get_entries p s).1

  -- The representation after any calls, of which some may raise.
  pub perform_all : List Call → SourceTreeRep W → SourceTreeRep W
  perform_all [] s = s
  perform_all (c ∷ cs) s = perform_all cs (perform c s)

  add_source_path-HasValidStore :
      (r : Text) (d : Directory) → Keeps HasValidStore (add_source_path settings r d)
  unfolding add_source_path
  add_source_path-HasValidStore r d =
      Keeps-bind _ _ (add_source_file-HasValidStore settings r)
        λ _. add_source_dir-HasValidStore settings r d

  remove_source_path-HasValidStore :
      (r : Text) → Keeps HasValidStore (remove_source_path settings r)
  remove_source_path-HasValidStore r =
      Keeps-bind _ _ (remove_source_file-HasValidStore settings r)
        λ _. remove_source_dir-HasValidStore settings r

  add_cb-HasValidStore :
      (found : Directory) (p : Text) (is_dir : Option Bool)
      → Keeps HasValidStore (add_cb settings found p is_dir)
  unfolding add_cb
  add_cb-HasValidStore found p none =
      Keeps-bind _ _ (validate_path-HasValidStore (rstrip_sep p))
        λ _. add_source_path-HasValidStore _ found
  add_cb-HasValidStore found p (some true) =
      Keeps-bind _ _ (validate_path-HasValidStore (rstrip_sep p))
        λ _. add_source_dir-HasValidStore settings _ found
  add_cb-HasValidStore found p (some false) =
      Keeps-bind _ _ (validate_path-HasValidStore (rstrip_sep p))
        λ _. add_source_file-HasValidStore settings _

  remove_cb-HasValidStore :
      (p : Text) (is_dir : Option Bool) → Keeps HasValidStore (remove_cb settings p is_dir)
  unfolding remove_cb
  remove_cb-HasValidStore p none =
      Keeps-bind _ _ (validate_path-HasValidStore (rstrip_sep p))
        λ _. remove_source_path-HasValidStore _
  remove_cb-HasValidStore p (some true) =
      Keeps-bind _ _ (validate_path-HasValidStore (rstrip_sep p))
        λ _. remove_source_dir-HasValidStore settings _
  remove_cb-HasValidStore p (some false) =
      Keeps-bind _ _ (validate_path-HasValidStore (rstrip_sep p))
        λ _. remove_source_file-HasValidStore settings _

  update_cb-HasValidStore :
      (p : Text) (is_dir : Option Bool) → Keeps HasValidStore (update_cb settings p is_dir)
  unfolding update_cb
  update_cb-HasValidStore p none =
      Keeps-bind _ _ (validate_path-HasValidStore (rstrip_sep p))
        λ _. add_source_file-HasValidStore settings _
  update_cb-HasValidStore p (some true) =
      Keeps-bind _ _ (validate_path-HasValidStore (rstrip_sep p)) λ _. Keeps-pure tt
  update_cb-HasValidStore p (some false) =
      Keeps-bind _ _ (validate_path-HasValidStore (rstrip_sep p))
        λ _. add_source_file-HasValidStore settings _

  pub perform-HasValidStore :
      (c : Call) (s : SourceTreeRep W) → HasValidStore s → HasValidStore (perform c s)
  unfolding perform
  perform-HasValidStore (call_add_cb found p is_dir) s v =
      (add_cb-HasValidStore found p is_dir).at s v
  perform-HasValidStore (call_remove_cb p is_dir) s v = (remove_cb-HasValidStore p is_dir).at s v
  perform-HasValidStore (call_update_cb p is_dir) s v = (update_cb-HasValidStore p is_dir).at s v
  perform-HasValidStore (call_add_directory p) s v = (add_directory-HasValidStore settings p).at s v
  perform-HasValidStore (call_remove_directory p) s v = (remove_directory-HasValidStore p).at s v
  perform-HasValidStore (call_rename_path old new) s v =
      (rename_path-HasValidStore settings old new).at s v
  perform-HasValidStore (call_get_entries p) s v = (get_entries-HasValidStore p).at s v

  -- Whatever callbacks the monitor makes and whatever directories and names the filesystem adds,
  -- removes, renames and lists, in any order and whether the calls return or raise, the path store
  -- stays valid: a file that the source tree shows at a virtual path is known under its real path too
  -- and the other way round, and the root directory is there.
  pub perform_all-HasValidStore :
      (cs : List Call) (s : SourceTreeRep W)
      → IsValid s.path_store
      → IsValid (perform_all cs s).path_store
  unfolding perform_all
  perform_all-HasValidStore [] s v = v
  perform_all-HasValidStore (c ∷ cs) s v =
      perform_all-HasValidStore cs (perform c s) (perform-HasValidStore c s v)
