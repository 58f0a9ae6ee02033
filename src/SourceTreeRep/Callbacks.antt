-- ===== src/SourceTreeRep/Callbacks.antt =====
-- The callbacks that a monitor makes, and the representation of
-- modules/pytagsfs/sourcetreerep/pollinline.py, which processes the monitor's events after
-- `populate`. Its `getattr`, which processes them before each stat result, is left out.
use pytagsfs.Base.{Bool, true, false, Option, none, some, Text, Exec, Proc, ◌>>=◌, ◌>>◌, pure}
use pytagsfs.Util.Paths.{rstrip_sep}
use pytagsfs.SourceTreeRep.{SourceTreeRep, validate_source_path}
use pytagsfs.SourceTreeRep.SourceFiles.{
  Settings, add_source_file, update_source_file, remove_source_file, remove_source_dir,
  remove_source_path,
}
use pytagsfs.SourceTreeRep.SourceDirs.{Directory, add_source_dir, add_source_path}

module _ {ℓ} {W : Type ℓ} (settings : Settings W) where
  -- `add_cb`, where `found` is what a walk from the path finds.
  unfoldable pub add_cb : Directory → Text → Option Bool → Proc (SourceTreeRep W)
  unfolding rstrip_sep add_source_path add_source_dir add_source_file
  add_cb found event_path is_dir = do
    validate_source_path (rstrip_sep event_path)
    elim is_dir [
      | none ↦ add_source_path settings (rstrip_sep event_path) found
      | some true ↦ add_source_dir settings (rstrip_sep event_path) found
      | some false ↦ add_source_file settings (rstrip_sep event_path)
    ]

  unfoldable pub remove_cb : Text → Option Bool → Proc (SourceTreeRep W)
  unfolding rstrip_sep remove_source_dir remove_source_file
  remove_cb event_path is_dir = do
    validate_source_path (rstrip_sep event_path)
    elim is_dir [
      | none ↦ remove_source_path settings (rstrip_sep event_path)
      | some true ↦ remove_source_dir settings (rstrip_sep event_path)
      | some false ↦ remove_source_file settings (rstrip_sep event_path)
    ]

  unfoldable pub update_cb : Text → Option Bool → Proc (SourceTreeRep W)
  unfolding rstrip_sep add_source_file
  update_cb event_path is_dir = do
    validate_source_path (rstrip_sep event_path)
    elim is_dir [
      | none ↦ update_source_file settings (rstrip_sep event_path)
      | some true ↦ pure tt
      | some false ↦ update_source_file settings (rstrip_sep event_path)
    ]

  unfoldable pub populate : Text → Directory → Proc (SourceTreeRep W)
  unfolding add_source_dir
  populate root_path found = add_source_dir settings root_path found

  module _ (process_events : Proc (SourceTreeRep W)) where
    -- process_events_after_calling
    abbrev pub after_calling {κ} :
        {A : Type κ} → Exec (SourceTreeRep W) A → Exec (SourceTreeRep W) A
    after_calling wrapped = do retval ← wrapped; process_events; pure retval

    unfoldable pub populate_in_line : Text → Directory → Proc (SourceTreeRep W)
    unfolding populate
    populate_in_line root_path found = after_calling (populate root_path found)
