-- ===== src/SourceTreeRep/SourceDirs.antt =====
-- Source directories of a source tree representation. A walk of the source tree finds a finite tree of
-- directories, which does not change while it goes on: `Directory` is what `SourceTree.walk` yields.
use pytagsfs.Base.{
  Bool, true, false, if◌then◌else◌, List, Text, Exec, Proc, ◌>>=◌, ◌>>◌, pure, catch,
  is_path_not_found, is_empty,
}
use pytagsfs.Util.Paths.{path_join}
use pytagsfs.SourceTreeRep.{SourceTreeRep, outside}
use pytagsfs.SourceTreeRep.SourceFiles.{
  Settings, is_refused_watch, add_source_file, add_source_files, remove_source_dir,
}

mutual
  -- The names of the subdirectories, with what a walk that starts there finds, and of the files.
  pub data Directory : Type 0 where
    directory : Directories → List Text → Directory

  -- A walk from above does not go into a subdirectory that is a symbolic link.
  pub data Directories : Type 0 where
    no_directories : Directories
    directory_before : (name : Text) (is_link : Bool) → Directory → Directories → Directories

module _ {ℓ} {W : Type ℓ} (settings : Settings W) where
  -- What `add_source_dir` does before its walk, and whether it goes on to it.
  unfoldable pub enter_source_dir : Text → Exec (SourceTreeRep W) Bool
  unfolding remove_source_dir
  enter_source_dir real_path = do
    catch is_path_not_found (pure tt) (remove_source_dir settings real_path)
    catch is_refused_watch (pure false)
        (do outside (settings.objects.monitor_add_source_dir real_path); pure true)

  -- The body of the loop over the walk, from what its first inner loop does, and the rounds after it.
  unfoldable pub one_round :
      Text → Proc (SourceTreeRep W) → List Text → Proc (SourceTreeRep W) → Proc (SourceTreeRep W)
  unfolding add_source_files
  one_round dirpath dirs_added filenames next_round = do
    dirs_added
    add_source_files settings dirpath filenames
    if is_empty filenames then next_round else pure tt

  unfoldable mutual
    unfolding enter_source_dir one_round

    pub add_source_dir : Text → Directory → Proc (SourceTreeRep W)
    add_source_dir real_path (directory dirs filenames) =
        let entries =
          one_round real_path (add_source_dirs real_path dirs) filenames (walk_on real_path dirs) in
        do watched ← enter_source_dir real_path; if watched then entries else pure tt

    -- The body of the loop over the walk, and the rounds after it.
    pub add_source_dirs : Text → Directories → Proc (SourceTreeRep W)
    add_source_dirs dirpath no_directories = pure tt
    add_source_dirs dirpath (directory_before dirname is_link d ds) = do
      add_source_dir (path_join dirpath dirname) d
      add_source_dirs dirpath ds

    -- The loop has put the path of the last entry into `real_path`, so it does not break where the
    -- walk comes next to this entry: a subdirectory, where no file and no other subdirectory that is
    -- not a link stands beside it.
    pub walk_on : Text → Directories → Proc (SourceTreeRep W)
    walk_on dirpath no_directories = pure tt
    walk_on dirpath (directory_before dirname is_link (directory dirs filenames) no_directories) =
        let path = path_join dirpath dirname in
        let entries = one_round path (add_source_dirs path dirs) filenames (walk_on path dirs) in
        if is_link then pure tt else entries
    walk_on dirpath
          (directory_before dirname is_link d (directory_before dirname_2 is_link_2 d_2 ds)) =
        let rest = walk_on dirpath (directory_before dirname_2 is_link_2 d_2 ds) in
        if is_link then rest else pure tt

  unfoldable pub add_source_path : Text → Directory → Proc (SourceTreeRep W)
  unfolding add_source_file add_source_dir
  add_source_path real_path d = do add_source_file settings real_path; add_source_dir real_path d
