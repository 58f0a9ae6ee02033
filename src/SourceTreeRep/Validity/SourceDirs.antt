-- ===== src/SourceTreeRep/Validity/SourceDirs.antt =====
-- The path store stays valid through source directories.
use pytagsfs.Base.{
  true, false, List, [], ◌∷◌, Text, Proc, pure, is_path_not_found, is_empty, list_eq, nat_eq,
}
use pytagsfs.Base.Invariants.{Keeps, Keeps-pure, Keeps-if, Keeps-catch, Keeps-bind}
use pytagsfs.Util.Paths.{path_join}
use pytagsfs.PathStore.PyTypes.Readers.{get_real_subpaths-IsValid}
use pytagsfs.SourceTreeRep.{SourceTreeRep, outside}
use pytagsfs.SourceTreeRep.SourceFiles.{
  Settings, is_refused_watch, is_missing_watch, remove_source_file, add_source_file,
  remove_source_files, remove_source_dir, add_source_files,
}
use pytagsfs.SourceTreeRep.SourceDirs.{
  Directory, directory, Directories, no_directories, directory_before, enter_source_dir, one_round,
  add_source_dir, add_source_dirs, walk_on,
}
use pytagsfs.SourceTreeRep.Validity.{
  HasValidStore, on_path_store-HasValidStore, outside-HasValidStore,
  remove_source_file-HasValidStore, add_source_file-HasValidStore,
}

module _ {ℓ} {W : Type ℓ} (settings : Settings W) where
  remove_source_files-HasValidStore :
      (l : List Text) → Keeps HasValidStore (remove_source_files settings l)
  unfolding remove_source_files
  remove_source_files-HasValidStore [] = Keeps-pure tt
  remove_source_files-HasValidStore (r ∷ l) =
      Keeps-bind (remove_source_file settings r) _ (remove_source_file-HasValidStore settings r)
        λ _. remove_source_files-HasValidStore l

  pub remove_source_dir-HasValidStore :
      (r : Text) → Keeps HasValidStore (remove_source_dir settings r)
  unfolding remove_source_dir
  remove_source_dir-HasValidStore r =
      Keeps-bind _ _ (on_path_store-HasValidStore _ (get_real_subpaths-IsValid r)) λ l.
        Keeps-bind (remove_source_files settings l) _ (remove_source_files-HasValidStore l)
          λ _. Keeps-catch is_missing_watch (pure tt) _ (Keeps-pure tt) (outside-HasValidStore _)

  add_source_files-HasValidStore :
      (d : Text) (l : List Text) → Keeps HasValidStore (add_source_files settings d l)
  unfolding add_source_files
  add_source_files-HasValidStore d [] = Keeps-pure tt
  add_source_files-HasValidStore d (f ∷ l) =
      Keeps-bind (add_source_file settings (path_join d f)) _
        (add_source_file-HasValidStore settings (path_join d f))
        λ _. add_source_files-HasValidStore d l

  enter_source_dir-HasValidStore : (r : Text) → Keeps HasValidStore (enter_source_dir settings r)
  unfolding enter_source_dir
  enter_source_dir-HasValidStore r =
      Keeps-bind _ _
        (Keeps-catch is_path_not_found (pure tt) _ (Keeps-pure tt)
          (remove_source_dir-HasValidStore r))
        λ _. Keeps-catch is_refused_watch (pure false) _ (Keeps-pure false) (
          Keeps-bind (outside (settings.objects.monitor_add_source_dir r)) _
            (outside-HasValidStore _) λ _. Keeps-pure true)

  one_round-HasValidStore :
      (d : Text) (added : Proc (SourceTreeRep W)) (files : List Text)
      (next : Proc (SourceTreeRep W))
      → Keeps HasValidStore added
      → Keeps HasValidStore next
      → Keeps HasValidStore (one_round settings d added files next)
  unfolding one_round
  one_round-HasValidStore d added files next h k = Keeps-bind added _ h λ _.
      Keeps-bind (add_source_files settings d files) _ (add_source_files-HasValidStore d files)
        λ _. Keeps-if (is_empty files) next (pure tt) k (Keeps-pure tt)

  mutual
    unfolding add_source_dir

    pub add_source_dir-HasValidStore :
        (r : Text) (d : Directory) → Keeps HasValidStore (add_source_dir settings r d)
    add_source_dir-HasValidStore r (directory ds files) =
        Keeps-bind (enter_source_dir settings r) _ (enter_source_dir-HasValidStore r) λ watched.
          Keeps-if watched _ _
            (one_round-HasValidStore r _ files _ (add_source_dirs-HasValidStore r ds)
              (walk_on-HasValidStore r ds))
            (Keeps-pure tt)

    add_source_dirs-HasValidStore :
        (r : Text) (ds : Directories) → Keeps HasValidStore (add_source_dirs settings r ds)
    add_source_dirs-HasValidStore r no_directories = Keeps-pure tt
    add_source_dirs-HasValidStore r (directory_before name link d ds) =
        Keeps-bind _ _ (add_source_dir-HasValidStore (path_join r name) d)
          λ _. add_source_dirs-HasValidStore r ds

    walk_on-HasValidStore :
        (r : Text) (ds : Directories) → Keeps HasValidStore (walk_on settings r ds)
    walk_on-HasValidStore r no_directories = Keeps-pure tt
    walk_on-HasValidStore r (directory_before name link (directory ds files) no_directories) =
        let p = path_join r name in
        Keeps-if link _ _ (Keeps-pure tt) (
          one_round-HasValidStore p _ files _ (add_source_dirs-HasValidStore p ds)
            (walk_on-HasValidStore p ds))
    walk_on-HasValidStore r (directory_before name link d (directory_before name_2 link_2 d_2 ds)) =
        Keeps-if link _ _ (walk_on-HasValidStore r (directory_before name_2 link_2 d_2 ds))
          (Keeps-pure tt)
