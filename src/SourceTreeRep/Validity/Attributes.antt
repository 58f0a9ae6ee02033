-- ===== src/SourceTreeRep/Validity/Attributes.antt =====
-- `getattr` and `utime` keep the path store valid.
use pytagsfs.Base.{
  ℕ, zero, suc, ◌+◌, Bool, false, not, Option, none, some, List, [], ◌∷◌, ◌++◌, Text, Exec, Proc,
  ◌>>=◌, ◌>>◌, pure, catch, is_empty, keys, is_os_error, is_path_not_found, key_error, type_error,
  no_fuel,
}
use pytagsfs.Base.Invariants.{Keeps, Keeps-pure, Keeps-raise, Keeps-if, Keeps-catch, Keeps-bind}
use pytagsfs.Util.Paths.{path_join}
use pytagsfs.PathPropCache
use pytagsfs.PathStore.EndPoints.{get_end_points, longest}
use pytagsfs.PathStore.PyTypes.Readers.{get_end_points-IsValid}
use pytagsfs.SourceTreeRep.{
  SourceTreeRep, Outside, outside, on_path_store, validate_path, Stat, Cached, stat_value,
  entries_value, stat_key, cache_get, cache_put, is_key_error,
}
use pytagsfs.SourceTreeRep.Queries.{get_entries, get_real_path, is_dir, is_file, is_empty_dir}
use pytagsfs.SourceTreeRep.Attributes.{
  entries_where, get_subdirectories, times_of, as_stat, cached_stat, directory_stat, is_no_file,
  fresh_stat, getattr_with, directory_time_loop, latest, with_item, getattr,
}
use pytagsfs.SourceTreeRep.Times.{each_end_point, utime_loop, utime}
use pytagsfs.SourceTreeRep.Validity.{
  HasValidStore, on_path_store-HasValidStore, outside-HasValidStore, validate_path-HasValidStore,
  on_cache-HasValidStore, prune_branch-HasValidStore,
}
use pytagsfs.SourceTreeRep.Validity.Virtual.{
  get_real_path-HasValidStore, is_file-HasValidStore, is_dir-HasValidStore,
  get_entries-HasValidStore,
}

module _ {ℓ} {W : Type ℓ} (objects : Outside W) (root_path : Text) where
  entries_where-HasValidStore :
      (test : Text → Exec (SourceTreeRep W) Bool) (p : Text) (l : List Text)
      → ((q : Text) → Keeps HasValidStore (test q))
      → Keeps HasValidStore (entries_where objects root_path test p l)
  unfolding entries_where
  entries_where-HasValidStore test p [] h = Keeps-pure []
  entries_where-HasValidStore test p (e ∷ l) h =
      Keeps-bind (test (path_join p e)) _ (h (path_join p e)) (λ holds.
        Keeps-bind (entries_where objects root_path test p l) _
          (entries_where-HasValidStore test p l h)
          (λ rest.
            Keeps-if holds (pure (path_join p e ∷ rest)) (pure rest)
              (Keeps-pure (path_join p e ∷ rest)) (Keeps-pure rest)))

  get_subdirectories-HasValidStore :
      (p : Text) → Keeps HasValidStore (get_subdirectories objects root_path p)
  unfolding get_subdirectories
  get_subdirectories-HasValidStore p =
      Keeps-bind (get_entries p) _ (get_entries-HasValidStore p) (λ entries.
        entries_where-HasValidStore (λ q. catch is_path_not_found (pure false) (is_dir q)) p entries
          (λ q.
            Keeps-catch is_path_not_found (pure false) (is_dir q) (Keeps-pure false)
              (is_dir-HasValidStore q)))

  times_of-HasValidStore :
      (time : Text → Exec (SourceTreeRep W) ℕ) (l : List Text)
      → ((q : Text) → Keeps HasValidStore (time q))
      → Keeps HasValidStore (times_of objects root_path time l)
  unfolding times_of
  times_of-HasValidStore time [] h = Keeps-pure []
  times_of-HasValidStore time (p ∷ l) h =
      Keeps-bind (catch is_os_error (pure none) (do x ← time p; pure (some x))) _
        (Keeps-catch is_os_error (pure none) _ (Keeps-pure none)
          (Keeps-bind (time p) _ (h p) (λ x. Keeps-pure (some x))))
        (λ t.
          Keeps-bind (times_of objects root_path time l) _ (times_of-HasValidStore time l h)
            (λ rest. Keeps-pure (with_item t rest)))

  as_stat-HasValidStore : (c : Cached) → Keeps HasValidStore (as_stat objects root_path c)
  as_stat-HasValidStore (stat_value st) = Keeps-pure (some st)
  as_stat-HasValidStore (entries_value es) = Keeps-raise type_error

  cached_stat-HasValidStore : (p : Text) → Keeps HasValidStore (cached_stat objects root_path p)
  unfolding cached_stat cache_get
  cached_stat-HasValidStore p = Keeps-catch is_key_error (pure none) _ (Keeps-pure none) (
      Keeps-bind (cache_get p stat_key) _
        (on_cache-HasValidStore _ (PathPropCache.get p stat_key) (Keeps-raise key_error))
        (λ c. as_stat-HasValidStore c))

  module _ (time : (Stat → ℕ) → Text → Exec (SourceTreeRep W) ℕ)
      (h : (attr : Stat → ℕ) (p : Text) → Keeps HasValidStore (time attr p)) where
    directory_stat-HasValidStore :
        (p : Text) → Keeps HasValidStore (directory_stat objects root_path time p)
    unfolding directory_stat
    directory_stat-HasValidStore p =
        Keeps-bind (get_subdirectories objects root_path p) _ (get_subdirectories-HasValidStore p)
          (λ subdirs.
            Keeps-bind (outside (objects.lstat root_path)) _
              (outside-HasValidStore (objects.lstat root_path))
              (λ source_root.
                Keeps-bind (time (λ st. st.st_atime) p) _ (h (λ st. st.st_atime) p) (λ atime.
                  Keeps-bind (time (λ st. st.st_mtime) p) _ (h (λ st. st.st_mtime) p) (λ mtime.
                    Keeps-bind (time (λ st. st.st_ctime) p) _ (h (λ st. st.st_ctime) p)
                      (λ ctime. record { at = λ s v. v })))))

    fresh_stat-HasValidStore :
        (p : Text) → Keeps HasValidStore (fresh_stat objects root_path time p)
    unfolding fresh_stat
    fresh_stat-HasValidStore p =
        Keeps-bind (catch is_no_file (pure none) (do r ← get_real_path p; pure (some r))) _
          (Keeps-catch is_no_file (pure none) _ (Keeps-pure none) (
            Keeps-bind (get_real_path p) _ (get_real_path-HasValidStore p)
              (λ r. Keeps-pure (some r))))
          found
      where
        found :
            (o : Option Text)
            → Keeps HasValidStore (elim o as (λ _. Exec (SourceTreeRep W) Stat) [
              | some r ↦ outside (objects.lstat r)
              | none ↦ directory_stat objects root_path time p
            ])
        found (some r) = outside-HasValidStore (objects.lstat r)
        found none = directory_stat-HasValidStore p

    getattr_with-HasValidStore :
        (p : Text) → Keeps HasValidStore (getattr_with objects root_path time p)
    unfolding getattr_with cache_put
    getattr_with-HasValidStore p =
        Keeps-bind (validate_path p) _ (validate_path-HasValidStore p)
          (λ _. Keeps-bind (cached_stat objects root_path p) _ (cached_stat-HasValidStore p) found)
      where
        found :
            (o : Option Stat)
            → Keeps HasValidStore (elim o as (λ _. Exec (SourceTreeRep W) Stat) [
              | some st ↦ pure st
              | none ↦ (do
                st ← fresh_stat objects root_path time p
                cache_put p stat_key (stat_value st)
                pure st)
            ])
        found (some st) = Keeps-pure st
        found none =
            Keeps-bind (fresh_stat objects root_path time p) _ (fresh_stat-HasValidStore p) (λ st.
              Keeps-bind (cache_put p stat_key (stat_value st)) _
                (on_cache-HasValidStore _ (PathPropCache.put p stat_key (stat_value st))
                  (Keeps-pure tt))
                (λ _. Keeps-pure st))

  directory_time-HasValidStore :
      (fuel : ℕ) (attr : Stat → ℕ) (p : Text)
      → Keeps HasValidStore (directory_time_loop objects root_path fuel attr p)
  unfolding directory_time_loop
  directory_time-HasValidStore zero attr p = Keeps-raise no_fuel
  directory_time-HasValidStore (suc fuel) attr p =
      let time = directory_time_loop objects root_path fuel in
      Keeps-bind (get_entries p) _ (get_entries-HasValidStore p) (λ entries.
        Keeps-bind (entries_where objects root_path is_dir p entries) _
          (entries_where-HasValidStore is_dir p entries is_dir-HasValidStore)
          (λ subdirs.
            Keeps-bind (entries_where objects root_path is_file p entries) _
              (entries_where-HasValidStore is_file p entries is_file-HasValidStore)
              (λ files.
                Keeps-bind (times_of objects root_path (time attr) subdirs) _
                  (times_of-HasValidStore (time attr) subdirs
                    (directory_time-HasValidStore fuel attr))
                  (λ subdir_times.
                    Keeps-bind
                      (times_of objects root_path
                        (λ q. do st ← getattr_with objects root_path time q; pure (attr st)) files)
                      _
                      (times_of-HasValidStore _ files (λ q.
                        Keeps-bind (getattr_with objects root_path time q) _
                          (getattr_with-HasValidStore time (directory_time-HasValidStore fuel) q)
                          (λ st. Keeps-pure (attr st))))
                      (λ file_times. Keeps-pure (latest (subdir_times ++ file_times)))))))

  pub getattr-HasValidStore : (p : Text) → Keeps HasValidStore (getattr objects root_path p)
  unfolding getattr
  getattr-HasValidStore p = record {
    at = λ s v.
        let fuel = longest (keys s.path_store.entries) + 1 in
        (getattr_with-HasValidStore (directory_time_loop objects root_path fuel)
            (directory_time-HasValidStore fuel) p).at
          s v;
  }

  is_empty_dir-HasValidStore : (p : Text) → Keeps HasValidStore (is_empty_dir {W = W} p)
  unfolding is_empty_dir
  is_empty_dir-HasValidStore p = Keeps-bind (is_dir p) _ (is_dir-HasValidStore p) (λ dir.
      Keeps-if (not dir) _ _ (Keeps-pure false) (
        Keeps-bind (get_entries p) _ (get_entries-HasValidStore p)
          (λ entries. Keeps-pure (is_empty entries))))

  each_end_point-HasValidStore :
      (below : Text → Proc (SourceTreeRep W)) (l : List Text)
      → ((q : Text) → Keeps HasValidStore (below q))
      → Keeps HasValidStore (each_end_point objects root_path below l)
  unfolding each_end_point
  each_end_point-HasValidStore below [] h = Keeps-pure tt
  each_end_point-HasValidStore below (p ∷ l) h =
      Keeps-bind (below p) _ (h p) (λ _. each_end_point-HasValidStore below l h)

  utime_loop-HasValidStore :
      (fuel : ℕ) (p : Text) (times : ℕ × ℕ)
      → Keeps HasValidStore (utime_loop objects root_path fuel p times)
  unfolding utime_loop
  utime_loop-HasValidStore zero p times = Keeps-raise no_fuel
  utime_loop-HasValidStore (suc fuel) p times =
      Keeps-bind (validate_path p) _ (validate_path-HasValidStore p) (λ _.
        Keeps-bind (is_file p) _ (is_file-HasValidStore p) (λ file.
          Keeps-if file _ _
            (Keeps-bind (get_real_path p) _ (get_real_path-HasValidStore p) (λ r.
              Keeps-bind (outside (objects.set_times r times)) _
                (outside-HasValidStore (objects.set_times r times))
                (λ _. prune_branch-HasValidStore p (some stat_key))))
            (Keeps-bind (is_empty_dir p) _ (is_empty_dir-HasValidStore p) (λ empty_dir.
              Keeps-if empty_dir _ _ (outside-HasValidStore (objects.set_times root_path times)) (
                Keeps-bind (on_path_store (get_end_points p)) _
                  (on_path_store-HasValidStore (get_end_points p) (get_end_points-IsValid p))
                  (λ l.
                    each_end_point-HasValidStore _ l
                      (λ q. utime_loop-HasValidStore fuel q times)))))))

  pub utime-HasValidStore :
      (p : Text) (times : ℕ × ℕ) → Keeps HasValidStore (utime objects root_path p times)
  unfolding utime
  utime-HasValidStore p times = utime_loop-HasValidStore 2 p times
