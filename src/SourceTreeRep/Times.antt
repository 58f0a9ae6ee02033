-- ===== src/SourceTreeRep/Times.antt =====
-- `utime` of a source tree representation.
use pytagsfs.Base.{
  ℕ, zero, suc, if◌then◌else◌, some, List, [], ◌∷◌, Text, Proc, ◌>>=◌, ◌>>◌, pure, raise, no_fuel,
}
use pytagsfs.PathStore.EndPoints.{get_end_points}
use pytagsfs.SourceTreeRep.{
  SourceTreeRep, Outside, outside, on_path_store, validate_fake_path, stat_key,
  cache_prune_branch_to,
}
use pytagsfs.SourceTreeRep.Queries.{get_real_path, is_file, is_empty_dir}

module _ {ℓ} {W : Type ℓ} (objects : Outside W) (root_path : Text) where
  -- for end_point in …: self.utime(end_point, times)
  unfoldable pub each_end_point :
      (Text → Proc (SourceTreeRep W)) → List Text → Proc (SourceTreeRep W)
  each_end_point below [] = pure tt
  each_end_point below (end_point ∷ end_points) = do
    below end_point
    each_end_point below end_points

  unfoldable pub utime_loop : ℕ → Text → ℕ × ℕ → Proc (SourceTreeRep W)
  unfolding is_file is_empty_dir get_real_path get_end_points each_end_point cache_prune_branch_to
  utime_loop zero fake_path times = raise no_fuel
  utime_loop (suc fuel) fake_path times =
      let below : Text → Proc (SourceTreeRep W) = λ p. utime_loop fuel p times in
      do
        validate_fake_path fake_path
        file ← is_file fake_path
        if file
            then (do
              real_path ← get_real_path fake_path
              outside (objects.set_times real_path times)
              cache_prune_branch_to fake_path (some stat_key))
            else (do
              empty_dir ← is_empty_dir fake_path
              if empty_dir then outside (objects.set_times root_path times) else (do
                end_points ← on_path_store (get_end_points fake_path)
                each_end_point below end_points))

  -- An end point is a file or lists nothing, so the calls inside make no call inside.
  unfoldable pub utime : Text → ℕ × ℕ → Proc (SourceTreeRep W)
  unfolding utime_loop
  utime fake_path times = utime_loop 2 fake_path times
