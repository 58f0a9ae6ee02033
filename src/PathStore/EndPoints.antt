-- ===== src/PathStore/EndPoints.antt =====
-- `get_end_points` of modules/pytagsfs/pathstore/__init__.py, over PyTypesPathStore.
pub mod Fuel
use pytagsfs.Base.{
  ℕ, zero, suc, leb, if◌then◌else◌, List, [], ◌∷◌, ◌++◌, Text, Exec, ◌>>=◌, pure, raise, no_fuel,
  length, is_empty, keys,
}
use pytagsfs.Util.Paths.{join_path_abs}
use pytagsfs.PathStore.PyTypes.{PathStore, is_file, get_entries}

-- The length of the longest of the paths.
unfoldable pub longest : List Text → ℕ
longest [] = 0
longest (p ∷ ps) = let n = longest ps in if leb (length p) n then n else length p

module _ {ℓ} {M : Type ℓ} where
  -- The loop over the entries of a directory, where `below` is the recursive call.
  unfoldable pub collect :
      (Text → Exec (PathStore M) (List Text)) → Text → List Text → Exec (PathStore M) (List Text)
  unfolding join_path_abs
  collect below fake_path [] = pure []
  collect below fake_path (entry ∷ entries) = do
    end_points ← below (join_path_abs (fake_path ∷ entry ∷ []))
    rest ← collect below fake_path entries
    pure (end_points ++ rest)

  -- Each call is for a longer path, so the length of the longest directory is enough fuel.
  unfoldable pub end_points_loop : ℕ → Text → Exec (PathStore M) (List Text)
  unfolding is_file get_entries collect
  end_points_loop zero fake_path s =
      if is_file s fake_path
      then pure (fake_path ∷ []) s
      else (do
        entries ← get_entries fake_path
        if is_empty entries then pure (fake_path ∷ []) else raise no_fuel)
          s
  end_points_loop (suc fuel) fake_path s =
      if is_file s fake_path
      then pure (fake_path ∷ []) s
      else (do
        entries ← get_entries fake_path
        if is_empty entries
            then pure (fake_path ∷ [])
            else collect (end_points_loop fuel) fake_path entries)
          s

  unfoldable pub get_end_points : Text → Exec (PathStore M) (List Text)
  unfolding end_points_loop longest
  get_end_points fake_path s = end_points_loop (longest (keys s.entries)) fake_path s
