-- ===== src/Tests/EndPoints.antt =====
-- The end points of a store with one empty directory.
use pytagsfs.Base.{
  ℕ, ◌≡◌, ◌≢◌, refl, List, [], ◌∷◌, Text, text, ok, err, no_fuel, All, lookup, list_beq, contains,
  remove_first, keys,
}
use pytagsfs.Util.Paths.{
  root, starts_with_sep, join_path_abs, path_join, path_join_all, ends_with_sep,
}
use pytagsfs.PathStore.Mapping
use pytagsfs.PathStore.Mapping.{real_path_at}
use pytagsfs.PathStore.Entries
use pytagsfs.PathStore.Entries.{new_entry}
use pytagsfs.PathStore.PyTypes.{PathStore, is_file, is_dir, get_entries}
use pytagsfs.PathStore.EndPoints.{get_end_points, longest, end_points_loop, collect}
use pytagsfs.PathStore.EndPoints.Fuel.{HasParts, IsEndPoint, All-HasParts, get_end_points_lem}

abbrev one_directory : PathStore ℕ
one_directory = record {
  path_mapping = Mapping.empty;
  entries = (root, new_entry (text "a") ∷ []) ∷ (text "/a", []) ∷ [];
}

one_directory-HasParts : HasParts one_directory
unfolding contains
one_directory-HasParts = All-HasParts one_directory ((refl, tt), (tt, tt))

its_end_point : (get_end_points root one_directory).0 ≡ ok (text "/a" ∷ [])
unfolding get_end_points longest end_points_loop collect is_file is_dir get_entries real_path_at
    lookup list_beq keys join_path_abs path_join path_join_all starts_with_sep ends_with_sep
    Entries.get_entries remove_first
its_end_point = refl

get_end_points_lem_example :
    ((get_end_points root one_directory).1 ≡ one_directory)
    × ((get_end_points root one_directory).0 ≢ err no_fuel)
    × ((l : List Text)
        → (get_end_points root one_directory).0 ≡ ok l
        → All (IsEndPoint one_directory) l)
unfolding starts_with_sep
get_end_points_lem_example = get_end_points_lem root one_directory refl one_directory-HasParts
