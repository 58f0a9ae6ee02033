-- ===== src/Tests/PathStore.antt =====
-- The examples of the docstring of modules/pytagsfs/pathstore/__init__.py.
use pytagsfs.Base.{
  ◌≡◌, refl, ℕ, none, some, text, Exec, Result, ok, err, fake_path_not_found, ◌>>◌, lookup,
  list_beq, insert, erase, index_of, contains, remove_first,
}
use pytagsfs.PathStore.Mapping.{real_path_at, add_real_path, remove_real_path, take_real_path}
use pytagsfs.PathStore.Mapping.DictLists.{append_value, pop_and_clean, remove_value, clean}
use pytagsfs.PathStore.Entries
use pytagsfs.PathStore.Entries.{
  last_index, add_entries_and_directories_recursive, locate_entry_by_fake_path,
}
use pytagsfs.PathStore.PyTypes.{
  refuse_duplicate, is_dir, is_empty_dir, remove_empty_directory, remove_file, PathStore, empty,
  add_file, add_directory, remove, get_real_path, get_entries, set_meta_data, get_meta_data,
  is_file,
}

run {ℓ} : {A : Type ℓ} → Exec (PathStore ℕ) A → Result A
unfolding add_file refuse_duplicate is_dir is_empty_dir is_file remove_empty_directory remove_file
    get_real_path remove get_entries set_meta_data get_meta_data add_directory real_path_at lookup
    list_beq add_entries_and_directories_recursive insert erase add_real_path append_value index_of
    remove_real_path take_real_path pop_and_clean remove_value contains remove_first clean
    locate_entry_by_fake_path last_index Entries.get_meta_data
run m = (m empty).0

stack_of_real_paths :
    run (do
      add_file (text "/foo") (text "/bar")
      add_file (text "/foo") (text "/baz")
      get_real_path (text "/foo"))
    ≡ ok (text "/baz")
unfolding run
stack_of_real_paths = refl

back_to_first :
    run (do
      add_file (text "/foo") (text "/bar")
      add_file (text "/foo") (text "/baz")
      remove (text "/foo") none
      get_real_path (text "/foo"))
    ≡ ok (text "/bar")
unfolding run
back_to_first = refl

parents_vanish :
    run (do
      add_file (text "/foo/bar") (text "/baz")
      remove (text "/foo/bar") none
      get_entries (text "/foo"))
    ≡ err fake_path_not_found
unfolding run
parents_vanish = refl

empty_directory_is_transient :
    run (do
      add_directory (text "/foo")
      add_file (text "/foo/bar/baz") (text "/boink")
      remove (text "/foo/bar/baz") none
      get_entries (text "/foo"))
    ≡ err fake_path_not_found
unfolding run
empty_directory_is_transient = refl

meta_data_stack :
    run (do
      add_file (text "/foo") (text "/bar")
      set_meta_data (text "/foo") 1
      add_file (text "/foo") (text "/baz")
      set_meta_data (text "/foo") 2
      remove (text "/foo") none
      get_meta_data (text "/foo"))
    ≡ ok 1
unfolding run
meta_data_stack = refl

-- Meta-data of the other mapping is shown after the removal of an older one.
meta_data_mixed :
    run (do
      add_file (text "/foo") (text "/bar")
      set_meta_data (text "/foo") 1
      add_file (text "/foo") (text "/baz")
      set_meta_data (text "/foo") 2
      remove (text "/foo") (some (text "/bar"))
      get_meta_data (text "/foo"))
    ≡ ok 1
unfolding run
meta_data_mixed = refl
