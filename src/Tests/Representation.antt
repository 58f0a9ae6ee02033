-- ===== src/Tests/Representation.antt =====
-- The source tree representation at a source tree with one file and two tags.
use pytagsfs.Base.{
  ◌+◌, ℕ, ◌≡◌, refl, true, false, none, some, List, [], ◌∷◌, Text, text, ok, err, key_error, pure,
  lookup, contains, list_beq, count, if◌then◌else◌, list_eq, nat_eq,
}
use pytagsfs.Util.Paths.{join_path_abs, split_path}
use pytagsfs.PathStore.PyTypes.{empty}
use pytagsfs.PathStore.Mapping.DictLists.Laws.{HasNoEmpty}
use pytagsfs.PathStore.PyTypes.Validity.{IsValid}
use pytagsfs.PathPropCache.{put}
use pytagsfs.Values.{Values}
use pytagsfs.Patterns.{Nodes, no_nodes, cons, short_key, text_node}
use pytagsfs.Patterns.Filling.{CaseMap, Substitutions, fill, fill_node, fill_variable, modify}
use pytagsfs.Patterns.Splitting.{Re}
use pytagsfs.SourceTreeRep.{
  SourceTreeRep, Outside, Stat, entries_value, entries_key, cache_get, cache_prune_branch_to,
}
use pytagsfs.SourceTreeRep.Filling.{fill_path, fill_parts, checked_part}
use pytagsfs.SourceTreeRep.SourceFiles.{Settings}
use pytagsfs.SourceTreeRep.SourceDirs.{directory, no_directories}
use pytagsfs.SourceTreeRep.FilledPaths.{AreParts, split_path-fill_path}
use pytagsfs.SourceTreeRep.Pruning.{branch, is_pruned_by, cache_get-prune_branch}
use pytagsfs.SourceTreeRep.Validity.Calls.{
  Call, call_add_cb, call_remove_cb, call_update_cb, call_rename_path, call_get_entries,
}

-- A world that only counts the writes of tags.
abbrev pub World : Type 0
World = ℕ

abbrev pub no_stat : Stat
no_stat = record {
  st_mode = 0;
  st_ino = 0;
  st_dev = 0;
  st_nlink = 1;
  st_uid = 0;
  st_gid = 0;
  st_size = 0;
  st_atime = 5;
  st_mtime = 6;
  st_ctime = 7;
}

abbrev tags : Values
tags = (text "a", text "Eno" ∷ text "Byrne" ∷ []) ∷ (text "t", text "Help" ∷ []) ∷ []

abbrev pub objects : Outside World
objects = record {
  isreadable = λ p. pure true;
  issymlink = λ p. pure false;
  lstat = λ p. pure no_stat;
  set_times = λ p times. pure tt;
  meta_store_get = λ p. pure tags;
  meta_store_set = λ p values w. (ok tt, w + 1);
  monitor_add_source_dir = λ p. pure tt;
  monitor_remove_source_dir = λ p. pure tt;
  monitor_add_source_file = λ p. pure tt;
  monitor_remove_source_file = λ p. pure tt;
}

abbrev artist_pattern : Nodes
artist_pattern = cons (short_key none b'a') no_nodes

abbrev title_pattern : Nodes
title_pattern = cons (short_key none b't') (cons (text_node (text ".ogg")) no_nodes)

abbrev pub case_map : CaseMap
case_map = record { to_lower = λ s. s; to_upper = λ s. s; to_title = λ s. s }

-- A `re` module in which every expression matches and names no group.
abbrev pub re : Re
re = record { compiles = λ s. true; match_groups = λ s t. some [] }

abbrev pub settings : Settings World
settings = record {
  substitution_patterns = artist_pattern ∷ title_pattern ∷ [];
  filters = [];
  relative_path = λ p. ok p;
  case_map = case_map;
  re = re;
  search = λ e s. true;
  objects = objects;
}

abbrev pub start : SourceTreeRep World
start = record { path_store = empty; cache = some []; world = 0 }

empty-HasNoEmpty : HasNoEmpty []
unfolding lookup
empty-HasNoEmpty = record { at_key = λ k l e. cc }

pub start-IsValid : IsValid start.path_store
unfolding lookup list_beq count
start-IsValid = record {
  mapping = record {
    forward_full = empty-HasNoEmpty;
    reverse_full = empty-HasNoEmpty;
    paired = λ f r. refl;
  };
  rooted = refl;
}

abbrev pub song : Text
song = text "/song"

abbrev pub calls : List Call
calls =
    call_add_cb (directory no_directories (text "song" ∷ [])) (text "/src") (some true)
    ∷ call_get_entries (text "/")
    ∷ call_rename_path (text "/Eno") (text "/Cale")
    ∷ call_update_cb song none
    ∷ call_remove_cb song (some false)
    ∷ []

abbrev one_title : Substitutions
one_title = (text "a", text "Eno") ∷ (text "t", text "Help") ∷ []

one_title_path :
    fill_path case_map (artist_pattern ∷ title_pattern ∷ []) one_title ≡ ok (text "/Eno/Help.ogg")
unfolding fill_path fill_parts checked_part fill fill_node fill_variable modify lookup list_beq
    contains join_path_abs
one_title_path = refl

split_path-fill_path_example :
    (parts : List Text) × (split_path (text "/Eno/Help.ogg") ≡ ok parts)
    × AreParts case_map one_title (artist_pattern ∷ title_pattern ∷ []) parts
split_path-fill_path_example =
    split_path-fill_path case_map one_title artist_pattern (title_pattern ∷ [])
      (text "/Eno/Help.ogg") one_title_path

abbrev artist_parts : List Text
artist_parts = text "Eno" ∷ text "Help" ∷ []

abbrev listed : SourceTreeRep World
listed = record start {
  cache = some (put (text "/Eno") entries_key (entries_value (text "Help" ∷ [])) []).1;
}

cache_get-prune_branch_example :
    ((cache_prune_branch_to (join_path_abs artist_parts) none listed).0 ≡ ok tt)
    × ((cache_prune_branch_to (join_path_abs artist_parts) none listed).1.path_store
        ≡ listed.path_store)
    × ((q j : Text)
        → (cache_get q j (cache_prune_branch_to (join_path_abs artist_parts) none listed).1).0 ≡ (
            if is_pruned_by (branch artist_parts) none q j
            then err key_error
            else (cache_get q j listed).0))
unfolding contains list_beq
cache_get-prune_branch_example = cache_get-prune_branch artist_parts none listed (refl, (refl, tt))
