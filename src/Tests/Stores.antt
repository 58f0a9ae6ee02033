-- ===== src/Tests/Stores.antt =====
-- The theorems on the path store, at stores that a few calls make.
use pytagsfs.Util.Unique.{unique}
use pytagsfs.Util.Unique.Laws.{count-unique}
use pytagsfs.Util.Paths.{ends_with_sep, split_path}
use pytagsfs.PathStore.Entries.Ancestors.{steps, split_path-ancestors}
use pytagsfs.Base.{
  list_eq, nat_eq, count, reverse, value_error, if◌then◌else◌, ◌≡◌, refl, ℕ, none, some, List, [],
  ◌∷◌, Text, text, ok, err, key_error, lookup, list_beq, insert, contains,
}
use pytagsfs.PathStore.Mapping
use pytagsfs.PathStore.Mapping.{
  PathMapping, real_path_at, add_real_path, remove_real_path, take_real_path,
}
use pytagsfs.PathStore.Mapping.DictLists.{append_value, pop_and_clean}
use pytagsfs.PathStore.Mapping.DictLists.Laws.{HasNoEmpty}
use pytagsfs.PathStore.Mapping.Consistency.{
  IsConsistent, add_real_path-IsConsistent, remove_real_path_raised, remove_real_path-add_real_path,
}
use pytagsfs.PathStore.Entries.{
  EntryStore, new_store, ancestors, add_entries_and_directories_recursive,
  remove_entries_and_directories_recursive,
}
use pytagsfs.PathStore.Entries.Restore.{IsOpenFor, restore}
use pytagsfs.PathStore.PyTypes.{PathStore, empty, is_dir, get_real_path, add_file, remove}
use pytagsfs.PathStore.PyTypes.FileStack.{remove-add_file}
use pytagsfs.PathStore.PyTypes.Validity.{
  IsValid, Call, call_add_file, call_rename, call_remove, perform_all, perform_all-IsValid,
}

empty-HasNoEmpty : HasNoEmpty []
unfolding lookup
empty-HasNoEmpty = record { at_key = λ k l e. cc }

empty-IsConsistent : IsConsistent Mapping.empty
unfolding lookup count
empty-IsConsistent = record {
  forward_full = empty-HasNoEmpty;
  reverse_full = empty-HasNoEmpty;
  paired = λ f r. refl;
}

empty-IsValid : IsValid (empty {M = ℕ})
unfolding lookup list_beq
empty-IsValid = record { mapping = empty-IsConsistent; rooted = refl }

abbrev foo : Text
foo = text "/foo"

abbrev bar : Text
bar = text "/bar"

abbrev one_pair : PathMapping
one_pair = (add_real_path foo bar Mapping.empty).1

one_pair-IsConsistent : IsConsistent one_pair
one_pair-IsConsistent = add_real_path-IsConsistent foo bar Mapping.empty empty-IsConsistent

remove_real_path_raised_example : (remove_real_path bar none one_pair).1 ≡ one_pair
unfolding remove_real_path take_real_path pop_and_clean add_real_path append_value lookup insert
    list_beq
remove_real_path_raised_example =
    remove_real_path_raised bar none one_pair {c = key_error} one_pair-IsConsistent refl

remove_real_path-add_real_path_example :
    (real_path_at foo (add_real_path foo bar Mapping.empty).1 ≡ some bar)
    × ((remove_real_path foo none (add_real_path foo bar Mapping.empty).1).0 ≡ ok tt)
    × ((j : Text)
        → lookup j
            (remove_real_path foo none (add_real_path foo bar Mapping.empty).1).1.forward_mapping
          ≡ lookup j Mapping.empty.forward_mapping)
remove_real_path-add_real_path_example =
    remove_real_path-add_real_path foo bar Mapping.empty empty-IsConsistent

abbrev deep : Text
deep = text "/foo/a"

deep-IsOpenFor : IsOpenFor (new_store {M = ℕ}) deep
unfolding ancestors lookup list_beq
deep-IsOpenFor = (refl, (refl, tt))

restore_example :
    let s : EntryStore ℕ = new_store in
    let t = add_entries_and_directories_recursive deep s in
    let u = remove_entries_and_directories_recursive deep t.1 in
    (t.0 ≡ ok tt) × (u.0 ≡ ok tt) × ((x : Text) → lookup x u.1 ≡ lookup x s)
unfolding ends_with_sep
restore_example = restore deep new_store refl deep-IsOpenFor

remove-add_file_example :
    let s : PathStore ℕ = empty in
    let t = add_file deep bar s in
    let u = remove deep none t.1 in
    (t.0 ≡ ok tt)
    × (get_real_path deep t.1 ≡ (ok bar, t.1))
    × (u.0 ≡ ok tt)
    × ((x : Text)
        → lookup x u.1.path_mapping.forward_mapping ≡ lookup x s.path_mapping.forward_mapping)
    × ((d : Text) → lookup d u.1.entries ≡ lookup d s.entries)
unfolding ends_with_sep is_dir lookup list_beq real_path_at
remove-add_file_example =
    remove-add_file deep bar empty empty-IsConsistent refl (λ e. cc) refl deep-IsOpenFor

abbrev calls : List (Call ℕ)
calls = call_add_file deep bar ∷ call_rename deep foo ∷ call_remove deep none ∷ []

perform_all-IsValid_example : IsValid (perform_all calls empty)
perform_all-IsValid_example = perform_all-IsValid calls empty empty-IsValid

count-unique_example : count {A = ℕ} 2 (unique (1 ∷ 2 ∷ 2 ∷ [])) ≡ 1
unfolding contains
count-unique_example = count-unique 2 (1 ∷ 2 ∷ 2 ∷ [])

split_path-ancestors_example :
    split_path deep
    ≡ (if ends_with_sep deep then err value_error else ok (reverse (steps (ancestors deep))))
split_path-ancestors_example = split_path-ancestors deep
