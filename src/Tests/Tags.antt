-- ===== src/Tests/Tags.antt =====
-- Three meta-data stores: one takes one tag, one drops the title and raises, and one takes the rest.
use pytagsfs.MetaStores.PathTags.{
  path_tags, with_tag, extension_of, after_last_dot, lstrip_dots, path_meta_store,
  delegate_set-path_tags,
}
use pytagsfs.Util.Paths.{path_split, rstrip_sep}
use pytagsfs.Base.{
  lookup-erase, arith, List, err, unsettable_key_error, ℕ, ◌≡◌, ◌≤◌, refl, [], ◌∷◌, text, ok, pure,
  raise, not_implemented, keys, count, lookup, erase, insert, list_beq, list_eq, nat_eq,
}
use pytagsfs.Values.{Values}
use pytagsfs.MetaStores.{
  MetaStore, delegate_get, delegate_set, delete_keys, set_loop, get_loop, update,
  is_not_implemented,
}
use pytagsfs.MetaStores.Keys.{AddsNoKey, room, delegate_set_lem}

abbrev artist_store : MetaStore ℕ
artist_store = record {
  get = λ path. pure ((text "artist", text "Eno" ∷ []) ∷ []);
  set = λ path. pure (text "artist" ∷ []);
}

abbrev other_store : MetaStore ℕ
other_store = record { get = λ path. raise not_implemented; set = λ path s. pure (keys s.0) s }

abbrev losing_store : MetaStore ℕ
losing_store = record {
  get = λ path. raise not_implemented;
  set = λ path s. raise not_implemented (erase (text "title") s.0, s.1);
}

abbrev new_tags : Values
new_tags =
    (text "artist", text "Cale" ∷ [])
    ∷ (text "title", text "Fear" ∷ [])
    ∷ (text "year", text "1974" ∷ [])
    ∷ []

tags_read :
    (delegate_get (other_store ∷ artist_store ∷ []) (text "/a") 0).0
    ≡ ok ((text "artist", text "Eno" ∷ []) ∷ [])
unfolding delegate_get get_loop update is_not_implemented insert
tags_read = refl

abbrev three_stores : List (MetaStore ℕ)
three_stores = artist_store ∷ losing_store ∷ other_store ∷ []

-- The title that the second store dropped is not there for the third one.
tags_set :
    (delegate_set three_stores (text "/a") new_tags 0).0 ≡ ok (text "artist" ∷ text "year" ∷ [])
unfolding delegate_set set_loop delete_keys lookup erase list_beq keys is_not_implemented
tags_set = refl

losing_store-AddsNoKey : AddsNoKey losing_store
losing_store-AddsNoKey path k values w h = ground (arith, h, lookup-erase (text "title") k values)

delegate_set_lem_example :
    count (text "year") (text "artist" ∷ text "year" ∷ []) ≤ room (text "year") new_tags
delegate_set_lem_example =
    delegate_set_lem three_stores (text "/a") new_tags 0 (text "artist" ∷ text "year" ∷ [])
      (text "year") (λ path k values w h. h, (losing_store-AddsNoKey, (λ path k values w h. h, tt)))
      tags_set

-- The path "/a.b/c.ogg" has all six tags.
path_tags_run :
    path_tags (text "/a.b/c.ogg")
    ≡ (text "f", text "c.ogg" ∷ [])
      ∷ (text "filename", text "c.ogg" ∷ [])
      ∷ (text "p", text "a.b" ∷ [])
      ∷ (text "parent", text "a.b" ∷ [])
      ∷ (text "e", text "ogg" ∷ [])
      ∷ (text "extension", text "ogg" ∷ [])
      ∷ []
unfolding path_tags with_tag extension_of after_last_dot lstrip_dots path_split rstrip_sep insert
    list_beq
path_tags_run = refl

abbrev new_name : Values
new_name = (text "f", text "d.ogg" ∷ []) ∷ []

delegate_set-path_tags_example :
    delegate_set (path_meta_store ∷ artist_store ∷ []) (text "/c.ogg") new_name 0
    ≡ (err unsettable_key_error, 0)
unfolding path_tags with_tag extension_of after_last_dot lstrip_dots path_split rstrip_sep insert
    list_beq lookup
delegate_set-path_tags_example =
    delegate_set-path_tags (text "f") (text "/c.ogg") (text "/c.ogg") new_name (artist_store ∷ []) 0
      refl refl
