-- ===== src/MetaStores/PathTags.antt =====
-- `PathMetaStore` of modules/pytagsfs/metastore/path.py: the tags that a path has by itself, which
-- cannot be set. `os.path.splitext` is that of the standard library (`posixpath`).
use pytagsfs.Base.{
  ◌≡◌, refl, ℕ, Bool, true, false, not, ◌||◌, ◌==◌, if◌then◌else◌, Option, none, some, List, [],
  ◌∷◌, Text, text, lookup, insert, is_none, is_empty, Exec, err, pure, raise, contains,
  lookup-insert, unsettable_key_error, list_eq, nat_eq, list_beq_iff, arith,
}
use pytagsfs.Util.Paths.{rstrip_sep, path_split, path_dirname}
use pytagsfs.Values.{Values}
use pytagsfs.MetaStores.{MetaStore, delegate_set}

abbrev pub dot : ℕ
dot = 46

-- What follows the last dot.
unfoldable pub after_last_dot : Text → Option Text
after_last_dot [] = none
after_last_dot (c ∷ s) = elim (after_last_dot s) [
  | some t ↦ some t
  | none ↦ if c == dot then some s else none
]

unfoldable pub lstrip_dots : Text → Text
lstrip_dots [] = []
lstrip_dots (c ∷ s) = if c == dot then lstrip_dots s else c ∷ s

abbrev pub text_of : Option Text → Text
text_of none = []
text_of (some t) = t

-- os.path.splitext(filename)[1][1:]: dots in front of the name start no extension.
unfoldable pub extension_of : Text → Text
unfolding after_last_dot lstrip_dots
extension_of filename = text_of (after_last_dot (lstrip_dots filename))

-- if item: values[short] = values[long] = [item]
unfoldable pub with_tag : Text → Text → Text → Values → Values
with_tag short long item values =
    if is_empty item then values else insert long (item ∷ []) (insert short (item ∷ []) values)

unfoldable pub path_tags : Text → Values
unfolding rstrip_sep path_split extension_of with_tag
path_tags path =
    let filename = (path_split (rstrip_sep path)).1 in
    with_tag (text "e") (text "extension") (extension_of filename) (
      with_tag (text "p") (text "parent") (path_split (path_dirname (rstrip_sep path))).1
        (with_tag (text "f") (text "filename") filename []))

-- `keys`
abbrev pub path_keys : List Text
path_keys = text "f" ∷ text "filename" ∷ text "p" ∷ text "parent" ∷ text "e" ∷ text "extension" ∷ []

-- Whether one of the keys is in the values.
unfoldable pub has_any : List Text → Values → Bool
has_any [] values = false
has_any (key ∷ keys) values = not (is_none (lookup key values)) || has_any keys values

module _ {ℓ} {W : Type ℓ} where
  unfoldable pub path_set : Text → Exec (Values × W) (List Text)
  unfolding has_any
  path_set path s = (if has_any path_keys s.0 then raise unsettable_key_error else pure []) s

  abbrev pub path_meta_store : MetaStore W
  path_meta_store = record { get = λ path. pure (path_tags path); set = path_set }

has_any-contains :
    (k : Text) (l : List Text) (values : Values)
    → contains k l ≡ true
    → is_none (lookup k values) ≡ false
    → has_any l values ≡ true
unfolding has_any contains
has_any-contains k [] values h e = cc
has_any-contains k (key ∷ l) values h e =
    ground (arith, has_any-contains k l values, list_beq_iff key k, h, e)

lookup-with_tag :
    (k short long item : Text) (values : Values)
    → is_none (lookup k (with_tag short long item values)) ≡ false
    → (short == k || long == k || not (is_none (lookup k values))) ≡ true
unfolding with_tag
lookup-with_tag k short long item values h = ground (
  arith,
  h,
  lookup-insert long k (item ∷ []) (insert short (item ∷ []) values),
  lookup-insert short k (item ∷ []) values,
)

path_tags-path_keys :
    (k path : Text) → is_none (lookup k (path_tags path)) ≡ false → contains k path_keys ≡ true
unfolding path_tags contains lookup
path_tags-path_keys k path h =
    let filename = (path_split (rstrip_sep path)).1 in
    let parent = (path_split (path_dirname (rstrip_sep path))).1 in
    let first = with_tag (text "f") (text "filename") filename [] in
    let second = with_tag (text "p") (text "parent") parent first in
    ground (
      arith,
      h,
      lookup-with_tag k (text "e") (text "extension") (extension_of filename) second,
      lookup-with_tag k (text "p") (text "parent") parent first,
      lookup-with_tag k (text "f") (text "filename") filename [],
    )

-- A tag that any path has by itself is never written: where the values have a key that the store of
-- path tags gives for some path, to set them by a delegating store that asks the store of path tags
-- first raises UnsettableKeyError, whatever stores follow, and leaves the world as it was.
pub delegate_set-path_tags {ℓ} :
    {W : Type ℓ} (k other path : Text) (values : Values) (meta_stores : List (MetaStore W)) (w : W)
    → is_none (lookup k (path_tags other)) ≡ false
    → is_none (lookup k values) ≡ false
    → delegate_set (path_meta_store ∷ meta_stores) path values w ≡ (err unsettable_key_error, w)
unfolding delegate_set path_set
delegate_set-path_tags k other path values meta_stores w h e =
    rw (has_any-contains k path_keys values (path_tags-path_keys k other h) e) refl
