-- ===== src/SourceTree/RelativePaths.antt =====
-- Absolute and relative paths of the source tree go back and forth.
use pytagsfs.Base.{
  ◌||◌, eq_of_beq, ◌≡◌, refl, Bool, true, false, not, ◌&&◌, ◌==◌, if◌then◌else◌, [], ◌∷◌, ◌++◌,
  Text, length, drop, is_empty, ok, list_eq, nat_eq, list_beq_iff, list_beq, Bool-cases, inl, inr,
  arith,
}
use pytagsfs.Util.Paths.{sep, root, starts_with_sep, ends_with_sep, lstrip_sep, path_join}
use pytagsfs.Util.Paths.Laws.{ends_with_sep-append}
use pytagsfs.SourceTree.{validate_path, cut_root, get_relative_path, get_absolute_path}

-- A path below the root: it starts with one separator and does not end with one.
abbrev pub is_below : Text → Bool
is_below [] = false
is_below (c ∷ s) = c == sep && not (starts_with_sep s) && not (is_empty s) && not (ends_with_sep s)

drop-length : (s t : Text) → drop (length s) (s ++ t) ≡ t
drop-length [] t = refl
drop-length (c ∷ s) t = drop-length s t

starts_with_sep-append : (s t : Text) → starts_with_sep s ≡ true → starts_with_sep (s ++ t) ≡ true
unfolding starts_with_sep
starts_with_sep-append [] t h = cc
starts_with_sep-append (c ∷ s) t h = h

lstrip_sep_below : (s : Text) → starts_with_sep s ≡ false → lstrip_sep (sep ∷ s) ≡ s
unfolding lstrip_sep starts_with_sep
lstrip_sep_below [] h = ground arith
lstrip_sep_below (c ∷ s) h = ground arith

-- The absolute path of a path below the root.
path_join_below :
    (r s : Text)
    → starts_with_sep r ≡ true
    → starts_with_sep s ≡ false
    → path_join r s ≡ (if ends_with_sep r then r ++ s else r ++ sep ∷ s)
unfolding path_join starts_with_sep
path_join_below [] s h k = cc
path_join_below (c ∷ r) s h k = ground arith

-- The relative path of the absolute one, below a root that is not the separator.
cut_root_below : (r s : Text) → cut_root r (r ++ sep ∷ s) ≡ sep ∷ s
unfolding cut_root
cut_root_below r s = rw (drop-length r (sep ∷ s)) refl

cut_root_self : (r : Text) → cut_root r r ≡ root
unfolding cut_root
cut_root_self r = rw (drop_all r) refl
  where
    drop_all : (l : Text) → drop (length l) l ≡ []
    drop_all [] = refl
    drop_all (c ∷ l) = drop_all l

absolute_below :
    (r s : Text)
    → validate_path r ≡ true
    → is_below (sep ∷ s) ≡ true
    → (r == root) ≡ false
    → (get_absolute_path r (sep ∷ s) ≡ ok (r ++ sep ∷ s))
      × (get_relative_path r (r ++ sep ∷ s) ≡ ok (sep ∷ s))
unfolding validate_path get_absolute_path get_relative_path starts_with_sep ends_with_sep list_beq
    lstrip_sep path_join
absolute_below r [] h k other = ground arith
absolute_below [] (d ∷ s) h k other = ground arith
absolute_below (c ∷ r) (d ∷ s) h k other = (
  ground arith,
  ground (arith, ends_with_sep-append (c ∷ r) (sep ∷ d ∷ s) refl, cut_root_below (c ∷ r) (d ∷ s)),
)

absolute_root :
    (s : Text)
    → is_below (sep ∷ s) ≡ true
    → (get_absolute_path root (sep ∷ s) ≡ ok (sep ∷ s))
      × (get_relative_path root (sep ∷ s) ≡ ok (sep ∷ s))
unfolding validate_path get_absolute_path get_relative_path starts_with_sep ends_with_sep list_beq
    lstrip_sep path_join
absolute_root [] k = ground arith
absolute_root (d ∷ s) k = (ground arith, ground arith)

at_root :
    (r : Text)
    → validate_path r ≡ true
    → (get_absolute_path r root ≡ ok r) × (get_relative_path r r ≡ ok root)
unfolding get_absolute_path get_relative_path validate_path starts_with_sep list_beq
at_root r h = (refl, ground (arith, cut_root_self r, list_beq_iff r root))

-- The two paths below a root, whatever it is.
below_root :
    (r s : Text)
    → validate_path r ≡ true
    → is_below (sep ∷ s) ≡ true
    → (abs_path : Text) × (get_absolute_path r (sep ∷ s) ≡ ok abs_path)
      × (get_relative_path r abs_path ≡ ok (sep ∷ s))
below_root r s h k = elim (Bool-cases (r == root)) [
  | inl same ↦ rw (eq_of_beq r root same) (sep ∷ s, (absolute_root s k).0, (absolute_root s k).1)
  | inr other ↦ (r ++ sep ∷ s, (absolute_below r s h k other).0, (absolute_below r s h k other).1)
]

-- The separator itself, or a path below the root.
abbrev pub is_tree_path : Text → Bool
is_tree_path path = path == root || is_below path

no_empty : is_tree_path [] ≡ true → ⊥
unfolding list_beq
no_empty k = ground arith

-- For a root that `_validate_path` lets pass, and a path of the tree that is the separator or
-- starts with one separator and does not end with one, `get_absolute_path` succeeds, and
-- `get_relative_path` of its result gives the path back.
pub get_relative_path-get_absolute_path :
    (tree_root rel_path : Text)
    → validate_path tree_root ≡ true
    → is_tree_path rel_path ≡ true
    → (abs_path : Text) × (get_absolute_path tree_root rel_path ≡ ok abs_path)
      × (get_relative_path tree_root abs_path ≡ ok rel_path)
get_relative_path-get_absolute_path r [] h k = elim (no_empty k) [ ]
get_relative_path-get_absolute_path r (c ∷ s) h k = elim (Bool-cases (c ∷ s == root)) [
  | inl same ↦ rw (eq_of_beq (c ∷ s) root same) (r, (at_root r h).0, (at_root r h).1)
  | inr other ↦ rw (first k other) (below_root r s h (below k other))
]
  where
    below :
        (c ∷ s == root || is_below (c ∷ s)) ≡ true
        → (c ∷ s == root) ≡ false
        → is_below (sep ∷ s) ≡ true
    below k other = ground arith

    first : (c ∷ s == root || is_below (c ∷ s)) ≡ true → (c ∷ s == root) ≡ false → c ≡ sep
    first k other = ground arith
