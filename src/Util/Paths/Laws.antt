-- ===== src/Util/Paths/Laws.antt =====
-- A step up a path makes it shorter, so the loops that climb a path end within its length.
use pytagsfs.Base.{
  false, refl, is_empty, ◌++◌, ℕ, ◌+◌, ◌≤◌, ◌≡◌, [], ◌∷◌, reverse, Text, length, length-reverse,
  arith, nat_eq,
}
use pytagsfs.Util.Paths.{
  ends_with_sep, lstrip_sep, rstrip_sep, cons_split, cut_at_last_sep, strip_head, path_split,
}

length-lstrip_sep : (s : Text) → length (lstrip_sep s) ≤ length s
unfolding lstrip_sep
length-lstrip_sep [] = omega arith
length-lstrip_sep (c ∷ s) = ground (arith, length-lstrip_sep s)

length-rstrip_sep : (s : Text) → length (rstrip_sep s) ≤ length s
unfolding rstrip_sep
length-rstrip_sep s = omega (
  arith,
  length-reverse (lstrip_sep (reverse s)),
  length-lstrip_sep (reverse s),
  length-reverse s,
)

length-cons_split :
    (c : ℕ) (head tail : Text)
    → length (cons_split c (head, tail)).0 + length (cons_split c (head, tail)).1
      ≡ length head + length tail + 1
unfolding cons_split
length-cons_split c [] tail = ground arith
length-cons_split c (d ∷ head) tail = omega arith

length-cut_at_last_sep :
    (s : Text) → length (cut_at_last_sep s).0 + length (cut_at_last_sep s).1 ≡ length s
unfolding cut_at_last_sep
length-cut_at_last_sep [] = omega arith
length-cut_at_last_sep (c ∷ s) = omega (
  arith,
  length-cons_split c (cut_at_last_sep s).0 (cut_at_last_sep s).1,
  length-cut_at_last_sep s,
)

-- What `os.path.split` returns is no longer than the path.
pub length-path_split :
    (path : Text) → length (path_split path).0 + length (path_split path).1 ≤ length path
unfolding path_split strip_head
length-path_split path =
    ground (arith, length-cut_at_last_sep path, length-rstrip_sep (cut_at_last_sep path).0)

-- The last character of a text that is put behind another.
pub ends_with_sep-append :
    (s t : Text) → is_empty t ≡ false → ends_with_sep (s ++ t) ≡ ends_with_sep t
unfolding ends_with_sep
ends_with_sep-append [] t h = refl
ends_with_sep-append (c ∷ []) [] h = cc
ends_with_sep-append (c ∷ []) (d ∷ t) h = refl
ends_with_sep-append (c ∷ d ∷ s) t h = ends_with_sep-append (d ∷ s) t h
