-- ===== src/Util/Paths.antt =====
-- The functions of modules/pytagsfs/util.py on paths. `path_split`, `path_join` and `path_dirname`
-- are `os.path.split`, `os.path.join` and `os.path.dirname` of the standard library (`posixpath`).
pub mod Laws
pub mod Joining
use pytagsfs.Base.{
  ℕ, zero, suc, Bool, true, false, ◌==◌, nat_eq, not, List, [], ◌∷◌, ◌++◌, reverse, Option, none,
  some, Text, text, starts_with, ends_with, is_empty, length, if◌then◌else◌, Result, ok, err,
  value_error,
}

-- The code point of `/`.
abbrev pub sep : ℕ
sep = b'/'

-- unicode_path_sep
abbrev pub root : Text
root = sep ∷ []

-- s.lstrip('/')
unfoldable pub lstrip_sep : Text → Text
lstrip_sep [] = []
lstrip_sep (c ∷ s) = if c == sep then lstrip_sep s else c ∷ s

-- s.rstrip('/')
unfoldable pub rstrip_sep : Text → Text
unfolding lstrip_sep
rstrip_sep s = reverse (lstrip_sep (reverse s))

-- s.endswith('/')
unfoldable pub ends_with_sep : Text → Bool
ends_with_sep [] = false
ends_with_sep (c ∷ []) = c == sep
ends_with_sep (c ∷ d ∷ s) = ends_with_sep (d ∷ s)

-- s.startswith('/')
unfoldable pub starts_with_sep : Text → Bool
starts_with_sep [] = false
starts_with_sep (c ∷ s) = c == sep

-- One step from the right: what stands up to and with the last `/`, and what follows it.
cons_split : ℕ → Text × Text → Text × Text
cons_split c ([], tail) = if c == sep then (c ∷ [], tail) else ([], c ∷ tail)
cons_split c (d ∷ head, tail) = (c ∷ d ∷ head, tail)

unfoldable pub cut_at_last_sep : Text → Text × Text
unfolding cons_split
cut_at_last_sep [] = ([], [])
cut_at_last_sep (c ∷ s) = cons_split c (cut_at_last_sep s)

-- A head that is all `/` is kept as it is.
unfoldable pub strip_head : Text → Text
unfolding rstrip_sep
strip_head head = if is_empty (rstrip_sep head) then head else rstrip_sep head

unfoldable pub path_split : Text → Text × Text
unfolding cut_at_last_sep strip_head
path_split path = (strip_head (cut_at_last_sep path).0, (cut_at_last_sep path).1)

abbrev pub path_dirname : Text → Text
path_dirname path = (path_split path).0

-- os.path.join(a, b)
unfoldable pub path_join : Text → Text → Text
unfolding starts_with_sep ends_with_sep
path_join a b =
    if starts_with_sep b
    then b
    else if is_empty a
    then b
    else if ends_with_sep a
    then a ++ b
    else a ++ sep ∷ b

-- os.path.join(*parts)
unfoldable pub path_join_all : Text → List Text → Text
unfolding path_join
path_join_all a [] = a
path_join_all a (b ∷ bs) = path_join_all (path_join a b) bs

-- join_path_abs
unfoldable pub join_path_abs : List Text → Text
unfolding path_join_all
join_path_abs parts = path_join_all root parts

-- The `while` loop of `split_path`, whose parts come last first. Each round takes at least one
-- character off, so the length of the path is enough fuel.
unfoldable pub split_path_loop : ℕ → Text → List Text
split_path_loop zero path = []
split_path_loop (suc fuel) path = elim (path_split path).1 [
  | [] ↦ []
  | c ∷ part ↦ (c ∷ part) ∷ split_path_loop fuel (path_split path).0
]

unfoldable pub split_path : Text → Result (List Text)
unfolding split_path_loop path_split ends_with_sep
split_path path =
    if ends_with_sep path
    then err value_error
    else ok (reverse (split_path_loop (length path) path))
