-- ===== src/CommandLine/FormatString/Pieces.antt =====
-- The parts of a format string are what stands between its separators.
use mathlib.Core.List.{append-nil, reverse-append, reverse-reverse, append_assoc}
use pytagsfs.Base.{
  ◌||◌, ℕ, ◌≡◌, refl, sym, ap, ◌∙◌, Bool, true, false, ◌==◌, if◌then◌else◌, List, [], ◌∷◌, ◌++◌,
  Text, nat_eq, nat_beq_iff, is_empty, contains, All, reverse, arith, ok, err, value_error, Result,
  Bool-cases, inl, inr,
}
use pytagsfs.Util.Paths.{
  sep, lstrip_sep, rstrip_sep, starts_with_sep, ends_with_sep, split_path, path_join_all,
  join_path_abs,
}
use pytagsfs.Util.Paths.Joining.{
  IsPart, path_join-root, path_join_below, split_path-join_path_abs, part-end,
  ends_with_sep-reverse,
}
use pytagsfs.CommandLine.FormatString.{collapse, with_sep, normal_format, format_string_parts}

-- A character in front of the pieces of a text, with a piece of its own where no piece starts there.
abbrev pub cons_piece : ℕ → Bool → List Text → List Text
cons_piece c true pieces = (c ∷ []) ∷ pieces
cons_piece c false [] = (c ∷ []) ∷ []
cons_piece c false (p ∷ pieces) = (c ∷ p) ∷ pieces

-- What stands between the separators of a text, where something does.
abbrev pub pieces : Text → List Text
pieces [] = []
pieces (c ∷ s) =
    if c == sep then pieces s else cons_piece c (is_empty s || starts_with_sep s) (pieces s)

-- Each part with a separator in front of it.
abbrev joined_parts : List Text → Text
joined_parts [] = []
joined_parts (p ∷ ps) = sep ∷ p ++ joined_parts ps

pieces-IsPart : (s : Text) → All IsPart (pieces s)
unfolding contains
pieces-IsPart [] = tt
pieces-IsPart (c ∷ s) =
    go (c == sep) (is_empty s || starts_with_sep s) (pieces s) refl (pieces-IsPart s)
  where
    go :
        (b e : Bool) (ps : List Text)
        → (c == sep) ≡ b
        → All IsPart ps
        → All IsPart (if b then ps else cons_piece c e ps)
    go true e ps h v = v
    go false true ps h v = (ground (arith, h), v)
    go false false [] h v = (ground (arith, h), v)
    go false false (p ∷ ps) h v = (ground (arith, h, v.0), v.1)

collapse-pieces :
    (s : Text)
    → is_empty s ≡ false
    → ends_with_sep s ≡ false
    → collapse (sep ∷ s) ≡ joined_parts (pieces s)
unfolding collapse starts_with_sep ends_with_sep
collapse-pieces [] h e = cc
collapse-pieces (c ∷ []) h e = ground (arith, e)
collapse-pieces (c ∷ d ∷ s) h e =
    go (c == sep) (d == sep) (pieces (d ∷ s)) refl refl (collapse-pieces (d ∷ s) refl e)
  where
    go :
        (b f : Bool) (ps : List Text)
        → (c == sep) ≡ b
        → (d == sep) ≡ f
        → collapse (sep ∷ d ∷ s) ≡ joined_parts ps
        → collapse (sep ∷ c ∷ d ∷ s) ≡ joined_parts (if b then ps else cons_piece c f ps)
    go true f ps x y h = ground (arith, x, y, h, nat_beq_iff c sep)
    go false true ps x y h = ground (arith, x, y, h)
    go false false [] x y h = ground (arith, x, y, h)
    go false false (p ∷ ps) x y h = ground (arith, x, y, h)

is_empty-behind : (x p : Text) → is_empty (x ++ sep ∷ p) ≡ false
is_empty-behind [] p = refl
is_empty-behind (c ∷ x) p = refl

path_join_all-parts :
    (x : Text) (ps : List Text)
    → ends_with_sep x ≡ false
    → is_empty x ≡ false
    → All IsPart ps
    → path_join_all x ps ≡ x ++ joined_parts ps
unfolding path_join_all
path_join_all-parts x [] e h v = sym (append-nil x)
path_join_all-parts x (p ∷ ps) e h v = rw (path_join_below x p e h v.0) (
    path_join_all-parts (x ++ sep ∷ p) ps (part-end x p v.0) (is_empty-behind x p) v.1
    ∙ append_assoc x (sep ∷ p) (joined_parts ps))

join_path_abs-parts :
    (p : Text) (ps : List Text)
    → All IsPart (p ∷ ps)
    → join_path_abs (p ∷ ps) ≡ joined_parts (p ∷ ps)
unfolding join_path_abs path_join_all
join_path_abs-parts p ps v =
    rw (path_join-root p v.0) (path_join_all-parts (sep ∷ p) ps (part-end [] p v.0) refl v.1)

pieces-append-sep : (t : Text) → pieces (t ++ sep ∷ []) ≡ pieces t
unfolding starts_with_sep
pieces-append-sep [] = refl
pieces-append-sep (c ∷ []) = ground arith
pieces-append-sep (c ∷ d ∷ t) =
    ap (λ ps. if c == sep then ps else cons_piece c (d == sep) ps) (pieces-append-sep (d ∷ t))

pieces-reverse-lstrip_sep : (r : Text) → pieces (reverse (lstrip_sep r)) ≡ pieces (reverse r)
unfolding lstrip_sep
pieces-reverse-lstrip_sep [] = refl
pieces-reverse-lstrip_sep (c ∷ r) = elim (Bool-cases (c == sep)) [
  | inl e ↦
      rw (e, lstrip_sep)
        (pieces-reverse-lstrip_sep r
          ∙ sym (pieces-append-sep (reverse r))
          ∙ ap (λ d. pieces (reverse r ++ d ∷ [])) {x = sep} {y = c} (sym ((nat_beq_iff c sep).0 e))
          ∙ ap pieces (sym (reverse-append (c ∷ []) r)))
  | inr e ↦ rw (e, lstrip_sep) refl
]

starts_with_sep-lstrip_sep : (r : Text) → starts_with_sep (lstrip_sep r) ≡ false
unfolding lstrip_sep starts_with_sep
starts_with_sep-lstrip_sep [] = refl
starts_with_sep-lstrip_sep (c ∷ r) = ground (arith, starts_with_sep-lstrip_sep r)

is_empty-collapse : (s : Text) → is_empty (collapse s) ≡ is_empty s
unfolding collapse starts_with_sep
is_empty-collapse [] = refl
is_empty-collapse (c ∷ []) = ground arith
is_empty-collapse (c ∷ d ∷ s) = ground (arith, is_empty-collapse (d ∷ s))

collapse-with_sep : (t : Text) → collapse (with_sep t) ≡ collapse (sep ∷ t)
unfolding collapse with_sep
collapse-with_sep t = ground arith

-- What `process_options` stores, from what stands between the separators.
abbrev pub parts_or_error : List Text → Result (List Text)
parts_or_error [] = err value_error
parts_or_error (p ∷ ps) = ok (p ∷ ps)

split_path-joined :
    (s : Text) (ps : List Text)
    → All IsPart ps
    → s ≡ joined_parts ps
    → is_empty s ≡ false
    → split_path s ≡ parts_or_error ps
split_path-joined s [] v e n = absurd (ground (arith, e, n))
split_path-joined s (p ∷ ps) v e n =
    ap split_path (e ∙ sym (join_path_abs-parts p ps v)) ∙ split_path-join_path_abs p ps v

split_path-stripped :
    (t : Text)
    → ends_with_sep t ≡ false
    → split_path (collapse (sep ∷ t)) ≡ parts_or_error (pieces t)
unfolding split_path collapse ends_with_sep starts_with_sep
split_path-stripped [] e = refl
split_path-stripped (c ∷ t) e =
    split_path-joined (collapse (sep ∷ c ∷ t)) (pieces (c ∷ t)) (pieces-IsPart (c ∷ t))
      (collapse-pieces (c ∷ t) refl e) (is_empty-collapse (sep ∷ c ∷ t))

-- The parts of a format string are what stands between its separators, where something does, in
-- their order, however many separators stand together and whether or not one starts or ends it.
-- Each part is not empty and has no separator, and a format string with nothing but separators
-- raises ValueError.
pub format_string_parts_lem :
    (format : Text)
    → (format_string_parts format ≡ parts_or_error (pieces format)) × All IsPart (pieces format)
unfolding format_string_parts normal_format rstrip_sep
format_string_parts_lem format =
    let t = reverse (lstrip_sep (reverse format)) in
    (
      ap split_path (collapse-with_sep t)
          ∙ split_path-stripped t (
              ends_with_sep-reverse (lstrip_sep (reverse format))
              ∙ starts_with_sep-lstrip_sep (reverse format))
          ∙ ap parts_or_error
              (pieces-reverse-lstrip_sep (reverse format) ∙ ap pieces (reverse-reverse format)),
      pieces-IsPart format,
    )
