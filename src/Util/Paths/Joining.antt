-- ===== src/Util/Paths/Joining.antt =====
-- Joining parts into a path and splitting the path again.
use mathlib.Core.Path.{ap₂}
use mathlib.Core.List.{reverse-append, reverse-reverse}
use pytagsfs.Base.{
  ◌⊎◌, ◌≡◌, refl, ap, ◌∙◌, sym, Bool, true, false, not, ◌&&◌, List, [], ◌∷◌, ◌++◌, Text, reverse,
  contains, is_empty, All, All-reverse, inl, inr, arith, nat_eq, ok,
}
use pytagsfs.Util.Paths.{
  sep, root, lstrip_sep, rstrip_sep, ends_with_sep, starts_with_sep, cons_split, cut_at_last_sep,
  strip_head, path_split, path_join, path_join_all, join_path_abs, split_path,
}
use pytagsfs.Util.Paths.Laws.{ends_with_sep-append}
use pytagsfs.PathStore.Entries.{ancestors}
use pytagsfs.PathStore.Entries.Ancestors.{steps, climb, ancestors_lem, split_path-ancestors}

-- A part of a path: it is not empty and has no separator.
abbrev pub is_part : Text → Bool
is_part p = not (is_empty p) && not (contains sep p)

abbrev pub IsPart : Text → Type 0
IsPart p = is_part p ≡ true

ends_with_sep-part : (p : Text) → contains sep p ≡ false → ends_with_sep p ≡ false
unfolding ends_with_sep contains
ends_with_sep-part [] h = refl
ends_with_sep-part (c ∷ []) h = ground arith
ends_with_sep-part (c ∷ d ∷ p) h = ends_with_sep-part (d ∷ p) (ground arith)

cut-part : (p : Text) → contains sep p ≡ false → cut_at_last_sep p ≡ ([], p)
unfolding cut_at_last_sep cons_split contains
cut-part [] h = refl
cut-part (c ∷ p) h = rw (cut-part p (ground arith)) (ground arith)

cut-append :
    (x p : Text) → contains sep p ≡ false → cut_at_last_sep (x ++ sep ∷ p) ≡ (x ++ sep ∷ [], p)
unfolding cut_at_last_sep cons_split
cut-append [] p h = rw (cut-part p h) refl
cut-append (c ∷ []) p h = rw (cut-append [] p h) refl
cut-append (c ∷ d ∷ x) p h = rw (cut-append (d ∷ x) p h) refl

pub ends_with_sep-reverse : (s : Text) → ends_with_sep (reverse s) ≡ starts_with_sep s
unfolding ends_with_sep starts_with_sep
ends_with_sep-reverse [] = refl
ends_with_sep-reverse (c ∷ s) =
    rw (reverse-append (c ∷ []) s) (ends_with_sep-append (reverse s) (c ∷ []) refl)

lstrip_sep-other : (s : Text) → starts_with_sep s ≡ false → lstrip_sep s ≡ s
unfolding lstrip_sep starts_with_sep
lstrip_sep-other [] h = refl
lstrip_sep-other (c ∷ s) h = rw (h, lstrip_sep) refl

-- A separator behind a path that does not end with one is stripped alone.
rstrip_sep-append : (x : Text) → ends_with_sep x ≡ false → rstrip_sep (x ++ sep ∷ []) ≡ x
unfolding rstrip_sep lstrip_sep
rstrip_sep-append x h = rw (reverse-append x (sep ∷ [])) (
    ap reverse (
      lstrip_sep-other (reverse x)
        (sym (ends_with_sep-reverse (reverse x)) ∙ ap ends_with_sep (reverse-reverse x) ∙ h))
    ∙ reverse-reverse x)

-- A path that parts are joined to: the root, or one that does not end with a separator.
abbrev pub IsBase : Text → Type 0
IsBase x = (x ≡ root) ⊎ ((ends_with_sep x ≡ false) × (is_empty x ≡ false))

pub path_join-root : (p : Text) → IsPart p → path_join root p ≡ sep ∷ p
unfolding path_join starts_with_sep ends_with_sep contains
path_join-root [] h = cc
path_join-root (c ∷ p) h = ground arith

pub path_join_below :
    (x p : Text)
    → ends_with_sep x ≡ false
    → is_empty x ≡ false
    → IsPart p
    → path_join x p ≡ x ++ sep ∷ p
unfolding path_join starts_with_sep contains
path_join_below x [] e n h = cc
path_join_below x (c ∷ p) e n h = ground arith

strip_head-root : strip_head root ≡ root
unfolding strip_head rstrip_sep lstrip_sep
strip_head-root = refl

strip_head_below :
    (x : Text) → ends_with_sep x ≡ false → is_empty x ≡ false → strip_head (x ++ sep ∷ []) ≡ x
unfolding strip_head
strip_head_below x e n = rw (rstrip_sep-append x e) (rw n refl)

-- `os.path.split` of a path with a part joined to it.
pub path_split-join : (x p : Text) → IsBase x → IsPart p → path_split (path_join x p) ≡ (x, p)
unfolding path_split
path_split-join x p (inl e) h =
    ap (λ y. path_split (path_join y p)) e
    ∙ ap path_split (path_join-root p h)
    ∙ ap (λ t. (strip_head t.0, t.1)) (cut-append [] p (ground arith))
    ∙ ap₂ (λ a b. (a, b)) (strip_head-root ∙ sym e) refl
path_split-join x p (inr (e, n)) h =
    ap path_split (path_join_below x p e n h)
    ∙ ap (λ t. (strip_head t.0, t.1)) (cut-append x p (ground arith))
    ∙ ap (λ a. (a, p)) (strip_head_below x e n)

pub part-end : (x p : Text) → IsPart p → ends_with_sep (x ++ sep ∷ p) ≡ false
unfolding ends_with_sep
part-end x [] h = cc
part-end x (c ∷ p) h =
    ends_with_sep-append x (sep ∷ c ∷ p) refl ∙ ends_with_sep-part (c ∷ p) (ground arith)

pub path_join-end :
    (x p : Text)
    → IsBase x
    → IsPart p
    → (ends_with_sep (path_join x p) ≡ false) × (is_empty (path_join x p) ≡ false)
path_join-end x p (inl e) h =
    (rw e (rw (path_join-root p h) (part-end [] p h)), rw e (rw (path_join-root p h) refl))
path_join-end x p (inr (e, n)) h =
    (rw (path_join_below x p e n h) (part-end x p h), rw (path_join_below x p e n h) (behind x))
  where
    behind : (y : Text) → is_empty (y ++ sep ∷ p) ≡ false
    behind [] = refl
    behind (c ∷ y) = refl

-- The parts from the last to the first.
abbrev pub join_back : List Text → Text
join_back [] = root
join_back (p ∷ ps) = path_join (join_back ps) p

pub join_back-IsBase : (ps : List Text) → All IsPart ps → IsBase (join_back ps)
join_back-IsBase [] h = inl refl
join_back-IsBase (p ∷ ps) h = inr (path_join-end (join_back ps) p (join_back-IsBase ps h.1) h.0)

path_split-root : path_split root ≡ (root, [])
unfolding path_split cut_at_last_sep cons_split strip_head rstrip_sep lstrip_sep
path_split-root = refl

steps-climb : (x p : Text) → IsPart p → steps (climb ancestors (x, p)) ≡ p ∷ steps (ancestors x)
steps-climb x [] h = cc
steps-climb x (c ∷ p) h = refl

steps-join_back : (ps : List Text) → All IsPart ps → steps (ancestors (join_back ps)) ≡ ps
steps-join_back [] h =
    ap steps (ancestors_lem root) ∙ ap (λ t. steps (climb ancestors t)) path_split-root
steps-join_back (p ∷ ps) h =
    ap steps (
      ancestors_lem (join_back (p ∷ ps))
      ∙ ap (climb ancestors) (path_split-join (join_back ps) p (join_back-IsBase ps h.1) h.0))
    ∙ steps-climb (join_back ps) p h.0
    ∙ ap (λ l. p ∷ l) (steps-join_back ps h.1)

path_join_all-snoc :
    (a : Text) (ps : List Text) (p : Text)
    → path_join_all a (ps ++ p ∷ []) ≡ path_join (path_join_all a ps) p
unfolding path_join_all
path_join_all-snoc a [] p = refl
path_join_all-snoc a (q ∷ ps) p = path_join_all-snoc (path_join a q) ps p

pub join_back-reverse : (ps : List Text) → path_join_all root (reverse ps) ≡ join_back ps
unfolding path_join_all
join_back-reverse [] = refl
join_back-reverse (p ∷ ps) =
    rw (reverse-append (p ∷ []) ps)
      (path_join_all-snoc root (reverse ps) p ∙ ap (λ x. path_join x p) (join_back-reverse ps))

pub join_path_abs_back : (parts : List Text) → join_path_abs parts ≡ join_back (reverse parts)
unfolding join_path_abs
join_path_abs_back parts =
    ap (path_join_all root) (sym (reverse-reverse parts)) ∙ join_back-reverse (reverse parts)

-- `split_path` of what `join_path_abs` makes of at least one part, where no part is empty or has a
-- separator, gives the parts back.
pub split_path-join_path_abs :
    (p : Text) (ps : List Text)
    → All IsPart (p ∷ ps)
    → split_path (join_path_abs (p ∷ ps)) ≡ ok (p ∷ ps)
unfolding join_path_abs
split_path-join_path_abs p ps h =
    ap split_path joined
    ∙ split_path-ancestors (join_back back)
    ∙ rw (end back (ap is_empty (reverse-reverse (p ∷ ps))) parts)
        (ap (λ l. ok (reverse l)) (steps-join_back back parts) ∙ ap ok (reverse-reverse (p ∷ ps)))
  where
    back : List Text
    back = reverse (p ∷ ps)

    parts : All IsPart back
    parts = All-reverse IsPart (p ∷ ps) h

    joined : path_join_all root (p ∷ ps) ≡ join_back back
    joined = ap (path_join_all root) (sym (reverse-reverse (p ∷ ps))) ∙ join_back-reverse back

    end :
        (qs : List Text)
        → is_empty (reverse qs) ≡ false
        → All IsPart qs
        → ends_with_sep (join_back qs) ≡ false
    end [] e k = cc
    end (q ∷ qs) e k = (path_join-end (join_back qs) q (join_back-IsBase qs k.1) k.0).0
