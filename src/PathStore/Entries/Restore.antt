-- ===== src/PathStore/Entries/Restore.antt =====
-- Adding the entries of a path and removing them again gives back the entries of every directory.
use mathlib.Core.Path.{subst}
use mathlib.Core.List.{reverse-append, reverse-reverse}
use pytagsfs.Base.{
  ◌>>◌, ◌≡◌, refl, sym, ap, ◌∙◌, true, false, ◌==◌, List, [], ◌∷◌, ◌++◌, reverse, Text, lookup,
  contains, IsDistinct, All, All-reverse, reverse-IsDistinct, contains-reverse, ok, arith, list_eq,
  nat_eq, list_beq_iff, Bool-cases, inl, inr,
}
use pytagsfs.Util.Paths.{ends_with_sep}
use pytagsfs.PathStore.Entries.{
  EntryStore, ancestors, add_loop, remove_entries_loop, remove_directories_loop,
  add_entries_and_directories_recursive, remove_entries_and_directories_recursive,
}
use pytagsfs.PathStore.Entries.Undo.{
  lookup-add_loop_ne, directories, is_open, add_then_remove, remove_directories_loop_lem,
}
use pytagsfs.PathStore.Entries.Ancestors.{ancestors-IsDistinct}

directories-append :
    (xs ys : List (Text × Text)) → directories (xs ++ ys) ≡ directories xs ++ directories ys
directories-append [] ys = refl
directories-append ((d, e) ∷ xs) ys = ap (λ l. d ∷ l) (directories-append xs ys)

directories-reverse :
    (xs : List (Text × Text)) → directories (reverse xs) ≡ reverse (directories xs)
directories-reverse [] = refl
directories-reverse ((d, e) ∷ xs) =
    ap directories (reverse-append ((d, e) ∷ []) xs)
    ∙ directories-append (reverse xs) ((d, e) ∷ [])
    ∙ rw (directories-reverse xs, reverse-append (d ∷ []) (directories xs)) refl

contains-All :
    (P : Text → Type 0) (d : Text) (ds : List Text) → All P ds → contains d ds ≡ true → P d
unfolding contains
contains-All P d [] a h = cc
contains-All P d (x ∷ ds) a h = elim (Bool-cases (x == d)) [
  | inl e ↦ subst P ((list_beq_iff x d).0 e) a.0
  | inr e ↦ contains-All P d ds a.1 (ground arith)
]

way-IsDistinct : (path : Text) → IsDistinct (directories (reverse (ancestors path)))
way-IsDistinct path =
    subst IsDistinct (sym (directories-reverse (ancestors path)))
      (reverse-IsDistinct (directories (ancestors path)) (ancestors-IsDistinct path))

module _ {ℓ} {M : Type ℓ} where
  -- Every directory on the way to the path is open for a new entry.
  abbrev pub IsOpenFor : EntryStore M → Text → Type 0
  IsOpenFor s path = All (λ d. is_open s d ≡ true) (directories (ancestors path))

  -- The three loops, one after another.
  restore_loops :
      (qs : List (Text × Text)) (s : EntryStore M)
      → IsDistinct (directories qs)
      → All (λ d. is_open s d ≡ true) (directories qs)
      → let t = add_loop qs s in
        let u = remove_entries_loop (reverse qs) t.1 in
        let v = remove_directories_loop qs u.1 in
        (t.0 ≡ ok tt) × (u.0 ≡ ok tt) × (v.0 ≡ ok tt) × ((x : Text) → lookup x v.1 ≡ lookup x s)
  restore_loops qs s distinct opened =
      let t = add_loop qs s in
      let u = remove_entries_loop (reverse qs) t.1 in
      let filled = add_then_remove qs s distinct opened in
      let swept = remove_directories_loop_lem qs u.1 distinct (λ x h. ground (arith, filled.2 x)) in
      (
        filled.0,
        filled.1,
        swept.0,
        λ x. elim (Bool-cases (contains x (directories qs))) [
          | inl on ↦
              let open_here : is_open s x ≡ true =
                contains-All (λ d. is_open s d ≡ true) x (directories qs) opened on in
              swept.1 x ∙ ground (arith, filled.2 x)
          | inr off ↦ swept.1 x ∙ ground (arith, filled.2 x)
        ],
      )

  add_eq :
      (path : Text) (s : EntryStore M)
      → ends_with_sep path ≡ false
      → add_entries_and_directories_recursive path s ≡ add_loop (reverse (ancestors path)) s
  unfolding add_entries_and_directories_recursive
  add_eq path s plain = rw plain refl

  remove_eq :
      (path : Text) (s : EntryStore M)
      → ends_with_sep path ≡ false
      → remove_entries_and_directories_recursive path s
        ≡ (remove_entries_loop (reverse (reverse (ancestors path)))
              >> remove_directories_loop (reverse (ancestors path)))
            s
  unfolding remove_entries_and_directories_recursive
  remove_eq path s plain = rw (plain, reverse-reverse (ancestors path)) refl

  open_way :
      (path : Text) (s : EntryStore M)
      → IsOpenFor s path
      → All (λ d. is_open s d ≡ true) (directories (reverse (ancestors path)))
  open_way path s opened =
      subst (All (λ d. is_open s d ≡ true)) (sym (directories-reverse (ancestors path)))
        (All-reverse (λ d. is_open s d ≡ true) (directories (ancestors path)) opened)

  -- Where each directory on the way to a path is open for a new entry, the entries of the path can
  -- be added and then removed, and the dict of entries answers as before at every directory: the
  -- directories that were made are gone, and the others hold what they held.
  pub restore :
      (path : Text) (s : EntryStore M)
      → ends_with_sep path ≡ false
      → IsOpenFor s path
      → let t = add_entries_and_directories_recursive path s in
        let u = remove_entries_and_directories_recursive path t.1 in
        (t.0 ≡ ok tt) × (u.0 ≡ ok tt) × ((x : Text) → lookup x u.1 ≡ lookup x s)
  restore path s plain opened =
      let qs = reverse (ancestors path) in
      let all = restore_loops qs s (way-IsDistinct path) (open_way path s opened) in
      let middle = remove_entries_loop (reverse qs) (add_loop qs s).1 in
      let gone : remove_entries_and_directories_recursive path (add_loop qs s).1
          ≡ remove_directories_loop qs middle.1 =
        remove_eq path (add_loop qs s).1 plain ∙ rw all.1 refl in
      rw (add_eq path s plain) (rw gone (all.0, all.2, all.3))

  pub lookup-add_entries_and_directories_recursive :
      (x path : Text) (s : EntryStore M)
      → ends_with_sep path ≡ false
      → IsOpenFor s path
      → contains x (directories (ancestors path)) ≡ false
      → lookup x (add_entries_and_directories_recursive path s).1 ≡ lookup x s
  lookup-add_entries_and_directories_recursive x path s plain opened out =
      rw (add_eq path s plain) (
        lookup-add_loop_ne x (reverse (ancestors path)) s (way-IsDistinct path)
          (open_way path s opened) (rw (directories-reverse, contains-reverse) out))
