-- ===== src/SpecialFiles/Delegation.antt =====
-- Which calls go to a special file.
use pytagsfs.Base.{
  err, ok, continue, Result, ◌≡◌, refl, ◌∙◌, false, ◌==◌, ◌||◌, Option, none, some, List, [], ◌∷◌,
  ◌++◌, map, Text, Dict, lookup, insert, lookup-insert, Exec, pure, ◌>>=◌, All, contains,
  IsDistinct, list_eq, nat_eq, list_beq_iff, arith, eq_refl,
}
use pytagsfs.Util.Paths.{root, sep, join_path_abs, path_join_all}
use pytagsfs.Util.Paths.Joining.{IsPart, path_join-root}
use pytagsfs.SpecialFiles.{
  SpecialFile, Super, path_of, add_classes, classes_by_path, delegated, class_at, getattr_delegated,
  with_links, getattr_mixed, readdir_mixed,
}

module _ {ℓ} {S : Type ℓ} where
  path_of-IsPart : (cls : SpecialFile S) → IsPart cls.filename → path_of cls ≡ sep ∷ cls.filename
  unfolding join_path_abs path_join_all
  path_of-IsPart cls h = path_join-root cls.filename h

  abbrev pub names : List (SpecialFile S) → List Text
  names classes = map (λ cls. cls.filename) classes

  -- A path that no later class has.
  lookup-add_classes :
      (classes : List (SpecialFile S)) (p : Text) (d : Dict Text (SpecialFile S))
      → contains p (map path_of classes) ≡ false
      → lookup p (add_classes classes d) ≡ lookup p d
  unfolding add_classes contains
  lookup-add_classes [] p d h = refl
  lookup-add_classes (cls ∷ classes) p d h =
      lookup-add_classes classes p (insert (path_of cls) cls d) (ground arith)
      ∙ lookup-insert (path_of cls) p cls d
      ∙ rw (first h) refl
    where
      first :
          (path_of cls == p || contains p (map path_of classes)) ≡ false
          → (path_of cls == p) ≡ false
      first k = ground (arith, k)

  contains-path_of :
      (cls : SpecialFile S) (classes : List (SpecialFile S))
      → IsPart cls.filename
      → All (λ c. IsPart c.filename) classes
      → contains (path_of cls) (map path_of classes) ≡ contains cls.filename (names classes)
  unfolding contains
  contains-path_of cls [] h k = refl
  contains-path_of cls (c ∷ classes) h k = ground (
    arith,
    contains-path_of cls classes h k.1,
    path_of-IsPart cls h,
    path_of-IsPart c k.0,
    list_beq_iff (path_of c) (path_of cls),
    list_beq_iff c.filename cls.filename,
  )

  each-class :
      (classes : List (SpecialFile S)) (d : Dict Text (SpecialFile S))
      → IsDistinct (names classes)
      → All (λ c. IsPart c.filename) classes
      → All (λ c. lookup (path_of c) (add_classes classes d) ≡ some c) classes
  unfolding add_classes
  each-class [] d h k = tt
  each-class (c ∷ classes) d h k = (
    lookup-add_classes classes (path_of c) (insert (path_of c) c d)
          (contains-path_of c classes k.0 k.1 ∙ h.0)
        ∙ lookup-insert (path_of c) (path_of c) c d
        ∙ rw (eq_refl (path_of c)) refl,
    each-class classes (insert (path_of c) c d) h.1 k.1,
  )

  root-is-no-class :
      (classes : List (SpecialFile S))
      → All (λ c. IsPart c.filename) classes
      → contains root (map path_of classes) ≡ false
  unfolding contains
  root-is-no-class [] k = refl
  root-is-no-class (c ∷ classes) k =
      ground
        (arith, root-is-no-class classes k.1, path_of-IsPart c k.0, list_beq_iff (path_of c) root)

  return_as_is {κ} : {A : Type κ} (m : Exec S A) (s : S) → (m >>= λ a. pure a) s ≡ m s
  return_as_is {A = A} m s = go (m s)
    where
      go : (t : Result A × S) → continue t.0 (λ a. pure a) t.1 ≡ t
      go (ok a, t) = refl
      go (err c, t) = refl

  path_of-root : (cls : SpecialFile S) → IsPart cls.filename → (path_of cls == root) ≡ false
  unfolding contains
  path_of-root cls k = ground (arith, root-is-no-class (cls ∷ []) (k, tt))

  no_class :
      (classes : List (SpecialFile S)) (p : Text)
      → contains p (map path_of classes) ≡ false
      → lookup p (classes_by_path classes) ≡ none
  unfolding classes_by_path lookup
  no_class classes p h = lookup-add_classes classes p [] h

  module _ (super : Super S) (classes : List (SpecialFile S)) where
    -- Where the path is not the root, the result goes on as it is.
    getattr_below :
        (o : Option (SpecialFile S)) (p : Text) (s : S)
        → (p == root) ≡ false
        → lookup p (classes_by_path classes) ≡ o
        → getattr_mixed super classes p s
          ≡ delegated o (λ cls. cls.getattr_file p) (super.super_getattr p) s
    unfolding getattr_mixed getattr_delegated class_at
    getattr_below o p s h e =
        rw (h, e) (return_as_is (delegated o (λ cls. cls.getattr_file p) (super.super_getattr p)) s)

    class-getattr :
        (l : List (SpecialFile S))
        → All (λ c. IsPart c.filename) l
        → All (λ c. lookup (path_of c) (classes_by_path classes) ≡ some c) l
        → All
            (λ c.
              (s : S) → getattr_mixed super classes (path_of c) s ≡ c.getattr_file (path_of c) s)
            l
    unfolding delegated
    class-getattr [] k h = tt
    class-getattr (c ∷ l) k h = (
      λ s. getattr_below (some c) (path_of c) s (path_of-root c k.0) h.0,
      class-getattr l k.1 h.1,
    )

    each-registered :
        IsDistinct (names classes)
        → All (λ c. IsPart c.filename) classes
        → All (λ c. lookup (path_of c) (classes_by_path classes) ≡ some c) classes
    unfolding classes_by_path
    each-registered d k = each-class classes [] d k

    -- Where the names of the special files are different parts of paths, getattr of the path of a
    -- special file is its own method's, and getattr of any other path is that of the filesystem
    -- behind, with the number of the special files added to the links of the root, whose listing
    -- starts with their names in their order and goes on with the listing of the filesystem
    -- behind, while that of any other path that is not a special file's is the one behind alone.
    pub delegation_lem :
        IsDistinct (names classes)
        → All (λ c. IsPart c.filename) classes
        → All
            (λ c.
              (s : S) → getattr_mixed super classes (path_of c) s ≡ c.getattr_file (path_of c) s)
            classes
          × ((p : Text) (s : S)
              → contains p (map path_of classes) ≡ false
              → (p == root) ≡ false
              → (getattr_mixed super classes p s ≡ super.super_getattr p s)
                × (readdir_mixed super classes p s ≡ super.super_readdir p s))
          × ((s : S)
              → getattr_mixed super classes root s
                ≡ (do st ← super.super_getattr root; pure (with_links super classes st)) s)
          × ((s : S)
              → readdir_mixed super classes root s
                ≡ (do l ← super.super_readdir root; pure (names classes ++ l)) s)
    unfolding delegated getattr_mixed getattr_delegated class_at readdir_mixed
    delegation_lem d k =
        let root_lookup = no_class classes root (root-is-no-class classes k) in
        (
          class-getattr classes k (each-registered d k),
          λ p s h r.
              let e = no_class classes p h in
              (getattr_below none p s r e, rw (e, r) (return_as_is (super.super_readdir p) s)),
          λ s. rw (root_lookup, eq_refl root) refl,
          λ s. rw (root_lookup, eq_refl root) refl,
        )
