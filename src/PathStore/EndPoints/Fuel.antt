-- ===== src/PathStore/EndPoints/Fuel.antt =====
-- `get_end_points` ends by its own tests.
use mathlib.Core.Path.{subst, ap₂}
use pytagsfs.Base.{
  ℕ, zero, suc, ◌+◌, ◌≤◌, ◌<◌, ◌≡◌, ◌≢◌, ◌⊎◌, refl, sym, ap, Bool, true, false, if◌then◌else◌, none,
  some, List, [], ◌∷◌, ◌++◌, Text, Exec, Result, ok, err, pure, continue, no_fuel, length,
  length-append, is_empty, keys, lookup, contains, All, All-append, remove_first, arith, eq_of_beq,
  ◌==◌, Bool-cases, Option-cases, inl, inr, list_eq, nat_eq, not_a_directory, fake_path_not_found,
}
use pytagsfs.Util.Unique.{last_unique, last_unique_loop}
use pytagsfs.Util.Paths.{sep, root, starts_with_sep, path_join, path_join_all, join_path_abs}
use pytagsfs.Util.Paths.Joining.{IsPart}
use pytagsfs.PathStore.Entries
use pytagsfs.PathStore.Entries.{Entry, EntryStore, names, get_all_entries}
use pytagsfs.PathStore.PyTypes.{
  PathStore, is_file, is_dir, is_path, get_entries, must_be_dir, must_exist,
}
use pytagsfs.PathStore.EndPoints.{longest, collect, end_points_loop, get_end_points}

path_join-longer : (x e : Text) → IsPart e → length x < length (path_join x e)
unfolding path_join starts_with_sep contains
path_join-longer x [] h = cc
path_join-longer [] (c ∷ e) h = ground arith
path_join-longer (d ∷ x) (c ∷ e) h =
    ground (arith, length-append (d ∷ x) (c ∷ e), length-append (d ∷ x) (sep ∷ c ∷ e))

path_join-start :
    (x e : Text) → starts_with_sep x ≡ true → IsPart e → starts_with_sep (path_join x e) ≡ true
unfolding path_join starts_with_sep contains
path_join-start [] e h k = cc
path_join-start (d ∷ x) [] h k = cc
path_join-start (d ∷ x) (c ∷ e) h k = ground arith

path_join-whole : (x : Text) → starts_with_sep x ≡ true → path_join root x ≡ x
unfolding path_join
path_join-whole x h = rw h refl

remove_first-All {ℓ} :
    (P : Text → Type ℓ) (x : Text) (l : List Text) → All P l → All P (remove_first x l)
unfolding remove_first
remove_first-All P x [] h = tt
remove_first-All P x (y ∷ l) h = elim (Bool-cases (y == x)) [
  | inl e ↦ rw (e, remove_first) h.1
  | inr e ↦ rw (e, remove_first) (h.0, remove_first-All P x l h.1)
]

last_unique_loop-All {ℓ} :
    (P : Text → Type ℓ) (r l : List Text) → All P r → All P l → All P (last_unique_loop r l)
unfolding last_unique_loop
last_unique_loop-All P r [] h k = h
last_unique_loop-All P r (x ∷ l) h k =
    last_unique_loop-All P (remove_first x r ++ x ∷ []) l
      (All-append P (remove_first x r) (x ∷ []) (remove_first-All P x r h) (k.0, tt)) k.1

ok-injective {ℓ} : {A : Type ℓ} {x y : A} → ok x ≡ ok y → x ≡ y
ok-injective e = cc

longest-start : (p : Text) (n : ℕ) → starts_with_sep p ≡ true → n < length p + n
unfolding starts_with_sep
longest-start [] n h = cc
longest-start (c ∷ p) n h = omega arith

some-injective {ℓ} : {A : Type ℓ} {x y : A} → some x ≡ some y → x ≡ y
some-injective e = cc

module _ {ℓ} {M : Type ℓ} where
  -- Every entry is a part of a path.
  abbrev pub HasParts : PathStore M → Type ℓ
  HasParts s =
      (d : Text) (es : List (Entry M)) → lookup d s.entries ≡ some es → All IsPart (names es)

  pub All-HasParts : (s : PathStore M) → All (λ d. All IsPart (names d.1)) s.entries → HasParts s
  unfolding lookup
  All-HasParts s h d es e = go s.entries h e
    where
      go :
          (l : EntryStore M)
          → All (λ d. All IsPart (names d.1)) l
          → lookup d l ≡ some es
          → All IsPart (names es)
      go [] k e = cc
      go ((q, fs) ∷ l) k e = elim (Bool-cases (q == d)) [
        | inl f ↦
            subst (λ x. All IsPart (names x)) (some-injective {x = fs} {y = es} (ground arith)) k.0
        | inr f ↦ go l k.1 (ground arith)
      ]

  lookup-longest :
      (p : Text) (d : EntryStore M) (es : List (Entry M))
      → lookup p d ≡ some es
      → length p ≤ longest (keys d)
  unfolding lookup longest keys
  lookup-longest p [] es h = cc
  lookup-longest p ((q, fs) ∷ d) es h = elim (Bool-cases (q == p)) [
    | inl e ↦ ground (arith, ap length (eq_of_beq q p e))
    | inr e ↦ ground (arith, lookup-longest p d es)
  ]

  -- The store is as it was, and the fuel was enough.
  abbrev IsFine : PathStore M → Result (List Text) × PathStore M → Type ℓ
  IsFine s t = (t.1 ≡ s) × (t.0 ≢ err no_fuel)

  -- A file, or a directory that lists nothing.
  abbrev pub IsEndPoint : PathStore M → Text → Type ℓ
  IsEndPoint s p = (is_file s p ≡ true) ⊎ (get_entries p s ≡ (ok [], s))

  -- And every path of the list is an end point.
  abbrev IsDone : PathStore M → Result (List Text) × PathStore M → Type ℓ
  IsDone s t = IsFine s t × ((l : List Text) → t.0 ≡ ok l → All (IsEndPoint s) l)

  IsDone-bind :
      (s : PathStore M) (t : Result (List Text) × PathStore M)
      (f : List Text → Exec (PathStore M) (List Text))
      → IsFine s t
      → ((l : List Text) → t.0 ≡ ok l → IsDone s (f l s))
      → IsDone s (continue t.0 f t.1)
  IsDone-bind s (ok l, t) f h k = subst (λ u. IsDone s (f l u)) (sym h.0) (k l refl)
  IsDone-bind s (err c, t) f h k = ((h.0, h.1), λ l e. cc)

  IsDone-pure : (s : PathStore M) (l : List Text) → All (IsEndPoint s) l → IsDone s (pure l s)
  IsDone-pure s l h = ((refl, λ e. cc), λ r e. subst (All (IsEndPoint s)) (ok-injective e) h)

  entries_missing :
      (p : Text) (s : PathStore M)
      → lookup p s.entries ≡ none
      → get_entries p s ≡ (if is_file s p then err not_a_directory else err fake_path_not_found, s)
  unfolding get_entries must_be_dir must_exist is_path is_dir
  entries_missing p s e = ground arith

  entries_there :
      (p : Text) (s : PathStore M) (es : List (Entry M))
      → lookup p s.entries ≡ some es
      → get_entries p s ≡ (ok (last_unique (names es)), s)
  unfolding get_entries must_be_dir must_exist is_path is_dir Entries.get_entries get_all_entries
  entries_there p s es e = ground arith

  -- What `get_entries` does: the store is as it was, and a list comes from a directory.
  IsListed : Text → PathStore M → Result (List Text) × PathStore M → Type ℓ
  IsListed p s t =
      IsFine s t
      × ((l : List Text) → t.0 ≡ ok l → (length p ≤ longest (keys s.entries)) × All IsPart l)

  entries_lem : (p : Text) (s : PathStore M) → HasParts s → IsListed p s (get_entries p s)
  unfolding IsListed last_unique
  entries_lem p s parts = elim (Option-cases (lookup p s.entries)) [
    | inl e ↦ subst (IsListed p s) (sym (entries_missing p s e)) (missing (is_file s p))
    | inr (es, e) ↦ subst (IsListed p s) (sym (entries_there p s es e)) (
      (refl, λ k. cc),
      λ l k. (
        lookup-longest p s.entries es e,
        subst (All IsPart) (ok-injective k)
            (last_unique_loop-All IsPart [] (names es) tt (parts p es e)),
      ),
    )
  ]
    where
      missing :
          (b : Bool) → IsListed p s (if b then err not_a_directory else err fake_path_not_found, s)
      missing true = ((refl, λ k. cc), λ l k. cc)
      missing false = ((refl, λ k. cc), λ l k. cc)

  -- A path below which the fuel is enough.
  abbrev IsWithin : PathStore M → ℕ → Text → Type 0
  IsWithin s fuel p = (starts_with_sep p ≡ true) × (longest (keys s.entries) < length p + fuel)

  below-IsWithin :
      (s : PathStore M) (fuel : ℕ) (p e : Text)
      → IsWithin s (suc fuel) p
      → IsPart e
      → IsWithin s fuel (join_path_abs (p ∷ e ∷ []))
  unfolding join_path_abs path_join_all
  below-IsWithin s fuel p e h k =
      rw (path_join-whole p h.0)
        (path_join-start p e h.0 k, omega (arith, h.1, path_join-longer p e k))

  collect-IsDone :
      (below : Text → Exec (PathStore M) (List Text)) (s : PathStore M) (fuel : ℕ) (p : Text)
      (es : List Text)
      → ((q : Text) → IsWithin s fuel q → IsDone s (below q s))
      → IsWithin s (suc fuel) p
      → All IsPart es
      → IsDone s (collect below p es s)
  unfolding collect
  collect-IsDone below s fuel p [] h k parts = IsDone-pure s [] tt
  collect-IsDone below s fuel p (e ∷ es) h k parts =
      let first = h (join_path_abs (p ∷ e ∷ [])) (below-IsWithin s fuel p e k parts.0) in
      let rest = collect-IsDone below s fuel p es h k parts.1 in
      IsDone-bind s (below (join_path_abs (p ∷ e ∷ [])) s) _ first.0 λ l m.
        IsDone-bind s (collect below p es s) _ rest.0
          λ r n. IsDone-pure s (l ++ r) (All-append (IsEndPoint s) l r (first.1 l m) (rest.1 r n))

  IsDone-if :
      (s : PathStore M) (b : Bool) (m n : Exec (PathStore M) (List Text))
      → (b ≡ true → IsDone s (m s))
      → IsDone s (n s)
      → IsDone s ((if b then m else n) s)
  IsDone-if s true m n h k = h refl
  IsDone-if s false m n h k = k

  -- A branch on the state.
  IsDone-if_at :
      (s : PathStore M) (b : Bool) (t u : Result (List Text) × PathStore M)
      → (b ≡ true → IsDone s t)
      → IsDone s u
      → IsDone s (if b then t else u)
  IsDone-if_at s true t u h k = h refl
  IsDone-if_at s false t u h k = k

  nothing_listed :
      (p : Text) (s : PathStore M) (l : List Text)
      → IsListed p s (get_entries p s)
      → (get_entries p s).0 ≡ ok l
      → is_empty l ≡ true
      → IsEndPoint s p
  unfolding IsListed
  nothing_listed p s [] h e k = inr (ap₂ (λ a b. (a, b)) e h.0.0)
  nothing_listed p s (x ∷ l) h e k = cc

  end_points_loop-IsDone :
      (fuel : ℕ) (p : Text) (s : PathStore M)
      → HasParts s
      → IsWithin s fuel p
      → IsDone s (end_points_loop fuel p s)
  unfolding end_points_loop IsListed
  end_points_loop-IsDone zero p s parts h =
      let listed = entries_lem p s parts in
      IsDone-if_at s (is_file s p) (pure (p ∷ []) s) _ (λ f. IsDone-pure s (p ∷ []) (inl f, tt))
        (IsDone-bind s (get_entries p s) _ listed.0
          λ l k. absurd (omega (arith, h.1, (listed.1 l k).0)))
  end_points_loop-IsDone (suc fuel) p s parts h =
      let listed = entries_lem p s parts in
      IsDone-if_at s (is_file s p) (pure (p ∷ []) s) _ (λ f. IsDone-pure s (p ∷ []) (inl f, tt))
        (IsDone-bind s (get_entries p s) _ listed.0 λ l k.
          IsDone-if s (is_empty l) (pure (p ∷ [])) _
            (λ f. IsDone-pure s (p ∷ []) (nothing_listed p s l listed k f, tt))
            (collect-IsDone (end_points_loop fuel) s fuel p l
              (λ q. end_points_loop-IsDone fuel q s parts) h (listed.1 l k).1))

  -- For a path that starts with a separator, in a store in which no entry is empty or has a
  -- separator, `get_end_points` ends by its own tests and leaves the store as it is, and each path
  -- that it returns is a file or a directory without entries.
  pub get_end_points_lem :
      (p : Text) (s : PathStore M)
      → starts_with_sep p ≡ true
      → HasParts s
      → ((get_end_points p s).1 ≡ s)
        × ((get_end_points p s).0 ≢ err no_fuel)
        × ((l : List Text) → (get_end_points p s).0 ≡ ok l → All (IsEndPoint s) l)
  unfolding get_end_points
  get_end_points_lem p s h parts =
      let n = longest (keys s.entries) in
      let done = end_points_loop-IsDone n p s parts (h, longest-start p n h) in
      (done.0.0, done.0.1, done.1)
