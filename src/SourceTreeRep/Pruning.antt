-- ===== src/SourceTreeRep/Pruning.antt =====
-- `_cache_prune_branch_to`: what the cache of a source tree representation still has afterwards.
use pytagsfs.Base.{
  ◌≡◌, refl, ap, ◌∙◌, sym, ℕ, zero, suc, ◌+◌, ◌≤◌, ◌<◌, Bool, true, false, ◌||◌, ◌==◌, is_none,
  if◌then◌else◌, Option, none, some, List, [], ◌∷◌, reverse, Text, length, length-append, ok, err,
  key_error, All, All-reverse, Proc, catch, catch_result, continue, pure, arith, Bool-cases,
  Option-cases, inl, inr, lookup, list_eq, nat_eq, list_beq_iff, list_beq,
}
use pytagsfs.Util.Paths.{sep, root, path_join, path_dirname, join_path_abs, ends_with_sep}
use pytagsfs.Util.Paths.Joining.{
  IsPart, join_back, join_back-IsBase, path_split-join, path_join-end, join_path_abs_back,
  path_join_below, path_join-root,
}
use pytagsfs.PathPropCache
use pytagsfs.PathPropCache.{PathPropCache}
use pytagsfs.PathPropCache.Laws.{is_pruned, cached, prune_lem, get_lem, answer}
use pytagsfs.SourceTreeRep.{
  SourceTreeRep, Cached, cache_get, cache_prune, is_key_error, prune_loop, cache_prune_branch_to,
  on_cache,
}

-- A cache, if there is one, after a `prune` of a path whose KeyError is caught.
abbrev pruned : Text → Option Text → Option (PathPropCache Cached) → Option (PathPropCache Cached)
pruned path key none = none
pruned path key (some d) = some (PathPropCache.prune (some path) key d).1

abbrev pruned_all :
    List Text → Option Text → Option (PathPropCache Cached) → Option (PathPropCache Cached)
pruned_all [] key o = o
pruned_all (path ∷ paths) key o = pruned_all paths key (pruned path key o)

abbrev found : Text → Text → Option (PathPropCache Cached) → Option Cached
found q j none = none
found q j (some d) = cached q j d

cached-prune :
    (path : Text) (key : Option Text) (d : PathPropCache Cached) (q j : Text)
    → cached q j (PathPropCache.prune (some path) key d).1
      ≡ (if is_pruned (some path) key q j then none else cached q j d)
cached-prune path none d q j = elim (Option-cases (lookup path d)) [
  | inl e ↦ ground (arith, (prune_lem (some path) none d q j).1, list_beq_iff path q)
  | inr (path_d, e) ↦ ground (arith, (prune_lem (some path) none d q j).1, list_beq_iff path q)
]
cached-prune path (some key) d q j = elim (Option-cases (cached path key d)) [
  | inl e ↦
      ground
        (arith, (prune_lem (some path) (some key) d q j).1, list_beq_iff path q, list_beq_iff key j)
  | inr (v, e) ↦
      ground
        (arith, (prune_lem (some path) (some key) d q j).1, list_beq_iff path q, list_beq_iff key j)
]

found-pruned :
    (path : Text) (key : Option Text) (o : Option (PathPropCache Cached)) (q j : Text)
    → found q j (pruned path key o) ≡ (if is_pruned (some path) key q j then none else found q j o)
found-pruned path key none q j = elim (Bool-cases (is_pruned (some path) key q j)) [
  | inl e ↦ rw e refl
  | inr e ↦ rw e refl
]
found-pruned path key (some d) q j = cached-prune path key d q j

-- Whether `prune` with one of these paths drops a path and a key.
abbrev pub is_pruned_by : List Text → Option Text → Text → Text → Bool
is_pruned_by [] key q j = false
is_pruned_by (path ∷ paths) key q j = is_pruned (some path) key q j || is_pruned_by paths key q j

found-pruned_all :
    (paths : List Text) (key : Option Text) (o : Option (PathPropCache Cached)) (q j : Text)
    → found q j (pruned_all paths key o)
      ≡ (if is_pruned_by paths key q j then none else found q j o)
found-pruned_all [] key o q j = refl
found-pruned_all (path ∷ paths) key o q j =
    ground (arith, found-pruned_all paths key (pruned path key o) q j, found-pruned path key o q j)

module _ {ℓ} {W : Type ℓ} where
  abbrev prune_step : Text → Option Text → Proc (SourceTreeRep W)
  prune_step path key = catch is_key_error (pure tt) (cache_prune (some path) key)

  -- `prune` of a path raises nothing but KeyError.
  caught :
      (path : Text) (key : Option Text) (d : PathPropCache Cached) (s : SourceTreeRep W)
      → catch_result is_key_error (pure tt) ((PathPropCache.prune (some path) key d).0, s)
        ≡ (ok tt, s)
  caught path none d s =
      ap (λ r. catch_result is_key_error (pure tt) (r, s)) (prune_lem (some path) none d [] []).0
      ∙ elim (Bool-cases (is_none (lookup path d))) [ inl e ↦ rw e refl | inr e ↦ rw e refl ]
  caught path (some key) d s =
      ap (λ r. catch_result is_key_error (pure tt) (r, s))
        (prune_lem (some path) (some key) d [] []).0
      ∙ elim (Bool-cases (is_none (cached path key d))) [ inl e ↦ rw e refl | inr e ↦ rw e refl ]

  prune_step_lem :
      (path : Text) (key : Option Text) (s : SourceTreeRep W)
      → prune_step path key s ≡ (ok tt, record s { cache = pruned path key s.cache })
  unfolding cache_prune on_cache
  prune_step_lem path key s = go s.cache
    where
      go :
          (o : Option (PathPropCache Cached))
          → prune_step path key (record s { cache = o })
            ≡ (ok tt, record s { cache = pruned path key o })
      go none = refl
      go (some d) = caught path key d _

-- The path that parts make, given from the last to the first, and the paths above it.
abbrev branch_back : List Text → List Text
branch_back [] = root ∷ []
branch_back (p ∷ ps) = join_back (p ∷ ps) ∷ branch_back ps

-- The path that parts make, and the paths of the directories on the way to it.
abbrev pub branch : List Text → List Text
branch parts = branch_back (reverse parts)

join_back_below_root :
    (p : Text) (ps : List Text) → All IsPart (p ∷ ps) → (join_back (p ∷ ps) == root) ≡ false
unfolding ends_with_sep
join_back_below_root p ps h = elim (Bool-cases (join_back (p ∷ ps) == root)) [
  | inl e ↦ ground (
    arith,
    (path_join-end (join_back ps) p (join_back-IsBase ps h.1) h.0).0,
    list_beq_iff (join_back (p ∷ ps)) root,
  )
  | inr e ↦ e
]

part-length : (p : Text) → IsPart p → 1 ≤ length p
part-length [] h = cc
part-length (c ∷ p) h = omega arith

length-join_back : (ps : List Text) → All IsPart ps → length ps ≤ length (join_back ps)
length-join_back [] h = omega arith
length-join_back (p ∷ ps) h = elim (join_back-IsBase ps h.1) [
  | inl e ↦ omega (
    arith,
    length-join_back ps h.1,
    ap length e,
    ap length (ap (λ x. path_join x p) e ∙ path_join-root p h.0),
    part-length p h.0,
  )
  | inr (e, n) ↦ omega (
    arith,
    length-join_back ps h.1,
    ap length (path_join_below (join_back ps) p e n h.0),
    length-append (join_back ps) (sep ∷ p),
  )
]

answer_if :
    (b : Bool) (o : Option Cached)
    → answer (if b then none else o) ≡ (if b then err key_error else answer o)
answer_if true o = refl
answer_if false o = refl

module _ {ℓ} {W : Type ℓ} where
  prune_loop_lem :
      (fuel : ℕ) (ps : List Text) (key : Option Text) (s : SourceTreeRep W)
      → All IsPart ps
      → length ps < fuel
      → prune_loop fuel (join_back ps) key s
        ≡ (ok tt, record s { cache = pruned_all (branch_back ps) key s.cache })
  unfolding prune_loop list_beq
  prune_loop_lem zero ps key s h k = ground arith
  prune_loop_lem (suc fuel) [] key s h k =
      ap (λ t. continue t.0 (λ _. pure tt) t.1) (prune_step_lem root key s)
  prune_loop_lem (suc fuel) (p ∷ ps) key s h k =
      let path = join_back (p ∷ ps) in
      let above = prune_loop fuel (path_dirname path) key in
      let t = record s { cache = pruned path key s.cache } in
      ap (λ t. continue t.0 (λ _. if path == root then pure tt else above) t.1)
        (prune_step_lem path key s)
      ∙ ap (λ b. (if b then pure tt else above) t) (join_back_below_root p ps h)
      ∙ ap (λ q. prune_loop fuel q.0 key t)
          (path_split-join (join_back ps) p (join_back-IsBase ps h.1) h.0)
      ∙ prune_loop_lem fuel ps key t h.1 (omega (arith, k))

  cache_get_lem :
      (q j : Text) (s : SourceTreeRep W) → (cache_get q j s).0 ≡ answer (found q j s.cache)
  unfolding cache_get on_cache
  cache_get_lem q j s = go s.cache
    where
      go :
          (o : Option (PathPropCache Cached))
          → (cache_get q j (record s { cache = o })).0 ≡ answer (found q j o)
      go none = refl
      go (some d) = get_lem q j d

  -- `_cache_prune_branch_to` of a path that is made of parts, each not empty and without a separator,
  -- ends by its own test and raises nothing. It leaves the path store as it is, and from then on
  -- `_cache_get` raises KeyError for what a `prune` of the path or of a directory on the way to it
  -- names, and for everything else it answers as before.
  pub cache_get-prune_branch :
      (parts : List Text) (key : Option Text) (s : SourceTreeRep W)
      → All IsPart parts
      → let after = cache_prune_branch_to (join_path_abs parts) key s in
        (after.0 ≡ ok tt)
        × (after.1.path_store ≡ s.path_store)
        × ((q j : Text)
            → (cache_get q j after.1).0 ≡ (
                if is_pruned_by (branch parts) key q j then err key_error else (cache_get q j s).0))
  unfolding cache_prune_branch_to
  cache_get-prune_branch parts key s h =
      let back = reverse parts in
      let back_parts = All-reverse IsPart parts h in
      let e =
        ap (λ p. prune_loop (length p + 1) p key s) (join_path_abs_back parts)
        ∙ prune_loop_lem (length (join_back back) + 1) back key s back_parts
            (omega (arith, length-join_back back back_parts)) in
      (
        ap (λ t. t.0) e,
        ap (λ t. t.1.path_store) e,
        λ q j.
            ap (λ t. (cache_get q j t.1).0) e
            ∙ cache_get_lem q j (record s { cache = pruned_all (branch parts) key s.cache })
            ∙ ap answer (found-pruned_all (branch parts) key s.cache q j)
            ∙ answer_if (is_pruned_by (branch parts) key q j) (found q j s.cache)
            ∙ ap (λ r. if is_pruned_by (branch parts) key q j then err key_error else r)
                (sym (cache_get_lem q j s)),
      )
