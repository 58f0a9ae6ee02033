-- ===== src/PathPropCache/Laws.antt =====
-- What the cache answers after `put` and `prune`.
use pytagsfs.Base.{
  is_none, ◌≡◌, refl, Bool, true, false, ◌&&◌, ◌==◌, if◌then◌else◌, Option, none, some, [], Text,
  lookup, insert, erase, Result, ok, err, arith, list_eq, nat_eq, list_beq_iff, lookup-insert,
  lookup-erase, Option-cases, inl, inr, key_error, value_error,
}
use pytagsfs.PathPropCache.{PathPropCache, put, get, prune, delete_key, delete_path, path_dict}

-- Whether `prune` with these arguments is to drop a path and a key.
abbrev pub is_pruned : Option Text → Option Text → Text → Text → Bool
is_pruned none none q j = true
is_pruned none (some key) q j = false
is_pruned (some path) none q j = path == q
is_pruned (some path) (some key) q j = path == q && key == j

abbrev pub is_ok {ℓ} : {A : Type ℓ} → Result A → Bool
is_ok (ok a) = true
is_ok (err c) = false

module _ {ℓ} {V : Type ℓ} where
  -- What the cache has at a path and a key.
  abbrev pub cached : Text → Text → PathPropCache V → Option V
  cached path key d = elim (lookup path d) [ none ↦ none | some path_d ↦ lookup key path_d ]

  abbrev pub answer : Option V → Result V
  answer none = err key_error
  answer (some v) = ok v

  pub get_lem :
      (path key : Text) (d : PathPropCache V) → (get path key d).0 ≡ answer (cached path key d)
  unfolding get
  get_lem path key d = elim (Option-cases (lookup path d)) [
    | inl e ↦ ground arith
    | inr (path_d, e) ↦ elim (Option-cases (lookup key path_d)) [
      | inl e' ↦ ground arith
      | inr (v, e') ↦ ground arith
    ]
  ]

  cached-put :
      (path key : Text) (v : V) (d : PathPropCache V) (q j : Text)
      → cached q j (put path key v d).1 ≡ (if path == q && key == j then some v else cached q j d)
  unfolding put path_dict lookup
  cached-put path key v d q j = elim (Option-cases (lookup path d)) [
    | inl e ↦ ground (
      arith,
      lookup-insert path q (insert key v []) d,
      lookup-insert key j v [],
      list_beq_iff path q,
      list_beq_iff key j,
    )
    | inr (path_d, e) ↦ ground (
      arith,
      lookup-insert path q (insert key v path_d) d,
      lookup-insert key j v path_d,
      list_beq_iff path q,
      list_beq_iff key j,
    )
  ]

  -- `get` at the path and the key of a `put` then returns its value, and at every other path and
  -- key what it returned or raised before.
  pub get-put :
      (path key : Text) (v : V) (d : PathPropCache V) (q j : Text)
      → (get q j (put path key v d).1).0 ≡ (if path == q && key == j then ok v else (get q j d).0)
  get-put path key v d q j =
      ground (arith, get_lem q j (put path key v d).1, cached-put path key v d q j, get_lem q j d)

  -- What `prune` raises.
  abbrev pub prune_answer : Option Text → Option Text → PathPropCache V → Result (Unit {0})
  prune_answer none none d = ok tt
  prune_answer none (some key) d = err value_error
  prune_answer (some path) none d = if is_none (lookup path d) then err key_error else ok tt
  prune_answer (some path) (some key) d =
      if is_none (cached path key d) then err key_error else ok tt

  pub prune_lem :
      (path key : Option Text) (d : PathPropCache V) (q j : Text)
      → ((prune path key d).0 ≡ prune_answer path key d)
        × (cached q j (prune path key d).1 ≡ (
            if is_ok (prune_answer path key d) && is_pruned path key q j
            then none
            else cached q j d))
  unfolding prune delete_key delete_path lookup
  prune_lem none none d q j = (refl, refl)
  prune_lem none (some key) d q j = (refl, refl)
  prune_lem (some path) none d q j = elim (Option-cases (lookup path d)) [
    | inl e ↦ (ground arith, ground arith)
    | inr (path_d, e) ↦ (ground arith, ground (arith, lookup-erase path q d, list_beq_iff path q))
  ]
  prune_lem (some path) (some key) d q j = elim (Option-cases (lookup path d)) [
    | inl e ↦ (ground arith, ground arith)
    | inr (path_d, e) ↦ elim (Option-cases (lookup key path_d)) [
      | inl e' ↦ (ground arith, ground arith)
      | inr (v, e') ↦ (
        ground arith,
        ground (
          arith,
          lookup-insert path q (erase key path_d) d,
          lookup-erase key j path_d,
          list_beq_iff path q,
          list_beq_iff key j,
        ),
      )
    ]
  ]

  -- `prune` raises ValueError for a key without a path, and KeyError for a path or a key of a path
  -- that the cache lacks. Where it returns, `get` raises KeyError at each path and key that its
  -- arguments name, and answers as before at every other one, and where it raises everywhere.
  pub get-prune :
      (path key : Option Text) (d : PathPropCache V) (q j : Text)
      → ((prune path key d).0 ≡ prune_answer path key d)
        × ((get q j (prune path key d).1).0 ≡ (
            if is_ok (prune_answer path key d) && is_pruned path key q j
            then err key_error
            else (get q j d).0))
  get-prune path key d q j = (
    (prune_lem path key d q j).0,
    ground (arith, get_lem q j (prune path key d).1, (prune_lem path key d q j).1, get_lem q j d),
  )
