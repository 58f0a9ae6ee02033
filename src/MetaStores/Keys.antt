-- ===== src/MetaStores/Keys.antt =====
-- The keys that a delegating store returns.
use mathlib.Core.Path.{sym, subst}
use pytagsfs.Base.{
  some, ◌>>=◌, ℕ, ◌+◌, ◌≤◌, ◌≡◌, refl, if◌then◌else◌, is_none, none, List, [], ◌∷◌, ◌++◌, Text,
  lookup, erase, count, count-append, All, Result, ok, err, continue, pure, catch, arith,
  Option-cases, inl, inr, list_eq, nat_eq, list_beq_iff, lookup-erase, catch_result, Bool-cases,
}
use pytagsfs.Values.{Values}
use pytagsfs.MetaStores.{MetaStore, is_not_implemented, delete_keys, set_loop, delegate_set}

-- How often a key may be taken from the values.
abbrev pub room : Text → Values → ℕ
room k values = if is_none (lookup k values) then 0 else 1

ok-injective {ℓ} : {A : Type ℓ} {x y : A} → ok x ≡ ok y → x ≡ y
ok-injective e = cc

room-none :
    (k : Text) (values rest : Values)
    → (lookup k values ≡ none → lookup k rest ≡ none)
    → room k rest ≤ room k values
room-none k values rest h = elim (Option-cases (lookup k values)) [
  | inl e ↦ rw (e, h e) (omega arith)
  | inr (v, e) ↦ ground (arith, e)
]

module _ {ℓ} {W : Type ℓ} where
  -- Whether `set` of a store returns or raises, it puts no key into the dict that was not there.
  abbrev pub AddsNoKey : MetaStore W → Type ℓ
  AddsNoKey store =
      (path k : Text) (values : Values) (w : W)
      → lookup k values ≡ none
      → lookup k (store.set path (values, w)).1.0 ≡ none

  -- After keys were deleted, there is room for those that are left.
  abbrev Deletes : Text → List Text → Values → Result (Unit {0}) × (Values × W) → Type 0
  Deletes k new_keys values (ok u, (rest, w)) = count k new_keys + room k rest ≡ room k values
  Deletes k new_keys values (err c, s) = Unit

  delete_keys-Deletes :
      (new_keys : List Text) (k : Text) (values : Values) (w : W)
      → Deletes k new_keys values (delete_keys new_keys (values, w))
  unfolding delete_keys count
  delete_keys-Deletes [] k values w = omega arith
  delete_keys-Deletes (key ∷ new_keys) k values w = elim (Option-cases (lookup key values)) [
    | inl e ↦ rw (e, delete_keys) tt
    | inr (v, e) ↦
        rw (e, delete_keys)
          (more v e (delete_keys new_keys (erase key values, w))
            (delete_keys-Deletes new_keys k (erase key values) w))
  ]
    where
      more :
          (v : List Text)
          → lookup key values ≡ some v
          → (t : Result (Unit {0}) × (Values × W)) → Deletes k new_keys (erase key values) t
          → Deletes k (key ∷ new_keys) values t
      more v e (ok u, (rest, x)) h =
          ground (arith, e, h, lookup-erase key k values, list_beq_iff key k)
      more v e (err c, x) h = tt

  -- A list of keys has each key as often as there is room for it.
  abbrev Fits : Text → Values → Result (List Text) × (Values × W) → Type 0
  Fits k values (ok keys, s) = count k keys ≤ room k values
  Fits k values (err c, s) = Unit

  append-Fits :
      (k : Text) (values rest : Values) (new_keys : List Text)
      (t : Result (List Text) × (Values × W))
      → count k new_keys + room k rest ≤ room k values
      → Fits k rest t
      → Fits k values (continue t.0 (λ keys. pure (new_keys ++ keys)) t.1)
  append-Fits k values rest new_keys (ok keys, s) e h =
      omega (arith, e, h, count-append k new_keys keys)
  append-Fits k values rest new_keys (err c, s) e h = tt

  caught-state :
      (t : Result (List Text) × (Values × W))
      → (catch_result is_not_implemented (pure []) t).1 ≡ t.1
  caught-state (ok keys, s) = refl
  caught-state (err c, s) = elim (Bool-cases (is_not_implemented c)) [
    | inl e ↦ rw e refl
    | inr e ↦ rw e refl
  ]

  set_loop-Fits :
      (k : Text) (stores : List (MetaStore W)) (path : Text) (values : Values) (w : W)
      → All AddsNoKey stores
      → Fits k values (set_loop stores path (values, w))
  unfolding set_loop count
  set_loop-Fits k [] path values w h = ground arith
  set_loop-Fits k (store ∷ stores) path values w h =
      go (catch is_not_implemented (pure []) (store.set path) (values, w))
        (subst (λ s. room k s.0 ≤ room k values) (sym (caught-state (store.set path (values, w))))
          (room-none k values (store.set path (values, w)).1.0 (h.0 path k values w)))
        (λ rest v. set_loop-Fits k stores path rest v h.1)
    where
      deleted :
          (new_keys : List Text) (found : Values) (t : Result (Unit {0}) × (Values × W))
          → room k found ≤ room k values
          → Deletes k new_keys found t
          → ((rest : Values) (v : W) → Fits k rest (set_loop stores path (rest, v)))
          → Fits k values
              (continue t.0 (λ u. set_loop stores path >>= λ keys. pure (new_keys ++ keys)) t.1)
      deleted new_keys found (ok u, (rest, v)) h d ih =
          append-Fits k values rest new_keys (set_loop stores path (rest, v)) (omega (arith, h, d))
            (ih rest v)
      deleted new_keys found (err c, s) h d ih = tt

      go :
          (t : Result (List Text) × (Values × W))
          → room k t.1.0 ≤ room k values
          → ((rest : Values) (v : W) → Fits k rest (set_loop stores path (rest, v)))
          → Fits k values (
              continue t.0
                (λ new_keys. delete_keys new_keys >>= λ u.
                  set_loop stores path >>= λ keys. pure (new_keys ++ keys))
                t.1)
      go (ok new_keys, (found, v)) h ih =
          deleted new_keys found (delete_keys new_keys (found, v)) h
            (delete_keys-Deletes new_keys k found v) ih
      go (err c, s) h ih = tt

  -- Where no store adds a key to the dict that it is passed, and `set` of a delegating store returns
  -- keys, each key stands among the returned keys at most once, and only if the values that were
  -- given have it.
  pub delegate_set_lem :
      (stores : List (MetaStore W)) (path : Text) (values : Values) (w : W) (keys : List Text)
      (k : Text)
      → All AddsNoKey stores
      → (delegate_set stores path values w).0 ≡ ok keys
      → count k keys ≤ room k values
  unfolding delegate_set
  delegate_set_lem stores path values w keys k a h =
      go (set_loop stores path (values, w)) (set_loop-Fits k stores path values w a) h
    where
      go :
          (t : Result (List Text) × (Values × W))
          → Fits k values t
          → t.0 ≡ ok keys
          → count k keys ≤ room k values
      go (ok found, v) f e = subst (λ l. count k l ≤ room k values) (ok-injective e) f
      go (err c, v) f e = cc
