-- ===== src/SourceTreeRep/FilledPaths.antt =====
-- The virtual paths that `fill_path` makes.
use pytagsfs.Base.{
  ◌≡◌, refl, ap, ◌∙◌, sym, List, [], ◌∷◌, Text, Result, ok, err, contains, is_empty, All, arith,
  Bool-cases, inl, inr, list_eq, nat_eq,
}
use pytagsfs.Util.Paths.{sep, join_path_abs, split_path}
use pytagsfs.Util.Paths.Joining.{IsPart, split_path-join_path_abs}
use pytagsfs.Patterns.{Nodes}
use pytagsfs.Patterns.Filling.{CaseMap, Filled, filled, fill_error, Substitutions, fill}
use pytagsfs.SourceTreeRep.Filling.{checked_part, cons_part, joined, fill_parts, fill_path}

ok-injective {ℓ} : {A : Type ℓ} (x y : A) → ok x ≡ ok y → x ≡ y
ok-injective x y e = cc

head-injective : (x y : Text) {xs ys : List Text} → x ∷ xs ≡ y ∷ ys → x ≡ y
head-injective x y e = cc

module _ (case_map : CaseMap) (d : Substitutions) where
  -- Each part is what its pattern is filled to, it is not empty and it has no separator.
  pub AreParts : List Nodes → List Text → Type 0
  AreParts [] [] = Unit
  AreParts [] (t ∷ ts) = ⊥
  AreParts (pattern ∷ patterns) [] = ⊥
  AreParts (pattern ∷ patterns) (t ∷ ts) =
      (fill case_map pattern d ≡ filled t) × IsPart t × AreParts patterns ts

  checked_part-IsPart : (f : Filled) (t : Text) → checked_part f ≡ ok t → (f ≡ filled t) × IsPart t
  unfolding checked_part
  checked_part-IsPart (fill_error x d ps) t e = cc
  checked_part-IsPart (filled s) t e = elim (Bool-cases (is_empty s)) [
    | inl h ↦ ground arith
    | inr h ↦ elim (Bool-cases (contains sep s)) [ inl k ↦ ground arith | inr k ↦ ground arith ]
  ]

  fill_parts-AreParts :
      (patterns : List Nodes) (parts : List Text)
      → fill_parts case_map patterns d ≡ ok parts
      → AreParts patterns parts
  unfolding fill_parts AreParts
  fill_parts-AreParts [] [] e = tt
  fill_parts-AreParts [] (t ∷ ts) e = cc
  fill_parts-AreParts (pattern ∷ patterns) parts e =
      go (fill case_map pattern d) refl (checked_part (fill case_map pattern d)) refl
        (fill_parts case_map patterns d) (fill_parts-AreParts patterns) parts e
    where
      go :
          (f : Filled)
          → fill case_map pattern d ≡ f
          → (c : Result Text) → checked_part (fill case_map pattern d) ≡ c
          → (r : Result (List Text)) → ((ts : List Text) → r ≡ ok ts → AreParts patterns ts)
          → (ts : List Text) → cons_part c r ≡ ok ts
          → AreParts (pattern ∷ patterns) ts
      go f ef (err x) ec r ih ts g = cc
      go f ef (ok t) ec (err x) ih ts g = cc
      go f ef (ok t) ec (ok us) ih [] g = cc
      go f ef (ok t) ec (ok us) ih (v ∷ vs) g =
          let h = checked_part-IsPart (fill case_map pattern d) t ec in
          let same = ok-injective (t ∷ us) (v ∷ vs) g in
          (cc, rw (head-injective v t (sym same)) h.1, ih vs (cc))

  AreParts-IsPart :
      (patterns : List Nodes) (parts : List Text) → AreParts patterns parts → All IsPart parts
  unfolding AreParts
  AreParts-IsPart [] [] h = tt
  AreParts-IsPart [] (t ∷ ts) h = elim h [ ]
  AreParts-IsPart (pattern ∷ patterns) [] h = elim h [ ]
  AreParts-IsPart (pattern ∷ patterns) (t ∷ ts) h = (h.1, AreParts-IsPart patterns ts h.2)

  -- Where `fill_path` returns a path for at least one pattern, `split_path` of the path gives one part
  -- for each pattern, in their order: what the pattern is filled to, not empty and without a
  -- separator.
  pub split_path-fill_path :
      (pattern : Nodes) (patterns : List Nodes) (path : Text)
      → fill_path case_map (pattern ∷ patterns) d ≡ ok path
      → (parts : List Text) × (split_path path ≡ ok parts) × AreParts (pattern ∷ patterns) parts
  unfolding fill_path AreParts
  split_path-fill_path pattern patterns path e =
      go (fill_parts case_map (pattern ∷ patterns) d) (fill_parts-AreParts (pattern ∷ patterns)) e
    where
      go :
          (r : Result (List Text))
          → ((ts : List Text) → r ≡ ok ts → AreParts (pattern ∷ patterns) ts)
          → joined r ≡ ok path
          → (parts : List Text) × (split_path path ≡ ok parts) × AreParts (pattern ∷ patterns) parts
      go (err c) h g = cc
      go (ok []) h g = elim (h [] refl) [ ]
      go (ok (t ∷ ts)) h g =
          let parts = h (t ∷ ts) refl in
          (
            t ∷ ts,
            ap split_path (sym (ok-injective (join_path_abs (t ∷ ts)) path g))
                ∙ split_path-join_path_abs t ts
                    (AreParts-IsPart (pattern ∷ patterns) (t ∷ ts) parts),
            parts,
          )
