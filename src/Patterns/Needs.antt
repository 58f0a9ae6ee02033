-- ===== src/Patterns/Needs.antt =====
-- When a pattern can be filled, and what it depends on.
use mathlib.Core.Path.{ap₂}
use pytagsfs.Base.{
  ◌≡◌, refl, ◌∙◌, Bool, true, false, not, ◌&&◌, ◌||◌, Option, none, List, [], ◌∷◌, ◌++◌, Text,
  lookup, is_none, All, All-append, Option-cases, inl, inr, list_eq, nat_eq,
}
use pytagsfs.Patterns.{
  Modifier, Node, text_node, long_key, short_key, conditional, if_else, Nodes, no_nodes, cons,
  print_node,
}
use pytagsfs.Patterns.Filling.{
  CaseMap, Filled, filled, fill_error, Substitutions, join_filled, or_empty, or_other,
  fill_variable, fill_node, fill,
}

abbrev pub is_filled : Filled → Bool
is_filled (filled s) = true
is_filled (fill_error x d ps) = false

-- The parameters of the error.
abbrev pub missing : Filled → List Text
missing (filled s) = []
missing (fill_error x d ps) = ps

unfoldable mutual
  -- Whether the substitutions have what a node needs: every variable outside the conditional
  -- sections, and for a choice those of one side.
  pub suffices_node : Node → Substitutions → Bool
  suffices_node (text_node s) d = true
  suffices_node (long_key m name) d = not (is_none (lookup name d))
  suffices_node (short_key m c) d = not (is_none (lookup (c ∷ []) d))
  suffices_node (conditional ns) d = true
  suffices_node (if_else ls rs) d = suffices ls d || suffices rs d

  pub suffices : Nodes → Substitutions → Bool
  suffices no_nodes d = true
  suffices (cons n ns) d = suffices_node n d && suffices ns d

unfoldable mutual
  -- The names of the variables, wherever they stand.
  pub variables_node : Node → List Text
  variables_node (text_node s) = []
  variables_node (long_key m name) = name ∷ []
  variables_node (short_key m c) = (c ∷ []) ∷ []
  variables_node (conditional ns) = variables ns
  variables_node (if_else ls rs) = variables ls ++ variables rs

  pub variables : Nodes → List Text
  variables no_nodes = []
  variables (cons n ns) = variables_node n ++ variables ns

is_filled-join : (a b : Filled) → is_filled (join_filled a b) ≡ (is_filled a && is_filled b)
is_filled-join (filled s) (filled t) = refl
is_filled-join (filled s) (fill_error x d ps) = refl
is_filled-join (fill_error x d ps) b = refl

is_filled-or_other :
    (z : Text) (f : Substitutions) (a b : Filled)
    → is_filled (or_other z f a b) ≡ (is_filled a || is_filled b)
is_filled-or_other z f (filled s) b = refl
is_filled-or_other z f (fill_error x d ps) (filled t) = refl
is_filled-or_other z f (fill_error x d ps) (fill_error y e qs) = refl

is_filled-or_empty : (a : Filled) → is_filled (or_empty a) ≡ true
is_filled-or_empty (filled s) = refl
is_filled-or_empty (fill_error x d ps) = refl

-- A parameter that is not defined.
abbrev pub IsUndefined : Substitutions → Text → Type 0
IsUndefined d name = lookup name d ≡ none

missing-join :
    (d : Substitutions) (a b : Filled)
    → All (IsUndefined d) (missing a)
    → All (IsUndefined d) (missing b)
    → All (IsUndefined d) (missing (join_filled a b))
missing-join d (filled s) (filled t) h k = tt
missing-join d (filled s) (fill_error x e ps) h k = k
missing-join d (fill_error x e ps) b h k = h

missing-or_other :
    (z : Text) (d : Substitutions) (a b : Filled)
    → All (IsUndefined d) (missing a)
    → All (IsUndefined d) (missing b)
    → All (IsUndefined d) (missing (or_other z d a b))
missing-or_other z d (filled s) b h k = tt
missing-or_other z d (fill_error x e ps) (filled t) h k = tt
missing-or_other z d (fill_error x e ps) (fill_error y f qs) h k =
    All-append (IsUndefined d) ps qs h k

missing-or_empty : (d : Substitutions) (a : Filled) → All (IsUndefined d) (missing (or_empty a))
missing-or_empty d (filled s) = tt
missing-or_empty d (fill_error x e ps) = tt

module _ (case_map : CaseMap) where
  variable_lem :
      (x : Text) (m : Option Modifier) (name : Text) (d : Substitutions)
      → (is_filled (fill_variable case_map x m name d) ≡ not (is_none (lookup name d)))
        × All (IsUndefined d) (missing (fill_variable case_map x m name d))
  unfolding fill_variable
  variable_lem x m name d = elim (Option-cases (lookup name d)) [
    | inl e ↦ rw (e, fill_variable) (refl, (e, tt))
    | inr (v, e) ↦ rw (e, fill_variable) (refl, tt)
  ]

  mutual
    unfolding fill_node suffices_node

    node_lem :
        (n : Node) (d : Substitutions)
        → (is_filled (fill_node case_map n d) ≡ suffices_node n d)
          × All (IsUndefined d) (missing (fill_node case_map n d))
    node_lem (text_node s) d = (refl, tt)
    node_lem (long_key m name) d = variable_lem (print_node (long_key m name)) m name d
    node_lem (short_key m c) d = variable_lem (print_node (short_key m c)) m (c ∷ []) d
    node_lem (conditional ns) d =
        (is_filled-or_empty (fill case_map ns d), missing-or_empty d (fill case_map ns d))
    node_lem (if_else ls rs) d =
        let l = nodes_lem ls d in
        let r = nodes_lem rs d in
        let x = print_node (if_else ls rs) in
        (
          is_filled-or_other x d (fill case_map ls d) (fill case_map rs d)
              ∙ ap₂ (λ a b. a || b) l.0 r.0,
          missing-or_other x d (fill case_map ls d) (fill case_map rs d) l.1 r.1,
        )

    nodes_lem :
        (ns : Nodes) (d : Substitutions)
        → (is_filled (fill case_map ns d) ≡ suffices ns d)
          × All (IsUndefined d) (missing (fill case_map ns d))
    nodes_lem no_nodes d = (refl, tt)
    nodes_lem (cons n ns) d =
        let a = node_lem n d in
        let b = nodes_lem ns d in
        (
          is_filled-join (fill_node case_map n d) (fill case_map ns d)
              ∙ ap₂ (λ a b. a && b) a.0 b.0,
          missing-join d (fill_node case_map n d) (fill case_map ns d) a.1 b.1,
        )

  -- `fill` of a pattern succeeds exactly if the substitutions have every variable that stands
  -- outside its conditional sections, where a choice needs those of one of its sides, and else
  -- each parameter that the error names is undefined.
  pub fill_lem :
      (ns : Nodes) (d : Substitutions)
      → (is_filled (fill case_map ns d) ≡ suffices ns d)
        × All (IsUndefined d) (missing (fill case_map ns d))
  fill_lem ns d = nodes_lem ns d
