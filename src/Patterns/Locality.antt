-- ===== src/Patterns/Locality.antt =====
-- Filling a pattern looks up its variables and nothing else.
use mathlib.Core.Path.{ap₂}
use pytagsfs.Base.{
  ◌≡◌, refl, ap, ◌∙◌, sym, List, [], ◌∷◌, Option, Text, lookup, All, All-left, All-right,
  Option-cases, inl, inr, list_eq, nat_eq,
}
use pytagsfs.Patterns.{
  Modifier, Node, text_node, long_key, short_key, conditional, if_else, Nodes, no_nodes, cons,
  print_node,
}
use pytagsfs.Patterns.Filling.{
  CaseMap, Filled, filled, fill_error, Substitutions, join_filled, or_empty, or_other,
  fill_variable, fill_node, fill,
}
use pytagsfs.Patterns.Needs.{variables_node, variables}

-- Two dicts have the same values for the names, or none for both.
abbrev pub Agree : Substitutions → Substitutions → List Text → Type 0
Agree d e = All (λ name. lookup name d ≡ lookup name e)

-- The same text, or an error with the same expression and the same parameters that has the
-- substitutions `e`.
abbrev pub raised_with : Substitutions → Filled → Filled
raised_with e (filled s) = filled s
raised_with e (fill_error x d ps) = fill_error x e ps

raised_with-join :
    (e : Substitutions) (a b : Filled)
    → join_filled (raised_with e a) (raised_with e b) ≡ raised_with e (join_filled a b)
raised_with-join e (filled s) (filled t) = refl
raised_with-join e (filled s) (fill_error x d ps) = refl
raised_with-join e (fill_error x d ps) b = refl

raised_with-or_empty :
    (e : Substitutions) (a : Filled) → or_empty (raised_with e a) ≡ raised_with e (or_empty a)
raised_with-or_empty e (filled s) = refl
raised_with-or_empty e (fill_error x d ps) = refl

raised_with-or_other :
    (x : Text) (d e : Substitutions) (a b : Filled)
    → or_other x e (raised_with e a) (raised_with e b) ≡ raised_with e (or_other x d a b)
raised_with-or_other x d e (filled s) b = refl
raised_with-or_other x d e (fill_error y f ps) (filled t) = refl
raised_with-or_other x d e (fill_error y f ps) (fill_error z g qs) = refl

module _ (case_map : CaseMap) where
  variable-local :
      (x : Text) (m : Option Modifier) (name : Text) (d e : Substitutions)
      → lookup name d ≡ lookup name e
      → fill_variable case_map x m name e ≡ raised_with e (fill_variable case_map x m name d)
  unfolding fill_variable
  variable-local x m name d e h = elim (Option-cases (lookup name d)) [
    | inl g ↦ rw (g, sym h ∙ g, fill_variable) refl
    | inr (v, g) ↦ rw (g, sym h ∙ g, fill_variable) refl
  ]

  mutual
    unfolding fill_node variables_node

    node-local :
        (n : Node) (d e : Substitutions)
        → Agree d e (variables_node n)
        → fill_node case_map n e ≡ raised_with e (fill_node case_map n d)
    node-local (text_node s) d e h = refl
    node-local (long_key m name) d e h =
        variable-local (print_node (long_key m name)) m name d e h.0
    node-local (short_key m c) d e h =
        variable-local (print_node (short_key m c)) m (c ∷ []) d e h.0
    node-local (conditional ns) d e h =
        ap or_empty (nodes-local ns d e h) ∙ raised_with-or_empty e (fill case_map ns d)
    node-local (if_else ls rs) d e h =
        ap₂ (or_other (print_node (if_else ls rs)) e)
          (nodes-local ls d e (All-left _ (variables ls) (variables rs) h))
          (nodes-local rs d e (All-right _ (variables ls) (variables rs) h))
        ∙ raised_with-or_other (print_node (if_else ls rs)) d e (fill case_map ls d)
            (fill case_map rs d)

    nodes-local :
        (ns : Nodes) (d e : Substitutions)
        → Agree d e (variables ns)
        → fill case_map ns e ≡ raised_with e (fill case_map ns d)
    nodes-local no_nodes d e h = refl
    nodes-local (cons n ns) d e h =
        ap₂ join_filled (node-local n d e (All-left _ (variables_node n) (variables ns) h))
          (nodes-local ns d e (All-right _ (variables_node n) (variables ns) h))
        ∙ raised_with-join e (fill_node case_map n d) (fill case_map ns d)

  -- Two dicts of substitutions that agree on the variables of a pattern, wherever they stand in it,
  -- fill it alike: with the same text, or with errors that have the same expression and the same
  -- undefined parameters in the same order, and differ only in that the second error has the second
  -- dict as its substitutions.
  pub fill-local :
      (ns : Nodes) (d e : Substitutions)
      → Agree d e (variables ns)
      → fill case_map ns e ≡ raised_with e (fill case_map ns d)
  fill-local ns d e h = nodes-local ns d e h
