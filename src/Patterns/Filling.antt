-- ===== src/Patterns/Filling.antt =====
-- The `fill` methods of modules/pytagsfs/subspat.py. `lower`, `upper` and `title` of a unicode object
-- are the interpreter's, in the interface `CaseMap`. A node's `expression` is what `print_node` gives.
use pytagsfs.Base.{Option, none, some, List, [], ◌∷◌, ◌++◌, Text, Dict, lookup, list_eq, nat_eq}
use pytagsfs.Patterns.{
  Modifier, lower, upper, title, Node, text_node, long_key, short_key, conditional, if_else, Nodes,
  no_nodes, cons, print_node,
}

pub record CaseMap : Type 0 where
  pub to_lower : Text → Text
  pub to_upper : Text → Text
  pub to_title : Text → Text

abbrev pub Substitutions : Type 0
Substitutions = Dict Text Text

-- FillError has the expression of the node that raises it, the substitutions, and the names of the
-- parameters that were undefined.
pub data Filled : Type 0 where
  filled : Text → Filled
  fill_error : (expression : Text) (substitutions : Substitutions) (parameters : List Text) → Filled

-- ''.join of what the child nodes give: the first error ends it.
abbrev pub join_filled : Filled → Filled → Filled
join_filled (fill_error x d ps) b = fill_error x d ps
join_filled (filled s) (fill_error x d ps) = fill_error x d ps
join_filled (filled s) (filled t) = filled (s ++ t)

-- ConditionalNode.fill
abbrev pub or_empty : Filled → Filled
or_empty (filled s) = filled s
or_empty (fill_error x d ps) = filled []

-- IfElseNode.fill, of the two sides: where both raise, an error of the choice itself.
abbrev pub or_other : Text → Substitutions → Filled → Filled → Filled
or_other expression substitutions (filled s) b = filled s
or_other expression substitutions (fill_error x d ps) (filled t) = filled t
or_other expression substitutions (fill_error x d ps) (fill_error y e qs) =
    fill_error expression substitutions (ps ++ qs)

module _ (case_map : CaseMap) where
  -- VariableNode.modify
  unfoldable pub modify : Option Modifier → Text → Text
  modify none s = s
  modify (some lower) s = case_map.to_lower s
  modify (some upper) s = case_map.to_upper s
  modify (some title) s = case_map.to_title s

  -- VariableNode.fill
  unfoldable pub fill_variable : Text → Option Modifier → Text → Substitutions → Filled
  unfolding modify
  fill_variable expression m name substitutions = elim (lookup name substitutions) [
    | none ↦ fill_error expression substitutions (name ∷ [])
    | some value ↦ filled (modify m value)
  ]

  unfoldable mutual
    pub fill_node : Node → Substitutions → Filled
    fill_node (text_node s) d = filled s
    fill_node (long_key m name) d = fill_variable (print_node (long_key m name)) m name d
    fill_node (short_key m c) d = fill_variable (print_node (short_key m c)) m (c ∷ []) d
    fill_node (conditional ns) d = or_empty (fill ns d)
    fill_node (if_else ls rs) d = or_other (print_node (if_else ls rs)) d (fill ls d) (fill rs d)

    -- SectionNode.fill
    pub fill : Nodes → Substitutions → Filled
    fill no_nodes d = filled []
    fill (cons n ns) d = join_filled (fill_node n d) (fill ns d)
