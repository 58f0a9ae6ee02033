-- ===== src/Patterns/Parsing.antt =====
-- The constructor of `SectionNode` of modules/pytagsfs/subspat.py: a pattern is parsed into nodes.
use pytagsfs.Base.{ℕ, zero, suc, ◌-◌, [], ◌∷◌, Text, length}
use pytagsfs.Patterns.{
  conditional, if_else, Nodes, no_nodes, cons, nothing, leaf, conditional_of, if_else_of, consume,
}

-- PatternSyntaxError has the text of the section and the offset in it.
pub data Parsed : Type 0 where
  parsed : Nodes → Parsed
  syntax_error : (pattern : Text) (offset : ℕ) → Parsed
  out_of_fuel : Parsed

abbrev pub and_then : Parsed → (Nodes → Parsed) → Parsed
and_then (parsed ns) f = f ns
and_then (syntax_error p i) f = syntax_error p i
and_then out_of_fuel f = out_of_fuel

-- The loop of `get_nodes_from_expression` on `orig_s`, with `s` still to parse. A section inside is
-- parsed by the constructor of its node, before the loop goes on.
unfoldable pub parse_loop : ℕ → Text → Text → Parsed
unfolding consume
parse_loop fuel orig_s [] = parsed no_nodes
parse_loop zero orig_s (c ∷ s) = out_of_fuel
parse_loop (suc fuel) orig_s (c ∷ s) = elim (consume (c ∷ s)) [
  | nothing ↦ syntax_error orig_s (length orig_s - length (c ∷ s))
  | leaf n rest ↦ and_then (parse_loop fuel orig_s rest) (λ ns. parsed (cons n ns))
  | conditional_of contents rest ↦
      and_then (parse_loop fuel contents contents) (λ inner.
        and_then (parse_loop fuel orig_s rest) (λ ns. parsed (cons (conditional inner) ns)))
  | if_else_of left right rest ↦ and_then (parse_loop fuel left left) (λ ls.
      and_then (parse_loop fuel right right)
        (λ rs. and_then (parse_loop fuel orig_s rest) (λ ns. parsed (cons (if_else ls rs) ns))))
]

-- `SubstitutionPattern(s)`
unfoldable pub parse : Text → Parsed
unfolding parse_loop
parse s = parse_loop (length s) s s
