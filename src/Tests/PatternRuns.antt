-- ===== src/Tests/PatternRuns.antt =====
-- The theorems on patterns and on joined paths at concrete values.
use pytagsfs.Base.{
  ◌≡◌, ◌≢◌, refl, none, some, [], ◌∷◌, Text, text, lookup, All, list_eq, nat_eq, list_beq,
  starts_with,
}
use pytagsfs.Patterns.{
  print_node, Nodes, no_nodes, cons, text_node, long_key, short_key, if_else, title, print_nodes,
  consume, consume_if_else, consume_conditional, consume_text, consume_long_key, consume_short_key,
  section_end, index_text, text_end, split_if_else, read_modifier, consume_braces, consume_letter,
  read_name, name_leaf,
}
use pytagsfs.Patterns.Parsing.{parsed, syntax_error, out_of_fuel, parse, parse_loop}
use pytagsfs.Patterns.Lossless.{print_nodes-parse}
use pytagsfs.Patterns.Filling.{
  fill_error, CaseMap, filled, Substitutions, fill, fill_node, fill_variable, modify,
}
use pytagsfs.Patterns.Needs.{
  is_filled, missing, suffices, IsUndefined, variables, variables_node, fill_lem,
}
use pytagsfs.Patterns.Locality.{raised_with, fill-local}

abbrev pattern : Text
pattern = text "%!a%?-%{year}%:x%?"

abbrev pattern_nodes : Nodes
pattern_nodes = cons (short_key (some title) b'a') (
    cons
      (if_else (cons (text_node (text "-")) (cons (long_key none (text "year")) no_nodes))
        (cons (text_node (text "x")) no_nodes))
      no_nodes)

pattern_run : parse pattern ≡ parsed pattern_nodes
unfolding parse parse_loop consume consume_if_else consume_conditional consume_text consume_long_key
    consume_short_key section_end index_text text_end split_if_else read_modifier consume_braces
    consume_letter read_name name_leaf starts_with
pattern_run = refl

percent_run : parse (text "ab%") ≡ syntax_error (text "ab%") 2
unfolding parse parse_loop consume consume_if_else consume_conditional consume_text consume_long_key
    consume_short_key section_end index_text text_end split_if_else read_modifier consume_braces
    consume_letter read_name name_leaf starts_with
percent_run = refl

print_nodes-parse_example :
    (parse pattern ≢ out_of_fuel)
    × ((ns : Nodes) → parse pattern ≡ parsed ns → print_nodes ns ≡ pattern)
print_nodes-parse_example = print_nodes-parse pattern

abbrev case_map : CaseMap
case_map = record { to_lower = λ s. s; to_upper = λ s. s; to_title = λ s. s }

abbrev no_year : Substitutions
no_year = (text "a", text "Eno") ∷ []

fill_pattern : fill case_map pattern_nodes no_year ≡ filled (text "Enox")
unfolding fill fill_node fill_variable modify lookup list_beq
fill_pattern = refl

fill_lem_example :
    (is_filled (fill case_map pattern_nodes no_year) ≡ suffices pattern_nodes no_year)
    × All (IsUndefined no_year) (missing (fill case_map pattern_nodes no_year))
fill_lem_example = fill_lem case_map pattern_nodes no_year

abbrev with_title : Substitutions
with_title = (text "t", text "x") ∷ no_year

-- A choice between two names for a year, neither of which is in the substitutions.
abbrev two_years : Nodes
two_years = cons (short_key none b'a') (
    cons
      (if_else (cons (long_key none (text "year")) no_nodes) (cons (short_key none b'y') no_nodes))
      no_nodes)

fill_years :
    fill case_map two_years no_year
    ≡ fill_error (text "%?%{year}%:%y%?") no_year (text "year" ∷ text "y" ∷ [])
unfolding fill fill_node fill_variable lookup list_beq print_node
fill_years = refl

fill-local_example :
    fill case_map two_years with_title ≡ raised_with with_title (fill case_map two_years no_year)
unfolding variables variables_node lookup list_beq
fill-local_example = fill-local case_map two_years no_year with_title (refl, (refl, (refl, tt)))
