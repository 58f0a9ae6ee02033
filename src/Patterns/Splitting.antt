-- ===== src/Patterns/Splitting.antt =====
-- The split regex of a pattern in modules/pytagsfs/subspat.py and the class `Splitter`. What the `re`
-- module does with the string of a regex is the interface `Re`.
use pytagsfs.Base.{
  ℕ, Bool, true, false, ◌&&◌, ◌||◌, ◌==◌, leb, ltb, if◌then◌else◌, Option, none, some, List, [],
  ◌∷◌, ◌++◌, Text, text, length, lookup, is_none, Result, ok, err, pattern_error, re_error, list_eq,
  nat_eq,
}
use pytagsfs.Regex.{
  Segment, simple_expression, compound_segment, named_group, Segments, no_segments, segment_before,
  backslash, get_string,
}
use pytagsfs.Patterns.{
  Node, text_node, long_key, short_key, conditional, if_else, Nodes, no_nodes, cons, is_letter,
}
use pytagsfs.Patterns.Filling.{Substitutions}
use pytagsfs.Values.{FlatDict}

-- re.compile(s), whether it raises, and .match(t).groupdict()
pub record Re : Type 0 where
  pub compiles : Text → Bool
  pub match_groups : Text → Text → Option FlatDict

-- One character of `re.escape`.
abbrev escape_char : ℕ → Text
escape_char c =
    if is_letter c || leb b'0' c && leb c b'9'
    then c ∷ []
    else if c == 0
    then text "\\000"
    else backslash ∷ c ∷ []

unfoldable pub re_escape : Text → Text
re_escape [] = []
re_escape (c ∷ s) = escape_char c ++ re_escape s

unfoldable mutual
  -- The variable nodes that iter_child_nodes_recursive gives, by their names.
  pub variable_names_node : Node → List Text
  variable_names_node (text_node s) = []
  variable_names_node (long_key m name) = name ∷ []
  variable_names_node (short_key m c) = (c ∷ []) ∷ []
  variable_names_node (conditional ns) = variable_names ns
  -- The child nodes of IfElseNode are those of the right side and then those of the left side.
  variable_names_node (if_else ls rs) = variable_names rs ++ variable_names ls

  pub variable_names : Nodes → List Text
  variable_names no_nodes = []
  variable_names (cons n ns) = variable_names_node n ++ variable_names ns

-- n.variable_name not in substitutions
unfoldable pub unknowns : List Text → Substitutions → List Text
unknowns [] d = []
unknowns (name ∷ names) d =
    let rest = unknowns names d in if is_none (lookup name d) then name ∷ rest else rest

-- Whether IfElseNode puts its left side first.
unfoldable pub is_left_first : Nodes → Nodes → Substitutions → Bool
unfolding unknowns variable_names
is_left_first ls rs d =
    let unknowns_left = length (unknowns (variable_names ls) d) in
    let unknowns_right = length (unknowns (variable_names rs) d) in
    if ltb unknowns_left unknowns_right
    then true
    else if ltb unknowns_right unknowns_left
    then false
    else leb (length (variable_names ls)) (length (variable_names rs))

-- (?:first|second)
abbrev either_segment : Segments → Segments → Segment
either_segment first second = compound_segment (
    segment_before (simple_expression (text "(?:")) (
      segment_before (compound_segment first) (
        segment_before (simple_expression (text "|")) (
          segment_before (compound_segment second)
            (segment_before (simple_expression (text ")")) no_segments)))))

abbrev variable_segment : Text → Segment
variable_segment name =
    named_group name (segment_before (simple_expression (text ".+?")) no_segments)

abbrev pub append_segment : Segments → Segment → Segments
append_segment no_segments last = segment_before last no_segments
append_segment (segment_before s ss) last = segment_before s (append_segment ss last)

unfoldable mutual
  unfolding re_escape is_left_first

  pub get_regex_segment : Node → Substitutions → Segment
  get_regex_segment (text_node s) d = simple_expression (re_escape s)
  get_regex_segment (long_key m name) d = variable_segment name
  get_regex_segment (short_key m c) d = variable_segment (c ∷ [])
  get_regex_segment (conditional ns) d = compound_segment (
      segment_before (simple_expression (text "(?:"))
        (append_segment (get_regex_segments ns d) (simple_expression (text ")?"))))
  get_regex_segment (if_else ls rs) d =
      let left = get_regex_segments ls d in
      let right = get_regex_segments rs d in
      if is_left_first ls rs d then either_segment left right else either_segment right left

  pub get_regex_segments : Nodes → Substitutions → Segments
  get_regex_segments no_nodes d = no_segments
  get_regex_segments (cons n ns) d =
      segment_before (get_regex_segment n d) (get_regex_segments ns d)

unfoldable pub get_split_regex : Nodes → Substitutions → Segments
unfolding get_regex_segment
get_split_regex ns d =
    segment_before (simple_expression (text "^"))
      (append_segment (get_regex_segments ns d) (simple_expression (text "$")))

-- The field `regex` of a splitter is the compiled `string`.
pub record Splitter : Type 0 where
  pub string : Text

module _ (re : Re) where
  unfoldable pub get_splitter : Nodes → Substitutions → Result Splitter
  unfolding get_split_regex get_string
  get_splitter ns d =
      let string = get_string (get_split_regex ns d) in
      if re.compiles string then ok (record { string = string }) else err re_error

  -- Splitter.split, where a SplitError is a pattern error
  unfoldable pub split : Splitter → Text → Result FlatDict
  split splitter s = elim (re.match_groups splitter.string s) [
    | none ↦ err pattern_error
    | some groups ↦ ok groups
  ]
