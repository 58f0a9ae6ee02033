-- ===== src/Regex.antt =====
-- modules/pytagsfs/regex.py: segments of a regular expression, put together into its string. The
-- content of a `Context` is the text written so far; its two regular expressions are written out.
use pytagsfs.Base.{
  ℕ, zero, suc, ◌+◌, Bool, false, not, ◌&&◌, ◌==◌, if◌then◌else◌, Option, none, some, List, [], ◌∷◌,
  ◌++◌, Text, text, starts_with, length, contains, list_eq, nat_eq,
}

mutual
  -- SimpleExpression, CompoundSegment, Group and NamedGroup
  pub data Segment : Type 0 where
    simple_expression : Text → Segment
    compound_segment : Segments → Segment
    group : Segments → Segment
    named_group : Text → Segments → Segment

  pub data Segments : Type 0 where
    no_segments : Segments
    segment_before : Segment → Segments → Segments

abbrev pub backslash : ℕ
backslash = b'\\'

abbrev pub newline : ℕ
newline = 10

-- `.*?[^\\]` and the `>` after it: the shortest name that the expression matches.
unfoldable pub group_name : Text → Option Text
unfolding starts_with
group_name [] = none
group_name (c ∷ s) =
    if not (c == backslash) && starts_with s (text ">")
    then some (c ∷ [])
    else if c == newline
    then none
    else elim (group_name s) [ none ↦ none | some name ↦ some (c ∷ name) ]

-- Whether a named group starts here, where the character before is a backslash or not.
unfoldable pub group_at : Bool → Text → Option Text
unfolding group_name starts_with
group_at escaped s =
    if not escaped && starts_with s (text "(?P<") then group_name (drop_four s) else none
  where
    drop_four : Text → Text
    drop_four (a ∷ b ∷ c ∷ d ∷ s) = s
    drop_four _ = []

-- `finditer`: the names from the left, each search after the match before it, of which `skipped`
-- characters are still to pass.
unfoldable pub group_names : (skipped : ℕ) → (escaped : Bool) → Text → List Text
unfolding group_at
group_names skipped escaped [] = []
group_names (suc skipped) escaped (c ∷ s) = group_names skipped (c == backslash) s
group_names zero escaped (c ∷ s) = elim (group_at escaped (c ∷ s)) [
  | none ↦ group_names zero (c == backslash) s
  | some name ↦ name ∷ group_names (length name + 4) (c == backslash) s
]

-- Context.get_named_group_names
unfoldable pub get_named_group_names : Text → List Text
unfolding group_names
get_named_group_names content = group_names 0 false content

-- (?<!\\)\((?!\?:)
unfoldable pub group_starts : (escaped : Bool) → Text → ℕ
unfolding starts_with
group_starts escaped [] = 0
group_starts escaped (c ∷ s) =
    let rest = group_starts (c == backslash) s in
    if not escaped && c == b'(' && not (starts_with s (text "?:")) then suc rest else rest

-- Context.get_number_of_groups
unfoldable pub get_number_of_groups : Text → ℕ
unfolding group_starts
get_number_of_groups content = group_starts false content

-- context.write
abbrev pub write_context : Text → Text → Text
write_context s content = content ++ s

unfoldable mutual
  unfolding get_named_group_names

  -- The `eval` methods, from the content of the context to its content after them.
  pub eval : Segment → Text → Text
  eval (simple_expression s) content = write_context s content
  eval (compound_segment ss) content = eval_all ss content
  eval (group ss) content =
      write_context (text ")") (eval_all ss (write_context (text "(") content))
  eval (named_group name ss) content =
      let inside = eval_all ss (write_context (text "(?P<" ++ name ++ text ">") content) in
      if contains name (get_named_group_names content)
      then write_context (text "(?P=" ++ name ++ text ")") content
      else write_context (text ")") inside

  pub eval_all : Segments → Text → Text
  eval_all no_segments content = content
  eval_all (segment_before s ss) content = eval_all ss (eval s content)

-- Regex.get_string
unfoldable pub get_string : Segments → Text
unfolding eval
get_string segments = eval_all segments []
