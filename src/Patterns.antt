-- ===== src/Patterns.antt =====
-- The nodes of modules/pytagsfs/subspat.py and their `consume` methods. A node's `expression` is
-- what `print_node` gives, so it has no field of its own. The regular expressions of the two kinds of
-- variables are written out, as functions from what they match to their groups.
pub mod Parsing
pub mod VariableCuts
pub mod Consuming
pub mod Lossless
pub mod Filling
pub mod Needs
pub mod Locality
pub mod Splitting
use pytagsfs.Base.{
  ℕ, zero, suc, ◌+◌, ◌-◌, Bool, true, false, ◌&&◌, ◌||◌, ◌==◌, leb, if◌then◌else◌, Option, none,
  some, List, [], ◌∷◌, ◌++◌, Text, text, starts_with, length, take, drop, is_empty, nat_eq,
}

-- The keys of `VariableNode.modifiers` but None.
pub data Modifier : Type 0 where
  lower upper title : Modifier

mutual
  -- TextNode, LongKeyVariableNode, ShortKeyVariableNode, ConditionalNode and IfElseNode
  pub data Node : Type 0 where
    text_node : Text → Node
    long_key : Option Modifier → Text → Node
    short_key : Option Modifier → ℕ → Node
    conditional : Nodes → Node
    if_else : Nodes → Nodes → Node

  pub data Nodes : Type 0 where
    no_nodes : Nodes
    cons : Node → Nodes → Nodes

abbrev pub percent : ℕ
percent = b'%'

abbrev pub print_modifier : Option Modifier → Text
print_modifier none = []
print_modifier (some lower) = b'_' ∷ []
print_modifier (some upper) = b'^' ∷ []
print_modifier (some title) = b'!' ∷ []

unfoldable mutual
  -- The expression of a node.
  pub print_node : Node → Text
  print_node (text_node s) = s
  print_node (long_key m name) = percent ∷ print_modifier m ++ b'{' ∷ name ++ b'}' ∷ []
  print_node (short_key m c) = percent ∷ print_modifier m ++ c ∷ []
  print_node (conditional ns) = percent ∷ b'?' ∷ print_nodes ns ++ percent ∷ b'?' ∷ []
  print_node (if_else ls rs) =
      percent ∷ b'?' ∷ print_nodes ls ++ percent ∷ b':' ∷ print_nodes rs ++ percent ∷ b'?' ∷ []

  pub print_nodes : Nodes → Text
  print_nodes no_nodes = []
  print_nodes (cons n ns) = print_node n ++ print_nodes ns

-- s.index(p), `none` for ValueError
unfoldable pub index_text : Text → Text → Option ℕ
index_text p [] = if is_empty p then some 0 else none
index_text p (c ∷ s) =
    if starts_with (c ∷ s) p
    then some 0
    else elim (index_text p s) [ none ↦ none | some i ↦ some (suc i) ]

-- What one `consume` method takes off the front of the text.
pub data Consumed : Type 0 where
  nothing : Consumed
  leaf : Node → Text → Consumed
  conditional_of : (contents rest : Text) → Consumed
  if_else_of : (left right rest : Text) → Consumed

-- The loop of `TextNode.consume`: up to a `%` that is not doubled.
unfoldable pub text_end : Text → ℕ
text_end [] = 0
text_end (c ∷ []) = if c == percent then 0 else 1
text_end (c ∷ d ∷ s) =
    let after_one = text_end (d ∷ s) in
    let after_two = text_end s in
    if c == percent then (if d == percent then suc (suc after_two) else 0) else suc after_one

unfoldable pub consume_text : Text → Consumed
unfolding text_end
consume_text s = elim (text_end s) [
  | zero ↦ nothing
  | suc i ↦ leaf (text_node (take (suc i) s)) (drop (suc i) s)
]

-- The group `modifier` of both regular expressions, and what follows it.
unfoldable pub read_modifier : Text → Option Modifier × Text
read_modifier [] = (none, [])
read_modifier (c ∷ s) =
    if c == b'_'
    then (some lower, s)
    else if c == b'^'
    then (some upper, s)
    else if c == b'!'
    then (some title, s)
    else (none, c ∷ s)

-- `[^}]+?` and the `}` after it: the name and the rest.
unfoldable pub read_name : Text → Option (Text × Text)
read_name [] = none
read_name (c ∷ s) =
    if c == b'}'
    then some ([], s)
    else elim (read_name s) [ none ↦ none | some (name, rest) ↦ some (c ∷ name, rest) ]

-- A name is not empty.
unfoldable pub name_leaf : Option Modifier → Option (Text × Text) → Consumed
name_leaf m none = nothing
name_leaf m (some ([], rest)) = nothing
name_leaf m (some (d ∷ name, rest)) = leaf (long_key m (d ∷ name)) rest

-- `{`, a name that is not empty, and `}`
unfoldable pub consume_braces : Option Modifier → Text → Consumed
unfolding read_name name_leaf
consume_braces m [] = nothing
consume_braces m (c ∷ s) = if c == b'{' then name_leaf m (read_name s) else nothing

-- ^%(?P<modifier>[_^!])?{(?P<name>[^}]+?)}
unfoldable pub consume_long_key : Text → Consumed
unfolding read_modifier consume_braces
consume_long_key [] = nothing
consume_long_key (c ∷ s) =
    if c == percent then consume_braces (read_modifier s).0 (read_modifier s).1 else nothing

abbrev pub is_letter : ℕ → Bool
is_letter c = leb b'A' c && leb c b'Z' || leb b'a' c && leb c b'z'

unfoldable pub consume_letter : Option Modifier → Text → Consumed
consume_letter m [] = nothing
consume_letter m (c ∷ s) = if is_letter c then leaf (short_key m c) s else nothing

-- ^%(?P<modifier>[_^!])?(?P<name>[A-Za-z])
unfoldable pub consume_short_key : Text → Consumed
unfolding read_modifier consume_letter
consume_short_key [] = nothing
consume_short_key (c ∷ s) =
    if c == percent then consume_letter (read_modifier s).0 (read_modifier s).1 else nothing

-- `s.index('%?', 2) + 2` of a text that starts with `%?`, in ConditionalNode and IfElseNode.
unfoldable pub section_end : Text → Option ℕ
unfolding index_text
section_end s =
    if starts_with s (text "%?")
    then elim (index_text (text "%?") (drop 2 s)) [ none ↦ none | some i ↦ some (i + 2 + 2) ]
    else none

-- expression[2:-2]
abbrev pub contents : Text → Text
contents expression = drop 2 (take (length expression - 2) expression)

unfoldable pub consume_conditional : Text → Consumed
unfolding section_end
consume_conditional s = elim (section_end s) [
  | none ↦ nothing
  | some end ↦ conditional_of (contents (take end s)) (drop end s)
]

-- expression[2:middle] and expression[middle + 2:-2]
abbrev pub left_side : ℕ → Text → Text
left_side middle expression = drop 2 (take middle expression)

abbrev pub right_side : ℕ → Text → Text
right_side middle expression = drop (middle + 2) (take (length expression - 2) expression)

unfoldable pub split_if_else : Text → Text → Consumed
unfolding index_text
split_if_else expression rest = elim (index_text (text "%:") expression) [
  | none ↦ nothing
  | some middle ↦ if_else_of (left_side middle expression) (right_side middle expression) rest
]

unfoldable pub consume_if_else : Text → Consumed
unfolding section_end split_if_else
consume_if_else s = elim (section_end s) [
  | none ↦ nothing
  | some end ↦ split_if_else (take end s) (drop end s)
]

-- The next type of node is tried where one takes nothing.
abbrev pub or_else : Consumed → Consumed → Consumed
or_else nothing c = c
or_else (leaf n rest) c = leaf n rest
or_else (conditional_of contents rest) c = conditional_of contents rest
or_else (if_else_of left right rest) c = if_else_of left right rest

-- The types of nodes in the order of their registration.
unfoldable pub consume : Text → Consumed
unfolding consume_if_else consume_conditional consume_text consume_long_key consume_short_key
consume s = or_else (consume_if_else s) (
    or_else (consume_conditional s)
      (or_else (consume_text s) (or_else (consume_long_key s) (consume_short_key s))))
