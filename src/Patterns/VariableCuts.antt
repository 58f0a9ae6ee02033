-- ===== src/Patterns/VariableCuts.antt =====
-- What a `consume` method takes and what it leaves make up the text, for the two kinds of variables.
use Prim.Native.Nat.{ℕ, ◌<◌}
use mathlib.Core.List.{append_assoc}
use mathlib.Core.Path.{ap₂}
use pytagsfs.Base.{
  eq_of_beq, ◌≡◌, refl, ap, ◌∙◌, sym, ◌==◌, Option, none, some, [], ◌∷◌, ◌++◌, Text, length, arith,
  nat_eq, Bool-cases, Option-cases, inl, inr,
}
use pytagsfs.Patterns.{
  name_leaf, is_letter, Modifier, print_modifier, print_node, percent, Consumed, nothing, leaf,
  conditional_of, if_else_of, read_modifier, read_name, consume_braces, consume_long_key,
  consume_letter, consume_short_key,
}

-- The text is what was taken, printed, followed by the rest, and something was taken.
abbrev pub IsCut : Text → Consumed → Type 0
IsCut s nothing = Unit
IsCut s (leaf n rest) = (s ≡ print_node n ++ rest) × (0 < length (print_node n))
IsCut s (conditional_of inner rest) = s ≡ percent ∷ b'?' ∷ inner ++ percent ∷ b'?' ∷ rest
IsCut s (if_else_of left right rest) =
    s ≡ percent ∷ b'?' ∷ left ++ percent ∷ b':' ∷ right ++ percent ∷ b'?' ∷ rest

read_modifier_lem : (s : Text) → print_modifier (read_modifier s).0 ++ (read_modifier s).1 ≡ s
unfolding read_modifier
read_modifier_lem [] = refl
read_modifier_lem (c ∷ s) = ground arith

read_name_lem : (s name rest : Text) → read_name s ≡ some (name, rest) → name ++ b'}' ∷ rest ≡ s
unfolding read_name
read_name_lem [] name rest e = cc
read_name_lem (c ∷ s) name rest e = elim (Option-cases (read_name s)) [
  | inl e' ↦ ground arith
  | inr (pair, e') ↦ ground (arith, read_name_lem s pair.0 pair.1)
]

letter-IsCut :
    (m : Option Modifier) (t : Text) (c : ℕ) (s : Text)
    → c ≡ percent
    → print_modifier m ++ t ≡ s
    → IsCut (c ∷ s) (consume_letter m t)
unfolding consume_letter print_node
letter-IsCut m [] c s e h = tt
letter-IsCut m (x ∷ t) c s e h = elim (Bool-cases (is_letter x)) [
  | inl letter ↦
      rw (letter, consume_letter)
        (
          ap₂ (λ a b. a ∷ b) e (sym h ∙ sym (append_assoc (print_modifier m) (x ∷ []) t)),
          omega arith,
        )
  | inr other ↦ rw (other, consume_letter) tt
]

braces-IsCut :
    (m : Option Modifier) (t : Text) (c : ℕ) (s : Text)
    → c ≡ percent
    → print_modifier m ++ t ≡ s
    → IsCut (c ∷ s) (consume_braces m t)
unfolding consume_braces print_node
braces-IsCut m [] c s e h = tt
braces-IsCut m (x ∷ t) c s e h = elim (Bool-cases (x == b'{')) [
  | inl brace ↦ rw (brace, consume_braces) (named (eq_of_beq x b'{' brace) (read_name t) refl)
  | inr other ↦ rw (other, consume_braces) tt
]
  where
    named : x ≡ b'{' → (o : Option (Text × Text)) → read_name t ≡ o → IsCut (c ∷ s) (name_leaf m o)
    named brace none r = tt
    named brace (some ([], rest)) r = tt
    named brace (some (d ∷ name, rest)) r = (
      ap₂ (λ a b. a ∷ b) e
          (sym h
            ∙ ap (λ l. print_modifier m ++ l)
                (ap₂ (λ a b. a ∷ b) brace (sym (read_name_lem t (d ∷ name) rest r)))
            ∙ sym (append_assoc (print_modifier m) (b'{' ∷ d ∷ name) (b'}' ∷ rest))
            ∙ sym (append_assoc (print_modifier m ++ b'{' ∷ d ∷ name) (b'}' ∷ []) rest)),
      omega arith,
    )

pub long_key-IsCut : (s : Text) → IsCut s (consume_long_key s)
unfolding consume_long_key consume_braces print_node
long_key-IsCut [] = tt
long_key-IsCut (c ∷ s) = elim (Bool-cases (c == percent)) [
  | inl e ↦
      rw (e, consume_long_key)
        (braces-IsCut (read_modifier s).0 (read_modifier s).1 c s (eq_of_beq c percent e)
          (read_modifier_lem s))
  | inr e ↦ rw (e, consume_long_key) tt
]

pub short_key-IsCut : (s : Text) → IsCut s (consume_short_key s)
unfolding consume_short_key consume_letter print_node
short_key-IsCut [] = tt
short_key-IsCut (c ∷ s) = elim (Bool-cases (c == percent)) [
  | inl e ↦
      rw (e, consume_short_key)
        (letter-IsCut (read_modifier s).0 (read_modifier s).1 c s (eq_of_beq c percent e)
          (read_modifier_lem s))
  | inr e ↦ rw (e, consume_short_key) tt
]
