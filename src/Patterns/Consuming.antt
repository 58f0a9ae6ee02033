-- ===== src/Patterns/Consuming.antt =====
-- What a `consume` method takes and what it leaves make up the text.
use Prim.Native.Nat.{ℕ, zero, suc, ◌+◌, ◌-◌, ◌≤◌}
use mathlib.Core.List.{append_assoc}
use mathlib.Core.Path.{ap₂}
use pytagsfs.Base.{
  ◌≡◌, refl, ap, ◌∙◌, sym, true, Option, none, some, List, [], ◌∷◌, ◌++◌, Text, text, starts_with,
  length, take, drop, length-append, arith, nat_eq, Bool-cases, Option-cases, inl, inr,
}
use pytagsfs.Patterns.{
  print_node, percent, Consumed, nothing, leaf, conditional_of, if_else_of, index_text, text_end,
  consume_text, consume_long_key, section_end, contents, consume_conditional, left_side, right_side,
  split_if_else, consume_if_else, or_else, consume, text_node,
}
use pytagsfs.Patterns.VariableCuts.{IsCut, long_key-IsCut, short_key-IsCut}

module _ {ℓ} {A : Type ℓ} where
  pub take-drop_all : (n : ℕ) (l : List A) → take n l ++ drop n l ≡ l
  take-drop_all zero l = refl
  take-drop_all (suc n) [] = refl
  take-drop_all (suc n) (x ∷ l) = ap (λ r. x ∷ r) (take-drop_all n l)

  pub take-append : (xs ys : List A) → take (length xs) (xs ++ ys) ≡ xs
  take-append [] ys = refl
  take-append (x ∷ xs) ys = ap (λ r. x ∷ r) (take-append xs ys)

  pub drop-append_all : (xs ys : List A) → drop (length xs) (xs ++ ys) ≡ ys
  drop-append_all [] ys = refl
  drop-append_all (x ∷ xs) ys = drop-append_all xs ys

or_else-IsCut : (s : Text) (a b : Consumed) → IsCut s a → IsCut s b → IsCut s (or_else a b)
or_else-IsCut s nothing b h k = k
or_else-IsCut s (leaf n rest) b h k = h
or_else-IsCut s (conditional_of inner rest) b h k = h
or_else-IsCut s (if_else_of left right rest) b h k = h

text_end-le : (s : Text) → text_end s ≤ length s
unfolding text_end
text_end-le [] = omega arith
text_end-le (c ∷ []) = ground arith
text_end-le (c ∷ d ∷ s) = ground (arith, text_end-le (d ∷ s), text_end-le s)

consume_text-IsCut : (s : Text) → IsCut s (consume_text s)
unfolding consume_text text_end print_node
consume_text-IsCut [] = tt
consume_text-IsCut (c ∷ s) = go (text_end (c ∷ s))
  where
    outcome : ℕ → Consumed
    outcome n = elim n [
      | zero ↦ nothing
      | suc i ↦ leaf (text_node (take (suc i) (c ∷ s))) (drop (suc i) (c ∷ s))
    ]

    go : (n : ℕ) → IsCut (c ∷ s) (outcome n)
    go zero = tt
    go (suc i) = (sym (take-drop_all (suc i) (c ∷ s)), omega arith)

starts_with_lem : (s p : Text) → starts_with s p ≡ true → p ++ drop (length p) s ≡ s
unfolding starts_with
starts_with_lem s [] h = refl
starts_with_lem [] (d ∷ p) h = cc
starts_with_lem (c ∷ s) (d ∷ p) h = ground (arith, starts_with_lem s p)

-- The text around the place that `index` finds.
index_text_lem :
    (p s : Text) (i : ℕ)
    → index_text p s ≡ some i
    → (before after : Text) × (s ≡ before ++ (p ++ after)) × (length before ≡ i)
unfolding index_text
index_text_lem [] [] i e = ([], [], refl, ground arith)
index_text_lem (d ∷ p) [] i e = cc
index_text_lem p (c ∷ s) i e = elim (Bool-cases (starts_with (c ∷ s) p)) [
  | inl here ↦ ([], drop (length p) (c ∷ s), sym (starts_with_lem (c ∷ s) p here), ground arith)
  | inr later ↦ elim (Option-cases (index_text p s)) [
    | inl e' ↦ cc
    | inr (j, e') ↦
        let found = index_text_lem p s j e' in
        (c ∷ found.0, found.1, ap (λ r. c ∷ r) found.2, ground (arith, found.3))
  ]
]

abbrev mark : Text
mark = text "%?"

section_end_lem :
    (s : Text) (end : ℕ)
    → section_end s ≡ some end
    → (inner rest : Text) × (s ≡ percent ∷ b'?' ∷ inner ++ percent ∷ b'?' ∷ rest)
      × (end ≡ length inner + 4)
unfolding section_end
section_end_lem s end e = elim (Bool-cases (starts_with s mark)) [
  | inl here ↦ elim (Option-cases (index_text mark (drop 2 s))) [
    | inl e' ↦ absurd (ground arith)
    | inr (i, e') ↦
        let found = index_text_lem mark (drop 2 s) i e' in
        (
          found.0,
          found.1,
          sym (starts_with_lem s mark here) ∙ ap (λ r. percent ∷ b'?' ∷ r) found.2,
          ground (arith, found.3),
        )
  ]
  | inr other ↦ absurd (ground arith)
]

-- The expression of a section with its contents.
abbrev whole : Text → Text
whole inner = percent ∷ b'?' ∷ inner ++ mark

length-whole : (inner : Text) → length (whole inner) ≡ length inner + 4
length-whole inner = omega (arith, length-append inner mark)

cut_section :
    (s inner rest : Text) (end : ℕ)
    → s ≡ percent ∷ b'?' ∷ inner ++ percent ∷ b'?' ∷ rest
    → end ≡ length inner + 4
    → (take end s ≡ whole inner) × (drop end s ≡ rest)
cut_section s inner rest end e n =
    let size : end ≡ length (whole inner) = n ∙ sym (length-whole inner) in
    let parts : s ≡ whole inner ++ rest =
      e ∙ sym (append_assoc (percent ∷ b'?' ∷ inner) mark rest) in
    (
      ap₂ take size parts ∙ take-append (whole inner) rest,
      ap₂ drop size parts ∙ drop-append_all (whole inner) rest,
    )

-- A side of an expression up to its closing mark.
take-whole : (inner : Text) → take (length (whole inner) - 2) (whole inner) ≡ percent ∷ b'?' ∷ inner
take-whole inner =
    ap (λ n. take n (whole inner)) {y = length (percent ∷ b'?' ∷ inner)}
      (omega (arith, length-whole inner))
    ∙ take-append (percent ∷ b'?' ∷ inner) mark

contents-whole : (inner : Text) → contents (whole inner) ≡ inner
contents-whole inner = ap (drop 2) (take-whole inner)

conditional-IsCut : (s : Text) → IsCut s (consume_conditional s)
unfolding consume_conditional
conditional-IsCut s = elim (Option-cases (section_end s)) [
  | inl e ↦ rw (e, consume_conditional) tt
  | inr (end, e) ↦ rw (e, consume_conditional) (go end (section_end_lem s end e))
]
  where
    go :
        (end : ℕ)
        → (inner rest : Text) × (s ≡ percent ∷ b'?' ∷ inner ++ percent ∷ b'?' ∷ rest)
          × (end ≡ length inner + 4)
        → s ≡ percent ∷ b'?' ∷ contents (take end s) ++ percent ∷ b'?' ∷ drop end s
    go end (inner, rest, e, n) =
        let cut = cut_section s inner rest end e n in
        e
        ∙ ap₂ (λ a b. percent ∷ b'?' ∷ a ++ percent ∷ b'?' ∷ b)
            (sym (ap contents cut.0 ∙ contents-whole inner)) (sym cut.1)

-- The middle mark does not reach into the closing one.
index-middle :
    (inner : Text) (i : ℕ)
    → index_text (text "%:") (inner ++ mark) ≡ some i
    → (left right : Text) × (inner ≡ left ++ percent ∷ b':' ∷ right) × (length left ≡ i)
unfolding index_text starts_with
index-middle [] i e = absurd (ground arith)
index-middle (c ∷ []) i e = absurd (ground arith)
index-middle (c ∷ d ∷ inner) i e = elim (Bool-cases (starts_with (c ∷ d ∷ inner) (text "%:"))) [
  | inl here ↦ ([], inner, ground arith, ground arith)
  | inr later ↦ elim (Option-cases (index_text (text "%:") (d ∷ inner ++ mark))) [
    | inl e' ↦ absurd (ground arith)
    | inr (j, e') ↦
        let found = index-middle (d ∷ inner) j e' in
        (c ∷ found.0, found.1, ap (λ r. c ∷ r) found.2, ground (arith, found.3))
  ]
]

sides :
    (inner left right : Text)
    → inner ≡ left ++ percent ∷ b':' ∷ right
    → (left_side (length left + 2) (whole inner) ≡ left)
      × (right_side (length left + 2) (whole inner) ≡ right)
sides inner left right e = (
  ap (λ n. drop 2 (take n (whole inner))) {y = suc (suc (length left))} (omega arith)
      ∙ ap (λ l. take (length left) (l ++ mark)) e
      ∙ ap (take (length left)) (append_assoc left (percent ∷ b':' ∷ right) mark)
      ∙ take-append left (percent ∷ b':' ∷ right ++ mark),
  ap (drop (length left + 2 + 2)) (take-whole inner)
      ∙ ap (λ n. drop n (percent ∷ b'?' ∷ inner)) {y = suc (suc (length left + 2))} (omega arith)
      ∙ ap (drop (length left + 2)) e
      ∙ drop_past left (percent ∷ b':' ∷ []) right,
)
  where
    drop_past : (xs ys zs : Text) → drop (length xs + length ys) (xs ++ (ys ++ zs)) ≡ zs
    drop_past [] ys zs =
        ap (λ n. drop n (ys ++ zs)) {y = length ys} (omega arith) ∙ drop-append_all ys zs
    drop_past (x ∷ xs) ys zs =
        ap (λ n. drop n (x ∷ xs ++ (ys ++ zs))) {y = suc (length xs + length ys)} (omega arith)
        ∙ drop_past xs ys zs

-- The middle mark is found behind the opening one.
index-whole-none :
    (inner : Text)
    → index_text (text "%:") (inner ++ mark) ≡ none
    → index_text (text "%:") (whole inner) ≡ none
unfolding index_text starts_with
index-whole-none inner e = ground arith

index-whole :
    (inner : Text) (j : ℕ)
    → index_text (text "%:") (inner ++ mark) ≡ some j
    → index_text (text "%:") (whole inner) ≡ some (suc (suc j))
unfolding index_text starts_with
index-whole inner j e = ground arith

if_else-IsCut : (s : Text) → IsCut s (consume_if_else s)
unfolding consume_if_else
if_else-IsCut s = elim (Option-cases (section_end s)) [
  | inl e ↦ rw (e, consume_if_else) tt
  | inr (end, e) ↦ rw (e, consume_if_else) (go end (section_end_lem s end e))
]
  where
    split :
        (inner rest : Text) (end : ℕ)
        → s ≡ percent ∷ b'?' ∷ inner ++ percent ∷ b'?' ∷ rest
        → end ≡ length inner + 4
        → (o : Option ℕ) → index_text (text "%:") (whole inner) ≡ o
        → IsCut s (split_if_else (whole inner) rest)
    split inner rest end e n none m = rw (m, split_if_else) tt
    split inner rest end e n (some i) m =
        rw (m, split_if_else)
          (elim (Option-cases (index_text (text "%:") (inner ++ mark))) [
            | inl e' ↦ absurd (ground (arith, m, index-whole-none inner e'))
            | inr (j, e') ↦
                let found = index-middle inner j e' in
                let at : i ≡ length found.0 + 2 =
                  ground (arith, m, index-whole inner j e', found.3) in
                let cut = sides inner found.0 found.1 found.2 in
                e
                ∙ ap (λ l. percent ∷ b'?' ∷ l ++ percent ∷ b'?' ∷ rest)
                    (found.2
                      ∙ sym (
                          ap₂ (λ a b. a ++ percent ∷ b':' ∷ b)
                            (ap (λ k. left_side k (whole inner)) at ∙ cut.0)
                            (ap (λ k. right_side k (whole inner)) at ∙ cut.1)))
          ])

    go :
        (end : ℕ)
        → (inner rest : Text) × (s ≡ percent ∷ b'?' ∷ inner ++ percent ∷ b'?' ∷ rest)
          × (end ≡ length inner + 4)
        → IsCut s (split_if_else (take end s) (drop end s))
    go end (inner, rest, e, n) =
        let cut = cut_section s inner rest end e n in
        rw (cut.0, cut.1) (split inner rest end e n (index_text (text "%:") (whole inner)) refl)

-- Whatever type of node takes the front of a text.
pub consume-IsCut : (s : Text) → IsCut s (consume s)
unfolding consume
consume-IsCut s = or_else-IsCut s (consume_if_else s) _ (if_else-IsCut s) (
    or_else-IsCut s (consume_conditional s) _ (conditional-IsCut s) (
      or_else-IsCut s (consume_text s) _ (consume_text-IsCut s)
        (or_else-IsCut s (consume_long_key s) _ (long_key-IsCut s) (short_key-IsCut s))))
