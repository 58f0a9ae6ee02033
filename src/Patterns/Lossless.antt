-- ===== src/Patterns/Lossless.antt =====
-- Parsing a pattern ends, and loses nothing of it.
use Prim.Native.Nat.{ℕ, zero, suc, ◌-◌, ◌≤◌}
use mathlib.Core.Path.{ap₂, subst}
use mathlib.Core.List.{append_assoc}
use pytagsfs.Base.{◌≡◌, ◌≢◌, refl, ap, ◌∙◌, sym, [], ◌∷◌, ◌++◌, Text, length, length-append, arith}
use pytagsfs.Patterns.{
  Nodes, cons, conditional, if_else, print_node, print_nodes, percent, Consumed, nothing, leaf,
  conditional_of, if_else_of, consume,
}
use pytagsfs.Patterns.Parsing.{
  Parsed, parsed, syntax_error, out_of_fuel, and_then, parse_loop, parse,
}
use pytagsfs.Patterns.VariableCuts.{IsCut}
use pytagsfs.Patterns.Consuming.{consume-IsCut}

-- The nodes print as the text, and the fuel was enough.
abbrev IsReading : Text → Parsed → Type 0
IsReading s (parsed ns) = print_nodes ns ≡ s
IsReading s (syntax_error p i) = Unit
IsReading s out_of_fuel = ⊥

and_then-IsReading :
    (s t : Text) (p : Parsed) (f : Nodes → Parsed)
    → IsReading s p
    → ((ns : Nodes) → print_nodes ns ≡ s → IsReading t (f ns))
    → IsReading t (and_then p f)
and_then-IsReading s t (parsed ns) f h k = k ns h
and_then-IsReading s t (syntax_error q i) f h k = tt
and_then-IsReading s t out_of_fuel f h k = elim h [ ]

-- One round of the loop, on what `consume` gives, with the rounds after it.
abbrev round : (Text → Text → Parsed) → Text → Text → Consumed → Parsed
round loop orig_s s nothing = syntax_error orig_s (length orig_s - length s)
round loop orig_s s (leaf n rest) = and_then (loop orig_s rest) (λ ns. parsed (cons n ns))
round loop orig_s s (conditional_of contents rest) =
    and_then (loop contents contents)
      (λ inner. and_then (loop orig_s rest) (λ ns. parsed (cons (conditional inner) ns)))
round loop orig_s s (if_else_of left right rest) = and_then (loop left left) (λ ls.
    and_then (loop right right)
      (λ rs. and_then (loop orig_s rest) (λ ns. parsed (cons (if_else ls rs) ns))))

round-IsReading :
    (loop : Text → Text → Parsed) (fuel : ℕ) (orig_s s : Text) (k : Consumed)
    → ((orig t : Text) → length t ≤ fuel → IsReading t (loop orig t))
    → length s ≤ suc fuel
    → IsCut s k
    → IsReading s (round loop orig_s s k)
unfolding print_node
round-IsReading loop fuel orig_s s nothing ih h cut = tt
round-IsReading loop fuel orig_s s (leaf n rest) ih h cut =
    and_then-IsReading rest s (loop orig_s rest) (λ ns. parsed (cons n ns))
      (ih orig_s rest (omega (arith, ap length cut.0, length-append (print_node n) rest, cut.1)))
      (λ ns e. ap (λ t. print_node n ++ t) e ∙ sym cut.0)
round-IsReading loop fuel orig_s s (conditional_of inner rest) ih h cut =
    let size = ap length cut ∙ length-append (percent ∷ b'?' ∷ inner) (percent ∷ b'?' ∷ rest) in
    and_then-IsReading inner s (loop inner inner) _ (ih inner inner (omega (arith, size))) (λ ns e.
      and_then-IsReading rest s (loop orig_s rest) _ (ih orig_s rest (omega (arith, size))) (λ ms d.
        append_assoc (percent ∷ b'?' ∷ print_nodes ns) (percent ∷ b'?' ∷ []) (print_nodes ms)
        ∙ ap₂ (λ a b. percent ∷ b'?' ∷ a ++ percent ∷ b'?' ∷ b) e d
        ∙ sym cut))
round-IsReading loop fuel orig_s s (if_else_of left right rest) ih h cut =
    let outer =
      ap length cut
      ∙ length-append (percent ∷ b'?' ∷ left ++ percent ∷ b':' ∷ right) (percent ∷ b'?' ∷ rest) in
    let inner = length-append (percent ∷ b'?' ∷ left) (percent ∷ b':' ∷ right) in
    and_then-IsReading left s (loop left left) _ (ih left left (omega (arith, outer, inner)))
      (λ ls e.
        and_then-IsReading right s (loop right right) _
          (ih right right (omega (arith, outer, inner)))
          (λ rs d.
            and_then-IsReading rest s (loop orig_s rest) _
              (ih orig_s rest (omega (arith, outer, inner)))
              (λ ns g.
                append_assoc (percent ∷ b'?' ∷ print_nodes ls ++ percent ∷ b':' ∷ print_nodes rs)
                  (percent ∷ b'?' ∷ []) (print_nodes ns)
                ∙ ap₂ (λ a b. a ++ percent ∷ b'?' ∷ b)
                    (ap₂ (λ a b. percent ∷ b'?' ∷ a ++ percent ∷ b':' ∷ b) e d) g
                ∙ sym cut)))

parse_loop-IsReading :
    (fuel : ℕ) (orig_s s : Text) → length s ≤ fuel → IsReading s (parse_loop fuel orig_s s)
unfolding parse_loop print_node
parse_loop-IsReading fuel orig_s [] h = refl
parse_loop-IsReading zero orig_s (c ∷ s) h = ground arith
parse_loop-IsReading (suc fuel) orig_s (c ∷ s) h =
    go (consume (c ∷ s)) (consume-IsCut (c ∷ s)) (parse_loop-IsReading fuel)
  where
    go :
        (k : Consumed)
        → IsCut (c ∷ s) k
        → ((orig t : Text) → length t ≤ fuel → IsReading t (parse_loop fuel orig t))
        → IsReading (c ∷ s) (round (parse_loop fuel) orig_s (c ∷ s) k)
    go k cut ih = round-IsReading (parse_loop fuel) fuel orig_s (c ∷ s) k ih h cut

-- Parsing a pattern ends by its own tests, with the nodes or a syntax error, and the expressions of
-- the nodes, with the marks of the sections around those inside, are the pattern again.
pub print_nodes-parse :
    (s : Text) → (parse s ≢ out_of_fuel) × ((ns : Nodes) → parse s ≡ parsed ns → print_nodes ns ≡ s)
unfolding parse
print_nodes-parse s =
    let h = parse_loop-IsReading (length s) s s (omega arith) in
    (λ e. subst (IsReading s) e h, λ ns e. subst (IsReading s) e h)
