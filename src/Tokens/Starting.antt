-- ===== src/Tokens/Starting.antt =====
-- The methods of the exchange, where they start, keep tokens exclusive.
use pytagsfs.Base.{ℕ, ◌≡◌, refl, true, false, none, some, List, [], ◌∷◌, arith, nat_eq, nat_beq_iff}
use pytagsfs.Tokens.{
  Point, idle, releasing, taking, Exchange, push_token, pop_token, release_token, reacquire_token,
  update, last_token, acquire_next, release_then,
}
use pytagsfs.Tokens.Exclusion.{owns, is_inside, may_own, is_next, is_shaped, IsExclusive}

-- A method that starts: the queue of the thread changes, and its point, which holds nothing.
start-IsExclusive :
    (thread : ℕ) (q : List ℕ) (point : Point) (s : Exchange)
    → ((t : ℕ) → owns s thread t ≡ true → may_own q point t ≡ true)
    → is_shaped q point ≡ true
    → ((t : ℕ) → is_inside point t ≡ false)
    → IsExclusive s
    → IsExclusive
        (record s { queues = update thread q s.queues; points = update thread point s.points })
start-IsExclusive thread q point s m h n v = record {
  owned = λ j t k. ground (arith, v.owned j t, m t, nat_beq_iff j thread);
  shaped = λ j. ground (arith, v.shaped j, h, nat_beq_iff j thread);
  locked = λ j t k. ground (arith, v.locked j t, n t, nat_beq_iff j thread);
  single =
      λ i j t k l. ground (arith, v.single i j t, n t, nat_beq_iff i thread, nat_beq_iff j thread);
}

pub push_token-IsExclusive :
    (thread token : ℕ) (s : Exchange)
    → s.points thread ≡ idle
    → IsExclusive s
    → IsExclusive (push_token thread token s)
unfolding push_token
push_token-IsExclusive thread token s p v = go (s.queues thread) refl
  where
    go :
        (q : List ℕ)
        → s.queues thread ≡ q
        → IsExclusive (record s {
          queues = update thread (token ∷ q) s.queues;
          points = update thread (release_then (last_token q) (some token)) s.points;
        })
    go [] e =
        start-IsExclusive thread (token ∷ []) (taking token) s
          (λ t h. ground (arith, v.owned thread t, p, e)) (ground (arith, nat_beq_iff token token))
          (λ t. refl) v
    go (u ∷ q) e =
        start-IsExclusive thread (token ∷ u ∷ q) (releasing u (some token)) s
          (λ t h. ground (arith, v.owned thread t, p, e)) (ground (arith, nat_beq_iff token token))
          (λ t. refl) v

is_next-last : (q : List ℕ) → is_next q (last_token q) ≡ true
is_next-last [] = refl
is_next-last (t ∷ q) = ground (arith, nat_beq_iff t t)

pub pop_token-IsExclusive :
    (thread token : ℕ) (tokens : List ℕ) (s : Exchange)
    → s.points thread ≡ idle
    → s.queues thread ≡ token ∷ tokens
    → IsExclusive s
    → IsExclusive (pop_token thread token tokens s)
unfolding pop_token
pop_token-IsExclusive thread token tokens s p e v =
    start-IsExclusive thread tokens (releasing token (last_token tokens)) s
      (λ t h. ground (arith, v.owned thread t, p, e)) (is_next-last tokens) (λ t. refl) v

-- A method that starts and leaves the queue as it is.
point-IsExclusive :
    (thread : ℕ) (point : Point) (s : Exchange)
    → ((t : ℕ) → owns s thread t ≡ true → may_own (s.queues thread) point t ≡ true)
    → is_shaped (s.queues thread) point ≡ true
    → ((t : ℕ) → is_inside point t ≡ false)
    → IsExclusive s
    → IsExclusive (record s { points = update thread point s.points })
point-IsExclusive thread point s m h n v = record {
  owned = λ j t k. ground (arith, v.owned j t, m t, nat_beq_iff j thread);
  shaped = λ j. ground (arith, v.shaped j, h, nat_beq_iff j thread);
  locked = λ j t k. ground (arith, v.locked j t, n t, nat_beq_iff j thread);
  single =
      λ i j t k l. ground (arith, v.single i j t, n t, nat_beq_iff i thread, nat_beq_iff j thread);
}

pub release_token-IsExclusive :
    (thread : ℕ) (s : Exchange)
    → s.points thread ≡ idle
    → IsExclusive s
    → IsExclusive (release_token thread s)
unfolding release_token
release_token-IsExclusive thread s p v = go (s.queues thread) refl
  where
    go :
        (q : List ℕ)
        → s.queues thread ≡ q
        → IsExclusive
            (record s { points = update thread (release_then (last_token q) none) s.points })
    go [] e =
        point-IsExclusive thread idle s (λ t h. ground (arith, v.owned thread t, p)) refl
          (λ t. refl) v
    go (u ∷ q) e =
        point-IsExclusive thread (releasing u none) s
          (λ t h. ground (arith, v.owned thread t, p, e)) refl (λ t. refl) v

pub reacquire_token-IsExclusive :
    (thread : ℕ) (s : Exchange)
    → s.points thread ≡ idle
    → IsExclusive s
    → IsExclusive (reacquire_token thread s)
unfolding reacquire_token
reacquire_token-IsExclusive thread s p v = go (s.queues thread) refl
  where
    go :
        (q : List ℕ)
        → s.queues thread ≡ q
        → IsExclusive (record s { points = update thread (acquire_next (last_token q)) s.points })
    go [] e =
        point-IsExclusive thread idle s (λ t h. ground (arith, v.owned thread t, p)) refl
          (λ t. refl) v
    go (u ∷ q) e =
        point-IsExclusive thread (taking u) s (λ t h. ground (arith, v.owned thread t, p, e))
          (ground (arith, e, nat_beq_iff u u)) (λ t. refl) v
