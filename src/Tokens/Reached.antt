-- ===== src/Tokens/Reached.antt =====
-- In every state that threads reach, tokens are exclusive.
use pytagsfs.Base.{
  ℕ, ◌≡◌, ◌≢◌, refl, true, false, some, List, [], ◌∷◌, arith, nat_eq, nat_beq_iff, Bool-cases, inl,
  inr,
}
use pytagsfs.Tokens.{Point, idle, releasing, unlocking, taking, owning, Exchange, new_exchange}
use pytagsfs.Tokens.Running.{
  Step, step_push, step_pop, step_release, step_reacquire, step_clear, step_not_acquired,
  step_unlock, step_lock, step_already_acquired, step_own, IsReached, at_start, after,
}
use pytagsfs.Tokens.Exclusion.{
  owns, holds, may_own, IsExclusive, clear_owner-IsExclusive, release_lock-IsExclusive,
  acquire_lock-IsExclusive, write_owner-IsExclusive, token_error-IsExclusive,
}
use pytagsfs.Tokens.Starting.{
  push_token-IsExclusive, pop_token-IsExclusive, release_token-IsExclusive,
  reacquire_token-IsExclusive,
}

pub owns-true :
    (s : Exchange) (thread token : ℕ) → owns s thread token ≡ true → s.owner token ≡ some thread
owns-true s thread token h = ground (arith, nat_beq_iff thread thread)

pub owns-false :
    (s : Exchange) (thread token : ℕ) → s.owner token ≢ some thread → owns s thread token ≡ false
owns-false s thread token h = elim (Bool-cases (owns s thread token)) [
  | inl e ↦ absurd (h (owns-true s thread token e))
  | inr e ↦ e
]

Step-IsExclusive : {s t : Exchange} → Step s t → IsExclusive s → IsExclusive t
Step-IsExclusive {s} (step_push thread token p) v = push_token-IsExclusive thread token s p v
Step-IsExclusive {s} (step_pop thread token tokens p e) v =
    pop_token-IsExclusive thread token tokens s p e v
Step-IsExclusive {s} (step_release thread p) v = release_token-IsExclusive thread s p v
Step-IsExclusive {s} (step_reacquire thread p) v = reacquire_token-IsExclusive thread s p v
Step-IsExclusive {s} (step_clear thread token next p o) v =
    clear_owner-IsExclusive thread token next s p o v
Step-IsExclusive {s} (step_not_acquired thread token next p o) v =
    let not_owned = owns-false s thread token o in
    token_error-IsExclusive thread s
      (λ t h. ground (arith, v.owned thread t, nat_beq_iff token t, p, not_owned))
      (λ t. ground (arith, p)) v
Step-IsExclusive {s} (step_unlock thread token next p) v =
    release_lock-IsExclusive thread token next s p v
Step-IsExclusive {s} (step_lock thread token p o l) v =
    acquire_lock-IsExclusive thread token s p (owns-false s thread token o) l v
Step-IsExclusive {s} (step_already_acquired thread token p o) v =
    token_error-IsExclusive thread s
      (λ t h. ground (arith, v.owned thread t, v.shaped thread, nat_beq_iff token t, p))
      (λ t. ground (arith, p)) v
Step-IsExclusive {s} (step_own thread token p) v = write_owner-IsExclusive thread token s p v

new_exchange-IsExclusive : IsExclusive new_exchange
new_exchange-IsExclusive = record {
  owned = λ j t h. cc;
  shaped = λ j. refl;
  locked = λ j t h. cc;
  single = λ i j t h k. cc;
}

pub reached-IsExclusive : {s : Exchange} → IsReached s → IsExclusive s
reached-IsExclusive at_start = new_exchange-IsExclusive
reached-IsExclusive (after r step) = Step-IsExclusive step (reached-IsExclusive r)

same_token :
    (q : List ℕ) (p : Point) (t u : ℕ) → may_own q p t ≡ true → may_own q p u ≡ true → t ≡ u
same_token [] idle t u h k = cc
same_token (v ∷ q) idle t u h k = ground (arith, nat_beq_iff v t, nat_beq_iff v u)
same_token q (releasing v next) t u h k = ground (arith, nat_beq_iff v t, nat_beq_iff v u)
same_token q (unlocking v next) t u h k = cc
same_token q (taking v) t u h k = ground (arith, nat_beq_iff v t, nat_beq_iff v u)
same_token q (owning v) t u h k = cc

owner-owns : (s : Exchange) (j t : ℕ) → s.owner t ≡ some j → owns s j t ≡ true
owner-owns s j t h = ground (arith, h, nat_beq_iff j j)

-- However threads push, pop, release and reacquire tokens, and however their steps are interleaved,
-- in every state that is reached no token is held by two threads, and the tokens that one thread owns
-- are the same token.
pub one_token :
    {s : Exchange}
    → IsReached s
    → ((i j t : ℕ) → holds s i t ≡ true → holds s j t ≡ true → i ≡ j)
      × ((j t u : ℕ) → s.owner t ≡ some j → s.owner u ≡ some j → t ≡ u)
one_token {s} r =
    let v = reached-IsExclusive r in
    (
      v.single,
      λ j t u a b.
          same_token (s.queues j) (s.points j) t u (v.owned j t (owner-owns s j t a))
            (v.owned j u (owner-owns s j u b)),
    )
