-- ===== src/Tokens/Progress.antt =====
-- A thread that waits for a token: the thread that holds the token can give it back.
use pytagsfs.Base.{
  ◌⊎◌, ℕ, ◌≡◌, ◌≢◌, refl, true, false, ◌==◌, Option, none, some, arith, nat_eq, nat_beq_iff,
  Bool-cases, inl, inr,
}
use pytagsfs.Tokens.{
  Point, idle, releasing, unlocking, taking, owning, Exchange, push_token, pop_token, release_token,
  reacquire_token, clear_owner, release_lock, acquire_lock, write_owner, token_error, last_token,
}
use pytagsfs.Tokens.Running.{
  Step, step_push, step_pop, step_release, step_reacquire, step_clear, step_not_acquired,
  step_unlock, step_lock, step_already_acquired, step_own, IsReached, at_start, after,
}
use pytagsfs.Tokens.Exclusion.{owns, holds, is_some, IsExclusive}
use pytagsfs.Tokens.Reached.{reached-IsExclusive, owns-true, owns-false}

abbrev pub thread_of : {s t : Exchange} → Step s t → ℕ
thread_of (step_push thread token p) = thread
thread_of (step_pop thread token tokens p e) = thread
thread_of (step_release thread p) = thread
thread_of (step_reacquire thread p) = thread
thread_of (step_clear thread token next p o) = thread
thread_of (step_not_acquired thread token next p o) = thread
thread_of (step_unlock thread token next p) = thread
thread_of (step_lock thread token p o l) = thread
thread_of (step_already_acquired thread token p o) = thread
thread_of (step_own thread token p) = thread

-- Steps of one thread, while the others stand still.
pub data Steps (thread : ℕ) : Exchange → Exchange → Type 0 where
  done : {s : Exchange} → Steps thread s s
  then_step :
      {s t u : Exchange} (step : Step s t)
      → thread_of step ≡ thread
      → Steps thread t u
      → Steps thread s u

-- After steps of the holder alone, the thread can take the lock of the token.
abbrev pub Obtains : ℕ → ℕ → ℕ → Exchange → Type 0
Obtains holder thread token s =
    (t : Exchange) × Steps holder s t × Step t (acquire_lock thread token t)

-- Every lock that is taken is taken by a thread.
abbrev pub HasHolder : Exchange → Type 0
HasHolder s = (token : ℕ) → s.is_locked token ≡ true → (i : ℕ) × (holds s i token ≡ true)

then-Obtains :
    (i j token : ℕ) {s t : Exchange} (step : Step s t)
    → thread_of step ≡ i
    → Obtains i j token t
    → Obtains i j token s
then-Obtains i j token step e (u, steps, last) = (u, then_step step e steps, last)

unlocking-Obtains :
    (i j token : ℕ) (next : Option ℕ) (s : Exchange)
    → i ≢ j
    → s.points i ≡ unlocking token next
    → s.points j ≡ taking token
    → s.owner token ≢ some j
    → Obtains i j token s
unfolding release_lock
unlocking-Obtains i j token next s n p q o = (
  release_lock i token next s,
  then_step (step_unlock i token next p) refl done,
  step_lock j token (ground (arith, nat_beq_iff j i)) o (ground (arith, nat_beq_iff token token)),
)

releasing-Obtains :
    (i j token : ℕ) (next : Option ℕ) (s : Exchange)
    → i ≢ j
    → s.points i ≡ releasing token next
    → s.points j ≡ taking token
    → s.owner token ≡ some i
    → Obtains i j token s
unfolding clear_owner
releasing-Obtains i j token next s n p q o =
    then-Obtains i j token (step_clear i token next p o) refl (
      unlocking-Obtains i j token next (clear_owner i token next s) n
        (ground (arith, nat_beq_iff i i)) (ground (arith, nat_beq_iff j i))
        (λ e. ground (arith, nat_beq_iff token token)))

idle-Obtains :
    (i j token : ℕ) (s : Exchange)
    → i ≢ j
    → s.points i ≡ idle
    → last_token (s.queues i) ≡ some token
    → s.points j ≡ taking token
    → s.owner token ≡ some i
    → Obtains i j token s
unfolding release_token
idle-Obtains i j token s n p l q o = then-Obtains i j token (step_release i p) refl (
    releasing-Obtains i j token none (release_token i s) n (ground (arith, nat_beq_iff i i, l))
      (ground (arith, nat_beq_iff j i)) o)

taking-Obtains :
    (i j token : ℕ) (s : Exchange)
    → i ≢ j
    → s.points i ≡ taking token
    → last_token (s.queues i) ≡ some token
    → s.points j ≡ taking token
    → s.owner token ≡ some i
    → Obtains i j token s
unfolding token_error
taking-Obtains i j token s n p l q o =
    then-Obtains i j token (step_already_acquired i token p o) refl (
      idle-Obtains i j token (token_error i s) n (ground (arith, nat_beq_iff i i)) l
        (ground (arith, nat_beq_iff j i)) o)

owning-Obtains :
    (i j token : ℕ) (s : Exchange)
    → i ≢ j
    → s.points i ≡ owning token
    → last_token (s.queues i) ≡ some token
    → s.points j ≡ taking token
    → Obtains i j token s
unfolding write_owner
owning-Obtains i j token s n p l q = then-Obtains i j token (step_own i token p) refl (
    idle-Obtains i j token (write_owner i token s) n (ground (arith, nat_beq_iff i i)) l
      (ground (arith, nat_beq_iff j i)) (ground (arith, nat_beq_iff token token)))

is_some-true : (o : Option ℕ) (k : ℕ) → is_some o k ≡ true → o ≡ some k
is_some-true none k h = cc
is_some-true (some j) k h = ground (arith, nat_beq_iff j k)

holder-Obtains :
    (i j token : ℕ) (s : Exchange)
    → IsExclusive s
    → s.points j ≡ taking token
    → s.owner token ≢ some j
    → holds s i token ≡ true
    → Obtains i j token s
holder-Obtains i j token s v q o h = go (s.points i) refl (Bool-cases (owns s i token))
  where
    not_same : i ≢ j
    not_same e = ground (arith, owns-false s j token o, h, e, q)

    go :
        (p : Point)
        → s.points i ≡ p
        → (owns s i token ≡ true) ⊎ (owns s i token ≡ false)
        → Obtains i j token s
    go idle e (inl w) =
        idle-Obtains i j token s not_same e
          (is_some-true (last_token (s.queues i)) token (ground (arith, v.owned i token w, e))) q
          (owns-true s i token w)
    go (releasing t next) e (inl w) =
        releasing-Obtains i j token next s not_same
          (ground (arith, v.owned i token w, e, nat_beq_iff t token)) q (owns-true s i token w)
    go (unlocking t next) e (inl w) = absurd (ground (arith, v.owned i token w, e))
    go (taking t) e (inl w) =
        taking-Obtains i j token s not_same
          (ground (arith, v.owned i token w, e, nat_beq_iff t token))
          (is_some-true (last_token (s.queues i)) token
            (ground (arith, v.shaped i, v.owned i token w, e, nat_beq_iff t token)))
          q (owns-true s i token w)
    go (owning t) e (inl w) = absurd (ground (arith, v.owned i token w, e))
    go idle e (inr w) = absurd (ground (arith, h, e, w))
    go (releasing t next) e (inr w) = absurd (ground (arith, h, e, w))
    go (unlocking t next) e (inr w) =
        unlocking-Obtains i j token next s not_same (ground (arith, h, e, w, nat_beq_iff t token)) q
          o
    go (taking t) e (inr w) = absurd (ground (arith, h, e, w))
    go (owning t) e (inr w) =
        owning-Obtains i j token s not_same (ground (arith, h, e, w, nat_beq_iff t token))
          (is_some-true (last_token (s.queues i)) token
            (ground (arith, v.shaped i, h, e, w, nat_beq_iff t token)))
          q

-- The holder in the state before a step that is not of that token.
same_holder :
    (s t : Exchange) (token : ℕ)
    → ((i : ℕ) → holds s i token ≡ true → holds t i token ≡ true)
    → (i : ℕ) × (holds s i token ≡ true)
    → (i : ℕ) × (holds t i token ≡ true)
same_holder s t token f (i, h) = (i, f i h)

Step-HasHolder : {s t : Exchange} → Step s t → HasHolder s → HasHolder t
unfolding push_token pop_token release_token reacquire_token clear_owner release_lock acquire_lock
    write_owner token_error
Step-HasHolder {s} (step_push thread t p) v token l =
    same_holder s (push_token thread t s) token (λ i h. ground (arith, p, nat_beq_iff i thread))
      (v token l)
Step-HasHolder {s} (step_pop thread t tokens p e) v token l =
    same_holder s (pop_token thread t tokens s) token
      (λ i h. ground (arith, p, nat_beq_iff i thread)) (v token l)
Step-HasHolder {s} (step_release thread p) v token l =
    same_holder s (release_token thread s) token (λ i h. ground (arith, p, nat_beq_iff i thread))
      (v token l)
Step-HasHolder {s} (step_reacquire thread p) v token l =
    same_holder s (reacquire_token thread s) token (λ i h. ground (arith, p, nat_beq_iff i thread))
      (v token l)
Step-HasHolder {s} (step_clear thread t next p o) v token l = elim (Bool-cases (token == t)) [
  | inl e ↦ (
    thread,
    ground (arith, e, nat_beq_iff token t, nat_beq_iff t token, nat_beq_iff thread thread),
  )
  | inr e ↦
      same_holder s (clear_owner thread t next s) token
        (λ i h. ground (arith, p, e, nat_beq_iff i thread)) (v token l)
]
Step-HasHolder {s} (step_not_acquired thread t next p o) v token l =
    same_holder s (token_error thread s) token (λ i h. ground (arith, p, nat_beq_iff i thread))
      (v token l)
Step-HasHolder {s} (step_unlock thread t next p) v token l =
    same_holder s (release_lock thread t next s) token
      (λ i h. ground (arith, p, l, nat_beq_iff token t, nat_beq_iff t token, nat_beq_iff i thread))
      (v token (ground (arith, l)))
Step-HasHolder {s} (step_lock thread t p o k) v token l = elim (Bool-cases (token == t)) [
  | inl e ↦ (
    thread,
    ground (arith, e, nat_beq_iff token t, nat_beq_iff t token, nat_beq_iff thread thread),
  )
  | inr e ↦
      same_holder s (acquire_lock thread t s) token
        (λ i h. ground (arith, p, e, nat_beq_iff i thread)) (v token (ground (arith, l, e)))
]
Step-HasHolder {s} (step_already_acquired thread t p o) v token l =
    same_holder s (token_error thread s) token (λ i h. ground (arith, p, nat_beq_iff i thread))
      (v token l)
Step-HasHolder {s} (step_own thread t p) v token l = elim (Bool-cases (token == t)) [
  | inl e ↦ (
    thread,
    ground (arith, e, nat_beq_iff token t, nat_beq_iff t token, nat_beq_iff thread thread),
  )
  | inr e ↦
      same_holder s (write_owner thread t s) token
        (λ i h.
          ground (arith, p, e, nat_beq_iff i thread, nat_beq_iff token t, nat_beq_iff t token))
        (v token l)
]

reached-HasHolder : {s : Exchange} → IsReached s → HasHolder s
reached-HasHolder at_start = λ token l. cc
reached-HasHolder (after r step) = Step-HasHolder step (reached-HasHolder r)

-- However the steps of threads are interleaved, in every state that is reached in which a thread waits
-- to acquire a token that it does not own, there is a thread whose own steps, none of another
-- thread among them, lead to a state in which the waiting thread can take the lock of the token.
pub no_deadlock :
    {s : Exchange}
    → IsReached s
    → (thread token : ℕ) → s.points thread ≡ taking token
    → s.owner token ≢ some thread
    → (holder : ℕ) × Obtains holder thread token s
no_deadlock {s} r thread token p o = elim (Bool-cases (s.is_locked token)) [
  | inl l ↦
      let (holder, h) = reached-HasHolder r token l in
      (holder, holder-Obtains holder thread token s (reached-IsExclusive r) p o h)
  | inr l ↦ (thread, (s, done, step_lock thread token p o l))
]
