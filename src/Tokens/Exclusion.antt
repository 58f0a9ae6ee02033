-- ===== src/Tokens/Exclusion.antt =====
-- No thread owns two tokens, and no token is held by two threads.
use pytagsfs.Base.{
  ℕ, ◌≡◌, Bool, true, false, ◌||◌, ◌==◌, Option, none, some, List, arith, nat_eq, nat_beq_iff,
}
use pytagsfs.Tokens.{
  Point, idle, releasing, unlocking, taking, owning, Exchange, clear_owner, release_lock,
  acquire_lock, write_owner, token_error, last_token,
}

abbrev pub is_some : Option ℕ → ℕ → Bool
is_some none k = false
is_some (some j) k = j == k

-- The owner of the token is the thread.
abbrev pub owns : Exchange → ℕ → ℕ → Bool
owns s thread token = is_some (s.owner token) thread

-- A thread that is about to write itself as the owner, or to release the lock.
abbrev pub is_inside : Point → ℕ → Bool
is_inside (owning t) token = t == token
is_inside (unlocking t next) token = t == token
is_inside idle token = false
is_inside (releasing t next) token = false
is_inside (taking t) token = false

-- The thread has the lock of the token: it is its owner, or between the lock and the owner.
abbrev pub holds : Exchange → ℕ → ℕ → Bool
holds s thread token = owns s thread token || is_inside (s.points thread) token

-- The tokens that a thread may own.
abbrev pub may_own : List ℕ → Point → ℕ → Bool
may_own q idle token = is_some (last_token q) token
may_own q (releasing t next) token = t == token
may_own q (unlocking t next) token = false
may_own q (taking t) token = t == token
may_own q (owning t) token = false

-- The token to acquire is the last one of the queue.
abbrev pub is_next : List ℕ → Option ℕ → Bool
is_next q none = true
is_next q (some t) = is_some (last_token q) t

abbrev pub is_shaped : List ℕ → Point → Bool
is_shaped q idle = true
is_shaped q (releasing t next) = is_next q next
is_shaped q (unlocking t next) = is_next q next
is_shaped q (taking t) = is_next q (some t)
is_shaped q (owning t) = is_next q (some t)

pub record IsExclusive (s : Exchange) : Type 0 where
  pub owned : (j t : ℕ) → owns s j t ≡ true → may_own (s.queues j) (s.points j) t ≡ true
  pub shaped : (j : ℕ) → is_shaped (s.queues j) (s.points j) ≡ true
  pub locked : (j t : ℕ) → holds s j t ≡ true → s.is_locked t ≡ true
  pub single : (i j t : ℕ) → holds s i t ≡ true → holds s j t ≡ true → i ≡ j

pub clear_owner-IsExclusive :
    (thread token : ℕ) (next : Option ℕ) (s : Exchange)
    → s.points thread ≡ releasing token next
    → s.owner token ≡ some thread
    → IsExclusive s
    → IsExclusive (clear_owner thread token next s)
unfolding clear_owner
clear_owner-IsExclusive thread token next s p o v = record {
  owned = λ j t h. ground (
    arith,
    v.owned j t,
    v.owned thread t,
    nat_beq_iff j thread,
    nat_beq_iff t token,
    nat_beq_iff token t,
    p,
    o,
  );
  shaped = λ j. ground (arith, v.shaped j, v.shaped thread, nat_beq_iff j thread, p);
  locked = λ j t h. ground (
    arith,
    v.locked j t,
    v.locked thread t,
    nat_beq_iff j thread,
    nat_beq_iff t token,
    nat_beq_iff token t,
    p,
    o,
  );
  single = λ i j t h k. ground (
    arith,
    v.single i j t,
    nat_beq_iff i thread,
    nat_beq_iff j thread,
    nat_beq_iff t token,
    nat_beq_iff token t,
    p,
    o,
  );
}

pub release_lock-IsExclusive :
    (thread token : ℕ) (next : Option ℕ) (s : Exchange)
    → s.points thread ≡ unlocking token next
    → IsExclusive s
    → IsExclusive (release_lock thread token next s)
unfolding release_lock
release_lock-IsExclusive thread token none s p v = record {
  owned = λ j t h. ground (arith, v.owned j t, v.owned thread t, nat_beq_iff j thread, p);
  shaped = λ j. ground (arith, v.shaped j, v.shaped thread, nat_beq_iff j thread, p);
  locked = λ j t h. ground (
    arith,
    v.locked j t,
    v.owned thread t,
    v.single j thread t,
    nat_beq_iff j thread,
    nat_beq_iff t token,
    nat_beq_iff token t,
    p,
  );
  single = λ i j t h k.
      ground
        (arith, v.single i j t, nat_beq_iff i thread, nat_beq_iff j thread, nat_beq_iff token t, p);
}
release_lock-IsExclusive thread token (some u) s p v = record {
  owned = λ j t h. ground (arith, v.owned j t, v.owned thread t, nat_beq_iff j thread, p);
  shaped = λ j. ground (arith, v.shaped j, v.shaped thread, nat_beq_iff j thread, p);
  locked = λ j t h. ground (
    arith,
    v.locked j t,
    v.owned thread t,
    v.single j thread t,
    nat_beq_iff j thread,
    nat_beq_iff t token,
    nat_beq_iff token t,
    p,
  );
  single = λ i j t h k.
      ground
        (arith, v.single i j t, nat_beq_iff i thread, nat_beq_iff j thread, nat_beq_iff token t, p);
}

pub acquire_lock-IsExclusive :
    (thread token : ℕ) (s : Exchange)
    → s.points thread ≡ taking token
    → owns s thread token ≡ false
    → s.is_locked token ≡ false
    → IsExclusive s
    → IsExclusive (acquire_lock thread token s)
unfolding acquire_lock
acquire_lock-IsExclusive thread token s p o l v = record {
  owned = λ j t h.
      ground
        (arith, v.owned j t, v.owned thread t, nat_beq_iff j thread, nat_beq_iff token t, p, o);
  shaped = λ j. ground (arith, v.shaped j, v.shaped thread, nat_beq_iff j thread, p);
  locked = λ j t h.
      ground
        (arith, v.locked j t, nat_beq_iff j thread, nat_beq_iff t token, nat_beq_iff token t, p);
  single = λ i j t h k. ground (
    arith,
    v.single i j t,
    v.locked i t,
    v.locked j t,
    nat_beq_iff i thread,
    nat_beq_iff j thread,
    nat_beq_iff token t,
    p,
    l,
  );
}

pub write_owner-IsExclusive :
    (thread token : ℕ) (s : Exchange)
    → s.points thread ≡ owning token
    → IsExclusive s
    → IsExclusive (write_owner thread token s)
unfolding write_owner
write_owner-IsExclusive thread token s p v = record {
  owned = λ j t h. ground (
    arith,
    v.owned j t,
    v.owned thread t,
    v.shaped thread,
    nat_beq_iff thread j,
    nat_beq_iff j thread,
    nat_beq_iff t token,
    p,
  );
  shaped = λ j. ground (arith, v.shaped j, nat_beq_iff j thread);
  locked = λ j t h. ground (
    arith,
    v.locked j t,
    v.locked thread t,
    nat_beq_iff thread j,
    nat_beq_iff j thread,
    nat_beq_iff t token,
    nat_beq_iff token t,
    p,
  );
  single = λ i j t h k. ground (
    arith,
    v.single i j t,
    v.single i thread t,
    v.single j thread t,
    nat_beq_iff i thread,
    nat_beq_iff thread i,
    nat_beq_iff thread j,
    nat_beq_iff j thread,
    nat_beq_iff t token,
    nat_beq_iff token t,
    p,
  );
}

pub token_error-IsExclusive :
    (thread : ℕ) (s : Exchange)
    → ((t : ℕ) → owns s thread t ≡ true → is_some (last_token (s.queues thread)) t ≡ true)
    → ((t : ℕ) → is_inside (s.points thread) t ≡ false)
    → IsExclusive s
    → IsExclusive (token_error thread s)
unfolding token_error
token_error-IsExclusive thread s q n v = record {
  owned = λ j t h. ground (arith, v.owned j t, q t, nat_beq_iff j thread);
  shaped = λ j. ground (arith, v.shaped j, nat_beq_iff j thread);
  locked = λ j t h. ground (arith, v.locked j t, n t, nat_beq_iff j thread);
  single =
      λ i j t h k. ground (arith, v.single i j t, n t, nat_beq_iff i thread, nat_beq_iff j thread);
}
