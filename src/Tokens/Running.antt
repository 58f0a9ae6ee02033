-- ===== src/Tokens/Running.antt =====
-- Steps of threads that use tokens, in any order.
use pytagsfs.Base.{ℕ, ◌≡◌, ◌≢◌, false, Option, some, List, ◌∷◌}
use pytagsfs.Tokens.{
  idle, releasing, unlocking, taking, owning, Exchange, new_exchange, push_token, pop_token,
  release_token, reacquire_token, clear_owner, release_lock, acquire_lock, write_owner, token_error,
}

-- One step of a thread. A method starts where the thread is idle, and `acquire` waits for the lock.
pub data Step (s : Exchange) : Exchange → Type 0 where
  step_push : (thread token : ℕ) → s.points thread ≡ idle → Step s (push_token thread token s)
  step_pop :
      (thread token : ℕ) (tokens : List ℕ)
      → s.points thread ≡ idle
      → s.queues thread ≡ token ∷ tokens
      → Step s (pop_token thread token tokens s)
  step_release : (thread : ℕ) → s.points thread ≡ idle → Step s (release_token thread s)
  step_reacquire : (thread : ℕ) → s.points thread ≡ idle → Step s (reacquire_token thread s)
  step_clear :
      (thread token : ℕ) (next : Option ℕ)
      → s.points thread ≡ releasing token next
      → s.owner token ≡ some thread
      → Step s (clear_owner thread token next s)
  step_not_acquired :
      (thread token : ℕ) (next : Option ℕ)
      → s.points thread ≡ releasing token next
      → s.owner token ≢ some thread
      → Step s (token_error thread s)
  step_unlock :
      (thread token : ℕ) (next : Option ℕ)
      → s.points thread ≡ unlocking token next
      → Step s (release_lock thread token next s)
  step_lock :
      (thread token : ℕ)
      → s.points thread ≡ taking token
      → s.owner token ≢ some thread
      → s.is_locked token ≡ false
      → Step s (acquire_lock thread token s)
  step_already_acquired :
      (thread token : ℕ)
      → s.points thread ≡ taking token
      → s.owner token ≡ some thread
      → Step s (token_error thread s)
  step_own :
      (thread token : ℕ) → s.points thread ≡ owning token → Step s (write_owner thread token s)

pub data IsReached : Exchange → Type 0 where
  at_start : IsReached new_exchange
  after : {s t : Exchange} → IsReached s → Step s t → IsReached t
