-- ===== src/Tokens.antt =====
-- modules/pytagsfs/multithreading.py: tokens, of which a thread takes one at a time. A method of the
-- exchange is the part that it runs under the lock of the exchange, in one step, and then the calls of
-- tokens, one step for each access to the lock or to the owner of a token. `Point` is how far a
-- thread has come. A token that was never asked for is one that is free.
pub mod Running
pub mod Exclusion
pub mod Starting
pub mod Reached
pub mod Progress
use pytagsfs.Base.{
  ℕ, Bool, true, false, ◌==◌, if◌then◌else◌, Option, none, some, List, [], ◌∷◌, nat_eq,
}

-- What a thread does next: nothing, `release` of a token, with the token that it acquires after it,
-- the release of the lock in it, `acquire` of a token, or the write of the owner in it.
pub data Point : Type 0 where
  idle : Point
  releasing : (token : ℕ) (next : Option ℕ) → Point
  unlocking : (token : ℕ) (next : Option ℕ) → Point
  taking : (token : ℕ) → Point
  owning : (token : ℕ) → Point

pub record Exchange : Type 0 where
  -- `_owner` and `_lock` of each token, by its id
  pub owner : ℕ → Option ℕ
  pub is_locked : ℕ → Bool
  -- `_owner_token_queues`, the last token first
  pub queues : ℕ → List ℕ
  pub points : ℕ → Point

abbrev pub new_exchange : Exchange
new_exchange = record {
  owner = λ t. none;
  is_locked = λ t. false;
  queues = λ thread. [];
  points = λ thread. idle;
}

abbrev pub update {ℓ} : {A : Type ℓ} → ℕ → A → (ℕ → A) → ℕ → A
update k v f j = if j == k then v else f j

-- self._owner_token_queues[owner][-1], `none` for KeyError and IndexError
abbrev pub last_token : List ℕ → Option ℕ
last_token [] = none
last_token (t ∷ ts) = some t

-- if token is not None: token.acquire()
abbrev pub acquire_next : Option ℕ → Point
acquire_next none = idle
acquire_next (some t) = taking t

-- if token is not None: token.release(), and then another token's acquire
abbrev pub release_then : Option ℕ → Option ℕ → Point
release_then none next = acquire_next next
release_then (some t) next = releasing t next

abbrev pub at_point : ℕ → Point → Exchange → Exchange
at_point thread point s = record s { points = update thread point s.points }

unfoldable pub push_token : ℕ → ℕ → Exchange → Exchange
push_token thread token s =
    at_point thread (release_then (last_token (s.queues thread)) (some token))
      (record s { queues = update thread (token ∷ s.queues thread) s.queues })

-- `pop_token` of a queue that is not empty
unfoldable pub pop_token : ℕ → ℕ → List ℕ → Exchange → Exchange
pop_token thread token tokens s =
    at_point thread (releasing token (last_token tokens))
      (record s { queues = update thread tokens s.queues })

unfoldable pub release_token : ℕ → Exchange → Exchange
release_token thread s = at_point thread (release_then (last_token (s.queues thread)) none) s

unfoldable pub reacquire_token : ℕ → Exchange → Exchange
reacquire_token thread s = at_point thread (acquire_next (last_token (s.queues thread))) s

-- del self._owner
unfoldable pub clear_owner : ℕ → ℕ → Option ℕ → Exchange → Exchange
clear_owner thread token next s =
    at_point thread (unlocking token next) (record s { owner = update token none s.owner })

-- self._lock.release()
unfoldable pub release_lock : ℕ → ℕ → Option ℕ → Exchange → Exchange
release_lock thread token next s =
    at_point thread (acquire_next next) (record s { is_locked = update token false s.is_locked })

-- self._lock.acquire()
unfoldable pub acquire_lock : ℕ → ℕ → Exchange → Exchange
acquire_lock thread token s =
    at_point thread (owning token) (record s { is_locked = update token true s.is_locked })

-- self._owner = owner
unfoldable pub write_owner : ℕ → ℕ → Exchange → Exchange
write_owner thread token s =
    at_point thread idle (record s { owner = update token (some thread) s.owner })

-- raise TokenError
unfoldable pub token_error : ℕ → Exchange → Exchange
token_error thread s = at_point thread idle s
