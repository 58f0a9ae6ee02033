-- ===== src/Tests/Threads.antt =====
-- Two threads that use one token.
use pytagsfs.Base.{ℕ, ◌≡◌, refl, true, some}
use pytagsfs.Tokens.{Exchange, new_exchange, push_token, acquire_lock, write_owner}
use pytagsfs.Tokens.Running.{step_push, step_lock, step_own, IsReached, at_start, after}
use pytagsfs.Tokens.Exclusion.{holds}
use pytagsfs.Tokens.Reached.{one_token}
use pytagsfs.Tokens.Progress.{Obtains, no_deadlock}

abbrev first_pushed : Exchange
first_pushed = push_token 1 7 new_exchange

abbrev both_pushed : Exchange
both_pushed = push_token 2 7 first_pushed

abbrev first_inside : Exchange
first_inside = acquire_lock 1 7 both_pushed

abbrev first_owns : Exchange
first_owns = write_owner 1 7 first_inside

first_owns-IsReached : IsReached first_owns
unfolding push_token acquire_lock
first_owns-IsReached =
    after
      (after (after (after at_start (step_push 1 7 refl)) (step_push 2 7 refl))
        (step_lock 1 7 refl (λ e. cc) refl))
      (step_own 1 7 refl)

first_owns_token : first_owns.owner 7 ≡ some 1
unfolding write_owner
first_owns_token = refl

one_token_example :
    ((i j t : ℕ) → holds first_owns i t ≡ true → holds first_owns j t ≡ true → i ≡ j)
    × ((j t u : ℕ) → first_owns.owner t ≡ some j → first_owns.owner u ≡ some j → t ≡ u)
one_token_example = one_token first_owns-IsReached

-- The second thread waits for the token of the first.
no_deadlock_example : (holder : ℕ) × Obtains holder 2 7 first_owns
unfolding push_token acquire_lock write_owner
no_deadlock_example = no_deadlock first_owns-IsReached 2 7 refl (λ e. cc)
