-- ===== src/Base/Invariants.antt =====
-- Invariants of methods, whether they return or raise: one rule for each way to build a method.
use mathlib.Core.Bool.{Bool, true, false}
use mathlib.Core.Path.{◌≡◌, refl}
use pytagsfs.Base.Tests.{if◌then◌else◌}
use pytagsfs.Base.Effects.{
  Exc, Result, ok, err, Exec, pure, raise, continue, ◌>>=◌, catch, catch_result, zoom,
}

-- `m` leaves a state that has `P` where it starts from one.
pub record Keeps {ℓ κ μ} {S : Type ℓ} {A : Type κ} (P : S → Type μ) (m : Exec S A)
    : Type (ℓ ⊔ μ) where
  pub at : (s : S) → P s → P (m s).1

module _ {ℓ κ μ} {S : Type ℓ} {A : Type κ} {P : S → Type μ} where
  pub Keeps-pure : (a : A) → Keeps P (pure a)
  Keeps-pure a = record { at = λ s h. h }

  pub Keeps-raise : (c : Exc) → Keeps P (raise {A = A} c)
  Keeps-raise c = record { at = λ s h. h }

  pub Keeps-if : (b : Bool) (m n : Exec S A) → Keeps P m → Keeps P n → Keeps P (if b then m else n)
  Keeps-if true m n hm hn = hm
  Keeps-if false m n hm hn = hn

  -- A branch on the state.
  pub Keeps-if_at :
      (b : S → Bool) (m n : Exec S A)
      → Keeps P m
      → Keeps P n
      → Keeps P (λ s. if b s then m s else n s)
  Keeps-if_at b m n hm hn = record { at = λ s h. go (b s) s h }
    where
      go : (c : Bool) (s : S) → P s → P (if c then m s else n s).1
      go true s h = hm.at s h
      go false s h = hn.at s h

  catch_result-keeps :
      (test : Exc → Bool) (handler : Exec S A) (t : Result A × S)
      → Keeps P handler
      → P t.1
      → P (catch_result test handler t).1
  catch_result-keeps test handler (ok a, s) h p = p
  catch_result-keeps test handler (err c, s) h p = go (test c)
    where
      go : (b : Bool) → P (if b then handler s else (err c, s)).1
      go true = h.at s p
      go false = p

  pub Keeps-catch :
      (test : Exc → Bool) (handler m : Exec S A)
      → Keeps P handler
      → Keeps P m
      → Keeps P (catch test handler m)
  Keeps-catch test handler m h k = record {
    at = λ s p. catch_result-keeps test handler (m s) h (k.at s p);
  }

module _ {ℓ κ μ ν} {S : Type ℓ} {A : Type κ} {B : Type ν} {P : S → Type μ} where
  pub continue-keeps :
      (r : Result A) (f : A → Exec S B) (s : S)
      → ((a : A) → Keeps P (f a))
      → P s
      → P (continue r f s).1
  continue-keeps (ok a) f s h p = (h a).at s p
  continue-keeps (err c) f s h p = p

  pub Keeps-bind :
      (first : Exec S A) (next : A → Exec S B)
      → Keeps P first
      → ((a : A) → Keeps P (next a))
      → Keeps P (first >>= next)
  Keeps-bind first next h keeps = record {
    at = λ s p. continue-keeps (first s).0 next (first s).1 keeps (h.at s p);
  }

-- A component's method keeps what the whole asks of the component.
module _ {ℓ κ μ ν ξ} {S : Type ℓ} {T : Type κ} {A : Type μ} {P : S → Type ν} {Q : T → Type ξ} where
  pub Keeps-zoom :
      (get : S → T) (put : T → S → S) (m : Exec T A)
      → ((s : S) → P s → Q (get s))
      → ((s : S) (t : T) → P s → Q t → P (put t s))
      → Keeps Q m
      → Keeps P (zoom get put m)
  Keeps-zoom get put m out back h = record { at = λ s p. back s _ p (h.at (get s) (out s p)) }

-- A property of what a method returns or raises and of the state after it, where the method starts
-- with another: what holds of the first one's outcome is at hand for the next.
module _ {ℓ κ μ ν} {S : Type ℓ} {A : Type κ} {B : Type μ} (Q : Result B × S → Type ν) where
  continue-ensures :
      (r : Result A) (f : A → Exec S B) (s : S)
      → ((a : A) → r ≡ ok a → Q (f a s))
      → ((c : Exc) → r ≡ err c → Q (err c, s))
      → Q (continue r f s)
  continue-ensures (ok a) f s h k = h a refl
  continue-ensures (err c) f s h k = k c refl

  pub bind-ensures :
      (m : Exec S A) (f : A → Exec S B) (s : S)
      → ((a : A) → (m s).0 ≡ ok a → Q (f a (m s).1))
      → ((c : Exc) → (m s).0 ≡ err c → Q (err c, (m s).1))
      → Q ((m >>= f) s)
  bind-ensures m f s h k = continue-ensures (m s).0 f (m s).1 h k

module _ {ℓ κ ν} {S : Type ℓ} {A : Type κ} (Q : Result A × S → Type ν) where
  if-ensures : (b : Bool) (x y : Result A × S) → Q x → Q y → Q (if b then x else y)
  if-ensures true x y hx hy = hx
  if-ensures false x y hx hy = hy

  catch_result-ensures :
      (test : Exc → Bool) (handler : Exec S A) (r : Result A) (s : S)
      → ((a : A) → r ≡ ok a → Q (ok a, s))
      → ((c : Exc) → r ≡ err c → Q (handler s))
      → ((c : Exc) → r ≡ err c → Q (err c, s))
      → Q (catch_result test handler (r, s))
  catch_result-ensures test handler (ok a) s h k l = h a refl
  catch_result-ensures test handler (err c) s h k l =
      if-ensures (test c) (handler s) (err c, s) (k c refl) (l c refl)

  pub catch-ensures :
      (test : Exc → Bool) (handler m : Exec S A) (s : S)
      → ((a : A) → (m s).0 ≡ ok a → Q (ok a, (m s).1))
      → ((c : Exc) → (m s).0 ≡ err c → Q (handler (m s).1))
      → ((c : Exc) → (m s).0 ≡ err c → Q (err c, (m s).1))
      → Q (catch test handler m s)
  catch-ensures test handler m s h k l = catch_result-ensures test handler (m s).0 (m s).1 h k l
