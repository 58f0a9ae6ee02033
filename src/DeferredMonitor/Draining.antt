-- ===== src/DeferredMonitor/Draining.antt =====
-- The processing of the queue.
use pytagsfs.Base.{◌≡◌, ap, List, [], ◌∷◌, ◌++◌, Result, ok, err, Exc, Proc, ◌∙◌}
use pytagsfs.DeferredMonitor.{Event, finish_processing, after_callback}

module _ {ℓ κ} {A : Type ℓ} {W : Type κ} (callback : Event A → Proc W) where
  finish_processing-append :
      (before after : List (Event A)) (w w₁ : W)
      → finish_processing callback before w ≡ (ok tt, [], w₁)
      → finish_processing callback (before ++ after) w ≡ finish_processing callback after w₁
  unfolding finish_processing after_callback
  finish_processing-append [] after w w₁ h = ap (λ r. finish_processing callback after r.2) h
  finish_processing-append (e ∷ before) after w w₁ h =
      go (λ v k. finish_processing-append before after v w₁ k) (callback e w) h
    where
      go :
          ((v : W)
            → finish_processing callback before v ≡ (ok tt, [], w₁)
            → finish_processing callback (before ++ after) v ≡ finish_processing callback after w₁)
          → (r : Result (Unit {0}) × W)
          → after_callback callback r (finish_processing callback before) before ≡ (ok tt, [], w₁)
          → after_callback callback r
              (finish_processing callback (before ++ after))
              (before ++ after)
            ≡ finish_processing callback after w₁
      go rest (ok _, v) h = rest v h
      go rest (err c, v) h = cc

  -- Where the callbacks of the first events of a queue return and the callback of the event after
  -- them raises, `finish_processing` raises the same exception, the callbacks have run in the order
  -- of the queue up to that event, and the events after it, and no others, are left in the queue.
  pub finish_processing_raised :
      (before after : List (Event A)) (e : Event A) (w w₁ w₂ : W) (c : Exc)
      → finish_processing callback before w ≡ (ok tt, [], w₁)
      → callback e w₁ ≡ (err c, w₂)
      → finish_processing callback (before ++ e ∷ after) w ≡ (err c, after, w₂)
  unfolding finish_processing after_callback
  finish_processing_raised before after e w w₁ w₂ c h raised =
      finish_processing-append before (e ∷ after) w w₁ h
      ∙ ap (λ r. after_callback callback r (finish_processing callback after) after) raised
