-- ===== src/Base/Effects.antt =====
-- Methods that mutate an object and may raise. What was written before a raise stays written.
-- An exception is its class; messages and payloads are not modelled.
use mathlib.Core.Bool.{Bool, true, false}
use mathlib.Core.Path.{◌≡◌, refl}
use pytagsfs.Base.Tests.{if◌then◌else◌}

pub data Exc : Type 0 where
  key_error index_error value_error assertion_error type_error attribute_error : Exc
  not_implemented token_error : Exc
  path_not_found fake_path_not_found real_path_not_found : Exc
  not_a_directory is_a_directory path_exists directory_not_empty : Exc
  no_meta_data_exists not_an_end_point : Exc
  path_does_not_exist_in_path_mapping : Exc
  directory_already_exists directory_does_not_exist entry_does_not_exist : Exc
  invalid_argument unrepresentable_path pattern_error unsettable_key_error re_error : Exc
  watch_exists no_such_watch source_tree_monitor_error os_error name_error no_fuel : Exc
  opt_parse_error component_error : Exc

pub data Result {ℓ} (A : Type ℓ) : Type ℓ where
  ok : A → Result A
  err : Exc → Result A

abbrev pub Exec {ℓ κ} : Type ℓ → Type κ → Type (ℓ ⊔ κ)
Exec S A = S → Result A × S

-- A method that returns nothing.
abbrev pub Proc {ℓ} : Type ℓ → Type ℓ
Proc S = Exec S (Unit {0})

module _ {ℓ κ} {S : Type ℓ} {A : Type κ} where
  abbrev pub pure : A → Exec S A
  pure a s = (ok a, s)

  abbrev pub raise : Exc → Exec S A
  raise c s = (err c, s)

  abbrev pub gets : (S → A) → Exec S A
  gets f s = (ok (f s), s)

module _ {ℓ} {S : Type ℓ} where
  abbrev pub modify : (S → S) → Exec S (Unit {0})
  modify f s = (ok tt, f s)

module _ {ℓ κ μ} {S : Type ℓ} {A : Type κ} {B : Type μ} where
  abbrev pub continue : Result A → (A → Exec S B) → Exec S B
  continue (ok a) f s = f a s
  continue (err c) f s = (err c, s)

  infixl 10 ◌>>=◌ ◌>>◌
  abbrev pub ◌>>=◌ : Exec S A → (A → Exec S B) → Exec S B
  ◌>>=◌ m f s = continue (m s).0 f (m s).1

  abbrev pub ◌>>◌ : Exec S A → Exec S B → Exec S B
  m >> n = m >>= λ _. n

module _ {ℓ κ μ ν} {S : Type ℓ} {A : Type κ} {B : Type μ} {C : Type ν} where
  bind-continue :
      (r : Result A) (f : A → Exec S B) (g : B → Exec S C) (s : S)
      → (continue r f >>= g) s ≡ continue r (λ a. f a >>= g) s
  bind-continue (ok a) f g s = refl
  bind-continue (err c) f g s = refl

  pub bind_assoc :
      (m : Exec S A) (f : A → Exec S B) (g : B → Exec S C) (s : S)
      → (m >>= f >>= g) s ≡ (m >>= λ a. f a >>= g) s
  bind_assoc m f g s = bind-continue (m s).0 f g (m s).1

module _ {ℓ} {S : Type ℓ} where
  -- The end of a block that returns nothing.
  pub bind-pure : (t : Result (Unit {0}) × S) → continue t.0 (λ _. λ s. (ok (tt {0}), s)) t.1 ≡ t
  bind-pure (ok a, s) = refl
  bind-pure (err c, s) = refl

-- A method of a component, run on the part of the state that holds it.
module _ {ℓ κ μ} {S : Type ℓ} {T : Type κ} {A : Type μ} where
  abbrev pub zoom : (S → T) → (T → S → S) → Exec T A → Exec S A
  zoom get put m s = ((m (get s)).0, put (m (get s)).1 s)

-- try: m  except (the classes that the test takes): handler
module _ {ℓ κ} {S : Type ℓ} {A : Type κ} where
  abbrev pub catch_result : (Exc → Bool) → Exec S A → Result A × S → Result A × S
  catch_result test handler (ok a, s) = (ok a, s)
  catch_result test handler (err c, s) = if test c then handler s else (err c, s)

  abbrev pub catch : (Exc → Bool) → Exec S A → Exec S A → Exec S A
  catch test handler m s = catch_result test handler (m s)

-- try: m  except: undo; raise
module _ {ℓ κ μ} {S : Type ℓ} {A : Type κ} {B : Type μ} where
  abbrev pub on_raise_result : Exec S B → Result A × S → Result A × S
  on_raise_result undo (ok a, s) = (ok a, s)
  on_raise_result undo (err c, s) = (undo >>= λ _. raise c) s

  abbrev pub on_raise : Exec S B → Exec S A → Exec S A
  on_raise undo m s = on_raise_result undo (m s)

-- isinstance(e, PathNotFound)
abbrev pub is_path_not_found : Exc → Bool
is_path_not_found path_not_found = true
is_path_not_found fake_path_not_found = true
is_path_not_found real_path_not_found = true
is_path_not_found _ = false

-- isinstance(e, OSError)
abbrev pub is_os_error : Exc → Bool
is_os_error os_error = true
is_os_error _ = false
