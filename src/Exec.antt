-- ===== src/Exec.antt =====
-- Methods that mutate their object and may fail. What was written before a failure stays written,
-- so the state comes back beside the error too.
pub mod Keeps
pub mod Yields
use uscope_driver.Prelude.{String}

-- `runtime_error` is the exception that endpoints catch; `logic_error` is one of the standard
-- library's for a wrong argument, such as `invalid_argument` and `out_of_range`, which nothing
-- catches; `json_error` is any exception of the JSON library; `process_exit` is a call of `exit`;
-- `fault` is an access outside a mapping or a vector, or other undefined behaviour; `out_of_fuel`
-- is a loop of the model that was given too few rounds.
pub data Error : Type 0 where
  runtime_error : String → Error
  logic_error json_error process_exit fault out_of_fuel : Error

pub data Result {ℓ} (A : Type ℓ) : Type ℓ where
  ok : A → Result A
  err : Error → Result A

abbrev pub Exec {ℓ κ} : Type ℓ → Type κ → Type (ℓ ⊔ κ)
Exec S A = S → Result A × S

module _ {ℓ κ} {S : Type ℓ} {A : Type κ} where
  abbrev pub pure : A → Exec S A
  pure a s = (ok a, s)

  abbrev pub raise : Error → Exec S A
  raise e s = (err e, s)

  abbrev pub lift : Result A → Exec S A
  lift r s = (r, s)

  abbrev pub gets : (S → A) → Exec S A
  gets f s = (ok (f s), s)

-- An action that depends on the state it starts from.
abbrev pub choose {ℓ κ} : {S : Type ℓ} {A : Type κ} → (S → Exec S A) → Exec S A
choose f s = f s s

abbrev pub modify {ℓ} : {S : Type ℓ} → (S → S) → Exec S (Unit {0})
modify f s = (ok tt, f s)

module _ {ℓ κ μ} {S : Type ℓ} {A : Type κ} {B : Type μ} where
  abbrev pub continue : Result A → (A → Exec S B) → Exec S B
  continue (ok a) f s = f a s
  continue (err e) f s = (err e, s)

  infixl 10 ◌>>=◌ ◌>>◌
  abbrev pub ◌>>=◌ : Exec S A → (A → Exec S B) → Exec S B
  ◌>>=◌ m f s = let (r, s') = m s in continue r f s'

  abbrev pub ◌>>◌ : Exec S A → Exec S B → Exec S B
  m >> n = m >>= λ _. n

module _ {ℓ κ} {S : Type ℓ} {A : Type κ} where
  abbrev pub recover : Result A → (String → Exec S A) → Exec S A
  recover (ok a) handler s = (ok a, s)
  recover (err (runtime_error what)) handler s = handler what s
  recover (err logic_error) handler s = (err logic_error, s)
  recover (err json_error) handler s = (err json_error, s)
  recover (err process_exit) handler s = (err process_exit, s)
  recover (err fault) handler s = (err fault, s)
  recover (err out_of_fuel) handler s = (err out_of_fuel, s)

  -- Run `m`, and `handler` if it throws a runtime error.
  abbrev pub catch_runtime : Exec S A → (String → Exec S A) → Exec S A
  catch_runtime m handler s = let (r, s') = m s in recover r handler s'

-- Run `m` on a part of the state.
abbrev pub zoom {ℓ κ μ} :
    {S : Type ℓ} {T : Type κ} {A : Type μ} → (S → T) → (T → S → S) → Exec T A → Exec S A
zoom get put m s = let (r, t) = m (get s) in (r, put t s)
