-- ===== src/Exec/Yields.antt =====
-- Properties of what an action returns, where it returns.
use uscope_driver.Prelude.{String, Bool, true, false, Option, none, some, if◌then◌else◌}
use uscope_driver.Exec.{
  Result, ok, err, Error, runtime_error, logic_error, json_error, process_exit, fault, out_of_fuel,
  Exec, pure, raise, continue, recover, catch_runtime, zoom, ◌>>=◌,
}

abbrev pub Holds : {A : Type 0} → (A → Type 0) → Result A → Type 0
Holds P (ok a) = P a
Holds P (err e) = Unit

pub record Yields {S A : Type 0} (P : A → Type 0) (m : Exec S A) : Type 0 where
  pub run : (s : S) → Holds P (m s).0

always : {A : Type 0} (r : Result A) → Holds (λ a. Unit {0}) r
always (ok a) = tt
always (err e) = tt

module _ {S : Type 0} where
  pub Yields-pure : {A : Type 0} (P : A → Type 0) (a : A) → P a → Yields {S = S} P (pure a)
  Yields-pure P a h = record { run = λ s. h }

  pub Yields-raise : {A : Type 0} (P : A → Type 0) (e : Error) → Yields {S = S} P (raise e)
  Yields-raise P e = record { run = λ s. tt }

  Yields-continue :
      {A B : Type 0} (P : A → Type 0) (Q : B → Type 0) (r : Result A) (s : S) (f : A → Exec S B)
      → Holds P r
      → ((a : A) → P a → Yields Q (f a))
      → Holds Q (continue r f s).0
  Yields-continue P Q (ok a) s f h next = (next a h).run s
  Yields-continue P Q (err e) s f h next = tt

  -- The second action is given what the first one yields.
  pub Yields-pass :
      {A B : Type 0} (P : A → Type 0) (Q : B → Type 0) (m : Exec S A) (f : A → Exec S B)
      → Yields P m
      → ((a : A) → P a → Yields Q (f a))
      → Yields Q (m >>= f)
  Yields-pass P Q m f first next = record {
    run = λ s. Yields-continue P Q (m s).0 (m s).1 f (first.run s) next;
  }

  pub Yields-bind :
      {A B : Type 0} (Q : B → Type 0) (m : Exec S A) (f : A → Exec S B)
      → ((a : A) → Yields Q (f a))
      → Yields Q (m >>= f)
  Yields-bind Q m f next =
      Yields-pass (λ a. Unit {0}) Q m f (record { run = λ s. always (m s).0 }) (λ a h. next a)

  pub Yields-if :
      {A : Type 0} (P : A → Type 0) (b : Bool) (m n : Exec S A)
      → Yields P m
      → Yields P n
      → Yields P (if b then m else n)
  Yields-if P true m n hm hn = hm
  Yields-if P false m n hm hn = hn

  pub Yields-bool :
      {A : Type 0} (P : A → Type 0) (b : Bool) (m n : Exec S A)
      → Yields P m
      → Yields P n
      → Yields P (elim b [ true ↦ m | false ↦ n ])
  Yields-bool P true m n hm hn = hm
  Yields-bool P false m n hm hn = hn

  pub Yields-option :
      {A B : Type 0} (P : A → Type 0) (o : Option B) (m : Exec S A) (f : B → Exec S A)
      → Yields P m
      → ((b : B) → Yields P (f b))
      → Yields P (elim o [ none ↦ m | some b ↦ f b ])
  Yields-option P none m f hm hf = hm
  Yields-option P (some b) m f hm hf = hf b

  Yields-recover :
      {A : Type 0} (P : A → Type 0) (r : Result A) (handler : String → Exec S A) (s : S)
      → Holds P r
      → ((what : String) → Yields P (handler what))
      → Holds P (recover r handler s).0
  Yields-recover P (ok a) handler s h next = h
  Yields-recover P (err (runtime_error what)) handler s h next = (next what).run s
  Yields-recover P (err logic_error) handler s h next = tt
  Yields-recover P (err json_error) handler s h next = tt
  Yields-recover P (err process_exit) handler s h next = tt
  Yields-recover P (err fault) handler s h next = tt
  Yields-recover P (err out_of_fuel) handler s h next = tt

  pub Yields-catch :
      {A : Type 0} (P : A → Type 0) (m : Exec S A) (handler : String → Exec S A)
      → Yields P m
      → ((what : String) → Yields P (handler what))
      → Yields P (catch_runtime m handler)
  Yields-catch P m handler hm next = record {
    run = λ s. Yields-recover P (m s).0 handler (m s).1 (hm.run s) next;
  }

  pub Yields-zoom :
      {T A : Type 0} (P : A → Type 0) (get : S → T) (put : T → S → S) (m : Exec T A)
      → Yields P m
      → Yields P (zoom get put m)
  Yields-zoom P get put m h = record { run = λ s. h.run (get s) }

pub ruleset yields_rules = (
  Yields-pure, Yields-raise, Yields-bind, Yields-if, Yields-bool, Yields-option, Yields-catch,
  Yields-zoom,
)
