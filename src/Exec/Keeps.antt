-- ===== src/Exec/Keeps.antt =====
-- Properties of the state that an action keeps, whether it returns or fails, with a rule for each way
-- to build one.
use uscope_driver.Prelude.{Bool, true, false, if◌then◌else◌, Option, none, some}
use uscope_driver.Exec.{
  Result, ok, err, Error, Exec, pure, raise, lift, gets, modify, choose, ◌>>=◌, ◌>>◌, continue,
}

pub record Keeps {S A : Type 0} (P : S → Type 0) (m : Exec S A) : Type 0 where
  pub run : (s : S) → P s → P (m s).1

module _ {S : Type 0} {P : S → Type 0} where
  pub Keeps-lift : {A : Type 0} (r : Result A) → Keeps P (lift r)
  Keeps-lift r = record { run = λ s h. h }

  pub Keeps-gets : {A : Type 0} (f : S → A) → Keeps P (gets f)
  Keeps-gets f = record { run = λ s h. h }

  pub Keeps-pure : {A : Type 0} (a : A) → Keeps P (pure a)
  Keeps-pure a = record { run = λ s h. h }

  pub Keeps-raise : {A : Type 0} (e : Error) → Keeps P (raise {A = A} e)
  Keeps-raise e = record { run = λ s h. h }

  pub Keeps-modify : (f : S → S) → ((s : S) → P s → P (f s)) → Keeps P (modify f)
  Keeps-modify f keep = record { run = keep }

  pub Keeps-continue :
      {A B : Type 0} (r : Result A) (s : S) (f : A → Exec S B)
      → ((a : A) → Keeps P (f a))
      → P s
      → P (continue r f s).1
  Keeps-continue (ok a) s f keep h = (keep a).run s h
  Keeps-continue (err e) s f keep h = h

  pub Keeps-bind :
      {A B : Type 0} (m : Exec S A) (f : A → Exec S B)
      → Keeps P m
      → ((a : A) → Keeps P (f a))
      → Keeps P (m >>= f)
  Keeps-bind m f first next = record {
    run = λ s h. Keeps-continue (m s).0 (m s).1 f next (first.run s h);
  }

  pub Keeps-then :
      {A B : Type 0} (m : Exec S A) (n : Exec S B) → Keeps P m → Keeps P n → Keeps P (m >> n)
  Keeps-then m n first next = Keeps-bind m (λ a. n) first (λ a. next)

  pub Keeps-choose :
      {A : Type 0} (f : S → Exec S A) → ((s : S) → Keeps P (f s)) → Keeps P (choose f)
  Keeps-choose f keep = record { run = λ s h. (keep s).run s h }

  pub Keeps-if :
      {A : Type 0} (b : Bool) (m n : Exec S A)
      → Keeps P m
      → Keeps P n
      → Keeps P (if b then m else n)
  Keeps-if true m n km kn = km
  Keeps-if false m n km kn = kn

  pub Keeps-bool :
      {A : Type 0} (b : Bool) (m n : Exec S A)
      → Keeps P m
      → Keeps P n
      → Keeps P (elim b [ true ↦ m | false ↦ n ])
  Keeps-bool true m n km kn = km
  Keeps-bool false m n km kn = kn

  pub Keeps-option :
      {A B : Type 0} (o : Option B) (m : Exec S A) (f : B → Exec S A)
      → Keeps P m
      → ((b : B) → Keeps P (f b))
      → Keeps P (elim o [ none ↦ m | some b ↦ f b ])
  Keeps-option none m f km kf = km
  Keeps-option (some b) m f km kf = kf b

pub ruleset keeps_rules = (
  Keeps-pure, Keeps-raise, Keeps-lift, Keeps-gets, Keeps-choose, Keeps-bind, Keeps-if, Keeps-bool,
  Keeps-option,
)
