-- ===== src/Frontend/Replies.antt =====
-- Which replies a handler may give: `internal_error` and `invalid_cmd_schema` never, and `invalid_arg`
-- only where it left the driver as it was.
pub mod Codes
pub mod Handlers
pub mod Cores
pub mod Dispatch
pub mod Answers
use uscope_driver.Prelude.{
  ℕ, ◌≡◌, ◌∙◌, refl, subst, String, Bool, true, false, List, [], ◌∷◌, Option, none, some,
  if◌then◌else◌, arith,
}
use uscope_driver.Exec.{Result, Exec, ok, err, pure, lift, continue, ◌>>=◌, ◌>>◌}
use uscope_driver.Exec.Yields.{
  Yields, Holds, Yields-bind, Yields-pass, Yields-pure, Yields-zoom, yields_rules,
}
use uscope_driver.Response.{ResponseCode, invalid_arg, invalid_cmd_schema, internal_error}
use uscope_driver.Frontend.{World, Driver, Reply, Payload, validated, reply, refusal}

-- Codes that are none of the three.
abbrev pub IsFinal : ResponseCode → Type 0
IsFinal invalid_arg = ⊥
IsFinal internal_error = ⊥
IsFinal invalid_cmd_schema = ⊥
IsFinal _ = Unit

abbrev pub IsFinalReply : {Json : Type 0} → Reply Json → Type 0
IsFinalReply r = IsFinal r.response_code

abbrev pub Allowed : {Emu : Type 0} → ResponseCode → Driver Emu → Driver Emu → Type 0
Allowed invalid_arg d d' = d' ≡ d
Allowed internal_error d d' = ⊥
Allowed invalid_cmd_schema d d' = ⊥
Allowed _ d d' = Unit

abbrev pub IsSound : {Json Emu : Type 0} → Driver Emu → Result (Reply Json) × Driver Emu → Type 0
IsSound d (ok r, d') = Allowed r.response_code d d'
IsSound d (err e, d') = Unit

pub record Sound {Json Emu : Type 0} (m : Exec (Driver Emu) (Reply Json)) : Type 0 where
  pub run : (d : Driver Emu) → IsSound d (m d)

final-Allowed : {Emu : Type 0} (c : ResponseCode) (d d' : Driver Emu) → IsFinal c → Allowed c d d'
final-Allowed c d d' h = ground arith

-- An action that leaves the driver as it is.
pub record Reads {Emu A : Type 0} (m : Exec (Driver Emu) A) : Type 0 where
  pub run : (d : Driver Emu) → (m d).1 ≡ d

module _ {Emu : Type 0} where
  pub Reads-lift : {A : Type 0} (r : Result A) → Reads {Emu = Emu} (lift r)
  Reads-lift r = record { run = λ d. refl }

  pub Reads-pure : {A : Type 0} (a : A) → Reads {Emu = Emu} (pure a)
  Reads-pure a = record { run = λ d. refl }

  Reads-continue :
      {A B : Type 0} (o : Result A × Driver Emu) (f : A → Exec (Driver Emu) B) (d : Driver Emu)
      → o.1 ≡ d
      → ((a : A) → Reads (f a))
      → (continue o.0 f o.1).1 ≡ d
  Reads-continue (ok a, d') f d same next = (next a).run d' ∙ same
  Reads-continue (err e, d') f d same next = same

  pub Reads-bind :
      {A B : Type 0} (m : Exec (Driver Emu) A) (f : A → Exec (Driver Emu) B)
      → Reads m
      → ((a : A) → Reads (f a))
      → Reads (m >>= f)
  Reads-bind m f h next = record { run = λ d. Reads-continue (m d) f d (h.run d) next }

module _ {Json Emu : Type 0} where
  pub refusal-Sound :
      (what error_message : String)
      → Sound {Json = Json} {Emu = Emu} (pure (refusal what error_message))
  refusal-Sound what error_message = record { run = λ d. refl }

  bind-IsSound :
      {A : Type 0} (o : Result A × Driver Emu) (f : A → Exec (Driver Emu) (Reply Json))
      (d : Driver Emu)
      → o.1 ≡ d
      → ((a : A) → Sound (f a))
      → IsSound d (continue o.0 f o.1)
  bind-IsSound (ok a, d') f d same next = subst (λ d0. IsSound d0 (f a d')) same ((next a).run d')
  bind-IsSound (err e, d') f d same next = tt

  -- An action that reads the driver or its arguments may come first.
  pub Reads-Sound :
      {A : Type 0} (m : Exec (Driver Emu) A) (f : A → Exec (Driver Emu) (Reply Json))
      → Reads m
      → ((a : A) → Sound (f a))
      → Sound (m >>= f)
  Reads-Sound m f h next = record { run = λ d. bind-IsSound (m d) f d (h.run d) next }

  pub if-Sound :
      (b : Bool) (m n : Exec (Driver Emu) (Reply Json))
      → Sound m
      → Sound n
      → Sound (if b then m else n)
  if-Sound true m n hm hn = hm
  if-Sound false m n hm hn = hn

  pub validated-Sound :
      (o : Option String) (refuse : String → Exec (Driver Emu) (Reply Json))
      (m : Exec (Driver Emu) (Reply Json))
      → ((error_message : String) → Sound (refuse error_message))
      → Sound m
      → Sound (validated o refuse m)
  validated-Sound none refuse m hr hm = hm
  validated-Sound (some error_message) refuse m hr hm = hr error_message

  final-IsSound :
      (o : Result (Reply Json) × Driver Emu) (d : Driver Emu) → Holds IsFinalReply o.0 → IsSound d o
  final-IsSound (ok r, d') d h = final-Allowed r.response_code d d' h
  final-IsSound (err e, d') d h = tt

  pub final-Sound : (m : Exec (Driver Emu) (Reply Json)) → Yields IsFinalReply m → Sound m
  final-Sound m h = record { run = λ d. final-IsSound (m d) d (h.run d) }

  -- A reply with the code that a component returned.
  pub coded-IsFinal :
      (m : Exec (Driver Emu) ResponseCode) (p : Payload Json)
      → Yields IsFinal m
      → Yields IsFinalReply (m >>= λ code. pure (reply code p))
  coded-IsFinal m p h =
      Yields-pass IsFinal IsFinalReply m (λ code. pure (reply code p)) h
        (λ code final. Yields-pure IsFinalReply (reply code p) final)

pub ruleset sound_rules = (
  refusal-Sound, if-Sound, validated-Sound, Reads-Sound, Reads-lift, Reads-pure, Reads-bind,
  final-Sound, coded-IsFinal,
)
