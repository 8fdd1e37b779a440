-- ===== src/Frontend/Replies/Answers.antt =====
-- The answers of the dispatcher as a whole.
use uscope_driver.Prelude.{
  ◌≡◌, ◌≢◌, refl, String, true, false, Bool-cases, inl, inr, arith, subst, sym, ◌∙◌, ◌↔◌,
}
use uscope_driver.Exec.{Result, ok, err, pure, continue}
use uscope_driver.Response.{invalid_arg, invalid_cmd_schema, internal_error}
use uscope_driver.Frontend.{World, Driver, Reply, reply, message}
use uscope_driver.Frontend.Replies.{IsSound, Allowed}
use uscope_driver.Frontend.CommandProcessor.{is_known, process_body, process_command, ResponseObj}
use uscope_driver.Frontend.Replies.Dispatch.{process_body-Sound, unknown_body, Allowed-code}

module _ {Json Emu : Type 0} (w : World Json Emu) where
  -- What an answered command may look like, by the code.
  abbrev AnswerAllowed : String → Driver Emu → Result (ResponseObj Json) × Driver Emu → Type 0
  AnswerAllowed c d (ok o, d') = (o.cmd ≡ c) × Allowed o.body.response_code d d'
  AnswerAllowed c d (err e, d') = Unit

  answer_allowed :
      (c : String) (d : Driver Emu) (b : Result (Reply Json) × Driver Emu)
      → IsSound d b
      → AnswerAllowed c d (continue b.0 (λ body. pure (record { cmd = c; body = body })) b.1)
  answer_allowed c d (ok r, d') h = (refl, h)
  answer_allowed c d (err e, d') h = tt

  known_answer :
      (c : String) (arguments : Json) (d d' : Driver Emu) (o : ResponseObj Json)
      → process_command w c arguments d ≡ (ok o, d')
      → is_known c ≡ true
      → (o.cmd ≡ c) × Allowed o.body.response_code d d'
  unfolding process_command
  known_answer c arguments d d' o h known = subst (AnswerAllowed c d) h (
      answer_allowed c d (process_body w c arguments d)
        ((process_body-Sound w c arguments known).run d))

  -- The object of the answer to a command outside the sets.
  abbrev unknown_answer : String → ResponseObj Json
  unknown_answer c = record {
    cmd = c;
    body = reply invalid_cmd_schema (message "DRIVER ERROR: Unknown command received\n");
  }

  process_command_unknown :
      (c : String) (arguments : Json) (d : Driver Emu)
      → is_known c ≡ false
      → process_command w c arguments d ≡ (ok (unknown_answer c), d)
  unfolding process_command
  process_command_unknown c arguments d unknown = rw (unknown_body w c arguments unknown d)

  abbrev IsUnknownAnswer : String → Result (ResponseObj Json) × Driver Emu → Type 0
  IsUnknownAnswer c (ok o, d') = o ≡ unknown_answer c
  IsUnknownAnswer c (err e, d') = ⊥

  unknown_object :
      (c : String) (arguments : Json) (d d' : Driver Emu) (o : ResponseObj Json)
      → process_command w c arguments d ≡ (ok o, d')
      → is_known c ≡ false
      → o ≡ unknown_answer c
  unknown_object c arguments d d' o h unknown =
      subst (IsUnknownAnswer c) (sym (process_command_unknown c arguments d unknown) ∙ h) refl

  -- A command that is answered is named in the answer, the code is never that of an internal error,
  -- and it is that of an unknown command exactly where the command is in none of the sets.
  pub process_command_codes :
      (c : String) (arguments : Json) (d d' : Driver Emu) (o : ResponseObj Json)
      → process_command w c arguments d ≡ (ok o, d')
      → (o.cmd ≡ c)
        × (o.body.response_code ≢ internal_error)
        × ((o.body.response_code ≡ invalid_cmd_schema) ↔ (is_known c ≡ false))
  process_command_codes c arguments d d' o h = elim (Bool-cases (is_known c)) [
    | inl known ↦
        let (named, allowed) = known_answer c arguments d d' o h known in
        ground (arith, Allowed-code w o.body.response_code d d' allowed)
    | inr unknown ↦ ground (arith, unknown_object c arguments d d' o h unknown)
  ]

  -- An answer that refuses the arguments leaves the whole driver as it was.
  pub process_command_refused :
      (c : String) (arguments : Json) (d d' : Driver Emu) (o : ResponseObj Json)
      → process_command w c arguments d ≡ (ok o, d')
      → o.body.response_code ≡ invalid_arg
      → d' ≡ d
  process_command_refused c arguments d d' o h refused = elim (Bool-cases (is_known c)) [
    | inl known ↦
        let (named, allowed) = known_answer c arguments d d' o h known in
        (Allowed-code w o.body.response_code d d' allowed).2 refused
    | inr unknown ↦ absurd (ground (arith, unknown_object c arguments d d' o h unknown))
  ]
