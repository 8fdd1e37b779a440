-- ===== src/Hil/Reciprocal.antt =====
-- src/deployment/hil_deployer.cpp: `check_reciprocal` looks for a reciprocal instruction, and gives
-- the number of channels that the pipeline needs. The encoding of the instructions is the
-- toolchain's.
use uscope_driver.Prelude.{
  ℕ, zero, suc, ◌+◌, ◌-◌, ◌^◌, ◌≡◌, refl, Bool, true, false, ◌||◌, List, [], ◌∷◌, arith, ltb, ◌==◌,
  any, if◌then◌else◌, bit_and,
}

pub record FcoreOpcodes : Type 0 where
  pub opcode_width : ℕ
  pub opcode_ldc : ℕ
  pub opcode_rec : ℕ

module _ (op : FcoreOpcodes) where
  -- `instr & ((1<<fcore_opcode_width)-1)`
  abbrev pub opcode : ℕ → ℕ
  opcode instr = bit_and instr (2 ^ op.opcode_width - 1)

  -- The loop, with the marks seen so far and whether the next word is an operand.
  unfoldable pub scan : ℕ → Bool → Bool → List ℕ → Bool
  scan section skip_next rec_present [] = rec_present
  scan section skip_next rec_present (instr ∷ program) =
      let next_section =
        scan (if instr == 0xC then section + 1 else section) skip_next rec_present program in
      let skipped = scan section false rec_present program in
      let next =
        scan section (opcode instr == op.opcode_ldc)
          (if opcode instr == op.opcode_rec then true else rec_present) program in
      if ltb section 2 then next_section else if skip_next then skipped else next

  unfoldable pub check_reciprocal : Bool → List ℕ → ℕ
  unfolding scan
  check_reciprocal full_cores_override program =
      if scan 0 false false program || full_cores_override then 11 else 8

  -- The words after the second mark 0xC.
  abbrev pub code : ℕ → List ℕ → List ℕ
  code zero program = program
  code (suc marks) [] = []
  code (suc marks) (word ∷ program) =
      if word == 0xC then code marks program else code (suc marks) program

  -- The instructions of the code, without the constant that follows each load of a constant.
  abbrev pub instructions : List ℕ → List ℕ
  instructions [] = []
  instructions (instr ∷ []) = instr ∷ []
  instructions (instr ∷ operand ∷ program) =
      if opcode instr == op.opcode_ldc
      then instr ∷ instructions program
      else instr ∷ instructions (operand ∷ program)

  abbrev pub is_rec : ℕ → Bool
  is_rec instr = opcode instr == op.opcode_rec

  scan_code :
      (rec_present : Bool) (program : List ℕ)
      → scan 2 false rec_present program ≡ rec_present || any is_rec (instructions program)
  unfolding scan
  scan_code rec_present [] = ground arith
  scan_code rec_present (instr ∷ []) = ground arith
  scan_code rec_present (instr ∷ operand ∷ program) =
      let found = if is_rec instr then true else rec_present in
      ground (arith, scan_code found program, scan_code found (operand ∷ program))

  scan_section :
      (section marks : ℕ) (program : List ℕ)
      → section + marks ≡ 2
      → scan section false false program ≡ any is_rec (instructions (code marks program))
  unfolding scan
  scan_section section zero program e =
      let e' : section ≡ 2 = omega arith in rw e' (scan_code false program)
  scan_section section (suc marks) [] e = refl
  scan_section section (suc marks) (word ∷ program) e =
      ground
        (arith, scan_section (section + 1) marks program, scan_section section (suc marks) program)

  -- The answer is 11 if full cores are forced or one of the program's instructions is a reciprocal,
  -- and 8 otherwise. The instructions are the words after the second mark, less the constants.
  pub check_reciprocal_lem :
      (full_cores_override : Bool) (program : List ℕ)
      → check_reciprocal full_cores_override program
        ≡ (if full_cores_override || any is_rec (instructions (code 2 program)) then 11 else 8)
  unfolding check_reciprocal
  check_reciprocal_lem full_cores_override program = ground (arith, scan_section 0 2 program)
