-- ===== src/Hil/Timebase/Schedule.antt =====
-- The instants at which the cores start.
use uscope_driver.Prelude.{
  ℕ, zero, suc, ◌+◌, ◌^◌, ◌≤◌, ◌<◌, String, ◌≡◌, refl, ◌∙◌, false, List, [], ◌∷◌, some, arith,
  str_eq, eq_iff, u32, get_elem?,
}
use uscope_driver.Prelude.Dict.{Dict, insert, lookup-insert, string_eq}
use uscope_driver.Hil.{at_key}
use uscope_driver.Hil.Timebase.{ShiftCalcData, assign_shifts, add_lengths, inter_core_buffer}

abbrev pub IsFresh : String → List ShiftCalcData → Type 0
IsFresh n [] = Unit
IsFresh n (c ∷ cs) = (str_eq c.name n ≡ false) × IsFresh n cs

-- No two entries have the same name.
abbrev pub IsDistinct : List ShiftCalcData → Type 0
IsDistinct [] = Unit
IsDistinct (c ∷ cs) = IsFresh c.name cs × IsDistinct cs

-- The cycles that a number of leading entries take, with their buffers.
abbrev taken : ℕ → List ShiftCalcData → ℕ
taken i [] = 0
taken zero (c ∷ cs) = 0
taken (suc i) (c ∷ cs) = c.program_length + inter_core_buffer + taken i cs

abbrev pub total : List ShiftCalcData → ℕ
total [] = 0
total (c ∷ cs) = c.program_length + inter_core_buffer + total cs

assign_shifts-IsFresh :
    (start : ℕ) (cs : List ShiftCalcData) (m : Dict String ℕ) (n : String)
    → IsFresh n cs
    → at_key (assign_shifts start cs m) n ≡ at_key m n
unfolding assign_shifts at_key
assign_shifts-IsFresh start [] m n h = refl
assign_shifts-IsFresh start (c ∷ cs) m n (differs, fresh) = ground (
  arith,
  assign_shifts-IsFresh (u32 (start + c.program_length + inter_core_buffer)) cs
      (insert c.name start m) n fresh,
  lookup-insert c.name n start m,
)

next_start :
    (start : ℕ) (c : ShiftCalcData) (rest : ℕ)
    → start + (c.program_length + inter_core_buffer + rest) < 2 ^ 32
    → u32 (start + c.program_length + inter_core_buffer)
      ≡ start + c.program_length + inter_core_buffer
next_start start c rest fits = ground arith

taken_zero : (cs : List ShiftCalcData) → taken 0 cs ≡ 0
taken_zero [] = refl
taken_zero (c ∷ cs) = refl

insert_self : (m : Dict String ℕ) (n : String) (v : ℕ) → at_key (insert n v m) n ≡ v
unfolding at_key
insert_self m n v = ground (arith, lookup-insert n n v m, eq_iff n n)

assign_shifts_lem :
    (start : ℕ) (cs : List ShiftCalcData) (m : Dict String ℕ) (i : ℕ) (c : ShiftCalcData)
    → IsDistinct cs
    → start + total cs < 2 ^ 32
    → get_elem? cs i ≡ some c
    → at_key (assign_shifts start cs m) c.name ≡ start + taken i cs
unfolding assign_shifts
assign_shifts_lem start [] m i c distinct fits h = cc
assign_shifts_lem start (d ∷ cs) m zero c (fresh, distinct) fits h =
    let same : c ≡ d = ground arith in
    let later = u32 (start + d.program_length + inter_core_buffer) in
    rw same (
      assign_shifts-IsFresh later cs (insert d.name start m) d.name fresh
      ∙ insert_self m d.name start
      ∙ omega arith)
assign_shifts_lem start (d ∷ cs) m (suc i) c (fresh, distinct) fits h =
    let e = next_start start d (total cs) fits in
    let fits' : u32 (start + d.program_length + inter_core_buffer) + total cs < 2 ^ 32 =
      omega (arith, e, fits) in
    assign_shifts_lem (u32 (start + d.program_length + inter_core_buffer)) cs
      (insert d.name start m) i c distinct fits' h
    ∙ omega (arith, e)

taken_step :
    (cs : List ShiftCalcData) (i j : ℕ) (c : ShiftCalcData)
    → get_elem? cs i ≡ some c
    → i < j
    → taken i cs + (c.program_length + inter_core_buffer) ≤ taken j cs
taken_step [] i j c h lt = cc
taken_step (d ∷ cs) i zero c h lt = absurd (omega (arith, lt))
taken_step (d ∷ cs) zero (suc j) c h lt = let same : c ≡ d = ground arith in rw same (omega arith)
taken_step (d ∷ cs) (suc i) (suc j) c h lt =
    omega (arith, taken_step cs i j c h (omega (arith, lt)))

taken_le : (cs : List ShiftCalcData) (i : ℕ) → taken i cs ≤ total cs
taken_le [] i = omega arith
taken_le (c ∷ cs) zero = omega arith
taken_le (c ∷ cs) (suc i) = omega (arith, taken_le cs i)

-- The cores whose entries have different names, and whose lengths fit 32 bits with their buffers,
-- start one after the other: between the start of a core and that of any core behind it in the
-- list, the first one has run to its end and its buffer has passed.
pub assign_shifts_disjoint :
    (cs : List ShiftCalcData) (i j : ℕ) (c d : ShiftCalcData)
    → IsDistinct cs
    → 2 + total cs < 2 ^ 32
    → get_elem? cs i ≡ some c
    → get_elem? cs j ≡ some d
    → i < j
    → let ordered_shifts = assign_shifts 2 cs [] in
      at_key ordered_shifts c.name + c.program_length + inter_core_buffer
      ≤ at_key ordered_shifts d.name
assign_shifts_disjoint cs i j c d distinct fits first second lt =
    let e = assign_shifts_lem 2 cs [] i c distinct fits first in
    let f = assign_shifts_lem 2 cs [] j d distinct fits second in
    rw (e, f) (omega (arith, taken_step cs i j c first lt))

add_lengths_lem :
    (start : ℕ) (cs : List ShiftCalcData)
    → start + total cs < 2 ^ 32
    → add_lengths start cs ≡ start + total cs
unfolding add_lengths
add_lengths_lem start [] fits = omega arith
add_lengths_lem start (c ∷ cs) fits =
    let e : u32 (start + u32 (c.program_length + inter_core_buffer))
        ≡ start + (c.program_length + inter_core_buffer) =
      ground arith in
    rw e (
      add_lengths_lem (start + (c.program_length + inter_core_buffer)) cs (omega (arith, fits))
      ∙ omega arith)

-- Under the same conditions, every core has ended, with its buffer, within the shortest period that
-- the time base is given, counted from the two cycles at which the first core starts.
pub add_lengths_covers :
    (cs : List ShiftCalcData) (i : ℕ) (c : ShiftCalcData)
    → IsDistinct cs
    → 2 + total cs < 2 ^ 32
    → get_elem? cs i ≡ some c
    → at_key (assign_shifts 2 cs []) c.name + c.program_length + inter_core_buffer
      ≤ 2 + add_lengths 0 cs
add_lengths_covers cs i c distinct fits found =
    let e = assign_shifts_lem 2 cs [] i c distinct fits found in
    let f = add_lengths_lem 0 cs (omega (arith, fits)) in
    rw (e, f) (omega (arith, taken_step cs i (suc i) c found (omega arith), taken_le cs (suc i)))
