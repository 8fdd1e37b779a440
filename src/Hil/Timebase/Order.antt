-- ===== src/Hil/Timebase/Order.antt =====
-- src/deployment/hil_deployer.cpp: the order in which the cores start is the order of execution that
-- the programs ask for, whatever their order in the deployment is.
use mathlib.Core.List.{Permᴰ}
use uscope_driver.Prelude.{
  ℕ, zero, suc, ◌+◌, ◌*◌, ◌^◌, ◌≤◌, ◌<◌, String, ◌≡◌, refl, sym, ap, subst, ◌∙◌, inl, inr, Bool,
  false, List, [], ◌∷◌, some, arith, str_eq, eq_iff, ltb, ltb→lt, ◌==◌, u32, get_elem?, map,
  Bool-cases,
}
use uscope_driver.Exec.{ok}
use uscope_driver.Hil.{DeployedProgram, HilDeployer, at_key}
use uscope_driver.Hil.Timebase.{
  ShiftCalcData, assign_shifts, Sort, before, calc_data, calculate_timebase_shift,
}
use uscope_driver.Hil.Timebase.Schedule.{IsFresh, IsDistinct, total, assign_shifts_disjoint}

-- `std::ranges::sort` with a comparator: the elements are those of the list, and none stands behind
-- one that it is to come before.
pub record IsSorting (comparator : ShiftCalcData → ShiftCalcData → Bool)
    (cs sorted : List ShiftCalcData) : Type 0 where
  pub permuted : Permᴰ cs sorted
  pub ordered :
      (i j : ℕ) (c d : ShiftCalcData)
      → i < j
      → get_elem? sorted i ≡ some c
      → get_elem? sorted j ≡ some d
      → comparator d c ≡ false

total-perm : {cs ds : List ShiftCalcData} → Permᴰ cs ds → total cs ≡ total ds
total-perm Permᴰ.nil = refl
total-perm (Permᴰ.cons e p) =
    omega (arith, ap (λ (c : ShiftCalcData). c.program_length) e, total-perm p)
total-perm (Permᴰ.swap e f) = omega (
  arith,
  ap (λ (c : ShiftCalcData). c.program_length) e,
  ap (λ (c : ShiftCalcData). c.program_length) f,
)
total-perm (Permᴰ.trans p q) = total-perm p ∙ total-perm q

abbrev Differs : String → ShiftCalcData → Type 0
Differs n c = str_eq c.name n ≡ false

IsFresh-perm : {cs ds : List ShiftCalcData} (n : String) → Permᴰ cs ds → IsFresh n cs → IsFresh n ds
IsFresh-perm n Permᴰ.nil h = tt
IsFresh-perm n (Permᴰ.cons e p) (h, hs) = (subst (Differs n) e h, IsFresh-perm n p hs)
IsFresh-perm n (Permᴰ.swap e f) (h, (k, hs)) = (subst (Differs n) f k, (subst (Differs n) e h, hs))
IsFresh-perm n (Permᴰ.trans p q) h = IsFresh-perm n q (IsFresh-perm n p h)

str_eq_comm : (s t : String) → str_eq s t ≡ false → str_eq t s ≡ false
str_eq_comm s t h = ground (arith, eq_iff s t, eq_iff t s)

IsDistinct-perm : {cs ds : List ShiftCalcData} → Permᴰ cs ds → IsDistinct cs → IsDistinct ds
IsDistinct-perm Permᴰ.nil h = tt
IsDistinct-perm (Permᴰ.cons {a = a} {l₂ = rest} e p) (fresh, distinct) = (
  subst (λ (c : ShiftCalcData). IsFresh c.name rest) e (IsFresh-perm a.name p fresh),
  IsDistinct-perm p distinct,
)
IsDistinct-perm (Permᴰ.swap {a = a} {b = b} {b' = last} {l = rest} e f)
      ((differs, of_a), (of_b, distinct)) =
    subst (λ (c : ShiftCalcData). IsDistinct (c ∷ last ∷ rest)) f
      (subst (λ (c : ShiftCalcData). IsDistinct (b ∷ c ∷ rest)) e
        ((str_eq_comm b.name a.name differs, of_b), (of_a, distinct)))
IsDistinct-perm (Permᴰ.trans p q) h = IsDistinct-perm q (IsDistinct-perm p h)

found-perm :
    {cs ds : List ShiftCalcData} (i : ℕ) (c : ShiftCalcData)
    → Permᴰ cs ds
    → get_elem? cs i ≡ some c
    → (j : ℕ) × (get_elem? ds j ≡ some c)
found-perm i c Permᴰ.nil h = cc
found-perm zero c (Permᴰ.cons e p) h = (0, sym (ap some e) ∙ h)
found-perm (suc i) c (Permᴰ.cons e p) h = let (j, k) = found-perm i c p h in (suc j, k)
found-perm zero c (Permᴰ.swap e f) h = (1, sym (ap some e) ∙ h)
found-perm (suc zero) c (Permᴰ.swap e f) h = (0, sym (ap some f) ∙ h)
found-perm (suc (suc i)) c (Permᴰ.swap e f) h = (suc (suc i), h)
found-perm i c (Permᴰ.trans p q) h = let (j, k) = found-perm i c p h in found-perm j c q k

module _ (cs sorted : List ShiftCalcData) (h : IsSorting before cs sorted) where
  -- An element that is to come before another one stands before it.
  places_lem :
      (i j : ℕ) (c d : ShiftCalcData)
      → get_elem? sorted i ≡ some c
      → get_elem? sorted j ≡ some d
      → c.execution_order < d.execution_order
      → i < j
  places_lem i j c d at_i at_j lt = elim (Bool-cases (ltb i j)) [
    | inl less ↦ ltb→lt i j less
    | inr more ↦ elim (Bool-cases (i == j)) [
      | inl same ↦
          let e : i ≡ j = ground arith in
          let both : some c ≡ some d = sym at_i ∙ ap (λ (k : ℕ). get_elem? sorted k) e ∙ at_j in
          let equal : c ≡ d = ground arith in
          absurd (omega (arith, ap (λ (x : ShiftCalcData). x.execution_order) equal, lt))
      | inr differ ↦
          let behind : j < i = ground arith in
          absurd (ground (arith, h.ordered j i d c behind at_j at_i, lt))
    ]
  ]

  starts_lem :
      (i j : ℕ) (c d : ShiftCalcData)
      → IsDistinct cs
      → 2 + total cs < 2 ^ 32
      → get_elem? cs i ≡ some c
      → get_elem? cs j ≡ some d
      → c.execution_order < d.execution_order
      → at_key (assign_shifts 2 sorted []) c.name + c.program_length + 90
        ≤ at_key (assign_shifts 2 sorted []) d.name
  starts_lem i j c d distinct fits at_i at_j lt =
      let (k, at_k) = found-perm i c h.permuted at_i in
      let (l, at_l) = found-perm j d h.permuted at_j in
      assign_shifts_disjoint sorted k l c d (IsDistinct-perm h.permuted distinct)
        (omega (arith, fits, total-perm h.permuted)) at_k at_l (places_lem k l c d at_k at_l lt)

get_elem?-map :
    {A B : Type 0} (f : A → B) (xs : List A) (i : ℕ) (x : A)
    → get_elem? xs i ≡ some x
    → get_elem? (map f xs) i ≡ some (f x)
get_elem?-map f [] i x h = cc
get_elem?-map f (y ∷ xs) zero x h = let same : x ≡ y = ground arith in rw same refl
get_elem?-map f (y ∷ xs) (suc i) x h = get_elem?-map f xs i x h

-- For programs with different names, whose lengths fit 32 bits with their buffers, and a sort that
-- gives the elements of this list in the order of the comparator: the shifts are computed, one for
-- each program in the order of the deployment, and of two programs the one with the lower order of
-- execution has run to its end, and its buffer of 90 cycles has passed, before the other one
-- starts.
pub calculate_timebase_shift-starts :
    (sort : Sort) (programs : List DeployedProgram) (h : HilDeployer) (i j : ℕ)
    (p q : DeployedProgram)
    → (let entries = map (calc_data h) programs in IsSorting before entries (sort before entries))
    → IsDistinct (map (calc_data h) programs)
    → 2 + total (map (calc_data h) programs) < 2 ^ 32
    → get_elem? programs i ≡ some p
    → get_elem? programs j ≡ some q
    → at_key h.execution_order p.name < at_key h.execution_order q.name
    → (shifts : List ℕ) × (first : ℕ) × (second : ℕ) × ((calculate_timebase_shift sort programs h).0
        ≡ ok shifts)
      × (get_elem? shifts i ≡ some first)
      × (get_elem? shifts j ≡ some second)
      × (first
            + u32 (
                p.program_length.fixed_portion
                + u32 (at_key h.n_channels p.name * p.program_length.per_channel_portion))
            + 90
          ≤ second)
unfolding calculate_timebase_shift
calculate_timebase_shift-starts sort [] h i j p q sorts distinct fits at_i at_j lt = cc
calculate_timebase_shift-starts sort (r ∷ programs) h i j p q sorts distinct fits at_i at_j lt =
    let entries = map (calc_data h) (r ∷ programs) in
    let starts = assign_shifts 2 (sort before entries) [] in
    let shift = λ (a : DeployedProgram). at_key starts a.name in
    (
      map shift (r ∷ programs),
      shift p,
      shift q,
      refl,
      get_elem?-map shift (r ∷ programs) i p at_i,
      get_elem?-map shift (r ∷ programs) j q at_j,
      starts_lem entries (sort before entries) sorts i j (calc_data h p) (calc_data h q) distinct
          fits (get_elem?-map (calc_data h) (r ∷ programs) i p at_i)
          (get_elem?-map (calc_data h) (r ∷ programs) j q at_j) lt,
    )
