-- ===== src/BusMap/FreeAddress.antt =====
-- The search for a free bus address.
use uscope_driver.Prelude.{
  ℕ, zero, suc, ◌+◌, ◌-◌, ◌*◌, ◌^◌, ◌≤◌, ◌<◌, ◌≡◌, refl, ◌⊎◌, inl, inr, true, false, [], ◌∷◌, arith,
  leb, ltb, not, ◌&&◌, length, ◌==◌, Bool-cases, if◌then◌else◌,
}
use uscope_driver.Exec.{Result, ok, err, runtime_error}
use uscope_driver.BusMap.{
  HilBusMap, InterconnectSlot, is_bus_address_free, first_free_from, get_free_address, push_back,
}

abbrev no_free_address : Result ℕ
no_free_address = err (runtime_error "Unable to find free bus address")

-- The `n` addresses from `lo` on are all taken.
abbrev pub AllTaken : HilBusMap → ℕ → ℕ → Type 0
AllTaken bus_map lo zero = Unit
AllTaken bus_map lo (suc n) = (is_bus_address_free bus_map lo ≡ false) × AllTaken bus_map (lo + 1) n

-- The search returns the first free address of its range, or fails when the range has none.
first_free_from_cases :
    (bus_map : HilBusMap) (rounds i : ℕ)
    → ((r n : ℕ) × (first_free_from bus_map rounds i ≡ ok r)
        × (is_bus_address_free bus_map r ≡ true)
        × (r ≡ i + n)
        × (n < rounds)
        × AllTaken bus_map i n)
      ⊎ ((first_free_from bus_map rounds i ≡ no_free_address) × AllTaken bus_map i rounds)
unfolding first_free_from
first_free_from_cases bus_map zero i = inr (refl, tt)
first_free_from_cases bus_map (suc rounds) i = elim (Bool-cases (is_bus_address_free bus_map i)) [
  | inl free ↦ inl (i, 0, ground arith, free, omega arith, omega arith, tt)
  | inr taken ↦ elim (first_free_from_cases bus_map rounds (i + 1)) [
    | inl (r, n, found, free, at, few, before) ↦
        inl (r, suc n, ground arith, free, omega arith, omega arith, (taken, before))
    | inr (failed, all_taken) ↦ inr (ground arith, (taken, all_taken))
  ]
]

-- How many slots go to an address, and to the addresses of a range.
count : HilBusMap → ℕ → ℕ
count [] addr = 0
count (e ∷ bus_map) addr = (if e.destination_bus_address == addr then 1 else 0) + count bus_map addr

count_range : HilBusMap → ℕ → ℕ → ℕ
unfolding count
count_range bus_map lo zero = 0
count_range bus_map lo (suc n) = count bus_map lo + count_range bus_map (lo + 1) n

count_pos :
    (bus_map : HilBusMap) (addr : ℕ)
    → is_bus_address_free bus_map addr ≡ false
    → 0 < count bus_map addr
unfolding is_bus_address_free count
count_pos [] addr h = cc
count_pos (e ∷ bus_map) addr h = ground (arith, count_pos bus_map addr)

abbrev in_range : ℕ → ℕ → ℕ → ℕ
in_range addr lo n = if leb lo addr && ltb addr (lo + n) then 1 else 0

-- A slot counts once if its address lies in the range, and otherwise not at all.
count_range-cons :
    (e : InterconnectSlot) (bus_map : HilBusMap) (lo n : ℕ)
    → count_range (e ∷ bus_map) lo n
      ≡ count_range bus_map lo n + in_range e.destination_bus_address lo n
unfolding count_range
count_range-cons e bus_map lo zero = ground arith
count_range-cons e bus_map lo (suc n) = ground (arith, count_range-cons e bus_map (lo + 1) n)

count_range-nil : (lo n : ℕ) → count_range [] lo n ≡ 0
unfolding count_range
count_range-nil lo zero = refl
count_range-nil lo (suc n) = omega (arith, count_range-nil (lo + 1) n)

count_range-le : (bus_map : HilBusMap) (lo n : ℕ) → count_range bus_map lo n ≤ length bus_map
count_range-le [] lo n = omega (arith, count_range-nil lo n)
count_range-le (e ∷ bus_map) lo n =
    ground (arith, count_range-cons e bus_map lo n, count_range-le bus_map lo n)

-- If every address of a range is taken, there are as many slots as addresses.
AllTaken-le-count :
    (bus_map : HilBusMap) (lo n : ℕ) → AllTaken bus_map lo n → n ≤ count_range bus_map lo n
unfolding count_range
AllTaken-le-count bus_map lo zero h = omega arith
AllTaken-le-count bus_map lo (suc n) h =
    omega (arith, count_pos bus_map lo h.0, AllTaken-le-count bus_map (lo + 1) n h.1)

-- An address that is returned is free. It is the wanted address if that was free, and otherwise the
-- smallest free address that is not below the number of slots; it fits 16 bits if the wanted one
-- does.
pub get_free_address_sound :
    (bus_map : HilBusMap) (wanted r : ℕ)
    → wanted < 2 ^ 16
    → get_free_address bus_map wanted ≡ ok r
    → (is_bus_address_free bus_map r ≡ true)
      × (r < 2 ^ 16)
      × ((r ≡ wanted)
          ⊎ ((is_bus_address_free bus_map wanted ≡ false)
              × (n : ℕ) × (r ≡ length bus_map + n)
              × AllTaken bus_map (length bus_map) n))
unfolding get_free_address
get_free_address_sound bus_map wanted r w h =
    elim (Bool-cases (is_bus_address_free bus_map wanted)) [
      | inl free ↦ let e : r ≡ wanted = ground arith in (rw e free, omega arith, inl e)
      | inr taken ↦
          elim (first_free_from_cases bus_map (2 ^ 16 - length bus_map) (length bus_map)) [
            | inl (q, n, found, free, at, few, before) ↦
                let e : r ≡ q = ground arith in
                (rw e free, omega arith, inr (taken, n, omega arith, before))
            | inr (failed, all_taken) ↦ absurd (ground arith)
          ]
    ]

-- With fewer slots than half of the addresses the search cannot fail.
pub get_free_address_total :
    (bus_map : HilBusMap) (wanted : ℕ)
    → 2 * length bus_map < 2 ^ 16
    → (r : ℕ) × (get_free_address bus_map wanted ≡ ok r)
unfolding get_free_address
get_free_address_total bus_map wanted h = elim (Bool-cases (is_bus_address_free bus_map wanted)) [
  | inl free ↦ (wanted, ground arith)
  | inr taken ↦ elim (first_free_from_cases bus_map (2 ^ 16 - length bus_map) (length bus_map)) [
    | inl (q, n, found, free, at, few, before) ↦ (q, ground arith)
    | inr (failed, all_taken) ↦ absurd (
        omega (
          arith,
          AllTaken-le-count bus_map (length bus_map) (2 ^ 16 - length bus_map) all_taken,
          count_range-le bus_map (length bus_map) (2 ^ 16 - length bus_map),
        ))
  ]
]

-- No two slots share a bus address.
abbrev pub IsConflictFree : HilBusMap → Type 0
IsConflictFree [] = Unit
IsConflictFree (e ∷ bus_map) =
    (is_bus_address_free bus_map e.destination_bus_address ≡ true) × IsConflictFree bus_map

is_bus_address_free-push_back :
    (bus_map : HilBusMap) (e : InterconnectSlot) (addr : ℕ)
    → is_bus_address_free (push_back bus_map e) addr
      ≡ is_bus_address_free bus_map addr && not (e.destination_bus_address == addr)
unfolding is_bus_address_free push_back
is_bus_address_free-push_back [] e addr = ground arith
is_bus_address_free-push_back (s ∷ bus_map) e addr =
    ground (arith, is_bus_address_free-push_back bus_map e addr)

push_back_at_free :
    (bus_map : HilBusMap) (e : InterconnectSlot)
    → IsConflictFree bus_map
    → is_bus_address_free bus_map e.destination_bus_address ≡ true
    → IsConflictFree (push_back bus_map e)
unfolding push_back is_bus_address_free
push_back_at_free [] e h free = (refl, tt)
push_back_at_free (s ∷ bus_map) e h free = (
  ground (arith, is_bus_address_free-push_back bus_map e s.destination_bus_address),
  push_back_at_free bus_map e h.1 (ground arith),
)

-- A slot that is added at the address that the search returned leaves every bus address to one slot
-- at most.
pub push_back-IsConflictFree :
    (bus_map : HilBusMap) (e : InterconnectSlot) (wanted : ℕ)
    → IsConflictFree bus_map
    → wanted < 2 ^ 16
    → get_free_address bus_map wanted ≡ ok e.destination_bus_address
    → IsConflictFree (push_back bus_map e)
push_back-IsConflictFree bus_map e wanted h w found =
    push_back_at_free bus_map e h
      (get_free_address_sound bus_map wanted e.destination_bus_address w found).0
