-- ===== src/Tests/BusMap.antt =====
-- Tests of the interconnect slots.
use uscope_driver.Prelude.{ℕ, ◌+◌, ◌<◌, ◌^◌, ◌≡◌, refl, ◌⊎◌, true, false, arith, length}
use uscope_driver.Exec.{ok}
use uscope_driver.BusMap.{OutputSpecs, is_bus_address_free, get_free_address, push_back}
use uscope_driver.BusMap.FreeAddress.{
  AllTaken, IsConflictFree, get_free_address_sound, get_free_address_total,
  push_back-IsConflictFree,
}
use uscope_driver.Tests.Samples.{slot, two_slots}

get_free_address_example : get_free_address two_slots 9 ≡ ok 3
unfolding get_free_address
get_free_address_example = refl

get_free_address_sound_example :
    (is_bus_address_free two_slots 3 ≡ true)
    × (3 < 2 ^ 16)
    × ((◌≡◌ {A = ℕ} 3 9)
        ⊎ ((is_bus_address_free two_slots 9 ≡ false)
            × (n : ℕ) × (◌≡◌ {A = ℕ} 3 (length two_slots + n))
            × AllTaken two_slots (length two_slots) n))
get_free_address_sound_example =
    get_free_address_sound two_slots 9 3 (omega arith) get_free_address_example

get_free_address_total_example : (r : ℕ) × (get_free_address two_slots 9 ≡ ok r)
get_free_address_total_example = get_free_address_total two_slots 9 (omega arith)

two_slots-IsConflictFree : IsConflictFree two_slots
unfolding is_bus_address_free
two_slots-IsConflictFree = (refl, (refl, tt))

push_back-IsConflictFree_example : IsConflictFree (push_back two_slots (slot 6 3))
push_back-IsConflictFree_example =
    push_back-IsConflictFree two_slots (slot 6 3) 9 two_slots-IsConflictFree (omega arith)
      get_free_address_example

abbrev wanted : OutputSpecs
wanted = record { core_name = "source"; source_output = "out"; channel = 1 }
