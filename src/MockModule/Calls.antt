-- ===== src/MockModule/Calls.antt =====
-- mock_module/mock_module.c: system calls of any processes on the files of the module, one after
-- the other, and the stores of processes through their mappings.
pub mod Reached
pub mod Lifetime
pub mod Samples
use uscope_driver.Prelude.{
  ℕ, zero, suc, ◌≡◌, Bool, true, false, List, [], ◌∷◌, Option, none, some, ◌||◌, ◌==◌,
}
use uscope_driver.Exec.{Exec, ok, pure, modify, ◌>>=◌, ◌>>◌}
use uscope_driver.MockModule.{Copy, IsCopy, MockModule, read, write, ioctl, page_fault}

-- A call with its arguments and what the kernel answers during it. A mapping is only stored to where
-- it has its page, so a store without the page of the module stores nothing.
pub data Call : Type 0 where
  reading : Copy → ℕ → ℕ → Call
  writing : Copy → ℕ → List ℕ → Call
  asking : ℕ → ℕ → Call
  touching : Bool → Call
  storing : ℕ → ℕ → Call

abbrev pub set_elem : ℕ → ℕ → List ℕ → List ℕ
set_elem i byte [] = []
set_elem zero byte (x ∷ xs) = byte ∷ xs
set_elem (suc i) byte (x ∷ xs) = x ∷ set_elem i byte xs

abbrev pub store : ℕ → ℕ → Option (List ℕ) → Option (List ℕ)
store i byte none = none
store i byte (some contents) = some (set_elem i byte contents)

-- The table `file_ops` with the handler of a fault: the handler of each call.
unfoldable pub handle : ℕ → Call → Exec MockModule (Unit {0})
handle page_size (reading copy minor count) = do read copy minor count; pure tt
handle page_size (writing copy minor bytes) = do write copy minor bytes; pure tt
handle page_size (asking minor cmd) = do ioctl minor cmd; pure tt
handle page_size (touching page_left) = do page_fault page_size page_left; pure tt
handle page_size (storing i byte) = modify (λ m. record m { mock_page = store i byte m.mock_page })

unfoldable pub run : ℕ → List Call → Exec MockModule (Unit {0})
run page_size [] = pure tt
run page_size (c ∷ cs) = do handle page_size c; run page_size cs

-- The copies of a call keep to the kernel's documentation.
abbrev pub IsFair : Call → Type 0
IsFair (reading copy minor count) = IsCopy copy
IsFair (writing copy minor bytes) = IsCopy copy
IsFair _ = Unit {0}

abbrev pub AllFair : List Call → Type 0
AllFair [] = Unit {0}
AllFair (c ∷ cs) = IsFair c × AllFair cs

-- A write to the file of the bitstream.
abbrev pub loads : Call → Bool
loads (writing copy minor bytes) = minor == 3
loads _ = false

abbrev pub any_loads : List Call → Bool
any_loads [] = false
any_loads (c ∷ cs) = loads c || any_loads cs
