-- ===== src/MockModule.antt =====
-- mock_module/mock_module.c: the kernel module that stands in for the FPGA's, from the opening of
-- its four device files to their closing. Copies between the process and the kernel, and the pages
-- that the kernel has left, are answers from outside.
pub mod Lifecycle
pub mod Calls
use uscope_driver.Prelude.{
  ℕ, zero, suc, ◌*◌, ◌≤◌, ◌≡◌, String, Bool, true, false, List, [], ◌∷◌, ◌++◌, Option, none, some,
  ltb, ◌==◌, if◌then◌else◌, length, take, drop,
}
use uscope_driver.Exec.{Exec, ok, err, fault}

abbrev pub n_minor_numbers : ℕ
n_minor_numbers = 4

abbrev pub n_channels : ℕ
n_channels = 6

abbrev pub kernel_buffer_length : ℕ
kernel_buffer_length = 1024

-- The size of the sample buffer in bytes.
abbrev pub kernel_buffer_size : ℕ
kernel_buffer_size = kernel_buffer_length * n_channels * 8

abbrev pub ioctl_new_data_available : ℕ
ioctl_new_data_available = 1

-- What a handler gives back: a number that is not negative, or an error. `enomem` stands for
-- VM_FAULT_OOM.
pub data Errno : Type 0 where
  efault einval enomem : Errno

pub data Return : Type 0 where
  returned : ℕ → Return
  refused : Errno → Return

-- `copy_to_user` and `copy_from_user`: the number of bytes that were not copied, and the bytes that
-- arrived.
abbrev pub Copy : Type 0
Copy = List ℕ → ℕ × List ℕ

-- A copy that left nothing out delivered everything, and none delivers more than it was given.
pub record IsCopy (copy : Copy) : Type 0 where
  pub whole : (bytes : List ℕ) → (copy bytes).0 ≡ 0 → (copy bytes).1 ≡ bytes
  pub bounded : (bytes : List ℕ) → length (copy bytes).1 ≤ length bytes

-- What the module holds of the kernel.
pub data Resource : Type 0 where
  chrdev_region device_class scope_data sample_buffer bitstream_memory page : Resource
  device_name cdev device_node platform_clock rate_file : ℕ → Resource

-- Two resources are the same one.
abbrev pub same : Resource → Resource → Bool
same chrdev_region chrdev_region = true
same device_class device_class = true
same scope_data scope_data = true
same sample_buffer sample_buffer = true
same bitstream_memory bitstream_memory = true
same page page = true
same (device_name i) (device_name j) = i == j
same (cdev i) (cdev j) = i == j
same (device_node i) (device_node j) = i == j
same (platform_clock i) (platform_clock j) = i == j
same (rate_file i) (rate_file j) = i == j
same _ _ = false

abbrev pub Holdings : Type 0
Holdings = Resource → Bool

abbrev pub extend : Resource → Holdings → Holdings
extend r held q = if same r q then true else held q

abbrev pub withdraw : Resource → Holdings → Holdings
withdraw r held q = if same r q then false else held q

-- The state of the module. A buffer or page that is not allocated is a null pointer.
pub record MockModule : Type 0 where
  pub read_data_buffer : Option (List ℕ)
  pub new_data_available : ℕ
  pub fpga_loaded : Bool
  pub mock_page : Option (List ℕ)
  pub held : Holdings

-- What a read gives the process: the bytes in its buffer, and the result.
pub record Reading : Type 0 where
  pub delivered : List ℕ
  pub result : Return

unfoldable pub clip : ℕ → ℕ
clip count = if ltb kernel_buffer_size count then kernel_buffer_size else count

-- A copy to the process, which clears the mark of new samples if it is whole.
unfoldable pub deliver : Copy → ℕ → List ℕ → Exec MockModule Reading
deliver copy count bytes m =
    let (uncopied, arrived) = copy bytes in
    if uncopied == 0
    then (
      ok (record { delivered = arrived; result = returned count }),
      record m { new_data_available = 0 },
    )
    else (ok (record { delivered = arrived; result = refused efault }), m)

-- Nothing can be copied from a null pointer.
unfoldable pub read_samples : Copy → ℕ → Option (List ℕ) → Exec MockModule Reading
read_samples copy count none m = if count == 0 then deliver copy 0 [] m else (err fault, m)
read_samples copy count (some buffer) m = deliver copy count (take count buffer) m

unfoldable pub read_status : Copy → Exec MockModule Reading
read_status copy m =
    let (uncopied, arrived) = copy ((if m.fpga_loaded then b'1' else b'0') ∷ []) in
    if uncopied == 0
    then (ok (record { delivered = arrived; result = returned 1 }), m)
    else (ok (record { delivered = arrived; result = refused efault }), m)

-- `ucube_lkm_read`: a file by its minor number, and the number of bytes that are wanted.
unfoldable pub read : Copy → ℕ → ℕ → Exec MockModule Reading
read copy minor count m =
    if minor == 0
    then read_samples copy (clip count) m.read_data_buffer m
    else if minor == 3
    then read_status copy m
    else (ok (record { delivered = []; result = returned 0 }), m)

-- The bytes that arrived replace the first ones of the buffer.
abbrev pub overwrite : List ℕ → List ℕ → List ℕ
overwrite arrived buffer = arrived ++ drop (length arrived) buffer

unfoldable pub write_samples : Copy → List ℕ → Option (List ℕ) → Exec MockModule Return
write_samples copy bytes none m =
    if length bytes == 0
    then if (copy bytes).0 == 0 then (ok (returned 0), m) else (ok (refused efault), m)
    else (err fault, m)
write_samples copy bytes (some buffer) m =
    let (uncopied, arrived) = copy bytes in
    let m' : MockModule = record m { read_data_buffer = some (overwrite arrived buffer) } in
    if uncopied == 0 then (ok (returned (length bytes)), m') else (ok (refused efault), m')

-- `ucube_lkm_write`. The bytes of a bitstream are not looked at.
unfoldable pub write : Copy → ℕ → List ℕ → Exec MockModule Return
write copy minor bytes m =
    if minor == 0
    then write_samples copy (take (clip (length bytes)) bytes) m.read_data_buffer m
    else if minor == 3
    then (ok (returned (length bytes)), record m { fpga_loaded = true })
    else (ok (returned (length bytes)), m)

unfoldable pub ioctl : ℕ → ℕ → Exec MockModule Return
ioctl minor cmd m =
    if minor == 0
    then if cmd == ioctl_new_data_available
      then (ok (returned m.new_data_available), m)
      else (ok (refused einval), m)
    else (ok (returned 0), m)

pub data PollFlag : Type 0 where
  pollin pollrdnorm : PollFlag

unfoldable pub poll : ℕ → List PollFlag
poll minor = if minor == 0 then pollin ∷ pollrdnorm ∷ [] else []

unfoldable pub zeroed : ℕ → List ℕ
zeroed zero = []
zeroed (suc n) = 0 ∷ zeroed n

-- The page that `__get_free_page` gives, where there is one.
unfoldable pub find_page : ℕ → Bool → Option (List ℕ) → MockModule → Option MockModule
find_page page_size page_left (some contents) m = some m
find_page page_size true none m =
    some (record m { mock_page = some (zeroed page_size); held = extend page m.held })
find_page page_size false none m = none

-- `ucube_lkm_fault`: every page of every mapping is the one page, and is cleared when it is touched
-- first.
unfoldable pub map_page : ℕ → Option MockModule → Exec MockModule Return
map_page page_size none m = (ok (refused enomem), m)
map_page page_size (some found) m =
    (ok (returned 0), record found { mock_page = some (zeroed page_size) })

unfoldable pub page_fault : ℕ → Bool → Exec MockModule Return
page_fault page_size page_left m =
    map_page page_size (find_page page_size page_left m.mock_page m) m

-- The attribute of the clocks, which forgets what is written.
abbrev pub fclk_show : String
fclk_show = "1000000\n"

abbrev pub fclk_store : List ℕ → Return
fclk_store buf = returned (length buf)

-- A mapping, and the handler of its faults.
pub data VmOps : Type 0 where
  mock_vm_ops : VmOps

unfoldable pub mmap : Option VmOps → Return × Option VmOps
mmap vm_ops = (returned 0, some mock_vm_ops)

abbrev pub open_file : Return
open_file = returned 0

abbrev pub release : Return
release = returned 0
