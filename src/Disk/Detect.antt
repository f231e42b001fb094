-- ===== src/Disk/Detect.antt =====
-- The search for drives: ide_detect_drives of os/kernel/hal/io/disk/ideata.c and disk_detect_all of
-- disk.c. What the drives answer is an argument.
use vsnx_os.Base.{
  ℕ, zero, suc, ◌+◌, ◌*◌, ◌/◌, ◌%◌, ◌^◌, Bool, true, false, not, ◌&&◌, ◌||◌, ltb, ◌==◌,
  if◌then◌else◌, Option, none, some, List, [], ◌∷◌, ℤ, pos, negsuc, u32_mod,
}
use vsnx_os.Base.Bits.{test_bit}
use vsnx_os.Strings.{until_zero}
use vsnx_os.Disk.{IdeDevice, Disks, ide_ata, ide_atapi, ahci, ide_device, ahci_port, disk_register}

-- What a place answers to the identify command: its status, the statuses while it is waited for,
-- the address registers, and the 256 words.
pub record Probe : Type 0 where
  pub first_status : ℕ
  pub statuses : ℕ → ℕ
  pub lba1 : ℕ
  pub lba2 : ℕ
  pub identify : ℕ → ℕ

-- `ide_devices` and `count`
pub record Found : Type 0 where
  pub devices : ℕ → IdeDevice
  pub count : ℕ

-- The wait ends with an error after `timeout` rounds.
unfoldable pub wait_error : (timeout k : ℕ) (statuses : ℕ → ℕ) → Bool
wait_error zero k statuses = true
wait_error (suc timeout) k statuses = elim (test_bit (statuses k) 0) [
  | true ↦ true
  | false ↦ elim (not (test_bit (statuses k) 7) && test_bit (statuses k) 3) [
    | true ↦ false
    | false ↦ wait_error timeout (suc k) statuses
  ]
]

abbrev pub is_atapi : Probe → Bool
is_atapi p = (p.lba1 == 20 && p.lba2 == 235) || (p.lba1 == 105 && p.lba2 == 150)

-- The two bytes of each word in turn, the high one first.
pub model_bytes : (n k : ℕ) (identify : ℕ → ℕ) → List ℕ
model_bytes zero k identify = []
model_bytes (suc n) k identify =
    identify (27 + k) / 256 % 256 ∷ identify (27 + k) % 256 ∷ model_bytes n (suc k) identify

abbrev pub size_of : (ℕ → ℕ) → ℕ
size_of identify =
    if test_bit (identify 83) 10
    then (identify 103 * 2 ^ 48 + identify 102 * 2 ^ 32 + identify 101 * 2 ^ 16 + identify 100)
      % u32_mod
    else (identify 61 * 2 ^ 16 + identify 60) % u32_mod

abbrev pub set_device : (ℕ → IdeDevice) → ℕ → IdeDevice → ℕ → IdeDevice
set_device devices at d k = if k == at then d else devices k

unfoldable pub drive_found : (i j type : ℕ) → Probe → Found → Found
drive_found i j type p f = record {
  devices = set_device f.devices f.count (record {
    reserved = 1;
    channel = i;
    drive = j;
    type = type;
    capabilities = p.identify 98;
    size = size_of p.identify;
    model = until_zero (model_bytes 20 0 p.identify);
  });
  count = f.count + 1;
}

-- The body of the loops over the channels and the drives.
unfoldable pub detect_at : (i j : ℕ) → Probe → Found → Found
detect_at i j p f =
    let cleared = record f {
      devices = set_device f.devices f.count (record (f.devices f.count) { reserved = 0 });
    } in
    if p.first_status == 0
    then cleared
    else if not (wait_error 10000 0 p.statuses)
    then drive_found i j 0 p cleared
    else if is_atapi p
    then drive_found i j 1 p cleared
    else cleared

unfoldable pub ide_detect_drives : (probe : (i j : ℕ) → Probe) → (devices : ℕ → IdeDevice) → Found
ide_detect_drives probe devices = detect_at 1 1 (probe 1 1) (
    detect_at 1 0 (probe 1 0) (
      detect_at 0 1 (probe 0 1)
        (detect_at 0 0 (probe 0 0) (record { devices = devices; count = 0 }))))

abbrev ide_serial : List ℕ
ide_serial = b'I' ∷ b'D' ∷ b'E' ∷ b'_' ∷ b'S' ∷ b'E' ∷ b'R' ∷ b'I' ∷ b'A' ∷ b'L' ∷ []

abbrev ahci_serial : List ℕ
ahci_serial = b'A' ∷ b'H' ∷ b'C' ∷ b'I' ∷ b'_' ∷ b'S' ∷ b'E' ∷ b'R' ∷ b'I' ∷ b'A' ∷ b'L' ∷ []

-- A disk that was registered is count_registered.
abbrev count_registered : ℕ → ℤ × Disks → ℕ × Disks
count_registered total (pos _, s) = (total + 1, s)
count_registered total (negsuc _, s) = (total, s)

abbrev register_ide : IdeDevice → ℕ × Disks → ℕ × Disks
register_ide d (total, s) =
    if d.reserved == 0
    then (total, s)
    else count_registered total (
        disk_register s (if d.type == 0 then ide_ata else ide_atapi) d.size d.model ide_serial 0 1 1
          (ide_device d))

-- The loop over the drives: `left` of them from the i-th on.
pub register_ides : (left i : ℕ) (devices : ℕ → IdeDevice) → ℕ × Disks → ℕ × Disks
register_ides zero i devices t = t
register_ides (suc left) i devices t =
    register_ides left (suc i) devices (register_ide (devices i) t)

-- A port of the AHCI controller with a device: what identifying it gives, its sectors and its model.
pub register_ahcis : (ports : List (Option (ℕ × List ℕ))) (i : ℕ) → ℕ × Disks → ℕ × Disks
register_ahcis [] i t = t
register_ahcis (none ∷ ports) i t = register_ahcis ports (suc i) t
register_ahcis (some (sectors, model) ∷ ports) i (total, s) =
    register_ahcis ports (suc i)
      (count_registered total (disk_register s ahci sectors model ahci_serial 0 0 0 (ahci_port i)))

-- The list of ports is empty where there is no controller.
pub disk_detect_all :
    (probe : (i j : ℕ) → Probe)
    → (devices : ℕ → IdeDevice) → (ports : List (Option (ℕ × List ℕ))) → Disks
    → ℕ × Disks
disk_detect_all probe devices ports s =
    let f = ide_detect_drives probe devices in
    let n = if ltb f.count 4 then f.count else 4 in
    register_ahcis ports 0 (register_ides n 0 f.devices (0, s))
