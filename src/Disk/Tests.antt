-- ===== src/Disk/Tests.antt =====
-- The theorems of os/kernel/hal/io/disk/disk.c and ideata.c at a disk of a thousand sectors.
use vsnx_os.Base.{
  ℕ, ◌/◌, ◌∙◌, ◌+◌, ◌*◌, ◌%◌, ◌^◌, ◌<◌, ◌++◌, List, ◌∷◌, leb, true, false, ◌≡◌, refl, ◌&&◌, ◌==◌,
  if◌then◌else◌, arith, some, [], ℤ, negsuc, inr,
}
use vsnx_os.Base.Bits.{test_bit}
use vsnx_os.Disk.{IdeDevice, Disk, Disks, ide_ata, ide_device, disk_get}
use vsnx_os.Disk.Ide.{
  Event, reg_write, data_out, setup, command, IoState, Port, address, ide_polling,
}
use vsnx_os.Disk.Address.{block, block-address}
use vsnx_os.Disk.Detect.{Probe, Found, ide_detect_drives, detect_at, drive_found, wait_error}
use vsnx_os.Disk.Transfer.{disk_read, disk_write}
use vsnx_os.Disk.Served.{Drive}
use vsnx_os.Disk.Chunks.{LastRead}
use vsnx_os.Disk.Writes.{Success, disk_write-Success}
use vsnx_os.Disk.Reads.{AtaDisk, Attached, place, disk_read_lem, disk_read_misses}

abbrev master : IdeDevice
master = record {
  reserved = 1;
  channel = 0;
  drive = 0;
  type = 0;
  capabilities = 512;
  size = 1000;
  model = [];
}

abbrev no_device : IdeDevice
no_device = record master { reserved = 0 }

abbrev disk_of : IdeDevice → Disk
disk_of d = record {
  id = 0;
  type = ide_ata;
  sectors = 1000;
  sector_size = 512;
  model = [];
  serial = [];
  bus = 0;
  device = 1;
  function = 1;
  driver_data = ide_device d;
}

abbrev disks_of : IdeDevice → Disks
disks_of d = record { disk = λ i. disk_of d; disk_count = 1 }

-- What a register holds after the writes of a log.
held : (reg value : ℕ) → List Event → ℕ
held reg value [] = value
held reg value (reg_write c r x ∷ es) = held reg (if r == reg then x else value) es
held reg value (data_out word ∷ es) = held reg value es

held-++ :
    (reg value : ℕ) (xs ys : List Event)
    → held reg value (xs ++ ys) ≡ held reg (held reg value xs) ys
unfolding held
held-++ reg value [] ys = refl
held-++ reg value (reg_write c r x ∷ xs) ys = held-++ reg (if r == reg then x else value) xs ys
held-++ reg value (data_out word ∷ xs) ys = held-++ reg value xs ys

-- The low 24 bits of the block that the registers hold.
block_held : List Event → ℕ
block_held log = held 3 0 log + held 4 0 log * 256 + held 5 0 log * 65536

-- A drive that is always ready, word `j` of whose block `b` is `b % 2 ^ 24 + j`.
abbrev counting : Port
counting = record {
  clears = λ log i. true;
  status = λ log i. 8;
  data_in = λ log i j. (block_held log + i) % 2 ^ 24 + j;
}

abbrev start : IoState
start = record { log = []; memory = λ k. 9 }

abbrev no_ahci : (direction : ℕ) → Disk → (lba count buffer : ℕ) → IoState → ℤ × IoState
no_ahci direction disk lba count buffer m = (negsuc 0, m)

block_held-setup :
    (log : List Event) (c s n cmd lba capabilities : ℕ)
    → lba < 2 ^ 28
    → test_bit capabilities 9 ≡ true
    → block_held (log ++ setup c s n cmd (address lba capabilities)) ≡ lba % 2 ^ 24
unfolding block_held held setup address
block_held-setup log c s n cmd lba capabilities small blocks =
    let low : leb (2 ^ 28) lba ≡ false = ground (arith, small) in
    let sent : List Event = setup c s n cmd (address lba capabilities) in
    let low_byte : held 3 0 (log ++ sent) ≡ lba % 256 =
      held-++ 3 0 log sent ∙ rw (low, blocks, address) refl in
    let middle_byte : held 4 0 (log ++ sent) ≡ lba / 256 % 256 =
      held-++ 4 0 log sent ∙ rw (low, blocks, address) refl in
    let high_byte : held 5 0 (log ++ sent) ≡ lba / 65536 % 256 =
      held-++ 5 0 log sent ∙ rw (low, blocks, address) refl in
    omega (arith, low_byte, middle_byte, high_byte)

counting-Drive : Drive counting 0 (λ c s b j. b % 2 ^ 24 + j)
unfolding ide_polling test_bit
counting-Drive = record {
  idle = λ log i. refl;
  ready = λ log i. refl;
  answers = λ log c s n lba capabilities i j small blocks hi hj.
      let e =
        block_held-setup log c s n (command (address lba capabilities).mode 0 0 0) lba capabilities
          small blocks in
      rw e (omega arith);
}

disk_of-AtaDisk : (d : IdeDevice) → AtaDisk (disks_of d) 0 100 300 d
unfolding disk_get
disk_of-AtaDisk d = record {
  disk = disk_of d;
  present = refl;
  ata = refl;
  data_lem = refl;
  in_range = omega arith;
}

master-Attached : Attached (λ k. master) master
master-Attached = record { at_place = refl; low = omega arith; exists = refl; no_packet = refl }

block-address_example : block (address 66060287 0) ≡ 66060287
block-address_example = block-address 66060287 0 (omega arith) (inr (omega arith))

disk_read_lem_example :
    LastRead
      (λ b j. b % 2 ^ 24 + j)
      100
      300
      5000
      (λ k. 9)
      (disk_read counting 0 0 (λ k. master) no_ahci 301 (disks_of master) 0 100 300 5000 start)
unfolding test_bit
disk_read_lem_example =
    disk_read_lem counting 0 (λ k. master) no_ahci (λ c s b j. b % 2 ^ 24 + j) counting-Drive 301
      (disks_of master) 0 100 300 5000 master start (disk_of-AtaDisk master) master-Attached refl
      (omega arith) (omega arith) (omega arith)

disk_write-Success_example :
    Success
      (λ k. 9)
      (disk_write counting 0 0 (λ k. master) no_ahci 301 (disks_of master) 0 100 300 5000 start)
disk_write-Success_example =
    disk_write-Success counting 0 0 (λ k. master) no_ahci 301 (disks_of master) 0 100 300 5000
      master start (disk_of-AtaDisk master) master-Attached (λ log i. refl) (omega arith)

-- Only the master of the second channel answers.
abbrev second : (i j : ℕ) → Probe
second i j = record {
  first_status = if i == 1 && j == 0 then 8 else 0;
  statuses = λ k. 8;
  lba1 = 0;
  lba2 = 0;
  identify = λ k. 0;
}

abbrev found : Found
found = ide_detect_drives second (λ k. no_device)

found_count : found.count ≡ 1
unfolding ide_detect_drives detect_at drive_found wait_error test_bit
found_count = refl

found_place : place (found.devices 0) ≡ 2
unfolding ide_detect_drives detect_at drive_found wait_error test_bit
found_place = refl

disk_read_misses_example :
    disk_read counting 0 0
      (found.devices)
      no_ahci
      301
      (disks_of (found.devices 0))
      0
      100
      300
      5000
      start
    ≡ some (negsuc 3, start)
disk_read_misses_example =
    disk_read_misses counting 0 0 no_ahci 300 second (λ k. no_device) 0 (disks_of (found.devices 0))
      0 100 300 5000 start (λ i. refl) (omega (arith, found_count))
      (omega (arith, found_count, found_place)) (disk_of-AtaDisk (found.devices 0)) (omega arith)
