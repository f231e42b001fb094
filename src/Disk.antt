-- ===== src/Disk.antt =====
-- The disk layer over the ATA driver: os/kernel/hal/io/disk/disk.c and ideata.c. This file has the
-- table of disks; the driver and the transfers stand in the modules below.
pub mod Ide
pub mod Detect
pub mod Transfer
pub mod Address
pub mod Served
pub mod Chunks
pub mod Packing
pub mod Reads
pub mod Writes
mod Tests
use vsnx_os.Base.{
  ℕ, zero, suc, ◌+◌, ◌%◌, Bool, true, false, ltb, leb, ◌==◌, if◌then◌else◌, Option, none, some,
  List, take, ℤ, pos, negsuc,
}

-- `ide_device_t`; the signature and the command sets are not used.
pub record IdeDevice : Type 0 where
  pub reserved : ℕ
  pub channel : ℕ
  pub drive : ℕ
  pub type : ℕ
  pub capabilities : ℕ
  pub size : ℕ
  pub model : List ℕ

pub data DiskType : Type 0 where
  unknown ide_ata ide_atapi sata ahci nvme scsi : DiskType

-- What `driver_data` points to.
pub data DriverData : Type 0 where
  null : DriverData
  ide_device : IdeDevice → DriverData
  ahci_port : ℕ → DriverData

pub record Disk : Type 0 where
  pub id : ℕ
  pub type : DiskType
  pub sectors : ℕ
  pub sector_size : ℕ
  pub model : List ℕ
  pub serial : List ℕ
  pub bus : ℕ
  pub device : ℕ
  pub function : ℕ
  pub driver_data : DriverData

-- `disks` and `disk_count`
pub record Disks : Type 0 where
  pub disk : ℕ → Disk
  pub disk_count : ℕ

abbrev pub max_disks : ℕ
max_disks = 16

pub clear_disk : Disk → Disk
clear_disk d = record d {
  id = 255;
  type = unknown;
  sectors = 0;
  sector_size = 512;
  driver_data = null;
}

pub disk_init : Disks → Disks
disk_init s = record {
  disk = λ i. if ltb i max_disks then clear_disk (s.disk i) else s.disk i;
  disk_count = 0;
}

abbrev pub new_disk :
    (id : ℕ)
    → DiskType
    → (sectors : ℕ) → (model serial : List ℕ) → (bus device function : ℕ) → DriverData
    → Disk
new_disk id type sectors model serial bus device function driver_data = record {
  id = id % 256;
  type = type;
  sectors = sectors;
  sector_size = 512;
  model = take 40 model;
  serial = take 20 serial;
  bus = bus;
  device = device;
  function = function;
  driver_data = driver_data;
}

-- The index of the new disk, or -1 where the table is full.
unfoldable pub disk_register :
    Disks
    → DiskType
    → (sectors : ℕ) → (model serial : List ℕ) → (bus device function : ℕ) → DriverData
    → ℤ × Disks
disk_register s type sectors model serial bus device function driver_data =
    if leb max_disks s.disk_count then (negsuc 0, s) else (
      pos s.disk_count,
      record {
        disk = λ i.
            if i == s.disk_count
            then new_disk s.disk_count type sectors model serial bus device function driver_data
            else s.disk i;
        disk_count = s.disk_count + 1;
      },
    )

abbrev pub is_unknown : DiskType → Bool
is_unknown unknown = true
is_unknown _ = false

unfoldable pub disk_get : Disks → (id : ℕ) → Option Disk
disk_get s id =
    if leb s.disk_count id
    then none
    else if is_unknown ((s.disk id).type)
    then none
    else some (s.disk id)
