-- ===== src/Disk/Transfer.antt =====
-- disk_read and disk_write of os/kernel/hal/io/disk/disk.c, by the direction: 0 reads, 1 writes. The
-- AHCI driver is given by what it returns and leaves.
use vsnx_os.Base.{
  ℕ, zero, suc, ◌+◌, ◌-◌, ◌*◌, ◌/◌, ◌%◌, true, false, ltb, if◌then◌else◌, Option, none, some, ℤ,
  pos, negsuc, add64, u32_mod,
}
use vsnx_os.Disk.{
  IdeDevice, Disk, Disks, DiskType, DriverData, unknown, ide_ata, ide_atapi, sata, ahci, nvme, scsi,
  ide_device, disk_get,
}
use vsnx_os.Disk.Ide.{IoState, Port, ide_sectors}

-- The sectors of one call of the driver.
abbrev pub chunk : ℕ → ℕ
chunk left = if ltb 256 left then 256 else left

-- The number of sectors is passed as a byte, the block address as 32 bits.
unfoldable pub sector_loop :
    (fuel : ℕ) (driver : (lba numsects buffer : ℕ) → IoState → Option (ℕ × IoState))
    (done count lba buffer : ℕ)
    → IoState
    → Option (ℤ × IoState)
sector_loop zero driver done count lba buffer m = none
sector_loop (suc n) driver done count lba buffer m = elim (ltb done count) [
  | false ↦ some (pos 0, m)
  | true ↦
      elim (driver (add64 lba done % u32_mod) (chunk (count - done) % 256)
        (buffer + ((done * 512) % u32_mod) / 2) m) [
          | none ↦ none
          | some (suc err, m') ↦ some (negsuc 3, m')
          | some (zero, m') ↦ sector_loop n driver (done + chunk (count - done)) count lba buffer m'
        ]
]

module _ (port : Port) (dma unset : ℕ) (devices : ℕ → IdeDevice)
    (ahci_access : (direction : ℕ) → Disk → (lba count buffer : ℕ) → IoState → ℤ × IoState) where
  unfoldable pub ide_transfer :
      (fuel direction : ℕ) → DriverData → (lba count buffer : ℕ) → IoState → Option (ℤ × IoState)
  ide_transfer fuel direction (ide_device d) lba count buffer m =
      sector_loop fuel
        (ide_sectors port dma unset direction devices ((d.channel * 2 + d.drive) % 256)) 0 count lba
        buffer m
  ide_transfer fuel direction _ lba count buffer m = some (negsuc 2, m)

  abbrev pub ahci_result : ℤ × IoState → ℤ × IoState
  ahci_result (pos zero, m) = (pos 0, m)
  ahci_result (_, m) = (negsuc 5, m)

  -- The switch over the type.
  unfoldable pub transfer :
      (fuel direction : ℕ)
      → Disk
      → DiskType
      → (lba count buffer : ℕ) → IoState
      → Option (ℤ × IoState)
  transfer fuel direction disk ide_ata lba count buffer m =
      ide_transfer fuel direction disk.driver_data lba count buffer m
  transfer fuel direction disk ide_atapi lba count buffer m = some (negsuc 4, m)
  transfer fuel direction disk ahci lba count buffer m =
      some (ahci_result (ahci_access direction disk lba count buffer m))
  transfer fuel direction disk sata lba count buffer m =
      some (ahci_result (ahci_access direction disk lba count buffer m))
  transfer fuel direction disk nvme lba count buffer m = some (negsuc 6, m)
  transfer fuel direction disk scsi lba count buffer m = some (negsuc 7, m)
  transfer fuel direction disk unknown lba count buffer m = some (negsuc 8, m)

  -- `disk_read` and `disk_write`: the sum of the bound check wraps at 64 bits.
  unfoldable pub disk_transfer :
      (fuel direction : ℕ) → Disks → (disk_id lba count buffer : ℕ) → IoState → Option (ℤ × IoState)
  disk_transfer fuel direction disks disk_id lba count buffer m = elim (disk_get disks disk_id) [
    | none ↦ some (negsuc 0, m)
    | some disk ↦
        if ltb disk.sectors (add64 lba count)
        then some (negsuc 1, m)
        else transfer fuel direction disk disk.type lba count buffer m
  ]

  unfoldable pub disk_read :
      (fuel : ℕ) → Disks → (disk_id lba count buffer : ℕ) → IoState → Option (ℤ × IoState)
  disk_read fuel = disk_transfer fuel 0

  unfoldable pub disk_write :
      (fuel : ℕ) → Disks → (disk_id lba count buffer : ℕ) → IoState → Option (ℤ × IoState)
  disk_write fuel = disk_transfer fuel 1
