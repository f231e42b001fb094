-- ===== src/Disk/Reads.antt =====
-- disk_read of os/kernel/hal/io/disk/disk.c through the ATA driver of ideata.c.
use vsnx_os.Base.{
  ℕ, suc, ◌+◌, ◌*◌, ◌%◌, ◌^◌, ◌≤◌, ◌<◌, ◌≡◌, refl, true, false, ltb, arith, some, ℤ, negsuc, ◌∙◌,
  add64,
}
use vsnx_os.Base.Bits.{test_bit}
use vsnx_os.Disk.{IdeDevice, Disk, Disks, ide_ata, ide_device, disk_get}
use vsnx_os.Disk.Ide.{IoState, Port, ide_sectors, ide_ata_access}
use vsnx_os.Disk.Transfer.{sector_loop, ide_transfer, transfer, disk_transfer, disk_read}
use vsnx_os.Disk.Detect.{Probe, ide_detect_drives}
use vsnx_os.Disk.Packing.{detect_drives-Packed}
use vsnx_os.Disk.Served.{Drive, access-Served}
use vsnx_os.Disk.Chunks.{LastRead, loop-LastRead}

-- The disk `disk_id` is the ATA device `d`, and a transfer stays in its sectors.
pub record AtaDisk (disks : Disks) (disk_id lba count : ℕ) (d : IdeDevice) : Type 0 where
  pub disk : Disk
  pub present : disk_get disks disk_id ≡ some disk
  pub ata : disk.type ≡ ide_ata
  pub data_lem : disk.driver_data ≡ ide_device d
  pub in_range : add64 lba count ≤ disk.sectors

-- Where the driver looks for a device.
abbrev pub place : IdeDevice → ℕ
place d = d.channel * 2 + d.drive

-- The driver finds the device there.
pub record Attached (devices : ℕ → IdeDevice) (d : IdeDevice) : Type 0 where
  pub at_place : devices (place d) ≡ d
  pub low : place d ≤ 3
  pub exists : d.reserved ≡ 1
  pub no_packet : d.type ≡ 0

module _ (port : Port) (dma unset : ℕ) (devices : ℕ → IdeDevice)
    (ahci_access : (direction : ℕ) → Disk → (lba count buffer : ℕ) → IoState → ℤ × IoState) where
  pub disk_transfer-ata :
      (fuel direction : ℕ) (disks : Disks) (disk_id lba count buffer : ℕ) (d : IdeDevice)
      (m : IoState)
      → AtaDisk disks disk_id lba count d
      → disk_transfer port dma unset devices ahci_access fuel direction disks disk_id lba count
          buffer m
        ≡ sector_loop fuel
            (ide_sectors port dma unset direction devices (place d % 256))
            0
            count
            lba
            buffer
            m
  unfolding disk_transfer transfer ide_transfer
  disk_transfer-ata fuel direction disks disk_id lba count buffer d m x =
      let inside : ltb (x.disk.sectors) (add64 lba count) ≡ false = ground (arith, x.in_range) in
      rw (x.present, inside, x.ata, x.data_lem, disk_transfer) refl

  pub sectors_lem :
      (direction : ℕ) (d : IdeDevice) (lba n buffer : ℕ) (m : IoState)
      → Attached devices d
      → ide_sectors port dma unset direction devices (place d % 256) lba n buffer m
        ≡ ide_ata_access port dma unset direction d lba n buffer m
  unfolding ide_sectors
  sectors_lem direction d lba n buffer m x =
      let small : place d % 256 ≡ place d = omega (arith, x.low) in
      let low : ltb 3 (place d) ≡ false = ground (arith, x.low) in
      rw (small, low, x.at_place, x.exists, x.no_packet, ide_sectors) refl

  sectors-missing :
      (direction : ℕ) (d : IdeDevice) (lba n buffer : ℕ) (m : IoState)
      → place d ≤ 3
      → (devices (place d)).reserved ≡ 0
      → ide_sectors port dma unset direction devices (place d % 256) lba n buffer m ≡ some (1, m)
  unfolding ide_sectors
  sectors-missing direction d lba n buffer m h e =
      let small : place d % 256 ≡ place d = omega (arith, h) in
      let low : ltb 3 (place d) ≡ false = ground (arith, h) in rw (small, low, e, ide_sectors) refl

  loop-missing :
      (fuel direction : ℕ) (d : IdeDevice) (lba count buffer : ℕ) (m : IoState)
      → place d ≤ 3
      → (devices (place d)).reserved ≡ 0
      → 0 < count
      → sector_loop
          (suc fuel)
          (ide_sectors port dma unset direction devices (place d % 256))
          0
          count
          lba
          buffer
          m
        ≡ some (negsuc 3, m)
  unfolding sector_loop
  loop-missing fuel direction d lba count buffer m h e some_left =
      let go : ltb 0 count ≡ true = ground (arith, some_left) in
      rw (go, sector_loop, sectors-missing direction d _ _ _ m h e) refl

module _ (port : Port) (unset : ℕ) (devices : ℕ → IdeDevice)
    (ahci_access : (direction : ℕ) → Disk → (lba count buffer : ℕ) → IoState → ℤ × IoState)
    (content : (channel slavebit lba word : ℕ) → ℕ) (drive : Drive port unset content) where
  -- A read of fewer than 2 ^ 23 sectors, all below 2 ^ 28, from an attached ATA device with block
  -- addresses that does not stay busy, is ready and answers with what it holds, with `dma` 0 and more
  -- fuel than sectors, ends and reports success. It brings the last `count % 256` of the sectors to
  -- their places in the buffer and changes no other word: with 256 sectors or more, those in front
  -- are not read.
  pub disk_read_lem :
      (fuel : ℕ) (disks : Disks) (disk_id lba count buffer : ℕ) (d : IdeDevice) (m : IoState)
      → AtaDisk disks disk_id lba count d
      → Attached devices d
      → test_bit d.capabilities 9 ≡ true
      → lba + count ≤ 2 ^ 28
      → count < 2 ^ 23
      → count < fuel
      → LastRead
          (content d.channel d.drive)
          lba
          count
          buffer
          m.memory
          (disk_read port 0 unset devices ahci_access fuel disks disk_id lba count buffer m)
  unfolding disk_read
  disk_read_lem fuel disks disk_id lba count buffer d m x a blocks in_range fits enough =
      rw
        (disk_transfer-ata port 0 unset devices ahci_access fuel 0 disks disk_id lba count buffer d
          m x)
        (loop-LastRead (content d.channel d.drive)
          (ide_sectors port 0 unset 0 devices (place d % 256))
          (λ l n b m' small.
            rw (sectors_lem port 0 unset devices ahci_access 0 d l n b m' a)
              (access-Served port unset content drive d l n b m' small blocks))
          count lba buffer in_range fits fuel 0 m (omega (arith, enough)) (omega arith) refl)

module _ (port : Port) (dma unset : ℕ)
    (ahci_access : (direction : ℕ) → Disk → (lba count buffer : ℕ) → IoState → ℤ × IoState) where
  -- After `ide_detect_drives` on an unmarked table: an ATA disk for a device it found, whose place, two
  -- times the channel plus the number, is not below the count of devices found, cannot be read.
  -- `disk_read` of at least one sector returns -4 and changes nothing.
  pub disk_read_misses :
      (fuel : ℕ) (probe : (i j : ℕ) → Probe) (devices : ℕ → IdeDevice) (k : ℕ) (disks : Disks)
      (disk_id lba count buffer : ℕ) (m : IoState)
      → ((i : ℕ) → (devices i).reserved ≡ 0)
      → k < (ide_detect_drives probe devices).count
      → (ide_detect_drives probe devices).count
        ≤ place ((ide_detect_drives probe devices).devices k)
      → AtaDisk disks disk_id lba count ((ide_detect_drives probe devices).devices k)
      → 0 < count
      → disk_read port dma unset
          ((ide_detect_drives probe devices).devices)
          ahci_access
          (suc fuel)
          disks
          disk_id
          lba
          count
          buffer
          m
        ≡ some (negsuc 3, m)
  unfolding disk_read
  disk_read_misses fuel probe devices k disks disk_id lba count buffer m empty found behind x
        some_left =
      let f = ide_detect_drives probe devices in
      let packed = detect_drives-Packed probe devices empty in
      let low = (packed.placed k found).place in
      disk_transfer-ata port dma unset f.devices ahci_access (suc fuel) 0 disks disk_id lba count
        buffer (f.devices k) m x
      ∙ loop-missing port dma unset f.devices ahci_access fuel 0 (f.devices k) lba count buffer m
          (omega (arith, low)) (packed.rest (place (f.devices k)) behind) some_left
