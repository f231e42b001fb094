-- ===== src/Disk/Writes.antt =====
-- disk_write of os/kernel/hal/io/disk/disk.c through the ATA driver of ideata.c.
use vsnx_os.Base.{
  ℕ, zero, suc, ◌+◌, ◌-◌, ◌%◌, ◌<◌, ◌≡◌, refl, inl, inr, Bool-cases, ltb, arith, true, ◌*◌, List,
  [], ◌∷◌, ◌++◌, Option, none, some, ℤ, pos, negsuc, ◌∙◌,
}
use vsnx_os.Disk.{IdeDevice, Disk, Disks}
use vsnx_os.Disk.Ide.{
  Event, reg_write, address, flush_command, words_out, pio_write, flushed, ide_polling, IoState,
  Port, ide_sectors, ide_ata_access,
}
use vsnx_os.Disk.Transfer.{sector_loop, chunk, disk_write}
use vsnx_os.Disk.Reads.{AtaDisk, Attached, place, disk_transfer-ata, sectors_lem}

-- A transfer that reports success, with the memory as it was.
pub data Success (before : ℕ → ℕ) : Option (ℤ × IoState) → Type 0 where
  success : (m : IoState) → ((k : ℕ) → m.memory k ≡ before k) → Success before (some (pos 0, m))

Success-same :
    {b b' : ℕ → ℕ} {r : Option (ℤ × IoState)} → ((k : ℕ) → b k ≡ b' k) → Success b r → Success b' r
Success-same same (success m h) = success m (λ k. h k ∙ same k)

data Keeps (before : ℕ → ℕ) : Option (ℕ × IoState) → Type 0 where
  keeps : (m : IoState) → ((k : ℕ) → m.memory k ≡ before k) → Keeps before (some (0, m))

-- No drive stays busy.
abbrev pub NeverStuck : Port → Type 0
NeverStuck port = (log : List Event) (i : ℕ) → port.clears log i ≡ true

flushed-Keeps :
    (port : Port) (channel cmd : ℕ) (memory : ℕ → ℕ) (log : List Event)
    → NeverStuck port
    → Keeps memory (flushed port channel cmd memory log)
unfolding ide_polling
flushed-Keeps port channel cmd memory log free =
    rw (free (log ++ (reg_write channel 7 cmd ∷ [])) 0, flushed) (keeps _ (λ k. refl))

pio_write-Keeps :
    (port : Port) (left i b channel cmd : ℕ) (memory : ℕ → ℕ) (log : List Event)
    → NeverStuck port
    → Keeps memory (elim (pio_write port left i b memory log) [
      | none ↦ none
      | some sent ↦ flushed port channel cmd memory sent
    ])
unfolding pio_write ide_polling
pio_write-Keeps port zero i b channel cmd memory log free =
    flushed-Keeps port channel cmd memory log free
pio_write-Keeps port (suc left) i b channel cmd memory log free = rw (free log 0) (
    pio_write-Keeps port left (suc i) b channel cmd memory
      (log ++ words_out 256 (b + i * 256) memory) free)

access-Keeps :
    (port : Port) (dma unset : ℕ) (d : IdeDevice) (l n b : ℕ) (m : IoState)
    → NeverStuck port
    → Keeps m.memory (ide_ata_access port dma unset 1 d l n b m)
unfolding ide_ata_access
access-Keeps port dma unset d l n b m free =
    rw (free (m.log ++ (reg_write d.channel 12 2 ∷ [])) 0, ide_ata_access)
      (pio_write-Keeps port n 0 b d.channel (flush_command (address l d.capabilities).mode) m.memory
        _ free)

module _ (driver : (lba numsects buffer : ℕ) → IoState → Option (ℕ × IoState))
    (works : (l n b : ℕ) (m : IoState) → Keeps m.memory (driver l n b m))
    (count lba buffer : ℕ) where
  round :
      (n done : ℕ) (before : ℕ → ℕ) {r : Option (ℕ × IoState)}
      → Keeps before r
      → ((m : IoState)
          → Success m.memory
              (sector_loop n driver (done + chunk (count - done)) count lba buffer m))
      → Success before (elim r [
        | none ↦ none
        | some (suc err, m') ↦ some (negsuc 3, m')
        | some (zero, m') ↦ sector_loop n driver (done + chunk (count - done)) count lba buffer m'
      ])
  round n done before (keeps m h) next = Success-same h (next m)

  chunk_pos : (left : ℕ) → 0 < left → 0 < chunk left
  chunk_pos left h = ground arith

  loop-Success :
      (n done : ℕ) (m : IoState)
      → count - done < n
      → Success m.memory (sector_loop n driver done count lba buffer m)
  unfolding sector_loop
  loop-Success zero done m fuel = absurd (omega (arith, fuel))
  loop-Success (suc n) done m fuel = elim (Bool-cases (ltb done count)) [
    | inr stop ↦ rw (stop, sector_loop) (success m (λ k. refl))
    | inl go ↦
        let some_left : done < count = ground (arith, go) in
        let some_sector = chunk_pos (count - done) (omega (arith, some_left)) in
        rw (go, sector_loop)
          (round n done m.memory (works _ _ _ m) (λ m'.
            loop-Success n (done + chunk (count - done)) m'
              (omega (arith, fuel, some_left, some_sector))))
  ]

-- Whatever status the drive gives, where no wait for a busy drive goes on for ever, `disk_write` within
-- the sectors of an attached ATA device ends, with more fuel than sectors, and reports success; memory
-- does not change.
pub disk_write-Success :
    (port : Port) (dma unset : ℕ) (devices : ℕ → IdeDevice)
    (ahci_access : (direction : ℕ) → Disk → (lba count buffer : ℕ) → IoState → ℤ × IoState)
    (fuel : ℕ) (disks : Disks) (disk_id lba count buffer : ℕ) (d : IdeDevice) (m : IoState)
    → AtaDisk disks disk_id lba count d
    → Attached devices d
    → NeverStuck port
    → count < fuel
    → Success m.memory
        (disk_write port dma unset devices ahci_access fuel disks disk_id lba count buffer m)
unfolding disk_write
disk_write-Success port dma unset devices ahci_access fuel disks disk_id lba count buffer d m x a
      free enough =
    rw
      (disk_transfer-ata port dma unset devices ahci_access fuel 1 disks disk_id lba count buffer d
        m x)
      (loop-Success (ide_sectors port dma unset 1 devices (place d % 256))
        (λ l n b m'.
          rw (sectors_lem port dma unset devices ahci_access 1 d l n b m' a)
            (access-Keeps port dma unset d l n b m' free))
        count lba buffer fuel 0 m (omega (arith, enough)))
