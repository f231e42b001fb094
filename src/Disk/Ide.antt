-- ===== src/Disk/Ide.antt =====
-- The ATA driver of os/kernel/hal/io/disk/ideata.c: reads and writes of sectors by programmed I/O. A
-- register is written by an event; the drive is given by its answers to the events so far: whether it
-- stays busy, and the status when it is no longer.
use vsnx_os.Base.{
  Option, none, some, ℕ, zero, suc, ◌+◌, ◌-◌, ◌*◌, ◌/◌, ◌%◌, ◌^◌, Bool, true, false, ◌&&◌, ltb, leb,
  ◌==◌, not, if◌then◌else◌, List, [], ◌∷◌, ◌++◌, bit_or,
}
use vsnx_os.Base.Bits.{test_bit}
use vsnx_os.Disk.{IdeDevice}

pub data Event : Type 0 where
  reg_write : (channel reg value : ℕ) → Event
  data_out : ℕ → Event

-- What was sent to the drives, and the memory as 16-bit words.
pub record IoState : Type 0 where
  pub log : List Event
  pub memory : ℕ → ℕ

-- The answers of the drives, by what was sent to them: whether the wait while they are busy, in front
-- of the i-th sector that is read, ever ends; the status then, and the j-th word of the sector.
pub record Port : Type 0 where
  pub clears : List Event → ℕ → Bool
  pub status : List Event → ℕ → ℕ
  pub data_in : List Event → ℕ → ℕ → ℕ

pub data Mode : Type 0 where
  chs lba28 lba48 : Mode

-- `lba_mode`, `lba_io[0]` to `lba_io[3]` (the other two are 0) and `head`
pub record Address : Type 0 where
  pub mode : Mode
  pub io0 : ℕ
  pub io1 : ℕ
  pub io2 : ℕ
  pub io3 : ℕ
  pub head : ℕ

abbrev pub sect_of : ℕ → ℕ
sect_of lba = lba % 63 + 1

abbrev pub cyl_of : ℕ → ℕ
cyl_of lba = (lba + 1 - sect_of lba) / 1008 % 65536

unfoldable pub address : (lba capabilities : ℕ) → Address
address lba capabilities =
    if leb (2 ^ 28) lba
    then record {
      mode = lba48;
      io0 = lba % 256;
      io1 = lba / 256 % 256;
      io2 = lba / 65536 % 256;
      io3 = lba / 16777216 % 256;
      head = 0;
    }
    else if test_bit capabilities 9
    then record {
      mode = lba28;
      io0 = lba % 256;
      io1 = lba / 256 % 256;
      io2 = lba / 65536 % 256;
      io3 = 0;
      head = lba / 16777216 % 16;
    }
    else record {
      mode = chs;
      io0 = sect_of lba;
      io1 = cyl_of lba % 256;
      io2 = cyl_of lba / 256 % 256;
      io3 = 0;
      head = (lba + 1 - sect_of lba) % 1008 / 63;
    }

abbrev pub is_lba48 : Mode → Bool
is_lba48 lba48 = true
is_lba48 _ = false

abbrev pub select_base : Mode → ℕ
select_base chs = 160
select_base _ = 224

-- `dma` is not set by the code, nor is the command where it is not 0: both are arguments.
pub command : Mode → (dma direction unset : ℕ) → ℕ
command mode dma direction unset =
    if dma == 0 && direction == 0
    then (if is_lba48 mode then 36 else 32)
    else if dma == 0 && direction == 1
    then (if is_lba48 mode then 52 else 48)
    else unset

abbrev pub flush_command : Mode → ℕ
flush_command lba48 = 234
flush_command _ = 231

-- The registers before the data.
unfoldable pub setup : (channel slavebit numsects cmd : ℕ) → Address → List Event
setup c slavebit numsects cmd a =
    reg_write c 12 2
    ∷ reg_write c 6 (bit_or (bit_or (select_base a.mode) (slavebit * 16)) a.head % 256)
    ∷ ((if is_lba48 a.mode
          then reg_write c 8 0 ∷ reg_write c 9 a.io3 ∷ reg_write c 10 0 ∷ reg_write c 11 0 ∷ []
          else [])
        ++ (reg_write c 2 numsects
            ∷ reg_write c 3 a.io0
            ∷ reg_write c 4 a.io1
            ∷ reg_write c 5 a.io2
            ∷ reg_write c 7 cmd
            ∷ []))

-- The error bit, the fault bit and the data bit of the status.
abbrev pub checked : (state : ℕ) (advanced_check : Bool) → ℕ
checked state advanced_check =
    if not advanced_check
    then 0
    else if test_bit state 0
    then 2
    else if test_bit state 5
    then 1
    else if not (test_bit state 3)
    then 3
    else 0

-- `none` where the wait never ends.
unfoldable pub ide_polling : (clears : Bool) (state : ℕ) (advanced_check : Bool) → Option ℕ
ide_polling clears state advanced_check =
    if clears then some (checked state advanced_check) else none

abbrev pub store : (ℕ → ℕ) → (at word : ℕ) → ℕ → ℕ
store memory at word k = if k == at then word else memory k

-- The loop over the words of a sector.
unfoldable pub store_words : (n at : ℕ) (word memory : ℕ → ℕ) → ℕ → ℕ
store_words zero at word memory = memory
store_words (suc n) at word memory = store (store_words n at word memory) (at + n) (word n)

unfoldable pub pio_read :
    (left i : ℕ) (clears : ℕ → Bool) (status : ℕ → ℕ) (word : ℕ → ℕ → ℕ) (buffer : ℕ)
    → (memory : ℕ → ℕ) → Option (ℕ × (ℕ → ℕ))
pio_read zero i clears status word buffer memory = some (0, memory)
pio_read (suc left) i clears status word buffer memory =
    elim (ide_polling (clears i) (status i) true) [
      | none ↦ none
      | some (suc err) ↦ some (suc err, memory)
      | some zero ↦
          pio_read left (suc i) clears status word buffer
            (store_words 256 (buffer + i * 256) (word i) memory)
    ]

unfoldable pub words_out : (n at : ℕ) (memory : ℕ → ℕ) → List Event
words_out zero at memory = []
words_out (suc n) at memory = data_out (memory at) ∷ words_out n (suc at) memory

-- The status is not looked at; what is left is the log.
unfoldable pub pio_write :
    Port → (left i buffer : ℕ) (memory : ℕ → ℕ) → List Event → Option (List Event)
pio_write port zero i buffer memory log = some log
pio_write port (suc left) i buffer memory log =
    elim (ide_polling (port.clears log 0) (port.status log 0) false) [
      | none ↦ none
      | some err ↦
          pio_write port left (suc i) buffer memory (log ++ words_out 256 (buffer + i * 256) memory)
    ]

-- The flush behind the sectors, and the wait for it.
abbrev pub flushed :
    Port → (channel command : ℕ) (memory : ℕ → ℕ) → List Event → Option (ℕ × IoState)
flushed port channel cmd memory log =
    let sent = log ++ (reg_write channel 7 cmd ∷ []) in
    elim (ide_polling (port.clears sent 0) (port.status sent 0) false) [
      | none ↦ none
      | some err ↦ some (0, record { log = sent; memory = memory })
    ]

-- `buffer` counts words.
unfoldable pub ide_ata_access :
    Port
    → (dma unset direction : ℕ) → IdeDevice
    → (lba numsects buffer : ℕ) → IoState
    → Option (ℕ × IoState)
ide_ata_access port dma unset direction d lba numsects buffer m =
    let a = address lba d.capabilities in
    let sent = m.log ++ setup d.channel d.drive numsects (command a.mode dma direction unset) a in
    if not (port.clears (m.log ++ (reg_write d.channel 12 2 ∷ [])) 0)
    then none
    else if direction == 0
    then elim (pio_read numsects 0 (port.clears sent) (port.status sent) (port.data_in sent) buffer
        m.memory) [
          | none ↦ none
          | some (err, memory) ↦ some (err, record { log = sent; memory = memory })
        ]
    else elim (pio_write port numsects 0 buffer m.memory sent) [
      | none ↦ none
      | some log ↦ flushed port d.channel (flush_command a.mode) m.memory log
    ]

-- `ide_read_sectors` and `ide_write_sectors`, by the direction.
unfoldable pub ide_sectors :
    Port
    → (dma unset direction : ℕ) → (devices : ℕ → IdeDevice) → (drive lba numsects buffer : ℕ)
    → IoState
    → Option (ℕ × IoState)
ide_sectors port dma unset direction devices drive lba numsects buffer m =
    if ltb 3 drive
    then some (1, m)
    else if (devices drive).reserved == 0
    then some (1, m)
    else if (devices drive).type == 1
    then some (2, m)
    else ide_ata_access port dma unset direction (devices drive) lba numsects buffer m
