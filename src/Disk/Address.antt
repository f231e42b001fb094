-- ===== src/Disk/Address.antt =====
-- The block addresses of os/kernel/hal/io/disk/ideata.c: what the registers hold stands for the block.
use vsnx_os.Base.{
  ℕ, ◌+◌, ◌-◌, ◌*◌, ◌/◌, ◌%◌, ◌^◌, ◌<◌, ◌≡◌, ◌⊎◌, inl, inr, true, false, leb, Bool-cases, arith,
}
use vsnx_os.Base.Bits.{test_bit}
use vsnx_os.Disk.Ide.{Address, Mode, chs, lba28, lba48, address, sect_of, cyl_of}

-- The block that a drive finds at an address, by the standard: 16 heads of 63 sectors in a cylinder.
abbrev pub block_at : Mode → (io0 io1 io2 io3 head : ℕ) → ℕ
block_at chs io0 io1 io2 io3 head = (io1 + io2 * 256) * 1008 + head * 63 + (io0 - 1)
block_at lba28 io0 io1 io2 io3 head = io0 + io1 * 256 + io2 * 65536 + head * 16777216
block_at lba48 io0 io1 io2 io3 head = io0 + io1 * 256 + io2 * 65536 + io3 * 16777216

abbrev pub block : Address → ℕ
block a = block_at a.mode a.io0 a.io1 a.io2 a.io3 a.head

bytes4 :
    (n : ℕ)
    → n < 2 ^ 32
    → n % 256 + n / 256 % 256 * 256 + n / 65536 % 256 * 65536 + n / 16777216 % 256 * 16777216 ≡ n
bytes4 n h = omega (arith, h)

bytes28 :
    (n : ℕ)
    → n < 2 ^ 28
    → n % 256 + n / 256 % 256 * 256 + n / 65536 % 256 * 65536 + n / 16777216 % 16 * 16777216 ≡ n
bytes28 n h = omega (arith, h)

cylinders :
    (n : ℕ)
    → n < 66060288
    → (cyl_of n % 256 + cyl_of n / 256 % 256 * 256) * 1008
        + (n + 1 - sect_of n) % 1008 / 63 * 63
        + (sect_of n - 1)
      ≡ n
cylinders n h = omega (arith, h)

-- The registers of `ide_ata_access` stand for the block it is given: for each block of 32 bits where
-- the drive has block addresses, and for those below 65536 cylinders where it has not.
pub block-address :
    (lba capabilities : ℕ)
    → lba < 2 ^ 32
    → (test_bit capabilities 9 ≡ true) ⊎ (lba < 66060288)
    → block (address lba capabilities) ≡ lba
unfolding address
block-address lba capabilities h either = elim (Bool-cases (leb (2 ^ 28) lba)) [
  | inl large ↦ rw (large, address) (bytes4 lba h)
  | inr small ↦ elim (Bool-cases (test_bit capabilities 9)) [
    | inl blocks ↦ rw (small, blocks, address) (bytes28 lba (ground arith))
    | inr none ↦ rw (small, none, address) (cylinders lba (below either none))
  ]
]
  where
    below :
        (test_bit capabilities 9 ≡ true) ⊎ (lba < 66060288)
        → test_bit capabilities 9 ≡ false
        → lba < 66060288
    below (inl t) f = cc
    below (inr l) f = l
