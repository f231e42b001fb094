-- ===== src/Disk/Served.antt =====
-- What a read by programmed I/O leaves in memory: ide_ata_access of os/kernel/hal/io/disk/ideata.c.
use vsnx_os.Base.{
  ℕ, zero, suc, ◌+◌, ◌*◌, ◌^◌, ◌≤◌, ◌<◌, ◌≡◌, refl, ◌⊎◌, inl, inr, true, Bool-cases, ◌==◌, ==-ne,
  ==_iff, arith, List, [], ◌∷◌, ◌++◌, Bool, Option, some, subst, sym, ap, ◌∙◌,
}
use vsnx_os.Base.Bits.{test_bit}
use vsnx_os.Disk.{IdeDevice}
use vsnx_os.Disk.Ide.{
  Event, reg_write, IoState, Port, Address, address, command, setup, ide_polling, store_words,
  pio_read, ide_ata_access,
}

-- The memory behind a read of `n` sectors from `lba` on to `buffer`.
pub record Transferred (content : ℕ → ℕ → ℕ) (lba buffer n : ℕ) (before after : ℕ → ℕ)
    : Type 0 where
  pub inside : (q j : ℕ) → q < n → j < 256 → after (buffer + q * 256 + j) ≡ content (lba + q) j
  pub outside : (k : ℕ) → (k < buffer) ⊎ (buffer + n * 256 ≤ k) → after k ≡ before k

store_words-inside :
    (n at : ℕ) (word memory : ℕ → ℕ) (j : ℕ)
    → j < n
    → store_words n at word memory (at + j) ≡ word j
unfolding store_words
store_words-inside zero at word memory j h = absurd (omega (arith, h))
store_words-inside (suc n) at word memory j h = elim (Bool-cases (at + j == at + n)) [
  | inl last ↦
      rw (last, store_words)
        (ap word (let e = (==_iff (at + j) (at + n)).0 last in omega (arith, e)))
  | inr other ↦
      rw (other, store_words) (store_words-inside n at word memory j (ground (arith, other, h)))
]

store_words-outside :
    (n at : ℕ) (word memory : ℕ → ℕ) (k : ℕ)
    → (k < at) ⊎ (at + n ≤ k)
    → store_words n at word memory k ≡ memory k
unfolding store_words
store_words-outside zero at word memory k h = refl
store_words-outside (suc n) at word memory k (inl h) =
    rw (==-ne k (at + n) (λ e. omega (arith, e, h)), store_words)
      (store_words-outside n at word memory k (inl h))
store_words-outside (suc n) at word memory k (inr h) =
    rw (==-ne k (at + n) (λ e. omega (arith, e, h)), store_words)
      (store_words-outside n at word memory k (inr (omega (arith, h))))

-- What a call of the driver returns that succeeds.
pub data Served (content : ℕ → ℕ → ℕ) (lba buffer n : ℕ) (before : ℕ → ℕ)
    : Option (ℕ × IoState) → Type 0 where
  served :
      (m : IoState)
      → Transferred content lba buffer n before m.memory
      → Served content lba buffer n before (some (0, m))

-- The memory behind the loop where every sector is read.
sectors_read : (left i : ℕ) (word : ℕ → ℕ → ℕ) (buffer : ℕ) (memory : ℕ → ℕ) → ℕ → ℕ
sectors_read zero i word buffer memory = memory
sectors_read (suc left) i word buffer memory =
    sectors_read left (suc i) word buffer (store_words 256 (buffer + i * 256) (word i) memory)

pio_read-sectors_read :
    (left i : ℕ) (clears : ℕ → Bool) (status : ℕ → ℕ) (word : ℕ → ℕ → ℕ) (buffer : ℕ)
    → (memory : ℕ → ℕ) → ((i : ℕ) → ide_polling (clears i) (status i) true ≡ some 0)
    → pio_read left i clears status word buffer memory
      ≡ some (0, sectors_read left i word buffer memory)
unfolding pio_read sectors_read
pio_read-sectors_read zero i clears status word buffer memory ready = refl
pio_read-sectors_read (suc left) i clears status word buffer memory ready =
    rw (ready i, pio_read)
      (pio_read-sectors_read left (suc i) clears status word buffer
        (store_words 256 (buffer + i * 256) (word i) memory) ready)

module _ (word : ℕ → ℕ → ℕ) (buffer : ℕ) where
  sectors_read-outside :
      (left i : ℕ) (memory : ℕ → ℕ) (k : ℕ)
      → (k < buffer + i * 256) ⊎ (buffer + (i + left) * 256 ≤ k)
      → sectors_read left i word buffer memory k ≡ memory k
  unfolding sectors_read
  sectors_read-outside zero i memory k h = refl
  sectors_read-outside (suc left) i memory k (inl h) =
      sectors_read-outside left (suc i) (store_words 256 (buffer + i * 256) (word i) memory) k
        (inl (omega (arith, h)))
      ∙ store_words-outside 256 (buffer + i * 256) (word i) memory k (inl h)
  sectors_read-outside (suc left) i memory k (inr h) =
      sectors_read-outside left (suc i) (store_words 256 (buffer + i * 256) (word i) memory) k
        (inr (omega (arith, h)))
      ∙ store_words-outside 256 (buffer + i * 256) (word i) memory k (inr (omega (arith, h)))

  sectors_read-inside :
      (left i : ℕ) (memory : ℕ → ℕ) (s j : ℕ)
      → i ≤ s
      → s < i + left
      → j < 256
      → sectors_read left i word buffer memory (buffer + s * 256 + j) ≡ word s j
  unfolding sectors_read
  sectors_read-inside zero i memory s j low high hj = absurd (omega (arith, low, high))
  sectors_read-inside (suc left) i memory s j low high hj = elim (Bool-cases (s == i)) [
    | inl here ↦
        subst (λ t. sectors_read left (suc i) word buffer next (buffer + t * 256 + j) ≡ word t j)
          (sym ((==_iff s i).0 here))
          (sectors_read-outside left (suc i) next (buffer + i * 256 + j) (inl (omega (arith, hj)))
            ∙ store_words-inside 256 (buffer + i * 256) (word i) memory j hj)
    | inr there ↦
        sectors_read-inside left (suc i) next s j (ground (arith, there, low)) (omega (arith, high))
          hj
  ]
    where
      next : ℕ → ℕ
      next = store_words 256 (buffer + i * 256) (word i) memory

-- A drive that does not stay busy, is ready and answers a read from a block below 2 ^ 28, by block
-- addresses, with what it holds, by its channel and number.
pub record Drive (port : Port) (unset : ℕ) (content : (channel slavebit lba word : ℕ) → ℕ)
    : Type 0 where
  pub idle : (log : List Event) (i : ℕ) → port.clears log i ≡ true
  pub ready :
      (log : List Event) (i : ℕ) → ide_polling (port.clears log i) (port.status log i) true ≡ some 0
  pub answers :
      (log : List Event) (channel slavebit n lba capabilities i j : ℕ)
      → lba < 2 ^ 28
      → test_bit capabilities 9 ≡ true
      → i < n
      → j < 256
      → port.data_in
          (log
            ++ setup channel slavebit n
                (command (address lba capabilities).mode 0 0 unset)
                (address lba capabilities))
          i
          j
        ≡ content channel slavebit (lba + i) j

module _ (port : Port) (unset : ℕ) (content : (channel slavebit lba word : ℕ) → ℕ)
    (drive : Drive port unset content) (d : IdeDevice) (lba n buffer : ℕ) (m : IoState) where
  abbrev addressed : Address
  addressed = address lba d.capabilities

  abbrev sent : List Event
  sent = m.log ++ setup d.channel d.drive n (command addressed.mode 0 0 unset) addressed

  abbrev read_in : ℕ → ℕ
  read_in = sectors_read n 0 (port.data_in sent) buffer m.memory

  from_first :
      (k : ℕ)
      → (k < buffer) ⊎ (buffer + n * 256 ≤ k)
      → (k < buffer + 0 * 256) ⊎ (buffer + (0 + n) * 256 ≤ k)
  from_first k (inl h) = inl (omega (arith, h))
  from_first k (inr h) = inr (omega (arith, h))

  read_in-Transferred :
      lba < 2 ^ 28
      → test_bit d.capabilities 9 ≡ true
      → Transferred (content d.channel d.drive) lba buffer n m.memory read_in
  read_in-Transferred small blocks = record {
    inside = λ q j hq hj.
        sectors_read-inside (port.data_in sent) buffer n 0 m.memory q j (omega arith)
          (omega (arith, hq)) hj
        ∙ drive.answers m.log d.channel d.drive n lba d.capabilities q j small blocks hq hj;
    outside =
        λ k h. sectors_read-outside (port.data_in sent) buffer n 0 m.memory k (from_first k h);
  }

  pub access-Served :
      lba < 2 ^ 28
      → test_bit d.capabilities 9 ≡ true
      → Served
          (content d.channel d.drive)
          lba
          buffer
          n
          m.memory
          (ide_ata_access port 0 unset 0 d lba n buffer m)
  unfolding ide_ata_access
  access-Served small blocks =
      let all =
        pio_read-sectors_read n 0 (port.clears sent) (port.status sent) (port.data_in sent) buffer
          m.memory (drive.ready sent) in
      rw (drive.idle (m.log ++ (reg_write d.channel 12 2 ∷ [])) 0, all, ide_ata_access)
        (served (record { log = sent; memory = read_in }) (read_in-Transferred small blocks))
