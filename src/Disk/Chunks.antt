-- ===== src/Disk/Chunks.antt =====
-- disk_read of os/kernel/hal/io/disk/disk.c on an ATA drive: which sectors its calls of the driver
-- bring into memory.
use vsnx_os.Base.{
  ℕ, zero, suc, ◌+◌, ◌-◌, ◌*◌, ◌/◌, ◌%◌, ◌^◌, ◌≤◌, ◌<◌, ◌≡◌, refl, ◌⊎◌, inl, inr, true, false,
  Bool-cases, ltb, arith, Option, none, some, ℤ, pos, negsuc, subst, sym, ap, ◌∙◌, add64, u32_mod,
}
use vsnx_os.Disk.Ide.{IoState}
use vsnx_os.Disk.Transfer.{chunk, sector_loop}
use vsnx_os.Disk.Served.{Transferred, Served, served}

-- The sectors in front of the last `count % 256`, which no call of the driver brings.
abbrev pub skipped : ℕ → ℕ
skipped count = count - count % 256

-- A read that reports success has brought the last `count % 256` sectors and no others.
pub data LastRead (content : ℕ → ℕ → ℕ) (lba count buffer : ℕ) (before : ℕ → ℕ)
    : Option (ℤ × IoState) → Type 0 where
  last_read :
      (m : IoState)
      → Transferred content
          (lba + skipped count)
          (buffer + skipped count * 256)
          (count % 256)
          before
          m.memory
      → LastRead content lba count buffer before (some (pos 0, m))

LastRead-same :
    {content : ℕ → ℕ → ℕ} {lba count buffer : ℕ} {b b' : ℕ → ℕ} {r : Option (ℤ × IoState)}
    → ((k : ℕ) → b k ≡ b' k)
    → LastRead content lba count buffer b r
    → LastRead content lba count buffer b' r
LastRead-same same (last_read m t) =
    last_read m (record { inside = t.inside; outside = λ k h. t.outside k h ∙ same k })

module _ (content : ℕ → ℕ → ℕ) (driver : (lba numsects buffer : ℕ) → IoState → Option (ℕ × IoState))
    (works : (l n b : ℕ) (m : IoState)
      → l < 2 ^ 28
      → Served content l b n m.memory (driver l n b m))
    (count lba buffer : ℕ) (in_range : lba + count ≤ 2 ^ 28) (fits : count < 2 ^ 23) where
  abbrev bring : (done : ℕ) → IoState → Option (ℕ × IoState)
  bring done m =
      driver (add64 lba done % u32_mod) (chunk (count - done) % 256)
        (buffer + ((done * 512) % u32_mod) / 2) m

  bring-Served :
      (done q : ℕ) (m : IoState)
      → done < count
      → chunk (count - done) % 256 ≡ q
      → Served content (lba + done) (buffer + done * 256) q m.memory (bring done m)
  bring-Served done q m h e =
      let at_lba : add64 lba done % u32_mod ≡ lba + done = omega (arith, h, in_range) in
      let at_buffer : buffer + ((done * 512) % u32_mod) / 2 ≡ buffer + done * 256 =
        omega (arith, h, fits) in
      rw (at_lba, at_buffer, e)
        (works (lba + done) q (buffer + done * 256) m (omega (arith, h, in_range)))

  -- One round, by what the driver returns.
  round :
      (n done q : ℕ) (before : ℕ → ℕ) {r : Option (ℕ × IoState)} {l b : ℕ}
      → Served content l b q before r
      → ((m : IoState)
          → Transferred content l b q before m.memory
          → LastRead content lba count buffer before
              (sector_loop n driver (done + chunk (count - done)) count lba buffer m))
      → LastRead content lba count buffer before (elim r [
        | none ↦ none
        | some (suc err, m') ↦ some (negsuc 3, m')
        | some (zero, m') ↦ sector_loop n driver (done + chunk (count - done)) count lba buffer m'
      ])
  round n done q before (served m t) next = next m t

  loop-end :
      (n done : ℕ) (m : IoState)
      → count ≤ done
      → sector_loop (suc n) driver done count lba buffer m ≡ some (pos 0, m)
  unfolding sector_loop
  loop-end n done m h =
      let stop : ltb done count ≡ false = ground (arith, h) in rw (stop, sector_loop) refl

  -- A call for 256 sectors brings none.
  full-chunk : (done : ℕ) → done < skipped count → done % 256 ≡ 0 → chunk (count - done) ≡ 256
  full-chunk done h whole = elim (Bool-cases (ltb 256 (count - done))) [
    | inl more ↦ rw more refl
    | inr last ↦ rw last (ground (arith, last, h, whole))
  ]

  last-chunk : (done : ℕ) → done ≡ skipped count → chunk (count - done) ≡ count % 256
  last-chunk done e = elim (Bool-cases (ltb 256 (count - done))) [
    | inl more ↦ absurd (ground (arith, more, e))
    | inr last ↦ rw last (omega (arith, e))
  ]

  loop-last :
      (n done : ℕ) (m : IoState)
      → count - done < suc n
      → done < count
      → done ≡ skipped count
      → LastRead content lba count buffer m.memory
          (sector_loop (suc n) driver done count lba buffer m)
  unfolding sector_loop
  loop-last zero done m fuel h e = absurd (omega (arith, fuel, h))
  loop-last (suc n) done m fuel h e =
      let size = last-chunk done e in
      let go : ltb done count ≡ true = ground (arith, h) in
      rw (go, sector_loop)
        (round (suc n) done (count % 256) m.memory
          (bring-Served done (count % 256) m h (ap (λ c. c % 256) size ∙ omega arith))
          (λ m' t.
            subst (LastRead content lba count buffer m.memory)
              (sym (loop-end n (done + chunk (count - done)) m' (omega (arith, size, e))))
              (last_read m' (
                subst
                  (λ s.
                    Transferred content (lba + s) (buffer + s * 256) (count % 256) m.memory
                      m'.memory)
                  e t))))

  pub loop-LastRead :
      (n done : ℕ) (m : IoState)
      → count - done < n
      → done ≤ skipped count
      → done % 256 ≡ 0
      → LastRead content lba count buffer m.memory (sector_loop n driver done count lba buffer m)
  unfolding sector_loop
  loop-LastRead zero done m fuel low whole = absurd (omega (arith, fuel))
  loop-LastRead (suc n) done m fuel low whole = elim (Bool-cases (ltb done count)) [
    | inr stop ↦
        rw (stop, sector_loop)
          (last_read m (record {
            inside = λ q j hq hj. absurd (ground (arith, stop, low, hq));
            outside = λ k h. refl;
          }))
    | inl go ↦ elim (Bool-cases (ltb done (skipped count))) [
      | inr last ↦ loop-last n done m fuel (ground (arith, go)) (ground (arith, last, low))
      | inl more ↦
          let size = full-chunk done (ground (arith, more)) whole in
          let left : done < count = ground (arith, go) in
          rw (go, sector_loop)
            (round n done 0 m.memory (bring-Served done 0 m left (ap (λ c. c % 256) size)) (λ m' t.
              LastRead-same (λ k. t.outside k (either_side k (buffer + done * 256)))
                (loop-LastRead n (done + chunk (count - done)) m' (omega (arith, size, fuel, left))
                  (ground (arith, size, more, whole)) (omega (arith, size, whole)))))
    ]
  ]
    where
      either_side : (k b : ℕ) → (k < b) ⊎ (b + 0 * 256 ≤ k)
      either_side k b = elim (Bool-cases (ltb k b)) [
        | inl h ↦ inl (ground (arith, h))
        | inr h ↦ inr (ground (arith, h))
      ]
