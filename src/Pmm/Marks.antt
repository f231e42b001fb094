-- ===== src/Pmm/Marks.antt =====
-- The bitmap of pmm.c as a set of page indices: each bit operation changes one page alone.
use vsnx_os.Base.{
  ℕ, ◌/◌, ◌%◌, ◌<◌, ◌≡◌, inl, inr, true, false, arith, ◌==◌, if◌then◌else◌, Bool-cases, fun_ext,
}
use vsnx_os.Base.Bits.{
  test_bit-set_bit, test_bit-clear_bit, set_bit-lt, clear_bit-lt, clear_bit-set_bit,
}
use vsnx_os.Pmm.{PmmInfo, is_used, mark, unmark, take_page, release_page}

-- Every element of the bitmap is a `uint8_t`.
abbrev pub IsBytes : PmmInfo → Type 0
IsBytes p = (i : ℕ) → p.bitmap i < 256

-- A page index is its byte and its bit.
same_page : (i j : ℕ) → (j / 8 ≡ i / 8) → (i % 8 == j % 8) ≡ (i == j)
same_page i j e = ground arith

other_byte : (i j : ℕ) → (j / 8 == i / 8) ≡ false → (i == j) ≡ false
other_byte i j e = ground arith

module _ (p : PmmInfo) (bytes : IsBytes p) (i : ℕ) where
  pub is_used-mark : (j : ℕ) → is_used (mark p i) j ≡ (if i == j then true else is_used p j)
  unfolding is_used mark
  is_used-mark j = elim (Bool-cases (j / 8 == i / 8)) [
    | inl e ↦ ground (
      arith,
      same_page i j,
      test_bit-set_bit (p.bitmap (i / 8)) (i % 8) (bytes (i / 8)) (omega arith) (j % 8),
    )
    | inr e ↦ rw (e, other_byte i j e)
  ]

  pub is_used-unmark : (j : ℕ) → is_used (unmark p i) j ≡ (if i == j then false else is_used p j)
  unfolding is_used unmark
  is_used-unmark j = elim (Bool-cases (j / 8 == i / 8)) [
    | inl e ↦ ground (
      arith,
      same_page i j,
      test_bit-clear_bit (p.bitmap (i / 8)) (i % 8) (bytes (i / 8)) (omega arith) (j % 8),
    )
    | inr e ↦ rw (e, other_byte i j e)
  ]

  pub mark-IsBytes : IsBytes (mark p i)
  unfolding mark
  mark-IsBytes j =
      ground (arith, bytes j, set_bit-lt (p.bitmap (i / 8)) (i % 8) (bytes (i / 8)) (omega arith))

  pub unmark-IsBytes : IsBytes (unmark p i)
  unfolding unmark
  unmark-IsBytes j =
      ground (arith, bytes j, clear_bit-lt (p.bitmap (i / 8)) (i % 8) (bytes (i / 8)) (omega arith))

  -- Marking a free page and unmarking it restores every byte.
  pub unmark-mark : is_used p i ≡ false → (unmark (mark p i) i).bitmap ≡ p.bitmap
  unfolding is_used mark unmark
  unmark-mark free = fun_ext λ j.
      ground
        (arith, clear_bit-set_bit (p.bitmap (i / 8)) (i % 8) (bytes (i / 8)) (omega arith) free)

  pub is_used-take_page :
      (j : ℕ) → is_used (take_page p i) j ≡ (if i == j then true else is_used p j)
  unfolding is_used take_page
  is_used-take_page j = is_used-mark j

  pub is_used-release_page :
      (j : ℕ) → is_used (release_page p i) j ≡ (if i == j then false else is_used p j)
  unfolding is_used release_page
  is_used-release_page j = is_used-unmark j
