-- ===== src/Disk/Packing.antt =====
-- Where ide_detect_drives of os/kernel/hal/io/disk/ideata.c puts the drives, and where disk_read of
-- disk.c looks for them.
use vsnx_os.Base.{ℕ, suc, ◌+◌, ◌*◌, ◌≤◌, ◌<◌, ◌≡◌, refl, ◌==◌, Bool-cases, inl, inr, arith, ==-ne}
use vsnx_os.Disk.{IdeDevice}
use vsnx_os.Disk.Detect.{
  Probe, Found, set_device, drive_found, detect_at, wait_error, is_atapi, ide_detect_drives,
}

-- A device of the table, by the places that were searched so far.
pub record Placed (searched k : ℕ) (d : IdeDevice) : Type 0 where
  pub exists : d.reserved ≡ 1
  pub not_before : k ≤ d.channel * 2 + d.drive
  pub place : d.channel * 2 + d.drive < searched

-- The devices found stand first in the table, each not before the place it was found at.
pub record Packed (searched : ℕ) (f : Found) : Type 0 where
  pub bound : f.count ≤ searched
  pub placed : (k : ℕ) → k < f.count → Placed searched k (f.devices k)
  pub rest : (k : ℕ) → f.count ≤ k → (f.devices k).reserved ≡ 0

Packed-cleared :
    {n : ℕ} {f : Found}
    → Packed n f
    → Packed (suc n) (record f {
      devices = set_device f.devices f.count (record (f.devices f.count) { reserved = 0 });
    })
Packed-cleared {n} {f} p = record {
  bound = let b = p.bound in omega arith;
  placed = λ k h. rw (==-ne k f.count (λ e. omega (arith, e, h))) (wider (p.placed k h));
  rest = λ k h. elim (Bool-cases (k == f.count)) [
    | inl here ↦ rw here refl
    | inr there ↦ rw there (p.rest k h)
  ];
}
  where
    wider : {k : ℕ} {d : IdeDevice} → Placed n k d → Placed (suc n) k d
    wider x = record {
      exists = x.exists;
      not_before = x.not_before;
      place = let h = x.place in omega arith;
    }

Packed-found :
    {n : ℕ} (i j type : ℕ) (p : Probe) {f : Found}
    → i * 2 + j ≡ n
    → f.count ≤ n
    → Packed (suc n) f
    → Packed (suc n) (drive_found i j type p f)
unfolding drive_found
Packed-found {n} i j type p {f} e room x = record {
  bound = omega arith;
  placed = λ k h. elim (Bool-cases (k == f.count)) [
    | inl here ↦
        rw here (record {
          exists = refl;
          not_before = ground (arith, here, e, room);
          place = omega arith;
        })
    | inr there ↦ rw there (x.placed k (ground (arith, there, h)))
  ];
  rest = λ k h. rw (==-ne k f.count (λ d. omega (arith, d, h))) (x.rest k (omega (arith, h)));
}

detect_at-Packed :
    {n : ℕ} (i j : ℕ) (p : Probe) {f : Found}
    → i * 2 + j ≡ n
    → Packed n f
    → Packed (suc n) (detect_at i j p f)
unfolding detect_at
detect_at-Packed {n} i j p {f} e x = elim (Bool-cases (p.first_status == 0)) [
  | inl absent ↦ rw (absent, detect_at) (Packed-cleared x)
  | inr answers ↦ elim (Bool-cases (wait_error 10000 0 p.statuses)) [
    | inr ready ↦ rw (answers, ready, detect_at) (Packed-found i j 0 p e x.bound (Packed-cleared x))
    | inl error ↦ elim (Bool-cases (is_atapi p)) [
      | inl packet ↦
          rw (answers, error, packet, detect_at) (Packed-found i j 1 p e x.bound (Packed-cleared x))
      | inr other ↦ rw (answers, error, other, detect_at) (Packed-cleared x)
    ]
  ]
]

-- Where no device is marked at the start, `ide_detect_drives` marks those it finds from the start of
-- the table on without a gap, and none behind; a drive stands there at an index of at most two times
-- its channel plus its number.
pub detect_drives-Packed :
    (probe : (i j : ℕ) → Probe) (devices : ℕ → IdeDevice)
    → ((k : ℕ) → (devices k).reserved ≡ 0)
    → Packed 4 (ide_detect_drives probe devices)
unfolding ide_detect_drives
detect_drives-Packed probe devices empty = detect_at-Packed 1 1 (probe 1 1) refl (
    detect_at-Packed 1 0 (probe 1 0) refl (
      detect_at-Packed 0 1 (probe 0 1) refl (
        detect_at-Packed 0 0 (probe 0 0) refl (record {
          bound = omega arith;
          placed = λ k h. absurd (omega (arith, h));
          rest = λ k h. empty k;
        }))))
