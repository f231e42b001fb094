-- ===== src/Console/Scroll.antt =====
-- What the loops of the console leave at every place of the screen.
use vsnx_os.Base.{ℕ, zero, suc, ◌+◌, ◌*◌, ◌≤◌, ◌≡◌, ◌&&◌, ltb, leb, if◌then◌else◌, arith}
use vsnx_os.Console.{put_entry, scroll_row, scroll_rows, fill}

pub fill-at :
    (entry left i : ℕ) (buf : ℕ → ℕ) (j : ℕ)
    → fill entry left i buf j ≡ (if leb i j && ltb j (i + left) then entry else buf j)
unfolding fill
fill-at entry zero i buf j = ground arith
fill-at entry (suc left) i buf j =
    ground (arith, fill-at entry left (i + 1) (put_entry buf i entry) j)

scroll_row-at :
    (y left x : ℕ) (buf : ℕ → ℕ) (j : ℕ)
    → x + left ≤ 80
    → scroll_row y left x buf j
      ≡ (if leb (y * 80 + x) j && ltb j (y * 80 + x + left) then buf (j + 80) else buf j)
unfolding scroll_row
scroll_row-at y zero x buf j h = ground arith
scroll_row-at y (suc left) x buf j h =
    let next = put_entry buf (y * 80 + x) (buf ((y + 1) * 80 + x)) in
    grind (arith, scroll_row-at y left (x + 1) next j (omega arith))

pub scroll_rows-at :
    (left y : ℕ) (buf : ℕ → ℕ) (j : ℕ)
    → scroll_rows left y buf j
      ≡ (if leb (y * 80) j && ltb j (y * 80 + left * 80) then buf (j + 80) else buf j)
unfolding scroll_rows
scroll_rows-at zero y buf j = ground arith
scroll_rows-at (suc left) y buf j =
    let next = scroll_row y 80 0 buf in
    grind (
      arith,
      scroll_rows-at left (y + 1) next j,
      scroll_row-at y 80 0 buf j (omega arith),
      scroll_row-at y 80 0 buf (j + 80) (omega arith),
    )
