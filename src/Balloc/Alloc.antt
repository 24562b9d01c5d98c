-- ===== src/Balloc/Alloc.antt =====
-- What `balloc_from_range` and `balloc` do when they find free blocks, and when they do not.
use tux.Base.{
  ℕ, zero, suc, ◌+◌, ◌-◌, ◌*◌, ◌/◌, ◌%◌, ◌^◌, ◌≤◌, ◌<◌, ◌≡◌, refl, ap, arith, ◌==◌, leb, min,
  Bool-cases, ==_iff, inl, inr, Option, none, some, true, if◌then◌else◌, Option-cases,
}
use tux.Base.Bits.{pow-pos}
use tux.Base.Memory.{Mem}
use tux.Errno.{Result, ok, err, enospc}
use tux.Bitmap.{in_range, set_bits}
use tux.Bitmap.Ranges.{set_bits-IsBytes}
use tux.Balloc.{
  Sb, mapbits, u32, sub64, scan_bytes, take_run, scan_blocks, balloc_from_range, balloc, or_full,
  or_lower,
}
use tux.Balloc.Scan.{IsHit, scan_bytes-Found, no-IsRun}
use tux.Balloc.Volume.{
  IsValid, used, mapbits-pos, mapbits-le, row, column, used-set_block, used_of_block,
  write_block-IsBytes,
}
use native.Mathlib.Nat.{div-add-mod', mod-lt, div-le_self}
use native.Mathlib.Numerals.{towards_suc}

-- `blocks` blocks from `found` on, free before, are allocated between `start` and `limit`.
pub record Allocated (sb sb' : Sb) (start limit blocks found : ℕ) : Type 0 where
  pub low : start ≤ found
  pub high : found + blocks ≤ limit
  pub free : (i : ℕ) → in_range found blocks i ≡ true → used sb i ≡ 0
  pub bits : (i : ℕ) → used sb' i ≡ (if in_range found blocks i then 1 else used sb i)
  pub goal : sb'.nextalloc ≡ found + blocks
  pub left : sb'.freeblocks ≡ sub64 sb.freeblocks blocks
  pub volume : sb'.volblocks ≡ sb.volblocks
  pub size : sb'.blockbits ≡ sb.blockbits
  pub row : found % mapbits sb + blocks ≤ mapbits sb
  pub read : (data_ : Mem) × (sb'.bitmap (found / mapbits sb) ≡ some data_)
  pub valid : IsValid sb'

abbrev pub Outcome : Sb → ℕ → ℕ → ℕ → Option ℕ × Sb → Type 0
Outcome sb start limit blocks (none, sb') = sb' ≡ sb
Outcome sb start limit blocks (some found, sb') = Allocated sb sb' start limit blocks found

pub mapbits-bytes : (sb : Sb) → mapbits sb ≡ 2 ^ sb.blockbits * 8
mapbits-bytes sb = simp towards_suc (omega arith)

-- One round of the loop over bitmap blocks, by what it reads and finds.
module _ (sb : Sb) (rounds mapblock offset startbit tail limit blocks : ℕ) where
  abbrev bytes_here : ℕ
  bytes_here = min (2 ^ sb.blockbits - offset) tail

  abbrev round_result : Option ℕ × Sb
  round_result = scan_blocks (suc rounds) sb mapblock offset startbit tail limit blocks

  scan_blocks-unread : sb.bitmap mapblock ≡ none → round_result ≡ (none, sb)
  unfolding scan_blocks
  scan_blocks-unread read = rw (read, scan_blocks)

  module _ (data_ : Mem) (read : sb.bitmap mapblock ≡ some data_) where
    pub scan_blocks-next :
        scan_bytes bytes_here offset startbit 0 data_ blocks ≡ none
        → round_result
          ≡ scan_blocks rounds sb
              (mapblock + 1)
              0
              (if bytes_here == 0 then startbit else 0)
              (tail - bytes_here)
              limit
              blocks
    unfolding scan_blocks
    scan_blocks-next scan = rw (read, scan_blocks) (rw scan)

    module _ (bit_ : ℕ)
        (scan : scan_bytes bytes_here offset startbit 0 data_ blocks ≡ some bit_) where
      scan_blocks-over : limit ≤ bit_ + u32 (mapblock * mapbits sb) → round_result ≡ (none, sb)
      unfolding scan_blocks
      scan_blocks-over over = rw (read, scan_blocks) (rw scan (ground arith))

      scan_blocks-hit :
          bit_ + u32 (mapblock * mapbits sb) < limit
          → round_result ≡ (
            some (take_run sb mapblock data_ (bit_ + u32 (mapblock * mapbits sb)) blocks).0,
            (take_run sb mapblock data_ (bit_ + u32 (mapblock * mapbits sb)) blocks).1,
          )
      unfolding scan_blocks
      scan_blocks-hit below = rw (read, scan_blocks) (rw scan (ground arith))

module _ (sb : Sb) (valid : IsValid sb) (start limit blocks : ℕ) (some_blocks : 0 < blocks)
    (inside : limit ≤ sb.volblocks) where
  abbrev m : ℕ
  m = mapbits sb

  take_run-Allocated :
      (mapblock low bit_ : ℕ) (data_ : Mem)
      → sb.bitmap mapblock ≡ some data_
      → IsHit data_ blocks low bit_
      → bit_ < m
      → start ≤ mapblock * m + low
      → bit_ + mapblock * m < limit
      → Allocated sb
          (take_run sb mapblock data_ (bit_ + mapblock * m) blocks).1
          start
          limit
          blocks
          (take_run sb mapblock data_ (bit_ + mapblock * m) blocks).0
  unfolding take_run
  take_run-Allocated mapblock low bit_ data_ read h small from upto =
      let f : ℕ = bit_ + 1 - blocks in
      let place : bit_ + mapblock * m - (blocks - 1) ≡ mapblock * m + f = omega (arith, h.room) in
      let at : (mapblock * m + f) % m ≡ f =
        column m (mapbits-pos sb) mapblock f (omega (arith, h.room)) in
      let there : (mapblock * m + f) / m ≡ mapblock =
        row m (mapbits-pos sb) mapblock f (omega (arith, h.room)) in
      let same : (mapblock == mapblock) ≡ true = (==_iff mapblock mapblock).1 refl in
      let fits : f + blocks ≤ m = omega (arith, h.room) in
      rw (place, at)
        (record {
          low = omega (arith, h.room);
          high = omega (arith, h.room);
          free = λ i p.
              used_of_block sb mapblock data_ f blocks 0 i read fits
                (λ r q. h.free r (ground arith) (ground (arith, h.room))) p;
          bits = λ i. used-set_block sb mapblock data_ f blocks i valid read fits;
          goal = refl;
          left = refl;
          volume = refl;
          size = refl;
          row = rw at fits;
          read = (set_bits data_ f blocks, rw there (rw same));
          valid = record {
            small = valid.small;
            volume = valid.volume;
            goal = omega (arith, h.room);
            bytes =
                write_block-IsBytes sb.bitmap mapblock (set_bits data_ f blocks) valid.bytes
                  (set_bits-IsBytes data_ f blocks (valid.bytes mapblock data_ read));
          };
        })

  scan_blocks-Outcome :
      (rounds mapblock offset startbit tail : ℕ)
      → startbit < 8
      → offset < 2 ^ sb.blockbits
      → (mapblock + rounds) * m ≤ 2 ^ 32
      → start ≤ mapblock * m + (offset * 8 + startbit)
      → Outcome sb start limit blocks
          (scan_blocks rounds sb mapblock offset startbit tail limit blocks)
  scan_blocks-Outcome zero mapblock offset startbit tail l o top from = unfold scan_blocks in refl
  scan_blocks-Outcome (suc rounds) mapblock offset startbit tail l o top from =
      elim (Option-cases (sb.bitmap mapblock)) [
        | inl unread ↦
            rw (scan_blocks-unread sb rounds mapblock offset startbit tail limit blocks unread) refl
        | inr (data_, read) ↦
            elim (Option-cases (scan_bytes bytes offset startbit 0 data_ blocks)) [
              | inl nothing ↦
                  rw
                    (scan_blocks-next sb rounds mapblock offset startbit tail limit blocks data_
                      read nothing)
                    (scan_blocks-Outcome rounds (mapblock + 1) 0
                      (if bytes == 0 then startbit else 0) (tail - bytes) (ground arith)
                      (pow-pos sb.blockbits) (omega arith) (ground (arith, mapbits-bytes sb)))
              | inr (bit_, scan) ↦
                  let (small, h) = found data_ bit_ scan in
                  let wide : u32 (mapblock * m) ≡ mapblock * m = omega (arith, mapbits-pos sb) in
                  let at : bit_ + u32 (mapblock * m) ≡ bit_ + mapblock * m = omega arith in
                  elim (Bool-cases (leb limit (bit_ + u32 (mapblock * m)))) [
                    | inl over ↦
                        rw
                          (scan_blocks-over sb rounds mapblock offset startbit tail limit blocks
                            data_ read bit_ scan (ground arith))
                          refl
                    | inr below ↦
                        rw
                          (
                            scan_blocks-hit sb rounds mapblock offset startbit tail limit blocks
                                data_ read bit_ scan (ground arith),
                            wide,
                          )
                          (take_run-Allocated mapblock (offset * 8 + startbit) bit_ data_ read h
                            (omega (arith, mapbits-bytes sb)) from (ground arith))
                  ]
            ]
      ]
    where
      bytes : ℕ
      bytes = min (2 ^ sb.blockbits - offset) tail

      found :
          (data_ : Mem) (bit_ : ℕ)
          → scan_bytes bytes offset startbit 0 data_ blocks ≡ some bit_
          → (bit_ < (offset + bytes) * 8) × IsHit data_ blocks (offset * 8 + startbit) bit_
      found data_ bit_ scan = rw scan at (
          scan_bytes-Found data_ blocks (offset * 8 + startbit) some_blocks bytes offset startbit 0
            l (no-IsRun data_ blocks (offset * 8 + startbit) _ some_blocks (omega arith)))

  -- The rows that the loop visits end below 2^32.
  rows_fit : (a b : ℕ) → a * m ≤ 2 ^ 32 → b * m ≤ 2 ^ 32 → (a + (b - a)) * m ≤ 2 ^ 32
  rows_fit a b p q = elim (Bool-cases (leb a b)) [
    | inl e ↦ let f : a + (b - a) ≡ b = ground arith in rw f q
    | inr e ↦ let f : a + (b - a) ≡ a = ground arith in rw f p
  ]

pub balloc_from_range-Outcome :
    (sb : Sb) (start count blocks : ℕ)
    → IsValid sb
    → 0 < blocks
    → start + count ≤ sb.volblocks
    → Outcome sb start (start + count) blocks (balloc_from_range sb start count blocks)
unfolding balloc_from_range
balloc_from_range-Outcome sb start count blocks valid some_blocks inside =
    let low : u32 (start / mapbits sb) ≡ start / mapbits sb =
      omega (arith, div-le_self start (mapbits sb), valid.volume) in
    let last : ℕ = (start + count + (mapbits sb - 1)) / mapbits sb in
    let high : u32 last ≡ last = omega (
      arith,
      div-le_self (start + count + (mapbits sb - 1)) (mapbits sb),
      valid.volume,
      mapbits-le sb valid.small,
    ) in
    rw (low, high)
      (scan_blocks-Outcome sb valid start (start + count) blocks some_blocks inside
        (last - start / mapbits sb) (start / mapbits sb) (start % mapbits sb / 8) (start % 8) _
        (omega arith) (omega (arith, mod-lt start (mapbits-pos sb), mapbits-bytes sb))
        (rows_fit sb valid start (start + count) blocks some_blocks inside (start / mapbits sb) last
          (omega (arith, div-add-mod' start (mapbits sb), valid.volume))
          (omega (
            arith,
            div-add-mod' (start + count + (mapbits sb - 1)) (mapbits sb),
            valid.volume,
            mapbits-le sb valid.small,
          )))
        (omega (
          arith,
          div-add-mod' start (mapbits sb),
          mapbits-bytes sb,
          ap (λ (t : ℕ). start / mapbits sb * t) (mapbits-bytes sb),
        )))

-- What `balloc` may return: blocks of the volume that were free and are now allocated, or ENOSPC with
-- nothing changed.
abbrev pub BallocOutcome : Sb → ℕ → Result ℕ × Sb → Type 0
BallocOutcome sb blocks (ok found, sb') = Allocated sb sb' 0 sb.volblocks blocks found
BallocOutcome sb blocks (err e, sb') = (e ≡ enospc) × (sb' ≡ sb)

module _ (sb : Sb) (blocks : ℕ) (valid : IsValid sb) (some_blocks : 0 < blocks) where
  widen :
      (sb' : Sb) (start limit found : ℕ)
      → limit ≤ sb.volblocks
      → Allocated sb sb' start limit blocks found
      → Allocated sb sb' 0 sb.volblocks blocks found
  widen sb' start limit found inside a = record {
    low = omega arith;
    high = omega (arith, a.high);
    free = a.free;
    bits = a.bits;
    goal = a.goal;
    left = a.left;
    volume = a.volume;
    size = a.size;
    row = a.row;
    read = a.read;
    valid = a.valid;
  }

  or_full-BallocOutcome :
      (limit : ℕ) (p : Option ℕ × Sb)
      → limit ≤ sb.volblocks
      → Outcome sb 0 limit blocks p
      → BallocOutcome sb blocks (or_full p)
  unfolding or_full
  or_full-BallocOutcome limit (none, sb') inside e = (refl, e)
  or_full-BallocOutcome limit (some found, sb') inside a = widen sb' 0 limit found inside a

  or_lower-BallocOutcome :
      (limit : ℕ) (p : Option ℕ × Sb)
      → limit ≤ sb.volblocks
      → Outcome sb sb.nextalloc limit blocks p
      → BallocOutcome sb blocks (or_lower sb.nextalloc blocks p)
  unfolding or_lower
  or_lower-BallocOutcome limit (none, sb1) inside e =
      let whole : u32 sb.nextalloc ≡ sb.nextalloc = omega (arith, valid.goal, valid.volume) in
      rw (e, whole)
        (or_full-BallocOutcome (0 + sb.nextalloc) (balloc_from_range sb 0 sb.nextalloc blocks)
          (omega (arith, valid.goal))
          (balloc_from_range-Outcome sb 0 sb.nextalloc blocks valid some_blocks
            (omega (arith, valid.goal))))
  or_lower-BallocOutcome limit (some found, sb') inside a =
      widen sb' sb.nextalloc limit found inside a

-- On a valid volume a `balloc` of at least one block either returns blocks of the volume that were
-- free, marks exactly those in the bitmap, takes their number from `freeblocks`, moves the goal
-- behind them and leaves a valid volume, or returns ENOSPC and changes nothing.
pub balloc-BallocOutcome :
    (sb : Sb) (blocks : ℕ) → IsValid sb → 0 < blocks → BallocOutcome sb blocks (balloc sb blocks)
unfolding balloc
balloc-BallocOutcome sb blocks valid some_blocks =
    let above : u32 (sub64 sb.volblocks sb.nextalloc) ≡ sb.volblocks - sb.nextalloc =
      omega (arith, valid.goal, valid.volume) in
    let whole : sb.nextalloc + (sb.volblocks - sb.nextalloc) ≤ sb.volblocks =
      omega (arith, valid.goal) in
    rw above (
      or_lower-BallocOutcome sb blocks valid some_blocks _ _ whole (
        balloc_from_range-Outcome sb sb.nextalloc (sb.volblocks - sb.nextalloc) blocks valid
          some_blocks whole))
