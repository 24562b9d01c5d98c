-- ===== src/Balloc/Count.antt =====
-- `freeblocks` counts the blocks of the volume whose bit is 0.
use tux.Base.{ℕ, zero, suc, ◌+◌, ◌-◌, ◌%◌, ◌≤◌, ◌<◌, ◌≡◌, arith, true, min, if◌then◌else◌}
use tux.Errno.{Result, ok, err}
use tux.Bitmap.{in_range}
use tux.Balloc.{Sb, balloc, bfree, mapbits}
use tux.Balloc.Alloc.{BallocOutcome, balloc-BallocOutcome}
use tux.Balloc.Free.{BfreeOutcome, bfree-BfreeOutcome}
use tux.Balloc.Volume.{IsValid, used}

-- How many of the first `n` bits are 0.
unfoldable pub zeros : ℕ → (ℕ → ℕ) → ℕ
zeros zero bits = 0
zeros (suc n) bits = zeros n bits + (1 - bits n)

-- The superblock's count is that of the bitmap.
abbrev pub IsCounted : Sb → Type 0
IsCounted sb = sb.freeblocks ≡ zeros sb.volblocks (used sb)

pub zeros-le : (n : ℕ) (bits : ℕ → ℕ) → zeros n bits ≤ n
unfolding zeros
zeros-le zero bits = omega arith
zeros-le (suc n) bits = omega (arith, zeros-le n bits)

-- A range of 0 bits becomes 1.
pub zeros_set :
    (n : ℕ) (old new : ℕ → ℕ) (found count : ℕ)
    → ((i : ℕ) → in_range found count i ≡ true → old i ≡ 0)
    → ((i : ℕ) → new i ≡ (if in_range found count i then 1 else old i))
    → zeros n old ≡ zeros n new + (min n (found + count) - min n found)
unfolding zeros
zeros_set zero old new found count free bits = omega arith
zeros_set (suc n) old new found count free bits =
    ground (arith, zeros_set n old new found count free bits, free n, bits n)

-- The same count, where the bits that change are seen from the other side.
zeros_clear :
    (n : ℕ) (old new : ℕ → ℕ) (found count : ℕ)
    → ((i : ℕ) → in_range found count i ≡ true → old i ≡ 1)
    → ((i : ℕ) → new i ≡ (if in_range found count i then 0 else old i))
    → zeros n new ≡ zeros n old + (min n (found + count) - min n found)
unfolding zeros
zeros_clear zero old new found count free bits = omega arith
zeros_clear (suc n) old new found count free bits =
    ground (arith, zeros_clear n old new found count free bits, free n, bits n)

Allocated-IsCounted :
    (sb : Sb) (blocks : ℕ) (p : Result ℕ × Sb)
    → IsValid sb
    → IsCounted sb
    → BallocOutcome sb blocks p
    → IsCounted p.1
Allocated-IsCounted sb blocks (err e, sb') valid counted (_, same) = rw same counted
Allocated-IsCounted sb blocks (ok found, sb') valid counted a =
    let change : zeros sb.volblocks (used sb)
        ≡ zeros sb.volblocks (used sb')
          + (min sb.volblocks (found + blocks) - min sb.volblocks found) =
      zeros_set sb.volblocks (used sb) (used sb') found blocks a.free a.bits in
    let total : sb'.freeblocks ≡ zeros sb.volblocks (used sb') =
      omega
        (arith, a.left, a.high, change, counted, zeros-le sb.volblocks (used sb), valid.volume) in
    rw a.volume total

-- On a valid volume `balloc` keeps `freeblocks` equal to the number of 0 bits in the bitmap.
pub balloc-IsCounted :
    (sb : Sb) (blocks : ℕ) → IsValid sb → 0 < blocks → IsCounted sb → IsCounted (balloc sb blocks).1
balloc-IsCounted sb blocks valid some_blocks counted =
    Allocated-IsCounted sb blocks (balloc sb blocks) valid counted
      (balloc-BallocOutcome sb blocks valid some_blocks)

Freed-IsCounted :
    (sb : Sb) (start blocks : ℕ) (p : Result (Unit {0}) × Sb)
    → IsValid sb
    → start + blocks ≤ sb.volblocks
    → IsCounted sb
    → BfreeOutcome sb start blocks p
    → IsCounted p.1
Freed-IsCounted sb start blocks (err e, sb') valid inside counted (_, same, _) = rw same counted
Freed-IsCounted sb start blocks (ok u, sb') valid inside counted f =
    let change : zeros sb.volblocks (used sb')
        ≡ zeros sb.volblocks (used sb)
          + (min sb.volblocks (start + blocks) - min sb.volblocks start) =
      zeros_clear sb.volblocks (used sb) (used sb') start blocks f.allocated f.bits in
    let total : sb'.freeblocks ≡ zeros sb.volblocks (used sb') =
      omega (arith, f.left, change, counted, zeros-le sb.volblocks (used sb'), valid.volume) in
    rw f.volume total

-- On a valid volume `bfree` of a range of the volume in one bitmap block keeps `freeblocks` equal to
-- the number of 0 bits in the bitmap.
pub bfree-IsCounted :
    (sb : Sb) (start blocks : ℕ)
    → IsValid sb
    → start + blocks ≤ sb.volblocks
    → start % mapbits sb + blocks ≤ mapbits sb
    → IsCounted sb
    → IsCounted (bfree sb start blocks).1
bfree-IsCounted sb start blocks valid inside one_row counted =
    Freed-IsCounted sb start blocks (bfree sb start blocks) valid inside counted
      (bfree-BfreeOutcome sb start blocks valid inside one_row)
