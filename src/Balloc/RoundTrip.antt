-- ===== src/Balloc/RoundTrip.antt =====
-- `bfree` takes back what `balloc` gave.
use tux.Base.{
  ℕ, ◌+◌, ◌/◌, ◌^◌, ◌≤◌, ◌<◌, ◌≡◌, refl, ap, sym, ◌∙◌, arith, true, Bool-cases, inl, inr,
}
use tux.Errno.{Result, ok, err}
use tux.Bitmap.{in_range}
use tux.Balloc.{Sb, mapbits, balloc, bfree}
use tux.Balloc.Alloc.{Allocated, balloc-BallocOutcome}
use tux.Balloc.Free.{BfreeOutcome, bfree-BfreeOutcome}
use tux.Balloc.Volume.{IsValid, used}

module _ (sb sb' : Sb) (blocks found : ℕ) (inside : found + blocks ≤ sb.volblocks)
    (a : Allocated sb sb' 0 sb.volblocks blocks found) where
  used_after : (i : ℕ) → in_range found blocks i ≡ true → used sb' i ≡ 1
  used_after i p = a.bits i ∙ rw p

  -- What holds of a `bfree` of the same blocks.
  abbrev Restores : Result (Unit {0}) × Sb → Type 0
  Restores p = (p.0 ≡ ok tt) × ((i : ℕ) → used p.1 i ≡ used sb i) × (p.1.freeblocks ≡ sb.freeblocks)

  bfree-Restores :
      (p : Result (Unit {0}) × Sb)
      → sb.freeblocks < 2 ^ 64
      → blocks < 2 ^ 64
      → BfreeOutcome sb' found blocks p
      → Restores p
  bfree-Restores (ok u, sb2) small few f = (
    refl,
    λ i. elim (Bool-cases (in_range found blocks i)) [
      | inl p ↦ (f.bits i ∙ rw p) ∙ sym (a.free i p)
      | inr p ↦ (f.bits i ∙ rw p) ∙ (a.bits i ∙ rw p)
    ],
    omega (arith, f.left, a.left),
  )
  bfree-Restores (err e, sb2) small few (_, _, unread) =
      let (data_, read) = a.read in
      let size : mapbits sb' ≡ mapbits sb = rw a.size in
      cc (read, unread used_after, ap (λ (m : ℕ). sb'.bitmap (found / m)) size)

-- On a valid volume, `bfree` of the blocks that a `balloc` just returned succeeds and restores every
-- bit of the bitmap and the count of free blocks.
pub bfree-balloc :
    (sb sb' : Sb) (blocks found : ℕ)
    → IsValid sb
    → 0 < blocks
    → sb.freeblocks < 2 ^ 64
    → balloc sb blocks ≡ (ok found, sb')
    → ((bfree sb' found blocks).0 ≡ ok tt)
      × ((i : ℕ) → used (bfree sb' found blocks).1 i ≡ used sb i)
      × ((bfree sb' found blocks).1.freeblocks ≡ sb.freeblocks)
bfree-balloc sb sb' blocks found valid some_blocks small e =
    let a : Allocated sb sb' 0 sb.volblocks blocks found =
      rw e at (balloc-BallocOutcome sb blocks valid some_blocks) in
    let size : mapbits sb' ≡ mapbits sb = rw a.size in
    bfree-Restores sb sb' blocks found a.high a (bfree sb' found blocks) small
      (omega (arith, a.high, valid.volume))
      (bfree-BfreeOutcome sb' found blocks a.valid (omega (arith, a.high, a.volume))
        (rw size a.row))
