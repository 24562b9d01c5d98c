-- ===== src/Balloc/Examples.antt =====
-- The theorems about block allocation on a volume of 16 blocks with 8 to a bitmap block, of which
-- the first three of every 8 are taken.
use tux.Base.{ℕ, ◌+◌, ◌/◌, ◌%◌, ◌^◌, ◌≤◌, ◌<◌, ◌≡◌, refl, ap, arith, true, false, some, Option}
use mathlib.Core.Option.{some-injective}
use tux.Base.Memory.{Mem}
use tux.Errno.{ok}
use tux.Bitmap.{all_clear}
use tux.Bitmap.Ranges.{IsBytes}
use tux.Balloc.{Sb, balloc, bfree, update_bitmap, balloc_from_range}
use tux.Balloc.Volume.{IsValid, used}
use tux.Balloc.Alloc.{BallocOutcome, balloc-BallocOutcome}
use tux.Balloc.Free.{BfreeOutcome, bfree-BfreeOutcome}
use tux.Balloc.RoundTrip.{bfree-balloc}
use tux.Balloc.Count.{IsCounted, zeros, balloc-IsCounted, bfree-IsCounted}
use tux.Balloc.Update.{UpdateOutcome, update_bitmap-UpdateOutcome, update_bitmap-¬IsCounted}

abbrev three_taken : Mem
three_taken j = 7

abbrev volume : Sb
volume = record {
  blockbits = 0;
  volblocks = 16;
  freeblocks = 10;
  nextalloc = 1;
  bitmap = λ b. some three_taken;
}

three_taken-IsBytes : (data_ : Mem) → three_taken ≡ data_ → IsBytes data_
three_taken-IsBytes data_ e j = let same : 7 ≡ data_ j = ap (λ (m : Mem). m j) e in omega arith

volume-IsValid : IsValid volume
volume-IsValid = record {
  small = omega arith;
  volume = omega arith;
  goal = omega arith;
  bytes = λ b data_ e. three_taken-IsBytes data_ (some-injective three_taken data_ e);
}

volume-IsCounted : IsCounted volume
unfolding zeros tux.Base.Bits.bit
volume-IsCounted = refl

balloc_two : (balloc volume 2).0 ≡ ok 3
unfolding balloc balloc_from_range
balloc_two = refl

balloc-BallocOutcome_example : BallocOutcome volume 2 (balloc volume 2)
balloc-BallocOutcome_example = balloc-BallocOutcome volume 2 volume-IsValid (omega arith)

balloc_result : balloc volume 2 ≡ (ok 3, (balloc volume 2).1)
unfolding balloc balloc_from_range
balloc_result = refl

bfree-balloc_example :
    ((bfree (balloc volume 2).1 3 2).0 ≡ ok tt)
    × ((i : ℕ) → used (bfree (balloc volume 2).1 3 2).1 i ≡ used volume i)
    × ((bfree (balloc volume 2).1 3 2).1.freeblocks ≡ 10)
bfree-balloc_example =
    bfree-balloc volume (balloc volume 2).1 2 3 volume-IsValid (omega arith) (omega arith)
      balloc_result

balloc-IsCounted_example : IsCounted (balloc volume 2).1
balloc-IsCounted_example = balloc-IsCounted volume 2 volume-IsValid (omega arith) volume-IsCounted

bfree-BfreeOutcome_example : BfreeOutcome volume 8 3 (bfree volume 8 3)
bfree-BfreeOutcome_example =
    bfree-BfreeOutcome volume 8 3 volume-IsValid (omega arith) (omega arith)

bfree-IsCounted_example : IsCounted (bfree volume 8 3).1
bfree-IsCounted_example =
    bfree-IsCounted volume 8 3 volume-IsValid (omega arith) (omega arith) volume-IsCounted

update_bitmap-UpdateOutcome_example :
    UpdateOutcome volume 11 4 true (update_bitmap volume 11 4 true)
update_bitmap-UpdateOutcome_example =
    update_bitmap-UpdateOutcome volume 11 4 volume-IsValid (omega arith) (omega arith) true

update_bitmap_done : (update_bitmap volume 11 4 true).0 ≡ ok tt
unfolding update_bitmap all_clear tux.Bitmap.lmask tux.Bitmap.rmask
update_bitmap_done = refl

update_bitmap-¬IsCounted_example : ¬ IsCounted (update_bitmap volume 11 4 true).1
update_bitmap-¬IsCounted_example =
    update_bitmap-¬IsCounted volume 11 4 volume-IsValid (omega arith) (omega arith) (omega arith)
      volume-IsCounted update_bitmap_done
