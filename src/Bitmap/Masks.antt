-- ===== src/Bitmap/Masks.antt =====
-- The bits of the two masks and of their complements, each from a table.
use tux.Base.{
  ℕ, ◌+◌, ◌*◌, ◌/◌, ◌%◌, ◌<◌, ◌≡◌, refl, arith, true, if◌then◌else◌, leb, ltb, ◌==◌, ==_iff, not,
  ◌&&◌,
}
use tux.Base.Bits.{bit, all_below, all_below_sound}
use tux.Bitmap.{lmask, rmask, not32}

-- A mask depends on its argument modulo 8 only, so 64 cases cover all bits of all masks.
module _ (mask : ℕ → ℕ) (expected : ℕ → ℕ → ℕ) where
  abbrev MaskTable : Type 0
  MaskTable = all_below 64 (λ n. bit (mask (n / 8)) (n % 8) == expected (n / 8) (n % 8)) ≡ true

  mask_bits : MaskTable → (s k : ℕ) → s < 8 → k < 8 → bit (mask s) k ≡ expected s k
  mask_bits table s k p q =
      let e : (s * 8 + k) / 8 ≡ s = omega arith in
      let f : (s * 8 + k) % 8 ≡ k = omega arith in
      rw (e, f) at ((==_iff _ _).0 (all_below_sound 64 _ (s * 8 + k) table (omega arith)))

lmask-mod : (s : ℕ) → lmask s ≡ lmask (s % 8)
unfolding lmask
lmask-mod s = let e : s % 8 % 8 ≡ s % 8 = omega arith in rw e

rmask-mod : (s : ℕ) → rmask s ≡ rmask (s % 8)
unfolding rmask
rmask-mod s = let e : s % 8 % 8 ≡ s % 8 = omega arith in rw e

pub bit-lmask : (s k : ℕ) → k < 8 → bit (lmask s) k ≡ (if leb (s % 8) k then 1 else 0)
unfolding lmask bit all_below
bit-lmask s k h =
    rw (lmask-mod s)
      (mask_bits lmask (λ s k. if leb s k then 1 else 0) refl (s % 8) k (omega arith) h)

pub bit-rmask : (s k : ℕ) → k < 8 → bit (rmask s) k ≡ (if ltb k (s % 8) then 1 else 0)
unfolding rmask bit all_below
bit-rmask s k h =
    rw (rmask-mod s)
      (mask_bits rmask (λ s k. if ltb k s then 1 else 0) refl (s % 8) k (omega arith) h)

pub bit-not_lmask : (s k : ℕ) → k < 8 → bit (not32 (lmask s)) k ≡ (if leb (s % 8) k then 0 else 1)
unfolding lmask bit all_below
bit-not_lmask s k h = rw (lmask-mod s) (
    mask_bits (λ s. not32 (lmask s)) (λ s k. if leb s k then 0 else 1) refl (s % 8) k (omega arith)
      h)

pub bit-not_rmask : (s k : ℕ) → k < 8 → bit (not32 (rmask s)) k ≡ (if ltb k (s % 8) then 0 else 1)
unfolding rmask bit all_below
bit-not_rmask s k h = rw (rmask-mod s) (
    mask_bits (λ s. not32 (rmask s)) (λ s k. if ltb k s then 0 else 1) refl (s % 8) k (omega arith)
      h)

rmask_table : all_below 8 (λ s. (if s == 0 then rmask s == 0 else not (rmask s == 0))) ≡ true
unfolding rmask all_below
rmask_table = refl

-- The right mask is empty exactly when the limit lies on a byte boundary.
pub rmask_empty : (s : ℕ) → (rmask s == 0) ≡ (s % 8 == 0)
rmask_empty s = ground (arith, rmask-mod s, all_below_sound 8 _ (s % 8) rmask_table)

bytes_table : all_below 8 (λ s. ltb (lmask s) 256 && ltb (rmask s) 256) ≡ true
unfolding lmask rmask all_below
bytes_table = refl

pub lmask-lt : (s : ℕ) → lmask s < 256
lmask-lt s = ground (arith, lmask-mod s, all_below_sound 8 _ (s % 8) bytes_table)

pub rmask-lt : (s : ℕ) → rmask s < 256
rmask-lt s = ground (arith, rmask-mod s, all_below_sound 8 _ (s % 8) bytes_table)

full_table : all_below 8 (λ k. bit 0xff k == 1 && bit 0 k == 0) ≡ true
unfolding bit all_below
full_table = refl

pub bit-full : (k : ℕ) → k < 8 → bit 0xff k ≡ 1
bit-full k h = ground (arith, all_below_sound 8 _ k full_table)

pub bit-empty : (k : ℕ) → k < 8 → bit 0 k ≡ 0
bit-empty k h = ground (arith, all_below_sound 8 _ k full_table)
