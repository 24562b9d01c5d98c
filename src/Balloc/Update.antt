-- ===== src/Balloc/Update.antt =====
-- `update_bitmap`, by which log replay applies a logged allocation or free.
use tux.Base.{
  ℕ, ◌+◌, ◌-◌, ◌/◌, ◌%◌, ◌^◌, ◌≤◌, ◌<◌, ◌≡◌, ◌⊎◌, refl, arith, Bool-cases, inl, inr, none, some,
  true, false, if◌then◌else◌, Bool, Option-cases, min,
}
use tux.Base.Memory.{Mem}
use tux.Errno.{Result, ok, err, enomem, einval}
use tux.Bitmap.{in_range, set_bits, clear_bits, all_set, all_clear}
use tux.Bitmap.Ranges.{set_bits-IsBytes, clear_bits-IsBytes}
use tux.Balloc.{Sb, mapbits, u32, add64, write_block, update_bitmap}
use tux.Balloc.Free.{
  place, used_of_all_set, free_of_all_clear, all_set_of_used, all_clear_of_free, written-IsValid,
}
use tux.Balloc.Volume.{IsValid, used, used-set_block, used-clear_block}
use tux.Balloc.Count.{IsCounted, zeros, zeros_set, zeros-le}

-- The value of a bit before and after an update.
abbrev old_bit : Bool → ℕ
old_bit set = if set then 0 else 1

abbrev new_bit : Bool → ℕ
new_bit set = if set then 1 else 0

-- A range that held the other value everywhere is set or cleared. The count of free blocks moves the
-- other way than in `balloc` and `bfree`.
pub record Updated (sb sb' : Sb) (start count : ℕ) (set : Bool) : Type 0 where
  pub before : (i : ℕ) → in_range start count i ≡ true → used sb i ≡ old_bit set
  pub bits : (i : ℕ) → used sb' i ≡ (if in_range start count i then new_bit set else used sb i)
  pub left : sb'.freeblocks ≡ add64 sb.freeblocks (if set then count else u32 (2 ^ 32 - count))
  pub volume : sb'.volblocks ≡ sb.volblocks
  pub size : sb'.blockbits ≡ sb.blockbits
  pub valid : IsValid sb'

abbrev pub UpdateOutcome : Sb → ℕ → ℕ → Bool → Result (Unit {0}) × Sb → Type 0
UpdateOutcome sb start count set (ok _, sb') = Updated sb sb' start count set
UpdateOutcome sb start count set (err e, sb') =
    (sb' ≡ sb)
    × ((e ≡ enomem) × (sb.bitmap (start / mapbits sb) ≡ none)
        ⊎ (e ≡ einval) × ¬ ((i : ℕ) → in_range start count i ≡ true → used sb i ≡ old_bit set))

module _ (sb : Sb) (start count : ℕ) (valid : IsValid sb) (inside : start + count ≤ sb.volblocks)
    (one_row : start % mapbits sb + count ≤ mapbits sb) where
  abbrev block_of : ℕ
  block_of = start / mapbits sb

  abbrev bit_of : ℕ
  bit_of = start % mapbits sb

  module _ (data_ : Mem) (read : sb.bitmap block_of ≡ some data_) where
    update_set : UpdateOutcome sb start count true (update_bitmap sb start count true)
    update_set = elim (Bool-cases (all_clear data_ bit_of count)) [
      | inl t ↦
          let result : update_bitmap sb start count true ≡ (
            ok tt,
            record sb {
              bitmap = write_block sb.bitmap block_of (set_bits data_ bit_of count);
              freeblocks = add64 sb.freeblocks count;
            },
          ) =
            unfold update_bitmap in rw (read, update_bitmap) (rw t) in
          rw result (record {
            before = free_of_all_clear sb start count valid inside one_row data_ read t;
            bits = λ i.
                rw (place sb start count valid inside one_row) at
                  (used-set_block sb block_of data_ bit_of count i valid read one_row);
            left = refl;
            volume = refl;
            size = refl;
            valid =
                written-IsValid sb start count valid inside one_row data_ read _ sb.nextalloc
                  (set_bits data_ bit_of count) valid.goal
                  (set_bits-IsBytes data_ bit_of count (valid.bytes block_of data_ read));
          })
      | inr f ↦
          let result : update_bitmap sb start count true ≡ (err einval, sb) =
            unfold update_bitmap in rw (read, update_bitmap) (rw f) in
          rw result (
            refl,
            inr (
              refl,
              λ all. cc (all_clear_of_free sb start count valid inside one_row data_ read all),
            ),
          )
    ]

    update_clear : UpdateOutcome sb start count false (update_bitmap sb start count false)
    update_clear = elim (Bool-cases (all_set data_ bit_of count)) [
      | inl t ↦
          let result : update_bitmap sb start count false ≡ (
            ok tt,
            record sb {
              bitmap = write_block sb.bitmap block_of (clear_bits data_ bit_of count);
              freeblocks = add64 sb.freeblocks (u32 (2 ^ 32 - count));
            },
          ) =
            unfold update_bitmap in rw (read, update_bitmap) (rw t) in
          rw result (record {
            before = used_of_all_set sb start count valid inside one_row data_ read t;
            bits = λ i.
                rw (place sb start count valid inside one_row) at
                  (used-clear_block sb block_of data_ bit_of count i valid read one_row);
            left = refl;
            volume = refl;
            size = refl;
            valid =
                written-IsValid sb start count valid inside one_row data_ read _ sb.nextalloc
                  (clear_bits data_ bit_of count) valid.goal
                  (clear_bits-IsBytes data_ bit_of count (valid.bytes block_of data_ read));
          })
      | inr f ↦
          let result : update_bitmap sb start count false ≡ (err einval, sb) =
            unfold update_bitmap in rw (read, update_bitmap) (rw f) in
          rw result (
            refl,
            inr (
              refl,
              λ all. cc (all_set_of_used sb start count valid inside one_row data_ read all),
            ),
          )
    ]

  -- On a valid volume, for a range of the volume in one bitmap block, `update_bitmap` either finds the
  -- whole range with the other value, sets or clears exactly its bits, and adds `count` to
  -- `freeblocks` when it sets bits and the 32-bit pattern of `-count` when it clears them; or it
  -- changes nothing and returns ENOMEM for an unreadable block and EINVAL for a range that does not
  -- hold the other value everywhere.
  pub update_bitmap-UpdateOutcome :
      (set : Bool) → UpdateOutcome sb start count set (update_bitmap sb start count set)
  update_bitmap-UpdateOutcome set = elim (Option-cases (sb.bitmap block_of)) [
    | inl unread ↦
        let result : update_bitmap sb start count set ≡ (err enomem, sb) =
          unfold update_bitmap in rw (unread, update_bitmap) in
        rw result (refl, inl (refl, unread))
    | inr (data_, read) ↦ by_value data_ read set
  ]
    where
      by_value :
          (data_ : Mem)
          → sb.bitmap block_of ≡ some data_
          → (set : Bool) → UpdateOutcome sb start count set (update_bitmap sb start count set)
      by_value data_ read true = update_set data_ read
      by_value data_ read false = update_clear data_ read

set-¬IsCounted :
    (sb : Sb) (start count : ℕ) (p : Result (Unit {0}) × Sb)
    → IsValid sb
    → start + count ≤ sb.volblocks
    → 0 < count
    → IsCounted sb
    → p.0 ≡ ok tt
    → UpdateOutcome sb start count true p
    → ¬ IsCounted p.1
set-¬IsCounted sb start count (err e, sb') valid inside more counted done u = λ _. cc
set-¬IsCounted sb start count (ok _, sb') valid inside more counted done u =
    let change : zeros sb.volblocks (used sb)
        ≡ zeros sb.volblocks (used sb')
          + (min sb.volblocks (start + count) - min sb.volblocks start) =
      zeros_set sb.volblocks (used sb) (used sb') start count u.before u.bits in
    rw u.volume (λ again.
      omega (arith, u.left, change, counted, again, zeros-le sb.volblocks (used sb), valid.volume))

-- Setting bits of a valid, correctly counted volume by `update_bitmap`, as replay of a logged
-- allocation does, leaves `freeblocks` different from the number of 0 bits, for every range of at
-- least one block for which the call succeeds.
pub update_bitmap-¬IsCounted :
    (sb : Sb) (start count : ℕ)
    → IsValid sb
    → start + count ≤ sb.volblocks
    → start % mapbits sb + count ≤ mapbits sb
    → 0 < count
    → IsCounted sb
    → (update_bitmap sb start count true).0 ≡ ok tt
    → ¬ IsCounted (update_bitmap sb start count true).1
update_bitmap-¬IsCounted sb start count valid inside one_row more counted done =
    set-¬IsCounted sb start count (update_bitmap sb start count true) valid inside more counted done
      (update_bitmap-UpdateOutcome sb start count valid inside one_row true)
