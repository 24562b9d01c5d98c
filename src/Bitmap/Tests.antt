-- ===== src/Bitmap/Tests.antt =====
-- How `all_set` and `all_clear` test a range of bits.
use tux.Base.{
  ℕ, zero, suc, ◌+◌, ◌-◌, ◌/◌, ◌%◌, ◌^◌, ◌<◌, ◌≤◌, ◌≡◌, ◌↔◌, refl, ap, ◌∙◌, ◌*◌, arith, true,
  if◌then◌else◌, leb, ltb, ◌==◌, Bool-cases, bit_and, inl, inr, ==_iff,
}
use tux.Base.Bits.{bit, bit-bit_and, bit-le-one, eq_of_bits, bit_and-le}
use tux.Base.Memory.{Mem}
use tux.Bitmap.{
  lmask, rmask, all_set, all_clear, all_set_span, all_clear_span, all_set_between,
  all_clear_between, bytes_are, bit_at, in_range,
}
use tux.Bitmap.Masks.{bit-lmask, bit-rmask, rmask_empty, bit-full, bit-empty, lmask-lt, rmask-lt}
use tux.Bitmap.Ranges.{IsBytes, below, leb_digits, ltb_digits, within}

covered-bit : (b m k : ℕ) → (bit_and b m == m) ≡ true → bit m k ≡ 1 → bit b k ≡ 1
covered-bit b m k h e =
    let f : bit_and b m ≡ m = (==_iff _ _).0 h in
    omega (arith, ap (λ x. bit x k) f, bit-bit_and b m k, bit-le-one b k)

covered_of_bits :
    (b m : ℕ)
    → b < 256
    → m < 256
    → ((k : ℕ) → k < 8 → bit m k ≡ 1 → bit b k ≡ 1)
    → (bit_and b m == m) ≡ true
covered_of_bits b m p q all = (==_iff _ _).1 (
    eq_of_bits 8 _ _ (omega (arith, bit_and-le b m)) q
      (λ k l. ground (arith, bit-bit_and b m k, all k l, bit-le-one b k, bit-le-one m k)))

disjoint-bit : (b m k : ℕ) → k < 8 → (bit_and b m == 0) ≡ true → bit m k ≡ 1 → bit b k ≡ 0
disjoint-bit b m k l h e =
    let f : bit_and b m ≡ 0 = (==_iff _ _).0 h in
    omega (arith, ap (λ x. bit x k) f, bit-bit_and b m k, bit-empty k l)

disjoint_of_bits :
    (b m : ℕ) → b < 256 → ((k : ℕ) → k < 8 → bit m k ≡ 1 → bit b k ≡ 0) → (bit_and b m == 0) ≡ true
disjoint_of_bits b m p all = (==_iff _ _).1 (
    eq_of_bits 8 _ _ (omega (arith, bit_and-le b m)) (omega arith) (λ k l.
      ground (arith, bit-bit_and b m k, all k l, bit-le-one b k, bit-le-one m k, bit-empty k)))

bytes_are-all :
    (rounds at byte : ℕ) (bitmap : Mem) (j : ℕ)
    → bytes_are rounds at byte bitmap ≡ true
    → at ≤ j
    → j < at + rounds
    → bitmap j ≡ byte
unfolding bytes_are
bytes_are-all zero at byte bitmap j h p q = absurd (omega arith)
bytes_are-all (suc rounds) at byte bitmap j h p q =
    ground (arith, bytes_are-all rounds (at + 1) byte bitmap j)

bytes_are_of_all :
    (rounds at byte : ℕ) (bitmap : Mem)
    → ((j : ℕ) → at ≤ j → j < at + rounds → bitmap j ≡ byte)
    → bytes_are rounds at byte bitmap ≡ true
unfolding bytes_are
bytes_are_of_all zero at byte bitmap all = refl
bytes_are_of_all (suc rounds) at byte bitmap all = ground (
  arith,
  all at (omega arith) (omega arith),
  bytes_are_of_all rounds (at + 1) byte bitmap (λ j p q. all j (omega arith) (omega arith)),
)

-- As in `Ranges`: a range from bit `s` of byte `a` to bit `r` of byte `c`, with its masks.
module _ (bitmap : Mem) (a s left c r right : ℕ) (ordered : a ≤ c) (bytes : IsBytes bitmap)
    (left_byte : left < 256) (right_byte : right < 256) (some_right : (right == 0) ≡ (r == 0))
    (left_bits : (k : ℕ) → k < 8 → bit left k ≡ (if leb s k then 1 else 0))
    (right_bits : (k : ℕ) → k < 8 → bit right k ≡ (if ltb k r then 1 else 0)) where
  both_byte : bit_and left right < 256
  both_byte = omega (arith, bit_and-le left right)

  module _ (j k : ℕ) (l : k < 8) (w : within a s c r j k ≡ true) where
    bit-all_set_span : all_set_span bitmap a left c right ≡ true → bit (bitmap j) k ≡ 1
    unfolding all_set_span
    bit-all_set_span h = ground (
      arith,
      left_bits k l,
      right_bits k l,
      bit-bit_and left right k,
      bit-full k l,
      bytes_are-all (c - (a + 1)) (a + 1) 0xff bitmap j,
      covered-bit (bitmap j) left k,
      covered-bit (bitmap j) right k,
      covered-bit (bitmap j) (bit_and left right) k,
    )

    bit-all_clear_span : all_clear_span bitmap a left c right ≡ true → bit (bitmap j) k ≡ 0
    unfolding all_clear_span
    bit-all_clear_span h = ground (
      arith,
      left_bits k l,
      right_bits k l,
      bit-bit_and left right k,
      bit-empty k l,
      bytes_are-all (c - (a + 1)) (a + 1) 0 bitmap j,
      disjoint-bit (bitmap j) left k,
      disjoint-bit (bitmap j) right k,
      disjoint-bit (bitmap j) (bit_and left right) k,
    )

  all_set_span_of_bits :
      ((j k : ℕ) → k < 8 → within a s c r j k ≡ true → bit (bitmap j) k ≡ 1)
      → all_set_span bitmap a left c right ≡ true
  unfolding all_set_span
  all_set_span_of_bits all = elim (Bool-cases (a == c)) [
    | inl e ↦ ground (
      arith,
      covered_of_bits (bitmap a) (bit_and left right) (bytes a) both_byte (λ k l m.
          all a k l (ground (arith, left_bits k l, right_bits k l, bit-bit_and left right k))),
    )
    | inr e ↦ ground (
      arith,
      covered_of_bits (bitmap a) left (bytes a) left_byte
          (λ k l m. all a k l (ground (arith, left_bits k l))),
      covered_of_bits (bitmap c) right (bytes c) right_byte
          (λ k l m. all c k l (ground (arith, right_bits k l))),
      bytes_are_of_all (c - (a + 1)) (a + 1) 0xff bitmap (λ j p q.
          eq_of_bits 8 _ _ (bytes j) (omega arith)
            (λ k l. omega (arith, bit-full k l, all j k l (ground arith)))),
    )
  ]

  all_clear_span_of_bits :
      ((j k : ℕ) → k < 8 → within a s c r j k ≡ true → bit (bitmap j) k ≡ 0)
      → all_clear_span bitmap a left c right ≡ true
  unfolding all_clear_span
  all_clear_span_of_bits all = elim (Bool-cases (a == c)) [
    | inl e ↦ ground (
      arith,
      disjoint_of_bits (bitmap a) (bit_and left right) (bytes a) (λ k l m.
          all a k l (ground (arith, left_bits k l, right_bits k l, bit-bit_and left right k))),
    )
    | inr e ↦ ground (
      arith,
      disjoint_of_bits (bitmap a) left (bytes a)
          (λ k l m. all a k l (ground (arith, left_bits k l))),
      disjoint_of_bits (bitmap c) right (bytes c)
          (λ k l m. all c k l (ground (arith, right_bits k l))),
      bytes_are_of_all (c - (a + 1)) (a + 1) 0 bitmap (λ j p q.
          eq_of_bits 8 _ _ (bytes j) (omega arith)
            (λ k l. omega (arith, bit-empty k l, all j k l (ground arith)))),
    )
  ]

-- A range of bits read byte by byte.
in_range-within :
    (start count i : ℕ)
    → in_range start count i
      ≡ within (start / 8) (start % 8) ((start + count) / 8) ((start + count) % 8) (i / 8) (i % 8)
in_range-within start count i = rw (leb_digits start i, ltb_digits i (start + count)) refl

in_range-digits :
    (start count j k : ℕ)
    → k < 8
    → in_range start count (j * 8 + k)
      ≡ within (start / 8) (start % 8) ((start + count) / 8) ((start + count) % 8) j k
in_range-digits start count j k l =
    let e : (j * 8 + k) / 8 ≡ j = omega arith in
    let f : (j * 8 + k) % 8 ≡ k = omega arith in
    rw (e, f) at (in_range-within start count (j * 8 + k))

bit_at-digits : (bitmap : Mem) (j k : ℕ) → k < 8 → bit_at bitmap (j * 8 + k) ≡ bit (bitmap j) k
bit_at-digits bitmap j k l =
    let e : (j * 8 + k) / 8 ≡ j = omega arith in
    let f : (j * 8 + k) % 8 ≡ k = omega arith in rw (e, f) refl

module _ (bitmap : Mem) (start count : ℕ) (fits : start + count < 2 ^ 32)
    (bytes : IsBytes bitmap) where
  -- `all_set` answers true exactly when every bit of its range is 1, where the range ends below
  -- 2^32 and the bitmap holds bytes.
  pub all_set_iff :
      (all_set bitmap start count ≡ true)
      ↔ ((i : ℕ) → in_range start count i ≡ true → bit_at bitmap i ≡ 1)
  unfolding all_set all_set_between
  all_set_iff = rw (below start count 0 fits) (
    λ h i p.
        bit-all_set_span bitmap (start / 8) (start % 8) (lmask start) ((start + count) / 8)
          ((start + count) % 8) (rmask (start + count)) (omega arith) bytes (lmask-lt start)
          (rmask-lt _) (rmask_empty _) (λ k. bit-lmask start k) (λ k. bit-rmask _ k) (i / 8) (i % 8)
          (omega arith) (rw in_range-within at p) h,
    λ all.
        all_set_span_of_bits bitmap (start / 8) (start % 8) (lmask start) ((start + count) / 8)
          ((start + count) % 8) (rmask (start + count)) (omega arith) bytes (lmask-lt start)
          (rmask-lt _) (rmask_empty _) (λ k. bit-lmask start k) (λ k. bit-rmask _ k)
          (λ j k l w.
            rw (bit_at-digits bitmap j k l) at
              (all (j * 8 + k) (in_range-digits start count j k l ∙ w))),
  )

  -- `all_clear` answers true exactly when every bit of its range is 0, where the range ends below
  -- 2^32 and the bitmap holds bytes.
  pub all_clear_iff :
      (all_clear bitmap start count ≡ true)
      ↔ ((i : ℕ) → in_range start count i ≡ true → bit_at bitmap i ≡ 0)
  unfolding all_clear all_clear_between
  all_clear_iff = rw (below start count 0 fits) (
    λ h i p.
        bit-all_clear_span bitmap (start / 8) (start % 8) (lmask start) ((start + count) / 8)
          ((start + count) % 8) (rmask (start + count)) (omega arith) bytes (lmask-lt start)
          (rmask-lt _) (rmask_empty _) (λ k. bit-lmask start k) (λ k. bit-rmask _ k) (i / 8) (i % 8)
          (omega arith) (rw in_range-within at p) h,
    λ all.
        all_clear_span_of_bits bitmap (start / 8) (start % 8) (lmask start) ((start + count) / 8)
          ((start + count) % 8) (rmask (start + count)) (omega arith) bytes (lmask-lt start)
          (rmask-lt _) (rmask_empty _) (λ k. bit-lmask start k) (λ k. bit-rmask _ k)
          (λ j k l w.
            rw (bit_at-digits bitmap j k l) at
              (all (j * 8 + k) (in_range-digits start count j k l ∙ w))),
  )
