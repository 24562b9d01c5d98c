-- ===== src/Base/Bits.antt =====
-- Single bits of native numbers, and what `&` and `|` do to them.
use Prim.Native.Nat.{
  ℕ, zero, suc, ◌+◌, ◌-◌, ◌*◌, ◌/◌, ◌%◌, ◌^◌, ◌≤◌, ◌<◌, min, max, bit_and, bit_or, digits,
  bit_and-bitwise, bit_or-bitwise,
}
use mathlib.Core.Path.{◌≡◌, refl, ap, ◌∙◌}
use tux.Base.Tests.{◌==◌}
use mathlib.Core.Bool.{Bool, true, ◌&&◌}
use native.Mathlib.Omega.{arith}
use native.Mathlib.Nat.{pow-suc, div-add-mod, mod-lt, mod-eq_of_lt, mul-add-mod_self_left}

-- Bit `k` of `a`, as 0 or 1.
unfoldable pub bit : ℕ → ℕ → ℕ
bit a zero = a % 2
bit a (suc k) = bit (a / 2) k

-- Both operations follow the same recursion on binary digits, `h` joining two digits and `e`
-- being what is left when the first number has run out.
module _ (e : ℕ → ℕ) (h : ℕ → ℕ → ℕ) where
  abbrev by_digits : ℕ → ℕ → ℕ → ℕ
  by_digits n a b = digits e h n a b

  -- Fuel beyond the first number changes nothing.
  fuel_irrelevant :
      (x y less more : ℕ) → x ≤ less → x ≤ more → by_digits less x y ≡ by_digits more x y
  fuel_irrelevant (suc x) y zero more bound bound' = absurd (omega (arith, bound))
  fuel_irrelevant (suc x) y (suc less) zero bound bound' = absurd (omega (arith, bound'))
  fuel_irrelevant (suc x) y (suc less) (suc more) bound bound' =
      let half = fuel_irrelevant (suc x / 2) (y / 2) less more (omega arith) (omega arith) in
      rw half
  fuel_irrelevant zero y zero zero bound bound' = refl
  fuel_irrelevant zero y zero (suc more) bound bound' = refl
  fuel_irrelevant zero y (suc less) zero bound bound' = refl
  fuel_irrelevant zero y (suc less) (suc more) bound bound' = refl

pub bit_and_step : (a b : ℕ) → bit_and a b ≡ bit_and (a / 2) (b / 2) * 2 + min (a % 2) (b % 2)
bit_and_step zero b = omega (arith, bit_and-bitwise 0 b, bit_and-bitwise 0 (b / 2))
bit_and_step (suc a) b = omega (
  arith,
  bit_and-bitwise (suc a) b,
  bit_and-bitwise (suc a / 2) (b / 2),
  fuel_irrelevant (λ y. zero) min (suc a / 2) (b / 2) a (suc a / 2) (omega arith) (omega arith),
)

pub bit_or_step : (a b : ℕ) → bit_or a b ≡ bit_or (a / 2) (b / 2) * 2 + max (a % 2) (b % 2)
bit_or_step zero b = omega (arith, bit_or-bitwise 0 b, bit_or-bitwise 0 (b / 2))
bit_or_step (suc a) b = omega (
  arith,
  bit_or-bitwise (suc a) b,
  bit_or-bitwise (suc a / 2) (b / 2),
  fuel_irrelevant (λ y. y) max (suc a / 2) (b / 2) a (suc a / 2) (omega arith) (omega arith),
)

pub bit-le-one : (a k : ℕ) → bit a k ≤ 1
unfolding bit
bit-le-one a zero = omega arith
bit-le-one a (suc k) = bit-le-one (a / 2) k

pub bit-bit_and : (a b k : ℕ) → bit (bit_and a b) k ≡ min (bit a k) (bit b k)
unfolding bit
bit-bit_and a b zero = omega (arith, bit_and_step a b)
bit-bit_and a b (suc k) =
    let e : bit_and a b / 2 ≡ bit_and (a / 2) (b / 2) = omega (arith, bit_and_step a b) in
    rw e (bit-bit_and (a / 2) (b / 2) k)

pub bit-bit_or : (a b k : ℕ) → bit (bit_or a b) k ≡ max (bit a k) (bit b k)
unfolding bit
bit-bit_or a b zero = omega (arith, bit_or_step a b)
bit-bit_or a b (suc k) =
    let e : bit_or a b / 2 ≡ bit_or (a / 2) (b / 2) = omega (arith, bit_or_step a b) in
    rw e (bit-bit_or (a / 2) (b / 2) k)

-- Two numbers below `2 ^ n` with the same `n` bits are equal.
pub eq_of_bits : (n a b : ℕ) → a < 2 ^ n → b < 2 ^ n → ((k : ℕ) → k < n → bit a k ≡ bit b k) → a ≡ b
unfolding bit
eq_of_bits zero a b p q h = omega arith
eq_of_bits (suc n) a b p q h =
    let e : a / 2 ≡ b / 2 =
      eq_of_bits n (a / 2) (b / 2) (grind arith) (grind arith) (λ k l. h (suc k) (omega arith)) in
    omega (arith, h 0 (omega arith))

pub bit_and-le_fuel : (n a b : ℕ) → a ≤ n → bit_and a b ≤ a
bit_and-le_fuel n zero b h = omega (arith, bit_and-bitwise 0 b)
bit_and-le_fuel zero (suc a) b h = absurd (omega arith)
bit_and-le_fuel (suc n) (suc a) b h =
    omega (arith, bit_and_step (suc a) b, bit_and-le_fuel n (suc a / 2) (b / 2) (omega arith))

pub bit_and-le : (a b : ℕ) → bit_and a b ≤ a
bit_and-le a b = bit_and-le_fuel a a b (omega arith)

pub bit_or-lt : (n a b : ℕ) → a < 2 ^ n → b < 2 ^ n → bit_or a b < 2 ^ n
bit_or-lt zero a b p q = let e : a ≡ 0 = omega arith in rw e (omega (arith, bit_or-bitwise 0 b))
bit_or-lt (suc n) a b p q =
    omega
      (arith, bit_or_step a b, bit_or-lt n (a / 2) (b / 2) (grind arith) (grind arith), pow-suc 2 n)

-- Over a small range, check every value by evaluation.
unfoldable pub all_below : ℕ → (ℕ → Bool) → Bool
all_below zero p = true
all_below (suc n) p = p n && all_below n p

pub all_below_sound : (n : ℕ) (p : ℕ → Bool) (x : ℕ) → all_below n p ≡ true → x < n → p x ≡ true
unfolding all_below
all_below_sound zero p x h l = absurd (omega arith)
all_below_sound (suc n) p x h l = ground (arith, all_below_sound n p x)

pub bit-zero : (k : ℕ) → bit 0 k ≡ 0
unfolding bit
bit-zero zero = omega arith
bit-zero (suc k) = bit-zero k

pub zero-bit_and : (a : ℕ) → bit_and 0 a ≡ 0
zero-bit_and a = bit_and-bitwise 0 a

pub bit_and-zero_fuel : (n a : ℕ) → a ≤ n → bit_and a 0 ≡ 0
bit_and-zero_fuel n zero h = zero-bit_and 0
bit_and-zero_fuel zero (suc a) h = absurd (omega arith)
bit_and-zero_fuel (suc n) (suc a) h =
    let half = bit_and-zero_fuel n (suc a / 2) (omega arith) in
    omega (arith, half, bit_and_step (suc a) 0)

-- A test of one bit by the mask `1 << k`.
pub bit_and-pow : (a k : ℕ) → bit_and a (2 ^ k) ≡ bit a k * 2 ^ k
unfolding bit
bit_and-pow a zero =
    omega (arith, bit_and_step a 1, bit_and-zero_fuel (a / 2) (a / 2) (omega arith))
bit_and-pow a (suc k) = omega (
  arith,
  bit_and_step a (2 ^ suc k),
  bit_and-pow (a / 2) k,
  pow-suc 2 k,
  ap (λ (t : ℕ). bit (a / 2) k * t) (pow-suc 2 k),
  ap (λ (t : ℕ). bit_and (a / 2) t) (half_pow k),
)
  where
    half_pow : (k : ℕ) → 2 ^ suc k / 2 ≡ 2 ^ k
    half_pow k = omega (arith, pow-suc 2 k)

pub pow-pos : (k : ℕ) → 0 < 2 ^ k
pow-pos zero = omega arith
pow-pos (suc k) = omega (arith, pow-suc 2 k, pow-pos k)

small_product : (b m : ℕ) → b ≤ 1 → 0 < m → (b * m == 0) ≡ (b == 0)
small_product zero m h p = ground arith
small_product (suc zero) m h p = ground arith
small_product (suc (suc b)) m h p = absurd (omega arith)

pub bit_test : (a k : ℕ) → (bit_and a (2 ^ k) == 0) ≡ (bit a k == 0)
bit_test a k = rw (bit_and-pow a k) (small_product (bit a k) (2 ^ k) (bit-le-one a k) (pow-pos k))

-- The lowest digit of a remainder by a power of two.
mod_pow_step : (n a : ℕ) → a % 2 ^ suc n ≡ a / 2 % 2 ^ n * 2 + a % 2
mod_pow_step n a =
    let c : ℕ = a / 2 % 2 ^ n * 2 + a % 2 in
    let whole : a ≡ 2 ^ suc n * (a / 2 / 2 ^ n) + c =
      omega
        (arith, div-add-mod (a / 2) (2 ^ n), ap (λ (t : ℕ). t * (a / 2 / 2 ^ n)) (pow-suc 2 n)) in
    let small : c < 2 ^ suc n = omega (arith, mod-lt (a / 2) (pow-pos n), pow-suc 2 n) in
    ap (λ (t : ℕ). t % 2 ^ suc n) whole
    ∙ (mul-add-mod_self_left (2 ^ suc n) (a / 2 / 2 ^ n) c ∙ mod-eq_of_lt small)

-- A mask of `n` ones, and fields that do not overlap.
pub bit_and_ones : (n a : ℕ) → bit_and a (2 ^ n - 1) ≡ a % 2 ^ n
bit_and_ones zero a = omega (arith, bit_and-zero_fuel a a (omega arith))
bit_and_ones (suc n) a =
    let half : (2 ^ suc n - 1) / 2 ≡ 2 ^ n - 1 = omega (arith, pow-suc 2 n, pow-pos n) in
    omega (
      arith,
      bit_and_step a (2 ^ suc n - 1),
      bit_and_ones n (a / 2),
      pow-suc 2 n,
      pow-pos n,
      mod_pow_step n a,
      ap (λ (t : ℕ). bit_and (a / 2) t) half,
    )

pub bit_or_fields : (n a b : ℕ) → a < 2 ^ n → bit_or a (b * 2 ^ n) ≡ a + b * 2 ^ n
bit_or_fields zero a b h =
    let e : a ≡ 0 = omega arith in rw e (omega (arith, bit_or-bitwise 0 (b * 1)))
bit_or_fields (suc n) a b h =
    let twice : b * 2 ^ suc n ≡ b * 2 ^ n * 2 =
      omega (arith, ap (λ (t : ℕ). b * t) (pow-suc 2 n)) in
    let half : b * 2 ^ suc n / 2 ≡ b * 2 ^ n = omega (arith, twice) in
    omega (
      arith,
      twice,
      bit_or_step a (b * 2 ^ suc n),
      bit_or_fields n (a / 2) b (omega (arith, pow-suc 2 n)),
      ap (λ (t : ℕ). bit_or (a / 2) t) half,
    )

bit_or-zero_fuel : (n a : ℕ) → a ≤ n → bit_or a 0 ≡ a
bit_or-zero_fuel n zero h = bit_or-bitwise 0 0
bit_or-zero_fuel zero (suc a) h = absurd (omega arith)
bit_or-zero_fuel (suc n) (suc a) h =
    omega (arith, bit_or_step (suc a) 0, bit_or-zero_fuel n (suc a / 2) (omega arith))

-- The same with the upper field first.
pub bit_or_fields_left : (n a b : ℕ) → a < 2 ^ n → bit_or (b * 2 ^ n) a ≡ b * 2 ^ n + a
bit_or_fields_left zero a b h =
    let e : a ≡ 0 = omega arith in
    rw e (omega (arith, bit_or-zero_fuel (b * 1) (b * 1) (omega arith)))
bit_or_fields_left (suc n) a b h =
    let twice : b * 2 ^ suc n ≡ b * 2 ^ n * 2 =
      omega (arith, ap (λ (t : ℕ). b * t) (pow-suc 2 n)) in
    let half : b * 2 ^ suc n / 2 ≡ b * 2 ^ n = omega (arith, twice) in
    omega (
      arith,
      twice,
      bit_or_step (b * 2 ^ suc n) a,
      bit_or_fields_left n (a / 2) b (omega (arith, pow-suc 2 n)),
      ap (λ (t : ℕ). bit_or t (a / 2)) half,
    )
