-- ===== src/Bitmap.antt =====
-- Ranges of bits in a bitmap (user/kernel/utility.c). A bitmap is its bytes, as memory.
-- `start & 7` is written `start % 8` and `start >> 3` is written `start / 8`.
pub mod Masks
pub mod Ranges
pub mod Tests
use tux.Base.{
  ℕ, ◌+◌, ◌-◌, ◌/◌, ◌%◌, ◌^◌, bit_and, bit_or, ◌==◌, ◌&&◌, ◌||◌, leb, ltb, if◌then◌else◌, Bool,
  true, false, zero, suc,
}
use tux.Base.Bits.{bit}
use tux.Base.Memory.{Mem, store, memset}

-- `~x` of an `unsigned`.
abbrev pub not32 : ℕ → ℕ
not32 x = 2 ^ 32 - 1 - x

-- `-1 << s` of an `int`, as a pattern of 32 bits.
abbrev pub ones_from : ℕ → ℕ
ones_from s = 2 ^ 32 - 2 ^ s

unfoldable pub lmask : ℕ → ℕ
lmask start = bit_and (ones_from (start % 8)) 0xff

unfoldable pub rmask : ℕ → ℕ
rmask limit = bit_and (not32 (ones_from (limit % 8))) 0xff

-- `start + count` of two `unsigned`.
abbrev pub limit_of : ℕ → ℕ → ℕ
limit_of start count = (start + count) % 2 ^ 32

-- The body of `set_bits`, after its locals: the offsets and masks of the first and last byte.
set_span : Mem → ℕ → ℕ → ℕ → ℕ → Mem
set_span bitmap loff left roff right =
    let first = store bitmap loff (bit_or (bitmap loff) left) in
    let middle = memset first (loff + 1) 0xff (roff - loff - 1) in
    if loff == roff
    then store bitmap loff (bit_or (bitmap loff) (bit_and left right))
    else if right == 0
    then middle
    else store middle roff (bit_or (middle roff) right)

set_between : Mem → ℕ → ℕ → Mem
set_between bitmap start limit = set_span bitmap (start / 8) (lmask start) (limit / 8) (rmask limit)

unfoldable pub set_bits : Mem → ℕ → ℕ → Mem
unfolding set_between set_span
set_bits bitmap start count = set_between bitmap start (limit_of start count)

clear_span : Mem → ℕ → ℕ → ℕ → ℕ → Mem
clear_span bitmap loff left roff right =
    let first = store bitmap loff (bit_and (bitmap loff) (not32 left)) in
    let middle = memset first (loff + 1) 0 (roff - loff - 1) in
    if loff == roff
    then store bitmap loff (bit_and (bitmap loff) (bit_or (not32 left) (not32 right)))
    else if right == 0
    then middle
    else store middle roff (bit_and (middle roff) (not32 right))

clear_between : Mem → ℕ → ℕ → Mem
clear_between bitmap start limit =
    clear_span bitmap (start / 8) (lmask start) (limit / 8) (rmask limit)

unfoldable pub clear_bits : Mem → ℕ → ℕ → Mem
unfolding clear_between clear_span
clear_bits bitmap start count = clear_between bitmap start (limit_of start count)

-- `for (i = at; i < at + rounds; i++) if (bitmap[i] != byte) return 0;`
bytes_are : ℕ → ℕ → ℕ → Mem → Bool
bytes_are zero at byte bitmap = true
bytes_are (suc rounds) at byte bitmap =
    let rest = bytes_are rounds (at + 1) byte bitmap in if bitmap at == byte then rest else false

all_set_span : Mem → ℕ → ℕ → ℕ → ℕ → Bool
all_set_span bitmap loff left roff right =
    let mask = bit_and left right in
    if loff == roff
    then bit_and (bitmap loff) mask == mask
    else if bytes_are (roff - (loff + 1)) (loff + 1) 0xff bitmap
    then bit_and (bitmap loff) left == left && (right == 0 || bit_and (bitmap roff) right == right)
    else false

all_set_between : Mem → ℕ → ℕ → Bool
all_set_between bitmap start limit =
    all_set_span bitmap (start / 8) (lmask start) (limit / 8) (rmask limit)

unfoldable pub all_set : Mem → ℕ → ℕ → Bool
unfolding all_set_between all_set_span bytes_are
all_set bitmap start count = all_set_between bitmap start (limit_of start count)

all_clear_span : Mem → ℕ → ℕ → ℕ → ℕ → Bool
all_clear_span bitmap loff left roff right =
    let mask = bit_and left right in
    if loff == roff
    then bit_and (bitmap loff) mask == 0
    else if bytes_are (roff - (loff + 1)) (loff + 1) 0 bitmap
    then bit_and (bitmap loff) left == 0 && (right == 0 || bit_and (bitmap roff) right == 0)
    else false

all_clear_between : Mem → ℕ → ℕ → Bool
all_clear_between bitmap start limit =
    all_clear_span bitmap (start / 8) (lmask start) (limit / 8) (rmask limit)

unfoldable pub all_clear : Mem → ℕ → ℕ → Bool
unfolding all_clear_between all_clear_span bytes_are
all_clear bitmap start count = all_clear_between bitmap start (limit_of start count)

-- `for (; c; c >>= 1) count += c & 1;`, with fuel: a byte takes at most eight rounds.
bytebits_loop : ℕ → ℕ → ℕ → ℕ
bytebits_loop zero c count = count
bytebits_loop (suc fuel) c count =
    let rest = bytebits_loop fuel (c / 2) (count + c % 2) in if c == 0 then count else rest

unfoldable pub bytebits : ℕ → ℕ
unfolding bytebits_loop
bytebits c = bytebits_loop 8 c 0

-- Bit `i` of a bitmap, as 0 or 1.
abbrev pub bit_at : Mem → ℕ → ℕ
bit_at bitmap i = bit (bitmap (i / 8)) (i % 8)

-- The bits from `start` to `start + count - 1`.
abbrev pub in_range : ℕ → ℕ → ℕ → Bool
in_range start count i = leb start i && ltb i (start + count)
