-- ===== src/Packed.antt =====
-- Fields packed into one big-endian word (user/kernel/tux3.h): extents, groups and entries of a dleaf,
-- and the root of a btree. A word is the number that it stands for. Also the fixed-point times.
pub mod Fields
pub mod Time
use tux.Base.{
  ℕ, ◌+◌, ◌-◌, ◌*◌, ◌/◌, ◌%◌, ◌^◌, bit_and, bit_or, ltb, ◌&&◌, if◌then◌else◌, Option, none, some,
}

-- count:8, keyhi:24. `count << 24` is an `unsigned`, and the word is cut to 32 bits.
unfoldable pub make_group : ℕ → ℕ → ℕ
make_group keyhi count = bit_or keyhi (count * 2 ^ 24 % 2 ^ 32) % 2 ^ 32

unfoldable pub group_keyhi : ℕ → ℕ
group_keyhi group = bit_and group 0xffffff

-- The count is the first byte in memory.
unfoldable pub group_count : ℕ → ℕ
group_count group = group / 2 ^ 24 % 256

unfoldable pub set_group_count : ℕ → ℕ → ℕ
set_group_count group n = n % 256 * 2 ^ 24 + group % 2 ^ 24

-- `n` is an `int` as a pattern of 32 bits, so that a negative one wraps in the byte.
unfoldable pub inc_group_count : ℕ → ℕ → ℕ
unfolding set_group_count group_count
inc_group_count group n = set_group_count group (group_count group + n)

-- limit:8, keylo:24
unfoldable pub make_entry : ℕ → ℕ → ℕ
make_entry keylo limit = bit_or keylo (limit * 2 ^ 24 % 2 ^ 32) % 2 ^ 32

unfoldable pub entry_keylo : ℕ → ℕ
entry_keylo entry = bit_and entry (2 ^ 32 - 1 - (2 ^ 32 - 2 ^ 24))

unfoldable pub entry_limit : ℕ → ℕ
entry_limit entry = entry / 2 ^ 24 % 256

unfoldable pub inc_entry_limit : ℕ → ℕ → ℕ
unfolding entry_limit
inc_entry_limit entry n = (entry_limit entry + n) % 256 * 2 ^ 24 + entry % 2 ^ 24

-- version:10, count:6, block:48. `none` is the failed assertion; `count - 1` is an `unsigned`.
unfoldable pub make_extent : ℕ → ℕ → Option ℕ
make_extent block count =
    let less = (count + 2 ^ 32 - 1) % 2 ^ 32 in
    if ltb block (2 ^ 48) && ltb less (2 ^ 6) then some (bit_or (less * 2 ^ 48) block) else none

unfoldable pub extent_block : ℕ → ℕ
extent_block extent = bit_and extent (2 ^ 64 - 1 - (2 ^ 64 - 2 ^ 48))

unfoldable pub extent_count : ℕ → ℕ
extent_count extent = bit_and (extent / 2 ^ 48) 0x3f + 1

unfoldable pub extent_version : ℕ → ℕ
extent_version extent = extent / 2 ^ 54

-- `get_index` of user/kernel/dleaf.c.
unfoldable pub get_index : ℕ → ℕ → ℕ
unfolding group_keyhi entry_keylo
get_index group entry = bit_or (group_keyhi group * 2 ^ 24) (entry_keylo entry)

pub record Root : Type 0 where
  pub depth : ℕ
  pub block : ℕ

unfoldable pub pack_root : Root → ℕ
pack_root root = bit_or (root.depth * 2 ^ 48 % 2 ^ 64) root.block

unfoldable pub unpack_root : ℕ → Root
unpack_root v = record { depth = v / 2 ^ 48; block = bit_and v ((2 ^ 64 - 1) / 2 ^ 16) }

-- 32.32 fixed point.
unfoldable pub high32 : ℕ → ℕ
high32 val = val / 2 ^ 32 % 2 ^ 32

unfoldable pub billionths : ℕ → ℕ
billionths val = (bit_and val 0xffff_ffff * 1000000000 + 0x8000_0000) / 2 ^ 32

pub record Timespec : Type 0 where
  pub tv_sec : ℕ
  pub tv_nsec : ℕ

unfoldable pub spectime : ℕ → Timespec
unfolding high32 billionths
spectime time = record { tv_sec = high32 time; tv_nsec = billionths time }

unfoldable pub tuxtime : Timespec → ℕ
tuxtime time =
    let mult = 2 ^ 63 / 1000000000 in
    (time.tv_sec * 2 ^ 32 % 2 ^ 64 + (time.tv_nsec * mult + 3 * 2 ^ 29) / 2 ^ 31) % 2 ^ 64
