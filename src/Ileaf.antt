-- ===== src/Ileaf.antt =====
-- Leaves of the inode table (user/kernel/ileaf.c). `table` is the memory from the attributes on, and
-- `dict at` is the 16-bit word `at` places below the top of the block, read as a number: the offset at
-- which the attributes of inode `ibase + at - 1` end. In the block the two areas share memory; here
-- they are apart, and the validity of a leaf says that they do not meet.
-- Assertions on the arguments are premises of the theorems. `ileaf_dump` is left out.
pub mod Dict
pub mod Resize
pub mod Resized
use tux.Base.{
  ℕ, zero, suc, ◌+◌, ◌-◌, ◌*◌, ◌/◌, ◌%◌, ◌^◌, min, bit_and, ◌==◌, leb, ltb, if◌then◌else◌, Bool,
  true, false, ◌&&◌, ◌||◌, not, Option, none, some,
}
use tux.Base.Memory.{Mem, store, memset, memmove}

pub record Btree : Type 0 where
  pub blockbits : ℕ
  pub entries_per_leaf : ℕ

abbrev pub blocksize : Btree → ℕ
blocksize btree = 2 ^ btree.blockbits

pub record Ileaf : Type 0 where
  pub magic : ℕ
  pub count : ℕ
  pub ibase : ℕ
  pub table : Mem
  pub dict : ℕ → ℕ

abbrev pub tux3_magic_ileaf : ℕ
tux3_magic_ileaf = 0x90de

-- `sizeof(struct ileaf)`
abbrev pub sizeof_ileaf : ℕ
sizeof_ileaf = 16

abbrev pub u32 : ℕ → ℕ
u32 n = n % 2 ^ 32

-- `a - b` of two `unsigned`.
abbrev pub sub32 : ℕ → ℕ → ℕ
sub32 a b = u32 (a + 2 ^ 32 - b)

unfoldable pub atdict : (ℕ → ℕ) → ℕ → ℕ
atdict dict at = if at == 0 then 0 else dict at

-- `n` is an `int` as a pattern of 32 bits.
unfoldable pub add_idict : (ℕ → ℕ) → ℕ → ℕ → ℕ → ℕ
add_idict dict i n = store dict i ((dict i + n) % 2 ^ 16)

-- `for (i = from; i < from + rounds; i++) add_idict(dict - i, n)`
unfoldable pub add_idicts : ℕ → ℕ → ℕ → (ℕ → ℕ) → ℕ → ℕ
unfolding add_idict
add_idicts zero from n dict = dict
add_idicts (suc rounds) from n dict = add_idicts rounds (from + 1) n (add_idict dict from n)

unfoldable pub ileaf_btree_init : Btree → Btree
ileaf_btree_init btree = record btree { entries_per_leaf = 2 ^ (btree.blockbits - 6) % 2 ^ 16 }

unfoldable pub ileaf_init : Ileaf → Ileaf
ileaf_init leaf = record leaf { magic = tux3_magic_ileaf; count = 0; ibase = 0 }

unfoldable pub ileaf_sniff : Ileaf → Bool
ileaf_sniff leaf = leaf.magic == tux3_magic_ileaf

unfoldable pub ileaf_need : Ileaf → ℕ
unfolding atdict
ileaf_need leaf = atdict leaf.dict leaf.count + leaf.count * 2

unfoldable pub ileaf_free : Btree → Ileaf → ℕ
unfolding ileaf_need
ileaf_free btree leaf = sub32 (sub32 (blocksize btree) (ileaf_need leaf)) sizeof_ileaf

-- The place of the attributes in the table (`none` is NULL), and their size.
unfoldable pub ileaf_lookup : Btree → ℕ → Ileaf → Option ℕ × ℕ
unfolding atdict
ileaf_lookup btree inum leaf =
    let at = inum - leaf.ibase in
    let offset = atdict leaf.dict at in
    let size = sub32 (leaf.dict (at + 1)) offset in
    if ltb at leaf.count then if size == 0 then (none, size) else (some offset, size) else (none, 0)

-- The loop of `isinorder` from entry `i` on, by the rounds left.
unfoldable pub isinorder_loop : ℕ → ℕ → ℕ → (ℕ → ℕ) → Bool
isinorder_loop zero i offset dict = true
isinorder_loop (suc rounds) i offset dict =
    let rest = isinorder_loop rounds (i + 1) (dict (i + 1)) dict in
    if ltb (dict (i + 1)) offset then false else rest

unfoldable pub isinorder : Ileaf → Bool
unfolding isinorder_loop
isinorder leaf = isinorder_loop leaf.count 0 0 leaf.dict

-- True is the result 0.
unfoldable pub ileaf_check : Ileaf → Bool
unfolding isinorder
ileaf_check leaf =
    if not (leaf.magic == tux3_magic_ileaf)
    then false
    else if not (isinorder leaf)
    then false
    else true

-- `while (count > 1 && *(dict - count) == *(dict - count + 1)) count--;`
unfoldable pub trim_count : (ℕ → ℕ) → ℕ → ℕ
trim_count dict zero = zero
trim_count dict (suc zero) = suc zero
trim_count dict (suc (suc n)) =
    let rest = trim_count dict (suc n) in
    if dict (suc (suc n)) == dict (suc n) then rest else suc (suc n)

unfoldable pub ileaf_trim : Ileaf → Ileaf
unfolding trim_count
ileaf_trim leaf =
    let count = trim_count leaf.dict leaf.count in
    record leaf { count = if count == 1 && leaf.dict 1 == 0 then 0 else count }

-- The new leaf `dest` and what stays in `leaf`, with `SPLIT_AT_INUM`. The result is the key of `dest`.
unfoldable pub ileaf_split : Btree → ℕ → Ileaf → Ileaf → ℕ × Ileaf × Ileaf
unfolding atdict add_idicts ileaf_trim
ileaf_split btree inum leaf dest =
    let at = min (inum - leaf.ibase) leaf.count in
    let split = atdict leaf.dict at in
    let free = atdict leaf.dict leaf.count in
    let moved = leaf.count - at in
    let copied : ℕ → ℕ = λ j. if leb 1 j && leb j moved then leaf.dict (at + j) else dest.dict j in
    let round = bit_and inum (2 ^ 64 - 1 - (btree.entries_per_leaf - 1)) in
    let key = if ltb (leaf.ibase + leaf.count) round then round else inum in
    let room = blocksize btree - 2 * at - (sizeof_ileaf + split) in
    (
      key,
      ileaf_trim (record leaf {
        count = at;
        table = memset leaf.table split 0 room;
        dict = λ j.
            if ltb at j && leb (sizeof_ileaf + split + 2 * j) (blocksize btree)
            then 0
            else leaf.dict j;
      }),
      record dest {
        count = moved;
        ibase = key;
        table = memmove dest.table 0 leaf.table split (free - split);
        dict = add_idicts moved 1 (sub32 0 split) copied;
      },
    )

unfoldable pub ileaf_merge : Ileaf → Ileaf → Ileaf
unfolding atdict add_idicts
ileaf_merge leaf from =
    let at = leaf.count in
    let free = atdict leaf.dict at in
    let size = atdict from.dict from.count in
    let copied : ℕ → ℕ =
      λ j. if leb (at + 1) j && leb j (at + from.count) then from.dict (j - at) else leaf.dict j in
    let shifted = add_idicts from.count (at + 1) (leaf.dict at) copied in
    if from.count == 0 then leaf else record leaf {
      count = at + from.count;
      table = memmove leaf.table free from.table 0 size;
      dict = if at == 0 then copied else shifted;
    }

-- `for (; extend_empty--; count++) *(dict - count - 1) = limit;`
unfoldable pub extend_dict : ℕ → ℕ → ℕ → (ℕ → ℕ) → ℕ → ℕ
extend_dict zero count limit dict = dict
extend_dict (suc rounds) count limit dict =
    extend_dict rounds (count + 1) limit (store dict (count + 1) limit)

-- The locals of `ileaf_resize` for the entry `at`: the empty entries to add before it, and where its
-- attributes are and how long.
unfoldable pub extend_empty : Ileaf → ℕ → ℕ
extend_empty leaf at = if ltb at leaf.count then 0 else at - leaf.count + 1

unfoldable pub resize_offset : Ileaf → ℕ → ℕ
resize_offset leaf at = if at == 0 || leaf.count == 0 then 0 else leaf.dict (min at leaf.count)

unfoldable pub resize_size : Ileaf → ℕ → ℕ
unfolding resize_offset
resize_size leaf at =
    if ltb at leaf.count then sub32 (leaf.dict (at + 1)) (resize_offset leaf at) else 0

-- The code of `ileaf_resize` behind its returns of NULL. `more` is an `int`, `newsize - size`.
unfoldable pub resize_leaf : Ileaf → ℕ → ℕ → Ileaf
unfolding atdict add_idicts extend_dict extend_empty resize_offset resize_size
resize_leaf leaf at newsize =
    let offset = resize_offset leaf at in
    let size = resize_size leaf at in
    let more = sub32 newsize size in
    let limit = atdict leaf.dict leaf.count in
    let count = leaf.count + extend_empty leaf at in
    let dict = extend_dict (extend_empty leaf at) leaf.count limit leaf.dict in
    let itop = dict count in
    record leaf {
      count = count;
      table =
          memmove leaf.table (offset + newsize) leaf.table (offset + size) (itop - offset - size);
      dict = add_idicts (count - at) (at + 1) more dict;
    }

-- `n > 0` of an `int` as a pattern of 32 bits.
abbrev pub is_positive : ℕ → Bool
is_positive n = ltb 0 n && ltb n (2 ^ 31)

-- The place of the attributes and the changed leaf; `none` is NULL.
unfoldable pub ileaf_resize : Btree → ℕ → Ileaf → ℕ → Option (ℕ × Ileaf)
ileaf_resize btree inum leaf newsize =
    let at = inum - leaf.ibase in
    let size = resize_size leaf at in
    let more = sub32 newsize size in
    if leb btree.entries_per_leaf at
    then none
    else if is_positive more && ltb (ileaf_free btree leaf) (2 * extend_empty leaf at + more)
    then none
    else some (resize_offset leaf at, resize_leaf leaf at newsize)

-- `for (; at < icount(leaf); at++)` with its `break`, by the rounds left.
unfoldable pub find_empty_loop : ℕ → ℕ → ℕ → (ℕ → ℕ) → ℕ
find_empty_loop zero at offset dict = at
find_empty_loop (suc rounds) at offset dict =
    let rest = find_empty_loop rounds (at + 1) (dict (at + 1)) dict in
    if offset == dict (at + 1) then at else rest

unfoldable pub find_empty_inode : Btree → Ileaf → ℕ → ℕ
unfolding atdict find_empty_loop
find_empty_inode btree leaf goal =
    let at = goal - leaf.ibase in
    if leb btree.entries_per_leaf at
    then goal
    else if ltb at leaf.count
    then leaf.ibase + find_empty_loop (leaf.count - at) at (atdict leaf.dict at) leaf.dict
    else leaf.ibase + at

unfoldable pub ileaf_purge : Btree → ℕ → Ileaf → Ileaf
unfolding atdict add_idicts ileaf_trim
ileaf_purge btree inum leaf =
    let at = inum - leaf.ibase in
    let offset = atdict leaf.dict at in
    let size = leaf.dict (at + 1) - offset in
    let free = leaf.dict leaf.count in
    let tail = free - offset - size in
    ileaf_trim (record leaf {
      table = memmove leaf.table offset leaf.table (offset + size) tail;
      dict = add_idicts (leaf.count - at) (at + 1) (sub32 0 size) leaf.dict;
    })
