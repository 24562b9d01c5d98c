-- ===== src/Dleaf.antt =====
-- File index leaves (user/kernel/dleaf.c): the tables of groups, of entries and of extents, as lists in
-- the order of the logical addresses, and the header with its 16-bit fields `free` and `used`. A group
-- and an entry are the two fields of their words. What lies between the tables reads as zero.
mod Joined
mod Added
mod Assert
mod MergeView
mod Tails
mod Merged
mod JoinGroups
mod View
mod Examples
pub mod Merge
mod Truncate
mod Copied
mod Point
pub mod Probe
pub mod Pack
mod Visit
mod Walked
mod Steps
pub mod Walk
mod SplitView
mod Divided
mod Halves
mod CutGroup
mod Cut
pub mod Split
mod Check
use tux.Base.{
  ℕ, zero, suc, ◌+◌, ◌-◌, ◌*◌, ◌^◌, ◌%◌, ◌==◌, leb, ltb, ◌&&◌, not, if◌then◌else◌, Bool, true,
  false, Option, none, some, List, [], ◌∷◌, drop, length, get_or,
}

pub record Group : Type 0 where
  pub keyhi : ℕ
  pub count : ℕ

pub record Entry : Type 0 where
  pub keylo : ℕ
  pub limit : ℕ

pub record Extent : Type 0 where
  pub block : ℕ
  pub count : ℕ

-- struct dleaf
pub record Dleaf : Type 0 where
  pub magic : ℕ
  pub free : ℕ
  pub used : ℕ
  pub groups : List Group
  pub entries : List Entry
  pub extents : List Extent

-- TUX3_MAGIC_DLEAF, MAX_GROUP_ENTRIES and the sizes of the header, of an extent, and of a group or an
-- entry.
abbrev pub magic_dleaf : ℕ
magic_dleaf = 0x1eaf

abbrev pub max_group_entries : ℕ
max_group_entries = 255

abbrev pub zero_group : Group
zero_group = record { keyhi = 0; count = 0 }

abbrev pub zero_entry : Entry
zero_entry = record { keylo = 0; limit = 0 }

abbrev pub zero_extent : Extent
zero_extent = record { block = 0; count = 0 }

-- The limit of entry number `at` of the table, counted from 1.
abbrev pub table_limit : List Entry → ℕ → ℕ
table_limit entries at = (get_or entries (at - 1) zero_entry).limit

unfoldable pub dleaf_init : ℕ → Dleaf
dleaf_init blocksize = record {
  magic = magic_dleaf;
  free = 8;
  used = blocksize % 2 ^ 16;
  groups = [];
  entries = [];
  extents = [];
}

unfoldable pub dleaf_sniff : Dleaf → Bool
dleaf_sniff leaf = leaf.magic == magic_dleaf

-- A difference of two numbers is an `unsigned`.
unfoldable pub dleaf_free : Dleaf → ℕ
dleaf_free leaf = (leaf.used + 2 ^ 32 - leaf.free) % 2 ^ 32

unfoldable pub dleaf_need : ℕ → Dleaf → ℕ
dleaf_need blocksize leaf = (blocksize + 2 ^ 33 - dleaf_free leaf - 8) % 2 ^ 32

-- The loop of `dleaf_free2`: the numbers of entries and of extents that the groups count.
unfoldable pub group_totals : List Group → List Entry → ℕ × ℕ
group_totals [] entries = (0, 0)
group_totals (group ∷ groups) entries =
    let (encount, excount) = group_totals groups (drop group.count entries) in
    (group.count + encount, table_limit entries group.count + excount)

-- The `int` that it returns, as a pattern of 32 bits.
unfoldable pub dleaf_free2 : ℕ → Dleaf → ℕ
unfolding group_totals
dleaf_free2 blocksize leaf =
    let (encount, excount) = group_totals leaf.groups leaf.entries in
    (blocksize + 2 ^ 32 - 4 * length leaf.groups - 4 * encount - (8 + 8 * excount)) % 2 ^ 32

-- The inner loops of `dleaf_check`, by the entries and by the extents left: `least` is one more than
-- the last `keylo`.
unfoldable pub check_entries : ℕ → ℕ → ℕ → List Entry → Bool
check_entries zero least limit entries = true
check_entries (suc count) least limit [] = false
check_entries (suc count) least limit (entry ∷ entries) =
    leb least entry.keylo
    && ltb limit entry.limit
    && check_entries count (entry.keylo + 1) entry.limit entries

unfoldable pub check_extents : ℕ → List Extent → Bool
check_extents zero extents = true
check_extents (suc count) [] = false
check_extents (suc count) (extent ∷ extents) =
    not (extent.block == 0) && check_extents count extents

unfoldable pub check_group : ℕ → Group → List Entry → List Extent → Bool
unfolding check_entries check_extents
check_group keyhi group entries extents =
    leb keyhi group.keyhi
    && ltb 0 group.count
    && leb group.count max_group_entries
    && check_entries group.count 0 0 entries
    && check_extents (table_limit entries group.count) extents

unfoldable pub check_groups : ℕ → List Group → List Entry → List Extent → Bool
check_groups keyhi [] entries extents = true
check_groups keyhi (group ∷ groups) entries extents =
    check_group keyhi group entries extents
    && check_groups group.keyhi groups (drop group.count entries)
        (drop (table_limit entries group.count) extents)

-- `none` is a failed assertion, `some false` the result -1.
unfoldable pub dleaf_check : ℕ → Dleaf → Option Bool
unfolding check_groups group_totals dleaf_free2
dleaf_check blocksize leaf =
    let (encount, excount) = group_totals leaf.groups leaf.entries in
    if length leaf.groups == 0
    then some true
    else if not (check_groups 0 leaf.groups leaf.entries leaf.extents)
    then none
    else some (
        leaf.used + 4 * length leaf.groups + 4 * encount == blocksize
        && leaf.free == 8 + 8 * excount
        && (leaf.used + 2 ^ 32 - leaf.free) % 2 ^ 32 == dleaf_free2 blocksize leaf)
