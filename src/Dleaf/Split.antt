-- ===== src/Dleaf/Split.antt =====
-- `dleaf_split_at` and `dleaf_split` of user/kernel/dleaf.c. An entry of the table is given by its
-- number, as the local variable `split` does.
use tux.Base.{
  ℕ, zero, suc, ◌+◌, ◌-◌, ◌*◌, ◌/◌, ◌^◌, ◌%◌, ◌==◌, ltb, if◌then◌else◌, Option, none, some, true,
  List, [], ◌∷◌, take, drop, length, get_or, ◌&&◌, not,
}
use tux.Dleaf.{Group, Entry, Dleaf, table_limit, zero_group, zero_entry, dleaf_check, dleaf_sniff}

-- `inc_group_count` and `inc_entry_limit`, with an `int` as a pattern of 32 bits; the fields are bytes.
unfoldable pub minus : ℕ → ℕ
minus n = (2 ^ 32 - n) % 2 ^ 32

unfoldable pub inc_count : Group → ℕ → Group
inc_count group n = record group { count = (group.count + n) % 256 }

unfoldable pub inc_limit : Entry → ℕ → Entry
inc_limit entry n = record entry { limit = (entry.limit + n) % 256 }

-- A loop of `inc_entry_limit` over the first entries of a table.
unfoldable pub inc_limits : ℕ → ℕ → List Entry → List Entry
unfolding inc_limit
inc_limits zero n entries = entries
inc_limits (suc count) n [] = []
inc_limits (suc count) n (entry ∷ entries) = inc_limit entry n ∷ inc_limits count n entries

-- The loop over the groups: the whole groups before the entry number `split`, the number of their
-- extents, and what is left of `split` in the next group.
unfoldable pub split_point : List Group → List Entry → ℕ → ℕ × ℕ × ℕ
split_point [] entries split = (0, 0, split)
split_point (group ∷ groups) entries split =
    let (grsplit, exsplit, cut) =
      split_point groups (drop group.count entries) (split - group.count) in
    if ltb split group.count
    then (0, 0, split)
    else (grsplit + 1, table_limit entries group.count + exsplit, cut)

unfoldable pub set_last_count : ℕ → List Group → List Group
set_last_count n [] = []
set_last_count n (group ∷ []) = record group { count = n % 256 } ∷ []
set_last_count n (group ∷ next ∷ groups) = group ∷ set_last_count n (next ∷ groups)

unfoldable pub inc_first_count : ℕ → List Group → List Group
unfolding inc_count
inc_first_count n [] = []
inc_first_count n (group ∷ groups) = inc_count group n ∷ groups

-- The two tables of groups: a group that is cut stands in both.
unfoldable pub keep_groups : ℕ → ℕ → List Group → List Group
unfolding set_last_count
keep_groups grsplit cut groups =
    if cut == 0 then take grsplit groups else set_last_count cut (take (grsplit + 1) groups)

unfoldable pub move_groups : ℕ → ℕ → List Group → List Group
unfolding inc_first_count minus
move_groups grsplit cut groups = inc_first_count (minus cut) (drop grsplit groups)

-- The entries of a group that is cut count their extents from the cut on.
unfoldable pub move_entries : ℕ → ℕ → List Group → List Entry → List Entry
unfolding inc_limits minus
move_entries split cut moved entries =
    if cut == 0
    then drop split entries
    else inc_limits (get_or moved 0 zero_group).count (minus (table_limit entries split))
        (drop split entries)

unfoldable pub split_extents : ℕ → ℕ → ℕ → List Entry → ℕ
split_extents exsplit split cut entries =
    exsplit + (if cut == 0 then 0 else table_limit entries split)

-- The tables are divided and the headers written; `into` keeps its magic number.
unfoldable pub divide : ℕ → Dleaf → Dleaf → ℕ → Dleaf × Dleaf × ℕ
unfolding split_point keep_groups move_groups move_entries split_extents
divide blocksize leaf into split =
    let (grsplit, whole, cut) = split_point leaf.groups leaf.entries split in
    let exsplit = split_extents whole split cut leaf.entries in
    let kept = keep_groups grsplit cut leaf.groups in
    let moved = move_groups grsplit cut leaf.groups in
    let groups2 = length leaf.groups - grsplit in
    let encopy = length leaf.entries - split in
    let size = (leaf.free + 2 ^ 32 - (8 + 8 * exsplit)) % 2 ^ 32 in
    (
      record leaf {
        free = (8 + 8 * exsplit) % 2 ^ 16;
        used = (blocksize + 2 ^ 32 - 4 * length kept - 4 * split) % 2 ^ 16;
        groups = kept;
        entries = take split leaf.entries;
        extents = take exsplit leaf.extents;
      },
      record into {
        free = (8 + size) % 2 ^ 16;
        used = (blocksize + 2 ^ 32 - 4 * groups2 - 4 * encopy) % 2 ^ 16;
        groups = moved;
        entries = move_entries split cut moved leaf.entries;
        extents = drop exsplit leaf.extents;
      },
      groups2,
    )

-- The assertions on the result.
unfoldable pub checked : ℕ → Dleaf × Dleaf × ℕ → Option (Dleaf × Dleaf × ℕ)
checked blocksize (leaf, into, groups2) = elim (dleaf_check blocksize leaf) [
  | some true ↦ elim (dleaf_check blocksize into) [
    | some true ↦ some (leaf, into, groups2)
    | _ ↦ none
  ]
  | _ ↦ none
]

-- `none` is a failed assertion.
unfoldable pub dleaf_split_at : ℕ → Dleaf → Dleaf → ℕ → Option (Dleaf × Dleaf × ℕ)
unfolding divide checked
dleaf_split_at blocksize leaf into split =
    if length leaf.groups == 0
    then some (leaf, into, 0)
    else if ltb split (length leaf.entries)
    then checked blocksize (divide blocksize leaf into split)
    else none

-- The key that `dleaf_split` returns: the first of the new leaf.
unfoldable pub first_index : Dleaf → ℕ
first_index leaf =
    (get_or leaf.groups 0 zero_group).keyhi * 2 ^ 24 + (get_or leaf.entries 0 zero_entry).keylo

-- The entry at `edict - entries / 2` has the number `entries / 2 - 1`, and is outside the table where
-- there are fewer than two.
unfoldable pub dleaf_split : ℕ → Dleaf → Dleaf → Option (Dleaf × Dleaf × ℕ)
unfolding dleaf_split_at first_index dleaf_sniff
dleaf_split blocksize leaf into =
    let half = length leaf.entries / 2 in
    let result = dleaf_split_at blocksize leaf into (half - 1) in
    if dleaf_sniff leaf && not (half == 0 && ltb 0 (length leaf.groups))
    then elim result [
      | none ↦ none
      | some (left, right, groups2) ↦ some (left, right, first_index right)
    ]
    else none
