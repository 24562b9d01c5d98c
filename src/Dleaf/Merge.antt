-- ===== src/Dleaf/Merge.antt =====
-- `dleaf_merge` of user/kernel/dleaf.c.
use tux.Base.{
  ℕ, ◌+◌, ◌-◌, ◌*◌, ◌^◌, ◌%◌, ◌==◌, ltb, ◌&&◌, if◌then◌else◌, Option, none, some, true, List, [],
  ◌∷◌, ◌++◌, take, drop, length, get_or,
}
use tux.Dleaf.{Group, Entry, Dleaf, table_limit, zero_group, max_group_entries, dleaf_check}
use tux.Dleaf.Split.{minus, inc_count, inc_limits}
use tux.Dleaf.Pack.{set_first_count}

-- The entries of the first group that go to the last group of the other leaf, and those that do not fit
-- there.
unfoldable pub merge_counts : List Group → List Group → ℕ × ℕ
merge_counts groups from =
    let last = get_or groups (length groups - 1) zero_group in
    let first = get_or from 0 zero_group in
    let room = max_group_entries - last.count in
    if last.keyhi == first.keyhi && ltb last.count max_group_entries
    then if ltb room first.count then (room, first.count - room) else (first.count, 0)
    else (0, 0)

unfoldable pub inc_last_count : ℕ → List Group → List Group
unfolding inc_count
inc_last_count n [] = []
inc_last_count n (group ∷ []) = inc_count group n ∷ []
inc_last_count n (group ∷ next ∷ groups) = group ∷ inc_last_count n (next ∷ groups)

-- The groups that are appended: a first group that is merged whole is left out.
unfoldable pub append_groups : ℕ → ℕ → List Group → List Group
unfolding set_first_count
append_groups merged rest from =
    if merged == 0 then from else if rest == 0 then drop 1 from else set_first_count rest from

-- The loops over the entries that are appended: the merged ones count on from the limit `last`, and the
-- others of their group begin at 0.
unfoldable pub append_entries : ℕ → ℕ → ℕ → List Entry → List Entry
unfolding inc_limits minus
append_entries merged rest last from =
    if merged == 0
    then from
    else inc_limits merged last (take merged from)
      ++ inc_limits rest (minus (table_limit from merged)) (drop merged from)

unfoldable pub join : Dleaf → Dleaf → Dleaf
unfolding merge_counts inc_last_count append_groups append_entries
join leaf from =
    let (merged, rest) = merge_counts leaf.groups from.groups in
    let added = append_groups merged rest from.groups in
    let last = table_limit leaf.entries (length leaf.entries) in
    let size = (from.free + 2 ^ 32 - 8) % 2 ^ 32 in
    record leaf {
      free = (leaf.free + size) % 2 ^ 16;
      used = (leaf.used + 2 ^ 32 - 4 * length added - 4 * length from.entries) % 2 ^ 16;
      groups = inc_last_count merged leaf.groups ++ added;
      entries = leaf.entries ++ append_entries merged rest last from.entries;
      extents = leaf.extents ++ from.extents;
    }

-- `none` is the failed assertion on the result.
unfoldable pub dleaf_merge : ℕ → Dleaf → Dleaf → Option Dleaf
unfolding join
dleaf_merge blocksize leaf from =
    if length from.groups == 0
    then some leaf
    else if length leaf.groups == 0
    then some from
    else elim (dleaf_check blocksize (join leaf from)) [
      | some true ↦ some (join leaf from)
      | _ ↦ none
    ]
