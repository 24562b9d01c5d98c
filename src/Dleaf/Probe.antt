-- ===== src/Dleaf/Probe.antt =====
-- `dwalk_probe` (user/kernel/dleaf.c): the search of a key in the groups and in the entries of one group.
use tux.Base.{
  ℕ, zero, suc, ◌+◌, ◌-◌, ◌/◌, ◌^◌, ◌%◌, ◌==◌, ltb, not, if◌then◌else◌, Bool, true, false, length,
}
use tux.Dleaf.{Dleaf}
use tux.Dleaf.Walk.{
  Walk, count_at, keyhi_at, limit_at, keylo_at, dwalk_end, dwalk_index, dwalk_count, dwalk_next,
}

-- Where the loop over the groups ends: at one of its labels, or behind all groups.
pub data Place : Type 0 where
  no_group probe_entry past_groups : Place

unfoldable pub probe_groups : ℕ → ℕ → ℕ → Walk → Place × Walk
unfolding count_at keyhi_at limit_at keylo_at
probe_groups zero keyhi keylo walk = (past_groups, walk)
probe_groups (suc rounds) keyhi keylo walk =
    let leaf = walk.leaf in
    let group = walk.group + 1 in
    let entry = walk.estop + 1 in
    let estop = walk.estop + count_at leaf group in
    let here = record walk { group = group; entry = entry; estop = estop } in
    let rest =
      probe_groups rounds keyhi keylo
        (record here { exbase = walk.exbase + limit_at leaf estop }) in
    if ltb keyhi (keyhi_at leaf group)
    then (no_group, here)
    else if not (keyhi_at leaf group == keyhi)
    then rest
    else if ltb keylo (keylo_at leaf entry)
    then (no_group, here)
    else if group == walk.gstop
    then (probe_entry, here)
    else if ltb keyhi (keyhi_at leaf (group + 1))
    then (probe_entry, here)
    else if ltb keylo (keylo_at leaf (estop + 1))
    then (probe_entry, here)
    else rest

-- The loop over the entries, by those left in the group.
unfoldable pub probe_entries : ℕ → ℕ → Walk → Walk
unfolding limit_at keylo_at
probe_entries zero keylo walk = walk
probe_entries (suc rounds) keylo walk =
    let entry = walk.entry + 1 in
    let rest = probe_entries rounds keylo (record walk {
      entry = entry;
      extent = walk.exstop;
      exstop = walk.exbase + limit_at walk.leaf entry;
    }) in
    if ltb keylo (keylo_at walk.leaf entry) then walk else rest

-- At the first extent of the current entry's group.
unfoldable pub at_group : Walk → Walk
unfolding limit_at
at_group walk = record walk {
  extent = walk.exbase;
  exstop = walk.exbase + limit_at walk.leaf walk.entry;
}

unfoldable pub at_past : Walk → Walk
unfolding limit_at
at_past walk = record walk {
  entry = walk.estop;
  exstop = walk.exbase;
  extent = walk.exbase;
  exbase = walk.exbase - limit_at walk.leaf walk.estop;
}

unfoldable pub at_entry : ℕ → ℕ → Walk → Bool × Walk
unfolding at_group probe_entries dwalk_index dwalk_count dwalk_next dwalk_end
at_entry key keylo walk =
    let found = probe_entries (walk.estop - walk.entry) keylo (at_group walk) in
    let (more, next) = dwalk_next found in
    if ltb key (dwalk_index found + dwalk_count found)
    then (true, found)
    else (not (dwalk_end next), next)

unfoldable pub arrive : ℕ → ℕ → Place × Walk → Bool × Walk
unfolding at_group at_past at_entry
arrive key keylo (no_group, walk) = (true, at_group walk)
arrive key keylo (probe_entry, walk) = at_entry key keylo walk
arrive key keylo (past_groups, walk) = (false, at_past walk)

unfoldable pub walk_top : Dleaf → Walk
walk_top leaf = record {
  leaf = leaf;
  group = 0;
  gstop = length leaf.groups;
  entry = 0;
  estop = 0;
  exbase = 0;
  extent = 0;
  exstop = 0;
}

unfoldable pub dwalk_probe : Dleaf → ℕ → Bool × Walk
unfolding walk_top probe_groups arrive
dwalk_probe leaf key =
    let keylo = key % 2 ^ 24 in
    let keyhi = key / 2 ^ 24 in
    if length leaf.groups == 0
    then (false, walk_top leaf)
    else arrive key keylo (probe_groups (length leaf.groups) keyhi keylo (walk_top leaf))
