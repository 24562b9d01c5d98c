-- ===== src/Dleaf/Walk.antt =====
-- The cursor over the extents of a file index leaf, `struct dwalk` (user/kernel/dleaf.c). A pointer to a
-- group or an entry is the number of groups or entries from the top of the block down to it, so that
-- `gdict` is 0 and `group--` adds 1; a pointer to an extent is its place in the table. `dwalk_check` is
-- a function of its own beside the operations that call it.
use tux.Base.{
  ℕ, ◌+◌, ◌-◌, ◌*◌, ◌^◌, ◌==◌, leb, ltb, ◌&&◌, not, if◌then◌else◌, Bool, true, false, length,
  get_or,
}
use tux.Dleaf.{Dleaf, zero_group, zero_entry, zero_extent}

pub record Walk : Type 0 where
  pub leaf : Dleaf
  pub group : ℕ
  pub gstop : ℕ
  pub entry : ℕ
  pub estop : ℕ
  pub exbase : ℕ
  pub extent : ℕ
  pub exstop : ℕ

-- `group_count` and `group_keyhi` of the group at a pointer, and `table_limit` and `entry_keylo`.
unfoldable pub count_at : Dleaf → ℕ → ℕ
count_at leaf group = (get_or leaf.groups (group - 1) zero_group).count

unfoldable pub keyhi_at : Dleaf → ℕ → ℕ
keyhi_at leaf group = (get_or leaf.groups (group - 1) zero_group).keyhi

unfoldable pub limit_at : Dleaf → ℕ → ℕ
limit_at leaf entry = (get_or leaf.entries (entry - 1) zero_entry).limit

unfoldable pub keylo_at : Dleaf → ℕ → ℕ
keylo_at leaf entry = (get_or leaf.entries (entry - 1) zero_entry).keylo

unfoldable pub dwalk_first : Walk → Bool
dwalk_first walk = walk.extent == 0

unfoldable pub dwalk_end : Walk → Bool
dwalk_end walk = walk.extent == walk.exstop

unfoldable pub dwalk_index : Walk → ℕ
unfolding keyhi_at keylo_at
dwalk_index walk = keyhi_at walk.leaf walk.group * 2 ^ 24 + keylo_at walk.leaf walk.entry

unfoldable pub dwalk_block : Walk → ℕ
dwalk_block walk = (get_or walk.leaf.extents walk.extent zero_extent).block

unfoldable pub dwalk_count : Walk → ℕ
dwalk_count walk = (get_or walk.leaf.extents walk.extent zero_extent).count

unfoldable pub dwalk_check : Walk → Bool
unfolding dwalk_end
dwalk_check walk =
    if length walk.leaf.groups == 0
    then walk.group == walk.gstop
      && walk.entry == walk.estop
      && walk.exbase == walk.extent
      && walk.extent == walk.exstop
      && walk.exstop == 0
    else if dwalk_end walk
    then walk.group == walk.gstop
      && walk.entry == walk.estop
      && ltb walk.exbase walk.extent
      && walk.extent == walk.exstop
    else leb walk.group walk.gstop
      && leb walk.entry walk.estop
      && leb walk.exbase walk.extent
      && ltb walk.extent walk.exstop

-- The steps of `dwalk_next` to the next entry and to the next group.
unfoldable pub next_entry : Walk → Walk
next_entry walk =
    let entry = walk.entry + 1 in
    record walk { entry = entry; exstop = walk.exbase + limit_at walk.leaf entry }

unfoldable pub next_group : Walk → Walk
next_group walk =
    let group = walk.group + 1 in
    record walk {
      group = group;
      exbase = walk.exbase + limit_at walk.leaf walk.estop;
      estop = walk.estop + count_at walk.leaf group;
    }

unfoldable pub dwalk_next : Walk → Bool × Walk
unfolding dwalk_end next_entry next_group
dwalk_next walk =
    let past = record walk { extent = walk.extent + 1 } in
    if dwalk_end walk
    then (false, walk)
    else if not (past.extent == walk.exstop)
    then (true, past)
    else if not (walk.entry == walk.estop)
    then (true, next_entry past)
    else if walk.group == walk.gstop
    then (false, past)
    else (true, next_entry (next_group past))

-- The first extent of the current entry, as `dwalk_back` and `dwalk_copy` compute it.
unfoldable pub entry_limit_before : Walk → ℕ
entry_limit_before walk =
    if walk.entry - 1 + count_at walk.leaf walk.group == walk.estop
    then 0
    else limit_at walk.leaf (walk.entry - 1)

unfoldable pub back_entry : Walk → Walk
back_entry walk =
    let entry = walk.entry - 1 in
    record walk { entry = entry; exstop = walk.exbase + limit_at walk.leaf entry }

unfoldable pub back_group : Walk → Walk
back_group walk = record walk {
  group = walk.group - 1;
  estop = walk.entry - 1;
  exbase = walk.exbase - limit_at walk.leaf (walk.entry - 1);
}

unfoldable pub dwalk_back : Walk → Bool × Walk
unfolding dwalk_first entry_limit_before back_entry back_group
dwalk_back walk =
    let entry_exbase = walk.exbase + entry_limit_before walk in
    let before = record walk { extent = walk.extent - 1 } in
    if dwalk_first walk
    then (false, walk)
    else if leb entry_exbase before.extent
    then (true, before)
    else if leb walk.exbase before.extent
    then (true, back_entry before)
    else if walk.group == 0
    then (true, before)
    else (true, back_entry (back_group before))
