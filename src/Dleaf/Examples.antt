-- ===== src/Dleaf/Examples.antt =====
-- Runs of the operations on file index leaves (user/kernel/dleaf.c) at concrete leaves.
use tux.Base.{◌++◌, ℕ, ◌+◌, ◌-◌, false, ◌⊎◌, ◌/◌, ◌≡◌, refl, arith, true, some, [], ◌∷◌, length}
use tux.Dleaf.{Group, Entry, Extent, Dleaf, dleaf_check, check_group, dleaf_sniff}
use tux.Dleaf.View.{view, AreGroups}
use tux.Dleaf.Check.{IsDleaf, IsDleaf-intro, dleaf_check_iff}
use tux.Dleaf.Split.{divide, dleaf_split_at, dleaf_split}
use tux.Dleaf.SplitView.{IsSplit, first_key, dleaf_split_at-IsSplit, dleaf_split-IsSplit}
use tux.Dleaf.Walk.{Walk, count_at, limit_at, entry_limit_before, dwalk_end, dwalk_next, dwalk_back}
use tux.Dleaf.Steps.{IsWalk, bases}
use tux.Dleaf.Visit.{dwalk_back-dwalk_next}
use tux.Dleaf.Walked.{AreGroups-IsWalked}
use tux.Dleaf.Probe.{dwalk_probe}
use tux.Dleaf.Pack.{dwalk_add, dwalk_copy, dwalk_chop, free_extents, dleaf_chop}
use tux.Dleaf.Merge.{merge_counts, join, dleaf_merge}
use tux.Dleaf.Added.{single, IsEnd, dwalk_add-view}
use tux.Dleaf.Walk.{dwalk_index}
use tux.Dleaf.MergeView.{Precedes, dleaf_merge-view}
use tux.Dleaf.Truncate.{dwalk_copy-dwalk_chop, free_extents-drop}

abbrev group_of : ℕ → ℕ → Group
group_of keyhi count = record { keyhi = keyhi; count = count }

abbrev entry_of : ℕ → ℕ → Entry
entry_of keylo limit = record { keylo = keylo; limit = limit }

abbrev extent_of : ℕ → ℕ → Extent
extent_of block count = record { block = block; count = count }

-- Two groups of two entries; the second entry has two extents.
abbrev two_groups : Dleaf
two_groups = record {
  magic = 0x1eaf;
  free = 48;
  used = 232;
  groups = group_of 0 2 ∷ group_of 3 2 ∷ [];
  entries = entry_of 1 1 ∷ entry_of 5 3 ∷ entry_of 0 1 ∷ entry_of 8 2 ∷ [];
  extents =
      extent_of 100 1 ∷ extent_of 200 2 ∷ extent_of 300 1 ∷ extent_of 400 4 ∷ extent_of 500 1 ∷ [];
}

abbrev blank : Dleaf
blank = record { magic = 0x1eaf; free = 8; used = 256; groups = []; entries = []; extents = [] }

two_groups-AreGroups : AreGroups 0 two_groups.groups two_groups.entries two_groups.extents
two_groups-AreGroups = (
  record {
    above = omega arith;
    key = omega arith;
    some_entry = omega arith;
    few = omega arith;
    are_entries = omega arith;
    are_extents = omega arith;
  },
  (
    record {
      above = omega arith;
      key = omega arith;
      some_entry = omega arith;
      few = omega arith;
      are_entries = omega arith;
      are_extents = omega arith;
    },
    (refl, refl),
  ),
)

two_groups-IsDleaf : IsDleaf 256 two_groups
two_groups-IsDleaf =
    IsDleaf-intro 256 two_groups refl refl (omega arith) (omega arith) two_groups-AreGroups

-- At the first extent of the second group.
abbrev second_group : Walk
second_group = record {
  leaf = two_groups;
  group = 2;
  gstop = 2;
  entry = 3;
  estop = 4;
  exbase = 3;
  extent = 3;
  exstop = 4;
}

second_group-IsWalk : IsWalk second_group 1 1
unfolding count_at limit_at entry_limit_before
second_group-IsWalk = record {
  walked =
      AreGroups-IsWalked 0 two_groups.groups two_groups two_groups.extents refl
        two_groups-AreGroups;
  stop = refl;
  here = refl;
  within = omega arith;
  entry_at = refl;
  some_entry = omega arith;
  in_group = omega arith;
  entries_to = refl;
  base = refl;
  extents_to = refl;
  from = omega arith;
  to = omega arith;
}

dleaf_check_iff_example :
    (dleaf_check 256 two_groups ≡ some true
      → AreGroups 0 two_groups.groups two_groups.entries two_groups.extents)
    × (AreGroups 0 two_groups.groups two_groups.entries two_groups.extents
        → dleaf_check 256 two_groups ≡ some true)
dleaf_check_iff_example = dleaf_check_iff 256 two_groups two_groups-IsDleaf.delimits (omega arith)

dleaf_split_at-IsSplit_example :
    (left : Dleaf) × (right : Dleaf) × (groups2 : ℕ) × (dleaf_split_at 256 two_groups blank 1
      ≡ some (left, right, groups2))
    × IsSplit 256 two_groups 1 left right groups2
dleaf_split_at-IsSplit_example =
    dleaf_split_at-IsSplit 256 two_groups blank 1 two_groups-IsDleaf (omega arith)

dleaf_split-IsSplit_example :
    (left : Dleaf) × (right : Dleaf) × (key : ℕ) × (dleaf_split 256 two_groups blank
      ≡ some (left, right, key))
    × IsSplit 256 two_groups (length two_groups.entries / 2 - 1) left right (length right.groups)
    × (first_key (view right) ≡ some key)
unfolding dleaf_sniff
dleaf_split-IsSplit_example =
    dleaf_split-IsSplit 256 two_groups blank two_groups-IsDleaf refl (omega arith)

dwalk_back-dwalk_next_example :
    let (more, next) = dwalk_next second_group in
    (next.extent ≡ second_group.extent + 1)
    × (next.leaf ≡ second_group.leaf)
    × (((more ≡ true) × (m : ℕ) × (j : ℕ) × IsWalk next m j)
        ⊎ ((more ≡ false)
            × (dwalk_end next ≡ true)
            × (next.extent ≡ bases second_group.leaf second_group.gstop)))
    × (dwalk_back next ≡ (true, second_group))
dwalk_back-dwalk_next_example = dwalk_back-dwalk_next second_group 1 1 second_group-IsWalk

dwalk_copy-dwalk_chop_example :
    IsSplit 256 two_groups 2
      (dwalk_chop 256 second_group).leaf
      (dwalk_copy 256 second_group blank)
      (length (dwalk_copy 256 second_group blank).groups)
unfolding entry_limit_before count_at
dwalk_copy-dwalk_chop_example =
    dwalk_copy-dwalk_chop 256 second_group blank 1 0 two_groups-IsDleaf second_group-IsWalk
      (omega arith) refl

free_extents-drop_example : free_extents 5 second_group ≡ (400, 4) ∷ (500, 1) ∷ []
free_extents-drop_example =
    free_extents-drop 5 256 second_group 1 1 two_groups-IsDleaf second_group-IsWalk (omega arith)

-- The cursor on group 2 is where the key 0x3000000 is found.
dwalk_probe_second : dwalk_probe two_groups 0x3000000 ≡ (true, second_group)
unfolding dwalk_probe
dwalk_probe_second = refl

-- A chop within an extent frees its end and the extents behind it.
dleaf_chop_within : (dleaf_chop 256 0x3000002 two_groups).1 ≡ (402, 2) ∷ (500, 1) ∷ []
unfolding dleaf_chop
dleaf_chop_within = refl

-- A split and a merge give the leaf back.
merge_split :
    dleaf_merge 256 (dwalk_chop 256 second_group).leaf (dwalk_copy 256 second_group blank)
    ≡ some two_groups
unfolding dleaf_merge dwalk_chop dwalk_copy dleaf_check check_group
merge_split = refl

-- So do a split within a group and a merge, which joins the two parts of the group.
merge_parts :
    dleaf_merge 256 (divide 256 two_groups blank 3).0 (divide 256 two_groups blank 3).1
    ≡ some two_groups
unfolding dleaf_merge divide dleaf_check check_group
merge_parts = refl

-- An extent that goes on past a multiple of 2 ^ 24 is not found there.
abbrev crossing : Dleaf
crossing = record {
  magic = 0x1eaf;
  free = 16;
  used = 248;
  groups = group_of 0 1 ∷ [];
  entries = entry_of 0xffffff 1 ∷ [];
  extents = extent_of 100 4 ∷ [];
}

dwalk_probe-crossing : (dwalk_probe crossing 0x1000001).0 ≡ false
unfolding dwalk_probe
dwalk_probe-crossing = refl

-- Two leaves that meet in group 0.
abbrev lower_leaf : Dleaf
lower_leaf = record {
  magic = 0x1eaf;
  free = 32;
  used = 244;
  groups = group_of 0 2 ∷ [];
  entries = entry_of 1 1 ∷ entry_of 5 3 ∷ [];
  extents = extent_of 100 1 ∷ extent_of 200 2 ∷ extent_of 300 1 ∷ [];
}

abbrev upper_leaf : Dleaf
upper_leaf = record {
  magic = 0x1eaf;
  free = 24;
  used = 240;
  groups = group_of 0 1 ∷ group_of 3 1 ∷ [];
  entries = entry_of 9 1 ∷ entry_of 0 1 ∷ [];
  extents = extent_of 400 4 ∷ extent_of 500 1 ∷ [];
}

lower_leaf-IsDleaf : IsDleaf 256 lower_leaf
lower_leaf-IsDleaf = IsDleaf-intro 256 lower_leaf refl refl (omega arith) (omega arith) (
  record {
    above = omega arith;
    key = omega arith;
    some_entry = omega arith;
    few = omega arith;
    are_entries = omega arith;
    are_extents = omega arith;
  },
  (refl, refl),
)

upper_leaf-IsDleaf : IsDleaf 256 upper_leaf
upper_leaf-IsDleaf = IsDleaf-intro 256 upper_leaf refl refl (omega arith) (omega arith) (
  record {
    above = omega arith;
    key = omega arith;
    some_entry = omega arith;
    few = omega arith;
    are_entries = omega arith;
    are_extents = omega arith;
  },
  (
    record {
      above = omega arith;
      key = omega arith;
      some_entry = omega arith;
      few = omega arith;
      are_entries = omega arith;
      are_extents = omega arith;
    },
    (refl, refl),
  ),
)

lower_leaf-Precedes : Precedes lower_leaf upper_leaf
unfolding merge_counts
lower_leaf-Precedes = record {
  groups_ascend = omega arith;
  entries_ascend = λ same. omega arith;
  limits_fit = λ some_merged. omega arith;
}

dleaf_merge-view_example :
    let merged = join lower_leaf upper_leaf in
    (dleaf_merge 256 lower_leaf upper_leaf ≡ some merged)
    × IsDleaf 256 merged
    × (view merged ≡ view lower_leaf ++ view upper_leaf)
dleaf_merge-view_example =
    dleaf_merge-view 256 lower_leaf upper_leaf lower_leaf-IsDleaf upper_leaf-IsDleaf (omega arith)
      (omega arith) (omega arith) lower_leaf-Precedes

-- Behind the last extent of the lower leaf.
abbrev lower_end : Walk
lower_end = record {
  leaf = lower_leaf;
  group = 1;
  gstop = 1;
  entry = 2;
  estop = 2;
  exbase = 0;
  extent = 3;
  exstop = 3;
}

lower_end-IsEnd : IsEnd lower_end
lower_end-IsEnd = record {
  some_group = omega arith;
  last_group_at = refl;
  last_entry_at = refl;
  behind = refl;
  base = refl;
}

lower_end-Precedes : Precedes lower_leaf (single 256 9 (extent_of 600 2))
unfolding merge_counts
lower_end-Precedes = record {
  groups_ascend = omega arith;
  entries_ascend = λ same. omega arith;
  limits_fit = λ some_merged. omega arith;
}

dwalk_add-view_example :
    (u : Walk) × (dwalk_add 256 lower_end 9 (extent_of 600 2) ≡ some u)
    × IsDleaf 256 u.leaf
    × (view u.leaf ≡ view lower_leaf ++ ((9, extent_of 600 2 ∷ []) ∷ []))
unfolding dwalk_index
dwalk_add-view_example =
    dwalk_add-view 256 lower_end 9 (extent_of 600 2) lower_leaf-IsDleaf lower_end-IsEnd
      (omega arith) (omega arith) refl (omega arith) (omega arith) lower_end-Precedes
