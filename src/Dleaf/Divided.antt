-- ===== src/Dleaf/Divided.antt =====
-- The point where `dleaf_split_at` divides the tables (user/kernel/dleaf.c).
use tux.Base.{
  ℕ, ◌+◌, ◌-◌, ◌^◌, ◌%◌, ◌==◌, ltb, ◌≤◌, ◌<◌, ◌≡◌, refl, sym, ◌∙◌, ap, arith, List, [], ◌∷◌, ◌++◌,
  append_assoc, append-nil, take, drop, length, length-drop, false, Bool-cases, inl, inr,
}
use tux.Base.Slices.{take-take, drop-drop, drop-take_sum}
use tux.Dleaf.{Group, Entry, Extent, table_limit}
use tux.Dleaf.View.{cells, group_cells, IsGroup, AreGroups}
use tux.Dleaf.Check.{AreExtents-length}
use tux.Dleaf.Split.{
  minus, inc_count, inc_limits, split_point, set_last_count, inc_first_count, keep_groups,
  move_groups, move_entries, split_extents,
}
use tux.Dleaf.Cut.{table_limit-last_limit, AreEntries-take, AreExtents-take}
use tux.Dleaf.CutGroup.{
  cut_limits, table_limit-take, drop-take_self, IsGroup-kept, IsGroup-moved, behind_cut,
  cells-cut_group,
}
use tux.Dleaf.Halves.{
  cells-take, keep_groups-cons, move_groups-cons, Halves, split_extents-cons, move_entries-cons,
}

module _ (keyhi : ℕ) (group : Group) (groups : List Group) (entries : List Entry)
    (extents : List Extent) where
  IsGroup-whole : IsGroup keyhi group entries extents → IsGroup 0 group entries extents
  IsGroup-whole is = record {
    above = omega arith;
    key = is.key;
    some_entry = is.some_entry;
    few = is.few;
    are_entries = is.are_entries;
    are_extents = is.are_extents;
  }

  -- A cut before the first entry moves everything.
  Halves-first :
      AreGroups keyhi (group ∷ groups) entries extents
      → Halves keyhi (group ∷ groups) entries extents 0 0 0 0
  unfolding keep_groups move_groups move_entries split_extents inc_first_count inc_count minus
      group_cells
  Halves-first (is, rest) =
      let few = is.few in
      let e : (group.count + 0) % 256 ≡ group.count = omega arith in
      record {
        group_within = omega arith;
        cut_within = omega arith;
        extents_within = omega arith;
        kept_groups = (refl, refl);
        moved_groups = rw e (IsGroup-whole is, rest);
        together = rw e refl;
      }

  module _ (split : ℕ) (pos : 0 < split) (within : split < group.count) where
    Halves-inside :
        AreGroups keyhi (group ∷ groups) entries extents
        → Halves keyhi (group ∷ groups) entries extents split 0 0 split
    unfolding keep_groups move_groups move_entries split_extents set_last_count inc_first_count
        inc_count minus group_cells
    Halves-inside (is, rest) =
        let few = is.few in
        let m = group.count - split in
        let lim = table_limit entries split in
        let sum : group.count ≡ split + m = omega arith in
        let pos' : 0 < m = omega arith in
        let zero_cut : (split == 0) ≡ false = ground arith in
        let kept : split % 256 ≡ split = omega arith in
        let left : (group.count + (2 ^ 32 - split) % 2 ^ 32) % 256 ≡ m = omega arith in
        let z : 0 + lim ≡ lim = omega arith in
        let (le, are, eq) = cut_limits keyhi group entries extents is split m sum pos pos' in
        let (es, xs) = behind_cut keyhi group entries extents is split m sum pos pos' in
        let c = cells-cut_group keyhi group entries extents is split m sum pos pos' in
        let more = AreExtents-length (table_limit entries group.count) extents is.are_extents in
        let own = table_limit-take split split entries pos (omega arith) in
        let none_left = drop-take_self {0} split entries in
        let none_more = drop-take_self {0} lim extents in
        let self = take-take split split entries (omega arith) in
        let moved_cells =
          cells group.keyhi 0 (take m (inc_limits m (minus lim) (drop split entries)))
            (drop lim extents) in
        let rest_cells =
          group_cells groups (drop group.count entries)
            (drop (table_limit entries group.count) extents) in
        let g : Group = record group { count = split } in
        let h : Group = record group { count = m } in
        record {
          group_within = omega arith;
          cut_within = omega arith;
          extents_within = rw zero_cut (omega arith);
          kept_groups = rw zero_cut (
              rw z (
                rw kept (
                  IsGroup-kept keyhi group entries extents is split m sum pos pos' g refl refl,
                  (none_left, rw own none_more),
                )));
          moved_groups = rw zero_cut (
              rw z (
                rw left (
                  IsGroup-moved keyhi group entries extents is split m sum pos pos' h refl refl,
                  rw es (rw xs rest),
                )));
          together = rw zero_cut (
              rw z (
                rw kept (
                  rw left (
                    rw es (
                      rw xs (
                        rw c (
                          rw self (
                            ap (λ l. l ++ (moved_cells ++ rest_cells))
                              (append-nil
                                (cells group.keyhi 0 (take split entries) (take lim extents)))
                            ∙ sym (
                                append_assoc
                                  (cells group.keyhi 0 (take split entries) (take lim extents))
                                  moved_cells rest_cells)))))))));
        }

  -- A cut behind the first group.
  module _ (split gr whole cut : ℕ) (is : IsGroup keyhi group entries extents)
      (le : group.count ≤ split) where
    Halves-behind :
        Halves group.keyhi groups
          (drop group.count entries)
          (drop (table_limit entries group.count) extents)
          (split - group.count)
          gr
          whole
          cut
        → Halves keyhi
            (group ∷ groups)
            entries
            extents
            split
            (gr + 1)
            (table_limit entries group.count + whole)
            cut
    unfolding group_cells
    Halves-behind h =
        let count = group.count in
        let lim = table_limit entries count in
        let within = h.cut_within in
        let inside = h.group_within in
        let few = is.few in
        let some_entry = is.some_entry in
        let kept = keep_groups-cons gr cut group groups h.group_within in
        let moved = move_groups-cons gr cut group groups in
        let ex = split_extents whole (split - count) cut (drop count entries) in
        let cons = split_extents-cons group entries split cut lim whole le h.cut_within in
        let es =
          move_entries-cons group entries split cut (move_groups gr cut groups) le h.cut_within in
        let more = AreExtents-length lim extents is.are_extents in
        let room = h.extents_within in
        let rest_length = length-drop {0} lim extents in
        let own = table_limit-take count split entries some_entry le in
        let s : split ≡ count + (split - count) = omega arith in
        let cut_es =
          ap (λ n. drop count (take n entries)) s ∙ drop-take_sum count (split - count) entries in
        let cut_xs = drop-take_sum lim ex extents in
        let moved_xs = drop-drop lim ex extents in
        let first = take-take count split entries le in
        let last = table_limit-last_limit count 0 0 entries some_entry is.are_entries in
        let same =
          cells-take group.keyhi count (lim + ex) 0 0 entries extents is.are_entries (omega arith)
            (omega arith) in
        let below : IsGroup keyhi group (take split entries) (take (lim + ex) extents) = record {
          above = is.above;
          key = is.key;
          some_entry = is.some_entry;
          few = is.few;
          are_entries = AreEntries-take count split 0 0 entries le is.are_entries;
          are_extents =
              rw own (AreExtents-take lim (lim + ex) extents (omega arith) is.are_extents);
        } in
        record {
          group_within = omega arith;
          cut_within = omega arith;
          extents_within = rw cons (omega arith);
          kept_groups = rw cons (rw kept (below, rw own (rw cut_es (rw cut_xs h.kept_groups))));
          moved_groups = rw cons (rw moved (rw es (rw⁻¹ moved_xs h.moved_groups)));
          together = rw cons (
              rw kept (
                rw moved (
                  rw es (
                    rw⁻¹ moved_xs (
                      rw own (
                        rw cut_es (
                          rw cut_xs (
                            rw first (
                              rw same (
                                append_assoc (cells group.keyhi 0 (take count entries) extents)
                                  (group_cells (keep_groups gr cut groups)
                                    (take (split - count) (drop count entries))
                                    (take ex (drop lim extents)))
                                  (group_cells (move_groups gr cut groups)
                                    (move_entries (split - count) cut (move_groups gr cut groups)
                                      (drop count entries))
                                    (drop ex (drop lim extents)))
                                ∙ ap (λ l. cells group.keyhi 0 (take count entries) extents ++ l)
                                    h.together))))))))));
        }

-- The loop over the groups finds such a point.
pub split_point-Halves :
    (keyhi : ℕ) (groups : List Group) (entries : List Entry) (extents : List Extent) (split : ℕ)
    → AreGroups keyhi groups entries extents
    → split < length entries
    → let (gr, whole, cut) = split_point groups entries split in
      Halves keyhi groups entries extents split gr whole cut
unfolding split_point
split_point-Halves keyhi [] entries extents split (none_left, none_more) within =
    absurd (let e = ap length none_left in omega arith)
split_point-Halves keyhi (group ∷ groups) entries extents split (is, rest) within =
    let n = length-drop {0} group.count entries in
    elim (Bool-cases (ltb split group.count)) [
      | inl e ↦ rw e (elim (Bool-cases (split == 0)) [
        | inl z ↦
            let z' : split ≡ 0 = ground arith in
            rw z' (Halves-first keyhi group groups entries extents (is, rest))
        | inr z ↦
            Halves-inside keyhi group groups entries extents split (ground arith) (ground arith)
              (is, rest)
      ])
      | inr e ↦
          let le : group.count ≤ split = ground arith in
          let (gr, whole, cut) =
            split_point groups (drop group.count entries) (split - group.count) in
          rw e (
            Halves-behind keyhi group groups entries extents split gr whole cut is le (
              split_point-Halves group.keyhi groups (drop group.count entries)
                (drop (table_limit entries group.count) extents) (split - group.count) rest
                (omega arith)))
    ]
