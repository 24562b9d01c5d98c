-- ===== src/Dleaf/Merged.antt =====
-- The leaf that `dleaf_merge` makes (user/kernel/dleaf.c).
use tux.Base.{
  ℕ, ◌+◌, ◌-◌, ◌%◌, ◌==◌, ltb, ◌&&◌, ◌≤◌, ◌<◌, ◌≡◌, refl, sym, ◌∙◌, ap, arith, List, ◌∷◌, ◌++◌,
  append_assoc, take, drop, length, length-take, get_or, take-append-drop, false, Bool-cases, inl,
  inr,
}
use tux.Base.Slices.{get_or-take, take-take}
use tux.Dleaf.{Group, Entry, Extent, table_limit, zero_entry, zero_group, max_group_entries}
use tux.Dleaf.View.{cells, group_cells, IsGroup, AreGroups}
use tux.Dleaf.Check.{AreEntries-length}
use tux.Dleaf.Split.{minus, inc_limits}
use tux.Dleaf.Cut.{table_limit-last_limit}
use tux.Dleaf.CutGroup.{
  IsGroup-kept, IsGroup-moved, behind_cut, cells-cut_group, drop-take_self, table_limit-take,
}
use tux.Dleaf.Pack.{set_first_count}
use tux.Dleaf.Merge.{merge_counts, inc_last_count, append_groups, append_entries}
use tux.Dleaf.Joined.{next_least}
use tux.Dleaf.JoinGroups.{
  last_entries, last_group, before_more, join_merged, join_apart, table_limit-append, get_or-append,
}
use tux.Dleaf.Tails.{
  get_or-last_group, last_limit-last_entries, inc_limits-take, inc_limits-append,
  inc_last_count-zero, AreEntries-least, AreGroups-above,
}

-- The first group of a leaf in two parts.
module _ (lower : ℕ) (first : Group) (groups : List Group) (more : List Entry)
    (rest : List Extent) where
  module _ (is : IsGroup lower first more rest) (room m : ℕ) (sum : first.count ≡ room + m)
      (pos : 0 < room) (pos' : 0 < m) where
    lim : ℕ
    lim = table_limit more room

    abbrev part : Group
    part = record first { count = room }

    abbrev other : Group
    other = record first { count = m }

    moved : List Entry
    moved = inc_limits m (minus (table_limit more room)) (drop room more)

    parts :
        AreGroups first.keyhi groups
          (drop first.count more)
          (drop (table_limit more first.count) rest)
        → IsGroup lower part (take room more ++ moved) rest
          × AreGroups first.keyhi
              (other ∷ groups)
              (drop room (take room more ++ moved))
              (drop (table_limit (take room more ++ moved) room) rest)
          × (group_cells (part ∷ other ∷ groups) (take room more ++ moved) rest
              ≡ group_cells (first ∷ groups) more rest)
    unfolding lim moved group_cells
    parts are =
        let l = table_limit more room in
        let whole = take-append-drop l rest in
        let kept = IsGroup-kept lower first more rest is room m sum pos pos' part refl refl in
        let right = IsGroup-moved lower first more rest is room m sum pos pos' other refl refl in
        let (b, c) = behind_cut lower first more rest is room m sum pos pos' in
        let (is', es, xs, same) =
          before_more lower part (take room more) moved (take l rest) (drop l rest) kept in
        let own = table_limit-take room room more pos (omega arith) in
        let n = drop-take_self {0} room more in
        let x = drop-take_self {0} l rest in
        let es' = es ∙ ap (λ t. t ++ moved) n in
        let xs' =
          (rw whole at xs)
          ∙ ap (λ k. drop k (take l rest) ++ drop l rest) own
          ∙ ap (λ t. t ++ drop l rest) x in
        let self = take-take room room more (omega arith) in
        let cut = cells-cut_group lower first more rest is room m sum pos pos' in
        let left = cells first.keyhi 0 (take room more) (take l rest) in
        let mid = cells first.keyhi 0 (take m moved) (drop l rest) in
        let tail =
          group_cells groups (drop first.count more) (drop (table_limit more first.count) rest) in
        let same' = rw whole at same in
        (
          rw whole at is',
          rw es' (
              rw xs' (
                record {
                  above = omega arith;
                  key = right.key;
                  some_entry = right.some_entry;
                  few = right.few;
                  are_entries = right.are_entries;
                  are_extents = right.are_extents;
                },
                rw b (rw c are),
              )),
          rw es' (
              rw xs' (
                rw same' (
                  rw self (
                    rw b
                      (rw c (sym (append_assoc left mid tail) ∙ ap (λ t. t ++ tail) (sym cut))))))),
        )

module _ (groups1 : List Group) (entries1 : List Entry) (extents1 : List Extent) (first : Group)
    (groups2 : List Group) (more : List Entry) (rest : List Extent) where
  module _ (are1 : AreGroups 0 groups1 entries1 extents1) (some_group : 0 < length groups1) where
    module _ (are2 : AreGroups 0 (first ∷ groups2) more rest) where
      base : ℕ
      base = table_limit entries1 (length entries1)

      -- What a merge of the tables makes, for the numbers of `merge_counts`.
      unfoldable pub Joins : ℕ → ℕ → Type 0
      Joins merged left =
          AreGroups 0 (inc_last_count merged groups1 ++ append_groups merged left (first ∷ groups2))
            (entries1 ++ append_entries merged left (table_limit entries1 (length entries1)) more)
            (extents1 ++ rest)
          × (group_cells
                (inc_last_count merged groups1 ++ append_groups merged left (first ∷ groups2))
                (entries1
                  ++ append_entries merged left (table_limit entries1 (length entries1)) more)
                (extents1 ++ rest)
              ≡ group_cells groups1 entries1 extents1 ++ group_cells (first ∷ groups2) more rest)

      apart_tables : (last_group groups1).keyhi ≤ first.keyhi → Joins 0 0
      unfolding Joins append_groups append_entries
      apart_tables le =
          let (limit, pos, some_entry, few) =
            last_limit-last_entries 0 groups1 entries1 extents1 are1 some_group in
          rw (inc_last_count-zero groups1 (omega arith)) (
            join_apart (first ∷ groups2) more rest 0 groups1 entries1 extents1 are1 some_group
              (AreGroups-above 0 (last_group groups1).keyhi (first ∷ groups2) more rest are2 le))

      whole_tables :
          (last_group groups1).keyhi ≡ first.keyhi
          → (last_group groups1).count + first.count ≤ 255
          → next_least 0 (last_entries groups1 entries1) ≤ (get_or more 0 zero_entry).keylo
          → table_limit entries1 (length entries1) + table_limit more first.count < 256
          → Joins first.count 0
      unfolding Joins append_groups append_entries
      whole_tables key room ascend limits =
          let (is2, behind) = are2 in
          let (limit, pos, some_entry, few) =
            last_limit-last_entries 0 groups1 entries1 extents1 are1 some_group in
          let some_first = is2.some_entry in
          let last = table_limit-last_limit first.count 0 0 more is2.some_entry is2.are_entries in
          let test : (first.count == 0) ≡ false = ground arith in
          let least = next_least 0 (last_entries groups1 entries1) in
          let joined =
            join_merged first groups2 more rest 0 is2 behind 0 groups1 entries1 extents1 are1
              some_group
              (record {
                key = key;
                room = room;
                limits = omega arith;
                follows = AreEntries-least first.count 0 0 least more is2.are_entries ascend;
              }) in
          let all = inc_limits-take first.count (table_limit entries1 (length entries1)) more in
          rw test (rw all (rw limit joined))

      part_tables :
          (room : ℕ)
          → 0 < room
          → room < first.count
          → (last_group groups1).keyhi ≡ first.keyhi
          → (last_group groups1).count + room ≤ 255
          → next_least 0 (last_entries groups1 entries1) ≤ (get_or more 0 zero_entry).keylo
          → table_limit entries1 (length entries1) + table_limit more room < 256
          → Joins room (first.count - room)
      unfolding Joins append_groups append_entries set_first_count moved
      part_tables room pos below key fits ascend limits =
          let (is2, behind) = are2 in
          let (limit, pos1, some_entry, few) =
            last_limit-last_entries 0 groups1 entries1 extents1 are1 some_group in
          let few2 = is2.few in
          let m = first.count - room in
          let sum : first.count ≡ room + m = omega arith in
          let pos' : 0 < m = omega arith in
          let (kept, others, same) =
            parts 0 first groups2 more rest is2 room m sum pos pos' behind in
          let size : length (take room more) ≡ room = omega (
            arith,
            length-take {0} room more,
            AreEntries-length first.count 0 0 more is2.are_entries,
          ) in
          let tail = inc_limits m (minus (table_limit more room)) (drop room more) in
          let least = next_least 0 (last_entries groups1 entries1) in
          let last =
            table_limit-last_limit room 0 0 (take room more ++ tail) pos kept.are_entries in
          let own : table_limit (take room more ++ tail) room ≡ table_limit more room =
            table_limit-append room (take room more) tail pos (omega arith)
            ∙ table_limit-take room room more pos (omega arith) in
          let first_key : (get_or (take room more ++ tail) 0 zero_entry).keylo
              ≡ (get_or more 0 zero_entry).keylo =
            ap (λ (x : Entry). x.keylo)
              (get_or-append 0 (take room more) tail zero_entry (omega arith)
                ∙ get_or-take room 0 more zero_entry pos) in
          let joined =
            join_merged (record first { count = room }) (record first { count = m } ∷ groups2)
              (take room more ++ tail) rest 0 kept others 0 groups1 entries1 extents1 are1
              some_group
              (record {
                key = key;
                room = fits;
                limits = omega arith;
                follows =
                    AreEntries-least room 0 0 least (take room more ++ tail) kept.are_entries
                      (omega arith);
              }) in
          let test : (room == 0) ≡ false = ground arith in
          let test' : (m == 0) ≡ false = ground arith in
          let byte : m % 256 ≡ m = omega arith in
          let entries =
            inc_limits-append room (table_limit entries1 (length entries1)) (take room more) tail
              (omega arith) in
          rw test (rw test' (rw byte (rw⁻¹ entries (rw limit (rw same at joined)))))

      -- The leaf's keys are below those of `more`, and the limits that are raised stay bytes.
      pub joins :
          (last_group groups1).keyhi ≤ first.keyhi
          → ((last_group groups1).keyhi ≡ first.keyhi
              → next_least 0 (last_entries groups1 entries1) ≤ (get_or more 0 zero_entry).keylo)
          → (0 < (merge_counts groups1 (first ∷ groups2)).0
              → table_limit entries1 (length entries1)
                  + table_limit more (merge_counts groups1 (first ∷ groups2)).0
                < 256)
          → Joins
              (merge_counts groups1 (first ∷ groups2)).0
              (merge_counts groups1 (first ∷ groups2)).1
      unfolding merge_counts
      joins le ascend limits =
          let (is2, behind) = are2 in
          let some_first = is2.some_entry in
          let last = get_or-last_group groups1 in
          let count = ap (λ (g : Group). g.count) last in
          let keyhi = ap (λ (g : Group). g.keyhi) last in
          let found = (get_or groups1 (length groups1 - 1) zero_group) in
          elim (Bool-cases (found.keyhi == first.keyhi && ltb found.count max_group_entries)) [
            | inr no_room ↦ rw no_room (apart_tables le)
            | inl same ↦
                let key : (last_group groups1).keyhi ≡ first.keyhi = ground arith in
                let below : found.count < 255 = ground arith in
                elim (Bool-cases (ltb (max_group_entries - found.count) first.count)) [
                  | inl part ↦ rw same (
                      rw part (
                        part_tables (255 - found.count) (omega arith) (ground arith) key
                          (omega arith) (ascend key)
                          ((rw part at (rw same at limits)) (omega arith))))
                  | inr whole ↦ rw same (
                      rw whole (
                        whole_tables key (ground arith) (ascend key)
                          ((rw whole at (rw same at limits)) (omega arith))))
                ]
          ]
