-- ===== src/Dleaf/SplitView.antt =====
-- The two leaves of `dleaf_split_at` and `dleaf_split` (user/kernel/dleaf.c).
use tux.Base.{
  ℕ, zero, suc, ◌+◌, ◌-◌, ◌*◌, ◌/◌, ◌^◌, ◌==◌, ltb, ◌≤◌, ◌<◌, ◌≡◌, refl, ◌∙◌, ap, arith, List, [],
  ◌∷◌, ◌++◌, take, drop, length-take, length, length-drop, true, false, Bool-cases, inl, inr,
  Option, none, some, get_or,
}
use tux.Dleaf.{
  Group, Entry, Extent, Dleaf, table_limit, zero_group, zero_entry, dleaf_check, dleaf_sniff,
}
use tux.Dleaf.View.{Cell, cells, group_cells, view, AreEntries, AreGroups}
use tux.Dleaf.Check.{IsDleaf, IsDleaf-intro, IsDleaf-check}
use tux.Dleaf.Split.{
  minus, inc_limits, split_point, set_last_count, inc_first_count, keep_groups, move_groups,
  move_entries, split_extents, divide, checked, dleaf_split_at, dleaf_split, first_index,
}
use tux.Dleaf.Divided.{split_point-Halves}

pub length-set_last_count :
    (n : ℕ) (groups : List Group) → length (set_last_count n groups) ≡ length groups
unfolding set_last_count
length-set_last_count n [] = refl
length-set_last_count n (group ∷ []) = refl
length-set_last_count n (group ∷ next ∷ groups) = ap suc (length-set_last_count n (next ∷ groups))

length-keep_groups :
    (gr cut : ℕ) (groups : List Group)
    → gr < length groups
    → length (keep_groups gr cut groups) ≤ length groups
unfolding keep_groups
length-keep_groups gr cut groups h = elim (Bool-cases (cut == 0)) [
  | inl e ↦ rw e (omega (arith, length-take {0} gr groups))
  | inr e ↦ rw e (
      omega
        (arith, length-set_last_count cut (take (gr + 1) groups), length-take {0} (gr + 1) groups))
]

length-inc_first_count :
    (n : ℕ) (groups : List Group) → length (inc_first_count n groups) ≡ length groups
unfolding inc_first_count
length-inc_first_count n [] = refl
length-inc_first_count n (group ∷ groups) = refl

length-move_groups :
    (gr cut : ℕ) (groups : List Group) → length (move_groups gr cut groups) ≡ length groups - gr
unfolding move_groups
length-move_groups gr cut groups =
    length-inc_first_count (minus cut) (drop gr groups) ∙ length-drop gr groups

length-inc_limits :
    (m n : ℕ) (entries : List Entry) → length (inc_limits m n entries) ≡ length entries
unfolding inc_limits
length-inc_limits zero n entries = refl
length-inc_limits (suc m) n [] = refl
length-inc_limits (suc m) n (entry ∷ entries) = ap suc (length-inc_limits m n entries)

length-move_entries :
    (split cut : ℕ) (moved : List Group) (entries : List Entry)
    → length (move_entries split cut moved entries) ≡ length entries - split
unfolding move_entries
length-move_entries split cut moved entries = elim (Bool-cases (cut == 0)) [
  | inl e ↦ rw e (length-drop split entries)
  | inr e ↦ rw e (length-inc_limits _ _ (drop split entries) ∙ length-drop split entries)
]

-- What a split promises: two leaves that the checks accept, the first with the entries before `split`
-- and the second with the others, whose mappings together are the old one.
pub record IsSplit (blocksize : ℕ) (leaf : Dleaf) (split : ℕ) (left right : Dleaf) (groups2 : ℕ)
    : Type 0 where
  pub left_leaf : IsDleaf blocksize left
  pub right_leaf : IsDleaf blocksize right
  pub left_entries : length left.entries ≡ split
  pub right_entries : length right.entries ≡ length leaf.entries - split
  pub right_groups : length right.groups ≡ groups2
  pub mapping : view left ++ view right ≡ view leaf

checked_pass :
    (blocksize : ℕ) (left right : Dleaf) (groups2 : ℕ)
    → dleaf_check blocksize left ≡ some true
    → dleaf_check blocksize right ≡ some true
    → checked blocksize (left, right, groups2) ≡ some (left, right, groups2)
unfolding checked
checked_pass blocksize left right groups2 l r = rw (checked, l) (rw r refl)

module _ (blocksize : ℕ) (leaf into : Dleaf) (split : ℕ) where
  pub divide-IsSplit :
      IsDleaf blocksize leaf
      → split < length leaf.entries
      → let (left, right, groups2) = divide blocksize leaf into split in
        IsSplit blocksize leaf split left right groups2
  unfolding divide view
  divide-IsSplit is within =
      let (gr, whole, cut) = split_point leaf.groups leaf.entries split in
      let h =
        split_point-Halves 0 leaf.groups leaf.entries leaf.extents split is.are_groups within in
      let ex = split_extents whole split cut leaf.entries in
      let moved = move_groups gr cut leaf.groups in
      let a = is.delimits.used_groups in
      let b = is.delimits.free_extents in
      let c = is.delimits.fits in
      let s = is.delimits.short in
      let room = h.extents_within in
      let gw = h.group_within in
      let kept_length = length-keep_groups gr cut leaf.groups h.group_within in
      let moved_length = length-move_groups gr cut leaf.groups in
      let rest_length = length-move_entries split cut moved leaf.entries in
      let es = length-take {0} split leaf.entries in
      let xs = length-take {0} ex leaf.extents in
      let xs' = length-drop {0} ex leaf.extents in
      let (left, right, groups2) = divide blocksize leaf into split in
      record {
        left_leaf =
            IsDleaf-intro blocksize left (omega arith) (omega arith) (omega arith) s h.kept_groups;
        right_leaf =
            IsDleaf-intro blocksize right (omega arith) (omega arith) (omega arith) s
              h.moved_groups;
        left_entries = omega arith;
        right_entries = rest_length;
        right_groups = moved_length;
        mapping = h.together;
      }

  -- A split of a leaf that the checks accept, at an entry of it, fails no assertion.
  pub dleaf_split_at-IsSplit :
      IsDleaf blocksize leaf
      → split < length leaf.entries
      → (left : Dleaf) × (right : Dleaf) × (groups2 : ℕ) × (dleaf_split_at blocksize leaf into split
          ≡ some (left, right, groups2))
        × IsSplit blocksize leaf split left right groups2
  unfolding dleaf_split_at
  dleaf_split_at-IsSplit is within =
      let h = divide-IsSplit is within in
      let nonempty : (length leaf.groups == 0) ≡ false =
        let gw =
          (split_point-Halves 0 leaf.groups leaf.entries leaf.extents split is.are_groups
            within).group_within in
        ground arith in
      let (left, right, groups2) = divide blocksize leaf into split in
      let test : ltb split (length leaf.entries) ≡ true = ground arith in
      (
        left,
        right,
        groups2,
        rw nonempty (
            rw test (
              checked_pass blocksize left right groups2 (IsDleaf-check blocksize left h.left_leaf)
                (IsDleaf-check blocksize right h.right_leaf))),
        h,
      )

-- The key of the first cell.
abbrev pub first_key : List Cell → Option ℕ
first_key [] = none
first_key (cell ∷ rest) = some cell.0

first_index-view :
    (leaf : Dleaf)
    → AreGroups 0 leaf.groups leaf.entries leaf.extents
    → 0 < length leaf.groups
    → first_key (view leaf) ≡ some (first_index leaf)
unfolding view group_cells cells first_index
first_index-view leaf are nonempty = first leaf.groups leaf.entries leaf.extents are nonempty
  where
    first :
        (groups : List Group) (entries : List Entry) (extents : List Extent)
        → AreGroups 0 groups entries extents
        → 0 < length groups
        → first_key (group_cells groups entries extents)
          ≡ some ((get_or groups 0 zero_group).keyhi * 2 ^ 24 + (get_or entries 0 zero_entry).keylo)
    first [] entries extents are h = absurd (omega arith)
    first (group ∷ groups) entries extents (is, rest) h =
        first_of group.count entries is.some_entry is.are_entries
      where
        first_of :
            (count : ℕ) (entries : List Entry)
            → 0 < count
            → AreEntries count 0 0 entries
            → first_key (
                cells group.keyhi 0 (take count entries) extents
                ++ group_cells groups
                    (drop count entries)
                    (drop (table_limit entries count) extents))
              ≡ some (group.keyhi * 2 ^ 24 + (get_or entries 0 zero_entry).keylo)
        first_of zero entries pos es = elim pos [ ]
        first_of (suc count) [] pos es = absurd es
        first_of (suc count) (entry ∷ entries) pos es = refl

-- `dleaf_split` of a leaf with two entries or more that `dleaf_check` accepts fails no assertion: the
-- left leaf keeps one entry less than half of them, the right one gets the others, both are accepted,
-- their mappings together are the old one, and the key returned is the first of the right leaf.
pub dleaf_split-IsSplit :
    (blocksize : ℕ) (leaf into : Dleaf)
    → IsDleaf blocksize leaf
    → dleaf_sniff leaf ≡ true
    → 2 ≤ length leaf.entries
    → (left : Dleaf) × (right : Dleaf) × (key : ℕ) × (dleaf_split blocksize leaf into
        ≡ some (left, right, key))
      × IsSplit blocksize leaf (length leaf.entries / 2 - 1) left right (length right.groups)
      × (first_key (view right) ≡ some key)
unfolding dleaf_split
dleaf_split-IsSplit blocksize leaf into is sniff two =
    let half = length leaf.entries / 2 in
    let within : half - 1 < length leaf.entries = omega arith in
    let (left, right, groups2, at, split) =
      dleaf_split_at-IsSplit blocksize leaf into (half - 1) is within in
    let enough : (half == 0) ≡ false = ground arith in
    let n = split.right_entries in
    let nonempty : 0 < length right.groups = elim (Bool-cases (length right.groups == 0)) [
      | inl e ↦ absurd (
          let none_left =
            no_groups right.groups right.entries right.extents split.right_leaf.are_groups
              (ground arith) in
          let z = ap length none_left in omega arith)
      | inr e ↦ ground arith
    ] in
    (
      left,
      right,
      first_index right,
      rw sniff (rw enough (rw at refl)),
      record {
        left_leaf = split.left_leaf;
        right_leaf = split.right_leaf;
        left_entries = split.left_entries;
        right_entries = split.right_entries;
        right_groups = refl;
        mapping = split.mapping;
      },
      first_index-view right split.right_leaf.are_groups nonempty,
    )
  where
    no_groups :
        (groups : List Group) (entries : List Entry) (extents : List Extent)
        → AreGroups 0 groups entries extents
        → length groups ≡ 0
        → entries ≡ []
    no_groups [] entries extents (none_left, none_more) h = none_left
    no_groups (group ∷ groups) entries extents are h = absurd (omega arith)
