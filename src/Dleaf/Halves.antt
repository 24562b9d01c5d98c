-- ===== src/Dleaf/Halves.antt =====
-- The tables of groups, entries and extents of `dleaf_split_at` (user/kernel/dleaf.c).
use tux.Base.{
  ℕ, zero, suc, ◌+◌, ◌-◌, ◌*◌, ◌^◌, ◌==◌, ◌≤◌, ◌<◌, ◌≡◌, refl, sym, ◌∙◌, ap, arith, List, [], ◌∷◌,
  ◌++◌, take, drop, get_or, length, false, Bool-cases, inl, inr,
}
use tux.Base.Slices.{take-take, drop-drop, get_or-drop, drop-take_sum}
use tux.Dleaf.{Group, Entry, Extent, table_limit, zero_entry}
use tux.Dleaf.View.{cells, group_cells, AreEntries, AreGroups}
use tux.Dleaf.Split.{set_last_count, keep_groups, move_groups, move_entries, split_extents}
use tux.Dleaf.Cut.{last_limit, le-last_limit}

pub cells-take :
    (key count n least limit : ℕ) (entries : List Entry) (extents : List Extent)
    → AreEntries count least limit entries
    → last_limit limit count entries ≤ limit + n
    → limit < 256
    → cells key limit (take count entries) (take n extents)
      ≡ cells key limit (take count entries) extents
unfolding cells
cells-take key zero n least limit entries extents h le small = refl
cells-take key (suc count) n least limit [] extents h le small = absurd h
cells-take key (suc count) n least limit (x ∷ entries) extents (low, above, lo, byte, rest) le
      small =
    let (a, b) = le-last_limit count (x.keylo + 1) x.limit entries rest byte in
    let own = x.limit - limit in
    let s : n ≡ own + (n - own) = omega arith in
    let ih =
      cells-take key count (n - own) (x.keylo + 1) x.limit entries (drop own extents) rest
        (omega arith) byte in
    let first = take-take own n extents (omega arith) in
    let inner = ap (λ k. drop own (take k extents)) s ∙ drop-take_sum own (n - own) extents in
    rw first (rw inner (ap (λ l. (key * 2 ^ 24 + x.keylo, take own extents) ∷ l) ih))

pub keep_groups-cons :
    (gr cut : ℕ) (group : Group) (groups : List Group)
    → gr < length groups
    → keep_groups (gr + 1) cut (group ∷ groups) ≡ group ∷ keep_groups gr cut groups
unfolding keep_groups set_last_count
keep_groups-cons gr cut group [] h = absurd (omega arith)
keep_groups-cons gr cut group (next ∷ groups) h =
    let a : gr + 1 ≡ suc gr = omega arith in
    elim (Bool-cases (cut == 0)) [
      | inl e ↦ rw e (rw a refl)
      | inr e ↦ rw e (rw a (let b : suc gr + 1 ≡ suc (suc gr) = omega arith in rw b refl))
    ]

pub move_groups-cons :
    (gr cut : ℕ) (group : Group) (groups : List Group)
    → move_groups (gr + 1) cut (group ∷ groups) ≡ move_groups gr cut groups
unfolding move_groups
move_groups-cons gr cut group groups = let a : gr + 1 ≡ suc gr = omega arith in rw a refl

-- What a split of the tables at the entry number `split` makes of them.
pub record Halves (keyhi : ℕ) (groups : List Group) (entries : List Entry) (extents : List Extent)
    (split gr whole cut : ℕ) : Type 0 where
  pub group_within : gr < length groups
  pub cut_within : cut ≤ split
  pub extents_within : split_extents whole split cut entries ≤ length extents
  pub kept_groups :
      AreGroups keyhi
        (keep_groups gr cut groups)
        (take split entries)
        (take (split_extents whole split cut entries) extents)
  pub moved_groups :
      AreGroups 0
        (move_groups gr cut groups)
        (move_entries split cut (move_groups gr cut groups) entries)
        (drop (split_extents whole split cut entries) extents)
  pub together :
      group_cells
          (keep_groups gr cut groups)
          (take split entries)
          (take (split_extents whole split cut entries) extents)
        ++ group_cells
            (move_groups gr cut groups)
            (move_entries split cut (move_groups gr cut groups) entries)
            (drop (split_extents whole split cut entries) extents)
      ≡ group_cells groups entries extents

module _ (group : Group) (entries : List Entry) (split cut : ℕ) where
  table_limit-drop :
      group.count ≤ split
      → cut ≤ split - group.count
      → (cut == 0) ≡ false
      → table_limit entries split ≡ table_limit (drop group.count entries) (split - group.count)
  table_limit-drop le within e =
      let s : group.count + (split - group.count - 1) ≡ split - 1 = ground arith in
      ap (λ (x : Entry). x.limit)
        (sym (
          get_or-drop group.count (split - group.count - 1) entries zero_entry
          ∙ ap (λ n. get_or entries n zero_entry) s))

  pub split_extents-cons :
      (lim whole : ℕ)
      → group.count ≤ split
      → cut ≤ split - group.count
      → split_extents (lim + whole) split cut entries
        ≡ lim + split_extents whole (split - group.count) cut (drop group.count entries)
  unfolding split_extents
  split_extents-cons lim whole le within = elim (Bool-cases (cut == 0)) [
    | inl e ↦ rw e (omega arith)
    | inr e ↦ rw e (omega (arith, table_limit-drop le within e))
  ]

  pub move_entries-cons :
      (moved : List Group)
      → group.count ≤ split
      → cut ≤ split - group.count
      → move_entries split cut moved entries
        ≡ move_entries (split - group.count) cut moved (drop group.count entries)
  unfolding move_entries
  move_entries-cons moved le within =
      let s : group.count + (split - group.count) ≡ split = omega arith in
      let d = drop-drop group.count (split - group.count) entries ∙ ap (λ n. drop n entries) s in
      elim (Bool-cases (cut == 0)) [
        | inl e ↦ rw e (rw d refl)
        | inr e ↦ rw e (rw d (rw (table_limit-drop le within e) refl))
      ]
