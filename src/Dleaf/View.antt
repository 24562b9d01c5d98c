-- ===== src/Dleaf/View.antt =====
-- What a file index leaf maps (user/kernel/dleaf.c): the list of its entries' logical addresses, each
-- with its extents; and what `dleaf_check` asks of the tables, by groups.
use tux.Base.{
  ℕ, zero, suc, ◌+◌, ◌-◌, ◌*◌, ◌^◌, ◌≤◌, ◌<◌, ◌≡◌, refl, arith, true, List, [], ◌∷◌, ◌++◌, take,
  drop,
}
use tux.Dleaf.{
  Group, Entry, Extent, Dleaf, table_limit, max_group_entries, check_entries, check_extents,
  check_group,
}

abbrev pub Cell : Type 0
Cell = ℕ × List Extent

-- The cells of some entries of one group; `limit` is that of the entry before them, and the extents
-- begin behind that entry's.
unfoldable pub cells : ℕ → ℕ → List Entry → List Extent → List Cell
cells keyhi limit [] extents = []
cells keyhi limit (entry ∷ entries) extents =
    (keyhi * 2 ^ 24 + entry.keylo, take (entry.limit - limit) extents)
    ∷ cells keyhi entry.limit entries (drop (entry.limit - limit) extents)

unfoldable pub group_cells : List Group → List Entry → List Extent → List Cell
unfolding cells
group_cells [] entries extents = []
group_cells (group ∷ groups) entries extents =
    cells group.keyhi 0 (take group.count entries) extents
    ++ group_cells groups (drop group.count entries)
        (drop (table_limit entries group.count) extents)

-- The mapping of a leaf.
unfoldable pub view : Dleaf → List Cell
unfolding group_cells
view leaf = group_cells leaf.groups leaf.entries leaf.extents

-- The checks of one group and of all of them as propositions.
abbrev pub AreEntries : ℕ → ℕ → ℕ → List Entry → Type 0
AreEntries zero least limit entries = Unit
AreEntries (suc count) least limit [] = ⊥
AreEntries (suc count) least limit (entry ∷ entries) =
    (least ≤ entry.keylo)
    × (limit < entry.limit)
    × (entry.keylo < 2 ^ 24)
    × (entry.limit < 256)
    × AreEntries count (entry.keylo + 1) entry.limit entries

abbrev pub AreExtents : ℕ → List Extent → Type 0
AreExtents zero extents = Unit
AreExtents (suc count) [] = ⊥
AreExtents (suc count) (extent ∷ extents) = (0 < extent.block) × AreExtents count extents

pub record IsGroup (keyhi : ℕ) (group : Group) (entries : List Entry) (extents : List Extent)
    : Type 0 where
  pub above : keyhi ≤ group.keyhi
  pub key : group.keyhi < 2 ^ 24
  pub some_entry : 0 < group.count
  pub few : group.count ≤ max_group_entries
  pub are_entries : AreEntries group.count 0 0 entries
  pub are_extents : AreExtents (table_limit entries group.count) extents

-- The groups count all the entries and all the extents.
abbrev pub AreGroups : ℕ → List Group → List Entry → List Extent → Type 0
AreGroups keyhi [] entries extents = (entries ≡ []) × (extents ≡ [])
AreGroups keyhi (group ∷ groups) entries extents =
    IsGroup keyhi group entries extents
    × AreGroups group.keyhi groups (drop group.count entries)
        (drop (table_limit entries group.count) extents)

-- The fields fit in their bits.
abbrev pub AreWords : List Entry → Type 0
AreWords [] = Unit
AreWords (entry ∷ entries) = (entry.keylo < 2 ^ 24) × (entry.limit < 256) × AreWords entries

abbrev pub AreGroupWords : List Group → Type 0
AreGroupWords [] = Unit
AreGroupWords (group ∷ groups) = (group.keyhi < 2 ^ 24) × AreGroupWords groups

pub AreWords-drop : (n : ℕ) (entries : List Entry) → AreWords entries → AreWords (drop n entries)
AreWords-drop zero entries h = h
AreWords-drop (suc n) [] h = tt
AreWords-drop (suc n) (entry ∷ entries) (a, b, h) = AreWords-drop n entries h

check_entries-AreEntries :
    (count least limit : ℕ) (entries : List Entry)
    → AreWords entries
    → check_entries count least limit entries ≡ true
    → AreEntries count least limit entries
unfolding check_entries
check_entries-AreEntries zero least limit entries w h = tt
check_entries-AreEntries (suc count) least limit [] w h = cc
check_entries-AreEntries (suc count) least limit (entry ∷ entries) (lo, byte, w) h =
    let rest =
      check_entries-AreEntries count (entry.keylo + 1) entry.limit entries w (ground arith) in
    (ground arith, ground arith, lo, byte, rest)

AreEntries-check_entries :
    (count least limit : ℕ) (entries : List Entry)
    → AreEntries count least limit entries
    → check_entries count least limit entries ≡ true
unfolding check_entries
AreEntries-check_entries zero least limit entries h = refl
AreEntries-check_entries (suc count) least limit [] h = absurd h
AreEntries-check_entries (suc count) least limit (entry ∷ entries) (low, above, lo, byte, rest) =
    let e = AreEntries-check_entries count (entry.keylo + 1) entry.limit entries rest in
    ground arith

check_extents_iff :
    (count : ℕ) (extents : List Extent)
    → (check_extents count extents ≡ true → AreExtents count extents)
      × (AreExtents count extents → check_extents count extents ≡ true)
unfolding check_extents
check_extents_iff zero extents = (λ h. tt, λ h. refl)
check_extents_iff (suc count) [] = (λ h. cc, λ h. absurd h)
check_extents_iff (suc count) (extent ∷ extents) =
    let (there, back) = check_extents_iff count extents in
    (λ h. (ground arith, there (ground arith)), λ (pos, rest). let e = back rest in ground arith)

pub check_group-IsGroup :
    (keyhi : ℕ) (group : Group) (entries : List Entry) (extents : List Extent)
    → AreWords entries
    → group.keyhi < 2 ^ 24
    → check_group keyhi group entries extents ≡ true
    → IsGroup keyhi group entries extents
unfolding check_group
check_group-IsGroup keyhi group entries extents w hi h = record {
  above = ground arith;
  key = hi;
  some_entry = ground arith;
  few = ground arith;
  are_entries = check_entries-AreEntries group.count 0 0 entries w (ground arith);
  are_extents = (check_extents_iff (table_limit entries group.count) extents).0 (ground arith);
}

pub IsGroup-check_group :
    (keyhi : ℕ) (group : Group) (entries : List Entry) (extents : List Extent)
    → IsGroup keyhi group entries extents
    → check_group keyhi group entries extents ≡ true
unfolding check_group
IsGroup-check_group keyhi group entries extents is =
    let a = is.above in
    let b = is.some_entry in
    let c = is.few in
    let d = AreEntries-check_entries group.count 0 0 entries is.are_entries in
    let e = (check_extents_iff (table_limit entries group.count) extents).1 is.are_extents in
    ground arith
