-- ===== src/Dleaf/Check.antt =====
-- `dleaf_check` and the tables that it accepts (user/kernel/dleaf.c).
use tux.Base.{
  ℕ, zero, suc, ◌+◌, ◌*◌, ◌^◌, ◌≤◌, ◌<◌, ◌≡◌, refl, arith, Bool-cases, inl, inr, true, some, ◌==◌,
  List, [], ◌∷◌, drop, length, length-drop,
}
use tux.Dleaf.{
  Group, Entry, Extent, Dleaf, table_limit, group_totals, dleaf_free2, check_groups, dleaf_check,
}
use tux.Dleaf.View.{
  AreEntries, AreExtents, AreGroups, AreWords, AreGroupWords, AreWords-drop, check_group-IsGroup,
  IsGroup-check_group,
}

-- `free` and `used` delimit the tables in a block of `blocksize` bytes.
pub record Delimits (blocksize : ℕ) (leaf : Dleaf) : Type 0 where
  pub used_groups : leaf.used + 4 * (length leaf.groups + length leaf.entries) ≡ blocksize
  pub free_extents : leaf.free ≡ 8 + 8 * length leaf.extents
  pub fits : leaf.free ≤ leaf.used
  pub short : blocksize < 2 ^ 16
  pub words : AreWords leaf.entries
  pub group_words : AreGroupWords leaf.groups

pub AreEntries-length :
    (count least limit : ℕ) (entries : List Entry)
    → AreEntries count least limit entries
    → count ≤ length entries
AreEntries-length zero least limit entries h = omega arith
AreEntries-length (suc count) least limit [] h = absurd h
AreEntries-length (suc count) least limit (entry ∷ entries) (low, above, lo, byte, rest) =
    omega (arith, AreEntries-length count (entry.keylo + 1) entry.limit entries rest)

pub AreExtents-length :
    (count : ℕ) (extents : List Extent) → AreExtents count extents → count ≤ length extents
AreExtents-length zero extents h = omega arith
AreExtents-length (suc count) [] h = absurd h
AreExtents-length (suc count) (extent ∷ extents) (pos, rest) =
    omega (arith, AreExtents-length count extents rest)

no_elements {ℓ} : {A : Type ℓ} (l : List A) → length l ≡ 0 → l ≡ []
no_elements [] h = refl
no_elements (x ∷ l) h = absurd (omega arith)

pub group_totals-AreGroups :
    (keyhi : ℕ) (groups : List Group) (entries : List Entry) (extents : List Extent)
    → AreGroups keyhi groups entries extents
    → group_totals groups entries ≡ (length entries, length extents)
unfolding group_totals
group_totals-AreGroups keyhi [] entries extents (none_left, none_more) =
    rw (none_left, none_more) refl
group_totals-AreGroups keyhi (group ∷ groups) entries extents (is, rest) =
    let limit = table_limit entries group.count in
    let e =
      group_totals-AreGroups group.keyhi groups (drop group.count entries) (drop limit extents)
        rest in
    let n = AreEntries-length group.count 0 0 entries is.are_entries in
    let m = AreExtents-length limit extents is.are_extents in
    let a : group.count + length (drop group.count entries) ≡ length entries =
      omega (arith, length-drop {0} group.count entries) in
    let b : limit + length (drop limit extents) ≡ length extents =
      omega (arith, length-drop {0} limit extents) in
    rw e (λ i. (a i, b i))

check_groups-AreGroups :
    (keyhi : ℕ) (groups : List Group) (entries : List Entry) (extents : List Extent)
    → AreGroups keyhi groups entries extents
    → check_groups keyhi groups entries extents ≡ true
unfolding check_groups
check_groups-AreGroups keyhi [] entries extents h = refl
check_groups-AreGroups keyhi (group ∷ groups) entries extents (is, rest) =
    rw (IsGroup-check_group keyhi group entries extents is) (
      check_groups-AreGroups group.keyhi groups (drop group.count entries)
        (drop (table_limit entries group.count) extents) rest)

AreGroups-check_groups :
    (keyhi : ℕ) (groups : List Group) (entries : List Entry) (extents : List Extent)
    → AreGroupWords groups
    → AreWords entries
    → check_groups keyhi groups entries extents ≡ true
    → (group_totals groups entries).0 ≡ length entries
    → (group_totals groups entries).1 ≡ length extents
    → AreGroups keyhi groups entries extents
unfolding check_groups group_totals
AreGroups-check_groups keyhi [] entries extents ws w h n m =
    (no_elements entries (omega arith), no_elements extents (omega arith))
AreGroups-check_groups keyhi (group ∷ groups) entries extents (hi, ws) w h n m =
    let limit = table_limit entries group.count in
    let is = check_group-IsGroup keyhi group entries extents w hi (ground arith) in
    (
      is,
      AreGroups-check_groups group.keyhi groups (drop group.count entries) (drop limit extents) ws
          (AreWords-drop group.count entries w) (ground arith)
          (omega (
            arith,
            length-drop {0} group.count entries,
            AreEntries-length group.count 0 0 entries is.are_entries,
          ))
          (omega
            (arith, length-drop {0} limit extents, AreExtents-length limit extents is.are_extents)),
    )

-- Where the header delimits tables with a group, `dleaf_check` returns 0, with no assertion failed,
-- exactly when the groups ascend and count all the entries and all the extents, no group is empty or
-- too long, keys and limits ascend in each group, and no extent begins at block 0.
pub dleaf_check_iff :
    (blocksize : ℕ) (leaf : Dleaf)
    → Delimits blocksize leaf
    → 0 < length leaf.groups
    → (dleaf_check blocksize leaf ≡ some true → AreGroups 0 leaf.groups leaf.entries leaf.extents)
      × (AreGroups 0 leaf.groups leaf.entries leaf.extents → dleaf_check blocksize leaf ≡ some true)
unfolding dleaf_check dleaf_free2
dleaf_check_iff blocksize leaf d nonempty =
    let a = d.used_groups in
    let b = d.free_extents in
    let c = d.fits in
    let s = d.short in
    (
      λ h.
          AreGroups-check_groups 0 leaf.groups leaf.entries leaf.extents d.group_words d.words
            (ground arith) (ground arith) (ground arith),
      λ are.
          let e = check_groups-AreGroups 0 leaf.groups leaf.entries leaf.extents are in
          let t = group_totals-AreGroups 0 leaf.groups leaf.entries leaf.extents are in
          rw e (rw t (ground arith)),
    )

-- A leaf as its code leaves it.
pub record IsDleaf (blocksize : ℕ) (leaf : Dleaf) : Type 0 where
  pub delimits : Delimits blocksize leaf
  pub are_groups : AreGroups 0 leaf.groups leaf.entries leaf.extents

pub IsDleaf-check :
    (blocksize : ℕ) (leaf : Dleaf) → IsDleaf blocksize leaf → dleaf_check blocksize leaf ≡ some true
unfolding dleaf_check
IsDleaf-check blocksize leaf is = elim (Bool-cases (length leaf.groups == 0)) [
  | inl e ↦ rw e refl
  | inr e ↦ (dleaf_check_iff blocksize leaf is.delimits (ground arith)).1 is.are_groups
]

AreEntries-AreWords :
    (count least limit : ℕ) (entries : List Entry)
    → AreEntries count least limit entries
    → AreWords (drop count entries)
    → AreWords entries
AreEntries-AreWords zero least limit entries h w = w
AreEntries-AreWords (suc count) least limit [] h w = tt
AreEntries-AreWords (suc count) least limit (entry ∷ entries) (low, above, lo, byte, rest) w =
    (lo, byte, AreEntries-AreWords count (entry.keylo + 1) entry.limit entries rest w)

-- Accepted tables hold words.
pub AreGroups-words :
    (keyhi : ℕ) (groups : List Group) (entries : List Entry) (extents : List Extent)
    → AreGroups keyhi groups entries extents
    → AreWords entries × AreGroupWords groups
AreGroups-words keyhi [] entries extents (none_left, none_more) = rw none_left (tt, tt)
AreGroups-words keyhi (group ∷ groups) entries extents (is, rest) =
    let (w, g) =
      AreGroups-words group.keyhi groups (drop group.count entries)
        (drop (table_limit entries group.count) extents) rest in
    (AreEntries-AreWords group.count 0 0 entries is.are_entries w, (is.key, g))

-- A leaf of accepted tables whose header delimits them.
pub IsDleaf-intro :
    (blocksize : ℕ) (leaf : Dleaf)
    → leaf.used + 4 * (length leaf.groups + length leaf.entries) ≡ blocksize
    → leaf.free ≡ 8 + 8 * length leaf.extents
    → leaf.free ≤ leaf.used
    → blocksize < 2 ^ 16
    → AreGroups 0 leaf.groups leaf.entries leaf.extents
    → IsDleaf blocksize leaf
IsDleaf-intro blocksize leaf used free fits short are =
    let (w, g) = AreGroups-words 0 leaf.groups leaf.entries leaf.extents are in
    record {
      delimits = record {
        used_groups = used;
        free_extents = free;
        fits = fits;
        short = short;
        words = w;
        group_words = g;
      };
      are_groups = are;
    }
