-- ===== src/Dleaf/Pack.antt =====
-- The changes at a cursor (user/kernel/dleaf.c): `dwalk_copy`, `dwalk_chop`, `dwalk_mock`, `dwalk_add`,
-- `dwalk_update` and `dleaf_chop`, whose calls of `bfree` are a list of ranges in their order. The
-- assertions about the leaf that results, but that of `dwalk_add`, are left out.
use tux.Base.{
  ℕ, zero, suc, ◌+◌, ◌-◌, ◌*◌, ◌/◌, ◌^◌, ◌%◌, ◌==◌, leb, ltb, ◌&&◌, ◌||◌, not, if◌then◌else◌, Bool,
  true, false, Option, none, some, List, [], ◌∷◌, ◌++◌, length, get_or, set, take, drop,
}
use tux.Dleaf.{Group, Entry, Extent, Dleaf, zero_group, zero_entry, max_group_entries, dleaf_check}
use tux.Dleaf.Split.{minus, inc_count, inc_limit, inc_limits, set_last_count}
use tux.Dleaf.Walk.{
  Walk, count_at, keyhi_at, limit_at, dwalk_first, dwalk_end, dwalk_index, dwalk_block, dwalk_count,
  dwalk_next, dwalk_back, entry_limit_before,
}
use tux.Dleaf.Probe.{dwalk_probe}

unfoldable pub set_first_count : ℕ → List Group → List Group
set_first_count n [] = []
set_first_count n (group ∷ groups) = record group { count = n % 256 } ∷ groups

-- The extents from this entry's first one on, to an empty leaf.
unfoldable pub dwalk_copy : ℕ → Walk → Dleaf → Dleaf
unfolding dwalk_end dwalk_first entry_limit_before set_first_count inc_limits minus
dwalk_copy blocksize walk dest =
    let leaf = walk.leaf in
    let limit_adjust = entry_limit_before walk in
    let entry_exbase = walk.exbase + limit_adjust in
    let groups2 = walk.gstop + 1 - walk.group in
    let entries = length leaf.entries + 1 - walk.entry in
    let gcount2 = walk.estop + 1 - walk.entry in
    if dwalk_end walk then dest else if dwalk_first walk then leaf else record dest {
      free = (8 + 8 * (length leaf.extents - entry_exbase)) % 2 ^ 16;
      used = (blocksize + 2 ^ 32 - 4 * groups2 - 4 * entries) % 2 ^ 16;
      groups = set_first_count gcount2 (drop (walk.group - 1) leaf.groups);
      entries = inc_limits gcount2 (minus limit_adjust) (drop (walk.entry - 1) leaf.entries);
      extents = drop entry_exbase leaf.extents;
    }

-- The end of the leaf behind the cursor's entry.
unfoldable pub chop_behind : ℕ → Walk → Walk
unfolding set_last_count limit_at count_at
chop_behind blocksize walk =
    let leaf = walk.leaf in
    let exstop = walk.exbase + limit_at leaf walk.entry in
    let count = walk.entry - (walk.estop - count_at leaf walk.group) in
    record walk {
      estop = walk.entry;
      gstop = walk.group;
      exstop = exstop;
      extent = exstop;
      leaf = record leaf {
        free = (8 + 8 * exstop) % 2 ^ 16;
        used = (blocksize + 2 ^ 32 - 4 * walk.group - 4 * walk.entry) % 2 ^ 16;
        groups = set_last_count count (take walk.group leaf.groups);
        entries = take walk.entry leaf.entries;
        extents = take exstop leaf.extents;
      };
    }

unfoldable pub empty_leaf : ℕ → Dleaf → Dleaf
empty_leaf blocksize leaf = record leaf {
  free = 8;
  used = blocksize % 2 ^ 16;
  groups = [];
  entries = [];
  extents = [];
}

unfoldable pub dwalk_chop : ℕ → Walk → Walk
unfolding dwalk_end dwalk_first dwalk_back chop_behind empty_leaf dwalk_probe
dwalk_chop blocksize walk =
    if dwalk_end walk
    then walk
    else if dwalk_first walk
    then (dwalk_probe (empty_leaf blocksize walk.leaf) 0).1
    else chop_behind blocksize (dwalk_back walk).1

-- The trial of `dwalk_add` that only counts; `used` and `free` are `int`s as patterns of 32 bits.
pub record Mock : Type 0 where
  pub group : Group
  pub entry : Entry
  pub used : ℕ
  pub free : ℕ
  pub groups : ℕ

unfoldable pub mock_group : Walk → Mock → ℕ → Walk × Mock
mock_group walk mock keyhi =
    if mock.groups == 0 || not (mock.group.keyhi == keyhi) || leb max_group_entries mock.group.count
    then (
      record walk { exbase = walk.exbase + mock.entry.limit },
      record mock {
        group = record { keyhi = keyhi; count = 0 };
        used = (mock.used + 2 ^ 32 - 4) % 2 ^ 32;
        groups = mock.groups + 1;
      },
    )
    else (walk, mock)

unfoldable pub mock_entry : Walk × Mock → ℕ → Walk × Mock
unfolding inc_count
mock_entry (walk, mock) keylo = (
  walk,
  record mock {
    used = (mock.used + 2 ^ 32 - 4) % 2 ^ 32;
    entry = record { keylo = keylo; limit = (walk.extent - walk.exbase) % 256 };
    group = inc_count mock.group 1;
  },
)

unfoldable pub mock_extent : Walk × Mock → Walk × Mock
unfolding inc_limit
mock_extent (walk, mock) = (
  record walk { extent = walk.extent + 1 },
  record mock { free = (mock.free + 8) % 2 ^ 32; entry = inc_limit mock.entry 1 },
)

unfoldable pub dwalk_mock : Walk → Mock → ℕ → Walk × Mock
unfolding dwalk_index mock_group mock_entry mock_extent
dwalk_mock walk mock index =
    if length walk.leaf.groups == 0 || walk.entry == walk.estop || not (dwalk_index walk == index)
    then mock_extent (mock_entry (mock_group walk mock (index / 2 ^ 24)) (index % 2 ^ 24))
    else mock_extent (walk, mock)

-- The new group of `dwalk_add`, which has no entry yet; `none` is a failed assertion.
unfoldable pub add_group : Walk → ℕ → Option Walk
unfolding keyhi_at count_at limit_at
add_group walk keyhi =
    let leaf = walk.leaf in
    if length leaf.groups == 0
      || not (keyhi_at leaf walk.group == keyhi)
      || leb max_group_entries (count_at leaf walk.group)
    then if ltb leaf.used (leaf.free + 4)
      then none
      else some (record walk {
        exbase = walk.exbase + (if length leaf.groups == 0 then 0 else limit_at leaf walk.entry);
        group = walk.group + 1;
        leaf = record leaf {
          used = leaf.used - 4;
          groups = leaf.groups ++ (record { keyhi = keyhi; count = 0 } ∷ []);
        };
      })
    else some walk

unfoldable pub add_entry : Walk → ℕ → Option Walk
unfolding inc_count
add_entry walk keylo =
    let leaf = walk.leaf in
    let group = get_or leaf.groups (walk.group - 1) zero_group in
    if ltb leaf.used (leaf.free + 4)
    then none
    else some (record walk {
      entry = walk.entry + 1;
      leaf = record leaf {
        used = leaf.used - 4;
        groups = set leaf.groups (walk.group - 1) (inc_count group 1);
        entries =
            leaf.entries
            ++ (record { keylo = keylo; limit = (walk.extent - walk.exbase) % 256 } ∷ []);
      };
    })

unfoldable pub add_extent : Walk → Extent → Option Walk
unfolding inc_limit
add_extent walk extent =
    let leaf = walk.leaf in
    let entry = get_or leaf.entries (walk.entry - 1) zero_entry in
    if ltb leaf.used (leaf.free + 8)
    then none
    else some (record walk {
      extent = walk.extent + 1;
      leaf = record leaf {
        free = (leaf.free + 8) % 2 ^ 16;
        entries = set leaf.entries (walk.entry - 1) (inc_limit entry 1);
        extents = leaf.extents ++ (extent ∷ []);
      };
    })

unfoldable pub dwalk_add : ℕ → Walk → ℕ → Extent → Option Walk
unfolding dwalk_index add_group add_entry add_extent
dwalk_add blocksize walk index extent =
    if not (length walk.leaf.groups == 0) && (dwalk_index walk == index)
    then none
    else if extent.block == 0 || extent.count == 0
    then none
    else elim (add_group walk (index / 2 ^ 24)) [
      | none ↦ none
      | some grouped ↦ elim (add_entry grouped (index % 2 ^ 24)) [
        | none ↦ none
        | some entered ↦ elim (add_extent entered extent) [
          | none ↦ none
          | some added ↦ elim (dleaf_check blocksize added.leaf) [
            | some true ↦ some added
            | _ ↦ none
          ]
        ]
      ]
    ]

unfoldable pub dwalk_update : Walk → Extent → Walk
dwalk_update walk extent = record walk {
  leaf = record walk.leaf { extents = set walk.leaf.extents walk.extent extent };
}

-- The loop of `dleaf_chop` over the extents that it frees, by the rounds left.
unfoldable pub free_extents : ℕ → Walk → List (ℕ × ℕ)
unfolding dwalk_block dwalk_count dwalk_next
free_extents zero walk = []
free_extents (suc rounds) walk =
    let (more, next) = dwalk_next walk in
    let rest = free_extents rounds next in
    (dwalk_block walk, dwalk_count walk) ∷ (if more then rest else [])

unfoldable pub chop_from : ℕ → List (ℕ × ℕ) → Walk → List (ℕ × ℕ) × Dleaf
unfolding free_extents dwalk_chop
chop_from blocksize freed walk =
    (freed ++ free_extents (length walk.leaf.extents) walk, (dwalk_chop blocksize walk).leaf)

-- The extent at the cursor is cut at `chop` where it begins before it.
unfoldable pub chop_at : ℕ → Walk → ℕ → List (ℕ × ℕ) × Dleaf
unfolding dwalk_index dwalk_block dwalk_count dwalk_update dwalk_next chop_from
chop_at blocksize walk chop =
    let count = chop - dwalk_index walk in
    let freed = (dwalk_block walk + count, dwalk_count walk - count) ∷ [] in
    let cut = dwalk_update walk (record { block = dwalk_block walk; count = count }) in
    let (more, next) = dwalk_next cut in
    if not (ltb (dwalk_index walk) chop)
    then chop_from blocksize [] walk
    else if more
    then chop_from blocksize freed next
    else (freed, next.leaf)

-- The ranges freed, whether the leaf changed, and the leaf.
unfoldable pub dleaf_chop : ℕ → ℕ → Dleaf → Bool × List (ℕ × ℕ) × Dleaf
unfolding dwalk_probe chop_at
dleaf_chop blocksize chop leaf =
    let (found, walk) = dwalk_probe leaf chop in
    let (freed, chopped) = chop_at blocksize walk chop in
    if found then (true, freed, chopped) else (false, [], leaf)
