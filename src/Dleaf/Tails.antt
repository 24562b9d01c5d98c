-- ===== src/Dleaf/Tails.antt =====
-- The last group and the last entries of a file index leaf (user/kernel/dleaf.c).
use tux.Base.{
  ℕ, zero, suc, ◌+◌, ◌-◌, ◌%◌, ◌≤◌, ◌<◌, ◌≡◌, refl, sym, ◌∙◌, ap, arith, List, [], ◌∷◌, ◌++◌, take,
  drop, length, length-drop, get_or,
}
use tux.Base.Slices.{get_or-drop}
use tux.Dleaf.{Group, Entry, Extent, table_limit, zero_entry, zero_group, max_group_entries}
use tux.Dleaf.View.{AreEntries, AreGroups}
use tux.Dleaf.Check.{AreEntries-length}
use tux.Dleaf.Split.{inc_count, inc_limits, inc_limit}
use tux.Dleaf.Cut.{last_limit, table_limit-last_limit}
use tux.Dleaf.Merge.{inc_last_count}
use tux.Dleaf.JoinGroups.{last_entries, last_group, empty_drop}

pub get_or-last_group :
    (groups : List Group) → get_or groups (length groups - 1) zero_group ≡ last_group groups
get_or-last_group [] = refl
get_or-last_group (group ∷ []) = refl
get_or-last_group (group ∷ next ∷ groups) =
    let e : suc (suc (length groups)) - 1 ≡ suc (length groups) = omega arith in
    let f : suc (length groups) - 1 ≡ length groups = omega arith in
    ap (λ k. get_or (group ∷ next ∷ groups) k zero_group) e
    ∙ ap (λ k. get_or (next ∷ groups) k zero_group) (sym f)
    ∙ get_or-last_group (next ∷ groups)

-- The limit of the last entry, and the size of the last group.
pub last_limit-last_entries :
    (keyhi : ℕ) (groups : List Group) (entries : List Entry) (extents : List Extent)
    → AreGroups keyhi groups entries extents
    → 0 < length groups
    → let tail = last_entries groups entries in
      (table_limit entries (length entries) ≡ last_limit 0 (length tail) tail)
      × (0 < length entries)
      × (0 < (last_group groups).count)
      × ((last_group groups).count ≤ max_group_entries)
last_limit-last_entries keyhi [] entries extents are h = absurd (omega arith)
last_limit-last_entries keyhi (group ∷ []) entries extents (is, (a, b)) h =
    let some_entry = is.some_entry in
    let few = is.few in
    let n = AreEntries-length group.count 0 0 entries is.are_entries in
    let size : group.count ≡ length entries = omega (arith, empty_drop group.count entries a) in
    let own = rw size at is.are_entries in
    (
      table_limit-last_limit (length entries) 0 0 entries (omega arith) own,
      omega arith,
      omega arith,
      omega arith,
    )
last_limit-last_entries keyhi (group ∷ next ∷ groups) entries extents (is, are) h =
    let (ih, pos, some_entry, few) =
      last_limit-last_entries group.keyhi (next ∷ groups) (drop group.count entries)
        (drop (table_limit entries group.count) extents) are (omega arith) in
    let n = length-drop {0} group.count entries in
    let e : group.count + (length (drop group.count entries) - 1) ≡ length entries - 1 =
      omega arith in
    (
      ap (λ k. (get_or entries k zero_entry).limit) (sym e)
          ∙ ap (λ (x : Entry). x.limit)
              (sym (
                get_or-drop group.count (length (drop group.count entries) - 1) entries zero_entry))
          ∙ ih,
      omega arith,
      some_entry,
      few,
    )

pub inc_limits-take :
    (c n : ℕ) (entries : List Entry)
    → inc_limits c n (take c entries) ++ drop c entries ≡ inc_limits c n entries
unfolding inc_limits
inc_limits-take zero n entries = refl
inc_limits-take (suc c) n [] = refl
inc_limits-take (suc c) n (entry ∷ entries) =
    ap (λ l. inc_limit entry n ∷ l) (inc_limits-take c n entries)

pub inc_limits-append :
    (c n : ℕ) (entries more : List Entry)
    → c ≤ length entries
    → inc_limits c n (entries ++ more) ≡ inc_limits c n entries ++ more
unfolding inc_limits
inc_limits-append zero n entries more h = refl
inc_limits-append (suc c) n [] more h = absurd (omega arith)
inc_limits-append (suc c) n (entry ∷ entries) more h =
    ap (λ l. inc_limit entry n ∷ l) (inc_limits-append c n entries more (omega arith))

pub length-inc_limits :
    (m n : ℕ) (entries : List Entry) → length (inc_limits m n entries) ≡ length entries
unfolding inc_limits
length-inc_limits zero n entries = refl
length-inc_limits (suc m) n [] = refl
length-inc_limits (suc m) n (entry ∷ entries) = ap suc (length-inc_limits m n entries)

pub inc_last_count-zero :
    (groups : List Group) → (last_group groups).count < 256 → inc_last_count 0 groups ≡ groups
unfolding inc_last_count inc_count
inc_last_count-zero [] h = refl
inc_last_count-zero (group ∷ []) h =
    let e : (group.count + 0) % 256 ≡ group.count = omega arith in rw e refl
inc_last_count-zero (group ∷ next ∷ groups) h =
    ap (λ l. group ∷ l) (inc_last_count-zero (next ∷ groups) h)

pub AreEntries-least :
    (c least limit low : ℕ) (entries : List Entry)
    → AreEntries c least limit entries
    → low ≤ (get_or entries 0 zero_entry).keylo
    → AreEntries c low limit entries
AreEntries-least zero least limit low entries h le = tt
AreEntries-least (suc c) least limit low [] h le = absurd h
AreEntries-least (suc c) least limit low (x ∷ entries) (a, above, lo, byte, rest) le =
    (le, above, lo, byte, rest)

pub AreGroups-above :
    (keyhi low : ℕ) (groups : List Group) (entries : List Entry) (extents : List Extent)
    → AreGroups keyhi groups entries extents
    → low ≤ (get_or groups 0 zero_group).keyhi
    → AreGroups low groups entries extents
AreGroups-above keyhi low [] entries extents are le = are
AreGroups-above keyhi low (group ∷ groups) entries extents (is, are) le = (
  record {
    above = le;
    key = is.key;
    some_entry = is.some_entry;
    few = is.few;
    are_entries = is.are_entries;
    are_extents = is.are_extents;
  },
  are,
)
