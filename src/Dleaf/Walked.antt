-- ===== src/Dleaf/Walked.antt =====
-- Leaves that a cursor can walk, and where its steps lead (user/kernel/dleaf.c).
use tux.Base.{
  ℕ, zero, suc, ◌+◌, ◌-◌, ◌<◌, ◌≡◌, refl, ap, sym, ◌∙◌, arith, length, get_or, List, [], ◌∷◌, drop,
}
use tux.Base.Slices.{get_or-drop}
use tux.Dleaf.{Group, Entry, Extent, Dleaf, table_limit, zero_entry, zero_group}
use tux.Dleaf.View.{AreEntries, IsGroup, AreGroups}
use tux.Dleaf.Walk.{count_at, limit_at}
use tux.Dleaf.Steps.{starts, IsWalked}

limits_ascend :
    (j count least limit : ℕ) (entries : List Entry)
    → AreEntries count least limit entries
    → j < count
    → (limit < (get_or entries j zero_entry).limit)
      × (j + 1 < count
          → (get_or entries j zero_entry).limit < (get_or entries (j + 1) zero_entry).limit)
limits_ascend j zero least limit entries h lt = elim lt [ ]
limits_ascend j (suc count) least limit [] h lt = absurd h
limits_ascend zero (suc count) least limit (entry ∷ entries) (low, above, lo, byte, rest) lt = (
  above,
  λ more. (limits_ascend 0 count (entry.keylo + 1) entry.limit entries rest (omega arith)).0,
)
limits_ascend (suc j) (suc count) least limit (entry ∷ entries) (low, above, lo, byte, rest) lt =
    let (a, b) = limits_ascend j count (entry.keylo + 1) entry.limit entries rest (omega arith) in
    let e : suc j + 1 ≡ suc (j + 1) = omega arith in (omega arith, rw e (λ more. b (omega arith)))

module _ (leaf : Dleaf) (group : Group) (groups : List Group)
    (e : leaf.groups ≡ group ∷ groups) where
  unfoldable pub behind : Dleaf
  behind = record leaf { groups = groups; entries = drop group.count leaf.entries }

  pub count_at-behind : (n : ℕ) → count_at leaf (suc (suc n)) ≡ count_at behind (suc n)
  unfolding count_at behind
  count_at-behind n =
      let a : suc (suc n) - 1 ≡ suc n = omega arith in
      let b : suc n - 1 ≡ n = omega arith in
      ap (λ k. (get_or leaf.groups k zero_group).count) a
      ∙ ap (λ l. (get_or l (suc n) zero_group).count) e
      ∙ ap (λ k. (get_or groups k zero_group).count) (sym b)

  pub count_at_first : count_at leaf 1 ≡ group.count
  unfolding count_at
  count_at_first = rw e refl

  pub starts-behind : (n : ℕ) → starts leaf (suc n) ≡ group.count + starts behind n
  starts-behind zero = omega (arith, count_at_first)
  starts-behind (suc n) = omega (arith, starts-behind n, count_at-behind n)

  pub limit_at-behind :
      (n i : ℕ)
      → 0 < i
      → limit_at leaf (starts leaf (suc n) + i) ≡ limit_at behind (starts behind n + i)
  unfolding limit_at behind
  limit_at-behind n i pos =
      let a : starts leaf (suc n) + i - 1 ≡ group.count + (starts behind n + i - 1) =
        omega (arith, starts-behind n) in
      ap (λ k. (get_or leaf.entries k zero_entry).limit) a
      ∙ ap (λ (x : Entry). x.limit)
          (sym (get_or-drop group.count (starts behind n + i - 1) leaf.entries zero_entry))

  module _ (keyhi : ℕ) (extents : List Extent) (is : IsGroup keyhi group leaf.entries extents) where
    IsWalked-behind : IsWalked behind → IsWalked leaf
    unfolding limit_at behind
    IsWalked-behind w = record {
      counts = counts;
      few = few;
      limit_first = limit_first;
      limit_next = limit_next;
    }
      where
        size : length leaf.groups ≡ suc (length groups)
        size = rw e refl

        first :
            (j : ℕ)
            → j < group.count
            → let value = λ (k : ℕ). (get_or leaf.entries k zero_entry).limit in
              (0 < value j) × (j + 1 < group.count → value j < value (j + 1))
        first j lt = limits_ascend j group.count 0 0 leaf.entries is.are_entries lt

        counts : (n : ℕ) → n < length leaf.groups → 0 < count_at leaf (suc n)
        counts zero h = let pos = is.some_entry in omega (arith, count_at_first)
        counts (suc n) h = rw (count_at-behind n) (w.counts n (omega (arith, size)))

        few : (n : ℕ) → n < length leaf.groups → count_at leaf (suc n) < 256
        few zero h = let most = is.few in omega (arith, count_at_first)
        few (suc n) h = rw (count_at-behind n) (w.few n (omega (arith, size)))

        limit_first : (n : ℕ) → n < length leaf.groups → 0 < limit_at leaf (starts leaf n + 1)
        limit_first zero h = (first 0 is.some_entry).0
        limit_first (suc n) h =
            rw (limit_at-behind n 1 (omega arith)) (w.limit_first n (omega (arith, size)))

        limit_next :
            (n i : ℕ)
            → n < length leaf.groups
            → 0 < i
            → i < count_at leaf (suc n)
            → limit_at leaf (starts leaf n + i) < limit_at leaf (starts leaf n + i + 1)
        limit_next zero i h pos lt =
            let a : 0 + i - 1 ≡ i - 1 = omega arith in
            let b : 0 + i + 1 - 1 ≡ i - 1 + 1 = omega arith in
            let room : i < group.count = omega (arith, count_at_first) in
            let value = λ (k : ℕ). (get_or leaf.entries k zero_entry).limit in
            let p : limit_at leaf (0 + i) ≡ value (i - 1) = ap value a in
            let q : limit_at leaf (0 + i + 1) ≡ value (i - 1 + 1) = ap value b in
            let up = (first (i - 1) (omega arith)).1 (omega arith) in omega (arith, p, q, up)
        limit_next (suc n) i h pos lt =
            let a = limit_at-behind n i pos in
            let b = limit_at-behind n (i + 1) (omega arith) in
            let c : starts leaf (suc n) + i + 1 ≡ starts leaf (suc n) + (i + 1) = omega arith in
            let d : starts behind n + (i + 1) ≡ starts behind n + i + 1 = omega arith in
            let room : i < count_at behind (suc n) = omega (arith, count_at-behind n) in
            let ih = w.limit_next n i (omega (arith, size)) pos room in rw a (rw c (rw b (rw d ih)))

-- The tables that `dleaf_check` accepts can be walked.
pub AreGroups-IsWalked :
    (keyhi : ℕ) (groups : List Group) (leaf : Dleaf) (extents : List Extent)
    → leaf.groups ≡ groups
    → AreGroups keyhi groups leaf.entries extents
    → IsWalked leaf
unfolding behind
AreGroups-IsWalked keyhi [] leaf extents e are = record {
  few = λ n h. absurd (let z = ap length e in omega arith);
  counts = λ n h. absurd (let z = ap length e in omega arith);
  limit_first = λ n h. absurd (let z = ap length e in omega arith);
  limit_next = λ n i h. absurd (let z = ap length e in omega arith);
}
AreGroups-IsWalked keyhi (group ∷ groups) leaf extents e (is, rest) =
    IsWalked-behind leaf group groups e keyhi extents is (
      AreGroups-IsWalked group.keyhi groups (behind leaf group groups e)
        (drop (table_limit leaf.entries group.count) extents) refl rest)
