-- ===== src/Dleaf/Point.antt =====
-- The point of a split and the place of a cursor (user/kernel/dleaf.c).
use tux.Base.{
  ℕ, zero, suc, ◌+◌, ◌-◌, ltb, ◌≤◌, ◌<◌, ◌≡◌, refl, ap, sym, arith, true, false, length, List, [],
  ◌∷◌, drop, length-drop,
}
use tux.Dleaf.{Group, Extent, Dleaf, table_limit}
use tux.Dleaf.View.{AreGroups}
use tux.Dleaf.Check.{AreEntries-length, AreExtents-length}
use tux.Dleaf.Split.{split_point}
use tux.Dleaf.Walk.{count_at, limit_at}
use tux.Dleaf.Steps.{starts, bases, IsWalked}
use tux.Dleaf.Walked.{
  behind, count_at-behind, count_at_first, starts-behind, limit_at-behind, AreGroups-IsWalked,
}

module _ (leaf : Dleaf) (group : Group) (groups : List Group)
    (e : leaf.groups ≡ group ∷ groups) where
  bases-behind :
      (n : ℕ)
      → IsWalked (behind leaf group groups e)
      → n ≤ length groups
      → bases leaf (suc n)
        ≡ table_limit leaf.entries group.count + bases (behind leaf group groups e) n
  unfolding limit_at behind
  bases-behind zero w h =
      let a : 0 + count_at leaf 1 ≡ group.count =
        omega (arith, count_at_first leaf group groups e) in
      let b = ap (limit_at leaf) a in omega arith
  bases-behind (suc n) w h =
      let rest = behind leaf group groups e in
      let ih = bases-behind n w (omega arith) in
      let pos = w.counts n (omega arith) in
      let c = count_at-behind leaf group groups e n in
      let a = limit_at-behind leaf group groups e n (count_at rest (suc n)) pos in
      let b : starts leaf (suc (suc n)) ≡ starts leaf (suc n) + count_at rest (suc n) =
        omega arith in
      let d = ap (limit_at leaf) b in omega arith

-- Entry number `i` of the group behind the first `n`, counted from 0.
pub split_point-starts :
    (n i keyhi : ℕ) (groups : List Group) (leaf : Dleaf) (extents : List Extent)
    → leaf.groups ≡ groups
    → AreGroups keyhi groups leaf.entries extents
    → n < length groups
    → i < count_at leaf (suc n)
    → split_point groups leaf.entries (starts leaf n + i) ≡ (n, bases leaf n, i)
unfolding split_point behind
split_point-starts n i keyhi [] leaf extents e are within below = absurd (omega arith)
split_point-starts zero i keyhi (group ∷ groups) leaf extents e (is, rest) within below =
    let z : 0 + i ≡ i = omega arith in
    let first = count_at_first leaf group groups e in
    let test : ltb i group.count ≡ true = ground arith in rw z (rw test refl)
split_point-starts (suc n) i keyhi (group ∷ groups) leaf extents e (is, rest) within below =
    let back = behind leaf group groups e in
    let s = starts-behind leaf group groups e n in
    let c = count_at-behind leaf group groups e n in
    let w =
      AreGroups-IsWalked group.keyhi groups back
        (drop (table_limit leaf.entries group.count) extents) refl rest in
    let b = bases-behind leaf group groups e n w (omega arith) in
    let ih =
      split_point-starts n i group.keyhi groups back
        (drop (table_limit leaf.entries group.count) extents) refl rest (omega arith)
        (omega arith) in
    let test : ltb (starts leaf (suc n) + i) group.count ≡ false = ground arith in
    let less : starts leaf (suc n) + i - group.count ≡ starts back n + i = omega arith in
    let up : n + 1 ≡ suc n = omega arith in rw test (rw less (rw ih (λ k. (up k, sym b k, i))))

-- The groups together count all entries and all extents.
pub totals_length :
    (keyhi : ℕ) (groups : List Group) (leaf : Dleaf) (extents : List Extent)
    → leaf.groups ≡ groups
    → AreGroups keyhi groups leaf.entries extents
    → (starts leaf (length groups) ≡ length leaf.entries)
      × (bases leaf (length groups) ≡ length extents)
unfolding behind
totals_length keyhi [] leaf extents e (none_left, none_more) =
    let a = ap length none_left in let b = ap length none_more in (omega arith, omega arith)
totals_length keyhi (group ∷ groups) leaf extents e (is, rest) =
    let limit = table_limit leaf.entries group.count in
    let back = behind leaf group groups e in
    let (a, b) = totals_length group.keyhi groups back (drop limit extents) refl rest in
    let w = AreGroups-IsWalked group.keyhi groups back (drop limit extents) refl rest in
    let s = starts-behind leaf group groups e (length groups) in
    let t = bases-behind leaf group groups e (length groups) w (omega arith) in
    let few = AreEntries-length group.count 0 0 leaf.entries is.are_entries in
    let more = AreExtents-length limit extents is.are_extents in
    (
      omega (arith, length-drop {0} group.count leaf.entries),
      omega (arith, length-drop {0} limit extents),
    )
