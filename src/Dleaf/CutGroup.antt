-- ===== src/Dleaf/CutGroup.antt =====
-- One group of a file index leaf cut in two (user/kernel/dleaf.c).
use tux.Base.{
  ℕ, zero, suc, ◌+◌, ◌-◌, ◌≤◌, ◌<◌, ◌≡◌, refl, sym, ◌∙◌, ap, arith, List, [], ◌∷◌, ◌++◌, take, drop,
}
use tux.Base.Slices.{drop-drop, get_or-take}
use tux.Dleaf.{Group, Entry, Extent, table_limit, zero_entry}
use tux.Dleaf.View.{cells, AreEntries, IsGroup}
use tux.Dleaf.Split.{minus, inc_limits}
use tux.Dleaf.Cut.{
  last_limit, table_limit-last_limit, le-last_limit, AreEntries-take, AreEntries-drop,
  AreEntries-shift, AreExtents-take, AreExtents-drop, cells-cut,
}

pub drop-inc_limits :
    (m n : ℕ) (entries : List Entry) → drop m (inc_limits m n entries) ≡ drop m entries
unfolding inc_limits
drop-inc_limits zero n entries = refl
drop-inc_limits (suc m) n [] = refl
drop-inc_limits (suc m) n (entry ∷ entries) = drop-inc_limits m n entries

pub table_limit-take :
    (n k : ℕ) (entries : List Entry)
    → 0 < n
    → n ≤ k
    → table_limit (take k entries) n ≡ table_limit entries n
table_limit-take n k entries pos le =
    ap (λ (e : Entry). e.limit) (get_or-take k (n - 1) entries zero_entry (omega arith))

pub drop-take_self {ℓ} : {A : Type ℓ} (n : ℕ) (xs : List A) → drop n (take n xs) ≡ []
drop-take_self zero xs = refl
drop-take_self (suc n) [] = refl
drop-take_self (suc n) (x ∷ xs) = drop-take_self n xs

module _ (keyhi : ℕ) (group : Group) (entries : List Entry) (extents : List Extent) where
  module _ (is : IsGroup keyhi group entries extents) (cut m : ℕ)
      (sum : group.count ≡ cut + m) where
    module _ (pos : 0 < cut) (pos' : 0 < m) where
      limit-eq : table_limit entries cut ≡ last_limit 0 cut entries
      limit-eq =
          table_limit-last_limit cut 0 0 entries pos
            (AreEntries-drop cut m group.count 0 0 entries sum is.are_entries).0

      count-eq : table_limit entries group.count ≡ last_limit 0 group.count entries
      count-eq = table_limit-last_limit group.count 0 0 entries is.some_entry is.are_entries

      -- The limits before and behind the cut.
      pub cut_limits :
          let moved = inc_limits m (minus (table_limit entries cut)) (drop cut entries) in
          (table_limit entries cut ≤ table_limit entries group.count)
          × AreEntries m 0 0 moved
          × (table_limit moved m ≡ table_limit entries group.count - table_limit entries cut)
      cut_limits =
          let (a, b, c) = AreEntries-drop cut m group.count 0 0 entries sum is.are_entries in
          let base = last_limit 0 cut entries in
          let (le, small) = le-last_limit cut 0 0 entries a (omega arith) in
          let (le', small') = le-last_limit m 0 base (drop cut entries) b small in
          let (s, t) = AreEntries-shift m 0 base base (drop cut entries) b (omega arith) small in
          let z : base - base ≡ 0 = omega arith in
          let s' = rw z at s in
          let t' = rw z at t in
          let last =
            table_limit-last_limit m 0 0 (inc_limits m (minus base) (drop cut entries)) pos' s' in
          rw limit-eq (rw count-eq (omega (arith, c), s', last ∙ t' ∙ ap (λ n. n - base) (sym c)))

      pub IsGroup-kept :
          (kept : Group)
          → kept.keyhi ≡ group.keyhi
          → kept.count ≡ cut
          → IsGroup keyhi kept (take cut entries) (take (table_limit entries cut) extents)
      IsGroup-kept kept k c =
          let (le, are, eq) = cut_limits in
          let a = is.above in
          let b = is.key in
          let few = is.few in
          let lim = table_limit entries cut in
          let es = (AreEntries-drop cut m group.count 0 0 entries sum is.are_entries).0 in
          let xs =
            (AreExtents-drop lim (table_limit entries group.count - lim)
              (table_limit entries group.count) extents (omega arith) is.are_extents).0 in
          record {
            above = omega arith;
            key = omega arith;
            some_entry = omega arith;
            few = omega arith;
            are_entries = rw c (AreEntries-take cut cut 0 0 entries (omega arith) es);
            are_extents = rw c (
                rw (table_limit-take cut cut entries pos (omega arith))
                  (AreExtents-take lim lim extents (omega arith) xs));
          }

      pub IsGroup-moved :
          (moved : Group)
          → moved.keyhi ≡ group.keyhi
          → moved.count ≡ m
          → IsGroup 0 moved
              (inc_limits m (minus (table_limit entries cut)) (drop cut entries))
              (drop (table_limit entries cut) extents)
      IsGroup-moved moved k c =
          let (le, are, eq) = cut_limits in
          let b = is.key in
          let few = is.few in
          let lim = table_limit entries cut in
          let xs =
            (AreExtents-drop lim (table_limit entries group.count - lim)
              (table_limit entries group.count) extents (omega arith) is.are_extents).1 in
          record {
            above = omega arith;
            key = omega arith;
            some_entry = omega arith;
            few = omega arith;
            are_entries = rw c are;
            are_extents = rw c (rw eq xs);
          }

      -- The groups behind a group that is cut keep their entries and extents.
      pub behind_cut :
          let lim = table_limit entries cut in
          let moved = inc_limits m (minus lim) (drop cut entries) in
          (drop m moved ≡ drop group.count entries)
          × (drop (table_limit moved m) (drop lim extents)
              ≡ drop (table_limit entries group.count) extents)
      behind_cut =
          let (le, are, eq) = cut_limits in
          let lim = table_limit entries cut in
          let whole = table_limit entries group.count in
          let s : cut + m ≡ group.count = sym sum in
          let t : lim + (whole - lim) ≡ whole = omega arith in
          (
            rw (drop-inc_limits m (minus lim) (drop cut entries))
                (drop-drop cut m entries ∙ ap (λ n. drop n entries) s),
            rw eq (drop-drop lim (whole - lim) extents ∙ ap (λ n. drop n extents) t),
          )

      pub cells-cut_group :
          let lim = table_limit entries cut in
          let moved = inc_limits m (minus lim) (drop cut entries) in
          cells group.keyhi 0 (take group.count entries) extents
          ≡ cells group.keyhi 0 (take cut entries) (take lim extents)
            ++ cells group.keyhi 0 (take m moved) (drop lim extents)
      cells-cut_group =
          let z : last_limit 0 cut entries - 0 ≡ last_limit 0 cut entries = omega arith in
          rw limit-eq (
            rw z at (
              cells-cut group.keyhi cut m group.count 0 0 entries extents sum (omega arith)
                is.are_entries))
