-- ===== src/Dleaf/MergeView.antt =====
-- The mapping of the leaf that `dleaf_merge` makes (user/kernel/dleaf.c).
use tux.Base.{
  ℕ, suc, ◌+◌, ◌*◌, ◌==◌, ◌≤◌, ◌<◌, ◌≡◌, refl, sym, ◌∙◌, ap, arith, List, [], ◌∷◌, ◌++◌, take, drop,
  length, length-append, get_or, take-append-drop, false, Bool-cases, inl, inr, some,
}
use tux.Dleaf.{Group, Entry, Dleaf, table_limit, zero_entry, zero_group}
use tux.Dleaf.View.{view, AreGroups}
use tux.Dleaf.Check.{IsDleaf, IsDleaf-intro, IsDleaf-check}
use tux.Dleaf.Split.{minus, inc_limits}
use tux.Dleaf.Pack.{set_first_count}
use tux.Dleaf.Merge.{merge_counts, inc_last_count, append_groups, append_entries, join, dleaf_merge}
use tux.Dleaf.Joined.{next_least}
use tux.Dleaf.JoinGroups.{last_entries, last_group}
use tux.Dleaf.Tails.{length-inc_limits}
use tux.Dleaf.Merged.{Joins, joins}

-- The keys of `leaf` are below those of `from`, and where the first group of `from` is merged, the
-- limits of its entries stay bytes.
pub record Precedes (leaf from : Dleaf) : Type 0 where
  pub groups_ascend : (last_group leaf.groups).keyhi ≤ (get_or from.groups 0 zero_group).keyhi
  pub entries_ascend :
      (last_group leaf.groups).keyhi ≡ (get_or from.groups 0 zero_group).keyhi
      → next_least 0 (last_entries leaf.groups leaf.entries)
        ≤ (get_or from.entries 0 zero_entry).keylo
  pub limits_fit :
      0 < (merge_counts leaf.groups from.groups).0
      → table_limit leaf.entries (length leaf.entries)
          + table_limit from.entries (merge_counts leaf.groups from.groups).0
        < 256

length-inc_last_count :
    (n : ℕ) (groups : List Group) → length (inc_last_count n groups) ≡ length groups
unfolding inc_last_count
length-inc_last_count n [] = refl
length-inc_last_count n (group ∷ []) = refl
length-inc_last_count n (group ∷ next ∷ groups) = ap suc (length-inc_last_count n (next ∷ groups))

length-append_groups :
    (merged left : ℕ) (groups : List Group)
    → length (append_groups merged left groups) ≤ length groups
unfolding append_groups set_first_count
length-append_groups merged left [] = elim (Bool-cases (merged == 0)) [
  | inl e ↦ rw e (omega arith)
  | inr e ↦ elim (Bool-cases (left == 0)) [
    | inl f ↦ rw e (rw f (omega arith))
    | inr f ↦ rw e (rw f (omega arith))
  ]
]
length-append_groups merged left (group ∷ groups) = elim (Bool-cases (merged == 0)) [
  | inl e ↦ rw e (omega arith)
  | inr e ↦ elim (Bool-cases (left == 0)) [
    | inl f ↦ rw e (rw f (omega arith))
    | inr f ↦ rw e (rw f (omega arith))
  ]
]

length-append_entries :
    (merged left last : ℕ) (from : List Entry)
    → length (append_entries merged left last from) ≡ length from
unfolding append_entries
length-append_entries merged left last from = elim (Bool-cases (merged == 0)) [
  | inl e ↦ rw e refl
  | inr e ↦ rw e (
      omega (
        arith,
        length-append (inc_limits merged last (take merged from))
            (inc_limits left (minus (table_limit from merged)) (drop merged from)),
        length-inc_limits merged last (take merged from),
        length-inc_limits left (minus (table_limit from merged)) (drop merged from),
        length-append (take merged from) (drop merged from),
        ap length (take-append-drop merged from),
      ))
]

tables_join :
    (leaf from : Dleaf) (groups2 : List Group)
    → from.groups ≡ groups2
    → AreGroups 0 leaf.groups leaf.entries leaf.extents
    → AreGroups 0 groups2 from.entries from.extents
    → 0 < length leaf.groups
    → 0 < length groups2
    → Precedes leaf from
    → AreGroups 0 (join leaf from).groups (join leaf from).entries (join leaf from).extents
      × (view (join leaf from) ≡ view leaf ++ view from)
unfolding join view Joins
tables_join leaf from [] e are1 are2 some1 some2 p = absurd (omega arith)
tables_join leaf from (first ∷ groups2) e are1 are2 some1 some2 p =
    let first_eq = ap (λ l. get_or l 0 zero_group) e in
    let first_key = ap (λ (g : Group). g.keyhi) first_eq in
    let up = p.groups_ascend in
    let limits = rw e at p.limits_fit in
    rw e (
      joins leaf.groups leaf.entries leaf.extents first groups2 from.entries from.extents are1 some1
        are2 (omega arith) (λ same. p.entries_ascend (same ∙ sym first_key)) limits)

-- A merge of two leaves that the checks accept, neither of them empty, fails no assertion, where the
-- room left takes the tables of the second, its keys are above those of the first, and the limits of
-- entries that join a group stay bytes: the checks accept the result, and its mapping is that of the
-- first leaf followed by that of the second.
pub dleaf_merge-view :
    (blocksize : ℕ) (leaf from : Dleaf)
    → IsDleaf blocksize leaf
    → IsDleaf blocksize from
    → 0 < length leaf.groups
    → 0 < length from.groups
    → leaf.free + 8 * length from.extents + 4 * (length from.groups + length from.entries)
      ≤ leaf.used
    → Precedes leaf from
    → let merged = join leaf from in
      (dleaf_merge blocksize leaf from ≡ some merged)
      × IsDleaf blocksize merged
      × (view merged ≡ view leaf ++ view from)
unfolding dleaf_merge join
dleaf_merge-view blocksize leaf from is1 is2 some1 some2 room p =
    let (are, same) =
      tables_join leaf from from.groups refl is1.are_groups is2.are_groups some1 some2 p in
    let (merged, left) = merge_counts leaf.groups from.groups in
    let last = table_limit leaf.entries (length leaf.entries) in
    let added = append_groups merged left from.groups in
    let few = length-append_groups merged left from.groups in
    let gs = length-append {0} (inc_last_count merged leaf.groups) added in
    let gs1 = length-inc_last_count merged leaf.groups in
    let es = length-append {0} leaf.entries (append_entries merged left last from.entries) in
    let es2 = length-append_entries merged left last from.entries in
    let xs = length-append {0} leaf.extents from.extents in
    let used1 = is1.delimits.used_groups in
    let free1 = is1.delimits.free_extents in
    let free2 = is2.delimits.free_extents in
    let short = is1.delimits.short in
    let is =
      IsDleaf-intro blocksize (join leaf from) (omega arith) (omega arith) (omega arith) short
        are in
    let a : (length from.groups == 0) ≡ false = ground arith in
    let b : (length leaf.groups == 0) ≡ false = ground arith in
    (rw a (rw b (rw (IsDleaf-check blocksize (join leaf from) is) refl)), is, same)
