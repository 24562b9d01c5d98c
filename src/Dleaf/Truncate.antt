-- ===== src/Dleaf/Truncate.antt =====
-- A leaf divided at a cursor, and the extents that `dleaf_chop` frees (user/kernel/dleaf.c).
use tux.Base.{
  ℕ, zero, suc, ◌+◌, ◌-◌, ◌≤◌, ◌<◌, ◌≡◌, refl, ap, sym, ◌∙◌, arith, false, inl, inr, length, List,
  [], ◌∷◌, map, drop, get_or,
}
use tux.Dleaf.{Extent, Dleaf, zero_extent}
use tux.Dleaf.Check.{IsDleaf}
use tux.Dleaf.SplitView.{IsSplit, divide-IsSplit}
use tux.Dleaf.Walk.{Walk, dwalk_end, dwalk_block, dwalk_count, dwalk_next, entry_limit_before}
use tux.Dleaf.Steps.{starts, bases, IsWalk}
use tux.Dleaf.Visit.{dwalk_next-IsWalk, extent-dwalk_next, extent_within}
use tux.Dleaf.Point.{totals_length}
use tux.Dleaf.Copied.{split_within, dwalk_copy-divide, dwalk_chop-divide}
use tux.Dleaf.Pack.{dwalk_copy, dwalk_chop, free_extents}

-- At a cursor on the first extent of an entry that is not the first of the leaf, `dwalk_copy` and
-- `dwalk_chop` divide a leaf that the checks accept: the entries from the cursor on are in the copy, the
-- others stay, the checks accept both, and their mappings together are the old one.
pub dwalk_copy-dwalk_chop :
    (blocksize : ℕ) (walk : Walk) (dest : Dleaf) (n i : ℕ)
    → IsDleaf blocksize walk.leaf
    → IsWalk walk n (suc i)
    → 0 < walk.extent
    → walk.extent ≡ walk.exbase + entry_limit_before walk
    → IsSplit blocksize walk.leaf
        (walk.entry - 1)
        (dwalk_chop blocksize walk).leaf
        (dwalk_copy blocksize walk dest)
        (length (dwalk_copy blocksize walk dest).groups)
dwalk_copy-dwalk_chop blocksize walk dest n i is h pos first =
    let at = h.entry_at in
    let e : walk.entry - 1 ≡ starts walk.leaf n + i = omega arith in
    let s = divide-IsSplit blocksize walk.leaf dest _ is (split_within blocksize walk n i is h) in
    rw (dwalk_copy-divide blocksize walk n i is h dest pos) (
      rw (dwalk_chop-divide blocksize walk n i is h dest pos first) (
        rw e record {
          left_leaf = s.left_leaf;
          right_leaf = s.right_leaf;
          left_entries = s.left_entries;
          right_entries = s.right_entries;
          right_groups = refl;
          mapping = s.mapping;
        }))

abbrev pub range_of : Extent → ℕ × ℕ
range_of extent = (extent.block, extent.count)

drop_next :
    (k : ℕ) (extents : List Extent)
    → k < length extents
    → map range_of (drop k extents)
      ≡ range_of (get_or extents k zero_extent) ∷ map range_of (drop (k + 1) extents)
drop_next k [] h = absurd (omega arith)
drop_next zero (extent ∷ extents) h = refl
drop_next (suc k) (extent ∷ extents) h =
    let e : suc k + 1 ≡ suc (k + 1) = omega arith in rw e (drop_next k extents (omega arith))

drop_end : (k : ℕ) (extents : List Extent) → length extents ≤ k → map range_of (drop k extents) ≡ []
drop_end zero [] h = refl
drop_end zero (extent ∷ extents) h = absurd (omega arith)
drop_end (suc k) [] h = refl
drop_end (suc k) (extent ∷ extents) h = drop_end k extents (omega arith)

extent_inside :
    (blocksize : ℕ) (walk : Walk) (n i : ℕ)
    → IsDleaf blocksize walk.leaf
    → IsWalk walk n i
    → walk.extent < length walk.leaf.extents
extent_inside blocksize walk n i is h =
    let (_, total) =
      totals_length 0 walk.leaf.groups walk.leaf walk.leaf.extents refl is.are_groups in
    let all = ap (bases walk.leaf) h.stop in let inside = extent_within walk n i h in omega arith

-- With a round for each extent left, the loop of `dleaf_chop` frees every extent from the cursor on,
-- once and in order, in a leaf that the checks accept.
pub free_extents-drop :
    (rounds blocksize : ℕ) (walk : Walk) (n i : ℕ)
    → IsDleaf blocksize walk.leaf
    → IsWalk walk n i
    → length walk.leaf.extents ≤ walk.extent + rounds
    → free_extents rounds walk ≡ map range_of (drop walk.extent walk.leaf.extents)
unfolding free_extents dwalk_block dwalk_count dwalk_end
free_extents-drop zero blocksize walk n i is h enough =
    absurd (let inside = extent_inside blocksize walk n i is h in omega arith)
free_extents-drop (suc rounds) blocksize walk n i is h enough =
    let inside = extent_inside blocksize walk n i is h in
    let to = h.to in
    let open_ : dwalk_end walk ≡ false = ground arith in
    let (x, l, g) = extent-dwalk_next walk open_ in
    let size = ap (λ (d : Dleaf). length d.extents) l in
    let (_, total) =
      totals_length 0 walk.leaf.groups walk.leaf walk.leaf.extents refl is.are_groups in
    let all = ap (bases walk.leaf) h.stop in
    let here = range_of (get_or walk.leaf.extents walk.extent zero_extent) in
    rw (drop_next walk.extent walk.leaf.extents inside) (elim (dwalk_next-IsWalk walk n i h) [
      | inl (more, m, j, next) ↦ rw more (
          ap (λ t. here ∷ t)
            (free_extents-drop rounds blocksize (dwalk_next walk).1 m j (rw l is) next (omega arith)
              ∙ λ k. map range_of (drop (x k) (l k).extents)))
      | inr (done, ended, last) ↦
          rw done
            (ap (λ t. here ∷ t) (sym (drop_end (walk.extent + 1) walk.leaf.extents (omega arith))))
    ])
