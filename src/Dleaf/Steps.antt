-- ===== src/Dleaf/Steps.antt =====
-- `dwalk_next` and `dwalk_back` (user/kernel/dleaf.c).
use tux.Base.{
  ℕ, zero, suc, ◌+◌, ◌-◌, ◌==◌, ◌≤◌, ◌<◌, ◌≡◌, arith, true, false, Bool-cases, inl, inr, length,
}
use tux.Dleaf.{Dleaf}
use tux.Dleaf.Walk.{
  Walk, count_at, limit_at, dwalk_first, dwalk_end, next_entry, next_group, dwalk_next,
  entry_limit_before, back_entry, back_group, dwalk_back,
}

-- The entries and the extents of the first `n` groups.
abbrev pub starts : Dleaf → ℕ → ℕ
starts leaf zero = 0
starts leaf (suc n) = starts leaf n + count_at leaf (suc n)

abbrev pub bases : Dleaf → ℕ → ℕ
bases leaf zero = 0
bases leaf (suc n) = bases leaf n + limit_at leaf (starts leaf (suc n))

-- No group is empty, and the limits of its entries ascend from 0.
pub record IsWalked (leaf : Dleaf) : Type 0 where
  pub counts : (n : ℕ) → n < length leaf.groups → 0 < count_at leaf (suc n)
  pub few : (n : ℕ) → n < length leaf.groups → count_at leaf (suc n) < 256
  pub limit_first : (n : ℕ) → n < length leaf.groups → 0 < limit_at leaf (starts leaf n + 1)
  pub limit_next :
      (n i : ℕ)
      → n < length leaf.groups
      → 0 < i
      → i < count_at leaf (suc n)
      → limit_at leaf (starts leaf n + i) < limit_at leaf (starts leaf n + i + 1)

-- A cursor in the group behind the first `n`, at entry `i` of it.
pub record IsWalk (walk : Walk) (n i : ℕ) : Type 0 where
  pub walked : IsWalked walk.leaf
  pub stop : walk.gstop ≡ length walk.leaf.groups
  pub here : walk.group ≡ suc n
  pub within : suc n ≤ walk.gstop
  pub entry_at : walk.entry ≡ starts walk.leaf n + i
  pub some_entry : 0 < i
  pub in_group : i ≤ count_at walk.leaf (suc n)
  pub entries_to : walk.estop ≡ starts walk.leaf n + count_at walk.leaf (suc n)
  pub base : walk.exbase ≡ bases walk.leaf n
  pub extents_to : walk.exstop ≡ bases walk.leaf n + limit_at walk.leaf (starts walk.leaf n + i)
  pub from : bases walk.leaf n + entry_limit_before walk ≤ walk.extent
  pub to : walk.extent < walk.exstop

-- `dwalk_back` undoes a step of `dwalk_next` from a cursor at an extent.
pub dwalk_next_undone :
    (walk : Walk) (n i : ℕ) → IsWalk walk n i → dwalk_back (dwalk_next walk).1 ≡ (true, walk)
unfolding dwalk_next dwalk_back dwalk_first dwalk_end next_entry next_group entry_limit_before
    back_entry back_group
dwalk_next_undone walk n i h =
    let extent = walk.extent in
    let entry = walk.entry in
    let back_extent : extent + 1 - 1 ≡ extent = omega arith in
    let back_at : entry + 1 - 1 ≡ entry = omega arith in
    let to = h.to in
    let from = h.from in
    let here = h.here in
    let at = h.entry_at in
    let pos = h.some_entry in
    let entries_to = h.entries_to in
    let base = h.base in
    let stop = h.extents_to in
    let open_ : (extent == walk.exstop) ≡ false = ground arith in
    let moved : (extent + 1 == 0) ≡ false = ground arith in
    rw open_ (elim (Bool-cases (extent + 1 == walk.exstop)) [
      | inr e ↦ ground arith
      | inl e ↦ elim (Bool-cases (entry == walk.estop)) [
        | inr f ↦ ground arith
        | inl f ↦ elim (Bool-cases (walk.group == walk.gstop)) [
          | inl g ↦ ground arith
          | inr g ↦ ground arith
        ]
      ]
    ])
