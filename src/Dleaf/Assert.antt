-- ===== src/Dleaf/Assert.antt =====
-- The assertions of `dwalk_check` at a cursor (user/kernel/dleaf.c).
use tux.Base.{◌==◌, ◌≡◌, arith, true, false, inl, inr, length, ℕ}
use tux.Dleaf.Walk.{Walk, dwalk_end, dwalk_check, dwalk_next}
use tux.Dleaf.Steps.{IsWalk}
use tux.Dleaf.Visit.{dwalk_next-IsWalk}

-- They hold at every cursor on an extent.
pub IsWalk-dwalk_check : (walk : Walk) (n i : ℕ) → IsWalk walk n i → dwalk_check walk ≡ true
unfolding dwalk_check dwalk_end
IsWalk-dwalk_check walk n i h =
    let to = h.to in
    let from = h.from in
    let here = h.here in
    let at = h.entry_at in
    let room = h.in_group in
    let e_to = h.entries_to in
    let base = h.base in
    let stop = h.stop in
    let within = h.within in
    let groups : (length walk.leaf.groups == 0) ≡ false = ground arith in
    let open_ : (walk.extent == walk.exstop) ≡ false = ground arith in
    rw groups (rw open_ (ground arith))

-- A step from an extent to another keeps them.
pub dwalk_next-dwalk_check :
    (walk : Walk) (n i : ℕ)
    → IsWalk walk n i
    → (dwalk_next walk).0 ≡ true
    → dwalk_check (dwalk_next walk).1 ≡ true
dwalk_next-dwalk_check walk n i h more = elim (dwalk_next-IsWalk walk n i h) [
  | inl (_, m, j, next) ↦ IsWalk-dwalk_check (dwalk_next walk).1 m j next
  | inr (done, ended, last) ↦ cc
]
