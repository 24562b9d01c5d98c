-- ===== src/Dleaf/Visit.antt =====
-- The extents that `dwalk_next` visits (user/kernel/dleaf.c).
use tux.Base.{
  ℕ, zero, suc, ◌+◌, ◌-◌, ◌==◌, ◌≤◌, ◌<◌, ◌≡◌, refl, ap, ◌∙◌, arith, true, false, Bool-cases, ◌⊎◌,
  inl, inr, length,
}
use tux.Dleaf.{Dleaf}
use tux.Dleaf.Walk.{
  Walk, count_at, limit_at, dwalk_end, next_entry, next_group, dwalk_next, dwalk_back,
  entry_limit_before,
}
use tux.Dleaf.Steps.{starts, bases, IsWalked, IsWalk, dwalk_next_undone}

-- The next extent is of the same entry, of the next one, or of the first of the next group; behind the
-- last one the cursor is at the end.
pub dwalk_next-IsWalk :
    (walk : Walk) (n i : ℕ)
    → IsWalk walk n i
    → let (more, next) = dwalk_next walk in
      ((more ≡ true) × (m : ℕ) × (j : ℕ) × IsWalk next m j)
      ⊎ ((more ≡ false) × (dwalk_end next ≡ true) × (next.extent ≡ bases walk.leaf walk.gstop))
unfolding dwalk_next dwalk_end next_entry next_group entry_limit_before
dwalk_next-IsWalk walk n i h =
    let extent = walk.extent in
    let entry = walk.entry in
    let to = h.to in
    let from = h.from in
    let here = h.here in
    let at = h.entry_at in
    let pos = h.some_entry in
    let entries_to = h.entries_to in
    let base = h.base in
    let last = h.extents_to in
    let stop = h.stop in
    let within = h.within in
    let in_group = h.in_group in
    let open_ : (extent == walk.exstop) ≡ false = ground arith in
    rw open_ (elim (Bool-cases (extent + 1 == walk.exstop)) [
      | inr e ↦ rw e (
          inl (
            refl,
            n,
            i,
            record {
              walked = h.walked;
              stop = stop;
              here = here;
              within = within;
              entry_at = at;
              some_entry = pos;
              in_group = in_group;
              entries_to = entries_to;
              base = base;
              extents_to = last;
              from = omega arith;
              to = ground arith;
            },
          ))
      | inl e ↦ elim (Bool-cases (entry == walk.estop)) [
        | inr f ↦
            let room : i < count_at walk.leaf (suc n) = ground arith in
            let up = h.walked.limit_next n i (omega arith) pos room in
            let a : entry + 1 ≡ starts walk.leaf n + (i + 1) = omega arith in
            let b : starts walk.leaf n + (i + 1) ≡ starts walk.leaf n + i + 1 = omega arith in
            rw e (
              rw f (
                inl (
                  refl,
                  n,
                  i + 1,
                  record {
                    walked = h.walked;
                    stop = stop;
                    here = here;
                    within = within;
                    entry_at = a;
                    some_entry = omega arith;
                    in_group = omega arith;
                    entries_to = entries_to;
                    base = base;
                    extents_to = let c = ap (limit_at walk.leaf) a in omega arith;
                    from =
                        let c = ap (count_at walk.leaf) here in
                        let d : entry + 1 - 1 ≡ entry = omega arith in
                        let d' = ap (limit_at walk.leaf) at in rw d (ground arith);
                    to = let c = ap (limit_at walk.leaf) (a ∙ b) in omega arith;
                  },
                )))
        | inl f ↦ elim (Bool-cases (walk.group == walk.gstop)) [
          | inl g ↦ rw e (
              rw f (
                rw g (
                  inr (
                    refl,
                    e,
                    let g' : walk.gstop ≡ suc n = ground arith in
                        let i' : starts walk.leaf n + i ≡ starts walk.leaf (suc n) = ground arith in
                        let c = ap (bases walk.leaf) g' in
                        let d = ap (limit_at walk.leaf) i' in ground arith,
                  ))))
          | inr g ↦
              let up_group : walk.group + 1 ≡ suc (suc n) = omega arith in
              let next_at : entry + 1 ≡ starts walk.leaf (suc n) + 1 = ground arith in
              rw e (
                rw f (
                  rw g (
                    inl (
                      refl,
                      suc n,
                      1,
                      record {
                        walked = h.walked;
                        stop = stop;
                        here = ground arith;
                        within = ground arith;
                        entry_at = ground arith;
                        some_entry = omega arith;
                        in_group = h.walked.counts (suc n) (ground arith);
                        entries_to = let c = ap (count_at walk.leaf) (up_group) in omega arith;
                        base = let d = ap (limit_at walk.leaf) entries_to in omega arith;
                        extents_to =
                            let d = ap (limit_at walk.leaf) entries_to in
                            let c = ap (limit_at walk.leaf) (next_at) in omega arith;
                        from =
                            let c = ap (count_at walk.leaf) (up_group) in
                            let d = ap (limit_at walk.leaf) entries_to in ground arith;
                        to =
                            let d = ap (limit_at walk.leaf) entries_to in
                            let c = ap (limit_at walk.leaf) (next_at) in
                            let first = h.walked.limit_first (suc n) (ground arith) in ground arith;
                      },
                    ))))
        ]
      ]
    ])

-- A step that is made leads to the next extent of the same leaf.
pub extent-dwalk_next :
    (walk : Walk)
    → dwalk_end walk ≡ false
    → let (more, next) = dwalk_next walk in
      (next.extent ≡ walk.extent + 1) × (next.leaf ≡ walk.leaf) × (next.gstop ≡ walk.gstop)
unfolding dwalk_next next_entry next_group
extent-dwalk_next walk e = rw e (elim (Bool-cases (walk.extent + 1 == walk.exstop)) [
  | inr e ↦ rw e (refl, refl, refl)
  | inl e ↦ elim (Bool-cases (walk.entry == walk.estop)) [
    | inr f ↦ rw e (rw f (refl, refl, refl))
    | inl f ↦ elim (Bool-cases (walk.group == walk.gstop)) [
      | inl g ↦ rw e (rw f (rw g (refl, refl, refl)))
      | inr g ↦ rw e (rw f (rw g (refl, refl, refl)))
    ]
  ]
])

open_walk : (walk : Walk) (n i : ℕ) → IsWalk walk n i → dwalk_end walk ≡ false
unfolding dwalk_end
open_walk walk n i h = let to = h.to in ground arith

-- From a cursor at an extent, `dwalk_next` goes to the next extent of the same leaf: either it returns
-- true and the result is a cursor at that extent, right for the group and the entry that count it, or it
-- returns false, the cursor is at the end, and behind all extents that the groups
-- count. In either case `dwalk_back` succeeds and returns to the cursor before the step.
pub dwalk_back-dwalk_next :
    (walk : Walk) (n i : ℕ)
    → IsWalk walk n i
    → let (more, next) = dwalk_next walk in
      (next.extent ≡ walk.extent + 1)
      × (next.leaf ≡ walk.leaf)
      × (((more ≡ true) × (m : ℕ) × (j : ℕ) × IsWalk next m j)
          ⊎ ((more ≡ false) × (dwalk_end next ≡ true) × (next.extent ≡ bases walk.leaf walk.gstop)))
      × (dwalk_back next ≡ (true, walk))
dwalk_back-dwalk_next walk n i h =
    let moved = extent-dwalk_next walk (open_walk walk n i h) in
    (moved.0, moved.1, dwalk_next-IsWalk walk n i h, dwalk_next_undone walk n i h)

pub bases_mono : (leaf : Dleaf) (n d : ℕ) → bases leaf n ≤ bases leaf (n + d)
bases_mono leaf n zero = let e : n + 0 ≡ n = omega arith in rw e (omega arith)
bases_mono leaf n (suc d) =
    let e : n + suc d ≡ suc (n + d) = omega arith in rw e (omega (arith, bases_mono leaf n d))

pub limit_mono :
    (leaf : Dleaf) (n i d : ℕ)
    → IsWalked leaf
    → n < length leaf.groups
    → 0 < i
    → i + d ≤ count_at leaf (suc n)
    → limit_at leaf (starts leaf n + i) ≤ limit_at leaf (starts leaf n + (i + d))
limit_mono leaf n i zero w h pos le = let e : i + 0 ≡ i = omega arith in rw e (omega arith)
limit_mono leaf n i (suc d) w h pos le =
    let e : starts leaf n + (i + suc d) ≡ starts leaf n + (i + d) + 1 = omega arith in
    let up = w.limit_next n (i + d) h (omega arith) (omega arith) in
    let ih = limit_mono leaf n i d w h pos (omega arith) in rw e (omega arith)

-- The cursor is at one of the extents that the groups count.
pub extent_within :
    (walk : Walk) (n i : ℕ) → IsWalk walk n i → walk.extent < bases walk.leaf walk.gstop
extent_within walk n i h =
    let stop = h.stop in
    let within = h.within in
    let room = h.in_group in
    let to = h.to in
    let last = h.extents_to in
    let count = count_at walk.leaf (suc n) in
    let up =
      limit_mono walk.leaf n i (count - i) h.walked (omega arith) h.some_entry (omega arith) in
    let e : i + (count - i) ≡ count = omega arith in
    let up' = rw e at up in
    let f : suc n + (walk.gstop - suc n) ≡ walk.gstop = omega arith in
    let mono = rw f at (bases_mono walk.leaf (suc n) (walk.gstop - suc n)) in omega arith

starts_mono : (leaf : Dleaf) (n d : ℕ) → starts leaf n ≤ starts leaf (n + d)
starts_mono leaf n zero = let e : n + 0 ≡ n = omega arith in rw e (omega arith)
starts_mono leaf n (suc d) =
    let e : n + suc d ≡ suc (n + d) = omega arith in rw e (omega (arith, starts_mono leaf n d))

pub entry_within :
    (walk : Walk) (n i : ℕ) → IsWalk walk n i → walk.entry ≤ starts walk.leaf walk.gstop
entry_within walk n i h =
    let at = h.entry_at in
    let room = h.in_group in
    let within = h.within in
    let f : suc n + (walk.gstop - suc n) ≡ walk.gstop = omega arith in
    let mono = rw f at (starts_mono walk.leaf (suc n) (walk.gstop - suc n)) in omega arith
