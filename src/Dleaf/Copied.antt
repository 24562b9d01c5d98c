-- ===== src/Dleaf/Copied.antt =====
-- `dwalk_copy` and `dwalk_chop` at the first extent of an entry (user/kernel/dleaf.c).
use tux.Base.{
  ℕ, zero, suc, ◌+◌, ◌-◌, ◌*◌, ◌^◌, ◌%◌, ◌==◌, leb, ◌≤◌, ◌<◌, ◌≡◌, refl, ap, sym, ◌∙◌, arith, true,
  false, Bool-cases, inl, inr, length, List, [], ◌∷◌, drop, take, get_or, length-take,
  if◌then◌else◌,
}
use tux.Base.Slices.{get_or-drop}
use tux.Dleaf.{Group, Entry, Dleaf, table_limit, zero_group}
use tux.Dleaf.View.{AreWords, AreWords-drop}
use tux.Dleaf.Check.{IsDleaf}
use tux.Dleaf.Split.{
  minus, inc_count, inc_limit, inc_limits, inc_first_count, set_last_count, split_point,
  keep_groups, move_groups, move_entries, split_extents, divide,
}
use tux.Dleaf.Halves.{Halves}
use tux.Dleaf.Divided.{split_point-Halves}
use tux.Dleaf.SplitView.{length-set_last_count}
use tux.Dleaf.Walk.{
  Walk, count_at, limit_at, dwalk_first, dwalk_end, dwalk_back, entry_limit_before, back_entry,
  back_group,
}
use tux.Dleaf.Steps.{starts, bases, IsWalk}
use tux.Dleaf.Visit.{entry_within, limit_mono}
use tux.Dleaf.Point.{split_point-starts, totals_length}
use tux.Dleaf.Pack.{set_first_count, dwalk_copy, chop_behind, dwalk_chop}

set_first_count-inc :
    (cut : ℕ) (groups : List Group)
    → let count = (get_or groups 0 zero_group).count in
      cut ≤ count
      → count < 256
      → set_first_count (count - cut) groups ≡ inc_first_count (minus cut) groups
unfolding set_first_count inc_first_count inc_count minus
set_first_count-inc cut [] le few = refl
set_first_count-inc cut (group ∷ groups) le few =
    let e : (group.count - cut) % 256 ≡ (group.count + (2 ^ 32 - cut) % 2 ^ 32) % 256 =
      omega arith in
    rw e refl

inc_limits-zero :
    (m : ℕ) (entries : List Entry) → AreWords entries → inc_limits m (minus 0) entries ≡ entries
unfolding inc_limits inc_limit minus
inc_limits-zero zero entries w = refl
inc_limits-zero (suc m) [] w = refl
inc_limits-zero (suc m) (entry ∷ entries) (lo, byte, w) =
    let e : (entry.limit + 0) % 256 ≡ entry.limit = omega arith in
    rw e (ap (λ l. entry ∷ l) (inc_limits-zero m entries w))

set_last_count_self :
    (n : ℕ) (groups : List Group)
    → n < length groups
    → (get_or groups n zero_group).count < 256
    → set_last_count (get_or groups n zero_group).count (take (suc n) groups) ≡ take (suc n) groups
unfolding set_last_count
set_last_count_self n [] h few = absurd (omega arith)
set_last_count_self zero (group ∷ groups) h few =
    let e : group.count % 256 ≡ group.count = omega arith in rw e refl
set_last_count_self (suc n) (group ∷ []) h few = absurd (omega arith)
set_last_count_self (suc n) (group ∷ next ∷ groups) h few =
    ap (λ l. group ∷ l) (set_last_count_self n (next ∷ groups) (omega arith) few)

moved_entries :
    (cut : ℕ) (groups : List Group) (entries : List Entry) (limit : ℕ)
    → let count = (get_or groups 0 zero_group).count in
      cut < count
      → count < 256
      → AreWords entries
      → inc_limits (count - cut) (minus (if cut == 0 then 0 else limit)) entries ≡ (
          if cut == 0
          then entries
          else inc_limits
              (get_or (inc_first_count (minus cut) groups) 0 zero_group).count
              (minus limit)
              entries)
unfolding inc_first_count inc_count minus
moved_entries cut [] entries limit lt few w = elim lt [ ]
moved_entries cut (group ∷ groups) entries limit lt few w =
    let e : (group.count + (2 ^ 32 - cut) % 2 ^ 32) % 256 ≡ group.count - cut = omega arith in
    elim (Bool-cases (cut == 0)) [
      | inl z ↦ rw z (inc_limits-zero (group.count - cut) entries w)
      | inr z ↦ rw z (rw e refl)
    ]

module _ (leaf : Dleaf) where
  positive : (n : ℕ) → 0 < bases leaf n → 0 < n
  positive zero h = h
  positive (suc n) h = omega arith

module _ (blocksize : ℕ) (walk : Walk) (n i : ℕ) (is : IsDleaf blocksize walk.leaf)
    (h : IsWalk walk n (suc i)) where
  abbrev pub split : ℕ
  split = starts walk.leaf n + i

  head_count : (get_or (drop n walk.leaf.groups) 0 zero_group).count ≡ count_at walk.leaf (suc n)
  unfolding count_at
  head_count =
      let z : n + 0 ≡ suc n - 1 = omega arith in
      ap (λ (g : Group). g.count) (get_or-drop n 0 walk.leaf.groups zero_group)
      ∙ ap (λ k. (get_or walk.leaf.groups k zero_group).count) z

  point : split_point walk.leaf.groups walk.leaf.entries split ≡ (n, bases walk.leaf n, i)
  point =
      let stop = h.stop in
      let within = h.within in
      let room = h.in_group in
      split_point-starts n i 0 walk.leaf.groups walk.leaf walk.leaf.extents refl is.are_groups
        (omega arith) (omega arith)

  -- The extents before the cursor's entry.
  before : entry_limit_before walk ≡ (if i == 0 then 0 else table_limit walk.leaf.entries split)
  unfolding entry_limit_before limit_at
  before =
      let at = h.entry_at in
      let here = ap (count_at walk.leaf) h.here in
      let to = h.entries_to in
      let c = h.in_group in
      let e : walk.entry - 1 ≡ starts walk.leaf n + i = omega arith in
      elim (Bool-cases (i == 0)) [
        | inl z ↦
            let test : (walk.entry - 1 + count_at walk.leaf walk.group == walk.estop) ≡ true =
              ground arith in
            rw z (rw test refl)
        | inr z ↦
            let test : (walk.entry - 1 + count_at walk.leaf walk.group == walk.estop) ≡ false =
              ground arith in
            rw z (rw test (rw e refl))
      ]

  pub split_within : split < length walk.leaf.entries
  split_within =
      let a = entry_within walk n (suc i) h in
      let (t, _) =
        totals_length 0 walk.leaf.groups walk.leaf walk.leaf.extents refl is.are_groups in
      let s = ap (starts walk.leaf) h.stop in let at = h.entry_at in omega arith

  halves :
      Halves 0 walk.leaf.groups walk.leaf.entries walk.leaf.extents split n (bases walk.leaf n) i
  halves = rw point at (
      split_point-Halves 0 walk.leaf.groups walk.leaf.entries walk.leaf.extents split is.are_groups
        split_within)

  -- `dwalk_copy` makes the second leaf of a split at the cursor's entry.
  pub dwalk_copy-divide :
      (dest : Dleaf)
      → 0 < walk.extent
      → dwalk_copy blocksize walk dest ≡ (divide blocksize walk.leaf dest split).1
  unfolding dwalk_copy dwalk_end dwalk_first divide move_groups move_entries split_extents
  dwalk_copy-divide dest pos =
      let leaf = walk.leaf in
      let to = h.to in
      let stop = h.stop in
      let here = h.here in
      let within = h.within in
      let at = h.entry_at in
      let e_to = h.entries_to in
      let room = h.in_group in
      let base = h.base in
      let size = is.delimits.free_extents in
      let few = h.walked.few n (omega arith) in
      let inside = halves.extents_within in
      let not_end : (walk.extent == walk.exstop) ≡ false = ground arith in
      let not_first : (walk.extent == 0) ≡ false = ground arith in
      let count : walk.estop + 1 - walk.entry
          ≡ (get_or (drop n leaf.groups) 0 zero_group).count - i =
        omega (arith, head_count) in
      let g : walk.group - 1 ≡ n = omega arith in
      let g2 : walk.gstop + 1 - walk.group ≡ length leaf.groups - n = omega arith in
      let en : length leaf.entries + 1 - walk.entry ≡ length leaf.entries - (starts leaf n + i) =
        omega arith in
      let e1 : walk.entry - 1 ≡ starts leaf n + i = omega arith in
      let x : ℕ = bases leaf n + (if i == 0 then 0 else table_limit leaf.entries split) in
      let free : (8 + 8 * (length leaf.extents - x)) % 2 ^ 16
          ≡ (8 + (leaf.free + 2 ^ 32 - (8 + 8 * x)) % 2 ^ 32) % 2 ^ 16 =
        omega arith in
      let head = head_count in
      let groups = set_first_count-inc i (drop n leaf.groups) (omega arith) (omega arith) in
      let entries =
        moved_entries i (drop n leaf.groups) (drop split leaf.entries)
          (table_limit leaf.entries split) (omega arith) (omega arith)
          (AreWords-drop split leaf.entries is.delimits.words) in
      rw not_end (
        rw not_first (
          rw point (
            rw before (
              rw base (
                rw g2 (
                  rw en (
                    rw g (
                      rw e1 (
                        rw count (λ k. record dest {
                          free = free k;
                          used =
                              (blocksize
                                + 2 ^ 32
                                - 4 * (length leaf.groups - n)
                                - 4 * (length leaf.entries - (starts leaf n + i)))
                              % 2 ^ 16;
                          groups = groups k;
                          entries = entries k;
                          extents = drop x leaf.extents;
                        }))))))))))

  -- `dwalk_chop` at the first extent of an entry leaves the first leaf of such a split.
  pub dwalk_chop-divide :
      (dest : Dleaf)
      → 0 < walk.extent
      → walk.extent ≡ walk.exbase + entry_limit_before walk
      → (dwalk_chop blocksize walk).leaf ≡ (divide blocksize walk.leaf dest split).0
  unfolding dwalk_chop dwalk_end dwalk_first dwalk_back back_entry back_group chop_behind divide
      keep_groups split_extents limit_at
  dwalk_chop-divide dest pos first =
      let leaf = walk.leaf in
      let to = h.to in
      let stop = h.stop in
      let here = h.here in
      let within = h.within in
      let at = h.entry_at in
      let e_to = h.entries_to in
      let room = h.in_group in
      let base = h.base in
      let not_end : (walk.extent == walk.exstop) ≡ false = ground arith in
      let not_first : (walk.extent == 0) ≡ false = ground arith in
      let behind : leb (walk.exbase + entry_limit_before walk) (walk.extent - 1) ≡ false =
        ground arith in
      rw not_end (
        rw not_first (
          rw behind (
            rw point (elim (Bool-cases (i == 0)) [
              | inr z ↦
                  let b = rw z at before in
                  let same : leb walk.exbase (walk.extent - 1) ≡ true =
                    let one : starts leaf n + (1 + (i - 1)) ≡ starts leaf n + i = ground arith in
                    let up = ap (limit_at leaf) one in
                    let low = h.walked.limit_first n (omega arith) in
                    let mono =
                      limit_mono leaf n 1 (i - 1) h.walked (omega arith) (omega arith)
                        (ground arith) in
                    ground arith in
                  let e1 : walk.entry - 1 ≡ split = omega arith in
                  let c = ap (count_at leaf) here in
                  let count : split - (walk.estop - count_at leaf walk.group) ≡ i = omega arith in
                  let up : n + 1 ≡ suc n = omega arith in
                  let n_kept = length-set_last_count i (take (suc n) leaf.groups) in
                  let n_take = length-take {0} (suc n) leaf.groups in
                  let kept : length (set_last_count i (take (suc n) leaf.groups)) ≡ suc n =
                    omega arith in
                  rw same (rw z (rw e1 (rw count (rw base (rw here (rw up (rw kept refl)))))))
              | inl z ↦
                  let b = rw z at before in
                  let other : leb walk.exbase (walk.extent - 1) ≡ false = ground arith in
                  let some_group : (walk.group == 0) ≡ false = ground arith in
                  rw other (
                    rw some_group (
                      rw z (
                        let m = n - 1 in
                        let some_n : 0 < n = positive leaf n (ground arith) in
                        let e : n ≡ suc m = omega arith in
                        let st : starts leaf n ≡ starts leaf (suc m) = ap (starts leaf) e in
                        let ba : bases leaf n ≡ bases leaf (suc m) = ap (bases leaf) e in
                        let e1 : walk.entry - 1 ≡ split = ground arith in
                        let g : walk.group - 1 ≡ n = omega arith in
                        let at_split : limit_at leaf (walk.entry - 1)
                            ≡ limit_at leaf (starts leaf (suc m)) =
                          ap (limit_at leaf) (ground arith) in
                        let x : walk.exbase
                              - limit_at leaf (walk.entry - 1)
                              + limit_at leaf (walk.entry - 1)
                            ≡ bases leaf n + 0 =
                          omega arith in
                        let c = ap (count_at leaf) g in
                        let last = ap (count_at leaf) e in
                        let few = h.walked.few m (omega arith) in
                        let count : walk.entry
                              - 1
                              - (walk.entry - 1 - count_at leaf (walk.group - 1))
                            ≡ count_at leaf n =
                          omega arith in
                        let self =
                          ap (λ k. set_last_count (count_at leaf n) (take k leaf.groups)) e
                          ∙ set_last_count_self m leaf.groups (omega arith) (omega arith)
                          ∙ sym (ap (λ k. take k leaf.groups) e) in
                        let taken = length-take {0} n leaf.groups in
                        let size : length (take n leaf.groups) ≡ n = omega arith in
                        rw x (rw count (rw e1 (rw g (rw self (rw size refl))))))))
            ]))))
