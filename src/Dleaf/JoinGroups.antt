-- ===== src/Dleaf/JoinGroups.antt =====
-- Groups of one file index leaf behind those of another (user/kernel/dleaf.c).
use tux.Base.{
  ℕ, zero, suc, ◌+◌, ◌-◌, ◌%◌, ◌≤◌, ◌<◌, ◌≡◌, refl, sym, ◌∙◌, ap, arith, List, [], ◌∷◌, ◌++◌,
  append_assoc, append-nil, take, drop, length, get_or,
}
use tux.Base.Slices.{take_all}
use tux.Dleaf.{Group, Entry, Extent, table_limit, zero_entry, zero_group}
use tux.Dleaf.View.{cells, group_cells, AreEntries, AreExtents, IsGroup, AreGroups}
use tux.Dleaf.Check.{AreEntries-length, AreExtents-length}
use tux.Dleaf.Split.{inc_count, inc_limits}
use tux.Dleaf.Cut.{last_limit, table_limit-last_limit}
use tux.Dleaf.CutGroup.{drop-inc_limits}
use tux.Dleaf.Halves.{cells-take}
use tux.Dleaf.Merge.{inc_last_count}
use tux.Dleaf.Joined.{
  take-append, drop-append, drop-append_behind, next_least, AreEntries-append, AreEntries-before,
  AreExtents-before, AreExtents-append, AreEntries-raise, cells-join,
}

-- The entries of the last group.
abbrev pub last_entries : List Group → List Entry → List Entry
last_entries [] entries = entries
last_entries (group ∷ []) entries = entries
last_entries (group ∷ next ∷ groups) entries =
    last_entries (next ∷ groups) (drop group.count entries)

abbrev pub last_group : List Group → Group
last_group [] = zero_group
last_group (group ∷ []) = group
last_group (group ∷ next ∷ groups) = last_group (next ∷ groups)

pub empty_drop {ℓ} : {A : Type ℓ} (n : ℕ) (xs : List A) → drop n xs ≡ [] → length xs ≤ n
empty_drop zero [] e = omega arith
empty_drop zero (x ∷ xs) e = absurd (let z = ap length e in omega arith)
empty_drop (suc n) [] e = omega arith
empty_drop (suc n) (x ∷ xs) e = omega (arith, empty_drop n xs e)

take-append_behind {ℓ} :
    {A : Type ℓ} (n k : ℕ) (xs ys : List A)
    → n ≡ length xs + k
    → take n (xs ++ ys) ≡ xs ++ take k ys
take-append_behind n k [] ys e = ap (λ m. take m ys) (omega arith)
take-append_behind zero k (x ∷ xs) ys e = absurd (omega arith)
take-append_behind (suc n) k (x ∷ xs) ys e =
    ap (λ l. x ∷ l) (take-append_behind n k xs ys (omega arith))

pub get_or-append {ℓ} :
    {A : Type ℓ} (i : ℕ) (xs ys : List A) (d : A)
    → i < length xs
    → get_or (xs ++ ys) i d ≡ get_or xs i d
get_or-append i [] ys d h = absurd (omega arith)
get_or-append zero (x ∷ xs) ys d h = refl
get_or-append (suc i) (x ∷ xs) ys d h = get_or-append i xs ys d (omega arith)

-- The group `first` of the appended tables has the key of the last group, and room in it.
module _ (first : Group) (groups : List Group) (more : List Entry) (rest : List Extent) where
  pub record Fits (last : Group) (entries : List Entry) : Type 0 where
    pub key : last.keyhi ≡ first.keyhi
    pub room : last.count + first.count ≤ 255
    pub limits : last_limit 0 (length entries) entries + last_limit 0 first.count more < 256
    pub follows : AreEntries first.count (next_least 0 entries) 0 more

  module _ (lower : ℕ) (is2 : IsGroup lower first more rest) where
    module _ (keyhi : ℕ) (group : Group) (entries : List Entry) (extents : List Extent) where
      join_last :
          IsGroup keyhi group entries extents
          → drop group.count entries ≡ []
          → drop (table_limit entries group.count) extents ≡ []
          → Fits group entries
          → AreGroups first.keyhi groups
              (drop first.count more)
              (drop (table_limit more first.count) rest)
          → let base = last_limit 0 (length entries) entries in
            let merged = entries ++ inc_limits first.count base more in
            AreGroups keyhi (inc_count group first.count ∷ groups) merged (extents ++ rest)
            × (group_cells (inc_count group first.count ∷ groups) merged (extents ++ rest)
                ≡ group_cells (group ∷ []) entries extents
                  ++ group_cells (first ∷ groups) more rest)
      unfolding inc_count group_cells
      join_last is none_left none_more fits behind =
          let c = first.count in
          let base = last_limit 0 (length entries) entries in
          let raised = inc_limits c base more in
          let some_entry = is.some_entry in
          let size : group.count ≡ length entries = omega (
            arith,
            AreEntries-length group.count 0 0 entries is.are_entries,
            empty_drop group.count entries none_left,
          ) in
          let limit = table_limit-last_limit group.count 0 0 entries is.some_entry is.are_entries in
          let limit' = ap (λ n. last_limit 0 n entries) size in
          let total : length extents ≡ base = omega (
            arith,
            AreExtents-length (table_limit entries group.count) extents is.are_extents,
            empty_drop (table_limit entries group.count) extents none_more,
          ) in
          let own : AreEntries (length entries) 0 0 entries = rw size at is.are_entries in
          let z : base + 0 ≡ base = omega arith in
          let (up, up_limit) =
            AreEntries-raise c (next_least 0 entries) 0 base more fits.follows (omega arith)
              fits.limits in
          let k = group.count + c in
          let (both, both_limit) =
            AreEntries-append k c 0 0 entries raised (omega arith) own (rw z at up) in
          let pos2 = is2.some_entry in
          let limit_k = table_limit-last_limit k 0 0 (entries ++ raised) (omega arith) both in
          let limit2 = table_limit-last_limit c 0 0 more is2.some_entry is2.are_entries in
          let up_limit' = rw z at up_limit in
          let whole : table_limit (entries ++ raised) k ≡ length extents + table_limit more c =
            omega arith in
          let room = fits.room in
          let e : (group.count + c) % 256 ≡ k = omega arith in
          let es =
            drop-append_behind k c entries raised (omega arith) ∙ drop-inc_limits c base more in
          let xs =
            drop-append_behind (length extents + table_limit more c) (table_limit more c) extents
              rest refl in
          let xs_own : AreExtents (length extents) extents =
            let q = limit ∙ limit' ∙ sym total in rw q at is.are_extents in
          let xs_is =
            AreExtents-append (length extents + table_limit more c) (table_limit more c) extents
              rest refl xs_own is2.are_extents in
          let above = is.above in
          let taken = take-append_behind k c entries raised (omega arith) in
          let all_own = take_all group.count entries (omega arith) in
          let last : length extents + last_limit 0 c more < 256 =
            let lim = fits.limits in omega arith in
          let same = λ (n : ℕ).
            cells group.keyhi 0 (entries ++ take c (inc_limits c n more)) (extents ++ rest) in
          let joined =
            ap same (sym total)
            ∙ cells-join group.keyhi c (next_least 0 entries) entries more extents rest own total
                fits.follows last in
          let old = cells group.keyhi 0 entries extents in
          let new = cells first.keyhi 0 (take c more) rest in
          let tail = group_cells groups (drop c more) (drop (table_limit more c) rest) in
          let new_key = ap (λ n. cells n 0 (take c more) rest) fits.key in
          (
            (
              record {
                above = is.above;
                key = is.key;
                some_entry = rw e (omega arith);
                few = rw e fits.room;
                are_entries = rw e both;
                are_extents = rw e (rw whole xs_is);
              },
              rw e (rw es (rw whole (rw xs (rw fits.key behind)))),
            ),
            rw e (
                rw es (
                  rw whole (
                    rw xs (
                      rw taken (
                        rw all_own (
                          ap (λ l. l ++ tail) (joined ∙ ap (λ l. old ++ l) new_key)
                          ∙ append_assoc old new tail
                          ∙ ap (λ l. l ++ (new ++ tail)) (sym (append-nil old)))))))),
          )

pub table_limit-append :
    (n : ℕ) (entries more : List Entry)
    → 0 < n
    → n ≤ length entries
    → table_limit (entries ++ more) n ≡ table_limit entries n
table_limit-append n entries more pos le =
    ap (λ (e : Entry). e.limit) (get_or-append (n - 1) entries more zero_entry (omega arith))

-- A first group whose tables go on behind it.
module _ (keyhi : ℕ) (group : Group) (entries more : List Entry) (extents rest : List Extent) where
  module _ (is : IsGroup keyhi group entries extents) where
    pub before_more :
        IsGroup keyhi group (entries ++ more) (extents ++ rest)
        × (drop group.count (entries ++ more) ≡ drop group.count entries ++ more)
        × (drop (table_limit (entries ++ more) group.count) (extents ++ rest)
            ≡ drop (table_limit entries group.count) extents ++ rest)
        × (cells group.keyhi 0 (take group.count (entries ++ more)) (extents ++ rest)
            ≡ cells group.keyhi 0 (take group.count entries) extents)
    before_more =
        let n = AreEntries-length group.count 0 0 entries is.are_entries in
        let m = AreExtents-length (table_limit entries group.count) extents is.are_extents in
        let lim = table_limit-append group.count entries more is.some_entry n in
        let last = table_limit-last_limit group.count 0 0 entries is.some_entry is.are_entries in
        let few =
          cells-take group.keyhi group.count (table_limit entries group.count) 0 0 entries
            (extents ++ rest) is.are_entries (omega arith) (omega arith) in
        let few' =
          cells-take group.keyhi group.count (table_limit entries group.count) 0 0 entries extents
            is.are_entries (omega arith) (omega arith) in
        let same = take-append (table_limit entries group.count) extents rest m in
        let taken = take-append group.count entries more n in
        (
          record {
            above = is.above;
            key = is.key;
            some_entry = is.some_entry;
            few = is.few;
            are_entries = AreEntries-before group.count 0 0 entries more is.are_entries;
            are_extents =
                rw lim
                  (AreExtents-before (table_limit entries group.count) extents rest is.are_extents);
          },
          drop-append group.count entries more n,
          rw lim (drop-append (table_limit entries group.count) extents rest m),
          rw taken
              (sym few ∙ ap (λ x. cells group.keyhi 0 (take group.count entries) x) same ∙ few'),
        )

-- A first group that is merged whole into the last one of a leaf.
pub join_merged :
    (first : Group) (groups2 : List Group) (more : List Entry) (rest : List Extent) (lower : ℕ)
    → IsGroup lower first more rest
    → AreGroups first.keyhi groups2
        (drop first.count more)
        (drop (table_limit more first.count) rest)
    → (keyhi : ℕ) (groups : List Group) (entries : List Entry) (extents : List Extent)
    → AreGroups keyhi groups entries extents
    → 0 < length groups
    → Fits first groups2 more rest (last_group groups) (last_entries groups entries)
    → let tail = last_entries groups entries in
      let base = last_limit 0 (length tail) tail in
      let merged = entries ++ inc_limits first.count base more in
      AreGroups keyhi (inc_last_count first.count groups ++ groups2) merged (extents ++ rest)
      × (group_cells (inc_last_count first.count groups ++ groups2) merged (extents ++ rest)
          ≡ group_cells groups entries extents ++ group_cells (first ∷ groups2) more rest)
unfolding inc_last_count group_cells
join_merged first groups2 more rest lower is2 behind keyhi [] entries extents are some_group fits =
    absurd (omega arith)
join_merged first groups2 more rest lower is2 behind keyhi (group ∷ []) entries extents (is, (a, b))
      some_group fits =
    join_last first groups2 more rest lower is2 keyhi group entries extents is a b fits behind
join_merged first groups2 more rest lower is2 behind keyhi (group ∷ next ∷ groups) entries extents
      (is, are) some_group fits =
    let tail = last_entries (next ∷ groups) (drop group.count entries) in
    let base = last_limit 0 (length tail) tail in
    let added = inc_limits first.count base more in
    let (is', es, xs, same) = before_more keyhi group entries added extents rest is in
    let (ih, cs) =
      join_merged first groups2 more rest lower is2 behind group.keyhi (next ∷ groups)
        (drop group.count entries) (drop (table_limit entries group.count) extents) are
        (omega arith) fits in
    let own = cells group.keyhi 0 (take group.count entries) extents in
    (
      (is', rw es (rw xs ih)),
      rw es (
          rw xs (
            rw same (
              ap (λ l. own ++ l) cs
              ∙ sym (
                  append_assoc own
                    (group_cells (next ∷ groups) (drop group.count entries)
                      (drop (table_limit entries group.count) extents))
                    (group_cells (first ∷ groups2) more rest))))),
    )

-- Groups that are appended as they are.
pub join_apart :
    (groups2 : List Group) (more : List Entry) (rest : List Extent) (keyhi : ℕ)
    (groups : List Group) (entries : List Entry) (extents : List Extent)
    → AreGroups keyhi groups entries extents
    → 0 < length groups
    → AreGroups (last_group groups).keyhi groups2 more rest
    → AreGroups keyhi (groups ++ groups2) (entries ++ more) (extents ++ rest)
      × (group_cells (groups ++ groups2) (entries ++ more) (extents ++ rest)
          ≡ group_cells groups entries extents ++ group_cells groups2 more rest)
unfolding group_cells
join_apart groups2 more rest keyhi [] entries extents are some_group behind = absurd (omega arith)
join_apart groups2 more rest keyhi (group ∷ []) entries extents (is, (a, b)) some_group behind =
    let (is', es, xs, same) = before_more keyhi group entries more extents rest is in
    let own = cells group.keyhi 0 (take group.count entries) extents in
    (
      (is', rw es (rw xs (rw a (rw b behind)))),
      rw es (
          rw xs (
            rw same
              (rw a (rw b (ap (λ l. l ++ group_cells groups2 more rest) (sym (append-nil own))))))),
    )
join_apart groups2 more rest keyhi (group ∷ next ∷ groups) entries extents (is, are) some_group
      behind =
    let (is', es, xs, same) = before_more keyhi group entries more extents rest is in
    let (ih, cs) =
      join_apart groups2 more rest group.keyhi (next ∷ groups) (drop group.count entries)
        (drop (table_limit entries group.count) extents) are (omega arith) behind in
    let own = cells group.keyhi 0 (take group.count entries) extents in
    (
      (is', rw es (rw xs ih)),
      rw es (
          rw xs (
            rw same (
              ap (λ l. own ++ l) cs
              ∙ sym (
                  append_assoc own
                    (group_cells (next ∷ groups) (drop group.count entries)
                      (drop (table_limit entries group.count) extents))
                    (group_cells groups2 more rest))))),
    )
