-- ===== src/Dleaf/Added.antt =====
-- `dwalk_add` at the end of a leaf (user/kernel/dleaf.c).
use tux.Base.{
  ℕ, suc, ◌+◌, ◌-◌, ◌*◌, ◌/◌, ◌^◌, ◌%◌, ◌==◌, leb, ltb, ◌&&◌, ◌||◌, not, ◌≤◌, ◌<◌, ◌≡◌, refl, sym,
  ◌∙◌, ap, arith, List, [], ◌∷◌, ◌++◌, append-nil, length, get_or, set, true, false, Bool-cases,
  inl, inr, some,
}
use tux.Dleaf.{
  Group, Entry, Extent, Dleaf, table_limit, zero_entry, zero_group, max_group_entries, dleaf_check,
}
use tux.Dleaf.View.{group_cells, cells, view}
use tux.Dleaf.Check.{IsDleaf, IsDleaf-intro, IsDleaf-check}
use tux.Dleaf.Split.{inc_count, inc_limit, inc_limits}
use tux.Dleaf.Walk.{Walk, count_at, keyhi_at, limit_at, dwalk_index}
use tux.Dleaf.Pack.{add_group, add_entry, add_extent, dwalk_add}
use tux.Dleaf.Merge.{merge_counts, inc_last_count, append_groups, append_entries, join}
use tux.Dleaf.Tails.{last_limit-last_entries, inc_last_count-zero}
use tux.Dleaf.MergeView.{Precedes, dleaf_merge-view}

-- A leaf of one extent.
abbrev pub single : ℕ → ℕ → Extent → Dleaf
single blocksize index extent = record {
  magic = 0;
  free = 16;
  used = blocksize - 8;
  groups = record { keyhi = index / 2 ^ 24; count = 1 } ∷ [];
  entries = record { keylo = index % 2 ^ 24; limit = 1 } ∷ [];
  extents = extent ∷ [];
}

single-IsDleaf :
    (blocksize index : ℕ) (extent : Extent)
    → 24 ≤ blocksize
    → blocksize < 2 ^ 16
    → index < 2 ^ 48
    → 0 < extent.block
    → IsDleaf blocksize (single blocksize index extent)
single-IsDleaf blocksize index extent room short bits pos =
    IsDleaf-intro blocksize (single blocksize index extent) (omega arith) refl (omega arith) short (
      record {
        above = omega arith;
        key = omega arith;
        some_entry = omega arith;
        few = omega arith;
        are_entries = (omega arith, omega arith, omega arith, omega arith, tt);
        are_extents = (pos, tt);
      },
      (refl, refl),
    )

set_last-inc :
    (groups : List Group)
    → set groups (length groups - 1) (inc_count (get_or groups (length groups - 1) zero_group) 1)
      ≡ inc_last_count 1 groups
unfolding inc_last_count
set_last-inc [] = refl
set_last-inc (group ∷ []) = refl
set_last-inc (group ∷ next ∷ groups) =
    let e : suc (suc (length groups)) - 1 ≡ suc (length groups) = omega arith in
    let f : suc (length groups) - 1 ≡ length groups = omega arith in
    ap
      (λ k.
        set (group ∷ next ∷ groups) k (inc_count (get_or (group ∷ next ∷ groups) k zero_group) 1))
      e
    ∙ ap (λ l. group ∷ l)
        (ap (λ k. set (next ∷ groups) k (inc_count (get_or (next ∷ groups) k zero_group) 1)) (sym f)
          ∙ set_last-inc (next ∷ groups))

get_or_last {ℓ} : {A : Type ℓ} (xs : List A) (x d : A) → get_or (xs ++ (x ∷ [])) (length xs) d ≡ x
get_or_last [] x d = refl
get_or_last (y ∷ xs) x d = get_or_last xs x d

set_last {ℓ} :
    {A : Type ℓ} (xs : List A) (x y : A) → set (xs ++ (x ∷ [])) (length xs) y ≡ xs ++ (y ∷ [])
set_last [] x y = refl
set_last (z ∷ xs) x y = ap (λ l. z ∷ l) (set_last xs x y)

-- The cursor behind the last extent of a leaf with groups.
pub record IsEnd (walk : Walk) : Type 0 where
  pub some_group : 0 < length walk.leaf.groups
  pub last_group_at : walk.group ≡ length walk.leaf.groups
  pub last_entry_at : walk.entry ≡ length walk.leaf.entries
  pub behind : walk.extent ≡ length walk.leaf.extents
  pub base : walk.exbase + table_limit walk.leaf.entries (length walk.leaf.entries) ≡ walk.extent

module _ (blocksize : ℕ) (walk : Walk) (index : ℕ) (extent : Extent)
    (is : IsDleaf blocksize walk.leaf) (end : IsEnd walk) where
  module _ (room : walk.leaf.free + 16 ≤ walk.leaf.used) where
    last_entry :
        (keylo : ℕ) (low : ℕ)
        → let entry : Entry = record { keylo = keylo; limit = low % 256 } in
          let entries = walk.leaf.entries ++ (entry ∷ []) in
          set entries
            (walk.entry + 1 - 1)
            (inc_limit (get_or entries (walk.entry + 1 - 1) zero_entry) 1)
          ≡ walk.leaf.entries ++ (record { keylo = keylo; limit = (1 + low) % 256 } ∷ [])
    unfolding inc_limit
    last_entry keylo low =
        let at = end.last_entry_at in
        let here : walk.entry + 1 - 1 ≡ length walk.leaf.entries = omega arith in
        let byte : (low % 256 + 1) % 256 ≡ (1 + low) % 256 = omega arith in
        let entry : Entry = record { keylo = keylo; limit = low % 256 } in
        rw here (
          rw (get_or_last walk.leaf.entries entry zero_entry) (
            rw
              (set_last walk.leaf.entries entry
                (record { keylo = keylo; limit = (low % 256 + 1) % 256 }))
              (rw byte refl)))

    -- `dwalk_add` of a new key appends a leaf of one extent.
    pub dwalk_add-join :
        (dwalk_index walk == index) ≡ false
        → 0 < extent.block
        → 0 < extent.count
        → IsDleaf blocksize (join walk.leaf (single blocksize index extent))
        → (u : Walk) × (dwalk_add blocksize walk index extent ≡ some u)
          × (u.leaf ≡ join walk.leaf (single blocksize index extent))
    unfolding dwalk_add add_group add_entry add_extent keyhi_at count_at limit_at join merge_counts
        append_groups append_entries inc_limits inc_limit inc_count
    dwalk_add-join fresh some_block some_count is' =
        let leaf = walk.leaf in
        let keyhi = index / 2 ^ 24 in
        let keylo = index % 2 ^ 24 in
        let some_group = end.some_group in
        let at = end.last_group_at in
        let base = end.base in
        let n0 : (length leaf.groups == 0) ≡ false = ground arith in
        let b0 : (extent.block == 0) ≡ false = ground arith in
        let c0 : (extent.count == 0) ≡ false = ground arith in
        let fits : ltb leaf.used (leaf.free + 4) ≡ false = ground arith in
        let fits' : ltb (leaf.used - 4) (leaf.free + 8) ≡ false = ground arith in
        let last = get_or leaf.groups (length leaf.groups - 1) zero_group in
        let check = IsDleaf-check blocksize (join leaf (single blocksize index extent)) is' in
        let low = walk.extent - walk.exbase in
        let e : low ≡ table_limit leaf.entries (length leaf.entries) = omega arith in
        let zero_base : walk.extent - (walk.exbase + table_limit leaf.entries (length leaf.entries))
            ≡ 0 =
          omega arith in
        let entry_here = end.last_entry_at in
        let small = is.delimits.used_groups in
        let short = is.delimits.short in
        rw n0 (
          rw fresh (
            rw b0 (
              rw c0 (
                rw at (elim (Bool-cases (last.keyhi == keyhi && ltb last.count max_group_entries)) [
                  | inl same ↦
                      let t : (not (last.keyhi == keyhi) || leb max_group_entries last.count)
                          ≡ false =
                        ground arith in
                      let r : ltb (max_group_entries - last.count) 1 ≡ false = ground arith in
                      let used : (leaf.used + 2 ^ 32 - 4 * 0 - 4 * 1) % 2 ^ 16 ≡ leaf.used - 4 =
                        omega arith in
                      let up = append-nil (inc_last_count 1 leaf.groups) in
                      let joined : join leaf (single blocksize index extent) ≡ record leaf {
                        free = (leaf.free + 8) % 2 ^ 16;
                        used = leaf.used - 4;
                        groups = inc_last_count 1 leaf.groups;
                        entries =
                            leaf.entries
                            ++ (record { keylo = keylo; limit = (1 + low) % 256 } ∷ []);
                        extents = leaf.extents ++ (extent ∷ []);
                      } =
                        rw same (rw r (rw used (rw up (rw e refl)))) in
                      let entries =
                        leaf.entries ++ (record { keylo = keylo; limit = low % 256 } ∷ []) in
                      let raw : Dleaf = record leaf {
                        free = (leaf.free + 8) % 2 ^ 16;
                        used = leaf.used - 4;
                        groups = set leaf.groups (length leaf.groups - 1) (inc_count last 1);
                        entries =
                            set entries (walk.entry + 1 - 1)
                              (inc_limit (get_or entries (walk.entry + 1 - 1) zero_entry) 1);
                        extents = leaf.extents ++ (extent ∷ []);
                      } in
                      let q : raw ≡ join leaf (single blocksize index extent) =
                        rw (last_entry keylo low) (rw (set_last-inc leaf.groups) (sym joined)) in
                      let checked = ap (dleaf_check blocksize) q ∙ check in
                      rw t (rw fits (rw fits' (rw checked (_, refl, q))))
                  | inr other ↦
                      let t : (not (last.keyhi == keyhi) || leb max_group_entries last.count)
                          ≡ true =
                        ground arith in
                      let used : (leaf.used + 2 ^ 32 - 4 * 1 - 4 * 1) % 2 ^ 16 ≡ leaf.used - 4 - 4 =
                        omega arith in
                      let (_, _, _, few) =
                        last_limit-last_entries 0 leaf.groups leaf.entries leaf.extents
                          is.are_groups some_group in
                      let up = inc_last_count-zero leaf.groups (omega arith) in
                      let new = record leaf {
                        free = (leaf.free + 8) % 2 ^ 16;
                        used = leaf.used - 4 - 4;
                        groups = leaf.groups ++ (record { keyhi = keyhi; count = 1 } ∷ []);
                        entries = leaf.entries ++ (record { keylo = keylo; limit = 1 } ∷ []);
                        extents = leaf.extents ++ (extent ∷ []);
                      } in
                      let joined : join leaf (single blocksize index extent) ≡ new =
                        rw other (rw used (rw up refl)) in
                      let limit_here = ap (table_limit leaf.entries) entry_here in
                      let low' =
                        walk.extent - (walk.exbase + table_limit leaf.entries walk.entry) in
                      let none_left : low' ≡ 0 = omega arith in
                      let one : (1 + low') % 256 ≡ 1 = omega arith in
                      let entries =
                        leaf.entries ++ (record { keylo = keylo; limit = low' % 256 } ∷ []) in
                      let empty : Group = record { keyhi = keyhi; count = 0 } in
                      let groups = leaf.groups ++ (empty ∷ []) in
                      let at_new : length leaf.groups + 1 - 1 ≡ length leaf.groups = omega arith in
                      let grouped : set groups (length leaf.groups + 1 - 1)
                            (inc_count (get_or groups (length leaf.groups + 1 - 1) zero_group) 1)
                          ≡ leaf.groups ++ (record { keyhi = keyhi; count = 1 } ∷ []) =
                        rw at_new (
                          rw (get_or_last leaf.groups empty zero_group)
                            (set_last leaf.groups empty (inc_count empty 1))) in
                      let raw : Dleaf = record leaf {
                        free = (leaf.free + 8) % 2 ^ 16;
                        used = leaf.used - 4 - 4;
                        groups =
                            set groups (length leaf.groups + 1 - 1)
                              (inc_count (get_or groups (length leaf.groups + 1 - 1) zero_group) 1);
                        entries =
                            set entries (walk.entry + 1 - 1)
                              (inc_limit (get_or entries (walk.entry + 1 - 1) zero_entry) 1);
                        extents = leaf.extents ++ (extent ∷ []);
                      } in
                      let q : raw ≡ join leaf (single blocksize index extent) =
                        rw (last_entry keylo low') (rw one (rw grouped (sym joined))) in
                      let checked = ap (dleaf_check blocksize) q ∙ check in
                      let fits_entry : ltb (leaf.used - 4) (leaf.free + 4) ≡ false = ground arith in
                      let fits_extent : ltb (leaf.used - 4 - 4) (leaf.free + 8) ≡ false =
                        ground arith in
                      rw t (rw fits (rw fits_entry (rw fits_extent (rw checked (_, refl, q)))))
                ])))))

view-single :
    (blocksize index : ℕ) (extent : Extent)
    → view (single blocksize index extent) ≡ (index, extent ∷ []) ∷ []
unfolding view group_cells cells
view-single blocksize index extent =
    let e : index / 2 ^ 24 * 2 ^ 24 + index % 2 ^ 24 ≡ index = omega arith in
    λ k. (e k, extent ∷ []) ∷ []

-- At the end of a leaf with groups that the checks accept and that has 16 bytes of room, `dwalk_add` of
-- an extent with a block and a count at a key of 48 bits above the leaf's, other than the cursor's, fails
-- no assertion, where the limit of an entry that joins the last group stays a byte: the checks accept the
-- leaf, and its mapping has the key with this extent behind the old ones.
pub dwalk_add-view :
    (blocksize : ℕ) (walk : Walk) (index : ℕ) (extent : Extent)
    → IsDleaf blocksize walk.leaf
    → IsEnd walk
    → walk.leaf.free + 16 ≤ walk.leaf.used
    → index < 2 ^ 48
    → (dwalk_index walk == index) ≡ false
    → 0 < extent.block
    → 0 < extent.count
    → Precedes walk.leaf (single blocksize index extent)
    → (u : Walk) × (dwalk_add blocksize walk index extent ≡ some u)
      × IsDleaf blocksize u.leaf
      × (view u.leaf ≡ view walk.leaf ++ ((index, extent ∷ []) ∷ []))
dwalk_add-view blocksize walk index extent is end room bits fresh some_block some_count p =
    let leaf = walk.leaf in
    let free = is.delimits.free_extents in
    let used = is.delimits.used_groups in
    let (_, is', same) =
      dleaf_merge-view blocksize leaf (single blocksize index extent) is
        (single-IsDleaf blocksize index extent (omega arith) is.delimits.short bits some_block)
        end.some_group (omega arith) (omega arith) p in
    let (u, at, q) =
      dwalk_add-join blocksize walk index extent is end room fresh some_block some_count is' in
    (
      u,
      at,
      rw q is',
      ap view q ∙ same ∙ ap (λ l. view leaf ++ l) (view-single blocksize index extent),
    )
