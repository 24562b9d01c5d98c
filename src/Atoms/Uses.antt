-- ===== src/Atoms/Uses.antt =====
-- `use_atom` (user/kernel/xattr.c) as a change of reference counts.
use tux.Base.{
  ℕ, ◌+◌, ◌*◌, ◌-◌, ◌%◌, ◌^◌, ◌<◌, ◌≡◌, refl, arith, leb, ◌==◌, ◌||◌, true, false, Bool-cases, ◌⊎◌,
  inl, inr, some, if◌then◌else◌,
}
use tux.Errno.{ok}
use tux.Atoms.{Atable, use_counts, set_word, ref_block, ref_offset, use_refs}
use tux.Atoms.Counts.{refcount, refcount-low, refcount-both, use_counts-sum, use_counts-kill}

-- A use of an atom whose blocks of counts can be read.
use_refs-near :
    (table : Atable) (atom count : ℕ) (lows highs : ℕ → ℕ)
    → table.refs (ref_block table atom) ≡ some lows
    → table.refs (ref_block table atom + 1) ≡ some highs
    → ((lows (ref_offset table atom) + count) % 2 ^ 32 == 0
        || leb (2 ^ 16) ((lows (ref_offset table atom) + count) % 2 ^ 32))
      ≡ false
    → let (low, high, kill) =
        use_counts (lows (ref_offset table atom)) (highs (ref_offset table atom)) count in
      (use_refs table atom count ≡ (
        ok kill,
        record table {
          refs = set_word table.refs (ref_block table atom) lows (ref_offset table atom) low;
        },
      ))
      × (high ≡ highs (ref_offset table atom))
unfolding use_refs use_counts
use_refs-near table atom count lows highs l h near = rw (use_refs, l, near) (refl, refl)

use_refs-far :
    (table : Atable) (atom count : ℕ) (lows highs : ℕ → ℕ)
    → table.refs (ref_block table atom) ≡ some lows
    → table.refs (ref_block table atom + 1) ≡ some highs
    → ((lows (ref_offset table atom) + count) % 2 ^ 32 == 0
        || leb (2 ^ 16) ((lows (ref_offset table atom) + count) % 2 ^ 32))
      ≡ true
    → let (low, high, kill) =
        use_counts (lows (ref_offset table atom)) (highs (ref_offset table atom)) count in
      use_refs table atom count ≡ (
        ok kill,
        record table {
          refs =
              set_word
                (set_word table.refs (ref_block table atom) lows (ref_offset table atom) low)
                (ref_block table atom + 1)
                highs
                (ref_offset table atom)
                high;
        },
      )
unfolding use_refs use_counts
use_refs-far table atom count lows highs l h far =
    rw (use_refs, l, far) (rw h (rw (use_counts, far) refl))

-- When both blocks of an atom's counts can be read, adding 1 to its count or taking 1 changes the 32-bit
-- number of the two 16-bit halves by that, modulo 2^32, and no other atom's; below the highest count the
-- atom is to be deleted exactly when 1 is taken from a count of 1.
pub use_refs-refcount :
    (table : Atable) (atom count : ℕ) (lows highs : ℕ → ℕ)
    → table.refs (ref_block table atom) ≡ some lows
    → table.refs (ref_block table atom + 1) ≡ some highs
    → lows (ref_offset table atom) < 2 ^ 16
    → highs (ref_offset table atom) < 2 ^ 16
    → (count ≡ 1) ⊎ (count ≡ 2 ^ 32 - 1)
    → highs (ref_offset table atom) * 2 ^ 16 + lows (ref_offset table atom) + 1 < 2 ^ 32
    → let old = highs (ref_offset table atom) * 2 ^ 16 + lows (ref_offset table atom) in
      (after : Atable) × (use_refs table atom count ≡ (ok (old + count == 2 ^ 32), after))
      × ((other : ℕ)
          → refcount after other
            ≡ (if other == atom then some ((old + count) % 2 ^ 32) else refcount table other))
use_refs-refcount table atom count lows highs l h low high use_ room =
    let offset = ref_offset table atom in
    let small : count < 2 ^ 32 = ground arith in
    let total = use_counts-sum (lows offset) (highs offset) count low high small in
    let last = use_counts-kill (lows offset) (highs offset) count low high use_ room in
    elim (Bool-cases
      ((lows offset + count) % 2 ^ 32 == 0 || leb (2 ^ 16) ((lows offset + count) % 2 ^ 32))) [
        | inl far ↦
            let counts = use_counts (lows offset) (highs offset) count in
            let after : Atable = record table {
              refs =
                  set_word (set_word table.refs (ref_block table atom) lows offset counts.0)
                    (ref_block table atom + 1) highs offset counts.1;
            } in
            let done : use_refs table atom count ≡ (ok counts.2, after) =
              use_refs-far table atom count lows highs l h far in
            (
              after,
              rw last at done,
              λ other.
                  rw total at (refcount-both table atom other counts.0 counts.1 lows highs l h),
            )
        | inr near ↦
            let counts = use_counts (lows offset) (highs offset) count in
            let after : Atable = record table {
              refs = set_word table.refs (ref_block table atom) lows offset counts.0;
            } in
            let (done, same) = use_refs-near table atom count lows highs l h near in
            let sum : highs offset * 2 ^ 16 + counts.0
                ≡ (highs offset * 2 ^ 16 + lows offset + count) % 2 ^ 32 =
              rw same at total in
            (
              after,
              rw last at done,
              λ other. rw sum at (refcount-low table atom other counts.0 lows highs l h),
            )
      ]
