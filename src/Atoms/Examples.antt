-- ===== src/Atoms/Examples.antt =====
-- An atom with 65536 references, whose count is in the high half alone.
use tux.Base.{ℕ, ◌+◌, ◌-◌, ◌%◌, ◌^◌, ◌≡◌, refl, arith, ◌==◌, inr, some, if◌then◌else◌}
use tux.Errno.{ok}
use tux.Atoms.{Atable, use_refs, ref_block, ref_offset}
use tux.Atoms.Counts.{refcount}
use tux.Atoms.Uses.{use_refs-refcount}

abbrev table : Atable
table = record {
  refs = λ b. some (λ i. if b == 101 then 1 else 0);
  unatoms = λ b. some (λ i. 0);
  freeatom = 0;
  atomgen = 9;
  atomref_base = 100;
  unatom_base = 200;
  blockbits = 12;
}

-- A use less borrows from the high half.
use_refs-refcount_example :
    (after : Atable) × (use_refs table 5 (2 ^ 32 - 1)
      ≡ (ok (65536 + (2 ^ 32 - 1) == 2 ^ 32), after))
    × ((other : ℕ)
        → refcount after other
          ≡ (if other == 5 then some ((65536 + (2 ^ 32 - 1)) % 2 ^ 32) else refcount table other))
unfolding ref_block ref_offset
use_refs-refcount_example =
    use_refs-refcount table 5 (2 ^ 32 - 1) (λ i. 0) (λ i. 1) refl refl (omega arith) (omega arith)
      (inr refl) (omega arith)
