-- ===== src/Balloc/Scan.antt =====
-- The two inner loops of `balloc_from_range`: bits of a byte, and bytes of a block.
use tux.Base.{
  ℕ, zero, suc, ◌+◌, ◌-◌, ◌*◌, ◌/◌, ◌%◌, ◌^◌, ◌≤◌, ◌<◌, ◌≡◌, refl, arith, bit_and, ◌==◌, ltb,
  Bool-cases, ==_iff, inl, inr, Option, none, some, true,
}
use tux.Base.Bits.{bit, bit_test}
use tux.Base.Memory.{Mem}
use tux.Bitmap.{bit_at}
use tux.Balloc.{BitScan, run_on, hit, scan_bits, scan_bytes}

-- The scan of a block for `blocks` free bits in a row, from bit `low` on.
module _ (data_ : Mem) (blocks low : ℕ) where
  -- Before bit `pos` lie `run` free bits.
  pub record IsRun (pos run : ℕ) : Type 0 where
    pub room : low + run ≤ pos
    pub short : run < blocks
    pub free : (q : ℕ) → pos ≤ q + run → q < pos → bit_at data_ q ≡ 0

  -- The `blocks` bits that end with bit `last` are free.
  pub record IsHit (last : ℕ) : Type 0 where
    pub room : low + blocks ≤ last + 1
    pub free : (q : ℕ) → last + 1 ≤ q + blocks → q ≤ last → bit_at data_ q ≡ 0

  abbrev pub Scanned : ℕ → BitScan → Type 0
  Scanned p (run_on run) = IsRun (p * 8 + 8) run
  Scanned p (hit i) = (i < 8) × IsHit (i + p * 8)

  bit_here : (p i : ℕ) → i < 8 → bit_at data_ (p * 8 + i) ≡ bit (data_ p) i
  bit_here p i l =
      let e : (p * 8 + i) / 8 ≡ p = omega arith in
      let f : (p * 8 + i) % 8 ≡ i = omega arith in rw (e, f) refl

  -- One more free bit behind a run.
  module _ (pos run : ℕ) (r : IsRun pos run) (clear : bit_at data_ pos ≡ 0) where
    free_up_to : (q : ℕ) → pos ≤ q + run → q ≤ pos → bit_at data_ q ≡ 0
    free_up_to q h l = elim (Bool-cases (q == pos)) [
      | inl e ↦ let here : q ≡ pos = (==_iff q pos).0 e in rw here clear
      | inr e ↦ r.free q (omega arith) (ground arith)
    ]

    longer-IsRun : run + 1 < blocks → IsRun (pos + 1) (run + 1)
    longer-IsRun short = record {
      room = omega (arith, r.room);
      short = short;
      free = λ q h l. free_up_to q (omega arith) (omega arith);
    }

    run-IsHit : blocks ≤ run + 1 → IsHit pos
    run-IsHit full = record {
      room = omega (arith, r.room, r.short);
      free = λ q h l. free_up_to q (omega (arith, r.short)) l;
    }

  pub no-IsRun : (pos : ℕ) → 0 < blocks → low ≤ pos → IsRun pos 0
  no-IsRun pos short room = record {
    room = omega arith;
    short = short;
    free = λ q h l. absurd (omega arith);
  }

  module _ (some_blocks : 0 < blocks) where
    scan_bits-Scanned :
        (rounds i run p : ℕ)
        → i + rounds ≡ 8
        → IsRun (p * 8 + i) run
        → Scanned p (scan_bits rounds i run (data_ p) blocks)
    unfolding scan_bits
    scan_bits-Scanned zero i run p e r = let f : i ≡ 8 = omega arith in rw f at r
    scan_bits-Scanned (suc rounds) i run p e r =
        let next : p * 8 + (i + 1) ≡ p * 8 + i + 1 = omega arith in
        elim (Bool-cases (bit_and (data_ p) (2 ^ i) == 0)) [
          | inl clear ↦
              let free : bit_at data_ (p * 8 + i) ≡ 0 =
                omega (arith, bit_here p i (omega arith), is_zero p i clear) in
              elim (Bool-cases (ltb (run + 1) blocks)) [
                | inl more ↦
                    rw (clear, more)
                      (scan_bits-Scanned rounds (i + 1) (run + 1) p (omega arith)
                        (rw next (longer-IsRun _ run r free (ground arith))))
                | inr full ↦
                    let at : i + p * 8 ≡ p * 8 + i = omega arith in
                    rw (clear, full) (omega arith, rw at (run-IsHit _ run r free (ground arith)))
              ]
          | inr used ↦ rw used (
              scan_bits-Scanned rounds (i + 1) 0 p (omega arith)
                (no-IsRun _ some_blocks (omega (arith, r.room))))
        ]
      where
        is_zero : (p i : ℕ) → (bit_and (data_ p) (2 ^ i) == 0) ≡ true → bit (data_ p) i ≡ 0
        is_zero p i h = (==_iff _ _).0 (rw bit_test at h)

    abbrev pub Found : ℕ → Option ℕ → Type 0
    Found top none = Unit
    Found top (some last) = (last < top * 8) × IsHit last

    pub scan_bytes-Found :
        (rounds p startbit run : ℕ)
        → startbit < 8
        → IsRun (p * 8 + startbit) run
        → Found (p + rounds) (scan_bytes rounds p startbit run data_ blocks)
    unfolding scan_bytes
    scan_bytes-Found zero p startbit run l r = tt
    scan_bytes-Found (suc rounds) p startbit run l r =
        let top : p + 1 + rounds ≡ p + suc rounds = omega arith in
        elim (Bool-cases (data_ p == 0xff)) [
          | inl full ↦ rw full (
              rw top at (
                scan_bytes-Found rounds (p + 1) 0 0 (omega arith)
                  (no-IsRun _ some_blocks (omega (arith, r.room)))))
          | inr rest ↦ rw rest (
              go (λ run' r'. rw top at (scan_bytes-Found rounds (p + 1) 0 run' (omega arith) r'))
                (scan_bits (8 - startbit) startbit run (data_ p) blocks)
                (scan_bits-Scanned (8 - startbit) startbit run p (omega arith) r))
        ]
      where
        go :
            ((run' : ℕ)
              → IsRun ((p + 1) * 8 + 0) run'
              → Found (p + suc rounds) (scan_bytes rounds (p + 1) 0 run' data_ blocks))
            → (b : BitScan) → Scanned p b
            → Found (p + suc rounds) (elim b [
              | run_on run' ↦ scan_bytes rounds (p + 1) 0 run' data_ blocks
              | hit i ↦ some (i + p * 8)
            ])
        go ih (run_on run') s =
            let e : (p + 1) * 8 + 0 ≡ p * 8 + 8 = omega arith in ih run' (rw e s)
        go ih (hit i) s = (omega arith, s.1)
