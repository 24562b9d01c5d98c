-- ===== src/Version/Allocate.antt =====
-- `new_chunk` (user/version.c): the search for a free chunk.
use tux.Base.{
  ℕ, zero, suc, ◌+◌, ◌-◌, ◌%◌, ◌≤◌, ◌<◌, ◌≡◌, refl, arith, ◌==◌, Bool-cases, inl, inr, true, false,
  Bool, if◌then◌else◌, Option-cases, none, some,
}
use tux.Version.{maxversions, update, Chunks, find_chunk, new_chunk}

-- What the loop finds is free; when it finds nothing every chunk that it has passed is allocated.
find_chunk-some :
    (rounds : ℕ) (allocmap : ℕ → Bool) (next chunk : ℕ)
    → next ≤ maxversions
    → find_chunk rounds allocmap next ≡ some chunk
    → (allocmap chunk ≡ false) × (chunk < maxversions)
unfolding find_chunk
find_chunk-some zero allocmap next chunk low h = ground arith
find_chunk-some (suc rounds) allocmap next chunk low h =
    let at : ℕ = if next == maxversions then 0 else next in
    let at_low : at < maxversions = ground arith in
    elim (Bool-cases (allocmap at)) [
      | inl used ↦ find_chunk-some rounds allocmap (at + 1) chunk (omega arith) (rw used at h)
      | inr free ↦
          let e : some at ≡ some chunk = rw free at h in
          let same : at ≡ chunk = ground (arith, e) in rw⁻¹ same (free, at_low)
    ]

find_chunk-none :
    (rounds : ℕ) (allocmap : ℕ → Bool) (next i : ℕ)
    → next ≤ maxversions
    → find_chunk rounds allocmap next ≡ none
    → i < rounds
    → allocmap ((next + i) % maxversions) ≡ true
unfolding find_chunk
find_chunk-none zero allocmap next i low h lt = elim lt [ ]
find_chunk-none (suc rounds) allocmap next i low h lt =
    let at : ℕ = if next == maxversions then 0 else next in
    let at_low : at + 1 ≤ maxversions = ground arith in
    elim (Bool-cases (allocmap at)) [
      | inl used ↦ elim (Bool-cases (i == 0)) [
        | inl first ↦ let e : (next + i) % maxversions ≡ at = ground arith in rw e used
        | inr later ↦
            let e : (next + i) % maxversions ≡ (at + 1 + (i - 1)) % maxversions = ground arith in
            rw e (
              find_chunk-none rounds allocmap (at + 1) (i - 1) at_low (rw used at h) (ground arith))
      ]
      | inr free ↦ let e : some at ≡ none = rw free at h in ground arith
    ]

-- With a free chunk left `new_chunk` takes one that was free, marks it, stores the data in it, leaves
-- the other chunks as they were, and begins its next search right behind it.
pub new_chunk-free :
    (chunks : Chunks) (value spare : ℕ)
    → chunks.nextchunk ≤ maxversions
    → spare < maxversions
    → chunks.allocmap spare ≡ false
    → (chunk : ℕ) × (after : Chunks) × (new_chunk chunks value ≡ some (chunk, after))
      × (chunk < maxversions)
      × (chunks.allocmap chunk ≡ false)
      × (after.nextchunk ≡ chunk + 1)
      × ((other : ℕ)
          → (after.allocmap other ≡ (if other == chunk then true else chunks.allocmap other))
            × (after.snapdata other ≡ (if other == chunk then value else chunks.snapdata other)))
unfolding new_chunk update
new_chunk-free chunks value spare low small free =
    elim (Option-cases (find_chunk maxversions chunks.allocmap chunks.nextchunk)) [
      | inl failed ↦
          let i : ℕ = (spare + maxversions - chunks.nextchunk) % maxversions in
          let e : (chunks.nextchunk + i) % maxversions ≡ spare = omega arith in
          let taken =
            find_chunk-none maxversions chunks.allocmap chunks.nextchunk i low failed
              (omega arith) in
          let wrong : chunks.allocmap spare ≡ true = rw⁻¹ e taken in ground arith
      | inr (chunk, found) ↦
          let (unused, below) =
            find_chunk-some maxversions chunks.allocmap chunks.nextchunk chunk low found in
          let after : Chunks = record {
            allocmap = update chunks.allocmap chunk true;
            snapdata = update chunks.snapdata chunk value;
            nextchunk = chunk + 1;
          } in
          (chunk, after, rw (new_chunk, found) refl, below, unused, refl, λ other. (refl, refl))
    ]
