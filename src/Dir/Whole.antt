-- ===== src/Dir/Whole.antt =====
-- `tux_find_entry` after `tux_create_entry` (user/kernel/dir.c), in the whole directory.
use tux.Base.{
  ℕ, zero, suc, ◌+◌, ◌*◌, ◌/◌, ◌^◌, ◌%◌, ◌≤◌, ◌<◌, ◌≡◌, refl, sym, arith, ◌==◌, ◌⊎◌, inl, inr, true,
  false, if◌then◌else◌, Option, none, some, List, [], length, append-nil,
}
use native.Mathlib.Nat.{mul-div_left, le_refl, suc-mul}
use tux.Errno.{Errno, Result, ok, err}
use tux.Dir.{
  Dirent, tux_rec_len, tux_rec_len_to_disk, find_in_block, find_in_blocks, tux_find_entry,
  place_entry, create_in_block, create_in_blocks, tux_create_entry, tux_match, is_deleted,
  tux_rec_len_from_disk,
}
use tux.Dir.Chain.{IsChain, from_disk-to_disk, tux_rec_len_least, tux_rec_len_pos}
use tux.Dir.Find.{Finds, rec_len_pos, place_entry-Finds, create_in_block-Finds}

-- From block `from` on, so many blocks can be read, have chains that fill them, and no entry of the name.
pub record IsAbsent (blocksize : ℕ) (name : List ℕ) (dir : ℕ → Option (List Dirent))
    (from rounds : ℕ) : Type 0 where
  pub entries : ℕ → List Dirent
  pub read : (i : ℕ) → i < rounds → dir (from + i) ≡ some (entries i)
  pub chain : (i : ℕ) → i < rounds → IsChain blocksize (entries i)
  pub misses : (i : ℕ) → i < rounds → find_in_block blocksize name 0 (entries i) ≡ ok none

IsAbsent-tail :
    (blocksize : ℕ) (name : List ℕ) (dir : ℕ → Option (List Dirent)) (from rounds : ℕ)
    → IsAbsent blocksize name dir from (suc rounds)
    → IsAbsent blocksize name dir (from + 1) rounds
IsAbsent-tail blocksize name dir from rounds h = record {
  entries = λ i. h.entries (suc i);
  read = λ i lt.
      let e : from + 1 + i ≡ from + suc i = omega arith in rw e (h.read (suc i) (omega arith));
  chain = λ i lt. h.chain (suc i) (omega arith);
  misses = λ i lt. h.misses (suc i) (omega arith);
}

-- The search passes the blocks without the name and ends at the one that has it.
find_in_blocks-at :
    (blocksize : ℕ) (name : List ℕ) (dir : ℕ → Option (List Dirent)) (rounds from i at : ℕ)
    (chain : List Dirent) (entry : Dirent)
    → IsAbsent blocksize name dir from i
    → i < rounds
    → dir (from + i) ≡ some chain
    → find_in_block blocksize name 0 chain ≡ ok (some (at, entry))
    → find_in_blocks rounds blocksize name from dir ≡ ok (from + i, at, entry)
unfolding find_in_blocks
find_in_blocks-at blocksize name dir zero from i at chain entry h lt here found = elim lt [ ]
find_in_blocks-at blocksize name dir (suc rounds) from zero at chain entry h lt here found =
    let e : from + 0 ≡ from = omega arith in
    let here0 : dir from ≡ some chain = rw e at here in rw (find_in_blocks, here0, found, e) refl
find_in_blocks-at blocksize name dir (suc rounds) from (suc i) at chain entry h lt here found =
    let e : from + 0 ≡ from = omega arith in
    let first : dir from ≡ some (h.entries 0) = rw e at (h.read 0 (omega arith)) in
    let missed = h.misses 0 (omega arith) in
    let e1 : from + suc i ≡ from + 1 + i = omega arith in
    rw (find_in_blocks, first, missed, e1)
      (find_in_blocks-at blocksize name dir rounds (from + 1) i at chain entry
        (IsAbsent-tail blocksize name dir from i h) (omega arith) (rw e1 at here) found)

found-cases {ℓ} :
    {A : Type ℓ} (r : Result (Option A))
    → ((e : Errno) × (r ≡ err e)) ⊎ ((r ≡ ok none) ⊎ ((a : A) × (r ≡ ok (some a))))
found-cases (err e) = inl (e, refl)
found-cases (ok none) = inr (inl refl)
found-cases (ok (some a)) = inr (inr (a, refl))

-- What a search for room over the blocks gives: a place in one of them, where the name is found then.
data PlacesIn (blocksize inum : ℕ) (name : List ℕ) (from rounds : ℕ)
    (result : Result (Option (ℕ × ℕ × List Dirent))) : Type 0 where
  failed : (e : Errno) → result ≡ err e → PlacesIn blocksize inum name from rounds result
  full : result ≡ ok none → PlacesIn blocksize inum name from rounds result
  placed :
      (i at : ℕ) (chain : List Dirent)
      → i < rounds
      → result ≡ ok (some (from + i, at, chain))
      → Finds blocksize name inum 0 at chain
      → PlacesIn blocksize inum name from rounds result

create_in_blocks-PlacesIn :
    (blocksize inum mode : ℕ) (name : List ℕ) (dir : ℕ → Option (List Dirent)) (rounds from : ℕ)
    → 0 < length name
    → length name < 256
    → IsAbsent blocksize name dir from rounds
    → PlacesIn blocksize inum name from rounds
        (create_in_blocks rounds blocksize name inum mode from dir)
unfolding create_in_blocks
create_in_blocks-PlacesIn blocksize inum mode name dir zero from long byte h = full refl
create_in_blocks-PlacesIn blocksize inum mode name dir (suc rounds) from long byte h =
    let e : from + 0 ≡ from = omega arith in
    let first : dir from ≡ some (h.entries 0) = rw e at (h.read 0 (omega arith)) in
    let chain = h.chain 0 (omega arith) in
    let made =
      create_in_block-Finds blocksize inum mode 0 name (h.entries 0) chain.records
        (omega (arith, chain.fills)) chain.short long byte (h.misses 0 (omega arith)) in
    let rest =
      create_in_blocks-PlacesIn blocksize inum mode name dir rounds (from + 1) long byte
        (IsAbsent-tail blocksize name dir from rounds h) in
    elim (found-cases (create_in_block blocksize name inum mode 0 (h.entries 0))) [
      | inl (error, is) ↦ failed error (rw (create_in_blocks, first, is) refl)
      | inr more ↦ elim more [
        | inl is ↦ elim rest [
          | failed error result ↦ failed error (rw (create_in_blocks, first, is) result)
          | full result ↦ full (rw (create_in_blocks, first, is) result)
          | placed i at there lt result found ↦
              let e1 : from + suc i ≡ from + 1 + i = omega arith in
              placed (suc i) at there (omega arith) (rw (create_in_blocks, first, is, e1) result)
                found
        ]
        | inr (pair, is) ↦
            let found : Finds blocksize name inum 0 pair.0 pair.1 = rw is at made in
            placed 0 pair.0 pair.1 (omega arith) (rw (create_in_blocks, first, is, e) refl) found
      ]
    ]

-- The directory with a block replaced or added.
abbrev with_block : (ℕ → Option (List Dirent)) → ℕ → List Dirent → ℕ → Option (List Dirent)
with_block dir at chain block = if block == at then some chain else dir block

IsAbsent-with_block :
    (blocksize : ℕ) (name : List ℕ) (dir : ℕ → Option (List Dirent)) (blocks i : ℕ)
    (chain : List Dirent)
    → i ≤ blocks
    → IsAbsent blocksize name dir 0 blocks
    → IsAbsent blocksize name (with_block dir i chain) 0 i
IsAbsent-with_block blocksize name dir blocks i chain low h = record {
  entries = h.entries;
  read =
      λ j lt. let other : (0 + j == i) ≡ false = ground arith in rw other (h.read j (omega arith));
  chain = λ j lt. h.chain j (omega arith);
  misses = λ j lt. h.misses j (omega arith);
}

-- What a result of `tux_create_entry` lets `tux_find_entry` find.
abbrev FindsAgain : ℕ → List ℕ → ℕ → Result (ℕ × ℕ × (ℕ → Option (List Dirent))) → Type 0
FindsAgain blockbits name inum (err e) = Unit
FindsAgain blockbits name inum (ok (position, size, after)) =
    (block : ℕ) × (at : ℕ) × (entry : Dirent) × (tux_find_entry blockbits size name after
      ≡ ok (block, at, entry))
    × (position ≡ (block * 2 ^ blockbits + at) % 2 ^ 32)
    × (entry.inum ≡ inum)
    × (entry.name ≡ name)

-- The search in a directory of `rounds` blocks, of which block `i` has the new entry.
found_again :
    (blockbits blocks rounds i at inum : ℕ) (name : List ℕ) (dir : ℕ → Option (List Dirent))
    (chain : List Dirent)
    → 0 < 2 ^ blockbits
    → i ≤ blocks
    → i < rounds
    → IsAbsent (2 ^ blockbits) name dir 0 blocks
    → Finds (2 ^ blockbits) name inum 0 at chain
    → FindsAgain blockbits name inum
        (ok ((i * 2 ^ blockbits + at) % 2 ^ 32, rounds * 2 ^ blockbits, with_block dir i chain))
unfolding tux_find_entry
found_again blockbits blocks rounds i at inum name dir chain pos low lt h
      (entry, found, number, same) =
    let d : rounds * 2 ^ blockbits / 2 ^ blockbits ≡ rounds = mul-div_left rounds pos in
    let here : with_block dir i chain (0 + i) ≡ some chain = ground arith in
    let e0 : 0 + i ≡ i = omega arith in
    let passed =
      find_in_blocks-at (2 ^ blockbits) name (with_block dir i chain) rounds 0 i at chain entry
        (IsAbsent-with_block (2 ^ blockbits) name dir blocks i chain low h) lt here found in
    (i, at, entry, rw d (rw e0 at passed), refl, number, same)

abbrev empty_record : ℕ → Dirent
empty_record blocksize = record {
  inum = 0;
  rec_len = tux_rec_len_to_disk blocksize;
  kind = 0;
  name = [];
}

tux_match_empty : (entry : Dirent) (name : List ℕ) → entry.name ≡ [] → tux_match entry name ≡ false
unfolding tux_match is_deleted
tux_match_empty entry name h = rw h (ground arith)

-- The block that is added when there is no room: one empty record.
new_block-Finds :
    (blockbits inum mode : ℕ) (name : List ℕ)
    → 2 ^ blockbits ≤ 2 ^ 16
    → 2 ^ blockbits % 8 ≡ 0
    → 0 < length name
    → length name < 256
    → tux_rec_len (length name) ≤ 2 ^ blockbits
    → let (at, chain) = place_entry (empty_record (2 ^ blockbits)) 0 name inum mode in
      Finds (2 ^ blockbits) name inum 0 at chain
new_block-Finds blockbits inum mode name short align long byte fits =
    let blocksize = 2 ^ blockbits in
    let empty = empty_record blocksize in
    let whole : tux_rec_len_from_disk empty.rec_len ≡ blocksize =
      from_disk-to_disk blocksize short align in
    let least = tux_rec_len_least (length name) in
    let positive = tux_rec_len_pos 0 in
    let gone : is_deleted empty ≡ true = unfold is_deleted in refl in
    let found =
      place_entry-Finds blocksize 0 inum mode name empty []
        (record { room = omega arith; align = omega arith })
        (rec_len_pos empty.rec_len (omega arith)) (omega arith) short (omega arith) long byte
        (tux_match_empty empty name refl) (ground (arith, gone, whole)) in
    rw (sym (append-nil (place_entry empty 0 name inum mode).1)) found

tux_create_entry-FindsAgain :
    (blockbits blocks inum mode : ℕ) (name : List ℕ) (dir : ℕ → Option (List Dirent))
    → 2 ^ blockbits ≤ 2 ^ 16
    → 2 ^ blockbits % 8 ≡ 0
    → 0 < length name
    → length name < 256
    → tux_rec_len (length name) ≤ 2 ^ blockbits
    → 0 < 2 ^ blockbits
    → IsAbsent (2 ^ blockbits) name dir 0 blocks
    → FindsAgain blockbits name inum
        (tux_create_entry blockbits (blocks * 2 ^ blockbits) name inum mode dir)
unfolding tux_create_entry
tux_create_entry-FindsAgain blockbits blocks inum mode name dir short align long byte fits pos h =
    let d : blocks * 2 ^ blockbits / 2 ^ blockbits ≡ blocks = mul-div_left blocks pos in
    elim (create_in_blocks-PlacesIn (2 ^ blockbits) inum mode name dir blocks 0 long byte h) [
      | failed e result ↦ rw (tux_create_entry, d, result) tt
      | full result ↦
          let e : blocks * 2 ^ blockbits + 2 ^ blockbits ≡ suc blocks * 2 ^ blockbits =
            sym (suc-mul blocks (2 ^ blockbits)) in
          let found = new_block-Finds blockbits inum mode name short align long byte fits in
          rw (tux_create_entry, d, result)
            (rw (d, e)
              (found_again blockbits blocks (suc blocks) blocks _ inum name dir _ pos
                (le_refl blocks) (omega arith) h found))
      | placed i at chain lt result found ↦
          let e : 0 + i ≡ i = omega arith in
          rw (tux_create_entry, d, result, e)
            (found_again blockbits blocks blocks i at inum name dir chain pos (omega arith) lt h
              found)
    ]

-- When the directory has whole, full blocks without the name, `tux_find_entry` finds an entry that
-- `tux_create_entry` has created, at the position that was returned, with its inode number and its name:
-- in a block with room for it or in a new block behind the others. The position is cut to 32 bits. The
-- name is not empty, has at most 255 bytes and fits a block, and a block has a multiple of 8 and at most
-- 2^16 bytes.
pub tux_find_entry-tux_create_entry :
    (blockbits blocks inum mode position size : ℕ) (name : List ℕ)
    (dir after : ℕ → Option (List Dirent))
    → 2 ^ blockbits ≤ 2 ^ 16
    → 2 ^ blockbits % 8 ≡ 0
    → 0 < length name
    → length name < 256
    → tux_rec_len (length name) ≤ 2 ^ blockbits
    → IsAbsent (2 ^ blockbits) name dir 0 blocks
    → tux_create_entry blockbits (blocks * 2 ^ blockbits) name inum mode dir
      ≡ ok (position, size, after)
    → (block : ℕ) × (at : ℕ) × (entry : Dirent) × (tux_find_entry blockbits size name after
        ≡ ok (block, at, entry))
      × (position ≡ (block * 2 ^ blockbits + at) % 2 ^ 32)
      × (entry.inum ≡ inum)
      × (entry.name ≡ name)
tux_find_entry-tux_create_entry blockbits blocks inum mode position size name dir after short align
      long byte fits h is =
    let some_room = tux_rec_len_pos (length name) in
    let found =
      tux_create_entry-FindsAgain blockbits blocks inum mode name dir short align long byte fits
        (omega arith) h in
    rw is at found
