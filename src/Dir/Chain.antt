-- ===== src/Dir/Chain.antt =====
-- The records of a directory block through `tux_create_entry` and `tux_delete_entry`
-- (user/kernel/dir.c).
use tux.Base.{
  ℕ, ◌+◌, ◌-◌, ◌%◌, ◌^◌, ◌≤◌, ◌<◌, ◌≡◌, arith, ltb, leb, ◌==◌, ◌&&◌, ◌||◌, Bool-cases, inl, inr,
  true, Option, none, some, List, [], ◌∷◌, ◌++◌, length, length-take,
}
use tux.Base.Slices.{take_all}
use tux.Errno.{Result, ok, err}
use tux.Dir.{
  Dirent, tux_rec_len, tux_rec_len_from_disk, tux_rec_len_to_disk, is_deleted, place_entry,
  create_in_block, keep_entry, cut_name,
}

-- A record is a whole number of 8 bytes and has room for its name.
pub record IsRecord (entry : Dirent) : Type 0 where
  pub room : tux_rec_len (length entry.name) ≤ tux_rec_len_from_disk entry.rec_len
  pub align : tux_rec_len_from_disk entry.rec_len % 8 ≡ 0

abbrev pub AreRecords : List Dirent → Type 0
AreRecords [] = Unit
AreRecords (entry ∷ entries) = IsRecord entry × AreRecords entries

abbrev pub chain_size : List Dirent → ℕ
chain_size [] = 0
chain_size (entry ∷ entries) = tux_rec_len_from_disk entry.rec_len + chain_size entries

-- The records of a block, which fill `size` bytes, at most the longest block.
pub record IsChain (size : ℕ) (entries : List Dirent) : Type 0 where
  pub records : AreRecords entries
  pub fills : chain_size entries ≡ size
  pub short : size ≤ 2 ^ 16

pub from_disk-to_disk :
    (len : ℕ) → len ≤ 2 ^ 16 → len % 8 ≡ 0 → tux_rec_len_from_disk (tux_rec_len_to_disk len) ≡ len
unfolding tux_rec_len_from_disk tux_rec_len_to_disk
from_disk-to_disk len h align = ground arith

pub tux_rec_len_align : (n : ℕ) → tux_rec_len n % 8 ≡ 0
unfolding tux_rec_len
tux_rec_len_align n = omega arith

pub tux_rec_len_pos : (n : ℕ) → 0 < tux_rec_len n
unfolding tux_rec_len
tux_rec_len_pos n = omega arith

pub tux_rec_len_least : (n : ℕ) → tux_rec_len 0 ≤ tux_rec_len n
unfolding tux_rec_len
tux_rec_len_least n = omega arith

length-cut_name : (name : List ℕ) → tux_rec_len (length (cut_name name)) ≤ tux_rec_len (length name)
unfolding cut_name tux_rec_len
length-cut_name name = omega (arith, length-take (length name % 2 ^ 8) name)

-- A name of at most 255 bytes keeps them all.
pub cut_name_short : (name : List ℕ) → length name < 256 → cut_name name ≡ name
unfolding cut_name
cut_name_short name h =
    let e : length name % 2 ^ 8 ≡ length name = omega arith in
    rw e (take_all (length name) name (omega arith))

-- The records that a new entry makes of an old one take the same room.
pub place_entry-size :
    (entry : Dirent) (at : ℕ) (name : List ℕ) (inum mode : ℕ)
    → IsRecord entry
    → tux_rec_len_from_disk entry.rec_len ≤ 2 ^ 16
    → ((is_deleted entry && leb (tux_rec_len (length name)) (tux_rec_len_from_disk entry.rec_len))
        || leb
            (tux_rec_len (length entry.name) + tux_rec_len (length name))
            (tux_rec_len_from_disk entry.rec_len))
      ≡ true
    → AreRecords (place_entry entry at name inum mode).1
      × (chain_size (place_entry entry at name inum mode).1 ≡ tux_rec_len_from_disk entry.rec_len)
unfolding place_entry
place_entry-size entry at name inum mode h short room =
    let name_len = tux_rec_len (length entry.name) in
    let rec_len = tux_rec_len_from_disk entry.rec_len in
    let whole = tux_rec_len_align (length entry.name) in
    let low = h.room in
    let align = h.align in
    let cut = length-cut_name name in
    elim (Bool-cases (is_deleted entry)) [
      | inl gone ↦ rw gone ((record { room = ground arith; align = h.align }, tt), omega arith)
      | inr here ↦
          let more : name_len + tux_rec_len (length name) ≤ rec_len = ground arith in
          let first = from_disk-to_disk name_len (omega arith) whole in
          let second = from_disk-to_disk (rec_len - name_len) (omega arith) (omega arith) in
          rw here (
            (
              record { room = omega arith; align = omega arith },
              (record { room = omega arith; align = omega arith }, tt),
            ),
            omega arith,
          )
    ]

AreRecords-append :
    (xs ys : List Dirent)
    → AreRecords xs
    → AreRecords ys
    → AreRecords (xs ++ ys) × (chain_size (xs ++ ys) ≡ chain_size xs + chain_size ys)
AreRecords-append [] ys hx hy = (hy, omega arith)
AreRecords-append (x ∷ xs) ys (h, hx) hy =
    let (records, size) = AreRecords-append xs ys hx hy in ((h, records), omega arith)

-- What holds of the chain that a search for room makes, when it finds some.
abbrev pub Places : (ℕ → List Dirent → Type 0) → Result (Option (ℕ × List Dirent)) → Type 0
Places P (err e) = Unit
Places P (ok none) = Unit
Places P (ok (some (place, chain))) = P place chain

pub keep_entry-Places :
    (P Q : ℕ → List Dirent → Type 0) (entry : Dirent) (result : Result (Option (ℕ × List Dirent)))
    → ((place : ℕ) (chain : List Dirent) → P place chain → Q place (entry ∷ chain))
    → Places P result
    → Places Q (keep_entry entry result)
unfolding keep_entry
keep_entry-Places P Q entry (err e) step h = tt
keep_entry-Places P Q entry (ok none) step h = tt
keep_entry-Places P Q entry (ok (some (place, chain))) step h = step place chain h

create_in_block-Places :
    (blocksize : ℕ) (name : List ℕ) (inum mode at : ℕ) (entries : List Dirent)
    → AreRecords entries
    → chain_size entries ≤ 2 ^ 16
    → Places
        (λ place chain. AreRecords chain × (chain_size chain ≡ chain_size entries))
        (create_in_block blocksize name inum mode at entries)
unfolding create_in_block
create_in_block-Places blocksize name inum mode at [] h short = tt
create_in_block-Places blocksize name inum mode at (entry ∷ entries) (h, records) short =
    let reclen = tux_rec_len (length name) in
    let rec_len = tux_rec_len_from_disk entry.rec_len in
    let rest =
      create_in_block-Places blocksize name inum mode (at + rec_len) entries records
        (omega arith) in
    elim (Bool-cases (ltb blocksize (at + reclen))) [
      | inl past ↦ rw past tt
      | inr in_block ↦ elim (Bool-cases (entry.rec_len == 0)) [
        | inl bad ↦ rw (in_block, bad) tt
        | inr good ↦
            elim (Bool-cases (
              (is_deleted entry && leb reclen rec_len)
              || leb (tux_rec_len (length entry.name) + reclen) rec_len)) [
                | inl fits ↦
                    let (placed, size) =
                      place_entry-size entry at name inum mode h (omega arith) fits in
                    let (all, total) =
                      AreRecords-append (place_entry entry at name inum mode).1 entries placed
                        records in
                    rw (in_block, good, fits) (all, omega arith)
                | inr full ↦
                    rw (in_block, good, full)
                      (keep_entry-Places _ _ entry _
                        (λ place chain kept. ((h, kept.0), omega (arith, kept.1))) rest)
              ]
      ]
    ]

-- Creating an entry in a block leaves a chain of records that fills the block again, each aligned and
-- with room for its name, wherever the entry finds its place.
pub create_in_block-IsChain :
    (size blocksize inum mode place : ℕ) (name : List ℕ) (entries chain : List Dirent)
    → IsChain size entries
    → create_in_block blocksize name inum mode 0 entries ≡ ok (some (place, chain))
    → IsChain size chain
create_in_block-IsChain size blocksize inum mode place name entries chain h is =
    let fills = h.fills in
    let short = h.short in
    let kept = create_in_block-Places blocksize name inum mode 0 entries h.records (omega arith) in
    let made : AreRecords chain × (chain_size chain ≡ chain_size entries) = rw is at kept in
    record { records = made.0; fills = omega (arith, made.1); short = h.short }
