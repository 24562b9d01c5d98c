-- ===== src/Dir/Delete.antt =====
-- `tux_delete_entry` (user/kernel/dir.c) in a directory block.
use tux.Base.{
  ℕ, zero, suc, ◌+◌, ◌^◌, ◌≤◌, ◌<◌, ◌≡◌, ◌==◌, refl, ap, arith, false, some, List, [], ◌∷◌, ◌++◌,
  length,
}
use native.Mathlib.Nat.{le_trans}
use tux.Errno.{ok}
use tux.Dir.{Dirent, tux_rec_len_from_disk, tux_rec_len_to_disk, tux_delete_entry, keep_deleted}
use tux.Dir.Chain.{
  IsRecord, AreRecords, chain_size, IsChain, from_disk-to_disk, tux_rec_len_pos, tux_rec_len_least,
}

-- What is left of `entries` without entry number `n`. The first one of a block stays as an empty record;
-- any other is gone, and the record before it has the length of both.
pub data Deleted (n : ℕ) (entries chain : List Dirent) : Type 0 where
  emptied :
      (entry : Dirent) (behind : List Dirent)
      → n ≡ 0
      → entries ≡ entry ∷ behind
      → chain ≡ record entry { inum = 0; kind = 0; name = [] } ∷ behind
      → Deleted n entries chain
  joined :
      (front : List Dirent) (prev entry : Dirent) (behind : List Dirent) (len : ℕ)
      → n ≡ length front + 1
      → entries ≡ front ++ (prev ∷ entry ∷ behind)
      → chain ≡ front ++ (record prev { rec_len = len } ∷ behind)
      → tux_rec_len_from_disk len
        ≡ tux_rec_len_from_disk prev.rec_len + tux_rec_len_from_disk entry.rec_len
      → Deleted n entries chain

-- A record of a chain is never a zero-length one.
rec_len_nonzero : (entry : Dirent) → IsRecord entry → (entry.rec_len == 0) ≡ false
unfolding tux_rec_len_from_disk
rec_len_nonzero entry h =
    let room = h.room in ground (arith, room, tux_rec_len_pos (length entry.name))

-- A record in front of those among which one is deleted.
Deleted-cons :
    (prev : Dirent) (n : ℕ) (entries chain : List Dirent)
    → Deleted (suc n) entries chain
    → Deleted (suc (suc n)) (prev ∷ entries) (prev ∷ chain)
Deleted-cons prev n entries chain (emptied entry behind at before after) = ground arith
Deleted-cons prev n entries chain (joined front before_ entry behind len at before after size) =
    joined (prev ∷ front) before_ entry behind len (omega arith)
      (ap (λ (t : List Dirent). prev ∷ t) before) (ap (λ (t : List Dirent). prev ∷ t) after) size

without_entry :
    (entries : List Dirent) (n : ℕ)
    → AreRecords entries
    → chain_size entries ≤ 2 ^ 16
    → n < length entries
    → (chain : List Dirent) × ((tux_delete_entry entries n ≡ some (ok chain))
        × ((AreRecords chain × (chain_size chain ≡ chain_size entries)) × Deleted n entries chain))
unfolding tux_delete_entry keep_deleted
without_entry [] n h short lt = ground arith
without_entry (entry ∷ entries) zero (h, records) short lt = (
  record entry { inum = 0; kind = 0; name = [] } ∷ entries,
  (
    refl,
    (
      (
        (
          record {
            room = le_trans (tux_rec_len_least (length entry.name)) h.room;
            align = h.align;
          },
          records,
        ),
        refl,
      ),
      emptied entry entries refl refl refl,
    ),
  ),
)
without_entry (prev ∷ []) (suc n) h short lt = ground arith
without_entry (prev ∷ entry ∷ entries) (suc zero) (h, (h2, records)) short lt =
    let room = h.room in
    let align = h.align in
    let align2 = h2.align in
    let good = rec_len_nonzero prev h in
    let both = tux_rec_len_from_disk prev.rec_len + tux_rec_len_from_disk entry.rec_len in
    let whole = from_disk-to_disk both (omega arith) (omega arith) in
    (
      record prev { rec_len = tux_rec_len_to_disk both } ∷ entries,
      (
        rw good refl,
        (
          ((record { room = omega arith; align = omega arith }, records), omega arith),
          joined [] prev entry entries (tux_rec_len_to_disk both) refl refl refl whole,
        ),
      ),
    )
without_entry (prev ∷ entry ∷ entries) (suc (suc n)) (h, rest) short lt =
    let good = rec_len_nonzero prev h in
    let (chain, (is, ((records, size), gone))) =
      without_entry (entry ∷ entries) (suc n) rest (omega arith) (omega arith) in
    (
      prev ∷ chain,
      (
        rw (good, is) refl,
        (((h, records), omega arith), Deleted-cons prev n (entry ∷ entries) chain gone),
      ),
    )

-- Deleting entry number `n` of a block whose records fill it succeeds, and leaves a chain of records that
-- fills the block again, each aligned and with room for its name. If it is the first one, its record
-- stays with number, kind and name cleared. Otherwise it is gone, the record before it has the length of
-- both, and all other records are as they were.
pub tux_delete_entry-IsChain :
    (size n : ℕ) (entries : List Dirent)
    → IsChain size entries
    → n < length entries
    → (chain : List Dirent) × ((tux_delete_entry entries n ≡ some (ok chain))
        × (IsChain size chain × Deleted n entries chain))
tux_delete_entry-IsChain size n entries h lt =
    let fills = h.fills in
    let short = h.short in
    let (chain, (is, ((records, same), gone))) =
      without_entry entries n h.records (omega arith) lt in
    (chain, (is, (record { records = records; fills = omega arith; short = short }, gone)))
