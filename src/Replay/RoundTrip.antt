-- ===== src/Replay/RoundTrip.antt =====
-- Replay of a log that was written by the functions of user/kernel/log.c.
use tux.Base.{
  ℕ, zero, suc, ◌+◌, ◌-◌, ◌%◌, ◌^◌, ◌≤◌, ◌<◌, ◌≡◌, refl, ◌∙◌, arith, ◌==◌, leb, Bool, true, false,
  some, List, [], ◌∷◌, ◌++◌, append_assoc, length, length-append,
}
use tux.Codec.{decode16, decode32, decode48}
use tux.Codec.RoundTrip.{be48, decode48-be48}
use tux.Errno.{Result, ok, err, einval}
use tux.Balloc.{Sb, update_bitmap}
use tux.Log.{
  LogCode, log_balloc_code, log_bfree_code, log_bfree_on_rollup_code, log_leaf_redirect_code,
  log_bnode_redirect_code, log_bnode_root_code, log_bnode_split_code, log_bnode_add_code,
  log_bnode_update_code, logsize, code_number,
}
use tux.Log.Record.{
  Entry, balloc_entry, bfree_entry, bfree_on_rollup_entry, leaf_redirect_entry,
  bnode_redirect_entry, bnode_root_entry, bnode_split_entry, bnode_add_entry, bnode_update_entry,
  entry_code, entry_fields, entry_bytes,
}
use tux.Replay.{
  LogBlock, tux3_magic_log, code_of, load, check_record, check_block, apply_extent, apply_record,
  apply_block, check_blocks, apply_blocks, replay,
}

-- The entries that replay accepts, with fields of the widths logged.
unfoldable pub IsReplayed : Entry → Type 0
IsReplayed (balloc_entry block count) = (block < 2 ^ 48) × (count < 256)
IsReplayed (bfree_entry block count) = (block < 2 ^ 48) × (count < 256)
IsReplayed (bfree_on_rollup_entry block count) = (block < 2 ^ 48) × (count < 256)
IsReplayed (bnode_add_entry parent child key) = Unit
IsReplayed (bnode_update_entry parent child key) = Unit
IsReplayed entry = ⊥

-- What replay does for an entry.
unfoldable pub apply_entry : Entry → Sb → Sb
apply_entry (balloc_entry block count) sb = (update_bitmap sb block count true).1
apply_entry (bfree_entry block count) sb = (update_bitmap sb block count false).1
apply_entry (bfree_on_rollup_entry block count) sb = (update_bitmap sb block count false).1
apply_entry entry sb = sb

unfoldable pub apply_entries : List Entry → Sb → Sb
apply_entries [] sb = sb
apply_entries (entry ∷ entries) sb = apply_entries entries (apply_entry entry sb)

unfoldable pub payload : List Entry → List ℕ
payload [] = []
payload (entry ∷ entries) = entry_bytes entry ++ payload entries

abbrev pub AllReplayed : List Entry → Type 0
AllReplayed [] = Unit
AllReplayed (entry ∷ entries) = IsReplayed entry × AllReplayed entries

code_of-code_number : (code : LogCode) → code_of (code_number code) ≡ some code
unfolding code_of code_number
code_of-code_number log_balloc_code = refl
code_of-code_number log_bfree_code = refl
code_of-code_number log_bfree_on_rollup_code = refl
code_of-code_number log_leaf_redirect_code = refl
code_of-code_number log_bnode_redirect_code = refl
code_of-code_number log_bnode_root_code = refl
code_of-code_number log_bnode_split_code = refl
code_of-code_number log_bnode_add_code = refl
code_of-code_number log_bnode_update_code = refl

-- The first pass skips an entry.
check_entry :
    (entry : Entry) (rest : List ℕ)
    → IsReplayed entry
    → check_record (some (entry_code entry)) (entry_fields entry ++ rest) ≡ some (true, rest)
unfolding check_record entry_code entry_fields logsize IsReplayed decode48 decode16 decode32
check_entry (balloc_entry block count) rest h = refl
check_entry (bfree_entry block count) rest h = refl
check_entry (bfree_on_rollup_entry block count) rest h = refl
check_entry (leaf_redirect_entry oldblock newblock) rest h = absurd h
check_entry (bnode_redirect_entry oldblock newblock) rest h = absurd h
check_entry (bnode_root_entry root count left right rkey) rest h = absurd h
check_entry (bnode_split_entry src pos dest) rest h = absurd h
check_entry (bnode_add_entry parent child key) rest h = refl
check_entry (bnode_update_entry parent child key) rest h = refl

apply_extent-fields :
    (set : Bool) (block count : ℕ) (rest : List ℕ) (sb : Sb)
    → block < 2 ^ 48
    → count < 256
    → apply_extent set (count ∷ (be48 block ++ rest)) sb
      ≡ some (true, rest, (update_bitmap sb block count set).1)
unfolding apply_extent
apply_extent-fields set block count rest sb h k =
    let b : block % 2 ^ 48 ≡ block = omega arith in rw (decode48-be48 block rest, b) refl

-- The second pass applies it.
apply_record-entry :
    (entry : Entry) (rest : List ℕ) (sb : Sb)
    → IsReplayed entry
    → apply_record (some (entry_code entry)) (entry_fields entry ++ rest) sb
      ≡ some (true, rest, apply_entry entry sb)
unfolding apply_record entry_code entry_fields logsize IsReplayed apply_entry
apply_record-entry (balloc_entry block count) rest sb (h, k) =
    apply_extent-fields true block count rest sb h k
apply_record-entry (bfree_entry block count) rest sb (h, k) =
    apply_extent-fields false block count rest sb h k
apply_record-entry (bfree_on_rollup_entry block count) rest sb (h, k) =
    apply_extent-fields false block count rest sb h k
apply_record-entry (leaf_redirect_entry oldblock newblock) rest sb h = absurd h
apply_record-entry (bnode_redirect_entry oldblock newblock) rest sb h = absurd h
apply_record-entry (bnode_root_entry root count left right rkey) rest sb h = absurd h
apply_record-entry (bnode_split_entry src pos dest) rest sb h = absurd h
apply_record-entry (bnode_add_entry parent child key) rest sb h = refl
apply_record-entry (bnode_update_entry parent child key) rest sb h = refl

-- One round of each pass.
check_round :
    (entry : Entry) (fuel past : ℕ) (rest : List ℕ)
    → IsReplayed entry
    → past ≤ length rest
    → check_block (suc fuel) past (entry_bytes entry ++ rest) ≡ check_block fuel past rest
unfolding check_block entry_bytes
check_round entry fuel past rest h room =
    let more : leb (suc (length (entry_fields entry ++ rest))) past ≡ false =
      ground (arith, length-append (entry_fields entry) rest) in
    rw (more, code_of-code_number (entry_code entry), check_entry entry rest h) refl

apply_round :
    (entry : Entry) (fuel past : ℕ) (rest : List ℕ) (sb : Sb)
    → IsReplayed entry
    → past ≤ length rest
    → apply_block (suc fuel) past (entry_bytes entry ++ rest) sb
      ≡ apply_block fuel past rest (apply_entry entry sb)
unfolding apply_block entry_bytes
apply_round entry fuel past rest sb h room =
    let more : leb (suc (length (entry_fields entry ++ rest))) past ≡ false =
      ground (arith, length-append (entry_fields entry) rest) in
    rw (more, code_of-code_number (entry_code entry), apply_record-entry entry rest sb h) refl

check_end : (fuel : ℕ) (pad : List ℕ) → check_block fuel (length pad) pad ≡ some (ok tt)
unfolding check_block
check_end fuel [] = refl
check_end zero (x ∷ pad) =
    let stop : leb (suc (length pad)) (suc (length pad)) ≡ true = ground arith in rw stop refl
check_end (suc fuel) (x ∷ pad) =
    let stop : leb (suc (length pad)) (suc (length pad)) ≡ true = ground arith in rw stop refl

apply_end :
    (fuel : ℕ) (pad : List ℕ) (sb : Sb) → apply_block fuel (length pad) pad sb ≡ some (ok tt, sb)
unfolding apply_block
apply_end fuel [] sb = refl
apply_end zero (x ∷ pad) sb =
    let stop : leb (suc (length pad)) (suc (length pad)) ≡ true = ground arith in rw stop refl
apply_end (suc fuel) (x ∷ pad) sb =
    let stop : leb (suc (length pad)) (suc (length pad)) ≡ true = ground arith in rw stop refl

payload_cons :
    (entry : Entry) (entries : List Entry) (pad : List ℕ)
    → payload (entry ∷ entries) ++ pad ≡ entry_bytes entry ++ (payload entries ++ pad)
unfolding payload
payload_cons entry entries pad = append_assoc (entry_bytes entry) (payload entries) pad

length_cons :
    (entry : Entry) (entries : List Entry) (pad : List ℕ)
    → length (payload entries ++ pad) < length (payload (entry ∷ entries) ++ pad)
length_cons entry entries pad =
    let size : 0 < length (entry_bytes entry) = unfold entry_bytes in omega arith in
    rw (payload_cons entry entries pad)
      (omega (arith, size, length-append (entry_bytes entry) (payload entries ++ pad)))

-- Both passes over a payload with padding behind it.
check_block-payload :
    (entries : List Entry) (fuel : ℕ) (pad : List ℕ)
    → AllReplayed entries
    → length (payload entries ++ pad) ≤ fuel
    → check_block fuel (length pad) (payload entries ++ pad) ≡ some (ok tt)
check_block-payload [] fuel pad h enough = unfold payload in check_end fuel pad
check_block-payload (entry ∷ entries) zero pad h enough =
    absurd (omega (arith, length_cons entry entries pad))
check_block-payload (entry ∷ entries) (suc fuel) pad (h, rest) enough =
    rw (payload_cons entry entries pad) (
      check_round entry fuel (length pad) (payload entries ++ pad) h
        (omega (arith, length-append (payload entries) pad))
      ∙ check_block-payload entries fuel pad rest (omega (arith, length_cons entry entries pad)))

apply_block-payload :
    (entries : List Entry) (fuel : ℕ) (pad : List ℕ) (sb : Sb)
    → AllReplayed entries
    → length (payload entries ++ pad) ≤ fuel
    → apply_block fuel (length pad) (payload entries ++ pad) sb
      ≡ some (ok tt, apply_entries entries sb)
apply_block-payload [] fuel pad sb h enough = unfold payload apply_entries in apply_end fuel pad sb
apply_block-payload (entry ∷ entries) zero pad sb h enough =
    absurd (omega (arith, length_cons entry entries pad))
apply_block-payload (entry ∷ entries) (suc fuel) pad sb (h, rest) enough =
    rw (payload_cons entry entries pad) (
      apply_round entry fuel (length pad) (payload entries ++ pad) sb h
        (omega (arith, length-append (payload entries) pad))
      ∙ apply_block-payload entries fuel pad (apply_entry entry sb) rest
          (omega (arith, length_cons entry entries pad))
      ∙ (unfold apply_entries in refl))

-- A block that holds the entries, with anything behind its payload.
pub record Holds (log : LogBlock) (entries : List Entry) : Type 0 where
  pub pad : List ℕ
  pub whole : log.data_ ≡ payload entries ++ pad
  pub size : log.bytes ≡ length (payload entries)
  pub replayed : AllReplayed entries

abbrev pub AllHold : List LogBlock → List (List Entry) → Type 0
AllHold [] [] = Unit
AllHold (log ∷ logs) (entries ∷ rest) = Holds log entries × AllHold logs rest
AllHold _ _ = ⊥

-- Block after block.
unfoldable pub apply_all : List (List Entry) → Sb → Sb
apply_all [] sb = sb
apply_all (entries ∷ rest) sb = apply_all rest (apply_entries entries sb)

past_value :
    (log : LogBlock) (entries : List Entry) (holds : Holds log entries)
    → length log.data_ - log.bytes ≡ length holds.pad
past_value log entries holds =
    rw (holds.whole, holds.size) (omega (arith, length-append (payload entries) holds.pad))

check_log :
    (log : LogBlock) (entries : List Entry)
    → Holds log entries
    → check_block (length log.data_) (length log.data_ - log.bytes) log.data_ ≡ some (ok tt)
check_log log entries holds =
    rw (past_value log entries holds, holds.whole)
      (check_block-payload entries (length (payload entries ++ holds.pad)) holds.pad holds.replayed
        (omega arith))

apply_log :
    (log : LogBlock) (entries : List Entry) (sb : Sb)
    → Holds log entries
    → apply_block (length log.data_) (length log.data_ - log.bytes) log.data_ sb
      ≡ some (ok tt, apply_entries entries sb)
apply_log log entries sb holds =
    rw (past_value log entries holds, holds.whole)
      (apply_block-payload entries (length (payload entries ++ holds.pad)) holds.pad sb
        holds.replayed (omega arith))

check_blocks-AllHold :
    (logs : List LogBlock) (all : List (List Entry))
    → AllHold logs all
    → check_blocks logs ≡ some (ok tt)
unfolding check_blocks
check_blocks-AllHold [] [] h = refl
check_blocks-AllHold [] (entries ∷ all) h = absurd h
check_blocks-AllHold (log ∷ logs) [] h = absurd h
check_blocks-AllHold (log ∷ logs) (entries ∷ all) (holds, rest) =
    rw (check_log log entries holds, check_blocks) (check_blocks-AllHold logs all rest)

apply_blocks-AllHold :
    (logs : List LogBlock) (all : List (List Entry)) (sb : Sb)
    → AllHold logs all
    → apply_blocks logs sb ≡ some (ok tt, apply_all all sb)
unfolding apply_blocks apply_all
apply_blocks-AllHold [] [] sb h = refl
apply_blocks-AllHold [] (entries ∷ all) sb h = absurd h
apply_blocks-AllHold (log ∷ logs) [] sb h = absurd h
apply_blocks-AllHold (log ∷ logs) (entries ∷ all) sb (holds, rest) =
    rw (apply_log log entries sb holds, apply_blocks)
      (apply_blocks-AllHold logs all (apply_entries entries sb) rest)

-- The blocks, the newest first, are read at the places that the chain from `logchain` names.
abbrev pub Chained : (ℕ → Result LogBlock) → ℕ → List LogBlock → Type 0
Chained blockio logchain [] = Unit
Chained blockio logchain (log ∷ older) =
    (blockio logchain ≡ ok log) × (log.magic ≡ tux3_magic_log) × Chained blockio log.logchain older

-- The blocks with the oldest first.
unfoldable pub oldest_first : List LogBlock → List LogBlock → List LogBlock
oldest_first [] loaded = loaded
oldest_first (log ∷ older) loaded = oldest_first older (log ∷ loaded)

load-Chained :
    (blockio : ℕ → Result LogBlock) (logchain : ℕ) (newest loaded : List LogBlock)
    → Chained blockio logchain newest
    → load blockio (length newest) logchain loaded ≡ ok (oldest_first newest loaded)
unfolding load oldest_first
load-Chained blockio logchain [] loaded h = refl
load-Chained blockio logchain (log ∷ older) loaded (read, magic, rest) =
    let good : (log.magic == tux3_magic_log) ≡ true = ground arith in
    rw read (rw good (load-Chained blockio log.logchain older (log ∷ loaded) rest))

-- When the chain leads through blocks, newest first, that hold entries of allocations, frees and bnode keys, with
-- extents of less than 256 blocks below 2^48, replay succeeds, and its effect is that of `update_bitmap`
-- for each allocation and free, in the order in which the log was written.
pub replay-apply_all :
    (blockio : ℕ → Result LogBlock) (logchain : ℕ) (newest : List LogBlock)
    (all : List (List Entry)) (sb : Sb)
    → Chained blockio logchain newest
    → AllHold (oldest_first newest []) all
    → replay blockio (length newest) logchain sb ≡ some (ok tt, apply_all all sb)
unfolding replay
replay-apply_all blockio logchain newest all sb chained holds =
    rw (load-Chained blockio logchain newest [] chained, replay)
      (rw (check_blocks-AllHold (oldest_first newest []) all holds)
        (apply_blocks-AllHold (oldest_first newest []) all sb holds))

abbrev pub IsRejected : Entry → Type 0
IsRejected (leaf_redirect_entry oldblock newblock) = Unit
IsRejected (bnode_redirect_entry oldblock newblock) = Unit
IsRejected (bnode_root_entry root count left right rkey) = Unit
IsRejected (bnode_split_entry src pos dest) = Unit
IsRejected entry = ⊥

rejected_record :
    (entry : Entry) (rest : List ℕ)
    → IsRejected entry
    → check_record (some (entry_code entry)) (entry_fields entry ++ rest)
      ≡ some (false, entry_fields entry ++ rest)
unfolding check_record entry_code
rejected_record (balloc_entry block count) rest h = absurd h
rejected_record (bfree_entry block count) rest h = absurd h
rejected_record (bfree_on_rollup_entry block count) rest h = absurd h
rejected_record (leaf_redirect_entry oldblock newblock) rest h = refl
rejected_record (bnode_redirect_entry oldblock newblock) rest h = refl
rejected_record (bnode_root_entry root count left right rkey) rest h = refl
rejected_record (bnode_split_entry src pos dest) rest h = refl
rejected_record (bnode_add_entry parent child key) rest h = absurd h
rejected_record (bnode_update_entry parent child key) rest h = absurd h

-- The first pass over a payload that has a rejected entry behind accepted ones.
check_block-rejected :
    (entries : List Entry) (entry : Entry) (fuel : ℕ) (rest : List ℕ) (past : ℕ)
    → AllReplayed entries
    → IsRejected entry
    → past ≤ length rest
    → length (payload entries ++ (entry_bytes entry ++ rest)) ≤ fuel
    → check_block fuel past (payload entries ++ (entry_bytes entry ++ rest)) ≡ some (err einval)
check_block-rejected [] entry zero rest past h bad room enough =
    absurd (unfold payload entry_bytes in omega arith)
check_block-rejected [] entry (suc fuel) rest past h bad room enough =
    let more : leb (suc (length (entry_fields entry ++ rest))) past ≡ false =
      ground (arith, length-append (entry_fields entry) rest) in
    unfold payload check_block entry_bytes in
    rw (more, code_of-code_number (entry_code entry), rejected_record entry rest bad) refl
check_block-rejected (first ∷ entries) entry zero rest past h bad room enough =
    absurd (omega (arith, length_cons first entries (entry_bytes entry ++ rest)))
check_block-rejected (first ∷ entries) entry (suc fuel) rest past (h, hs) bad room enough =
    let tail = entry_bytes entry ++ rest in
    rw (payload_cons first entries tail) (
      check_round first fuel past (payload entries ++ tail) h (
        omega (arith, length-append (payload entries) tail, length-append (entry_bytes entry) rest))
      ∙ check_block-rejected entries entry fuel rest past hs bad room
          (omega (arith, length_cons first entries tail)))

-- A log that holds the record of a redirect, of a new root or of a split cannot be replayed: when such a
-- record stands in a block behind records that replay accepts, and the blocks before hold only such, replay
-- returns -EINVAL and leaves the bitmap as it was.
pub replay-rejected :
    (blockio : ℕ → Result LogBlock) (logchain : ℕ) (newest older_logs newer_logs : List LogBlock)
    (all : List (List Entry)) (log : LogBlock) (entries : List Entry) (entry : Entry)
    (rest : List ℕ) (sb : Sb)
    → Chained blockio logchain newest
    → oldest_first newest [] ≡ older_logs ++ (log ∷ newer_logs)
    → AllHold older_logs all
    → AllReplayed entries
    → IsRejected entry
    → log.data_ ≡ payload entries ++ (entry_bytes entry ++ rest)
    → length log.data_ ≤ log.bytes + length rest
    → replay blockio (length newest) logchain sb ≡ some (err einval, sb)
unfolding replay check_blocks
replay-rejected blockio logchain newest older_logs newer_logs all log entries entry rest sb chained
      order hold replayed bad data_ size =
    rw (load-Chained blockio logchain newest [] chained, replay)
      (rw (order, blocks older_logs all hold) refl)
  where
    short : length (payload entries ++ (entry_bytes entry ++ rest)) - log.bytes ≤ length rest
    short =
        let h : length (payload entries ++ (entry_bytes entry ++ rest)) ≤ log.bytes + length rest =
          rw data_ at size in
        omega (arith, h)

    block :
        check_block (length log.data_) (length log.data_ - log.bytes) log.data_ ≡ some (err einval)
    block = rw data_ (
        check_block-rejected entries entry (length (payload entries ++ (entry_bytes entry ++ rest)))
          rest (length (payload entries ++ (entry_bytes entry ++ rest)) - log.bytes) replayed bad
          short (omega arith))

    blocks :
        (older_logs : List LogBlock) (all : List (List Entry))
        → AllHold older_logs all
        → check_blocks (older_logs ++ (log ∷ newer_logs)) ≡ some (err einval)
    blocks [] [] h = rw (block, check_blocks) refl
    blocks [] (e ∷ all) h = absurd h
    blocks (l ∷ logs) [] h = absurd h
    blocks (l ∷ logs) (es ∷ all) (holds, h) =
        rw (check_log l es holds, check_blocks) (blocks logs all h)
