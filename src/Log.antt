-- ===== src/Log.antt =====
-- The log (user/kernel/log.c). A log block is the list of bytes
-- of its payload; finished blocks stand in the order of `logmap`. Locks and buffer counts are left out,
-- and a log block always has a buffer. A failed assertion or a write past the end of a block is `none`.
pub mod Record
use tux.Base.{
  ℕ, zero, suc, ◌+◌, ◌-◌, ◌*◌, ◌/◌, ◌%◌, ◌^◌, ◌==◌, leb, ltb, if◌then◌else◌, Bool, not, true, false,
  ◌&&◌, ◌||◌, Option, none, some, List, [], ◌∷◌, ◌++◌, length, take, drop,
}
use tux.Codec.{◌>>=◌, encode32, encode48, decode16, decode32, decode48}

-- The codes of the records.
pub data LogCode : Type 0 where
  log_balloc_code log_bfree_code log_bfree_on_rollup_code log_leaf_redirect_code
        log_bnode_redirect_code log_bnode_root_code log_bnode_split_code log_bnode_add_code
        log_bnode_update_code :
      LogCode

unfoldable pub code_number : LogCode → ℕ
code_number log_balloc_code = 0x33
code_number log_bfree_code = 0x34
code_number log_bfree_on_rollup_code = 0x35
code_number log_leaf_redirect_code = 0x36
code_number log_bnode_redirect_code = 0x37
code_number log_bnode_root_code = 0x38
code_number log_bnode_split_code = 0x39
code_number log_bnode_add_code = 0x3a
code_number log_bnode_update_code = 0x3b

unfoldable pub logsize : LogCode → ℕ
logsize log_balloc_code = 8
logsize log_bfree_code = 8
logsize log_bfree_on_rollup_code = 8
logsize log_leaf_redirect_code = 13
logsize log_bnode_redirect_code = 13
logsize log_bnode_root_code = 26
logsize log_bnode_split_code = 15
logsize log_bnode_add_code = 19
logsize log_bnode_update_code = 19

-- `sizeof(struct logblock)`
abbrev pub sizeof_logblock : ℕ
sizeof_logblock = 16

-- `current` is the payload up to `logpos` of the block in `logbuf`, `none` when there is none.
-- `log_finish` writes the header's `bytes`, which is the length of a finished payload.
pub record Log : Type 0 where
  pub blocksize : ℕ
  pub finished : List (List ℕ)
  pub current : Option (List ℕ)

unfoldable pub log_next : Log → Log
log_next log = record log { current = some [] }

unfoldable pub log_drop : Log → Log
log_drop log = record log { current = none }

unfoldable pub log_finish : Log → Log
unfolding log_drop
log_finish log = elim log.current [
  | none ↦ log
  | some data_ ↦ log_drop (record log { finished = log.finished ++ (data_ ∷ []) })
]

-- `logpos + bytes > logtop`; both are NULL when there is no block.
unfoldable pub is_full : Log → ℕ → Bool
is_full log bytes = elim log.current [
  | none ↦ ltb 0 bytes
  | some data_ ↦ ltb log.blocksize (sizeof_logblock + length data_ + bytes)
]

unfoldable pub log_begin : Log → ℕ → Log
unfolding is_full log_finish log_next
log_begin log bytes = if is_full log bytes then log_next (log_finish log) else log

-- The bytes of the record written since `log_begin`. Past the end of the block they would overwrite memory
-- that is not the log's.
unfoldable pub log_end : Log → List ℕ → Option Log
log_end log record_ = elim log.current [
  | none ↦ none
  | some data_ ↦
      if ltb log.blocksize (sizeof_logblock + length data_ + length record_)
      then none
      else some (record log { current = some (data_ ++ record_) })
]

unfoldable pub log_extent : LogCode → ℕ → ℕ → Log → Option Log
log_extent intent block count log =
    if ltb count 256
    then log_end (log_begin log 8) (encode48 (code_number intent ∷ count ∷ []) block)
    else none

unfoldable pub log_balloc : ℕ → ℕ → Log → Option Log
unfolding log_extent
log_balloc block count log = log_extent log_balloc_code block count log

unfoldable pub log_bfree : ℕ → ℕ → Log → Option Log
unfolding log_extent
log_bfree block count log = log_extent log_bfree_code block count log

unfoldable pub log_bfree_on_rollup : ℕ → ℕ → Log → Option Log
unfolding log_extent
log_bfree_on_rollup block count log = log_extent log_bfree_on_rollup_code block count log

unfoldable pub log_redirect : LogCode → ℕ → ℕ → Log → Option Log
log_redirect intent oldblock newblock log =
    log_end (log_begin log 13) (encode48 (encode48 (code_number intent ∷ []) oldblock) newblock)

unfoldable pub log_leaf_redirect : ℕ → ℕ → Log → Option Log
unfolding log_redirect
log_leaf_redirect oldblock newblock log = log_redirect log_leaf_redirect_code oldblock newblock log

unfoldable pub log_bnode_redirect : ℕ → ℕ → Log → Option Log
unfolding log_redirect
log_bnode_redirect oldblock newblock log =
    log_redirect log_bnode_redirect_code oldblock newblock log

unfoldable pub log_bnode_root : ℕ → ℕ → ℕ → ℕ → ℕ → Log → Option Log
log_bnode_root root count left right rkey log =
    if count == 1 || count == 2
    then log_end (log_begin log 26) (
        encode48
          (encode48 (encode48 (encode48 (code_number log_bnode_root_code ∷ count ∷ []) root) left)
            right)
          rkey)
    else none

unfoldable pub log_bnode_split : ℕ → ℕ → ℕ → Log → Option Log
log_bnode_split src pos dest log =
    log_end (log_begin log 15)
      (encode48 (encode48 (encode32 (code_number log_bnode_split_code ∷ []) pos) src) dest)

unfoldable pub log_bnode_entry : LogCode → ℕ → ℕ → ℕ → Log → Option Log
log_bnode_entry intent parent child key log =
    log_end (log_begin log 19)
      (encode48 (encode48 (encode48 (code_number intent ∷ []) parent) child) key)

unfoldable pub log_bnode_add : ℕ → ℕ → ℕ → Log → Option Log
unfolding log_bnode_entry
log_bnode_add parent child key log = log_bnode_entry log_bnode_add_code parent child key log

unfoldable pub log_bnode_update : ℕ → ℕ → ℕ → Log → Option Log
unfolding log_bnode_entry
log_bnode_update parent child key log = log_bnode_entry log_bnode_update_code parent child key log
