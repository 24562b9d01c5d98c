-- ===== src/Replay.antt =====
-- Replay of the log (user/kernel/replay.c): the log blocks are loaded along their chain, all records
-- are checked, and the logged allocations and frees are applied to the bitmap. Messages are left out.
pub mod RoundTrip
use tux.Base.{
  ℕ, zero, suc, ◌+◌, ◌-◌, ◌==◌, leb, ltb, if◌then◌else◌, Bool, not, true, false, Option, none, some,
  List, [], ◌∷◌, ◌++◌, length, drop,
}
use tux.Codec.{◌>>=◌, decode48}
use tux.Errno.{Errno, Result, ok, err, einval}
use tux.Balloc.{Sb, update_bitmap}
use tux.Log.{
  LogCode, log_balloc_code, log_bfree_code, log_bfree_on_rollup_code, log_leaf_redirect_code,
  log_bnode_redirect_code, log_bnode_root_code, log_bnode_split_code, log_bnode_add_code,
  log_bnode_update_code, logsize,
}

-- `data_` is all of the block behind the header, `bytes` the length of the payload.
pub record LogBlock : Type 0 where
  pub magic : ℕ
  pub bytes : ℕ
  pub logchain : ℕ
  pub data_ : List ℕ

abbrev pub tux3_magic_log : ℕ
tux3_magic_log = 0x10ad

unfoldable pub code_of : ℕ → Option LogCode
code_of n =
    if n == 0x33
    then some log_balloc_code
    else if n == 0x34
    then some log_bfree_code
    else if n == 0x35
    then some log_bfree_on_rollup_code
    else if n == 0x36
    then some log_leaf_redirect_code
    else if n == 0x37
    then some log_bnode_redirect_code
    else if n == 0x38
    then some log_bnode_root_code
    else if n == 0x39
    then some log_bnode_split_code
    else if n == 0x3a
    then some log_bnode_add_code
    else if n == 0x3b
    then some log_bnode_update_code
    else none

-- The loop that loads the blocks, the last one first. `blockio` reads a block of the volume.
unfoldable pub load : (ℕ → Result LogBlock) → ℕ → ℕ → List LogBlock → Result (List LogBlock)
load blockio zero logchain loaded = ok loaded
load blockio (suc i) logchain loaded = elim (blockio logchain) [
  | err e ↦ err e
  | ok log ↦
      let rest = load blockio i log.logchain (log ∷ loaded) in
      if not (log.magic == tux3_magic_log) then err einval else rest
]

-- One record behind its code in the first pass: the bytes left, and false for an unknown code. `none`
-- is a read past the end of the block.
unfoldable pub check_record : Option LogCode → List ℕ → Option (Bool × List ℕ)
check_record (some log_bnode_add_code) data_ = do
  (parent, data1) ← decode48 data_
  (child, data2) ← decode48 data1
  (key, rest) ← decode48 data2
  some (true, rest)
check_record (some log_bnode_update_code) data_ = do
  (parent, data1) ← decode48 data_
  (child, data2) ← decode48 data1
  (key, rest) ← decode48 data2
  some (true, rest)
check_record (some log_balloc_code) data_ = some (true, drop (logsize log_balloc_code - 1) data_)
check_record (some log_bfree_code) data_ = some (true, drop (logsize log_bfree_code - 1) data_)
check_record (some log_bfree_on_rollup_code) data_ =
    some (true, drop (logsize log_bfree_on_rollup_code - 1) data_)
check_record code data_ = some (false, data_)

-- The first pass over a block. `past` is the number of bytes behind the payload: the loop goes on while
-- more bytes are left than these. Each round takes a byte or more, so that the length is fuel enough.
unfoldable pub check_block : ℕ → ℕ → List ℕ → Option (Result (Unit {0}))
check_block fuel past [] = some (ok tt)
check_block zero past (code ∷ data_) = if leb (suc (length data_)) past then some (ok tt) else none
check_block (suc fuel) past (code ∷ data_) =
    if leb (suc (length data_)) past
    then some (ok tt)
    else elim (check_record (code_of code) data_) [
      | none ↦ none
      | some (known, rest) ↦ if known then check_block fuel past rest else some (err einval)
    ]

-- One record behind its code in the second pass. The error of `update_bitmap` is only reported.
unfoldable pub apply_extent : Bool → List ℕ → Sb → Option (Bool × List ℕ × Sb)
apply_extent set [] sb = none
apply_extent set (count ∷ data_) sb = do
  (block, rest) ← decode48 data_
  some (true, rest, (update_bitmap sb block count set).1)

unfoldable pub apply_record : Option LogCode → List ℕ → Sb → Option (Bool × List ℕ × Sb)
apply_record (some log_balloc_code) data_ sb = apply_extent true data_ sb
apply_record (some log_bfree_code) data_ sb = apply_extent false data_ sb
apply_record (some log_bfree_on_rollup_code) data_ sb = apply_extent false data_ sb
apply_record (some log_leaf_redirect_code) data_ sb =
    some (true, drop (logsize log_leaf_redirect_code - 1) data_, sb)
apply_record (some log_bnode_redirect_code) data_ sb =
    some (true, drop (logsize log_bnode_redirect_code - 1) data_, sb)
apply_record (some log_bnode_root_code) data_ sb =
    some (true, drop (logsize log_bnode_root_code - 1) data_, sb)
apply_record (some log_bnode_split_code) data_ sb =
    some (true, drop (logsize log_bnode_split_code - 1) data_, sb)
apply_record (some log_bnode_add_code) data_ sb =
    some (true, drop (logsize log_bnode_add_code - 1) data_, sb)
apply_record (some log_bnode_update_code) data_ sb =
    some (true, drop (logsize log_bnode_update_code - 1) data_, sb)
apply_record none data_ sb = some (false, data_, sb)

unfoldable pub apply_block : ℕ → ℕ → List ℕ → Sb → Option (Result (Unit {0}) × Sb)
apply_block fuel past [] sb = some (ok tt, sb)
apply_block zero past (code ∷ data_) sb =
    if leb (suc (length data_)) past then some (ok tt, sb) else none
apply_block (suc fuel) past (code ∷ data_) sb =
    if leb (suc (length data_)) past
    then some (ok tt, sb)
    else elim (apply_record (code_of code) data_ sb) [
      | none ↦ none
      | some (known, rest, sb') ↦
          if known then apply_block fuel past rest sb' else some (err einval, sb')
    ]

-- The two passes over all blocks.
unfoldable pub check_blocks : List LogBlock → Option (Result (Unit {0}))
check_blocks [] = some (ok tt)
check_blocks (log ∷ logs) =
    elim (check_block (length log.data_) (length log.data_ - log.bytes) log.data_) [
      | none ↦ none
      | some (err e) ↦ some (err e)
      | some (ok _) ↦ check_blocks logs
    ]

unfoldable pub apply_blocks : List LogBlock → Sb → Option (Result (Unit {0}) × Sb)
apply_blocks [] sb = some (ok tt, sb)
apply_blocks (log ∷ logs) sb =
    elim (apply_block (length log.data_) (length log.data_ - log.bytes) log.data_ sb) [
      | none ↦ none
      | some (err e, sb') ↦ some (err e, sb')
      | some (ok _, sb') ↦ apply_blocks logs sb'
    ]

unfoldable pub replay : (ℕ → Result LogBlock) → ℕ → ℕ → Sb → Option (Result (Unit {0}) × Sb)
replay blockio logcount logchain sb = elim (load blockio logcount logchain []) [
  | err e ↦ some (err e, sb)
  | ok logs ↦ elim (check_blocks logs) [
    | none ↦ none
    | some (err e) ↦ some (err e, sb)
    | some (ok _) ↦ apply_blocks logs sb
  ]
]
