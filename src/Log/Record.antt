-- ===== src/Log/Record.antt =====
-- The records of the log as values, and what each function of the log writes.
use tux.Base.{
  ℕ, ◌+◌, ◌==◌, ◌||◌, ◌≤◌, ◌<◌, ◌≡◌, ◌≢◌, refl, sym, ap, ◌∙◌, arith, ltb, true, false, Bool-cases,
  Option-cases, inl, inr, Option, some, none, List, [], ◌∷◌, ◌++◌, append_assoc, append-nil, length,
  length-append,
}
use mathlib.Core.Option.{some-injective}
use tux.Codec.{be32, encode32, encode48}
use tux.Codec.RoundTrip.{be48, encode48-be48}
use tux.Log.{
  LogCode, log_balloc_code, log_bfree_code, log_bfree_on_rollup_code, log_leaf_redirect_code,
  log_bnode_redirect_code, log_bnode_root_code, log_bnode_split_code, log_bnode_add_code,
  log_bnode_update_code, logsize, code_number, Log, sizeof_logblock, log_begin, log_end, log_finish,
  log_next, log_drop, is_full, log_balloc, log_bfree, log_bfree_on_rollup, log_leaf_redirect,
  log_bnode_redirect, log_bnode_root, log_bnode_split, log_bnode_add, log_bnode_update, log_extent,
  log_redirect, log_bnode_entry,
}

pub data Entry : Type 0 where
  balloc_entry bfree_entry bfree_on_rollup_entry : (block count : ℕ) → Entry
  leaf_redirect_entry bnode_redirect_entry : (oldblock newblock : ℕ) → Entry
  bnode_root_entry : (root count left right rkey : ℕ) → Entry
  bnode_split_entry : (src pos dest : ℕ) → Entry
  bnode_add_entry bnode_update_entry : (parent child key : ℕ) → Entry

-- The function that logs an entry.
unfoldable pub log_entry : Entry → Log → Option Log
log_entry (balloc_entry block count) log = log_balloc block count log
log_entry (bfree_entry block count) log = log_bfree block count log
log_entry (bfree_on_rollup_entry block count) log = log_bfree_on_rollup block count log
log_entry (leaf_redirect_entry oldblock newblock) log = log_leaf_redirect oldblock newblock log
log_entry (bnode_redirect_entry oldblock newblock) log = log_bnode_redirect oldblock newblock log
log_entry (bnode_root_entry root count left right rkey) log =
    log_bnode_root root count left right rkey log
log_entry (bnode_split_entry src pos dest) log = log_bnode_split src pos dest log
log_entry (bnode_add_entry parent child key) log = log_bnode_add parent child key log
log_entry (bnode_update_entry parent child key) log = log_bnode_update parent child key log

unfoldable pub entry_code : Entry → LogCode
entry_code (balloc_entry block count) = log_balloc_code
entry_code (bfree_entry block count) = log_bfree_code
entry_code (bfree_on_rollup_entry block count) = log_bfree_on_rollup_code
entry_code (leaf_redirect_entry oldblock newblock) = log_leaf_redirect_code
entry_code (bnode_redirect_entry oldblock newblock) = log_bnode_redirect_code
entry_code (bnode_root_entry root count left right rkey) = log_bnode_root_code
entry_code (bnode_split_entry src pos dest) = log_bnode_split_code
entry_code (bnode_add_entry parent child key) = log_bnode_add_code
entry_code (bnode_update_entry parent child key) = log_bnode_update_code

-- The bytes of an entry behind its code.
unfoldable pub entry_fields : Entry → List ℕ
entry_fields (balloc_entry block count) = count ∷ be48 block
entry_fields (bfree_entry block count) = count ∷ be48 block
entry_fields (bfree_on_rollup_entry block count) = count ∷ be48 block
entry_fields (leaf_redirect_entry oldblock newblock) = be48 oldblock ++ be48 newblock
entry_fields (bnode_redirect_entry oldblock newblock) = be48 oldblock ++ be48 newblock
entry_fields (bnode_root_entry root count left right rkey) =
    count ∷ (be48 root ++ (be48 left ++ (be48 right ++ be48 rkey)))
entry_fields (bnode_split_entry src pos dest) = be32 pos ++ (be48 src ++ be48 dest)
entry_fields (bnode_add_entry parent child key) = be48 parent ++ (be48 child ++ be48 key)
entry_fields (bnode_update_entry parent child key) = be48 parent ++ (be48 child ++ be48 key)

-- What the log functions assert of their arguments: an extent has less than 256 blocks, a root one or two
-- children.
unfoldable pub IsLoggable : Entry → Type 0
IsLoggable (balloc_entry block count) = count < 256
IsLoggable (bfree_entry block count) = count < 256
IsLoggable (bfree_on_rollup_entry block count) = count < 256
IsLoggable (bnode_root_entry root count left right rkey) = (0 < count) × (count < 3)
IsLoggable entry = Unit

unfoldable pub entry_bytes : Entry → List ℕ
entry_bytes entry = code_number (entry_code entry) ∷ entry_fields entry

unfoldable pub flatten : List (List ℕ) → List ℕ
flatten [] = []
flatten (block ∷ blocks) = block ++ flatten blocks

flatten-append : (xs : List (List ℕ)) (y : List ℕ) → flatten (xs ++ (y ∷ [])) ≡ flatten xs ++ y
unfolding flatten
flatten-append [] y = append-nil y
flatten-append (x ∷ xs) y =
    ap (λ (t : List ℕ). x ++ t) (flatten-append xs y) ∙ sym (append_assoc x (flatten xs) y)

current_bytes : Option (List ℕ) → List ℕ
current_bytes none = []
current_bytes (some data_) = data_

-- All that the log holds, in the order in which it was written.
unfoldable pub stream : Log → List ℕ
unfolding flatten current_bytes
stream log = flatten log.finished ++ current_bytes log.current

abbrev pub AllWithin : ℕ → List (List ℕ) → Type 0
AllWithin limit [] = Unit
AllWithin limit (block ∷ blocks) = (sizeof_logblock + length block ≤ limit) × AllWithin limit blocks

AllWithin-append :
    (limit : ℕ) (xs : List (List ℕ)) (y : List ℕ)
    → AllWithin limit xs
    → sizeof_logblock + length y ≤ limit
    → AllWithin limit (xs ++ (y ∷ []))
AllWithin-append limit [] y h k = (k, tt)
AllWithin-append limit (x ∷ xs) y (h, rest) k = (h, AllWithin-append limit xs y rest k)

-- Every block of the log has room for its payload.
pub record IsWithin (log : Log) : Type 0 where
  pub finished : AllWithin log.blocksize log.finished
  pub current :
      (data_ : List ℕ) → log.current ≡ some data_ → sizeof_logblock + length data_ ≤ log.blocksize

-- The log `log'` is `log` with the bytes behind all others, in one piece: the current block ends in them.
pub record Logged (log : Log) (bytes : List ℕ) (log' : Log) : Type 0 where
  pub added : stream log' ≡ stream log ++ bytes
  pub whole : (front : List ℕ) × (log'.current ≡ some (front ++ bytes))
  pub size : log'.blocksize ≡ log.blocksize
  pub within : IsWithin log'

log_end-value :
    (log : Log) (data_ bytes : List ℕ)
    → log.current ≡ some data_
    → sizeof_logblock + length data_ + length bytes ≤ log.blocksize
    → log_end log bytes ≡ some (record log { current = some (data_ ++ bytes) })
unfolding log_end
log_end-value log data_ bytes e room =
    let open_ : ltb log.blocksize (sizeof_logblock + length data_ + length bytes) ≡ false =
      ground arith in
    rw e (rw open_ refl)

log_end-over :
    (log : Log) (data_ bytes : List ℕ)
    → log.current ≡ some data_
    → ltb log.blocksize (sizeof_logblock + length data_ + length bytes) ≡ true
    → log_end log bytes ≡ none
unfolding log_end
log_end-over log data_ bytes e over = rw e (rw over refl)

log_begin-none :
    (log : Log) (n : ℕ)
    → log.current ≡ none
    → 0 < n
    → log_begin log n ≡ record log { current = some [] }
unfolding log_begin is_full log_finish log_next log_drop
log_begin-none log n e h = let full : ltb 0 n ≡ true = ground arith in rw e (rw full refl)

log_begin-full :
    (log : Log) (n : ℕ) (data_ : List ℕ)
    → log.current ≡ some data_
    → ltb log.blocksize (sizeof_logblock + length data_ + n) ≡ true
    → log_begin log n ≡ record log { finished = log.finished ++ (data_ ∷ []); current = some [] }
unfolding log_begin is_full log_finish log_next log_drop
log_begin-full log n data_ e full = rw e (rw full refl)

log_begin-open :
    (log : Log) (n : ℕ) (data_ : List ℕ)
    → log.current ≡ some data_
    → ltb log.blocksize (sizeof_logblock + length data_ + n) ≡ false
    → log_begin log n ≡ log
unfolding log_begin is_full
log_begin-open log n data_ e open_ = rw e (rw open_ refl)

stream-some :
    (log : Log) (data_ : List ℕ)
    → log.current ≡ some data_
    → stream log ≡ flatten log.finished ++ data_
unfolding stream current_bytes
stream-some log data_ e = rw e refl

within_current :
    (a b : List ℕ) (limit : ℕ)
    → some a ≡ some b
    → sizeof_logblock + length a ≤ limit
    → sizeof_logblock + length b ≤ limit
within_current a b limit e h = rw (some-injective a b e) at h

abbrev pub Appended : Log → List ℕ → Option Log → Type 0
Appended log bytes result = (log' : Log) × ((result ≡ some log') × Logged log bytes log')

module _ (log : Log) (bytes : List ℕ) (within : IsWithin log) (some_bytes : 0 < length bytes)
    (room : sizeof_logblock + length bytes ≤ log.blocksize) where
  append_none :
      log.current ≡ none → Appended log bytes (log_end (log_begin log (length bytes)) bytes)
  append_none e =
      let log' : Log = record log { current = some bytes } in
      (
        log',
        (
          rw (log_begin-none log (length bytes) e some_bytes)
              (log_end-value (record log { current = some [] }) [] bytes refl room),
          record {
            added =
                unfold stream current_bytes in rw e (rw (append-nil (flatten log.finished)) refl);
            whole = ([], refl);
            size = refl;
            within = record {
              finished = within.finished;
              current = λ d e. within_current bytes d log.blocksize e room;
            };
          },
        ),
      )

  append_full :
      (data_ : List ℕ)
      → log.current ≡ some data_
      → ltb log.blocksize (sizeof_logblock + length data_ + length bytes) ≡ true
      → Appended log bytes (log_end (log_begin log (length bytes)) bytes)
  append_full data_ e full =
      let begun : Log = record log { finished = log.finished ++ (data_ ∷ []); current = some [] } in
      let log' : Log = record begun { current = some bytes } in
      (
        log',
        (
          rw (log_begin-full log (length bytes) data_ e full)
              (log_end-value begun [] bytes refl room),
          record {
            added =
                rw
                  (
                    stream-some log data_ e,
                    stream-some log' bytes refl,
                    flatten-append log.finished data_,
                  )
                  refl;
            whole = ([], refl);
            size = refl;
            within = record {
              finished =
                  AllWithin-append log.blocksize log.finished data_ within.finished
                    (within.current data_ e);
              current = λ d e. within_current bytes d log.blocksize e room;
            };
          },
        ),
      )

  append_open :
      (data_ : List ℕ)
      → log.current ≡ some data_
      → ltb log.blocksize (sizeof_logblock + length data_ + length bytes) ≡ false
      → Appended log bytes (log_end (log_begin log (length bytes)) bytes)
  append_open data_ e open_ =
      let log' : Log = record log { current = some (data_ ++ bytes) } in
      (
        log',
        (
          rw (log_begin-open log (length bytes) data_ e open_)
              (log_end-value log data_ bytes e (ground arith)),
          record {
            added =
                rw (stream-some log data_ e, stream-some log' (data_ ++ bytes) refl)
                  (sym (append_assoc (flatten log.finished) data_ bytes));
            whole = (data_, refl);
            size = refl;
            within = record {
              finished = within.finished;
              current = λ d e'.
                  within_current (data_ ++ bytes) d log.blocksize e'
                    (ground (arith, length-append data_ bytes));
            };
          },
        ),
      )

  -- A record for which `log_begin` reserves its length.
  pub append_record : Appended log bytes (log_end (log_begin log (length bytes)) bytes)
  append_record = elim (Option-cases log.current) [
    | inl e ↦ append_none e
    | inr (data_, e) ↦
        elim (Bool-cases (ltb log.blocksize (sizeof_logblock + length data_ + length bytes))) [
          | inl full ↦ append_full data_ e full
          | inr open_ ↦ append_open data_ e open_
        ]
  ]

-- The code's argument of `log_begin` for an entry.
pub length-entry_bytes :
    (entry : Entry)
    → entry_code entry ≢ log_bnode_split_code
    → length (entry_bytes entry) ≡ logsize (entry_code entry)
unfolding entry_bytes entry_fields entry_code logsize
length-entry_bytes (balloc_entry block count) ne = refl
length-entry_bytes (bfree_entry block count) ne = refl
length-entry_bytes (bfree_on_rollup_entry block count) ne = refl
length-entry_bytes (leaf_redirect_entry oldblock newblock) ne = refl
length-entry_bytes (bnode_redirect_entry oldblock newblock) ne = refl
length-entry_bytes (bnode_root_entry root count left right rkey) ne = refl
length-entry_bytes (bnode_split_entry src pos dest) ne = absurd (ne refl)
length-entry_bytes (bnode_add_entry parent child key) ne = refl
length-entry_bytes (bnode_update_entry parent child key) ne = refl

two48 : (front : List ℕ) (a b : ℕ) → encode48 (encode48 front a) b ≡ (front ++ be48 a) ++ be48 b
two48 front a b = rw (encode48-be48 front a, encode48-be48 (front ++ be48 a) b) refl

three48 :
    (front : List ℕ) (a b c : ℕ)
    → encode48 (encode48 (encode48 front a) b) c ≡ ((front ++ be48 a) ++ be48 b) ++ be48 c
three48 front a b c = rw (encode48-be48 front a) (two48 (front ++ be48 a) b c)

-- A log function whose assertions hold writes the bytes of its entry after reserving what `logsize` says.
log_entry-value :
    (entry : Entry) (log : Log)
    → IsLoggable entry
    → log_entry entry log ≡ log_end (log_begin log (logsize (entry_code entry))) (entry_bytes entry)
unfolding log_entry entry_bytes entry_fields entry_code logsize log_balloc log_bfree
    log_bfree_on_rollup log_leaf_redirect log_bnode_redirect log_bnode_root log_bnode_split
    log_bnode_add log_bnode_update log_extent log_redirect log_bnode_entry encode32 code_number
    IsLoggable
log_entry-value (balloc_entry block count) log h =
    let small : ltb count 256 ≡ true = ground arith in
    rw small (ap (log_end (log_begin log 8)) (encode48-be48 (0x33 ∷ count ∷ []) block))
log_entry-value (bfree_entry block count) log h =
    let small : ltb count 256 ≡ true = ground arith in
    rw small (ap (log_end (log_begin log 8)) (encode48-be48 (0x34 ∷ count ∷ []) block))
log_entry-value (bfree_on_rollup_entry block count) log h =
    let small : ltb count 256 ≡ true = ground arith in
    rw small (ap (log_end (log_begin log 8)) (encode48-be48 (0x35 ∷ count ∷ []) block))
log_entry-value (leaf_redirect_entry oldblock newblock) log h =
    ap (log_end (log_begin log 13)) (two48 (0x36 ∷ []) oldblock newblock)
log_entry-value (bnode_redirect_entry oldblock newblock) log h =
    ap (log_end (log_begin log 13)) (two48 (0x37 ∷ []) oldblock newblock)
log_entry-value (bnode_root_entry root count left right rkey) log (low, high) =
    let one_or_two : (count == 1 || count == 2) ≡ true = ground arith in
    rw one_or_two (
      ap (log_end (log_begin log 26)) (
        rw (encode48-be48 (0x38 ∷ count ∷ []) root)
          (three48 (0x38 ∷ count ∷ be48 root) left right rkey)))
log_entry-value (bnode_split_entry src pos dest) log h =
    ap (log_end (log_begin log 15)) (two48 (0x39 ∷ be32 pos) src dest)
log_entry-value (bnode_add_entry parent child key) log h =
    ap (log_end (log_begin log 19)) (three48 (0x3a ∷ []) parent child key)
log_entry-value (bnode_update_entry parent child key) log h =
    ap (log_end (log_begin log 19)) (three48 (0x3b ∷ []) parent child key)

logsize-small : (code : LogCode) → logsize code ≤ 26
unfolding logsize
logsize-small log_balloc_code = omega arith
logsize-small log_bfree_code = omega arith
logsize-small log_bfree_on_rollup_code = omega arith
logsize-small log_leaf_redirect_code = omega arith
logsize-small log_bnode_redirect_code = omega arith
logsize-small log_bnode_root_code = omega arith
logsize-small log_bnode_split_code = omega arith
logsize-small log_bnode_add_code = omega arith
logsize-small log_bnode_update_code = omega arith

-- In a log whose blocks have room for their payloads and whose blocks take the longest record, every
-- function but `log_bnode_split` adds its entry's code and fields behind all that was logged, in one
-- block, and keeps every payload within its block, when what it asserts holds: an extent has less than
-- 256 blocks, a new root one or two children.
pub log_entry-Logged :
    (entry : Entry) (log : Log)
    → IsWithin log
    → sizeof_logblock + 26 ≤ log.blocksize
    → entry_code entry ≢ log_bnode_split_code
    → IsLoggable entry
    → (log' : Log) × ((log_entry entry log ≡ some log') × Logged log (entry_bytes entry) log')
log_entry-Logged entry log within room ne loggable =
    let size = length-entry_bytes entry ne in
    let small = logsize-small (entry_code entry) in
    let some_bytes : 0 < length (entry_bytes entry) = unfold entry_bytes in omega arith in
    rw (log_entry-value entry log loggable, sym size)
      (append_record log (entry_bytes entry) within some_bytes (omega (arith, size, small)))

-- `log_bnode_split` reserves 15 bytes and writes 17: with 15 or 16 bytes left in the current block, its
-- last bytes fall past the end of the block.
pub log_bnode_split-overflow :
    (log : Log) (data_ : List ℕ) (src pos dest : ℕ)
    → log.current ≡ some data_
    → sizeof_logblock + length data_ + 15 ≤ log.blocksize
    → log.blocksize < sizeof_logblock + length data_ + 17
    → log_bnode_split src pos dest log ≡ none
log_bnode_split-overflow log data_ src pos dest e low high =
    let open_ : ltb log.blocksize (sizeof_logblock + length data_ + 15) ≡ false = ground arith in
    let bytes = entry_bytes (bnode_split_entry src pos dest) in
    let value : log_bnode_split src pos dest log ≡ log_end (log_begin log 15) bytes =
      unfold log_entry logsize entry_code IsLoggable in
      log_entry-value (bnode_split_entry src pos dest) log tt in
    let over : ltb log.blocksize (sizeof_logblock + length data_ + length bytes) ≡ true =
      unfold entry_bytes entry_fields in ground arith in
    value ∙ rw (log_begin-open log 15 data_ e open_) (log_end-over log data_ bytes e over)
