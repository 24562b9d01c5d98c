-- ===== src/Examples.antt =====
-- The theorems about the leaves, the attributes, the log and the words at concrete values.
use tux.Base.{
  ℕ, zero, suc, ◌+◌, ◌-◌, ◌*◌, ◌/◌, ◌%◌, ◌^◌, ◌≤◌, ◌≡◌, ◌≢◌, refl, ap, arith, true, Option, some,
  none, not, List, [], ◌∷◌, ◌++◌, length, if◌then◌else◌, ◌==◌,
}
use mathlib.Core.Option.{some-injective}
use tux.Base.Memory.{Mem}
use tux.Base.Bits.{bit, bit-zero, bit_test}
use tux.Errno.{Result, ok, err, einval, eio}
use tux.Bitmap.{bit_at, in_range, set_bits}
use tux.Bitmap.Ranges.{bit-set_bits}
use tux.Packed.{
  Root, Timespec, make_group, make_entry, get_index, make_extent, extent_block, extent_count,
  extent_version,
}
use tux.Packed.Fields.{get_index-make, extent_fields}
use tux.Ileaf.{Btree, Ileaf, ileaf_resize, atdict}
use tux.Ileaf.Dict.{IsValid}
use tux.Ileaf.Resized.{ResizeOutcome, ileaf_resize-ResizeOutcome}
use tux.Iattr.{
  Inode, Xattr, Xcache, has, to_kind, kind_size, encode_asize, encode_attrs, decode_attrs,
  encode_xattrs, encode_xsize, huge_encode_dev, huge_decode_dev, xcache_size,
}
use tux.Iattr.Fields.{Fits, IsFixed, IsNear, coarse}
use tux.Iattr.RoundTrip.{AllFixed, copy_attrs, decode_attrs-encode_attrs}
use tux.Iattr.Xattrs.{decode_attrs-encode_xattrs}
use tux.Balloc.{Sb}
use tux.Log.{Log, code_number, log_balloc_code, log_bnode_split, log_bnode_split_code}
use tux.Log.Record.{
  Entry, balloc_entry, bnode_add_entry, bnode_split_entry, log_entry, entry_bytes, entry_fields,
  entry_code, IsWithin, IsLoggable, Logged, log_entry-Logged, log_bnode_split-overflow,
}
use tux.Replay.{LogBlock, replay}
use tux.Replay.RoundTrip.{
  AllReplayed, IsReplayed, payload, apply_all, replay-apply_all, replay-rejected, oldest_first,
}
use tux.Stash.{Stash, unstash, stash_value}
use tux.Stash.Queue.{
  ValueOutcome, stash_value-ValueOutcome, values, act_all, unstash-act_all, IsStash, IsPage,
  UnstashOutcome,
}
use tux.Xcache.Lookup.{entries}

abbrev threes : Mem
threes j = 3

bit-set_bits_example :
    bit_at (set_bits threes 5 9) 12 ≡ (if in_range 5 9 12 then 1 else bit_at threes 12)
bit-set_bits_example = bit-set_bits threes 5 9 12 (omega arith)

abbrev some_time : Timespec
some_time = record { tv_sec = 1230768000; tv_nsec = 123456789 }

abbrev some_root : Root
some_root = record { depth = 2; block = 0x123456789 }

get_index-test :
    get_index (make_group (0x123456789abc / 2 ^ 24) 3) (make_entry (0x123456789abc % 2 ^ 24) 7)
    ≡ 0x123456789abc
get_index-test = get_index-make 0x123456789abc 3 7 (omega arith) (omega arith) (omega arith)

extent_fields-test :
    (e : ℕ) × (make_extent 0xabcdef 64 ≡ some e)
    × (extent_block e ≡ 0xabcdef)
    × (extent_count e ≡ 64)
    × (extent_version e ≡ 0)
extent_fields-test = extent_fields 0xabcdef 64 (omega arith) (omega arith) (omega arith)

abbrev small_btree : Btree
small_btree = record { blockbits = 8; entries_per_leaf = 4 }

-- Two inodes of 3 and 5 bytes.
abbrev two_inodes : Ileaf
two_inodes = record {
  magic = 0x90de;
  count = 2;
  ibase = 0x10;
  table = λ j. j;
  dict = λ i. if i == 1 then 3 else 8;
}

two_inodes-IsValid : IsValid small_btree two_inodes
unfolding atdict
two_inodes-IsValid = record {
  small = omega arith;
  kind = refl;
  entries = omega arith;
  order = λ i h. ground arith;
  room = omega arith;
}

ileaf_resize-ResizeOutcome_example :
    ResizeOutcome small_btree two_inodes
      (0x10 - 0x10)
      7
      (ileaf_resize small_btree 0x10 two_inodes 7)
ileaf_resize-ResizeOutcome_example =
    ileaf_resize-ResizeOutcome small_btree 0x10 two_inodes 7 two_inodes-IsValid (omega arith)
      (omega arith) (omega arith)

abbrev plain_cache : Xcache
plain_cache = record {
  maxsize = 128;
  xattrs = record { atom = 5; body = 1 ∷ 2 ∷ 3 ∷ [] } ∷ record { atom = 9; body = [] } ∷ [];
}

-- An inode with its mode and owner and its number of links.
abbrev some_inode : Inode
some_inode = record {
  present = 0x12;
  rdev = 0;
  mode = 0x81a4;
  uid = 1000;
  gid = 100;
  size = 12;
  ctime = some_time;
  mtime = some_time;
  root = some_root;
  nlink = 1;
  xcache = some plain_cache;
}

abbrev empty_inode : Inode
empty_inode = record some_inode {
  present = 0;
  mode = 0;
  uid = 0;
  gid = 0;
  nlink = 0;
  xcache = some (record { maxsize = 128; xattrs = [] });
}

two_kinds : (kind : ℕ) → not (bit 0x12 kind == 0) ≡ true → IsFixed (to_kind kind)
unfolding bit to_kind IsFixed
two_kinds zero h = tt
two_kinds (suc zero) h = tt
two_kinds (suc (suc zero)) h = tt
two_kinds (suc (suc (suc zero))) h = tt
two_kinds (suc (suc (suc (suc zero)))) h = tt
two_kinds (suc (suc (suc (suc (suc kind))))) h = absurd (ground (arith, bit-zero kind))

some_inode-AllFixed : AllFixed some_inode
unfolding has
some_inode-AllFixed kind h = two_kinds kind (rw (bit_test 0x12 kind) at h)

some_inode-Fits : Fits some_inode
some_inode-Fits = record {
  rdev = omega arith;
  mode = omega arith;
  uid = omega arith;
  gid = omega arith;
  size = omega arith;
  nlink = omega arith;
  root_block = omega arith;
  root_depth = omega arith;
  ctime = record { seconds = omega arith; nanoseconds = omega arith };
  mtime = record { seconds = omega arith; nanoseconds = omega arith };
}

size_enough : encode_asize 0x12 ≤ 20
unfolding encode_asize has tux.Iattr.atsize
size_enough = omega arith

decode_attrs-encode_attrs_example :
    (decode_attrs 0 empty_inode (encode_attrs 0 some_inode 20)
      ≡ (some [], copy_attrs 11 0 some_inode empty_inode))
    × IsNear some_time (coarse some_time)
    × IsNear some_time (coarse some_time)
decode_attrs-encode_attrs_example =
    decode_attrs-encode_attrs 0 some_inode empty_inode 20 some_inode-AllFixed (omega arith)
      some_inode-Fits size_enough

xsize_enough : encode_xsize some_inode ≤ 20
unfolding encode_xsize kind_size
xsize_enough = omega arith

cache_enough : xcache_size plain_cache ≤ 128
unfolding xcache_size
cache_enough = omega arith

decode_attrs-encode_xattrs_example :
    let (left, inode') = decode_attrs 0 empty_inode (encode_xattrs 0 some_inode 20) in
    (left ≡ some [])
    × (inode'.xcache ≡ some (record { maxsize = 128; xattrs = plain_cache.xattrs }))
decode_attrs-encode_xattrs_example =
    decode_attrs-encode_xattrs 0 20 128 some_inode empty_inode plain_cache (omega arith) refl
      (omega arith, omega arith, (omega arith, omega arith, tt)) xsize_enough cache_enough refl

abbrev log_block : Log
log_block = record { blocksize = 64; finished = []; current = some [] }

log_block-IsWithin : IsWithin log_block
log_block-IsWithin = record { finished = tt; current = λ data_ e. empty_within data_ e }
  where
    empty_within : (data_ : List ℕ) → some [] ≡ some data_ → 16 + length data_ ≤ 64
    empty_within data_ e =
        let same : 0 ≡ length data_ = ap length (some-injective [] data_ e) in omega arith

is_balloc : entry_code (balloc_entry 0x1234 7) ≢ log_bnode_split_code
unfolding entry_code code_number
is_balloc e =
    let numbers : code_number log_balloc_code ≡ code_number log_bnode_split_code =
      ap code_number e in
    let literal : 0x33 ≡ 0x39 = numbers in omega (arith, literal)

log_entry-Logged_example :
    (log' : Log) × ((log_entry (balloc_entry 0x1234 7) log_block ≡ some log')
      × Logged log_block (entry_bytes (balloc_entry 0x1234 7)) log')
log_entry-Logged_example =
    log_entry-Logged (balloc_entry 0x1234 7) log_block log_block-IsWithin (omega arith) is_balloc
      (unfold IsLoggable in omega arith)

abbrev full_block : Log
full_block = record { blocksize = 32; finished = []; current = some (1 ∷ []) }

log_bnode_split-overflow_example : log_bnode_split 1 2 3 full_block ≡ none
log_bnode_split-overflow_example =
    log_bnode_split-overflow full_block (1 ∷ []) 1 2 3 refl (omega arith) (omega arith)

abbrev two_entries : List Entry
two_entries = balloc_entry 11 4 ∷ bnode_add_entry 1 2 3 ∷ []

abbrev logged_block : LogBlock
logged_block = record {
  magic = 0x10ad;
  bytes = length (payload two_entries);
  logchain = 0;
  data_ = payload two_entries ++ (0 ∷ 0 ∷ []);
}

abbrev empty_volume : Sb
empty_volume = record {
  blockbits = 0;
  volblocks = 16;
  freeblocks = 16;
  nextalloc = 0;
  bitmap = λ b. some (λ j. 0);
}

two_entries-AllReplayed : AllReplayed two_entries
unfolding IsReplayed
two_entries-AllReplayed = ((omega arith, omega arith), (tt, tt))

replay-apply_all_example :
    replay (λ block. ok logged_block) 1 5 empty_volume
    ≡ some (ok tt, apply_all (two_entries ∷ []) empty_volume)
unfolding oldest_first
replay-apply_all_example =
    replay-apply_all (λ block. ok logged_block) 5 (logged_block ∷ []) (two_entries ∷ [])
      empty_volume (refl, refl, tt)
      (
        record { pad = 0 ∷ 0 ∷ []; whole = refl; size = refl; replayed = two_entries-AllReplayed },
        tt,
      )

abbrev split_block : LogBlock
split_block = record {
  magic = 0x10ad;
  bytes = length (payload two_entries) + 17;
  logchain = 0;
  data_ = payload two_entries ++ (entry_bytes (bnode_split_entry 1 2 3) ++ (0 ∷ []));
}

split_covered : length split_block.data_ ≤ split_block.bytes + 1
unfolding payload entry_bytes entry_fields
split_covered = omega arith

replay-rejected_example :
    replay (λ block. ok split_block) 1 5 empty_volume ≡ some (err einval, empty_volume)
unfolding oldest_first
replay-rejected_example =
    replay-rejected (λ block. ok split_block) 5 (split_block ∷ []) [] [] [] split_block two_entries
      (bnode_split_entry 1 2 3) (0 ∷ []) empty_volume (refl, refl, tt) refl tt
      two_entries-AllReplayed tt refl split_covered

abbrev small_stash : Stash
small_stash = record { per_page = 2; pages = (1 ∷ 2 ∷ []) ∷ (3 ∷ 9 ∷ []) ∷ []; pos = 1 }

-- Its last page is full.
abbrev full_stash : Stash
full_stash = record small_stash { pos = 2 }

small_stash-IsStash : IsStash small_stash
small_stash-IsStash = record {
  some_slot = omega arith;
  whole = (refl, (refl, tt));
  within = omega arith;
}

full_stash-IsStash : IsStash full_stash
full_stash-IsStash = record {
  some_slot = omega arith;
  whole = (refl, (refl, tt));
  within = omega arith;
}

stash_value-ValueOutcome_example :
    ValueOutcome (some (7 ∷ 7 ∷ [])) full_stash 4 (stash_value (some (7 ∷ 7 ∷ [])) full_stash 4)
stash_value-ValueOutcome_example =
    stash_value-ValueOutcome (some (7 ∷ 7 ∷ [])) full_stash 4 full_stash-IsStash
      (unfold IsPage in refl)

-- Appends a digit, and fails at 3.
abbrev add_up : ℕ → ℕ → Result (Unit {0}) × ℕ
add_up total value = (if value == 3 then err eio else ok tt, total * 10 + value)

unstash-act_all_example :
    (stash' : Stash) × ((unstash add_up small_stash 0 ≡ (
      (act_all add_up (values 1 small_stash.pages) 0).0,
      stash',
      (act_all add_up (values 1 small_stash.pages) 0).1,
    ))
      × (IsStash stash'
          × UnstashOutcome small_stash stash' (act_all add_up (values 1 small_stash.pages) 0).0))
unstash-act_all_example = unstash-act_all add_up small_stash 0 small_stash-IsStash
