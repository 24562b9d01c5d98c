-- ===== src/Dir/Examples.antt =====
-- A block of 64 bytes with one entry, and one that an entry is deleted from.
use tux.Base.{
  ℕ, ◌+◌, ◌*◌, ◌%◌, ◌^◌, ◌≡◌, ◌==◌, refl, arith, Option, some, none, if◌then◌else◌, List, [], ◌∷◌,
}
use tux.Errno.{ok}
use tux.Dir.{
  tux_find_entry, tux_create_entry, create_in_blocks, Dirent, tux_rec_len, tux_rec_len_from_disk,
  tux_rec_len_to_disk, place_entry, cut_name, create_in_block, keep_entry, find_in_block, tux_match,
  same_bytes, is_deleted, tux_delete_entry, type_by_mode,
}
use tux.Dir.Chain.{IsChain, create_in_block-IsChain}
use tux.Dir.Delete.{Deleted, tux_delete_entry-IsChain}
use tux.Dir.Whole.{IsAbsent, tux_find_entry-tux_create_entry}

abbrev record_of : ℕ → ℕ → List ℕ → Dirent
record_of inum rec_len name = record { inum = inum; rec_len = rec_len; kind = 1; name = name }

abbrev one_entry : List Dirent
one_entry = record_of 5 64 (97 ∷ []) ∷ []

abbrev two_entries : List Dirent
two_entries = record_of 5 16 (97 ∷ []) ∷ record_of 7 48 (98 ∷ 99 ∷ []) ∷ []

one_entry-IsChain : IsChain 64 one_entry
unfolding tux_rec_len tux_rec_len_from_disk
one_entry-IsChain = record {
  records = (record { room = omega arith; align = refl }, tt);
  fills = refl;
  short = omega arith;
}

two_entries-IsChain : IsChain 64 two_entries
unfolding tux_rec_len tux_rec_len_from_disk
two_entries-IsChain = record {
  records = (
    record { room = omega arith; align = refl },
    (record { room = omega arith; align = refl }, tt),
  );
  fills = refl;
  short = omega arith;
}

created : create_in_block 64 (98 ∷ 99 ∷ []) 7 0x8000 0 one_entry ≡ ok (some (16, two_entries))
unfolding create_in_block place_entry cut_name keep_entry tux_rec_len tux_rec_len_from_disk
    tux_rec_len_to_disk is_deleted type_by_mode
created = refl

create_in_block-IsChain_example : IsChain 64 two_entries
create_in_block-IsChain_example =
    create_in_block-IsChain 64 64 7 0x8000 16 (98 ∷ 99 ∷ []) one_entry two_entries one_entry-IsChain
      created

tux_delete_entry-IsChain_example :
    (chain : List Dirent) × ((tux_delete_entry two_entries 1 ≡ some (ok chain))
      × (IsChain 64 chain × Deleted 1 two_entries chain))
tux_delete_entry-IsChain_example =
    tux_delete_entry-IsChain 64 1 two_entries two_entries-IsChain (omega arith)

-- The directory of that one block; the new entry goes into it.
abbrev one_block : ℕ → Option (List Dirent)
one_block block = if block == 0 then some one_entry else none

one_block-IsAbsent : IsAbsent 64 (98 ∷ 99 ∷ []) one_block 0 1
unfolding find_in_block tux_match is_deleted same_bytes tux_rec_len tux_rec_len_from_disk
one_block-IsAbsent = record {
  entries = λ i. one_entry;
  read = λ i lt. ground arith;
  chain = λ i lt. one_entry-IsChain;
  misses = λ i lt. refl;
}

abbrev one_block_after : ℕ → Option (List Dirent)
one_block_after block = if block == 0 then some two_entries else one_block block

tux_find_entry-tux_create_entry_example :
    (block : ℕ) × (at : ℕ) × (entry : Dirent) × (tux_find_entry 6 64 (98 ∷ 99 ∷ []) one_block_after
      ≡ ok (block, at, entry))
    × (16 ≡ (block * 64 + at) % 2 ^ 32)
    × (entry.inum ≡ 7)
    × (entry.name ≡ 98 ∷ 99 ∷ [])
unfolding tux_rec_len tux_create_entry create_in_blocks create_in_block place_entry cut_name
    keep_entry tux_rec_len_from_disk tux_rec_len_to_disk is_deleted type_by_mode
tux_find_entry-tux_create_entry_example =
    tux_find_entry-tux_create_entry 6 1 7 0x8000 16 64 (98 ∷ 99 ∷ []) one_block one_block_after
      (omega arith) refl (omega arith) (omega arith) (omega arith) one_block-IsAbsent refl
