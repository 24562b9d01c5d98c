-- ===== src/Dir.antt =====
-- Directories (user/kernel/dir.c): finding, creating and deleting entries. A block is the chain of
-- its entries, each at the sum of the record lengths before it; a block that cannot be read is `none`.
-- Times, dirty marks and `tux_readdir`, which calls back into the VFS, are left out.
mod Chain
mod Delete
mod Find
mod Whole
mod Examples
use tux.Base.{
  ℕ, zero, suc, ◌+◌, ◌-◌, ◌*◌, ◌/◌, ◌%◌, ◌^◌, ◌==◌, leb, ltb, if◌then◌else◌, Bool, not, true, false,
  ◌&&◌, ◌||◌, Option, none, some, List, [], ◌∷◌, ◌++◌, length, take,
}
use tux.Errno.{Result, ok, err, eio, enoent, enotempty}

-- `name` is the bytes that `name_len` counts, which is 8 bits wide; `rec_len` is the number on disk.
pub record Dirent : Type 0 where
  pub inum : ℕ
  pub rec_len : ℕ
  pub kind : ℕ
  pub name : List ℕ

-- TUX_REC_LEN, with the 12 bytes before a name.
unfoldable pub tux_rec_len : ℕ → ℕ
tux_rec_len name_len = (name_len + 12 + 7) / 8 * 8

unfoldable pub tux_rec_len_from_disk : ℕ → ℕ
tux_rec_len_from_disk dlen = if dlen == 2 ^ 16 - 1 then 2 ^ 16 else dlen

unfoldable pub tux_rec_len_to_disk : ℕ → ℕ
tux_rec_len_to_disk len = if len == 2 ^ 16 then 2 ^ 16 - 1 else len % 2 ^ 16

unfoldable pub is_deleted : Dirent → Bool
is_deleted entry = length entry.name == 0

unfoldable pub same_bytes : List ℕ → List ℕ → Bool
same_bytes [] [] = true
same_bytes (x ∷ xs) (y ∷ ys) = let rest = same_bytes xs ys in if x == y then rest else false
same_bytes _ _ = false

unfoldable pub tux_match : Dirent → List ℕ → Bool
unfolding is_deleted same_bytes
tux_match entry name =
    if not (length name == length entry.name)
    then false
    else if is_deleted entry
    then false
    else same_bytes name entry.name

-- `tux_type_by_mode[(mode & S_IFMT) >> STAT_SHIFT]`
unfoldable pub type_by_mode : ℕ → ℕ
type_by_mode mode =
    let format = mode / 2 ^ 12 % 16 in
    if format == 8
    then 1
    else if format == 4
    then 2
    else if format == 2
    then 3
    else if format == 6
    then 4
    else if format == 1
    then 5
    else if format == 12
    then 6
    else if format == 10
    then 7
    else 0

-- The search in a block from offset `at` on: the offset and the entry.
unfoldable pub find_in_block : ℕ → List ℕ → ℕ → List Dirent → Result (Option (ℕ × Dirent))
find_in_block blocksize name at [] = ok none
find_in_block blocksize name at (entry ∷ entries) =
    let rest = find_in_block blocksize name (at + tux_rec_len_from_disk entry.rec_len) entries in
    if ltb blocksize (at + tux_rec_len (length name))
    then ok none
    else if entry.rec_len == 0
    then err eio
    else if tux_match entry name
    then ok (some (at, entry))
    else rest

-- The blocks from `block` on, by the rounds left: the block, the offset and the entry.
unfoldable pub find_in_blocks :
    ℕ → ℕ → List ℕ → ℕ → (ℕ → Option (List Dirent)) → Result (ℕ × ℕ × Dirent)
find_in_blocks zero blocksize name block dir = err enoent
find_in_blocks (suc rounds) blocksize name block dir =
    let rest = find_in_blocks rounds blocksize name (block + 1) dir in
    elim (dir block) [
      | none ↦ err eio
      | some entries ↦ elim (find_in_block blocksize name 0 entries) [
        | err e ↦ err e
        | ok found ↦ elim found [ none ↦ rest | some (at, entry) ↦ ok (block, at, entry) ]
      ]
    ]

unfoldable pub tux_find_entry :
    ℕ → ℕ → List ℕ → (ℕ → Option (List Dirent)) → Result (ℕ × ℕ × Dirent)
tux_find_entry blockbits size name dir =
    find_in_blocks (size / 2 ^ blockbits) (2 ^ blockbits) name 0 dir

-- The part of a name that `name_len` counts once the length is cut to 8 bits. The bytes behind it are
-- not read again.
unfoldable pub cut_name : List ℕ → List ℕ
cut_name name = take (length name % 2 ^ 8) name

-- A new entry in the place of a deleted one, or behind the name of another: its offset and the entries
-- that replace the old one.
unfoldable pub place_entry : Dirent → ℕ → List ℕ → ℕ → ℕ → ℕ × List Dirent
unfolding cut_name
place_entry entry at name inum mode =
    let name_len = tux_rec_len (length entry.name) in
    let rec_len = tux_rec_len_from_disk entry.rec_len in
    if is_deleted entry
    then (at, record entry { inum = inum; kind = type_by_mode mode; name = cut_name name } ∷ [])
    else (
      at + name_len,
      record entry { rec_len = tux_rec_len_to_disk name_len }
          ∷ record {
            inum = inum;
            rec_len = tux_rec_len_to_disk (rec_len - name_len);
            kind = type_by_mode mode;
            name = cut_name name;
          }
          ∷ [],
    )

-- An entry before those of a result.
unfoldable pub keep_entry :
    Dirent → Result (Option (ℕ × List Dirent)) → Result (Option (ℕ × List Dirent))
keep_entry entry (err e) = err e
keep_entry entry (ok none) = ok none
keep_entry entry (ok (some (place, chain))) = ok (some (place, entry ∷ chain))

-- The search for room in a block from offset `at` on.
unfoldable pub create_in_block :
    ℕ → List ℕ → ℕ → ℕ → ℕ → List Dirent → Result (Option (ℕ × List Dirent))
create_in_block blocksize name inum mode at [] = ok none
create_in_block blocksize name inum mode at (entry ∷ entries) =
    let reclen = tux_rec_len (length name) in
    let name_len = tux_rec_len (length entry.name) in
    let rec_len = tux_rec_len_from_disk entry.rec_len in
    let (where_, placed) = place_entry entry at name inum mode in
    let rest = create_in_block blocksize name inum mode (at + rec_len) entries in
    if ltb blocksize (at + reclen)
    then ok none
    else if entry.rec_len == 0
    then err eio
    else if (is_deleted entry && leb reclen rec_len) || leb (name_len + reclen) rec_len
    then ok (some (where_, placed ++ entries))
    else keep_entry entry rest

unfoldable pub create_in_blocks :
    ℕ → ℕ → List ℕ → ℕ → ℕ → ℕ → (ℕ → Option (List Dirent)) → Result (Option (ℕ × ℕ × List Dirent))
create_in_blocks zero blocksize name inum mode block dir = ok none
create_in_blocks (suc rounds) blocksize name inum mode block dir =
    let rest = create_in_blocks rounds blocksize name inum mode (block + 1) dir in
    elim (dir block) [
      | none ↦ err eio
      | some entries ↦ elim (create_in_block blocksize name inum mode 0 entries) [
        | err e ↦ err e
        | ok found ↦ elim found [ none ↦ rest | some (at, chain) ↦ ok (some (block, at, chain)) ]
      ]
    ]

-- The result is the 32-bit position in the file, the new size and the new blocks. Without room a block that
-- is one empty record is added.
unfoldable pub tux_create_entry :
    ℕ
    → ℕ
    → List ℕ
    → ℕ
    → ℕ
    → (ℕ → Option (List Dirent))
    → Result (ℕ × ℕ × (ℕ → Option (List Dirent)))
tux_create_entry blockbits size name inum mode dir =
    let blocksize = 2 ^ blockbits in
    let blocks = size / blocksize in
    let empty_block : Dirent = record {
      inum = 0;
      rec_len = tux_rec_len_to_disk blocksize;
      kind = 0;
      name = [];
    } in
    elim (create_in_blocks blocks blocksize name inum mode 0 dir) [
      | err e ↦ err e
      | ok found ↦ elim found [
        | none ↦
            let (at, chain) = place_entry empty_block 0 name inum mode in
            ok (
              (blocks * blocksize + at) % 2 ^ 32,
              size + blocksize,
              λ block. if block == blocks then some chain else dir block,
            )
        | some (where_, at, chain) ↦ ok (
          (where_ * blocksize + at) % 2 ^ 32,
          size,
          λ block. if block == where_ then some chain else dir block,
        )
      ]
    ]

unfoldable pub keep_deleted : Dirent → Option (Result (List Dirent)) → Option (Result (List Dirent))
keep_deleted prev none = none
keep_deleted prev (some (err e)) = some (err e)
keep_deleted prev (some (ok chain)) = some (ok (prev ∷ chain))

-- `tux_delete_entry` of the entry number `n` of a block: its record joins the one before it. `none` is
-- an entry that the chain does not have.
unfoldable pub tux_delete_entry : List Dirent → ℕ → Option (Result (List Dirent))
tux_delete_entry [] n = none
tux_delete_entry (entry ∷ entries) zero =
    some (ok (record entry { inum = 0; kind = 0; name = [] } ∷ entries))
tux_delete_entry (prev ∷ []) (suc n) = none
tux_delete_entry (prev ∷ entry ∷ entries) (suc zero) =
    if prev.rec_len == 0
    then some (err eio)
    else some (
        ok (
          record prev {
            rec_len =
                tux_rec_len_to_disk
                  (tux_rec_len_from_disk prev.rec_len + tux_rec_len_from_disk entry.rec_len);
          }
          ∷ entries))
tux_delete_entry (prev ∷ entry ∷ entries) (suc (suc n)) =
    let rest = tux_delete_entry (entry ∷ entries) (suc n) in
    if prev.rec_len == 0 then some (err eio) else keep_deleted prev rest

-- An entry that keeps a directory from being empty: neither deleted, nor `.` with the directory's own
-- number, nor `..`.
unfoldable pub is_occupied : ℕ → Dirent → Bool
is_occupied self entry = elim entry.name [
  | [] ↦ false
  | first ∷ rest ↦ if not (first == 0x2e) then true else elim rest [
    | [] ↦ not (entry.inum == self)
    | second ∷ more ↦ if not (length more == 0) then true else not (second == 0x2e)
  ]
]

unfoldable pub empty_in_block : ℕ → ℕ → ℕ → List Dirent → Result (Unit {0})
empty_in_block blocksize self at [] = ok tt
empty_in_block blocksize self at (entry ∷ entries) =
    let rest = empty_in_block blocksize self (at + tux_rec_len_from_disk entry.rec_len) entries in
    if ltb blocksize (at + tux_rec_len 1)
    then ok tt
    else if entry.rec_len == 0
    then err eio
    else if is_occupied self entry
    then err enotempty
    else rest

unfoldable pub empty_blocks : ℕ → ℕ → ℕ → ℕ → (ℕ → Option (List Dirent)) → Result (Unit {0})
empty_blocks zero blocksize self block dir = ok tt
empty_blocks (suc rounds) blocksize self block dir =
    let rest = empty_blocks rounds blocksize self (block + 1) dir in
    elim (dir block) [
      | none ↦ err eio
      | some entries ↦ elim (empty_in_block blocksize self 0 entries) [
        | err e ↦ err e
        | ok _ ↦ rest
      ]
    ]

unfoldable pub tux_dir_is_empty : ℕ → ℕ → ℕ → (ℕ → Option (List Dirent)) → Result (Unit {0})
tux_dir_is_empty blockbits size self dir =
    empty_blocks (size / 2 ^ blockbits) (2 ^ blockbits) self 0 dir
