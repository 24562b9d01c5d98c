-- ===== src/Dir/Find.antt =====
-- `tux_find_entry` after `tux_create_entry` (user/kernel/dir.c), in a block.
use tux.Base.{
  ℕ, ◌+◌, ◌-◌, ◌^◌, ◌≤◌, ◌<◌, ◌≡◌, refl, ◌∙◌, arith, ltb, leb, ◌==◌, ◌&&◌, ◌||◌, Bool-cases, inl,
  inr, true, false, Option, none, some, List, [], ◌∷◌, ◌++◌, length,
}
use tux.Errno.{Result, ok, err, eio}
use tux.Dir.{
  Dirent, tux_rec_len, tux_rec_len_from_disk, tux_rec_len_to_disk, is_deleted, place_entry,
  create_in_block, same_bytes, tux_match, find_in_block, type_by_mode,
}
use tux.Dir.Chain.{
  IsRecord, AreRecords, chain_size, Places, keep_entry-Places, from_disk-to_disk, tux_rec_len_align,
  tux_rec_len_pos, cut_name_short,
}

same_bytes_refl : (name : List ℕ) → same_bytes name name ≡ true
unfolding same_bytes
same_bytes_refl [] = refl
same_bytes_refl (x ∷ xs) = ground (arith, same_bytes_refl xs)

-- An entry matches its own name, unless it is empty.
tux_match_self : (entry : Dirent) → 0 < length entry.name → tux_match entry entry.name ≡ true
unfolding tux_match is_deleted
tux_match_self entry h = ground (arith, same_bytes_refl entry.name)

-- What `find_in_block` finds of a name in a chain from offset `at` on, with the number it gives.
abbrev pub Finds : ℕ → List ℕ → ℕ → ℕ → ℕ → List Dirent → Type 0
Finds blocksize name inum at place chain =
    (entry : Dirent) × (find_in_block blocksize name at chain ≡ ok (some (place, entry)))
    × (entry.inum ≡ inum)
    × (entry.name ≡ name)

find_in_block-head :
    (blocksize : ℕ) (name : List ℕ) (at : ℕ) (entry : Dirent) (entries : List Dirent)
    → at + tux_rec_len (length name) ≤ blocksize
    → 0 < entry.rec_len
    → tux_match entry name ≡ true
    → find_in_block blocksize name at (entry ∷ entries) ≡ ok (some (at, entry))
unfolding find_in_block
find_in_block-head blocksize name at entry entries fits good is =
    let in_block : ltb blocksize (at + tux_rec_len (length name)) ≡ false = ground arith in
    let nonzero : (entry.rec_len == 0) ≡ false = ground arith in rw (in_block, nonzero, is) refl

find_in_block-tail :
    (blocksize : ℕ) (name : List ℕ) (at : ℕ) (entry : Dirent) (entries : List Dirent)
    → at + tux_rec_len (length name) ≤ blocksize
    → 0 < entry.rec_len
    → tux_match entry name ≡ false
    → find_in_block blocksize name at (entry ∷ entries)
      ≡ find_in_block blocksize name (at + tux_rec_len_from_disk entry.rec_len) entries
unfolding find_in_block
find_in_block-tail blocksize name at entry entries fits good is =
    let in_block : ltb blocksize (at + tux_rec_len (length name)) ≡ false = ground arith in
    let nonzero : (entry.rec_len == 0) ≡ false = ground arith in rw (in_block, nonzero, is) refl

-- A search that finds nothing has not matched the first entry, and finds nothing behind it.
find_in_block-none :
    (blocksize : ℕ) (name : List ℕ) (at : ℕ) (entry : Dirent) (entries : List Dirent)
    → at + tux_rec_len (length name) ≤ blocksize
    → find_in_block blocksize name at (entry ∷ entries) ≡ ok none
    → (tux_match entry name ≡ false)
      × (find_in_block blocksize name (at + tux_rec_len_from_disk entry.rec_len) entries ≡ ok none)
unfolding find_in_block
find_in_block-none blocksize name at entry entries fits h =
    let in_block : ltb blocksize (at + tux_rec_len (length name)) ≡ false = ground arith in
    elim (Bool-cases (entry.rec_len == 0)) [
      | inl bad ↦
          let e : ◌≡◌ {A = Result (Option (ℕ × Dirent))} (err eio) (ok none) =
            rw (in_block, bad) at h in
          ground arith
      | inr good ↦ elim (Bool-cases (tux_match entry name)) [
        | inl is ↦
            let e : ◌≡◌ {A = Result (Option (ℕ × Dirent))} (ok (some (at, entry))) (ok none) =
              rw (in_block, good, is) at h in
            ground arith
        | inr other ↦ (other, rw (in_block, good, other) at h)
      ]
    ]

pub rec_len_pos : (len : ℕ) → 0 < tux_rec_len_from_disk len → 0 < len
unfolding tux_rec_len_from_disk
rec_len_pos len h = ground arith

-- The match of an entry looks at its name only.
tux_match-name :
    (entry : Dirent) (len : ℕ) (name : List ℕ)
    → tux_match (record entry { rec_len = len }) name ≡ tux_match entry name
unfolding tux_match is_deleted
tux_match-name entry len name = refl

pub place_entry-Finds :
    (blocksize at inum mode : ℕ) (name : List ℕ) (entry : Dirent) (entries : List Dirent)
    → IsRecord entry
    → 0 < entry.rec_len
    → at + tux_rec_len_from_disk entry.rec_len ≤ blocksize
    → blocksize ≤ 2 ^ 16
    → at + tux_rec_len (length name) ≤ blocksize
    → 0 < length name
    → length name < 256
    → tux_match entry name ≡ false
    → ((is_deleted entry && leb (tux_rec_len (length name)) (tux_rec_len_from_disk entry.rec_len))
        || leb
            (tux_rec_len (length entry.name) + tux_rec_len (length name))
            (tux_rec_len_from_disk entry.rec_len))
      ≡ true
    → Finds blocksize name inum at
        (place_entry entry at name inum mode).0
        ((place_entry entry at name inum mode).1 ++ entries)
unfolding place_entry
place_entry-Finds blocksize at inum mode name entry entries h good inside short fits long byte other
      room =
    let name_len = tux_rec_len (length entry.name) in
    let rec_len = tux_rec_len_from_disk entry.rec_len in
    let align = h.align in
    let whole = tux_rec_len_align (length entry.name) in
    let first_pos = tux_rec_len_pos (length entry.name) in
    let same = cut_name_short name byte in
    elim (Bool-cases (is_deleted entry)) [
      | inl gone ↦
          let placed : Dirent = record entry {
            inum = inum;
            kind = type_by_mode mode;
            name = name;
          } in
          rw (same, gone)
            (
              placed,
              find_in_block-head blocksize name at placed entries fits good
                  (tux_match_self placed long),
              refl,
              refl,
            )
      | inr here ↦
          let more : name_len + tux_rec_len (length name) ≤ rec_len = ground arith in
          let second_pos = tux_rec_len_pos (length name) in
          let first = from_disk-to_disk name_len (omega arith) whole in
          let second = from_disk-to_disk (rec_len - name_len) (omega arith) (omega arith) in
          let kept : Dirent = record entry { rec_len = tux_rec_len_to_disk name_len } in
          let placed : Dirent = record {
            inum = inum;
            rec_len = tux_rec_len_to_disk (rec_len - name_len);
            kind = type_by_mode mode;
            name = name;
          } in
          let pass =
            find_in_block-tail blocksize name at kept (placed ∷ entries) fits
              (rec_len_pos (tux_rec_len_to_disk name_len) (omega arith))
              (tux_match-name entry (tux_rec_len_to_disk name_len) name ∙ other) in
          let found =
            find_in_block-head blocksize name (at + name_len) placed entries (omega arith)
              (rec_len_pos (tux_rec_len_to_disk (rec_len - name_len)) (omega arith))
              (tux_match_self placed long) in
          rw (same, here) (placed, pass ∙ (rw first found), refl, refl)
    ]

pub create_in_block-Finds :
    (blocksize inum mode at : ℕ) (name : List ℕ) (entries : List Dirent)
    → AreRecords entries
    → at + chain_size entries ≡ blocksize
    → blocksize ≤ 2 ^ 16
    → 0 < length name
    → length name < 256
    → find_in_block blocksize name at entries ≡ ok none
    → Places (Finds blocksize name inum at) (create_in_block blocksize name inum mode at entries)
unfolding create_in_block
create_in_block-Finds blocksize inum mode at name [] h size short long byte none_ = tt
create_in_block-Finds blocksize inum mode at name (entry ∷ entries) (h, records) size short long
      byte none_ =
    let reclen = tux_rec_len (length name) in
    let rec_len = tux_rec_len_from_disk entry.rec_len in
    elim (Bool-cases (ltb blocksize (at + reclen))) [
      | inl past ↦ rw past tt
      | inr in_block ↦
          let fits : at + reclen ≤ blocksize = ground arith in
          let (other, behind) = find_in_block-none blocksize name at entry entries fits none_ in
          elim (Bool-cases (entry.rec_len == 0)) [
            | inl bad ↦ rw (in_block, bad) tt
            | inr good ↦
                let positive : 0 < entry.rec_len = ground arith in
                let rest =
                  create_in_block-Finds blocksize inum mode (at + rec_len) name entries records
                    (omega arith) short long byte behind in
                elim (Bool-cases (
                  (is_deleted entry && leb reclen rec_len)
                  || leb (tux_rec_len (length entry.name) + reclen) rec_len)) [
                    | inl room ↦
                        rw (in_block, good, room)
                          (place_entry-Finds blocksize at inum mode name entry entries h positive
                            (omega arith) short fits long byte other room)
                    | inr full ↦
                        rw (in_block, good, full)
                          (keep_entry-Places _ _ entry _
                            (λ place chain found. (
                              found.0,
                              find_in_block-tail blocksize name at entry chain fits positive other
                                  ∙ found.1,
                              found.2,
                              found.3,
                            ))
                            rest)
                  ]
          ]
    ]
