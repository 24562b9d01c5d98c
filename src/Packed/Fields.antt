-- ===== src/Packed/Fields.antt =====
-- Packed words give back the fields that they were made of.
use tux.Base.{
  ℕ, ◌+◌, ◌-◌, ◌*◌, ◌/◌, ◌%◌, ◌^◌, ◌≤◌, ◌<◌, ◌≡◌, arith, bit_or, none, some, ltb, leb, ◌&&◌,
  if◌then◌else◌, Bool-cases, inl, inr,
}
use tux.Base.Bits.{bit_and_ones, bit_or_fields, bit_or_fields_left}
use tux.Packed.{
  make_group, group_keyhi, group_count, set_group_count, inc_group_count, make_entry, entry_keylo,
  entry_limit, inc_entry_limit, make_extent, extent_block, extent_count, extent_version, get_index,
  Root, pack_root, unpack_root,
}

make_group_value :
    (keyhi count : ℕ)
    → keyhi < 2 ^ 24
    → count < 256
    → make_group keyhi count ≡ keyhi + count * 2 ^ 24
unfolding make_group
make_group_value keyhi count h k =
    let whole : count * 2 ^ 24 % 2 ^ 32 ≡ count * 2 ^ 24 = omega arith in
    rw whole (omega (arith, bit_or_fields 24 keyhi count h))

make_entry_value :
    (keylo limit : ℕ)
    → keylo < 2 ^ 24
    → limit < 256
    → make_entry keylo limit ≡ keylo + limit * 2 ^ 24
unfolding make_entry
make_entry_value keylo limit h k =
    let whole : limit * 2 ^ 24 % 2 ^ 32 ≡ limit * 2 ^ 24 = omega arith in
    rw whole (omega (arith, bit_or_fields 24 keylo limit h))

group_keyhi-mod : (group : ℕ) → group_keyhi group ≡ group % 2 ^ 24
unfolding group_keyhi
group_keyhi-mod group = bit_and_ones 24 group

entry_keylo-mod : (entry : ℕ) → entry_keylo entry ≡ entry % 2 ^ 24
unfolding entry_keylo
entry_keylo-mod entry = bit_and_ones 24 entry

-- A group made of a 24-bit key and an 8-bit count shows both; setting the count keeps the key; adding
-- to the count, a negative number included, wraps in its byte and keeps the key.
pub group_fields :
    (keyhi count n : ℕ)
    → keyhi < 2 ^ 24
    → count < 256
    → let group = make_group keyhi count in
      (group_keyhi group ≡ keyhi)
      × (group_count group ≡ count)
      × (group_keyhi (set_group_count group n) ≡ keyhi)
      × (group_count (set_group_count group n) ≡ n % 256)
      × (group_keyhi (inc_group_count group n) ≡ keyhi)
      × (group_count (inc_group_count group n) ≡ (count + n) % 256)
unfolding group_count set_group_count inc_group_count
group_fields keyhi count n h k =
    rw (make_group_value keyhi count h k) (simp group_keyhi-mod (omega arith))

-- The same for an entry, its key and its limit.
pub entry_fields :
    (keylo limit n : ℕ)
    → keylo < 2 ^ 24
    → limit < 256
    → let entry = make_entry keylo limit in
      (entry_keylo entry ≡ keylo)
      × (entry_limit entry ≡ limit)
      × (entry_keylo (inc_entry_limit entry n) ≡ keylo)
      × (entry_limit (inc_entry_limit entry n) ≡ (limit + n) % 256)
unfolding entry_limit inc_entry_limit
entry_fields keylo limit n h k =
    rw (make_entry_value keylo limit h k) (simp entry_keylo-mod (omega arith))

-- A 48-bit key, split into the high half of a group and the low half of an entry, is the index that
-- the two show together.
pub get_index-make :
    (index count limit : ℕ)
    → index < 2 ^ 48
    → count < 256
    → limit < 256
    → get_index (make_group (index / 2 ^ 24) count) (make_entry (index % 2 ^ 24) limit) ≡ index
unfolding get_index
get_index-make index count limit h k l =
    rw
      (
        group_keyhi-mod,
        entry_keylo-mod,
        make_group_value (index / 2 ^ 24) count (omega arith) k,
        make_entry_value (index % 2 ^ 24) limit (omega arith) l,
      )
      (omega (
        arith,
        bit_or_fields_left 24 ((index % 2 ^ 24 + limit * 2 ^ 24) % 2 ^ 24)
            ((index / 2 ^ 24 + count * 2 ^ 24) % 2 ^ 24) (omega arith),
      ))

-- What `make_extent` makes of any address and count, and what it refuses.
pub make_extent_value :
    (block count : ℕ)
    → count < 2 ^ 32
    → make_extent block count ≡ (
        if ltb block (2 ^ 48) && (ltb 0 count && leb count 64)
        then some ((count - 1) * 2 ^ 48 + block)
        else none)
unfolding make_extent
make_extent_value block count wide = elim (Bool-cases (ltb block (2 ^ 48))) [
  | inl h ↦
      let value : bit_or ((count + 2 ^ 32 - 1) % 2 ^ 32 * 2 ^ 48) block
          ≡ (count + 2 ^ 32 - 1) % 2 ^ 32 * 2 ^ 48 + block =
        bit_or_fields_left 48 block ((count + 2 ^ 32 - 1) % 2 ^ 32) (ground arith) in
      rw value (ground arith)
  | inr h ↦ ground arith
]

-- An extent of 1 to 64 blocks at a 48-bit address is made, and the word shows its address and its
-- count, and version 0.
pub extent_fields :
    (block count : ℕ)
    → block < 2 ^ 48
    → 0 < count
    → count ≤ 64
    → (e : ℕ) × (make_extent block count ≡ some e)
      × (extent_block e ≡ block)
      × (extent_count e ≡ count)
      × (extent_version e ≡ 0)
unfolding extent_block extent_count extent_version
extent_fields block count h k l = (
  (count - 1) * 2 ^ 48 + block,
  ground (arith, make_extent_value block count),
  omega (arith, bit_and_ones 48 ((count - 1) * 2 ^ 48 + block)),
  omega (arith, bit_and_ones 6 (((count - 1) * 2 ^ 48 + block) / 2 ^ 48)),
  omega arith,
)

-- A root whose depth has 16 bits and whose block has 48 is unpacked from its packed form.
pub unpack_root-pack_root :
    (root : Root) → root.depth < 2 ^ 16 → root.block < 2 ^ 48 → unpack_root (pack_root root) ≡ root
unfolding pack_root unpack_root
unpack_root-pack_root root h k =
    let whole : root.depth * 2 ^ 48 % 2 ^ 64 ≡ root.depth * 2 ^ 48 = omega arith in
    rw (whole, bit_or_fields_left 48 root.block root.depth k)
      (ground (arith, bit_and_ones 48 (root.depth * 2 ^ 48 + root.block)))
