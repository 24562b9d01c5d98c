-- ===== src/Atoms.antt =====
-- The atoms of extended attribute names (user/kernel/xattr.c): their reference counts, the reverse map
-- and the free ones. The tables are blocks of one file, here a function for each; a block that cannot
-- be read is `none`. The last step of `use_atom`, deleting the name's directory entry, is not included.
mod Counts
mod Uses
mod Examples
use tux.Base.{
  ℕ, ◌+◌, ◌-◌, ◌*◌, ◌/◌, ◌%◌, ◌^◌, ◌==◌, ltb, leb, not, ◌&&◌, ◌||◌, if◌then◌else◌, Bool, true,
  false, Option, none, some,
}
use tux.Errno.{Result, ok, err, eio}

-- `refs` are the blocks of 16-bit counts and `unatoms` those of 64-bit words of the reverse map.
pub record Atable : Type 0 where
  pub refs : ℕ → Option (ℕ → ℕ)
  pub unatoms : ℕ → Option (ℕ → ℕ)
  pub freeatom : ℕ
  pub atomgen : ℕ
  pub atomref_base : ℕ
  pub unatom_base : ℕ
  pub blockbits : ℕ

unfoldable pub set_word : (ℕ → Option (ℕ → ℕ)) → ℕ → (ℕ → ℕ) → ℕ → ℕ → ℕ → Option (ℕ → ℕ)
set_word blocks block words offset value =
    λ b. if b == block then some (λ i. if i == offset then value else words i) else blocks b

-- The low count's block and the offset of an atom in it; the high count stands in the next block.
unfoldable pub ref_block : Atable → ℕ → ℕ
ref_block table atom = table.atomref_base + 2 * (atom / 2 ^ (table.blockbits - 1))

unfoldable pub ref_offset : Atable → ℕ → ℕ
ref_offset table atom = atom % 2 ^ (table.blockbits - 1)

-- `blockread_unatom`: the block and the offset of an atom's reverse map.
unfoldable pub unatom_block : Atable → ℕ → ℕ
unatom_block table atom = table.unatom_base + atom / 2 ^ (table.blockbits - 3)

unfoldable pub unatom_offset : Atable → ℕ → ℕ
unatom_offset table atom = atom % 2 ^ (table.blockbits - 3)

-- `low >> 16` of a 32-bit int, which keeps the sign.
unfoldable pub carry : ℕ → ℕ
carry low = if ltb low (2 ^ 31) then low / 2 ^ 16 else low / 2 ^ 16 + (2 ^ 32 - 2 ^ 16)

-- The counts after a use, with whether the atom is to be deleted. An int is its 32 bits.
unfoldable pub use_counts : ℕ → ℕ → ℕ → ℕ × ℕ × Bool
unfolding carry
use_counts lowref highref count =
    let low = (lowref + count) % 2 ^ 32 in
    let high = (highref + carry low) % 2 ^ 32 in
    if low == 0 || leb (2 ^ 16) low
    then (low % 2 ^ 16, high % 2 ^ 16, low == 0 && high == 0)
    else (low % 2 ^ 16, highref, false)

-- `use_atom` but for what follows when it tells to delete the atom; `count` is the int that is added. The block of the high counts is read only for a carry.
unfoldable pub use_refs : Atable → ℕ → ℕ → Result Bool × Atable
use_refs table atom count =
    let block = ref_block table atom in
    let offset = ref_offset table atom in
    elim (table.refs block) [
      | none ↦ (err eio, table)
      | some lows ↦
          let low = (lows offset + count) % 2 ^ 32 in
          let stored = set_word table.refs block lows offset (low % 2 ^ 16) in
          if not (low == 0 || leb (2 ^ 16) low)
          then (ok false, record table { refs = stored })
          else elim (table.refs (block + 1)) [
            | none ↦ (err eio, record table { refs = stored })
            | some highs ↦
                let (_, high, kill) = use_counts (lows offset) (highs offset) count in
                (ok kill, record table { refs = set_word stored (block + 1) highs offset high })
          ]
    ]

-- The end of `use_atom` for an atom without a reference: it goes to the front of the free atoms. The
-- result is where its directory entry stands, which `use_atom` then deletes.
unfoldable pub free_atom : Atable → ℕ → Option ℕ × Atable
free_atom table atom =
    let block = unatom_block table atom in
    let offset = unatom_offset table atom in
    elim (table.unatoms block) [
      | none ↦ (none, table)
      | some words ↦ (
        some (words offset),
        record table {
          unatoms = set_word table.unatoms block words offset (table.freeatom + 0xdead * 2 ^ 48);
          freeatom = atom;
        },
      )
    ]

-- `none` is the -1 of a broken chain of free atoms.
unfoldable pub get_freeatom : Atable → Option ℕ × Atable
get_freeatom table =
    if table.freeatom == 0
    then (some table.atomgen, record table { atomgen = (table.atomgen + 1) % 2 ^ 32 })
    else elim (table.unatoms (unatom_block table table.freeatom)) [
      | none ↦ (none, table)
      | some words ↦
          let next = words (unatom_offset table table.freeatom) in
          if not (next / 2 ^ 48 == 0xdead)
          then (none, table)
          else (some table.freeatom, record table { freeatom = next % 2 ^ 48 % 2 ^ 32 })
    ]
