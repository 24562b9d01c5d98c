-- ===== src/Atoms/Counts.antt =====
-- The halves of a reference count in `use_atom` (user/kernel/xattr.c), and their places.
use tux.Base.{
  ℕ, ◌+◌, ◌*◌, ◌/◌, ◌%◌, ◌^◌, ◌<◌, ◌≡◌, refl, arith, ltb, leb, ◌==◌, ◌||◌, ◌&&◌, true, false, sym,
  ◌∙◌, Bool-cases, ◌-◌, ◌⊎◌, Option, none, inl, inr, some, if◌then◌else◌,
}
use native.Mathlib.Nat.{div-add-mod'}
use tux.Atoms.{Atable, carry, use_counts, set_word, ref_block, ref_offset}

pub use_counts-sum :
    (lowref highref count : ℕ)
    → lowref < 2 ^ 16
    → highref < 2 ^ 16
    → count < 2 ^ 32
    → let (low, high, kill) = use_counts lowref highref count in
      high * 2 ^ 16 + low ≡ (highref * 2 ^ 16 + lowref + count) % 2 ^ 32
unfolding use_counts carry
use_counts-sum lowref highref count l h c =
    let low = (lowref + count) % 2 ^ 32 in
    elim (Bool-cases (low == 0 || leb (2 ^ 16) low)) [
      | inl far ↦ elim (Bool-cases (ltb low (2 ^ 31))) [
        | inl up ↦ rw (far, up) (omega arith)
        | inr down ↦ rw (far, down) (omega arith)
      ]
      | inr near ↦ rw near (ground arith)
    ]

-- The last reference goes exactly when 1 is taken from a count of 1.
pub use_counts-kill :
    (lowref highref count : ℕ)
    → lowref < 2 ^ 16
    → highref < 2 ^ 16
    → (count ≡ 1) ⊎ (count ≡ 2 ^ 32 - 1)
    → highref * 2 ^ 16 + lowref + 1 < 2 ^ 32
    → (use_counts lowref highref count).2 ≡ (highref * 2 ^ 16 + lowref + count == 2 ^ 32)
unfolding use_counts carry
use_counts-kill lowref highref count l h (inl c) room = ground arith
use_counts-kill lowref highref count l h (inr c) room = ground arith

-- A word of a table, when its block can be read.
unfoldable pub word_at : (ℕ → Option (ℕ → ℕ)) → ℕ → ℕ → Option ℕ
word_at blocks block offset = elim (blocks block) [ none ↦ none | some words ↦ some (words offset) ]

unfoldable pub halves : Option ℕ → Option ℕ → Option ℕ
halves (some low) (some high) = some (high * 2 ^ 16 + low)
halves _ _ = none

-- The reference count of an atom, when both of its blocks can be read.
unfoldable pub refcount : Atable → ℕ → Option ℕ
refcount table atom =
    let block = ref_block table atom in
    let offset = ref_offset table atom in
    halves (word_at table.refs block offset) (word_at table.refs (block + 1) offset)

set_word_hit :
    (blocks : ℕ → Option (ℕ → ℕ)) (block offset value b : ℕ) (words : ℕ → ℕ)
    → (b == block) ≡ true
    → set_word blocks block words offset value b
      ≡ some (λ i. if i == offset then value else words i)
unfolding set_word
set_word_hit blocks block offset value b words e = rw e refl

set_word_miss :
    (blocks : ℕ → Option (ℕ → ℕ)) (block offset value b : ℕ) (words : ℕ → ℕ)
    → (b == block) ≡ false
    → set_word blocks block words offset value b ≡ blocks b
unfolding set_word
set_word_miss blocks block offset value b words e = rw e refl

word_at-set_word :
    (blocks : ℕ → Option (ℕ → ℕ)) (block offset value b i : ℕ) (words : ℕ → ℕ)
    → blocks block ≡ some words
    → word_at (set_word blocks block words offset value) b i
      ≡ (if b == block && i == offset then some value else word_at blocks b i)
unfolding word_at
word_at-set_word blocks block offset value b i words h = elim (Bool-cases (b == block)) [
  | inl e ↦
      let same : b ≡ block = ground arith in
      let read = set_word_hit blocks block offset value b words e in
      let old : blocks b ≡ some words = rw same h in
      elim (Bool-cases (i == offset)) [
        | inl e2 ↦ rw (word_at, read, e, e2) refl
        | inr e2 ↦ rw (word_at, read, e, e2) (rw (word_at, old) refl)
      ]
  | inr e ↦
      let read = set_word_miss blocks block offset value b words e in rw (word_at, read, e) refl
]

same_slot :
    (base size a b : ℕ)
    → (base + 2 * (a / size) == base + 2 * (b / size) && a % size == b % size) ≡ (a == b)
same_slot base size a b = elim (Bool-cases (a == b)) [
  | inl e ↦ let same : a ≡ b = ground arith in rw same (ground arith)
  | inr e ↦ elim (Bool-cases (a / size == b / size)) [
    | inl q ↦ elim (Bool-cases (a % size == b % size)) [
      | inl r ↦
          let q2 : a / size ≡ b / size = ground arith in
          let r2 : a % size ≡ b % size = ground arith in
          let whole : b / size * size + b % size ≡ a = rw⁻¹ q2 (rw⁻¹ r2 (div-add-mod' a size)) in
          let same : a ≡ b = sym whole ∙ div-add-mod' b size in ground arith
      | inr r ↦ ground arith
    ]
    | inr q ↦ ground arith
  ]
]

-- A low count's block is never a high count's.
parity : (base x y : ℕ) → (base + 2 * x + 1 == base + 2 * y) ≡ false
parity base x y = ground arith

parity2 : (base x y : ℕ) → (base + 2 * x == base + 2 * y + 1) ≡ false
parity2 base x y = ground arith

same_next : (a b : ℕ) → (a + 1 == b + 1) ≡ (a == b)
same_next a b = ground arith

module _ (table : Atable) (atom other value : ℕ) (words : ℕ → ℕ) where
  -- The words of another atom's count once a word of this one's is written.
  low_word :
      table.refs (ref_block table atom) ≡ some words
      → word_at
          (set_word table.refs (ref_block table atom) words (ref_offset table atom) value)
          (ref_block table other)
          (ref_offset table other)
        ≡ (if other == atom
            then some value
            else word_at table.refs (ref_block table other) (ref_offset table other))
  unfolding ref_block ref_offset
  low_word h =
      let size = 2 ^ (table.blockbits - 1) in
      rw
        (word_at-set_word table.refs _ (atom % size) value (ref_block table other) (other % size)
          words h)
        (rw (same_slot table.atomref_base size other atom) refl)

  high_word :
      table.refs (ref_block table atom) ≡ some words
      → word_at
          (set_word table.refs (ref_block table atom) words (ref_offset table atom) value)
          (ref_block table other + 1)
          (ref_offset table other)
        ≡ word_at table.refs (ref_block table other + 1) (ref_offset table other)
  unfolding ref_block ref_offset
  high_word h =
      let size = 2 ^ (table.blockbits - 1) in
      rw
        (word_at-set_word table.refs _ (atom % size) value (ref_block table other + 1)
          (other % size) words h)
        (rw (parity table.atomref_base (other / size) (atom / size)) refl)

  -- The same for a word of the next block, of the high counts.
  module _ (refs : ℕ → Option (ℕ → ℕ)) (h : refs (ref_block table atom + 1) ≡ some words) where
    low_word2 :
        word_at
          (set_word refs (ref_block table atom + 1) words (ref_offset table atom) value)
          (ref_block table other)
          (ref_offset table other)
        ≡ word_at refs (ref_block table other) (ref_offset table other)
    unfolding ref_block ref_offset
    low_word2 =
        let size = 2 ^ (table.blockbits - 1) in
        rw
          (word_at-set_word refs _ (atom % size) value (ref_block table other) (other % size) words
            h)
          (rw (parity2 table.atomref_base (other / size) (atom / size)) refl)

    high_word2 :
        word_at
          (set_word refs (ref_block table atom + 1) words (ref_offset table atom) value)
          (ref_block table other + 1)
          (ref_offset table other)
        ≡ (if other == atom
            then some value
            else word_at refs (ref_block table other + 1) (ref_offset table other))
    unfolding ref_block ref_offset
    high_word2 =
        let size = 2 ^ (table.blockbits - 1) in
        rw
          (word_at-set_word refs _ (atom % size) value (ref_block table other + 1) (other % size)
            words h)
          (rw
            (
              same_next (ref_block table other) (ref_block table atom),
              same_slot table.atomref_base size other atom,
            )
            refl)

word_at-read :
    (blocks : ℕ → Option (ℕ → ℕ)) (block offset : ℕ) (words : ℕ → ℕ)
    → blocks block ≡ some words
    → word_at blocks block offset ≡ some (words offset)
unfolding word_at
word_at-read blocks block offset words h = rw (word_at, h) refl

-- The counts after a write of the low half, and of both.
pub refcount-low :
    (table : Atable) (atom other value : ℕ) (lows highs : ℕ → ℕ)
    → table.refs (ref_block table atom) ≡ some lows
    → table.refs (ref_block table atom + 1) ≡ some highs
    → refcount
        (record table {
          refs = set_word table.refs (ref_block table atom) lows (ref_offset table atom) value;
        })
        other
      ≡ (if other == atom
          then some (highs (ref_offset table atom) * 2 ^ 16 + value)
          else refcount table other)
unfolding refcount halves word_at ref_offset set_word ref_block
refcount-low table atom other value lows highs l h =
    rw (low_word table atom other value lows l, high_word table atom other value lows l)
      (elim (Bool-cases (other == atom)) [
        | inl e ↦
            let same : other ≡ atom = ground arith in
            let high =
              word_at-read table.refs (ref_block table atom + 1) (ref_offset table atom) highs h in
            rw (e, same, high) refl
        | inr e ↦ rw e refl
      ])

pub refcount-both :
    (table : Atable) (atom other value value2 : ℕ) (lows highs : ℕ → ℕ)
    → table.refs (ref_block table atom) ≡ some lows
    → table.refs (ref_block table atom + 1) ≡ some highs
    → refcount
        (record table {
          refs =
              set_word
                (set_word table.refs (ref_block table atom) lows (ref_offset table atom) value)
                (ref_block table atom + 1)
                highs
                (ref_offset table atom)
                value2;
        })
        other
      ≡ (if other == atom then some (value2 * 2 ^ 16 + value) else refcount table other)
unfolding refcount halves word_at ref_offset set_word ref_block
refcount-both table atom other value value2 lows highs l h =
    let block = ref_block table atom in
    let stored = set_word table.refs block lows (ref_offset table atom) value in
    let apart : (block + 1 == block) ≡ false = ground arith in
    let next : stored (block + 1) ≡ some highs =
      set_word_miss table.refs block (ref_offset table atom) value (block + 1) lows apart ∙ h in
    rw
      (
        low_word2 table atom other value2 highs stored next,
        high_word2 table atom other value2 highs stored next,
        low_word table atom other value lows l,
        high_word table atom other value lows l,
      )
      (elim (Bool-cases (other == atom)) [ inl e ↦ rw e refl | inr e ↦ rw e refl ])
