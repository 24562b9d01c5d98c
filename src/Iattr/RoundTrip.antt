-- ===== src/Iattr/RoundTrip.antt =====
-- `decode_attrs` reads what `encode_attrs` writes, and `encode_asize` is its length.
use tux.Base.{
  ℕ, zero, suc, ◌+◌, ◌*◌, ◌/◌, ◌%◌, ◌^◌, ◌≤◌, ◌<◌, ◌≡◌, refl, sym, ◌∙◌, arith, bit_and, bit_or, leb,
  if◌then◌else◌, true, false, Bool-cases, inl, inr, some, List, [], ◌++◌, append_assoc, append-nil,
  length, length-append,
}
use tux.Base.Bits.{bit_and_ones, bit_or_fields_left}
use tux.Codec.{be16, encode16, decode16}
use tux.Codec.RoundTrip.{decode16-be16}
use tux.Iattr.{
  Inode, AtKind, rdev_attr, mode_owner_attr, data_btree_attr, ctime_size_attr, link_count_attr,
  mtime_attr, idata_attr, xattr_attr, other_attr, to_kind, kind_size, atsize, has, asize_loop,
  encode_asize, encode_kind, encode_loop, encode_attrs, var_attrs, decode_attr, decode_loop,
  decode_attrs,
}
use tux.Iattr.Fields.{
  field, encode_field-field, copy_field, Fits, IsFixed, decode_field-field, decode_round, IsNear,
  coarse, coarse-IsNear,
}

-- The bytes of the attributes from `kind` on.
unfoldable fields : ℕ → ℕ → ℕ → Inode → List ℕ
fields zero kind version inode = []
fields (suc rounds) kind version inode =
    let rest = fields rounds (kind + 1) version inode in
    if has inode.present kind
    then be16 (bit_or (kind * 2 ^ 12) version) ++ (field (to_kind kind) inode ++ rest)
    else rest

-- Reading the attributes of `from` into an inode: the fields named in `from.present`.
unfoldable pub copy_attrs : ℕ → ℕ → Inode → Inode → Inode
copy_attrs zero kind from inode = inode
copy_attrs (suc rounds) kind from inode =
    let copied = copy_field (to_kind kind) from inode in
    copy_attrs rounds (kind + 1) from (
      if has from.present kind
      then record copied { present = bit_or copied.present (2 ^ kind) }
      else inode)

length-field :
    (kind : AtKind) (inode : Inode) → IsFixed kind → length (field kind inode) ≡ kind_size kind
unfolding IsFixed kind_size
length-field rdev_attr inode fixed = refl
length-field mode_owner_attr inode fixed = refl
length-field data_btree_attr inode fixed = refl
length-field ctime_size_attr inode fixed = refl
length-field link_count_attr inode fixed = refl
length-field mtime_attr inode fixed = refl
length-field idata_attr inode fixed = absurd fixed
length-field xattr_attr inode fixed = absurd fixed
length-field other_attr inode fixed = absurd fixed

-- Only the kinds that `encode_attrs` has a body for are present.
abbrev pub AllFixed : Inode → Type 0
AllFixed inode = (kind : ℕ) → has inode.present kind ≡ true → IsFixed (to_kind kind)

asize_loop_add :
    (rounds kind bits need : ℕ)
    → asize_loop rounds kind bits need ≡ need + asize_loop rounds kind bits 0
unfolding asize_loop
asize_loop_add zero kind bits need = omega arith
asize_loop_add (suc rounds) kind bits need = ground (
  arith,
  asize_loop_add rounds (kind + 1) bits (need + (atsize kind + 2)),
  asize_loop_add rounds (kind + 1) bits (atsize kind + 2),
  asize_loop_add rounds (kind + 1) bits need,
)

kind_size_ge : (kind : AtKind) → IsFixed kind → 4 ≤ kind_size kind
unfolding IsFixed kind_size
kind_size_ge rdev_attr fixed = omega arith
kind_size_ge mode_owner_attr fixed = omega arith
kind_size_ge data_btree_attr fixed = omega arith
kind_size_ge ctime_size_attr fixed = omega arith
kind_size_ge link_count_attr fixed = omega arith
kind_size_ge mtime_attr fixed = omega arith
kind_size_ge idata_attr fixed = absurd fixed
kind_size_ge xattr_attr fixed = absurd fixed
kind_size_ge other_attr fixed = absurd fixed

asize_present :
    (rounds kind bits : ℕ)
    → has bits kind ≡ true
    → asize_loop (suc rounds) kind bits 0
      ≡ kind_size (to_kind kind) + 2 + asize_loop rounds (kind + 1) bits 0
unfolding asize_loop atsize
asize_present rounds kind bits h =
    rw h (omega (arith, asize_loop_add rounds (kind + 1) bits (0 + (kind_size (to_kind kind) + 2))))

asize_absent :
    (rounds kind bits : ℕ)
    → has bits kind ≡ false
    → asize_loop (suc rounds) kind bits 0 ≡ asize_loop rounds (kind + 1) bits 0
unfolding asize_loop
asize_absent rounds kind bits h = rw h refl

module _ (version : ℕ) (inode : Inode) (fixed : AllFixed inode) where
  abbrev head : ℕ → ℕ
  head kind = bit_or (kind * 2 ^ 12) version

  fields_present :
      (rounds kind : ℕ)
      → has inode.present kind ≡ true
      → fields (suc rounds) kind version inode
        ≡ be16 (head kind) ++ (field (to_kind kind) inode ++ fields rounds (kind + 1) version inode)
  unfolding fields
  fields_present rounds kind h = rw h refl

  fields_absent :
      (rounds kind : ℕ)
      → has inode.present kind ≡ false
      → fields (suc rounds) kind version inode ≡ fields rounds (kind + 1) version inode
  unfolding fields
  fields_absent rounds kind h = rw h refl

  length-fields :
      (rounds kind : ℕ)
      → length (fields rounds kind version inode) ≡ asize_loop rounds kind inode.present 0
  unfolding fields asize_loop
  length-fields zero kind = refl
  length-fields (suc rounds) kind = elim (Bool-cases (has inode.present kind)) [
    | inl h ↦
        rw (fields_present rounds kind h, asize_present rounds kind inode.present h)
          (omega (
            arith,
            length-append (field (to_kind kind) inode) (fields rounds (kind + 1) version inode),
            length-field (to_kind kind) inode (fixed kind h),
            length-fields rounds (kind + 1),
          ))
    | inr h ↦
        rw (fields_absent rounds kind h, asize_absent rounds kind inode.present h)
          (length-fields rounds (kind + 1))
  ]

  -- One round of the encoder with space for its attribute.
  encode_step :
      (rounds kind size : ℕ) (attrs : List ℕ)
      → has inode.present kind ≡ true
      → length attrs + 4 ≤ size
      → encode_loop (suc rounds) kind version inode size attrs
        ≡ encode_loop rounds
            (kind + 1)
            version
            inode
            size
            (attrs ++ (be16 (head kind) ++ field (to_kind kind) inode))
  unfolding encode_loop encode_kind encode16
  encode_step rounds kind size attrs h room =
      let open_ : leb size (length attrs + 3) ≡ false = ground arith in
      rw (h, open_)
        (rw
          (
            encode_field-field (to_kind kind) inode (attrs ++ be16 (head kind)),
            append_assoc attrs (be16 (head kind)) (field (to_kind kind) inode),
          )
          refl)

  encode_loop-fields :
      (rounds kind size : ℕ) (attrs : List ℕ)
      → length attrs + asize_loop rounds kind inode.present 0 ≤ size
      → encode_loop rounds kind version inode size attrs ≡ attrs ++ fields rounds kind version inode
  unfolding fields encode_loop
  encode_loop-fields zero kind size attrs room = sym (append-nil attrs)
  encode_loop-fields (suc rounds) kind size attrs room =
      elim (Bool-cases (has inode.present kind)) [
        | inl h ↦
            let whole = be16 (head kind) ++ field (to_kind kind) inode in
            let need = asize_present rounds kind inode.present h in
            let step =
              encode_step rounds kind size attrs h
                (omega (arith, need, kind_size_ge (to_kind kind) (fixed kind h))) in
            let rest = encode_loop-fields rounds (kind + 1) size (attrs ++ whole) (
              omega (
                arith,
                need,
                length-append attrs whole,
                length-field (to_kind kind) inode (fixed kind h),
              )) in
            rw (fields_present rounds kind h)
              (step ∙ rest ∙ append_assoc attrs whole (fields rounds (kind + 1) version inode))
        | inr h ↦ rw h (
            encode_loop-fields rounds (kind + 1) size attrs
              (rw (asize_absent rounds kind inode.present h) at room))
      ]

  module _ (small : version < 2 ^ 12) (fits : Fits inode) where
    abbrev copied : ℕ → Inode → Inode
    copied kind into =
        let read = copy_field (to_kind kind) inode into in
        record read { present = bit_or read.present (2 ^ kind) }

    head-value : (kind : ℕ) → head kind ≡ kind * 2 ^ 12 + version
    head-value kind = bit_or_fields_left 12 version kind small

    -- One round of the decoder.
    decode_step :
        (kind fuel : ℕ) (into : Inode) (rest : List ℕ)
        → kind < 16
        → has inode.present kind ≡ true
        → decode_loop
            (suc fuel)
            version
            into
            (be16 (head kind) ++ (field (to_kind kind) inode ++ rest))
          ≡ decode_loop fuel version (copied kind into) rest
    decode_step kind fuel into rest in_range h =
        let number : head kind % 2 ^ 16 ≡ kind * 2 ^ 12 + version =
          omega (arith, head-value kind) in
        let quotient : (kind * 2 ^ 12 + version) / 2 ^ 12 ≡ kind = omega arith in
        let low : bit_and (kind * 2 ^ 12 + version) 0xfff ≡ version =
          omega (arith, bit_and_ones 12 (kind * 2 ^ 12 + version)) in
        let tail = field (to_kind kind) inode ++ rest in
        let read = rw number at (decode16-be16 (head kind) tail) in
        let attr : decode_attr kind into tail ≡ some (copied kind into, rest) =
          unfold decode_attr in
          rw (decode_field-field (to_kind kind) inode into rest fits (fixed kind h)) refl in
        decode_round version fuel (kind * 2 ^ 12 + version) kind into (be16 (head kind) ++ tail)
          tail read low quotient
        ∙ rw attr refl

    decode_nil : (fuel : ℕ) (into : Inode) → decode_loop fuel version into [] ≡ (some [], into)
    unfolding decode_loop decode16
    decode_nil zero into = refl
    decode_nil (suc fuel) into = refl

    longer :
        (rounds kind : ℕ)
        → has inode.present kind ≡ true
        → length (fields rounds (kind + 1) version inode) + 2
          ≤ length (fields (suc rounds) kind version inode)
    longer rounds kind h = rw (fields_present rounds kind h) (
        omega (
          arith,
          length-append (field (to_kind kind) inode) (fields rounds (kind + 1) version inode),
        ))

    decode_loop-fields :
        (rounds kind fuel : ℕ) (into : Inode)
        → kind + rounds ≤ 16
        → length (fields rounds kind version inode) ≤ fuel
        → decode_loop fuel version into (fields rounds kind version inode)
          ≡ (some [], copy_attrs rounds kind inode into)
    unfolding copy_attrs
    decode_loop-fields zero kind fuel into h room = unfold fields in decode_nil fuel into
    decode_loop-fields (suc rounds) kind zero into below room =
        elim (Bool-cases (has inode.present kind)) [
          | inl h ↦ absurd (omega (arith, longer rounds kind h))
          | inr h ↦
              rw (h, fields_absent rounds kind h)
                (decode_loop-fields rounds (kind + 1) zero into (omega arith)
                  (rw (fields_absent rounds kind h) at room))
        ]
    decode_loop-fields (suc rounds) kind (suc fuel) into below room =
        elim (Bool-cases (has inode.present kind)) [
          | inl h ↦
              rw (h, fields_present rounds kind h)
                (decode_step kind fuel into (fields rounds (kind + 1) version inode) (omega arith) h
                  ∙ decode_loop-fields rounds (kind + 1) fuel (copied kind into) (omega arith)
                      (omega (arith, longer rounds kind h)))
          | inr h ↦
              rw (h, fields_absent rounds kind h)
                (decode_loop-fields rounds (kind + 1) (suc fuel) into (omega arith)
                  (rw (fields_absent rounds kind h) at room))
        ]

module _ (version : ℕ) (inode : Inode) (fixed : AllFixed inode) where
  encode_all :
      (rounds size : ℕ)
      → asize_loop rounds 0 inode.present 0 ≤ size
      → encode_loop rounds 0 version inode size [] ≡ fields rounds 0 version inode
  encode_all rounds size room =
      encode_loop-fields version inode fixed rounds 0 size [] (omega arith)

-- With the size that `encode_asize` gives, or more, `encode_attrs` writes exactly that many bytes.
pub length-encode_attrs :
    (version : ℕ) (inode : Inode) (size : ℕ)
    → AllFixed inode
    → encode_asize inode.present ≤ size
    → length (encode_attrs version inode size) ≡ encode_asize inode.present
unfolding encode_attrs encode_asize
length-encode_attrs version inode size fixed room =
    rw (encode_all version inode fixed var_attrs size room)
      (length-fields version inode fixed var_attrs 0)

-- When only attributes with a body are present, the version has 12 bits, the fields have their widths
-- and the size is at least that of `encode_asize`, decoding the encoded attributes consumes all bytes and
-- gives the inode the present fields, of the times their stored forms, and keeps its other fields. The
-- stored form of each time has the same second, is not later, and at most 15259 nanoseconds earlier.
pub decode_attrs-encode_attrs :
    (version : ℕ) (inode into : Inode) (size : ℕ)
    → AllFixed inode
    → version < 2 ^ 12
    → Fits inode
    → encode_asize inode.present ≤ size
    → (decode_attrs version into (encode_attrs version inode size)
        ≡ (some [], copy_attrs var_attrs 0 inode into))
      × IsNear inode.ctime (coarse inode.ctime)
      × IsNear inode.mtime (coarse inode.mtime)
unfolding decode_attrs encode_attrs encode_asize
decode_attrs-encode_attrs version inode into size fixed small fits room = (
  rw (encode_all version inode fixed var_attrs size room) (
      decode_loop-fields version inode fixed small fits var_attrs 0
        (length (fields var_attrs 0 version inode)) into (omega arith) (omega arith)),
  coarse-IsNear inode.ctime fits.ctime,
  coarse-IsNear inode.mtime fits.mtime,
)
