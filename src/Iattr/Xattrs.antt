-- ===== src/Iattr/Xattrs.antt =====
-- Extended attributes written by `encode_xattrs` and read back, with the sizes computed beforehand.
use tux.Base.{
  ℕ, zero, suc, ◌+◌, ◌-◌, ◌*◌, ◌/◌, ◌%◌, ◌^◌, ◌≤◌, ◌<◌, ◌≡◌, refl, sym, ap, ◌∙◌, arith, bit_and,
  bit_or, leb, ltb, true, false, inl, inr, Option-cases, Option, some, List, [], ◌∷◌, ◌++◌,
  append_assoc, append-nil, length, length-append, take, drop,
}
use tux.Base.Bits.{bit_and_ones, bit_or_fields_left}
use tux.Codec.{be16, encode16, decode16}
use tux.Codec.RoundTrip.{decode16-be16}
use tux.Iattr.{
  Inode, Xattr, Xcache, sizeof_xattr, sizeof_xcache, xattrs_size, xcache_size, add_xattr,
  take_bytes, kind_size, encode_kind, encode_xattrs_loop, encode_xattrs, encode_xsize_loop,
  encode_xsize, decode_field, decode_attr, decode_loop, decode_attrs, to_kind,
}
use tux.Iattr.Fields.{decode_round}

-- The atom and the length with its own two bytes are 16-bit numbers.
abbrev pub AllFit : List Xattr → Type 0
AllFit [] = Unit
AllFit (xattr ∷ xattrs) = (xattr.atom < 2 ^ 16) × (length xattr.body + 2 < 2 ^ 16) × AllFit xattrs

take_append : (xs ys : List ℕ) → take (length xs) (xs ++ ys) ≡ xs
take_append [] ys = refl
take_append (x ∷ xs) ys = ap (λ (t : List ℕ). x ∷ t) (take_append xs ys)

drop_append : (xs ys : List ℕ) → drop (length xs) (xs ++ ys) ≡ ys
drop_append [] ys = refl
drop_append (x ∷ xs) ys = drop_append xs ys

encode_xsize_loop-value :
    (xattrs : List Xattr) (size : ℕ)
    → encode_xsize_loop xattrs size ≡ size + encode_xsize_loop xattrs 0
unfolding encode_xsize_loop kind_size
encode_xsize_loop-value [] size = omega arith
encode_xsize_loop-value (xattr ∷ xattrs) size = omega (
  arith,
  encode_xsize_loop-value xattrs (size + (2 + 4 + length xattr.body)),
  encode_xsize_loop-value xattrs (0 + (2 + 4 + length xattr.body)),
)

encode_xsize_cons :
    (xattr : Xattr) (xattrs : List Xattr)
    → encode_xsize_loop (xattr ∷ xattrs) 0 ≡ 2 + 4 + length xattr.body + encode_xsize_loop xattrs 0
unfolding encode_xsize_loop kind_size
encode_xsize_cons xattr xattrs =
    omega (arith, encode_xsize_loop-value xattrs (0 + (2 + 4 + length xattr.body)))

pub xattrs_size-append :
    (xs ys : List Xattr) → xattrs_size (xs ++ ys) ≡ xattrs_size xs + xattrs_size ys
unfolding xattrs_size
xattrs_size-append [] ys = omega arith
xattrs_size-append (x ∷ xs) ys = omega (arith, xattrs_size-append xs ys)

take_bytes-append : (xs ys : List ℕ) → take_bytes (length xs) (xs ++ ys) ≡ some (xs, ys)
unfolding take_bytes
take_bytes-append xs ys =
    let enough : ltb (length (xs ++ ys)) (length xs) ≡ false =
      ground (arith, length-append xs ys) in
    rw (enough, take_append xs ys, drop_append xs ys) refl

module _ (version : ℕ) where
  abbrev head : ℕ
  head = bit_or (12 * 2 ^ 12) version

  -- The bytes of the attributes.
  unfoldable records : List Xattr → List ℕ
  records [] = []
  records (xattr ∷ xattrs) =
      be16 head
      ++ (be16 (length xattr.body + 2) ++ (be16 xattr.atom ++ (xattr.body ++ records xattrs)))

  records_long :
      (xattr : Xattr) (xattrs : List Xattr)
      → length (records xattrs) + 2 ≤ length (records (xattr ∷ xattrs))
  unfolding records
  records_long xattr xattrs = omega (arith, length-append xattr.body (records xattrs))

  length-records : (xattrs : List Xattr) → length (records xattrs) ≡ encode_xsize_loop xattrs 0
  unfolding records encode_xsize_loop kind_size
  length-records [] = refl
  length-records (xattr ∷ xattrs) = omega (
    arith,
    length-append xattr.body (records xattrs),
    length-records xattrs,
    encode_xsize_loop-value xattrs (0 + (2 + 4 + length xattr.body)),
  )

  encode_xattrs_loop-records :
      (xattrs : List Xattr) (size : ℕ) (attrs : List ℕ)
      → length attrs + encode_xsize_loop xattrs 0 ≤ size
      → encode_xattrs_loop version xattrs size attrs ≡ attrs ++ records xattrs
  unfolding encode_xattrs_loop encode_kind encode16
  encode_xattrs_loop-records [] size attrs room = unfold records in sym (append-nil attrs)
  encode_xattrs_loop-records (xattr ∷ xattrs) size attrs room =
      let front = be16 head ++ (be16 (length xattr.body + 2) ++ (be16 xattr.atom ++ xattr.body)) in
      let open_ : leb size (length attrs + 3) ≡ false = ground (arith, need) in
      let whole : attrs
            ++ be16 head
            ++ be16 (length xattr.body + 2)
            ++ be16 xattr.atom
            ++ xattr.body
          ≡ attrs ++ front =
        append_assoc (attrs ++ be16 head ++ be16 (length xattr.body + 2)) (be16 xattr.atom)
          xattr.body
        ∙ append_assoc (attrs ++ be16 head) (be16 (length xattr.body + 2))
            (be16 xattr.atom ++ xattr.body)
        ∙ append_assoc attrs (be16 head)
            (be16 (length xattr.body + 2) ++ (be16 xattr.atom ++ xattr.body)) in
      let step =
        encode_xattrs_loop-records xattrs size (attrs ++ front)
          (omega (arith, need, length-append attrs front)) in
      rw (open_, whole)
        (step ∙ append_assoc attrs front (records xattrs) ∙ (unfold records in refl))
    where
      need : length attrs + (2 + 4 + length xattr.body) + encode_xsize_loop xattrs 0 ≤ size
      need = omega (arith, room, encode_xsize_cons xattr xattrs)

  module _ (small : version < 2 ^ 12) where
    head-value : head ≡ 12 * 2 ^ 12 + version
    head-value = bit_or_fields_left 12 version 12 small

    decode_xattr :
        (xattr : Xattr) (inode : Inode) (rest : List ℕ) (xcache : Xcache)
        → inode.xcache ≡ some xcache
        → xattr.atom < 2 ^ 16
        → length xattr.body + 2 < 2 ^ 16
        → xcache_size xcache + sizeof_xattr + length xattr.body ≤ xcache.maxsize
        → decode_attr 12 inode
            (be16 (length xattr.body + 2) ++ (be16 xattr.atom ++ (xattr.body ++ rest)))
          ≡ some (
            record inode {
              present = bit_or inode.present (2 ^ 12);
              xcache = some (record xcache { xattrs = xcache.xattrs ++ (xattr ∷ []) });
            },
            rest,
          )
    unfolding decode_attr decode_field to_kind
    decode_xattr xattr inode rest xcache e h k room =
        let tail = xattr.body ++ rest in
        let bytes = length xattr.body + 2 in
        let whole : bytes % 2 ^ 16 ≡ bytes = omega arith in
        let atom : xattr.atom % 2 ^ 16 ≡ xattr.atom = omega arith in
        let size : (bytes + 2 ^ 16 - 2) % 2 ^ 16 ≡ length xattr.body = omega arith in
        let fits : leb (xcache_size xcache + sizeof_xattr + length xattr.body) xcache.maxsize
            ≡ true =
          ground arith in
        let added : add_xattr (some xcache) xattr
            ≡ some (record xcache { xattrs = xcache.xattrs ++ (xattr ∷ []) }) =
          unfold add_xattr in rw fits refl in
        rw
          (
            decode16-be16 bytes (be16 xattr.atom ++ tail),
            whole,
            decode16-be16 xattr.atom tail,
            atom,
            size,
            take_bytes-append xattr.body rest,
            e,
            added,
          )
          refl

    -- The present bits after reading.
    unfoldable marked : List Xattr → ℕ → ℕ
    marked [] present = present
    marked (xattr ∷ xattrs) present = marked xattrs (bit_or present (2 ^ 12))

    decode_end :
        (fuel : ℕ) (inode : Inode) → decode_loop fuel version inode (records []) ≡ (some [], inode)
    unfolding records decode_loop decode16
    decode_end zero inode = refl
    decode_end (suc fuel) inode = refl

    -- One round of the decoder on an extended attribute.
    decode_first :
        (fuel : ℕ) (xattr : Xattr) (inode : Inode) (rest : List ℕ) (xcache : Xcache)
        → inode.xcache ≡ some xcache
        → xattr.atom < 2 ^ 16
        → length xattr.body + 2 < 2 ^ 16
        → xcache_size xcache + sizeof_xattr + length xattr.body ≤ xcache.maxsize
        → decode_loop (suc fuel) version inode (
            be16 head
            ++ (be16 (length xattr.body + 2) ++ (be16 xattr.atom ++ (xattr.body ++ rest))))
          ≡ decode_loop fuel version
              (record inode {
                present = bit_or inode.present (2 ^ 12);
                xcache = some (record xcache { xattrs = xcache.xattrs ++ (xattr ∷ []) });
              })
              rest
    decode_first fuel xattr inode rest xcache e h k room =
        let tail = be16 (length xattr.body + 2) ++ (be16 xattr.atom ++ (xattr.body ++ rest)) in
        let number : head % 2 ^ 16 ≡ 12 * 2 ^ 12 + version = omega (arith, head-value) in
        let low : bit_and (12 * 2 ^ 12 + version) 0xfff ≡ version =
          omega (arith, bit_and_ones 12 (12 * 2 ^ 12 + version)) in
        let quotient : (12 * 2 ^ 12 + version) / 2 ^ 12 ≡ 12 = omega arith in
        let read = rw number at (decode16-be16 head tail) in
        decode_round version fuel (12 * 2 ^ 12 + version) 12 inode (be16 head ++ tail) tail read low
          quotient
        ∙ rw (decode_xattr xattr inode rest xcache e h k room) refl

    decode_loop-records :
        (xattrs read : List Xattr) (maxsize fuel : ℕ) (inode : Inode)
        → inode.xcache ≡ some (record { maxsize = maxsize; xattrs = read })
        → AllFit xattrs
        → sizeof_xcache + xattrs_size read + xattrs_size xattrs ≤ maxsize
        → length (records xattrs) ≤ fuel
        → decode_loop fuel version inode (records xattrs) ≡ (
          some [],
          record inode {
            present = marked xattrs inode.present;
            xcache = some (record { maxsize = maxsize; xattrs = read ++ xattrs });
          },
        )
    unfolding marked records
    decode_loop-records [] read maxsize fuel inode e fit room enough = rw (append-nil read) (
        decode_end fuel inode
        ∙ ap (λ (c : Option Xcache). (some [], record inode { xcache = c })) e)
    decode_loop-records (xattr ∷ xattrs) read maxsize zero inode e fit room enough =
        absurd (omega (arith, records_long xattr xattrs))
    decode_loop-records (xattr ∷ xattrs) read maxsize (suc fuel) inode e (h, k, fit) room enough =
        let size_cons : xattrs_size (xattr ∷ xattrs)
            ≡ sizeof_xattr + length xattr.body + xattrs_size xattrs =
          unfold xattrs_size in refl in
        let size_one : xattrs_size (xattr ∷ []) ≡ sizeof_xattr + length xattr.body =
          unfold xattrs_size in omega arith in
        let old : Xcache = record { maxsize = maxsize; xattrs = read } in
        let new : Xcache = record { maxsize = maxsize; xattrs = read ++ (xattr ∷ []) } in
        let inode' : Inode = record inode {
          present = bit_or inode.present (2 ^ 12);
          xcache = some new;
        } in
        let space : xcache_size old + sizeof_xattr + length xattr.body ≤ maxsize =
          unfold xcache_size in omega (arith, size_cons) in
        let space' : sizeof_xcache + xattrs_size (read ++ (xattr ∷ [])) + xattrs_size xattrs
            ≤ maxsize =
          omega (arith, xattrs_size-append read (xattr ∷ []), size_one, size_cons) in
        let fewer : length (records xattrs) ≤ fuel = omega (arith, records_long xattr xattrs) in
        decode_first fuel xattr inode (records xattrs) old e h k space
        ∙ decode_loop-records xattrs (read ++ (xattr ∷ [])) maxsize fuel inode' refl fit space'
            fewer
        ∙ rw (append_assoc read (xattr ∷ []) xattrs) refl

encode_xsize-some :
    (inode : Inode) (xcache : Xcache)
    → inode.xcache ≡ some xcache
    → encode_xsize inode ≡ encode_xsize_loop xcache.xattrs 0
unfolding encode_xsize
encode_xsize-some inode xcache e = rw e refl

encode_xattrs-some :
    (version : ℕ) (inode : Inode) (xcache : Xcache) (size : ℕ)
    → inode.xcache ≡ some xcache
    → encode_xsize inode ≤ size
    → encode_xattrs version inode size ≡ records version xcache.xattrs
unfolding encode_xattrs
encode_xattrs-some version inode xcache size e room = rw e (
    encode_xattrs_loop-records version xcache.xattrs size []
      (omega (arith, room, encode_xsize-some inode xcache e)))

-- `encode_xattrs` writes as many bytes as `encode_xsize` says, when its size is at least that.
pub length-encode_xattrs :
    (version : ℕ) (inode : Inode) (size : ℕ)
    → encode_xsize inode ≤ size
    → length (encode_xattrs version inode size) ≡ encode_xsize inode
length-encode_xattrs version inode size room = elim (Option-cases inode.xcache) [
  | inl e ↦ unfold encode_xattrs encode_xsize in rw e refl
  | inr (xcache, e) ↦
      rw (encode_xattrs-some version inode xcache size e room, encode_xsize-some inode xcache e)
        (length-records version xcache.xattrs)
]

-- Extended attributes with 16-bit atoms and lengths are read back in order into a new cache of at least their
-- size, when the size given to the encoder is at least that of `encode_xsize`: all bytes are consumed.
pub decode_attrs-encode_xattrs :
    (version size maxsize : ℕ) (from inode : Inode) (xcache : Xcache)
    → version < 2 ^ 12
    → from.xcache ≡ some xcache
    → AllFit xcache.xattrs
    → encode_xsize from ≤ size
    → xcache_size xcache ≤ maxsize
    → inode.xcache ≡ some (record { maxsize = maxsize; xattrs = [] })
    → let (left, inode') = decode_attrs version inode (encode_xattrs version from size) in
      (left ≡ some [])
      × (inode'.xcache ≡ some (record { maxsize = maxsize; xattrs = xcache.xattrs }))
unfolding decode_attrs
decode_attrs-encode_xattrs version size maxsize from inode xcache small e fit room space new =
    let all : length (records version xcache.xattrs) ≤ length (records version xcache.xattrs) =
      omega arith in
    let enough : sizeof_xcache + xattrs_size [] + xattrs_size xcache.xattrs ≤ maxsize =
      unfold xattrs_size xcache_size in omega (arith, space) in
    let whole =
      decode_loop-records version small xcache.xattrs [] maxsize
        (length (records version xcache.xattrs)) inode new fit enough all in
    rw (encode_xattrs-some version from xcache size e room, whole) (refl, refl)
