-- ===== src/Iattr/Fields.antt =====
-- One attribute written and read back.
use tux.Base.{
  ℕ, suc, ◌+◌, ◌-◌, ◌*◌, ◌/◌, ◌%◌, ◌^◌, ◌≤◌, ◌<◌, ◌≡◌, refl, sym, ap, ◌∙◌, arith, bit_and, ◌==◌,
  true, some, none, List, [], ◌++◌, append_assoc, append-nil,
}
use tux.Base.Bits.{bit_and_step, bit_or-lt, bit_and_ones, bit_or_fields, bit_or_fields_left}
use tux.Codec.{be32, be64, encode32, encode64, decode16}
use tux.Codec.RoundTrip.{be48, encode48-be48, decode32-be32, decode48-be48, decode64-be64}
use tux.Packed.{Root, pack_root, Timespec, spectime, tuxtime, high32}
use tux.Packed.Time.{billionths-value}
use tux.Packed.Fields.{unpack_root-pack_root}
use tux.Iattr.{
  Inode, AtKind, rdev_attr, mode_owner_attr, data_btree_attr, ctime_size_attr, link_count_attr,
  mtime_attr, idata_attr, xattr_attr, other_attr, encode_field, decode_field, decode_attr,
  decode_loop, huge_encode_dev, huge_decode_dev,
}

-- A mask with low zeros tests the digits above them.
shift1 : (a m : ℕ) → bit_and a (m * 2) ≡ bit_and (a / 2) m * 2
shift1 a m =
    let half : m * 2 / 2 ≡ m = omega arith in
    omega (arith, bit_and_step a (m * 2), ap (λ (t : ℕ). bit_and (a / 2) t) half)

shift2 : (a m : ℕ) → bit_and a (m * 4) ≡ bit_and (a / 4) m * 4
shift2 a m =
    let e : m * 4 ≡ m * 2 * 2 = omega arith in
    let d : a / 2 / 2 ≡ a / 4 = omega arith in
    rw (e, shift1 a (m * 2), shift1 (a / 2) m, d) (omega arith)

shift4 : (a m : ℕ) → bit_and a (m * 16) ≡ bit_and (a / 16) m * 16
shift4 a m =
    let e : m * 16 ≡ m * 4 * 4 = omega arith in
    let d : a / 4 / 4 ≡ a / 16 = omega arith in
    rw (e, shift2 a (m * 4), shift2 (a / 4) m, d) (omega arith)

shift8 : (a m : ℕ) → bit_and a (m * 256) ≡ bit_and (a / 256) m * 256
shift8 a m =
    let e : m * 256 ≡ m * 16 * 16 = omega arith in
    let d : a / 16 / 16 ≡ a / 256 = omega arith in
    rw (e, shift4 a (m * 16), shift4 (a / 16) m, d) (omega arith)

upper : (k a : ℕ) → bit_and a ((2 ^ k - 1) * 256) ≡ a / 256 % 2 ^ k * 256
upper k a = rw (shift8 a (2 ^ k - 1), bit_and_ones k (a / 256)) refl

encoded_dev :
    (dev : ℕ)
    → dev < 2 ^ 32
    → huge_encode_dev dev ≡ dev % 256 + dev / 2 ^ 20 * 2 ^ 8 + dev / 2 ^ 8 % 2 ^ 12 * 2 ^ 20
unfolding huge_encode_dev
encoded_dev dev h =
    let major : dev / 2 ^ 20 % 2 ^ 32 * 2 ^ 8 % 2 ^ 32 ≡ dev / 2 ^ 20 * 2 ^ 8 = omega arith in
    let minor : dev % 2 ^ 20 / 256 % 2 ^ 24 * 256 * 2 ^ 12 % 2 ^ 32
        ≡ dev / 2 ^ 8 % 2 ^ 12 * 2 ^ 20 =
      omega arith in
    let low : dev % 2 ^ 20 % 2 ^ 8 ≡ dev % 256 = omega arith in
    rw
      (
        bit_and_ones 20 dev,
        bit_and_ones 8 (dev % 2 ^ 20),
        upper 24 (dev % 2 ^ 20),
        major,
        minor,
        low,
        bit_or_fields 8 (dev % 256) (dev / 2 ^ 20) (omega arith),
      )
      (bit_or_fields 20 (dev % 256 + dev / 2 ^ 20 * 2 ^ 8) (dev / 2 ^ 8 % 2 ^ 12) (omega arith))

-- A device of 32 bits, 12 of them its major number, is read back from its encoding.
pub huge_decode_dev-huge_encode_dev :
    (dev : ℕ) → dev < 2 ^ 32 → huge_decode_dev (huge_encode_dev dev) ≡ dev
unfolding huge_decode_dev huge_encode_dev
huge_decode_dev-huge_encode_dev dev h =
    let code = dev % 256 + dev / 2 ^ 20 * 2 ^ 8 + dev / 2 ^ 8 % 2 ^ 12 * 2 ^ 20 in
    let cut : code % 2 ^ 32 ≡ code = omega arith in
    let low : code % 2 ^ 8 ≡ dev % 256 = omega arith in
    let major : code / 256 % 2 ^ 12 * 256 / 2 ^ 8 * 2 ^ 20 % 2 ^ 32 ≡ dev / 2 ^ 20 * 2 ^ 20 =
      omega arith in
    let minor : code / 2 ^ 12 / 256 % 2 ^ 12 * 256 ≡ dev / 2 ^ 8 % 2 ^ 12 * 2 ^ 8 = omega arith in
    rw
      (
        encoded_dev dev h,
        cut,
        upper 12 code,
        upper 12 (code / 2 ^ 12),
        bit_and_ones 8 code,
        low,
        major,
        minor,
        bit_or_fields 8 (dev % 256) (dev / 2 ^ 8 % 2 ^ 12) (omega arith),
        bit_or_fields_left 20 (dev % 256 + dev / 2 ^ 8 % 2 ^ 12 * 2 ^ 8) (dev / 2 ^ 20)
            (omega arith),
      )
      (omega arith)

-- The bytes of an attribute behind its head.
abbrev pub field : AtKind → Inode → List ℕ
field rdev_attr inode = be64 (huge_encode_dev inode.rdev)
field mode_owner_attr inode = be32 inode.mode ++ (be32 inode.uid ++ be32 inode.gid)
field data_btree_attr inode = be64 (pack_root inode.root)
field ctime_size_attr inode = be48 (tuxtime inode.ctime / 2 ^ 16) ++ be64 inode.size
field link_count_attr inode = be32 inode.nlink
field mtime_attr inode = be48 (tuxtime inode.mtime / 2 ^ 16)
field kind inode = []

pub encode_field-field :
    (kind : AtKind) (inode : Inode) (attrs : List ℕ)
    → encode_field kind inode attrs ≡ attrs ++ field kind inode
unfolding encode_field encode32 encode64
encode_field-field rdev_attr inode attrs = refl
encode_field-field mode_owner_attr inode attrs =
    append_assoc (attrs ++ be32 inode.mode) (be32 inode.uid) (be32 inode.gid)
    ∙ append_assoc attrs (be32 inode.mode) (be32 inode.uid ++ be32 inode.gid)
encode_field-field data_btree_attr inode attrs = refl
encode_field-field ctime_size_attr inode attrs =
    rw (encode48-be48 attrs (tuxtime inode.ctime / 2 ^ 16))
      (append_assoc attrs (be48 (tuxtime inode.ctime / 2 ^ 16)) (be64 inode.size))
encode_field-field link_count_attr inode attrs = refl
encode_field-field mtime_attr inode attrs = encode48-be48 attrs (tuxtime inode.mtime / 2 ^ 16)
encode_field-field idata_attr inode attrs = sym (append-nil attrs)
encode_field-field xattr_attr inode attrs = sym (append-nil attrs)
encode_field-field other_attr inode attrs = sym (append-nil attrs)

-- The stored form of a time drops the low 16 of the 32 bits of its fraction.
unfoldable pub coarse : Timespec → Timespec
coarse time = spectime (tuxtime time / 2 ^ 16 * 2 ^ 16)

-- A time of 32-bit seconds.
pub record IsTime (time : Timespec) : Type 0 where
  pub seconds : time.tv_sec < 2 ^ 32
  pub nanoseconds : time.tv_nsec < 1000000000

-- The same second, not later, and at most 15259 nanoseconds earlier, which is 1/65536 of a second.
pub record IsNear (time stored : Timespec) : Type 0 where
  pub seconds : stored.tv_sec ≡ time.tv_sec
  pub not_later : stored.tv_nsec ≤ time.tv_nsec
  pub not_earlier : time.tv_nsec < stored.tv_nsec + 15260

pub coarse-IsNear : (time : Timespec) → IsTime time → IsNear time (coarse time)
unfolding coarse tuxtime spectime high32
coarse-IsNear time h =
    let sec = h.seconds in
    let nsec = h.nanoseconds in
    let value = billionths-value (tuxtime time / 2 ^ 16 * 2 ^ 16) in
    record { seconds = omega arith; not_later = omega arith; not_earlier = omega arith }

-- What reading the attribute of `from` does to an inode.
abbrev pub copy_field : AtKind → Inode → Inode → Inode
copy_field rdev_attr from inode = record inode { rdev = from.rdev }
copy_field mode_owner_attr from inode = record inode {
  mode = from.mode;
  uid = from.uid;
  gid = from.gid;
}
copy_field data_btree_attr from inode = record inode { root = from.root }
copy_field ctime_size_attr from inode = record inode { size = from.size; ctime = coarse from.ctime }
copy_field link_count_attr from inode = record inode { nlink = from.nlink }
copy_field mtime_attr from inode = record inode { mtime = coarse from.mtime }
copy_field kind from inode = inode

-- The fields are numbers of the widths in which they are stored.
pub record Fits (inode : Inode) : Type 0 where
  pub rdev : inode.rdev < 2 ^ 32
  pub mode : inode.mode < 2 ^ 32
  pub uid : inode.uid < 2 ^ 32
  pub gid : inode.gid < 2 ^ 32
  pub size : inode.size < 2 ^ 64
  pub nlink : inode.nlink < 2 ^ 32
  pub root_block : inode.root.block < 2 ^ 48
  pub root_depth : inode.root.depth < 2 ^ 16
  pub ctime : IsTime inode.ctime
  pub mtime : IsTime inode.mtime

pack_root-lt : (root : Root) → root.block < 2 ^ 48 → pack_root root < 2 ^ 64
unfolding pack_root
pack_root-lt root h =
    bit_or-lt 64 (root.depth * 2 ^ 48 % 2 ^ 64) root.block (omega arith) (omega arith)

tuxtime-lt : (time : Timespec) → tuxtime time < 2 ^ 64
unfolding tuxtime
tuxtime-lt time = omega arith

unfoldable pub IsFixed : AtKind → Type 0
IsFixed idata_attr = ⊥
IsFixed xattr_attr = ⊥
IsFixed other_attr = ⊥
IsFixed kind = Unit

pub decode_field-field :
    (kind : AtKind) (from inode : Inode) (rest : List ℕ)
    → Fits from
    → IsFixed kind
    → decode_field kind inode (field kind from ++ rest) ≡ some (copy_field kind from inode, rest)
unfolding decode_field coarse IsFixed
decode_field-field rdev_attr from inode rest fits fixed =
    rw
      (
        decode64-be64 (huge_encode_dev from.rdev) rest,
        dev_small,
        huge_decode_dev-huge_encode_dev from.rdev fits.rdev,
      )
      refl
  where
    dev_small : huge_encode_dev from.rdev % 2 ^ 64 ≡ huge_encode_dev from.rdev
    dev_small = omega (arith, encoded_dev from.rdev fits.rdev, fits.rdev)
decode_field-field mode_owner_attr from inode rest fits fixed =
    rw
      (
        append_assoc (be32 from.mode) (be32 from.uid ++ be32 from.gid) rest,
        decode32-be32 from.mode (be32 from.uid ++ be32 from.gid ++ rest),
        decode32-be32 from.uid (be32 from.gid ++ rest),
        decode32-be32 from.gid rest,
      )
      (ground arith)
decode_field-field data_btree_attr from inode rest fits fixed =
    rw (decode64-be64 (pack_root from.root) rest)
      (rw (root_small, unpack_root-pack_root from.root fits.root_depth fits.root_block) refl)
  where
    root_small : pack_root from.root % 2 ^ 64 ≡ pack_root from.root
    root_small = omega (arith, pack_root-lt from.root fits.root_block)
decode_field-field ctime_size_attr from inode rest fits fixed =
    rw
      (
        decode48-be48 (tuxtime from.ctime / 2 ^ 16) (be64 from.size ++ rest),
        decode64-be64 from.size rest,
      )
      (ground (arith, tuxtime-lt from.ctime))
decode_field-field link_count_attr from inode rest fits fixed =
    rw (decode32-be32 from.nlink rest) (ground arith)
decode_field-field mtime_attr from inode rest fits fixed =
    rw (decode48-be48 (tuxtime from.mtime / 2 ^ 16) rest) (ground (arith, tuxtime-lt from.mtime))
decode_field-field idata_attr from inode rest fits fixed = absurd fixed
decode_field-field xattr_attr from inode rest fits fixed = absurd fixed
decode_field-field other_attr from inode rest fits fixed = absurd fixed

-- One round of the decoder's loop, whatever the attribute.
pub decode_round :
    (version fuel number kind : ℕ) (into : Inode) (attrs attrs' : List ℕ)
    → decode16 attrs ≡ some (number, attrs')
    → bit_and number 0xfff ≡ version
    → number / 2 ^ 12 ≡ kind
    → decode_loop (suc fuel) version into attrs ≡ (elim (decode_attr kind into attrs') [
      | none ↦ (none, into)
      | some (into', rest) ↦ decode_loop fuel version into' rest
    ])
unfolding decode_loop
decode_round version fuel number kind into attrs attrs' e low quotient =
    let same : (version == version) ≡ true = ground arith in
    rw (e, decode_loop) (rw (low, same, quotient) refl)
