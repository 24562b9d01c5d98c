-- ===== src/Iattr.antt =====
-- Inode attributes (user/kernel/iattr.c), the encoding of extended attributes (user/kernel/xattr.c)
-- and of devices (user/knlcompat.h). The bytes an encoder has written are the list it returns; a decoder
-- takes the bytes up to its limit and returns those that are left. `dump_attrs` is left out.
pub mod Fields
pub mod RoundTrip
pub mod Xattrs
use tux.Base.{
  ℕ, zero, suc, ◌+◌, ◌-◌, ◌*◌, ◌/◌, ◌%◌, ◌^◌, bit_and, bit_or, ◌==◌, leb, ltb, if◌then◌else◌, Bool,
  not, true, false, ◌&&◌, ◌||◌, Option, none, some, List, [], ◌∷◌, ◌++◌, length, take, drop,
}
use tux.Codec.{
  ◌>>=◌, encode16, encode32, encode48, encode64, decode16, decode32, decode48, decode64,
}
use tux.Packed.{Root, pack_root, unpack_root, Timespec, spectime, tuxtime}

pub record Xattr : Type 0 where
  pub atom : ℕ
  pub body : List ℕ

-- The attributes are those between `xattrs` and the limit. The fields `size`, which is the sum of their
-- sizes and the header, and `maxsize` have 16 bits: a cache has `xcache_size` and `maxsize` below 2^16.
pub record Xcache : Type 0 where
  pub maxsize : ℕ
  pub xattrs : List Xattr

pub record Inode : Type 0 where
  pub present : ℕ
  pub rdev : ℕ
  pub mode : ℕ
  pub uid : ℕ
  pub gid : ℕ
  pub size : ℕ
  pub ctime : Timespec
  pub mtime : Timespec
  pub root : Root
  pub nlink : ℕ
  pub xcache : Option Xcache

abbrev pub var_attrs : ℕ
var_attrs = 11

abbrev pub time_attr_shift : ℕ
time_attr_shift = 16

-- The kinds that the code names; `other_attr` is any other number.
pub data AtKind : Type 0 where
  rdev_attr mode_owner_attr data_btree_attr ctime_size_attr link_count_attr mtime_attr idata_attr
        xattr_attr other_attr :
      AtKind

unfoldable pub to_kind : ℕ → AtKind
to_kind kind =
    if kind == 0
    then rdev_attr
    else if kind == 1
    then mode_owner_attr
    else if kind == 2
    then data_btree_attr
    else if kind == 3
    then ctime_size_attr
    else if kind == 4
    then link_count_attr
    else if kind == 5
    then mtime_attr
    else if kind == 11
    then idata_attr
    else if kind == 12
    then xattr_attr
    else other_attr

unfoldable pub kind_size : AtKind → ℕ
kind_size rdev_attr = 8
kind_size mode_owner_attr = 12
kind_size data_btree_attr = 8
kind_size ctime_size_attr = 14
kind_size link_count_attr = 4
kind_size mtime_attr = 6
kind_size idata_attr = 2
kind_size xattr_attr = 4
kind_size other_attr = 0

unfoldable pub atsize : ℕ → ℕ
unfolding to_kind kind_size
atsize kind = kind_size (to_kind kind)

-- `bits & (1 << kind)`
unfoldable pub has : ℕ → ℕ → Bool
has bits kind = not (bit_and bits (2 ^ kind) == 0)

-- The loop of `encode_asize` from `kind` on, by the rounds left.
unfoldable pub asize_loop : ℕ → ℕ → ℕ → ℕ → ℕ
asize_loop zero kind bits need = need
asize_loop (suc rounds) kind bits need =
    asize_loop rounds (kind + 1) bits (if has bits kind then need + (atsize kind + 2) else need)

unfoldable pub encode_asize : ℕ → ℕ
unfolding asize_loop
encode_asize bits = asize_loop var_attrs 0 bits 0

unfoldable pub encode_kind : List ℕ → ℕ → ℕ → List ℕ
unfolding encode16
encode_kind attrs kind version = encode16 attrs (bit_or (kind * 2 ^ 12) version)

unfoldable pub huge_encode_dev : ℕ → ℕ
huge_encode_dev dev =
    let major = dev / 2 ^ 20 % 2 ^ 32 in
    let minor = bit_and dev (2 ^ 20 - 1) in
    bit_or (bit_or (bit_and minor 0xff) (major * 2 ^ 8 % 2 ^ 32))
      (bit_and minor (2 ^ 32 - 1 - 0xff) * 2 ^ 12 % 2 ^ 32)

unfoldable pub huge_decode_dev : ℕ → ℕ
huge_decode_dev dev =
    let cut = dev % 2 ^ 32 in
    let major = bit_and cut 0xfff00 / 2 ^ 8 in
    let minor = bit_or (bit_and cut 0xff) (bit_and (cut / 2 ^ 12) 0xfff00) in
    bit_or (major * 2 ^ 20 % 2 ^ 32) minor

-- The `switch` of `encode_attrs`.
unfoldable pub encode_field : AtKind → Inode → List ℕ → List ℕ
encode_field rdev_attr inode attrs = encode64 attrs (huge_encode_dev inode.rdev)
encode_field mode_owner_attr inode attrs =
    encode32 (encode32 (encode32 attrs inode.mode) inode.uid) inode.gid
encode_field data_btree_attr inode attrs = encode64 attrs (pack_root inode.root)
encode_field ctime_size_attr inode attrs =
    encode64 (encode48 attrs (tuxtime inode.ctime / 2 ^ time_attr_shift)) inode.size
encode_field link_count_attr inode attrs = encode32 attrs inode.nlink
encode_field mtime_attr inode attrs = encode48 attrs (tuxtime inode.mtime / 2 ^ time_attr_shift)
encode_field kind inode attrs = attrs

-- The loop of `encode_attrs` from `kind` on, by the rounds left.
unfoldable pub encode_loop : ℕ → ℕ → ℕ → Inode → ℕ → List ℕ → List ℕ
encode_loop zero kind version inode size attrs = attrs
encode_loop (suc rounds) kind version inode size attrs =
    let skipped = encode_loop rounds (kind + 1) version inode size attrs in
    let rest =
      encode_loop rounds (kind + 1) version inode size
        (encode_field (to_kind kind) inode (encode_kind attrs kind version)) in
    if not (has inode.present kind)
    then skipped
    else if leb size (length attrs + 3)
    then attrs
    else rest

unfoldable pub encode_attrs : ℕ → Inode → ℕ → List ℕ
unfolding encode_loop
encode_attrs version inode size = encode_loop var_attrs 0 version inode size []

-- `none` when fewer than `n` bytes are left.
unfoldable pub take_bytes : ℕ → List ℕ → Option (List ℕ × List ℕ)
take_bytes n attrs = if ltb (length attrs) n then none else some (take n attrs, drop n attrs)

-- `sizeof(struct xattr)` and `sizeof(struct xcache)`
abbrev pub sizeof_xattr : ℕ
sizeof_xattr = 4

abbrev pub sizeof_xcache : ℕ
sizeof_xcache = 4

unfoldable pub xattrs_size : List Xattr → ℕ
xattrs_size [] = 0
xattrs_size (xattr ∷ xattrs) = sizeof_xattr + length xattr.body + xattrs_size xattrs

unfoldable pub xcache_size : Xcache → ℕ
unfolding xattrs_size
xcache_size xcache = sizeof_xcache + xattrs_size xcache.xattrs

-- Add a decoded attribute behind the others: the cache is a new one before the first. `none` is a
-- cache that is NULL or whose end the assertion finds passed.
unfoldable pub add_xattr : Option Xcache → Xattr → Option Xcache
unfolding xcache_size
add_xattr none xattr = none
add_xattr (some xcache) xattr =
    if leb (xcache_size xcache + sizeof_xattr + length xattr.body) xcache.maxsize
    then some (record xcache { xattrs = xcache.xattrs ++ (xattr ∷ []) })
    else none

-- The `switch` of `decode_attrs`. `none` is the return of NULL, and also a read past the limit or a
-- failed assertion.
unfoldable pub decode_field : AtKind → Inode → List ℕ → Option (Inode × List ℕ)
unfolding take_bytes add_xattr
decode_field rdev_attr inode attrs = do
  (v64, rest) ← decode64 attrs
  some (record inode { rdev = huge_decode_dev v64 }, rest)
decode_field mode_owner_attr inode attrs = do
  (mode, attrs1) ← decode32 attrs
  (uid, attrs2) ← decode32 attrs1
  (gid, rest) ← decode32 attrs2
  some (record inode { mode = mode; uid = uid; gid = gid }, rest)
decode_field data_btree_attr inode attrs = do
  (v64, rest) ← decode64 attrs
  some (record inode { root = unpack_root v64 }, rest)
decode_field ctime_size_attr inode attrs = do
  (v64, attrs1) ← decode48 attrs
  (size, rest) ← decode64 attrs1
  some (record inode { size = size; ctime = spectime (v64 * 2 ^ time_attr_shift % 2 ^ 64) }, rest)
decode_field link_count_attr inode attrs = do
  (nlink, rest) ← decode32 attrs
  some (record inode { nlink = nlink }, rest)
decode_field mtime_attr inode attrs = do
  (v64, rest) ← decode48 attrs
  some (record inode { mtime = spectime (v64 * 2 ^ time_attr_shift % 2 ^ 64) }, rest)
decode_field xattr_attr inode attrs = do
  (bytes, attrs1) ← decode16 attrs
  (atom, attrs2) ← decode16 attrs1
  (body, rest) ← take_bytes ((bytes + 2 ^ 16 - 2) % 2 ^ 16) attrs2
  xcache ← add_xattr inode.xcache (record { atom = atom; body = body })
  some (record inode { xcache = some xcache }, rest)
decode_field kind inode attrs = none

-- One attribute behind its head.
unfoldable pub decode_attr : ℕ → Inode → List ℕ → Option (Inode × List ℕ)
decode_attr kind inode attrs = do
  (inode', rest) ← decode_field (to_kind kind) inode attrs
  some (record inode' { present = bit_or inode'.present (2 ^ kind) }, rest)

-- The loop of `decode_attrs`. Each round takes two bytes or more, so that the number of bytes is fuel
-- enough. A skip past the limit leaves nothing.
unfoldable pub decode_loop : ℕ → ℕ → Inode → List ℕ → Option (List ℕ) × Inode
decode_loop zero version inode attrs =
    if ltb (length attrs) 2 then (some attrs, inode) else (none, inode)
decode_loop (suc fuel) version inode attrs = elim (decode16 attrs) [
  | none ↦ (some attrs, inode)
  | some (head, attrs') ↦
      let kind = head / 2 ^ 12 in
      if bit_and head 0xfff == version
      then elim (decode_attr kind inode attrs') [
        | none ↦ (none, inode)
        | some (inode', rest) ↦ decode_loop fuel version inode' rest
      ]
      else decode_loop fuel version inode (drop (atsize kind) attrs')
]

unfoldable pub decode_attrs : ℕ → Inode → List ℕ → Option (List ℕ) × Inode
unfolding decode_loop
decode_attrs version inode attrs = decode_loop (length attrs) version inode attrs

-- The loop of `encode_xattrs`.
unfoldable pub encode_xattrs_loop : ℕ → List Xattr → ℕ → List ℕ → List ℕ
encode_xattrs_loop version [] size attrs = attrs
encode_xattrs_loop version (xattr ∷ xattrs) size attrs =
    let rest = encode_xattrs_loop version xattrs size (
      encode16 (encode16 (encode_kind attrs 12 version) (length xattr.body + 2)) xattr.atom
      ++ xattr.body) in
    if leb size (length attrs + 3) then attrs else rest

-- The bytes before `attrs` are not among those of the result; `size` counts from there.
unfoldable pub encode_xattrs : ℕ → Inode → ℕ → List ℕ
unfolding encode_xattrs_loop
encode_xattrs version inode size = elim inode.xcache [
  | none ↦ []
  | some xcache ↦ encode_xattrs_loop version xcache.xattrs size []
]

unfoldable pub encode_xsize_loop : List Xattr → ℕ → ℕ
encode_xsize_loop [] size = size
encode_xsize_loop (xattr ∷ xattrs) size =
    encode_xsize_loop xattrs (size + (2 + kind_size xattr_attr + length xattr.body))

unfoldable pub encode_xsize : Inode → ℕ
unfolding encode_xsize_loop
encode_xsize inode = elim inode.xcache [
  | none ↦ 0
  | some xcache ↦ encode_xsize_loop xcache.xattrs 0
]

-- The loop of `decode_xsize`, with the number of bytes as fuel. A length that cannot be read ends it.
unfoldable pub decode_xsize_loop : ℕ → ℕ → List ℕ → ℕ → ℕ
decode_xsize_loop zero version attrs total = total
decode_xsize_loop (suc fuel) version attrs total = elim (decode16 attrs) [
  | none ↦ total
  | some (head, attrs') ↦
      let kind = head / 2 ^ 12 in
      if kind == 12 || kind == 11
      then elim (decode16 attrs') [
        | none ↦ total
        | some (bytes, attrs2) ↦
            decode_xsize_loop fuel version (drop bytes attrs2)
              (if bit_and head 0xfff == version then total + sizeof_xattr + bytes - 2 else total)
      ]
      else decode_xsize_loop fuel version (drop (atsize kind) attrs') total
]

unfoldable pub decode_xsize : ℕ → List ℕ → ℕ
unfolding decode_xsize_loop
decode_xsize version attrs =
    let total = decode_xsize_loop (length attrs) version attrs 0 in
    if total == 0 then 0 else total + sizeof_xcache
