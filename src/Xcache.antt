-- ===== src/Xcache.antt =====
-- The cache of extended attributes of an inode (user/kernel/xattr.c). The list of attributes is that of the module `Iattr`: its end is the limit, so that
-- the returns for a corrupt cache, whose attributes overrun the limit, do not occur.
-- The fields `size` and `maxsize` of a cache and `atom` and `size` of an attribute have 16 bits. A
-- `size` of the cache that wraps around leaves its end within the attributes: that is `none`. The
-- dictionary of the atom names, which is a directory, is left out.
pub mod Lookup
use tux.Base.{
  ℕ, zero, suc, ◌+◌, ◌-◌, ◌*◌, ◌/◌, ◌%◌, ◌^◌, max, bit_and, bit_or, ◌==◌, leb, ltb, if◌then◌else◌,
  Bool, not, true, false, ◌&&◌, ◌||◌, Option, none, some, List, [], ◌∷◌, ◌++◌, length,
}
use tux.Base.Memory.{store}
use tux.Errno.{Errno, Result, ok, err, eio, enomem, eexist, erange, enoattr}
use tux.Iattr.{Xattr, Xcache, xcache_size, xattrs_size, sizeof_xattr, sizeof_xcache}

unfoldable pub lookup_loop : List Xattr → ℕ → Result Xattr
lookup_loop [] atom = err enoattr
lookup_loop (xattr ∷ xattrs) atom =
    let rest = lookup_loop xattrs atom in if xattr.atom == atom then ok xattr else rest

unfoldable pub xcache_lookup : Option Xcache → ℕ → Result Xattr
unfolding lookup_loop
xcache_lookup none atom = err enoattr
xcache_lookup (some xcache) atom = lookup_loop xcache.xattrs atom

-- `alloc` says whether `malloc` succeeds.
unfoldable pub new_xcache : Bool → ℕ → Option Xcache
new_xcache alloc maxsize =
    if alloc then some (record { maxsize = maxsize % 2 ^ 16; xattrs = [] }) else none

-- Removal of the attribute that `xcache_lookup` found, the first with its atom.
unfoldable pub remove_first : List Xattr → ℕ → List Xattr
remove_first [] atom = []
remove_first (xattr ∷ xattrs) atom =
    let rest = remove_first xattrs atom in if xattr.atom == atom then xattrs else xattr ∷ rest

unfoldable pub remove_old : Xcache → ℕ → Xcache
unfolding remove_first
remove_old xcache atom = record xcache { xattrs = remove_first xcache.xattrs atom }

-- The same for a cache that may be NULL.
unfoldable pub without : Option Xcache → ℕ → Option Xcache
unfolding remove_old
without none atom = none
without (some xcache) atom = some (remove_old xcache atom)

-- The part of `xcache_update` behind the removal: room for the new attribute, at the end.
unfoldable pub insert_new :
    Bool → Option Xcache → ℕ → List ℕ → Option (Result (Unit {0}) × Option Xcache)
unfolding new_xcache xcache_size
insert_new alloc none atom data_ =
    let more = sizeof_xattr + length data_ in
    let xattr : Xattr = record { atom = atom % 2 ^ 16; body = data_ } in
    elim (new_xcache alloc (sizeof_xcache + max more (2 ^ 7))) [
      | none ↦ some (err enomem, none)
      | some newcache ↦
          if leb (2 ^ 16) (sizeof_xcache + more)
          then none
          else some (ok tt, some (record newcache { xattrs = xattr ∷ [] }))
    ]
insert_new alloc (some xcache) atom data_ =
    let more = sizeof_xattr + length data_ in
    let xattrs = xcache.xattrs ++ (record { atom = atom % 2 ^ 16; body = data_ } ∷ []) in
    let wraps = leb (2 ^ 16) (xcache_size xcache + more) in
    if ltb xcache.maxsize (xcache_size xcache + more)
    then elim (new_xcache alloc (xcache_size xcache + max more xcache.maxsize)) [
      | none ↦ some (err enomem, some xcache)
      | some newcache ↦
          if wraps then none else some (ok tt, some (record newcache { xattrs = xattrs }))
    ]
    else if wraps
    then none
    else some (ok tt, some (record xcache { xattrs = xattrs }))

-- The new attribute and the number of references to count: a failure counts none.
unfoldable pub insert_counted :
    Bool
    → Option Xcache
    → ℕ
    → List ℕ
    → Option ℕ
    → Option (Result (Unit {0}) × Option Xcache × Option ℕ)
unfolding insert_new
insert_counted alloc xcache atom data_ change = elim (insert_new alloc xcache atom data_) [
  | none ↦ none
  | some pair ↦
      let (result, xcache') = pair in
      elim result [ err e ↦ some (err e, xcache', none) | ok _ ↦ some (ok tt, xcache', change) ]
]

-- `create` and `replace` are the bits of the flags. The last component is the change of the reference
-- count for which `use_atom` is called, `none` when it is not.
unfoldable pub xcache_update :
    Bool
    → Bool
    → Bool
    → Option Xcache
    → ℕ
    → List ℕ
    → Option (Result (Unit {0}) × Option Xcache × Option ℕ)
unfolding insert_counted
xcache_update alloc create replace xcache atom data_ = elim (xcache_lookup xcache atom) [
  | err e ↦
      if replace
      then some (err e, xcache, none)
      else insert_counted alloc xcache atom data_ (some 1)
  | ok found ↦
      if create
      then some (err eexist, xcache, none)
      else insert_counted alloc (without xcache atom) atom data_ none
]

-- The part of `get_xattr` behind the lookup of the atom, for a buffer of `size` bytes: the size of
-- the attribute, and its bytes if they are copied.
unfoldable pub get_found : Option Xcache → ℕ → ℕ → Result (ℕ × Option (List ℕ))
get_found xcache atom size = elim (xcache_lookup xcache atom) [
  | err e ↦ err e
  | ok xattr ↦
      if leb (length xattr.body) size
      then ok (length xattr.body, some xattr.body)
      else if not (size == 0)
      then err erange
      else ok (length xattr.body, none)
]

-- The part of `del_xattr` behind the lookup of the atom. A success calls `use_atom` with -1.
unfoldable pub del_found : Option Xcache → ℕ → Result (Unit {0}) × Option Xcache
del_found xcache atom = elim (xcache_lookup xcache atom) [
  | err e ↦ (err e, xcache)
  | ok found ↦ (ok tt, without xcache atom)
]
