-- ===== src/Xcache/Lookup.antt =====
-- The cache of extended attributes as a map from atoms to values.
use tux.Base.{
  ℕ, ◌+◌, ◌^◌, ◌<◌, ◌≡◌, ◌≢◌, ◌⊎◌, refl, arith, ◌==◌, Bool, true, false, Option, none, some, List,
  [], ◌∷◌, length,
}
use tux.Errno.{Result, ok, err, enomem, eexist, enoattr}
use tux.Iattr.{Xattr, Xcache, xcache_size, sizeof_xattr, sizeof_xcache}
use tux.Xcache.{lookup_loop, xcache_lookup, xcache_update}

-- No two attributes have the same atom.
unfoldable pub Absent : ℕ → List Xattr → Type 0
Absent atom [] = Unit
Absent atom (xattr ∷ xattrs) = (xattr.atom ≢ atom) × Absent atom xattrs

unfoldable pub Distinct : List Xattr → Type 0
Distinct [] = Unit
Distinct (xattr ∷ xattrs) = Absent xattr.atom xattrs × Distinct xattrs

lookup-Absent :
    (xattrs : List Xattr) (atom : ℕ) → Absent atom xattrs → lookup_loop xattrs atom ≡ err enoattr
unfolding lookup_loop Absent
lookup-Absent [] atom h = refl
lookup-Absent (xattr ∷ xattrs) atom (ne, h) =
    let test : (xattr.atom == atom) ≡ false = ground arith in rw test (lookup-Absent xattrs atom h)

unfoldable pub entries : Option Xcache → List Xattr
entries none = []
entries (some xcache) = xcache.xattrs

-- The field `size` of a cache, or that of the one to be made.
unfoldable pub size_of : Option Xcache → ℕ
size_of none = sizeof_xcache
size_of (some xcache) = xcache_size xcache

-- The attribute `atom` has the value `data_`, and every other attribute is as before.
pub record Updated (old new : Option Xcache) (atom : ℕ) (data_ : List ℕ) : Type 0 where
  pub here : xcache_lookup new atom ≡ ok (record { atom = atom; body = data_ })
  pub others : (other : ℕ) → atom ≢ other → xcache_lookup new other ≡ xcache_lookup old other
  pub distinct : Distinct (entries new)

abbrev pub UpdateOutcome :
    Bool
    → Bool
    → Bool
    → Option Xcache
    → ℕ
    → List ℕ
    → Result (Unit {0}) × Option Xcache × Option ℕ
    → Type 0
UpdateOutcome alloc create replace old atom data_ (ok _, new, change) =
    Updated old new atom data_
    × (((xcache_lookup old atom ≡ err enoattr) × ((replace ≡ false) × (change ≡ some 1)))
        ⊎ (((found : Xattr) × (xcache_lookup old atom ≡ ok found))
            × ((create ≡ false) × (change ≡ none))))
UpdateOutcome alloc create replace old atom data_ (err e, new, change) =
    (change ≡ none)
    × (((e ≡ enoattr) × ((replace ≡ true) × (new ≡ old)))
        ⊎ (((e ≡ eexist) × ((create ≡ true) × (new ≡ old))) ⊎ ((e ≡ enomem) × (alloc ≡ false))))

module _ (alloc create replace : Bool) (old : Option Xcache) (atom : ℕ) (data_ : List ℕ)
    (distinct : Distinct (entries old)) (low : atom < 2 ^ 16)
    (short : size_of old + (sizeof_xattr + length data_) < 2 ^ 16) where
  abbrev Updates : Type 0
  Updates =
      (outcome : Result (Unit {0}) × Option Xcache × Option ℕ) × ((xcache_update alloc create
            replace old atom data_
          ≡ some outcome)
        × UpdateOutcome alloc create replace old atom data_ outcome)
