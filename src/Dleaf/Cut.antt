-- ===== src/Dleaf/Cut.antt =====
-- The entries of one group of a file index leaf when the group is cut (user/kernel/dleaf.c).
use tux.Base.{
  ℕ, zero, suc, ◌+◌, ◌-◌, ◌*◌, ◌^◌, ◌%◌, ◌≤◌, ◌<◌, ◌≡◌, refl, ap, arith, List, [], ◌∷◌, ◌++◌, take,
  drop, get_or,
}
use tux.Base.Slices.{take-take, drop-drop, drop-take_sum}
use tux.Dleaf.{Entry, Extent, table_limit, zero_entry}
use tux.Dleaf.View.{cells, AreEntries, AreExtents}
use tux.Dleaf.Split.{minus, inc_limit, inc_limits}

-- The limit of the last of some entries, or the one before them.
abbrev pub last_limit : ℕ → ℕ → List Entry → ℕ
last_limit limit zero entries = limit
last_limit limit (suc count) [] = limit
last_limit limit (suc count) (entry ∷ entries) = last_limit entry.limit count entries

get_or-last_limit :
    (n least limit : ℕ) (entries : List Entry)
    → AreEntries (suc n) least limit entries
    → (get_or entries n zero_entry).limit ≡ last_limit limit (suc n) entries
get_or-last_limit n least limit [] h = absurd h
get_or-last_limit zero least limit (entry ∷ entries) h = refl
get_or-last_limit (suc n) least limit (entry ∷ entries) (low, above, lo, byte, rest) =
    get_or-last_limit n (entry.keylo + 1) entry.limit entries rest

pub table_limit-last_limit :
    (count least limit : ℕ) (entries : List Entry)
    → 0 < count
    → AreEntries count least limit entries
    → table_limit entries count ≡ last_limit limit count entries
table_limit-last_limit zero least limit entries pos h = elim pos [ ]
table_limit-last_limit (suc n) least limit entries pos h =
    let e : suc n - 1 ≡ n = omega arith in
    rw (table_limit, e) (get_or-last_limit n least limit entries h)

pub le-last_limit :
    (count least limit : ℕ) (entries : List Entry)
    → AreEntries count least limit entries
    → limit < 256
    → (limit ≤ last_limit limit count entries) × (last_limit limit count entries < 256)
le-last_limit zero least limit entries h byte = (omega arith, byte)
le-last_limit (suc count) least limit [] h byte = absurd h
le-last_limit (suc count) least limit (entry ∷ entries) (low, above, lo, eight, rest) byte =
    let (a, b) = le-last_limit count (entry.keylo + 1) entry.limit entries rest eight in
    (omega arith, b)

pub AreEntries-take :
    (count k least limit : ℕ) (entries : List Entry)
    → count ≤ k
    → AreEntries count least limit entries
    → AreEntries count least limit (take k entries)
AreEntries-take zero k least limit entries le h = tt
AreEntries-take (suc count) zero least limit entries le h = elim le [ ]
AreEntries-take (suc count) (suc k) least limit [] le h = absurd h
AreEntries-take (suc count) (suc k) least limit (e ∷ entries) le (low, above, lo, byte, rest) =
    (low, above, lo, byte, AreEntries-take count k (e.keylo + 1) e.limit entries (omega arith) rest)

pub AreExtents-take :
    (count k : ℕ) (extents : List Extent)
    → count ≤ k
    → AreExtents count extents
    → AreExtents count (take k extents)
AreExtents-take zero k extents le h = tt
AreExtents-take (suc count) zero extents le h = elim le [ ]
AreExtents-take (suc count) (suc k) [] le h = absurd h
AreExtents-take (suc count) (suc k) (x ∷ extents) le (pos, rest) =
    (pos, AreExtents-take count k extents (omega arith) rest)

pub AreExtents-drop :
    (n m k : ℕ) (extents : List Extent)
    → k ≡ n + m
    → AreExtents k extents
    → AreExtents n extents × AreExtents m (drop n extents)
AreExtents-drop zero m k extents e h = let e' : k ≡ m = omega arith in (tt, rw e' at h)
AreExtents-drop (suc n) m zero extents e h = absurd (omega arith)
AreExtents-drop (suc n) m (suc k) [] e h = absurd h
AreExtents-drop (suc n) m (suc k) (x ∷ extents) e (pos, rest) =
    let (a, b) = AreExtents-drop n m k extents (omega arith) rest in ((pos, a), b)

-- Entries `n` to `k` behind the first `n`.
pub AreEntries-drop :
    (n m k least limit : ℕ) (entries : List Entry)
    → k ≡ n + m
    → AreEntries k least limit entries
    → AreEntries n least limit entries
      × AreEntries m 0 (last_limit limit n entries) (drop n entries)
      × (last_limit limit k entries ≡ last_limit (last_limit limit n entries) m (drop n entries))
AreEntries-drop zero m k least limit entries e h =
    let e' : k ≡ m = omega arith in
    (tt, AreEntries-least m least limit entries (rw e' at h), rw e' refl)
  where
    AreEntries-least :
        (m least limit : ℕ) (entries : List Entry)
        → AreEntries m least limit entries
        → AreEntries m 0 limit entries
    AreEntries-least zero least limit entries h = tt
    AreEntries-least (suc m) least limit [] h = absurd h
    AreEntries-least (suc m) least limit (entry ∷ entries) (low, above, lo, byte, rest) =
        (omega arith, above, lo, byte, rest)
AreEntries-drop (suc n) m zero least limit entries e h = absurd (omega arith)
AreEntries-drop (suc n) m (suc k) least limit [] e h = absurd h
AreEntries-drop (suc n) m (suc k) least limit (entry ∷ entries) e (low, above, lo, byte, rest) =
    let (a, b, c) =
      AreEntries-drop n m k (entry.keylo + 1) entry.limit entries (omega arith) rest in
    ((low, above, lo, byte, a), b, c)

-- Entries whose limits count from `base` on.
pub AreEntries-shift :
    (m least limit base : ℕ) (entries : List Entry)
    → AreEntries m least limit entries
    → base ≤ limit
    → base < 256
    → AreEntries m least (limit - base) (inc_limits m (minus base) entries)
      × (last_limit (limit - base) m (inc_limits m (minus base) entries)
          ≡ last_limit limit m entries - base)
unfolding inc_limits inc_limit minus
AreEntries-shift zero least limit base entries h le small = (tt, refl)
AreEntries-shift (suc m) least limit base [] h le small = absurd h
AreEntries-shift (suc m) least limit base (entry ∷ entries) (low, above, lo, byte, rest) le small =
    let e : (entry.limit + (2 ^ 32 - base) % 2 ^ 32) % 256 ≡ entry.limit - base = omega arith in
    let (a, b) =
      AreEntries-shift m (entry.keylo + 1) entry.limit base entries rest (omega arith) small in
    rw e ((low, omega arith, lo, omega arith, a), b)

cells-shift :
    (key m least limit base : ℕ) (entries : List Entry) (extents : List Extent)
    → AreEntries m least limit entries
    → base ≤ limit
    → base < 256
    → cells key limit (take m entries) extents
      ≡ cells key (limit - base) (take m (inc_limits m (minus base) entries)) extents
unfolding cells inc_limits inc_limit minus
cells-shift key zero least limit base entries extents h le small = refl
cells-shift key (suc m) least limit base [] extents h le small = absurd h
cells-shift key (suc m) least limit base (entry ∷ entries) extents (low, above, lo, byte, rest) le
      small =
    let e : (entry.limit + (2 ^ 32 - base) % 2 ^ 32) % 256 ≡ entry.limit - base = omega arith in
    let d : entry.limit - base - (limit - base) ≡ entry.limit - limit = omega arith in
    let ih =
      cells-shift key m (entry.keylo + 1) entry.limit base entries
        (drop (entry.limit - limit) extents) rest (omega arith) small in
    rw e (rw d (ap (λ l. (key * 2 ^ 24 + entry.keylo, take (entry.limit - limit) extents) ∷ l) ih))

-- The cells of a group are those before the cut and those behind it.
pub cells-cut :
    (key n m k least limit : ℕ) (entries : List Entry) (extents : List Extent)
    → k ≡ n + m
    → limit < 256
    → AreEntries k least limit entries
    → let base = last_limit limit n entries in
      cells key limit (take k entries) extents
      ≡ cells key limit (take n entries) (take (base - limit) extents)
        ++ cells key 0
            (take m (inc_limits m (minus base) (drop n entries)))
            (drop (base - limit) extents)
unfolding cells
cells-cut key zero m k least limit entries extents e small h =
    let e' : k ≡ m = omega arith in
    let z : limit - limit ≡ 0 = omega arith in
    rw e' (
      rw z (
        rw z at
          (cells-shift key m least limit limit entries extents (rw e' at h) (omega arith) small)))
cells-cut key (suc n) m zero least limit entries extents e small h = absurd (omega arith)
cells-cut key (suc n) m (suc k) least limit [] extents e small h = absurd h
cells-cut key (suc n) m (suc k) least limit (x ∷ entries) extents e small
      (low, above, lo, byte, rest) =
    let base = last_limit x.limit n entries in
    let (a, b, c) = AreEntries-drop n m k (x.keylo + 1) x.limit entries (omega arith) rest in
    let (le, small') = le-last_limit n (x.keylo + 1) x.limit entries a byte in
    let own = x.limit - limit in
    let ih =
      cells-cut key n m k (x.keylo + 1) x.limit entries (drop own extents) (omega arith) byte
        rest in
    let s : base - limit ≡ own + (base - x.limit) = omega arith in
    let first = take-take own (own + (base - x.limit)) extents (omega arith) in
    let inner = drop-take_sum own (base - x.limit) extents in
    let outer = drop-drop own (base - x.limit) extents in
    rw s (
      rw first
        (rw inner (rw⁻¹ outer (ap (λ l. (key * 2 ^ 24 + x.keylo, take own extents) ∷ l) ih))))
