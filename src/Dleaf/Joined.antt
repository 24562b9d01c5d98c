-- ===== src/Dleaf/Joined.antt =====
-- Entries of one group behind those of another (user/kernel/dleaf.c).
use tux.Base.{
  ℕ, zero, suc, ◌+◌, ◌-◌, ◌*◌, ◌^◌, ◌%◌, ◌≤◌, ◌<◌, ◌≡◌, refl, sym, ◌∙◌, ap, arith, List, [], ◌∷◌,
  ◌++◌, take, drop, length, length-drop,
}
use tux.Dleaf.{Entry, Extent}
use tux.Dleaf.View.{cells, AreEntries, AreExtents}
use tux.Dleaf.Split.{inc_limit, inc_limits}
use tux.Dleaf.Cut.{last_limit, le-last_limit}

module _ {ℓ} {A : Type ℓ} where
  pub take-append : (n : ℕ) (xs ys : List A) → n ≤ length xs → take n (xs ++ ys) ≡ take n xs
  take-append zero xs ys h = refl
  take-append (suc n) [] ys h = absurd (omega arith)
  take-append (suc n) (x ∷ xs) ys h = ap (λ l. x ∷ l) (take-append n xs ys (omega arith))

  pub drop-append : (n : ℕ) (xs ys : List A) → n ≤ length xs → drop n (xs ++ ys) ≡ drop n xs ++ ys
  drop-append zero xs ys h = refl
  drop-append (suc n) [] ys h = absurd (omega arith)
  drop-append (suc n) (x ∷ xs) ys h = drop-append n xs ys (omega arith)

  pub drop-append_behind :
      (n k : ℕ) (xs ys : List A) → n ≡ length xs + k → drop n (xs ++ ys) ≡ drop k ys
  drop-append_behind n k [] ys e = ap (λ m. drop m ys) (omega arith)
  drop-append_behind zero k (x ∷ xs) ys e = absurd (omega arith)
  drop-append_behind (suc n) k (x ∷ xs) ys e = drop-append_behind n k xs ys (omega arith)

-- The least `keylo` that may follow.
abbrev pub next_least : ℕ → List Entry → ℕ
next_least least [] = least
next_least least (entry ∷ entries) = next_least (entry.keylo + 1) entries

pub AreEntries-append :
    (k c least limit : ℕ) (entries more : List Entry)
    → k ≡ length entries + c
    → AreEntries (length entries) least limit entries
    → AreEntries c (next_least least entries) (last_limit limit (length entries) entries) more
    → AreEntries k least limit (entries ++ more)
      × (last_limit limit k (entries ++ more)
          ≡ last_limit (last_limit limit (length entries) entries) c more)
AreEntries-append k c least limit [] more e h h' = let e' : k ≡ c = omega arith in rw e' (h', refl)
AreEntries-append zero c least limit (entry ∷ entries) more e h h' = absurd (omega arith)
AreEntries-append (suc k) c least limit (entry ∷ entries) more e (low, above, lo, byte, rest) h' =
    let (a, b) =
      AreEntries-append k c (entry.keylo + 1) entry.limit entries more (omega arith) rest h' in
    ((low, above, lo, byte, a), b)

-- Entries before others are accepted as before.
pub AreEntries-before :
    (c least limit : ℕ) (entries more : List Entry)
    → AreEntries c least limit entries
    → AreEntries c least limit (entries ++ more)
AreEntries-before zero least limit entries more h = tt
AreEntries-before (suc c) least limit [] more h = absurd h
AreEntries-before (suc c) least limit (e ∷ entries) more (low, above, lo, byte, rest) =
    (low, above, lo, byte, AreEntries-before c (e.keylo + 1) e.limit entries more rest)

pub AreExtents-before :
    (c : ℕ) (extents more : List Extent) → AreExtents c extents → AreExtents c (extents ++ more)
AreExtents-before zero extents more h = tt
AreExtents-before (suc c) [] more h = absurd h
AreExtents-before (suc c) (x ∷ extents) more (pos, rest) =
    (pos, AreExtents-before c extents more rest)

pub AreExtents-append :
    (k c : ℕ) (extents more : List Extent)
    → k ≡ length extents + c
    → AreExtents (length extents) extents
    → AreExtents c more
    → AreExtents k (extents ++ more)
AreExtents-append k c [] more e h h' = let e' : k ≡ c = omega arith in rw e' h'
AreExtents-append zero c (x ∷ extents) more e h h' = absurd (omega arith)
AreExtents-append (suc k) c (x ∷ extents) more e (pos, rest) h' =
    (pos, AreExtents-append k c extents more (omega arith) rest h')

-- Entries whose limits count on from `base`.
pub AreEntries-raise :
    (c least limit base : ℕ) (entries : List Entry)
    → AreEntries c least limit entries
    → limit < 256
    → base + last_limit limit c entries < 256
    → AreEntries c least (base + limit) (inc_limits c base entries)
      × (last_limit (base + limit) c (inc_limits c base entries)
          ≡ base + last_limit limit c entries)
unfolding inc_limits inc_limit
AreEntries-raise zero least limit base entries h small room = (tt, refl)
AreEntries-raise (suc c) least limit base [] h small room = absurd h
AreEntries-raise (suc c) least limit base (x ∷ entries) (low, above, lo, byte, rest) small room =
    let (le, last) = le-last_limit c (x.keylo + 1) x.limit entries rest byte in
    let e : (x.limit + base) % 256 ≡ base + x.limit = omega arith in
    let (a, b) = AreEntries-raise c (x.keylo + 1) x.limit base entries rest byte room in
    rw e ((low, omega arith, lo, omega arith, a), b)

cells-raise :
    (key c least limit base : ℕ) (entries : List Entry) (extents : List Extent)
    → AreEntries c least limit entries
    → limit < 256
    → base + last_limit limit c entries < 256
    → cells key limit (take c entries) extents
      ≡ cells key (base + limit) (take c (inc_limits c base entries)) extents
unfolding cells inc_limits inc_limit
cells-raise key zero least limit base entries extents h small room = refl
cells-raise key (suc c) least limit base [] extents h small room = absurd h
cells-raise key (suc c) least limit base (x ∷ entries) extents (low, above, lo, byte, rest) small
      room =
    let (le, last) = le-last_limit c (x.keylo + 1) x.limit entries rest byte in
    let e : (x.limit + base) % 256 ≡ base + x.limit = omega arith in
    let d : base + x.limit - (base + limit) ≡ x.limit - limit = omega arith in
    let ih =
      cells-raise key c (x.keylo + 1) x.limit base entries (drop (x.limit - limit) extents) rest
        byte room in
    rw e (rw d (ap (λ l. (key * 2 ^ 24 + x.keylo, take (x.limit - limit) extents) ∷ l) ih))

-- The cells of entries behind others are behind the others' cells.
cells-append :
    (key least limit : ℕ) (entries more : List Entry) (extents rest : List Extent)
    → AreEntries (length entries) least limit entries
    → limit < 256
    → limit + length extents ≡ last_limit limit (length entries) entries
    → cells key limit (entries ++ more) (extents ++ rest)
      ≡ cells key limit entries extents
        ++ cells key (last_limit limit (length entries) entries) more rest
unfolding cells
cells-append key least limit [] more [] rest h small e = refl
cells-append key least limit [] more (x ∷ extents) rest h small e = absurd (omega arith)
cells-append key least limit (y ∷ entries) more extents rest (low, above, lo, byte, t) small e =
    let (le, last) = le-last_limit (length entries) (y.keylo + 1) y.limit entries t byte in
    let own = y.limit - limit in
    let n = length-drop {0} own extents in
    let a = take-append own extents rest (omega arith) in
    let b = drop-append own extents rest (omega arith) in
    let ih =
      cells-append key (y.keylo + 1) y.limit entries more (drop own extents) rest t byte
        (omega arith) in
    rw a (rw b (ap (λ l. (key * 2 ^ 24 + y.keylo, take own extents) ∷ l) ih))

pub cells-join :
    (key c least : ℕ) (entries more : List Entry) (extents rest : List Extent)
    → AreEntries (length entries) 0 0 entries
    → length extents ≡ last_limit 0 (length entries) entries
    → AreEntries c least 0 more
    → length extents + last_limit 0 c more < 256
    → cells key 0 (entries ++ take c (inc_limits c (length extents) more)) (extents ++ rest)
      ≡ cells key 0 entries extents ++ cells key 0 (take c more) rest
cells-join key c least entries more extents rest h e h' room =
    let base = length extents in
    let z : base + 0 ≡ base = omega arith in
    let a =
      cells-append key 0 0 entries (take c (inc_limits c base more)) extents rest h (omega arith)
        (omega arith) in
    let b = rw z at (cells-raise key c least 0 base more rest h' (omega arith) room) in
    a
    ∙ ap (λ l. cells key 0 entries extents ++ cells key l (take c (inc_limits c base more)) rest)
        (sym e)
    ∙ ap (λ l. cells key 0 entries extents ++ l) (sym b)
