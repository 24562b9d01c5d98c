-- ===== src/Btree/Refine.antt =====
-- `probe` (user/kernel/btree.c) against the search of a single node.
use tux.Base.{
  ℕ, zero, suc, ◌≤◌, ◌<◌, ◌≡◌, refl, arith, ltb, Bool-cases, inl, inr, true, false, [], ◌∷◌, ◌++◌,
  some, append-nil,
}
use tux.Errno.{ok}
use tux.Btree.{IndexEntry, Bnode, Volume, Root, node_of}
use tux.Btree.Cursor.{probe}
use tux.Btree.Tree.{IsTree, AreEntries, bound, flatten_entries, flatten_first, flatten}
use tux.Btree.Search.{floor}
use tux.Btree.Probe.{floor_entry, find_leaf, find_path, IsTree-some, probe_levels-IsTree}

-- Every key of the list is below `hi`.
abbrev AllBelow : ℕ → Bnode → Type 0
AllBelow hi [] = Unit
AllBelow hi (entry ∷ entries) = (entry.key < hi) × AllBelow hi entries

AllBelow-append :
    (lo hi : ℕ) (xs ys : Bnode) → lo ≤ hi → AllBelow lo xs → AllBelow hi ys → AllBelow hi (xs ++ ys)
AllBelow-append lo hi [] ys h hx hy = hy
AllBelow-append lo hi (x ∷ xs) ys h (low, hx) hy =
    (omega arith, AllBelow-append lo hi xs ys h hx hy)

floor-append_before :
    (xs : Bnode) (y : IndexEntry) (ys : Bnode) (key : ℕ) (best : IndexEntry)
    → ltb key y.key ≡ true
    → floor (xs ++ y ∷ ys) key best ≡ floor xs key best
unfolding floor
floor-append_before [] y ys key best h = rw h refl
floor-append_before (x ∷ xs) y ys key best h = rw (floor-append_before xs y ys key x h) refl

floor-append_behind :
    (xs : Bnode) (y : IndexEntry) (ys : Bnode) (key : ℕ) (best : IndexEntry)
    → AllBelow y.key xs
    → ltb key y.key ≡ false
    → floor (xs ++ y ∷ ys) key best ≡ floor ys key y
unfolding floor
floor-append_behind [] y ys key best hx h = rw h refl
floor-append_behind (x ∷ xs) y ys key best (low, hx) h =
    let e : ltb key x.key ≡ false = ground arith in rw e (floor-append_behind xs y ys key x hx h)

-- A flat list over the keys from `lo` up to `hi`, in which the search of `key` ends at `found`.
record IsFlat (flat : Bnode) (lo hi key found : ℕ) : Type 0 where
  left : ℕ
  rest : Bnode
  is : flat ≡ record { key = lo; block = left } ∷ rest
  below : AllBelow hi rest
  order : lo < hi
  finds : (floor rest key (record { key = lo; block = left })).block ≡ found

IsTree-lower :
    (vol : Volume) (depth block lo low hi : ℕ)
    → lo ≤ low
    → IsTree vol depth block low hi
    → IsTree vol depth block lo hi
IsTree-lower vol zero block lo low hi h (order, bytes, e) = (omega arith, bytes, e)
IsTree-lower vol (suc depth) block lo low hi h (first, entries, e, below, tree) =
    (first, entries, e, omega arith, tree)

module _ (key : ℕ) (below : ℕ → ℕ → Bnode) (find : ℕ → ℕ) (P : ℕ → ℕ → ℕ → Type 0) where
  IsFlat-entries :
      (ih : (block lo hi : ℕ) → P block lo hi → IsFlat (below block lo) lo hi key (find block))
      (first : IndexEntry) (entries : Bnode) (lo hi : ℕ)
      → P first.block lo (bound entries hi)
      → AreEntries P entries hi
      → IsFlat
          (below first.block lo ++ flatten_entries below entries)
          lo
          hi
          key
          (find (floor entries key first).block)
  unfolding floor flatten_entries
  IsFlat-entries ih first [] lo hi p h =
      rw (append-nil (below first.block lo)) (ih first.block lo hi p)
  IsFlat-entries ih first (g ∷ gs) lo hi p h =
      let a = ih first.block lo g.key p in
      let r = IsFlat-entries ih g gs g.key hi h.1 h.2 in
      let right : IndexEntry = record { key = g.key; block = r.left } in
      record {
        left = a.left;
        rest = a.rest ++ right ∷ r.rest;
        is = rw (a.is, r.is) refl;
        below =
            AllBelow-append g.key hi a.rest (right ∷ r.rest) (omega (arith, r.order)) a.below
              (r.order, r.below);
        order = omega (arith, r.order, a.order);
        finds = elim (Bool-cases (ltb key g.key)) [
          | inl e ↦ rw (floor-append_before a.rest right r.rest key _ e, e) a.finds
          | inr e ↦ rw (floor-append_behind a.rest right r.rest key _ a.below e, e) r.finds
        ];
      }

flatten-IsFlat :
    (vol : Volume) (depth key block lo hi : ℕ)
    → IsTree vol depth block lo hi
    → IsFlat (flatten vol depth block lo) lo hi key (find_leaf vol depth block key)
unfolding flatten flatten_first find_leaf floor floor_entry node_of
flatten-IsFlat vol zero key block lo hi (order, bytes, e) = record {
  left = block;
  rest = [];
  is = refl;
  below = tt;
  order = order;
  finds = refl;
}
flatten-IsFlat vol (suc depth) key block lo hi (first, entries, e, low, h) = rw e (
    IsFlat-entries key (flatten vol depth) (λ b. find_leaf vol depth b key) (IsTree vol depth)
      (flatten-IsFlat vol depth key) first entries lo hi
      (IsTree-lower vol depth first.block lo first.key (bound entries hi) low h.1) h.2)

-- `probe` on a valid tree ends without an error, at the leaf that the search of a single node with all
-- the tree's separators takes.
pub probe-flatten :
    (vol : Volume) (root : Root) (lo hi key : ℕ)
    → IsTree vol root.depth root.block lo hi
    → probe vol root key
      ≡ ok (record {
        path = find_path vol root.depth root.block key [];
        leaf = some (floor_entry (flatten vol root.depth root.block lo) key).block;
      })
unfolding probe floor_entry
probe-flatten vol root lo hi key h =
    let flat = flatten-IsFlat vol root.depth key root.block lo hi h in
    let (content, readable) = IsTree-some vol root.depth root.block lo hi h in
    rw (probe, readable, flat.is, flat.finds)
      (probe_levels-IsTree vol root.depth root.block lo hi key [] h)
