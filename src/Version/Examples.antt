-- ===== src/Version/Examples.antt =====
-- A version tree of four versions: 1 under the root, 2 and 3 under 1.
use tux.Base.{ℕ, ◌+◌, ◌<◌, ◌≡◌, refl, arith, ◌==◌, if◌then◌else◌, true, false, some, List, [], ◌∷◌}
use tux.Version.{
  Sb, Element, maxversions, lookup_element, same_chunk, same_place, Chunks, new_chunk, find_element,
}
use tux.Version.Lookup.{IsRooted, root, child, nearest}
use tux.Version.Inherit.{IsLoaded, lookup_element-nearest, same_chunk-nearest}
use tux.Version.Allocate.{new_chunk-free}

abbrev parent_of : ℕ → ℕ
parent_of v = if v == 2 then 1 else if v == 3 then 1 else 0

abbrev order_of : ℕ → ℕ
order_of v = if v == 0 then 0 else if v == 1 then 1 else 2

abbrev tree : Sb
tree = record {
  parent = parent_of;
  used = λ v. true;
  ghost = λ v. false;
  present = λ v. false;
  has_pathmap = λ v. false;
  has_nearmap = λ v. false;
  child_index = λ v. if v == 0 then 0 else if v == 1 then 1 else 3;
  child_count = λ v. if v == 0 then 1 else if v == 1 then 2 else 0;
  children = λ i. i + 1;
  ordmap = order_of;
  version_count = 4;
  active_count = 4;
  pathmap = λ v label. false;
  nearmap = λ v label. false;
}

-- Version 2 has an element of its own, and 3 inherits that of 1.
abbrev pointers : List Element
pointers = record { label = 2; chunk = 7 } ∷ record { label = 1; chunk = 5 } ∷ []

tree-IsLoaded : IsLoaded tree
tree-IsLoaded = record { paths = λ v label h. ground arith }

rooted1 : IsRooted parent_of order_of 1
rooted1 = child (omega arith) root

lookup_element-nearest_example :
    (lookup_element tree pointers 3).0 ≡ nearest maxversions parent_of pointers 3
lookup_element-nearest_example =
    lookup_element-nearest tree pointers 3 tree-IsLoaded (child (omega arith) rooted1) (omega arith)

nearest-test : nearest 3 parent_of pointers 3 ≡ some 1
unfolding nearest find_element
nearest-test = refl

same_chunk-nearest_example :
    (same_chunk tree pointers 2 3).0
    ≡ same_place
        (nearest maxversions parent_of pointers 2)
        (nearest maxversions parent_of pointers 3)
same_chunk-nearest_example =
    same_chunk-nearest tree pointers 2 3 tree-IsLoaded (child (omega arith) rooted1)
      (child (omega arith) rooted1) (omega arith) (omega arith)

-- Only chunk 1 is free, and the search begins at 3.
abbrev nearly_full : Chunks
nearly_full = record {
  allocmap = λ c. if c == 1 then false else true;
  snapdata = λ c. 0;
  nextchunk = 3;
}

new_chunk-free_example :
    (chunk : ℕ) × (after : Chunks) × (new_chunk nearly_full 9 ≡ some (chunk, after))
    × (chunk < maxversions)
    × (nearly_full.allocmap chunk ≡ false)
    × (after.nextchunk ≡ chunk + 1)
    × ((other : ℕ)
        → (after.allocmap other ≡ (if other == chunk then true else nearly_full.allocmap other))
          × (after.snapdata other ≡ (if other == chunk then 9 else nearly_full.snapdata other)))
new_chunk-free_example = new_chunk-free nearly_full 9 1 (omega arith) (omega arith) refl
