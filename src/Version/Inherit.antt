-- ===== src/Version/Inherit.antt =====
-- `lookup_element` and `same_chunk` (user/version.c) on the path bitmaps that `need_path` keeps.
use tux.Base.{
  ℕ, ◌+◌, ◌≤◌, ◌≡◌, refl, arith, ltb, ◌==◌, ◌&&◌, Bool-cases, inl, inr, true, false, Bool, Option,
  none, List, [], ◌∷◌,
}
use tux.Version.{
  Sb, Element, maxversions, update, need_path, highest, lookup_element, highest2, same_place,
  same_chunk,
}
use tux.Version.Lookup.{on_path, nearest, IsRooted, mark_path-on_path, highest-nearest}

-- The bitmaps that are marked as loaded are those of the paths.
pub record IsLoaded (sb : Sb) : Type 0 where
  pub paths :
      (v label : ℕ)
      → sb.has_pathmap v ≡ true
      → sb.pathmap v label ≡ on_path maxversions sb.parent v label

need_path-at :
    (sb : Sb) (target label : ℕ)
    → IsLoaded sb
    → (need_path sb target).0 label ≡ on_path maxversions sb.parent target label
unfolding need_path
need_path-at sb target label loaded = elim (Bool-cases (sb.has_pathmap target)) [
  | inl is ↦ rw is (loaded.paths target label is)
  | inr missing ↦ rw missing (mark_path-on_path maxversions sb.parent target (λ _. false) label)
]

need_path-map :
    (sb : Sb) (target : ℕ)
    → IsLoaded sb
    → (need_path sb target).0 ≡ on_path maxversions sb.parent target
need_path-map sb target loaded = λ i label. need_path-at sb target label loaded i

-- Loading a path keeps the others right, and changes neither the tree nor the orders.
pub need_path-IsLoaded : (sb : Sb) (target : ℕ) → IsLoaded sb → IsLoaded (need_path sb target).1
unfolding need_path update
need_path-IsLoaded sb target loaded = elim (Bool-cases (sb.has_pathmap target)) [
  | inl is ↦ rw is loaded
  | inr missing ↦ rw missing (record {
    paths = λ v label has. elim (Bool-cases (v == target)) [
      | inl same ↦
          let e : v ≡ target = ground arith in
          rw (same, e) (mark_path-on_path maxversions sb.parent target (λ _. false) label)
      | inr other ↦ rw other (loaded.paths v label (rw other at has))
    ];
  })
]

-- A version inherits the first element of its nearest ancestor that has one, itself included, when each
-- version on its path has a higher order than its parent: the single pass over the elements finds what
-- the walk up the tree finds.
pub lookup_element-nearest :
    (sb : Sb) (elements : List Element) (target : ℕ)
    → IsLoaded sb
    → IsRooted sb.parent sb.ordmap target
    → sb.ordmap target ≤ maxversions
    → (lookup_element sb elements target).0 ≡ nearest maxversions sb.parent elements target
unfolding lookup_element
lookup_element-nearest sb elements target loaded rooted deep =
    rw (need_path-map sb target loaded)
      (highest-nearest sb.parent sb.ordmap elements maxversions target rooted deep)

highest2-highest :
    (path1 path2 : ℕ → Bool) (ordmap : ℕ → ℕ) (elements : List Element) (at high1 high2 : ℕ)
    (e1 e2 : Option ℕ)
    → highest2 path1 path2 ordmap elements at high1 high2 e1 e2
      ≡ (highest path1 ordmap elements at high1 e1, highest path2 ordmap elements at high2 e2)
unfolding highest2 highest
highest2-highest path1 path2 ordmap [] at high1 high2 e1 e2 = refl
highest2-highest path1 path2 ordmap (e ∷ elements) at high1 high2 e1 e2 =
    elim (Bool-cases (path1 e.label && ltb high1 (ordmap e.label))) [
      | inl a ↦ elim (Bool-cases (path2 e.label && ltb high2 (ordmap e.label))) [
        | inl b ↦ rw (a, b) (highest2-highest path1 path2 ordmap elements (at + 1) _ _ _ _)
        | inr b ↦ rw (a, b) (highest2-highest path1 path2 ordmap elements (at + 1) _ _ _ _)
      ]
      | inr a ↦ elim (Bool-cases (path2 e.label && ltb high2 (ordmap e.label))) [
        | inl b ↦ rw (a, b) (highest2-highest path1 path2 ordmap elements (at + 1) _ _ _ _)
        | inr b ↦ rw (a, b) (highest2-highest path1 path2 ordmap elements (at + 1) _ _ _ _)
      ]
    ]

need_path-parent : (sb : Sb) (target : ℕ) → (need_path sb target).1.parent ≡ sb.parent
unfolding need_path
need_path-parent sb target = elim (Bool-cases (sb.has_pathmap target)) [
  | inl is ↦ rw is refl
  | inr missing ↦ rw missing refl
]

-- Two versions share a chunk exactly when their nearest ancestors with an element give the same one, or
-- neither has any, when each version on the paths has a higher order than its parent.
pub same_chunk-nearest :
    (sb : Sb) (elements : List Element) (version1 version2 : ℕ)
    → IsLoaded sb
    → IsRooted sb.parent sb.ordmap version1
    → IsRooted sb.parent sb.ordmap version2
    → sb.ordmap version1 ≤ maxversions
    → sb.ordmap version2 ≤ maxversions
    → (same_chunk sb elements version1 version2).0
      ≡ same_place
          (nearest maxversions sb.parent elements version1)
          (nearest maxversions sb.parent elements version2)
unfolding same_chunk
same_chunk-nearest sb elements version1 version2 loaded rooted1 rooted2 deep1 deep2 =
    let loaded1 = (need_path sb version1).1 in
    let path2 = need_path-map loaded1 version2 (need_path-IsLoaded sb version1 loaded) in
    rw (need_path-map sb version1 loaded, path2, need_path-parent sb version1)
      (rw
        (
          highest2-highest (on_path maxversions sb.parent version1)
              (on_path maxversions sb.parent version2) sb.ordmap elements 0 0 0 none none,
          highest-nearest sb.parent sb.ordmap elements maxversions version1 rooted1 deep1,
          highest-nearest sb.parent sb.ordmap elements maxversions version2 rooted2 deep2,
        )
        refl)
