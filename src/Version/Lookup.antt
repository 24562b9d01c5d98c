-- ===== src/Version/Lookup.antt =====
-- `lookup_element` (user/version.c) against the walk from a version up to the root.
use tux.Base.{
  ℕ, zero, suc, ◌+◌, ◌≤◌, ◌<◌, ◌≡◌, ◌≢◌, refl, sym, ◌∙◌, arith, ltb, ◌==◌, ◌&&◌, ◌||◌, Bool-cases,
  inl, inr, true, false, Bool, if◌then◌else◌, Option, Option-cases, none, some, List, [], ◌∷◌,
}
use native.Mathlib.Nat.{le_refl}
use tux.Version.{Element, update, mark_path, highest, find_element}

-- Whether a label is on the path from version `v` up to the root, which is not on it.
unfoldable pub on_path : ℕ → (ℕ → ℕ) → ℕ → ℕ → Bool
on_path zero parent v label = false
on_path (suc rounds) parent v label =
    let rest = on_path rounds parent (parent v) label in
    if v == 0 then false else if label == v then true else rest

-- The place of the first element of the nearest version from `v` upwards that has one.
unfoldable pub nearest : ℕ → (ℕ → ℕ) → List Element → ℕ → Option ℕ
nearest zero parent elements v = none
nearest (suc rounds) parent elements v =
    let above = nearest rounds parent elements (parent v) in
    if v == 0 then none else elim (find_element elements v 0) [ none ↦ above | some at ↦ some at ]

-- Each version on the path has a higher order than its parent.
pub data IsRooted (parent ordmap : ℕ → ℕ) : ℕ → Type 0 where
  root : IsRooted parent ordmap 0
  child :
      {v : ℕ}
      → ordmap (parent v) < ordmap v
      → IsRooted parent ordmap (parent v)
      → IsRooted parent ordmap v

pub mark_path-on_path :
    (rounds : ℕ) (parent : ℕ → ℕ) (v : ℕ) (map : ℕ → Bool) (label : ℕ)
    → mark_path rounds parent v map label ≡ (map label || on_path rounds parent v label)
unfolding mark_path on_path update
mark_path-on_path zero parent v map label = ground arith
mark_path-on_path (suc rounds) parent v map label =
    ground (arith, mark_path-on_path rounds parent (parent v) (update map v true) label)

-- The labels on the path have at most the order of its first version, and only that one has it.
on_path-order :
    (rounds : ℕ) (parent ordmap : ℕ → ℕ) (v label : ℕ)
    → IsRooted parent ordmap v
    → on_path rounds parent v label ≡ true
    → label ≢ v
    → ordmap label < ordmap v
unfolding on_path
on_path-order zero parent ordmap v label h on ne = ground arith
on_path-order (suc rounds) parent ordmap _ label root on ne = ground arith
on_path-order (suc rounds) parent ordmap v label (child lower h) on ne =
    ground (arith, on_path-order rounds parent ordmap (parent v) label h)

-- The loop depends on the path only at the labels of the elements.
highest-agree :
    (path path2 : ℕ → Bool) (ordmap : ℕ → ℕ) (v : ℕ) (elements : List Element) (at high : ℕ)
    (found : Option ℕ)
    → ((label : ℕ) → label ≢ v → path label ≡ path2 label)
    → find_element elements v at ≡ none
    → highest path ordmap elements at high found ≡ highest path2 ordmap elements at high found
unfolding highest find_element
highest-agree path path2 ordmap v [] at high found same absent = refl
highest-agree path path2 ordmap v (e ∷ elements) at high found same absent =
    elim (Bool-cases (e.label == v)) [
      | inl is ↦ ground arith
      | inr ne ↦
          let agree = same e.label (ground arith) in
          let rest : find_element elements v (at + 1) ≡ none = ground arith in
          rw
            (
              agree,
              highest-agree path path2 ordmap v elements (at + 1) (ordmap e.label) (some at) same
                  rest,
              highest-agree path path2 ordmap v elements (at + 1) high found same rest,
            )
            refl
    ]

-- Once the highest order of the path is found no other element replaces it.
highest-stays :
    (path : ℕ → Bool) (ordmap : ℕ → ℕ) (v : ℕ) (elements : List Element) (at : ℕ) (found : Option ℕ)
    → ((label : ℕ) → path label ≡ true → ordmap label ≤ ordmap v)
    → highest path ordmap elements at (ordmap v) found ≡ found
unfolding highest
highest-stays path ordmap v [] at found most = refl
highest-stays path ordmap v (e ∷ elements) at found most =
    let stays = highest-stays path ordmap v elements (at + 1) found most in
    elim (Bool-cases (path e.label)) [
      | inl on ↦
          let no : ltb (ordmap v) (ordmap e.label) ≡ false = ground (arith, most e.label on) in
          rw (on, no) stays
      | inr off ↦ rw off stays
    ]

-- The element of the path's first version is the one found.
highest-first :
    (path : ℕ → Bool) (ordmap : ℕ → ℕ) (v : ℕ) (elements : List Element) (at high place : ℕ)
    (found : Option ℕ)
    → path v ≡ true
    → ((label : ℕ) → path label ≡ true → label ≢ v → ordmap label < ordmap v)
    → high < ordmap v
    → find_element elements v at ≡ some place
    → highest path ordmap elements at high found ≡ some place
unfolding highest find_element
highest-first path ordmap v [] at high place found self less low is = ground arith
highest-first path ordmap v (e ∷ elements) at high place found self less low is =
    elim (Bool-cases (e.label == v)) [
      | inl eq ↦
          let at_v : e.label ≡ v = ground arith in
          let place_at : some at ≡ some place = rw⁻¹ is (rw eq refl) in
          let better : ltb high (ordmap v) ≡ true = ground arith in
          rw (at_v, self, better)
            (highest-stays path ordmap v elements (at + 1) (some at) (λ label on.
                elim (Bool-cases (label == v)) [
                  | inl same ↦ let e : label ≡ v = ground arith in rw e (le_refl (ordmap v))
                  | inr other ↦ let l = less label on (ground arith) in omega arith
                ])
              ∙ place_at)
      | inr ne ↦
          let rest : find_element elements v (at + 1) ≡ some place = ground arith in
          elim (Bool-cases (path e.label && ltb high (ordmap e.label))) [
            | inl taken ↦
                let on : path e.label ≡ true = ground arith in
                rw taken (
                  highest-first path ordmap v elements (at + 1) (ordmap e.label) place (some at)
                    self less (less e.label on (ground arith)) rest)
            | inr left ↦
                rw left (
                  highest-first path ordmap v elements (at + 1) high place found self less low rest)
          ]
    ]

highest-none :
    (path : ℕ → Bool) (ordmap : ℕ → ℕ) (elements : List Element) (at high : ℕ) (found : Option ℕ)
    → ((label : ℕ) → path label ≡ false)
    → highest path ordmap elements at high found ≡ found
unfolding highest
highest-none path ordmap [] at high found off = refl
highest-none path ordmap (e ∷ elements) at high found off =
    rw (off e.label) (highest-none path ordmap elements (at + 1) high found off)

on_path-root : (rounds : ℕ) (parent : ℕ → ℕ) (label : ℕ) → on_path rounds parent 0 label ≡ false
unfolding on_path
on_path-root zero parent label = refl
on_path-root (suc rounds) parent label = refl

nearest-root :
    (rounds : ℕ) (parent : ℕ → ℕ) (elements : List Element)
    → nearest rounds parent elements 0 ≡ none
unfolding nearest
nearest-root zero parent elements = refl
nearest-root (suc rounds) parent elements = refl

on_path_self :
    (rounds : ℕ) (parent : ℕ → ℕ) (v : ℕ) → v ≢ 0 → on_path (suc rounds) parent v v ≡ true
unfolding on_path
on_path_self rounds parent v h = ground arith

on_path-other :
    (rounds : ℕ) (parent : ℕ → ℕ) (v label : ℕ)
    → v ≢ 0
    → label ≢ v
    → on_path (suc rounds) parent v label ≡ on_path rounds parent (parent v) label
unfolding on_path
on_path-other rounds parent v label h ne = ground arith

nearest-absent :
    (rounds : ℕ) (parent : ℕ → ℕ) (elements : List Element) (v : ℕ)
    → (v == 0) ≡ false
    → find_element elements v 0 ≡ none
    → nearest rounds parent elements (parent v) ≡ nearest (suc rounds) parent elements v
unfolding nearest
nearest-absent rounds parent elements v ne absent = rw (ne, absent) refl

nearest-here :
    (rounds : ℕ) (parent : ℕ → ℕ) (elements : List Element) (v place : ℕ)
    → (v == 0) ≡ false
    → find_element elements v 0 ≡ some place
    → some place ≡ nearest (suc rounds) parent elements v
unfolding nearest
nearest-here rounds parent elements v place ne is = rw (ne, is) refl

pub highest-nearest :
    (parent ordmap : ℕ → ℕ) (elements : List Element) (rounds v : ℕ)
    → IsRooted parent ordmap v
    → ordmap v ≤ rounds
    → highest (on_path rounds parent v) ordmap elements 0 0 none ≡ nearest rounds parent elements v
highest-nearest parent ordmap elements rounds _ root deep =
    highest-none (on_path rounds parent 0) ordmap elements 0 0 none (on_path-root rounds parent)
    ∙ sym (nearest-root rounds parent elements)
highest-nearest parent ordmap elements zero v (child lower h) deep = absurd (omega arith)
highest-nearest parent ordmap elements (suc rounds) v (child lower h) deep =
    elim (Bool-cases (v == 0)) [
      | inl is ↦
          let zero_ : v ≡ 0 = ground arith in
          rw zero_ (
            highest-none (on_path (suc rounds) parent 0) ordmap elements 0 0 none
              (on_path-root (suc rounds) parent)
            ∙ sym (nearest-root (suc rounds) parent elements))
      | inr ne ↦
          let nonzero : v ≢ 0 = ground arith in
          elim (Option-cases (find_element elements v 0)) [
            | inl absent ↦
                highest-agree (on_path (suc rounds) parent v) (on_path rounds parent (parent v))
                  ordmap v elements 0 0 none (λ label. on_path-other rounds parent v label nonzero)
                  absent
                ∙ highest-nearest parent ordmap elements rounds (parent v) h (omega arith)
                ∙ nearest-absent rounds parent elements v ne absent
            | inr (place, is) ↦
                highest-first (on_path (suc rounds) parent v) ordmap v elements 0 0 place none
                  (on_path_self rounds parent v nonzero)
                  (λ label. on_path-order (suc rounds) parent ordmap v label (child lower h))
                  (omega arith) is
                ∙ nearest-here rounds parent elements v place ne is
          ]
    ]
