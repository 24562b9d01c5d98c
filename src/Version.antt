-- ===== src/Version.antt =====
-- Versioned pointers (user/version.c): the version tree, the elements of a block, and which element a
-- version inherits. A bitmap is a function from the bit's number; a chunk is found by its place in the
-- element list. Tags, printing, and the deletion of elements and versions, are left out.
mod Lookup
mod Inherit
mod Allocate
mod Examples
use tux.Base.{
  ℕ, zero, suc, ◌+◌, ◌-◌, ◌^◌, ◌%◌, ◌==◌, ltb, ◌&&◌, not, if◌then◌else◌, Bool, true, false, Option,
  none, some, List, [], ◌∷◌,
}

-- MAXVERSIONS and MAXCHUNKS
abbrev pub maxversions : ℕ
maxversions = 2 ^ 8

pub record Element : Type 0 where
  pub label : ℕ
  pub chunk : ℕ

-- struct version and struct sb, a function from the label for each array. The children of a version
-- stand in `children` from `child_index` on.
pub record Sb : Type 0 where
  pub parent : ℕ → ℕ
  pub used : ℕ → Bool
  pub ghost : ℕ → Bool
  pub present : ℕ → Bool
  pub has_pathmap : ℕ → Bool
  pub has_nearmap : ℕ → Bool
  pub child_index : ℕ → ℕ
  pub child_count : ℕ → ℕ
  pub children : ℕ → ℕ
  pub ordmap : ℕ → ℕ
  pub version_count : ℕ
  pub active_count : ℕ
  pub pathmap : ℕ → ℕ → Bool
  pub nearmap : ℕ → ℕ → Bool

unfoldable pub update {ℓ} : {A : Type ℓ} → (ℕ → A) → ℕ → A → ℕ → A
update f at value = λ i. if i == at then value else f i

unfoldable pub get_child : Sb → ℕ → ℕ → ℕ
get_child sb parent i = sb.children (sb.child_index parent + i)

-- `order_tree`, by the levels left, and its loop by the children left.
unfoldable pub each_child : ℕ → (Sb → ℕ → Sb) → Sb → ℕ → ℕ → Sb
each_child zero visit sb version i = sb
each_child (suc rounds) visit sb version i =
    each_child rounds visit (visit sb (get_child sb version i)) version (i + 1)

unfoldable pub order_tree : ℕ → Sb → ℕ → ℕ → Sb
unfolding update each_child
order_tree zero sb version order = sb
order_tree (suc depth) sb version order =
    each_child (sb.child_count version) (λ s child. order_tree depth s child (order + 1))
      (record sb { ordmap = update sb.ordmap version order }) version 0

-- The loop of `need_path` from version `v` up to the root.
unfoldable pub mark_path : ℕ → (ℕ → ℕ) → ℕ → (ℕ → Bool) → ℕ → Bool
unfolding update
mark_path zero parent v map = map
mark_path (suc rounds) parent v map =
    let rest = mark_path rounds parent (parent v) (update map v true) in
    if v == 0 then map else rest

unfoldable pub need_path : Sb → ℕ → (ℕ → Bool) × Sb
unfolding update
need_path sb target =
    let map = mark_path maxversions sb.parent target (λ _. false) in
    if sb.has_pathmap target then (sb.pathmap target, sb) else (
      map,
      record sb {
        pathmap = update sb.pathmap target map;
        has_pathmap = update sb.has_pathmap target true;
      },
    )

-- The loop of `lookup_element`: the place of the element on the path with the highest order.
unfoldable pub highest : (ℕ → Bool) → (ℕ → ℕ) → List Element → ℕ → ℕ → Option ℕ → Option ℕ
highest path ordmap [] at high found = found
highest path ordmap (e ∷ elements) at high found =
    let better = highest path ordmap elements (at + 1) (ordmap e.label) (some at) in
    let same = highest path ordmap elements (at + 1) high found in
    if path e.label && ltb high (ordmap e.label) then better else same

unfoldable pub lookup_element : Sb → List Element → ℕ → Option ℕ × Sb
lookup_element sb elements target =
    let (path, loaded) = need_path sb target in (highest path sb.ordmap elements 0 0 none, loaded)

-- The loop of `same_chunk`, for both versions at once.
unfoldable pub highest2 :
    (ℕ → Bool)
    → (ℕ → Bool)
    → (ℕ → ℕ)
    → List Element
    → ℕ
    → ℕ
    → ℕ
    → Option ℕ
    → Option ℕ
    → Option ℕ × Option ℕ
highest2 path1 path2 ordmap [] at high1 high2 e1 e2 = (e1, e2)
highest2 path1 path2 ordmap (e ∷ elements) at high1 high2 e1 e2 =
    let ord = ordmap e.label in
    let take1 = path1 e.label && ltb high1 ord in
    let take2 = path2 e.label && ltb high2 ord in
    highest2 path1 path2 ordmap elements (at + 1) (if take1 then ord else high1)
      (if take2 then ord else high2) (if take1 then some at else e1) (if take2 then some at else e2)

unfoldable pub same_place : Option ℕ → Option ℕ → Bool
same_place none none = true
same_place (some i) (some j) = i == j
same_place _ _ = false

unfoldable pub same_chunk : Sb → List Element → ℕ → ℕ → Bool × Sb
same_chunk sb elements version1 version2 =
    let (path1, loaded1) = need_path sb version1 in
    let (path2, loaded2) = need_path loaded1 version2 in
    let (e1, e2) = highest2 path1 path2 sb.ordmap elements 0 0 0 none none in
    (same_place e1 e2, loaded2)

-- `find_element`, from place `at` on.
unfoldable pub find_element : List Element → ℕ → ℕ → Option ℕ
find_element [] target at = none
find_element (e ∷ elements) target at =
    let rest = find_element elements target (at + 1) in if e.label == target then some at else rest

-- `set_present`, and the children of a version without an element, with theirs, by the levels left.
unfoldable pub set_present : Sb → List Element → Bool → Sb
unfolding update
set_present sb [] flag = sb
set_present sb (e ∷ elements) flag =
    set_present (record sb { present = update sb.present e.label flag }) elements flag

unfoldable pub count_children : ℕ → (ℕ → ℕ) → Sb → ℕ → ℕ → ℕ
count_children zero heirs sb parent i = 0
count_children (suc rounds) heirs sb parent i =
    let child = get_child sb parent i in
    let rest = count_children rounds heirs sb parent (i + 1) in
    if sb.present child then rest else heirs child + (if sb.ghost child then 0 else 1) + rest

unfoldable pub count_heirs : ℕ → Sb → ℕ → ℕ
count_heirs zero sb parent = 0
count_heirs (suc depth) sb parent =
    count_children (sb.child_count parent) (count_heirs depth sb) sb parent 0

unfoldable pub inherited : Sb → List Element → ℕ → ℕ × Sb
inherited sb elements version =
    let marked = set_present sb elements true in
    (count_heirs maxversions marked version, set_present marked elements false)

-- `new_version`: the first free label, from `version` on by the rounds left.
unfoldable pub free_label : ℕ → (ℕ → Bool) → ℕ → Option ℕ
free_label zero used version = none
free_label (suc rounds) used version =
    let rest = free_label rounds used (version + 1) in if used version then rest else some version

unfoldable pub new_version : Sb → ℕ → ℕ × Sb
unfolding update
new_version sb parent =
    let count = sb.version_count in
    let label = free_label (count - 1) sb.used 1 in
    let version : ℕ = elim label [ none ↦ count | some version ↦ version ] in
    let last = count - 1 in
    let index = if count == 0 then 0 else sb.child_index last + sb.child_count last in
    (
      version,
      record sb {
        parent = update sb.parent version parent;
        used = update sb.used version true;
        ghost = update sb.ghost version false;
        present = update sb.present version false;
        has_pathmap = update sb.has_pathmap version false;
        has_nearmap = update sb.has_nearmap version false;
        active_count = (sb.active_count + 1) % 2 ^ 16;
        version_count = elim label [ none ↦ (count + 1) % 2 ^ 16 | some _ ↦ count ];
        child_index = elim label [
          | none ↦ update sb.child_index count index
          | some _ ↦ sb.child_index
        ];
      },
    )

unfoldable pub free_version : Sb → ℕ → Sb
unfolding update
free_version sb version = record sb {
  parent = update sb.parent version 0;
  used = update sb.used version false;
  active_count = (sb.active_count + 2 ^ 16 - 1) % 2 ^ 16;
}

-- The chunks: which are allocated, their data, and where the search begins.
pub record Chunks : Type 0 where
  pub allocmap : ℕ → Bool
  pub snapdata : ℕ → ℕ
  pub nextchunk : ℕ

-- The loop of `new_chunk`; `none` is its error.
unfoldable pub find_chunk : ℕ → (ℕ → Bool) → ℕ → Option ℕ
find_chunk zero allocmap nextchunk = none
find_chunk (suc rounds) allocmap nextchunk =
    let chunk = if nextchunk == maxversions then 0 else nextchunk in
    let rest = find_chunk rounds allocmap (chunk + 1) in if allocmap chunk then rest else some chunk

unfoldable pub new_chunk : Chunks → ℕ → Option (ℕ × Chunks)
unfolding update
new_chunk chunks value = elim (find_chunk maxversions chunks.allocmap chunks.nextchunk) [
  | none ↦ none
  | some chunk ↦ some (
    chunk,
    record chunks {
      allocmap = update chunks.allocmap chunk true;
      snapdata = update chunks.snapdata chunk value;
      nextchunk = chunk + 1;
    },
  )
]

unfoldable pub free_chunk : Chunks → ℕ → Chunks
unfolding update
free_chunk chunks chunk = record chunks { allocmap = update chunks.allocmap chunk false }
