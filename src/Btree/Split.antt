-- ===== src/Btree/Split.antt =====
-- The split of a full node in `insert_leaf` (user/kernel/btree.c).
use tux.Base.{
  ℕ, zero, suc, ◌-◌, ◌/◌, ◌≤◌, ◌≡◌, refl, sym, ◌∙◌, arith, leb, Bool-cases, inl, inr, ap, List, [],
  ◌∷◌, ◌++◌, append_assoc, length, take, drop, length-append, length-take, length-drop,
  take-append-drop,
}
use tux.Base.Slices.{take-nil, drop-nil, take-take}
use tux.Btree.{IndexEntry, Bnode}
use tux.Btree.Edit.{add_child, split_node}

drop-take {ℓ} :
    {A : Type ℓ} (n m : ℕ) (xs : List A) → n ≤ m → drop n (take m xs) ++ drop m xs ≡ drop n xs
drop-take zero m xs h = take-append-drop m xs
drop-take (suc n) zero xs h = elim h [ ]
drop-take (suc n) (suc m) [] h = refl
drop-take (suc n) (suc m) (x ∷ xs) h = drop-take n m xs (omega arith)

take-take_rest {ℓ} :
    {A : Type ℓ} (n k : ℕ) (xs : List A) → n ≤ k → take n xs ++ take (k - n) (drop n xs) ≡ take k xs
take-take_rest zero k xs h = let e : k - 0 ≡ k = omega arith in rw e refl
take-take_rest (suc n) zero xs h = elim h [ ]
take-take_rest (suc n) (suc k) [] h =
    let e : suc k - suc n ≡ k - n = omega arith in rw e (take-nil (k - n))
take-take_rest (suc n) (suc k) (x ∷ xs) h =
    let e : suc k - suc n ≡ k - n = omega arith in
    rw e (ap (λ l. x ∷ l) (take-take_rest n k xs (omega arith)))

drop-drop_rest {ℓ} :
    {A : Type ℓ} (n k : ℕ) (xs : List A) → n ≤ k → drop (k - n) (drop n xs) ≡ drop k xs
drop-drop_rest zero k xs h = let e : k - 0 ≡ k = omega arith in rw e refl
drop-drop_rest (suc n) zero xs h = elim h [ ]
drop-drop_rest (suc n) (suc k) [] h = drop-nil (suc k - suc n)
drop-drop_rest (suc n) (suc k) (x ∷ xs) h =
    let e : suc k - suc n ≡ k - n = omega arith in rw e (drop-drop_rest n k xs (omega arith))

pub length-add_child :
    (node : Bnode) (at child childkey : ℕ)
    → length (add_child node at child childkey) ≡ suc (length node)
unfolding add_child
length-add_child node at child childkey = ground (
  arith,
  length-append (take at node) (record { key = childkey; block = child } ∷ drop at node),
  length-take at node,
  length-drop at node,
)

-- A split keeps every entry: the left node followed by the new one is the old node with the child added
-- where the cursor points.
pub split_node-add_child :
    (node : Bnode) (at child childkey : ℕ)
    → at ≤ length node
    → (split_node node at child childkey).0 ++ (split_node node at child childkey).1
      ≡ add_child node at child childkey
unfolding split_node add_child
split_node-add_child node at child childkey h =
    let half = length node / 2 in
    let entry : IndexEntry = record { key = childkey; block = child } in
    elim (Bool-cases (leb at half)) [
      | inl e ↦
          let left : at ≤ half = ground arith in
          rw (e, take-take at half node left)
            (append_assoc (take at node) (entry ∷ drop at (take half node)) (drop half node)
              ∙ ap (λ l. take at node ++ entry ∷ l) (drop-take at half node left))
      | inr e ↦
          let right : half ≤ at = ground arith in
          rw (e, drop-drop_rest half at node right)
            (sym (
                append_assoc (take half node) (take (at - half) (drop half node))
                  (entry ∷ drop at node))
              ∙ ap (λ l. l ++ entry ∷ drop at node) (take-take_rest half at node right))
    ]

-- Neither node of a split is empty, and neither has more entries than the full node had.
pub length-split_node :
    (node : Bnode) (at child childkey : ℕ)
    → 2 ≤ length node
    → ((1 ≤ length (split_node node at child childkey).0)
        × (length (split_node node at child childkey).0 ≤ length node))
      × (1 ≤ length (split_node node at child childkey).1)
      × (length (split_node node at child childkey).1 ≤ length node)
unfolding split_node
length-split_node node at child childkey h =
    let half = length node / 2 in
    let left = length-take half node in
    let right = length-drop half node in
    let add_left = length-add_child (take half node) at child childkey in
    let add_right = length-add_child (drop half node) (at - half) child childkey in
    elim (Bool-cases (leb at half)) [ inl e ↦ rw e (ground arith) | inr e ↦ rw e (ground arith) ]

-- The same of a node that need not be full, against the room of a node.
pub split_node_fits :
    (node : Bnode) (at child childkey room : ℕ)
    → 2 ≤ room
    → length node ≤ room
    → (length (split_node node at child childkey).0 ≤ room)
      × (length (split_node node at child childkey).1 ≤ room)
unfolding split_node
split_node_fits node at child childkey room h fits =
    let half = length node / 2 in
    let left = length-take half node in
    let right = length-drop half node in
    let add_left = length-add_child (take half node) at child childkey in
    let add_right = length-add_child (drop half node) (at - half) child childkey in
    elim (Bool-cases (leb at half)) [ inl e ↦ rw e (ground arith) | inr e ↦ rw e (ground arith) ]
