-- ===== src/Btree/Search.antt =====
-- The search of a node in `probe` (user/kernel/btree.c) against the last entry not above the key.
use tux.Base.{
  ℕ, suc, ◌+◌, ◌-◌, ◌≤◌, ◌≡◌, refl, arith, ltb, if◌then◌else◌, Bool-cases, inl, inr, [], ◌∷◌,
}
use tux.Btree.{IndexEntry, Bnode, entry_at, search_entries}

-- The last of the entries whose key is at most `key`, for ascending keys; `best` when there is none.
unfoldable pub floor : Bnode → ℕ → IndexEntry → IndexEntry
floor [] key best = best
floor (entry ∷ entries) key best =
    let rest = floor entries key entry in if ltb key entry.key then best else rest

pub search_entries_shift :
    (entries : Bnode) (key next : ℕ)
    → search_entries entries key (next + 1) ≡ search_entries entries key next + 1
unfolding search_entries
search_entries_shift [] key next = refl
search_entries_shift (entry ∷ entries) key next = elim (Bool-cases (ltb key entry.key)) [
  | inl e ↦ rw e refl
  | inr e ↦ rw (e, search_entries_shift entries key (next + 1)) refl
]

pub search_entries_positive : (entries : Bnode) (key : ℕ) → 1 ≤ search_entries entries key 1
unfolding search_entries
search_entries_positive [] key = omega arith
search_entries_positive (entry ∷ entries) key =
    ground (arith, search_entries_positive entries key, search_entries_shift entries key 1)

pub search_entries-floor :
    (first : IndexEntry) (entries : Bnode) (key : ℕ)
    → entry_at (first ∷ entries) (search_entries entries key 1 - 1) ≡ floor entries key first
unfolding search_entries entry_at floor
search_entries-floor first [] key = refl
search_entries-floor first (entry ∷ entries) key = elim (Bool-cases (ltb key entry.key)) [
  | inl e ↦ rw e refl
  | inr e ↦
      let n = search_entries entries key 1 in
      let e1 : search_entries entries key 2 - 1 ≡ suc (n - 1) =
        omega (arith, search_entries_shift entries key 1, search_entries_positive entries key) in
      rw (e, e1) (search_entries-floor entry entries key)
]
