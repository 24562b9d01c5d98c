-- ===== src/Stash.antt =====
-- The stash of user/kernel/log.c, a queue of 64-bit values in a list of pages, and the deferred frees
-- that it holds. A page is its PAGE_SIZE bytes as slots for values, whatever was written to them. `pos`
-- and `top`, which point into the last page, are the slot `pos` and the end of that page; without pages
-- both are NULL.
pub mod Queue
use tux.Base.{
  ℕ, zero, suc, ◌+◌, ◌-◌, ◌*◌, ◌%◌, ◌^◌, ◌==◌, leb, ltb, if◌then◌else◌, Bool, true, false, Option,
  none, some, List, [], ◌∷◌, ◌++◌, length, take,
}
use tux.Errno.{Errno, Result, ok, err, enomem}

-- `per_page` is PAGE_SIZE over the size of a value.
pub record Stash : Type 0 where
  pub per_page : ℕ
  pub pages : List (List ℕ)
  pub pos : ℕ

unfoldable pub stash_init : Stash → Stash
stash_init stash = record stash { pages = []; pos = 0 }

-- `pos == top`, of two NULL pointers when there is no page.
unfoldable pub is_full : Stash → Bool
is_full stash = elim stash.pages [ [] ↦ true | page ∷ pages ↦ stash.pos == stash.per_page ]

-- A write to a slot. Behind the page it is to memory that is not the page's.
unfoldable pub write_slot : List ℕ → ℕ → ℕ → List ℕ
write_slot [] pos value = []
write_slot (slot ∷ slots) zero value = value ∷ slots
write_slot (slot ∷ slots) (suc pos) value = slot ∷ write_slot slots pos value

-- `*stash->pos = value` in the last page.
unfoldable pub write_last : List (List ℕ) → ℕ → ℕ → List (List ℕ)
unfolding write_slot
write_last [] pos value = []
write_last (page ∷ []) pos value = write_slot page pos value ∷ []
write_last (page ∷ next ∷ pages) pos value = page ∷ write_last (next ∷ pages) pos value

-- `alloc` is the page that `alloc_page` finds, with whatever it holds.
unfoldable pub stash_value : Option (List ℕ) → Stash → ℕ → Result (Unit {0}) × Stash
unfolding is_full write_last
stash_value alloc stash value =
    if is_full stash
    then elim alloc [
      | none ↦ (err enomem, stash)
      | some page ↦
          (ok tt, record stash { pages = write_last (stash.pages ++ (page ∷ [])) 0 value; pos = 1 })
    ]
    else (
      ok tt,
      record stash { pages = write_last stash.pages stash.pos value; pos = stash.pos + 1 },
    )

-- All pages are freed. Without pages there is nothing to do.
unfoldable pub empty_stash : Stash → Stash
unfolding stash_init
empty_stash stash = elim stash.pages [ [] ↦ stash | page ∷ pages ↦ stash_init stash ]

unfoldable pub destroy_defer_bfree : Stash → Stash
unfolding empty_stash
destroy_defer_bfree defree = empty_stash defree

module _ {ℓ} {S : Type ℓ} (actor : S → ℕ → Result (Unit {0}) × S) where
  -- The loop over the slots of a page, from `vec` up to `top`.
  unfoldable pub unstash_page : List ℕ → S → Result (Unit {0}) × S
  unstash_page [] sb = (ok tt, sb)
  unstash_page (value ∷ values) sb =
      let (result, sb') = actor sb value in
      elim result [ err e ↦ (err e, sb') | ok _ ↦ unstash_page values sb' ]

  -- The loop over the pages: all slots of a page, and those up to `pos` of the last one, whose end is
  -- `stash->top`. A page is freed behind its values, and the last one is kept. The pages left.
  unfoldable pub unstash_pages : ℕ → List (List ℕ) → S → Result (Unit {0}) × List (List ℕ) × S
  unfolding unstash_page
  unstash_pages pos [] sb = (ok tt, [], sb)
  unstash_pages pos (page ∷ []) sb =
      let (result, sb') = unstash_page (take pos page) sb in
      elim result [ err e ↦ (err e, page ∷ [], sb') | ok _ ↦ (ok tt, page ∷ [], sb') ]
  unstash_pages pos (page ∷ next ∷ pages) sb =
      let (result, sb') = unstash_page page sb in
      elim result [
        | err e ↦ (err e, page ∷ next ∷ pages, sb')
        | ok _ ↦ unstash_pages pos (next ∷ pages) sb'
      ]

  -- `pos` goes back to the start of the page that is kept.
  unfoldable pub unstash : Stash → S → Result (Unit {0}) × Stash × S
  unfolding unstash_pages
  unstash stash sb =
      let (result, pages, sb') = unstash_pages stash.pos stash.pages sb in
      elim result [
        | err e ↦ (err e, record stash { pages = pages }, sb')
        | ok _ ↦ (ok tt, record stash { pages = pages; pos = 0 }, sb')
      ]

unfoldable pub defer_bfree : Option (List ℕ) → Stash → ℕ → ℕ → Result (Unit {0}) × Stash
unfolding stash_value
defer_bfree alloc defree block count =
    stash_value alloc defree ((count * 2 ^ 48 % 2 ^ 64 + block) % 2 ^ 64)
