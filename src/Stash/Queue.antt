-- ===== src/Stash/Queue.antt =====
-- The stash (user/kernel/log.c) as a queue of values.
use tux.Base.{
  ℕ, zero, suc, ◌+◌, ◌≤◌, ◌<◌, ◌≡◌, ◌==◌, refl, sym, ap, ◌∙◌, arith, true, Bool-cases, ◌⊎◌,
  Option-cases, inl, inr, Option, none, some, List, [], ◌∷◌, ◌++◌, append_assoc, append-nil, length,
  take,
}
use tux.Base.Slices.{take_all}
use tux.Errno.{Result-cases, Errno, Result, ok, err, enomem}
use tux.Stash.{
  Stash, is_full, write_slot, write_last, stash_value, unstash_page, unstash_pages, unstash,
}

-- The values of the pages, in the order of their arrival: all slots but those of the last page from
-- `pos` on.
unfoldable pub values : ℕ → List (List ℕ) → List ℕ
values pos [] = []
values pos (page ∷ []) = take pos page
values pos (page ∷ next ∷ pages) = page ++ values pos (next ∷ pages)

abbrev pub AreWhole : ℕ → List (List ℕ) → Type 0
AreWhole per_page [] = Unit
AreWhole per_page (page ∷ pages) = (length page ≡ per_page) × AreWhole per_page pages

-- Every page has its slots, and `pos` is in the last page or at its end.
pub record IsStash (stash : Stash) : Type 0 where
  pub some_slot : 0 < stash.per_page
  pub whole : AreWhole stash.per_page stash.pages
  pub within : stash.pos ≤ stash.per_page

take-write_slot :
    (page : List ℕ) (pos value : ℕ)
    → pos < length page
    → take (suc pos) (write_slot page pos value) ≡ take pos page ++ (value ∷ [])
unfolding write_slot
take-write_slot [] pos value h = ground arith
take-write_slot (slot ∷ slots) zero value h = refl
take-write_slot (slot ∷ slots) (suc pos) value h =
    ap (λ (t : List ℕ). slot ∷ t) (take-write_slot slots pos value (omega arith))

length-write_slot :
    (page : List ℕ) (pos value : ℕ) → length (write_slot page pos value) ≡ length page
unfolding write_slot
length-write_slot [] pos value = refl
length-write_slot (slot ∷ slots) zero value = refl
length-write_slot (slot ∷ slots) (suc pos) value = ap suc (length-write_slot slots pos value)

-- A write to a slot of the last page.
values-write_last :
    (page : List ℕ) (pages : List (List ℕ)) (per_page pos value : ℕ)
    → AreWhole per_page (page ∷ pages)
    → pos < per_page
    → values (suc pos) (write_last (page ∷ pages) pos value)
      ≡ values pos (page ∷ pages) ++ (value ∷ [])
unfolding values write_last
values-write_last page [] per_page pos value (h, rest) lt =
    take-write_slot page pos value (omega arith)
values-write_last page (next ∷ []) per_page pos value (h, rest) lt =
    ap (λ (t : List ℕ). page ++ t) (values-write_last next [] per_page pos value rest lt)
    ∙ sym (append_assoc page (take pos next) (value ∷ []))
values-write_last page (next ∷ third ∷ pages) per_page pos value (h, rest) lt =
    ap (λ (t : List ℕ). page ++ t)
      (values-write_last next (third ∷ pages) per_page pos value rest lt)
    ∙ sym (append_assoc page (values pos (next ∷ third ∷ pages)) (value ∷ []))

AreWhole-write_last :
    (per_page : ℕ) (pages : List (List ℕ)) (pos value : ℕ)
    → AreWhole per_page pages
    → AreWhole per_page (write_last pages pos value)
unfolding write_last
AreWhole-write_last per_page [] pos value h = h
AreWhole-write_last per_page (page ∷ []) pos value (h, rest) =
    (length-write_slot page pos value ∙ h, rest)
AreWhole-write_last per_page (page ∷ next ∷ pages) pos value (h, rest) =
    (h, AreWhole-write_last per_page (next ∷ pages) pos value rest)

AreWhole-append :
    (per_page : ℕ) (pages : List (List ℕ)) (page : List ℕ)
    → AreWhole per_page pages
    → length page ≡ per_page
    → AreWhole per_page (pages ++ (page ∷ []))
AreWhole-append per_page [] page h e = (e, tt)
AreWhole-append per_page (first ∷ pages) page (h, rest) e =
    (h, AreWhole-append per_page pages page rest e)

-- A fresh page behind pages that are full has no values yet.
values-fresh :
    (pages : List (List ℕ)) (per_page : ℕ) (fresh : List ℕ)
    → AreWhole per_page pages
    → values 0 (pages ++ (fresh ∷ [])) ≡ values per_page pages
unfolding values
values-fresh [] per_page fresh h = refl
values-fresh (page ∷ []) per_page fresh (h, rest) =
    append-nil page ∙ sym (take_all per_page page (omega arith))
values-fresh (page ∷ next ∷ pages) per_page fresh (h, rest) =
    ap (λ (t : List ℕ). page ++ t) (values-fresh (next ∷ pages) per_page fresh rest)

-- A first write to a fresh page.
values-write_fresh :
    (pages : List (List ℕ)) (per_page value : ℕ) (fresh : List ℕ)
    → AreWhole per_page pages
    → length fresh ≡ per_page
    → 0 < per_page
    → values 1 (write_last (pages ++ (fresh ∷ [])) 0 value) ≡ values per_page pages ++ (value ∷ [])
unfolding values
values-write_fresh [] per_page value fresh h e pos =
    values-write_last fresh [] per_page 0 value (e, tt) pos
values-write_fresh (page ∷ pages) per_page value fresh h e pos =
    values-write_last page (pages ++ (fresh ∷ [])) per_page 0 value
      (AreWhole-append per_page (page ∷ pages) fresh h e) pos
    ∙ ap (λ (t : List ℕ). t ++ (value ∷ [])) (values-fresh (page ∷ pages) per_page fresh h)

-- The pages that the allocator finds have the slots of a page.
unfoldable pub IsPage : ℕ → Option (List ℕ) → Type 0
IsPage per_page none = Unit
IsPage per_page (some page) = length page ≡ per_page

abbrev pub ValueOutcome : Option (List ℕ) → Stash → ℕ → Result (Unit {0}) × Stash → Type 0
ValueOutcome alloc stash value (ok _, stash') =
    (values stash'.pos stash'.pages ≡ values stash.pos stash.pages ++ (value ∷ []))
    × (IsStash stash' × (stash'.per_page ≡ stash.per_page))
ValueOutcome alloc stash value (err e, stash') =
    (e ≡ enomem) × ((alloc ≡ none) × ((is_full stash ≡ true) × (stash' ≡ stash)))

module _ (alloc : Option (List ℕ)) (stash : Stash) (value : ℕ) (h : IsStash stash)
    (page_size : IsPage stash.per_page alloc) where
  value_fresh :
      is_full stash ≡ true
      → values stash.pos stash.pages ≡ values stash.per_page stash.pages
      → ValueOutcome alloc stash value (stash_value alloc stash value)
  unfolding IsPage stash_value
  value_fresh full same = elim (Option-cases alloc) [
    | inl a ↦ rw (stash_value, full, a) (refl, (refl, (full, refl)))
    | inr (fresh, a) ↦
        let size : length fresh ≡ stash.per_page = rw a at page_size in
        rw (stash_value, full, a)
          (
            rw same (
                values-write_fresh stash.pages stash.per_page value fresh h.whole size h.some_slot),
            (
              record {
                some_slot = h.some_slot;
                whole =
                    AreWhole-write_last stash.per_page (stash.pages ++ (fresh ∷ [])) 0 value
                      (AreWhole-append stash.per_page stash.pages fresh h.whole size);
                within = h.some_slot;
              },
              refl,
            ),
          )
  ]

pages_cases :
    (pages : List (List ℕ))
    → (pages ≡ []) ⊎ ((page : List ℕ) × (rest : List (List ℕ)) × (pages ≡ page ∷ rest))
pages_cases [] = inl refl
pages_cases (page ∷ rest) = inr (page, rest, refl)

-- With pages that all have their slots, `stash_value` puts the value behind all others, in a slot of the
-- last page or of a new one, or fails with ENOMEM, only when the last page is full or there is none and
-- no page can be had, and leaves the stash as it was.
pub stash_value-ValueOutcome :
    (alloc : Option (List ℕ)) (stash : Stash) (value : ℕ)
    → IsStash stash
    → IsPage stash.per_page alloc
    → ValueOutcome alloc stash value (stash_value alloc stash value)
unfolding is_full stash_value
stash_value-ValueOutcome alloc stash value h size = elim (pages_cases stash.pages) [
  | inl none_ ↦
      value_fresh alloc stash value h size (rw none_ refl) (unfold values in rw none_ refl)
  | inr (page, pages, some_) ↦ elim (Bool-cases (stash.pos == stash.per_page)) [
    | inl top ↦
        let e : stash.pos ≡ stash.per_page = ground arith in
        value_fresh alloc stash value h size (rw some_ top) (ap (λ (p : ℕ). values p stash.pages) e)
    | inr below ↦
        let low = h.within in
        let lt : stash.pos < stash.per_page = ground arith in
        let next_pos : stash.pos + 1 ≡ suc stash.pos = omega arith in
        let whole : AreWhole stash.per_page (page ∷ pages) = rw some_ at h.whole in
        rw (stash_value, some_, below)
          (
            rw next_pos (values-write_last page pages stash.per_page stash.pos value whole lt),
            (
              record {
                some_slot = h.some_slot;
                whole = AreWhole-write_last stash.per_page (page ∷ pages) stash.pos value whole;
                within = omega arith;
              },
              refl,
            ),
          )
  ]
]

abbrev pub UnstashOutcome : Stash → Stash → Result (Unit {0}) → Type 0
UnstashOutcome stash stash' (ok _) = values stash'.pos stash'.pages ≡ []
UnstashOutcome stash stash' (err e) =
    (gone : List ℕ) × (values stash.pos stash.pages ≡ gone ++ values stash'.pos stash'.pages)

module _ {ℓ} {S : Type ℓ} (actor : S → ℕ → Result (Unit {0}) × S) where
  -- The calls of the actor for a list of values, up to the first that fails.
  unfoldable pub act_all : List ℕ → S → Result (Unit {0}) × S
  act_all [] sb = (ok tt, sb)
  act_all (value ∷ rest) sb =
      let (result, sb') = actor sb value in
      elim result [ err e ↦ (err e, sb') | ok _ ↦ act_all rest sb' ]

  act_all-append_ok :
      (xs ys : List ℕ) (sb after : S)
      → act_all xs sb ≡ (ok tt, after)
      → act_all (xs ++ ys) sb ≡ act_all ys after
  unfolding act_all
  act_all-append_ok [] ys sb after is = ap (λ (r : Result (Unit {0}) × S). act_all ys r.1) is
  act_all-append_ok (x ∷ xs) ys sb after is = elim (Result-cases (actor sb x).0) [
    | inl (e, bad) ↦
        let wrong : ◌≡◌ {A = Result (Unit {0}) × S} (err e, (actor sb x).1) (ok tt, after) =
          rw (act_all, bad) at is in
        ground arith
    | inr (u, good) ↦
        rw (act_all, good) (act_all-append_ok xs ys (actor sb x).1 after (rw (act_all, good) at is))
  ]

  act_all-append_err :
      (xs ys : List ℕ) (sb after : S) (e : Errno)
      → act_all xs sb ≡ (err e, after)
      → act_all (xs ++ ys) sb ≡ (err e, after)
  unfolding act_all
  act_all-append_err [] ys sb after e is = ground arith
  act_all-append_err (x ∷ xs) ys sb after e is = elim (Result-cases (actor sb x).0) [
    | inl (e2, bad) ↦ rw (act_all, bad) (rw (act_all, bad) at is)
    | inr (u, good) ↦
        rw (act_all, good)
          (act_all-append_err xs ys (actor sb x).1 after e (rw (act_all, good) at is))
  ]

  page_done : (page : List ℕ) (sb : S) → unstash_page actor page sb ≡ act_all page sb
  unfolding unstash_page act_all
  page_done [] sb = refl
  page_done (value ∷ rest) sb = elim (Result-cases (actor sb value).0) [
    | inl (e, bad) ↦ rw (unstash_page, act_all, bad) refl
    | inr (u, good) ↦ rw (unstash_page, act_all, good) (page_done rest (actor sb value).1)
  ]

  -- What is left of the values after a run: none, or, after a failed call, those of the page from whose
  -- values it was, and those behind.
  Left : ℕ → List (List ℕ) → Result (Unit {0}) → List (List ℕ) → Type 0
  Left pos pages (ok _) left = values 0 left ≡ []
  Left pos pages (err e) left = (gone : List ℕ) × (values pos pages ≡ gone ++ values pos left)

  Left-page :
      (pos : ℕ) (page next : List ℕ) (pages left : List (List ℕ)) (result : Result (Unit {0}))
      → Left pos (next ∷ pages) result left
      → Left pos (page ∷ next ∷ pages) result left
  unfolding Left values
  Left-page pos page next pages left (ok u) kept = kept
  Left-page pos page next pages left (err e) (gone, kept) = (
    page ++ gone,
    ap (λ (t : List ℕ). page ++ t) kept ∙ sym (append_assoc page gone (values pos left)),
  )

  abbrev PagesDone : ℕ → ℕ → List (List ℕ) → S → Type ℓ
  PagesDone per_page pos pages sb =
      (left : List (List ℕ)) × ((unstash_pages actor pos pages sb
          ≡ ((act_all (values pos pages) sb).0, left, (act_all (values pos pages) sb).1))
        × (AreWhole per_page left × Left pos pages (act_all (values pos pages) sb).0 left))

  pages_done :
      (per_page pos : ℕ) (pages : List (List ℕ)) (sb : S)
      → AreWhole per_page pages
      → PagesDone per_page pos pages sb
  unfolding unstash_pages values Left
  pages_done per_page pos [] sb h = ([], (unfold act_all in refl, (tt, unfold act_all in refl)))
  pages_done per_page pos (page ∷ []) sb h =
      let done = page_done (take pos page) sb in
      elim (Result-cases (act_all (take pos page) sb).0) [
        | inl (e, bad) ↦
            let bad' = ap (λ (r : Result (Unit {0}) × S). r.0) done ∙ bad in
            (
              page ∷ [],
              (
                rw (unstash_pages, bad, bad')
                    (ap (λ (r : Result (Unit {0}) × S). (err e, page ∷ [], r.1)) done),
                (h, rw bad ([], refl)),
              ),
            )
        | inr (u, good) ↦
            let good' = ap (λ (r : Result (Unit {0}) × S). r.0) done ∙ good in
            (
              page ∷ [],
              (
                rw (unstash_pages, good, good')
                    (ap (λ (r : Result (Unit {0}) × S). (ok tt, page ∷ [], r.1)) done),
                (h, rw good refl),
              ),
            )
      ]
  pages_done per_page pos (page ∷ next ∷ pages) sb (size, h) =
      let done = page_done page sb in
      let rest = values pos (next ∷ pages) in
      let after = (act_all page sb).1 in
      elim (Result-cases (act_all page sb).0) [
        | inl (e, bad) ↦
            let bad' = ap (λ (r : Result (Unit {0}) × S). r.0) done ∙ bad in
            let all : act_all (page ++ rest) sb ≡ (err e, after) =
              act_all-append_err page rest sb after e
                (ap (λ (r : Result (Unit {0})). (r, after)) bad) in
            (
              page ∷ next ∷ pages,
              (
                rw (unstash_pages, bad', all)
                    (ap (λ (r : Result (Unit {0}) × S). (err e, page ∷ next ∷ pages, r.1)) done),
                ((size, h), rw all ([], refl)),
              ),
            )
        | inr (u, good) ↦
            let good' = ap (λ (r : Result (Unit {0}) × S). r.0) done ∙ good in
            let acted = ap (λ (r : Result (Unit {0}) × S). r.1) done in
            let all : act_all (page ++ rest) sb ≡ act_all rest after =
              act_all-append_ok page rest sb after
                (ap (λ (r : Result (Unit {0})). (r, after)) good) in
            let (left, (is, (whole, kept))) = pages_done per_page pos (next ∷ pages) after h in
            (
              left,
              (
                rw (unstash_pages, good', acted, all) is,
                (whole, rw all (Left-page pos page next pages left (act_all rest after).0 kept)),
              ),
            )
      ]

  -- For a stash with pages that all have their slots, `unstash` calls the actor for its values in the order
  -- of their arrival, up to the first call that fails, whose error it returns, and all pages that it
  -- leaves have their slots. If no call fails it leaves a stash without values; otherwise the values it
  -- leaves are the last ones of those before.
  pub unstash-act_all :
      (stash : Stash) (sb : S)
      → IsStash stash
      → (stash' : Stash) × ((unstash actor stash sb ≡ (
        (act_all (values stash.pos stash.pages) sb).0,
        stash',
        (act_all (values stash.pos stash.pages) sb).1,
      ))
          × (IsStash stash'
              × UnstashOutcome stash stash' (act_all (values stash.pos stash.pages) sb).0))
  unfolding unstash
  unstash-act_all stash sb h =
      let (left, (is, (whole, kept))) =
        pages_done stash.per_page stash.pos stash.pages sb h.whole in
      elim (Result-cases (act_all (values stash.pos stash.pages) sb).0) [
        | inl (e, bad) ↦
            let rest : Left stash.pos stash.pages (err e) left = rw bad at kept in
            let result = ap (λ (r : Result (Unit {0}) × List (List ℕ) × S). r.0) is ∙ bad in
            (
              record stash { pages = left },
              (
                rw (unstash, bad, result)
                    (ap
                      (λ (r : Result (Unit {0}) × List (List ℕ) × S).
                        (err e, record stash { pages = r.1 }, r.2))
                      is),
                (
                  record { some_slot = h.some_slot; whole = whole; within = h.within },
                  rw bad (unfold Left in rest),
                ),
              ),
            )
        | inr (u, good) ↦
            let result = ap (λ (r : Result (Unit {0}) × List (List ℕ) × S). r.0) is ∙ good in
            let rest : Left stash.pos stash.pages (ok u) left = rw good at kept in
            (
              record stash { pages = left; pos = 0 },
              (
                rw (unstash, good, result)
                    (ap
                      (λ (r : Result (Unit {0}) × List (List ℕ) × S).
                        (ok tt, record stash { pages = r.1; pos = 0 }, r.2))
                      is),
                (
                  record { some_slot = h.some_slot; whole = whole; within = omega arith },
                  rw good (unfold Left in rest),
                ),
              ),
            )
      ]
