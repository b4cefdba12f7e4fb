-- ===== src/Pages/Walk.antt =====
-- A client that follows the page tokens of a list endpoint (internal/api/pagination.go): each token is
-- the cursor of the last row of its page, as the handlers give it to `nextPageToken`.
use opentea.Prelude.{
  ℕ, zero, suc, ◌+◌, ◌<◌, ◌≡◌, refl, sym, ap, ◌∙◌, Bool, true, false, Bool-cases, inl, inr, Option,
  none, some, List, [], ◌∷◌, ◌++◌, append_assoc, arith, ltb, ltb→lt, filter, length, length-append,
  take, drop, last, Result, ok, err,
}
use opentea.Pages.{Cursor, split_page, filter_authorized}
use opentea.Pages.Splitting.{take-append-drop, split_last-length, take-ne-nil}
use opentea.Pages.Filtering.{IsKeyset, IsKeyset-after, decided, filter_authorized-filter}

module _ {ℓ} {T : Type ℓ} where
  -- A row that a filter keeps splits the list where it splits the filtered list.
  pub filter-split :
      (p : T → Bool) (rows init more : List T) (row : T)
      → filter p rows ≡ init ++ row ∷ more
      → (before : List T) × (rest : List T) × (rows ≡ before ++ row ∷ rest) × (filter p rest ≡ more)
  filter-split p [] [] more row e = cc
  filter-split p [] (i ∷ init) more row e = cc
  filter-split p (x ∷ rows) init more row e = elim (Bool-cases (p x)) [
    | inr skipped ↦
        let (before, rest, q, f) = filter-split p rows init more row (rw skipped at e) in
        (x ∷ before, rest, ap (λ z. x ∷ z) q, f)
    | inl found ↦ kept init (rw found at e) (λ i k. filter-split p rows i more row k)
  ]
    where
      kept :
          (init' : List T)
          → x ∷ filter p rows ≡ init' ++ row ∷ more
          → ((i : List T)
              → filter p rows ≡ i ++ row ∷ more
              → (before : List T) × (rest : List T) × (rows ≡ before ++ row ∷ rest)
                × (filter p rest ≡ more))
          → (before : List T) × (rest : List T) × (x ∷ rows ≡ before ++ row ∷ rest)
            × (filter p rest ≡ more)
      kept [] k ih = ([], rows, ground arith, ground arith)
      kept (i ∷ init') k ih =
          let (before, rest, q, f) = ih init' (ground arith) in
          (x ∷ before, rest, ap (λ z. x ∷ z) q, f)

module _ {ℓ κ} {T : Type ℓ} {E : Type κ} (fetch : Option Cursor → ℕ → Result E (List T))
    (to_cursor : T → Cursor) (authorized : T → Bool) (page_size : ℕ) where
  -- All the rows that a client sees from a cursor on, page after page.
  unfoldable pub walk : ℕ → ℕ → Option Cursor → Option (List T)
  walk zero fuel cursor = none
  walk (suc pages) fuel cursor =
      elim (filter_authorized fuel fetch to_cursor (decided fetch to_cursor authorized) cursor
        page_size) [
          | none ↦ none
          | some (err e) ↦ none
          | some (ok (page, false)) ↦ some page
          | some (ok (page, true)) ↦ elim (last page) [
            | none ↦ none
            | some row ↦ elim (walk pages fuel (some (to_cursor row))) [
              | none ↦ none
              | some more ↦ some (page ++ more)
            ]
          ]
        ]

  -- No gaps and nothing twice: where `fetch` pages through the rows after the cursor, and a page has room
  -- for a row, a client that follows the tokens to the end sees the authorized rows, all of them, once and
  -- in order; one more page than there are rows is enough.
  pub walk-filter :
      (pages fuel : ℕ) (cursor : Option Cursor) (rows : List T)
      → IsKeyset fetch to_cursor cursor rows
      → 0 < page_size
      → length rows < pages
      → length rows < fuel
      → walk pages fuel cursor ≡ some (filter authorized rows)
  unfolding walk
  walk-filter zero fuel cursor rows keyset room h k = absurd (omega arith)
  walk-filter (suc pages) fuel cursor rows keyset room h k =
      let seen = filter authorized rows in
      let page = take page_size seen in
      let first =
        filter_authorized-filter fetch to_cursor authorized fuel page_size cursor rows keyset k in
      elim (Bool-cases (ltb page_size (length seen))) [
        | inr done ↦
            let cut : split_page seen page_size ≡ (seen, false) = rw done refl in
            let only = first ∙ ap (λ z. some (ok z)) cut in rw (walk, only) refl
        | inl more ↦
            let (init, row, e, l) =
              split_last-length 0 page (take-ne-nil page_size seen room (ltb→lt _ _ more)) in
            let behind = drop page_size seen in
            let parts : page ++ behind ≡ seen = take-append-drop page_size seen in
            let at_row : seen ≡ init ++ row ∷ behind =
              sym parts ∙ ap (λ z. z ++ behind) e ∙ append_assoc init (row ∷ []) behind in
            let (before, rest, q, f) = filter-split authorized rows init behind row at_row in
            let lengths : length before + suc (length rest) ≡ length rows =
              sym (length-append before (row ∷ rest)) ∙ ap length (sym q) in
            let ih =
              walk-filter pages fuel (some (to_cursor row)) rest
                (IsKeyset-after fetch to_cursor cursor rows before row rest keyset q) room
                (omega (arith, lengths, h)) (omega (arith, lengths, k)) in
            let cut : split_page seen page_size ≡ (page, true) = rw more refl in
            let first_page = first ∙ ap (λ z. some (ok z)) cut in
            rw (walk, first_page, l, ih) (ap some (ap (λ z. page ++ z) f ∙ parts))
      ]
