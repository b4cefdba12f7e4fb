-- ===== src/Pages/Filtering.antt =====
-- `filterAuthorized` (internal/api/pagination.go) against its description: of the rows after the
-- cursor, the authorized ones, cut to a page.
use opentea.Prelude.{
  filter-append, ℕ, zero, suc, ◌+◌, ◌<◌, ◌≡◌, refl, sym, ap, ◌∙◌, Bool, Bool-cases, inl, inr,
  Option, some, List, [], ◌∷◌, ◌++◌, append_assoc, arith, ltb, ltb→lt, lt→ltb, ltb-false, filter,
  length, length-append, take, drop, Result, ok,
}
use opentea.Pages.{Cursor, split_page, authorized_rows, fetch_loop, finish, filter_authorized}
use opentea.Pages.Splitting.{take-append-drop, take-append, take-all, split_last-length}

module _ {ℓ κ} {T : Type ℓ} {E : Type κ} (fetch : Option Cursor → ℕ → Result E (List T))
    (to_cursor : T → Cursor) where
  -- A cursor from which the query gives these rows, and from each of these rows those after it: what
  -- the comment on `filterAuthorized` asks of `fetch`.
  pub record IsKeyset (cursor : Option Cursor) (rows : List T) : Type (ℓ ⊔ κ) where
    pub here : (limit : ℕ) → fetch cursor limit ≡ ok (take limit rows)
    pub after :
        (before : List T) (row : T) (rest : List T)
        → rows ≡ before ++ row ∷ rest
        → (limit : ℕ) → fetch (some (to_cursor row)) limit ≡ ok (take limit rest)

  -- So it is from every row on.
  pub IsKeyset-after :
      (cursor : Option Cursor) (rows before : List T) (row : T) (rest : List T)
      → IsKeyset cursor rows
      → rows ≡ before ++ row ∷ rest
      → IsKeyset (some (to_cursor row)) rest
  IsKeyset-after cursor rows before row rest keyset e = record {
    here = keyset.after before row rest e;
    after = λ more row' rest' f.
        keyset.after (before ++ row ∷ more) row' rest' (
          e
          ∙ ap (λ z. before ++ row ∷ z) f
          ∙ sym (append_assoc before (row ∷ more) (row' ∷ rest')));
  }

  module _ (authorized : T → Bool) where
    abbrev pub decided : T → Result E Bool
    decided row = ok (authorized row)

    authorized_rows-filter :
        (rows : List T) → authorized_rows decided rows ≡ ok (filter authorized rows)
    unfolding authorized_rows
    authorized_rows-filter [] = refl
    authorized_rows-filter (row ∷ rows) = rw (authorized_rows-filter rows) refl

    -- A page that is more than full is cut the same way with more rows behind it.
    split_page-append :
        (page_size : ℕ) (page more : List T)
        → page_size < length page
        → split_page page page_size ≡ split_page (page ++ more) page_size
    split_page-append page_size page more h =
        let whole : page_size < length (page ++ more) = omega (arith, length-append page more, h) in
        rw
          (
            lt→ltb page_size (length page) h,
            lt→ltb page_size (length (page ++ more)) whole,
            take-append page_size page more (omega (arith, h)),
          )
          refl

    fetch_loop-finish :
        (fuel page_size : ℕ) (cursor : Option Cursor) (rows page : List T)
        → IsKeyset cursor rows
        → length rows < fuel
        → finish page_size (fetch_loop fuel fetch to_cursor decided cursor page_size page)
          ≡ some (ok (split_page (page ++ filter authorized rows) page_size))
    unfolding fetch_loop
    fetch_loop-finish zero page_size cursor rows page keyset h = absurd (omega arith)
    fetch_loop-finish (suc fuel) page_size cursor rows page keyset h =
        let batch = take (suc page_size) rows in
        let behind = drop (suc page_size) rows in
        let page' = page ++ filter authorized batch in
        let parts : batch ++ behind ≡ rows = take-append-drop (suc page_size) rows in
        let whole : page' ++ filter authorized behind ≡ page ++ filter authorized rows =
          append_assoc page (filter authorized batch) (filter authorized behind)
          ∙ ap (λ z. page ++ z)
              (sym (filter-append authorized batch behind) ∙ ap (filter authorized) parts) in
        elim (Bool-cases (ltb page_size (length page'))) [
          | inl full ↦
              rw
                (
                  fetch_loop,
                  finish,
                  keyset.here (suc page_size),
                  authorized_rows-filter batch,
                  full,
                )
                (ap (λ z. some (ok z))
                  (split_page-append page_size page' (filter authorized behind) (ltb→lt _ _ full)
                    ∙ ap (λ z. split_page z page_size) whole))
          | inr short ↦ elim (Bool-cases (ltb page_size (length batch))) [
            | inr done ↦
                rw
                  (
                    fetch_loop,
                    finish,
                    keyset.here (suc page_size),
                    authorized_rows-filter batch,
                    short,
                    done,
                  )
                  (ap (λ z. some (ok (split_page (page ++ filter authorized z) page_size)))
                    (take-all page_size rows (ltb-false _ _ done)))
            | inl more ↦
                let (init, row, e, l) = split_last-length page_size batch (ltb→lt _ _ more) in
                let at_row : rows ≡ init ++ row ∷ behind =
                  sym parts ∙ ap (λ z. z ++ behind) e ∙ append_assoc init (row ∷ []) behind in
                let lengths : length batch + length behind ≡ length rows =
                  sym (length-append batch behind) ∙ ap length parts in
                let less : length behind < fuel = omega (arith, lengths, h, ltb→lt _ _ more) in
                rw
                  (
                    fetch_loop,
                    finish,
                    keyset.here (suc page_size),
                    authorized_rows-filter batch,
                    short,
                    more,
                    l,
                  )
                  (fetch_loop-finish fuel page_size (some (to_cursor row)) behind page'
                      (IsKeyset-after cursor rows init row behind keyset at_row) less
                    ∙ ap (λ z. some (ok (split_page z page_size))) whole)
          ]
        ]

    -- Where `fetch` pages through the rows after the cursor and authorization does not fail, fuel for
    -- one more round than there are rows is enough, and `filterAuthorized` returns the first authorized
    -- ones of them, and whether there is another: as a filter before the paging would.
    pub filter_authorized-filter :
        (fuel page_size : ℕ) (cursor : Option Cursor) (rows : List T)
        → IsKeyset cursor rows
        → length rows < fuel
        → filter_authorized fuel fetch to_cursor decided cursor page_size
          ≡ some (ok (split_page (filter authorized rows) page_size))
    unfolding filter_authorized
    filter_authorized-filter fuel page_size cursor rows keyset h =
        fetch_loop-finish fuel page_size cursor rows [] keyset h
