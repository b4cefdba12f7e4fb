-- ===== src/Pages/Tests.antt =====
-- The properties of internal/api/pagination.go at a table of three rows of which two may be seen.
use opentea.Prelude.{
  ℕ, ◌≡◌, refl, ap, Bool, true, false, Option, none, some, List, [], ◌∷◌, ◌++◌, ◌==◌, if◌then◌else◌,
  take, arith, eq_iff, String, Result, ok,
}
use opentea.Pages.{Cursor, filter_authorized}
use opentea.Pages.Filtering.{IsKeyset, decided, filter_authorized-filter}
use opentea.Pages.Walk.{walk, walk-filter}

abbrev table : List String
table = "a" ∷ "b" ∷ "c" ∷ []

abbrev cursor_of : String → Cursor
cursor_of row = record {
  sort_field = "name";
  sort_order = "asc";
  last_value = row;
  last_uuid = row;
  scope = "/products";
}

abbrev rows_after : String → List String → List String
rows_after uuid [] = []
rows_after uuid (row ∷ rows) = if row == uuid then rows else rows_after uuid rows

abbrev fetch : Option Cursor → ℕ → Result String (List String)
fetch none limit = ok (take limit table)
fetch (some c) limit = ok (take limit (rows_after c.last_uuid table))

abbrev visible : String → Bool
visible row = if row == "b" then false else true

rest_of :
    (before : List String) (row : String) (rest : List String)
    → table ≡ before ++ row ∷ rest
    → rows_after row table ≡ rest
rest_of [] row rest e = ground (arith, eq_iff "a" row)
rest_of (x ∷ []) row rest e = ground (arith, eq_iff "a" row, eq_iff "b" row, eq_iff "a" "b")
rest_of (x ∷ y ∷ []) row rest e =
    ground (arith, eq_iff "a" row, eq_iff "b" row, eq_iff "c" row, eq_iff "a" "c", eq_iff "b" "c")
rest_of (x ∷ y ∷ z ∷ []) row rest e = absurd (ground arith)
rest_of (x ∷ y ∷ z ∷ w ∷ before) row rest e = absurd (ground arith)

keyset : IsKeyset fetch cursor_of none table
keyset = record {
  here = λ limit. refl;
  after = λ before row rest e limit. ap (λ z. ok (take limit z)) (rest_of before row rest e);
}

filter_authorized-filter_example :
    filter_authorized 4 fetch cursor_of (decided fetch cursor_of visible) none 1
    ≡ some (ok ("a" ∷ [], true))
filter_authorized-filter_example =
    filter_authorized-filter fetch cursor_of visible 4 1 none table keyset (omega arith)

walk-filter_example : walk fetch cursor_of visible 1 4 4 none ≡ some ("a" ∷ "c" ∷ [])
walk-filter_example =
    walk-filter fetch cursor_of visible 1 4 4 none table keyset (omega arith) (omega arith)
      (omega arith)
