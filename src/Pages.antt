-- ===== src/Pages.antt =====
-- internal/api/pagination.go: pages of the rows that a caller may see. `fetch` is the query of the
-- endpoint, `authorized` its call of `authz.Decide`; both are parameters, as they are in the code. A
-- cursor (internal/pagination) is a value of its own.
pub mod Splitting
pub mod Filtering
pub mod Walk
mod Tests
use opentea.Prelude.{
  ℕ, zero, suc, ◌+◌, String, Bool, true, false, not, ◌||◌, Option, none, some, List, [], ◌∷◌, ◌++◌,
  ltb, if◌then◌else◌, length, take, last, Result, ok, err, ◌>>=◌,
}

-- `pagination.Cursor`
pub record Cursor : Type 0 where
  pub sort_field : String
  pub sort_order : String
  pub last_value : String
  pub last_uuid : String
  pub scope : String

abbrev pub split_page {ℓ} : {T : Type ℓ} → List T → ℕ → List T × Bool
split_page rows page_size =
    if ltb page_size (length rows) then (take page_size rows, true) else (rows, false)

-- `pagination.Encode` is a parameter.
abbrev pub next_page_token :
    (Cursor → String) → Bool → String → String → String → String → String → String
next_page_token encode has_next sort_field sort_order last_value last_uuid scope =
    if has_next
    then encode (record {
      sort_field = sort_field;
      sort_order = sort_order;
      last_value = last_value;
      last_uuid = last_uuid;
      scope = scope;
    })
    else ""

module _ {ℓ κ} {T : Type ℓ} {E : Type κ} where
  -- The inner loop: the rows that are authorized, up to the first error.
  unfoldable pub authorized_rows : (T → Result E Bool) → List T → Result E (List T)
  authorized_rows authorized [] = ok []
  authorized_rows authorized (row ∷ rows) =
      let rest = authorized_rows authorized rows in
      do is ← authorized row; more ← rest; ok (if is then row ∷ more else more)

  -- The outer loop, with the page so far. `none` is a loop that is out of fuel.
  unfoldable pub fetch_loop :
      ℕ
      → (Option Cursor → ℕ → Result E (List T))
      → (T → Cursor)
      → (T → Result E Bool)
      → Option Cursor
      → ℕ
      → List T
      → Option (Result E (List T))
  unfolding authorized_rows
  fetch_loop zero fetch to_cursor authorized cursor page_size page = none
  fetch_loop (suc fuel) fetch to_cursor authorized cursor page_size page =
      elim (fetch cursor (suc page_size)) [
        | err e ↦ some (err e)
        | ok rows ↦ elim (authorized_rows authorized rows) [
          | err e ↦ some (err e)
          | ok kept ↦
              let rest : Option (Result E (List T)) = elim (last rows) [
                | none ↦ none
                | some row ↦
                    fetch_loop fuel fetch to_cursor authorized (some (to_cursor row)) page_size
                      (page ++ kept)
              ] in
              if ltb page_size (length (page ++ kept)) || not (ltb page_size (length rows))
              then some (ok (page ++ kept))
              else rest
        ]
      ]

  abbrev pub finish : ℕ → Option (Result E (List T)) → Option (Result E (List T × Bool))
  finish page_size none = none
  finish page_size (some (err e)) = some (err e)
  finish page_size (some (ok page)) = some (ok (split_page page page_size))

  unfoldable pub filter_authorized :
      ℕ
      → (Option Cursor → ℕ → Result E (List T))
      → (T → Cursor)
      → (T → Result E Bool)
      → Option Cursor
      → ℕ
      → Option (Result E (List T × Bool))
  unfolding fetch_loop
  filter_authorized fuel fetch to_cursor authorized start_cursor page_size =
      finish page_size (fetch_loop fuel fetch to_cursor authorized start_cursor page_size [])
