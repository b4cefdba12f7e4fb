-- ===== src/Lifecycle.antt =====
-- internal/repo/cle.go: the lifecycle events (CLE) of products, releases and components, their support
-- definitions, and the revision from which the ETag of a CLE is made. Here are the tables and the
-- reads; the writes are in Inserts and Writes.
pub mod Inserts
pub mod Writes
pub mod Added
pub mod Views
pub mod Revisions
pub mod History
pub mod Keys
pub mod Order
pub mod ReadBack
mod Tests
use opentea.Prelude.{
  ℕ, ◌+◌, ◌*◌, String, Bool, true, false, Option, none, some, List, [], ◌∷◌, ◌==◌, eqb, ltb, leb,
  if◌then◌else◌, map, Result, ok, err, ◌>>=◌,
}
use opentea.Repo.{Error, not_found, format_time, parse_time, null_if_empty}
use opentea.Repo.Owners.{Owner, Owned, rows_of}
use opentea.Repo.Identifiers.{Identifier}

-- `tea.CLEVersionSpecifier`
pub record VersionSpecifier : Type 0 where
  pub version : String
  pub range : String

-- `tea.CLEEvent`. Times are nanoseconds.
pub record Event : Type 0 where
  pub id : ℕ
  pub type : String
  pub effective : ℕ
  pub published : ℕ
  pub version : String
  pub versions : List VersionSpecifier
  pub support_id : String
  pub license : String
  pub superseded_by_version : String
  pub identifiers : List Identifier
  pub event_id : Option ℕ
  pub reason : String
  pub description : String
  pub references : List String

-- `tea.CLESupportDefinition`
pub record SupportDefinition : Type 0 where
  pub id : String
  pub description : String
  pub url : String

-- `tea.CLE`
pub record Cle : Type 0 where
  pub events : List Event
  pub definitions : Option (List SupportDefinition)

-- Rows of `cle_event`, less the owner's columns, as in the tables below.
pub record EventRow : Type 0 where
  pub id : ℕ
  pub type : String
  pub effective : ℕ
  pub published : ℕ
  pub version : Option String
  pub support_id : Option String
  pub license : Option String
  pub superseded_by_version : Option String
  pub event_id_ref : Option ℕ
  pub reason : Option String
  pub description : Option String

-- Rows of the three tables whose key ends in `event_id`.
pub record Part {ℓ} (A : Type ℓ) : Type ℓ where
  pub event_id : ℕ
  pub value : A

pub record VersionColumns : Type 0 where
  pub version : Option String
  pub version_range : Option String

pub record SupportRow : Type 0 where
  pub id : String
  pub description : String
  pub url : Option String

pub record Tables : Type 0 where
  pub events : List (Owned EventRow)
  pub versions : List (Owned (Part VersionColumns))
  pub event_identifiers : List (Owned (Part Identifier))
  pub references : List (Owned (Part String))
  pub support_definitions : List (Owned SupportRow)
  pub revisions : List (Owned ℕ)
  pub identifiers : List (Owned Identifier)

-- `sql.NullString.String`
abbrev pub or_empty : Option String → String
or_empty none = ""
or_empty (some s) = s

unfoldable pub find_event : ℕ → List EventRow → Option EventRow
find_event id [] = none
find_event id (row ∷ rows) = if eqb row.id id then some row else find_event id rows

unfoldable pub parts_of {ℓ} : {A : Type ℓ} → ℕ → List (Part A) → List A
parts_of id [] = []
parts_of id (p ∷ parts) =
    let rest = parts_of id parts in if eqb p.event_id id then p.value ∷ rest else rest

abbrev pub version_of : VersionColumns → VersionSpecifier
version_of v = record { version = or_empty v.version; range = or_empty v.version_range }

abbrev pub list_event_versions : Tables → Owner → ℕ → List VersionSpecifier
list_event_versions t owner id = map version_of (parts_of id (rows_of owner t.versions))

abbrev pub list_event_identifiers : Tables → Owner → ℕ → List Identifier
list_event_identifiers t owner id = parts_of id (rows_of owner t.event_identifiers)

abbrev pub list_event_references : Tables → Owner → ℕ → List String
list_event_references t owner id = parts_of id (rows_of owner t.references)

abbrev pub event_of : Tables → Owner → EventRow → Event
event_of t owner row = record {
  id = row.id;
  type = row.type;
  effective = parse_time row.effective;
  published = parse_time row.published;
  version = or_empty row.version;
  versions = list_event_versions t owner row.id;
  support_id = or_empty row.support_id;
  license = or_empty row.license;
  superseded_by_version = or_empty row.superseded_by_version;
  identifiers = list_event_identifiers t owner row.id;
  event_id = row.event_id_ref;
  reason = or_empty row.reason;
  description = or_empty row.description;
  references = list_event_references t owner row.id;
}

-- `getCLEEventTx`
unfoldable pub get_event : Tables → Owner → ℕ → Result Error Event
unfolding find_event parts_of
get_event t owner id = elim (find_event id (rows_of owner t.events)) [
  | none ↦ err not_found
  | some row ↦ ok (event_of t owner row)
]

abbrev pub insert_id : ℕ → List ℕ → List ℕ
insert_id id [] = id ∷ []
insert_id id (j ∷ ids) = if leb j id then id ∷ j ∷ ids else j ∷ insert_id id ids

-- `ORDER BY id DESC`
unfoldable pub order_by_id_desc : List EventRow → List ℕ
order_by_id_desc [] = []
order_by_id_desc (row ∷ rows) = insert_id row.id (order_by_id_desc rows)

unfoldable pub get_events : Tables → Owner → List ℕ → Result Error (List Event)
unfolding get_event
get_events t owner [] = ok []
get_events t owner (id ∷ ids) = do
  e ← get_event t owner id
  more ← get_events t owner ids
  ok (e ∷ more)

abbrev pub definition_of : SupportRow → SupportDefinition
definition_of row = record { id = row.id; description = row.description; url = or_empty row.url }

abbrev pub list_support_definitions : Tables → Owner → List SupportDefinition
list_support_definitions t owner = map definition_of (rows_of owner t.support_definitions)

-- `if len(defs) > 0`
abbrev pub definitions_field : List SupportDefinition → Option (List SupportDefinition)
definitions_field [] = none
definitions_field (d ∷ defs) = some (d ∷ defs)

-- `getCLETx`
unfoldable pub get_cle : Tables → Owner → Result Error Cle
unfolding order_by_id_desc get_events
get_cle t owner = do
  events ← get_events t owner (order_by_id_desc (rows_of owner t.events))
  ok (record {
    events = events;
    definitions = definitions_field (list_support_definitions t owner);
  })

abbrev pub first_revision : List ℕ → ℕ
first_revision [] = 0
first_revision (revision ∷ rows) = revision

-- `getCLERevisionTx`
abbrev pub get_cle_revision : Tables → Owner → ℕ
get_cle_revision t owner = first_revision (rows_of owner t.revisions)
