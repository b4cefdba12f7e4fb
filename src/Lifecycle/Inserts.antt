-- ===== src/Lifecycle/Inserts.antt =====
-- internal/repo/cle.go: the statements that add an event or a support definition, and the bump of
-- the owner's revision.
use opentea.Prelude.{
  ℕ, ◌+◌, String, Bool, true, false, not, ◌&&◌, ◌||◌, Option, none, some, List, [], ◌∷◌, ◌++◌, map,
  ◌==◌, eqb, if◌then◌else◌, any, Result, ok, err, ◌>>=◌, ◌>>◌,
}
use opentea.Repo.{Error, constraint_violation, format_time, null_if_empty}
use opentea.Repo.Owners.{Owner, Owned, owned, rows_of}
use opentea.Repo.Identifiers.{
  Identifier, validate_compliance_document_identifier, one_of, identifier_types,
}
use opentea.Lifecycle.{
  VersionSpecifier, Event, SupportDefinition, EventRow, Part, VersionColumns, SupportRow, Tables,
}

-- The CHECK on `owner_type`.
abbrev pub cle_owner_types : List String
cle_owner_types = "PRODUCT" ∷ "PRODUCT_RELEASE" ∷ "COMPONENT" ∷ "COMPONENT_RELEASE" ∷ []

-- The CHECK on `type`.
abbrev pub event_types : List String
event_types =
    "released" ∷ "endOfDevelopment" ∷ "endOfSupport" ∷ "endOfLife" ∷ "endOfDistribution"
    ∷ "endOfMarketing" ∷ "supersededBy" ∷ "componentRenamed" ∷ "withdrawn" ∷ []

unfoldable pub row_of : Event → EventRow
unfolding null_if_empty
row_of e = record {
  id = e.id;
  type = e.type;
  effective = format_time e.effective;
  published = format_time e.published;
  version = null_if_empty e.version;
  support_id = null_if_empty e.support_id;
  license = null_if_empty e.license;
  superseded_by_version = null_if_empty e.superseded_by_version;
  event_id_ref = e.event_id;
  reason = null_if_empty e.reason;
  description = null_if_empty e.description;
}

-- The CHECKs of `cle_event`.
unfoldable pub event_allowed : Owner → Event → Bool
event_allowed owner e = one_of cle_owner_types owner.type && one_of event_types e.type

abbrev pub has_id : ℕ → List EventRow → Bool
has_id id rows = any (λ row. eqb row.id id) rows

-- `INSERT INTO cle_event`: its primary key and its CHECKs.
unfoldable pub insert_event :
    Owner → Event → List (Owned EventRow) → Result Error (List (Owned EventRow))
unfolding row_of event_allowed
insert_event owner e rows =
    if has_id e.id (rows_of owner rows) || not (event_allowed owner e)
    then err constraint_violation
    else ok (rows ++ record { owner = owner; row = row_of e } ∷ [])

abbrev pub part {ℓ} : {A : Type ℓ} → Owner → ℕ → A → Owned (Part A)
part owner id value = record { owner = owner; row = record { event_id = id; value = value } }

abbrev pub version_columns : VersionSpecifier → VersionColumns
version_columns v = record {
  version = null_if_empty v.version;
  version_range = null_if_empty v.range;
}

-- One round of `insertCLEEventIdentifiers`: no COMPLIANCE_DOCUMENT, and the CHECK on `id_type`.
unfoldable pub insert_event_identifier :
    Owner
    → ℕ
    → Identifier
    → List (Owned (Part Identifier))
    → Result Error (List (Owned (Part Identifier)))
unfolding validate_compliance_document_identifier
insert_event_identifier owner id i rows =
    validate_compliance_document_identifier i false
    >> (if one_of identifier_types i.id_type
        then ok (rows ++ part owner id i ∷ [])
        else err constraint_violation)

unfoldable pub insert_event_identifiers :
    Owner
    → ℕ
    → List Identifier
    → List (Owned (Part Identifier))
    → Result Error (List (Owned (Part Identifier)))
unfolding insert_event_identifier
insert_event_identifiers owner id [] rows = ok rows
insert_event_identifiers owner id (i ∷ ids) rows = do
  more ← insert_event_identifier owner id i rows
  insert_event_identifiers owner id ids more

-- `revision = revision + 1`
unfoldable pub increment : Owner → List (Owned ℕ) → List (Owned ℕ)
increment owner [] = []
increment owner (r ∷ rows) =
    (if owned owner r then record { owner = r.owner; row = r.row + 1 } else r)
    ∷ increment owner rows

-- `bumpCLERevisionTx`
unfoldable pub bump_cle_revision : Owner → Tables → Tables
unfolding increment
bump_cle_revision owner t = record t {
  revisions =
      if any (owned owner) t.revisions
      then increment owner t.revisions
      else t.revisions ++ record { owner = owner; row = 1 } ∷ [];
}

-- The inserts of an event into the four tables, and the bump.
unfoldable pub store_event : Owner → Event → Tables → Result Error Tables
unfolding insert_event insert_event_identifiers bump_cle_revision
store_event owner e t = do
  events ← insert_event owner e t.events
  let versions = t.versions ++ map (λ v. part owner e.id (version_columns v)) e.versions
  identifiers ← insert_event_identifiers owner e.id e.identifiers t.event_identifiers
  let references = t.references ++ map (part owner e.id) e.references
  ok (
      bump_cle_revision owner (record t {
        events = events;
        versions = versions;
        event_identifiers = identifiers;
        references = references;
      }))

unfoldable pub find_definition : String → List SupportRow → Option SupportRow
find_definition id [] = none
find_definition id (row ∷ rows) = if row.id == id then some row else find_definition id rows

abbrev pub is_some {ℓ} : {A : Type ℓ} → Option A → Bool
is_some none = false
is_some (some a) = true

abbrev pub definition_row : SupportDefinition → SupportRow
definition_row def = record {
  id = def.id;
  description = def.description;
  url = null_if_empty def.url;
}

-- `INSERT INTO cle_support_definition`, its primary key and its CHECK, and the bump.
unfoldable pub store_definition : Owner → SupportDefinition → Tables → Result Error Tables
unfolding find_definition bump_cle_revision
store_definition owner def t =
    if is_some (find_definition def.id (rows_of owner t.support_definitions))
      || not (one_of cle_owner_types owner.type)
    then err constraint_violation
    else ok (
        bump_cle_revision owner (record t {
          support_definitions =
              t.support_definitions ++ record { owner = owner; row = definition_row def } ∷ [];
        }))
