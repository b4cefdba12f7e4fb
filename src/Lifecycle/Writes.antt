-- ===== src/Lifecycle/Writes.antt =====
-- internal/repo/cle.go: recording and importing lifecycle events and support definitions, and the
-- deletion of what an owner has (`deleteOwnerScoped`, repo.go).
use opentea.Prelude.{
  ℕ, ◌+◌, String, Bool, true, false, not, ◌&&◌, ◌||◌, Option, none, some, List, [], ◌∷◌, ◌==◌, eqb,
  ltb, if◌then◌else◌, Result, ok, err, ◌>>=◌,
}
use opentea.Repo.{Error, import_identity_conflict}
use opentea.Repo.Identity.{ptr_equal, set_equal}
use opentea.Repo.Owners.{Owner, delete_owned, rows_of}
use opentea.Repo.Identifiers.{Identifier}
use opentea.Lifecycle.{
  VersionSpecifier, Event, SupportDefinition, EventRow, SupportRow, Tables, or_empty, get_event,
}
use opentea.Lifecycle.Inserts.{store_event, find_definition, store_definition, bump_cle_revision}

-- `CLEEventInput`
pub record EventInput : Type 0 where
  pub type : String
  pub effective : ℕ
  pub published : ℕ
  pub version : String
  pub versions : List VersionSpecifier
  pub support_id : String
  pub license : String
  pub superseded_by_version : String
  pub identifiers : List Identifier
  pub event_id : Option ℕ
  pub reason : String
  pub description : String
  pub references : List String

-- `SELECT MAX(id)`
unfoldable pub max_id : List EventRow → Option ℕ
max_id [] = none
max_id (row ∷ rows) = elim (max_id rows) [
  | none ↦ some row.id
  | some id ↦ some (if ltb id row.id then row.id else id)
]

-- `id := 1; if maxID.Valid { id = maxID + 1 }`
abbrev pub id_after : Option ℕ → ℕ
id_after none = 1
id_after (some id) = id + 1

unfoldable pub next_id : List EventRow → ℕ
unfolding max_id
next_id rows = id_after (max_id rows)

abbrev pub with_id : ℕ → EventInput → Event
with_id id input = record {
  id = id;
  type = input.type;
  effective = input.effective;
  published = input.published;
  version = input.version;
  versions = input.versions;
  support_id = input.support_id;
  license = input.license;
  superseded_by_version = input.superseded_by_version;
  identifiers = input.identifiers;
  event_id = input.event_id;
  reason = input.reason;
  description = input.description;
  references = input.references;
}

-- `CreateCLEEvent`
unfoldable pub create_event : Owner → EventInput → Tables → Result Error (Event × Tables)
unfolding next_id store_event get_event
create_event owner input t = do
  let id = next_id (rows_of owner t.events)
  t' ← store_event owner (with_id id input) t
  e ← get_event t' owner id
  ok (e, t')

abbrev pub same_specifier : VersionSpecifier → VersionSpecifier → Bool
same_specifier a b = (a.version == b.version) && (a.range == b.range)

abbrev pub same_identifier : Identifier → Identifier → Bool
same_identifier a b = (a.id_type == b.id_type) && (a.id_value == b.id_value)

-- `cleEventConflicts`
unfoldable pub event_conflicts : Event → Event → Bool
unfolding set_equal
event_conflicts existing e =
    not (existing.type == e.type)
    || (not (eqb existing.effective e.effective)
        || (not (eqb existing.published e.published)
            || (not (existing.version == e.version)
                || (not (set_equal same_specifier existing.versions e.versions)
                    || (not (existing.support_id == e.support_id)
                        || (not (existing.license == e.license)
                            || (not (existing.superseded_by_version == e.superseded_by_version)
                                || (not
                                      (set_equal same_identifier existing.identifiers e.identifiers)
                                    || (not (ptr_equal eqb existing.event_id e.event_id)
                                        || (not (existing.reason == e.reason)
                                            || (not (existing.description == e.description)
                                                || not (
                                                    set_equal (λ a b. a == b) existing.references
                                                      e.references))))))))))))

-- `ImportCLEEvent`: whether the event was created, and the tables. The one error of the query is that
-- it finds nothing.
unfoldable pub import_event : Owner → Event → Tables → Result Error (Bool × Tables)
unfolding get_event event_conflicts store_event
import_event owner e t = elim (get_event t owner e.id) [
  | ok existing ↦ if event_conflicts existing e then err import_identity_conflict else ok (false, t)
  | err missing ↦ do t' ← store_event owner e t; ok (true, t')
]

-- `CreateCLESupportDefinition`
unfoldable pub create_support_definition :
    Owner → SupportDefinition → Tables → Result Error (SupportDefinition × Tables)
unfolding store_definition
create_support_definition owner def t = do t' ← store_definition owner def t; ok (def, t')

abbrev pub definition_conflicts : SupportRow → SupportDefinition → Bool
definition_conflicts row def =
    not (row.description == def.description) || not (or_empty row.url == def.url)

-- `ImportCLESupportDefinition`
unfoldable pub import_support_definition :
    Owner → SupportDefinition → Tables → Result Error (Bool × Tables)
unfolding store_definition find_definition
import_support_definition owner def t =
    elim (find_definition def.id (rows_of owner t.support_definitions)) [
      | some row ↦
          if definition_conflicts row def then err import_identity_conflict else ok (false, t)
      | none ↦ do t' ← store_definition owner def t; ok (true, t')
    ]

-- `deleteOwnerScoped`. The keys of the parts of an event end in ON DELETE CASCADE.
unfoldable pub delete_owner_scoped : Owner → Tables → Tables
unfolding bump_cle_revision
delete_owner_scoped owner t = bump_cle_revision owner (record t {
  identifiers = delete_owned owner t.identifiers;
  events = delete_owned owner t.events;
  versions = delete_owned owner t.versions;
  event_identifiers = delete_owned owner t.event_identifiers;
  references = delete_owned owner t.references;
  support_definitions = delete_owned owner t.support_definitions;
})
