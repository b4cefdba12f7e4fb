-- ===== src/Lifecycle/Tests.antt =====
-- The lifecycle events of two owners: created, imported, deleted.
use opentea.Prelude.{
  ℕ, ◌<◌, ◌*◌, ◌+◌, ◌≡◌, refl, sym, ◌∙◌, ◌>>=◌, true, false, List, [], ◌∷◌, some, none, ok, err,
  All, Memᴰ,
}
use opentea.Repo.{
  null_if_empty, compliance_document_wrong_owner, import_identity_conflict, constraint_violation,
  second,
}
use opentea.Repo.Identity.{to_set, set_equal}
use opentea.Repo.Owners.{Owner, rows_of}
use opentea.Repo.Identifiers.{
  Identifier, compliance_document, validate_compliance_document_identifier, insert_identifier,
  insert_identifiers,
}
use opentea.Lifecycle.{
  Event, EventRow, SupportDefinition, Tables, Cle, find_event, parts_of, event_of, get_event,
  order_by_id_desc, get_events, get_cle, get_cle_revision,
}
use opentea.Lifecycle.Inserts.{
  event_allowed, row_of, insert_event, insert_event_identifier, insert_event_identifiers, increment,
  bump_cle_revision, store_event, find_definition, store_definition,
}
use opentea.Lifecycle.Writes.{
  EventInput, max_id, next_id, with_id, create_event, event_conflicts, import_event,
  create_support_definition, import_support_definition, delete_owner_scoped,
}
use opentea.Lifecycle.History.{Write, Writes, get_cle_revision-get_cle}
use opentea.Lifecycle.Keys.{IsSoundFor, no_rows, Writes-IsSoundFor}
use opentea.Lifecycle.Added.{with_event}
use opentea.Lifecycle.Order.{IsDescending, event_ids, get_cle-IsDescending}
use opentea.Lifecycle.ReadBack.{stored_form, create_event-next_id, import_event-again}

abbrev product : Owner
product = record { type = "PRODUCT"; uuid = "p" }

abbrev release : Owner
release = record { type = "PRODUCT_RELEASE"; uuid = "r" }

abbrev purl : Identifier
purl = record { id_type = "PURL"; id_value = "pkg:deb/a" }

abbrev soc2 : Identifier
soc2 = record { id_type = compliance_document; id_value = "SOC_2_TYPE_I" }

abbrev released : List Identifier → EventInput
released identifiers = record {
  type = "released";
  effective = 5 * second;
  published = 7 * second + 3;
  version = "1.0";
  versions = record { version = "1.0"; range = "" } ∷ [];
  support_id = "";
  license = "";
  superseded_by_version = "";
  identifiers = identifiers;
  event_id = none;
  reason = "";
  description = "first";
  references = "https://a.example" ∷ [];
}

abbrev imported : ℕ → Event
imported id = record (with_id id (released (purl ∷ []))) {
  published = 7 * second;
  event_id = some 1;
}

abbrev added_event : Tables
added_event = record no_rows {
  events =
      record {
        owner = product;
        row = record {
          id = 1;
          type = "released";
          effective = 5;
          published = 7;
          version = some "1.0";
          support_id = none;
          license = none;
          superseded_by_version = none;
          event_id_ref = none;
          reason = none;
          description = some "first";
        };
      }
      ∷ [];
  versions =
      record {
        owner = product;
        row = record {
          event_id = 1;
          value = record { version = some "1.0"; version_range = none };
        };
      }
      ∷ [];
  event_identifiers = record { owner = product; row = record { event_id = 1; value = purl } } ∷ [];
  references =
      record { owner = product; row = record { event_id = 1; value = "https://a.example" } } ∷ [];
  revisions = record { owner = product; row = 1 } ∷ [];
}

abbrev first_event : Event
first_event = stored_form (with_id 1 (released (purl ∷ [])))

created : create_event product (released (purl ∷ [])) no_rows ≡ ok (first_event, added_event)
unfolding create_event next_id max_id store_event insert_event event_allowed row_of null_if_empty
    insert_event_identifiers insert_event_identifier validate_compliance_document_identifier
    bump_cle_revision increment get_event find_event parts_of
created = refl

refused :
    create_event product (released (purl ∷ soc2 ∷ [])) no_rows ≡ err compliance_document_wrong_owner
unfolding create_event next_id max_id store_event insert_event event_allowed row_of null_if_empty
    insert_event_identifiers insert_event_identifier validate_compliance_document_identifier
refused = refl

history_1 : Writes no_rows added_event
history_1 =
    Writes.then_write product Writes.none_yet
      (Write.create (released (purl ∷ [])) first_event created)

abbrev after_import : Tables
after_import = bump_cle_revision product (with_event product (imported 5) added_event)

imports : import_event product (imported 5) added_event ≡ ok (true, after_import)
unfolding import_event store_event insert_event event_allowed row_of null_if_empty
    insert_event_identifiers insert_event_identifier validate_compliance_document_identifier
    bump_cle_revision increment get_event find_event parts_of with_event
imports = refl

-- The stored event has a fraction of a second less.
conflicts :
    import_event product (with_id 1 (released (purl ∷ []))) added_event
    ≡ err import_identity_conflict
unfolding import_event get_event find_event parts_of event_conflicts to_set set_equal
conflicts = refl

history_2 : Writes no_rows after_import
history_2 = Writes.then_write product history_1 (Write.import_one (imported 5) true imports)

abbrev after_delete : Tables
after_delete = delete_owner_scoped release after_import

history_3 : Writes after_import after_delete
history_3 = Writes.then_write release Writes.none_yet (Write.delete refl)

revisions :
    (get_cle_revision after_import product ≡ 2)
    × (get_cle_revision after_delete product ≡ 2)
    × (get_cle_revision (delete_owner_scoped product after_import) product ≡ 3)
unfolding delete_owner_scoped bump_cle_revision increment with_event row_of
revisions = (refl, refl, refl)

unmoved : get_cle_revision after_import product ≡ get_cle_revision after_delete product
unmoved = revisions.0 ∙ sym revisions.1

get_cle_revision-get_cle_example : get_cle after_delete product ≡ get_cle after_import product
get_cle_revision-get_cle_example =
    get_cle_revision-get_cle product after_import after_delete history_3 unmoved

get_cle-IsDescending_example :
    (cle : Cle) × (get_cle after_import product ≡ ok cle)
    × IsDescending (event_ids cle.events)
    × ((row : EventRow)
        → Memᴰ row (rows_of product after_import.events)
        → Memᴰ (event_of after_import product row) cle.events)
get_cle-IsDescending_example = get_cle-IsDescending after_import product history_2

Writes-IsSoundFor_example : IsSoundFor product after_import
Writes-IsSoundFor_example = Writes-IsSoundFor product after_import history_2

no_rows-IsSoundFor : IsSoundFor product no_rows
no_rows-IsSoundFor = Writes-IsSoundFor product no_rows Writes.none_yet

create_event-next_id_example :
    (first_event ≡ stored_form (with_id (next_id []) (released (purl ∷ []))))
    × (get_event added_event product first_event.id ≡ ok first_event)
    × All (λ (row : EventRow). row.id < first_event.id) []
create_event-next_id_example =
    create_event-next_id product (released (purl ∷ [])) first_event no_rows added_event
      no_rows-IsSoundFor created

added-IsSoundFor : IsSoundFor product added_event
added-IsSoundFor = Writes-IsSoundFor product added_event history_1

import_event-again_example :
    import_event product (imported 5) after_import ≡ ok (false, after_import)
import_event-again_example =
    import_event-again product (imported 5) added_event after_import added-IsSoundFor refl refl
      imports

abbrev definition : SupportDefinition
definition = record { id = "LTS"; description = "five years"; url = "" }

-- A definition is there once.
defined_twice :
    (do
      (_, once) ← create_support_definition product definition no_rows
      (created, _) ← import_support_definition product definition once
      (_, twice) ← create_support_definition product definition once
      ok created)
    ≡ err constraint_violation
unfolding create_support_definition import_support_definition store_definition find_definition
    null_if_empty bump_cle_revision
defined_twice = refl

newest_first :
    get_cle after_import product
    ≡ ok (record { events = imported 5 ∷ first_event ∷ []; definitions = none })
unfolding get_cle get_events get_event find_event parts_of order_by_id_desc with_event row_of
    null_if_empty bump_cle_revision increment
newest_first = refl

owner_checked :
    insert_identifiers release (purl ∷ soc2 ∷ []) [] ≡ err compliance_document_wrong_owner
unfolding insert_identifiers insert_identifier validate_compliance_document_identifier
owner_checked = refl
