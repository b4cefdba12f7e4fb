-- ===== src/Lifecycle/Views.antt =====
-- What the reads of internal/repo/cle.go see of the tables: the rows of the one owner.
use opentea.Prelude.{ℕ, ◌≡◌, refl, List, [], ◌∷◌, Option-cases, inl, inr}
use opentea.Repo.Owners.{Owner, rows_of}
use opentea.Lifecycle.{Tables, find_event, get_event, get_events, get_cle}

-- Two states have the same rows for an owner, the revision aside.
pub record IsSameFor (o : Owner) (t t' : Tables) : Type 0 where
  pub events : rows_of o t'.events ≡ rows_of o t.events
  pub versions : rows_of o t'.versions ≡ rows_of o t.versions
  pub event_identifiers : rows_of o t'.event_identifiers ≡ rows_of o t.event_identifiers
  pub references : rows_of o t'.references ≡ rows_of o t.references
  pub support_definitions : rows_of o t'.support_definitions ≡ rows_of o t.support_definitions

module _ (o : Owner) (t t' : Tables) (same : IsSameFor o t t') where
  pub get_event-IsSameFor : (id : ℕ) → get_event t' o id ≡ get_event t o id
  unfolding get_event
  get_event-IsSameFor id = elim (Option-cases (find_event id (rows_of o t.events))) [
    | inl e ↦ rw (get_event, same.events, e) refl
    | inr (row, e) ↦
        rw (get_event, same.events, e, same.versions, same.event_identifiers, same.references) refl
  ]

  get_events-IsSameFor : (ids : List ℕ) → get_events t' o ids ≡ get_events t o ids
  unfolding get_events
  get_events-IsSameFor [] = refl
  get_events-IsSameFor (id ∷ ids) = rw (get_event-IsSameFor id, get_events-IsSameFor ids) refl

  pub get_cle-IsSameFor : get_cle t' o ≡ get_cle t o
  unfolding get_cle
  get_cle-IsSameFor = rw (same.events, get_events-IsSameFor, same.support_definitions) refl
