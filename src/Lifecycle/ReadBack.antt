-- ===== src/Lifecycle/ReadBack.antt =====
-- `CreateCLEEvent` and `ImportCLEEvent` (internal/repo/cle.go): what is written is what is read, and an
-- import is idempotent.
use opentea.Prelude.{
  ℕ, ◌<◌, ◌≡◌, refl, sym, ap, ◌∙◌, subst, String, true, false, ◌==◌, List, [], ◌∷◌, ◌++◌, map,
  arith, inl, inr, Bool-cases, eqb, eqb_iff, eq_iff, some, none, Option, ok, ok-injective, All,
  All-of_mem, Memᴰ,
}
use opentea.Repo.{parse_time, format_time, null_if_empty}
use opentea.Repo.Identity.{ptr_equal, set_equal_self}
use opentea.Repo.Owners.{Owner, rows_of, rows_of-own}
use opentea.Repo.Identifiers.{Identifier}
use opentea.Lifecycle.{
  VersionSpecifier, Event, EventRow, Part, Tables, or_empty, find_event, parts_of, version_of,
  get_event,
}
use opentea.Lifecycle.Inserts.{has_id, row_of, version_columns, bump_cle_revision, store_event}
use opentea.Lifecycle.Writes.{
  EventInput, max_id, id_after, next_id, with_id, create_event, same_specifier, same_identifier,
  event_conflicts, import_event,
}
use opentea.Lifecycle.Added.{with_event, store_event-Added, rows_of-parts}
use opentea.Lifecycle.History.{create_event-stored, import_event-cases}
use opentea.Lifecycle.Keys.{HasEvents, IsSoundFor}

-- The event as the columns keep it: its times in whole seconds.
abbrev pub stored_form : Event → Event
stored_form e = record e {
  effective = parse_time (format_time e.effective);
  published = parse_time (format_time e.published);
}

find_event-append :
    (rows : List EventRow) (row : EventRow)
    → has_id row.id rows ≡ false
    → find_event row.id (rows ++ row ∷ []) ≡ some row
unfolding find_event
find_event-append [] row h = rw ((eqb_iff row.id row.id).1 refl, find_event) refl
find_event-append (x ∷ rows) row h = elim (Bool-cases (eqb x.id row.id)) [
  | inl e ↦ absurd (ground arith)
  | inr e ↦ rw (e, find_event) (find_event-append rows row (rw e at h))
]

-- An event that is not there has no parts.
no_parts_of {ℓ} :
    {A : Type ℓ} (id : ℕ) (rows : List EventRow) (parts : List (Part A))
    → has_id id rows ≡ false
    → HasEvents rows parts
    → parts_of id parts ≡ []
unfolding parts_of
no_parts_of id rows [] h s = refl
no_parts_of id rows (p ∷ parts) h s = elim (Bool-cases (eqb p.event_id id)) [
  | inl e ↦
      let there = s.0 in
      let again : has_id id rows ≡ true =
        subst (λ z. has_id z rows ≡ true) ((eqb_iff p.event_id id).0 e) there in
      absurd (ground arith)
  | inr e ↦ rw (e, parts_of) (no_parts_of id rows parts h s.1)
]

parts_of-append {ℓ κ} :
    {A : Type ℓ} {B : Type κ} (f : A → B) (id : ℕ) (parts : List (Part B)) (xs : List A)
    → parts_of id parts ≡ []
    → parts_of id (parts ++ map (λ x. record { event_id = id; value = f x }) xs) ≡ map f xs
unfolding parts_of
parts_of-append f id [] [] h = refl
parts_of-append f id [] (x ∷ xs) h =
    rw ((eqb_iff id id).1 refl, parts_of) (ap (λ z. f x ∷ z) (parts_of-append f id [] xs refl))
parts_of-append f id (p ∷ parts) xs h = elim (Bool-cases (eqb p.event_id id)) [
  | inl e ↦ absurd (let k = rw (e, parts_of) at h in cc)
  | inr e ↦ rw (e, parts_of) (parts_of-append f id parts xs (rw (e, parts_of) at h))
]

or_empty-null_if_empty : (s : String) → or_empty (null_if_empty s) ≡ s
unfolding null_if_empty
or_empty-null_if_empty s = ground (arith, eq_iff s "", eq_iff "" s)

map-version_of : (vs : List VersionSpecifier) → map version_of (map version_columns vs) ≡ vs
map-version_of [] = refl
map-version_of (v ∷ vs) =
    rw (or_empty-null_if_empty v.version, or_empty-null_if_empty v.range)
      (ap (λ z. v ∷ z) (map-version_of vs))

map-same {ℓ} : {A : Type ℓ} (xs : List A) → map (λ x. x) xs ≡ xs
map-same [] = refl
map-same (x ∷ xs) = ap (λ z. x ∷ z) (map-same xs)

module _ (o : Owner) (e : Event) (t : Tables) (sound : IsSoundFor o t) where
  parts_of-stored {ℓ κ} :
      {A : Type ℓ} {B : Type κ} (f : A → B) (xs : List A) (parts : List (Part B))
      → has_id e.id (rows_of o t.events) ≡ false
      → HasEvents (rows_of o t.events) parts
      → parts_of e.id (parts ++ map (λ x. record { event_id = e.id; value = f x }) xs) ≡ map f xs
  parts_of-stored f xs parts absent h =
      parts_of-append f e.id parts xs (no_parts_of e.id (rows_of o t.events) parts absent h)

  get_event-with_event :
      has_id e.id (rows_of o t.events) ≡ false
      → get_event (bump_cle_revision o (with_event o e t)) o e.id ≡ ok (stored_form e)
  unfolding get_event with_event bump_cle_revision row_of
  get_event-with_event absent =
      rw
        (
          get_event,
          rows_of-own o t.events (row_of e),
          find_event-append (rows_of o t.events) (row_of e) absent,
          rows_of-parts o version_columns e.id e.versions t.versions,
          rows_of-parts o (λ i. i) e.id e.identifiers t.event_identifiers,
          rows_of-parts o (λ r. r) e.id e.references t.references,
          parts_of-stored version_columns e.versions _ absent sound.versions,
          parts_of-stored (λ i. i) e.identifiers _ absent sound.event_identifiers,
          parts_of-stored (λ r. r) e.references _ absent sound.references,
          map-version_of e.versions,
          map-same e.identifiers,
          map-same e.references,
          or_empty-null_if_empty e.version,
          or_empty-null_if_empty e.support_id,
          or_empty-null_if_empty e.license,
          or_empty-null_if_empty e.superseded_by_version,
          or_empty-null_if_empty e.reason,
          or_empty-null_if_empty e.description,
        )
        refl

  -- What an insert writes is what the query reads.
  store_event-get_event :
      (t' : Tables) → store_event o e t ≡ ok t' → get_event t' o e.id ≡ ok (stored_form e)
  store_event-get_event t' h =
      let added = store_event-Added o e t t' h in
      subst (λ z. get_event z o e.id ≡ ok (stored_form e)) (sym added.made)
        (get_event-with_event added.absent)

same_specifier_self : (a : VersionSpecifier) → same_specifier a a ≡ true
same_specifier_self a = ground (arith, eq_iff a.version a.version, eq_iff a.range a.range)

same_identifier_self : (a : Identifier) → same_identifier a a ≡ true
same_identifier_self a = ground (arith, eq_iff a.id_type a.id_type, eq_iff a.id_value a.id_value)

ptr_equal_self : (a : Option ℕ) → ptr_equal eqb a a ≡ true
ptr_equal_self none = refl
ptr_equal_self (some i) = (eqb_iff i i).1 refl

-- An event agrees with itself.
event_conflicts_self : (e : Event) → event_conflicts e e ≡ false
unfolding event_conflicts
event_conflicts_self e =
    rw
      (
        event_conflicts,
        (eq_iff e.type e.type).1 refl,
        (eq_iff e.version e.version).1 refl,
        (eq_iff e.support_id e.support_id).1 refl,
        (eq_iff e.license e.license).1 refl,
        (eq_iff e.superseded_by_version e.superseded_by_version).1 refl,
        (eq_iff e.reason e.reason).1 refl,
        (eq_iff e.description e.description).1 refl,
        (eqb_iff e.effective e.effective).1 refl,
        (eqb_iff e.published e.published).1 refl,
        set_equal_self same_specifier same_specifier_self e.versions,
        set_equal_self same_identifier same_identifier_self e.identifiers,
        set_equal_self (λ a b. a == b) (λ a. (eq_iff a a).1 refl) e.references,
        ptr_equal_self e.event_id,
      )
      refl

max_id-lt :
    (rows : List EventRow) {row : EventRow} → Memᴰ row rows → row.id < id_after (max_id rows)
unfolding max_id
max_id-lt [] m = elim m [ ]
max_id-lt (x ∷ rows) {row} (Memᴰ.head q) =
    subst (λ z. z.id < id_after (max_id (x ∷ rows))) (sym q) (ground arith)
max_id-lt (x ∷ rows) {row} (Memᴰ.tail m) = let ih = max_id-lt rows m in ground arith

-- A created event takes the id after all ids of its owner, and is returned as given, with its times in
-- whole seconds, where the parts in the tables belong to events.
pub create_event-next_id :
    (o : Owner) (input : EventInput) (e : Event) (t t' : Tables)
    → IsSoundFor o t
    → create_event o input t ≡ ok (e, t')
    → (e ≡ stored_form (with_id (next_id (rows_of o t.events)) input))
      × (get_event t' o e.id ≡ ok e)
      × All (λ row. row.id < e.id) (rows_of o t.events)
unfolding create_event next_id
create_event-next_id o input e t t' sound h =
    let new = with_id (next_id (rows_of o t.events)) input in
    let (stored, found) = create_event-stored o t t' input e h in
    let same : e ≡ stored_form new =
      ok-injective (sym found ∙ store_event-get_event o new t sound t' stored) in
    let named : e.id ≡ next_id (rows_of o t.events) = ap (λ z. z.id) same in
    (
      same,
      ap (get_event t' o) named ∙ found,
      All-of_mem (λ row. row.id < e.id) (rows_of o t.events)
          (λ row m. let lt = max_id-lt (rows_of o t.events) m in rw named lt),
    )

-- An import is idempotent: where the parts in the tables belong to events, and the event's times have
-- no part of a second, importing again what was created finds it and changes nothing.
pub import_event-again :
    (o : Owner) (e : Event) (t t' : Tables)
    → IsSoundFor o t
    → parse_time (format_time e.effective) ≡ e.effective
    → parse_time (format_time e.published) ≡ e.published
    → import_event o e t ≡ ok (true, t')
    → import_event o e t' ≡ ok (false, t')
unfolding import_event
import_event-again o e t t' sound whole whole' h =
    let stored : store_event o e t ≡ ok t' = elim (import_event-cases o t t' e true h) [
      | inl (found, same) ↦ absurd (let k = found in cc)
      | inr s ↦ s
    ] in
    let read = store_event-get_event o e t sound t' stored in
    rw (import_event, read, whole, whole', event_conflicts_self e) refl
