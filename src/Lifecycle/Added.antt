-- ===== src/Lifecycle/Added.antt =====
-- What the inserts of internal/repo/cle.go leave in the tables.
use opentea.Prelude.{
  ℕ, ◌≡◌, refl, sym, ap, ◌∙◌, false, List, [], ◌∷◌, ◌++◌, map, arith, ◌==◌, Bool-cases, inl, inr,
  ok, >>=-eq-ok, ok-injective, append-nil, append_assoc, All,
}
use opentea.Repo.Owners.{Owner, Owned, same_owner, same_owner_self, rows_of, rows_of-append}
use opentea.Repo.Identifiers.{
  Identifier, compliance_document, one_of, validate_compliance_document_identifier,
}
use opentea.Lifecycle.{Event, EventRow, SupportDefinition, Part, Tables}
use opentea.Lifecycle.Inserts.{
  cle_owner_types, is_some, find_definition, definition_row, part, event_allowed, has_id, row_of,
  version_columns, insert_event, insert_event_identifier, insert_event_identifiers,
  bump_cle_revision, store_event, store_definition,
}

-- Not a COMPLIANCE_DOCUMENT.
abbrev pub IsPlain : Identifier → Type 0
IsPlain i = i.id_type == compliance_document ≡ false

module _ (o : Owner) where
  pub insert_event-append :
      (e : Event) (rows rows' : List (Owned EventRow))
      → insert_event o e rows ≡ ok rows'
      → (has_id e.id (rows_of o rows) ≡ false)
        × (rows' ≡ rows ++ record { owner = o; row = row_of e } ∷ [])
  unfolding insert_event
  insert_event-append e rows rows' h = elim (Bool-cases (has_id e.id (rows_of o rows))) [
    | inl a ↦ absurd (let k = rw (insert_event, a) at h in cc)
    | inr a ↦ elim (Bool-cases (event_allowed o e)) [
      | inl b ↦ (a, sym (ok-injective (rw (insert_event, a, b) at h)))
      | inr b ↦ absurd (let k = rw (insert_event, a, b) at h in cc)
    ]
  ]

  insert_event_identifier-append :
      (id : ℕ) (i : Identifier) (rows rows' : List (Owned (Part Identifier)))
      → insert_event_identifier o id i rows ≡ ok rows'
      → IsPlain i × (rows' ≡ rows ++ part o id i ∷ [])
  unfolding insert_event_identifier validate_compliance_document_identifier
  insert_event_identifier-append id i rows rows' h = ground arith

  pub insert_event_identifiers-append :
      (id : ℕ) (ids : List Identifier) (rows rows' : List (Owned (Part Identifier)))
      → insert_event_identifiers o id ids rows ≡ ok rows'
      → All IsPlain ids × (rows' ≡ rows ++ map (part o id) ids)
  unfolding insert_event_identifiers
  insert_event_identifiers-append id [] rows rows' h =
      (tt, sym (ok-injective h) ∙ sym (append-nil rows))
  insert_event_identifiers-append id (i ∷ ids) rows rows' h =
      let (more, e, k) = >>=-eq-ok (insert_event_identifier o id i rows) _ h in
      let (plain, one) = insert_event_identifier-append id i rows more e in
      let (all, rest) = insert_event_identifiers-append id ids more rows' k in
      (
        (plain, all),
        rest
            ∙ ap (λ z. z ++ map (part o id) ids) one
            ∙ append_assoc rows (part o id i ∷ []) (map (part o id) ids),
      )

  module _ {ℓ κ} {A : Type ℓ} {B : Type κ} (f : A → B) (id : ℕ) where
    no_parts :
        (p : Owner) (xs : List A)
        → same_owner o p ≡ false
        → rows_of p (map (λ x. part o id (f x)) xs) ≡ []
    no_parts p [] h = refl
    no_parts p (x ∷ xs) h = rw h (no_parts p xs h)

    -- The parts of an event of one owner are not in the rows of another.
    pub rows_of-parts_other :
        (p : Owner) (xs : List A) (rows : List (Owned (Part B)))
        → same_owner o p ≡ false
        → rows_of p (rows ++ map (λ x. part o id (f x)) xs) ≡ rows_of p rows
    rows_of-parts_other p xs rows h =
        rows_of-append p rows (map (λ x. part o id (f x)) xs)
        ∙ rw (no_parts p xs h) (append-nil (rows_of p rows))

    own_parts :
        (xs : List A)
        → rows_of o (map (λ x. part o id (f x)) xs)
          ≡ map (λ x. record { event_id = id; value = f x }) xs
    own_parts [] = refl
    own_parts (x ∷ xs) =
        rw (same_owner_self o) (ap (λ z. record { event_id = id; value = f x } ∷ z) (own_parts xs))

    pub rows_of-parts :
        (xs : List A) (rows : List (Owned (Part B)))
        → rows_of o (rows ++ map (λ x. part o id (f x)) xs)
          ≡ rows_of o rows ++ map (λ x. record { event_id = id; value = f x }) xs
    rows_of-parts xs rows =
        rows_of-append o rows (map (λ x. part o id (f x)) xs)
        ∙ ap (λ z. rows_of o rows ++ z) (own_parts xs)

-- The tables with an event added, before the bump.
unfoldable pub with_event : Owner → Event → Tables → Tables
unfolding row_of
with_event o e t = record t {
  events = t.events ++ record { owner = o; row = row_of e } ∷ [];
  versions = t.versions ++ map (λ v. part o e.id (version_columns v)) e.versions;
  event_identifiers = t.event_identifiers ++ map (part o e.id) e.identifiers;
  references = t.references ++ map (part o e.id) e.references;
}

pub record Added (o : Owner) (e : Event) (t t' : Tables) : Type 0 where
  pub absent : has_id e.id (rows_of o t.events) ≡ false
  pub plain : All IsPlain e.identifiers
  pub made : t' ≡ bump_cle_revision o (with_event o e t)

-- A stored event had an id that its owner had not used, and no COMPLIANCE_DOCUMENT.
pub store_event-Added :
    (o : Owner) (e : Event) (t t' : Tables) → store_event o e t ≡ ok t' → Added o e t t'
unfolding store_event with_event
store_event-Added o e t t' h =
    let (events, i, h') = >>=-eq-ok (insert_event o e t.events) _ h in
    let (identifiers, j, k) =
      >>=-eq-ok (insert_event_identifiers o e.id e.identifiers t.event_identifiers) _ h' in
    let (absent, es) = insert_event-append o e t.events events i in
    let (plain, is) =
      insert_event_identifiers-append o e.id e.identifiers t.event_identifiers identifiers j in
    record { absent = absent; plain = plain; made = sym (ok-injective k) ∙ rw (es, is) refl }

-- A stored definition had an id that its owner had not used.
pub store_definition-made :
    (o : Owner) (def : SupportDefinition) (t t' : Tables)
    → store_definition o def t ≡ ok t'
    → (is_some (find_definition def.id (rows_of o t.support_definitions)) ≡ false)
      × (t'
          ≡ bump_cle_revision o (record t {
            support_definitions =
                t.support_definitions ++ record { owner = o; row = definition_row def } ∷ [];
          }))
unfolding store_definition
store_definition-made o def t t' h =
    elim (Bool-cases (is_some (find_definition def.id (rows_of o t.support_definitions)))) [
      | inl a ↦ absurd (let k = rw (store_definition, a) at h in cc)
      | inr a ↦ elim (Bool-cases (one_of cle_owner_types o.type)) [
        | inl b ↦ (a, sym (ok-injective (rw (store_definition, a, b) at h)))
        | inr b ↦ absurd (let k = rw (store_definition, a, b) at h in cc)
      ]
    ]
