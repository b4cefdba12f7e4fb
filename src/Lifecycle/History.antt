-- ===== src/Lifecycle/History.antt =====
-- Histories of the writes of internal/repo/cle.go: any number of them, of any owners, in any order.
use opentea.Prelude.{
  ◌≤◌, ◌<◌, ◌≡◌, refl, sym, ap, ◌∙◌, subst, Bool, false, arith, ◌⊎◌, inl, inr, Bool-cases, ok,
  Result-cases, >>=-eq-ok, ok-injective, Option-cases,
}
use opentea.Repo.Owners.{Owner, rows_of, same_owner, same_owner_eq}
use opentea.Lifecycle.{Event, SupportDefinition, Tables, get_event, get_cle, get_cle_revision}
use opentea.Lifecycle.Inserts.{store_event, store_definition, find_definition}
use opentea.Lifecycle.Writes.{
  EventInput, next_id, with_id, create_event, event_conflicts, import_event,
  create_support_definition, definition_conflicts, import_support_definition, delete_owner_scoped,
}
use opentea.Lifecycle.Views.{get_cle-IsSameFor}
use opentea.Lifecycle.Revisions.{
  Bumped, store_event-Bumped, store_definition-Bumped, delete_owner_scoped-Bumped,
}

-- One call that succeeds.
pub data Write (o : Owner) (t t' : Tables) : Type 0 where
  create : (input : EventInput) (e : Event) → create_event o input t ≡ ok (e, t') → Write o t t'
  import_one : (e : Event) (created : Bool) → import_event o e t ≡ ok (created, t') → Write o t t'
  define :
      (def d : SupportDefinition) → create_support_definition o def t ≡ ok (d, t') → Write o t t'
  import_definition :
      (def : SupportDefinition) (created : Bool)
      → import_support_definition o def t ≡ ok (created, t')
      → Write o t t'
  delete : t' ≡ delete_owner_scoped o t → Write o t t'

pub data Writes (t : Tables) : Tables → Type 0 where
  none_yet : Writes t t
  then_write : {t' t'' : Tables} (o : Owner) → Writes t t' → Write o t' t'' → Writes t t''

-- What a successful call has done.
pub data Done (o : Owner) (t t' : Tables) : Type 0 where
  unchanged : t' ≡ t → Done o t t'
  stored : (e : Event) → store_event o e t ≡ ok t' → Done o t t'
  defined : (def : SupportDefinition) → store_definition o def t ≡ ok t' → Done o t t'
  deleted : t' ≡ delete_owner_scoped o t → Done o t t'

module _ (o : Owner) (t t' : Tables) where
  pub create_event-stored :
      (input : EventInput) (e : Event)
      → create_event o input t ≡ ok (e, t')
      → (store_event o (with_id (next_id (rows_of o t.events)) input) t ≡ ok t')
        × (get_event t' o (next_id (rows_of o t.events)) ≡ ok e)
  unfolding create_event
  create_event-stored input e h =
      let id = next_id (rows_of o t.events) in
      let (t'', s, k) = >>=-eq-ok (store_event o (with_id id input) t) _ h in
      let (e', g, l) = >>=-eq-ok (get_event t'' o id) _ k in
      let same = ap (λ p. p.1) (ok-injective l) in
      (
        s ∙ ap ok same,
        ap (λ z. get_event z o id) (sym same) ∙ g ∙ ap ok (ap (λ p. p.0) (ok-injective l)),
      )

  -- An import finds the event and changes nothing, or stores it.
  pub import_event-cases :
      (e : Event) (created : Bool)
      → import_event o e t ≡ ok (created, t')
      → ((created ≡ false) × (t' ≡ t)) ⊎ (store_event o e t ≡ ok t')
  unfolding import_event
  import_event-cases e created h = elim (Result-cases (get_event t o e.id)) [
    | inl (c, f) ↦ elim (Bool-cases (event_conflicts c e)) [
      | inl x ↦ absurd (let k = rw (import_event, f, x) at h in cc)
      | inr x ↦
          let out = ok-injective (rw (import_event, f, x) at h) in
          inl (sym (ap (λ p. p.0) out), sym (ap (λ p. p.1) out))
    ]
    | inr (x, f) ↦
        let (t'', s, k) = >>=-eq-ok (store_event o e t) _ (rw (import_event, f) at h) in
        inr (s ∙ ap ok (ap (λ p. p.1) (ok-injective k)))
  ]

  import_event-Done :
      (e : Event) (created : Bool) → import_event o e t ≡ ok (created, t') → Done o t t'
  import_event-Done e created h = elim (import_event-cases e created h) [
    | inl (found, same) ↦ Done.unchanged same
    | inr s ↦ Done.stored e s
  ]

  create_support_definition-Done :
      (def d : SupportDefinition) → create_support_definition o def t ≡ ok (d, t') → Done o t t'
  unfolding create_support_definition
  create_support_definition-Done def d h =
      let (t'', s, k) = >>=-eq-ok (store_definition o def t) _ h in
      Done.defined def (s ∙ ap ok (ap (λ p. p.1) (ok-injective k)))

  import_support_definition-Done :
      (def : SupportDefinition) (created : Bool)
      → import_support_definition o def t ≡ ok (created, t')
      → Done o t t'
  unfolding import_support_definition
  import_support_definition-Done def created h =
      elim (Option-cases (find_definition def.id (rows_of o t.support_definitions))) [
        | inl f ↦
            let (t'', s, k) =
              >>=-eq-ok (store_definition o def t) _ (rw (import_support_definition, f) at h) in
            Done.defined def (s ∙ ap ok (ap (λ p. p.1) (ok-injective k)))
        | inr (row, f) ↦ elim (Bool-cases (definition_conflicts row def)) [
          | inl x ↦ absurd (let k = rw (import_support_definition, f, x) at h in cc)
          | inr x ↦
              Done.unchanged
                (sym (ap (λ p. p.1) (ok-injective (rw (import_support_definition, f, x) at h))))
        ]
      ]

  pub Write-Done : Write o t t' → Done o t t'
  Write-Done (Write.create input e h) = Done.stored _ (create_event-stored input e h).0
  Write-Done (Write.import_one e created h) = import_event-Done e created h
  Write-Done (Write.define def d h) = create_support_definition-Done def d h
  Write-Done (Write.import_definition def created h) = import_support_definition-Done def created h
  Write-Done (Write.delete h) = Done.deleted h

  -- A write changes nothing, or raises its owner's revision and leaves the rest of the tables.
  pub Done-Bumped : Done o t t' → (t' ≡ t) ⊎ Bumped o t t'
  Done-Bumped (Done.unchanged h) = inl h
  Done-Bumped (Done.stored e h) = inr (store_event-Bumped o e t t' h)
  Done-Bumped (Done.defined def h) = inr (store_definition-Bumped o def t t' h)
  Done-Bumped (Done.deleted h) = inr (subst (Bumped o t) (sym h) (delete_owner_scoped-Bumped o t))

-- The revision of `p` does not fall, and where it stays the CLE stays.
record IsTagged (p : Owner) (t t' : Tables) : Type 0 where
  grows : get_cle_revision t p ≤ get_cle_revision t' p
  stays : get_cle_revision t p ≡ get_cle_revision t' p → get_cle t' p ≡ get_cle t p

Write-IsTagged : (o p : Owner) (t t' : Tables) → Write o t t' → IsTagged p t t'
Write-IsTagged o p t t' w = elim (Done-Bumped o t t' (Write-Done o t t' w)) [
  | inl same ↦ record { grows = rw same (omega arith); stays = λ h. rw same refl }
  | inr b ↦ elim (Bool-cases (same_owner o p)) [
    | inl e ↦
        let higher : get_cle_revision t p < get_cle_revision t' p =
          subst (λ z. get_cle_revision t z < get_cle_revision t' z) (same_owner_eq o p e)
            b.higher in
        record { grows = omega arith; stays = λ h. absurd (omega arith) }
    | inr e ↦
        let (same, kept) = b.elsewhere p e in
        record { grows = omega arith; stays = λ h. get_cle-IsSameFor p t t' same }
  ]
]

Writes-IsTagged : (p : Owner) (t t' : Tables) → Writes t t' → IsTagged p t t'
Writes-IsTagged p t t' Writes.none_yet = record { grows = omega arith; stays = λ h. refl }
Writes-IsTagged p t t'' (Writes.then_write {t'} o ws w) =
    let before = Writes-IsTagged p t t' ws in
    let now = Write-IsTagged o p t' t'' w in
    let b = before.grows in
    let n = now.grows in
    record {
      grows = omega arith;
      stays = λ h. now.stays (omega arith) ∙ before.stays (omega arith);
    }

-- The ETag of a CLE is sound: whatever writes are made between two reads, creations, imports and
-- deletions, of this owner and of others, if the owner's revision is the same then so is its CLE.
pub get_cle_revision-get_cle :
    (p : Owner) (t t' : Tables)
    → Writes t t'
    → get_cle_revision t p ≡ get_cle_revision t' p
    → get_cle t' p ≡ get_cle t p
get_cle_revision-get_cle p t t' ws h = (Writes-IsTagged p t t' ws).stays h
