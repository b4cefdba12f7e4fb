-- ===== src/Lifecycle/Revisions.antt =====
-- The revision of internal/repo/cle.go, from which the ETag is made, against the CLE that it stands for.
use opentea.Prelude.{
  ℕ, ◌+◌, ◌<◌, ◌≡◌, refl, sym, ap, ◌∙◌, subst, true, false, List, [], ◌∷◌, inl, inr, arith, any,
  Bool-cases, ok,
}
use opentea.Repo.Owners.{
  Owner, Owned, owned, same_owner, same_owner_self, same_owner_eq, rows_of, rows_of-append,
  rows_of-other, rows_of-delete_other,
}
use opentea.Lifecycle.{Event, SupportDefinition, Tables, get_cle_revision, first_revision}
use opentea.Lifecycle.Inserts.{
  row_of, definition_row, version_columns, increment, bump_cle_revision, store_event,
  store_definition,
}
use opentea.Lifecycle.Writes.{delete_owner_scoped}
use opentea.Lifecycle.Added.{
  with_event, store_event-Added, store_definition-made, rows_of-parts_other,
}
use opentea.Lifecycle.Views.{IsSameFor}

module _ (o : Owner) where
  rows_of-none : (rows : List (Owned ℕ)) → any (owned o) rows ≡ false → rows_of o rows ≡ []
  rows_of-none [] h = refl
  rows_of-none (r ∷ rows) h = let ih = rows_of-none rows in ground arith

  first-increment :
      (rows : List (Owned ℕ))
      → any (owned o) rows ≡ true
      → first_revision (rows_of o (increment o rows)) ≡ first_revision (rows_of o rows) + 1
  unfolding increment
  first-increment [] h = cc
  first-increment (r ∷ rows) h = let ih = first-increment rows in ground arith

  rows_of-increment_other :
      (p : Owner) (rows : List (Owned ℕ))
      → same_owner o p ≡ false
      → rows_of p (increment o rows) ≡ rows_of p rows
  unfolding increment
  rows_of-increment_other p [] h = refl
  rows_of-increment_other p (r ∷ rows) h =
      let ih = rows_of-increment_other p rows h in let same = same_owner_eq r.owner o in grind arith

-- What a write does to its owner's revision and to the rows of the others.
pub record Bumped (o : Owner) (t t' : Tables) : Type 0 where
  pub higher : get_cle_revision t o < get_cle_revision t' o
  pub elsewhere :
      (p : Owner)
      → same_owner o p ≡ false
      → IsSameFor p t t' × (get_cle_revision t' p ≡ get_cle_revision t p)

-- The rows of the others are kept, and the revisions too: what precedes the bump.
record Prepared (o : Owner) (t t' : Tables) : Type 0 where
  revisions : t'.revisions ≡ t.revisions
  elsewhere : (p : Owner) → same_owner o p ≡ false → IsSameFor p t t'

bump-higher :
    (o : Owner) (t : Tables) → get_cle_revision t o < get_cle_revision (bump_cle_revision o t) o
unfolding bump_cle_revision
bump-higher o t = elim (Bool-cases (any (owned o) t.revisions)) [
  | inl e ↦ let more = first-increment o t.revisions e in rw e (omega (arith, more))
  | inr e ↦
      let empty = rows_of-none o t.revisions e in
      rw (e, rows_of-append o t.revisions _, empty, same_owner_self o) (omega arith)
]

bump-other :
    (o p : Owner) (t : Tables)
    → same_owner o p ≡ false
    → get_cle_revision (bump_cle_revision o t) p ≡ get_cle_revision t p
unfolding bump_cle_revision
bump-other o p t h = elim (Bool-cases (any (owned o) t.revisions)) [
  | inl e ↦ rw (e, rows_of-increment_other o p t.revisions h) refl
  | inr e ↦ rw (e, rows_of-other p o t.revisions 1 h) refl
]

bump-Bumped : {o : Owner} {t t' : Tables} → Prepared o t t' → Bumped o t (bump_cle_revision o t')
unfolding bump_cle_revision
bump-Bumped {o} {t} {t'} p = record {
  higher = rw (← p.revisions) (bump-higher o t');
  elsewhere = λ q h.
      let same = p.elsewhere q h in
      (
        record {
          events = same.events;
          versions = same.versions;
          event_identifiers = same.event_identifiers;
          references = same.references;
          support_definitions = same.support_definitions;
        },
        bump-other o q t' h ∙ ap (λ z. first_revision (rows_of q z)) p.revisions,
      );
}

with_event-Prepared : (o : Owner) (e : Event) (t : Tables) → Prepared o t (with_event o e t)
unfolding with_event
with_event-Prepared o e t = record {
  revisions = refl;
  elsewhere = λ p h. record {
    events = rows_of-other p o t.events (row_of e) h;
    versions = rows_of-parts_other o version_columns e.id p e.versions t.versions h;
    event_identifiers = rows_of-parts_other o (λ i. i) e.id p e.identifiers t.event_identifiers h;
    references = rows_of-parts_other o (λ r. r) e.id p e.references t.references h;
    support_definitions = refl;
  };
}

pub store_event-Bumped :
    (o : Owner) (e : Event) (t t' : Tables) → store_event o e t ≡ ok t' → Bumped o t t'
store_event-Bumped o e t t' h =
    let added = store_event-Added o e t t' h in
    subst (Bumped o t) (sym added.made) (bump-Bumped (with_event-Prepared o e t))

pub store_definition-Bumped :
    (o : Owner) (def : SupportDefinition) (t t' : Tables)
    → store_definition o def t ≡ ok t'
    → Bumped o t t'
store_definition-Bumped o def t t' h =
    let made = store_definition-made o def t t' h in
    subst (Bumped o t) (sym made.1) (
      bump-Bumped (record {
        revisions = refl;
        elsewhere = λ p k. record {
          events = refl;
          versions = refl;
          event_identifiers = refl;
          references = refl;
          support_definitions = rows_of-other p o t.support_definitions (definition_row def) k;
        };
      }))

pub delete_owner_scoped-Bumped : (o : Owner) (t : Tables) → Bumped o t (delete_owner_scoped o t)
unfolding delete_owner_scoped
delete_owner_scoped-Bumped o t = bump-Bumped (record {
  revisions = refl;
  elsewhere = λ p h. record {
    events = rows_of-delete_other p o t.events h;
    versions = rows_of-delete_other p o t.versions h;
    event_identifiers = rows_of-delete_other p o t.event_identifiers h;
    references = rows_of-delete_other p o t.references h;
    support_definitions = rows_of-delete_other p o t.support_definitions h;
  };
})
