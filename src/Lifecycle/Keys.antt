-- ===== src/Lifecycle/Keys.antt =====
-- The keys of the tables of internal/repo/cle.go (internal/db/migrations/0001_init.sql): what holds of
-- the rows after every history of writes.
use opentea.Prelude.{
  ℕ, ◌≡◌, refl, sym, subst, true, false, List, [], ◌∷◌, ◌++◌, map, arith, inl, inr, Bool-cases, eqb,
  eqb_iff, ok, All, All-append, All-weaken,
}
use opentea.Repo.Owners.{Owner, same_owner, same_owner_eq, rows_of, rows_of-own, rows_of-delete}
use opentea.Repo.Identifiers.{Identifier}
use opentea.Lifecycle.{Event, EventRow, SupportDefinition, Part, Tables}
use opentea.Lifecycle.Inserts.{
  has_id, row_of, version_columns, bump_cle_revision, store_event, store_definition,
}
use opentea.Lifecycle.Writes.{delete_owner_scoped}
use opentea.Lifecycle.Added.{
  IsPlain, with_event, store_event-Added, store_definition-made, rows_of-parts,
}
use opentea.Lifecycle.Views.{IsSameFor}
use opentea.Lifecycle.History.{Write, Writes, Done, Write-Done, Done-Bumped}

-- No id twice.
abbrev pub IsKeyed : List EventRow → Type 0
IsKeyed [] = Unit
IsKeyed (row ∷ rows) = (has_id row.id rows ≡ false) × IsKeyed rows

-- Every part has its event.
abbrev pub HasEvents {ℓ} : {A : Type ℓ} → List EventRow → List (Part A) → Type 0
HasEvents {A} rows parts = All (λ (p : Part A). has_id p.event_id rows ≡ true) parts

pub record IsSoundFor (o : Owner) (t : Tables) : Type 0 where
  pub keyed : IsKeyed (rows_of o t.events)
  pub versions : HasEvents (rows_of o t.events) (rows_of o t.versions)
  pub event_identifiers : HasEvents (rows_of o t.events) (rows_of o t.event_identifiers)
  pub references : HasEvents (rows_of o t.events) (rows_of o t.references)
  pub plain : All (λ (p : Part Identifier). IsPlain p.value) (rows_of o t.event_identifiers)

has_id-append_left :
    (id : ℕ) (rows more : List EventRow) → has_id id rows ≡ true → has_id id (rows ++ more) ≡ true
has_id-append_left id [] more h = cc
has_id-append_left id (row ∷ rows) more h = let ih = has_id-append_left id rows more in ground arith

has_id-last : (rows : List EventRow) (row : EventRow) → has_id row.id (rows ++ row ∷ []) ≡ true
has_id-last [] row = ground (arith, eqb_iff row.id row.id)
has_id-last (x ∷ rows) row = let ih = has_id-last rows row in ground arith

has_id-append_false :
    (id : ℕ) (rows : List EventRow) (row : EventRow)
    → has_id id rows ≡ false
    → eqb row.id id ≡ false
    → has_id id (rows ++ row ∷ []) ≡ false
has_id-append_false id [] row h e = ground arith
has_id-append_false id (x ∷ rows) row h e = let ih = has_id-append_false id rows row in ground arith

IsKeyed-append :
    (rows : List EventRow) (row : EventRow)
    → IsKeyed rows
    → has_id row.id rows ≡ false
    → IsKeyed (rows ++ row ∷ [])
IsKeyed-append [] row k h = (refl, tt)
IsKeyed-append (x ∷ rows) row k h = (
  has_id-append_false x.id rows row k.0 (ground (arith, eqb_iff x.id row.id, eqb_iff row.id x.id)),
  IsKeyed-append rows row k.1 (ground arith),
)

HasEvents-append {ℓ κ} :
    {A : Type ℓ} {B : Type κ} (f : A → B) (rows : List EventRow) (row : EventRow)
    (parts : List (Part B)) (xs : List A)
    → HasEvents rows parts
    → HasEvents
        (rows ++ row ∷ [])
        (parts ++ map (λ x. record { event_id = row.id; value = f x }) xs)
HasEvents-append {A} {B} f rows row parts xs h =
    All-append (λ (p : Part B). has_id p.event_id (rows ++ row ∷ []) ≡ true) parts _
      (All-weaken _ _ parts (λ p k. has_id-append_left p.event_id rows (row ∷ []) k) h) (added xs)
  where
    added :
        (xs : List A)
        → HasEvents (rows ++ row ∷ []) (map (λ x. record { event_id = row.id; value = f x }) xs)
    added [] = tt
    added (x ∷ xs) = (has_id-last rows row, added xs)

IsPlain-append :
    (id : ℕ) (parts : List (Part Identifier)) (ids : List Identifier)
    → All (λ (p : Part Identifier). IsPlain p.value) parts
    → All IsPlain ids
    → All
        (λ (p : Part Identifier). IsPlain p.value)
        (parts ++ map (λ i. record { event_id = id; value = i }) ids)
IsPlain-append id parts ids h k =
    All-append (λ (p : Part Identifier). IsPlain p.value) parts _ h (added ids k)
  where
    added :
        (ids : List Identifier)
        → All IsPlain ids
        → All
            (λ (p : Part Identifier). IsPlain p.value)
            (map (λ i. record { event_id = id; value = i }) ids)
    added [] k = tt
    added (i ∷ ids) k = (k.0, added ids k.1)

-- Tables with the same rows are as sound.
IsSoundFor-same :
    {o : Owner} {t t' : Tables}
    → rows_of o t'.events ≡ rows_of o t.events
    → rows_of o t'.versions ≡ rows_of o t.versions
    → rows_of o t'.event_identifiers ≡ rows_of o t.event_identifiers
    → rows_of o t'.references ≡ rows_of o t.references
    → IsSoundFor o t
    → IsSoundFor o t'
IsSoundFor-same ev ve id re s = record {
  keyed = rw ev s.keyed;
  versions = rw (ev, ve) s.versions;
  event_identifiers = rw (ev, id) s.event_identifiers;
  references = rw (ev, re) s.references;
  plain = rw id s.plain;
}

module _ (o : Owner) (t : Tables) where
  stored-IsSoundFor :
      (e : Event) (t' : Tables) → store_event o e t ≡ ok t' → IsSoundFor o t → IsSoundFor o t'
  unfolding with_event bump_cle_revision row_of
  stored-IsSoundFor e t' h s =
      let added = store_event-Added o e t t' h in
      let ev = rows_of-own o t.events (row_of e) in
      subst (IsSoundFor o) (sym added.made) (record {
        keyed = rw ev (IsKeyed-append (rows_of o t.events) (row_of e) s.keyed added.absent);
        versions =
            rw (ev, rows_of-parts o version_columns e.id e.versions t.versions)
              (HasEvents-append version_columns _ (row_of e) _ e.versions s.versions);
        event_identifiers =
            rw (ev, rows_of-parts o (λ i. i) e.id e.identifiers t.event_identifiers)
              (HasEvents-append (λ i. i) _ (row_of e) _ e.identifiers s.event_identifiers);
        references =
            rw (ev, rows_of-parts o (λ r. r) e.id e.references t.references)
              (HasEvents-append (λ r. r) _ (row_of e) _ e.references s.references);
        plain =
            rw (rows_of-parts o (λ i. i) e.id e.identifiers t.event_identifiers)
              (IsPlain-append e.id _ e.identifiers s.plain added.plain);
      })

  defined-IsSoundFor :
      (def : SupportDefinition) (t' : Tables)
      → store_definition o def t ≡ ok t'
      → IsSoundFor o t
      → IsSoundFor o t'
  unfolding bump_cle_revision
  defined-IsSoundFor def t' h s =
      subst (IsSoundFor o) (sym (store_definition-made o def t t' h).1)
        (IsSoundFor-same refl refl refl refl s)

  deleted-IsSoundFor : IsSoundFor o (delete_owner_scoped o t)
  unfolding delete_owner_scoped bump_cle_revision
  deleted-IsSoundFor = record {
    keyed = rw (rows_of-delete o t.events) tt;
    versions = rw (rows_of-delete o t.versions) tt;
    event_identifiers = rw (rows_of-delete o t.event_identifiers) tt;
    references = rw (rows_of-delete o t.references) tt;
    plain = rw (rows_of-delete o t.event_identifiers) tt;
  }

Done-IsSoundFor : (o : Owner) (t t' : Tables) → Done o t t' → IsSoundFor o t → IsSoundFor o t'
Done-IsSoundFor o t t' (Done.unchanged h) s = subst (IsSoundFor o) (sym h) s
Done-IsSoundFor o t t' (Done.stored e h) s = stored-IsSoundFor o t e t' h s
Done-IsSoundFor o t t' (Done.defined def h) s = defined-IsSoundFor o t def t' h s
Done-IsSoundFor o t t' (Done.deleted h) s = subst (IsSoundFor o) (sym h) (deleted-IsSoundFor o t)

IsSoundFor-elsewhere :
    {o : Owner} {t t' : Tables} → IsSameFor o t t' → IsSoundFor o t → IsSoundFor o t'
IsSoundFor-elsewhere same s =
    IsSoundFor-same same.events same.versions same.event_identifiers same.references s

-- A write of any owner keeps the rows of each owner sound.
Write-IsSoundFor : (o p : Owner) (t t' : Tables) → Write o t t' → IsSoundFor p t → IsSoundFor p t'
Write-IsSoundFor o p t t' w s = elim (Bool-cases (same_owner o p)) [
  | inl e ↦
      let q = same_owner_eq o p e in
      subst (λ z. IsSoundFor z t') q
        (Done-IsSoundFor o t t' (Write-Done o t t' w) (subst (λ z. IsSoundFor z t) (sym q) s))
  | inr e ↦ elim (Done-Bumped o t t' (Write-Done o t t' w)) [
    | inl same ↦ subst (IsSoundFor p) (sym same) s
    | inr b ↦ IsSoundFor-elsewhere (b.elsewhere p e).0 s
  ]
]

abbrev pub no_rows : Tables
no_rows = record {
  events = [];
  versions = [];
  event_identifiers = [];
  references = [];
  support_definitions = [];
  revisions = [];
  identifiers = [];
}

-- After every history each owner's event ids are distinct, each part of an event has its event, and no
-- event carries a COMPLIANCE_DOCUMENT.
pub Writes-IsSoundFor : (p : Owner) (t : Tables) → Writes no_rows t → IsSoundFor p t
Writes-IsSoundFor p t Writes.none_yet = record {
  keyed = tt;
  versions = tt;
  event_identifiers = tt;
  references = tt;
  plain = tt;
}
Writes-IsSoundFor p t (Writes.then_write {t'} o ws w) =
    Write-IsSoundFor o p t' t w (Writes-IsSoundFor p t' ws)
