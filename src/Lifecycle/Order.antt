-- ===== src/Lifecycle/Order.antt =====
-- `getCLETx` (internal/repo/cle.go) after any history: it succeeds, newest event first.
use opentea.Prelude.{
  ℕ, ◌<◌, ◌≡◌, ◌≢◌, refl, sym, ap, ◌∙◌, subst, true, List, [], ◌∷◌, map, arith, inl, inr,
  Bool-cases, leb, eqb, eqb_iff, some, ok, ok-injective, >>=-eq-ok, All, All-weaken, Memᴰ,
}
use opentea.Repo.Owners.{Owner, rows_of}
use opentea.Lifecycle.{
  Event, EventRow, Tables, Cle, find_event, event_of, get_event, insert_id, order_by_id_desc,
  get_events, get_cle, definitions_field, list_support_definitions,
}
use opentea.Lifecycle.Inserts.{has_id}
use opentea.Lifecycle.History.{Writes}
use opentea.Lifecycle.Keys.{IsKeyed, no_rows, Writes-IsSoundFor}

abbrev pub IsDescending : List ℕ → Type 0
IsDescending [] = Unit
IsDescending (i ∷ ids) = All (λ j. j < i) ids × IsDescending ids

abbrev pub event_ids : List Event → List ℕ
event_ids = map (λ e. e.id)

All-insert_id {κ} :
    (P : ℕ → Type κ) (i : ℕ) (ids : List ℕ) → P i → All P ids → All P (insert_id i ids)
All-insert_id P i [] p h = (p, tt)
All-insert_id P i (j ∷ ids) p h = elim (Bool-cases (leb j i)) [
  | inl e ↦ rw e (p, h)
  | inr e ↦ rw e (h.0, All-insert_id P i ids p h.1)
]

insert_id-IsDescending :
    (i : ℕ) (ids : List ℕ)
    → IsDescending ids
    → All (λ j. j ≢ i) ids
    → IsDescending (insert_id i ids)
insert_id-IsDescending i [] d h = (tt, tt)
insert_id-IsDescending i (j ∷ ids) d h = elim (Bool-cases (leb j i)) [
  | inl e ↦
      let apart = h.0 in
      let below : j < i = ground arith in
      rw e ((below, All-weaken (λ k. k < j) (λ k. k < i) ids (λ k lt. omega arith) d.0), d)
  | inr e ↦
      let above : i < j = ground arith in
      rw e (All-insert_id (λ k. k < j) i ids above d.0, insert_id-IsDescending i ids d.1 h.1)
]

mem-insert_id : (i : ℕ) (ids : List ℕ) → Memᴰ i (insert_id i ids)
mem-insert_id i [] = Memᴰ.head refl
mem-insert_id i (j ∷ ids) = elim (Bool-cases (leb j i)) [
  | inl e ↦ rw e (Memᴰ.head refl)
  | inr e ↦ rw e (Memᴰ.tail (mem-insert_id i ids))
]

mem-cons_of {ℓ} :
    {A : Type ℓ} {k j : A} {ids more : List A}
    → (Memᴰ k ids → Memᴰ k more)
    → Memᴰ k (j ∷ ids)
    → Memᴰ k (j ∷ more)
mem-cons_of f (Memᴰ.head q) = Memᴰ.head q
mem-cons_of f (Memᴰ.tail n) = Memᴰ.tail (f n)

mem-insert_id_tail : (i k : ℕ) (ids : List ℕ) → Memᴰ k ids → Memᴰ k (insert_id i ids)
mem-insert_id_tail i k [] m = elim m [ ]
mem-insert_id_tail i k (j ∷ ids) m = elim (Bool-cases (leb j i)) [
  | inl e ↦ rw e (Memᴰ.tail m)
  | inr e ↦ rw e (mem-cons_of (mem-insert_id_tail i k ids) m)
]

-- The ids listed are ids of rows.
order_by_id_desc-has_id :
    (rows : List EventRow) → All (λ j. has_id j rows ≡ true) (order_by_id_desc rows)
unfolding order_by_id_desc
order_by_id_desc-has_id [] = tt
order_by_id_desc-has_id (row ∷ rows) =
    All-insert_id (λ j. has_id j (row ∷ rows) ≡ true) row.id (order_by_id_desc rows)
      (ground (arith, eqb_iff row.id row.id))
      (All-weaken _ _ (order_by_id_desc rows) (λ j h. ground arith) (order_by_id_desc-has_id rows))

order_by_id_desc-IsDescending :
    (rows : List EventRow) → IsKeyed rows → IsDescending (order_by_id_desc rows)
unfolding order_by_id_desc
order_by_id_desc-IsDescending [] k = tt
order_by_id_desc-IsDescending (row ∷ rows) k =
    insert_id-IsDescending row.id (order_by_id_desc rows) (order_by_id_desc-IsDescending rows k.1) (
      All-weaken _ _ (order_by_id_desc rows)
        (λ j h e. let q = subst (λ z. has_id z rows ≡ true) e h in let f = k.0 in ground arith)
        (order_by_id_desc-has_id rows))

mem-order_by_id_desc :
    (rows : List EventRow) (row : EventRow) → Memᴰ row rows → Memᴰ row.id (order_by_id_desc rows)
unfolding order_by_id_desc
mem-order_by_id_desc [] row m = elim m [ ]
mem-order_by_id_desc (x ∷ rows) row (Memᴰ.head q) =
    subst (λ z. Memᴰ z.id (order_by_id_desc (x ∷ rows))) (sym q)
      (mem-insert_id x.id (order_by_id_desc rows))
mem-order_by_id_desc (x ∷ rows) row (Memᴰ.tail m) =
    mem-insert_id_tail x.id row.id (order_by_id_desc rows) (mem-order_by_id_desc rows row m)

find_event-has_id :
    (id : ℕ) (rows : List EventRow)
    → has_id id rows ≡ true
    → (row : EventRow) × (find_event id rows ≡ some row) × (row.id ≡ id)
unfolding find_event
find_event-has_id id [] h = cc
find_event-has_id id (x ∷ rows) h = elim (Bool-cases (eqb x.id id)) [
  | inl e ↦ (x, rw e refl, (eqb_iff x.id id).0 e)
  | inr e ↦ rw e (find_event-has_id id rows (rw e at h))
]

has_id-mem : (rows : List EventRow) (row : EventRow) → Memᴰ row rows → has_id row.id rows ≡ true
has_id-mem [] row m = elim m [ ]
has_id-mem (x ∷ rows) row (Memᴰ.head q) =
    subst (λ z. has_id z.id (x ∷ rows) ≡ true) (sym q) (ground (arith, eqb_iff x.id x.id))
has_id-mem (x ∷ rows) row (Memᴰ.tail m) = let ih = has_id-mem rows row m in ground arith

-- A row is found by its id, since no other row has it.
find_event-IsKeyed :
    (rows : List EventRow) (row : EventRow)
    → IsKeyed rows
    → Memᴰ row rows
    → find_event row.id rows ≡ some row
unfolding find_event
find_event-IsKeyed [] row k m = elim m [ ]
find_event-IsKeyed (x ∷ rows) row k (Memᴰ.head q) =
    subst (λ z. find_event z.id (x ∷ rows) ≡ some z) (sym q)
      (rw ((eqb_iff x.id x.id).1 refl, find_event) refl)
find_event-IsKeyed (x ∷ rows) row k (Memᴰ.tail m) =
    let ih = find_event-IsKeyed rows row k.1 m in
    let there = has_id-mem rows row m in
    elim (Bool-cases (eqb x.id row.id)) [
      | inl e ↦
          let again : has_id x.id rows ≡ true =
            subst (λ z. has_id z rows ≡ true) (sym ((eqb_iff x.id row.id).0 e)) there in
          let once = k.0 in absurd (ground arith)
      | inr e ↦ rw (e, find_event) ih
    ]

module _ (t : Tables) (o : Owner) where
  get_event-some :
      (id : ℕ) (row : EventRow)
      → find_event id (rows_of o t.events) ≡ some row
      → get_event t o id ≡ ok (event_of t o row)
  unfolding get_event
  get_event-some id row f = rw (get_event, f) refl

  get_events-total :
      (ids : List ℕ)
      → All (λ j. has_id j (rows_of o t.events) ≡ true) ids
      → (events : List Event) × (get_events t o ids ≡ ok events) × (event_ids events ≡ ids)
  unfolding get_events
  get_events-total [] h = ([], refl, refl)
  get_events-total (id ∷ ids) h =
      let (row, f, e) = find_event-has_id id (rows_of o t.events) h.0 in
      let (events, g, k) = get_events-total ids h.1 in
      (event_of t o row ∷ events, rw (get_event-some id row f, g) refl, rw (e, k) refl)

  get_events-mem :
      (ids : List ℕ) (events : List Event) (id : ℕ) (e : Event)
      → get_events t o ids ≡ ok events
      → Memᴰ id ids
      → get_event t o id ≡ ok e
      → Memᴰ e events
  unfolding get_events
  get_events-mem [] events id e h m g = elim m [ ]
  get_events-mem (i ∷ ids) events id e h m g =
      let (first, f, k) = >>=-eq-ok (get_event t o i) _ h in
      let (more, r, l) = >>=-eq-ok (get_events t o ids) _ k in
      let whole = ok-injective l in
      subst (Memᴰ e) whole (listed first more f (λ n. get_events-mem ids more id e r n g) m)
    where
      listed :
          (first : Event) (more : List Event)
          → get_event t o i ≡ ok first
          → (Memᴰ id ids → Memᴰ e more)
          → Memᴰ id (i ∷ ids)
          → Memᴰ e (first ∷ more)
      listed first more f rest (Memᴰ.head q) =
          Memᴰ.head (ok-injective (sym g ∙ ap (get_event t o) q ∙ f))
      listed first more f rest (Memᴰ.tail n) = Memᴰ.tail (rest n)

-- After any history the read of an owner's CLE succeeds, also where nothing is recorded: its events
-- have strictly descending ids, and every event recorded is there.
pub get_cle-IsDescending :
    (t : Tables) (o : Owner)
    → Writes no_rows t
    → (cle : Cle) × (get_cle t o ≡ ok cle)
      × IsDescending (event_ids cle.events)
      × ((row : EventRow) → Memᴰ row (rows_of o t.events) → Memᴰ (event_of t o row) cle.events)
unfolding get_cle
get_cle-IsDescending t o ws =
    let rows = rows_of o t.events in
    let keyed = (Writes-IsSoundFor o t ws).keyed in
    let (events, got, same) =
      get_events-total t o (order_by_id_desc rows) (order_by_id_desc-has_id rows) in
    (
      record { events = events; definitions = definitions_field (list_support_definitions t o) },
      rw got refl,
      rw same (order_by_id_desc-IsDescending rows keyed),
      λ row m.
          get_events-mem t o (order_by_id_desc rows) events row.id (event_of t o row) got
            (mem-order_by_id_desc rows row m)
            (get_event-some t o row.id row (find_event-IsKeyed rows row keyed m)),
    )
