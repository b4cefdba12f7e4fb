-- ===== src/Approvals/Deleted.antt =====
-- What the deletion of a member of staff or of a target leaves of requests and decisions.
use opentea.Prelude.{
  String, ◌≡◌, refl, sym, ◌∙◌, subst, Bool, true, false, not, Option, none, some, Option-cases,
  Bool-cases, inl, inr, List, [], ◌∷◌, map, filter, any, mem-filter, arith, eq_iff, ◌==◌, All,
  All-mem, All-of_mem, if◌then◌else◌, ok, ok-injective, guard-eq-ok,
}
use mathlib.Core.Option.{some-injective}
use opentea.Repo.{sql_eq}
use opentea.Approvals.{RequestRow, DecisionRow, Tables, find_request, last_admin}
use opentea.Approvals.Deletions.{
  find_staff, is_last_admin, cleared, forget_requester, forget_voter, without_staff, delete_staff,
  removed, keeps_request, keeps_decision, without_target, delete_target,
}
use opentea.Approvals.Fairness.{HasRequest, by_requester, IsFair, IsSound}

not-true : (b : Bool) → not b ≡ true → b ≡ false
not-true b h = ground arith

pub delete_staff-state :
    (uuid : String) (db db' : Tables) → delete_staff uuid db ≡ ok db' → without_staff uuid db ≡ db'
unfolding delete_staff
delete_staff-state uuid db db' h = elim (Option-cases (find_staff uuid db.staff)) [
  | inl e ↦ absurd (let k = rw (delete_staff, e) at h in cc)
  | inr (s, e) ↦ (guard-eq-ok (is_last_admin s db.staff) last_admin (rw (delete_staff, e) at h)).1
]

pub delete_target-state :
    (uuid : String) (db db' : Tables)
    → delete_target uuid db ≡ ok db'
    → without_target uuid db ≡ db'
unfolding delete_target
delete_target-state uuid db db' h = elim (Bool-cases (any (λ t. t == uuid) db.targets)) [
  | inl e ↦ ok-injective (rw e at h)
  | inr e ↦ absurd (let k = rw e at h in cc)
]

pub find_request-forget :
    (staff uuid : String) (rows : List RequestRow)
    → find_request uuid (map (forget_requester staff) rows)
      ≡ elim (find_request uuid rows) [ none ↦ none | some row ↦ some (forget_requester staff row) ]
unfolding find_request
find_request-forget staff uuid [] = refl
find_request-forget staff uuid (x ∷ rows) = elim (Bool-cases (x.uuid == uuid)) [
  | inl e ↦ rw e refl
  | inr e ↦ rw e (find_request-forget staff uuid rows)
]

-- A request is removed, or is as it was.
pub find_request-kept :
    (target uuid : String) (all rows : List RequestRow)
    → find_request uuid (filter (keeps_request target all) rows)
      ≡ (if removed target all uuid then none else find_request uuid rows)
unfolding find_request
find_request-kept target uuid all [] = elim (Bool-cases (removed target all uuid)) [
  | inl e ↦ rw e refl
  | inr e ↦ rw e refl
]
find_request-kept target uuid all (x ∷ rows) =
    let ih = find_request-kept target uuid all rows in
    elim (Bool-cases (x.uuid == uuid)) [
      | inl e ↦
          let q : x.uuid ≡ uuid = (eq_iff x.uuid uuid).0 e in
          elim (Bool-cases (removed target all uuid)) [
            | inl g ↦
                let g' : removed target all x.uuid ≡ true =
                  subst (λ z. removed target all z ≡ true) (sym q) g in
                rw (g', g) (ih ∙ rw g refl)
            | inr g ↦
                let g' : removed target all x.uuid ≡ false =
                  subst (λ z. removed target all z ≡ false) (sym q) g in
                rw (g', g, e) refl
          ]
      | inr e ↦ elim (Bool-cases (removed target all x.uuid)) [
        | inl g ↦ rw (g, e) ih
        | inr g ↦ rw (g, e) ih
      ]
    ]

sql_eq-cleared :
    (uuid : String) (a b : Option String)
    → sql_eq a b ≡ false
    → sql_eq (cleared uuid a) (cleared uuid b) ≡ false
sql_eq-cleared uuid none b h = refl
sql_eq-cleared uuid (some s) none h = ground arith
sql_eq-cleared uuid (some s) (some t) h = ground arith

forget-IsFair :
    (staff uuid : String) (row : RequestRow) (ds : List DecisionRow)
    → IsFair ds uuid row
    → IsFair (map (forget_voter staff) ds) uuid (forget_requester staff row)
forget-IsFair staff uuid row [] h = tt
forget-IsFair staff uuid row (d ∷ ds) h = (
  elim (Bool-cases (d.request_uuid == uuid)) [
    | inr e ↦ rw e refl
    | inl e ↦ rw e (sql_eq-cleared staff d.staff_uuid row.requested_by (rw e at h.0))
  ],
  forget-IsFair staff uuid row ds h.1,
)

All-map :
    {A B : Type 0} (P : B → Type 0) (f : A → B) (xs : List A)
    → All (λ x. P (f x)) xs
    → All P (map f xs)
All-map P f [] h = tt
All-map P f (x ∷ xs) h = (h.0, All-map P f xs h.1)

pub forgotten-request :
    (staff uuid : String) (rows : List RequestRow) (row : RequestRow)
    → find_request uuid (map (forget_requester staff) rows) ≡ some row
    → (old : RequestRow) × (find_request uuid rows ≡ some old) × (row ≡ forget_requester staff old)
forgotten-request staff uuid rows row h = elim (Option-cases (find_request uuid rows)) [
  | inl f ↦ absurd (let k = rw (find_request-forget staff uuid rows, f) at h in cc)
  | inr (old, f) ↦
      (old, f, sym (some-injective _ _ (rw (find_request-forget staff uuid rows, f) at h)))
]

pub without_staff-IsSound :
    (uuid : String) (db : Tables) → IsSound db → IsSound (without_staff uuid db)
without_staff-IsSound uuid db sound = record {
  fair = λ u row k.
      let (old, f, e) = forgotten-request uuid u db.requests row k in
      subst (IsFair (map (forget_voter uuid) db.decisions) u) (sym e)
        (forget-IsFair uuid u old db.decisions (sound.fair u old f));
  known = All-map (HasRequest (without_staff uuid db)) (forget_voter uuid) db.decisions (
      All-of_mem (λ d. HasRequest (without_staff uuid db) (forget_voter uuid d)) db.decisions
        (λ d m.
          let (old, f) = All-mem (HasRequest db) m sound.known in
          (
            forget_requester uuid old,
            find_request-forget uuid d.request_uuid db.requests ∙ rw f refl,
          )));
}

pub kept-request :
    (target uuid : String) (db : Tables) (row : RequestRow)
    → find_request uuid (without_target target db).requests ≡ some row
    → (removed target db.requests uuid ≡ false) × (find_request uuid db.requests ≡ some row)
kept-request target uuid db row h = elim (Bool-cases (removed target db.requests uuid)) [
  | inl e ↦
      absurd (let k = rw (find_request-kept target uuid db.requests db.requests, e) at h in cc)
  | inr e ↦ (e, rw (find_request-kept target uuid db.requests db.requests, e) at h)
]

pub without_target-IsSound :
    (uuid : String) (db : Tables) → IsSound db → IsSound (without_target uuid db)
without_target-IsSound uuid db sound = record {
  fair = λ u row k.
      let (_, f) = kept-request uuid u db row k in
      let ds = filter (keeps_decision uuid db.requests) db.decisions in
      All-of_mem (λ d. by_requester u row d ≡ false) ds
        (λ d m.
          All-mem (λ d. by_requester u row d ≡ false)
            (mem-filter (keeps_decision uuid db.requests) db.decisions m).0 (sound.fair u row f));
  known =
      let ds = filter (keeps_decision uuid db.requests) db.decisions in
      All-of_mem (HasRequest (without_target uuid db)) ds (λ d m.
        let (k, e) = mem-filter (keeps_decision uuid db.requests) db.decisions m in
        let (old, f) = All-mem (HasRequest db) k sound.known in
        let g : removed uuid db.requests d.request_uuid ≡ false = not-true _ e in
        (old, find_request-kept uuid d.request_uuid db.requests db.requests ∙ rw g f));
}
