-- ===== src/Approvals/Voters.antt =====
-- The members of staff whom `COUNT(DISTINCT staff_uuid)` of internal/openteapublisher/approval.go
-- counts.
use opentea.Prelude.{
  String, ◌≡◌, ◌≢◌, refl, sym, subst, Bool, true, false, not, some, Option-cases, Bool-cases, inl,
  inr, List, [], ◌∷◌, ◌++◌, Memᴰ, arith, eq_iff, ◌==◌, filter, All, All-mem, All-of_mem, mem-filter,
}
use opentea.Approvals.{DecisionRow, approves, voters}

-- No text twice.
abbrev pub IsDistinct : List String → Type 0
IsDistinct [] = Unit
IsDistinct (x ∷ xs) = All (λ y. y ≢ x) xs × IsDistinct xs

filter-IsDistinct :
    (p : String → Bool) (xs : List String) → IsDistinct xs → IsDistinct (filter p xs)
filter-IsDistinct p [] d = tt
filter-IsDistinct p (x ∷ xs) d = elim (Bool-cases (p x)) [
  | inl e ↦ rw e (
    All-of_mem (λ y. y ≢ x) (filter p xs) (λ y m. All-mem (λ y. y ≢ x) (mem-filter p xs m).0 d.0),
    filter-IsDistinct p xs d.1,
  )
  | inr e ↦ rw e (filter-IsDistinct p xs d.1)
]

pub voters-IsDistinct : (uuid : String) (ds : List DecisionRow) → IsDistinct (voters uuid ds)
unfolding voters
voters-IsDistinct uuid [] = tt
voters-IsDistinct uuid (d ∷ ds) =
    let rest = voters-IsDistinct uuid ds in
    elim (Bool-cases (approves uuid d)) [
      | inr e ↦ rw e rest
      | inl e ↦ elim (Option-cases d.staff_uuid) [
        | inl f ↦ rw (e, f) rest
        | inr (s, f) ↦
            rw (e, f)
              (
                All-of_mem (λ y. y ≢ s) (filter (λ x. not (x == s)) (voters uuid ds))
                    (λ y m q.
                      let k = (mem-filter (λ x. not (x == s)) (voters uuid ds) m).1 in
                      ground (arith, eq_iff y s)),
                filter-IsDistinct (λ x. not (x == s)) (voters uuid ds) rest,
              )
      ]
    ]

-- One approving decision of this member of staff.
pub record HasApproved (uuid : String) (ds : List DecisionRow) (s : String) : Type 0 where
  pub row : DecisionRow
  pub stored : Memᴰ row ds
  pub request : row.request_uuid ≡ uuid
  pub decision : row.decision ≡ "approved"
  pub staff : row.staff_uuid ≡ some s

HasApproved-tail :
    (uuid : String) (d : DecisionRow) (ds : List DecisionRow) (s : String)
    → HasApproved uuid ds s
    → HasApproved uuid (d ∷ ds) s
HasApproved-tail uuid d ds s h = record {
  row = h.row;
  stored = Memᴰ.tail h.stored;
  request = h.request;
  decision = h.decision;
  staff = h.staff;
}

module _ (uuid : String) (d : DecisionRow) (ds : List DecisionRow) (s : String) where
  counted :
      (v : String)
      → approves uuid d ≡ true
      → d.staff_uuid ≡ some v
      → Memᴰ s (v ∷ filter (λ x. not (x == v)) (voters uuid ds))
      → (Memᴰ s (voters uuid ds) → HasApproved uuid ds s)
      → HasApproved uuid (d ∷ ds) s
  counted v e f (Memᴰ.head q) ih = record {
    row = d;
    stored = Memᴰ.head refl;
    request = ground (arith, eq_iff d.request_uuid uuid);
    decision = ground (arith, eq_iff d.decision "approved");
    staff = subst (λ z. d.staff_uuid ≡ some z) (sym q) f;
  }
  counted v e f (Memᴰ.tail k) ih =
      HasApproved-tail uuid d ds s (ih (mem-filter (λ x. not (x == v)) (voters uuid ds) k).0)

-- Each one that is counted has approved.
pub voters-HasApproved :
    (uuid : String) (ds : List DecisionRow) (s : String)
    → Memᴰ s (voters uuid ds)
    → HasApproved uuid ds s
unfolding voters
voters-HasApproved uuid [] s m = elim m [ ]
voters-HasApproved uuid (d ∷ ds) s m = elim (Bool-cases (approves uuid d)) [
  | inr e ↦ HasApproved-tail uuid d ds s (voters-HasApproved uuid ds s (rw e at m))
  | inl e ↦ elim (Option-cases d.staff_uuid) [
    | inl f ↦ HasApproved-tail uuid d ds s (voters-HasApproved uuid ds s (rw (e, f) at m))
    | inr (v, f) ↦ counted uuid d ds s v e f (rw (e, f) at m) (voters-HasApproved uuid ds s)
  ]
]

-- A decision on another request does not count.
pub voters-append_other :
    (uuid : String) (ds : List DecisionRow) (d : DecisionRow)
    → d.request_uuid == uuid ≡ false
    → voters uuid (ds ++ d ∷ []) ≡ voters uuid ds
unfolding voters
voters-append_other uuid [] d e = rw e refl
voters-append_other uuid (x ∷ ds) d e = let ih = voters-append_other uuid ds d e in ground arith
