-- ===== src/Discovery/Priority.antt =====
-- `sortEndpointsByPriority` (pkg/teaclient/wellknown.go). Priorities are `float64` numbers read from
-- JSON, which are never NaN: their comparison is a total preorder.
use Prim.Native.Nat.{Ordering}
use mathlib.Core.List.{Perm}
use mathlib.Core.List.Perm
use opentea.Prelude.{
  ◌≡◌, ◌≢◌, ◌∙◌, refl, Bool, true, false, List, [], ◌∷◌, Bool-cases, inl, inr, All, All-weaken,
  IsPreorder, ne-gt_ne-gt, eq_of_both, arith, filter,
}
use opentea.Discovery.{
  WellKnownEndpoint, endpoint_priority, is_above, insert_endpoint, sort_endpoints_by_priority,
}

abbrev pub is_equal : Ordering → Bool
is_equal Ordering.eq = true
is_equal _ = false

module _ {P : Type 0} (compare_priority : P → P → Ordering) (one : P) where
  -- The first is not below the second.
  abbrev pub NotBelow : WellKnownEndpoint P → WellKnownEndpoint P → Type 0
  NotBelow a b = compare_priority (endpoint_priority one b) (endpoint_priority one a) ≢ Ordering.gt

  abbrev pub IsByPriority : List (WellKnownEndpoint P) → Type 0
  IsByPriority [] = Unit
  IsByPriority (ep ∷ endpoints) = All (NotBelow ep) endpoints × IsByPriority endpoints

  -- Of priority `p`.
  abbrev pub of_priority : P → WellKnownEndpoint P → Bool
  of_priority p ep = is_equal (compare_priority (endpoint_priority one ep) p)

  abbrev insert : WellKnownEndpoint P → List (WellKnownEndpoint P) → List (WellKnownEndpoint P)
  insert = insert_endpoint compare_priority one

  abbrev above : WellKnownEndpoint P → WellKnownEndpoint P → Bool
  above x ep = is_above (compare_priority (endpoint_priority one x) (endpoint_priority one ep))

  insert-NotBelow :
      (x ep : WellKnownEndpoint P) (endpoints : List (WellKnownEndpoint P))
      → NotBelow x ep
      → All (NotBelow x) endpoints
      → All (NotBelow x) (insert ep endpoints)
  insert-NotBelow x ep [] h k = (h, tt)
  insert-NotBelow x ep (y ∷ endpoints) h k = elim (Bool-cases (above y ep)) [
    | inl e ↦ rw e (k.0, insert-NotBelow x ep endpoints h k.1)
    | inr e ↦ rw e (h, k)
  ]

  insert-perm :
      (ep : WellKnownEndpoint P) (endpoints : List (WellKnownEndpoint P))
      → Perm (insert ep endpoints) (ep ∷ endpoints)
  insert-perm ep [] = Perm.rfl
  insert-perm ep (x ∷ endpoints) = elim (Bool-cases (above x ep)) [
    | inl e ↦ rw e (Perm.trans (Perm.cons x (insert-perm ep endpoints)) (Perm.swap ep x endpoints))
    | inr e ↦ rw e Perm.rfl
  ]

  module _ (order : IsPreorder compare_priority) where
    insert-IsByPriority :
        (ep : WellKnownEndpoint P) (endpoints : List (WellKnownEndpoint P))
        → IsByPriority endpoints
        → IsByPriority (insert ep endpoints)
    insert-IsByPriority ep [] h = (tt, tt)
    insert-IsByPriority ep (x ∷ endpoints) h = elim (Bool-cases (above x ep)) [
      | inl e ↦
          let r = order.reversed (endpoint_priority one x) (endpoint_priority one ep) in
          rw e (
            insert-NotBelow x ep endpoints (λ k. absurd (ground arith)) h.0,
            insert-IsByPriority ep endpoints h.1,
          )
      | inr e ↦
          let here : NotBelow ep x = λ k. absurd (ground arith) in
          rw e (
            (
              here,
              All-weaken (NotBelow x) (NotBelow ep) endpoints
                  (λ y k.
                    ne-gt_ne-gt compare_priority order (endpoint_priority one y)
                      (endpoint_priority one x) (endpoint_priority one ep) k here)
                  h.0,
            ),
            h,
          )
    ]

    -- An endpoint passes only those of other priorities.
    insert-of_priority :
        (p : P) (ep : WellKnownEndpoint P) (endpoints : List (WellKnownEndpoint P))
        → filter (of_priority p) (insert ep endpoints) ≡ filter (of_priority p) (ep ∷ endpoints)
    insert-of_priority p ep [] = refl
    insert-of_priority p ep (x ∷ endpoints) = elim (Bool-cases (above x ep)) [
      | inr e ↦ rw e refl
      | inl e ↦ rw e (elim (Bool-cases (of_priority p x)) [
        | inl q ↦
            let other : of_priority p ep ≡ false =
              let same =
                eq_of_both compare_priority order (endpoint_priority one x)
                  (endpoint_priority one ep) p in
              ground arith in
            rw (insert-of_priority p ep endpoints, q, other) refl
        | inr q ↦ rw (insert-of_priority p ep endpoints, q) refl
      ])
    ]

    -- The endpoints are tried from the highest priority down: the list tried is a rearrangement of the
    -- document's in which none is below a later one, and those of one priority keep their order.
    pub sort_endpoints_by_priority-IsByPriority :
        (endpoints : List (WellKnownEndpoint P))
        → Perm (sort_endpoints_by_priority compare_priority one endpoints) endpoints
          × IsByPriority (sort_endpoints_by_priority compare_priority one endpoints)
          × ((p : P)
              → filter (of_priority p) (sort_endpoints_by_priority compare_priority one endpoints)
                ≡ filter (of_priority p) endpoints)
    unfolding sort_endpoints_by_priority
    sort_endpoints_by_priority-IsByPriority [] = (Perm.rfl, tt, λ p. refl)
    sort_endpoints_by_priority-IsByPriority (ep ∷ endpoints) =
        let (perm, sorted, kept) = sort_endpoints_by_priority-IsByPriority endpoints in
        let rest = sort_endpoints_by_priority compare_priority one endpoints in
        (
          Perm.trans (insert-perm ep rest) (Perm.cons ep perm),
          insert-IsByPriority ep rest sorted,
          λ p. insert-of_priority p ep rest ∙ rw (kept p) refl,
        )
