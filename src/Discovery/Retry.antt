-- ===== src/Discovery/Retry.antt =====
-- `retryWithBackoff` (pkg/teaclient/wellknown.go) ends after at most four calls, and with what.
use opentea.Prelude.{
  ℕ, zero, suc, ◌+◌, ◌≤◌, ◌<◌, ◌≡◌, refl, sym, ap, subst, ◌∙◌, inl, inr, Bool, true, false, arith,
  Bool-cases, Option, none, some, Result, ok, err, Result-cases, leb, eqb, eqb_iff,
}
use opentea.Discovery.{ClientError, cancelled, before_attempt, retry_rounds, retry_with_backoff}

module _ {ℓ} {T : Type ℓ} (should_retry : ClientError → Bool) (done : ℕ → Bool)
    (fn : ℕ → Result ClientError T) where
  -- The calls before the n-th failed with errors to be retried, and the waits between them were waited.
  pub record Retried (n : ℕ) : Type ℓ where
    pub failed : (k : ℕ) → k < n → (e : ClientError) × (fn k ≡ err e) × (should_retry e ≡ true)
    pub waited : (k : ℕ) → 0 < k → k ≤ n → done k ≡ false

  -- How the loop ends, in the n-th round.
  pub data Ends (n : ℕ) : Result ClientError T → Type ℓ where
    answered : {v : T} → fn n ≡ ok v → Ends n (ok v)
    last_failed : {e : ClientError} → n ≡ 3 → fn n ≡ err e → Ends n (err e)
    permanent : {e : ClientError} → fn n ≡ err e → should_retry e ≡ false → Ends n (err e)
    interrupted :
        {e : ClientError}
        → fn n ≡ err e
        → should_retry e ≡ true
        → done (n + 1) ≡ true
        → Ends n (err cancelled)

  -- The loop from one round on.
  record Finished (rounds : Option (Result ClientError T)) : Type ℓ where
    n : ℕ
    r : Result ClientError T
    bounded : n ≤ 3
    retried : Retried n
    returns : rounds ≡ some r
    ends : Ends n r

  Retried-suc :
      (n : ℕ) (e : ClientError)
      → Retried n
      → fn n ≡ err e
      → should_retry e ≡ true
      → done (n + 1) ≡ false
      → Retried (n + 1)
  Retried-suc n e h f s d = record {
    failed = λ k lt. elim (Bool-cases (eqb k n)) [
      | inl q ↦ (e, ap fn ((eqb_iff k n).0 q) ∙ f, s)
      | inr q ↦ h.failed k (ground (arith, eqb_iff k n))
    ];
    waited = λ k pos le. elim (Bool-cases (eqb k (n + 1))) [
      | inl q ↦ ap done ((eqb_iff k (n + 1)).0 q) ∙ d
      | inr q ↦ h.waited k pos (ground (arith, eqb_iff k (n + 1)))
    ];
  }

  -- A call failed, and the next round, if there is one, ends at once.
  failed_call-Finished :
      (fuel n : ℕ) (last : Option ClientError) (e : ClientError) (r : Result ClientError T)
      → n + suc fuel ≡ 3
      → before_attempt should_retry done n last ≡ none
      → Retried n
      → fn n ≡ err e
      → retry_rounds should_retry done fn (suc fuel) (n + 1) (some e) ≡ some r
      → Ends n r
      → Finished (retry_rounds should_retry done fn (suc (suc fuel)) n last)
  unfolding retry_rounds
  failed_call-Finished fuel n last e r sum go h f next ends =
      let more : leb 3 n ≡ false = ground arith in
      record {
        n = n;
        r = r;
        bounded = omega arith;
        retried = h;
        returns = rw (retry_rounds, go, f, more) next;
        ends = ends;
      }

  -- A call that ends the loop in its round.
  now-Finished :
      (fuel n : ℕ) (last : Option ClientError) (r : Result ClientError T)
      → n ≤ 3
      → Retried n
      → retry_rounds should_retry done fn (suc fuel) n last ≡ some r
      → Ends n r
      → Finished (retry_rounds should_retry done fn (suc fuel) n last)
  now-Finished fuel n last r le h returns ends = record {
    n = n;
    r = r;
    bounded = le;
    retried = h;
    returns = returns;
    ends = ends;
  }

  rounds-Finished :
      (fuel n : ℕ) (last : Option ClientError)
      → n + fuel ≡ 3
      → before_attempt should_retry done n last ≡ none
      → Retried n
      → Finished (retry_rounds should_retry done fn (suc fuel) n last)
  unfolding retry_rounds
  rounds-Finished zero n last sum go h = elim (Result-cases (fn n)) [
    | inl (v, f) ↦
        now-Finished zero n last (ok v) (omega arith) h (rw (retry_rounds, go, f) refl)
          (Ends.answered f)
    | inr (e, f) ↦
        let final : leb 3 n ≡ true = ground arith in
        now-Finished zero n last (err e) (omega arith) h (rw (retry_rounds, go, f, final) refl)
          (Ends.last_failed (omega arith) f)
  ]
  rounds-Finished (suc fuel) n last sum go h = elim (Result-cases (fn n)) [
    | inl (v, f) ↦
        now-Finished (suc fuel) n last (ok v) (omega arith) h (rw (retry_rounds, go, f) refl)
          (Ends.answered f)
    | inr (e, f) ↦ elim (Bool-cases (should_retry e)) [
      | inr s ↦
          failed_call-Finished fuel n last e (err e) sum go h f (rw (retry_rounds, s) refl)
            (Ends.permanent f s)
      | inl s ↦ elim (Bool-cases (done (n + 1))) [
        | inl d ↦
            failed_call-Finished fuel n last e (err cancelled) sum go h f
              (rw (retry_rounds, s, d) refl) (Ends.interrupted f s d)
        | inr d ↦
            let rest =
              rounds-Finished fuel (n + 1) (some e) (omega arith) (rw (s, d) refl)
                (Retried-suc n e h f s d) in
            let more : leb 3 n ≡ false = ground arith in
            record {
              n = rest.n;
              r = rest.r;
              bounded = rest.bounded;
              retried = rest.retried;
              returns = rw (retry_rounds, go, f, more) rest.returns;
              ends = rest.ends;
            }
      ]
    ]
  ]

  -- The loop has no bound of its own, and ends: four rounds give a result, that of its n-th call for an
  -- n of at most 3. All calls before failed with errors to be retried. The n-th answered, or failed with
  -- an error not to be retried, or was the last allowed, or the context ended in the wait after it.
  pub retry_with_backoff-Ends :
      (n : ℕ) × (n ≤ 3)
      × Retried n
      × (retry_rounds should_retry done fn 4 0 none
          ≡ some (retry_with_backoff should_retry done fn))
      × Ends n (retry_with_backoff should_retry done fn)
  unfolding retry_with_backoff
  retry_with_backoff-Ends =
      let end = rounds-Finished 3 0 none refl refl (record {
        failed = λ k lt. absurd (omega arith);
        waited = λ k pos le. absurd (omega arith);
      }) in
      let same : retry_with_backoff should_retry done fn ≡ end.r =
        rw (retry_with_backoff, end.returns) refl in
      (
        end.n,
        end.bounded,
        end.retried,
        end.returns ∙ ap some (sym same),
        subst (Ends end.n) (sym same) end.ends,
      )
