-- ===== src/Artifacts/Kept.antt =====
-- The inserts of a revision (internal/repo/artifact.go) leave the other revisions as they are.
use opentea.Prelude.{
  ℕ, suc, ◌≡◌, refl, sym, ap, ◌∙◌, subst, String, false, not, ◌||◌, List, [], ◌∷◌, ◌++◌, map, any,
  filter, ok, >>=-eq-ok, ok-injective, guard-eq-ok,
}
use opentea.Repo.{Error}
use opentea.Repo.Owners.{rows_of-other}
use opentea.Repo.Identifiers.{one_of}
use opentea.Artifacts.{
  Checksum, ArtifactRow, FormatRow, DistributionRow, Tables, is_row, find_row, of_artifact,
  format_of, format_owner, list_artifact_formats, list_artifact_distribution_ids,
}
use opentea.Artifacts.Inserts.{
  FormatInput, ArtifactInput, has_format_id, format_row, artifact_row, same_distribution,
  insert_artifact_row, insert_distribution, insert_distributions, insert_checksum, insert_checksums,
  insert_format_row, insert_formats, insert_artifact, artifact_types, algorithm_types,
}
use opentea.Artifacts.Views.{IsSameFor, IdsOnce, IsSameFor-refl, IsSameFor-trans}
use opentea.Artifacts.Rows.{
  any-filter, left-false, IdsOnce-append, same_format_owner, listed-but, find_row-append,
  find_row-any, same_key, distribution_ids_of-append, filter-append_other, key-absent,
}

-- One step leaves the revision as it is, and the ids once.
pub record Kept (uuid : String) (version : ℕ) (t t' : Tables) : Type 0 where
  pub same : IsSameFor uuid version t t'
  pub once : IdsOnce t.formats → IdsOnce t'.formats

pub Kept-refl : (uuid : String) (version : ℕ) (t : Tables) → Kept uuid version t t
Kept-refl uuid version t = record { same = IsSameFor-refl uuid version t; once = λ h. h }

pub Kept-trans :
    (uuid : String) (version : ℕ) (a b c : Tables)
    → Kept uuid version a b
    → Kept uuid version b c
    → Kept uuid version a c
Kept-trans uuid version a b c k l = record {
  same = IsSameFor-trans uuid version a b c k.same l.same;
  once = λ h. l.once (k.once h);
}

module _ (uuid : String) (version : ℕ) where
  insert_artifact_row-Kept :
      (new row : ArtifactRow) (t t' : Tables)
      → find_row uuid version t.artifacts ≡ ok row
      → insert_artifact_row new t ≡ ok t'
      → Kept uuid version t t' × (same_key new.uuid new.version uuid version ≡ false)
  unfolding insert_artifact_row list_artifact_formats list_artifact_distribution_ids
  insert_artifact_row-Kept new row t t' f h =
      let (g, e) =
        guard-eq-ok
          (any (is_row new.uuid new.version) t.artifacts || not (one_of artifact_types new.type))
          Error.constraint_violation h in
      (
        subst (Kept uuid version t) e (record {
          same = record {
            found = find_row-append uuid version t.artifacts new row f ∙ sym f;
            rows = refl;
            listed = refl;
            distributions = refl;
          };
          once = λ k. k;
        }),
        key-absent new.uuid new.version uuid version t.artifacts
            (left-false (any (is_row new.uuid new.version) t.artifacts) _ g)
            (find_row-any uuid version t.artifacts row f),
      )

  insert_distribution-Kept :
      (row : DistributionRow) (t t' : Tables)
      → same_key row.artifact_uuid row.artifact_version uuid version ≡ false
      → insert_distribution row t ≡ ok t'
      → Kept uuid version t t'
  unfolding insert_distribution list_artifact_distribution_ids list_artifact_formats
  insert_distribution-Kept row t t' other h =
      let (g, e) =
        guard-eq-ok
          (any (same_distribution row) t.distributions
            || not (one_of t.release_distributions row.distribution_id))
          Error.constraint_violation h in
      subst (Kept uuid version t) e (record {
        same = record {
          found = refl;
          rows = refl;
          listed = refl;
          distributions = distribution_ids_of-append uuid version t.distributions row other;
        };
        once = λ k. k;
      })

  insert_format_row-Kept :
      (row : FormatRow) (t t' : Tables)
      → same_key row.artifact_uuid row.artifact_version uuid version ≡ false
      → insert_format_row row t ≡ ok t'
      → Kept uuid version t t' × (any (has_format_id row.id) t.formats ≡ false)
  unfolding insert_format_row list_artifact_formats list_artifact_distribution_ids
  insert_format_row-Kept row t t' other h =
      let (g, e) =
        guard-eq-ok (any (has_format_id row.id) t.formats) Error.constraint_violation h in
      let rows = filter-append_other (of_artifact uuid version) t.formats row other in
      (
        subst (Kept uuid version t) e (record {
          same = record {
            found = refl;
            rows = rows;
            listed = ap (map (format_of t)) rows;
            distributions = refl;
          };
          once = λ k. IdsOnce-append t.formats row g k;
        }),
        g,
      )

  insert_checksum-Kept :
      (id : String) (c : Checksum) (t t' : Tables)
      → any (has_format_id id) (filter (of_artifact uuid version) t.formats) ≡ false
      → insert_checksum (format_owner id) c t ≡ ok t'
      → Kept uuid version t t' × (t'.formats ≡ t.formats)
  unfolding insert_checksum list_artifact_formats list_artifact_distribution_ids
  insert_checksum-Kept id c t t' absent h =
      let (g, e) =
        guard-eq-ok (not (one_of algorithm_types c.alg_type)) Error.constraint_violation h in
      let u = record t {
        checksums = t.checksums ++ record { owner = format_owner id; row = c } ∷ [];
      } in
      (
        subst (Kept uuid version t) e (record {
          same = record {
            found = refl;
            rows = refl;
            listed =
                listed-but t u id (filter (of_artifact uuid version) t.formats)
                  (λ other d.
                    rows_of-other (format_owner other) (format_owner id) t.checksums c
                      (same_format_owner id other d))
                  absent;
            distributions = refl;
          };
          once = λ k. k;
        }),
        ap (λ (z : Tables). z.formats) (sym e),
      )

  insert_checksums-Kept :
      (id : String) (checksums : List Checksum) (t t' : Tables)
      → any (has_format_id id) (filter (of_artifact uuid version) t.formats) ≡ false
      → insert_checksums (format_owner id) checksums t ≡ ok t'
      → Kept uuid version t t'
  unfolding insert_checksums
  insert_checksums-Kept id [] t t' absent h =
      subst (Kept uuid version t) (ok-injective h) (Kept-refl uuid version t)
  insert_checksums-Kept id (c ∷ checksums) t t' absent h =
      let (u, s, k) = >>=-eq-ok (insert_checksum (format_owner id) c t) _ h in
      let (kept, same_rows) = insert_checksum-Kept id c t u absent s in
      Kept-trans uuid version t u t' kept
        (insert_checksums-Kept id checksums u t' (rw same_rows absent) k)

  insert_distributions-Kept :
      (u : String) (v : ℕ) (ids : List String) (t t' : Tables)
      → same_key u v uuid version ≡ false
      → insert_distributions u v ids t ≡ ok t'
      → Kept uuid version t t'
  unfolding insert_distributions
  insert_distributions-Kept u v [] t t' other h =
      subst (Kept uuid version t) (ok-injective h) (Kept-refl uuid version t)
  insert_distributions-Kept u v (id ∷ ids) t t' other h =
      let row : DistributionRow = record {
        artifact_uuid = u;
        artifact_version = v;
        distribution_id = id;
      } in
      let (s, e, k) = >>=-eq-ok (insert_distribution row t) _ h in
      Kept-trans uuid version t s t' (insert_distribution-Kept row t s other e)
        (insert_distributions-Kept u v ids s t' other k)

  insert_formats-Kept :
      (new_id : ℕ → String) (i : ℕ) (u : String) (v : ℕ) (formats : List FormatInput)
      (t t' : Tables)
      → same_key u v uuid version ≡ false
      → insert_formats new_id i u v formats t ≡ ok t'
      → Kept uuid version t t'
  unfolding insert_formats
  insert_formats-Kept new_id i u v [] t t' other h =
      subst (Kept uuid version t) (ok-injective h) (Kept-refl uuid version t)
  insert_formats-Kept new_id i u v (f ∷ formats) t t' other h =
      let row = format_row (new_id i) u v f in
      let (a, e, k) = >>=-eq-ok (insert_format_row row t) _ h in
      let (b, c, l) = >>=-eq-ok (insert_checksums (format_owner (new_id i)) f.checksums a) _ k in
      let (kept, fresh) = insert_format_row-Kept row t a other e in
      let absent =
        any-filter (has_format_id (new_id i)) (of_artifact uuid version) t.formats fresh in
      Kept-trans uuid version t a t' kept (
        Kept-trans uuid version a b t'
          (insert_checksums-Kept (new_id i) f.checksums a b (rw kept.same.rows absent) c)
          (insert_formats-Kept new_id (suc i) u v formats b t' other l))

  pub insert_artifact-Kept :
      (new_id : ℕ → String) (u : String) (v : ℕ) (input : ArtifactInput) (row : ArtifactRow)
      (t t' : Tables)
      → find_row uuid version t.artifacts ≡ ok row
      → insert_artifact new_id u v input t ≡ ok t'
      → Kept uuid version t t'
  unfolding insert_artifact
  insert_artifact-Kept new_id u v input row t t' f h =
      let (a, e, k) = >>=-eq-ok (insert_artifact_row (artifact_row u v input) t) _ h in
      let (b, c, l) = >>=-eq-ok (insert_distributions u v input.distribution_ids a) _ k in
      let (kept, other) = insert_artifact_row-Kept (artifact_row u v input) row t a f e in
      Kept-trans uuid version t a t' kept (
        Kept-trans uuid version a b t'
          (insert_distributions-Kept u v input.distribution_ids a b other c)
          (insert_formats-Kept new_id 0 u v input.formats b t' other l))
