-- ===== src/Lib.antt =====
-- A verification library of opentea, the reference implementation of the Transparency Exchange API.
--
-- The server keeps artifacts, collections of them for each release, and signed evidence in SQLite
-- (internal/repo). A reader's request is decided by internal/authz from the rules that the database
-- gives. A publisher edits a draft of a collection; another publisher approves it; a client prepares
-- the commit, signs what prepare returned, and commits; the commit creates the collection and its
-- evidence bundle and removes the draft, in one transaction.
--
-- Beside that, each product, release and component has a log of lifecycle events, read with an ETag
-- made from a revision; and pkg/teaclient finds, from an identifier, the server to ask.
--
-- Prelude      the shared names: Boolean tests, lists, results, three-way comparisons.
-- Repo         internal/repo: the errors, the time format and the SQL comparisons that the others
--              use (timeutil.go, cle.go), the comparisons of imports (identity.go), the rows that
--              belong to an owner (repo.go), identifiers (identifier.go), and the rows of the tables
--              (internal/db/migrations).
-- Authz        internal/authz: capabilities, subjects, resources, and `Decide` with its ranking.
-- AuthzStore   internal/repo/authzstore.go: which entitlement rules a database gives `Decide`; it
--              fills the `Store` of Authz.
-- Collections  internal/repo/collection.go: creating a version of a collection, reading it back, and
--              importing one.
-- Evidence     internal/repo/evidencebundle.go: `CreateEvidenceBundle` and the fingerprints.
-- Draft        internal/repo/collectiondraft.go: put, get, delete, decide, prepare, peek, cancel and
--              commit. Commit calls Collections and Evidence. FourEyes, History and Log have the
--              invariants of whole histories.
-- Lifecycle    internal/repo/cle.go: the events and support definitions of an owner, their import,
--              the revision that every write bumps, and deleteOwnerScoped (repo.go).
-- Approvals    internal/openteapublisher/approval.go: business approvals by several members of staff,
--              in the publisher's own database. Deletions has `DeleteStaff` (staff.go) and
--              `DeleteTarget` (target.go), with what the foreign keys of
--              db/migrations/0004_business_approval.sql do to requests and decisions; the histories of
--              Steps include them.
-- Pages        internal/api/pagination.go: the pages of the rows that a caller may see. The query and
--              the call of `Decide` are its parameters.
-- LoginLimiter internal/httpx/loginlimiter.go: the sliding window of login attempts.
-- Artifacts    internal/repo/artifact.go: revisions of artifacts and their formats, their creation and
--              import, the files recorded for them, and what a download looks up.
-- Api          what the read handlers of internal/api share: authz.go, cachepolicy.go, and the ETags of
--              internal/httpx/etag.go. It calls Authz.
-- Download     internal/api/artifactdownload.go: the negotiation of a format, and the downloads of
--              content and signatures. It calls Api and Artifacts; the storage, the entitlement
--              watermark and float64 are its parameters.
-- Texts        what the code uses of Go's `strings`, on ASCII.
-- SemVer       pkg/teaclient/semver.go: versions, their order, and the highest that both sides have.
-- Discovery    pkg/teaclient: errors (errors.go), retries, the order of endpoints and the search over
--              them (wellknown.go), and the check of an answer (discovery.go). It calls SemVer. The
--              network, `url.Parse`, the context and the float64 priorities are its parameters.
--
-- A function of the source has its name here in snake case. A table is the list of its rows in the
-- order of their rowids; a method on `*Repo` takes the tables and returns them, or an error and no
-- tables, as a transaction that is rolled back. A query is the recursion that keeps the rows of its
-- WHERE. Primary keys, references and CHECKs that an insert may break are written into the insert.
-- Times are nanoseconds, and the columns that `formatTime` writes are seconds. `clock i` is what the
-- i-th `time.Now()` in the text of an operation reads; a query of AuthzStore reads one clock. A fresh
-- uuid is an argument. Recursion is structural, but for the loop of `filterAuthorized`
-- and a client's walk over its pages, which run on fuel, where one round, and one page, more than there
-- are rows is enough, and the loop of `retryWithBackoff`, where four rounds are, and the
-- digits of a number, where one more than the number is.
--
-- Not modelled: faults of SQLite and of the context; columns that do not parse as times, which only
-- `formatTime` writes; integers above 2^63, but in `Atoi`, and negative ids of events; the contents of
-- an artifact where operations on collections copy them; Content-Disposition, Repr-Digest and the text
-- of Content-Location; the order in which Go iterates over a map, fixed here as
-- that of first occurrence; the HTTP handlers but for the downloads, and a
-- request that reads two states of the database; the rest of the client (the fetch of the well-known
-- document and the SVCB lookup); the rest of the publisher's own database; the HTML front ends.
pub mod Prelude
pub mod Repo
pub mod Authz
pub mod AuthzStore
pub mod Collections
pub mod Evidence
pub mod Draft
pub mod Api
pub mod Approvals
pub mod Artifacts
pub mod Discovery
pub mod Download
pub mod Lifecycle
pub mod LoginLimiter
pub mod Pages
pub mod SemVer
pub mod Texts
