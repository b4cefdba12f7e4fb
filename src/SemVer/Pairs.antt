-- ===== src/SemVer/Pairs.antt =====
-- The pairs of a client's and an endpoint's version that the loops of `highestMutualVersion`
-- (pkg/teaclient/semver.go) visit, in order.

use opentea.Prelude.{refl, sym, ap, subst, List, [], ◌∷◌, Memᴰ, All}
use opentea.SemVer.{Bytes}

-- The pairs that the loops visit.
abbrev pub visit : Bytes → List Bytes → List (Bytes × Bytes) → List (Bytes × Bytes)
visit c [] seen = seen
visit c (e ∷ endpoint) seen = visit c endpoint ((c, e) ∷ seen)

abbrev pub visit_all : List Bytes → List Bytes → List (Bytes × Bytes) → List (Bytes × Bytes)
visit_all [] endpoint seen = seen
visit_all (c ∷ client) endpoint seen = visit_all client endpoint (visit c endpoint seen)

-- What is visited, is a pair of the two lists or was seen before; and all pairs are.
visit-kept :
    {p : Bytes × Bytes} (c : Bytes) (endpoint : List Bytes) {seen : List (Bytes × Bytes)}
    → Memᴰ p seen
    → Memᴰ p (visit c endpoint seen)
visit-kept c [] m = m
visit-kept c (e ∷ endpoint) m = visit-kept c endpoint (Memᴰ.tail m)

visit-mem :
    {e : Bytes} (c : Bytes) (endpoint : List Bytes) (seen : List (Bytes × Bytes))
    → Memᴰ e endpoint
    → Memᴰ (c, e) (visit c endpoint seen)
visit-mem c [] seen m = elim m [ ]
visit-mem c (x ∷ endpoint) seen (Memᴰ.head q) =
    visit-kept c endpoint (Memᴰ.head (ap (λ z. (c, z)) q))
visit-mem c (x ∷ endpoint) seen (Memᴰ.tail m) = visit-mem c endpoint ((c, x) ∷ seen) m

visit_all-kept :
    {p : Bytes × Bytes} (client endpoint : List Bytes) {seen : List (Bytes × Bytes)}
    → Memᴰ p seen
    → Memᴰ p (visit_all client endpoint seen)
visit_all-kept [] endpoint m = m
visit_all-kept (c ∷ client) endpoint m = visit_all-kept client endpoint (visit-kept c endpoint m)

pub visit_all-mem :
    {c e : Bytes} (client endpoint : List Bytes) (seen : List (Bytes × Bytes))
    → Memᴰ c client
    → Memᴰ e endpoint
    → Memᴰ (c, e) (visit_all client endpoint seen)
visit_all-mem [] endpoint seen m n = elim m [ ]
visit_all-mem {c} {e} (x ∷ client) endpoint seen (Memᴰ.head q) n =
    visit_all-kept client endpoint
      (subst (λ z. Memᴰ (z, e) (visit x endpoint seen)) (sym q) (visit-mem x endpoint seen n))
visit_all-mem (x ∷ client) endpoint seen (Memᴰ.tail m) n =
    visit_all-mem client endpoint (visit x endpoint seen) m n

-- The first half of a visited pair is the client's, the second the endpoint's.
abbrev pub Between : List Bytes → List Bytes → Bytes × Bytes → Type 0
Between client endpoint p = Memᴰ p.0 client × Memᴰ p.1 endpoint

visit-Between :
    (client endpoint : List Bytes) (c : Bytes) (rest : List Bytes) (seen : List (Bytes × Bytes))
    → Memᴰ c client
    → ((e : Bytes) → Memᴰ e rest → Memᴰ e endpoint)
    → All (Between client endpoint) seen
    → All (Between client endpoint) (visit c rest seen)
visit-Between client endpoint c [] seen m f h = h
visit-Between client endpoint c (e ∷ rest) seen m f h =
    visit-Between client endpoint c rest ((c, e) ∷ seen) m (λ x n. f x (Memᴰ.tail n))
      ((m, f e (Memᴰ.head refl)), h)

pub visit_all-Between :
    (client endpoint rest : List Bytes) (seen : List (Bytes × Bytes))
    → ((c : Bytes) → Memᴰ c rest → Memᴰ c client)
    → All (Between client endpoint) seen
    → All (Between client endpoint) (visit_all rest endpoint seen)
visit_all-Between client endpoint [] seen f h = h
visit_all-Between client endpoint (c ∷ rest) seen f h =
    visit_all-Between client endpoint rest (visit c endpoint seen) (λ x n. f x (Memᴰ.tail n))
      (visit-Between client endpoint c endpoint seen (f c (Memᴰ.head refl)) (λ x n. n) h)
