-- ===== src/Cache/Memory.antt =====
-- A Qdrant of the kind that the cache assumes: the points in a list, texts as vectors, similar if
-- they are equal.
use enterprise_doc_rag.Common.{
  ℕ, String, ◌≡◌, refl, inl, inr, Bool, true, false, not, ◌&&◌, Option, none, some, List, [], ◌∷◌,
  arith, ◌==◌, string_eq, if◌then◌else◌, Bool-cases, all, select, Member,
}
use enterprise_doc_rag.Cache.{Qdrant, CachePoint, Condition, holds}

abbrev Point : Type 0
Point = CachePoint ℕ String

abbrev stored_points : Option (List Point) → List Point
stored_points none = []
stored_points (some ps) = ps

abbrev exists : Option (List Point) → Bool
exists none = false
exists (some ps) = true

abbrev mapped : (List Point → List Point) → Option (List Point) → Option (List Point)
mapped f none = none
mapped f (some ps) = some (f ps)

abbrev passes : List Condition → Point → Bool
passes fs p = all (λ f. holds f p) fs

abbrev spare : List Condition → List Point → List Point
spare fs = select (λ p. not (passes fs p))

-- The first point that passes.
abbrev find : String → List Condition → List Point → Option Point
find v fs [] = none
find v fs (p ∷ ps) = if passes fs p && v == p.vector then some p else find v fs ps

pub exists-mapped :
    (f : List Point → List Point) (s : Option (List Point)) → exists (mapped f s) ≡ exists s
exists-mapped f none = refl
exists-mapped f (some ps) = refl

pub points-spare :
    (fs : List Condition) (s : Option (List Point))
    → stored_points (mapped (spare fs) s)
      ≡ select (λ p. not (all (λ f. holds f p) fs)) (stored_points s)
points-spare fs none = refl
points-spare fs (some ps) = refl

pub upserted :
    (p : Point) (s : Option (List Point))
    → exists s ≡ true
    → stored_points (mapped (λ ps. p ∷ ps) s) ≡ p ∷ stored_points s
upserted p none there = absurd (cc)
upserted p (some ps) there = refl

pub find-found :
    (v : String) (fs : List Condition) (ps : List Point) (p : Point)
    → find v fs ps ≡ some p
    → Member p ps × (passes fs p ≡ true) × ((v == p.vector) ≡ true)
find-found v fs [] p h = absurd (cc)
find-found v fs (q ∷ ps) p h = elim (Bool-cases (passes fs q && v == q.vector)) [
  | inl here ↦ let e : p ≡ q = ground arith in (inl e, rw e (ground arith), rw e (ground arith))
  | inr apart ↦ let (m, k, close) = find-found v fs ps p (rw apart at h) in (inr m, k, close)
]

pub find-missed :
    (v : String) (fs : List Condition) (ps : List Point)
    → find v fs ps ≡ none
    → (p : Point) → Member p ps
    → passes fs p ≡ true
    → (v == p.vector) ≡ false
find-missed v fs [] h p m k = elim m [ ]
find-missed v fs (q ∷ ps) h p (inl e) k = rw e (ground (arith, rw e at k))
find-missed v fs (q ∷ ps) h p (inr m) k = find-missed v fs ps (ground arith) p m k

abbrev pub memory_qdrant : Qdrant ℕ String
memory_qdrant = record {
  State = Option (List Point);
  collection_exists = exists;
  points = stored_points;
  similar = λ v w. v == w;
  create_collection = λ n s. some [];
  create_payload_index = λ field s. s;
  upsert = λ p s. mapped (λ ps. p ∷ ps) s;
  delete = λ fs s. mapped (spare fs) s;
  query_points = λ v fs s. find v fs (stored_points s);
  exists-create = λ n s. refl;
  points-create = λ n s h. refl;
  exists-index = λ field s. refl;
  points-index = λ field s. refl;
  exists-upsert = λ p s. exists-mapped (λ ps. p ∷ ps) s;
  points-upsert = λ p s there new. upserted p s there;
  exists-delete = λ fs s. exists-mapped (spare fs) s;
  points-delete = points-spare;
  query-found = λ v fs s p h. find-found v fs (stored_points s) p h;
}
