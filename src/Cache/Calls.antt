-- ===== src/Cache/Calls.antt =====
-- A history of calls of the cache, the newest first, and the entries that it leaves.
use mathlib.Core.Path.{subst}
use enterprise_doc_rag.Common.{
  ℕ, String, ◌≡◌, refl, sym, ◌∙◌, ◌≢◌, ◌⊎◌, inl, inr, Bool, true, false, not, List, [], ◌∷◌, arith,
  ◌==◌, nat_eq, string_eq, Bool-cases, contains, any, all, select, Member, Member-select,
  Member-of_select,
}
use enterprise_doc_rag.Config.{Settings}
use enterprise_doc_rag.Retrieval.Collections.{ensure_collection, ensure_collection-points}
use enterprise_doc_rag.Cache.{
  source_document_ids_any, Qdrant, StoreCall, CachePoint, holds, collections_of, new_point, store,
  invalidate_for_document,
}

pub data CacheCall (Score : Type 0) : Type 0 where
  stored : StoreCall Score → CacheCall Score
  invalidated : String → CacheCall Score

-- An entry was stored, and no document that it cites has been invalidated since.
pub data StoredIn {Score : Type 0} (c : StoreCall Score) : List (CacheCall Score) → Type 0 where
  just_stored : {earlier : List (CacheCall Score)} → StoredIn c (stored c ∷ earlier)
  before_store :
      {earlier : List (CacheCall Score)} (d : StoreCall Score)
      → StoredIn c earlier
      → StoredIn c (stored d ∷ earlier)
  before_invalidation :
      {earlier : List (CacheCall Score)} (document_id : String)
      → contains c.source_document_ids document_id ≡ false
      → StoredIn c earlier
      → StoredIn c (invalidated document_id ∷ earlier)

pub StoredIn-stored :
    {Score : Type 0} (c d : StoreCall Score) (earlier : List (CacheCall Score))
    → StoredIn c (stored d ∷ earlier)
    → (c ≡ d) ⊎ StoredIn c earlier
StoredIn-stored c _ earlier just_stored = inl refl
StoredIn-stored c d earlier (before_store _ i) = inr i

pub StoredIn-invalidated :
    {Score : Type 0} (c : StoreCall Score) (document_id : String) (earlier : List (CacheCall Score))
    → StoredIn c (invalidated document_id ∷ earlier)
    → (contains c.source_document_ids document_id ≡ false) × StoredIn c earlier
StoredIn-invalidated c document_id earlier (before_invalidation _ h i) = (h, i)

-- `uuid4` draws no id of an entry that is there.
abbrev pub AreFresh : {Score : Type 0} → List (CacheCall Score) → Type 0
AreFresh [] = Unit
AreFresh {Score} (stored c ∷ earlier) =
    AreFresh earlier × ((d : StoreCall Score) → StoredIn d earlier → d.new_id ≢ c.new_id)
AreFresh (invalidated document_id ∷ earlier) = AreFresh earlier

any-false :
    {A : Type 0} (p : A → Bool) (xs : List A)
    → ((x : A) → Member x xs → p x ≡ false)
    → any p xs ≡ false
any-false p [] h = refl
any-false p (x ∷ xs) h = rw (h x (inl refl), any-false p xs (λ y m. h y (inr m)))

module _ {Score Vector : Type 0} (settings : Settings) (get_query_embedding : String → Vector)
    (qdrant : Qdrant Score Vector) (embedding_dimension : ℕ) where
  abbrev pub call : CacheCall Score → qdrant.State → qdrant.State
  call (stored c) s = store settings get_query_embedding qdrant embedding_dimension c s
  call (invalidated document_id) s = invalidate_for_document qdrant document_id s

  abbrev pub run : List (CacheCall Score) → qdrant.State → qdrant.State
  run [] s = s
  run (c ∷ earlier) s = call c (run earlier s)

  -- The points of the collection are those that were stored and not invalidated since.
  pub record LeftBy (calls : List (CacheCall Score)) (s : qdrant.State) : Type 0 where
    pub from_store :
        qdrant.collection_exists s ≡ true
        → (p : CachePoint Score Vector) → Member p (qdrant.points s)
        → (c : StoreCall Score) × StoredIn c calls × (p ≡ new_point settings get_query_embedding c)
    pub kept :
        (c : StoreCall Score)
        → StoredIn c calls
        → (qdrant.collection_exists s ≡ true)
          × Member (new_point settings get_query_embedding c) (qdrant.points s)

  ensured-Member :
      (s : qdrant.State) (p : CachePoint Score Vector)
      → (Member p (qdrant.points (ensure_collection (collections_of qdrant) embedding_dimension s))
          → (qdrant.collection_exists s ≡ true) × Member p (qdrant.points s))
        × (qdrant.collection_exists s ≡ true
            → Member p (qdrant.points s)
            → Member p
                (qdrant.points (ensure_collection (collections_of qdrant) embedding_dimension s)))
  ensured-Member s p =
      let (there, e) = ensure_collection-points (collections_of qdrant) embedding_dimension s in
      elim (Bool-cases (qdrant.collection_exists s)) [
        | inl h ↦ (λ m. (h, rw (e, h) at m), λ k m. rw (e, h) m)
        | inr h ↦ (λ m. absurd (rw (e, h) at m), λ k m. absurd (cc))
      ]

  call-stored :
      (c : StoreCall Score) (s : qdrant.State)
      → settings.semantic_cache_enabled ≡ true
      → call (stored c) s
        ≡ qdrant.upsert
            (new_point settings get_query_embedding c)
            (ensure_collection (collections_of qdrant) embedding_dimension s)
  unfolding store
  call-stored c s enabled = ground arith

  stored-LeftBy :
      (c : StoreCall Score) (earlier : List (CacheCall Score)) (s : qdrant.State)
      → settings.semantic_cache_enabled ≡ true
      → ((d : StoreCall Score) → StoredIn d earlier → d.new_id ≢ c.new_id)
      → LeftBy earlier s
      → LeftBy (stored c ∷ earlier) (call (stored c) s)
  stored-LeftBy c earlier s enabled fresh l =
      let p = new_point settings get_query_embedding c in
      let ensured = ensure_collection (collections_of qdrant) embedding_dimension s in
      let (there, e) = ensure_collection-points (collections_of qdrant) embedding_dimension s in
      let new : any (λ x. x.id == p.id) (qdrant.points ensured) ≡ false =
        any-false (λ x. x.id == p.id) (qdrant.points ensured)
          (λ x m.
            let (k, n) = (ensured-Member s x).0 m in
            let (d, i, f) = l.from_store k x n in
            let apart : d.new_id ≢ c.new_id = fresh d i in rw f (ground arith)) in
      let added : qdrant.points (qdrant.upsert p ensured) ≡ p ∷ qdrant.points ensured =
        qdrant.points-upsert p ensured there new in
      let there' : qdrant.collection_exists (qdrant.upsert p ensured) ≡ true =
        qdrant.exists-upsert p ensured ∙ there in
      subst (LeftBy (stored c ∷ earlier)) (sym (call-stored c s enabled)) (record {
        from_store = λ k x m. elim (subst (Member x) added m) [
          | inl f ↦ (c, just_stored, f)
          | inr n ↦
              let (k', n') = (ensured-Member s x).0 n in
              let (d, i, f) = l.from_store k' x n' in (d, before_store c i, f)
        ];
        kept = λ d i. elim (StoredIn-stored d c earlier i) [
          | inl f ↦ (there', subst (Member _) (sym added) (inl (rw f refl)))
          | inr j ↦
              let (k, n) = l.kept d j in
              (there', subst (Member _) (sym added) (inr ((ensured-Member s _).1 k n)))
        ];
      })

  invalidated-LeftBy :
      (document_id : String) (earlier : List (CacheCall Score)) (s : qdrant.State)
      → LeftBy earlier s
      → LeftBy (invalidated document_id ∷ earlier) (call (invalidated document_id) s)
  unfolding invalidate_for_document
  invalidated-LeftBy document_id earlier s l =
      let fs = source_document_ids_any (document_id ∷ []) ∷ [] in
      let spared = λ (p : CachePoint Score Vector). not (all (λ f. holds f p) fs) in
      elim (Bool-cases (qdrant.collection_exists s)) [
        | inr missing ↦ rw missing (record {
          from_store = λ k x m. absurd (cc);
          kept = λ d i.
              absurd (cc (missing, (l.kept d (StoredIn-invalidated d document_id earlier i).1).0));
        })
        | inl there ↦ rw there (record {
          from_store = λ k x m.
              let m' : Member x (select spared (qdrant.points s)) =
                subst (Member x) (qdrant.points-delete fs s) m in
              let (n, other) = Member-select spared x (qdrant.points s) m' in
              let (d, i, f) = l.from_store there x n in
              let other' : spared (new_point settings get_query_embedding d) ≡ true =
                rw f at other in
              (d, before_invalidation document_id (ground arith) i, f);
          kept = λ d i.
              let (other, j) = StoredIn-invalidated d document_id earlier i in
              let (k, n) = l.kept d j in
              (
                qdrant.exists-delete fs s ∙ there,
                subst (Member _) (sym (qdrant.points-delete fs s))
                    (Member-of_select spared _ (qdrant.points s) n (ground arith)),
              );
        })
      ]

  -- The points of the collection after any calls, from a time when there was none.
  pub run-LeftBy :
      (calls : List (CacheCall Score)) (s : qdrant.State)
      → settings.semantic_cache_enabled ≡ true
      → qdrant.collection_exists s ≡ false
      → AreFresh calls
      → LeftBy calls (run calls s)
  run-LeftBy [] s enabled missing fresh = record {
    from_store = λ k x m. absurd (cc);
    kept = λ d i. elim i [ ];
  }
  run-LeftBy (stored c ∷ earlier) s enabled missing fresh =
      stored-LeftBy c earlier (run earlier s) enabled fresh.1
        (run-LeftBy earlier s enabled missing fresh.0)
  run-LeftBy (invalidated document_id ∷ earlier) s enabled missing fresh =
      invalidated-LeftBy document_id earlier (run earlier s)
        (run-LeftBy earlier s enabled missing fresh)
