-- ===== src/Retrieval/Collections.antt =====
-- core/retrieval/qdrant_store.py: `ensure_collection`, over what it relies on of Qdrant. A missing
-- collection has no points.
use enterprise_doc_rag.Common.{
  ℕ, String, ◌≡◌, refl, ◌∙◌, inl, inr, Bool, true, false, List, [], ◌∷◌, if◌then◌else◌, Bool-cases,
}

pub record Collections (Point : Type 0) : Type 1 where
  pub State : Type 0
  pub collection_exists : State → Bool
  pub points : State → List Point
  pub create_collection : ℕ → State → State
  pub create_payload_index : String → State → State
  pub exists-create : (n : ℕ) (s : State) → collection_exists (create_collection n s) ≡ true
  pub points-create :
      (n : ℕ) (s : State) → collection_exists s ≡ false → points (create_collection n s) ≡ []
  pub exists-index :
      (field : String) (s : State)
      → collection_exists (create_payload_index field s) ≡ collection_exists s
  pub points-index : (field : String) (s : State) → points (create_payload_index field s) ≡ points s

abbrev pub payload_index_fields : List String
payload_index_fields = "tenant_id" ∷ "department" ∷ "doc_type" ∷ []

module _ {Point : Type 0} (client : Collections Point) where
  abbrev pub create_indexes : List String → client.State → client.State
  create_indexes [] s = s
  create_indexes (field ∷ fields) s = create_indexes fields (client.create_payload_index field s)

  unfoldable pub ensure_collection : ℕ → client.State → client.State
  ensure_collection vector_size s =
      if client.collection_exists s
      then s
      else create_indexes payload_index_fields (client.create_collection vector_size s)

  create_indexes-points :
      (fields : List String) (s : client.State)
      → (client.points (create_indexes fields s) ≡ client.points s)
        × (client.collection_exists (create_indexes fields s) ≡ client.collection_exists s)
  create_indexes-points [] s = (refl, refl)
  create_indexes-points (field ∷ fields) s =
      let (e, f) = create_indexes-points fields (client.create_payload_index field s) in
      (e ∙ client.points-index field s, f ∙ client.exists-index field s)

  -- The collection is there afterwards, and a new one has no points.
  pub ensure_collection-points :
      (vector_size : ℕ) (s : client.State)
      → (client.collection_exists (ensure_collection vector_size s) ≡ true)
        × (client.points (ensure_collection vector_size s)
            ≡ (if client.collection_exists s then client.points s else []))
  unfolding ensure_collection
  ensure_collection-points vector_size s =
      let created = client.create_collection vector_size s in
      elim (Bool-cases (client.collection_exists s)) [
        | inl there ↦ rw there (there, refl)
        | inr missing ↦
            let (e, f) = create_indexes-points payload_index_fields created in
            rw missing (
              f ∙ client.exists-create vector_size s,
              e ∙ client.points-create vector_size s missing,
            )
      ]
