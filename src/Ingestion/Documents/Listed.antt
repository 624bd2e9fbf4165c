-- ===== src/Ingestion/Documents/Listed.antt =====
-- What a tenant is shown of the registry.
use enterprise_doc_rag.Common.{
  ◌≡◌, refl, ap, inl, inr, Bool, true, false, List, [], ◌∷◌, map, Member, Member-select,
  Member-of_select, All, select, arith, leb, string_eq,
}
use enterprise_doc_rag.Common.Sorting.{
  sort_by, Member-of_sort_by, Member-sort_by, IsSorted, IsSorted-sort_by,
}
use enterprise_doc_rag.Security.Keys.{ApiKey}
use enterprise_doc_rag.Registry.{Document, Registry, is_deleted}
use enterprise_doc_rag.Ingestion.Documents.{
  DocumentResponse, document_response, is_shown, newest_first, list_documents,
}

-- Of two responses in a row the first was not created earlier.
abbrev pub not_older : DocumentResponse → DocumentResponse → Bool
not_older x y = leb y.created_at x.created_at

responses-Member :
    (x : DocumentResponse) (ds : List Document)
    → Member x (map document_response ds)
    → (d : Document) × Member d ds × (x ≡ document_response d)
responses-Member x [] m = absurd m
responses-Member x (d ∷ ds) (inl e) = (d, inl refl, e)
responses-Member x (d ∷ ds) (inr m) = let (y, n, e) = responses-Member x ds m in (y, inr n, e)

Member-responses :
    (d : Document) (ds : List Document)
    → Member d ds
    → Member (document_response d) (map document_response ds)
Member-responses d [] m = absurd m
Member-responses d (x ∷ ds) (inl e) = inl (ap document_response e)
Member-responses d (x ∷ ds) (inr m) = inr (Member-responses d ds m)

All-responses :
    (d : Document) (ds : List Document)
    → All (λ e. newest_first d e ≡ true) ds
    → All (λ y. not_older (document_response d) y ≡ true) (map document_response ds)
All-responses d [] a = tt
All-responses d (e ∷ ds) (h, a) = (h, All-responses d ds a)

IsSorted-responses :
    (ds : List Document) → IsSorted newest_first ds → IsSorted not_older (map document_response ds)
IsSorted-responses [] s = tt
IsSorted-responses (d ∷ ds) (a, s) = (All-responses d ds a, IsSorted-responses ds s)

pub record IsListing (api_key : ApiKey) (r : Registry) (responses : List DocumentResponse)
    : Type 0 where
  pub own :
      (x : DocumentResponse)
      → Member x responses
      → (d : Document) × Member d r.documents
        × (x ≡ document_response d)
        × (d.tenant_id ≡ api_key.tenant_id)
        × (is_deleted d.status ≡ false)
  pub complete :
      (d : Document)
      → Member d r.documents
      → d.tenant_id ≡ api_key.tenant_id
      → is_deleted d.status ≡ false
      → Member (document_response d) responses
  pub newest : IsSorted not_older responses

-- A tenant is shown exactly its own documents that are not deleted, the newest first.
pub list_documents-IsListing :
    (api_key : ApiKey) (r : Registry) → IsListing api_key r (list_documents api_key r)
unfolding list_documents
list_documents-IsListing api_key r =
    let shown = select (is_shown api_key.tenant_id) r.documents in
    record {
      own = λ x m.
          let (d, n, e) = responses-Member x (sort_by newest_first shown) m in
          let (k, h) =
            Member-select (is_shown api_key.tenant_id) d r.documents
              (Member-of_sort_by newest_first d shown n) in
          (d, k, e, ground (arith, h), ground (arith, h));
      complete = λ d m t live. Member-responses d (sort_by newest_first shown) (
          Member-sort_by newest_first d shown (
            Member-of_select (is_shown api_key.tenant_id) d r.documents m
              (ground (arith, t, live))));
      newest = IsSorted-responses (sort_by newest_first shown) (
          IsSorted-sort_by newest_first (λ d e h. ground (arith, h))
            (λ d e f h k. ground (arith, h, k)) shown);
    }
