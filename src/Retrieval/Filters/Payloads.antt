-- ===== src/Retrieval/Filters/Payloads.antt =====
-- A store that reads conditions as Qdrant documents them.
use enterprise_doc_rag.Common.{String, refl, Bool, List, contains, string_eq}
use enterprise_doc_rag.Retrieval.Filters.{
  FilterValue, PayloadMatching, one, many, payload, overlaps,
}

abbrev pub value_holds : FilterValue → List String → Bool
value_holds (one v) stored = contains stored v
value_holds (many vs) stored = overlaps stored vs

abbrev pub payload_matching : PayloadMatching
payload_matching = record {
  holds = λ f m. value_holds f.value (payload f.key m);
  holds-eq = λ k v m. refl;
  holds-in_list = λ k vs m. refl;
  holds-any_of = λ k vs m. refl;
}
