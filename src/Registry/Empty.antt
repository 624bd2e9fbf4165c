-- ===== src/Registry/Empty.antt =====
-- The tables before any document is registered.
use enterprise_doc_rag.Common.{ℕ, refl, [], arith}
use enterprise_doc_rag.Registry.{Registry}
use enterprise_doc_rag.Registry.Consistent.{IsConsistent, IsFresh}

abbrev pub no_rows : Registry
no_rows = record { documents = []; versions = [] }

pub no_rows-IsConsistent : IsConsistent no_rows
no_rows-IsConsistent = record {
  unique_id = λ i. omega arith;
  unique_key = λ t p. omega arith;
  history = λ d m. elim m [ ];
}

pub no_rows-IsFresh : (i : ℕ) → IsFresh i no_rows
no_rows-IsFresh i = record { no_document = refl; no_version = λ n. refl }
