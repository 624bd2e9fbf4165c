-- ===== src/Ingestion/Start.antt =====
-- The stores before anything is ingested.
use enterprise_doc_rag.Common.{none, []}
use enterprise_doc_rag.Cache.Memory.{memory_qdrant}
use enterprise_doc_rag.Registry.Empty.{no_rows, no_rows-IsConsistent}
use enterprise_doc_rag.Ingestion.Memory.{memory_docstore, memory_store}
use enterprise_doc_rag.Ingestion.Pipeline.{State}
use enterprise_doc_rag.Ingestion.Pipeline.Replaced.{IsAccounted}
use enterprise_doc_rag.Ingestion.Pipeline.Sound.{IsSound}
use enterprise_doc_rag.Ingestion.Worker.Settled.{IsSettled}

abbrev pub no_documents : State memory_docstore memory_store memory_qdrant
no_documents = record {
  registry = no_rows;
  committed = no_rows;
  docs = [];
  vectors = none;
  cache = none;
}

pub no_documents-IsAccounted :
    IsAccounted memory_docstore memory_store memory_qdrant no_rows no_documents
no_documents-IsAccounted = record { docs = λ n m. elim m [ ]; vectors = λ n m. elim m [ ] }

pub no_documents-IsSettled : IsSettled memory_docstore memory_store memory_qdrant no_documents
no_documents-IsSettled = record {
  consistent = no_rows-IsConsistent;
  accounted = no_documents-IsAccounted;
}

pub no_documents-IsSound : IsSound memory_docstore memory_store memory_qdrant no_documents
no_documents-IsSound = record {
  consistent = no_rows-IsConsistent;
  consistent_committed = no_rows-IsConsistent;
  accounted = no_documents-IsAccounted;
  accounted_committed = no_documents-IsAccounted;
}
