-- ===== src/Ingestion/Pipeline/Sound.antt =====
-- The invariant of the stores, and the steps of an ingestion that keep it, whatever they return.
pub mod Kept
use mathlib.Core.Path.{subst}
use enterprise_doc_rag.Common.{
  ℕ, String, ◌≡◌, ◌≢◌, refl, sym, ap, ◌∙◌, ◌⊎◌, inl, inr, true, false, Option, none, some, List, [],
  length, Member, Bool-cases, Option-cases,
}
use enterprise_doc_rag.Common.Text.{decimal}
use enterprise_doc_rag.Common.Result.{Result, ok, err, Result-cases}
use enterprise_doc_rag.Common.Io.{pure, Leads, Keeps, Leads-bind, Leads-lift, ◌>>=◌}
use enterprise_doc_rag.Retrieval.Collections.{ensure_collection}
use enterprise_doc_rag.Cache.{Qdrant, invalidate_for_document}
use enterprise_doc_rag.Registry.{
  Document, Registry, FileInfo, VersionDecision, finalize_document, get_or_create_document,
}
use enterprise_doc_rag.Registry.Consistent.{
  IsConsistent, IsFresh, get_or_create_document-IsConsistent,
}
use enterprise_doc_rag.Registry.Updates.{finalize_document-IsConsistent}
use enterprise_doc_rag.Registry.Lifecycle.{IsStarted, IsStarted-of_changed}
use enterprise_doc_rag.Registry.Ingested.{
  IsIngested, IsIngested-of_started, get_or_create_document-IsIngested,
  finalize_document-IsIngested,
}
use enterprise_doc_rag.Ingestion.Metadata.{ResolvedMetadata}
use enterprise_doc_rag.Ingestion.World.{World, session, commit, on_docs, on_vectors, on_cache}
use enterprise_doc_rag.Ingestion.Stores.{
  FileMetadata, Node, Docstore, VectorStore, Adds, Deletes, IsOf, AllOf-new,
}
use enterprise_doc_rag.Ingestion.Pipeline.{
  Loader, SourceFile, IngestResult, NodeParser, State, file_info, file_metadata, tag_all, finalized,
  delete_vectors, purge_existing_document_data, index_documents, ingest_changed, ingest_decided,
  ingest_supported, ingest_with, ingest_file, loader_of,
}
use enterprise_doc_rag.Ingestion.Pipeline.Indexed.{tagged-metadata, ensured-Adds}
use enterprise_doc_rag.Ingestion.Pipeline.Purged.{purge-Keeps}
use enterprise_doc_rag.Ingestion.Pipeline.Replaced.{IsAccounted}

module _ {Content Score Vector : Type 0} (docstore : Docstore Content) (store : VectorStore Content)
    (qdrant : Qdrant Score Vector) where
  -- The tables are consistent, and every node in the stores is of a document that is in them, in the
  -- session's view and in what has been committed.
  pub record IsSound (w : State docstore store qdrant) : Type 0 where
    pub consistent : IsConsistent w.registry
    pub consistent_committed : IsConsistent w.committed
    pub accounted : IsAccounted docstore store qdrant w.registry w
    pub accounted_committed : IsAccounted docstore store qdrant w.committed w

  -- The version of document `d` that an ingestion has started is committed.
  pub record IsStartedIn (d : Document) (w : State docstore store qdrant) : Type 0 where
    pub sound : IsSound w
    pub stored : Member d w.registry.documents
    pub known : IsIngested w.registry d.id
    pub known_committed : IsIngested w.committed d.id

  -- Nodes of `d` may come, others may go.
  module _ (d : Document) where
    pub docs-IsStartedIn :
        (w : State docstore store qdrant) (s : docstore.State)
        → ((n : Node Content)
            → Member n (docstore.nodes s)
            → Member n (docstore.nodes w.docs) ⊎ IsOf d.id n)
        → IsStartedIn d w
        → IsStartedIn d (record w { docs = s })
    docs-IsStartedIn w s new h = record {
      sound = record {
        consistent = h.sound.consistent;
        consistent_committed = h.sound.consistent_committed;
        accounted = record {
          docs = AllOf-new (IsIngested w.registry) d.id _ _ h.known new h.sound.accounted.docs;
          vectors = h.sound.accounted.vectors;
        };
        accounted_committed = record {
          docs =
              AllOf-new (IsIngested w.committed) d.id _ _ h.known_committed new
                h.sound.accounted_committed.docs;
          vectors = h.sound.accounted_committed.vectors;
        };
      };
      stored = h.stored;
      known = h.known;
      known_committed = h.known_committed;
    }

    pub vectors-IsStartedIn :
        (w : State docstore store qdrant) (s : store.client.State)
        → ((n : Node Content)
            → Member n (store.client.points s)
            → Member n (store.client.points w.vectors) ⊎ IsOf d.id n)
        → IsStartedIn d w
        → IsStartedIn d (record w { vectors = s })
    vectors-IsStartedIn w s new h = record {
      sound = record {
        consistent = h.sound.consistent;
        consistent_committed = h.sound.consistent_committed;
        accounted = record {
          docs = h.sound.accounted.docs;
          vectors =
              AllOf-new (IsIngested w.registry) d.id _ _ h.known new h.sound.accounted.vectors;
        };
        accounted_committed = record {
          docs = h.sound.accounted_committed.docs;
          vectors =
              AllOf-new (IsIngested w.committed) d.id _ _ h.known_committed new
                h.sound.accounted_committed.vectors;
        };
      };
      stored = h.stored;
      known = h.known;
      known_committed = h.known_committed;
    }

    cache-IsStartedIn :
        (w : State docstore store qdrant) (s : qdrant.State)
        → IsStartedIn d w
        → IsStartedIn d (record w { cache = s })
    cache-IsStartedIn w s h = record {
      sound = record {
        consistent = h.sound.consistent;
        consistent_committed = h.sound.consistent_committed;
        accounted = record { docs = h.sound.accounted.docs; vectors = h.sound.accounted.vectors };
        accounted_committed = record {
          docs = h.sound.accounted_committed.docs;
          vectors = h.sound.accounted_committed.vectors;
        };
      };
      stored = h.stored;
      known = h.known;
      known_committed = h.known_committed;
    }

    pub purge-IsStartedIn :
        Keeps (IsStartedIn d) (purge_existing_document_data docstore store qdrant d.id)
    purge-IsStartedIn = purge-Keeps docstore store qdrant d.id (IsStartedIn d) (record {
      docs = λ w s fewer. docs-IsStartedIn w s (λ n m. inl (fewer n m));
      vectors = λ w s fewer. vectors-IsStartedIn w s (λ n m. inl (fewer n m));
      cache = cache-IsStartedIn;
    })

    pub finalized-IsSound : (k : ℕ) → Leads (IsStartedIn d) (session (finalized d k)) IsSound
    finalized-IsSound k w h =
        let (out, e, c, docs) =
          finalize_document-IsConsistent w.registry h.sound.consistent d h.stored k in
        rw e (record {
          consistent = c;
          consistent_committed = h.sound.consistent_committed;
          accounted = record {
            docs = λ n m.
                finalize_document-IsIngested w.registry d k out e _ (h.sound.accounted.docs n m);
            vectors = λ n m.
                finalize_document-IsIngested w.registry d k out e _ (h.sound.accounted.vectors n m);
          };
          accounted_committed = record {
            docs = h.sound.accounted_committed.docs;
            vectors = h.sound.accounted_committed.vectors;
          };
        })

  -- So the purge of any document keeps the invariant.
  pub purge-IsSound : (i : ℕ) → Keeps IsSound (purge_existing_document_data docstore store qdrant i)
  purge-IsSound i = purge-Keeps docstore store qdrant i IsSound (record {
    docs = λ w s fewer h. record {
      consistent = h.consistent;
      consistent_committed = h.consistent_committed;
      accounted = record {
        docs = λ n m. h.accounted.docs n (fewer n m);
        vectors = h.accounted.vectors;
      };
      accounted_committed = record {
        docs = λ n m. h.accounted_committed.docs n (fewer n m);
        vectors = h.accounted_committed.vectors;
      };
    };
    vectors = λ w s fewer h. record {
      consistent = h.consistent;
      consistent_committed = h.consistent_committed;
      accounted = record {
        docs = h.accounted.docs;
        vectors = λ n m. h.accounted.vectors n (fewer n m);
      };
      accounted_committed = record {
        docs = h.accounted_committed.docs;
        vectors = λ n m. h.accounted_committed.vectors n (fewer n m);
      };
    };
    cache = λ w s h. record {
      consistent = h.consistent;
      consistent_committed = h.consistent_committed;
      accounted = record { docs = h.accounted.docs; vectors = h.accounted.vectors };
      accounted_committed = record {
        docs = h.accounted_committed.docs;
        vectors = h.accounted_committed.vectors;
      };
    };
  })
