-- ===== src/Ingestion/World.antt =====
-- The stores that ingestion changes, and the steps by which it does. The session of the database sees
-- its own changes; other connections see what it has committed.
use enterprise_doc_rag.Common.{◌≡◌, refl}
use enterprise_doc_rag.Common.Result.{Result, ok, err}
use enterprise_doc_rag.Common.Io.{Io, lift, continue, continued, ◌>>=◌}
use enterprise_doc_rag.Registry.{Registry}

pub record World (DocState VectorState CacheState : Type 0) : Type 0 where
  pub registry : Registry
  pub committed : Registry
  pub docs : DocState
  pub vectors : VectorState
  pub cache : CacheState

-- A call on the session that returns nothing.
abbrev pub updating : Result Registry → Result (Unit {0} × Registry)
updating (err e) = err e
updating (ok r) = ok (tt, r)

pub updated : (call : Result Registry) (r : Registry) → updating call ≡ ok (tt, r) → call ≡ ok r
updated (err e) r h = cc
updated (ok x) r h = cc h

-- A call on the session, a commit and a rollback.
module _ {DocState VectorState CacheState : Type 0} where
  abbrev pub with_registry :
      {A : Type 0}
      → World DocState VectorState CacheState
      → Result (A × Registry)
      → Result A × World DocState VectorState CacheState
  with_registry w (err e) = (err e, w)
  with_registry w (ok (a, r)) = (ok a, record w { registry = r })

  abbrev pub session :
      {A : Type 0}
      → (Registry → Result (A × Registry))
      → Io (World DocState VectorState CacheState) A
  session call w = with_registry w (call w.registry)

  abbrev pub query :
      {A : Type 0} → (Registry → Result A) → Io (World DocState VectorState CacheState) A
  query call w = (call w.registry, w)

  abbrev pub commit : Io (World DocState VectorState CacheState) (Unit {0})
  commit w = (ok tt, record w { committed = w.registry })

  abbrev pub rollback : Io (World DocState VectorState CacheState) (Unit {0})
  rollback w = (ok tt, record w { registry = w.committed })

  -- A new session sees what has been committed.
  abbrev pub begin : Io (World DocState VectorState CacheState) (Unit {0})
  begin w = (ok tt, record w { registry = w.committed })

  abbrev pub on_docs :
      (DocState → Result (Unit {0}) × DocState)
      → Io (World DocState VectorState CacheState) (Unit {0})
  on_docs call w = let (r, s) = call w.docs in (r, record w { docs = s })

  abbrev pub on_vectors :
      (VectorState → Result (Unit {0}) × VectorState)
      → Io (World DocState VectorState CacheState) (Unit {0})
  on_vectors call w = let (r, s) = call w.vectors in (r, record w { vectors = s })

  abbrev pub on_cache :
      (CacheState → CacheState) → Io (World DocState VectorState CacheState) (Unit {0})
  on_cache call w = (ok tt, record w { cache = call w.cache })

-- What a sequence that returned has done in its first step.
module _ {DocState VectorState CacheState B : Type 0} (w w' : World DocState VectorState CacheState)
    (b : B) where
  pub docs_first :
      (call : DocState → Result (Unit {0}) × DocState)
      (rest : Unit {0} → Io (World DocState VectorState CacheState) B)
      → (on_docs call >>= rest) w ≡ (ok b, w')
      → ((call w.docs).0 ≡ ok tt) × (rest tt (record w { docs = (call w.docs).1 }) ≡ (ok b, w'))
  docs_first call rest h =
      let (u, e, f) = continued rest (call w.docs).0 (record w { docs = (call w.docs).1 }) w' b h in
      (e, f)

  pub vectors_first :
      (call : VectorState → Result (Unit {0}) × VectorState)
      (rest : Unit {0} → Io (World DocState VectorState CacheState) B)
      → (on_vectors call >>= rest) w ≡ (ok b, w')
      → ((call w.vectors).0 ≡ ok tt)
        × (rest tt (record w { vectors = (call w.vectors).1 }) ≡ (ok b, w'))
  vectors_first call rest h =
      let (u, e, f) =
        continued rest (call w.vectors).0 (record w { vectors = (call w.vectors).1 }) w' b h in
      (e, f)

  pub lift_first :
      {A : Type 0} (r : Result A) (rest : A → Io (World DocState VectorState CacheState) B)
      → (lift r >>= rest) w ≡ (ok b, w')
      → (a : A) × (r ≡ ok a) × (rest a w ≡ (ok b, w'))
  lift_first r rest h = continued rest r w w' b h

  pub session_first :
      {A : Type 0} (rest : A → Io (World DocState VectorState CacheState) B)
      (call : Result (A × Registry))
      → continue rest (with_registry w call) ≡ (ok b, w')
      → (a : A) × (r : Registry) × (call ≡ ok (a, r))
        × (rest a (record w { registry = r }) ≡ (ok b, w'))
  session_first rest (err e) h = cc
  session_first rest (ok (a, r)) h = (a, r, refl, h)
