-- ===== src/Chat/Requests/Spared.antt =====
-- A chat speaks in a conversation of its tenant, and spares all others.
use enterprise_doc_rag.Common.{ℕ, ◌≡◌, ◌≢◌, some, List, ◌∷◌, ◌==◌, string_eq, nat_eq, select}
use enterprise_doc_rag.Common.Result.{Result, Error}
use enterprise_doc_rag.Chat.{Event, conversation, ChatState}
use enterprise_doc_rag.Chat.Requests.{Streamed}

module _ {Score : Type 0} where
  -- What a stream leaves of the other conversations, and if it is interrupted of the messages.
  pub record Spares {CacheState : Type 0} (i : ℕ) (s : ChatState Score CacheState)
      (r : Streamed Score CacheState) : Type 0 where
    pub events : (rest : List (Event Score)) × (r.events ≡ conversation i ∷ rest)
    pub others :
        (j : ℕ)
        → i ≢ j
        → select (λ m. m.conversation_id == j) r.state.tables.messages
          ≡ select (λ m. m.conversation_id == j) s.tables.messages
    pub on_failure : (e : Error) → r.raised ≡ some e → r.state.tables.messages ≡ s.tables.messages
