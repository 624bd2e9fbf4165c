-- ===== src/Conversations.antt =====
-- models/conversation.py, core/chat/memory.py, api/v1/conversations.py and schemas/conversation.py.
-- New rows stand at the end of a table. `created_at` and `updated_at` are Postgres's `now()`, the
-- time at which the transaction started, which is an argument. Rows that `order by` does not tell
-- apart come in any order from Postgres, and so they do from `get_conversation_messages`; the history
-- of a chat and the list of conversations have them in the order of the table.
pub mod Isolation
pub mod Renaming
mod Tests
use enterprise_doc_rag.Common.{
  ◌≡◌, length, Member, ℕ, String, Bool, true, false, ◌&&◌, Option, none, some, List, [], ◌∷◌, ◌++◌,
  map, ◌==◌, string_eq, nat_eq, if◌then◌else◌, leb, any, select, update_where,
}
use enterprise_doc_rag.Common.Sorting.{sort_by, IsSorted}
use enterprise_doc_rag.Common.Text.{strip, or_none, or_blank}
use enterprise_doc_rag.Common.Result.{Result, ok, err, http, ◌>>=◌, scalar_one_or_none}
use enterprise_doc_rag.Retrieval.Filters.{SearchFilters}
use enterprise_doc_rag.Retrieval.Citations.{Citation}

pub record Conversation : Type 0 where
  pub id : ℕ
  pub tenant_id : String
  pub title : Option String
  pub created_at : ℕ
  pub updated_at : ℕ

pub record Message (Score : Type 0) : Type 0 where
  pub conversation_id : ℕ
  pub role : String
  pub content : String
  pub citations : Option (List (Citation Score))
  pub retrieval_filters : Option SearchFilters
  pub created_at : ℕ

pub record Tables (Score : Type 0) : Type 0 where
  pub conversations : List Conversation
  pub messages : List (Message Score)

-- The roles of a chat message of llama_index.
pub data MessageRole : Type 0 where
  system user assistant : MessageRole

pub record ChatMessage : Type 0 where
  pub role : MessageRole
  pub content : String

-- `_ROLE_MAP.get(role, MessageRole.USER)`
abbrev pub role_of : String → MessageRole
role_of role = if role == "user" then user else if role == "assistant" then assistant else user

abbrev pub is_own : String → ℕ → Conversation → Bool
is_own tenant i c = c.id == i && c.tenant_id == tenant

abbrev pub belongs : {Score : Type 0} → ℕ → Message Score → Bool
belongs i m = m.conversation_id == i

abbrev pub new_conversation : ℕ → ℕ → String → Conversation
new_conversation new_id now tenant = record {
  id = new_id;
  tenant_id = tenant;
  title = none;
  created_at = now;
  updated_at = now;
}

-- `citations if citations else None`
abbrev pub non_empty : {A : Type 0} → List A → Option (List A)
non_empty [] = none
non_empty (x ∷ xs) = some (x ∷ xs)

abbrev pub not_later : {Score : Type 0} → Message Score → Message Score → Bool
not_later m n = leb m.created_at n.created_at

-- `order_by(Message.created_at)`: the same rows, the older first, and rows of the same time in any
-- order.
pub record OrderBy (Score : Type 0) : Type 0 where
  pub rows : List (Message Score) → List (Message Score)
  pub length-rows : (ms : List (Message Score)) → length (rows ms) ≡ length ms
  pub Member-rows :
      (ms : List (Message Score)) (m : Message Score) → Member m ms → Member m (rows ms)
  pub Member-of_rows :
      (ms : List (Message Score)) (m : Message Score) → Member m (rows ms) → Member m ms
  pub rows-IsSorted : (ms : List (Message Score)) → IsSorted not_later (rows ms)

abbrev pub oldest_first : {Score : Type 0} → List (Message Score) → List (Message Score)
oldest_first = sort_by not_later

abbrev pub last_active_first : List Conversation → List Conversation
last_active_first = sort_by (λ c d. leb d.updated_at c.updated_at)

abbrev pub retitle : String → ℕ → Conversation → Conversation
retitle title updated_at c = record c { title = or_none title; updated_at = updated_at }

module _ {Score : Type 0} where
  create_conversation : ℕ → ℕ → String → Tables Score → Conversation × Tables Score
  create_conversation new_id now tenant t =
      let c = new_conversation new_id now tenant in
      (c, record t { conversations = t.conversations ++ (c ∷ []) })

  found_or_created :
      ℕ → ℕ → String → Tables Score → Option Conversation → Conversation × Tables Score
  found_or_created new_id now tenant t none = create_conversation new_id now tenant t
  found_or_created new_id now tenant t (some c) = (c, t)

  unfoldable pub get_or_create_conversation :
      ℕ → ℕ → String → Option ℕ → Tables Score → Result (Conversation × Tables Score)
  unfolding create_conversation found_or_created
  get_or_create_conversation new_id now tenant none t = ok (create_conversation new_id now tenant t)
  get_or_create_conversation new_id now tenant (some i) t = do
    conversation ← scalar_one_or_none (select (is_own tenant i) t.conversations)
    ok (found_or_created new_id now tenant t conversation)

  abbrev pub chat_message : Message Score → ChatMessage
  chat_message m = record { role = role_of m.role; content = m.content }

  unfoldable pub load_history : ℕ → Tables Score → List ChatMessage
  load_history i t = map chat_message (oldest_first (select (belongs i) t.messages))

  unfoldable pub append_message :
      ℕ
      → ℕ
      → String
      → String
      → List (Citation Score)
      → Option SearchFilters
      → Tables Score
      → Tables Score
  append_message now i role content citations retrieval_filters t =
      let m : Message Score = record {
        conversation_id = i;
        role = role;
        content = content;
        citations = non_empty citations;
        retrieval_filters = retrieval_filters;
        created_at = now;
      } in
      record t { messages = t.messages ++ (m ∷ []) }

  unfoldable pub list_conversations : String → Tables Score → List Conversation
  list_conversations tenant t =
      last_active_first (select (λ c. c.tenant_id == tenant) t.conversations)

  rename_found :
      String → ℕ → Option String → Tables Score → Option Conversation → Result (Tables Score)
  rename_found tenant i title t none = err (http 404)
  rename_found tenant i title t (some c) = ok (record t {
    conversations =
        update_where (is_own tenant i) (retitle (strip (or_blank title)) c.updated_at)
          t.conversations;
  })

  unfoldable pub rename_conversation :
      String → ℕ → Option String → Tables Score → Result (Tables Score)
  unfolding rename_found
  rename_conversation tenant i title t = do
    conversation ← scalar_one_or_none (select (is_own tenant i) t.conversations)
    rename_found tenant i title t conversation

  -- The join with the conversations of the tenant.
  unfoldable pub get_conversation_messages :
      OrderBy Score → String → ℕ → Tables Score → List (Message Score)
  get_conversation_messages order tenant i t = order.rows (
      select (λ m. belongs i m && any (is_own tenant m.conversation_id) t.conversations) t.messages)
