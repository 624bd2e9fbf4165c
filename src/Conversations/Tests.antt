-- ===== src/Conversations/Tests.antt =====
-- Two tenants with a conversation each.
use enterprise_doc_rag.Common.{
  ℕ, ◌≡◌, refl, ◌⊎◌, String, Option, none, some, [], ◌∷◌, ◌++◌, arith, map, string_eq, nat_eq,
  Member,
}
use enterprise_doc_rag.Common.Text.{is_space}
use enterprise_doc_rag.Common.Result.{ok}
use enterprise_doc_rag.Conversations.{
  Conversation, Message, Tables, new_conversation, get_or_create_conversation, rename_conversation,
  list_conversations, get_conversation_messages, OrderBy, not_later,
}
use enterprise_doc_rag.Conversations.Isolation.{get_or_create_conversation-cases}
use enterprise_doc_rag.Common.Sorting.{
  sort_by, length-sort_by, Member-sort_by, Member-of_sort_by, IsSorted-sort_by,
}
use enterprise_doc_rag.Conversations.Renaming.{rename_keeps_order}

abbrev conversation : ℕ → String → Option String → Conversation
conversation i tenant title = record {
  id = i;
  tenant_id = tenant;
  title = title;
  created_at = i;
  updated_at = i;
}

abbrev message : ℕ → String → String → Message ℕ
message i role content = record {
  conversation_id = i;
  role = role;
  content = content;
  citations = none;
  retrieval_filters = none;
  created_at = 5;
}

abbrev tables : Option String → Tables ℕ
tables title = record {
  conversations = conversation 1 "acme" title ∷ conversation 2 "globex" none ∷ [];
  messages = message 1 "user" "Hi" ∷ message 2 "user" "Secret" ∷ message 1 "assistant" "Hello" ∷ [];
}

rename_run :
    rename_conversation "acme" 1 (some " Leave ") (tables none) ≡ ok (tables (some "Leave"))
unfolding rename_conversation string_eq nat_eq is_space
rename_run = refl

blank_run : rename_conversation "acme" 1 (some "  ") (tables (some "Leave")) ≡ ok (tables none)
unfolding rename_conversation string_eq nat_eq is_space
blank_run = refl

rename_keeps_order_example :
    (map {B = ℕ × ℕ}
        (λ c. (c.id, c.updated_at))
        (list_conversations "globex" (tables (some "Leave")))
      ≡ map {B = ℕ × ℕ} (λ c. (c.id, c.updated_at)) (list_conversations "globex" (tables none)))
    × ((tables (some "Leave")).messages ≡ (tables none).messages)
rename_keeps_order_example =
    rename_keeps_order "acme" 1 (some " Leave ") (tables none) (tables (some "Leave")) rename_run
      "globex"

get_or_create_conversation-cases_example :
    (c : Conversation) × (t' : Tables ℕ) × (get_or_create_conversation 3 9 "acme"
        (some 2)
        (tables none)
      ≡ ok (c, t'))
    × (c.tenant_id ≡ "acme")
    × (t'.messages ≡ (tables none).messages)
    × ((Member c (tables none).conversations × (some 2 ≡ some c.id) × (t' ≡ tables none))
        ⊎ ((c ≡ new_conversation 3 9 "acme")
            × (t'.conversations ≡ (tables none).conversations ++ (c ∷ []))))
get_or_create_conversation-cases_example =
    get_or_create_conversation-cases 3 9 "acme" (some 2) (tables none) (λ i. ground arith)

-- A stable sort.
abbrev stable : OrderBy ℕ
stable = record {
  rows = sort_by not_later;
  length-rows = length-sort_by not_later;
  Member-rows = λ ms m k. Member-sort_by not_later m ms k;
  Member-of_rows = λ ms m k. Member-of_sort_by not_later m ms k;
  rows-IsSorted =
      IsSorted-sort_by not_later (λ m n h. ground (arith, h)) (λ m n o h k. ground (arith, h, k));
}

messages_run :
    (get_conversation_messages stable "acme" 1 (tables none)
      ≡ message 1 "user" "Hi" ∷ message 1 "assistant" "Hello" ∷ [])
    × (get_conversation_messages stable "acme" 2 (tables none) ≡ [])
unfolding get_conversation_messages string_eq nat_eq
messages_run = (refl, refl)
