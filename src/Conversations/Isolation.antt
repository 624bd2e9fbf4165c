-- ===== src/Conversations/Isolation.antt =====
-- A tenant reaches its own conversations only.
use enterprise_doc_rag.Common.{
  length, ℕ, ◌≤◌, String, ◌≡◌, refl, ◌⊎◌, inl, inr, Option, none, some, List, [], ◌∷◌, ◌++◌, arith,
  ◌==◌, string_eq, nat_eq, count_by, Member, scalar-Member,
}
use enterprise_doc_rag.Common.Result.{ok}
use enterprise_doc_rag.Conversations.{
  Conversation, Message, Tables, is_own, new_conversation, get_or_create_conversation,
  found_or_created, create_conversation, not_later,
}
use enterprise_doc_rag.Common.Sorting.{IsSorted}

count_by-is_own :
    (tenant : String) (i : ℕ) (cs : List Conversation)
    → count_by (is_own tenant i) cs ≤ count_by (λ c. c.id == i) cs
count_by-is_own tenant i [] = omega arith
count_by-is_own tenant i (c ∷ cs) = ground (arith, count_by-is_own tenant i cs)

module _ {Score : Type 0} where
  -- Ids of conversations are unique.
  abbrev pub HasUniqueIds : Tables Score → Type 0
  HasUniqueIds t = (i : ℕ) → count_by (λ c. c.id == i) t.conversations ≤ 1

  -- `get_or_create_conversation` never raises. What it returns belongs to the tenant: it is the
  -- tenant's own conversation with the requested id, and nothing is changed, or a new one, and the
  -- others stay as they are.
  pub get_or_create_conversation-cases :
      (new_id now : ℕ) (tenant : String) (requested : Option ℕ) (t : Tables Score)
      → HasUniqueIds t
      → (c : Conversation) × (t' : Tables Score) × (get_or_create_conversation new_id now tenant
            requested t
          ≡ ok (c, t'))
        × (c.tenant_id ≡ tenant)
        × (t'.messages ≡ t.messages)
        × ((Member c t.conversations × (requested ≡ some c.id) × (t' ≡ t))
            ⊎ ((c ≡ new_conversation new_id now tenant)
                × (t'.conversations ≡ t.conversations ++ (c ∷ []))))
  unfolding get_or_create_conversation found_or_created create_conversation
  get_or_create_conversation-cases new_id now tenant none t u = (
    new_conversation new_id now tenant,
    record t { conversations = t.conversations ++ (new_conversation new_id now tenant ∷ []) },
    refl,
    refl,
    refl,
    inr (refl, refl),
  )
  get_or_create_conversation-cases new_id now tenant (some i) t u =
      elim (scalar-Member (is_own tenant i) t.conversations
        (omega (arith, u i, count_by-is_own tenant i t.conversations))) [
          | inl (e, z) ↦ (
            new_conversation new_id now tenant,
            record t {
              conversations = t.conversations ++ (new_conversation new_id now tenant ∷ []);
            },
            rw e refl,
            refl,
            refl,
            inr (refl, refl),
          )
          | inr (c, e, m, h) ↦
              let same : c.id ≡ i = ground arith in
              (c, t, rw e refl, ground arith, refl, inl (m, rw same refl, refl))
        ]

  -- The conversation `i` is one of the tenant.
  pub record IsOwned (tenant : String) (i : ℕ) (t : Tables Score) : Type 0 where
    pub conversation : Conversation
    pub stored : Member conversation t.conversations
    pub has_id : conversation.id ≡ i
    pub has_tenant : conversation.tenant_id ≡ tenant

  pub record IsTranscript (tenant : String) (i : ℕ) (t : Tables Score)
      (messages : List (Message Score)) : Type 0 where
    pub own : (m : Message Score) → Member m messages → IsOwned tenant i t
    pub stored :
        (m : Message Score) → Member m messages → Member m t.messages × (m.conversation_id ≡ i)
    pub complete :
        IsOwned tenant i t
        → (m : Message Score) → Member m t.messages
        → m.conversation_id ≡ i
        → Member m messages
    pub number :
        IsOwned tenant i t → length messages ≡ count_by (λ m. m.conversation_id == i) t.messages
    pub oldest : IsSorted not_later messages
