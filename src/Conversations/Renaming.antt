-- ===== src/Conversations/Renaming.antt =====
-- Renaming a conversation does not move it in the list.
use enterprise_doc_rag.Common.{
  ℕ, String, ◌≡◌, refl, sym, inl, inr, Bool, true, Option, none, some, List, [], ◌∷◌, map, ◌==◌,
  string_eq, nat_eq, if◌then◌else◌, Bool-cases, leb, select, update_where, Member, Member-of_select,
  scalar_one,
}
use enterprise_doc_rag.Common.Sorting.{sort_by, insert_by}
use enterprise_doc_rag.Common.Text.{strip, or_none, or_blank}
use enterprise_doc_rag.Common.Result.{ok, scalar_one_or_none, first_returned}
use enterprise_doc_rag.Conversations.{
  Conversation, Tables, is_own, retitle, rename_found, rename_conversation, list_conversations,
  last_active_first,
}

-- A change of a row that the order and the selection cannot see commutes with both.
module _ {A : Type 0} (g : A → A) where
  map-insert_by :
      (le : A → A → Bool) (x : A) (ys : List A)
      → ((a b : A) → le (g a) (g b) ≡ le a b)
      → insert_by le (g x) (map g ys) ≡ map g (insert_by le x ys)
  map-insert_by le x [] h = refl
  map-insert_by le x (y ∷ ys) h = elim (Bool-cases (le x y)) [
    | inl first ↦ rw (h x y, first)
    | inr later ↦ rw (h x y, later, map-insert_by le x ys h)
  ]

  map-sort_by :
      (le : A → A → Bool) (xs : List A)
      → ((a b : A) → le (g a) (g b) ≡ le a b)
      → sort_by le (map g xs) ≡ map g (sort_by le xs)
  map-sort_by le [] h = refl
  map-sort_by le (x ∷ xs) h = rw (map-sort_by le xs h, map-insert_by le x (sort_by le xs) h)

  map-select :
      (q : A → Bool) (xs : List A)
      → ((a : A) → q (g a) ≡ q a)
      → select q (map g xs) ≡ map g (select q xs)
  map-select q [] h = refl
  map-select q (x ∷ xs) h = elim (Bool-cases (q x)) [
    | inl here ↦ rw (h x, here, map-select q xs h)
    | inr gone ↦ rw (h x, gone, map-select q xs h)
  ]

  map-map :
      {B : Type 0} (k : A → B) (xs : List A)
      → ((a : A) → k (g a) ≡ k a)
      → map k (map g xs) ≡ map k xs
  map-map k [] h = refl
  map-map k (x ∷ xs) h = rw (h x, map-map k xs h)

-- The row under its new title, whatever its time.
abbrev with_title : (Conversation → Bool) → String → Conversation → Conversation
with_title p title c = record c { title = if p c then or_none title else c.title }

retitled :
    (p : Conversation → Bool) (title : String) (u : ℕ) (cs : List Conversation)
    → ((c : Conversation) → Member c cs → p c ≡ true → c.updated_at ≡ u)
    → update_where p (retitle title u) cs ≡ map (with_title p title) cs
retitled p title u [] h = refl
retitled p title u (c ∷ cs) h = elim (Bool-cases (p c)) [
  | inl here ↦
      let same : c.updated_at ≡ u = h c (inl refl) here in
      rw (here, retitled p title u cs (λ d m k. h d (inr m) k), sym same)
  | inr gone ↦ rw (gone, retitled p title u cs (λ d m k. h d (inr m) k))
]

rename_found-cases :
    {Score : Type 0} (tenant : String) (i : ℕ) (title : Option String) (t t' : Tables Score)
    (found : Option Conversation)
    → rename_found tenant i title t found ≡ ok t'
    → (c : Conversation) × (found ≡ some c)
      × (t' ≡ record t {
        conversations =
            update_where
              (is_own tenant i)
              (retitle (strip (or_blank title)) c.updated_at)
              t.conversations;
      })
unfolding rename_found
rename_found-cases tenant i title t t' none h = cc
rename_found-cases tenant i title t t' (some c) h = (c, refl, cc h)

-- A renaming that returns gives the new title to the tenant's conversation, or none if the title is
-- blank, and changes nothing else.
renamed :
    {Score : Type 0} (tenant : String) (i : ℕ) (title : Option String) (t t' : Tables Score)
    → rename_conversation tenant i title t ≡ ok t'
    → t' ≡ record t {
      conversations = map (with_title (is_own tenant i) (strip (or_blank title))) t.conversations;
    }
unfolding rename_conversation
renamed tenant i title t t' h =
    let p = is_own tenant i in
    let (found, h1, e1) = first_returned _ (scalar_one_or_none (select p t.conversations)) h in
    let (c, e2, f) = rename_found-cases tenant i title t t' found h1 in
    let e : scalar_one_or_none (select p t.conversations) ≡ ok (some c) = rw e2 at e1 in
    let same = retitled p (strip (or_blank title)) c.updated_at t.conversations (λ d m k.
      let one : d ≡ c =
        scalar_one (select p t.conversations) c d e (Member-of_select p d t.conversations m k) in
      rw one refl) in
    rw (f, same)

module _ {Score : Type 0} (tenant : String) (i : ℕ) (title : Option String) (t t' : Tables Score)
    (h : rename_conversation tenant i title t ≡ ok t') where
  -- After a renaming that returns, every tenant lists the same conversations in the same order, with
  -- the same times, and the messages are the same.
  pub rename_keeps_order :
      (who : String)
      → (map {B = ℕ × ℕ} (λ c. (c.id, c.updated_at)) (list_conversations who t')
          ≡ map {B = ℕ × ℕ} (λ c. (c.id, c.updated_at)) (list_conversations who t))
        × (t'.messages ≡ t.messages)
  unfolding list_conversations
  rename_keeps_order who =
      let g = with_title (is_own tenant i) (strip (or_blank title)) in
      let mine = λ (c : Conversation). c.tenant_id == who in
      let latest = λ (c d : Conversation). leb d.updated_at c.updated_at in
      let e = renamed tenant i title t t' h in
      (
        rw
            (
              e,
              map-select g mine t.conversations (λ c. refl),
              map-sort_by g latest (select mine t.conversations) (λ c d. refl),
            )
            (map-map g {B = ℕ × ℕ} (λ c. (c.id, c.updated_at))
              (last_active_first (select mine t.conversations)) (λ c. refl)),
        rw e refl,
      )
