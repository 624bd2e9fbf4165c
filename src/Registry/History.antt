-- ===== src/Registry/History.antt =====
-- The version rows of one document: an unbroken history, of which only the current row is open.
use mathlib.Core.Path.{subst, sym, ◌∙◌}
use enterprise_doc_rag.Common.{
  ℕ, ◌+◌, ◌≤◌, ◌<◌, ◌≡◌, refl, ◌≢◌, ◌⊎◌, inl, inr, Bool, true, false, ◌&&◌, Option, none, some,
  List, [], ◌∷◌, arith, dec_lt, nat_eq, count_by, update_where, count_by-update_where,
}
use enterprise_doc_rag.Registry.{DocumentVersion, is_row, supersede}

abbrev pub is_open : Option ℕ → Bool
is_open none = true
is_open (some t) = false

abbrev pub is_open_row : ℕ → ℕ → DocumentVersion → Bool
is_open_row i n v = is_row i n v && is_open v.superseded_at

abbrev pub rows : ℕ → ℕ → List DocumentVersion → ℕ
rows i n vs = count_by (is_row i n) vs

abbrev pub open_rows : ℕ → ℕ → List DocumentVersion → ℕ
open_rows i n vs = count_by (is_open_row i n) vs

-- Document `i` at version `cv`: each earlier version has one row, which is superseded; the current
-- version has at most one row, which is not; no other version has a row.
pub record History (i cv : ℕ) (vs : List DocumentVersion) : Type 0 where
  pub positive : 1 ≤ cv
  pub past_row : (n : ℕ) → 1 ≤ n → n < cv → rows i n vs ≡ 1
  pub past_closed : (n : ℕ) → n < cv → open_rows i n vs ≡ 0
  pub current_row : rows i cv vs ≤ 1
  pub current_open : open_rows i cv vs ≡ rows i cv vs
  pub no_zero : rows i 0 vs ≡ 0
  pub no_future : (n : ℕ) → cv < n → rows i n vs ≡ 0

pub open_rows-le-rows : (i n : ℕ) (vs : List DocumentVersion) → open_rows i n vs ≤ rows i n vs
open_rows-le-rows i n [] = omega arith
open_rows-le-rows i n (v ∷ vs) = ground (arith, open_rows-le-rows i n vs)

-- Closing the rows of one version leaves every row in place,
pub rows-supersede :
    (i n j m now : ℕ) (vs : List DocumentVersion)
    → rows i n (update_where (is_row j m) (supersede now) vs) ≡ rows i n vs
rows-supersede i n j m now vs = count_by-update_where _ _ _ vs (λ v h. refl)

-- and closes the rows of that version alone.
pub open_rows-supersede_self :
    (i n now : ℕ) (vs : List DocumentVersion)
    → open_rows i n (update_where (is_row i n) (supersede now) vs) ≡ 0
open_rows-supersede_self i n now [] = refl
open_rows-supersede_self i n now (v ∷ vs) = ground (arith, open_rows-supersede_self i n now vs)

pub open_rows-supersede_ne :
    (i n j m now : ℕ) (vs : List DocumentVersion)
    → (i ≢ j) ⊎ (n ≢ m)
    → open_rows i n (update_where (is_row j m) (supersede now) vs) ≡ open_rows i n vs
open_rows-supersede_ne i n j m now [] h = refl
open_rows-supersede_ne i n j m now (v ∷ vs) h =
    ground (arith, open_rows-supersede_ne i n j m now vs h)

-- A document whose id no row names, at its first version.
pub History-first :
    (i : ℕ) (v : DocumentVersion) (vs : List DocumentVersion)
    → ((n : ℕ) → rows i n vs ≡ 0)
    → v.document_id ≡ i
    → v.version ≡ 1
    → v.superseded_at ≡ none
    → History i 1 (v ∷ vs)
History-first i v vs fresh e f g = record {
  positive = omega arith;
  past_row = λ n a b. absurd (omega arith);
  past_closed = λ n b. ground (arith, fresh n, open_rows-le-rows i n vs);
  current_row = ground (arith, fresh 1);
  current_open = ground (arith, fresh 1, open_rows-le-rows i 1 vs);
  no_zero = ground (arith, fresh 0);
  no_future = λ n b. ground (arith, fresh n);
}

-- A registered upload: a document that has no version row yet.
pub History-queued :
    (i : ℕ) (vs : List DocumentVersion) → ((n : ℕ) → rows i n vs ≡ 0) → History i 1 vs
History-queued i vs fresh = record {
  positive = omega arith;
  past_row = λ n a b. absurd (omega arith);
  past_closed = λ n b. omega (arith, fresh n, open_rows-le-rows i n vs);
  current_row = omega (arith, fresh 1);
  current_open = omega (arith, fresh 1, open_rows-le-rows i 1 vs);
  no_zero = fresh 0;
  no_future = λ n b. fresh n;
}

module _ (i cv : ℕ) (vs : List DocumentVersion) (h : History i cv vs) where
  pub History-other : (v : DocumentVersion) → v.document_id ≢ i → History i cv (v ∷ vs)
  History-other v ne = record {
    positive = h.positive;
    past_row = λ n a b. ground (arith, h.past_row n a b);
    past_closed = λ n b. ground (arith, h.past_closed n b);
    current_row = ground (arith, h.current_row);
    current_open = ground (arith, h.current_open);
    no_zero = ground (arith, h.no_zero);
    no_future = λ n b. ground (arith, h.no_future n b);
  }

  pub History-supersede_other :
      (j m now : ℕ) → i ≢ j → History i cv (update_where (is_row j m) (supersede now) vs)
  History-supersede_other j m now ne = record {
    positive = h.positive;
    past_row = λ n a b. rw rows-supersede (h.past_row n a b);
    past_closed = λ n b. rw (open_rows-supersede_ne i n j m now vs (inl ne)) (h.past_closed n b);
    current_row = rw rows-supersede h.current_row;
    current_open =
        rw (rows-supersede i cv j m now vs, open_rows-supersede_ne i cv j m now vs (inl ne))
          h.current_open;
    no_zero = rw rows-supersede h.no_zero;
    no_future = λ n b. rw rows-supersede (h.no_future n b);
  }

  -- The missing row of the current version is filled in.
  pub History-fill :
      (v : DocumentVersion)
      → v.document_id ≡ i
      → v.version ≡ cv
      → v.superseded_at ≡ none
      → rows i cv vs ≡ 0
      → History i cv (v ∷ vs)
  History-fill v e f g missing = record {
    positive = h.positive;
    past_row = λ n a b. ground (arith, h.past_row n a b);
    past_closed = λ n b. ground (arith, h.past_closed n b);
    current_row = ground arith;
    current_open = ground (arith, h.current_open);
    no_zero = ground (arith, h.no_zero, h.positive);
    no_future = λ n b. ground (arith, h.no_future n b);
  }

  -- The current row is closed and the next version opened.
  pub History-next :
      (v : DocumentVersion) (now : ℕ)
      → v.document_id ≡ i
      → v.version ≡ cv + 1
      → v.superseded_at ≡ none
      → rows i cv vs ≡ 1
      → History i (cv + 1) (v ∷ update_where (is_row i cv) (supersede now) vs)
  History-next v now e f g found = record {
    positive = omega arith;
    past_row = λ n a b. elim (dec_lt n cv) [
      | yes p ↦ ground (arith, rows-supersede i n i cv now vs, h.past_row n a p)
      | no p ↦
          let last : n ≡ cv = omega arith in
          let one : rows i n vs ≡ 1 = rw last found in
          ground (arith, rows-supersede i n i cv now vs)
    ];
    past_closed = λ n b. elim (dec_lt n cv) [
      | yes p ↦
          let closed : open_rows i n (update_where (is_row i cv) (supersede now) vs) ≡ 0 =
            rw (open_rows-supersede_ne i n i cv now vs (inr (omega arith))) (h.past_closed n p) in
          ground arith
      | no p ↦
          let last : n ≡ cv = omega arith in
          let closed : open_rows i n (update_where (is_row i cv) (supersede now) vs) ≡ 0 =
            subst (λ k. open_rows i k (update_where (is_row i cv) (supersede now) vs) ≡ 0)
              (sym last) (open_rows-supersede_self i cv now vs) in
          ground arith
    ];
    current_row =
        ground (arith, rows-supersede i (cv + 1) i cv now vs, h.no_future (cv + 1) (omega arith));
    current_open =
        let closed : open_rows i (cv + 1) (update_where (is_row i cv) (supersede now) vs) ≡ 0 =
          rw (open_rows-supersede_ne i (cv + 1) i cv now vs (inr (omega arith)))
            (omega (arith, open_rows-le-rows i (cv + 1) vs, h.no_future (cv + 1) (omega arith))) in
        ground (arith, rows-supersede i (cv + 1) i cv now vs, h.no_future (cv + 1) (omega arith));
    no_zero = ground (arith, rows-supersede i 0 i cv now vs, h.no_zero);
    no_future = λ n b. ground (arith, rows-supersede i n i cv now vs, h.no_future n (omega arith));
  }

-- Rows that hold the same versions, as open, have the same history.
pub History-same :
    (i cv : ℕ) (vs ws : List DocumentVersion)
    → ((n : ℕ) → rows i n ws ≡ rows i n vs)
    → ((n : ℕ) → open_rows i n ws ≡ open_rows i n vs)
    → History i cv vs
    → History i cv ws
History-same i cv vs ws same same_open h = record {
  positive = h.positive;
  past_row = λ n a b. same n ∙ h.past_row n a b;
  past_closed = λ n b. same_open n ∙ h.past_closed n b;
  current_row = omega (arith, same cv, h.current_row);
  current_open = same_open cv ∙ h.current_open ∙ sym (same cv);
  no_zero = same 0 ∙ h.no_zero;
  no_future = λ n b. same n ∙ h.no_future n b;
}
