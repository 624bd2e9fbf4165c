-- ===== src/Retrieval/Dedup/Kept.antt =====
-- Which sentences are kept.
use enterprise_doc_rag.Common.{
  ◌≤◌, String, ◌≡◌, refl, inl, inr, Bool, true, false, ◌||◌, List, [], ◌∷◌, arith, map, ◌==◌,
  string_eq, if◌then◌else◌, Bool-cases, contains, count_by, Member,
}
use enterprise_doc_rag.Common.Text.{is_blank, strip}
use enterprise_doc_rag.Retrieval.Dedup.{split, is_dropped, kept_from, kept_sentences}

module _ (lower : String → String) where
  abbrev pub has_lower : String → String → Bool
  has_lower k s = lower s == k

  count_by-kept_from :
      (seen sentences : List String) (k : String)
      → count_by (has_lower k) (kept_from lower seen sentences) ≤ (if contains seen k then 0 else 1)
  count_by-kept_from seen [] k = omega arith
  count_by-kept_from seen (s ∷ ss) k = elim (Bool-cases (is_dropped lower seen (strip s))) [
    | inl gone ↦ rw gone (count_by-kept_from seen ss k)
    | inr here ↦ rw here (ground (arith, count_by-kept_from (lower (strip s) ∷ seen) ss k))
  ]

  contains-kept_from :
      (seen sentences : List String) (p : String)
      → Member p sentences
      → is_blank (strip p) ≡ false
      → (contains seen (lower (strip p))
          || contains (map lower (kept_from lower seen sentences)) (lower (strip p)))
        ≡ true
  contains-kept_from seen [] p m h = elim m [ ]
  contains-kept_from seen (s ∷ ss) p (inl e) h =
      elim (Bool-cases (is_dropped lower seen (strip s))) [
        | inl gone ↦ rw gone (ground (arith, rw e at h))
        | inr here ↦ rw here (ground arith)
      ]
  contains-kept_from seen (s ∷ ss) p (inr m) h =
      elim (Bool-cases (is_dropped lower seen (strip s))) [
        | inl gone ↦ rw gone (contains-kept_from seen ss p m h)
        | inr here ↦ rw here (ground (arith, contains-kept_from (lower (strip s) ∷ seen) ss p m h))
      ]

  Member-kept_from :
      (seen sentences : List String) (s : String)
      → Member s (kept_from lower seen sentences)
      → (p : String) × Member p sentences × (s ≡ strip p) × (is_blank s ≡ false)
  Member-kept_from seen [] s m = elim m [ ]
  Member-kept_from seen (p ∷ ps) s m = elim (Bool-cases (is_dropped lower seen (strip p))) [
    | inl gone ↦
        let m' : Member s (kept_from lower seen ps) = rw gone at m in
        let (q, n, e, h) = Member-kept_from seen ps s m' in (q, inr n, e, h)
    | inr here ↦
        let m' : Member s (strip p ∷ kept_from lower (lower (strip p) ∷ seen) ps) = rw here at m in
        elim m' [
          | inl e ↦ (p, inl refl, e, rw e (ground arith))
          | inr n ↦
              let (q, k, e, h) = Member-kept_from (lower (strip p) ∷ seen) ps s n in
              (q, inr k, e, h)
        ]
  ]

  -- Of the kept sentences no two are the same up to case; every piece of the text that is not blank
  -- is among them up to case and outer white space; and each is such a piece, stripped.
  pub kept_sentences_lem :
      (text : String)
      → ((k : String) → count_by (has_lower k) (kept_sentences lower text) ≤ 1)
        × ((p : String)
            → Member p (split text)
            → is_blank (strip p) ≡ false
            → contains (map lower (kept_sentences lower text)) (lower (strip p)) ≡ true)
        × ((s : String)
            → Member s (kept_sentences lower text)
            → (p : String) × Member p (split text) × (s ≡ strip p) × (is_blank s ≡ false))
  unfolding kept_sentences
  kept_sentences_lem text = (
    λ k. count_by-kept_from [] (split text) k,
    λ p m h. contains-kept_from [] (split text) p m h,
    λ s m. Member-kept_from [] (split text) s m,
  )
