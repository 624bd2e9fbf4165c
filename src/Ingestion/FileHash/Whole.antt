-- ===== src/Ingestion/FileHash/Whole.antt =====
-- Reading in pieces does not change the hash.
use enterprise_doc_rag.Common.{
  ℕ, zero, suc, ◌+◌, ◌<◌, ◌≡◌, refl, sym, ap, ◌∙◌, List, [], ◌∷◌, ◌++◌, arith, length,
}
use enterprise_doc_rag.Ingestion.FileHash.{Hasher, read, hash_chunks, hash_file}

-- A chunk and what is left make up the file, and an empty chunk means that nothing is left.
read-append : {A : Type 0} (n : ℕ) (file : List A) → (read n file).0 ++ (read n file).1 ≡ file
read-append zero file = refl
read-append (suc n) [] = refl
read-append (suc n) (byte ∷ file) = ap (λ xs. byte ∷ xs) (read-append n file)

length-read :
    {A : Type 0} (n : ℕ) (file : List A)
    → length (read n file).0 + length (read n file).1 ≡ length file
length-read zero file = omega arith
length-read (suc n) [] = omega arith
length-read (suc n) (byte ∷ file) = omega (arith, length-read n file)

module _ {Byte : Type 0} (hasher : Hasher Byte) where
  hash_chunks_whole :
      (fuel n : ℕ) (file : List Byte) (h : hasher.State)
      → length file < fuel
      → hash_chunks hasher fuel (suc n) file h ≡ hasher.update h file
  hash_chunks_whole zero n file h enough = absurd (omega arith)
  hash_chunks_whole (suc fuel) n [] h enough = sym (hasher.update-nil h)
  hash_chunks_whole (suc fuel) n (byte ∷ file) h enough =
      let rest = (read n file).1 in
      let chunk = byte ∷ (read n file).0 in
      hash_chunks_whole fuel n rest (hasher.update h chunk) (omega (arith, length-read n file))
      ∙ (hasher.update-append h chunk rest
          ∙ ap (λ xs. hasher.update h (byte ∷ xs)) (read-append n file))

  -- The loop ends with the file, and the hash is the one of its whole content, read at once.
  pub hash_file_lem :
      (file : List Byte)
      → hash_file hasher file ≡ hasher.hexdigest (hasher.update hasher.sha256 file)
  unfolding hash_file
  hash_file_lem file =
      ap hasher.hexdigest
        (hash_chunks_whole (suc (length file)) 65535 file hasher.sha256 (omega arith))
