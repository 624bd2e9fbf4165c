-- ===== src/Ingestion/FileHash/Tests.antt =====
-- A hasher that keeps the bytes.
use enterprise_doc_rag.Common.{ℕ, String, ◌<>◌, ◌≡◌, refl, ap, List, [], ◌∷◌, ◌++◌}
use enterprise_doc_rag.Common.Text.{decimal}
use enterprise_doc_rag.Ingestion.FileHash.{Hasher, hash_file}
use enterprise_doc_rag.Ingestion.FileHash.Whole.{hash_file_lem}

abbrev hex : List ℕ → String
hex [] = ""
hex (b ∷ bs) = decimal b <> (" " <> hex bs)

append-nil : (xs : List ℕ) → xs ++ [] ≡ xs
append-nil [] = refl
append-nil (x ∷ xs) = ap (λ ys. x ∷ ys) (append-nil xs)

append_assoc : (xs ys zs : List ℕ) → (xs ++ ys) ++ zs ≡ xs ++ (ys ++ zs)
append_assoc [] ys zs = refl
append_assoc (x ∷ xs) ys zs = ap (λ ws. x ∷ ws) (append_assoc xs ys zs)

abbrev bytes : Hasher ℕ
bytes = record {
  State = List ℕ;
  sha256 = [];
  update = λ h xs. h ++ xs;
  hexdigest = hex;
  update-nil = append-nil;
  update-append = append_assoc;
}

hash_file_lem_example : hash_file bytes (1 ∷ 20 ∷ []) ≡ "1 20 "
hash_file_lem_example = hash_file_lem bytes (1 ∷ 20 ∷ [])
