-- ===== src/Ingestion/FileHash.antt =====
-- ingestion/file_hash.py: the hash of a file's content, which is read in pieces. A file is the list
-- of its bytes, and `sha256` is a hasher: `update` extends the bytes that it has seen.
pub mod Whole
mod Tests
use enterprise_doc_rag.Common.{ℕ, zero, suc, String, ◌≡◌, List, [], ◌∷◌, ◌++◌, length}

pub record Hasher (Byte : Type 0) : Type 1 where
  pub State : Type 0
  pub sha256 : State
  pub update : State → List Byte → State
  pub hexdigest : State → String
  pub update-nil : (h : State) → update h [] ≡ h
  -- Two updates are one with the concatenation, as hashlib documents it.
  pub update-append :
      (h : State) (xs ys : List Byte) → update (update h xs) ys ≡ update h (xs ++ ys)

abbrev pub chunk_size : ℕ
chunk_size = 65536

-- `f.read(n)`: what it returns, and what is left to read.
abbrev pub read {ℓ} : {A : Type ℓ} → ℕ → List A → List A × List A
read zero file = ([], file)
read (suc n) [] = ([], [])
read (suc n) (byte ∷ file) = let (chunk, rest) = read n file in (byte ∷ chunk, rest)

module _ {Byte : Type 0} (hasher : Hasher Byte) where
  abbrev pub update_chunk :
      (List Byte → hasher.State → hasher.State)
      → hasher.State
      → List Byte × List Byte
      → hasher.State
  update_chunk next h ([], rest) = h
  update_chunk next h (byte ∷ chunk, rest) = next rest (hasher.update h (byte ∷ chunk))

  -- The loop over the chunks, until one is empty.
  abbrev pub hash_chunks : ℕ → ℕ → List Byte → hasher.State → hasher.State
  hash_chunks zero size file h = h
  hash_chunks (suc fuel) size file h = update_chunk (hash_chunks fuel size) h (read size file)

  -- Each chunk but the last takes a byte of the file at least, so that its length is fuel enough.
  unfoldable pub hash_file : List Byte → String
  hash_file file = hasher.hexdigest (hash_chunks (suc (length file)) chunk_size file hasher.sha256)
