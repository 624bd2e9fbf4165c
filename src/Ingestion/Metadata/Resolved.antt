-- ===== src/Ingestion/Metadata/Resolved.antt =====
-- Folders and manifest together.
use enterprise_doc_rag.Common.{String, ◌≡◌, refl, ap, List, [], ◌∷◌, ◌++◌, string_eq}
use enterprise_doc_rag.Common.Text.{join}
use enterprise_doc_rag.Ingestion.Metadata.{Manifest, override_of, folders, resolve}

folders-append : (xs : List String) (name : String) → folders (xs ++ (name ∷ [])) ≡ xs
folders-append [] name = refl
folders-append (x ∷ []) name = refl
folders-append (x ∷ y ∷ xs) name = ap (λ ys. x ∷ ys) (folders-append (y ∷ xs) name)

-- Two files of one folder get the same metadata, except for what the manifest gives to one of them
-- by its path.
pub resolve_folder :
    (manifest : Manifest) (folder : List String) (name other : String)
    → override_of (join "/" (folder ++ (name ∷ []))) manifest
      ≡ override_of (join "/" (folder ++ (other ∷ []))) manifest
    → resolve manifest (folder ++ (name ∷ [])) ≡ resolve manifest (folder ++ (other ∷ []))
unfolding resolve
resolve_folder manifest folder name other h =
    rw (folders-append folder name, folders-append folder other, h) refl
