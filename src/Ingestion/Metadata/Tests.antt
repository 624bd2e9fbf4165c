-- ===== src/Ingestion/Metadata/Tests.antt =====
-- A handbook and a contract, and a manifest that tags the handbook.
use enterprise_doc_rag.Common.{◌≡◌, refl, none, some, [], ◌∷◌, string_eq}
use enterprise_doc_rag.Ingestion.Metadata.{Manifest, no_override, resolve}

abbrev manifest : Manifest
manifest =
    (
      "acme/engineering/policies/handbook.pdf",
      record no_override { tags = some ("hr" ∷ []); department = some none },
    )
    ∷ []

overridden_run :
    resolve manifest ("acme" ∷ "engineering" ∷ "policies" ∷ "handbook.pdf" ∷ [])
    ≡ record { tenant_id = "acme"; department = none; doc_type = some "policies"; tags = "hr" ∷ [] }
unfolding resolve string_eq
overridden_run = refl

default_run :
    resolve manifest ("handbook.pdf" ∷ [])
    ≡ record { tenant_id = "default"; department = none; doc_type = none; tags = [] }
unfolding resolve string_eq
default_run = refl
