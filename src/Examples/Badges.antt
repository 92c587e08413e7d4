-- ===== src/Examples/Badges.antt =====
-- The badges of a provider with one approved licence.
use fixitph_backend.Prelude.{none, some, List, [], ◌∷◌, any, ◌≡◌}
use fixitph_backend.Schema.{VerificationStatus}
use fixitph_backend.Verification.Badges.{
  Document, DocumentType, ProviderType, VerificationInput, VerificationBadge,
  approvals_from_documents, summarise_verification, documents_still_needed,
}
use fixitph_backend.Verification.Evidence.{
  is_empty, is_evidence, IsEarliest, documents_still_needed-complete,
  approvals_from_documents-is_evidence, approvals_from_documents-IsEarliest,
}

abbrev documents : List Document
documents =
    (record {
      document_type = DocumentType.prc_license;
      status = VerificationStatus.approved;
      reviewed_at = some 500;
      expires_at = some 9000;
    })
    ∷ (record {
      document_type = DocumentType.business_permit;
      status = VerificationStatus.rejected;
      reviewed_at = some 600;
      expires_at = none;
    })
    ∷ []

abbrev input : VerificationInput
input = record {
  provider_type = ProviderType.individual;
  email_verified_at = some 100;
  approvals = approvals_from_documents 1000 documents;
}

documents_still_needed-complete_example :
    is_empty (documents_still_needed ProviderType.individual (summarise_verification input))
    ≡ (summarise_verification input).complete
documents_still_needed-complete_example = documents_still_needed-complete input

approvals_from_documents-is_evidence_example :
    ((approvals_from_documents 1000 documents).identity_verified
      ≡ any (is_evidence VerificationBadge.identity 1000) documents)
    × ((approvals_from_documents 1000 documents).business_verified
        ≡ any (is_evidence VerificationBadge.business 1000) documents)
approvals_from_documents-is_evidence_example = approvals_from_documents-is_evidence 1000 documents

approvals_from_documents-IsEarliest_example :
    IsEarliest VerificationBadge.identity 1000 documents
      (approvals_from_documents 1000 documents).identity_verified_at
    × IsEarliest VerificationBadge.business 1000 documents
        (approvals_from_documents 1000 documents).business_verified_at
approvals_from_documents-IsEarliest_example = approvals_from_documents-IsEarliest 1000 documents
