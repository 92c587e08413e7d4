-- ===== src/Verification/Evidence.antt =====
-- The functions of providers/verification.ts against the documents they go by.
use fixitph_backend.Prelude.{
  ℕ, Bool, true, false, Option, none, some, List, [], ◌∷◌, ◌&&◌, ◌||◌, not, leb, ltb, any, all,
  all_mono, is_none, same_number, ap, subst, ◌∙◌, ◌⊎◌, inl, inr, Bool-cases, filter_by, ◌≡◌, refl,
  arith,
}
use fixitph_backend.Schema.{VerificationStatus}
use fixitph_backend.Verification.Badges.{
  Document, DocumentType, VerificationBadge, VerificationInput, is_identity_document,
  is_business_document, is_live, has, approvals_from_documents, summarise_verification,
  wanted_badges, badges_of, details, documents_still_needed, earliest, sooner,
}

abbrev pub is_empty : List VerificationBadge → Bool
is_empty [] = true
is_empty (b ∷ bs) = false

-- The checklist of a provider is empty just when every check of its trading type is passed.
pub documents_still_needed-complete :
    (input : VerificationInput)
    → is_empty (documents_still_needed input.provider_type (summarise_verification input))
      ≡ (summarise_verification input).complete
unfolding documents_still_needed summarise_verification wanted_badges any all filter_by details
    badges_of
documents_still_needed-complete input = ground arith

has_live :
    (types : DocumentType → Bool) (now : ℕ) (docs : List Document)
    → has types (filter_by (is_live now) docs)
      ≡ any (λ doc. is_live now doc && types doc.document_type) docs
unfolding has any filter_by
has_live types now [] = refl
has_live types now (doc ∷ docs) = ground (arith, has_live types now docs)

-- Whether a document with this status and expiry stands at a time.
abbrev pub stands : ℕ → VerificationStatus → Option ℕ → Bool
stands now VerificationStatus.approved none = true
stands now VerificationStatus.approved (some expiry) = ltb now expiry
stands now _ expires = false

-- The kinds of document that a badge takes.
abbrev pub proves : VerificationBadge → DocumentType → Bool
proves VerificationBadge.identity DocumentType.government_id = true
proves VerificationBadge.identity DocumentType.prc_license = true
proves VerificationBadge.identity DocumentType.tesda_certificate = true
proves VerificationBadge.business DocumentType.business_permit = true
proves _ _ = false

abbrev pub is_evidence : VerificationBadge → ℕ → Document → Bool
is_evidence badge now doc = stands now doc.status doc.expires_at && proves badge doc.document_type

identity_evidence :
    (now : ℕ) (doc : Document)
    → (is_live now doc && is_identity_document doc.document_type)
      ≡ is_evidence VerificationBadge.identity now doc
unfolding is_live
identity_evidence now doc = ground arith

business_evidence :
    (now : ℕ) (doc : Document)
    → (is_live now doc && is_business_document doc.document_type)
      ≡ is_evidence VerificationBadge.business now doc
unfolding is_live
business_evidence now doc = ground arith

any_same :
    (p q : Document → Bool) (docs : List Document)
    → ((doc : Document) → p doc ≡ q doc)
    → any p docs ≡ any q docs
unfolding any
any_same p q [] k = refl
any_same p q (doc ∷ docs) k = ground (arith, k doc, any_same p q docs k)

-- The badge of a check on documents stands just as long as there is a document that proves it, is
-- approved, and has no expiry or one that is still to come: a government id, a PRC licence or a
-- TESDA certificate for the identity, a business permit for the business.
pub approvals_from_documents-is_evidence :
    (now : ℕ) (docs : List Document)
    → ((approvals_from_documents now docs).identity_verified
        ≡ any (is_evidence VerificationBadge.identity now) docs)
      × ((approvals_from_documents now docs).business_verified
          ≡ any (is_evidence VerificationBadge.business now) docs)
unfolding approvals_from_documents
approvals_from_documents-is_evidence now docs = (
  has_live is_identity_document now docs ∙ any_same _ _ docs (identity_evidence now),
  has_live is_business_document now docs ∙ any_same _ _ docs (business_evidence now),
)

-- `none` is later than every time.
abbrev pub no_later : Option ℕ → Option ℕ → Bool
no_later o none = true
no_later none (some t) = false
no_later (some t) (some u) = leb t u

earliest_start :
    (types : DocumentType → Bool) (soonest bound : Option ℕ) (docs : List Document)
    → no_later soonest bound ≡ true
    → no_later (earliest types soonest docs) bound ≡ true
unfolding earliest
earliest_start types soonest bound [] h = h
earliest_start types soonest bound (doc ∷ docs) h = ground (
  arith,
  earliest_start types soonest bound docs,
  earliest_start types (sooner soonest doc.reviewed_at) bound docs,
)

no_later_trans :
    (a b c : Option ℕ) → no_later a b ≡ true → no_later b c ≡ true → no_later a c ≡ true
no_later_trans a b c h k = ground arith

no_later_refl : (a : Option ℕ) → no_later a a ≡ true
no_later_refl a = ground arith

sooner-no_later : (a b : Option ℕ) → no_later (sooner a b) b ≡ true
sooner-no_later a b = ground arith

least_of :
    (types : DocumentType → Bool) (e soonest : Option ℕ) (docs : List Document)
    → no_later e (earliest types soonest docs) ≡ true
    → all (λ doc. not (types doc.document_type) || no_later e doc.reviewed_at) docs ≡ true
unfolding earliest all
least_of types e soonest [] h = refl
least_of types e soonest (doc ∷ docs) h = ground (
  arith,
  least_of types e soonest docs,
  least_of types e (sooner soonest doc.reviewed_at) docs,
  earliest_start types (sooner soonest doc.reviewed_at) doc.reviewed_at docs
      (sooner-no_later soonest doc.reviewed_at),
  no_later_trans e (earliest types (sooner soonest doc.reviewed_at) docs) doc.reviewed_at,
)

sooner_cases : (a b : Option ℕ) → (sooner a b ≡ a) ⊎ (sooner a b ≡ b)
sooner_cases a b = ground arith

same_number_refl : (a : Option ℕ) → same_number a a ≡ true
same_number_refl a = ground arith

-- The fold ends at its start, or at a review.
attained :
    (types : DocumentType → Bool) (soonest : Option ℕ) (docs : List Document)
    → (same_number (earliest types soonest docs) soonest
        || any
            (λ doc.
              types doc.document_type && same_number (earliest types soonest docs) doc.reviewed_at)
            docs)
      ≡ true
unfolding earliest any
attained types soonest [] = ground (arith, same_number_refl soonest)
attained types soonest (doc ∷ docs) = elim (Bool-cases (types doc.document_type)) [
  | inr k ↦ ground (arith, k, attained types soonest docs)
  | inl k ↦ elim (sooner_cases soonest doc.reviewed_at) [
    | inl e ↦ ground (arith, k, attained types (sooner soonest doc.reviewed_at) docs, e)
    | inr e ↦ ground (arith, k, attained types (sooner soonest doc.reviewed_at) docs, e)
  ]
]

all_live :
    (now : ℕ) (types p : Document → Bool) (docs : List Document)
    → all (λ doc. not (types doc) || p doc) (filter_by (is_live now) docs) ≡ true
    → all (λ doc. not (is_live now doc && types doc) || p doc) docs ≡ true
unfolding all filter_by
all_live now types p [] a = refl
all_live now types p (doc ∷ docs) a = ground (arith, all_live now types p docs, a)

any_live :
    (now : ℕ) (types p : Document → Bool) (docs : List Document)
    → any (λ doc. types doc && p doc) (filter_by (is_live now) docs)
      ≡ any (λ doc. (is_live now doc && types doc) && p doc) docs
unfolding any filter_by
any_live now types p [] = refl
any_live now types p (doc ∷ docs) = ground (arith, any_live now types p docs)

-- `at` is the earliest review of the evidence for the badge: no review is earlier, and it is one of
-- them, where there is one at all.
pub record IsEarliest (badge : VerificationBadge) (now : ℕ) (docs : List Document) (at : Option ℕ)
    : Type 0 where
  pub bounds :
      all (λ doc. not (is_evidence badge now doc) || no_later at doc.reviewed_at) docs ≡ true
  pub reached :
      (is_none at || any (λ doc. is_evidence badge now doc && same_number at doc.reviewed_at) docs)
      ≡ true

earliest_of :
    (badge : VerificationBadge) (types : DocumentType → Bool) (now : ℕ) (docs : List Document)
    → ((doc : Document) → (is_live now doc && types doc.document_type) ≡ is_evidence badge now doc)
    → IsEarliest badge now docs (earliest types none (filter_by (is_live now) docs))
earliest_of badge types now docs k =
    let live = filter_by (is_live now) docs in
    let at = earliest types none live in
    record {
      bounds =
          all_mono _ _ docs
            (λ doc a. subst (λ b. (not b || no_later at doc.reviewed_at) ≡ true) (k doc) a)
            (all_live now (λ doc. types doc.document_type) (λ doc. no_later at doc.reviewed_at) docs
              (least_of types at none live (no_later_refl at)));
      reached = ground (
        arith,
        attained types none live,
        any_live now (λ doc. types doc.document_type) (λ doc. same_number at doc.reviewed_at) docs,
        any_same
            (λ doc. (is_live now doc && types doc.document_type) && same_number at doc.reviewed_at)
            (λ doc. is_evidence badge now doc && same_number at doc.reviewed_at) docs
            (λ doc. ap (λ b. b && same_number at doc.reviewed_at) (k doc)),
      );
    }

-- The time of the identity check is the earliest review among the documents that prove the identity
-- and stand at the time of the call, and that of the business check the earliest among those that
-- prove the business: no such review is earlier, and the time, if there is one, is that of one of
-- them. A review without a time counts as later than any.
pub approvals_from_documents-IsEarliest :
    (now : ℕ) (docs : List Document)
    → IsEarliest VerificationBadge.identity now docs
        (approvals_from_documents now docs).identity_verified_at
      × IsEarliest VerificationBadge.business now docs
          (approvals_from_documents now docs).business_verified_at
unfolding approvals_from_documents
approvals_from_documents-IsEarliest now docs = (
  earliest_of VerificationBadge.identity is_identity_document now docs (identity_evidence now),
  earliest_of VerificationBadge.business is_business_document now docs (business_evidence now),
)
