-- ===== src/Verification/Badges.antt =====
-- The functions of providers/verification.ts. A timestamp is what `toDate` makes of it: a time, or
-- `none` where there is none or it does not parse. `now` is the reading of the clock.
use fixitph_backend.Prelude.{
  ℕ, Bool, true, false, Option, none, some, List, [], ◌∷◌, ◌&&◌, not, is_some, ltb, any, all,
  filter_by, if◌then◌else◌,
}
use fixitph_backend.Schema.{VerificationStatus, is_approved}

pub data VerificationBadge : Type 0 where
  email identity business : VerificationBadge

pub data VerificationLevel : Type 0 where
  no_level basic identity_level business_level : VerificationLevel

pub data ProviderType : Type 0 where
  individual company : ProviderType

-- `DocumentType` of prisma/schema.prisma.
pub data DocumentType : Type 0 where
  government_id business_permit barangay_clearance prc_license : DocumentType
  tesda_certificate proof_of_address other : DocumentType

-- `IDENTITY_DOCUMENTS`
abbrev pub is_identity_document : DocumentType → Bool
is_identity_document DocumentType.government_id = true
is_identity_document DocumentType.prc_license = true
is_identity_document DocumentType.tesda_certificate = true
is_identity_document _ = false

-- `BUSINESS_DOCUMENTS`
abbrev pub is_business_document : DocumentType → Bool
is_business_document DocumentType.business_permit = true
is_business_document _ = false

pub record Document : Type 0 where
  pub document_type : DocumentType
  pub status : VerificationStatus
  pub reviewed_at : Option ℕ
  pub expires_at : Option ℕ

pub record VerificationApprovals : Type 0 where
  pub identity_verified : Bool
  pub identity_verified_at : Option ℕ
  pub business_verified : Bool
  pub business_verified_at : Option ℕ

abbrev pub no_approvals : VerificationApprovals
no_approvals = record {
  identity_verified = false;
  identity_verified_at = none;
  business_verified = false;
  business_verified_at = none;
}

-- `!expires || expires > new Date()`
abbrev pub is_unexpired : ℕ → Option ℕ → Bool
is_unexpired now none = true
is_unexpired now (some t) = ltb now t

unfoldable pub is_live : ℕ → Document → Bool
is_live now doc = is_approved doc.status && is_unexpired now doc.expires_at

-- The step of the fold: the sooner of two reviews.
abbrev pub sooner : Option ℕ → Option ℕ → Option ℕ
sooner soonest none = soonest
sooner none (some reviewed) = some reviewed
sooner (some t) (some reviewed) = if ltb reviewed t then some reviewed else some t

unfoldable pub earliest : (DocumentType → Bool) → Option ℕ → List Document → Option ℕ
earliest types soonest [] = soonest
earliest types soonest (doc ∷ docs) =
    let here = earliest types (sooner soonest doc.reviewed_at) docs in
    let rest = earliest types soonest docs in if types doc.document_type then here else rest

unfoldable pub has : (DocumentType → Bool) → List Document → Bool
has types = any λ doc. types doc.document_type

unfoldable pub approvals_from_documents : ℕ → List Document → VerificationApprovals
approvals_from_documents now documents =
    let live = filter_by (is_live now) documents in
    record {
      identity_verified = has is_identity_document live;
      identity_verified_at = earliest is_identity_document none live;
      business_verified = has is_business_document live;
      business_verified_at = earliest is_business_document none live;
    }

pub record VerificationInput : Type 0 where
  pub provider_type : ProviderType
  pub email_verified_at : Option ℕ
  pub approvals : VerificationApprovals

-- The label and the meaning of a badge stand by the badge itself.
pub record BadgeDetail : Type 0 where
  pub badge : VerificationBadge
  pub earned : Bool
  pub at : Option ℕ

pub record VerificationSummary : Type 0 where
  pub level : VerificationLevel
  pub complete : Bool
  pub badges : List BadgeDetail
  pub earned : List VerificationBadge

abbrev pub earned_flag : VerificationInput → VerificationBadge → Bool
earned_flag input VerificationBadge.email = is_some input.email_verified_at
earned_flag input VerificationBadge.identity = input.approvals.identity_verified
earned_flag input VerificationBadge.business = input.approvals.business_verified

abbrev pub earned_at : VerificationInput → VerificationBadge → Option ℕ
earned_at input VerificationBadge.email = input.email_verified_at
earned_at input VerificationBadge.identity = input.approvals.identity_verified_at
earned_at input VerificationBadge.business = input.approvals.business_verified_at

unfoldable pub wanted_badges : ProviderType → List VerificationBadge
wanted_badges ProviderType.company =
    VerificationBadge.email ∷ VerificationBadge.identity ∷ VerificationBadge.business ∷ []
wanted_badges ProviderType.individual = VerificationBadge.email ∷ VerificationBadge.identity ∷ []

abbrev pub badge_detail : VerificationInput → VerificationBadge → BadgeDetail
badge_detail input badge = record {
  badge = badge;
  earned = earned_flag input badge;
  at = earned_at input badge;
}

abbrev pub level_of : VerificationInput → VerificationLevel
level_of input =
    if earned_flag input VerificationBadge.business
    then VerificationLevel.business_level
    else (if earned_flag input VerificationBadge.identity
        then VerificationLevel.identity_level
        else (if earned_flag input VerificationBadge.email
            then VerificationLevel.basic
            else VerificationLevel.no_level))

abbrev pub all_badges : List VerificationBadge
all_badges = VerificationBadge.email ∷ VerificationBadge.identity ∷ VerificationBadge.business ∷ []

unfoldable pub badges_of : List BadgeDetail → List VerificationBadge
badges_of [] = []
badges_of (b ∷ bs) = b.badge ∷ badges_of bs

unfoldable pub details : VerificationInput → List VerificationBadge → List BadgeDetail
details input [] = []
details input (b ∷ bs) = badge_detail input b ∷ details input bs

unfoldable pub summarise_verification : VerificationInput → VerificationSummary
unfolding details badges_of
summarise_verification input = record {
  level = level_of input;
  complete = all (earned_flag input) (wanted_badges input.provider_type);
  badges = details input all_badges;
  earned = badges_of (filter_by (λ b. b.earned) (details input all_badges));
}

abbrev pub same_badge : VerificationBadge → VerificationBadge → Bool
same_badge VerificationBadge.email VerificationBadge.email = true
same_badge VerificationBadge.identity VerificationBadge.identity = true
same_badge VerificationBadge.business VerificationBadge.business = true
same_badge _ _ = false

unfoldable pub documents_still_needed : ProviderType → VerificationSummary → List VerificationBadge
unfolding badges_of
documents_still_needed provider_type summary = badges_of (
    filter_by (λ b. any (λ w. same_badge w b.badge) (wanted_badges provider_type) && not b.earned)
      summary.badges)

pub record VerifiableProvider : Type 0 where
  pub id : ℕ
  pub provider_type : ProviderType
  pub email_verified_at : Option ℕ  -- `user?.emailVerifiedAt ?? null`

-- `attachVerification`, of which the summary is the new part.
unfoldable pub attach_verification :
    VerifiableProvider → VerificationApprovals → ℕ × VerificationSummary
attach_verification provider approvals = (
  provider.id,
  summarise_verification (record {
    provider_type = provider.provider_type;
    email_verified_at = provider.email_verified_at;
    approvals = approvals;
  }),
)
