-- ===== src/Bookings/Permanence.antt =====
-- The lifecycle relation and what stays of one booking: its parties, its quote, its final status.
use fixitph_backend.Prelude.{
  ℕ, Bool, true, false, Option, none, some, List, [], ◌∷◌, ◌==◌, find_by, any, update_by, ◌≡◌, refl,
  sym, ◌∙◌, subst, ◌⊎◌, inl, inr, arith, Bool-cases, find_by-holds, any-find_by, any-mono-false,
  ==_iff,
}
use fixitph_backend.Schema.{Booking, BookingStatus, BookingStatusHistory}
use fixitph_backend.Schema.BookingStatus.{
  in_progress, completed, cancelled_by_customer, cancelled_by_provider, no_show_customer,
  no_show_provider,
}
use fixitph_backend.Transaction.{AuthenticatedUser}
use fixitph_backend.Database.Constraints.{booking_clash}
use fixitph_backend.Bookings.Lifecycle.{transitions}
use fixitph_backend.Bookings.Service.{is_reschedulable}
use fixitph_backend.Bookings.Spec.{View, Replaces, replaced, Step}

unfoldable pub booking_at : ℕ → View → Option Booking
booking_at id v = find_by (λ r. r.id == id) v.bookings

find_by-replaced_other :
    (id : ℕ) (b : Booking) (bs : List Booking)
    → (b.id == id) ≡ false
    → find_by (λ r. r.id == id) (replaced b bs) ≡ find_by (λ r. r.id == id) bs
unfolding find_by update_by
find_by-replaced_other id b [] n = refl
find_by-replaced_other id b (x ∷ bs) n = ground (arith, find_by-replaced_other id b bs n)

find_by-replaced_self :
    (b old : Booking) (bs : List Booking)
    → find_by (λ r. r.id == b.id) bs ≡ some old
    → find_by (λ r. r.id == b.id) (replaced b bs) ≡ some b
unfolding find_by update_by
find_by-replaced_self b old [] h = cc
find_by-replaced_self b old (x ∷ bs) h = ground (arith, find_by-replaced_self b old bs)

-- A search by another identifier passes a new booking by.
find_by-created :
    (id : ℕ) (b x : Booking) (bs : List Booking)
    → any (booking_clash b) bs ≡ false
    → find_by (λ r. r.id == id) bs ≡ some x
    → find_by (λ r. r.id == id) (b ∷ bs) ≡ some x
unfolding find_by booking_clash
find_by-created id b x bs n h = ground (
  arith,
  find_by-holds (λ (r : Booking). r.id == id) bs x h,
  any-find_by (λ (r : Booking). r.id == b.id) (λ r. r.id == id) bs x h,
  any-mono-false (booking_clash b) (λ r. r.id == b.id) bs (λ r k. ground arith) n,
)

-- A booking of this identifier that has what `P` says.
pub record Holds (P : Booking → Type 0) (id : ℕ) (v : View) : Type 0 where
  pub booking : Booking
  pub at : booking_at id v ≡ some booking
  pub has : P booking

module _ (P : Booking → Type 0) (id : ℕ) (v : View) (x : Booking)
    (found : booking_at id v ≡ some x) where
  held_is : (old b : Booking) → Replaces v old b → b.id ≡ id → old ≡ x
  unfolding booking_at
  held_is old b r e = ground (
    arith,
    subst (λ n. find_by (λ (r : Booking). r.id == n) v.bookings ≡ some old) e r.held,
    found,
  )

  replaced-Holds :
      (old b : Booking) (h : List BookingStatusHistory)
      → Replaces v old b
      → (old ≡ x → P b)
      → P x
      → Holds P id (record { bookings = replaced b v.bookings; history = h })
  unfolding booking_at
  replaced-Holds old b h r k p = elim (Bool-cases (b.id == id)) [
    | inl e ↦ record {
      booking = b;
      at =
          subst (λ n. find_by (λ (r : Booking). r.id == n) (replaced b v.bookings) ≡ some b)
            ((==_iff b.id id).0 e) (find_by-replaced_self b old v.bookings r.held);
      has = k (held_is old b r ((==_iff b.id id).0 e));
    }
    | inr e ↦ record { booking = x; at = find_by-replaced_other id b v.bookings e ∙ found; has = p }
  ]

  created_Holds :
      (b : Booking) (h : List BookingStatusHistory)
      → any (booking_clash b) v.bookings ≡ false
      → P x
      → Holds P id (record { bookings = b ∷ v.bookings; history = h })
  unfolding booking_at
  created_Holds b h n p = record {
    booking = x;
    at = find_by-created id b x v.bookings n found;
    has = p;
  }

-- A step keeps of a booking what its replacements keep.
pub step-Holds :
    (P : Booking → Type 0) (id : ℕ)
    → ((v : View) (old b : Booking) → Replaces v old b → P old → P b)
    → (user : AuthenticatedUser) (v w : View) → Step user v w
    → Holds P id v
    → Holds P id w
step-Holds P id k user v w Step.stay h = h
step-Holds P id k user v w (Step.create s b of m st c n) h =
    created_Holds P id v h.booking h.at b _ n h.has
step-Holds P id k user v w (Step.move s old b actor allowed of r a t i c) h =
    replaced-Holds P id v h.booking h.at old b _ r (λ e. k v old b r (subst P (sym e) h.has)) h.has
step-Holds P id k user v w (Step.dispute s old b of r m o st c) h =
    replaced-Holds P id v h.booking h.at old b _ r (λ e. k v old b r (subst P (sym e) h.has)) h.has
step-Holds P id k user v w (Step.reschedule old b actor r a i st c) h =
    replaced-Holds P id v h.booking h.at old b _ r (λ e. k v old b r (subst P (sym e) h.has)) h.has

-- The statuses that no edge of the lifecycle leaves.
unfoldable pub is_final : BookingStatus → Bool
is_final cancelled_by_customer = true
is_final cancelled_by_provider = true
is_final no_show_customer = true
is_final no_show_provider = true
is_final _ = false

no_edge : (from to : BookingStatus) → is_final from ≡ true → transitions from to ≡ none
unfolding is_final transitions
no_edge from to f = ground arith

not_final_begun :
    (from : BookingStatus) → (from ≡ in_progress) ⊎ (from ≡ completed) → is_final from ≡ false
unfolding is_final
not_final_begun from (inl e) = rw e refl
not_final_begun from (inr e) = rw e refl

not_final_reschedulable :
    (from : BookingStatus) → is_reschedulable from ≡ true → is_final from ≡ false
unfolding is_final
not_final_reschedulable from h = ground arith

-- A step leaves a booking in a final status as it is.
pub step_frozen :
    (x : Booking)
    → is_final x.status ≡ true
    → (id : ℕ) (user : AuthenticatedUser) (v w : View) → Step user v w
    → Holds (λ b. b ≡ x) id v
    → Holds (λ b. b ≡ x) id w
step_frozen x f id user v w Step.stay h = h
step_frozen x f id user v w (Step.create s b of m st c n) h =
    created_Holds _ id v h.booking h.at b _ n h.has
step_frozen x f id user v w (Step.move s old b actor allowed of r a t i c) h =
    replaced-Holds _ id v h.booking h.at old b _ r
      (λ e. ground (arith, no_edge x.status b.status f, h.has, t)) h.has
step_frozen x f id user v w (Step.dispute s old b of r m o st c) h =
    replaced-Holds _ id v h.booking h.at old b _ r
      (λ e. ground (arith, not_final_begun old.status o, h.has)) h.has
step_frozen x f id user v w (Step.reschedule old b actor r a i st c) h =
    replaced-Holds _ id v h.booking h.at old b _ r
      (λ e. ground (arith, not_final_reschedulable old.status i, h.has)) h.has

pub record HasParties (customer provider quote : ℕ) (b : Booking) : Type 0 where
  pub same_customer : b.customer_id ≡ customer
  pub same_provider : b.provider_id ≡ provider
  pub same_quote : b.quote_id ≡ quote

pub replaced-HasParties :
    (c p q : ℕ) (v : View) (old b : Booking)
    → Replaces v old b
    → HasParties c p q old
    → HasParties c p q b
replaced-HasParties c p q v old b r h = record {
  same_customer = r.same_customer ∙ h.same_customer;
  same_provider = r.same_provider ∙ h.same_provider;
  same_quote = r.same_quote ∙ h.same_quote;
}
