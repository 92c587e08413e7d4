-- ===== src/Bookings/Releases.antt =====
-- The lifecycle relation and the release of the customer's contact.
use fixitph_backend.Prelude.{
  ℕ, Bool, true, Option, none, some, List, ◌==◌, ◌&&◌, ◌||◌, is_none, any, all, ◌≡◌, refl, ◌⊎◌, inl,
  inr, arith, all-update_by_to, all_mono, find_by-all, &&-intro, ==_refl,
}
use fixitph_backend.Schema.{Booking, BookingStatus, BookingStatusHistory, same_status}
use fixitph_backend.Schema.BookingStatus.{confirmed}
use fixitph_backend.Transaction.{AuthenticatedUser, Session}
use fixitph_backend.Database.Writes.{status_change}
use fixitph_backend.Database.History.{same_status_refl}
use fixitph_backend.Bookings.Spec.{View, Replaces, replaced, Step}

-- The history has a change of this booking to CONFIRMED.
unfoldable pub was_confirmed : List BookingStatusHistory → ℕ → Bool
was_confirmed history id =
    any (λ e. e.booking_id == id && same_status e.to_status confirmed) history

unfoldable pub release_earned : List BookingStatusHistory → Booking → Bool
release_earned history b = is_none b.contact_released_at || was_confirmed history b.id

unfoldable pub IsReleaseEarned : View → Type 0
IsReleaseEarned v = all (release_earned v.history) v.bookings ≡ true

module _ (s : Session) (b : Booking) (from : Option BookingStatus)
    (h : List BookingStatusHistory) where
  earned_still :
      (x : Booking) → release_earned h x ≡ true → release_earned (status_change s b from h) x ≡ true
  unfolding release_earned was_confirmed status_change any
  earned_still x r = ground arith

  earned_now : b.status ≡ confirmed → release_earned (status_change s b from h) b ≡ true
  unfolding release_earned was_confirmed status_change any
  earned_now e = ground (arith, same_status_refl confirmed, ==_refl b.id)

old_earned :
    (v : View) (old b : Booking)
    → Replaces v old b
    → IsReleaseEarned v
    → b.contact_released_at ≡ old.contact_released_at
    → release_earned v.history b ≡ true
unfolding IsReleaseEarned release_earned
old_earned v old b r h k = ground (
  arith,
  r.held,
  r.same_id,
  find_by-all (λ x. x.id == b.id) (release_earned v.history) v.bookings old r.held h,
)

replaced_earned :
    (v : View) (b : Booking) (h : List BookingStatusHistory)
    → ((x : Booking) → release_earned v.history x ≡ true → release_earned h x ≡ true)
    → release_earned h b ≡ true
    → IsReleaseEarned v
    → all (release_earned h) (replaced b v.bookings) ≡ true
unfolding IsReleaseEarned
replaced_earned v b h k e a =
    all-update_by_to (release_earned v.history) (release_earned h) _ _ v.bookings (λ x _ _. e)
      (λ x _ r. k x r) a

changed_earned :
    (v : View) (s : Session) (old b : Booking)
    → Replaces v old b
    → IsReleaseEarned v
    → (b.contact_released_at ≡ old.contact_released_at) ⊎ (b.status ≡ confirmed)
    → all (release_earned (status_change s b (some old.status) v.history)) (replaced b v.bookings)
      ≡ true
changed_earned v s old b r h (inl k) =
    replaced_earned v b _ (earned_still s b _ v.history)
      (earned_still s b _ v.history b (old_earned v old b r h k)) h
changed_earned v s old b r h (inr k) =
    replaced_earned v b _ (earned_still s b _ v.history) (earned_now s b _ v.history k) h

pub step-IsReleaseEarned :
    (user : AuthenticatedUser) (v w : View) → Step user v w → IsReleaseEarned v → IsReleaseEarned w
unfolding IsReleaseEarned all release_earned
step-IsReleaseEarned user v w Step.stay h = h
step-IsReleaseEarned user v w (Step.create s b of m st k c) h =
    &&-intro (rw k refl)
      (all_mono (release_earned v.history) _ v.bookings (earned_still s b none v.history) h)
step-IsReleaseEarned user v w (Step.move s old b actor allowed of r a t i k) h =
    changed_earned v s old b r h k
step-IsReleaseEarned user v w (Step.dispute s old b of r m o st k) h =
    changed_earned v s old b r h (inl k)
step-IsReleaseEarned user v w (Step.reschedule old b actor r a i st k) h =
    replaced_earned v b v.history (λ x e. e) (old_earned v old b r h k) h
