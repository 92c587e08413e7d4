-- ===== src/Database/History.antt =====
-- The trigger `record_booking_status_change` and the faithfulness of the status history.
use fixitph_backend.Prelude.{
  Bool, true, false, Option, none, some, List, [], ◌∷◌, ◌==◌, find_by, any, all, update_by, ◌≡◌,
  refl, arith, find_by-all, all-update_by_to, all-update_by, all_mono, any-update_by,
  any-mono-false, any-find_by, Bool-cases, inl, inr, ==_refl, &&-intro, all-avoid,
}
use fixitph_backend.Schema.{Booking, BookingStatus, BookingStatusHistory, same_status}
use fixitph_backend.Transaction.{Session}
use fixitph_backend.Database.Constraints.{booking_clash}
use fixitph_backend.Database.Writes.{status_change}
use fixitph_backend.Database.Consistency.{
  latest, ends_in, chained, tracks, refers, HistoryIsFaithful,
}

pub same_status_refl : (a : BookingStatus) → same_status a a ≡ true
unfolding same_status
same_status_refl a = ground arith

pub same_status-eq : (a b : BookingStatus) → same_status a b ≡ true → a ≡ b
unfolding same_status
same_status-eq a b h = ground arith

pub ends_in-eq :
    (a b : BookingStatus) (o : Option BookingStatusHistory)
    → same_status a b ≡ true
    → ends_in a o ≡ true
    → ends_in b o ≡ true
ends_in-eq a b o h e = ground (arith, same_status-eq a b)

module _ (s : Session) (b : Booking) (from : Option BookingStatus)
    (h : List BookingStatusHistory) where
  tracks-status_change_self :
      (x : Booking) → (x.id == b.id) ≡ true → tracks (status_change s b from h) b ≡ true
  unfolding tracks latest status_change find_by
  tracks-status_change_self x e = ground (arith, same_status_refl b.status)

  tracks-status_change_other :
      (x : Booking)
      → (x.id == b.id) ≡ false
      → tracks h x ≡ true
      → tracks (status_change s b from h) x ≡ true
  unfolding tracks latest status_change find_by
  tracks-status_change_other x e t = ground arith

module _ (bookings : List Booking) (h : List BookingStatusHistory)
    (f : HistoryIsFaithful bookings h) (old b : Booking) (q : Booking → Bool)
    (found : find_by q bookings ≡ some old) (same_id : old.id ≡ b.id) where
  old-tracks : ends_in old.status (latest b.id h) ≡ true
  unfolding tracks
  old-tracks = ground (arith, find_by-all q (tracks h) bookings old found f.tracked)

  updated : List Booking
  updated = update_by (λ r. r.id == b.id) (λ _. b) bookings

  refers-updated : (e : BookingStatusHistory) → refers bookings e ≡ true → refers updated e ≡ true
  unfolding refers updated
  refers-updated e r = ground (
    arith,
    any-update_by (λ (x : Booking). x.id == e.booking_id) (λ r. r.id == b.id) (λ _. b) bookings
        (λ x k. ground arith),
  )

  refers-entry : (e : BookingStatusHistory) → e.booking_id ≡ b.id → refers updated e ≡ true
  unfolding refers updated
  refers-entry e k = ground (
    arith,
    any-update_by (λ (x : Booking). x.id == e.booking_id) (λ r. r.id == b.id) (λ _. b) bookings
        (λ x j. ground arith),
    any-find_by (λ (x : Booking). x.id == e.booking_id) q bookings old found,
  )

  -- An update that leaves the status as it was.
  pub update_same :
      same_status old.status b.status ≡ true
      → HistoryIsFaithful (update_by (λ r. r.id == b.id) (λ _. b) bookings) h
  unfolding tracks updated
  update_same e = record {
    tracked =
        all-update_by (tracks h) _ _ bookings
          (λ x k t. ends_in-eq old.status b.status (latest b.id h) e old-tracks) f.tracked;
    linked = f.linked;
    owned = all_mono (refers bookings) (refers updated) h refers-updated f.owned;
  }

  -- An update that changes the status, with the trigger's entry.
  pub update_changed :
      (s : Session)
      → HistoryIsFaithful
          (update_by (λ r. r.id == b.id) (λ _. b) bookings)
          (status_change s b (some old.status) h)
  unfolding updated chained all status_change
  update_changed s = record {
    tracked =
        all-update_by_to (tracks h) _ _ _ bookings
          (λ x k t. tracks-status_change_self s b (some old.status) h x k)
          (λ x k t. tracks-status_change_other s b (some old.status) h x k t) f.tracked;
    linked = ground (arith, old-tracks, f.linked);
    owned =
        &&-intro (refers-entry _ refl)
          (all_mono (refers bookings) (refers updated) h refers-updated f.owned);
  }

-- A booking that is not in the table yet.
module _ (bookings : List Booking) (h : List BookingStatusHistory)
    (f : HistoryIsFaithful bookings h) (b : Booking)
    (new : any (booking_clash b) bookings ≡ false) where
  new_id : any (λ x. x.id == b.id) bookings ≡ false
  unfolding booking_clash
  new_id = any-mono-false (booking_clash b) (λ x. x.id == b.id) bookings (λ x k. ground arith) new

  missing :
      (e : BookingStatusHistory) → (e.booking_id == b.id) ≡ true → refers bookings e ≡ true → ⊥
  unfolding refers
  missing e k r = ground (
    arith,
    any-mono-false (λ x. x.id == b.id) (λ (x : Booking). x.id == e.booking_id) bookings
        (λ x j. ground arith) new_id,
  )

  -- No entry of the history is about it.
  no_entry : (h : List BookingStatusHistory) → all (refers bookings) h ≡ true → latest b.id h ≡ none
  unfolding latest find_by all refers
  no_entry [] o = refl
  no_entry (e ∷ h) o = elim (Bool-cases (e.booking_id == b.id)) [
    | inl k ↦ absurd (missing e k (ground arith))
    | inr k ↦ rw k (no_entry h (ground arith))
  ]

  refers-tail :
      (e : BookingStatusHistory) → refers bookings e ≡ true → refers (b ∷ bookings) e ≡ true
  unfolding refers any
  refers-tail e r = ground arith

  refers-head : (e : BookingStatusHistory) → e.booking_id ≡ b.id → refers (b ∷ bookings) e ≡ true
  unfolding refers any
  refers-head e k = ground arith

  -- A new booking, with the trigger's entry.
  pub create_faithful : (s : Session) → HistoryIsFaithful (b ∷ bookings) (status_change s b none h)
  unfolding chained all status_change
  create_faithful s = record {
    tracked = &&-intro (tracks-status_change_self s b none h b (==_refl b.id)) (
        all-avoid (λ x. x.id == b.id) (tracks h) (tracks (status_change s b none h)) bookings new_id
          (tracks-status_change_other s b none h) f.tracked);
    linked = ground (arith, no_entry h f.owned, f.linked);
    owned =
        &&-intro (refers-head _ refl)
          (all_mono (refers bookings) (refers (b ∷ bookings)) h refers-tail f.owned);
  }
