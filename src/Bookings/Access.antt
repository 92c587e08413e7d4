-- ===== src/Bookings/Access.antt =====
-- Access to a booking through BookingsService: `loadForActor` for outsiders and for parties.
use fixitph_backend.Prelude.{
  ℕ, Bool, true, false, Option, none, String, ◌&&◌, ◌||◌, ◌==◌, not, holds, is_none, all, ◌≡◌, ◌≢◌,
  refl, ap, arith, find_by-none, any-all,
}
use fixitph_backend.Schema.{Booking, Db, is_admin_role}
use fixitph_backend.Errors.{not_found, booking_not_found, err}
use fixitph_backend.Transaction.{
  Env, AuthenticatedUser, Session, to_auth_context, Tx, truthy, ◌>>=◌, with_user,
}
use fixitph_backend.Database.Policies.{bookings_visible, is_admin, current_provider_id}
use fixitph_backend.Bookings.Service.{
  Loaded, UpdateBookingDto, CompleteBookingDto, find_live_booking, actor_for, load_for_actor,
  update_tx, confirm_tx, start_tx, cancel_tx, complete_tx, update, confirm, start, cancel, complete,
}

-- The provider profile of this account: `app.current_provider_id()`.
unfoldable pub profile_of : AuthenticatedUser → Db → Option ℕ
profile_of user d =
    current_provider_id
      (record { context = to_auth_context user; status_change_reason = none; now = 0 }) d

-- The caller is neither an administrator nor a party of any booking with this identifier.
unfoldable pub is_outsider : AuthenticatedUser → ℕ → Db → Bool
is_outsider user id d =
    not (is_admin_role user.role)
    && all
        (λ b.
          not (b.id == id)
          || (not (b.customer_id == user.id) && not (holds (profile_of user d) b.provider_id)))
        d.bookings

module _ (user : AuthenticatedUser) (id : ℕ) (d : Db) (outside : is_outsider user id d ≡ true)
    (reason : Option String) (now : ℕ) where
  session : Session
  session = record {
    context = to_auth_context user;
    status_change_reason = truthy reason;
    now = now;
  }

  hidden :
      (b : Booking)
      → is_admin_role user.role ≡ false
      → (not (b.id == id)
          || (not (b.customer_id == user.id) && not (holds (profile_of user d) b.provider_id)))
        ≡ true
      → (b.id == id && is_none b.deleted_at && bookings_visible session d b) ≡ false
  unfolding session bookings_visible is_admin profile_of to_auth_context current_provider_id
  hidden b a h = ground arith

  sees_none : find_live_booking id session d ≡ none
  unfolding find_live_booking is_outsider
  sees_none = find_by-none _ d.bookings (
      any-all _
        (λ b.
          not (b.id == id)
          || (not (b.customer_id == user.id) && not (holds (profile_of user d) b.provider_id)))
        d.bookings (λ b h. hidden b (ground (arith, outside)) h) (ground (arith, outside)))

  load_refuses : load_for_actor id user session d ≡ err (not_found booking_not_found)
  unfolding load_for_actor ◌>>=◌
  load_refuses = rw (sees_none, ◌>>=◌) refl

  -- Whatever follows the loading of the booking.
  refuses :
      {A : Type 0} (k : Loaded → Tx A)
      → with_user (to_auth_context user) reason now (load_for_actor id user >>= k) d
        ≡ (d, err (not_found booking_not_found))
  unfolding with_user ◌>>=◌ session
  refuses k = rw load_refuses refl

-- An outsider is told BOOKING_NOT_FOUND by every operation on the booking, and changes nothing,
-- whatever the booking's status and whatever is sent.
pub is_outsider_refused :
    (env : Env) (user : AuthenticatedUser) (id : ℕ) (d : Db)
    → is_outsider user id d ≡ true
    → (change : UpdateBookingDto) (reason : String) (report : CompleteBookingDto)
    → (update env user id change d ≡ (d, err (not_found booking_not_found)))
      × (confirm env user id d ≡ (d, err (not_found booking_not_found)))
      × (start env user id d ≡ (d, err (not_found booking_not_found)))
      × (cancel env user id reason d ≡ (d, err (not_found booking_not_found)))
      × (complete env user id report d ≡ (d, err (not_found booking_not_found)))
unfolding update update_tx confirm confirm_tx start start_tx cancel cancel_tx complete complete_tx
is_outsider_refused env user id d o change reason report = (
  refuses user id d o _ env.now _,
  refuses user id d o _ env.now _,
  refuses user id d o _ env.now _,
  refuses user id d o _ env.now _,
  refuses user id d o _ env.now _,
)

-- A booking that the caller can see has an actor for the caller, where the token names the
-- profile that the account has: NOT_A_PARTY is for tokens older than the profile.
pub actor_for_found :
    (user : AuthenticatedUser) (b : Booking) (s : Session) (d : Db)
    → s.context ≡ to_auth_context user
    → user.provider_id ≡ current_provider_id s d
    → bookings_visible s d b ≡ true
    → actor_for user b ≢ none
unfolding actor_for bookings_visible is_admin to_auth_context
actor_for_found user b s d c p v e = ground (arith, ap (λ x. x.role) c, ap (λ x. x.user_id) c)
