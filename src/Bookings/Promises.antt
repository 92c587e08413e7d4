-- ===== src/Bookings/Promises.antt =====
-- The lifecycle relation over sequences of steps, and the edges in the status history.
use fixitph_backend.Prelude.{
  Bool, true, Option, none, some, List, is_some, all, [], ◌∷◌, ◌≡◌, refl, ◌⊎◌, inl, inr, &&-intro,
  subst,
}
use fixitph_backend.Schema.{Booking, BookingStatus, BookingStatusHistory, same_status}
use fixitph_backend.Schema.BookingStatus.{pending_confirmation, in_progress, completed, disputed}
use fixitph_backend.Transaction.{AuthenticatedUser, Session}
use fixitph_backend.Database.Writes.{status_change}
use fixitph_backend.Bookings.Lifecycle.{transitions}
use fixitph_backend.Bookings.Spec.{View, Step, Steps}

-- What each step keeps, all steps keep.
pub Steps-keeps :
    (P : View → Type 0)
    → ((user : AuthenticatedUser) (v w : View) → Step user v w → P v → P w)
    → (users : List AuthenticatedUser) (v w : View) → Steps users v w
    → P v
    → P w
unfolding Steps
Steps-keeps P k [] v w e h = subst P e h
Steps-keeps P k (user ∷ users) v w (u, first, rest) h =
    Steps-keeps P k users u w rest (k user v u first h)

-- An entry is the creation of a pending booking, or an edge of TRANSITIONS.
unfoldable pub is_edge : Option BookingStatus → BookingStatus → Bool
is_edge none to = same_status to pending_confirmation
is_edge (some from) to = is_some (transitions from to)

unfoldable pub is_legal : BookingStatusHistory → Bool
is_legal e = is_edge e.from_status e.to_status

unfoldable pub IsLawful : View → Type 0
IsLawful v = all is_legal v.history ≡ true

moved_legal :
    (s : Session) (b : Booking) (from : Option BookingStatus) (h : List BookingStatusHistory)
    → is_edge from b.status ≡ true
    → all is_legal h ≡ true
    → all is_legal (status_change s b from h) ≡ true
unfolding status_change all is_legal
moved_legal s b from h e l = &&-intro e l

dispute_edge :
    (old : BookingStatus)
    → (old ≡ in_progress) ⊎ (old ≡ completed)
    → is_edge (some old) disputed ≡ true
unfolding is_edge transitions
dispute_edge old (inl e) = rw e refl
dispute_edge old (inr e) = rw e refl

pub step-IsLawful :
    (user : AuthenticatedUser) (v w : View) → Step user v w → IsLawful v → IsLawful w
unfolding IsLawful is_edge same_status
step-IsLawful user v w Step.stay h = h
step-IsLawful user v w (Step.create s b of m st k c) h = moved_legal s b _ v.history (rw st refl) h
step-IsLawful user v w (Step.move s old b actor allowed of r a t i k) h =
    moved_legal s b _ v.history (rw t refl) h
step-IsLawful user v w (Step.dispute s old b of r m o st k) h =
    moved_legal s b _ v.history (rw st (dispute_edge old.status o)) h
step-IsLawful user v w (Step.reschedule old b actor r a i st k) h = h
