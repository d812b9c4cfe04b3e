-- ===== src/Admission.antt =====
-- The admission of requests to the model server and its draining: `ModelAdmission`,
-- `ActiveRequestGuard` and `ModelDrainReservation` of crates/routing-service/src/model/server.rs. The
-- atomic word has the reservation in its lowest bit and the active requests above it. A loop of
-- compare-exchanges is one step: it changes the word in its last round alone, in which it replaces
-- the value that it observes.
pub mod Packed
mod Tests
use muxvia.Prelude.{
  ℕ, zero, suc, ◌+◌, ◌-◌, ◌/◌, ◌%◌, ◌*◌, Bool, true, false, Option, none, some, List, [], ◌∷◌, ltb,
  ◌==◌, if◌then◌else◌, u64_mod,
}

-- `RESERVED_BIT` and `ACTIVE_REQUEST_INCREMENT`
abbrev pub reserved_bit : ℕ
reserved_bit = 1

abbrev pub active_request_increment : ℕ
active_request_increment = 2

-- `state & RESERVED_BIT != 0`
unfoldable pub rejects_new_requests : ℕ → Bool
rejects_new_requests state = state % 2 == 1

unfoldable pub active_request_count : ℕ → ℕ
active_request_count state = state / active_request_increment

-- `state | RESERVED_BIT` and `state & !RESERVED_BIT`
with_reservation : ℕ → ℕ
with_reservation state = state - state % 2 + reserved_bit

without_reservation : ℕ → ℕ
without_reservation state = state - state % 2

-- `ActiveRequestGuard::try_begin`, with `checked_add` on usize.
unfoldable pub try_begin : ℕ → Option ℕ
unfolding rejects_new_requests
try_begin state =
    if rejects_new_requests state
    then none
    else if ltb (state + active_request_increment) u64_mod
    then some (state + active_request_increment)
    else none

-- The destructor of a guard: the word after it, and whether it notifies.
unfoldable pub drop_guard : ℕ → ℕ × Bool
drop_guard previous =
    (previous - active_request_increment, previous == reserved_bit + active_request_increment)

unfoldable pub try_reserve_idle : ℕ → Option ℕ
try_reserve_idle state = if state == 0 then some reserved_bit else none

unfoldable pub begin_draining : ℕ → Option ℕ
unfolding rejects_new_requests with_reservation
begin_draining state = if rejects_new_requests state then none else some (with_reservation state)

unfoldable pub resume : ℕ → ℕ
unfolding without_reservation
resume state = without_reservation state

-- The test of `wait_until_drained` and of `commit`.
unfoldable pub is_drained : ℕ → Bool
is_drained state = state == reserved_bit

-- Who holds a `ModelDrainReservation`.
pub data Reservation : Type 0 where
  free held committed : Reservation

-- The word, with the guards and the reservation that are alive.
pub record ModelAdmission : Type 0 where
  pub state : ℕ
  pub guards : ℕ
  pub reservation : Reservation

abbrev pub new_admission : ModelAdmission
new_admission = record { state = 0; guards = 0; reservation = free }

pub data Operation : Type 0 where
  begins releases reserves_idle drains abandons commits : Operation

begun : ModelAdmission → Option ℕ → ModelAdmission
begun w none = w
begun w (some state) = record w { state = state; guards = suc w.guards }

-- A reservation that was granted.
granted : ModelAdmission → Option ℕ → ModelAdmission
granted w none = w
granted w (some state) = record w { state = state; reservation = held }

-- A guard is dropped by who has one.
release_guard : ModelAdmission → ℕ → ModelAdmission
unfolding drop_guard
release_guard w zero = w
release_guard w (suc guards) = record w { state = (drop_guard w.state).0; guards = guards }

-- The destructor of a reservation that is not committed.
abandon : ModelAdmission → Reservation → ModelAdmission
unfolding resume
abandon w held = record w { state = resume w.state; reservation = free }
abandon w _ = w

-- `commit` consumes the reservation: if it fails, the destructor resumes.
commit : ModelAdmission → Reservation → ModelAdmission
unfolding is_drained abandon
commit w held = if is_drained w.state then record w { reservation = committed } else abandon w held
commit w _ = w

unfoldable pub perform : ModelAdmission → Operation → ModelAdmission
unfolding begun granted try_begin try_reserve_idle begin_draining release_guard abandon commit
perform w begins = begun w (try_begin w.state)
perform w releases = release_guard w w.guards
perform w reserves_idle = granted w (try_reserve_idle w.state)
perform w drains = granted w (begin_draining w.state)
perform w abandons = abandon w w.reservation
perform w commits = commit w w.reservation

unfoldable pub history : ModelAdmission → List Operation → ModelAdmission
unfolding perform
history w [] = w
history w (operation ∷ operations) = history (perform w operation) operations
