-- ===== src/Admission/Packed.antt =====
-- The word of the admission, crates/routing-service/src/model/server.rs, beside the guards and the
-- reservation that are alive.
use muxvia.Prelude.{ℕ, zero, suc, ◌+◌, ◌*◌, ◌≡◌, ◌≢◌, ◌↔◌, refl, true, List, [], ◌∷◌, arith}
use muxvia.Admission.{
  rejects_new_requests, active_request_count, with_reservation, without_reservation, try_begin,
  drop_guard, try_reserve_idle, begin_draining, resume, is_drained, Reservation, free, held,
  committed, ModelAdmission, new_admission, Operation, begins, releases, reserves_idle, drains,
  abandons, commits, begun, granted, release_guard, abandon, commit, perform, history,
}

abbrev pub bit : Reservation → ℕ
bit free = 0
bit held = 1
bit committed = 1

abbrev pub Quiet : Reservation → ℕ → Type 0
Quiet free guards = Unit {0}
Quiet held guards = Unit {0}
Quiet committed guards = guards ≡ 0

pub record IsPacked (w : ModelAdmission) : Type 0 where
  pub packed : w.state ≡ 2 * w.guards + bit w.reservation
  pub quiet : Quiet w.reservation w.guards

perform-IsPacked :
    (w : ModelAdmission) (r : Reservation) (g : ℕ) (operation : Operation)
    → w.reservation ≡ r
    → w.guards ≡ g
    → IsPacked w
    → IsPacked (perform w operation)
unfolding perform begun granted try_begin try_reserve_idle begin_draining release_guard abandon
    commit rejects_new_requests with_reservation without_reservation drop_guard resume is_drained
perform-IsPacked w free g begins er eg v = ground arith
perform-IsPacked w held g begins er eg v = ground arith
perform-IsPacked w committed g begins er eg v = ground arith
perform-IsPacked w free g reserves_idle er eg v = ground arith
perform-IsPacked w held g reserves_idle er eg v = ground arith
perform-IsPacked w committed g reserves_idle er eg v = ground arith
perform-IsPacked w free g drains er eg v = ground arith
perform-IsPacked w held g drains er eg v = ground arith
perform-IsPacked w committed g drains er eg v = ground arith
perform-IsPacked w free g abandons er eg v = ground arith
perform-IsPacked w held g abandons er eg v = ground arith
perform-IsPacked w committed g abandons er eg v = ground arith
perform-IsPacked w free g commits er eg v = ground arith
perform-IsPacked w held g commits er eg v = ground arith
perform-IsPacked w committed g commits er eg v = ground arith
perform-IsPacked w free zero releases er eg v = ground arith
perform-IsPacked w free (suc g) releases er eg v = ground arith
perform-IsPacked w held zero releases er eg v = ground arith
perform-IsPacked w held (suc g) releases er eg v = ground arith
perform-IsPacked w committed zero releases er eg v = ground arith
perform-IsPacked w committed (suc g) releases er eg v = ground arith

history-of-IsPacked :
    (w : ModelAdmission) (operations : List Operation)
    → IsPacked w
    → IsPacked (history w operations)
unfolding history
history-of-IsPacked w [] v = v
history-of-IsPacked w (operation ∷ operations) v =
    history-of-IsPacked (perform w operation) operations
      (perform-IsPacked w w.reservation w.guards operation refl refl v)

abbrev pub Agrees : ModelAdmission → Type 0
Agrees w =
    (active_request_count w.state ≡ w.guards)
    × ((rejects_new_requests w.state ≡ true) ↔ (w.reservation ≢ free))
    × ((is_drained w.state ≡ true) ↔ ((w.reservation ≢ free) × (w.guards ≡ 0)))
    × (((drop_guard w.state).1 ≡ true) ↔ ((w.reservation ≢ free) × (w.guards ≡ 1)))
    × (w.reservation ≡ committed → w.guards ≡ 0)

IsPacked-Agrees : (w : ModelAdmission) (r : Reservation) → w.reservation ≡ r → IsPacked w → Agrees w
unfolding active_request_count rejects_new_requests is_drained drop_guard
IsPacked-Agrees w free e v = (ground arith, ground arith, ground arith, ground arith, ground arith)
IsPacked-Agrees w held e v = (ground arith, ground arith, ground arith, ground arith, ground arith)
IsPacked-Agrees w committed e v =
    (ground arith, ground arith, ground arith, ground arith, ground arith)

-- After any interleaving of the operations: the count of active requests is that of the guards that
-- are alive, new requests are rejected exactly while a reservation is held or committed, the word
-- says that the server is drained exactly if besides no request is active, a guard that is dropped
-- notifies exactly if there is a reservation and it is the last one, and a committed reservation
-- has no active request.
pub history-Agrees : (operations : List Operation) → Agrees (history new_admission operations)
history-Agrees operations =
    let w = history new_admission operations in
    IsPacked-Agrees w w.reservation refl
      (history-of-IsPacked new_admission operations (record { packed = omega arith; quiet = tt }))
