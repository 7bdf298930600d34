-- ===== src/Database/Transitions.antt =====
-- Sequences of TransitionToState of xdb/impl/xdb_impl_database.cpp.
use rtdbus.Base.{Bool, true, false, ◌||◌, ◌≡◌, ap, List, [], ◌∷◌, if◌then◌else◌, arith}
use rtdbus.Database.{
  DbState, ErrorCode, DatabaseImpl, transition_correctness, clear_error, set_error,
  transition_to_state, request_all,
}

-- Is the database in use?
abbrev pub is_open : DbState → Bool
is_open DbState.initialized = true
is_open DbState.attached = true
is_open DbState.connected = true
is_open _ = false

abbrev pub is_disconnected : DbState → Bool
is_disconnected DbState.disconnected = true
is_disconnected _ = false

-- Is a disconnection among the requests?
abbrev pub asks_disconnection : List DbState → Bool
asks_disconnection [] = false
asks_disconnection (new ∷ later) = is_disconnected new || asks_disconnection later

closed_step :
    (new : DbState) (d : DatabaseImpl)
    → d.state ≡ DbState.closed
    → transition_to_state new d
      ≡ record { state = DbState.closed; last_error = ErrorCode.incorrect_db_state }
unfolding transition_to_state transition_correctness clear_error set_error
closed_step new d h = ground arith

-- A database that is closed stays closed under any requests of transition, and is left with the
-- error of an incorrect state.
pub request_all-closed :
    (new : DbState) (later : List DbState) (d : DatabaseImpl)
    → d.state ≡ DbState.closed
    → request_all (new ∷ later) d
      ≡ record { state = DbState.closed; last_error = ErrorCode.incorrect_db_state }
unfolding request_all
request_all-closed new [] d h = closed_step new d h
request_all-closed new (next ∷ later) d h =
    request_all-closed next later (transition_to_state new d)
      (ap (λ x. x.state) (closed_step new d h))

open_step :
    (s new : DbState)
    → is_open s ≡ true
    → is_disconnected new ≡ false
    → is_open (if transition_correctness s new then new else s) ≡ true
unfolding transition_correctness
open_step s new h k = ground arith

transition_state :
    (new : DbState) (d : DatabaseImpl)
    → (transition_to_state new d).state
      ≡ (if transition_correctness d.state new then new else d.state)
unfolding transition_to_state clear_error set_error
transition_state new d = ground arith

-- A database that is initialized, attached or connected stays so under any requests of transition,
-- accepted or refused, among which there is no disconnection; so it cannot be closed without one.
pub request_all-is_open :
    (requests : List DbState) (d : DatabaseImpl)
    → is_open d.state ≡ true
    → asks_disconnection requests ≡ false
    → is_open ((request_all requests d).state) ≡ true
unfolding request_all
request_all-is_open [] d h k = h
request_all-is_open (new ∷ later) d h k =
    let stays : is_disconnected new ≡ false = ground arith in
    let rest : asks_disconnection later ≡ false = ground arith in
    let step : is_open ((transition_to_state new d).state) ≡ true =
      rw (transition_state new d) (open_step d.state new h stays) in
    request_all-is_open later (transition_to_state new d) step rest
