-- ===== src/Database.antt =====
-- xdb/impl/xdb_impl_database.cpp: the states of a database (DBState_t of xdb/common/xdb_common.hpp), and
-- TransitionToState. Of the error codes, rtE_NONE and rtE_INCORRECT_DB_STATE occur here.
pub mod Transitions
pub mod Tests
use rtdbus.Base.{Bool, true, false, List, [], ◌∷◌, if◌then◌else◌}

pub data DbState : Type 0 where
  uninitialized initialized attached connected disconnected closed : DbState

pub data ErrorCode : Type 0 where
  no_error incorrect_db_state : ErrorCode

-- m_state and m_last_error
pub record DatabaseImpl : Type 0 where
  pub state : DbState
  pub last_error : ErrorCode

-- The two switches: from the old state into the new one.
unfoldable pub transition_correctness : DbState → DbState → Bool
transition_correctness DbState.disconnected DbState.connected = true
transition_correctness DbState.disconnected DbState.closed = true
transition_correctness DbState.disconnected DbState.initialized = true
transition_correctness DbState.connected DbState.disconnected = true
transition_correctness DbState.attached DbState.connected = true
transition_correctness DbState.attached DbState.disconnected = true
transition_correctness DbState.initialized DbState.attached = true
transition_correctness DbState.initialized DbState.connected = true
transition_correctness DbState.initialized DbState.disconnected = true
transition_correctness DbState.uninitialized DbState.disconnected = true
transition_correctness DbState.uninitialized DbState.initialized = true
transition_correctness DbState.uninitialized DbState.closed = true
transition_correctness _ _ = false

unfoldable pub clear_error : DatabaseImpl → DatabaseImpl
clear_error d = record d { last_error = ErrorCode.no_error }

unfoldable pub set_error : ErrorCode → DatabaseImpl → DatabaseImpl
set_error e d = record d { last_error = e }

unfoldable pub transition_to_state : DbState → DatabaseImpl → DatabaseImpl
unfolding transition_correctness clear_error set_error
transition_to_state new d =
    let d' = clear_error d in
    if transition_correctness d'.state new
    then record d' { state = new }
    else set_error ErrorCode.incorrect_db_state d'

-- Requests, one after the other.
unfoldable pub request_all : List DbState → DatabaseImpl → DatabaseImpl
unfolding transition_to_state
request_all [] d = d
request_all (new ∷ later) d = request_all later (transition_to_state new d)
