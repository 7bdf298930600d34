-- ===== src/Database/Tests.antt =====
-- Examples of the properties of the database's states.
use rtdbus.Base.{true, ◌≡◌, refl, [], ◌∷◌}
use rtdbus.Database.{DbState, ErrorCode, DatabaseImpl, request_all}
use rtdbus.Database.Transitions.{is_open, request_all-is_open}

abbrev database : DbState → DatabaseImpl
database s = record { state = s; last_error = ErrorCode.no_error }

request_all-is_open_example :
    is_open (
      (request_all
        (DbState.attached ∷ DbState.connected ∷ DbState.closed ∷ [])
        (database DbState.initialized)).state)
    ≡ true
request_all-is_open_example =
    request_all-is_open (DbState.attached ∷ DbState.connected ∷ DbState.closed ∷ [])
      (database DbState.initialized) refl refl
