-- ===== src/Xdb/Worker.antt =====
-- xdb/broker/xdb_broker_worker.cpp: the object of a worker in memory.
use rtdbus.Base.{ℕ, ◌+◌, ◌*◌, ◌/◌, Bytes, strncpy, Bool, true, false, not, ltb}
use rtdbus.Xdb.Rows.{Mark, no_mark, WorkerState}

-- IDENTITY_MAXLEN, HEARTBEAT_PERIOD_MSEC and HEARTBEAT_LIVENESS of cmake/CMakeLists.txt
abbrev pub identity_maxlen : ℕ
identity_maxlen = 11

abbrev pub heartbeat_period_msec : ℕ
heartbeat_period_msec = 2500

pub record Worker : Type 0 where
  pub id : ℕ
  pub service_id : ℕ
  pub letter_id : ℕ
  pub identity : Bytes
  pub state : WorkerState
  pub expiration : Mark
  pub modified : Bool

unfoldable pub set_id : ℕ → Worker → Worker
set_id i w = record w { id = i; modified = true }

unfoldable pub set_letter_id : ℕ → Worker → Worker
set_letter_id i w = record w { letter_id = i; modified = true }

unfoldable pub set_identity : Bytes → Worker → Worker
set_identity n w = record w { identity = strncpy identity_maxlen n; modified = true }

unfoldable pub set_state : WorkerState → Worker → Worker
set_state st w = record w { state = st }

unfoldable pub set_expiration : Mark → Worker → Worker
set_expiration m w = record w { expiration = m; modified = true }

unfoldable pub set_valid : Worker → Worker
set_valid w = record w { modified = false }

unfoldable pub get_valid : Worker → Bool
get_valid w = not w.modified

-- Worker (_service_id, _self_identity, _self_id, _letter_id)
unfoldable pub new : ℕ → Bytes → ℕ → ℕ → Worker
unfolding set_identity set_expiration
new srv ident self letter =
    let w : Worker = record {
      id = self;
      service_id = srv;
      letter_id = letter;
      identity = ident;
      state = WorkerState.init;
      expiration = no_mark;
      modified = true;
    } in
    set_expiration no_mark (set_identity ident w)

-- Expired (), at the clock's reading `now`; the comparison of nanoseconds is compiled out.
unfoldable pub expired : Mark → Worker → Bool
expired now w = ltb w.expiration.sec now.sec

-- CalculateEXPIRATION_TIME ()
unfoldable pub next_expiration : Mark → Mark
next_expiration now = record { sec = now.sec + (heartbeat_period_msec / 1000) * 2; nsec = now.nsec }
