-- ===== src/Xdb/Rows.antt =====
-- xdb/impl/dat/broker_db.mco: the classes XDBService, XDBWorker and XDBLetter, less their autoid.
use rtdbus.Base.{ℕ, Bytes, [], Bool, true, false}

-- timer_mark, and timer_mark_t of tools/timer.hpp
pub record Mark : Type 0 where
  pub sec : ℕ
  pub nsec : ℕ

pub data XdbServiceState : Type 0 where
  unknown registered activated disabled : XdbServiceState

-- WorkerState, which is Worker::State of xdb_broker_worker.hpp by a cast.
pub data WorkerState : Type 0 where
  disarmed armed init shutdown occupied expired : WorkerState

-- LetterState, which is Letter::State of xdb_broker_letter.hpp by a cast.
pub data LetterState : Type 0 where
  empty unassigned assigned processing done_ok done_fail : LetterState

pub record XdbService : Type 0 where
  pub name : Bytes
  pub state : XdbServiceState
  pub endpoint : Bytes

pub record XdbWorker : Type 0 where
  pub identity : Bytes
  pub state : WorkerState
  pub expiration : Mark
  pub service_ref : ℕ
  pub letter_ref : ℕ

pub record XdbLetter : Type 0 where
  pub service_ref : ℕ
  pub worker_ref : ℕ
  pub state : LetterState
  pub origin : Bytes
  pub expiration : Mark
  pub header : Bytes
  pub body : Bytes

-- The values that the fields of a new object start with.
abbrev pub no_mark : Mark
no_mark = record { sec = 0; nsec = 0 }

abbrev pub new_service : XdbService
new_service = record { name = []; state = XdbServiceState.unknown; endpoint = [] }

abbrev pub new_worker : XdbWorker
new_worker = record {
  identity = [];
  state = WorkerState.armed;
  expiration = no_mark;
  service_ref = 0;
  letter_ref = 0;
}

abbrev pub new_letter : XdbLetter
new_letter = record {
  service_ref = 0;
  worker_ref = 0;
  state = LetterState.empty;
  origin = [];
  expiration = no_mark;
  header = [];
  body = [];
}

-- The comparisons of states in the code.
abbrev pub worker_state_eq : WorkerState → WorkerState → Bool
worker_state_eq WorkerState.disarmed WorkerState.disarmed = true
worker_state_eq WorkerState.armed WorkerState.armed = true
worker_state_eq WorkerState.init WorkerState.init = true
worker_state_eq WorkerState.shutdown WorkerState.shutdown = true
worker_state_eq WorkerState.occupied WorkerState.occupied = true
worker_state_eq WorkerState.expired WorkerState.expired = true
worker_state_eq _ _ = false

abbrev pub is_unassigned : LetterState → Bool
is_unassigned LetterState.unassigned = true
is_unassigned _ = false
