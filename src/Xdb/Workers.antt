-- ===== src/Xdb/Workers.antt =====
-- The workers in the database: PushWorker, RemoveWorker, LoadWorker, PopWorker, GetWorkerByState,
-- GetWorkerByIdent, SetWorkerState and PushWorkerForService of xdb/impl/xdb_impl_db_broker.cpp.
-- A method that writes through its `Worker*` returns the object anew.
pub mod Laws
pub mod Identity
pub mod Lookup
use rtdbus.Base.{
  ℕ, Bytes, bytes_eq, c_str, take, Bool, true, false, ◌&&◌, Option, none, some, List, [], ◌∷◌, ◌==◌,
  if◌then◌else◌,
}
use rtdbus.Xdb.Rows.{Mark, XdbWorker, WorkerState, worker_state_eq}
use rtdbus.Xdb.Service.{Service}
use rtdbus.Xdb.Worker
use rtdbus.Xdb.Worker.{Worker, identity_maxlen}
use rtdbus.Xdb.Table.{put_fields}
use rtdbus.Xdb.Mco.{Mco, Db}
use rtdbus.Xdb.Services.{get_service_by_name, add_service}

unfoldable pub load_worker : ℕ → XdbWorker → Worker
load_worker aid r =
    let w = Worker.new r.service_ref (take identity_maxlen r.identity) aid r.letter_ref in
    Worker.set_valid (Worker.set_expiration r.expiration (Worker.set_state r.state w))

abbrev pub identified : Bytes → XdbWorker → Bool
identified n r = bytes_eq r.identity n

abbrev pub serves : ℕ → XdbWorker → Bool
serves i r = r.service_ref == i

-- The fields that PushWorker writes.
abbrev pub put_state : WorkerState → XdbWorker → XdbWorker
put_state st r = record r { state = st }

abbrev pub put_service_ref : ℕ → XdbWorker → XdbWorker
put_service_ref i r = record r { service_ref = i }

abbrev pub put_letter_ref : ℕ → XdbWorker → XdbWorker
put_letter_ref i r = record r { letter_ref = i }

abbrev pub put_sec : ℕ → XdbWorker → XdbWorker
put_sec v r = record r { expiration = record (r.expiration) { sec = v } }

abbrev pub put_nsec : ℕ → XdbWorker → XdbWorker
put_nsec v r = record r { expiration = record (r.expiration) { nsec = v } }

module _ (m : Mco) where
  -- The end of a transaction that writes workers: `old` is the object as it was, `new` as it is once
  -- the fields are written.
  abbrev commit_workers : Worker → Worker → Db m → Option m.worker.Store → Bool × Worker × Db m
  commit_workers old new db none = (false, old, db)
  commit_workers old new db (some s) =
      if db.starts
      then if db.commits then (true, new, record db { workers = s }) else (false, new, db)
      else (false, old, db)

  -- A worker that is known is armed again.
  unfoldable pub update_worker : Mark → Db m → ℕ → Worker → Bool × Worker × Db m
  update_worker now db i w =
      let next = Worker.next_expiration now in
      let w' = if w.id == 0 && db.starts then Worker.set_id i w else w in
      commit_workers w' w' db (
        put_fields m.worker db.workers i (
          put_state WorkerState.armed
          ∷ put_service_ref w.service_id
          ∷ put_sec next.sec
          ∷ put_nsec next.nsec
          ∷ []))

  -- A worker that is new is created.
  unfoldable pub create_worker : Mark → Db m → Worker → Bool × Worker × Db m
  create_worker now db w =
      let next = Worker.next_expiration now in
      elim (m.worker.create db.workers) [
        | none ↦ (false, w, db)
        | some (i, s) ↦
            elim (put_fields m.worker s i (
              (λ r. record r { identity = c_str w.identity })
              ∷ put_state WorkerState.armed
              ∷ put_service_ref w.service_id
              ∷ [])) [
                | none ↦ (false, w, db)
                | some s' ↦
                    commit_workers w (Worker.set_id i w) db
                      (put_fields m.worker s' i (put_sec next.sec ∷ put_nsec next.nsec ∷ []))
              ]
      ]

  -- PushWorker
  unfoldable pub push_worker : Mark → Db m → Worker → Bool × Worker × Db m
  unfolding update_worker create_worker
  push_worker now db w = elim (m.service.get db.services w.service_id) [
    | none ↦ (false, w, db)
    | some srv ↦ elim (m.worker.find db.workers (identified (c_str w.identity))) [
      | some i ↦ update_worker now db i w
      | none ↦ create_worker now db w
    ]
  ]

  -- RemoveWorker: the row stays, and is disarmed.
  unfoldable pub remove_worker : Db m → Worker → Bool × Worker × Db m
  remove_worker db w = elim (m.worker.find db.workers (identified (c_str w.identity))) [
    | none ↦ (false, w, db)
    | some i ↦
        commit_workers w (Worker.set_state WorkerState.disarmed w) db
          (put_fields m.worker db.workers i (put_state WorkerState.disarmed ∷ []))
  ]

  -- The loop of GetWorkerByState over the rows that its cursor meets.
  unfoldable pub first_in_state : m.worker.Store → WorkerState → List ℕ → Option Worker
  first_in_state s st [] = none
  first_in_state s st (i ∷ is) =
      let rest = first_in_state s st is in
      elim (m.worker.get s i) [
        | none ↦ none
        | some r ↦ if worker_state_eq st r.state then some (load_worker i r) else rest
      ]

  unfoldable pub get_worker_by_state : Db m → ℕ → WorkerState → Option Worker
  unfolding first_in_state
  get_worker_by_state db srv st =
      if db.starts
      then first_in_state db.workers st (m.worker.scan db.workers (serves srv))
      else none

  -- PopWorker: nothing is removed; the state that is asked for is ARMED by default.
  unfoldable pub pop_worker : Db m → Service → WorkerState → Option Worker
  unfolding get_worker_by_state
  pop_worker db srv st = get_worker_by_state db srv.id st

  unfoldable pub get_worker_by_ident : Db m → Bytes → Option Worker
  get_worker_by_ident db n = elim (m.worker.find db.workers (identified (c_str n))) [
    | none ↦ none
    | some i ↦ elim (m.worker.get db.workers i) [
      | none ↦ none
      | some r ↦ if db.starts then some (load_worker i r) else none
    ]
  ]

  -- A worker that is armed gives up its letter.
  abbrev state_writes : WorkerState → List (XdbWorker → XdbWorker)
  state_writes WorkerState.armed = put_letter_ref 0 ∷ put_state WorkerState.armed ∷ []
  state_writes st = put_state st ∷ []

  abbrev object_write : WorkerState → Worker → Worker
  object_write WorkerState.armed w = Worker.set_state WorkerState.armed (Worker.set_letter_id 0 w)
  object_write st w = Worker.set_state st w

  -- SetWorkerState
  unfoldable pub set_worker_state : Db m → Worker → WorkerState → Bool × Worker × Db m
  set_worker_state db w st = elim (m.worker.find db.workers (identified (c_str w.identity))) [
    | none ↦ (false, w, db)
    | some i ↦
        commit_workers w (object_write st w) db (put_fields m.worker db.workers i (state_writes st))
  ]

  push_new_worker : Mark → Db m → Service → Bytes → Option Worker × Db m
  unfolding push_worker
  push_new_worker now db srv ident =
      let (done, w, db') = push_worker now db (Worker.new srv.id (c_str ident) 0 0) in (some w, db')

  -- PushWorkerForService: the object comes back whether or not it was stored.
  unfoldable pub push_worker_for_service : Mark → Db m → Bytes → Bytes → Option Worker × Db m
  unfolding push_new_worker get_service_by_name add_service
  push_worker_for_service now db srv_name ident = elim (get_service_by_name m db srv_name) [
    | some srv ↦ push_new_worker now db srv ident
    | none ↦
        let (added, db') = add_service m db srv_name in
        elim added [ none ↦ (none, db') | some srv ↦ push_new_worker now db' srv ident ]
  ]
