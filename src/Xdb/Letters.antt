-- ===== src/Xdb/Letters.antt =====
-- The requests in the database: PushRequestToService, LoadLetter, GetWaitingLetter,
-- AssignLetterToWorker, ReleaseLetterFromWorker and SetLetterState of
-- xdb/impl/xdb_impl_db_broker.cpp. A failed assertion is `none`.
pub mod Laws
pub mod Assign
pub mod Keep
use rtdbus.Base.{
  ℕ, ◌+◌, ◌/◌, Bytes, take, Bool, true, false, ◌&&◌, Option, none, some, List, [], ◌∷◌, ◌==◌,
  if◌then◌else◌, ◌>>=◌, c_str,
}
use rtdbus.Xdb.Rows.{Mark, XdbWorker, XdbLetter, WorkerState, LetterState, is_unassigned}
use rtdbus.Xdb.Service.{Service}
use rtdbus.Xdb.Worker
use rtdbus.Xdb.Worker.{Worker, identity_maxlen, heartbeat_period_msec}
use rtdbus.Xdb.Letter
use rtdbus.Xdb.Letter.{Letter}
use rtdbus.Xdb.Table.{put_fields}
use rtdbus.Xdb.Mco.{Mco, Db}
use rtdbus.Xdb.Workers.{put_state, put_letter_ref, put_sec, put_nsec, set_worker_state}

-- MESSAGE_EXPIRATION_PERIOD_MSEC, the value of Letter::ExpirationPeriodValue
abbrev pub expiration_period_value : ℕ
expiration_period_value = 500

unfoldable pub load_letter : ℕ → XdbLetter → Letter
load_letter aid r =
    let l = Letter.new (take identity_maxlen r.origin) r.header r.body in
    let l' =
      Letter.set_worker_id r.worker_ref
        (Letter.set_service_id r.service_ref (Letter.set_id aid l)) in
    Letter.set_valid (Letter.set_state r.state (Letter.set_expiration r.expiration l'))

-- The fields of a letter that the code writes.
abbrev pub write_state : LetterState → XdbLetter → XdbLetter
write_state st r = record r { state = st }

abbrev pub write_service_ref : ℕ → XdbLetter → XdbLetter
write_service_ref i r = record r { service_ref = i }

abbrev pub write_worker_ref : ℕ → XdbLetter → XdbLetter
write_worker_ref i r = record r { worker_ref = i }

abbrev pub write_sec : ℕ → XdbLetter → XdbLetter
write_sec v r = record r { expiration = record (r.expiration) { sec = v } }

abbrev pub write_nsec : ℕ → XdbLetter → XdbLetter
write_nsec v r = record r { expiration = record (r.expiration) { nsec = v } }

abbrev pub waiting_for : ℕ → XdbLetter → Bool
waiting_for srv r = r.service_ref == srv && is_unassigned r.state

abbrev pub assigned_to : ℕ → XdbLetter → Bool
assigned_to wrk r = r.worker_ref == wrk

-- The fields that PushRequestToService writes into the letter that it creates.
abbrev pub request_writes : Mark → Service → ℕ → Letter → List (XdbLetter → XdbLetter)
request_writes now srv aid l =
    write_service_ref srv.id
    ∷ write_worker_ref aid
    ∷ write_state LetterState.unassigned
    ∷ write_nsec now.nsec
    ∷ write_sec (now.sec + heartbeat_period_msec / 1000)
    ∷ (λ r. record r { header = l.header })
    ∷ (λ r. record r { body = l.body })
    ∷ (λ r. record r { origin = c_str l.reply_to })
    ∷ []

-- The fields that AssignLetterToWorker writes; the period is in milliseconds, and is added to the
-- seconds.
abbrev pub letter_times : Mark → List (XdbLetter → XdbLetter)
letter_times now = write_sec (now.sec + expiration_period_value) ∷ write_nsec now.nsec ∷ []

abbrev pub worker_times : Mark → List (XdbWorker → XdbWorker)
worker_times now = put_sec (now.sec + expiration_period_value) ∷ put_nsec now.nsec ∷ []

module _ (m : Mco) where
  abbrev pub commit_letters : Letter → Letter → Db m → Option m.letter.Store → Bool × Letter × Db m
  commit_letters old new db none = (false, old, db)
  commit_letters old new db (some s) =
      if db.starts
      then if db.commits then (true, new, record db { letters = s }) else (false, new, db)
      else (false, old, db)

  -- The object once PushRequestToService has stored it under the number `aid`.
  abbrev pub pushed : Mark → Service → ℕ → Letter → Letter
  pushed now srv aid l =
      let l' = Letter.set_worker_id 0 (Letter.set_service_id srv.id (Letter.set_id aid l)) in
      Letter.set_expiration
        (record { sec = now.sec + heartbeat_period_msec / 1000; nsec = now.nsec })
        (Letter.set_state LetterState.unassigned l')

  -- PushRequestToService. The field worker_ref, which is a unique key, is filled with the letter's own
  -- number until a worker is known.
  unfoldable pub push_request_to_service : Mark → Db m → Service → Letter → Bool × Letter × Db m
  push_request_to_service now db srv l = elim (m.letter.create db.letters) [
    | none ↦ (false, l, db)
    | some (aid, s) ↦
        commit_letters (if db.starts then Letter.set_id aid l else l) (pushed now srv aid l) db
          (put_fields m.letter s aid (request_writes now srv aid l))
  ]

  -- The loop of GetWaitingLetter: the first row that its cursor meets.
  unfoldable pub first_letter : m.letter.Store → List ℕ → Option Letter
  first_letter s [] = none
  first_letter s (i ∷ is) = elim (m.letter.get s i) [
    | none ↦ none
    | some r ↦ some (load_letter i r)
  ]

  -- GetWaitingLetter: the letter stays in the database.
  unfoldable pub get_waiting_letter : Db m → Service → Option Letter
  unfolding first_letter
  get_waiting_letter db srv =
      if db.starts
      then first_letter db.letters (m.letter.scan db.letters (waiting_for srv.id))
      else none

  -- AssignLetterToWorker, once the time is written.
  unfoldable pub assign_states :
      Db m → Worker → Letter → m.letter.Store → m.worker.Store → Bool × Worker × Letter × Db m
  assign_states db w l ls ws =
      let w' = Worker.set_state WorkerState.occupied w in
      let l' = Letter.set_worker_id w.id (Letter.set_state LetterState.assigned l) in
      elim (put_fields m.letter ls l.id (write_state LetterState.assigned ∷ [])) [
        | none ↦ (false, w, l, db)
        | some ls₁ ↦ elim (put_fields m.worker ws w.id (put_state WorkerState.occupied ∷ [])) [
          | none ↦ (false, w, l', db)
          | some ws₁ ↦ elim (put_fields m.worker ws₁ w.id (put_letter_ref l.id ∷ [])) [
            | none ↦ (false, w', l', db)
            | some ws₂ ↦ elim (put_fields m.letter ls₁ l.id (write_worker_ref w.id ∷ [])) [
              | none ↦ (false, w', l', db)
              | some ls₂ ↦
                  if db.commits
                  then (true, w', l', record db { workers = ws₂; letters = ls₂ })
                  else (false, w', l', db)
            ]
          ]
        ]
      ]

  -- AssignLetterToWorker. The results of the writing of the time are not looked at: where
  -- mco_get_last_error then finds an error, the loop is left with `rc` still MCO_S_OK, so that nothing
  -- is committed and the answer is true.
  unfoldable pub assign_letter_to_worker :
      Mark → Db m → Worker → Letter → Bool × Worker × Letter × Db m
  unfolding assign_states
  assign_letter_to_worker now db w l =
      if db.starts
      then elim (m.letter.get db.letters l.id) [
        | none ↦ (false, w, l, db)
        | some _ ↦ elim (m.worker.get db.workers w.id) [
          | none ↦ (false, w, l, db)
          | some _ ↦ elim (put_fields m.letter db.letters l.id (letter_times now)) [
            | none ↦ (true, w, l, db)
            | some ls ↦ elim (put_fields m.worker db.workers w.id (worker_times now)) [
              | none ↦ (true, w, l, db)
              | some ws ↦ assign_states db w l ls ws
            ]
          ]
        ]
      ]
      else (false, w, l, db)

  -- What follows the removal of the letter: the worker is armed by SetWorkerState, whose transaction
  -- runs inside this one. Where that fails, the source leaves the loop with `rc` still MCO_S_OK: it
  -- neither commits nor rolls back, and answers true.
  unfoldable pub release_worker : Db m → Db m → Worker → Bool × Worker × Db m
  unfolding set_worker_state
  release_worker before db w =
      let (armed', w', db') = set_worker_state m db w WorkerState.armed in
      if armed'
      then if db.commits
        then (true, Worker.set_state WorkerState.armed w', db')
        else (false, Worker.set_state WorkerState.armed w', before)
      else (true, w', db)

  -- ReleaseLetterFromWorker
  unfoldable pub release_letter_from_worker : Db m → Worker → Option (Bool × Worker × Db m)
  unfolding release_worker
  release_letter_from_worker db w = elim (m.letter.find db.letters (assigned_to w.id)) [
    | none ↦ some (false, w, db)
    | some i ↦ elim (m.letter.get db.letters i) [
      | none ↦ none
      | some r ↦
          if db.starts
          then if r.service_ref == w.service_id
            then elim (m.letter.remove db.letters i) [
              | none ↦ some (false, w, db)
              | some s ↦ some (release_worker db (record db { letters = s }) w)
            ]
            else none
          else some (false, w, db)
    ]
  ]

  -- SetLetterState
  unfoldable pub set_letter_state : Db m → Letter → LetterState → Bool × Letter × Db m
  set_letter_state db l st =
      commit_letters l (Letter.set_state st l) db
        (put_fields m.letter db.letters l.id (write_state st ∷ []))
