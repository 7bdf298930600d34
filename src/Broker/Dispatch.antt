-- ===== src/Broker/Dispatch.antt =====
-- purge_workers, service_require, service_dispatch and worker_waiting of mdp/mdp_broker.cpp.
-- `now` is the reading of the clock, which is taken as one while a message is handled.
use rtdbus.Base.{
  ℕ, Bytes, true, false, Option, none, some, List, [], ◌∷◌, if◌then◌else◌, ◌>>=◌, ◌>>◌, guard,
  length, ltb, take,
}
use rtdbus.Zmsg.{Zmsg}
use rtdbus.Xdb.Rows.{Mark, WorkerState}
use rtdbus.Xdb.Service.{Service}
use rtdbus.Xdb.Worker
use rtdbus.Xdb.Worker.{Worker}
use rtdbus.Xdb.Letter
use rtdbus.Xdb.Mco.{Mco, Db}
use rtdbus.Xdb.Services.{get_service_by_name, get_service_by_id, add_service}
use rtdbus.Xdb.Workers.{pop_worker, get_worker_by_state, push_worker}
use rtdbus.Xdb.Letters.{push_request_to_service, get_waiting_letter}
use rtdbus.Broker.State.{Broker, with_db, release, worker_send_letter, mdpw_request, empty_frame}

-- MAX_SERVICES_ENTRY of broker_db.mco
abbrev pub max_services_entry : ℕ
max_services_entry = 400

module _ (m : Mco) where
  -- GetServiceList, with ServiceList::refresh: the numbers of the services, in the cursor's order.
  unfoldable pub service_list : Db m → List ℕ
  service_list db =
      if db.starts then take max_services_entry (m.service.scan db.services (λ r. true)) else []

  -- One turn of the loop of purge_workers: of the armed workers of a service, the one that PopWorker
  -- gives is looked at.
  unfoldable pub purge_service : Mark → Broker m → ℕ → Option (Broker m)
  unfolding release get_worker_by_state
  purge_service now b srv = elim (get_worker_by_state m b.db srv WorkerState.armed) [
    | none ↦ some b
    | some w ↦
        if Worker.expired now w then (release m b (some w) false >>= λ r. some (r.2)) else some b
  ]

  unfoldable pub purge_list : Mark → Broker m → List ℕ → Option (Broker m)
  purge_list now b [] = some b
  purge_list now b (i ∷ is) = do b' ← purge_service now b i; purge_list now b' is

  unfoldable pub purge_workers : Mark → Broker m → Option (Broker m)
  purge_workers now b = purge_list now b (service_list b.db)

  -- service_require: the service is registered where it is not known.
  unfoldable pub service_require : Broker m → Bytes → Option (Service × Broker m)
  service_require b n = do
    guard (ltb 0 (length n))
    elim (get_service_by_name m b.db n) [
      | some srv ↦ some (srv, b)
      | none ↦
          let (added, db') = add_service m b.db n in
          elim added [ none ↦ none | some srv ↦ some (srv, with_db m b db') ]
    ]

  -- The message of a client becomes a letter that waits for a worker.
  unfoldable pub store_request : Mark → Broker m → Service → Option Zmsg → Option (Broker m)
  store_request now b srv none = some b
  store_request now b srv (some msg) = do
    l ← Letter.of_zmsg msg
    some (with_db m b (push_request_to_service m now b.db srv l).2)

  -- The body of the `while` of service_dispatch ends in `break`: one letter at most is sent.
  unfoldable pub send_waiting : Mark → Broker m → Service → Broker m
  send_waiting now b srv = elim (pop_worker m b.db srv WorkerState.armed) [
    | none ↦ b
    | some w ↦ elim (get_waiting_letter m b.db srv) [
      | none ↦ b
      | some l ↦ worker_send_letter m now b w mdpw_request empty_frame l
    ]
  ]

  unfoldable pub service_dispatch : Mark → Broker m → Service → Option Zmsg → Option (Broker m)
  service_dispatch now b srv msg = do
    b₁ ← store_request now b srv msg
    b₂ ← purge_workers now b₁
    some (send_waiting now b₂ srv)

  -- worker_waiting
  unfoldable pub worker_waiting : Mark → Broker m → Worker → Option (Worker × Broker m)
  worker_waiting now b w =
      let (pushed, w', db') = push_worker m now b.db w in
      elim (get_service_by_id m db' w'.service_id) [
        | none ↦ some (w', with_db m b db')
        | some srv ↦ (service_dispatch now (with_db m b db') srv none >>= λ b'. some (w', b'))
      ]
