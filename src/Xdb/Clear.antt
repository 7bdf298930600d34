-- ===== src/Xdb/Clear.antt =====
-- ClearWorkersForService and ClearServices of xdb/impl/xdb_impl_db_broker.cpp.
pub mod Shrinks
pub mod Count
pub mod Ends
pub mod Services
pub mod Tests
use rtdbus.Base.{ℕ, zero, suc, Bool, true, false, Option, none, some, ◌>>=◌, length}
use rtdbus.Xdb.Rows.{WorkerState}
use rtdbus.Xdb.Service.{Service}
use rtdbus.Xdb.Worker.{Worker}
use rtdbus.Xdb.Mco.{Mco, Db}
use rtdbus.Xdb.Services.{remove_service}
use rtdbus.Xdb.Workers.{pop_worker, remove_worker, serves}
use rtdbus.Xdb.Letters.{release_letter_from_worker}
use rtdbus.Xdb.ServiceList
use rtdbus.Xdb.ServiceList.{ServiceList}

module _ (m : Mco) where
  -- The body of the loop: the request of the worker is taken out, and the worker is disarmed. The
  -- answers of both calls are not looked at.
  unfoldable pub clear_worker : Db m → Worker → Option (Db m)
  clear_worker db w =
      release_letter_from_worker m db w >>= λ (done, w', db'). some (remove_worker m db' w').2

  -- while ((wrk = PopWorker (service, OCCUPIED))), for at most so many turns; `none` where these do
  -- not do, or an assertion fails.
  unfoldable pub clear_loop : ℕ → Db m → Service → Option (Db m)
  unfolding clear_worker
  clear_loop zero db srv = none
  clear_loop (suc n) db srv = elim (pop_worker m db srv WorkerState.occupied) [
    | none ↦ some db
    | some w ↦ clear_worker db w >>= λ db'. clear_loop n db' srv
  ]

  -- One turn for each worker of the service, and one to see that there is no other.
  unfoldable pub clear_workers_for_service : Db m → Service → Option (Db m)
  unfolding clear_loop
  clear_workers_for_service db srv =
      clear_loop (suc (length (m.worker.scan db.workers (serves srv.id)))) db srv

  -- The loop of ClearServices; ClearWorkersForService always answers true, so that the status is
  -- that of RemoveService, for the last service.
  unfoldable pub clear_list :
      ℕ → Bool → Db m → Option Service × ServiceList → Option (Bool × Db m × ServiceList)
  unfolding clear_workers_for_service
  clear_list n status db (none, l) = some (status, db, l)
  clear_list zero status db (some srv, l) = none
  clear_list (suc n) status db (some srv, l) = do
    db' ← clear_workers_for_service db srv
    clear_list n (remove_service m db' srv.name).0 (remove_service m db' srv.name).1
        (ServiceList.next l)

  -- ClearServices: the list may not have been made yet; it is not read anew.
  unfoldable pub clear_services :
      Db m → Option ServiceList → Option (Bool × Db m × Option ServiceList)
  unfolding clear_list
  clear_services db none = some (true, db, none)
  clear_services db (some l) = do
    (status, db', l') ← clear_list (length l.array) false db (ServiceList.first l)
    some (status, db', some l')
