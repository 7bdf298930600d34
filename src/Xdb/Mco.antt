-- ===== src/Xdb/Mco.antt =====
-- The database of the broker, as the code sees it through eXtremeDB: the three classes, and the
-- transactions that each method of DatabaseBrokerImpl opens. A failed step ends in a rollback,
-- after which the contents are those before.
use rtdbus.Base.{Bool}
use rtdbus.Xdb.Rows.{XdbService, XdbWorker, XdbLetter, new_service, new_worker, new_letter}
use rtdbus.Xdb.Table.{Table, IsTable}

pub record Mco : Type 1 where
  pub service : Table XdbService
  pub worker : Table XdbWorker
  pub letter : Table XdbLetter

pub record IsMco (m : Mco) : Type 0 where
  pub service_laws : IsTable new_service m.service
  pub worker_laws : IsTable new_worker m.worker
  pub letter_laws : IsTable new_letter m.letter

module _ (m : Mco) where
  -- The contents, and whether the runtime will start and commit the next transactions.
  pub record Db : Type 0 where
    pub services : m.service.Store
    pub workers : m.worker.Store
    pub letters : m.letter.Store
    pub starts : Bool
    pub commits : Bool
