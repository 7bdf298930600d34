-- ===== src/Xdb/Tests.antt =====
-- Examples of the properties of the database, over a list of rows.
use rtdbus.Base.{ℕ, text, c_str, bytes_eq, ◌≡◌, refl, ◌⊎◌, true, none, some}
use rtdbus.Xdb.Rows.{XdbWorker}
use rtdbus.Xdb.Service.{Service, ServiceState}
use rtdbus.Xdb.Worker.{Worker}
use rtdbus.Xdb.Table.{put_fields}
use rtdbus.Xdb.Memory.{memory, memory-IsMco}
use rtdbus.Xdb.Workers.{push_worker, update_worker, create_worker, identified}
use rtdbus.Xdb.Workers.Laws.{SetsWorker, IsArmedBy, push_worker-SetsWorker}
use rtdbus.Xdb.Samples.{noon, newcomer, ready}

push_worker-SetsWorker_example :
    (i : ℕ) × (r : XdbWorker) × SetsWorker memory ready
      ((push_worker memory noon ready newcomer).2)
      i
      r
    × IsArmedBy memory noon newcomer r
    × ((memory.worker.find ready.workers (identified (c_str (text "w2"))) ≡ some i)
        ⊎ ((memory.worker.find ready.workers (identified (c_str (text "w2"))) ≡ none)
            × (memory.worker.get ready.workers i ≡ none)))
unfolding push_worker create_worker update_worker put_fields bytes_eq c_str
push_worker-SetsWorker_example = push_worker-SetsWorker memory memory-IsMco noon ready newcomer refl

-- A worker of a service that is not stored.
abbrev stray : Worker
stray = record newcomer { service_id = 5 }

abbrev sinf : Service
sinf = record {
  id = 2;
  name = text "SINF";
  endpoint = none;
  state = ServiceState.registered;
  modified = true;
}
