-- ===== src/Broker/Tests.antt =====
-- Examples of the properties of the broker, over a database of lists of rows.
use rtdbus.Base.{
  ℕ, Bytes, text, c_str, strncpy, find_bytes, bytes_eq, ◌≡◌, refl, ◌⊎◌, true, none, some, List, [],
  ◌∷◌, ◌++◌, arith,
}
use rtdbus.Zmsg.{
  Zmsg, parts, push_front, push_front_string, wrap, unwrap, get_part, address, is_empty_address,
}
use rtdbus.Xdb.Rows.{XdbWorker, XdbLetter, WorkerState, LetterState}
use rtdbus.Xdb.Service
use rtdbus.Xdb.Service.{Service}
use rtdbus.Xdb.Worker
use rtdbus.Xdb.Worker.{Worker}
use rtdbus.Xdb.Letter
use rtdbus.Xdb.Mco.{Db}
use rtdbus.Xdb.Memory.{memory, memory-IsMco}
use rtdbus.Xdb.Samples.{
  noon, worker_row, worker_object, letter_row, with_worker, ready, idle, echo,
  with_worker-UniqueIdentity, with_worker_all,
}
use rtdbus.Broker.State.{
  Broker, emit, with_db, release, request_message, worker_send_command, worker_send_letter,
  mdpw_worker, mdpc_client, mdpc_nak, mdpw_report, mdpw_heartbeat, mdpw_disconnect,
}
use rtdbus.Broker.Dispatch.{send_waiting, purge_workers}
use rtdbus.Broker.WorkerSide.{worker_msg, is_internal}
use rtdbus.Broker.ClientSide.{client_msg}
use rtdbus.Broker.Delivery.{Delivers, send_waiting-Delivers}
use rtdbus.Xdb.Workers.Identity.{IsAddressed, IsAddressable}
use rtdbus.Broker.Purge.{Expires, purge_workers-Expires}
use rtdbus.Broker.Replies.{reply_head, mmi_service_lem, client_msg_nak}
use rtdbus.Broker.Dispatch.{
  service_dispatch, worker_waiting, purge_list, purge_service, service_list, store_request,
}
use rtdbus.Broker.WorkerSide.{process_report, report_message}
use rtdbus.Broker.Requests.{client_msg-keeps}
use rtdbus.Broker.Reports.{process_report-sends, process_report-keeps}
use rtdbus.Xdb.Services.{
  get_service_by_name, get_service_by_id, load_service, get_service_for_worker, state_to_object,
}
use rtdbus.Xdb.Workers.{
  get_worker_by_ident, load_worker, remove_worker, push_worker, update_worker, set_worker_state,
  get_worker_by_state, first_in_state, pop_worker, create_worker,
}
use rtdbus.Xdb.Letters.{
  release_letter_from_worker, release_worker, get_waiting_letter, first_letter, load_letter,
  assign_letter_to_worker, assign_states, push_request_to_service,
}
use rtdbus.Xdb.Letters.Keep.{content}
use rtdbus.Xdb.Table.{put_fields}
use rtdbus.Broker.Senders.{disconnect_message, unknown_sender, known_sender}

abbrev broker : Db memory → Broker memory
broker db = record { db = db; sent = []; heartbeat_at = 0 }

send_waiting-Delivers_example :
    (send_waiting memory noon (broker ready) echo ≡ broker ready)
    ⊎ Delivers memory (broker ready) (send_waiting memory noon (broker ready) echo) echo
send_waiting-Delivers_example = send_waiting-Delivers memory memory-IsMco noon (broker ready) echo

idle-IsAddressed : IsAddressed memory idle
unfolding c_str strncpy
idle-IsAddressed = record {
  unique = with_worker-UniqueIdentity (worker_row WorkerState.armed 0) [];
  fits = with_worker_all (λ r. IsAddressable r.identity) (worker_row WorkerState.armed 0) [] refl;
}

purge_workers-Expires_example :
    (b' : Broker memory) × (r' : XdbWorker) × (purge_workers memory noon (broker idle) ≡ some b')
    × (memory.worker.get b'.db.workers 1 ≡ some r')
    × Expires noon (worker_row WorkerState.armed 0) r'
    × IsAddressed memory b'.db
    × (b'.sent ≡ [])
    × (b'.db.letters ≡ [])
purge_workers-Expires_example =
    purge_workers-Expires memory memory-IsMco noon (broker idle) idle-IsAddressed 1
      (worker_row WorkerState.armed 0) refl

mmi_service_lem_example :
    client_msg memory noon (broker ready) (text "c9") (text "mmi.service" ∷ text "ECHO" ∷ [])
    ≡ some (
        emit memory
          (broker ready)
          (reply_head (text "c9") (text "mmi.service") (text "200" ∷ text "tcp://e:1" ∷ [])))
unfolding c_str get_service_by_name bytes_eq load_service Service.set_valid Service.set_endpoint
    Service.set_state
mmi_service_lem_example = mmi_service_lem memory noon (broker ready) (text "c9") refl (text "ECHO")

client_msg_nak_example :
    client_msg memory noon (broker ready) (text "c9") (text "SINF" ∷ text "q" ∷ [])
    ≡ some (emit memory (broker ready) (text "c9" ∷ [] ∷ mdpc_client ∷ mdpc_nak ∷ text "SINF" ∷ []))
unfolding c_str bytes_eq is_internal find_bytes get_service_by_name
client_msg_nak_example =
    client_msg_nak memory noon (broker ready) (text "c9") refl (text "SINF") (text "q") [] refl refl

unknown_sender_example :
    (worker_msg memory noon (broker ready) (text "w9") (mdpw_heartbeat ∷ []) ≡ some (broker ready))
    × (worker_msg memory noon (broker ready) (text "w9") (mdpw_report ∷ [])
        ≡ some (emit memory (broker ready) (disconnect_message (text "w9"))))
    × (worker_msg memory noon (broker ready) (text "w9") (mdpw_disconnect ∷ []) ≡ none)
unfolding c_str bytes_eq get_worker_by_ident
unknown_sender_example = unknown_sender memory noon (broker ready) b'w' (text "9") [] refl

-- The answer of the broker to a DISCONNECT of its worker.
abbrev parted : Broker memory
parted = broker (record ready { workers = some (worker_row WorkerState.disarmed 0) ∷ [] })

disconnected :
    worker_msg memory noon (broker ready) (text "w1") (mdpw_disconnect ∷ []) ≡ some parted
unfolding c_str strncpy bytes_eq get_worker_by_ident load_worker Worker.new Worker.set_identity
    Worker.set_state Worker.set_expiration Worker.set_valid remove_worker put_fields with_db
disconnected = (known_sender memory noon (broker ready) b'w' (text "1") [] _ refl).1

client_msg-keeps_example :
    (r' : XdbLetter) × (memory.letter.get ready.letters 1 ≡ some r')
    × (content r' ≡ content (letter_row LetterState.unassigned 1))
unfolding emit
client_msg-keeps_example =
    client_msg-keeps memory memory-IsMco noon (broker ready)
      (emit memory (broker ready)
        (reply_head (text "c9") (text "mmi.service") (text "200" ∷ text "tcp://e:1" ∷ [])))
      (text "c9") (text "mmi.service" ∷ text "ECHO" ∷ []) 1 (letter_row LetterState.unassigned 1)
      mmi_service_lem_example refl

-- The worker has a request, and another one waits.
abbrev busier : Db memory
busier =
    with_worker (worker_row WorkerState.occupied 1)
      (some (letter_row LetterState.assigned 1) ∷ some (letter_row LetterState.unassigned 2) ∷ [])

-- The broker after the worker has reported: it has the other request.
abbrev reported : Broker memory
reported = record {
  db =
      with_worker
        (record (worker_row WorkerState.occupied 2) { expiration = record { sec = 600; nsec = 7 } })
        (none
          ∷ some (record (letter_row LetterState.assigned 1) {
            expiration = record { sec = 600; nsec = 7 };
          })
          ∷ []);
  sent =
      (text "c1" ∷ [] ∷ mdpc_client ∷ (2 ∷ []) ∷ text "ECHO" ∷ text "done" ∷ [])
      ∷ (text "w1" ∷ [] ∷ mdpw_worker ∷ (2 ∷ []) ∷ text "c1" ∷ text "h" ∷ text "b" ∷ [])
      ∷ [];
  heartbeat_at = 0;
}

abbrev reporter : Worker
reporter = record (worker_object WorkerState.armed 0) { modified = true }

report_run :
    process_report memory noon
      (broker busier)
      (some (worker_object WorkerState.occupied 1))
      (text "c1" ∷ [] ∷ text "done" ∷ [])
    ≡ some (true, some reporter, reported)
unfolding process_report get_service_for_worker load_service Service.set_valid Service.set_endpoint
    Service.set_state Service.new release_letter_from_worker unwrap worker_waiting push_worker
    bytes_eq put_fields Worker.set_state Worker.set_letter_id emit with_db service_dispatch c_str
    strncpy purge_list purge_service purge_workers send_waiting service_list store_request release
    request_message worker_send_command worker_send_letter report_message Letter.new Letter.of_zmsg
    Letter.set_expiration Letter.set_id Letter.set_service_id Letter.set_state Letter.set_valid
    Letter.set_worker_id assign_letter_to_worker assign_states first_letter get_waiting_letter
    load_letter push_request_to_service release_worker Service.set_name get_service_by_id
    state_to_object Worker.expired Worker.new Worker.next_expiration Worker.set_expiration
    Worker.set_id Worker.set_identity Worker.set_valid create_worker first_in_state
    get_worker_by_state load_worker pop_worker remove_worker set_worker_state update_worker address
    get_part is_empty_address parts push_front push_front_string wrap
report_run = refl

process_report-sends_example :
    (client : Bytes) × (rest : Zmsg) × (srv : Service) × (i : ℕ) × (r : XdbLetter) × (more : List
      Zmsg)
    × (unwrap (text "c1" ∷ [] ∷ text "done" ∷ []) ≡ some (client, rest))
    × (get_service_for_worker memory busier (worker_object WorkerState.occupied 1) ≡ some srv)
    × (reported.sent ≡ [] ++ report_message client srv.name rest ∷ more)
    × (memory.letter.get busier.letters i ≡ some r)
    × (r.worker_ref ≡ 1)
    × (memory.letter.get reported.db.letters i ≡ none)
process_report-sends_example =
    process_report-sends memory memory-IsMco noon (broker busier) reported
      (worker_object WorkerState.occupied 1) (text "c1" ∷ [] ∷ text "done" ∷ []) (some reporter)
      report_run

process_report-keeps_example :
    (r' : XdbLetter) × (memory.letter.get reported.db.letters 2 ≡ some r')
    × (content r' ≡ content (letter_row LetterState.unassigned 2))
process_report-keeps_example =
    process_report-keeps memory memory-IsMco noon (broker busier) reported
      (worker_object WorkerState.occupied 1) (text "c1" ∷ [] ∷ text "done" ∷ []) (some reporter) 2
      (letter_row LetterState.unassigned 2) report_run refl (λ e. omega (arith, e))
