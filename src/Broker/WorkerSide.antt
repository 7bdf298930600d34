-- ===== src/Broker/WorkerSide.antt =====
-- worker_msg of mdp/mdp_broker.cpp, and the handlers of READY, REPORT, HEARTBEAT and DISCONNECT.
use rtdbus.Base.{
  Bytes, text, bytes_eq, find_bytes, Bool, true, false, ◌&&◌, Option, none, some, [], if◌then◌else◌,
  ◌>>=◌, ◌>>◌, guard, length, ltb, leb, ◌==◌,
}
use rtdbus.Zmsg.{Zmsg, parts, pop_front, push_front, wrap, unwrap}
use rtdbus.Xdb.Rows.{Mark}
use rtdbus.Xdb.Service
use rtdbus.Xdb.Service.{Service}
use rtdbus.Xdb.Worker
use rtdbus.Xdb.Worker.{Worker}
use rtdbus.Xdb.Mco.{Mco}
use rtdbus.Xdb.Services.{update_service, get_service_for_worker}
use rtdbus.Xdb.Workers.{get_worker_by_ident}
use rtdbus.Xdb.Letters.{release_letter_from_worker}
use rtdbus.Broker.State.{
  Broker, emit, with_db, release, worker_send_command, empty_frame, mdpc_client, mdpc_report,
  mdpw_ready, mdpw_report, mdpw_heartbeat, mdpw_disconnect,
}
use rtdbus.Broker.Dispatch.{service_require, service_dispatch, worker_waiting}

-- The test for a reserved name: "mmi." stands anywhere in it.
unfoldable pub is_internal : Bytes → Bool
is_internal n = leb 4 (length n) && find_bytes (text "mmi.") n

-- A REPORT on its way to the client that its envelope names.
unfoldable pub report_message : Bytes → Bytes → Zmsg → Zmsg
unfolding push_front wrap
report_message client service_name msg =
    wrap client (some empty_frame)
      (push_front mdpc_client (push_front mdpc_report (push_front service_name msg)))

module _ (m : Mco) where
  -- What a handler leaves: its status, the worker (if known) and the broker.
  abbrev pub Handled : Type 0
  Handled = Option (Bool × Option Worker × Broker m)

  abbrev pub released : Option (Bool × Worker × Broker m) → Handled
  released none = none
  released (some (status, w, b)) = some (status, some w, b)

  -- A worker that is not known yet.
  unfoldable pub register_worker : Mark → Broker m → Bytes → Zmsg → Handled
  register_worker now b sender msg = do
    (service_name, rest) ← pop_front msg
    (endpoint, rest') ← pop_front rest
    (srv, b₁) ← service_require m b service_name
    (updated, db₂) ← update_service m b₁.db (Service.set_endpoint endpoint srv)
    (w, b₃) ← worker_waiting m now (with_db m b₁ db₂) (Worker.new srv.id sender 0 0)
    b₄ ← service_dispatch m now b₃ srv none
    some (true, some w, b₄)

  unfoldable pub process_ready : Mark → Broker m → Option Worker → Bytes → Zmsg → Handled
  process_ready now b (some w) sender msg = released (release m b (some w) true)
  process_ready now b none sender msg =
      if is_internal sender
      then released (release m b none true)
      else register_worker now b sender msg

  unfoldable pub process_report : Mark → Broker m → Option Worker → Zmsg → Handled
  process_report now b none msg = some (false, none, b)
  process_report now b (some w) msg = do
    srv ← get_service_for_worker m b.db w
    guard (srv.id == w.service_id)
    (status, w', db') ← release_letter_from_worker m b.db w
    (client, rest) ← unwrap msg
    (w'', b') ←
        worker_waiting m now (emit m (with_db m b db') (report_message client srv.name rest)) w'
    some (status, some w'', b')

  unfoldable pub process_heartbeat : Mark → Broker m → Option Worker → Handled
  process_heartbeat now b none = some (true, none, b)
  process_heartbeat now b (some w) = do
    (w', b') ← worker_waiting m now b w
    some (true, some w', b')

  unfoldable pub process_disconnect : Broker m → Option Worker → Handled
  process_disconnect b w = released (release m b w false)

  -- The branches of worker_msg by the command; an unknown one is dumped.
  unfoldable pub dispatch_command : Mark → Broker m → Bytes → Option Worker → Bytes → Zmsg → Handled
  dispatch_command now b command w sender msg =
      if bytes_eq command mdpw_ready
      then process_ready now b w sender msg
      else if bytes_eq command mdpw_report
      then process_report now b w msg
      else if bytes_eq command mdpw_heartbeat
      then process_heartbeat now b w
      else if bytes_eq command mdpw_disconnect
      then process_disconnect b w
      else some (false, w, b)

  -- An unknown sender whose message failed is told to disconnect.
  unfoldable pub answer_failure : Bytes → Bool × Option Worker × Broker m → Broker m
  answer_failure sender (true, w, b) = b
  answer_failure sender (false, some w, b) = b
  answer_failure sender (false, none, b) =
      worker_send_command m b sender mdpw_disconnect empty_frame []

  unfoldable pub worker_msg : Mark → Broker m → Bytes → Zmsg → Option (Broker m)
  worker_msg now b sender msg = do
    guard (leb 1 (parts msg))
    guard (ltb 0 (length sender))
    (command, rest) ← pop_front msg
    r ← dispatch_command now b command (get_worker_by_ident m b.db sender) sender rest
    some (answer_failure sender r)
