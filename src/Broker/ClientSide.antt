-- ===== src/Broker/ClientSide.antt =====
-- client_msg and service_internal of mdp/mdp_broker.cpp.
use rtdbus.Base.{
  Bytes, text, bytes_eq, Bool, true, false, not, Option, none, some, if◌then◌else◌, ◌>>=◌, ◌>>◌,
  guard, leb, ◌==◌,
}
use rtdbus.Zmsg.{
  Zmsg, parts, pop_front, push_front, push_back, wrap, unwrap, get_part, body_set, clear,
}
use rtdbus.Xdb.Rows.{Mark}
use rtdbus.Xdb.Service.{Service, ServiceState}
use rtdbus.Xdb.Mco.{Mco}
use rtdbus.Xdb.Services.{get_service_by_name}
use rtdbus.Broker.State.{Broker, emit, empty_frame, mdpc_client, mdpc_report, mdpc_nak}
use rtdbus.Broker.Dispatch.{service_dispatch}
use rtdbus.Broker.WorkerSide.{is_internal}

abbrev pub is_available : ServiceState → Bool
is_available ServiceState.activated = true
is_available ServiceState.registered = true
is_available _ = false

-- The answer to mmi.service for the service that was found, if any. GetENDPOINT asserts that there is
-- an endpoint, which LoadService gives to every service of the database.
unfoldable pub service_answer : Option Service → Zmsg → Option Zmsg
service_answer none msg = some (body_set (text "404") msg)
service_answer (some srv) msg =
    if is_available srv.state
    then (srv.endpoint >>= λ e. some (push_back e (body_set (text "200") msg)))
    else some (body_set (text "404") msg)

-- mmi.filter: EnableServiceCommand and DisableServiceCommand end in a failed assertion.
unfoldable pub filter_answer : Zmsg → Option Zmsg
filter_answer msg = do
  (operation, msg₁) ← pop_front msg
  (service, msg₂) ← pop_front msg₁
  (command, msg₃) ← pop_front msg₂
  guard (not (bytes_eq operation (text "enable")))
  guard (not (bytes_eq operation (text "disable")))
  some (push_front empty_frame (body_set (text "400") msg₃))

-- The envelope of an internal service's answer.
unfoldable pub internal_message : Bytes → Bytes → Zmsg → Zmsg
internal_message client service_name msg =
    let inner = push_front mdpc_report (wrap mdpc_client (some service_name) msg) in
    wrap client (some empty_frame) (push_front mdpc_client inner)

unfoldable pub nak_message : Bytes → Bytes → Zmsg → Zmsg
nak_message sender service_name msg =
    wrap sender (some empty_frame)
      (push_front mdpc_client (push_front mdpc_nak (push_front service_name (clear msg))))

module _ (m : Mco) where
  unfoldable pub internal_answer : Broker m → Bytes → Zmsg → Option Zmsg
  internal_answer b service_name msg =
      if bytes_eq service_name (text "mmi.service")
      then (guard (parts msg == 3)
          >> (get_part 2 msg >>= λ asked. service_answer (get_service_by_name m b.db asked) msg))
      else if bytes_eq service_name (text "mmi.filter")
      then filter_answer msg
      else some (body_set (text "501") msg)

  unfoldable pub service_internal : Broker m → Bytes → Zmsg → Option (Broker m)
  service_internal b service_name msg = do
    guard (leb 2 (parts msg))
    answer ← internal_answer b service_name msg
    (client, rest) ← unwrap answer
    some (emit m b (internal_message client service_name rest))

  unfoldable pub client_msg : Mark → Broker m → Bytes → Zmsg → Option (Broker m)
  client_msg now b sender msg = do
    guard (leb 2 (parts msg))
    (service_frame, rest) ← pop_front msg
    if is_internal service_frame
        then service_internal b service_frame (wrap sender (some empty_frame) rest)
        else elim (get_service_by_name m b.db service_frame) [
          | none ↦ some (emit m b (nak_message sender service_frame rest))
          | some srv ↦ service_dispatch m now b srv (some (wrap sender (some empty_frame) rest))
        ]
