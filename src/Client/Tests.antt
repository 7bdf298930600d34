-- ===== src/Client/Tests.antt =====
-- Examples of the properties of the client's side.
use rtdbus.Base.{
  text, bytes_eq, c_str, strncpy, true, false, ◌≡◌, refl, none, some, List, [], ◌∷◌, arith,
}
use rtdbus.Zmsg.{push_front}
use rtdbus.Xdb.Memory.{memory}
use rtdbus.Client.{
  ServiceInfo, Mdcli, Ready, ChannelType, broker_message, find_info, service_info_by_name,
  send_direct, connect_peer, mark_connected, send_by, send, ask_service_info, remember,
  insert_service_info,
}
use rtdbus.Client.Atoi.{pos, atoi}
use rtdbus.Client.Services.{Call, calls, call}
use rtdbus.Client.Direct.{IsLinked, calls-IsLinked}
use rtdbus.Client.Services.{asking}
use rtdbus.Client.Answers.{answer, question, told, ask-answered}
use rtdbus.Xdb.Samples.{noon, ready}
use rtdbus.Xdb.Services.{get_service_by_name, load_service}
use rtdbus.Xdb.Service
use rtdbus.Broker.State.{Broker, emit}
use rtdbus.Broker.Loop.{handle_message}
use rtdbus.Client.Known.{Keeps, calls_keep_info}

atoi_runs : atoi (text " 200 ok") ≡ some (pos 200)
unfolding atoi
atoi_runs = refl

abbrev serving : Broker memory
serving = record { db = ready; sent = []; heartbeat_at = 0 }

-- A client that knows one service, and has not been connected to it.
abbrev sinf : ServiceInfo
sinf = record { endpoint_external = text "tcp://localhost:5556"; connected = false }

abbrev start : Mdcli
start = record {
  services_info = (text "SINF", sinf) ∷ [];
  to_broker = [];
  peer = none;
  to_peer = [];
  has_subscriber = false;
}

-- Two requests to the service directly, and one by way of the broker.
abbrev requests : List Call
requests =
    Call.send_request (text "SINF") [] ChannelType.direct
    ∷ Call.send_request (text "SINF") [] ChannelType.persistent
    ∷ Call.send_request (text "SINF") [] ChannelType.direct
    ∷ []

abbrev finish : Mdcli
finish = record {
  services_info = (text "SINF", record sinf { connected = true }) ∷ [];
  to_broker = broker_message (text "SINF") [] ∷ [];
  peer = some (text "tcp://localhost:5556" ∷ []);
  to_peer = ([] ∷ []) ∷ ([] ∷ []) ∷ [];
  has_subscriber = false;
}

requests_run : calls (λ _. true) requests start ≡ some finish
unfolding calls call send_by send_direct connect_peer mark_connected service_info_by_name find_info
    bytes_eq c_str push_front send
requests_run = refl

calls-IsLinked_example : IsLinked finish
calls-IsLinked_example =
    calls-IsLinked (λ _. true) requests start finish requests_run ((omega arith, tt), refl)

calls_keep_info_example : Keeps sinf (find_info (text "SINF") finish.services_info)
unfolding find_info bytes_eq
calls_keep_info_example =
    calls_keep_info (λ _. true) requests start finish (text "SINF") sinf requests_run refl

abbrev offer : Ready
offer = record {
  from_broker = some (answer (some (text "tcp://e:1")));
  from_subscriber = none;
  from_peer = none;
}

ask-answered_example :
    ((asking (text "ECHO") start).to_broker ≡ question (text "ECHO") ∷ [])
    × (handle_message memory noon serving (text "c9" ∷ question (text "ECHO"))
        ≡ some (emit memory serving (text "c9" ∷ answer (some (text "tcp://e:1")))))
    × (ask_service_info (text "ECHO") 100 offer start
        ≡ some (told (text "ECHO") 100 (some (text "tcp://e:1")) (asking (text "ECHO") start)))
unfolding c_str get_service_by_name bytes_eq load_service Service.set_valid Service.set_endpoint
    Service.set_state
ask-answered_example =
    ask-answered memory noon serving (text "c9") (text "ECHO") 100 offer start (omega arith) refl
      refl

-- The answer is what the code makes of it.
told_runs : told (text "ECHO") 100 (some (text "tcp://e:1")) start ≡ (
  pos 200,
  text "tcp://e:1",
  record start {
    services_info =
        (text "SINF", sinf)
        ∷ (text "ECHO", record { endpoint_external = text "tcp://e:1"; connected = false })
        ∷ [];
  },
)
unfolding remember strncpy c_str service_info_by_name insert_service_info find_info bytes_eq
told_runs = refl

-- A service that the client knows keeps the endpoint it has.
told_known :
    told (text "SINF") 100 (some (text "tcp://e:1")) start ≡ (pos 200, text "tcp://e:1", start)
unfolding strncpy c_str find_info bytes_eq
told_known = refl
