-- ===== src/Client.antt =====
-- mdp/mdp_client_async_api.cpp: the side of a client. The messages handed to the sockets are kept,
-- oldest first, and of the socket for direct exchange the endpoints it has been connected to.
pub mod Atoi
pub mod Services
pub mod Direct
pub mod Known
pub mod Answers
pub mod Tests
use rtdbus.Base.{
  ℕ, ◌+◌, Bytes, text, bytes_eq, c_str, strncpy, Bool, true, false, not, Option, none, some, List,
  [], ◌∷◌, ◌++◌, ◌==◌, if◌then◌else◌, ◌>>=◌, ◌>>◌, guard, length, leb,
}
use rtdbus.Zmsg.{Zmsg, recv, parts, pop_front, push_front}
use rtdbus.Broker.State.{mdpc_client, empty_frame}
use rtdbus.Client.Atoi.{ℤ, pos, atoi}

-- ENDPOINT_MAXLEN of cmake/CMakeLists.txt
abbrev pub endpoint_maxlen : ℕ
endpoint_maxlen = 100

-- endpoint_publisher is never written but by memset.
pub record ServiceInfo : Type 0 where
  pub endpoint_external : Bytes
  pub connected : Bool

-- m_services_info, from names to entries, with the entry of a name that is taken first found first.
abbrev pub ServicesHash : Type 0
ServicesHash = List (Bytes × ServiceInfo)

unfoldable pub find_info : Bytes → ServicesHash → Option ServiceInfo
find_info name [] = none
find_info name ((n, info) ∷ rest) = if bytes_eq n name then some info else find_info name rest

-- What a pointer to an entry writes: info->connected = 1.
unfoldable pub mark_connected : Bytes → ServicesHash → ServicesHash
mark_connected name [] = []
mark_connected name ((n, info) ∷ rest) =
    if bytes_eq n name
    then (n, record info { connected = true }) ∷ rest
    else (n, info) ∷ mark_connected name rest

pub record Mdcli : Type 0 where
  pub services_info : ServicesHash
  pub to_broker : List Zmsg
  pub peer : Option (List Bytes)
  pub to_peer : List Zmsg
  pub has_subscriber : Bool

unfoldable pub service_info_by_name : Bytes → Mdcli → Option ServiceInfo
unfolding find_info
service_info_by_name name s = find_info name s.services_info

unfoldable pub insert_service_info : Bytes → ServiceInfo → Mdcli → Bool × Mdcli
unfolding find_info
insert_service_info name info s = elim (find_info name s.services_info) [
  | none ↦ (true, record s { services_info = s.services_info ++ (name, info) ∷ [] })
  | some old ↦ (false, s)
]

-- The message of a request to a service by way of the broker.
unfoldable pub broker_message : Bytes → Zmsg → Zmsg
unfolding push_front
broker_message service request =
    push_front empty_frame (push_front mdpc_client (push_front service request))

-- send (std::string, zmsg*&)
unfoldable pub send : Bytes → Zmsg → Mdcli → Mdcli
unfolding broker_message
send service request s = record s { to_broker = s.to_broker ++ broker_message service request ∷ [] }

-- What poll finds on each of the three sockets.
pub record Ready : Type 0 where
  pub from_broker : Option (List Bytes)
  pub from_subscriber : Option (List Bytes)
  pub from_peer : Option (List Bytes)

-- A message of the broker, less its first three frames.
unfoldable pub on_broker : Zmsg → Option Zmsg
on_broker msg = do
  guard (leb 4 (parts msg))
  (empty, rest₁) ← pop_front msg
  guard (length empty == 0)
  (header, rest₂) ← pop_front rest₁
  guard (bytes_eq header mdpc_client)
  (command, rest₃) ← pop_front rest₂
  some rest₃

-- The message for direct exchange is looked at last, and only if there is a socket for it.
unfoldable pub recv_peer : Ready → Mdcli → Option (Option Zmsg)
recv_peer r s = elim (s.peer) [
  | none ↦ some none
  | some endpoints ↦ elim (r.from_peer) [
    | none ↦ some none
    | some frames ↦ recv frames >>= λ msg. some (some msg)
  ]
]

unfoldable pub recv_subscriber : Ready → Mdcli → Option (Option Zmsg)
unfolding recv_peer
recv_subscriber r s =
    if s.has_subscriber
    then elim (r.from_subscriber) [
      | none ↦ recv_peer r s
      | some frames ↦ recv frames >>= λ msg. some (some msg)
    ]
    else recv_peer r s

-- mdcli::recv: a message, or none where the poll ended without one.
unfoldable pub receive : Ready → Mdcli → Option (Option Zmsg)
unfolding on_broker recv_subscriber
receive r s = elim (r.from_broker) [
  | none ↦ recv_subscriber r s
  | some frames ↦ recv frames >>= λ msg. on_broker msg >>= λ rest. some (some rest)
]

-- The entry for a service whose endpoint is asked for the first time; a known one is kept.
unfoldable pub remember : Bytes → Bytes → Mdcli → Mdcli
unfolding service_info_by_name insert_service_info strncpy
remember name endpoint s = elim (service_info_by_name name s) [
  | some info ↦ s
  | none ↦
      (insert_service_info name
        (record { endpoint_external = strncpy endpoint_maxlen endpoint; connected = false }) s).1
]

-- The status code, what stands in service_endpoint, and the client.
abbrev pub Asked : Type 0
Asked = ℤ × Bytes × Mdcli

unfoldable pub on_answer : Bytes → ℕ → Zmsg → Mdcli → Option Asked
unfolding remember strncpy
on_answer name buf_size report s = do
  (client_code, rest₁) ← pop_front report
  (service_request, rest₂) ← pop_front rest₁
  guard (bytes_eq service_request (text "mmi.service"))
  (existance_code, rest₃) ← pop_front rest₂
  code ← atoi existance_code
  elim (Atoi.is_pos 200 code) [
    | false ↦ some (code, [], s)
    | true ↦ pop_front rest₃ >>= λ (endpoint, rest₄).
        some (code, strncpy buf_size endpoint, remember name (strncpy buf_size endpoint) s)
  ]

-- ask_service_info, with what poll finds after the question is sent; the name is a C string.
unfoldable pub ask_service_info : Bytes → ℕ → Ready → Mdcli → Option Asked
unfolding send on_answer receive push_front
ask_service_info name buf_size r s = do
  let s' = send (text "mmi.service") (push_front name []) s
  report ← receive r s'
  elim report [ none ↦ some (pos 0, [], s') | some msg ↦ on_answer name buf_size msg s' ]

abbrev pub endpoints_of : Option (List Bytes) → List Bytes
endpoints_of none = []
endpoints_of (some endpoints) = endpoints

-- A service without a connection is connected to, over the one socket for all of them, which is
-- made at the first call. `connects` says for which endpoints zmq's connect does not throw.
unfoldable pub connect_peer : (Bytes → Bool) → Bytes → ServiceInfo → Mdcli → Bool × Mdcli
unfolding mark_connected
connect_peer connects name info s =
    let endpoints = endpoints_of s.peer in
    if info.connected
    then (true, s)
    else if connects info.endpoint_external
    then (
      true,
      record s {
        peer = some (endpoints ++ info.endpoint_external ∷ []);
        services_info = mark_connected name s.services_info;
      },
    )
    else (false, record s { peer = some endpoints })

unfoldable pub send_direct : (Bytes → Bool) → Bytes → Zmsg → Mdcli → Bool × Mdcli
unfolding connect_peer service_info_by_name
send_direct connects service request s = elim (service_info_by_name (c_str service) s) [
  | none ↦ (false, s)
  | some info ↦
      let (linked, s') = connect_peer connects (c_str service) info s in
      if linked then (true, record s' { to_peer = s'.to_peer ++ request ∷ [] }) else (false, s')
]

pub data ChannelType : Type 0 where
  persistent : ChannelType
  direct : ChannelType

-- send (std::string&, zmsg*&, ChannelType)
unfoldable pub send_by : (Bytes → Bool) → Bytes → Zmsg → ChannelType → Mdcli → Bool × Mdcli
unfolding send send_direct push_front
send_by connects service request ChannelType.persistent s = (true, send service request s)
send_by connects service request ChannelType.direct s =
    send_direct connects service (push_front empty_frame request) s
