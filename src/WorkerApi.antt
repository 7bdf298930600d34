-- ===== src/WorkerApi.antt =====
-- mdp/mdp_worker_api.cpp: the side of a worker. The messages handed to the socket are kept, oldest
-- first, and the connections are counted; each turn of the loop of `recv` has one reading of the clock.
pub mod Endpoint
pub mod Liveness
pub mod Requests
pub mod Tests
use rtdbus.Base.{
  ℕ, ◌+◌, ◌-◌, Bytes, text, bytes_eq, c_str, Bool, true, false, Option, none, some, List, [], ◌∷◌,
  ◌++◌, ◌==◌, if◌then◌else◌, ◌>>=◌, ◌>>◌, guard, length, ltb, leb,
}
use rtdbus.Zmsg.{Zmsg, recv, parts, pop_front, push_front, unwrap}
use rtdbus.Xdb.Services.{default_endpoint}
use rtdbus.Broker.State.{
  mdpw_worker, mdpw_ready, mdpw_request, mdpw_heartbeat, mdpw_disconnect, empty_frame,
}

-- HEARTBEAT_LIVENESS of cmake/CMakeLists.txt
abbrev pub heartbeat_liveness : ℕ
heartbeat_liveness = 3

-- Endpoints [], less the entry of the broker, which the search skips, and the end mark.
abbrev pub endpoints : List (Bytes × Bytes)
endpoints =
    (text "SINF", text "tcp://localhost:5556")
    ∷ (text "IHM", text "tcp://localhost:5558")
    ∷ (text "ECH", text "tcp://localhost:5559")
    ∷ []

-- strrchr (s, c): what stands before the last c, and what behind it.
unfoldable pub split_last : ℕ → Bytes → Option (Bytes × Bytes)
split_last c [] = none
split_last c (x ∷ xs) = elim (split_last c xs) [
  | none ↦ if x == c then some ([], xs) else none
  | some (before, after) ↦ some (x ∷ before, after)
]

-- The endpoint for bind: the host becomes "*". The copy is made in place, so that a host of fewer
-- than two characters would be overwritten with its colon; a missing mark is a null pointer.
unfoldable pub to_bind : Bytes → Option Bytes
unfolding split_last
to_bind endpoint = do
  (before, after) ← split_last b'/' endpoint
  (host, port) ← split_last b':' after
  guard (leb 2 (length host))
  some (before ++ b'/' ∷ b'*' ∷ b':' ∷ port)

-- getEndpoint (bool convertation_asked)
unfoldable pub get_endpoint : Bool → Bytes → Option Bytes
unfolding to_bind default_endpoint
get_endpoint false service = default_endpoint service endpoints
get_endpoint true service = default_endpoint service endpoints >>= to_bind

pub record Mdwrk : Type 0 where
  pub service : Bytes
  pub liveness : ℕ
  pub heartbeat_at : ℕ
  pub heartbeat_msec : ℕ
  pub sent : List Zmsg
  pub connections : ℕ

unfoldable pub update_heartbeat_sign : ℕ → Mdwrk → Mdwrk
update_heartbeat_sign now s = record s {
  heartbeat_at = now + s.heartbeat_msec;
  liveness = heartbeat_liveness;
}

-- send_to_broker (command, option, msg); every caller passes no option.
unfoldable pub send_to_broker : Bytes → Zmsg → Mdwrk → Mdwrk
unfolding push_front
send_to_broker command msg s = record s {
  sent = s.sent ++ push_front empty_frame (push_front mdpw_worker (push_front command msg)) ∷ [];
}

-- connect_to_broker: a service with no endpoint would push a null pointer.
unfoldable pub connect_to_broker : ℕ → Mdwrk → Option Mdwrk
unfolding get_endpoint send_to_broker update_heartbeat_sign push_front
connect_to_broker now s = do
  endpoint ← get_endpoint false s.service
  let msg = push_front s.service (push_front endpoint [])
  some (
      update_heartbeat_sign now
        (send_to_broker mdpw_ready msg (record s { connections = s.connections + 1 })))

-- What a turn of the loop of recv leaves: a request, if there is one, and the worker.
abbrev pub Turned : Type 0
Turned = Option (Bytes × Zmsg) × Mdwrk

-- A message from the broker, less its first two frames.
unfoldable pub on_command : ℕ → Bytes → Zmsg → Mdwrk → Option Turned
on_command now command rest s =
    if bytes_eq command mdpw_request
    then (unwrap rest >>= λ request. some (some request, s))
    else if bytes_eq command mdpw_disconnect
    then (connect_to_broker now s >>= λ s'. some (none, s'))
    else some (none, s)

unfoldable pub on_message : ℕ → Zmsg → Mdwrk → Option Turned
on_message now msg s = do
  guard (leb 3 (parts msg))
  (empty, rest₁) ← pop_front msg
  guard (length empty == 0)
  (header, rest₂) ← pop_front rest₁
  guard (bytes_eq header mdpw_worker)
  (command, rest₃) ← pop_front rest₂
  on_command now command rest₃ s

-- --m_liveness, of a size_t of 64 bits
abbrev pub decrement : ℕ → ℕ
decrement n = if n == 0 then 18446744073709551615 else n - 1

-- The poll ended without a message: if (--m_liveness == 0)
unfoldable pub on_timeout : ℕ → Mdwrk → Option Mdwrk
on_timeout now s =
    let s' = record s { liveness = decrement s.liveness } in
    if decrement s.liveness == 0 then connect_to_broker now s' else some s'

unfoldable pub on_clock : ℕ → Mdwrk → Mdwrk
unfolding update_heartbeat_sign send_to_broker
on_clock now s =
    if ltb s.heartbeat_at now
    then update_heartbeat_sign now (send_to_broker mdpw_heartbeat [] s)
    else s

-- A turn: the request is returned before the clock is looked at.
unfoldable pub turn : ℕ → Option (List Bytes) → Mdwrk → Option Turned
unfolding on_clock on_timeout on_message update_heartbeat_sign
turn now none s = do s' ← on_timeout now s; some (none, on_clock now s')
turn now (some frames) s = do
  msg ← recv frames
  (request, s') ← on_message now msg (update_heartbeat_sign now s)
  elim request [ some r ↦ some (some r, s') | none ↦ some (none, on_clock now s') ]

-- Polls that end without a message, by the clock's readings after them.
unfoldable pub timeouts : List ℕ → Mdwrk → Option Mdwrk
timeouts [] s = some s
timeouts (now ∷ later) s = do (request, s') ← turn now none s; timeouts later s'
