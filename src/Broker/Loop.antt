-- ===== src/Broker/Loop.antt =====
-- start_brokering of mdp/mdp_broker.cpp: a turn of the loop, after `zmq::poll`.
use rtdbus.Base.{
  ℕ, Bytes, bytes_eq, Option, none, some, List, if◌then◌else◌, ◌>>=◌, ◌>>◌, guard, length, ltb, leb,
  ◌==◌,
}
use rtdbus.Zmsg.{Zmsg, parts, pop_front, recv}
use rtdbus.Xdb.Rows.{Mark}
use rtdbus.Xdb.Mco.{Mco}
use rtdbus.Broker.State.{Broker, mdpc_client, mdpw_worker}
use rtdbus.Broker.Dispatch.{purge_workers}
use rtdbus.Broker.WorkerSide.{worker_msg}
use rtdbus.Broker.ClientSide.{client_msg}

-- HEARTBEAT_PERIOD_MSEC, by which the first purge is put off
abbrev pub heartbeat_interval : ℕ
heartbeat_interval = 2500

module _ (m : Mco) where
  unfoldable pub handle_message : Mark → Broker m → Zmsg → Option (Broker m)
  handle_message now b msg = do
    guard (leb 3 (parts msg))
    (sender, rest₁) ← pop_front msg
    guard (ltb 0 (length sender))
    (empty, rest₂) ← pop_front rest₁
    guard (length empty == 0)
    (header, rest₃) ← pop_front rest₂
    guard (ltb 0 (length header))
    if bytes_eq header mdpc_client
        then client_msg m now b sender rest₃
        else if bytes_eq header mdpw_worker
        then worker_msg m now b sender rest₃
        else some b

  -- What poll reports: nothing, or the frames of a message.
  unfoldable pub receive : Mark → Broker m → Option (List Bytes) → Option (Broker m)
  receive now b none = some b
  receive now b (some frames) = do msg ← recv frames; handle_message now b msg

  -- One turn; `clock` is s_clock (), in milliseconds. m_heartbeat_at stays as the constructor set it.
  unfoldable pub turn : Mark → ℕ → Broker m → Option (List Bytes) → Option (Broker m)
  turn now clock b polled = do
    b' ← receive now b polled
    if ltb b'.heartbeat_at clock then purge_workers m now b' else some b'
