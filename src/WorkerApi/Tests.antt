-- ===== src/WorkerApi/Tests.antt =====
-- Examples of the properties of the worker's side.
use rtdbus.Base.{◌≤◌, Bytes, text, c_str, ◌≡◌, some, List, [], ◌∷◌, arith}
use rtdbus.Zmsg.{pop_front}
use rtdbus.Xdb.Rows.{WorkerState, LetterState}
use rtdbus.Xdb.Memory.{memory}
use rtdbus.Xdb.Samples.{worker_object, letter_object}
use rtdbus.Broker.State.{request_message, mdpw_request, mdpw_worker, mdpw_ready, empty_frame}
use rtdbus.WorkerApi.{Mdwrk, update_heartbeat_sign, turn, timeouts}
use rtdbus.WorkerApi.Liveness.{heartbeat, timeouts_silent}
use rtdbus.WorkerApi.Requests.{turn-request_message}

-- A worker that has missed two polls, and will miss the third.
abbrev waiting : Mdwrk
waiting = record {
  service = text "SINF";
  liveness = 1;
  heartbeat_at = 100;
  heartbeat_msec = 25;
  sent = [];
  connections = 1;
}

abbrev again : Mdwrk
again = record waiting {
  liveness = 3;
  heartbeat_at = 115;
  connections = 2;
  sent = ([] ∷ mdpw_worker ∷ mdpw_ready ∷ text "SINF" ∷ text "tcp://localhost:5556" ∷ []) ∷ [];
}

abbrev fresh : Mdwrk
fresh = record waiting { liveness = 3 }

timeouts_silent_example :
    (s' : Mdwrk) × (timeouts (101 ∷ 127 ∷ 153 ∷ 179 ∷ []) fresh ≡ some s')
    × (2 ≤ s'.liveness)
    × (s'.connections ≡ 1)
    × (s'.sent ≡ heartbeat ∷ heartbeat ∷ heartbeat ∷ heartbeat ∷ [])
timeouts_silent_example =
    timeouts_silent (101 ∷ 127 ∷ 153 ∷ 179 ∷ []) fresh (omega arith)
      (omega arith, (omega arith, (omega arith, (omega arith, tt))))

turn-request_message_example :
    (frames : List Bytes) × (pop_front (
        request_message memory
          (worker_object WorkerState.occupied 1)
          (letter_object LetterState.assigned 1)
          mdpw_request
          empty_frame)
      ≡ some (text "w1", frames))
    × (turn 7 (some frames) fresh
        ≡ some (some (text "c1", text "h" ∷ text "b" ∷ []), update_heartbeat_sign 7 fresh))
unfolding c_str
turn-request_message_example =
    turn-request_message memory 7 fresh (worker_object WorkerState.occupied 1)
      (letter_object LetterState.assigned 1) (λ e. cc)
