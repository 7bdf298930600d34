-- ===== src/WorkerApi/Requests.antt =====
-- A request on its way from worker_send of mdp/mdp_broker.cpp to recv of mdp/mdp_worker_api.cpp.
use rtdbus.Base.{ℕ, Bytes, bytes_eq, c_str, false, ◌≡◌, ◌≢◌, refl, some, List, [], ◌∷◌, arith}
use rtdbus.Zmsg.{
  recv, recv_frame, first_is, pop_front, parts, unwrap, push_front, push_front_string, wrap,
  address, is_empty_address,
}
use rtdbus.Zmsg.Wire.{recv_lem}
use rtdbus.Xdb.Worker.{Worker}
use rtdbus.Xdb.Letter.{Letter}
use rtdbus.Xdb.Mco.{Mco}
use rtdbus.Broker.State.{request_message, mdpw_request, mdpw_worker, empty_frame}
use rtdbus.WorkerApi.{Mdwrk, update_heartbeat_sign, on_command, on_message, turn}

not_empty : (s : Bytes) → c_str s ≢ [] → is_empty_address (some (c_str s)) ≡ false
unfolding is_empty_address
not_empty s h = ground arith

module _ (m : Mco) where
  -- The message that the broker makes of a letter, less its first frame, by which the socket finds
  -- the worker, is received by the worker as a request: the address of the client, the header and
  -- the body. The header has a byte before its first NUL.
  pub turn-request_message :
      (now : ℕ) (s : Mdwrk) (w : Worker) (l : Letter)
      → c_str l.header ≢ []
      → (frames : List Bytes) × (pop_front (request_message m w l mdpw_request empty_frame)
          ≡ some (c_str w.identity, frames))
        × (turn now (some frames) s
            ≡ some (some (c_str l.reply_to, l.header ∷ l.body ∷ []), update_heartbeat_sign now s))
  unfolding request_message wrap push_front push_front_string pop_front turn on_message on_command
      parts unwrap address bytes_eq c_str recv_frame first_is
  turn-request_message now s w l full =
      let rest = mdpw_worker ∷ mdpw_request ∷ c_str l.reply_to ∷ l.header ∷ l.body ∷ [] in
      let got : recv ([] ∷ rest) ≡ some ([] ∷ rest) = recv_lem [] rest [] refl in
      ([] ∷ rest, refl, rw (turn, got, not_empty l.header full) refl)
