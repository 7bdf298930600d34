-- ===== src/Broker/Turn.antt =====
-- A turn of the loop of start_brokering in mdp/mdp_broker.cpp, whatever arrives.

use rtdbus.Base.{
  ℕ, Bytes, bytes_eq, bytes_eq_iff, Bool, false, ◌≡◌, refl, inl, inr, Option, none, some,
  Bool-cases, bind_some, guard-some, if◌then◌else◌, ltb, leb, length, List, ◌==◌,
}
use rtdbus.Zmsg.{Zmsg, parts, pop_front, recv}
use rtdbus.Xdb.Rows.{Mark}
use rtdbus.Xdb.Worker.{Worker}
use rtdbus.Xdb.Mco.{Mco, IsMco}
use rtdbus.Xdb.Workers.{get_worker_by_ident}
use rtdbus.Broker.State.{Broker, mdpw_ready, mdpw_report, mdpc_client, mdpw_worker}
use rtdbus.Broker.WorkerSide.{dispatch_command, answer_failure, worker_msg}
use rtdbus.Broker.ClientSide.{client_msg}
use rtdbus.Broker.Loop.{handle_message, receive, turn}
use rtdbus.Broker.Extends.{Advances, Advances-refl, Advances-trans, purge_workers-Extends}
use rtdbus.Broker.Requests.{dispatch_command-Extends, answer_failure-Extends, client_msg-Extends}
use rtdbus.Broker.Reports.{process_report-Advances}

module _ (m : Mco) (laws : IsMco m) where
  Advances-to : (b x b' : Broker m) → b' ≡ x → Advances m b x → Advances m b b'
  Advances-to b x b' e k = rw e k

  dispatch_command-Advances :
      (now : Mark) (b b' : Broker m) (command : Bytes) (w : Option Worker) (sender : Bytes)
      (msg : Zmsg) (s : Bool) (o : Option Worker)
      → dispatch_command m now b command w sender msg ≡ some (s, o, b')
      → Advances m b b'
  unfolding dispatch_command bytes_eq
  dispatch_command-Advances now b b' command w sender msg s o h =
      elim (Bool-cases (bytes_eq command mdpw_report)) [
        | inr other ↦
            (dispatch_command-Extends m laws now b b' command w sender msg s o other h).advances
        | inl report ↦
            let e : command ≡ mdpw_report = (bytes_eq_iff _ _).0 report in
            let not_ready : bytes_eq command mdpw_ready ≡ false = rw e refl in
            process_report-Advances m laws now b b' w msg s o
              (rw (dispatch_command, not_ready, report) at h)
      ]

  worker_msg-Advances :
      (now : Mark) (b b' : Broker m) (sender : Bytes) (msg : Zmsg)
      → worker_msg m now b sender msg ≡ some b'
      → Advances m b b'
  unfolding worker_msg
  worker_msg-Advances now b b' sender msg h =
      let (p₁, h₁) = guard-some (leb 1 (parts msg)) _ b' h in
      let (p₂, h₂) = guard-some (ltb 0 (length sender)) _ b' h₁ in
      let ((command, rest), p₃, h₃) = bind_some (pop_front msg) _ b' h₂ in
      let w = get_worker_by_ident m b.db sender in
      let ((s, o, b₁), q, t) = bind_some (dispatch_command m now b command w sender rest) _ b' h₃ in
      let e : b' ≡ answer_failure m sender (s, o, b₁) = cc in
      Advances-to b _ b' e (
        Advances-trans m b b₁ _ (dispatch_command-Advances now b b₁ command w sender rest s o q)
          ((answer_failure-Extends m laws b₁ sender s o).advances))

  by_header :
      (now : Mark) (b b' : Broker m) (header sender : Bytes) (rest : Zmsg)
      → (if bytes_eq header mdpc_client
          then client_msg m now b sender rest
          else if bytes_eq header mdpw_worker
          then worker_msg m now b sender rest
          else some b)
        ≡ some b'
      → Advances m b b'
  by_header now b b' header sender rest h = elim (Bool-cases (bytes_eq header mdpc_client)) [
    | inl c ↦ (client_msg-Extends m laws now b b' sender rest (rw c at h)).advances
    | inr c ↦ elim (Bool-cases (bytes_eq header mdpw_worker)) [
      | inl w ↦ worker_msg-Advances now b b' sender rest (rw (c, w) at h)
      | inr w ↦
          let e : ◌≡◌ {A = Option (Broker m)} (some b) (some b') = rw (c, w) at h in
          Advances-to b b b' (cc) (Advances-refl m b)
    ]
  ]

  handle_message-Advances :
      (now : Mark) (b b' : Broker m) (msg : Zmsg)
      → handle_message m now b msg ≡ some b'
      → Advances m b b'
  unfolding handle_message
  handle_message-Advances now b b' msg h =
      let (p₁, h₁) = guard-some (leb 3 (parts msg)) _ b' h in
      let ((sender, r₁), q₁, h₂) = bind_some (pop_front msg) _ b' h₁ in
      let (p₂, h₃) = guard-some (ltb 0 (length sender)) _ b' h₂ in
      let ((empty, r₂), q₂, h₄) = bind_some (pop_front r₁) _ b' h₃ in
      let (p₃, h₅) = guard-some (length empty == 0) _ b' h₄ in
      let ((header, r₃), q₃, h₆) = bind_some (pop_front r₂) _ b' h₅ in
      let (p₄, h₇) = guard-some (ltb 0 (length header)) _ b' h₆ in
      by_header now b b' header sender r₃ h₇

  receive-Advances :
      (now : Mark) (b b' : Broker m) (polled : Option (List Bytes))
      → receive m now b polled ≡ some b'
      → Advances m b b'
  unfolding receive
  receive-Advances now b b' none h = Advances-to b b b' (cc) (Advances-refl m b)
  receive-Advances now b b' (some frames) h =
      let (msg, p, q) = bind_some (recv frames) _ b' h in handle_message-Advances now b b' msg q

  -- A turn of the loop of start_brokering, whatever arrives, only adds to the messages that were
  -- sent, and leaves m_heartbeat_at as it is.
  pub turn-Advances :
      (now : Mark) (clock : ℕ) (b b' : Broker m) (polled : Option (List Bytes))
      → turn m now clock b polled ≡ some b'
      → Advances m b b'
  unfolding turn
  turn-Advances now clock b b' polled h =
      let (b₁, p, q) = bind_some (receive m now b polled) _ b' h in
      Advances-trans m b b₁ b' (receive-Advances now b b₁ polled p)
        (elim (Bool-cases (ltb b₁.heartbeat_at clock)) [
          | inl late ↦ (purge_workers-Extends m now b₁ b' (rw late at q)).advances
          | inr early ↦
              let e : ◌≡◌ {A = Option (Broker m)} (some b₁) (some b') = rw early at q in
              Advances-to b₁ b₁ b' (cc) (Advances-refl m b₁)
        ])
