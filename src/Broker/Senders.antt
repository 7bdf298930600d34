-- ===== src/Broker/Senders.antt =====
-- worker_msg of mdp/mdp_broker.cpp: the answer to senders that are known, and to those that are not.
use rtdbus.Base.{
  ℕ, Bytes, bytes_eq, c_str, true, ◌≡◌, refl, none, some, arith, [], ◌∷◌, ltb, leb, length,
  Bool-cases, inl, inr,
}
use rtdbus.Zmsg.{Zmsg, parts, pop_front, push_front, wrap}
use rtdbus.Xdb.Rows.{Mark}
use rtdbus.Xdb.Worker.{Worker}
use rtdbus.Xdb.Mco.{Mco}
use rtdbus.Xdb.Workers.{get_worker_by_ident, remove_worker}
use rtdbus.Broker.State.{
  Broker, emit, with_db, release, worker_send_command, mdpw_ready, mdpw_report, mdpw_heartbeat,
  mdpw_disconnect, mdpw_worker,
}
use rtdbus.Broker.WorkerSide.{
  process_ready, process_report, process_heartbeat, process_disconnect, dispatch_command,
  answer_failure, worker_msg,
}

-- The message that tells a worker to connect anew.
abbrev pub disconnect_message : Bytes → Zmsg
disconnect_message identity = c_str identity ∷ [] ∷ mdpw_worker ∷ mdpw_disconnect ∷ []

module _ (m : Mco) (now : Mark) (b : Broker m) (c : ℕ) (cs : Bytes) where
  -- A sender that is no known worker: its HEARTBEAT changes nothing, its REPORT is answered by
  -- DISCONNECT and changes nothing else, and its DISCONNECT ends in a failed assertion.
  pub unknown_sender :
      (rest : Zmsg)
      → get_worker_by_ident m b.db (c ∷ cs) ≡ none
      → (worker_msg m now b (c ∷ cs) (mdpw_heartbeat ∷ rest) ≡ some b)
        × (worker_msg m now b (c ∷ cs) (mdpw_report ∷ rest)
            ≡ some (emit m b (disconnect_message (c ∷ cs))))
        × (worker_msg m now b (c ∷ cs) (mdpw_disconnect ∷ rest) ≡ none)
  unfolding worker_msg dispatch_command process_report process_heartbeat process_disconnect
      answer_failure worker_send_command release wrap push_front parts pop_front bytes_eq c_str
  unknown_sender rest unknown =
      let one : leb 1 (length (mdpw_heartbeat ∷ rest)) ≡ true = ground arith in
      let some_byte : ltb 0 (length (c ∷ cs)) ≡ true = ground arith in
      (
        rw (worker_msg, one, some_byte, unknown) refl,
        rw (worker_msg, one, some_byte, unknown) refl,
        rw (worker_msg, one, some_byte, unknown) refl,
      )

  -- A known worker that says READY is sent DISCONNECT and is disarmed; one that says DISCONNECT is
  -- disarmed, and nothing is sent.
  pub known_sender :
      (rest : Zmsg) (w : Worker)
      → get_worker_by_ident m b.db (c ∷ cs) ≡ some w
      → (worker_msg m now b (c ∷ cs) (mdpw_ready ∷ rest)
          ≡ some
              (with_db m (emit m b (disconnect_message w.identity)) ((remove_worker m b.db w).2)))
        × (worker_msg m now b (c ∷ cs) (mdpw_disconnect ∷ rest)
            ≡ some (with_db m b ((remove_worker m b.db w).2)))
  unfolding worker_msg dispatch_command process_ready process_disconnect answer_failure
      worker_send_command release wrap push_front parts pop_front bytes_eq c_str emit
  known_sender rest w known =
      let one : leb 1 (length (mdpw_heartbeat ∷ rest)) ≡ true = ground arith in
      let some_byte : ltb 0 (length (c ∷ cs)) ≡ true = ground arith in
      elim (Bool-cases ((remove_worker m b.db w).0)) [
        | inl done ↦ (
          rw (worker_msg, one, some_byte, known, done) refl,
          rw (worker_msg, one, some_byte, known, done) refl,
        )
        | inr failed ↦ (
          rw (worker_msg, one, some_byte, known, failed) refl,
          rw (worker_msg, one, some_byte, known, failed) refl,
        )
      ]
