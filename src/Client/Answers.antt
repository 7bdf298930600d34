-- ===== src/Client/Answers.antt =====
-- ask_service_info of mdp/mdp_client_async_api.cpp, and mdp/mdp_broker.cpp that answers it.
use rtdbus.Base.{
  ℕ, ◌<◌, Bytes, text, bytes_eq, c_str, strncpy, ltb, true, false, ◌≡◌, refl, ap, inl, inr, none,
  some, Option, Option-cases, [], ◌∷◌, ◌++◌, length, arith,
}
use rtdbus.Zmsg.{Zmsg, recv, recv_frame, first_is, parts, pop_front, push_front}
use rtdbus.Zmsg.Wire.{recv_lem}
use rtdbus.Xdb.Rows.{Mark}
use rtdbus.Xdb.Mco.{Mco}
use rtdbus.Broker.State.{Broker, emit, mdpc_client, mdpc_report}
use rtdbus.Broker.Loop.{handle_message}
use rtdbus.Broker.Replies.{mmi_service_lem, offered, offer_frames, stored_service}
use rtdbus.Client.{
  Mdcli, Ready, Asked, endpoint_maxlen, find_info, broker_message, send, receive, on_broker,
  on_answer, remember, ask_service_info,
}
use rtdbus.Client.Atoi.{pos, atoi, is_pos}
use rtdbus.Client.Services.{asking, remember_known, remember_new}

-- The client that has been told an endpoint: a service that it knows is left as it is, with the
-- endpoint that it has; a new one is stored with this endpoint, cut to ENDPOINT_MAXLEN, and is not
-- connected.
abbrev pub learned : Bytes → Bytes → Mdcli → Mdcli
learned name e s = elim (find_info name s.services_info) [
  | some info ↦ s
  | none ↦ record s {
    services_info =
        s.services_info
        ++ (name, record { endpoint_external = strncpy endpoint_maxlen e; connected = false }) ∷ [];
  }
]

-- What the caller gets.
abbrev pub told : Bytes → ℕ → Option Bytes → Mdcli → Asked
told name size none s = (pos 404, [], s)
told name size (some e) s =
    let endpoint = strncpy size e in (pos 200, endpoint, learned name endpoint s)

-- The broker's answer, as it arrives at the client.
abbrev pub answer : Option Bytes → Zmsg
answer o = [] ∷ mdpc_client ∷ mdpc_report ∷ mdpc_client ∷ text "mmi.service" ∷ offer_frames o

abbrev pub question : Bytes → Zmsg
question name = broker_message (text "mmi.service") (c_str name ∷ [])

-- The answer passes the checks of recv, which takes off three frames.
on_broker-answer :
    (o : Option Bytes)
    → on_broker (answer o) ≡ some (mdpc_client ∷ text "mmi.service" ∷ offer_frames o)
unfolding on_broker bytes_eq parts pop_front
on_broker-answer none = refl
on_broker-answer (some e) = refl

answered :
    (r : Ready) (o : Option Bytes) (s : Mdcli)
    → r.from_broker ≡ some (answer o)
    → receive r s ≡ some (some (mdpc_client ∷ text "mmi.service" ∷ offer_frames o))
unfolding receive recv_frame first_is
answered r o s h =
    let rest = mdpc_client ∷ mdpc_report ∷ mdpc_client ∷ text "mmi.service" ∷ offer_frames o in
    let got : recv (answer o) ≡ some (answer o) = recv_lem [] rest [] refl in
    rw (receive, h, got, on_broker-answer o) refl

remember-learned : (name e : Bytes) (s : Mdcli) → remember name e s ≡ learned name e s
remember-learned name e s = elim (Option-cases (find_info name s.services_info)) [
  | inl new ↦ rw (remember_new name e s new, new, learned) refl
  | inr (info, known) ↦ rw (remember_known name e s known, known, learned) refl
]

told_lem :
    (name : Bytes) (size : ℕ) (o : Option Bytes) (s : Mdcli)
    → on_answer name size (mdpc_client ∷ text "mmi.service" ∷ offer_frames o) s
      ≡ some (told name size o s)
unfolding on_answer bytes_eq pop_front atoi is_pos
told_lem name size none s = refl
told_lem name size (some e) s =
    ap (λ t. some (pos 200, strncpy size e, t)) (remember-learned name (strncpy size e) s)

module _ (m : Mco) where
  -- A client that asks for a service, and the broker that answers: the question is handed to the
  -- broker's socket; the broker, where the sender's identity is not empty and has no NUL, answers
  -- the sender by 404 for a service that is not stored or not available, and else by 200 with the
  -- stored endpoint; and the client that finds this answer tells its caller the code and the
  -- endpoint, cut to the caller's size. A service that is new to the client is stored with that
  -- endpoint, not connected, and one that it knows is left as it is.
  pub ask-answered :
      (now : Mark) (b : Broker m) (sender name : Bytes) (size : ℕ) (r : Ready) (s : Mdcli)
      → 0 < length sender
      → c_str sender ≡ sender
      → r.from_broker ≡ some (answer (offered (stored_service m b.db (c_str name))))
      → ((asking name s).to_broker ≡ s.to_broker ++ question name ∷ [])
        × (handle_message m now b (sender ∷ question name)
            ≡ some (emit m b (sender ∷ answer (offered (stored_service m b.db (c_str name))))))
        × (ask_service_info name size r s
            ≡ some (told name size (offered (stored_service m b.db (c_str name))) (asking name s)))
  unfolding handle_message broker_message send push_front c_str parts pop_front bytes_eq
      ask_service_info
  ask-answered now b sender name size r s some_sender plain polled =
      let long : ltb 0 (length sender) ≡ true = ground arith in
      let o = offered (stored_service m b.db (c_str name)) in
      let sends = mmi_service_lem m now b sender plain (c_str name) in
      (
        refl,
        rw (handle_message, long, sends) refl,
        rw (ask_service_info, answered r o (asking name s) polled) (told_lem name size o _),
      )
