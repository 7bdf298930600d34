-- ===== src/Broker/Replies.antt =====
-- The answers of client_msg and service_internal of mdp/mdp_broker.cpp to a client.
use rtdbus.Base.{
  ℕ, Bytes, text, bytes_eq, c_str, take, Bool, true, false, ◌≡◌, ◌≢◌, ◌⊎◌, refl, inl, inr, Option,
  none, some, ◌>>=◌, arith, Option-cases, Bool-cases, [], ◌∷◌, if◌then◌else◌, find_bytes, length,
  leb, bytes_eq_iff,
}
use rtdbus.Zmsg.{
  Zmsg, parts, pop_front, push_front, push_back, wrap, unwrap, get_part, body_set, clear, address,
  is_empty_address,
}
use rtdbus.Xdb.Rows.{Mark, XdbService, XdbServiceState}
use rtdbus.Xdb.Service
use rtdbus.Xdb.Mco.{Mco, Db}
use rtdbus.Xdb.Services.{
  endpoint_maxlen, state_to_object, load_service, named, get_service_by_id, get_service_by_name,
}
use rtdbus.Broker.State.{Broker, emit, mdpc_client, mdpc_report, mdpc_nak}
use rtdbus.Broker.WorkerSide.{is_internal}
use rtdbus.Broker.ClientSide.{
  is_available, service_answer, filter_answer, internal_message, internal_answer, nak_message,
  service_internal, client_msg,
}

abbrev serves : XdbServiceState → Bool
serves XdbServiceState.registered = true
serves XdbServiceState.activated = true
serves _ = false

-- What mmi.service promises of the stored service, if there is one: 200 and the endpoint, empty
-- where none was written, of one that is registered or activated, else 404.
abbrev pub offered : Option XdbService → Option Bytes
offered none = none
offered (some r) = if serves r.state then some (c_str (take endpoint_maxlen r.endpoint)) else none

abbrev pub offer_frames : Option Bytes → Zmsg
offer_frames none = text "404" ∷ []
offer_frames (some e) = text "200" ∷ e ∷ []

-- The frames before the answer of an internal service.
abbrev pub reply_head : Bytes → Bytes → Zmsg → Zmsg
reply_head sender service_name answer =
    sender ∷ [] ∷ mdpc_client ∷ mdpc_report ∷ mdpc_client ∷ service_name ∷ answer

bytes_eq-false : {s t : Bytes} → s ≢ t → bytes_eq s t ≡ false
bytes_eq-false {s} {t} h = elim (Bool-cases (bytes_eq s t)) [
  | inl same ↦ absurd (h ((bytes_eq_iff s t).0 same))
  | inr other ↦ other
]

not_empty : (s : Bytes) → s ≢ [] → is_empty_address (some s) ≡ false
unfolding is_empty_address
not_empty [] h = absurd (h refl)
not_empty (c ∷ s) h = refl

-- The row of the service of this name, where the database starts the transaction.
abbrev pub stored_service : (m : Mco) → Db m → Bytes → Option XdbService
stored_service m db name =
    if db.starts
    then m.service.find db.services (named (c_str name)) >>= m.service.get db.services
    else none

available-serves : (i : ℕ) (r : XdbService) → is_available (load_service i r).state ≡ serves r.state
unfolding load_service state_to_object Service.set_valid Service.set_endpoint Service.set_state
available-serves i r = states r.state
  where
    states : (st : XdbServiceState) → is_available (state_to_object st) ≡ serves st
    states XdbServiceState.registered = refl
    states XdbServiceState.activated = refl
    states XdbServiceState.disabled = refl
    states XdbServiceState.unknown = refl

-- LoadService gives every service an endpoint, that of its row.
loaded_endpoint :
    (i : ℕ) (r : XdbService)
    → (load_service i r).endpoint ≡ some (c_str (take endpoint_maxlen r.endpoint))
unfolding load_service Service.set_valid Service.set_endpoint Service.set_state
loaded_endpoint i r = refl

c_str-c_str : (s : Bytes) → c_str (c_str s) ≡ c_str s
unfolding c_str
c_str-c_str [] = refl
c_str-c_str (x ∷ s) = ground (arith, c_str-c_str s)

get_service_by_name-stored :
    (m : Mco) (db : Db m) (name : Bytes)
    → ((stored_service m db name ≡ none) × (get_service_by_name m db name ≡ none))
      ⊎ ((i : ℕ) × (r : XdbService) × (stored_service m db name ≡ some r)
          × (get_service_by_name m db name ≡ some (load_service i r)))
unfolding get_service_by_name get_service_by_id
get_service_by_name-stored m db name =
    elim (Option-cases (m.service.find db.services (named (c_str name)))) [
      | inl lost ↦ inl (ground arith, ground arith)
      | inr (i, found) ↦ elim (Option-cases (m.service.get db.services i)) [
        | inl gone ↦ inl (ground arith, ground arith)
        | inr (r, there) ↦ elim (Bool-cases db.starts) [
          | inl on ↦ inr (i, r, ground arith, ground arith)
          | inr off ↦ inl (ground arith, ground arith)
        ]
      ]
    ]

module _ (m : Mco) (now : Mark) (b : Broker m) (sender : Bytes)
    (plain : c_str sender ≡ sender) where
  -- The answer to mmi.service goes to the sender, whose identity has no NUL: 200 and the endpoint
  -- of the stored service of this name, cut to ENDPOINT_MAXLEN and empty where none was written,
  -- if it is registered or activated and the transaction starts, else 404. The database is
  -- unchanged.
  pub mmi_service_lem :
      (asked : Bytes)
      → client_msg m now b sender (text "mmi.service" ∷ asked ∷ [])
        ≡ some (
            emit m b (
              reply_head sender
                (text "mmi.service")
                (offer_frames (offered (stored_service m b.db asked)))))
  unfolding client_msg service_internal internal_answer service_answer is_internal internal_message
      parts pop_front push_front push_back wrap unwrap get_part body_set address c_str
      is_empty_address find_bytes bytes_eq
  mmi_service_lem asked = elim (get_service_by_name-stored m b.db asked) [
    | inl (missing, unknown) ↦ rw (unknown, missing, plain, plain) refl
    | inr (i, r, stored, known) ↦
        let same = available-serves i r in
        let cut = c_str-c_str (take endpoint_maxlen r.endpoint) in
        elim (Bool-cases (serves r.state)) [
          | inr off ↦ rw (known, same, stored, off, plain, plain) refl
          | inl on ↦ rw (known, same, stored, on, loaded_endpoint i r, plain, plain, cut) refl
        ]
  ]

  -- A client, whose identity has no NUL, that names neither a known service nor one of the broker
  -- itself is sent a NAK with that name, and nothing else changes.
  pub client_msg_nak :
      (name frame : Bytes) (frames : Zmsg)
      → is_internal name ≡ false
      → get_service_by_name m b.db name ≡ none
      → client_msg m now b sender (name ∷ frame ∷ frames)
        ≡ some (emit m b (sender ∷ [] ∷ mdpc_client ∷ mdpc_nak ∷ c_str name ∷ []))
  unfolding client_msg parts pop_front nak_message wrap push_front clear
  client_msg_nak name frame frames outside unknown =
      let many : leb 2 (length (name ∷ frame ∷ frames)) ≡ true = ground arith in
      rw (client_msg, many, outside, unknown, plain) refl

  -- A request to mmi.filter in the documented form, of a sender that is not named enable or
  -- disable and has no NUL in its identity, for a service with a name that is not empty and has no
  -- NUL, is answered by 400, and the answer is addressed to the empty identity instead of the
  -- sender.
  pub mmi_filter_lem :
      (operation service command : Bytes)
      → sender ≢ text "enable"
      → sender ≢ text "disable"
      → service ≢ []
      → c_str service ≡ service
      → client_msg m now b sender (text "mmi.filter" ∷ operation ∷ service ∷ command ∷ [])
        ≡ some (emit m b (reply_head [] (text "mmi.filter") (service ∷ text "400" ∷ [])))
  unfolding client_msg service_internal internal_answer filter_answer is_internal internal_message
      parts pop_front push_front push_back wrap unwrap get_part body_set address c_str
      is_empty_address find_bytes bytes_eq
  mmi_filter_lem operation service command on off named whole =
      let not_on : bytes_eq sender (text "enable") ≡ false = bytes_eq-false on in
      let not_off : bytes_eq sender (text "disable") ≡ false = bytes_eq-false off in
      rw (plain, not_on, not_off, whole, not_empty service named) refl
