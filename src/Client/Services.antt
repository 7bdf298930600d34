-- ===== src/Client/Services.antt =====
-- What any calls keep of the entries of m_services_info, in mdp/mdp_client_async_api.cpp.
use rtdbus.Base.{
  ℕ, Bytes, c_str, text, strncpy, Bool, false, ◌≡◌, refl, ◌⊎◌, inl, inr, Option, none, some, List,
  [], ◌∷◌, ◌++◌, ◌>>=◌, arith, Bool-cases, Option-cases, bind_some,
}
use rtdbus.Zmsg.{Zmsg, pop_front, push_front}
use rtdbus.Broker.State.{empty_frame}
use rtdbus.Client.Atoi.{pos}
use rtdbus.Client.{
  ServiceInfo, ServicesHash, Mdcli, Ready, ChannelType, Asked, endpoint_maxlen, find_info,
  service_info_by_name, insert_service_info, send, remember, receive, on_answer, ask_service_info,
  connect_peer, send_direct, send_by,
}

-- The calls by which an application changes its client.
pub data Call : Type 0 where
  ask : Bytes → ℕ → Ready → Call
  send_request : Bytes → Zmsg → ChannelType → Call

module _ (connects : Bytes → Bool) where
  unfoldable pub call : Call → Mdcli → Option Mdcli
  unfolding ask_service_info send_by
  call (ask name buf_size r) s = do
    (code, endpoint, s') ← ask_service_info name buf_size r s
    some s'
  call (send_request service request chan) s = some (send_by connects service request chan s).1

  unfoldable pub calls : List Call → Mdcli → Option Mdcli
  calls [] s = some s
  calls (c ∷ cs) s = do s' ← call c s; calls cs s'

-- The entry that remember makes.
abbrev pub new_info : Bytes → ServiceInfo
new_info e = record { endpoint_external = strncpy endpoint_maxlen e; connected = false }

pub remember_known :
    (name e : Bytes) (s : Mdcli) {info : ServiceInfo}
    → find_info name s.services_info ≡ some info
    → remember name e s ≡ s
unfolding remember service_info_by_name
remember_known name e s known = rw (remember, known) refl

pub remember_new :
    (name e : Bytes) (s : Mdcli)
    → find_info name s.services_info ≡ none
    → remember name e s ≡ record s { services_info = s.services_info ++ (name, new_info e) ∷ [] }
unfolding remember service_info_by_name insert_service_info
remember_new name e s unknown = rw (remember, unknown, insert_service_info, unknown) refl

-- The frame that ask_service_info reads as an endpoint.
abbrev pub fourth : Zmsg → Bytes
fourth (a ∷ b ∷ c ∷ d ∷ rest) = d
fourth _ = []

on_answer-cases :
    (name : Bytes) (size : ℕ) (report : Zmsg) (s : Mdcli) (a : Asked)
    → on_answer name size report s ≡ some a
    → (a.2 ≡ s) ⊎ (a.2 ≡ remember name (strncpy size (fourth report)) s)
unfolding on_answer pop_front
on_answer-cases name size [] s a h = ground arith
on_answer-cases name size (x ∷ []) s a h = ground arith
on_answer-cases name size (x ∷ y ∷ []) s a h = ground arith
on_answer-cases name size (x ∷ y ∷ z ∷ []) s a h = ground arith
on_answer-cases name size (x ∷ y ∷ z ∷ w ∷ rest) s a h = ground arith

-- The client after the question to the broker.
abbrev pub asking : Bytes → Mdcli → Mdcli
asking name s = send (text "mmi.service") (push_front name []) s

abbrev answered : Bytes → ℕ → Mdcli → Option Zmsg → Option Asked
answered name size s none = some (pos 0, [], s)
answered name size s (some msg) = on_answer name size msg s

ask_service_info-some :
    (name : Bytes) (size : ℕ) (r : Ready) (s : Mdcli) (a : Asked)
    → ask_service_info name size r s ≡ some a
    → (report : Option Zmsg) × (answered name size (asking name s) report ≡ some a)
unfolding ask_service_info
ask_service_info-some name size r s a h = elim (Option-cases (receive r (asking name s))) [
  | inl failed ↦ ground arith
  | inr (none, got) ↦ (none, ground arith)
  | inr (some msg, got) ↦ (some msg, ground arith)
]

-- What holds of the entries and the connections of a client, and is kept where an entry is made and
-- where a service is connected to, is kept by every call.
module _ (P : ServicesHash → Option (List Bytes) → Type 0)
    (learn : (name e : Bytes) (s : Mdcli)
      → P s.services_info s.peer
      → P (remember name e s).services_info (remember name e s).peer)
    (connects : Bytes → Bool)
    (link : (name : Bytes) (info : ServiceInfo) (s : Mdcli)
      → find_info name s.services_info ≡ some info
      → P s.services_info s.peer
      → P
          (connect_peer connects name info s).1.services_info
          (connect_peer connects name info s).1.peer) where
  abbrev Holds : Mdcli → Type 0
  Holds s = P s.services_info s.peer

  send_direct_keeps :
      (service : Bytes) (request : Zmsg) (s : Mdcli)
      → Holds s
      → Holds (send_direct connects service request s).1
  unfolding send_direct service_info_by_name
  send_direct_keeps service request s h =
      elim (Option-cases (find_info (c_str service) s.services_info)) [
        | inl unknown ↦ rw (send_direct, unknown) h
        | inr (info, known) ↦ elim (Bool-cases (connect_peer connects (c_str service) info s).0) [
          | inl up ↦ rw (send_direct, known, up) (link (c_str service) info s known h)
          | inr down ↦ rw (send_direct, known, down) (link (c_str service) info s known h)
        ]
      ]

  on_answer_keeps :
      (name : Bytes) (size : ℕ) (report : Zmsg) (s : Mdcli) (a : Asked)
      → on_answer name size report s ≡ some a
      → Holds s
      → Holds a.2
  on_answer_keeps name size report s a e h = elim (on_answer-cases name size report s a e) [
    | inl same ↦ rw same h
    | inr new ↦ rw new (learn name (strncpy size (fourth report)) s h)
  ]

  answered_keeps :
      (name : Bytes) (size : ℕ) (report : Option Zmsg) (s : Mdcli) (a : Asked)
      → answered name size s report ≡ some a
      → Holds s
      → Holds a.2
  answered_keeps name size none s a e h = ground arith
  answered_keeps name size (some msg) s a e h = on_answer_keeps name size msg s a e h

  call_keeps : (c : Call) (s s' : Mdcli) → call connects c s ≡ some s' → Holds s → Holds s'
  unfolding call ask_service_info send_by send
  call_keeps (ask name size r) s s' e h =
      let (a, asked, done) = bind_some (ask_service_info name size r s) (λ a. some a.2) s' e in
      let (report, found) = ask_service_info-some name size r s a asked in
      ground (arith, answered_keeps name size report (asking name s) a)
  call_keeps (send_request service request ChannelType.persistent) s s' e h = ground arith
  call_keeps (send_request service request ChannelType.direct) s s' e h =
      ground (arith, send_direct_keeps service (push_front empty_frame request) s)

  pub calls_keep :
      (cs : List Call) (s s' : Mdcli) → calls connects cs s ≡ some s' → Holds s → Holds s'
  unfolding calls
  calls_keep [] s s' e h = ground arith
  calls_keep (c ∷ cs) s s' e h =
      let (t, first, rest) = bind_some (call connects c s) (λ t. calls connects cs t) s' e in
      calls_keep cs t s' rest (call_keeps c s t first h)
