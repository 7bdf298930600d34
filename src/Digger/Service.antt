-- ===== src/Digger/Service.antt =====
-- The service of the real-time database at the broker: handle_request and handle_asklife of Digger in
-- worker/wdigger.cpp, and Echo of worker/wecho.cpp, which answer through the interface of a worker.
use rtdbus.Base.{
  ◌<◌, ◌≡◌, ◌≢◌, refl, ◌∙◌, ap, Bytes, true, false, leb, ltb, Option, some, [], ◌∷◌, ◌++◌, length,
  if◌then◌else◌, ◌>>=◌, ◌>>◌, guard, c_str, arith, ◌==◌,
}
use rtdbus.Zmsg.{Zmsg, parts, unwrap, wrap, push_front, push_front_string}
use rtdbus.Zmsg.Envelope.{unwrap_bare}
use rtdbus.Broker.State.{mdpw_report}
use rtdbus.WorkerApi.{Mdwrk, send_to_broker}
use rtdbus.Msg.Letter.{
  UserType, Body, Codec, Header, Letter, create_from, is_valid, success, unserialize,
  user_message_type, syncronize, initial_body, get_serialized, new_data,
}
use rtdbus.Digger.{reply}
use rtdbus.Digger.Requests.{length-two, create_from-frames}

-- Echo::handle_request, with the address that recv has taken off
unfoldable pub echo_request : Zmsg → Bytes → Mdwrk → Option Mdwrk
unfolding parts unwrap wrap send_to_broker
echo_request request reply_to s =
    guard (leb 1 (parts request))
    >> (unwrap request >>= λ (address, rest).
        some (send_to_broker mdpw_report (wrap reply_to (some []) rest) s))

module _ (codec : Codec) where
  -- Digger::handle_asklife: AskLife::set_exec_result (1)
  unfoldable pub handle_asklife : Letter → Bytes → Mdwrk → Option Mdwrk
  unfolding reply send_to_broker
  handle_asklife l reply_to s =
      let l' : Letter = record l {
        content = record l.content {
          instance = some (Body.request (some success));
          modified = true;
        };
      } in
      reply codec l' reply_to >>= λ (l'', m). some (send_to_broker mdpw_report m s)

  -- What becomes of a letter: every type but ASKLIFE is only logged.
  abbrev pub answer_letter : Letter → Bytes → Mdwrk → Option Mdwrk
  answer_letter l reply_to s =
      if is_valid l
      then elim (l.header.usr_msg_type) [
        | UserType.ask_life ↦ handle_asklife l reply_to s
        | _ ↦ some s
      ]
      else some s

  -- Digger::handle_request
  unfoldable pub handle_request : Zmsg → Bytes → Mdwrk → Option Mdwrk
  unfolding parts create_from handle_asklife
  handle_request request reply_to s =
      guard (leb 2 (parts request))
      >> (create_from codec request >>= λ made. made >>= λ l. answer_letter l reply_to s)

-- Echo sends the request back to its sender by a REPORT, without its first frame, where the frame
-- behind that is not the empty one: the address was taken off before.
pub echo_request_lem :
    (f g reply_to : Bytes) (rest : Zmsg) (s : Mdwrk)
    → c_str g ≢ []
    → echo_request (f ∷ g ∷ rest) reply_to s
      ≡ some (send_to_broker mdpw_report (c_str reply_to ∷ [] ∷ g ∷ rest) s)
unfolding echo_request wrap push_front parts c_str
echo_request_lem f g reply_to rest s full =
    let enough : leb 1 (length (f ∷ g ∷ rest)) ≡ true = ground arith in
    rw enough (
      ap (λ o. o >>= λ r. some (send_to_broker mdpw_report (wrap reply_to (some []) r.1) s))
        (unwrap_bare f g rest full))

module _ (codec : Codec) where
  asked_alive :
      (head : Bytes) (h : Header)
      → codec.parse_header head ≡ (true, h)
      → ltb 1 h.protocol_version ≡ false
      → (h.sys_msg_type == user_message_type) ≡ true
      → h.usr_msg_type ≡ UserType.ask_life
      → unserialize codec head []
        ≡ some (
            some (record { header = h; header_valid = true; content = new_data UserType.ask_life }))
  unfolding unserialize syncronize initial_body
  asked_alive head h parsed version system alive = ground arith

  answer_letter-alive :
      (l : Letter) (reply_to : Bytes) (s : Mdwrk)
      → is_valid l ≡ true
      → l.header.usr_msg_type ≡ UserType.ask_life
      → answer_letter codec l reply_to s ≡ handle_asklife codec l reply_to s
  answer_letter-alive l reply_to s valid alive = ground arith

  handle_asklife_lem :
      (h : Header) (reply_to head' frame : Bytes) (s : Mdwrk)
      → codec.serialize_header h ≡ some head'
      → codec.serialize (Body.request (some success)) ≡ some frame
      → handle_asklife codec
          (record { header = h; header_valid = true; content = new_data UserType.ask_life })
          reply_to
          s
        ≡ some (send_to_broker mdpw_report (c_str reply_to ∷ [] ∷ head' ∷ frame ∷ []) s)
  unfolding handle_asklife reply get_serialized wrap push_front push_front_string c_str
  handle_asklife_lem h reply_to head' frame s head_bytes body_bytes =
      rw (body_bytes, head_bytes) refl

  -- A message to Digger that ends in the frame of a header in order, of type ASKLIFE, and an empty
  -- body, where the answer can be serialized, is answered to the broker by one REPORT: the address
  -- of the sender, an empty frame, the header as it came, and the body with the result SUCCESS.
  pub handle_request_alive :
      (m : Zmsg) (head reply_to head' frame : Bytes) (h : Header) (s : Mdwrk)
      → 0 < length head
      → codec.parse_header head ≡ (true, h)
      → ltb 1 h.protocol_version ≡ false
      → (h.sys_msg_type == user_message_type) ≡ true
      → h.usr_msg_type ≡ UserType.ask_life
      → codec.serialize_header h ≡ some head'
      → codec.serialize (Body.request (some success)) ≡ some frame
      → handle_request codec (m ++ head ∷ [] ∷ []) reply_to s
        ≡ some (send_to_broker mdpw_report (c_str reply_to ∷ [] ∷ head' ∷ frame ∷ []) s)
  unfolding handle_request parts
  handle_request_alive m head reply_to head' frame h s full parsed version system alive head_bytes
        body_bytes =
      let made =
        create_from-frames codec m head [] full ∙ asked_alive head h parsed version system alive in
      let enough : leb 2 (length (m ++ head ∷ [] ∷ [])) ≡ true =
        ground (arith, length-two m head []) in
      let l : Letter = record {
        header = h;
        header_valid = true;
        content = new_data UserType.ask_life;
      } in
      let next : Option (Option Letter) → Option Mdwrk =
        λ o. o >>= λ made. made >>= λ l. answer_letter codec l reply_to s in
      ap (λ b. guard b >> next (create_from codec (m ++ head ∷ [] ∷ []))) enough
      ∙ ap next made
      ∙ answer_letter-alive l reply_to s refl alive
      ∙ handle_asklife_lem h reply_to head' frame s head_bytes body_bytes
