-- ===== src/Digger/Requests.antt =====
-- Requests that a worker does not answer: MessageFactory::create of msg/msg_message.cpp and processing
-- of worker/wdigger.cpp.
use rtdbus.Base.{
  suc, ◌+◌, ◌-◌, ◌<◌, ◌≡◌, refl, ap, ◌∙◌, Bytes, true, false, none, some, [], ◌∷◌, ◌++◌, length,
  ◌>>=◌, ◌==◌, arith, ltb, leb, inl, inr, ◌⊎◌, length-append, get_elem?-middle, get_elem?,
}
use rtdbus.Attribute.{Quality}
use rtdbus.Zmsg.{Zmsg, parts, get_part}
use rtdbus.Msg.Letter.{
  UserType, Codec, Letter, unserialize, create_from, is_valid, is_made, has_instance, syncronize,
  user_message_type, letter_of,
}
use rtdbus.Xdb.Table.{Table}
use rtdbus.Rtap.Attributes.{Entry}
use rtdbus.Rtap.Access.{Maps}
use rtdbus.Digger.{Handled, Worker, process_letter, processing}

pub length-two : (m : Zmsg) (a b : Bytes) → length (m ++ a ∷ b ∷ []) ≡ length m + 2
length-two m a b = length-append m (a ∷ b ∷ [])

last_frame : (m : Zmsg) (a b : Bytes) → get_elem? (m ++ a ∷ b ∷ []) (suc (length m)) ≡ some b
last_frame [] a b = refl
last_frame (x ∷ m) a b = last_frame m a b

module _ (codec : Codec) where
  -- A message ends in the frames of a header, which is not empty, and of a body.
  pub create_from-frames :
      (m : Zmsg) (head body : Bytes)
      → 0 < length head
      → create_from codec (m ++ head ∷ body ∷ []) ≡ unserialize codec head body
  unfolding create_from parts get_part
  create_from-frames m head body full =
      let two = length-two m head body in
      let enough : leb 2 (length m + 2) ≡ true = ground arith in
      let i : length m + 2 - 2 ≡ length m = omega arith in
      let j : length m + 2 - 1 ≡ suc (length m) = omega arith in
      let there : ltb 0 (length head) ≡ true = ground arith in
      rw (two, enough, i, j, get_elem?-middle m (body ∷ []) head, last_frame m head body, there)
        refl

  unserialize-null :
      (head body : Bytes)
      → (ltb 1 (codec.parse_header head).1.protocol_version ≡ true)
        ⊎ (((codec.parse_header head).1.sys_msg_type == user_message_type) ≡ false)
        ⊎ (is_made codec (codec.parse_header head).1.usr_msg_type ≡ false)
      → (unserialize codec head body ≡ none) ⊎ (unserialize codec head body ≡ some none)
  unfolding unserialize
  unserialize-null head body wrong = ground arith

  made-has_instance : (t : UserType) → is_made codec t ≡ true → has_instance codec t ≡ true
  made-has_instance (UserType.other n) h = h
  made-has_instance t h = h

  unserialize-parsed :
      (head body : Bytes)
      → 0 < length body
      → ltb 1 (codec.parse_header head).1.protocol_version ≡ false
      → ((codec.parse_header head).1.sys_msg_type == user_message_type) ≡ true
      → is_made codec (codec.parse_header head).1.usr_msg_type ≡ true
      → codec.parse_body (codec.parse_header head).1.usr_msg_type body ≡ none
      → (l : Letter) × (unserialize codec head body ≡ some (some l)) × (is_valid l ≡ false)
  unfolding unserialize syncronize
  unserialize-parsed head body full version system known unparsed =
      let h = (codec.parse_header head).1 in
      let there : ltb 0 (length body) ≡ true = ground arith in
      let kind = made-has_instance h.usr_msg_type known in
      (
        letter_of codec (codec.parse_header head) body,
        rw (version, system, known) refl,
        ground (arith, kind, there, unparsed),
      )

  module _ (points : Table Entry) (maps : Maps) where
    processing-frames :
        (w : Worker points maps codec) (q : Quality) (m : Zmsg) (head body identity : Bytes)
        → 0 < length head
        → processing points maps codec w q (m ++ head ∷ body ∷ []) identity ≡ (
            unserialize codec head body >>= λ made.
            made >>= process_letter points maps codec w q identity)
    unfolding processing
    processing-frames w q m head body identity full =
        ap (λ o. o >>= λ made. made >>= process_letter points maps codec w q identity)
          (create_from-frames m head body full)

    -- A message with a header frame that is not empty and a body frame at its end, whose header is
    -- of a newer version, or of another system type, or of a type that the factory does not make,
    -- ends the worker: a failed assertion, or a letter that is NULL and is used.
    pub processing-none :
        (w : Worker points maps codec) (q : Quality) (m : Zmsg) (head body identity : Bytes)
        → 0 < length head
        → ((ltb 1 (codec.parse_header head).1.protocol_version ≡ true)
            ⊎ (((codec.parse_header head).1.sys_msg_type == user_message_type) ≡ false)
            ⊎ (is_made codec (codec.parse_header head).1.usr_msg_type ≡ false))
        → processing points maps codec w q (m ++ head ∷ body ∷ []) identity ≡ none
    processing-none w q m head body identity full wrong =
        processing-frames w q m head body identity full ∙ elim (unserialize-null head body wrong) [
          | inl failed ↦ rw failed refl
          | inr null ↦ rw null refl
        ]

    -- A message with a header frame and a body frame at its end, neither of them empty, whose
    -- header is in order and whose body cannot be parsed is not answered, and changes nothing.
    pub processing-unanswered :
        (w : Worker points maps codec) (q : Quality) (m : Zmsg) (head body identity : Bytes)
        → 0 < length head
        → 0 < length body
        → ltb 1 (codec.parse_header head).1.protocol_version ≡ false
        → ((codec.parse_header head).1.sys_msg_type == user_message_type) ≡ true
        → is_made codec (codec.parse_header head).1.usr_msg_type ≡ true
        → codec.parse_body (codec.parse_header head).1.usr_msg_type body ≡ none
        → processing points maps codec w q (m ++ head ∷ body ∷ []) identity
          ≡ some (Handled.handled w)
    processing-unanswered w q m head body identity full full' version system known unparsed =
        let (l, made, bad) = unserialize-parsed head body full' version system known unparsed in
        processing-frames w q m head body identity full ∙ rw (made, bad) refl
