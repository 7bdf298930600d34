-- ===== src/Broker/State.antt =====
-- The state of the broker, the protocol's literals (mdp/mdp_common.h, mdp/mdp_helpers.cpp), and the
-- messages that go to workers: `worker_send` and `release` of mdp/mdp_broker.cpp.
-- A failed assertion, or a read through a null pointer, is `none`.
use mathlib.Core.List.{List, [], ◌∷◌, ◌++◌}
use rtdbus.Base.{ℕ, Bytes, text, Bool, Option, none, some, if◌then◌else◌, length, ltb}
use rtdbus.Zmsg.{Zmsg, push_front, push_front_string, wrap}
use rtdbus.Xdb.Rows.{Mark}
use rtdbus.Xdb.Worker.{Worker}
use rtdbus.Xdb.Letter.{Letter}
use rtdbus.Xdb.Mco.{Mco, Db}
use rtdbus.Xdb.Workers.{remove_worker}
use rtdbus.Xdb.Letters.{assign_letter_to_worker}

abbrev pub empty_frame : Bytes
empty_frame = []

abbrev pub mdpc_client : Bytes
mdpc_client = text "MDPC0X"

abbrev pub mdpw_worker : Bytes
mdpw_worker = text "MDPW0X"

abbrev pub mdpc_report : Bytes
mdpc_report = 2 ∷ []

abbrev pub mdpc_nak : Bytes
mdpc_nak = 3 ∷ []

abbrev pub mdpw_ready : Bytes
mdpw_ready = 1 ∷ []

abbrev pub mdpw_request : Bytes
mdpw_request = 2 ∷ []

abbrev pub mdpw_report : Bytes
mdpw_report = 3 ∷ []

abbrev pub mdpw_heartbeat : Bytes
mdpw_heartbeat = 4 ∷ []

abbrev pub mdpw_disconnect : Bytes
mdpw_disconnect = 5 ∷ []

-- m_database, the messages handed to m_socket (oldest first), and m_heartbeat_at.
pub record Broker (m : Mco) : Type 0 where
  pub db : Db m
  pub sent : List Zmsg
  pub heartbeat_at : ℕ

-- if (option.size() > 0) push_front (option)
abbrev pub push_option : Bytes → Zmsg → Zmsg
push_option option msg = if ltb 0 (length option) then push_front option msg else msg

module _ (m : Mco) where
  unfoldable pub emit : Broker m → Zmsg → Broker m
  emit b msg = record b { sent = b.sent ++ msg ∷ [] }

  unfoldable pub with_db : Broker m → Db m → Broker m
  with_db b db = record b { db = db }

  -- worker_send (const char*, const char*, const std::string&, zmsg*), whose message may be missing
  unfoldable pub worker_send_command : Broker m → Bytes → Bytes → Bytes → Zmsg → Broker m
  unfolding emit push_front wrap
  worker_send_command b identity command option msg =
      let msg' = push_front command (push_option option msg) in
      emit b (wrap identity (some empty_frame) (push_front mdpw_worker msg'))

  -- The message that carries a letter to a worker.
  unfoldable pub request_message : Worker → Letter → Bytes → Bytes → Zmsg
  unfolding push_front push_front_string wrap
  request_message w l command option =
      let content = push_front_string l.header (push_front_string l.body (push_option option [])) in
      let msg = push_front command (push_front l.reply_to content) in
      wrap w.identity (some empty_frame) (push_front mdpw_worker msg)

  -- worker_send (xdb::Worker*, const char*, const std::string&, xdb::Letter*): nothing is sent unless
  -- the letter could be assigned.
  unfoldable pub worker_send_letter : Mark → Broker m → Worker → Bytes → Bytes → Letter → Broker m
  unfolding assign_letter_to_worker request_message emit with_db
  worker_send_letter now b w command option l =
      let (assigned, w', l', db') = assign_letter_to_worker m now b.db w l in
      if assigned
      then emit (with_db b db') (request_message w' l' command option)
      else with_db b db'

  -- release (Worker*&, int disconnect)
  unfoldable pub release : Broker m → Option Worker → Bool → Option (Bool × Worker × Broker m)
  unfolding worker_send_command remove_worker with_db
  release b none disconnect = none
  release b (some w) disconnect =
      let b' =
        if disconnect then worker_send_command b w.identity mdpw_disconnect empty_frame [] else b in
      let (status, w', db') = remove_worker m b'.db w in some (status, w', with_db b' db')
