-- ===== src/Digger/Tests.antt =====
-- Examples of the worker's answers. A codec that makes the same frames of every message, and parses a
-- header by its first byte, stands in for protobuf.
use rtdbus.Base.{
  ℕ, ◌≡◌, ◌↔◌, refl, arith, inl, Bytes, text, bytes_eq, c_str, Bool, true, false, none, some, List,
  [], ◌∷◌,
}
use rtdbus.Attribute.{DbType, Quality, AttributeInfo, no_value}
use rtdbus.Msg.Value.{Update, new_update, of_update}
use rtdbus.Msg.Items.{item, read_add, write_add}
use rtdbus.Msg.Letter.{UserType, Header, Body, Codec, Letter}
use rtdbus.Xdb.Memory.{table-IsTable}
use rtdbus.Rtap.Attributes.{write_val, part_of_val}
use rtdbus.Rtap.Access.{ErrorCode, error_number, split_tag, write}
use rtdbus.Rtap.Access.Tests.{pressure, val_only, points, no_info, one_point, one_row}
use rtdbus.Digger.{
  Connection, read_items, write_items, write_attribute, handle_read, Handled, Worker, processing,
  add_status,
}
use rtdbus.WorkerApi.{Mdwrk, send_to_broker}
use rtdbus.Broker.State.{mdpw_report}
use rtdbus.Digger.Service.{handle_request, handle_request_alive}
use rtdbus.Digger.Publish.{PointInfo}
use rtdbus.Digger.Reads.{handle_read-answers}
use rtdbus.Digger.Writes.{write_items-last}
use rtdbus.Digger.Dialogue.{read_items-write_items}
use rtdbus.Digger.Requests.{processing-none, processing-unanswered}

abbrev header : ℕ → Header
header version = record {
  protocol_version = version;
  exchange_id = 7;
  interest_id = 0;
  proc_dest = [];
  proc_origin = text "CLIENT";
  sys_msg_type = 100;
  usr_msg_type = UserType.read_multi;
}

abbrev parse : Bytes → Bool × Header
parse [] = (false, header 0)
parse (x ∷ s) = (true, header x)

abbrev codec : Codec
codec = record {
  parse_header = parse;
  parse_body = λ t s. none;
  serialize = λ b. some (text "BODY");
  serialize_header = λ h. some (text "HEAD");
}

abbrev connection : Connection points val_only
connection = record { valid = true; db = one_point }

abbrev asked : Update
asked = record new_update { tag = text "P1.VAL"; quality = Quality.error }

abbrev unknown : Update
unknown = record new_update { tag = text "P2.VAL"; quality = Quality.error }

abbrev items : List Update
items = unknown ∷ asked ∷ []

abbrev letter : Letter
letter = record {
  header = header 1;
  header_valid = true;
  content = record {
    instance = some (Body.updates items);
    valid = true;
    modified = true;
    serialized = [];
  };
}

handle_read-answers_example :
    handle_read points val_only codec connection Quality.ok letter (text "@1") []
    ≡ some ((text "@1" ∷ [] ∷ text "HEAD" ∷ text "BODY" ∷ []) ∷ [])
unfolding c_str
handle_read-answers_example =
    handle_read-answers points val_only codec connection Quality.ok letter (text "@1") (text "BODY")
      items [] refl refl refl refl

-- A write that fails and one that succeeds: the status says success.
abbrev set_point : Update
set_point = record asked { type = DbType.double; g_value = 4200 }

abbrev changed : Connection points val_only
changed = record connection {
  db = record one_point {
    store = some (record pressure { ai = record no_info { val = 4200 }; is_modified = true }) ∷ [];
  };
}

write_items-last_example :
    (status : ℕ) × (write_items points val_only connection Quality.ok 0 2
        (unknown ∷ set_point ∷ [])
        0
      ≡ some (changed, status))
    × ((status ≡ 0) ↔ (ErrorCode.no_error ≡ ErrorCode.no_error))
unfolding write_items item write_attribute write add_status error_number split_tag bytes_eq
    write_val of_update
write_items-last_example =
    write_items-last points val_only connection connection changed Quality.ok (unknown ∷ [])
      set_point ErrorCode.no_error 27 refl refl

read_items-write_items_example :
    (c' : Connection points val_only) × (write_items points val_only connection Quality.ok 0 1
        (write_add (text "P1.VAL") DbType.double (record no_value { fixed = 4200 }) [])
        0
      ≡ some (c', 0))
    × (item Quality.ok 0 (
          read_items points val_only c' Quality.ok 0 1
            (read_add (text "P1.VAL") DbType.undef none []))
        ≡ some (record {
          name = text "P1.VAL";
          type = DbType.double;
          quality = Quality.ok;
          value = record no_value { fixed = 4200 };
        }))
unfolding split_tag bytes_eq part_of_val
read_items-write_items_example =
    read_items-write_items points val_only (table-IsTable pressure) connection Quality.ok Quality.ok
      Quality.ok (text "P1.VAL") (text "P1") (text "VAL") 1 pressure
      (record no_value { fixed = 4200 }) refl refl refl (one_row pressure) refl refl refl refl refl
      refl

abbrev worker : Worker points val_only codec
worker = record {
  connection = connection;
  factory = record { exchange_id = 0; source_procname = text "DIGGER" };
  sent = [];
}

processing-none_example :
    processing points val_only codec worker Quality.ok
      (text "@1" ∷ [] ∷ (2 ∷ []) ∷ text "BODY" ∷ [])
      (text "@1")
    ≡ none
processing-none_example =
    processing-none codec points val_only worker Quality.ok (text "@1" ∷ [] ∷ []) (2 ∷ [])
      (text "BODY") (text "@1") (omega arith) (inl refl)

processing-unanswered_example :
    processing points val_only codec worker Quality.ok
      (text "@1" ∷ [] ∷ (1 ∷ []) ∷ text "BODY" ∷ [])
      (text "@1")
    ≡ some (Handled.handled worker)
processing-unanswered_example =
    processing-unanswered codec points val_only worker Quality.ok (text "@1" ∷ [] ∷ []) (1 ∷ [])
      (text "BODY") (text "@1") (omega arith) (omega arith) refl refl refl refl

-- The value of a point and the time of its last change.
abbrev point : PointInfo
point = record {
  tag = text "P1";
  attributes =
      (
        text "DATEHOURM",
        record {
          name = text "P1";
          type = DbType.abstime;
          quality = Quality.ok;
          value = record no_value { fixed = 1000 };
        },
      )
      ∷ (
        text "VAL",
        record {
          name = text "P1";
          type = DbType.double;
          quality = Quality.ok;
          value = record no_value { fixed = 4200 };
        },
      )
      ∷ [];
}

abbrev arrived : Bytes → DbType → ℕ → AttributeInfo
arrived n t x = record {
  name = n;
  type = t;
  quality = Quality.ok;
  value = record no_value { fixed = x };
}

-- A write to a point that is not there: the status is that of the error.
abbrev lost_letter : Letter
lost_letter = record letter {
  content = record letter.content { instance = some (Body.updates (unknown ∷ [])) };
}

abbrev alive_codec : Codec
alive_codec = record codec {
  parse_header = λ s. (true, record (header 1) { usr_msg_type = UserType.ask_life });
}

abbrev idle : Mdwrk
idle = record {
  service = text "SINF";
  liveness = 3;
  heartbeat_at = 100;
  heartbeat_msec = 2500;
  sent = [];
  connections = 1;
}

handle_request_alive_example :
    handle_request alive_codec (text "x" ∷ [] ∷ []) (text "@1") idle
    ≡ some (send_to_broker mdpw_report (text "@1" ∷ [] ∷ text "HEAD" ∷ text "BODY" ∷ []) idle)
unfolding c_str
handle_request_alive_example =
    handle_request_alive alive_codec [] (text "x") (text "@1") (text "HEAD") (text "BODY")
      (record (header 1) { usr_msg_type = UserType.ask_life }) idle (omega arith) refl refl refl
      refl refl refl
