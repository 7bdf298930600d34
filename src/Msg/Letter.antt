-- ===== src/Msg/Letter.antt =====
-- Letter, Header and Data of msg/msg_message.cpp and msg/msg_message_impl.cpp, and the factory of
-- messages. What protobuf makes of a frame, and a frame of, is a parameter.
use rtdbus.Base.{
  ℕ, ◌+◌, ◌-◌, ◌%◌, ◌^◌, Bytes, Bool, true, false, ◌&&◌, ◌==◌, ltb, leb, Option, none, some, List,
  [], length, take, if◌then◌else◌, ◌>>=◌, ◌>>◌, guard,
}
use rtdbus.Zmsg.{Zmsg, parts, get_part}
use rtdbus.Msg.Value.{Update}

-- usr_msg_type, the types that the factory knows, and those it lists and does not make
pub data UserType : Type 0 where
  exec_result ask_life read_multi write_multi grpsbs grpsbs_ctrl : UserType
  other : ℕ → UserType

-- RTDBM::Header, less the process id and the time
pub record Header : Type 0 where
  pub protocol_version : ℕ
  pub exchange_id : ℕ
  pub interest_id : ℕ
  pub proc_dest : Bytes
  pub proc_origin : Bytes
  pub sys_msg_type : ℕ
  pub usr_msg_type : UserType

-- The messages of common.proto and sinf.proto: ExecResult with the code of its cause,
-- SimpleRequest, the three that hold updates, and SubscriptionControl. The text of a cause, which
-- goes by its code, is left out.
pub data Body : Type 0 where
  result : ℕ → Option ℕ → Body
  request : Option ℕ → Body
  updates : List Update → Body
  control : Bytes → ℕ → Body

pub record Codec : Type 0 where
  -- ParseFromString: whether it succeeds, and what it leaves in the header either way
  pub parse_header : Bytes → Bool × Header
  pub parse_body : UserType → Bytes → Option Body
  pub serialize : Body → Option Bytes
  pub serialize_header : Header → Option Bytes

-- DataImpl
pub record Data : Type 0 where
  pub instance : Option Body
  pub valid : Bool
  pub modified : Bool
  pub serialized : Bytes

pub record Letter : Type 0 where
  pub header : Header
  pub header_valid : Bool
  pub content : Data

abbrev pub user_message_type : ℕ
user_message_type = 100

-- GOF_D_SUCCESS and GOF_D_UNDETERMINED
abbrev pub success : ℕ
success = 1

abbrev pub undetermined : ℕ
undetermined = 3

-- DataImpl::set_initial_values
unfoldable pub initial_body : UserType → Option Body
initial_body UserType.exec_result = some (Body.result success none)
initial_body UserType.ask_life = some (Body.request none)
initial_body UserType.read_multi = some (Body.updates [])
initial_body UserType.write_multi = some (Body.updates [])
initial_body UserType.grpsbs = some (Body.updates [])
initial_body UserType.grpsbs_ctrl = some (Body.control [] 0)
initial_body (UserType.other n) = none

abbrev pub new_data : UserType → Data
new_data t = record { instance = initial_body t; valid = true; modified = true; serialized = [] }

module _ (codec : Codec) where
  -- DataImpl::syncronize: a frame that is not empty is parsed into the new instance.
  abbrev pub parsed : UserType → Bytes → Data
  parsed t frame = elim (codec.parse_body t frame) [
    | none ↦ record (new_data t) { instance = none; valid = false }
    | some b ↦ record (new_data t) { instance = some b }
  ]

  abbrev pub has_instance : UserType → Bool
  has_instance (UserType.other n) = false
  has_instance _ = true

  unfoldable pub syncronize : UserType → Bytes → Data
  unfolding initial_body
  syncronize t frame = if has_instance t && ltb 0 (length frame) then parsed t frame else new_data t

  -- DataImpl::get_serialized; `none` where there is no instance to serialize.
  unfoldable pub get_serialized : Data → Option (Bytes × Data)
  get_serialized d =
      if d.valid && d.modified
      then elim (d.instance) [
        | none ↦ none
        | some b ↦ elim (codec.serialize b) [
          | none ↦ some (d.serialized, record d { valid = false })
          | some frame ↦ some (frame, record d { modified = false; serialized = frame })
        ]
      ]
      else some (d.serialized, d)

  -- The items of a message are changed by way of instance (), which does not set `modified`.
  abbrev pub change : (Body → Body) → Data → Data
  change f d = elim (d.instance) [ none ↦ d | some b ↦ record d { instance = some (f b) } ]

  -- HeaderImpl::get_serialized, where the header was made of a frame or changed just before.
  abbrev pub header_frame : Letter → Bytes
  header_frame l =
      if l.header_valid
      then elim (codec.serialize_header l.header) [ none ↦ [] | some frame ↦ frame ]
      else []

  -- Letter (header, body): the letter that unserialize makes
  abbrev pub letter_of : Bool × Header → Bytes → Letter
  letter_of (ok, h) body = record {
    header = h;
    header_valid = ok;
    content = syncronize h.usr_msg_type body;
  }

  abbrev pub is_made : UserType → Bool
  is_made (UserType.other n) = false
  is_made _ = true

  -- MessageFactory::unserialize, where the version of the message system is 1: a NULL pointer is
  -- `some none`, and a failed assertion `none`.
  unfoldable pub unserialize : Bytes → Bytes → Option (Option Letter)
  unfolding syncronize
  unserialize head body =
      let h = (codec.parse_header head).1 in
      if ltb 1 h.protocol_version
      then some none
      else guard (h.sys_msg_type == user_message_type)
        >> (if is_made h.usr_msg_type
            then some (some (letter_of (codec.parse_header head) body))
            else some none)

  -- MessageFactory::create (zmsg*): the last two frames
  unfoldable pub create_from : Zmsg → Option (Option Letter)
  unfolding unserialize get_part parts
  create_from m =
      guard (leb 2 (parts m))
      >> (get_part (parts m - 2) m >>= λ head. get_part (parts m - 1) m >>= λ body.
          if ltb 0 (length head) then unserialize head body else some none)

-- Letter::valid
abbrev pub is_valid : Letter → Bool
is_valid l = l.header_valid && l.content.valid

-- The state of the factory: the counter of exchanges, and the name of the process.
pub record Factory : Type 0 where
  pub exchange_id : ℕ
  pub source_procname : Bytes

-- MessageFactory::MessageFactory: SERVICE_NAME_MAXLEN bytes of the name
unfoldable pub new_factory : Bytes → ℕ → Factory
new_factory name counter = record { exchange_id = counter; source_procname = take 32 name }

abbrev pub new_header : Header
new_header = record {
  protocol_version = 1;
  exchange_id = 0;
  interest_id = 0;
  proc_dest = [];
  proc_origin = [];
  sys_msg_type = user_message_type;
  usr_msg_type = UserType.other 0;
}

-- MessageFactory::create (type): a type that it does not make ends in the use of a NULL pointer.
unfoldable pub create : UserType → Factory → Option (Letter × Factory)
unfolding initial_body
create (UserType.other n) f = none
create t f =
    let f' : Factory = record f { exchange_id = (f.exchange_id + 1) % 2 ^ 32 } in
    some (
      record {
        header = record new_header {
          exchange_id = f'.exchange_id;
          usr_msg_type = t;
          proc_origin = f.source_procname;
        };
        header_valid = true;
        content = new_data t;
      },
      f',
    )
