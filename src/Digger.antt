-- ===== src/Digger.antt =====
-- The worker that answers requests to the real-time database: DiggerWorker of worker/wdigger.cpp, with
-- the reads and writes of xdb/impl/xdb_impl_connection.cpp. A reply is a list of frames that is sent;
-- what handle_sbs_ctrl does is left out, and the metrics and the log are too.
pub mod Reads
pub mod Writes
pub mod Dialogue
pub mod Requests
pub mod Publish
pub mod Service
pub mod Bundles
mod Tests
use Prim.Native.Nat.{bit_or}
use rtdbus.Base.{
  ℕ, zero, suc, ◌+◌, Bytes, Bool, true, false, not, ◌&&◌, leb, Option, none, some, List, [], ◌∷◌,
  ◌++◌, length, get_elem?, set, if◌then◌else◌, ◌>>=◌,
}
use rtdbus.Attribute.{DbType, Quality, AttributeInfo}
use rtdbus.Zmsg.{Zmsg, push_front_string, wrap}
use rtdbus.Msg.Value.{Update, flush}
use rtdbus.Msg.Items.{item, set_type}
use rtdbus.Msg.Letter.{
  UserType, Body, Codec, Data, Letter, undetermined, get_serialized, change, create_from, is_valid,
  header_frame, Factory, create,
}
use rtdbus.Xdb.Table.{Table}
use rtdbus.Rtap.Attributes.{Entry}
use rtdbus.Rtap.Access.{Maps, Db, ErrorCode, error_number, read, write}

abbrev pub is_ok : ErrorCode → Bool
is_ok ErrorCode.no_error = true
is_ok _ = false

abbrev pub is_undef : DbType → Bool
is_undef DbType.undef = true
is_undef _ = false

-- ExecResult::set_exec_result: gof_t_ExecResult_IsValid
unfoldable pub exec_result_of : ℕ → ℕ
exec_result_of n = if leb n 3 then n else undetermined

-- The replies of a worker are made of the letter's frames.
module _ (codec : Codec) where
  -- push_front of the body and of the header, wrap (identity, "")
  unfoldable pub reply : Letter → Bytes → Option (Letter × Zmsg)
  unfolding get_serialized push_front_string wrap
  reply l identity = get_serialized codec l.content >>= λ (frame, d). some (
    record l { content = d },
    wrap identity (some []) (push_front_string (header_frame codec l) (push_front_string frame [])),
  )

  abbrev pub with_destination : Bytes → Letter → Letter
  with_destination identity l = record l { header = record l.header { proc_dest = identity } }

  -- DiggerWorker::send_exec_result
  unfoldable pub send_exec_result : ℕ → Bytes → Factory → List Zmsg → Option (Factory × List Zmsg)
  unfolding create exec_result_of reply
  send_exec_result n identity f sent = create UserType.exec_result f >>= λ (l, f').
      let l' : Letter = record (with_destination identity l) {
        content = record l.content {
          instance = some (Body.result (exec_result_of n) (some n));
          modified = true;
        };
      } in
      reply l' identity >>= λ (l'', m). some (f', sent ++ m ∷ [])

module _ (points : Table Entry) (maps : Maps) where
  -- ConnectionImpl: whether the state is CONNECTION_VALID, and the database
  pub record Connection : Type 0 where
    pub valid : Bool
    pub db : Db points maps

  unfoldable pub read_attribute : Connection → AttributeInfo → ErrorCode × AttributeInfo
  unfolding read
  read_attribute c a =
      if c.valid then read points maps c.db a else (ErrorCode.connection_invalid, a)

  unfoldable pub write_attribute : Connection → AttributeInfo → Option (ErrorCode × Connection)
  unfolding write
  write_attribute c a =
      if c.valid
      then (write points maps c.db a >>= λ (error, db'). some (error, record c { db = db' }))
      else some (ErrorCode.connection_invalid, c)

  -- What the turn of handle_read for the item i does with what was read into the Value.
  abbrev store_read : DbType → ErrorCode × AttributeInfo → ℕ → List Update → List Update
  store_read given (error, a) i items = elim (get_elem? items i) [
    | none ↦ items
    | some u ↦
        let flushed = set items i (flush a u) in
        let typed = set_type i a.type flushed in
        if is_ok error
        then (if is_undef given && not (is_undef a.type) then typed else flushed)
        else items
  ]

  abbrev read_item : Connection → Quality → ℕ → List Update → List Update
  read_item c q i items = elim (item q i items) [
    | none ↦ items
    | some todo ↦ store_read todo.type (read_attribute c todo) i items
  ]

  -- The loop of handle_read from the item i on, for n items. The quality is what the memory of a new
  -- Value holds.
  unfoldable pub read_items : Connection → Quality → ℕ → ℕ → List Update → List Update
  unfolding item read_attribute flush set_type
  read_items c q i zero items = items
  read_items c q i (suc n) items = read_items c q (suc i) n (read_item c q i items)

  -- status_code |= err.code (), and 0 after a success
  unfoldable pub add_status : ErrorCode → ℕ → ℕ
  unfolding error_number
  add_status error status = if is_ok error then 0 else bit_or status (error_number error)

  abbrev write_item : Connection → AttributeInfo → ℕ → Option (Connection × ℕ)
  write_item c todo status =
      write_attribute c todo >>= λ (error, c'). some (c', add_status error status)

  -- The loop of handle_write from the item i on, for n items
  unfoldable pub write_items :
      Connection → Quality → ℕ → ℕ → List Update → ℕ → Option (Connection × ℕ)
  unfolding item write_attribute add_status
  write_items c q i zero items status = some (c, status)
  write_items c q i (suc n) items status = item q i items >>= λ todo.
      write_item c todo status >>= λ (c', status'). write_items c' q (suc i) n items status'

  module _ (codec : Codec) where
    -- The body as a message with items; the cast of another body is undefined.
    abbrev pub items_of : Data → Option (List Update)
    items_of d = d.instance >>= λ body. elim body [
      | Body.updates items ↦ some items
      | Body.result n cause ↦ none
      | Body.request n ↦ none
      | Body.control name n ↦ none
    ]

    -- DiggerWorker::handle_read
    unfoldable pub handle_read :
        Connection → Quality → Letter → Bytes → List Zmsg → Option (List Zmsg)
    unfolding read_items reply
    handle_read c q l identity sent = items_of l.content >>= λ items.
        let l' : Letter = record (with_destination codec identity l) {
          content =
              change codec (λ b. Body.updates (read_items c q 0 (length items) items)) l.content;
        } in
        reply codec l' identity >>= λ (l'', m). some (sent ++ m ∷ [])

    pub record Worker : Type 0 where
      pub connection : Connection
      pub factory : Factory
      pub sent : List Zmsg

    -- DiggerWorker::handle_write
    unfoldable pub handle_write : Worker → Quality → Letter → Bytes → Option Worker
    unfolding write_items send_exec_result
    handle_write w q l identity = items_of l.content >>= λ items.
        write_items w.connection q 0 (length items) items 0 >>= λ (c', status).
        send_exec_result codec status identity w.factory w.sent >>= λ (f', sent').
        some (record { connection = c'; factory = f'; sent = sent' })

    -- What becomes of a request: it is handled, or it is one to handle_sbs_ctrl.
    pub data Handled : Type 0 where
      handled : Worker → Handled
      sbs_ctrl : Letter → Bytes → Handled

    abbrev dispatch : Worker → Quality → Letter → Bytes → UserType → Option Handled
    dispatch w q l identity UserType.read_multi =
        handle_read w.connection q l identity w.sent >>= λ sent'.
        some (Handled.handled (record w { sent = sent' }))
    dispatch w q l identity UserType.write_multi =
        handle_write w q l identity >>= λ w'. some (Handled.handled w')
    dispatch w q l identity UserType.grpsbs_ctrl = some (Handled.sbs_ctrl l identity)
    dispatch w q l identity _ = some (Handled.handled w)

    abbrev pub process_letter : Worker → Quality → Bytes → Letter → Option Handled
    process_letter w q identity l =
        if is_valid l
        then dispatch w q l identity l.header.usr_msg_type
        else some (Handled.handled w)

    -- DiggerWorker::processing; the letter is used without a test for NULL.
    unfoldable pub processing : Worker → Quality → Zmsg → Bytes → Option Handled
    unfolding create_from handle_read handle_write
    processing w q request identity =
        create_from codec request >>= λ made. made >>= process_letter w q identity
