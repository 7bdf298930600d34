-- ===== src/Xdb/Letter.antt =====
-- xdb/broker/xdb_broker_letter.cpp: the object of a request to a service in memory.
use rtdbus.Base.{
  ℕ, ◌-◌, Bytes, strncpy, Bool, true, false, leb, Option, none, some, guard, ◌>>=◌, ◌>>◌, ◌==◌,
  if◌then◌else◌,
}
use rtdbus.Zmsg.{Zmsg, parts, get_part}
use rtdbus.Xdb.Rows.{Mark, no_mark, LetterState}
use rtdbus.Xdb.Worker.{Worker, identity_maxlen}

pub record Letter : Type 0 where
  pub id : ℕ
  pub service_id : ℕ
  pub worker_id : ℕ
  pub state : LetterState
  pub header : Bytes
  pub body : Bytes
  pub expiration : Mark
  pub reply_to : Bytes
  pub modified : Bool

unfoldable pub set_id : ℕ → Letter → Letter
set_id i l = record l { id = i; modified = true }

unfoldable pub set_service_id : ℕ → Letter → Letter
set_service_id i l = record l { service_id = i; modified = true }

unfoldable pub set_worker_id : ℕ → Letter → Letter
set_worker_id i l = record l { worker_id = i; modified = true }

-- SetWORKER: the service is filled in where it was not known.
unfoldable pub set_worker : Option Worker → Letter → Letter
set_worker none l = l
set_worker (some w) l = record l {
  worker_id = w.id;
  service_id = if l.service_id == 0 then w.service_id else l.service_id;
}

unfoldable pub set_state : LetterState → Letter → Letter
set_state st l = record l { state = st }

unfoldable pub set_expiration : Mark → Letter → Letter
set_expiration m l = record l { expiration = m }

unfoldable pub set_valid : Letter → Letter
set_valid l = record l { modified = false }

-- Letter (_reply_to, _head, _data)
unfoldable pub new : Bytes → Bytes → Bytes → Letter
new reply head body' = record {
  id = 0;
  service_id = 0;
  worker_id = 0;
  state = LetterState.unassigned;
  header = head;
  body = body';
  expiration = no_mark;
  reply_to = strncpy identity_maxlen reply;
  modified = true;
}

-- Letter (void*): the first frame is the return address, the last two the header and the body.
unfoldable pub of_zmsg : Zmsg → Option Letter
unfolding get_part parts new
of_zmsg m = do
  reply ← get_part 0 m
  guard (leb 2 (parts m))
  head ← get_part (parts m - 2) m
  body' ← get_part (parts m - 1) m
  some (new reply head body')
