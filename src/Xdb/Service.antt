-- ===== src/Xdb/Service.antt =====
-- xdb/broker/xdb_broker_service.cpp: the object of a service in memory. A name is kept as the C string
-- that SetNAME copies.
use rtdbus.Base.{ℕ, Bytes, c_str, Bool, true, false, not, Option, none, some}

pub data ServiceState : Type 0 where
  unknown registered activated disabled : ServiceState

pub record Service : Type 0 where
  pub id : ℕ
  pub name : Bytes
  pub endpoint : Option Bytes  -- a null pointer until SetENDPOINT
  pub state : ServiceState
  pub modified : Bool

unfoldable pub set_name : Bytes → Service → Service
set_name n s = record s { name = c_str n; modified = true }

unfoldable pub set_endpoint : Bytes → Service → Service
set_endpoint e s = record s { endpoint = some (c_str e); modified = true }

unfoldable pub set_state : ServiceState → Service → Service
set_state st s = record s { state = st; modified = true }

unfoldable pub set_valid : Service → Service
set_valid s = record s { modified = false }

unfoldable pub get_valid : Service → Bool
get_valid s = not s.modified

-- Service (_id, _name)
unfoldable pub new : ℕ → Bytes → Service
unfolding set_name
new i n =
    let s : Service = record {
      id = i;
      name = n;
      endpoint = none;
      state = ServiceState.disabled;
      modified = true;
    } in
    set_name n s
