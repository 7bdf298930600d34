-- ===== src/Xdb/Services.antt =====
-- The services in the database: AddService, Update, RemoveService, GetServiceByName, GetServiceById,
-- IsServiceExist, LoadService, StateConvert and the table of endpoints of
-- xdb/impl/xdb_impl_db_broker.cpp.
pub mod Laws
use rtdbus.Base.{
  ℕ, Bytes, text, bytes_eq, c_str, take, Bool, true, false, ◌&&◌, Option, none, some, List, [], ◌∷◌,
  ◌++◌, if◌then◌else◌,
}
use rtdbus.Xdb.Rows.{XdbService, XdbServiceState}
use rtdbus.Xdb.Service
use rtdbus.Xdb.Service.{Service, ServiceState}
use rtdbus.Xdb.Worker.{Worker}
use rtdbus.Xdb.Table.{put_fields}
use rtdbus.Xdb.Mco.{Mco, Db}

-- SERVICE_NAME_MAXLEN, ENDPOINT_MAXLEN
abbrev pub service_name_maxlen : ℕ
service_name_maxlen = 32

abbrev pub endpoint_maxlen : ℕ
endpoint_maxlen = 100

-- Endpoints [], less the entry of the broker itself, which every search skips, and the end mark.
abbrev pub endpoints : List (Bytes × Bytes)
endpoints =
    (text "SINF", text "tcp://localhost:5556")
    ∷ (text "IHM", text "tcp://localhost:5558")
    ∷ (text "EXCH", text "tcp://localhost:5559")
    ∷ []

unfoldable pub default_endpoint : Bytes → List (Bytes × Bytes) → Option Bytes
unfolding bytes_eq
default_endpoint n [] = none
default_endpoint n ((k, e) ∷ rest) = if bytes_eq n k then some e else default_endpoint n rest

unfoldable pub state_to_object : XdbServiceState → ServiceState
state_to_object XdbServiceState.registered = ServiceState.registered
state_to_object XdbServiceState.activated = ServiceState.activated
state_to_object XdbServiceState.disabled = ServiceState.disabled
state_to_object XdbServiceState.unknown = ServiceState.unknown

unfoldable pub state_to_row : ServiceState → XdbServiceState
state_to_row ServiceState.registered = XdbServiceState.registered
state_to_row ServiceState.activated = XdbServiceState.activated
state_to_row ServiceState.disabled = XdbServiceState.disabled
state_to_row ServiceState.unknown = XdbServiceState.unknown

unfoldable pub load_service : ℕ → XdbService → Service
unfolding state_to_object
load_service aid r =
    let s = Service.new aid (take service_name_maxlen r.name) in
    let s' = Service.set_state (state_to_object r.state) s in
    Service.set_valid (Service.set_endpoint (take endpoint_maxlen r.endpoint) s')

abbrev pub named : Bytes → XdbService → Bool
named n r = bytes_eq r.name n

-- The fields that AddService writes; the endpoint is one of the table, if the name stands there.
abbrev endpoint_write : Option Bytes → List (XdbService → XdbService)
endpoint_write none = []
endpoint_write (some e) = (λ r. record r { endpoint = e }) ∷ []

unfoldable pub service_writes : Bytes → List (XdbService → XdbService)
unfolding default_endpoint
service_writes n =
    (λ r. record r { name = c_str n }) ∷ endpoint_write (default_endpoint (c_str n) endpoints)
    ++ (λ r. record r { state = XdbServiceState.registered }) ∷ []

module _ (m : Mco) where
  -- GetServiceById
  unfoldable pub get_service_by_id : Db m → ℕ → Option Service
  get_service_by_id db i = elim (m.service.get db.services i) [
    | none ↦ none
    | some r ↦ if db.starts then some (load_service i r) else none
  ]

  -- GetServiceByName; the argument is a `const char*`.
  unfoldable pub get_service_by_name : Db m → Bytes → Option Service
  unfolding get_service_by_id
  get_service_by_name db n = elim (m.service.find db.services (named (c_str n))) [
    | none ↦ none
    | some i ↦ get_service_by_id db i
  ]

  unfoldable pub get_service_for_worker : Db m → Worker → Option Service
  unfolding get_service_by_id
  get_service_for_worker db w = get_service_by_id db w.service_id

  unfoldable pub is_service_exist : Db m → Bytes → Bool
  is_service_exist db n = elim (m.service.find db.services (named (c_str n))) [
    | none ↦ if db.starts then false else true
    | some i ↦ true
  ]

  -- The end of a transaction that writes services.
  abbrev pub commit_services : Db m → Option m.service.Store → Bool × Db m
  commit_services db none = (false, db)
  commit_services db (some s) =
      if db.starts && db.commits then (true, record db { services = s }) else (false, db)

  -- AddService: the object is returned whether or not the commitment succeeds.
  unfoldable pub add_service : Db m → Bytes → Option Service × Db m
  unfolding service_writes
  add_service db n = elim (m.service.create db.services) [
    | none ↦ (none, db)
    | some (i, s) ↦
        if db.starts
        then elim (put_fields m.service s i (service_writes n)) [
          | none ↦ (none, db)
          | some s' ↦ (
            some (Service.set_state ServiceState.registered (Service.new i n)),
            (commit_services db (some s')).1,
          )
        ]
        else (none, db)
  ]

  -- Update (Service*): `status` is never set, so the answer is false in every case. A service with no
  -- endpoint would end in GetENDPOINT's assertion: `none`.
  unfoldable pub update_service : Db m → Service → Option (Bool × Db m)
  unfolding state_to_row
  update_service db srv = elim (srv.endpoint) [
    | none ↦ elim (m.service.get db.services srv.id) [
      | none ↦ some (false, db)
      | some r ↦ if db.starts then none else some (false, db)
    ]
    | some e ↦ some (
      false,
      (commit_services db (
          put_fields m.service db.services srv.id (
            (λ r. record r { name = srv.name })
            ∷ (λ r. record r { endpoint = e })
            ∷ (λ r. record r { state = state_to_row srv.state })
            ∷ []))).1,
    )
  ]

  -- RemoveService
  unfoldable pub remove_service : Db m → Bytes → Bool × Db m
  remove_service db n = elim (m.service.find db.services (named (c_str n))) [
    | none ↦ (false, db)
    | some i ↦ commit_services db (m.service.remove db.services i)
  ]
