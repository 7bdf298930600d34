-- ===== src/Xdb/ServiceList.antt =====
-- ServiceList of xdb/impl/xdb_impl_db_broker.cpp: the services that were read last, with a position.
pub mod Walk
use rtdbus.Base.{
  ℕ, ◌+◌, ◌-◌, Bytes, take, Bool, true, false, Option, none, some, List, [], ◌∷◌, ◌++◌, ◌==◌,
  if◌then◌else◌, length, get_elem?, ltb, leb,
}
use rtdbus.Xdb.Rows.{XdbService}
use rtdbus.Xdb.Service
use rtdbus.Xdb.Service.{Service}
use rtdbus.Xdb.Services.{service_name_maxlen}
use rtdbus.Xdb.Mco.{Mco, Db}

-- MAX_SERVICES_ENTRY of cmake/CMakeLists.txt
abbrev pub max_services_entry : ℕ
max_services_entry = 400

-- m_array holds m_size services, and null pointers behind them.
pub record ServiceList : Type 0 where
  pub current_index : ℕ
  pub array : List Service

unfoldable pub size : ServiceList → ℕ
size l = length l.array

unfoldable pub first : ServiceList → Option Service × ServiceList
unfolding size
first l = (get_elem? l.array 0, record l { current_index = if size l == 0 then 0 else 1 })

-- m_size - 1 only where there is a service
unfoldable pub last : ServiceList → Option Service × ServiceList
unfolding size
last l =
    let i = if size l == 0 then size l else size l - 1 in
    (get_elem? l.array i, record l { current_index = i })

unfoldable pub next : ServiceList → Option Service × ServiceList
unfolding size
next l =
    if ltb l.current_index (size l)
    then (get_elem? l.array l.current_index, record l { current_index = l.current_index + 1 })
    else (none, l)

-- The test is the source's: m_size < m_current_index, so that m_current_index is not 0.
unfoldable pub prev : ServiceList → Option Service × ServiceList
unfolding size
prev l =
    if ltb (size l) l.current_index
    then (get_elem? l.array l.current_index, record l { current_index = l.current_index - 1 })
    else (none, l)

-- AddService (const Service*)
unfoldable pub add_object : Service → ServiceList → Bool × ServiceList
unfolding size
add_object srv l =
    if leb max_services_entry (size l)
    then (false, l)
    else (true, record l { array = l.array ++ srv ∷ [] })

-- AddService (const char*, int64_t)
unfoldable pub add : Bytes → ℕ → ServiceList → Bool × ServiceList
unfolding add_object
add name i l = add_object (Service.new i name) l

module _ (m : Mco) where
  -- The loop of refresh over the rows that its cursor meets; it ends at a row that cannot be read.
  unfoldable pub add_rows : m.service.Store → List ℕ → ServiceList → Bool × ServiceList
  unfolding add
  add_rows s [] l = (true, l)
  add_rows s (i ∷ is) l = elim (m.service.get s i) [
    | none ↦ (false, l)
    | some r ↦ add_rows s is (add (take service_name_maxlen r.name) i l).1
  ]

  -- m_current_index is left as it is.
  unfoldable pub refresh : Db m → ServiceList → Bool × ServiceList
  unfolding add_rows
  refresh db l =
      let l' = record l { array = [] } in
      if db.starts
      then add_rows db.services (m.service.scan db.services (λ r. true)) l'
      else (false, l')
