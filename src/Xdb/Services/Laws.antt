-- ===== src/Xdb/Services/Laws.antt =====
-- What AddService and RemoveService of xdb/impl/xdb_impl_db_broker.cpp do to the lookups by name.
use rtdbus.Base.{
  ℕ, Bytes, bytes_eq_self, c_str, true, ◌≡◌, refl, sym, ap, ◌∙◌, inl, inr, none, some, [], ◌==◌,
  if◌then◌else◌, arith, Option-cases, Bool-cases, ==-self, ==_iff,
}
use rtdbus.Xdb.Rows.{XdbService, XdbServiceState, new_service}
use rtdbus.Xdb.Service
use rtdbus.Xdb.Service.{Service, ServiceState}
use rtdbus.Xdb.Table.{put_fields, written, create-put_fields}
use rtdbus.Xdb.Mco.{Mco, IsMco, Db}
use rtdbus.Xdb.Services.{
  add_service, get_service_by_name, get_service_by_id, load_service, named, default_endpoint,
  endpoints, service_writes,
}

-- The endpoint of a service that is new: the table's, or none.
abbrev pub first_endpoint : Bytes → Bytes
first_endpoint n = elim (default_endpoint n endpoints) [ none ↦ [] | some e ↦ e ]

abbrev pub registered_row : Bytes → XdbService
registered_row n = record {
  name = c_str n;
  state = XdbServiceState.registered;
  endpoint = first_endpoint (c_str n);
}

written_service : (n : Bytes) → written (service_writes n) new_service ≡ registered_row n
unfolding service_writes
written_service n = elim (Option-cases (default_endpoint (c_str n) endpoints)) [
  | inl e ↦ rw (first_endpoint, e) refl
  | inr (a, e) ↦ rw (first_endpoint, e) refl
]

module _ (m : Mco) (laws : IsMco m) where
  -- Of the rows after a creation under a name that is new, only the created one has the name.
  found_created :
      (s₀ s' : m.service.Store) (n : Bytes) (i : ℕ)
      → m.service.find s₀ (named (c_str n)) ≡ none
      → ((j : ℕ)
          → m.service.get s' j ≡ (if i == j then some (registered_row n) else m.service.get s₀ j))
      → m.service.find s' (named (c_str n)) ≡ some i
  found_created s₀ s' n i new rows = elim (Option-cases (m.service.find s' (named (c_str n)))) [
    | inl lost ↦
        let here : m.service.get s' i ≡ some (registered_row n) = rw (==-self i) at (rows i) in
        let no = laws.service_laws.find_none s' _ i (registered_row n) lost here in
        absurd (cc (no, bytes_eq_self (c_str n)))
    | inr (k, found) ↦
        let (q, g, p) = laws.service_laws.find_some s' _ k found in
        elim (Bool-cases (i == k)) [
          | inl e ↦ rw ((==_iff i k).0 e) found
          | inr e ↦
              let old : m.service.get s' k ≡ m.service.get s₀ k = rw e at (rows k) in
              let no = laws.service_laws.find_none s₀ _ k q new (sym old ∙ g) in absurd (cc (no, p))
        ]
  ]

  -- In a database that starts and commits transactions, a service that AddService adds under a new
  -- name is found by that name, registered, with the endpoint of the table.
  pub get_service_by_name-add_service :
      (db : Db m) (n : Bytes) (srv : Service)
      → m.service.find db.services (named (c_str n)) ≡ none
      → db.starts ≡ true
      → db.commits ≡ true
      → (add_service m db n).0 ≡ some srv
      → get_service_by_name m ((add_service m db n).1) n
        ≡ some (load_service srv.id (registered_row n))
  unfolding add_service get_service_by_name get_service_by_id put_fields Service.new
      Service.set_state Service.set_name
  get_service_by_name-add_service db n srv new started ends h =
      elim (Option-cases (m.service.create db.services)) [
        | inl full ↦ cc (rw (add_service, full) at h)
        | inr ((i, s), made) ↦ elim (Option-cases (put_fields m.service s i (service_writes n))) [
          | inl bad ↦ cc (rw (add_service, made, started, bad) at h)
          | inr (s', p) ↦
              let made_row : some (Service.set_state ServiceState.registered (Service.new i n))
                  ≡ some srv =
                rw (add_service, made, started, p) at h in
              let rows : (j : ℕ)
                  → m.service.get s' j
                    ≡ (if i == j then some (registered_row n) else m.service.get db.services j) =
                λ j. rw (written_service n) at (
                  create-put_fields m.service laws.service_laws db.services s s' s' i
                    (service_writes n) [] made p refl j) in
              let here : m.service.get s' i ≡ some (registered_row n) =
                rw (==-self i) at (rows i) in
              let found = found_created db.services s' n i new rows in
              let id : i ≡ srv.id = ground (arith, made_row) in
              let stored : (add_service m db n).1 ≡ record db { services = s' } =
                ground (arith, made, started, p, ends) in
              let by_id : get_service_by_id m (record db { services = s' }) i
                  ≡ some (load_service i (registered_row n)) =
                ground (arith, here, started) in
              let by_name : get_service_by_name m (record db { services = s' }) n
                  ≡ some (load_service i (registered_row n)) =
                rw (get_service_by_name, found) by_id in
              ap (λ d. get_service_by_name m d n) stored
              ∙ by_name
              ∙ ap (λ k. some (load_service k (registered_row n))) id
        ]
      ]
