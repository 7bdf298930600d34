-- ===== src/Xdb/Workers/Lookup.antt =====
-- The choice of a worker of a service by its state (GetWorkerByState, PopWorker), and its disarming
-- (RemoveWorker), of xdb/impl/xdb_impl_db_broker.cpp.
use mathlib.Core.List.{Memᴰ}
use mathlib.Core.List.Memᴰ.{not-nil}
use rtdbus.Base.{
  ℕ, c_str, true, false, ◌≡◌, refl, sym, ap, ◌∙◌, ◌⊎◌, inl, inr, none, some, List, [], ◌∷◌, arith,
  Option-cases, Bool-cases, ==_iff, ◌≢◌,
}
use rtdbus.Xdb.Rows.{XdbWorker, WorkerState, worker_state_eq}
use rtdbus.Xdb.Worker.{Worker}
use rtdbus.Xdb.Mco.{Mco, IsMco, Db}
use rtdbus.Xdb.Workers.{
  identified, serves, load_worker, first_in_state, get_worker_by_state, remove_worker, put_state,
}
use rtdbus.Xdb.Workers.Laws.{SetsWorker, commit_writes_true}

pub worker_state_eq_sound : (a b : WorkerState) → worker_state_eq a b ≡ true → a ≡ b
worker_state_eq_sound a b h = ground arith

pub worker_state_eq_self : (a : WorkerState) → worker_state_eq a a ≡ true
worker_state_eq_self a = ground arith

mem_cases : {A : Type 0} {a x : A} {xs : List A} → Memᴰ a (x ∷ xs) → (a ≡ x) ⊎ Memᴰ a xs
mem_cases (Memᴰ.head e) = inl e
mem_cases (Memᴰ.tail t) = inr t

module _ (m : Mco) where
  -- Every number of the list is that of a stored row.
  abbrev Stored : m.worker.Store → List ℕ → Type 0
  Stored s is = (i : ℕ) → Memᴰ i is → (r : XdbWorker) × (m.worker.get s i ≡ some r)

  first_in_state_sound :
      (s : m.worker.Store) (st : WorkerState) (is : List ℕ) (w : Worker)
      → first_in_state m s st is ≡ some w
      → (i : ℕ) × (r : XdbWorker) × Memᴰ i is
        × (m.worker.get s i ≡ some r)
        × (r.state ≡ st)
        × (w ≡ load_worker i r)
  unfolding first_in_state
  first_in_state_sound s st [] w h = cc
  first_in_state_sound s st (i ∷ is) w h = elim (Option-cases (m.worker.get s i)) [
    | inl gone ↦ cc (rw (first_in_state, gone) at h)
    | inr (r, there) ↦ elim (Bool-cases (worker_state_eq st r.state)) [
      | inl hit ↦
          let e : some (load_worker i r) ≡ some w = rw (first_in_state, there, hit) at h in
          (i, r, Memᴰ.head refl, there, sym (worker_state_eq_sound st r.state hit), cc)
      | inr miss ↦
          let (j, q, mem, g, e, same) =
            first_in_state_sound s st is w (rw (first_in_state, there, miss) at h) in
          (j, q, Memᴰ.tail mem, g, e, same)
    ]
  ]

  first_in_state_complete :
      (s : m.worker.Store) (st : WorkerState) (is : List ℕ)
      → Stored s is
      → first_in_state m s st is ≡ none
      → (i : ℕ) (r : XdbWorker) → Memᴰ i is
      → m.worker.get s i ≡ some r
      → worker_state_eq st r.state ≡ false
  unfolding first_in_state
  first_in_state_complete s st [] stored h i r mem g = absurd (not-nil mem)
  first_in_state_complete s st (k ∷ ks) stored h i r mem g =
      let (q, there) = stored k (Memᴰ.head refl) in
      elim (Bool-cases (worker_state_eq st q.state)) [
        | inl hit ↦ cc (rw (first_in_state, there, hit) at h)
        | inr miss ↦ elim (mem_cases mem) [
          | inl e ↦
              let same : some q ≡ some r = sym there ∙ ap (m.worker.get s) (sym e) ∙ g in
              ground (arith, same)
          | inr later ↦
              first_in_state_complete s st ks (λ j x. stored j (Memᴰ.tail x))
                (rw (first_in_state, there, miss) at h) i r later g
        ]
      ]

  module _ (laws : IsMco m) where
    -- The worker that GetWorkerByState gives is the object of a stored row of the service, in the
    -- state that was asked for.
    pub get_worker_by_state_sound :
        (db : Db m) (srv : ℕ) (st : WorkerState) (w : Worker)
        → get_worker_by_state m db srv st ≡ some w
        → (i : ℕ) × (r : XdbWorker) × (m.worker.get db.workers i ≡ some r)
          × (r.service_ref ≡ srv)
          × (r.state ≡ st)
          × (w ≡ load_worker i r)
    unfolding get_worker_by_state
    get_worker_by_state_sound db srv st w h = elim (Bool-cases (db.starts)) [
      | inr stopped ↦ cc (rw (get_worker_by_state, stopped) at h)
      | inl started ↦
          let (i, r, mem, g, e, same) =
            first_in_state_sound db.workers st _ w (rw (get_worker_by_state, started) at h) in
          let (q, g', p) = laws.worker_laws.scan_sound db.workers (serves srv) i mem in
          let eq : some q ≡ some r = sym g' ∙ g in
          (i, r, g, (==_iff _ _).0 (ground (arith, eq, p)), e, same)
    ]

    -- Where transactions start and GetWorkerByState gives none, no stored worker of the service is
    -- in the state.
    pub get_worker_by_state_complete :
        (db : Db m) (srv : ℕ) (st : WorkerState)
        → get_worker_by_state m db srv st ≡ none
        → db.starts ≡ true
        → (i : ℕ) (r : XdbWorker) → m.worker.get db.workers i ≡ some r
        → r.service_ref ≡ srv
        → r.state ≢ st
    unfolding get_worker_by_state
    get_worker_by_state_complete db srv st h started i r g e same =
        let mem = laws.worker_laws.scan_complete db.workers (serves srv) i r g ((==_iff _ _).1 e) in
        let no =
          first_in_state_complete db.workers st (m.worker.scan db.workers (serves srv))
            (λ j x.
              let (q, g', p) = laws.worker_laws.scan_sound db.workers (serves srv) j x in (q, g'))
            (rw (get_worker_by_state, started) at h) i r mem g in
        cc (no, worker_state_eq_self st, same)

    -- A RemoveWorker that answers true disarms the row that is found by the identity, and changes
    -- no other row.
    pub remove_worker-SetsWorker :
        (db : Db m) (w : Worker)
        → (remove_worker m db w).0 ≡ true
        → (i : ℕ) × (r : XdbWorker) × (m.worker.find db.workers (identified (c_str w.identity))
            ≡ some i)
          × (m.worker.get db.workers i ≡ some r)
          × SetsWorker m db ((remove_worker m db w).2) i (put_state WorkerState.disarmed r)
    unfolding remove_worker
    remove_worker-SetsWorker db w h =
        elim (Option-cases (m.worker.find db.workers (identified (c_str w.identity)))) [
          | inl lost ↦ cc (rw (remove_worker, lost) at h)
          | inr (i, found) ↦
              let (r, g, same) = laws.worker_laws.find_some db.workers _ i found in
              (
                i,
                r,
                found,
                g,
                rw (remove_worker, found)
                    (commit_writes_true m laws w _ db i r _ g (rw (remove_worker, found) at h)),
              )
        ]

  -- A refused RemoveWorker leaves the database as it was.
  pub remove_worker-false :
      (db : Db m) (w : Worker) → (remove_worker m db w).0 ≡ false → (remove_worker m db w).2 ≡ db
  unfolding remove_worker
  remove_worker-false db w h = ground arith
