-- ===== src/Xdb/Workers/Laws.antt =====
-- What PushWorker, RemoveWorker and the lookups of workers do to the database.
use rtdbus.Base.{
  ℕ, bytes_eq_iff, c_str, true, false, ◌≡◌, refl, ◌⊎◌, inl, inr, Option, none, some, List, [], ◌∷◌,
  ◌==◌, if◌then◌else◌, arith, Option-cases,
}
use rtdbus.Xdb.Rows.{Mark, XdbWorker, WorkerState, new_worker}
use rtdbus.Xdb.Worker
use rtdbus.Xdb.Worker.{Worker}
use rtdbus.Xdb.Table.{put_fields, written, put_fields_lem, create-put_fields}
use rtdbus.Xdb.Mco.{Mco, IsMco, Db}
use rtdbus.Xdb.Workers.{
  put_state, put_service_ref, put_sec, put_nsec, identified, push_worker, update_worker,
  create_worker, commit_workers,
}

module _ (m : Mco) where
  -- The second database differs from the first in the row of one worker, which is given.
  pub record SetsWorker (db db' : Db m) (i : ℕ) (r : XdbWorker) : Type 0 where
    pub rows :
        (j : ℕ)
        → m.worker.get db'.workers j ≡ (if i == j then some r else m.worker.get db.workers j)
    pub same_services : db'.services ≡ db.services
    pub same_letters : db'.letters ≡ db.letters

  -- The row of a worker that PushWorker has stored.
  pub record IsArmedBy (now : Mark) (w : Worker) (r : XdbWorker) : Type 0 where
    pub identity : r.identity ≡ c_str w.identity
    pub state : r.state ≡ WorkerState.armed
    pub service_ref : r.service_ref ≡ w.service_id
    pub expiration : r.expiration ≡ Worker.next_expiration now

  pub commit_workers-true :
      (old new : Worker) (db : Db m) (o : Option m.worker.Store)
      → (commit_workers m old new db o).0 ≡ true
      → (s : m.worker.Store) × (o ≡ some s)
        × ((commit_workers m old new db o).2 ≡ record db { workers = s })
  commit_workers-true old new db none h = cc
  commit_workers-true old new db (some s) h = (s, refl, ground arith)

  pub commit_workers-false :
      (old new : Worker) (db : Db m) (o : Option m.worker.Store)
      → (commit_workers m old new db o).0 ≡ false
      → (commit_workers m old new db o).2 ≡ db
  commit_workers-false old new db none h = refl
  commit_workers-false old new db (some s) h = ground arith

  pub commit_workers-starts :
      (old new : Worker) (db : Db m) (o : Option m.worker.Store)
      → (commit_workers m old new db o).0 ≡ true
      → ((commit_workers m old new db o).2).starts ≡ true
  commit_workers-starts old new db none h = cc
  commit_workers-starts old new db (some s) h = ground arith

  -- A PushWorker that answers false leaves the database as it was.
  pub push_worker-false :
      (now : Mark) (db : Db m) (w : Worker)
      → (push_worker m now db w).0 ≡ false
      → (push_worker m now db w).2 ≡ db
  unfolding push_worker update_worker create_worker
  push_worker-false now db w h = ground arith

  pub push_worker-starts :
      (now : Mark) (db : Db m) (w : Worker)
      → (push_worker m now db w).0 ≡ true
      → ((push_worker m now db w).2).starts ≡ true
  unfolding push_worker update_worker create_worker
  push_worker-starts now db w h = ground arith

  abbrev naming : Worker → List (XdbWorker → XdbWorker)
  naming w =
      (λ r. record r { identity = c_str w.identity })
      ∷ put_state WorkerState.armed
      ∷ put_service_ref w.service_id
      ∷ []

  abbrev timing : Mark → List (XdbWorker → XdbWorker)
  timing now =
      put_sec (Worker.next_expiration now).sec ∷ put_nsec (Worker.next_expiration now).nsec ∷ []

  module _ (laws : IsMco m) where
    pub commit_writes_true :
        (old new : Worker) (db : Db m) (i : ℕ) (r₀ : XdbWorker) (fs : List (XdbWorker → XdbWorker))
        → m.worker.get db.workers i ≡ some r₀
        → (commit_workers m old new db (put_fields m.worker db.workers i fs)).0 ≡ true
        → SetsWorker db
            (commit_workers m old new db (put_fields m.worker db.workers i fs)).2
            i
            (written fs r₀)
    commit_writes_true old new db i r₀ fs h t =
        let (s, p, e) = commit_workers-true old new db (put_fields m.worker db.workers i fs) t in
        rw e (record {
          rows = put_fields_lem m.worker laws.worker_laws db.workers s i fs r₀ h p;
          same_services = refl;
          same_letters = refl;
        })

    update_worker-true :
        (now : Mark) (db : Db m) (i : ℕ) (w : Worker) (r₀ : XdbWorker)
        → m.worker.get db.workers i ≡ some r₀
        → r₀.identity ≡ c_str w.identity
        → (update_worker m now db i w).0 ≡ true
        → (r : XdbWorker) × SetsWorker db (update_worker m now db i w).2 i r × IsArmedBy now w r
    unfolding update_worker
    update_worker-true now db i w r₀ h e t = (
      _,
      commit_writes_true _ _ db i r₀ _ h t,
      record { identity = e; state = refl; service_ref = refl; expiration = refl },
    )

    create_worker-true :
        (now : Mark) (db : Db m) (w : Worker)
        → (create_worker m now db w).0 ≡ true
        → (i : ℕ) × (r : XdbWorker) × SetsWorker db (create_worker m now db w).2 i r
          × IsArmedBy now w r
          × (m.worker.get db.workers i ≡ none)
    unfolding create_worker
    create_worker-true now db w t = elim (Option-cases (m.worker.create db.workers)) [
      | inl full ↦ cc (rw (create_worker, full) at t)
      | inr ((i, s), made) ↦ elim (Option-cases (put_fields m.worker s i (naming w))) [
        | inl bad ↦ cc (rw (create_worker, made, bad) at t)
        | inr (s', first) ↦
            let (s'', p, e) =
              commit_workers-true w (Worker.set_id i w) db (put_fields m.worker s' i (timing now))
                (rw (create_worker, made, first) at t) in
            (
              i,
              written (timing now) (written (naming w) new_worker),
              rw (create_worker, made, first, e)
                  (record {
                    rows =
                        create-put_fields m.worker laws.worker_laws db.workers s s' s'' i (naming w)
                          (timing now) made first p;
                    same_services = refl;
                    same_letters = refl;
                  }),
              record { identity = refl; state = refl; service_ref = refl; expiration = refl },
              laws.worker_laws.create_fresh db.workers s i made,
            )
      ]
    ]

    -- A PushWorker that answers true writes the row of one worker, which is the row found by the
    -- identity or a new one: armed, with the service, and with the expiration computed from the
    -- clock. Every other row is as before.
    pub push_worker-SetsWorker :
        (now : Mark) (db : Db m) (w : Worker)
        → (push_worker m now db w).0 ≡ true
        → (i : ℕ) × (r : XdbWorker) × SetsWorker db (push_worker m now db w).2 i r
          × IsArmedBy now w r
          × ((m.worker.find db.workers (identified (c_str w.identity)) ≡ some i)
              ⊎ ((m.worker.find db.workers (identified (c_str w.identity)) ≡ none)
                  × (m.worker.get db.workers i ≡ none)))
    unfolding push_worker
    push_worker-SetsWorker now db w t =
        elim (Option-cases (m.service.get db.services w.service_id)) [
          | inl gone ↦ cc (rw (push_worker, gone) at t)
          | inr (srv, there) ↦
              elim (Option-cases (m.worker.find db.workers (identified (c_str w.identity)))) [
                | inl new ↦
                    let (i, r, sets, armed, fresh) =
                      create_worker-true now db w (rw (push_worker, there, new) at t) in
                    rw (push_worker, there, new) (i, r, sets, armed, inr (refl, fresh))
                | inr (i, known) ↦
                    let (r₀, stored, same) = laws.worker_laws.find_some db.workers _ i known in
                    let (r, sets, armed) =
                      update_worker-true now db i w r₀ stored ((bytes_eq_iff _ _).0 same)
                        (rw (push_worker, there, known) at t) in
                    rw (push_worker, there, known) (i, r, sets, armed, inl refl)
              ]
        ]
