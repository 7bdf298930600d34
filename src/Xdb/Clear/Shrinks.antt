-- ===== src/Xdb/Clear/Shrinks.antt =====
-- What ClearWorkersForService of xdb/impl/xdb_impl_db_broker.cpp leaves as it is.
use rtdbus.Base.{
  ℕ, Bool, c_str, true, false, ◌≡◌, refl, ◌∙◌, ◌⊎◌, inl, inr, some, ◌==◌, Bool-cases, Option-cases,
  ==_iff, arith,
}
use rtdbus.Xdb.Rows.{XdbWorker, XdbLetter, WorkerState}
use rtdbus.Xdb.Worker
use rtdbus.Xdb.Worker.{Worker}
use rtdbus.Xdb.Mco.{Mco, IsMco, Db}
use rtdbus.Xdb.Workers.{identified, remove_worker, set_worker_state, put_state, put_letter_ref}
use rtdbus.Xdb.Workers.Laws.{SetsWorker, commit_writes_true}
use rtdbus.Xdb.Workers.Identity.{SetsWorker-cases}
use rtdbus.Xdb.Workers.Lookup.{remove_worker-SetsWorker, remove_worker-false}
use rtdbus.Xdb.Letters.{release_letter_from_worker, release_worker, assigned_to}

-- A worker before and after: the same identity and service, and not newly occupied.
pub record IsCalmed (r q : XdbWorker) : Type 0 where
  pub identity : q.identity ≡ r.identity
  pub service_ref : q.service_ref ≡ r.service_ref
  pub calm : q.state ≡ WorkerState.occupied → r.state ≡ WorkerState.occupied

armed-IsCalmed : (r : XdbWorker) → IsCalmed r (put_state WorkerState.armed (put_letter_ref 0 r))
armed-IsCalmed r = record {
  identity = refl;
  service_ref = refl;
  calm = λ (p : ◌≡◌ {A = WorkerState} WorkerState.armed WorkerState.occupied). cc;
}

module _ (m : Mco) where
  -- No worker or request is new, no worker is newly occupied, and no worker is lost.
  pub record Shrinks (db db' : Db m) : Type 0 where
    pub rows :
        (j : ℕ) (q : XdbWorker)
        → m.worker.get db'.workers j ≡ some q
        → (r : XdbWorker) × (m.worker.get db.workers j ≡ some r) × IsCalmed r q
    pub stays :
        (j : ℕ) (r : XdbWorker)
        → m.worker.get db.workers j ≡ some r
        → (q : XdbWorker) × (m.worker.get db'.workers j ≡ some q)
    pub letters :
        (j : ℕ) (l : XdbLetter)
        → m.letter.get db'.letters j ≡ some l
        → m.letter.get db.letters j ≡ some l
    pub same_starts : db'.starts ≡ db.starts
    pub same_commits : db'.commits ≡ db.commits

  pub Shrinks-refl : (db : Db m) → Shrinks db db
  Shrinks-refl db = record {
    rows = λ j q g. (q, g, record { identity = refl; service_ref = refl; calm = λ p. p });
    stays = λ j r g. (r, g);
    letters = λ j l g. g;
    same_starts = refl;
    same_commits = refl;
  }

  pub Shrinks-trans : (a b c : Db m) → Shrinks a b → Shrinks b c → Shrinks a c
  Shrinks-trans a b c p q = record {
    rows = λ j z g.
        let (y, gy, e) = q.rows j z g in
        let (x, gx, d) = p.rows j y gy in
        (
          x,
          gx,
          record {
            identity = e.identity ∙ d.identity;
            service_ref = e.service_ref ∙ d.service_ref;
            calm = λ o. d.calm (e.calm o);
          },
        );
    stays = λ j x g. let (y, gy) = p.stays j x g in q.stays j y gy;
    letters = λ j l g. p.letters j l (q.letters j l g);
    same_starts = q.same_starts ∙ p.same_starts;
    same_commits = q.same_commits ∙ p.same_commits;
  }

  -- The writing of one row of a worker.
  sets-Shrinks :
      (db db' : Db m) (i : ℕ) (r r' : XdbWorker)
      → m.worker.get db.workers i ≡ some r
      → SetsWorker m db db' i r'
      → IsCalmed r r'
      → db'.starts ≡ db.starts
      → db'.commits ≡ db.commits
      → Shrinks db db'
  sets-Shrinks db db' i r r' g sets calmed s c = record {
    rows = λ j q gq. elim (SetsWorker-cases m db db' i r' sets j q gq) [
      | inl (same, e) ↦ (r, rw (← same) g, rw (← e) calmed)
      | inr old ↦ (q, old, record { identity = refl; service_ref = refl; calm = λ p. p })
    ];
    stays = λ j q gq. elim (Bool-cases (i == j)) [
      | inl same ↦ (r', rw same at (sets.rows j))
      | inr other ↦
          let e : m.worker.get db'.workers j ≡ m.worker.get db.workers j =
            rw other at (sets.rows j) in
          (q, e ∙ gq)
    ];
    letters = λ j l gl. rw sets.same_letters at gl;
    same_starts = s;
    same_commits = c;
  }

  remove_worker_flags :
      (db : Db m) (w : Worker)
      → ((remove_worker m db w).2.starts ≡ db.starts)
        × ((remove_worker m db w).2.commits ≡ db.commits)
  unfolding remove_worker
  remove_worker_flags db w = ground arith

  set_worker_state_flags :
      (db : Db m) (w : Worker) (st : WorkerState)
      → ((set_worker_state m db w st).2.starts ≡ db.starts)
        × ((set_worker_state m db w st).2.commits ≡ db.commits)
  unfolding set_worker_state
  set_worker_state_flags db w st = ground arith

  set_worker_state-false :
      (db : Db m) (w : Worker) (st : WorkerState)
      → (set_worker_state m db w st).0 ≡ false
      → (set_worker_state m db w st).2 ≡ db
  unfolding set_worker_state
  set_worker_state-false db w st h = ground arith

  module _ (laws : IsMco m) where
    pub remove_worker-Shrinks : (db : Db m) (w : Worker) → Shrinks db (remove_worker m db w).2
    remove_worker-Shrinks db w = elim (Bool-cases (remove_worker m db w).0) [
      | inr failed ↦ rw (remove_worker-false m db w failed) (Shrinks-refl db)
      | inl done ↦
          let (i, r, found, g, sets) = remove_worker-SetsWorker m laws db w done in
          let (s, c) = remove_worker_flags db w in
          sets-Shrinks db _ i r _ g sets
            (record { identity = refl; service_ref = refl; calm = λ p. cc }) s c
    ]

    armed-Shrinks :
        (db : Db m) (w : Worker) → Shrinks db (set_worker_state m db w WorkerState.armed).2
    unfolding set_worker_state
    armed-Shrinks db w = elim (Bool-cases (set_worker_state m db w WorkerState.armed).0) [
      | inr failed ↦ rw (set_worker_state-false db w WorkerState.armed failed) (Shrinks-refl db)
      | inl done ↦ elim (Option-cases (m.worker.find db.workers (identified (c_str w.identity)))) [
        | inl lost ↦ cc (rw (set_worker_state, lost) at done)
        | inr (i, found) ↦
            let (r, g, same) = laws.worker_laws.find_some db.workers _ i found in
            let (s, c) = set_worker_state_flags db w WorkerState.armed in
            sets-Shrinks db _ i r _ g
              (rw (set_worker_state, found)
                (commit_writes_true m laws w _ db i r _ g (rw (set_worker_state, found) at done)))
              (armed-IsCalmed r) s c
      ]
    ]

    -- A request is taken out.
    removed-Shrinks :
        (db : Db m) (i : ℕ) (s : m.letter.Store)
        → m.letter.remove db.letters i ≡ some s
        → Shrinks db (record db { letters = s })
    removed-Shrinks db i s gone = record {
      rows = (Shrinks-refl db).rows;
      stays = (Shrinks-refl db).stays;
      letters = λ j l g. ground (arith, laws.letter_laws.remove_get db.letters s i j gone);
      same_starts = refl;
      same_commits = refl;
    }

    -- What ReleaseLetterFromWorker leaves behind the removal of the request.
    release_worker_cases :
        (before db : Db m) (w : Worker)
        → ((release_worker m before db w).2 ≡ (set_worker_state m db w WorkerState.armed).2)
          ⊎ ((release_worker m before db w).2 ≡ before)
          ⊎ ((release_worker m before db w).2 ≡ db)
    unfolding release_worker
    release_worker_cases before db w = ground arith

    release_worker-Shrinks :
        (before db : Db m) (w : Worker)
        → Shrinks before db
        → Shrinks before (release_worker m before db w).2
    release_worker-Shrinks before db w h = elim (release_worker_cases before db w) [
      | inl e ↦ rw e (Shrinks-trans before db _ h (armed-Shrinks db w))
      | inr (inl e) ↦ rw e (Shrinks-refl before)
      | inr (inr e) ↦ rw e h
    ]

    release_worker_named :
        (before db : Db m) (w : Worker) → (release_worker m before db w).1.identity ≡ w.identity
    unfolding release_worker set_worker_state Worker.set_state Worker.set_letter_id
    release_worker_named before db w = ground arith

    -- Where the request assigned to a worker is for its service, ReleaseLetterFromWorker comes to
    -- an end.
    pub release_letter-Shrinks :
        (db : Db m) (w : Worker)
        → ((i : ℕ) (l : XdbLetter)
            → m.letter.get db.letters i ≡ some l
            → l.worker_ref ≡ w.id
            → l.service_ref ≡ w.service_id)
        → (done : Bool) × (w' : Worker) × (db' : Db m) × (release_letter_from_worker m db w
            ≡ some (done, w', db'))
          × Shrinks db db'
          × (w'.identity ≡ w.identity)
    unfolding release_letter_from_worker
    release_letter-Shrinks db w matched =
        elim (Option-cases (m.letter.find db.letters (assigned_to w.id))) [
          | inl without ↦
              (false, w, db, rw (release_letter_from_worker, without) refl, Shrinks-refl db, refl)
          | inr (i, found) ↦
              let (l, g, own) = laws.letter_laws.find_some db.letters _ i found in
              let same : (l.service_ref == w.service_id) ≡ true =
                (==_iff _ _).1 (matched i l g ((==_iff _ _).0 own)) in
              elim (Bool-cases (db.starts)) [
                | inr stopped ↦ (
                  false,
                  w,
                  db,
                  rw (release_letter_from_worker, found, g, stopped) refl,
                  Shrinks-refl db,
                  refl,
                )
                | inl started ↦ elim (Option-cases (m.letter.remove db.letters i)) [
                  | inl stuck ↦ (false, w, db, ground arith, Shrinks-refl db, refl)
                  | inr (s, gone) ↦
                      let before = record db { letters = s } in
                      let released = release_worker m db before w in
                      (
                        released.0,
                        released.1,
                        released.2,
                        ground arith,
                        release_worker-Shrinks db before w (removed-Shrinks db i s gone),
                        release_worker_named db before w,
                      )
                ]
              ]
        ]
