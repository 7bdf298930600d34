-- ===== src/Broker/Purge.antt =====
-- purge_workers of mdp/mdp_broker.cpp: what it does to the workers that are stored.
use rtdbus.Base.{
  ℕ, bytes_eq_iff, c_str, true, ◌≡◌, refl, sym, ap, ◌∙◌, ◌⊎◌, inl, inr, some, Option-cases,
  Bool-cases, List, [], ◌∷◌, ◌==◌, ==_iff, ltb,
}
use rtdbus.Xdb.Rows.{Mark, XdbWorker, WorkerState}
use rtdbus.Xdb.Worker
use rtdbus.Xdb.Worker.{Worker, identity_maxlen}
use rtdbus.Xdb.Mco.{Mco, IsMco, Db}
use rtdbus.Xdb.Workers.{get_worker_by_state, remove_worker, put_state}
use rtdbus.Xdb.Workers.Laws.{SetsWorker}
use rtdbus.Xdb.Workers.Identity.{
  IsAddressed, loaded, some_injective, SetsWorker-cases, SetsWorker-UniqueIdentity,
}
use rtdbus.Xdb.Workers.Lookup.{
  get_worker_by_state_sound, remove_worker-SetsWorker, remove_worker-false,
}
use rtdbus.Broker.State.{Broker, release, with_db}
use rtdbus.Broker.Dispatch.{purge_service, purge_list, purge_workers, service_list}

-- A row before and after: as it was, or disarmed because it was armed and its time is over.
abbrev pub Expires : Mark → XdbWorker → XdbWorker → Type 0
Expires now r r' =
    (r' ≡ r)
    ⊎ ((r.state ≡ WorkerState.armed)
        × (ltb r.expiration.sec now.sec ≡ true)
        × (r' ≡ put_state WorkerState.disarmed r))

module _ (m : Mco) where
  pub record Purges (now : Mark) (b b' : Broker m) : Type 0 where
    pub rows :
        (i : ℕ) (r : XdbWorker)
        → m.worker.get b.db.workers i ≡ some r
        → (r' : XdbWorker) × (m.worker.get b'.db.workers i ≡ some r') × Expires now r r'
    pub addressed : IsAddressed m b'.db
    pub same_sent : b'.sent ≡ b.sent
    pub same_letters : b'.db.letters ≡ b.db.letters
    pub same_services : b'.db.services ≡ b.db.services

  Purges-refl : (now : Mark) (b : Broker m) → IsAddressed m b.db → Purges now b b
  Purges-refl now b a = record {
    rows = λ i r g. (r, g, inl refl);
    addressed = a;
    same_sent = refl;
    same_letters = refl;
    same_services = refl;
  }

  kept_db :
      (now : Mark) (b : Broker m) (db' : Db m)
      → db' ≡ b.db
      → IsAddressed m b.db
      → Purges now b (with_db m b db')
  unfolding with_db
  kept_db now b db' e a = rw e (Purges-refl now b a)

  Expires-trans :
      (now : Mark) (r r' r'' : XdbWorker)
      → Expires now r r'
      → Expires now r' r''
      → Expires now r r''
  Expires-trans now r r' r'' (inl e) q = rw e at q
  Expires-trans now r r' r'' (inr (p, p', e)) (inl e') = inr (p, p', e' ∙ e)
  Expires-trans now r r' r'' (inr (p, p', e)) (inr (q, q', e')) =
      inr (p, p', e' ∙ ap (put_state WorkerState.disarmed) e)

  Purges-trans :
      (now : Mark) (b b' b'' : Broker m) → Purges now b b' → Purges now b' b'' → Purges now b b''
  Purges-trans now b b' b'' p q = record {
    rows = λ i r g.
        let (r', g', e) = p.rows i r g in
        let (r'', g'', e') = q.rows i r' g' in (r'', g'', Expires-trans now r r' r'' e e');
    addressed = q.addressed;
    same_sent = q.same_sent ∙ p.same_sent;
    same_letters = q.same_letters ∙ p.same_letters;
    same_services = q.same_services ∙ p.same_services;
  }

  -- The disarming of one worker whose time is over.
  disarmed-Purges :
      (now : Mark) (b : Broker m) (db' : Db m) (i : ℕ) (r : XdbWorker)
      → IsAddressed m b.db
      → m.worker.get b.db.workers i ≡ some r
      → r.state ≡ WorkerState.armed
      → ltb r.expiration.sec now.sec ≡ true
      → SetsWorker m b.db db' i (put_state WorkerState.disarmed r)
      → Purges now b (with_db m b db')
  unfolding with_db
  disarmed-Purges now b db' i r a g armed late sets = record {
    rows = λ j q gq. elim (Bool-cases (i == j)) [
      | inl same ↦
          let row : m.worker.get db'.workers j ≡ some (put_state WorkerState.disarmed r) =
            rw same at (sets.rows j) in
          let q_r : q ≡ r =
            some_injective
              (sym gq ∙ ap (m.worker.get b.db.workers) (sym ((==_iff i j).0 same)) ∙ g) in
          (_, row, rw q_r (inr (armed, late, refl)))
      | inr other ↦
          let row : m.worker.get db'.workers j ≡ m.worker.get b.db.workers j =
            rw other at (sets.rows j) in
          (q, row ∙ gq, inl refl)
    ];
    addressed = record {
      unique =
          SetsWorker-UniqueIdentity m b.db db' i _ sets (λ j q gq e. a.unique j i q r gq g e)
            a.unique;
      fits = λ j q gq. elim (SetsWorker-cases m b.db db' i _ sets j q gq) [
        | inl (p, e) ↦ rw (sym e) (a.fits i r g)
        | inr old ↦ a.fits j q old
      ];
    };
    same_sent = refl;
    same_letters = sets.same_letters;
    same_services = sets.same_services;
  }

  release-Purges :
      IsMco m
      → (now : Mark) (b : Broker m) (w : Worker) (i : ℕ) (r : XdbWorker) → IsAddressed m b.db
      → m.worker.get b.db.workers i ≡ some r
      → r.state ≡ WorkerState.armed
      → ltb r.expiration.sec now.sec ≡ true
      → c_str w.identity ≡ r.identity
      → Purges now b (with_db m b ((remove_worker m b.db w).2))
  release-Purges laws now b w i r a g armed late named =
      elim (Bool-cases ((remove_worker m b.db w).0)) [
        | inr failed ↦ kept_db now b _ (remove_worker-false m b.db w failed) a
        | inl done ↦
            let (k, q, found, gq, sets) = remove_worker-SetsWorker m laws b.db w done in
            let (q', gq', same) = laws.worker_laws.find_some b.db.workers _ k found in
            let same_row : q' ≡ q = some_injective (sym gq' ∙ gq) in
            let q_named : q.identity ≡ r.identity =
              ap (λ x. x.identity) (sym same_row) ∙ (bytes_eq_iff _ _).0 same ∙ named in
            let k_i : k ≡ i = a.unique k i q r gq g q_named in
            let q_r : q ≡ r = some_injective (sym gq ∙ ap (m.worker.get b.db.workers) k_i ∙ g) in
            disarmed-Purges now b _ k q a gq (ap (λ x. x.state) q_r ∙ armed)
              (ap (λ x. ltb x.expiration.sec now.sec) q_r ∙ late) sets
      ]

  purge_service-Purges :
      IsMco m
      → (now : Mark) (b : Broker m) (srv : ℕ) → IsAddressed m b.db
      → (b' : Broker m) × (purge_service m now b srv ≡ some b') × Purges now b b'
  unfolding purge_service release Worker.expired
  purge_service-Purges laws now b srv a =
      elim (Option-cases (get_worker_by_state m b.db srv WorkerState.armed)) [
        | inl idle ↦ (b, rw (purge_service, idle) refl, Purges-refl now b a)
        | inr (w, found) ↦
            let (i, r, g, own, armed, e) =
              get_worker_by_state_sound m laws b.db srv WorkerState.armed w found in
            let (named, timed) = loaded i r (a.fits i r g) in
            let w_named = ap (λ x. c_str x.identity) e ∙ named in
            let w_timed = ap (λ x. x.expiration) e ∙ timed in
            elim (Bool-cases (Worker.expired now w)) [
              | inr fresh ↦ (b, rw (purge_service, found, fresh) refl, Purges-refl now b a)
              | inl late ↦
                  let r_late : ltb r.expiration.sec now.sec ≡ true =
                    ap (λ x. ltb x.sec now.sec) (sym w_timed) ∙ late in
                  (
                    _,
                    rw (purge_service, found, late) refl,
                    release-Purges laws now b w i r a g armed r_late w_named,
                  )
            ]
      ]

  purge_list-Purges :
      IsMco m
      → (now : Mark) (b : Broker m) (is : List ℕ) → IsAddressed m b.db
      → (b' : Broker m) × (purge_list m now b is ≡ some b') × Purges now b b'
  unfolding purge_list
  purge_list-Purges laws now b [] a = (b, refl, Purges-refl now b a)
  purge_list-Purges laws now b (i ∷ is) a =
      let (b₁, e, p) = purge_service-Purges laws now b i a in
      let (b₂, e', p') = purge_list-Purges laws now b₁ is p.addressed in
      (b₂, rw (purge_list, e) e', Purges-trans now b b₁ b₂ p p')

  pub purge_workers-Purges :
      IsMco m
      → (now : Mark) (b : Broker m) → IsAddressed m b.db
      → (b' : Broker m) × (purge_workers m now b ≡ some b') × Purges now b b'
  unfolding purge_workers
  purge_workers-Purges laws now b a = purge_list-Purges laws now b (service_list m b.db) a

  -- Where the identities of the workers are distinct and fit, purge_workers comes to an end and
  -- sends nothing; the row of a worker is as it was, or is disarmed where the worker was armed and
  -- its time is over; the identities are distinct and fit afterwards.
  pub purge_workers-Expires :
      IsMco m
      → (now : Mark) (b : Broker m) → IsAddressed m b.db
      → (i : ℕ) (r : XdbWorker) → m.worker.get b.db.workers i ≡ some r
      → (b' : Broker m) × (r' : XdbWorker) × (purge_workers m now b ≡ some b')
        × (m.worker.get b'.db.workers i ≡ some r')
        × Expires now r r'
        × IsAddressed m b'.db
        × (b'.sent ≡ b.sent)
        × (b'.db.letters ≡ b.db.letters)
  purge_workers-Expires laws now b a i r g =
      let (b', e, p) = purge_workers-Purges laws now b a in
      let (r', g', x) = p.rows i r g in (b', r', e, g', x, p.addressed, p.same_sent, p.same_letters)
