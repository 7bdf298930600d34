-- ===== src/Broker/Delivery.antt =====
-- The delivery of a waiting request to a worker: service_dispatch and worker_send of
-- mdp/mdp_broker.cpp.
use rtdbus.Base.{
  ℕ, true, ◌≡◌, refl, ap, ◌∙◌, ◌⊎◌, inl, inr, some, Option-cases, Bool-cases, [], ◌∷◌, ◌++◌, ◌==◌,
  if◌then◌else◌,
}
use rtdbus.Xdb.Rows.{Mark, XdbWorker, XdbLetter, WorkerState, LetterState}
use rtdbus.Xdb.Service.{Service}
use rtdbus.Xdb.Worker
use rtdbus.Xdb.Worker.{Worker}
use rtdbus.Xdb.Letter
use rtdbus.Xdb.Letter.{Letter}
use rtdbus.Xdb.Table.{written}
use rtdbus.Xdb.Mco.{Mco, IsMco, Db}
use rtdbus.Xdb.Workers.{load_worker, pop_worker}
use rtdbus.Xdb.Workers.Lookup.{get_worker_by_state_sound}
use rtdbus.Xdb.Letters.{load_letter, get_waiting_letter, assign_letter_to_worker}
use rtdbus.Xdb.Letters.Assign.{
  letter_writes, worker_writes, occupied_worker, assigned_letter, assign_letter-true,
  assign_letter-false,
}
use rtdbus.Xdb.Letters.Laws.{get_waiting_letter_sound}
use rtdbus.Broker.State.{
  Broker, emit, with_db, worker_send_letter, request_message, mdpw_request, empty_frame,
}
use rtdbus.Broker.Dispatch.{send_waiting}

module _ (m : Mco) where
  -- The second broker has handed one waiting request of the service to one of its armed workers.
  pub record Delivers (b b' : Broker m) (srv : Service) : Type 0 where
    pub worker : ℕ
    pub letter : ℕ
    pub worker_row : XdbWorker
    pub letter_row : XdbLetter
    -- before
    pub worker_stored : m.worker.get b.db.workers worker ≡ some worker_row
    pub worker_service : worker_row.service_ref ≡ srv.id
    pub worker_armed : worker_row.state ≡ WorkerState.armed
    pub letter_stored : m.letter.get b.db.letters letter ≡ some letter_row
    pub letter_service : letter_row.service_ref ≡ srv.id
    pub letter_waiting : letter_row.state ≡ LetterState.unassigned
    -- after
    pub worker_after : XdbWorker
    pub letter_after : XdbLetter
    pub worker_occupied : worker_after.state ≡ WorkerState.occupied
    pub worker_holds : worker_after.letter_ref ≡ letter
    pub letter_assigned : letter_after.state ≡ LetterState.assigned
    pub letter_held : letter_after.worker_ref ≡ worker
    pub workers :
        (j : ℕ)
        → m.worker.get b'.db.workers j
          ≡ (if worker == j then some worker_after else m.worker.get b.db.workers j)
    pub letters :
        (j : ℕ)
        → m.letter.get b'.db.letters j
          ≡ (if letter == j then some letter_after else m.letter.get b.db.letters j)
    pub sends :
        b'.sent
        ≡ b.sent
          ++ request_message m
              (load_worker worker worker_row)
              (load_letter letter letter_row)
              mdpw_request
              empty_frame
            ∷ []

  with_db_same : (b : Broker m) (db : Db m) → db ≡ b.db → with_db m b db ≡ b
  unfolding with_db
  with_db_same b db e = rw e refl

  Delivers-to : (b x b' : Broker m) (srv : Service) → b' ≡ x → Delivers b x srv → Delivers b b' srv
  Delivers-to b x b' srv e d = rw e d

  worker_id : (i : ℕ) (q : XdbWorker) → (load_worker i q).id ≡ i
  unfolding load_worker Worker.set_valid Worker.set_expiration Worker.set_state Worker.new
      Worker.set_identity
  worker_id i q = refl

  letter_id : (i : ℕ) (r : XdbLetter) → (load_letter i r).id ≡ i
  unfolding load_letter Letter.set_valid Letter.set_expiration Letter.set_state Letter.new
      Letter.set_worker_id Letter.set_service_id Letter.set_id
  letter_id i r = refl

  same_request :
      (w : Worker) (l : Letter)
      → request_message m (occupied_worker w) (assigned_letter w l) mdpw_request empty_frame
        ≡ request_message m w l mdpw_request empty_frame
  unfolding request_message Worker.set_state Letter.set_state Letter.set_worker_id
  same_request w l = refl

  assigned-Delivers :
      IsMco m
      → (now : Mark) (b : Broker m) (srv : Service) (w : Worker) (l : Letter)
      → pop_worker m b.db srv WorkerState.armed ≡ some w
      → get_waiting_letter m b.db srv ≡ some l
      → (assign_letter_to_worker m now b.db w l).0 ≡ true
      → Delivers b
          (emit m (with_db m b ((assign_letter_to_worker m now b.db w l).3)) (
            request_message m
              ((assign_letter_to_worker m now b.db w l).1)
              ((assign_letter_to_worker m now b.db w l).2)
              mdpw_request
              empty_frame))
          srv
  unfolding pop_worker emit with_db
  assigned-Delivers laws now b srv w l free work done =
      let (i, q, gq, own, armed, wi) =
        get_worker_by_state_sound m laws b.db srv.id WorkerState.armed w free in
      let (j, r, gr, asked, waits, lj) = get_waiting_letter_sound m laws b.db srv l work in
      let iw : w.id ≡ i = ap (λ x. x.id) wi ∙ worker_id i q in
      let jl : l.id ≡ j = ap (λ x. x.id) lj ∙ letter_id j r in
      let (ls, ws, e, letters, workers) =
        assign_letter-true m laws now b.db w l q r (rw iw gq) (rw jl gr) done in
      let db' = (assign_letter_to_worker m now b.db w l).3 in
      let ew : db'.workers ≡ ws = ap (λ x. x.3.workers) e in
      let el : db'.letters ≡ ls = ap (λ x. x.3.letters) e in
      let after_w = written (worker_writes now l) q in
      let after_l = written (letter_writes now w) r in
      let same_text : request_message m ((assign_letter_to_worker m now b.db w l).1)
            ((assign_letter_to_worker m now b.db w l).2) mdpw_request empty_frame
          ≡ request_message m (load_worker i q) (load_letter j r) mdpw_request empty_frame =
        ap (λ x. request_message m (x.1) (x.2) mdpw_request empty_frame) e
        ∙ same_request w l
        ∙ ap (λ x. request_message m x l mdpw_request empty_frame) wi
        ∙ ap (λ x. request_message m (load_worker i q) x mdpw_request empty_frame) lj in
      record {
        worker = i;
        letter = j;
        worker_row = q;
        letter_row = r;
        worker_stored = gq;
        worker_service = own;
        worker_armed = armed;
        letter_stored = gr;
        letter_service = asked;
        letter_waiting = waits;
        worker_after = after_w;
        letter_after = after_l;
        worker_occupied = refl;
        worker_holds = jl;
        letter_assigned = refl;
        letter_held = iw;
        workers = λ k.
            ap (λ s. m.worker.get s k) ew
            ∙ workers k
            ∙ ap (λ x. if x == k then some after_w else m.worker.get b.db.workers k) iw;
        letters = λ k.
            ap (λ s. m.letter.get s k) el
            ∙ letters k
            ∙ ap (λ x. if x == k then some after_l else m.letter.get b.db.letters k) jl;
        sends = ap (λ x. b.sent ++ x ∷ []) same_text;
      }

  -- The dispatch loop either changes nothing or hands one request, stored and waiting for the
  -- service, to one worker, stored and armed for it: both rows refer to each other afterwards, as
  -- OCCUPIED and ASSIGNED, every other row is as before, and exactly one message is sent, which
  -- holds the request and goes to the worker.
  pub send_waiting-Delivers :
      IsMco m
      → (now : Mark) (b : Broker m) (srv : Service)
      → (send_waiting m now b srv ≡ b) ⊎ Delivers b (send_waiting m now b srv) srv
  unfolding send_waiting worker_send_letter
  send_waiting-Delivers laws now b srv =
      elim (Option-cases (pop_worker m b.db srv WorkerState.armed)) [
        | inl idle ↦ inl (rw (send_waiting, idle) refl)
        | inr (w, free) ↦ elim (Option-cases (get_waiting_letter m b.db srv)) [
          | inl no_work ↦ inl (rw (send_waiting, free, no_work) refl)
          | inr (l, work) ↦ elim (Bool-cases ((assign_letter_to_worker m now b.db w l).0)) [
            | inr refused ↦
                let same = assign_letter-false m laws now b.db w l refused in
                inl (
                  rw (send_waiting, free, work, worker_send_letter, refused)
                    (with_db_same b _ same))
            | inl done ↦
                let e : send_waiting m now b srv
                    ≡ emit m (with_db m b ((assign_letter_to_worker m now b.db w l).3)) (
                        request_message m ((assign_letter_to_worker m now b.db w l).1)
                          ((assign_letter_to_worker m now b.db w l).2) mdpw_request empty_frame) =
                  rw (send_waiting, free, work, worker_send_letter, done) refl in
                inr (Delivers-to b _ _ srv e (assigned-Delivers laws now b srv w l free work done))
          ]
        ]
      ]
