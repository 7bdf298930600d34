-- ===== src/Broker/Extends.antt =====
-- What the steps of mdp/mdp_broker.cpp leave alone: no stored request is lost, the messages that were
-- sent stay sent, and m_heartbeat_at is not written.
use mathlib.Core.List.{List, [], ◌∷◌, ◌++◌, append_assoc, append-nil}
use rtdbus.Base.{
  ℕ, Bytes, Bool, true, false, ◌≡◌, refl, sym, ap, ◌∙◌, inl, inr, Option, none, some, Option-cases,
  Bool-cases, bind_some,
}
use rtdbus.Zmsg.{Zmsg}
use rtdbus.Xdb.Rows.{Mark, WorkerState}
use rtdbus.Xdb.Service.{Service}
use rtdbus.Xdb.Worker
use rtdbus.Xdb.Worker.{Worker}
use rtdbus.Xdb.Letter
use rtdbus.Xdb.Letter.{Letter}
use rtdbus.Xdb.Mco.{Mco, IsMco, Db}
use rtdbus.Xdb.Workers.{remove_worker, get_worker_by_state, pop_worker}
use rtdbus.Xdb.Letters.{push_request_to_service, assign_letter_to_worker, get_waiting_letter}
use rtdbus.Xdb.Letters.Keep.{
  Keeps, Keeps_refl, Keeps_trans, Keeps-same, remove_worker_letters, push_request-Keeps,
  assign-Keeps,
}
use rtdbus.Broker.State.{
  Broker, emit, with_db, release, worker_send_command, worker_send_letter, empty_frame,
  mdpw_disconnect,
}
use rtdbus.Broker.Dispatch.{
  purge_service, purge_list, purge_workers, store_request, send_waiting, service_dispatch,
}

module _ (m : Mco) where
  -- The second broker has sent more messages, if any, and has the same m_heartbeat_at.
  pub record Advances (b b' : Broker m) : Type 0 where
    pub messages : List Zmsg
    pub sends : b'.sent ≡ b.sent ++ messages
    pub same_heartbeat : b'.heartbeat_at ≡ b.heartbeat_at

  -- Besides, it holds every request that the first one holds.
  pub record Extends (b b' : Broker m) : Type 0 where
    pub advances : Advances b b'
    pub keeps : Keeps m b.db b'.db

  pub Advances-refl : (b : Broker m) → Advances b b
  Advances-refl b = record { messages = []; sends = sym (append-nil b.sent); same_heartbeat = refl }

  pub Advances-trans : (b b' b'' : Broker m) → Advances b b' → Advances b' b'' → Advances b b''
  Advances-trans b b' b'' p q = record {
    messages = p.messages ++ q.messages;
    sends = q.sends ∙ ap (λ l. l ++ q.messages) p.sends ∙ append_assoc b.sent p.messages q.messages;
    same_heartbeat = q.same_heartbeat ∙ p.same_heartbeat;
  }

  pub Extends-refl : (b : Broker m) → Extends b b
  Extends-refl b = record { advances = Advances-refl b; keeps = Keeps_refl m b.db.letters }

  pub Extends-trans : (b b' b'' : Broker m) → Extends b b' → Extends b' b'' → Extends b b''
  Extends-trans b b' b'' p q = record {
    advances = Advances-trans b b' b'' p.advances q.advances;
    keeps = Keeps_trans m b.db.letters b'.db.letters b''.db.letters p.keeps q.keeps;
  }

  pub Extends-to : (b x b' : Broker m) → b' ≡ x → Extends b x → Extends b b'
  Extends-to b x b' e k = rw e k

  pub Extends-some :
      (b x b' : Broker m)
      → ◌≡◌ {A = Option (Broker m)} (some x) (some b')
      → Extends b x
      → Extends b b'
  Extends-some b x b' h k = let e : b' ≡ x = cc in rw e k

  pub emit-Extends : (b : Broker m) (msg : Zmsg) → Extends b (emit m b msg)
  unfolding emit
  emit-Extends b msg = record {
    advances = record { messages = msg ∷ []; sends = refl; same_heartbeat = refl };
    keeps = Keeps_refl m b.db.letters;
  }

  pub with_db-Extends : (b : Broker m) (db : Db m) → Keeps m b.db db → Extends b (with_db m b db)
  unfolding with_db
  with_db-Extends b db k = record {
    advances = record { messages = []; sends = sym (append-nil b.sent); same_heartbeat = refl };
    keeps = k;
  }

  pub command-Extends :
      (b : Broker m) (identity command option : Bytes) (msg : Zmsg)
      → Extends b (worker_send_command m b identity command option msg)
  unfolding worker_send_command
  command-Extends b identity command option msg = emit-Extends b _

  pub release-Extends :
      (b b' : Broker m) (o : Option Worker) (disconnect : Bool) (s : Bool) (w' : Worker)
      → release m b o disconnect ≡ some (s, w', b')
      → Extends b b'
  unfolding release
  release-Extends b b' none d s w' h = cc
  release-Extends b b' (some w) true s w' h =
      let b₁ = worker_send_command m b w.identity mdpw_disconnect empty_frame [] in
      let k = Keeps-same m b₁.db ((remove_worker m b₁.db w).2) (remove_worker_letters m b₁.db w) in
      let e : b' ≡ with_db m b₁ ((remove_worker m b₁.db w).2) = cc in
      rw e (
        Extends-trans b b₁ _ (command-Extends b w.identity mdpw_disconnect empty_frame [])
          (with_db-Extends b₁ _ k))
  release-Extends b b' (some w) false s w' h =
      let k = Keeps-same m b.db ((remove_worker m b.db w).2) (remove_worker_letters m b.db w) in
      let e : b' ≡ with_db m b ((remove_worker m b.db w).2) = cc in rw e (with_db-Extends b _ k)

  purge_service-Extends :
      (now : Mark) (b b' : Broker m) (srv : ℕ) → purge_service m now b srv ≡ some b' → Extends b b'
  unfolding purge_service
  purge_service-Extends now b b' srv h =
      elim (Option-cases (get_worker_by_state m b.db srv WorkerState.armed)) [
        | inl idle ↦
            let e : some b ≡ some b' = rw (purge_service, idle) at h in
            let e' : b' ≡ b = cc in rw e' (Extends-refl b)
        | inr (w, found) ↦ elim (Bool-cases (Worker.expired now w)) [
          | inl late ↦
              let ((s, w', b₁), r, e) =
                bind_some (release m b (some w) false) (λ r. some (r.2)) b'
                  (rw (purge_service, found, late) at h) in
              let e' : b' ≡ b₁ = cc in rw e' (release-Extends b b₁ (some w) false s w' r)
          | inr fresh ↦
              let e : some b ≡ some b' = rw (purge_service, found, fresh) at h in
              let e' : b' ≡ b = cc in rw e' (Extends-refl b)
        ]
      ]

  purge_list-Extends :
      (now : Mark) (b b' : Broker m) (is : List ℕ) → purge_list m now b is ≡ some b' → Extends b b'
  unfolding purge_list
  purge_list-Extends now b b' [] h = let e : b' ≡ b = cc in rw e (Extends-refl b)
  purge_list-Extends now b b' (i ∷ is) h =
      let (b₁, p, q) = bind_some (purge_service m now b i) (λ x. purge_list m now x is) b' h in
      Extends-trans b b₁ b' (purge_service-Extends now b b₁ i p) (purge_list-Extends now b₁ b' is q)

  pub purge_workers-Extends :
      (now : Mark) (b b' : Broker m) → purge_workers m now b ≡ some b' → Extends b b'
  unfolding purge_workers
  purge_workers-Extends now b b' h = purge_list-Extends now b b' _ h

  module _ (laws : IsMco m) where
    send-Extends :
        (now : Mark) (b : Broker m) (w : Worker) (c o : Bytes) (l : Letter)
        → Extends b (worker_send_letter m now b w c o l)
    unfolding worker_send_letter
    send-Extends now b w c o l =
        let db' = (assign_letter_to_worker m now b.db w l).3 in
        let k = with_db-Extends b db' (assign-Keeps m laws now b.db w l) in
        elim (Bool-cases ((assign_letter_to_worker m now b.db w l).0)) [
          | inl done ↦
              rw (worker_send_letter, done)
                (Extends-trans b (with_db m b db') _ k (emit-Extends (with_db m b db') _))
          | inr refused ↦ rw (worker_send_letter, refused) k
        ]

    pub send_waiting-Extends :
        (now : Mark) (b : Broker m) (srv : Service) → Extends b (send_waiting m now b srv)
    unfolding send_waiting
    send_waiting-Extends now b srv = elim (Option-cases (pop_worker m b.db srv WorkerState.armed)) [
      | inl idle ↦ rw (send_waiting, idle) (Extends-refl b)
      | inr (w, found) ↦ elim (Option-cases (get_waiting_letter m b.db srv)) [
        | inl no_work ↦ rw (send_waiting, found, no_work) (Extends-refl b)
        | inr (l, work) ↦ rw (send_waiting, found, work) (send-Extends now b w _ _ l)
      ]
    ]

    store_request-Extends :
        (now : Mark) (b b' : Broker m) (srv : Service) (msg : Option Zmsg)
        → store_request m now b srv msg ≡ some b'
        → Extends b b'
    unfolding store_request
    store_request-Extends now b b' srv none h = let e : b' ≡ b = cc in rw e (Extends-refl b)
    store_request-Extends now b b' srv (some msg) h =
        let (l, p, q) = bind_some (Letter.of_zmsg msg) _ b' h in
        let e : b' ≡ with_db m b ((push_request_to_service m now b.db srv l).2) = cc in
        rw e (with_db-Extends b _ (push_request-Keeps m laws now b.db srv l))

    pub service_dispatch-Extends :
        (now : Mark) (b b' : Broker m) (srv : Service) (msg : Option Zmsg)
        → service_dispatch m now b srv msg ≡ some b'
        → Extends b b'
    unfolding service_dispatch
    service_dispatch-Extends now b b' srv msg h =
        let (b₁, p, h₁) = bind_some (store_request m now b srv msg) _ b' h in
        let (b₂, q, h₂) = bind_some (purge_workers m now b₁) _ b' h₁ in
        let e : b' ≡ send_waiting m now b₂ srv = cc in
        rw e (
          Extends-trans b b₁ _ (store_request-Extends now b b₁ srv msg p) (
            Extends-trans b₁ b₂ _ (purge_workers-Extends now b₁ b₂ q)
              (send_waiting-Extends now b₂ srv)))
