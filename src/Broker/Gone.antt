-- ===== src/Broker/Gone.antt =====
-- What a worker that is waiting again does to the requests that are not stored, in
-- mdp/mdp_broker.cpp: dispatching and purging make no request.
use rtdbus.Base.{
  ℕ, false, ◌≡◌, ◌>>=◌, inl, inr, none, some, List, [], ◌∷◌, Option-cases, Bool-cases, bind_some,
}
use rtdbus.Xdb.Rows.{Mark, WorkerState}
use rtdbus.Xdb.Service.{Service}
use rtdbus.Xdb.Worker
use rtdbus.Xdb.Worker.{Worker}
use rtdbus.Xdb.Letter.{Letter}
use rtdbus.Xdb.Table.{put_fields-none}
use rtdbus.Xdb.Mco.{Mco, IsMco, Db}
use rtdbus.Xdb.Services.{get_service_by_id}
use rtdbus.Xdb.Workers.{push_worker, get_worker_by_state, pop_worker, remove_worker}
use rtdbus.Xdb.Letters.{assign_letter_to_worker, get_waiting_letter}
use rtdbus.Xdb.Letters.Assign.{letter_writes, assign_letters}
use rtdbus.Xdb.Letters.Keep.{push_worker_letters, remove_worker_letters}
use rtdbus.Broker.State.{Broker, emit, with_db, release, worker_send_letter}
use rtdbus.Broker.Dispatch.{
  purge_service, purge_list, purge_workers, store_request, send_waiting, service_dispatch,
  worker_waiting,
}

module _ (m : Mco) (i : ℕ) where
  -- No request stands under the number.
  abbrev pub IsGone : Db m → Type 0
  IsGone db = m.letter.get db.letters i ≡ none

  release-IsGone :
      (b : Broker m) (w : Worker) (r : Broker m)
      → (release m b (some w) false >>= λ x. some (x.2)) ≡ some r
      → IsGone b.db
      → IsGone r.db
  unfolding release with_db
  release-IsGone b w r h gone =
      let e : r ≡ with_db m b ((remove_worker m b.db w).2) = cc in
      rw (e, remove_worker_letters m b.db w) gone

  purge_service-IsGone :
      (now : Mark) (b b' : Broker m) (srv : ℕ)
      → purge_service m now b srv ≡ some b'
      → IsGone b.db
      → IsGone b'.db
  unfolding purge_service
  purge_service-IsGone now b b' srv h gone =
      elim (Option-cases (get_worker_by_state m b.db srv WorkerState.armed)) [
        | inl idle ↦
            let e : some b ≡ some b' = rw (purge_service, idle) at h in
            let e' : b' ≡ b = cc in rw e' gone
        | inr (w, found) ↦ elim (Bool-cases (Worker.expired now w)) [
          | inl late ↦ release-IsGone b w b' (rw (purge_service, found, late) at h) gone
          | inr fresh ↦
              let e : some b ≡ some b' = rw (purge_service, found, fresh) at h in
              let e' : b' ≡ b = cc in rw e' gone
        ]
      ]

  purge_list-IsGone :
      (now : Mark) (b b' : Broker m) (is : List ℕ)
      → purge_list m now b is ≡ some b'
      → IsGone b.db
      → IsGone b'.db
  unfolding purge_list
  purge_list-IsGone now b b' [] h gone = let e : b' ≡ b = cc in rw e gone
  purge_list-IsGone now b b' (j ∷ js) h gone =
      let (b₁, p, q) = bind_some (purge_service m now b j) (λ x. purge_list m now x js) b' h in
      purge_list-IsGone now b₁ b' js q (purge_service-IsGone now b b₁ j p gone)

  module _ (laws : IsMco m) where
    assign-IsGone :
        (now : Mark) (db : Db m) (w : Worker) (l : Letter)
        → IsGone db
        → IsGone ((assign_letter_to_worker m now db w l).3)
    assign-IsGone now db w l gone = elim (assign_letters m laws now db w l) [
      | inl same ↦ rw same gone
      | inr p ↦
          put_fields-none m.letter laws.letter_laws db.letters _ l.id i (letter_writes now w) p gone
    ]

    send_waiting-IsGone :
        (now : Mark) (b : Broker m) (srv : Service)
        → IsGone b.db
        → IsGone (send_waiting m now b srv).db
    unfolding send_waiting worker_send_letter emit with_db
    send_waiting-IsGone now b srv gone =
        elim (Option-cases (pop_worker m b.db srv WorkerState.armed)) [
          | inl idle ↦ rw (send_waiting, idle) gone
          | inr (w, found) ↦ elim (Option-cases (get_waiting_letter m b.db srv)) [
            | inl no_work ↦ rw (send_waiting, found, no_work) gone
            | inr (l, work) ↦
                let left = assign-IsGone now b.db w l gone in
                elim (Bool-cases ((assign_letter_to_worker m now b.db w l).0)) [
                  | inl done ↦ rw (send_waiting, found, work, worker_send_letter, done) left
                  | inr refused ↦ rw (send_waiting, found, work, worker_send_letter, refused) left
                ]
          ]
        ]

    dispatch-IsGone :
        (now : Mark) (b b' : Broker m) (srv : Service)
        → service_dispatch m now b srv none ≡ some b'
        → IsGone b.db
        → IsGone b'.db
    unfolding service_dispatch store_request purge_workers
    dispatch-IsGone now b b' srv h gone =
        let (b₁, p, q) =
          bind_some (purge_workers m now b) (λ x. some (send_waiting m now x srv)) b' h in
        let e : b' ≡ send_waiting m now b₁ srv = cc in
        rw e (send_waiting-IsGone now b₁ srv (purge_list-IsGone now b b₁ _ p gone))

    -- A number under which no request stands is left alone by worker_waiting.
    pub worker_waiting-IsGone :
        (now : Mark) (b b' : Broker m) (w w' : Worker)
        → worker_waiting m now b w ≡ some (w', b')
        → IsGone b.db
        → IsGone b'.db
    unfolding worker_waiting with_db
    worker_waiting-IsGone now b b' w w' h gone =
        let db' = (push_worker m now b.db w).2 in
        let w₁ = (push_worker m now b.db w).1 in
        let left : IsGone db' = rw (push_worker_letters m now b.db w) gone in
        elim (Option-cases (get_service_by_id m db' w₁.service_id)) [
          | inl lost ↦
              let e : some (w₁, with_db m b db') ≡ some (w', b') = rw (worker_waiting, lost) at h in
              let e' : b' ≡ with_db m b db' = cc in rw e' left
          | inr (srv, found) ↦
              let (b₁, p, q) =
                bind_some (service_dispatch m now (with_db m b db') srv none) _ (w', b')
                  (rw (worker_waiting, found) at h) in
              let e' : b' ≡ b₁ = cc in rw e' (dispatch-IsGone now (with_db m b db') b₁ srv p left)
        ]
