-- ===== src/Xdb/Clear/Ends.antt =====
-- ClearWorkersForService and ClearServices of xdb/impl/xdb_impl_db_broker.cpp come to an end.

use rtdbus.Base.{
  bytes_eq_iff, ==-self, ℕ, zero, suc, ◌<◌, c_str, true, ◌≡◌, refl, sym, ap, ◌∙◌, inl, inr, none,
  some, Option-cases, ==_iff, arith, length,
}
use rtdbus.Xdb.Rows.{XdbWorker, WorkerState}
use rtdbus.Xdb.Service.{Service}
use rtdbus.Xdb.Worker
use rtdbus.Xdb.Worker.{Worker}
use rtdbus.Xdb.Table.{put_fields}
use rtdbus.Xdb.Mco.{Mco, IsMco, Db}
use rtdbus.Xdb.Workers.{
  identified, remove_worker, get_worker_by_state, pop_worker, put_state, load_worker, serves,
}
use rtdbus.Xdb.Workers.Identity.{some_injective, loaded}
use rtdbus.Xdb.Workers.Lookup.{remove_worker-SetsWorker, get_worker_by_state_sound}
use rtdbus.Xdb.Clear.{clear_worker, clear_loop, clear_workers_for_service}
use rtdbus.Xdb.Clear.Shrinks.{
  Shrinks, Shrinks-refl, Shrinks-trans, remove_worker-Shrinks, release_letter-Shrinks,
}
use rtdbus.Xdb.Clear.Count.{
  is_occupied, count_occupied, count-le, count_occupied-lt, IsClearable, Shrinks-IsClearable,
}

module _ (m : Mco) where
  remove_worker-true :
      (laws : IsMco m) (db : Db m) (w : Worker) (k : ℕ)
      → m.worker.find db.workers (identified (c_str w.identity)) ≡ some k
      → db.starts ≡ true
      → db.commits ≡ true
      → (remove_worker m db w).0 ≡ true
  unfolding remove_worker put_fields
  remove_worker-true laws db w k found starts commits =
      let (r, g, same) = laws.worker_laws.find_some db.workers _ k found in
      let (s, put) =
        laws.worker_laws.put_some db.workers k r (put_state WorkerState.disarmed r) g in
      rw (remove_worker, found, g, put, starts, commits) refl

  -- RemoveWorker finds the worker that has this identity, and it is not occupied afterwards.
  remove_worker-calms :
      (laws : IsMco m) (db : Db m) (w : Worker) (i : ℕ) (r : XdbWorker)
      → IsClearable m db
      → m.worker.get db.workers i ≡ some r
      → c_str w.identity ≡ r.identity
      → is_occupied m (m.worker.get ((remove_worker m db w).2).workers i) ≡ 0
  remove_worker-calms laws db w i r c g named =
      elim (Option-cases (m.worker.find db.workers (identified (c_str w.identity)))) [
        | inl lost ↦
            let other = laws.worker_laws.find_none db.workers _ i r lost g in
            cc (other, (bytes_eq_iff _ _).1 (sym named))
        | inr (k, found) ↦
            let done = remove_worker-true laws db w k found c.starts c.commits in
            let (j, q, hit, gq, sets) = remove_worker-SetsWorker m laws db w done in
            let (q', gq', same) = laws.worker_laws.find_some db.workers _ j hit in
            let q_named : q.identity ≡ r.identity =
              ap (λ x. x.identity) (some_injective (sym gq ∙ gq'))
              ∙ (bytes_eq_iff _ _).0 same
              ∙ named in
            let j_i : j ≡ i = c.addressed.unique j i q r gq g q_named in
            let row : m.worker.get ((remove_worker m db w).2).workers j
                ≡ some (put_state WorkerState.disarmed q) =
              rw (==-self j) at (sets.rows j) in
            rw (← j_i, row) refl
      ]

  -- A turn of the loop ends, and the worker that it is about is not occupied afterwards.
  pub record Calms (db db' : Db m) (srv : ℕ) : Type 0 where
    pub shrinks : Shrinks m db db'
    pub worker : ℕ
    pub row : XdbWorker
    pub there : m.worker.get db.workers worker ≡ some row
    pub served : row.service_ref ≡ srv
    pub calmer :
        is_occupied m (m.worker.get db'.workers worker)
        < is_occupied m (m.worker.get db.workers worker)

  clear_worker-Calms :
      (laws : IsMco m) (db : Db m) (srv : ℕ) (w : Worker)
      → IsClearable m db
      → get_worker_by_state m db srv WorkerState.occupied ≡ some w
      → (db' : Db m) × (clear_worker m db w ≡ some db') × Calms db db' srv
  unfolding clear_worker load_worker Worker.set_valid Worker.set_expiration Worker.set_state
      Worker.new Worker.set_identity
  clear_worker-Calms laws db srv w c found =
      let (i, r, g, own, busy, e) =
        get_worker_by_state_sound m laws db srv WorkerState.occupied w found in
      let (named, timed) = loaded i r (c.addressed.fits i r g) in
      let id : w.id ≡ i = ap (λ x. x.id) e in
      let service : w.service_id ≡ r.service_ref = ap (λ x. x.service_id) e in
      let (done, w', db', released, shrinks, same) =
        release_letter-Shrinks m laws db w
          (λ j l gl to. c.matched.same_service j i l r gl g (to ∙ id) ∙ sym service) in
      let c' = Shrinks-IsClearable m db db' shrinks c in
      let (q, gq) = shrinks.stays i r g in
      let (r₀, g₀, calmed) = shrinks.rows i q gq in
      let w_named : c_str w'.identity ≡ q.identity =
        ap c_str same
        ∙ ap (λ x. c_str x.identity) e
        ∙ named
        ∙ ap (λ x. x.identity) (some_injective (sym g ∙ g₀))
        ∙ sym calmed.identity in
      let calm = remove_worker-calms laws db' w' i q c' gq w_named in
      let occupied : is_occupied m (m.worker.get db.workers i) ≡ 1 = rw (g, busy) refl in
      (
        (remove_worker m db' w').2,
        rw (clear_worker, released) refl,
        record {
          shrinks = Shrinks-trans m db db' _ shrinks (remove_worker-Shrinks m laws db' w');
          worker = i;
          row = r;
          there = g;
          served = own;
          calmer = omega (arith, calm, occupied);
        },
      )

  -- The loop from a database that has come of db₀, with more turns than there are occupied workers.
  clear_loop-Ends :
      (laws : IsMco m) (n : ℕ) (db₀ db : Db m) (srv : Service)
      → Shrinks m db₀ db
      → IsClearable m db
      → count_occupied m db.workers (m.worker.scan db₀.workers (serves srv.id)) < n
      → (db' : Db m) × (clear_loop m n db srv ≡ some db')
        × Shrinks m db db'
        × (get_worker_by_state m db' srv.id WorkerState.occupied ≡ none)
  unfolding clear_loop pop_worker
  clear_loop-Ends laws zero db₀ db srv s c few = absurd (omega arith)
  clear_loop-Ends laws (suc n) db₀ db srv s c few =
      elim (Option-cases (get_worker_by_state m db srv.id WorkerState.occupied)) [
        | inl over ↦ (db, rw (clear_loop, over) refl, Shrinks-refl m db, over)
        | inr (w, found) ↦
            let (db', ran, calms) = clear_worker-Calms laws db srv.id w c found in
            let (r₀, g₀, calmed) = s.rows calms.worker calms.row calms.there in
            let listed =
              laws.worker_laws.scan_complete db₀.workers (serves srv.id) calms.worker r₀ g₀
                ((==_iff _ _).1 (sym calmed.service_ref ∙ calms.served)) in
            let fewer =
              count_occupied-lt m db db' calms.worker _ calms.shrinks listed calms.calmer in
            let (db'', rest, shrinks, over) =
              clear_loop-Ends laws n db₀ db' srv (Shrinks-trans m db₀ db db' s calms.shrinks)
                (Shrinks-IsClearable m db db' calms.shrinks c) (omega (arith, fewer)) in
            (
              db'',
              rw (clear_loop, found, ran) rest,
              Shrinks-trans m db db' db'' calms.shrinks shrinks,
              over,
            )
      ]

  pub clear_workers-Ends :
      (laws : IsMco m) (db : Db m) (srv : Service)
      → IsClearable m db
      → (db' : Db m) × (clear_workers_for_service m db srv ≡ some db')
        × Shrinks m db db'
        × (get_worker_by_state m db' srv.id WorkerState.occupied ≡ none)
  unfolding clear_workers_for_service
  clear_workers-Ends laws db srv c =
      clear_loop-Ends laws (suc (length (m.worker.scan db.workers (serves srv.id)))) db db srv
        (Shrinks-refl m db) c
        (omega (arith, count-le m db.workers (m.worker.scan db.workers (serves srv.id))))
