-- ===== src/Xdb/Clear/Services.antt =====
-- ClearServices of xdb/impl/xdb_impl_db_broker.cpp comes to an end.
use rtdbus.Base.{
  ℕ, zero, suc, Bytes, Bool, true, false, ◌≡◌, refl, sym, ◌∙◌, inl, inr, Option, none, some, List,
  [], ◌∷◌, Option-cases, arith, length,
}
use rtdbus.Xdb.Rows.{WorkerState}
use rtdbus.Xdb.Service.{Service}
use rtdbus.Xdb.Mco.{Mco, IsMco, Db}
use rtdbus.Xdb.Services.{remove_service}
use rtdbus.Xdb.ServiceList
use rtdbus.Xdb.ServiceList.{ServiceList}
use rtdbus.Xdb.ServiceList.Walk.{collect, collect-first, collect-none, collect-suc}
use rtdbus.Xdb.Workers.{get_worker_by_state}
use rtdbus.Xdb.Workers.Lookup.{get_worker_by_state_sound, get_worker_by_state_complete}
use rtdbus.Xdb.Clear.{clear_list, clear_services}
use rtdbus.Xdb.Clear.Shrinks.{Shrinks, Shrinks-refl, Shrinks-trans}
use rtdbus.Xdb.Clear.Count.{IsClearable, Shrinks-IsClearable}
use rtdbus.Xdb.Clear.Ends.{clear_workers-Ends}

module _ (m : Mco) where
  -- No worker of the service is occupied.
  abbrev pub IsCleared : Db m → Service → Type 0
  IsCleared db srv = get_worker_by_state m db srv.id WorkerState.occupied ≡ none

  abbrev pub AreCleared : Db m → List Service → Type 0
  AreCleared db [] = Unit
  AreCleared db (srv ∷ srvs) = IsCleared db srv × AreCleared db srvs

  remove_service_same :
      (db : Db m) (n : Bytes)
      → ((remove_service m db n).1.workers ≡ db.workers)
        × ((remove_service m db n).1.letters ≡ db.letters)
        × ((remove_service m db n).1.starts ≡ db.starts)
        × ((remove_service m db n).1.commits ≡ db.commits)
  unfolding remove_service
  remove_service_same db n = ground arith

  remove_service-Shrinks : (db : Db m) (n : Bytes) → Shrinks m db (remove_service m db n).1
  remove_service-Shrinks db n =
      let (w, l, s, c) = remove_service_same db n in
      record {
        rows = rw w (Shrinks-refl m db).rows;
        stays = rw w (Shrinks-refl m db).stays;
        letters = rw l (Shrinks-refl m db).letters;
        same_starts = s;
        same_commits = c;
      }

  Shrinks-IsCleared :
      (laws : IsMco m) (db db' : Db m) (srv : Service)
      → Shrinks m db db'
      → db.starts ≡ true
      → IsCleared db srv
      → IsCleared db' srv
  Shrinks-IsCleared laws db db' srv s starts clear =
      elim (Option-cases (get_worker_by_state m db' srv.id WorkerState.occupied)) [
        | inl still ↦ still
        | inr (w, found) ↦
            let (i, q, g, own, busy, e) =
              get_worker_by_state_sound m laws db' srv.id WorkerState.occupied w found in
            let (r, h, calmed) = s.rows i q g in
            absurd (
              get_worker_by_state_complete m laws db srv.id WorkerState.occupied clear starts i r h
                (sym calmed.service_ref ∙ own) (calmed.calm busy))
      ]

  -- The loop over what is left of the list.
  clear_list-Ends :
      (laws : IsMco m) (n : ℕ) (status : Bool) (db : Db m) (at : Option Service × ServiceList)
      (srvs : List Service) (l : ServiceList)
      → collect n at ≡ some (srvs, l)
      → IsClearable m db
      → (done : Bool) × (db' : Db m) × (clear_list m n status db at ≡ some (done, db', l))
        × Shrinks m db db'
        × AreCleared db' srvs
  unfolding clear_list collect
  clear_list-Ends laws n status db (none, l₀) srvs l h c =
      let (same, nothing) = collect-none n l₀ l srvs h in
      (status, db, rw same refl, Shrinks-refl m db, rw nothing tt)
  clear_list-Ends laws zero status db (some srv, l₀) srvs l h c = cc
  clear_list-Ends laws (suc n) status db (some srv, l₀) srvs l h c =
      let (rest, ahead, e) = collect-suc n srv l₀ l srvs h in
      let (db', ran, shrinks, over) = clear_workers-Ends m laws db srv c in
      let removed = remove_service m db' srv.name in
      let c' = Shrinks-IsClearable m db db' shrinks c in
      let gone = remove_service-Shrinks db' srv.name in
      let c'' = Shrinks-IsClearable m db' removed.1 gone c' in
      let (done, db'', went, shrinks', cleared) =
        clear_list-Ends laws n removed.0 removed.1 (ServiceList.next l₀) rest l ahead c'' in
      let after = Shrinks-trans m db' removed.1 db'' gone shrinks' in
      (
        done,
        db'',
        rw (clear_list, ran) went,
        Shrinks-trans m db db' db'' shrinks after,
        rw e (Shrinks-IsCleared laws db' db'' srv after c'.starts over, cleared),
      )

  -- Where transactions start and are committed, workers have distinct identities that fit, and a
  -- request that stands with a worker is one of its service, ClearServices comes to an end, its
  -- list is at the end, and no worker of a service of the list is occupied; no worker is lost,
  -- none is newly occupied, and no request is new.
  pub clear_services-Ends :
      (laws : IsMco m) (db : Db m) (l : ServiceList)
      → IsClearable m db
      → (status : Bool) × (db' : Db m) × (clear_services m db (some l)
          ≡ some (status, db', some (record l { current_index = length l.array })))
        × Shrinks m db db'
        × AreCleared db' l.array
  unfolding clear_services
  clear_services-Ends laws db l c =
      let (walked, outside, back) = collect-first l in
      let (status, db', went, shrinks, cleared) =
        clear_list-Ends laws (length l.array) false db (ServiceList.first l) l.array _ walked c in
      (status, db', rw (clear_services, went) refl, shrinks, cleared)
