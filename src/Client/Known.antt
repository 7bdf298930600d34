-- ===== src/Client/Known.antt =====
-- The entries that mdp/mdp_client_async_api.cpp has stored, over any calls.
use rtdbus.Base.{
  Bytes, Bool, true, false, ◌≡◌, ◌⊎◌, inl, inr, none, some, Option, List, [], ◌∷◌, ◌++◌, arith,
  Option-cases,
}
use rtdbus.Client.{
  ServiceInfo, ServicesHash, Mdcli, find_info, mark_connected, remember, connect_peer,
}
use rtdbus.Client.Services.{Call, calls, calls_keep, new_info, remember_known, remember_new}

-- The same endpoint, and connected if it was.
abbrev pub Keeps : ServiceInfo → Option ServiceInfo → Type 0
Keeps old none = ⊥
Keeps old (some now) =
    (now.endpoint_external ≡ old.endpoint_external)
    × ((old.connected ≡ false) ⊎ (now.connected ≡ true))

find_info-append :
    (k n : Bytes) (i info : ServiceInfo) (xs : ServicesHash)
    → find_info k xs ≡ some i
    → find_info k (xs ++ (n, info) ∷ []) ≡ some i
unfolding find_info
find_info-append k n i info [] h = cc
find_info-append k n i info ((m, j) ∷ xs) h = ground (arith, find_info-append k n i info xs)

find_info-mark_connected :
    (k n : Bytes) (old : ServiceInfo) (xs : ServicesHash)
    → Keeps old (find_info k xs)
    → Keeps old (find_info k (mark_connected n xs))
unfolding find_info mark_connected
find_info-mark_connected k n old [] h = h
find_info-mark_connected k n old ((m, j) ∷ xs) h =
    ground (arith, find_info-mark_connected k n old xs)

module _ (k : Bytes) (old : ServiceInfo) where
  remember-Keeps :
      (name e : Bytes) (s : Mdcli)
      → Keeps old (find_info k s.services_info)
      → Keeps old (find_info k (remember name e s).services_info)
  remember-Keeps name e s h = elim (Option-cases (find_info name s.services_info)) [
    | inr (info, known) ↦ rw (remember_known name e s known) h
    | inl unknown ↦ elim (Option-cases (find_info k s.services_info)) [
      | inl missing ↦ ground arith
      | inr (i, found) ↦
          rw
            (
              remember_new name e s unknown,
              find_info-append k name i (new_info e) s.services_info found,
            )
            (rw found at h)
    ]
  ]

  connect_peer-Keeps :
      (connects : Bytes → Bool) (name : Bytes) (info : ServiceInfo) (s : Mdcli)
      → find_info name s.services_info ≡ some info
      → Keeps old (find_info k s.services_info)
      → Keeps old (find_info k (connect_peer connects name info s).1.services_info)
  unfolding connect_peer
  connect_peer-Keeps connects name info s f h =
      ground (arith, find_info-mark_connected k name old s.services_info)

-- Over any calls, a service that is known stays known, with the endpoint it had, even where the
-- broker reports another, and connected if it was.
pub calls_keep_info :
    (connects : Bytes → Bool) (cs : List Call) (s s' : Mdcli) (k : Bytes) (old : ServiceInfo)
    → calls connects cs s ≡ some s'
    → find_info k s.services_info ≡ some old
    → Keeps old (find_info k s'.services_info)
calls_keep_info connects cs s s' k old e h =
    calls_keep (λ xs peer. Keeps old (find_info k xs)) (remember-Keeps k old) connects
      (connect_peer-Keeps k old connects) cs s s' e (rw h (ground arith))
