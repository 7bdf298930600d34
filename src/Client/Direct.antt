-- ===== src/Client/Direct.antt =====
-- The connections for direct exchange of mdp/mdp_client_async_api.cpp, over any calls.
use rtdbus.Base.{
  ℕ, ◌+◌, ◌≤◌, Bytes, bytes_eq, c_str, strncpy, Bool, false, ◌≡◌, refl, sym, ◌∙◌, inl, inr, some,
  List, [], ◌∷◌, ◌++◌, if◌then◌else◌, length, length-append, length-take-le, arith, Bool-cases,
  Option-cases,
}
use rtdbus.Client.{
  ServiceInfo, ServicesHash, Mdcli, find_info, endpoints_of, mark_connected, remember, connect_peer,
}
use rtdbus.Client.Services.{Call, calls, calls_keep, new_info, remember_known, remember_new}

-- The services that are marked as connected.
abbrev pub count_connected : ServicesHash → ℕ
count_connected [] = 0
count_connected ((n, info) ∷ rest) = (if info.connected then 1 else 0) + count_connected rest

abbrev pub AreShort : ServicesHash → Type 0
AreShort [] = Unit
AreShort ((n, info) ∷ rest) = (length info.endpoint_external ≤ 100) × AreShort rest

-- No endpoint is longer than its field, and the socket for direct exchange has been connected once
-- for each service that is marked.
abbrev pub IsLinked : Mdcli → Type 0
IsLinked s =
    AreShort s.services_info × (length (endpoints_of s.peer) ≡ count_connected s.services_info)

AreShort-append :
    (xs : ServicesHash) (n : Bytes) (info : ServiceInfo)
    → length info.endpoint_external ≤ 100
    → AreShort xs
    → AreShort (xs ++ (n, info) ∷ [])
AreShort-append [] n info h hs = (h, tt)
AreShort-append ((k, i) ∷ xs) n info h hs = (hs.0, AreShort-append xs n info h hs.1)

count_connected-append :
    (xs : ServicesHash) (n : Bytes) (info : ServiceInfo)
    → info.connected ≡ false
    → count_connected (xs ++ (n, info) ∷ []) ≡ count_connected xs
count_connected-append [] n info h = ground arith
count_connected-append ((k, i) ∷ xs) n info h = omega (arith, count_connected-append xs n info h)

AreShort-mark_connected :
    (n : Bytes) (xs : ServicesHash) → AreShort xs → AreShort (mark_connected n xs)
unfolding mark_connected
AreShort-mark_connected n [] h = tt
AreShort-mark_connected n ((k, i) ∷ xs) h = elim (Bool-cases (bytes_eq k n)) [
  | inl same ↦ rw (mark_connected, same) h
  | inr other ↦ rw (mark_connected, other) (h.0, AreShort-mark_connected n xs h.1)
]

count_connected-mark_connected :
    (n : Bytes) (xs : ServicesHash) (info : ServiceInfo)
    → find_info n xs ≡ some info
    → info.connected ≡ false
    → count_connected (mark_connected n xs) ≡ count_connected xs + 1
unfolding mark_connected find_info
count_connected-mark_connected n [] info f h = cc
count_connected-mark_connected n ((k, i) ∷ xs) info f h =
    ground (arith, count_connected-mark_connected n xs info)

remember-IsLinked : (name e : Bytes) (s : Mdcli) → IsLinked s → IsLinked (remember name e s)
unfolding strncpy
remember-IsLinked name e s h = elim (Option-cases (find_info name s.services_info)) [
  | inr (info, known) ↦ rw (remember_known name e s known) h
  | inl unknown ↦ rw (remember_new name e s unknown) (
    AreShort-append s.services_info name (new_info e) (length-take-le 100 (c_str e)) h.0,
    h.1 ∙ sym (count_connected-append s.services_info name (new_info e) refl),
  )
]

connect_peer-IsLinked :
    (connects : Bytes → Bool) (name : Bytes) (info : ServiceInfo) (s : Mdcli)
    → find_info name s.services_info ≡ some info
    → IsLinked s
    → IsLinked (connect_peer connects name info s).1
unfolding connect_peer
connect_peer-IsLinked connects name info s f h = ground (
  arith,
  AreShort-mark_connected name s.services_info,
  count_connected-mark_connected name s.services_info info,
  length-append {0} (endpoints_of s.peer) (info.endpoint_external ∷ []),
)

-- Over any calls, whatever the broker and the services answer, no stored endpoint grows beyond
-- ENDPOINT_MAXLEN, and the socket for direct exchange has been connected once for each service
-- that is marked as connected.
pub calls-IsLinked :
    (connects : Bytes → Bool) (cs : List Call) (s s' : Mdcli)
    → calls connects cs s ≡ some s'
    → IsLinked s
    → IsLinked s'
calls-IsLinked connects cs s s' =
    calls_keep (λ xs peer. AreShort xs × (length (endpoints_of peer) ≡ count_connected xs))
      remember-IsLinked connects (connect_peer-IsLinked connects) cs s s'
