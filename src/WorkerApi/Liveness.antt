-- ===== src/WorkerApi/Liveness.antt =====
-- The turns of recv in mdp/mdp_worker_api.cpp: the count of missed polls, and the requests.
use mathlib.Core.List.{map, append_assoc, append-nil}
use rtdbus.Base.{
  ℕ, ◌+◌, ◌≤◌, ◌<◌, Bytes, bytes_eq, true, false, ◌≡◌, refl, sym, ◌∙◌, Option, none, some, List, [],
  ◌∷◌, ◌++◌, ◌==◌, ltb, leb, length, arith, Option-cases, Bool-cases, inl, inr, bind_some,
  guard-some,
}
use rtdbus.Zmsg.{Zmsg, recv, parts, pop_front, push_front, unwrap}
use rtdbus.Broker.State.{mdpw_worker, mdpw_request, mdpw_heartbeat, mdpw_disconnect}
use rtdbus.WorkerApi.{
  Mdwrk, update_heartbeat_sign, send_to_broker, connect_to_broker, on_command, on_message,
  on_timeout, on_clock, turn, timeouts, decrement, heartbeat_liveness, get_endpoint,
}

-- Some polls may still be missed before the worker connects anew.
abbrev pub IsLive : Mdwrk → Type 0
IsLive s = (1 ≤ s.liveness) × (s.liveness ≤ heartbeat_liveness)

-- Readings of the clock, each later than a heartbeat's period after the one before.
abbrev pub AreLate : ℕ → ℕ → List ℕ → Type 0
AreLate period at [] = Unit
AreLate period at (now ∷ later) = (at < now) × AreLate period (now + period) later

connect-IsLive : (now : ℕ) (s s' : Mdwrk) → connect_to_broker now s ≡ some s' → IsLive s'
unfolding connect_to_broker update_heartbeat_sign
connect-IsLive now s s' h =
    let (e, p, q) = bind_some (get_endpoint false s.service) _ s' h in
    (ground (arith, q), ground (arith, q))

on_clock-IsLive : (now : ℕ) (s : Mdwrk) → IsLive s → IsLive (on_clock now s)
unfolding on_clock update_heartbeat_sign send_to_broker
on_clock-IsLive now s h = (ground (arith, h), ground (arith, h))

on_timeout-IsLive : (now : ℕ) (s s' : Mdwrk) → IsLive s → on_timeout now s ≡ some s' → IsLive s'
unfolding on_timeout
on_timeout-IsLive now s s' (low, high) h = elim (Bool-cases (decrement s.liveness == 0)) [
  | inl last ↦ connect-IsLive now _ s' (rw (on_timeout, last) at h)
  | inr more ↦ (ground (arith, h, more, low), ground (arith, h, more, high))
]

on_command-IsLive :
    (now : ℕ) (command : Bytes) (rest : Zmsg) (s s' : Mdwrk) (request : Option (Bytes × Zmsg))
    → IsLive s
    → on_command now command rest s ≡ some (request, s')
    → IsLive s'
unfolding on_command
on_command-IsLive now command rest s s' request live h =
    elim (Bool-cases (bytes_eq command mdpw_request)) [
      | inl asks ↦
          let (r, p, q) =
            bind_some (unwrap rest) (λ x. some (some x, s)) (request, s')
              (rw (on_command, asks) at h) in
          let e : s' ≡ s = cc in rw e live
      | inr other ↦ elim (Bool-cases (bytes_eq command mdpw_disconnect)) [
        | inl leaves ↦
            let (s₁, p, q) =
              bind_some (connect_to_broker now s) (λ x. some (none, x)) (request, s')
                (rw (on_command, other, leaves) at h) in
            let e : s' ≡ s₁ = cc in rw e (connect-IsLive now s s₁ p)
        | inr stays ↦
            let q : ◌≡◌ {A = Option (Option (Bytes × Zmsg) × Mdwrk)} (some (none, s))
                (some (request, s')) =
              rw (on_command, other, stays) at h in
            let e : s' ≡ s = cc in rw e live
      ]
    ]

on_message-IsLive :
    (now : ℕ) (msg : Zmsg) (s s' : Mdwrk) (request : Option (Bytes × Zmsg))
    → IsLive s
    → on_message now msg s ≡ some (request, s')
    → IsLive s'
unfolding on_message
on_message-IsLive now msg s s' request live h =
    let (p₁, h₁) = guard-some (leb 3 (parts msg)) _ (request, s') h in
    let ((empty, r₁), q₁, h₂) = bind_some (pop_front msg) _ (request, s') h₁ in
    let (p₂, h₃) = guard-some (length empty == 0) _ (request, s') h₂ in
    let ((header, r₂), q₂, h₄) = bind_some (pop_front r₁) _ (request, s') h₃ in
    let (p₃, h₅) = guard-some (bytes_eq header mdpw_worker) _ (request, s') h₄ in
    let ((command, r₃), q₃, h₆) = bind_some (pop_front r₂) _ (request, s') h₅ in
    on_command-IsLive now command r₃ s s' request live h₆

update-IsLive : (now : ℕ) (s : Mdwrk) → IsLive (update_heartbeat_sign now s)
unfolding update_heartbeat_sign
update-IsLive now s = (omega arith, omega arith)

-- A turn of the worker's loop keeps the count of polls that may be missed between one and
-- HEARTBEAT_LIVENESS.
pub turn-IsLive :
    (now : ℕ) (polled : Option (List Bytes)) (s s' : Mdwrk) (request : Option (Bytes × Zmsg))
    → IsLive s
    → turn now polled s ≡ some (request, s')
    → IsLive s'
unfolding turn
turn-IsLive now none s s' request live h =
    let (s₁, p, q) = bind_some (on_timeout now s) _ (request, s') h in
    let e : s' ≡ on_clock now s₁ = cc in
    rw e (on_clock-IsLive now s₁ (on_timeout-IsLive now s s₁ live p))
turn-IsLive now (some frames) s s' request live h =
    let (msg, p, h₁) = bind_some (recv frames) _ (request, s') h in
    let ((r, s₁), p₁, h₂) =
      bind_some (on_message now msg (update_heartbeat_sign now s)) _ (request, s') h₁ in
    let live₁ = on_message-IsLive now msg _ s₁ r (update-IsLive now s) p₁ in
    elim (Option-cases r) [
      | inl nothing ↦
          let q : ◌≡◌ {A = Option (Option (Bytes × Zmsg) × Mdwrk)} (some (none, on_clock now s₁))
              (some (request, s')) =
            rw nothing at h₂ in
          let e : s' ≡ on_clock now s₁ = cc in rw e (on_clock-IsLive now s₁ live₁)
      | inr (x, asked) ↦
          let q : ◌≡◌ {A = Option (Option (Bytes × Zmsg) × Mdwrk)} (some (some x, s₁))
              (some (request, s')) =
            rw asked at h₂ in
          let e : s' ≡ s₁ = cc in rw e live₁
    ]

late_turn :
    (now : ℕ) (s : Mdwrk)
    → 2 ≤ s.liveness
    → s.heartbeat_at < now
    → turn now none s
      ≡ some (
        none,
        update_heartbeat_sign now
            (send_to_broker mdpw_heartbeat [] (record s { liveness = decrement s.liveness })),
      )
unfolding turn on_timeout on_clock
late_turn now s live late =
    let more : (decrement s.liveness == 0) ≡ false = ground arith in
    let due : ltb s.heartbeat_at now ≡ true = ground arith in
    rw (turn, on_timeout, more, on_clock, due) refl

-- A heartbeat on its way to the broker.
abbrev pub heartbeat : Zmsg
heartbeat = [] ∷ mdpw_worker ∷ mdpw_heartbeat ∷ []

-- While polls end without a message, each later than the heartbeat that is due, and two polls may
-- be missed at first, the worker sends a HEARTBEAT for each of them and nothing else, and never
-- connects anew, however long the broker is silent.
pub timeouts_silent :
    (clocks : List ℕ) (s : Mdwrk)
    → 2 ≤ s.liveness
    → AreLate s.heartbeat_msec s.heartbeat_at clocks
    → (s' : Mdwrk) × (timeouts clocks s ≡ some s')
      × (2 ≤ s'.liveness)
      × (s'.connections ≡ s.connections)
      × (s'.sent ≡ s.sent ++ map (λ _. heartbeat) clocks)
unfolding timeouts update_heartbeat_sign send_to_broker push_front
timeouts_silent [] s live late = (s, refl, live, refl, sym (append-nil s.sent))
timeouts_silent (now ∷ later) s live (first, rest) =
    let s₁ =
      update_heartbeat_sign now
        (send_to_broker mdpw_heartbeat [] (record s { liveness = decrement s.liveness })) in
    let (s', p, l, c, sends) = timeouts_silent later s₁ (omega arith) rest in
    let one = append_assoc s.sent (heartbeat ∷ []) (map (λ (_ : ℕ). heartbeat) later) in
    (s', rw (timeouts, late_turn now s live first) p, l, c, sends ∙ one)
