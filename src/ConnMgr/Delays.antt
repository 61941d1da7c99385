-- ===== src/ConnMgr/Delays.antt =====
-- How long the handler of connmgr/connmanager.go waits before it dials again.
use nogocommons.Base.{ℕ, suc, ◌*◌, ◌^◌, ◌≤◌, ◌<◌, arith, Bool, true, false, not, if◌then◌else◌}
use nogocommons.Base.{
  Option, none, some, List, [], ◌∷◌, ◌++◌, length, contains, min, ltb, leb, ◌||◌, ◌+◌, ◌%◌, u64_mod,
}
use nogocommons.ConnMgr.Manager.{
  ConnState, ConnReq, Config, Manager, Event, register_pending, handle_connected,
  handle_disconnected, handle_failed, stop, Effect, close_conn, on_connection, on_disconnection,
  connect_after, replace_after, set_req, update_state, delete_key, put_key, retry_delay,
  handle_failed_conn, close_old, connected, dropped, disconnected, failed, handle, start_state,
  conn_pending, conn_failing, conn_canceled, conn_disconnected, max_failed_attempts,
}
use nogocommons.ConnMgr.Runs.{run}

-- In nanoseconds.
abbrev pub five_minutes : ℕ
five_minutes = 300000000000

-- Every timer that dials a request again runs for the retry duration at least, unless that is more
-- than five minutes, and for five minutes at most; every timer for a new request runs for the retry
-- duration at most.
abbrev pub IsTimely : ℕ → List Effect → Type 0
IsTimely d [] = Unit
IsTimely d (close_conn k ∷ fx) = IsTimely d fx
IsTimely d (on_connection id k ∷ fx) = IsTimely d fx
IsTimely d (on_disconnection id ∷ fx) = IsTimely d fx
IsTimely d (connect_after t id ∷ fx) = (min d five_minutes ≤ t) × (t ≤ five_minutes) × IsTimely d fx
IsTimely d (replace_after t id ∷ fx) = (t ≤ d) × IsTimely d fx

IsTimely-append :
    (d : ℕ) (fx fy : List Effect) → IsTimely d fx → IsTimely d fy → IsTimely d (fx ++ fy)
IsTimely-append d [] fy h k = k
IsTimely-append d (close_conn c ∷ fx) fy h k = IsTimely-append d fx fy h k
IsTimely-append d (on_connection id c ∷ fx) fy h k = IsTimely-append d fx fy h k
IsTimely-append d (on_disconnection id ∷ fx) fy h k = IsTimely-append d fx fy h k
IsTimely-append d (connect_after t id ∷ fx) fy (a, b, h) k = (a, b, IsTimely-append d fx fy h k)
IsTimely-append d (replace_after t id ∷ fx) fy (a, h) k = (a, IsTimely-append d fx fy h k)

-- No request was tried again more often than that.
abbrev IsCounted : ℕ → Manager → Type 0
IsCounted n m = (id : ℕ) → (m.reqs id).retry_count ≤ n

IsCounted-suc : (n : ℕ) (m : Manager) → IsCounted n m → IsCounted (suc n) m
IsCounted-suc n m h = λ id. omega (arith, h id)

set_req-IsCounted :
    (n id : ℕ) (r : ConnReq) (m : Manager)
    → r.retry_count ≤ n
    → IsCounted n m
    → IsCounted n (set_req id r m)
unfolding set_req
set_req-IsCounted n id r m l h = λ i. ground (arith, l, h i)

update_state-IsCounted :
    (n id : ℕ) (st : ConnState) (m : Manager) → IsCounted n m → IsCounted n (update_state id st m)
unfolding update_state
update_state-IsCounted n id st m h =
    set_req-IsCounted n id (record (m.reqs id) { state = st }) m (h id) h

-- The handler's state and its effects after one more message.
abbrev Keeps : ℕ → ℕ → Manager × List Effect → Type 0
Keeps d n r = IsCounted (suc n) r.0 × IsTimely d r.1

product-le : (c n d : ℕ) → c ≤ n → c * d ≤ n * d
product-le c n d h = grind arith

product-ge : (c d : ℕ) → 0 < c → d ≤ c * d
product-ge c d h = grind arith

retry_delay-bounds :
    (c d : ℕ)
    → 0 < c
    → c * d < 2 ^ 63
    → (min d five_minutes ≤ retry_delay c d) × (retry_delay c d ≤ five_minutes)
unfolding retry_delay
retry_delay-bounds c d z h =
    let g = product-ge c d z in (ground (arith, g, h), ground (arith, g, h))

Keeps-if :
    (d n : ℕ) (b : Bool) (r s : Manager × List Effect)
    → Keeps d n r
    → Keeps d n s
    → Keeps d n (if b then r else s)
Keeps-if d n true r s h k = h
Keeps-if d n false r s h k = k

module _ (cfg : Config) (n : ℕ) (fits : suc n < 2 ^ 32)
    (short : suc n * cfg.retry_duration < 2 ^ 63) where
  -- What `handleFailedConn` does, by what it tests.
  one_retry :
      (stopped again other late : Bool) (id attempts : ℕ) (m : Manager)
      → IsCounted n m
      → Keeps cfg.retry_duration n (
          if stopped
          then (m, [])
          else if again
          then (
            set_req id
                (record (m.reqs id) { retry_count = ((m.reqs id).retry_count + 1) % 2 ^ 32 })
                m,
            connect_after
                  (retry_delay (((m.reqs id).retry_count + 1) % 2 ^ 32) cfg.retry_duration)
                  id
                ∷ [],
          )
          else if other
          then (
            record m { failed_attempts = attempts },
            replace_after (if late then cfg.retry_duration else 0) id ∷ [],
          )
          else (m, []))
  one_retry true again other late id attempts m h = (IsCounted-suc n m h, tt)
  one_retry false true other late id attempts m h =
      let count = ((m.reqs id).retry_count + 1) % 2 ^ 32 in
      let most : count ≤ suc n = omega (arith, h id) in
      let some_tries : 0 < count = omega (arith, h id, fits) in
      let small : count * cfg.retry_duration < 2 ^ 63 =
        omega (arith, product-le count (suc n) cfg.retry_duration most, short) in
      let (least, cap) = retry_delay-bounds count cfg.retry_duration some_tries small in
      (
        set_req-IsCounted (suc n) id (record (m.reqs id) { retry_count = count }) m most
            (IsCounted-suc n m h),
        (least, cap, tt),
      )
  one_retry false false true late id attempts m h = (IsCounted-suc n m h, (ground arith, tt))
  one_retry false false false late id attempts m h = (IsCounted-suc n m h, tt)

  handle_failed_conn-Keeps :
      (id : ℕ) (trigger : Bool) (m : Manager)
      → IsCounted n m
      → Keeps cfg.retry_duration n (handle_failed_conn cfg id trigger m)
  unfolding handle_failed_conn
  handle_failed_conn-Keeps id trigger m h =
      one_retry m.stopped ((m.reqs id).permanent || trigger) cfg.has_new_address
        (leb max_failed_attempts ((m.failed_attempts + 1) % u64_mod)) id
        ((m.failed_attempts + 1) % u64_mod) m h

  close_old-IsTimely :
      (o : Option ℕ) (fx : List Effect)
      → IsTimely cfg.retry_duration fx
      → IsTimely cfg.retry_duration (close_old o fx)
  unfolding close_old
  close_old-IsTimely none fx h = h
  close_old-IsTimely (some c) fx h = h

  connected-Keeps :
      (id c : ℕ) (m : Manager) → IsCounted n m → Keeps cfg.retry_duration n (connected id c m)
  unfolding connected set_req
  connected-Keeps id c m h =
      Keeps-if cfg.retry_duration n (contains id m.pending) _ _ (λ i. ground (arith, h i), tt)
        (IsCounted-suc n m h, tt)

  dropped-Keeps :
      (id : ℕ) (retry trigger : Bool) (m : Manager)
      → IsCounted n m
      → Keeps cfg.retry_duration n (dropped cfg id retry trigger m)
  unfolding dropped
  dropped-Keeps id retry trigger m h =
      let m' = record m { conns = delete_key id m.conns } in
      let fx = close_old (m.reqs id).conn (on_disconnection id ∷ []) in
      let gone : IsTimely cfg.retry_duration fx =
        close_old-IsTimely (m.reqs id).conn (on_disconnection id ∷ []) tt in
      let m2 = update_state id conn_pending (record m' { pending = put_key id m.pending }) in
      let fx2 = (handle_failed_conn cfg id trigger m2).1 in
      let (counted, timely) = handle_failed_conn-Keeps id trigger m2 (
        update_state-IsCounted n id conn_pending (record m' { pending = put_key id m.pending })
          h) in
      Keeps-if cfg.retry_duration n (not retry) _ _
        (
          IsCounted-suc n (update_state id conn_disconnected m')
              (update_state-IsCounted n id conn_disconnected m' h),
          gone,
        )
        (Keeps-if cfg.retry_duration n
          (ltb (length m'.conns % 2 ^ 32) cfg.target_outbound || (m.reqs id).permanent) _ _
          (counted, IsTimely-append cfg.retry_duration fx fx2 gone timely)
          (IsCounted-suc n m' h, gone))

  disconnected-Keeps :
      (id : ℕ) (retry trigger : Bool) (m : Manager)
      → IsCounted n m
      → Keeps cfg.retry_duration n (disconnected cfg id retry trigger m)
  unfolding disconnected
  disconnected-Keeps id retry trigger m h =
      let m' = record m { pending = delete_key id m.pending } in
      Keeps-if cfg.retry_duration n (contains id m.conns) _ _ (dropped-Keeps id retry trigger m h) (
        Keeps-if cfg.retry_duration n (contains id m.pending) _ _
          (
            IsCounted-suc n (update_state id conn_canceled m')
                (update_state-IsCounted n id conn_canceled m' h),
            tt,
          )
          (IsCounted-suc n m h, tt))

  failed-Keeps :
      (id : ℕ) (m : Manager) → IsCounted n m → Keeps cfg.retry_duration n (failed cfg id m)
  unfolding failed
  failed-Keeps id m h =
      Keeps-if cfg.retry_duration n (contains id m.pending) _ _
        (handle_failed_conn-Keeps id false (update_state id conn_failing m)
          (update_state-IsCounted n id conn_failing m h))
        (IsCounted-suc n m h, tt)

  handle-Keeps :
      (m : Manager) (e : Event) → IsCounted n m → Keeps cfg.retry_duration n (handle cfg m e)
  unfolding handle set_req
  handle-Keeps m (register_pending id p) h = (λ i. ground (arith, h i), tt)
  handle-Keeps m (handle_connected id c) h = connected-Keeps id c m h
  handle-Keeps m (handle_disconnected id retry trigger) h = disconnected-Keeps id retry trigger m h
  handle-Keeps m (handle_failed id) h = failed-Keeps id m h
  handle-Keeps m stop h = (IsCounted-suc n m h, tt)

run-Keeps :
    (cfg : Config) (events : List Event)
    → length events < 2 ^ 32
    → length events * cfg.retry_duration < 2 ^ 63
    → IsCounted (length events) (run cfg events).0 × IsTimely cfg.retry_duration (run cfg events).1
unfolding run start_state
run-Keeps cfg [] h s = (λ id. omega arith, tt)
run-Keeps cfg (e ∷ es) h s =
    let (counted, timely) = run-Keeps cfg es (omega arith) (omega (arith, s)) in
    let (counted', timely') = handle-Keeps cfg (length es) h s (run cfg es).0 e counted in
    (counted', IsTimely-append cfg.retry_duration (run cfg es).1 _ timely timely')

-- For any messages in any order, fewer than 2^32 and so few that their number times the retry
-- duration fits into an int64: every timer that dials a request again was started with the retry
-- duration at least, or with five minutes where the retry duration is more than that, and with
-- five minutes at most; every replacement of a request by a new one waits for the retry duration
-- at most.
pub run-IsTimely :
    (cfg : Config) (events : List Event)
    → length events < 2 ^ 32
    → length events * cfg.retry_duration < 2 ^ 63
    → IsTimely cfg.retry_duration (run cfg events).1
run-IsTimely cfg events h s = (run-Keeps cfg events h s).1
