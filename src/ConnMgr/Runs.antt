-- ===== src/ConnMgr/Runs.antt =====
-- Runs of the handler of connmgr/connmanager.go: any messages, in any order.
use nogocommons.Base.{ℕ, suc, ◌+◌, ◌%◌, ◌^◌, ◌≡◌, refl, arith, Bool, true}
use nogocommons.Base.{false, ◌||◌, not, Option, none, some, List, [], ◌∷◌, ◌++◌, length, contains}
use nogocommons.Base.{ltb, if◌then◌else◌, inl, inr, Bool-cases}
use nogocommons.ConnMgr.Manager.{
  ConnState, conn_pending, conn_failing, conn_canceled, conn_established, conn_disconnected, Config,
  Manager, Event, register_pending, handle_connected, handle_disconnected, handle_failed, stop,
  Effect, close_conn, on_connection, on_disconnection, connect_after, replace_after, set_req,
  update_state, delete_key, put_key, handle_failed_conn, connected, dropped, disconnected, failed,
  handle, start_state, close_old,
}
use nogocommons.ConnMgr.Sets.{delete_key_absent, length-delete_key}
use nogocommons.ConnMgr.Invariant.{IsConsistent, start_state-IsConsistent}
use nogocommons.ConnMgr.Steps.{IsFresh, used_after, handle-IsConsistent}

-- The messages, the last one first, and the effects of all of them.
unfoldable pub run : Config → List Event → Manager × List Effect
unfolding handle
run cfg [] = (start_state, [])
run cfg (e ∷ es) = let (m, fx) = run cfg es in let (m', fx') = handle cfg m e in (m', fx ++ fx')

abbrev pub registered_in : List Event → List ℕ
registered_in [] = []
registered_in (e ∷ es) = used_after (registered_in es) e

-- Every registration has a new number, as `atomic.AddUint64` gives them.
abbrev pub IsFreshRun : List Event → Type 0
IsFreshRun [] = Unit
IsFreshRun (e ∷ es) = IsFresh (registered_in es) e × IsFreshRun es

-- A request that was canceled or removed.
abbrev pub is_over : ConnState → Bool
is_over conn_pending = false
is_over conn_failing = false
is_over conn_canceled = true
is_over conn_established = false
is_over conn_disconnected = true

abbrev pub opened : List Effect → ℕ
opened [] = 0
opened (close_conn k ∷ fx) = opened fx
opened (on_connection id k ∷ fx) = suc (opened fx)
opened (on_disconnection id ∷ fx) = opened fx
opened (connect_after d id ∷ fx) = opened fx
opened (replace_after d id ∷ fx) = opened fx

abbrev pub closed : List Effect → ℕ
closed [] = 0
closed (close_conn k ∷ fx) = closed fx
closed (on_connection id k ∷ fx) = closed fx
closed (on_disconnection id ∷ fx) = suc (closed fx)
closed (connect_after d id ∷ fx) = closed fx
closed (replace_after d id ∷ fx) = closed fx

opened-append : (fx fy : List Effect) → opened (fx ++ fy) ≡ opened fx + opened fy
opened-append [] fy = omega arith
opened-append (close_conn k ∷ fx) fy = opened-append fx fy
opened-append (on_connection id k ∷ fx) fy = omega (arith, opened-append fx fy)
opened-append (on_disconnection id ∷ fx) fy = opened-append fx fy
opened-append (connect_after d id ∷ fx) fy = opened-append fx fy
opened-append (replace_after d id ∷ fx) fy = opened-append fx fy

closed-append : (fx fy : List Effect) → closed (fx ++ fy) ≡ closed fx + closed fy
closed-append [] fy = omega arith
closed-append (close_conn k ∷ fx) fy = closed-append fx fy
closed-append (on_connection id k ∷ fx) fy = closed-append fx fy
closed-append (on_disconnection id ∷ fx) fy = omega (arith, closed-append fx fy)
closed-append (connect_after d id ∷ fx) fy = closed-append fx fy
closed-append (replace_after d id ∷ fx) fy = closed-append fx fy

-- `handleFailedConn` calls no callback and leaves `conns`.
handle_failed_conn_quiet :
    (cfg : Config) (id : ℕ) (trigger : Bool) (m : Manager)
    → (opened (handle_failed_conn cfg id trigger m).1 ≡ 0)
      × (closed (handle_failed_conn cfg id trigger m).1 ≡ 0)
      × ((handle_failed_conn cfg id trigger m).0.conns ≡ m.conns)
unfolding handle_failed_conn set_req
handle_failed_conn_quiet cfg id trigger m = ground arith

-- For any messages in any order, where every registration has a new number: an established key
-- has a request in the state `ConnEstablished`, a pending key one that waits, no key is
-- established twice, and a number that was not registered is in neither map.
pub run-IsConsistent :
    (cfg : Config) (es : List Event)
    → IsFreshRun es
    → IsConsistent (run cfg es).0 (registered_in es)
unfolding run
run-IsConsistent cfg [] f = start_state-IsConsistent
run-IsConsistent cfg (e ∷ es) (fe, f) =
    handle-IsConsistent cfg (run cfg es).0 (registered_in es) (run-IsConsistent cfg es f) e fe

-- What was established and is no longer was disconnected.
unfoldable IsBalanced : ℕ → Manager × List Effect → Type 0
IsBalanced n x = opened x.1 + n ≡ closed x.1 + length x.0.conns

if_IsBalanced :
    (b : Bool) (n : ℕ) (x y : Manager × List Effect)
    → IsBalanced n x
    → IsBalanced n y
    → IsBalanced n (if b then x else y)
if_IsBalanced true n x y hx hy = hx
if_IsBalanced false n x y hx hy = hy

handle_failed_conn-IsBalanced :
    (cfg : Config) (id : ℕ) (trigger : Bool) (n : ℕ) (m : Manager) (fx : List Effect)
    → IsBalanced n (m, fx)
    → IsBalanced n
        ((handle_failed_conn cfg id trigger m).0, fx ++ (handle_failed_conn cfg id trigger m).1)
unfolding IsBalanced
handle_failed_conn-IsBalanced cfg id trigger n m fx h = ground (
  arith,
  h,
  handle_failed_conn_quiet cfg id trigger m,
  opened-append fx (handle_failed_conn cfg id trigger m).1,
  closed-append fx (handle_failed_conn cfg id trigger m).1,
)

update_state_conns :
    (id : ℕ) (st : ConnState) (m : Manager) → (update_state id st m).conns ≡ m.conns
unfolding update_state set_req
update_state_conns id st m = refl

-- How one message changes the number of established connections.
module _ (cfg : Config) (m : Manager) (used : List ℕ) (c : IsConsistent m used) where
  connected-count :
      (id k : ℕ)
      → opened (connected id k m).1 + length m.conns
        ≡ closed (connected id k m).1 + length (connected id k m).0.conns
  unfolding connected put_key set_req
  connected-count id k = ground (
    arith,
    c.established id,
    c.waiting id,
    delete_key_absent id m.conns,
    Bool-cases (contains id m.conns),
  )

  -- An established connection is gone, however the request goes on.
  gone-IsBalanced :
      (id : ℕ) (old : Option ℕ) (m' : Manager)
      → contains id m.conns ≡ true
      → m'.conns ≡ delete_key id m.conns
      → IsBalanced (length m.conns) (m', close_old old (on_disconnection id ∷ []))
  unfolding IsBalanced close_old
  gone-IsBalanced id none m' t k = ground (arith, length-delete_key id m.conns c.once t, k)
  gone-IsBalanced id (some x) m' t k = ground (arith, length-delete_key id m.conns c.once t, k)

  dropped-IsBalanced :
      (id : ℕ) (retry trigger : Bool)
      → contains id m.conns ≡ true
      → IsBalanced (length m.conns) (dropped cfg id retry trigger m)
  unfolding dropped update_state set_req
  dropped-IsBalanced id retry trigger t =
      if_IsBalanced (not retry) _ _ _ (gone-IsBalanced id (m.reqs id).conn _ t refl) (
        if_IsBalanced
          (ltb (length (delete_key id m.conns) % 2 ^ 32) cfg.target_outbound
            || (m.reqs id).permanent)
          _ _ _
          (handle_failed_conn-IsBalanced cfg _ _ _ _ _ (
            gone-IsBalanced id (m.reqs id).conn
              (update_state id conn_pending
                (record m { conns = delete_key id m.conns; pending = put_key id m.pending }))
              t refl))
          (gone-IsBalanced id (m.reqs id).conn _ t refl))

  disconnected-IsBalanced :
      (id : ℕ) (retry trigger : Bool)
      → IsBalanced (length m.conns) (disconnected cfg id retry trigger m)
  unfolding disconnected update_state set_req IsBalanced
  disconnected-IsBalanced id retry trigger = elim (Bool-cases (contains id m.conns)) [
    | inl t ↦ rw t (dropped-IsBalanced id retry trigger t)
    | inr n ↦ ground (arith, n)
  ]

  failed-IsBalanced : (id : ℕ) → IsBalanced (length m.conns) (failed cfg id m)
  unfolding failed IsBalanced
  failed-IsBalanced id = ground (
    arith,
    handle_failed_conn_quiet cfg id false (update_state id conn_failing m),
    update_state_conns id conn_failing m,
  )

  handle-IsBalanced : (e : Event) → IsBalanced (length m.conns) (handle cfg m e)
  unfolding handle set_req IsBalanced
  handle-IsBalanced (register_pending id p) = refl
  handle-IsBalanced (handle_connected id k) = connected-count id k
  handle-IsBalanced (handle_disconnected id retry trigger) =
      disconnected-IsBalanced id retry trigger
  handle-IsBalanced (handle_failed id) = failed-IsBalanced id
  handle-IsBalanced stop = refl

-- For any messages in any order, where every registration has a new number: the calls of
-- `OnConnection` so far are as many as those of `OnDisconnection` and the connections that are
-- established now together.
pub run-opened :
    (cfg : Config) (es : List Event)
    → IsFreshRun es
    → opened (run cfg es).1 ≡ closed (run cfg es).1 + length (run cfg es).0.conns
unfolding run IsBalanced start_state
run-opened cfg [] f = refl
run-opened cfg (e ∷ es) (fe, f) = ground (
  arith,
  run-opened cfg es f,
  handle-IsBalanced cfg (run cfg es).0 (registered_in es) (run-IsConsistent cfg es f) e,
  opened-append (run cfg es).1 (handle cfg (run cfg es).0 e).1,
  closed-append (run cfg es).1 (handle cfg (run cfg es).0 e).1,
)
