-- ===== src/ConnMgr/Over.antt =====
-- A request of connmgr/connmanager.go that was canceled or removed.
use nogocommons.Base.{ℕ, ◌≡◌, refl, ap, ◌∙◌, arith, Bool, true, false}
use nogocommons.Base.{List, [], ◌∷◌, ◌++◌, contains, ◌==◌}
use nogocommons.ConnMgr.Manager.{
  ConnState, conn_pending, conn_failing, conn_canceled, conn_established, conn_disconnected, Config,
  Manager, Event, register_pending, handle_connected, handle_disconnected, handle_failed, stop,
  set_req, update_state, delete_key, put_key, handle_failed_conn, connected, dropped, disconnected,
  failed, handle,
}
use nogocommons.ConnMgr.Invariant.{state_of, is_waiting, IsConsistent}
use nogocommons.ConnMgr.Steps.{IsFresh}
use nogocommons.ConnMgr.Runs.{run, registered_in, IsFreshRun, is_over, run-IsConsistent}

waiting-over : (st : ConnState) → is_waiting st ≡ true → is_over st ≡ false
waiting-over conn_pending h = refl
waiting-over conn_failing h = refl
waiting-over conn_canceled h = cc
waiting-over conn_established h = cc
waiting-over conn_disconnected h = cc

module _ (cfg : Config) (m : Manager) (used : List ℕ) (c : IsConsistent m used) (id : ℕ)
    (o : is_over (state_of m id) ≡ true) where
  absent_pending : contains id m.pending ≡ false
  absent_pending = ground (arith, o, c.waiting id, waiting-over (state_of m id))

  absent_conns : contains id m.conns ≡ false
  absent_conns = ground (arith, o, c.established id)

  -- A message about another request, or about none.
  handle_failed_conn_state :
      (j : ℕ) (trigger : Bool) (m' : Manager)
      → state_of (handle_failed_conn cfg j trigger m').0 id ≡ state_of m' id
  unfolding handle_failed_conn set_req
  handle_failed_conn_state j trigger m' = ground arith

  update_state_other :
      (j : ℕ) (st : ConnState) (m' : Manager)
      → j == id ≡ false
      → state_of (update_state j st m') id ≡ state_of m' id
  unfolding update_state set_req
  update_state_other j st m' n = ground (arith, n)

  absent_other :
      (j : ℕ) (xs : List ℕ) → contains id xs ≡ false → contains j xs ≡ true → j == id ≡ false
  absent_other j xs n t = ground (arith, n, t)

  failed-over : (j : ℕ) → state_of (failed cfg j m).0 id ≡ state_of m id
  unfolding failed
  failed-over j = ground (
    arith,
    absent_other j m.pending absent_pending,
    handle_failed_conn_state j false (update_state j conn_failing m),
    update_state_other j conn_failing m,
  )

  dropped-over :
      (j : ℕ) (retry trigger : Bool)
      → j == id ≡ false
      → state_of (dropped cfg j retry trigger m).0 id ≡ state_of m id
  unfolding dropped
  dropped-over j retry trigger n = ground (
    arith,
    handle_failed_conn_state j trigger (
        update_state j conn_pending
          (record m { conns = delete_key j m.conns; pending = put_key j m.pending })),
    update_state_other j conn_pending
        (record m { conns = delete_key j m.conns; pending = put_key j m.pending }) n,
    update_state_other j conn_disconnected (record m { conns = delete_key j m.conns }) n,
  )

  disconnected-over :
      (j : ℕ) (retry trigger : Bool)
      → state_of (disconnected cfg j retry trigger m).0 id ≡ state_of m id
  unfolding disconnected
  disconnected-over j retry trigger = ground (
    arith,
    absent_other j m.pending absent_pending,
    absent_other j m.conns absent_conns,
    dropped-over j retry trigger,
    update_state_other j conn_canceled (record m { pending = delete_key j m.pending }),
  )

  pub handle-over : (e : Event) → IsFresh used e → state_of (handle cfg m e).0 id ≡ state_of m id
  unfolding handle set_req connected
  handle-over (register_pending j p) f = ground (arith, f, o, c.unused_state id)
  handle-over (handle_connected j k) f = ground (arith, absent_pending)
  handle-over (handle_disconnected j retry trigger) f = disconnected-over j retry trigger
  handle-over (handle_failed j) f = failed-over j
  handle-over stop f = refl

earlier-IsFresh : (later es : List Event) → IsFreshRun (later ++ es) → IsFreshRun es
earlier-IsFresh [] es f = f
earlier-IsFresh (e ∷ later) es (fe, f) = earlier-IsFresh later es f

-- However the messages go on, it keeps its state.
over-state :
    (cfg : Config) (later es : List Event) (id : ℕ)
    → IsFreshRun (later ++ es)
    → is_over (state_of (run cfg es).0 id) ≡ true
    → state_of (run cfg (later ++ es)).0 id ≡ state_of (run cfg es).0 id
unfolding run
over-state cfg [] es id f o = refl
over-state cfg (e ∷ later) es id (fe, f) o =
    let before = over-state cfg later es id f o in
    handle-over cfg (run cfg (later ++ es)).0 (registered_in (later ++ es))
      (run-IsConsistent cfg (later ++ es) f) id (ap is_over before ∙ o) e fe
    ∙ before

-- For any messages in any order, where every registration has a new number: once a request is
-- canceled or disconnected it keeps its state, and is neither pending nor established, whatever
-- messages about it or other requests follow, late connections included.
pub run-over :
    (cfg : Config) (later es : List Event) (id : ℕ)
    → IsFreshRun (later ++ es)
    → is_over (state_of (run cfg es).0 id) ≡ true
    → (state_of (run cfg (later ++ es)).0 id ≡ state_of (run cfg es).0 id)
      × (contains id (run cfg (later ++ es)).0.pending ≡ false)
      × (contains id (run cfg (later ++ es)).0.conns ≡ false)
run-over cfg later es id f o =
    let same = over-state cfg later es id f o in
    let m = (run cfg (later ++ es)).0 in
    let c = run-IsConsistent cfg (later ++ es) f in
    let o' = ap is_over same ∙ o in
    (
      same,
      absent_pending cfg m (registered_in (later ++ es)) c id o',
      absent_conns cfg m (registered_in (later ++ es)) c id o',
    )
