-- ===== src/ConnMgr/Invariant.antt =====
-- What every message keeps of the maps and the states of connmgr/connmanager.go.
use nogocommons.Base.{ℕ, ◌≡◌, refl, sym, subst, arith, Bool, true, false}
use nogocommons.Base.{List, [], ◌∷◌, contains}
use nogocommons.ConnMgr.Manager.{
  ConnState, conn_pending, conn_failing, conn_canceled, conn_established, conn_disconnected, Config,
  Manager, set_req, update_state, delete_key, put_key, handle_failed_conn, connected, fresh_req,
  start_state,
}
use nogocommons.ConnMgr.Sets.{contains-delete_key, contains-put_key, Once, Once-delete_key}
use nogocommons.ConnMgr.Sets.{Once-put_key}

abbrev pub is_waiting : ConnState → Bool
is_waiting conn_pending = true
is_waiting conn_failing = true
is_waiting conn_canceled = false
is_waiting conn_established = false
is_waiting conn_disconnected = false

abbrev pub state_of : Manager → ℕ → ConnState
state_of m id = (m.reqs id).state

-- The established requests are `conns`, those in `pending` are waiting, a number that was not
-- registered is in neither, and no key stands twice.
pub record IsConsistent (m : Manager) (used : List ℕ) : Type 0 where
  pub established : (j : ℕ) → contains j m.conns ≡ true → state_of m j ≡ conn_established
  pub waiting : (j : ℕ) → contains j m.pending ≡ true → is_waiting (state_of m j) ≡ true
  pub unused_state : (j : ℕ) → contains j used ≡ false → state_of m j ≡ conn_pending
  pub unused_pending : (j : ℕ) → contains j used ≡ false → contains j m.pending ≡ false
  pub unused_conns : (j : ℕ) → contains j used ≡ false → contains j m.conns ≡ false
  pub once : Once m.conns

pub start_state-IsConsistent : IsConsistent start_state []
unfolding start_state
start_state-IsConsistent = record {
  established = λ j h. cc;
  waiting = λ j h. cc;
  unused_state = λ j h. refl;
  unused_pending = λ j h. refl;
  unused_conns = λ j h. refl;
  once = tt;
}

pub same-IsConsistent :
    (m m' : Manager) (used : List ℕ)
    → ((j : ℕ) → state_of m' j ≡ state_of m j)
    → m'.pending ≡ m.pending
    → m'.conns ≡ m.conns
    → IsConsistent m used
    → IsConsistent m' used
same-IsConsistent m m' used st p k c = record {
  established = λ j h. ground (arith, st j, k, c.established j, h);
  waiting = λ j h. ground (arith, st j, p, c.waiting j, h);
  unused_state = λ j h. ground (arith, st j, c.unused_state j, h);
  unused_pending = λ j h. ground (arith, p, c.unused_pending j, h);
  unused_conns = λ j h. ground (arith, k, c.unused_conns j, h);
  once = subst Once (sym k) c.once;
}

module _ (m : Manager) (used : List ℕ) (c : IsConsistent m used) where
  pub connected-IsConsistent : (id k : ℕ) → IsConsistent (connected id k m).0 used
  unfolding connected set_req
  connected-IsConsistent id k = record {
    established = λ j h. ground (arith, c.established j, contains-put_key j id m.conns, h);
    waiting = λ j h. ground (arith, c.waiting j, contains-delete_key j id m.pending, h);
    unused_state = λ j h. ground (arith, c.unused_state j, c.unused_pending j, h);
    unused_pending =
        λ j h. ground (arith, c.unused_pending j, contains-delete_key j id m.pending, h);
    unused_conns = λ j h.
        ground (arith, c.unused_conns j, contains-put_key j id m.conns, c.unused_pending j, h);
    once = ground (arith, c.once, Once-put_key id m.conns);
  }

  pub handle_failed_conn-IsConsistent :
      (cfg : Config) (id : ℕ) (trigger : Bool)
      → IsConsistent (handle_failed_conn cfg id trigger m).0 used
  unfolding handle_failed_conn set_req
  handle_failed_conn-IsConsistent cfg id trigger =
      same-IsConsistent m (handle_failed_conn cfg id trigger m).0 used (λ j. ground arith)
        (ground arith) (ground arith) c

  -- A request that was waiting goes on to wait, or is canceled.
  pub failing-IsConsistent :
      (id : ℕ) → contains id m.pending ≡ true → IsConsistent (update_state id conn_failing m) used
  unfolding update_state set_req
  failing-IsConsistent id t = record {
    established = λ j h. ground (arith, c.established j, c.established id, c.waiting id t, h);
    waiting = λ j h. ground (arith, c.waiting j, h);
    unused_state = λ j h. ground (arith, c.unused_state j, c.unused_pending j, t, h);
    unused_pending = c.unused_pending;
    unused_conns = c.unused_conns;
    once = c.once;
  }

  pub canceled-IsConsistent :
      (id : ℕ)
      → contains id m.pending ≡ true
      → contains id m.conns ≡ false
      → IsConsistent
          (update_state id conn_canceled (record m { pending = delete_key id m.pending }))
          used
  unfolding update_state set_req
  canceled-IsConsistent id t n = record {
    established = λ j h. ground (arith, c.established j, n, h);
    waiting = λ j h. ground (arith, c.waiting j, contains-delete_key j id m.pending, h);
    unused_state = λ j h. ground (arith, c.unused_state j, c.unused_pending j, t, h);
    unused_pending =
        λ j h. ground (arith, c.unused_pending j, contains-delete_key j id m.pending, h);
    unused_conns = c.unused_conns;
    once = c.once;
  }

  -- A connection that is gone: the request is over, or left as it is, or waits again.
  pub left-IsConsistent : (id : ℕ) → IsConsistent (record m { conns = delete_key id m.conns }) used
  left-IsConsistent id = record {
    established = λ j h. ground (arith, c.established j, contains-delete_key j id m.conns, h);
    waiting = c.waiting;
    unused_state = c.unused_state;
    unused_pending = c.unused_pending;
    unused_conns = λ j h. ground (arith, c.unused_conns j, contains-delete_key j id m.conns, h);
    once = Once-delete_key id m.conns c.once;
  }

  pub over-IsConsistent :
      (id : ℕ)
      → contains id m.conns ≡ true
      → IsConsistent
          (update_state id conn_disconnected (record m { conns = delete_key id m.conns }))
          used
  unfolding update_state set_req
  over-IsConsistent id t = record {
    established = λ j h. ground (arith, c.established j, contains-delete_key j id m.conns, h);
    waiting = λ j h. ground (arith, c.waiting j, c.established j, t, h);
    unused_state = λ j h. ground (arith, c.unused_state j, c.unused_conns j, t, h);
    unused_pending = c.unused_pending;
    unused_conns = λ j h. ground (arith, c.unused_conns j, contains-delete_key j id m.conns, h);
    once = Once-delete_key id m.conns c.once;
  }

  pub retried-IsConsistent :
      (id : ℕ)
      → contains id m.conns ≡ true
      → IsConsistent
          (update_state id conn_pending
            (record m { conns = delete_key id m.conns; pending = put_key id m.pending }))
          used
  unfolding update_state set_req
  retried-IsConsistent id t = record {
    established = λ j h. ground (arith, c.established j, contains-delete_key j id m.conns, h);
    waiting = λ j h. ground (arith, c.waiting j, contains-put_key j id m.pending, h);
    unused_state = λ j h. ground (arith, c.unused_state j, h);
    unused_pending = λ j h.
        ground (arith, c.unused_pending j, c.unused_conns j, contains-put_key j id m.pending, t, h);
    unused_conns = λ j h. ground (arith, c.unused_conns j, contains-delete_key j id m.conns, h);
    once = Once-delete_key id m.conns c.once;
  }

  pub registered-IsConsistent :
      (id : ℕ) (p : Bool)
      → contains id used ≡ false
      → IsConsistent
          (set_req id (fresh_req p) (record m { pending = put_key id m.pending }))
          (id ∷ used)
  unfolding set_req
  registered-IsConsistent id p n = record {
    established = λ j h. ground (arith, c.established j, c.unused_conns id n, h);
    waiting = λ j h. ground (arith, c.waiting j, contains-put_key j id m.pending, h);
    unused_state = λ j h. ground (arith, c.unused_state j, h);
    unused_pending = λ j h. ground (arith, c.unused_pending j, contains-put_key j id m.pending, h);
    unused_conns = λ j h. ground (arith, c.unused_conns j, h);
    once = c.once;
  }
