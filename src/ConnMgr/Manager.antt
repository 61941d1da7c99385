-- ===== src/ConnMgr/Manager.antt =====
-- connmgr/connmanager.go. The handler's goroutine owns the maps `pending` and `conns` and takes one
-- message at a time, so its state is changed by one message after the other, in the order in which
-- the other goroutines happen to send them. A `*ConnReq` is its number, and `reqs` holds what the
-- numbers point to; a map from numbers to requests is the list of its keys. What the handler starts
-- or calls is a list of effects. A duration is in nanoseconds, as the bit pattern of an `int64`.
-- Both callbacks are taken to be configured, and `Dial` to return a connection or an error.
use nogocommons.Base.{ℕ, ◌+◌, ◌*◌, ◌%◌, ◌^◌, Bool, true, false, ◌||◌, ◌&&◌, Option, none, some}
use nogocommons.Base.{
  not, ◌++◌, List, [], ◌∷◌, length, ltb, leb, ◌==◌, if◌then◌else◌, u64_mod, contains,
}

-- `ConnState`
pub data ConnState : Type 0 where
  conn_pending : ConnState
  conn_failing : ConnState
  conn_canceled : ConnState
  conn_established : ConnState
  conn_disconnected : ConnState

pub record ConnReq : Type 0 where
  pub permanent : Bool
  pub conn : Option ℕ
  pub state : ConnState
  pub retry_count : ℕ

pub record Config : Type 0 where
  pub target_outbound : ℕ
  pub retry_duration : ℕ
  pub has_new_address : Bool

pub record Manager : Type 0 where
  pub reqs : ℕ → ConnReq
  pub pending : List ℕ
  pub conns : List ℕ
  pub failed_attempts : ℕ
  pub stopped : Bool

-- The messages of the channel `requests`, and that `Stop` sets its flag.
pub data Event : Type 0 where
  register_pending : (id : ℕ) → (permanent : Bool) → Event
  handle_connected : (id conn : ℕ) → Event
  handle_disconnected : (id : ℕ) → (retry trigger_reconnect : Bool) → Event
  handle_failed : (id : ℕ) → Event
  stop : Event

-- `conn.Close`, the callbacks, a timer that calls `Connect`, and a goroutine or timer that calls
-- `Remove` and then `NewConnReq`.
pub data Effect : Type 0 where
  close_conn : (conn : ℕ) → Effect
  on_connection : (id conn : ℕ) → Effect
  on_disconnection : (id : ℕ) → Effect
  connect_after : (delay id : ℕ) → Effect
  replace_after : (delay id : ℕ) → Effect

abbrev pub max_failed_attempts : ℕ
max_failed_attempts = 25

abbrev pub max_retry_duration : ℕ
max_retry_duration = 300000000000

abbrev pub fresh_req : Bool → ConnReq
fresh_req p = record { permanent = p; conn = none; state = conn_pending; retry_count = 0 }

unfoldable pub start_state : Manager
start_state = record {
  reqs = λ id. fresh_req false;
  pending = [];
  conns = [];
  failed_attempts = 0;
  stopped = false;
}

unfoldable pub set_req : ℕ → ConnReq → Manager → Manager
set_req id r m = record m { reqs = λ i. if i == id then r else m.reqs i }

-- `updateState`
unfoldable pub update_state : ℕ → ConnState → Manager → Manager
unfolding set_req
update_state id st m = set_req id (record (m.reqs id) { state = st }) m

-- `delete` on a map, and an assignment to a key.
unfoldable pub delete_key : ℕ → List ℕ → List ℕ
delete_key id [] = []
delete_key id (x ∷ xs) = elim (x == id) [ true ↦ delete_key id xs | false ↦ x ∷ delete_key id xs ]

unfoldable pub put_key : ℕ → List ℕ → List ℕ
unfolding delete_key
put_key id xs = id ∷ delete_key id xs

-- `time.Duration(c.retryCount) * cm.cfg.RetryDuration`, capped.
unfoldable pub retry_delay : ℕ → ℕ → ℕ
retry_delay count duration =
    let d = count * duration % u64_mod in
    if ltb max_retry_duration d && ltb d (2 ^ 63) then max_retry_duration else d

-- `handleFailedConn`
unfoldable pub handle_failed_conn : Config → ℕ → Bool → Manager → Manager × List Effect
unfolding set_req retry_delay
handle_failed_conn cfg id trigger m =
    let r = m.reqs id in
    let count = (r.retry_count + 1) % 2 ^ 32 in
    let attempts = (m.failed_attempts + 1) % u64_mod in
    if m.stopped
    then (m, [])
    else if r.permanent || trigger
    then (
      set_req id (record r { retry_count = count }) m,
      connect_after (retry_delay count cfg.retry_duration) id ∷ [],
    )
    else if cfg.has_new_address
    then (
      record m { failed_attempts = attempts },
      replace_after (if leb max_failed_attempts attempts then cfg.retry_duration else 0) id ∷ [],
    )
    else (m, [])

-- The effect of `connReq.conn.Close()`, if there is a connection.
unfoldable pub close_old : Option ℕ → List Effect → List Effect
close_old none fx = fx
close_old (some c) fx = close_conn c ∷ fx

-- The cases of `connHandler`.
unfoldable pub connected : ℕ → ℕ → Manager → Manager × List Effect
unfolding set_req put_key
connected id c m =
    if contains id m.pending
    then (
      set_req id (record (m.reqs id) { state = conn_established; conn = some c; retry_count = 0 })
          (record m {
            conns = put_key id m.conns;
            pending = delete_key id m.pending;
            failed_attempts = 0;
          }),
      on_connection id c ∷ [],
    )
    else (m, close_conn c ∷ [])

-- An established connection is gone: try again if peers are wanted.
unfoldable pub dropped : Config → ℕ → Bool → Bool → Manager → Manager × List Effect
unfolding update_state handle_failed_conn close_old delete_key put_key
dropped cfg id retry trigger m =
    let m' = record m { conns = delete_key id m.conns } in
    let fx = close_old (m.reqs id).conn (on_disconnection id ∷ []) in
    if not retry
    then (update_state id conn_disconnected m', fx)
    else if ltb (length m'.conns % 2 ^ 32) cfg.target_outbound || (m.reqs id).permanent
    then (let (m'', fx') =
          handle_failed_conn cfg id trigger
            (update_state id conn_pending (record m' { pending = put_key id m.pending })) in
        (m'', fx ++ fx'))
    else (m', fx)

unfoldable pub disconnected : Config → ℕ → Bool → Bool → Manager → Manager × List Effect
unfolding dropped update_state delete_key
disconnected cfg id retry trigger m =
    if contains id m.conns
    then dropped cfg id retry trigger m
    else if contains id m.pending
    then (update_state id conn_canceled (record m { pending = delete_key id m.pending }), [])
    else (m, [])

unfoldable pub failed : Config → ℕ → Manager → Manager × List Effect
unfolding update_state handle_failed_conn
failed cfg id m =
    if contains id m.pending
    then handle_failed_conn cfg id false (update_state id conn_failing m)
    else (m, [])

-- One round of `connHandler`.
unfoldable pub handle : Config → Manager → Event → Manager × List Effect
unfolding set_req put_key connected disconnected failed
handle cfg m (register_pending id p) =
    (set_req id (fresh_req p) (record m { pending = put_key id m.pending }), [])
handle cfg m (handle_connected id c) = connected id c m
handle cfg m (handle_disconnected id retry trigger) = disconnected cfg id retry trigger m
handle cfg m (handle_failed id) = failed cfg id m
handle cfg m stop = (record m { stopped = true }, [])

-- What `Connect` sends for a registered request, after dialing it.
unfoldable pub connect : ℕ → Option ℕ → Manager → Option Event
connect id dialed m = if m.stopped then none else elim (m.reqs id).state [
  | conn_canceled ↦ none
  | _ ↦ elim dialed [ none ↦ some (handle_failed id) | some c ↦ some (handle_connected id c) ]
]

-- What `Disconnect` and `Remove` send.
unfoldable pub disconnect : ℕ → Bool → Manager → Option Event
disconnect id trigger m = if m.stopped then none else some (handle_disconnected id true trigger)

unfoldable pub remove_conn : ℕ → Manager → Option Event
remove_conn id m = if m.stopped then none else some (handle_disconnected id false false)
