-- ===== src/ConnMgr/Steps.antt =====
-- One message of connmgr/connmanager.go, on a consistent manager.
use nogocommons.Base.{ℕ, ◌≡◌, refl, Bool, true, false}
use nogocommons.Base.{not, List, ◌∷◌, contains}
use nogocommons.Base.{if◌then◌else◌, inl, inr, Bool-cases}
use nogocommons.ConnMgr.Manager.{
  Config, Manager, Event, register_pending, handle_connected, handle_disconnected, handle_failed,
  stop, Effect, dropped, disconnected, failed, handle,
}
use nogocommons.ConnMgr.Invariant.{
  IsConsistent, connected-IsConsistent, handle_failed_conn-IsConsistent, failing-IsConsistent,
  canceled-IsConsistent, left-IsConsistent, over-IsConsistent, retried-IsConsistent,
  registered-IsConsistent, same-IsConsistent,
}

-- The number of a new registration has not been registered before.
abbrev pub IsFresh : List ℕ → Event → Type 0
IsFresh used (register_pending id p) = contains id used ≡ false
IsFresh used (handle_connected id c) = Unit
IsFresh used (handle_disconnected id retry trigger) = Unit
IsFresh used (handle_failed id) = Unit
IsFresh used stop = Unit

abbrev pub used_after : List ℕ → Event → List ℕ
used_after used (register_pending id p) = id ∷ used
used_after used (handle_connected id c) = used
used_after used (handle_disconnected id retry trigger) = used
used_after used (handle_failed id) = used
used_after used stop = used

if_IsConsistent :
    (b : Bool) (used : List ℕ) (x y : Manager × List Effect)
    → IsConsistent x.0 used
    → IsConsistent y.0 used
    → IsConsistent (if b then x else y).0 used
if_IsConsistent true used x y hx hy = hx
if_IsConsistent false used x y hx hy = hy

module _ (cfg : Config) (m : Manager) (used : List ℕ) (c : IsConsistent m used) where
  dropped-IsConsistent :
      (id : ℕ) (retry trigger : Bool)
      → contains id m.conns ≡ true
      → IsConsistent (dropped cfg id retry trigger m).0 used
  unfolding dropped
  dropped-IsConsistent id retry trigger t =
      if_IsConsistent (not retry) used _ _ (over-IsConsistent m used c id t) (
        if_IsConsistent _ used _ _
          (handle_failed_conn-IsConsistent _ used (retried-IsConsistent m used c id t) cfg id
            trigger)
          (left-IsConsistent m used c id))

  disconnected-IsConsistent :
      (id : ℕ) (retry trigger : Bool) → IsConsistent (disconnected cfg id retry trigger m).0 used
  unfolding disconnected
  disconnected-IsConsistent id retry trigger = elim (Bool-cases (contains id m.conns)) [
    | inl t ↦ rw t (dropped-IsConsistent id retry trigger t)
    | inr n ↦ elim (Bool-cases (contains id m.pending)) [
      | inl t ↦ rw (n, t) (canceled-IsConsistent m used c id t n)
      | inr n' ↦ rw (n, n') c
    ]
  ]

  failed-IsConsistent : (id : ℕ) → IsConsistent (failed cfg id m).0 used
  unfolding failed
  failed-IsConsistent id = elim (Bool-cases (contains id m.pending)) [
    | inl t ↦
        rw t
          (handle_failed_conn-IsConsistent _ used (failing-IsConsistent m used c id t) cfg id false)
    | inr n ↦ rw n c
  ]

  pub handle-IsConsistent :
      (e : Event) → IsFresh used e → IsConsistent (handle cfg m e).0 (used_after used e)
  unfolding handle
  handle-IsConsistent (register_pending id p) f = registered-IsConsistent m used c id p f
  handle-IsConsistent (handle_connected id k) f = connected-IsConsistent m used c id k
  handle-IsConsistent (handle_disconnected id retry trigger) f =
      disconnected-IsConsistent id retry trigger
  handle-IsConsistent (handle_failed id) f = failed-IsConsistent id
  handle-IsConsistent stop f =
      same-IsConsistent m (record m { stopped = true }) used (λ j. refl) refl refl c
