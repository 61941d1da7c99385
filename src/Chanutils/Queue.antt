-- ===== src/Chanutils/Queue.antt =====
-- neutrino/chanutils/queue.go. The goroutine of `start` owns the overflow list, and the output channel
-- has a buffer; what the clients send and receive is a list of events, in the order in which the
-- channels let them happen. An event that the goroutine does not wait for is `none`. Where a receiver
-- waits at an empty buffer, an item goes straight to it, as it also does without a buffer.
use nogocommons.Base.{
  ℕ, Bool, true, false, ◌&&◌, Option, none, some, List, [], ◌∷◌, ◌++◌, length, ltb,
}
use nogocommons.Base.{if◌then◌else◌}

-- The loop `readLoop`, the loop that empties the overflow, and the two ends of the goroutine.
pub data Phase : Type 0 where
  reading : Phase
  emptying : Phase
  closed_out : Phase
  stopped : Phase

-- `received` is what the channel gave to its receiver so far.
pub record Queue (A : Type 0) : Type 0 where
  pub phase : Phase
  pub overflow : List A
  pub chan_out : List A
  pub received : List A

pub data QueueEvent (A : Type 0) : Type 0 where
  push : (item : A) (waiting : Bool) → QueueEvent A
  forward : (waiting : Bool) → QueueEvent A
  pop : QueueEvent A
  close_in : QueueEvent A
  finish : QueueEvent A
  quit : QueueEvent A

module _ {A : Type 0} where
  abbrev pub new_queue : Queue A
  new_queue = record { phase = reading; overflow = []; chan_out = []; received = [] }

  abbrev pub is_empty : List A → Bool
  is_empty [] = true
  is_empty (x ∷ xs) = false

  -- A send on the output channel that does not wait, if it is possible now.
  unfoldable pub send : ℕ → A → Bool → Queue A → Option (Queue A)
  send size x waiting q =
      if waiting && is_empty q.chan_out
      then some (record q { received = q.received ++ (x ∷ []) })
      else if ltb (length q.chan_out) size
      then some (record q { chan_out = q.chan_out ++ (x ∷ []) })
      else none

  -- The `default` of a send: the item goes to the overflow.
  unfoldable pub sent_or_kept : A → Queue A → Option (Queue A) → Queue A
  sent_or_kept x q none = record q { overflow = q.overflow ++ (x ∷ []) }
  sent_or_kept x q (some q') = q'

  -- An item that comes in.
  unfoldable pub push_item : ℕ → A → Bool → Queue A → Queue A
  unfolding send sent_or_kept
  push_item size x waiting q =
      if is_empty q.overflow
      then sent_or_kept x q (send size x waiting q)
      else record q { overflow = q.overflow ++ (x ∷ []) }

  -- The front of the overflow goes out.
  unfoldable pub forward_front : ℕ → Bool → Queue A → List A → Option (Queue A)
  unfolding send
  forward_front size waiting q [] = none
  forward_front size waiting q (x ∷ rest) = send size x waiting (record q { overflow = rest })

  unfoldable pub pop_out : Queue A → List A → Option (Queue A)
  pop_out q [] = none
  pop_out q (x ∷ rest) = some (record q { chan_out = rest; received = q.received ++ (x ∷ []) })

  -- What the goroutine does in its loops only.
  abbrev pub when_reading : Phase → Option (Queue A) → Option (Queue A)
  when_reading reading o = o
  when_reading emptying o = none
  when_reading closed_out o = none
  when_reading stopped o = none

  abbrev pub when_emptying : Phase → Option (Queue A) → Option (Queue A)
  when_emptying reading o = none
  when_emptying emptying o = o
  when_emptying closed_out o = none
  when_emptying stopped o = none

  abbrev pub when_running : Phase → Option (Queue A) → Option (Queue A)
  when_running reading o = o
  when_running emptying o = o
  when_running closed_out o = none
  when_running stopped o = none

  -- The end of the emptying closes the output channel.
  unfoldable pub close_queue : Queue A → Option (Queue A)
  close_queue q = if is_empty q.overflow then some (record q { phase = closed_out }) else none

  -- One event. `close_in` closes the input channel, `finish` is the end of the emptying.
  unfoldable pub step : ℕ → QueueEvent A → Queue A → Option (Queue A)
  unfolding push_item forward_front pop_out close_queue
  step size (push x waiting) q = when_reading q.phase (some (push_item size x waiting q))
  step size (forward waiting) q = when_running q.phase (forward_front size waiting q q.overflow)
  step size pop q = pop_out q q.chan_out
  step size close_in q = when_reading q.phase (some (record q { phase = emptying }))
  step size finish q = when_emptying q.phase (close_queue q)
  step size quit q = when_running q.phase (some (record q { phase = stopped }))

  -- The events, the last one first.
  unfoldable pub run : ℕ → List (QueueEvent A) → Option (Queue A)
  unfolding step
  run size [] = some new_queue
  run size (e ∷ es) = elim (run size es) [ none ↦ none | some q ↦ step size e q ]

  -- What was sent into the queue.
  abbrev pub sent : List (QueueEvent A) → List A
  sent [] = []
  sent (push x waiting ∷ es) = sent es ++ (x ∷ [])
  sent (forward waiting ∷ es) = sent es
  sent (pop ∷ es) = sent es
  sent (close_in ∷ es) = sent es
  sent (finish ∷ es) = sent es
  sent (quit ∷ es) = sent es
