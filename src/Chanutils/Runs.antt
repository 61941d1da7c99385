-- ===== src/Chanutils/Runs.antt =====
-- Runs of the queue of neutrino/chanutils/queue.go.
use nogocommons.Base.{ℕ, ◌≡◌, refl, arith, Option, none, some, List, [], ◌∷◌}
use nogocommons.Base.{subst}
use nogocommons.Chanutils.Queue.{
  Phase, reading, emptying, closed_out, stopped, Queue, QueueEvent, push, forward, pop, close_in,
  finish, quit, step, run, sent, when_reading, when_emptying, when_running,
}
use nogocommons.Chanutils.Order.{
  IsOrdered, After, push_item-IsOrdered, forward_front-After, pop_out-After, phase-IsOrdered,
  finish-After,
}

module _ {A : Type 0} where
  reading-After :
      (size : ℕ) (given : List A) (p : Phase) (o : Option (Queue A))
      → (p ≡ reading → After size given o)
      → After size given (when_reading p o)
  reading-After size given reading o h = h refl
  reading-After size given emptying o h = tt
  reading-After size given closed_out o h = tt
  reading-After size given stopped o h = tt

  emptying-After :
      (size : ℕ) (given : List A) (p : Phase) (o : Option (Queue A))
      → After size given o
      → After size given (when_emptying p o)
  emptying-After size given reading o h = tt
  emptying-After size given emptying o h = h
  emptying-After size given closed_out o h = tt
  emptying-After size given stopped o h = tt

  running-After :
      (size : ℕ) (given : List A) (p : Phase) (o : Option (Queue A))
      → After size given o
      → After size given (when_running p o)
  running-After size given reading o h = h
  running-After size given emptying o h = h
  running-After size given closed_out o h = tt
  running-After size given stopped o h = tt

  pub step-After :
      (size : ℕ) (e : QueueEvent A) (es : List (QueueEvent A)) (q : Queue A)
      → IsOrdered size (sent es) q
      → After size (sent (e ∷ es)) (step size e q)
  unfolding step
  step-After size (push x waiting) es q i =
      reading-After size _ q.phase _ (λ p. push_item-IsOrdered size x waiting _ q p i)
  step-After size (forward waiting) es q i =
      running-After size _ q.phase _
        (forward_front-After size waiting _ q q.overflow refl i.closed_empty i)
  step-After size pop es q i = pop_out-After size _ q q.chan_out refl i
  step-After size close_in es q i =
      reading-After size _ q.phase _
        (λ p. phase-IsOrdered size _ q emptying (λ h. ground (arith, h)) i)
  step-After size finish es q i = emptying-After size _ q.phase _ (finish-After size _ q i)
  step-After size quit es q i =
      running-After size _ q.phase _ (phase-IsOrdered size _ q stopped (λ h. ground (arith, h)) i)

  then-After :
      (size : ℕ) (e : QueueEvent A) (es : List (QueueEvent A)) (o : Option (Queue A))
      → After size (sent es) o
      → After size (sent (e ∷ es)) (elim o [ none ↦ none | some q ↦ step size e q ])
  then-After size e es none a = tt
  then-After size e es (some q) a = step-After size e es q a

  run-After : (size : ℕ) (es : List (QueueEvent A)) → After size (sent es) (run size es)
  unfolding run
  run-After size [] = record { in_order = refl; out_fits = ground arith; closed_empty = λ h. refl }
  run-After size (e ∷ es) = then-After size e es (run size es) (run-After size es)

  -- After any list of events that the goroutine of ConcurrentQueue and its clients can go
  -- through: what the receivers got, then the buffer of the output channel, then the overflow,
  -- is what was sent, in that order; the buffer holds no more items than it has room for; and
  -- once the output channel is closed, the overflow is empty.
  pub run-IsOrdered :
      (size : ℕ) (es : List (QueueEvent A)) (q : Queue A)
      → run size es ≡ some q
      → IsOrdered size (sent es) q
  run-IsOrdered size es q e = subst (λ o. After size (sent es) o) e (run-After size es)
