-- ===== src/Chanutils/Stopped.antt =====
-- What the batch writer of neutrino/chanutils/batch_writer.go has written of its queue's items.
use nogocommons.Base.{ℕ, ◌<◌, ◌≡◌, refl, ap, sym, ◌∙◌, arith, Bool, true, false, Option, none, some}
use nogocommons.Base.{List, [], ◌∷◌, ◌++◌, length, append_assoc, if◌then◌else◌}
use nogocommons.Chanutils.Queue.{Queue, QueueEvent, run, sent}
use nogocommons.Chanutils.Runs.{run-IsOrdered}
use nogocommons.Chanutils.Batch.{
  Writer, WriterEvent, stop, manage_item, manage_one, manage_new_items, taken, concat,
}
use nogocommons.Chanutils.Written.{
  AfterItem, write_batch-IsBatched, manage_new_items-AfterItem, manage_new_items-IsBatched,
}

if_some : {B : Type 0} (b : Bool) (x y : B) → (if b then some x else none) ≡ some y → x ≡ y
if_some true x y h = cc
if_some false x y h = cc

module _ {A : Type 0} where
  -- A batch is nowhere but in what was written and in the goroutine, the rest is in the queue.
  pub put_items-sent :
      (size max_batch : ℕ) (es : List (QueueEvent A)) (ws : List (WriterEvent A)) (q : Queue A)
      (w : Writer A)
      → 0 < max_batch
      → run size es ≡ some q
      → manage_new_items max_batch ws ≡ some w
      → taken ws ≡ q.received
      → concat w.put_items ++ (w.batch ++ (q.chan_out ++ q.overflow)) ≡ sent es
  put_items-sent size max_batch es ws q w m e e' t =
      sym (append_assoc (concat w.put_items) w.batch (q.chan_out ++ q.overflow))
      ∙ ap (λ s. s ++ (q.chan_out ++ q.overflow))
          ((manage_new_items-IsBatched max_batch ws w m e').in_order ∙ t)
      ∙ (run-IsOrdered size es q e).in_order

  stop-empty :
      (max_batch : ℕ) (es : List (WriterEvent A)) (w : Writer A) (o : Option (Writer A))
      → 0 < max_batch
      → AfterItem max_batch (taken es) o
      → elim o [ none ↦ none | some v ↦ manage_one max_batch stop v ] ≡ some w
      → length w.batch ≡ 0
  unfolding manage_one manage_item
  stop-empty max_batch es w none m a e = cc
  stop-empty max_batch es w (some v) m a e =
      ap (λ (u : Writer A). length u.batch) (sym (if_some v.running _ w e))
      ∙ (write_batch-IsBatched max_batch (taken es) v m a.in_order a.all_fit
          (ground (arith, a.not_full))).1

  is_nil : (xs : List A) → length xs ≡ 0 → xs ≡ []
  is_nil [] h = refl
  is_nil (x ∷ xs) h = ground (arith, h)

  -- With a positive MaxBatch, and a writer that took what its queue gave out and then was
  -- stopped: the batches given to PutItems, one behind the other, then the buffer and the
  -- overflow of the queue, are what was sent to the queue, in that order. What is in the queue
  -- at the stop is in no batch.
  pub put_items-stop :
      (size max_batch : ℕ) (es : List (QueueEvent A)) (ws : List (WriterEvent A)) (q : Queue A)
      (w : Writer A)
      → 0 < max_batch
      → run size es ≡ some q
      → manage_new_items max_batch (stop ∷ ws) ≡ some w
      → taken ws ≡ q.received
      → concat w.put_items ++ (q.chan_out ++ q.overflow) ≡ sent es
  unfolding manage_new_items
  put_items-stop size max_batch es ws q w m e e' t =
      let b = is_nil w.batch (
        stop-empty max_batch ws w (manage_new_items max_batch ws) m
          (manage_new_items-AfterItem max_batch ws m) e') in
      ap (λ c. concat w.put_items ++ (c ++ (q.chan_out ++ q.overflow))) (sym b)
      ∙ put_items-sent size max_batch es (stop ∷ ws) q w m e e' t
