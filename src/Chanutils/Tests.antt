-- ===== src/Chanutils/Tests.antt =====
-- Runs of neutrino/chanutils, with a buffer of two items and batches of two.
use nogocommons.Base.{ℕ, ◌≡◌, refl, arith, true, false, some, List, [], ◌∷◌, ◌++◌}
use nogocommons.Chanutils.Queue.{
  reading, Queue, QueueEvent, push, forward, pop, send, sent_or_kept, push_item, forward_front,
  pop_out, close_queue, step, run, sent,
}
use nogocommons.Chanutils.Order.{IsOrdered}
use nogocommons.Chanutils.Runs.{run-IsOrdered}
use nogocommons.Chanutils.Batch.{
  Writer, WriterEvent, filter, closed, stop, write_batch, collect, manage_item, manage_one,
  manage_new_items, taken, concat,
}
use nogocommons.Chanutils.Written.{IsBatched, manage_new_items-IsBatched}
use nogocommons.Chanutils.Stopped.{put_items-stop}

-- Five items, of which three go out and one stays in the overflow.
abbrev some_events : List (QueueEvent ℕ)
some_events =
    pop
    ∷ forward false
    ∷ pop
    ∷ push 5 false
    ∷ push 4 false
    ∷ push 3 false
    ∷ push 2 false
    ∷ push 1 true
    ∷ []

abbrev some_queue : Queue ℕ
some_queue = record {
  phase = reading;
  overflow = 5 ∷ [];
  chan_out = 4 ∷ [];
  received = 1 ∷ 2 ∷ 3 ∷ [];
}

run-some_events : run 2 some_events ≡ some some_queue
unfolding run step push_item forward_front pop_out send sent_or_kept close_queue
run-some_events = refl

run-IsOrdered_example : IsOrdered 2 (sent some_events) some_queue
run-IsOrdered_example = run-IsOrdered 2 some_events some_queue run-some_events

abbrev writer_events : List (WriterEvent ℕ)
writer_events = filter 3 ∷ filter 2 ∷ filter 1 ∷ []

abbrev some_writer : Writer ℕ
some_writer = record {
  running = true;
  batch = 3 ∷ [];
  ticking = true;
  put_items = (1 ∷ 2 ∷ []) ∷ [];
}

abbrev ended_writer : Writer ℕ
ended_writer = record {
  running = false;
  batch = [];
  ticking = false;
  put_items = (1 ∷ 2 ∷ []) ∷ (3 ∷ []) ∷ [];
}

writer_run : manage_new_items 2 writer_events ≡ some some_writer
unfolding manage_new_items manage_one manage_item collect write_batch
writer_run = refl

stop_run : manage_new_items 2 (stop ∷ writer_events) ≡ some ended_writer
unfolding manage_new_items manage_one manage_item collect write_batch
stop_run = refl

manage_new_items-IsBatched_example : IsBatched 2 (taken writer_events) some_writer
manage_new_items-IsBatched_example =
    manage_new_items-IsBatched 2 writer_events some_writer (omega arith) writer_run

put_items-stop_example :
    concat ended_writer.put_items ++ (some_queue.chan_out ++ some_queue.overflow) ≡ sent some_events
put_items-stop_example =
    put_items-stop 2 2 some_events writer_events some_queue ended_writer (omega arith)
      run-some_events stop_run refl

-- A closed queue ends the goroutine with its batch unwritten.
abbrev closed_writer : Writer ℕ
closed_writer = record {
  running = false;
  batch = 3 ∷ [];
  ticking = false;
  put_items = (1 ∷ 2 ∷ []) ∷ [];
}

closed_unwritten : manage_new_items 2 (closed ∷ writer_events) ≡ some closed_writer
unfolding manage_new_items manage_one manage_item collect write_batch
closed_unwritten = refl
