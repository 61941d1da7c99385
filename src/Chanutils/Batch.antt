-- ===== src/Chanutils/Batch.antt =====
-- neutrino/chanutils/batch_writer.go: `manageNewItems`, the goroutine that collects the items of a queue
-- and gives them to `PutItems` in batches. Its state is what the goroutine keeps, with the calls of
-- `PutItems` so far: an error of a call is only logged, so no call has another effect here. A tick is
-- let in at any time, also one that the ticker sent before it was stopped.
use nogocommons.Base.{ℕ, Bool, true, false, Option, none, some, List, [], ◌∷◌, ◌++◌, length, ◌==◌}
use nogocommons.Base.{if◌then◌else◌}
use nogocommons.Chanutils.Queue.{is_empty}

pub record Writer (A : Type 0) : Type 0 where
  pub running : Bool
  pub batch : List A
  pub ticking : Bool
  pub put_items : List (List A)

-- The cases of the `select`: an item of the queue, the closed queue, a tick, and the end.
pub data WriterEvent (A : Type 0) : Type 0 where
  filter : (item : A) → WriterEvent A
  closed : WriterEvent A
  tick : WriterEvent A
  stop : WriterEvent A

module _ {A : Type 0} where
  abbrev pub new_writer : Writer A
  new_writer = record { running = true; batch = []; ticking = false; put_items = [] }

  unfoldable pub write_batch : Writer A → Writer A
  write_batch w =
      if is_empty w.batch
      then w
      else record w { batch = []; put_items = w.put_items ++ (w.batch ∷ []) }

  -- The `switch` on the length of the batch.
  unfoldable pub collect : ℕ → Writer A → Writer A
  unfolding write_batch
  collect max_batch w =
      if length w.batch == max_batch
      then write_batch (record w { ticking = false })
      else record w { ticking = true }

  unfoldable pub manage_item : ℕ → WriterEvent A → Writer A → Writer A
  unfolding write_batch collect
  manage_item max_batch (filter x) w = collect max_batch (record w { batch = w.batch ++ (x ∷ []) })
  manage_item max_batch closed w = record w { running = false; ticking = false }
  manage_item max_batch tick w = write_batch (record w { ticking = false })
  manage_item max_batch stop w = record (write_batch w) { running = false; ticking = false }

  -- The goroutine takes no event after its end.
  unfoldable pub manage_one : ℕ → WriterEvent A → Writer A → Option (Writer A)
  unfolding manage_item
  manage_one max_batch e w = if w.running then some (manage_item max_batch e w) else none

  -- The events, the last one first.
  unfoldable pub manage_new_items : ℕ → List (WriterEvent A) → Option (Writer A)
  unfolding manage_one
  manage_new_items max_batch [] = some new_writer
  manage_new_items max_batch (e ∷ es) = elim (manage_new_items max_batch es) [
    | none ↦ none
    | some w ↦ manage_one max_batch e w
  ]

  -- The items that the goroutine took.
  abbrev pub taken : List (WriterEvent A) → List A
  taken [] = []
  taken (filter x ∷ es) = taken es ++ (x ∷ [])
  taken (closed ∷ es) = taken es
  taken (tick ∷ es) = taken es
  taken (stop ∷ es) = taken es

  abbrev pub concat : List (List A) → List A
  concat [] = []
  concat (b ∷ bs) = b ++ concat bs
