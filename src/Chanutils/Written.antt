-- ===== src/Chanutils/Written.antt =====
-- What the batch writer of neutrino/chanutils/batch_writer.go gives to `PutItems`.
use nogocommons.Base.{
  ℕ, ◌≤◌, ◌<◌, ◌≡◌, refl, ap, sym, ◌∙◌, subst, arith, true, false, Option, none, some,
}
use nogocommons.Base.{List, [], ◌∷◌, ◌++◌, length, length-append, append_assoc, append-nil, ◌==◌}
use nogocommons.Base.{inl, inr, Bool-cases}
use nogocommons.Chanutils.Queue.{is_empty}
use nogocommons.Chanutils.Batch.{
  Writer, WriterEvent, filter, closed, tick, stop, write_batch, collect, manage_item, manage_one,
  manage_new_items, taken, concat,
}

module _ {A : Type 0} where
  -- No batch is empty or too long.
  abbrev pub AllFit : ℕ → List (List A) → Type 0
  AllFit max_batch [] = Unit
  AllFit max_batch (b ∷ bs) = (0 < length b) × (length b ≤ max_batch) × AllFit max_batch bs

  pub record IsBatched (max_batch : ℕ) (given : List A) (w : Writer A) : Type 0 where
    pub in_order : concat w.put_items ++ w.batch ≡ given
    pub all_fit : AllFit max_batch w.put_items
    pub not_full : length w.batch < max_batch
    pub ticker_runs : w.running ≡ true → 0 < length w.batch → w.ticking ≡ true

  concat-append : (bs : List (List A)) (b : List A) → concat (bs ++ (b ∷ [])) ≡ concat bs ++ b
  concat-append [] b = append-nil b
  concat-append (c ∷ bs) b =
      ap (λ t. c ++ t) (concat-append bs b) ∙ sym (append_assoc c (concat bs) b)

  append-AllFit :
      (max_batch : ℕ) (bs : List (List A)) (b : List A)
      → AllFit max_batch bs
      → 0 < length b
      → length b ≤ max_batch
      → AllFit max_batch (bs ++ (b ∷ []))
  append-AllFit max_batch [] b f h h' = (h, h', tt)
  append-AllFit max_batch (c ∷ bs) b (f, f', r) h h' = (f, f', append-AllFit max_batch bs b r h h')

  is_empty-length : (xs : List A) → is_empty xs ≡ true → length xs ≡ 0
  is_empty-length [] h = refl
  is_empty-length (x ∷ xs) h = cc

  is_full-length : (xs : List A) → is_empty xs ≡ false → 0 < length xs
  is_full-length [] h = cc
  is_full-length (x ∷ xs) h = ground arith

  -- A write leaves no batch, and ends nothing.
  pub write_batch-IsBatched :
      (max_batch : ℕ) (given : List A) (w : Writer A)
      → 0 < max_batch
      → concat w.put_items ++ w.batch ≡ given
      → AllFit max_batch w.put_items
      → length w.batch ≤ max_batch
      → IsBatched max_batch given (write_batch w) × (length (write_batch w).batch ≡ 0)
  unfolding write_batch
  write_batch-IsBatched max_batch given w m o f l = elim (Bool-cases (is_empty w.batch)) [
    | inl t ↦
        let z = is_empty-length w.batch t in
        rw t (
          record {
            in_order = o;
            all_fit = f;
            not_full = omega (arith, z);
            ticker_runs = λ r h. ground (arith, z, h);
          },
          z,
        )
    | inr n ↦ rw n (
      record {
        in_order =
            append-nil (concat (w.put_items ++ (w.batch ∷ [])))
            ∙ concat-append w.put_items w.batch
            ∙ o;
        all_fit = append-AllFit max_batch w.put_items w.batch f (is_full-length w.batch n) l;
        not_full = m;
        ticker_runs = λ r h. ground (arith, h);
      },
      refl,
    )
  ]

  -- An item ends the batch exactly when the batch is full.
  collect-IsBatched :
      (max_batch : ℕ) (given : List A) (x : A) (w : Writer A)
      → IsBatched max_batch given w
      → IsBatched max_batch
          (given ++ (x ∷ []))
          (collect max_batch (record w { batch = w.batch ++ (x ∷ []) }))
  unfolding collect
  collect-IsBatched max_batch given x w i =
      let l = length-append w.batch (x ∷ []) in
      let o =
        sym (append_assoc (concat w.put_items) w.batch (x ∷ []))
        ∙ ap (λ t. t ++ (x ∷ [])) i.in_order in
      elim (Bool-cases (length (w.batch ++ (x ∷ [])) == max_batch)) [
        | inl t ↦
            rw t
              (write_batch-IsBatched max_batch _
                (record w { batch = w.batch ++ (x ∷ []); ticking = false })
                (ground (arith, i.not_full)) o i.all_fit (ground (arith, i.not_full, l))).0
        | inr n ↦ rw n record {
          in_order = o;
          all_fit = i.all_fit;
          not_full = ground (arith, i.not_full, l, n);
          ticker_runs = λ r h. refl;
        }
      ]

  -- Nothing waits in the batch of a goroutine that ends.
  manage_item-IsBatched :
      (max_batch : ℕ) (e : WriterEvent A) (es : List (WriterEvent A)) (w : Writer A)
      → IsBatched max_batch (taken es) w
      → IsBatched max_batch (taken (e ∷ es)) (manage_item max_batch e w)
  unfolding manage_item
  manage_item-IsBatched max_batch (filter x) es w i = collect-IsBatched max_batch _ x w i
  manage_item-IsBatched max_batch closed es w i = record {
    in_order = i.in_order;
    all_fit = i.all_fit;
    not_full = i.not_full;
    ticker_runs = λ r h. ground (arith, r);
  }
  manage_item-IsBatched max_batch tick es w i =
      (write_batch-IsBatched max_batch _ (record w { ticking = false }) (ground (arith, i.not_full))
        i.in_order i.all_fit (ground (arith, i.not_full))).0
  manage_item-IsBatched max_batch stop es w i =
      let b =
        (write_batch-IsBatched max_batch (taken es) w (ground (arith, i.not_full)) i.in_order
          i.all_fit (ground (arith, i.not_full))).0 in
      record {
        in_order = b.in_order;
        all_fit = b.all_fit;
        not_full = b.not_full;
        ticker_runs = λ r h. ground (arith, r);
      }

  abbrev pub AfterItem : ℕ → List A → Option (Writer A) → Type 0
  AfterItem max_batch given none = Unit
  AfterItem max_batch given (some w) = IsBatched max_batch given w

  manage_one-AfterItem :
      (max_batch : ℕ) (e : WriterEvent A) (es : List (WriterEvent A)) (w : Writer A)
      → IsBatched max_batch (taken es) w
      → AfterItem max_batch (taken (e ∷ es)) (manage_one max_batch e w)
  unfolding manage_one
  manage_one-AfterItem max_batch e es w i = elim (Bool-cases w.running) [
    | inl t ↦ simp t (manage_item-IsBatched max_batch e es w i)
    | inr n ↦ rw n tt
  ]

  then-AfterItem :
      (max_batch : ℕ) (e : WriterEvent A) (es : List (WriterEvent A)) (o : Option (Writer A))
      → AfterItem max_batch (taken es) o
      → AfterItem max_batch
          (taken (e ∷ es))
          (elim o [ none ↦ none | some w ↦ manage_one max_batch e w ])
  then-AfterItem max_batch e es none a = tt
  then-AfterItem max_batch e es (some w) a = manage_one-AfterItem max_batch e es w a

  pub manage_new_items-AfterItem :
      (max_batch : ℕ) (es : List (WriterEvent A))
      → 0 < max_batch
      → AfterItem max_batch (taken es) (manage_new_items max_batch es)
  unfolding manage_new_items
  manage_new_items-AfterItem max_batch [] m = record {
    in_order = refl;
    all_fit = tt;
    not_full = m;
    ticker_runs = λ r h. ground (arith, h);
  }
  manage_new_items-AfterItem max_batch (e ∷ es) m =
      then-AfterItem max_batch e es (manage_new_items max_batch es)
        (manage_new_items-AfterItem max_batch es m)

  -- With a positive MaxBatch, after any list of events that `manageNewItems` goes through: the
  -- batches given to PutItems, followed by the batch at hand, are the items that were taken, in
  -- that order; each of the given batches has at least one and at most MaxBatch items; the batch
  -- at hand has fewer; and while the goroutine runs with an item in the batch, the ticker runs.
  pub manage_new_items-IsBatched :
      (max_batch : ℕ) (es : List (WriterEvent A)) (w : Writer A)
      → 0 < max_batch
      → manage_new_items max_batch es ≡ some w
      → IsBatched max_batch (taken es) w
  manage_new_items-IsBatched max_batch es w m e =
      subst (λ o. AfterItem max_batch (taken es) o) e (manage_new_items-AfterItem max_batch es m)
