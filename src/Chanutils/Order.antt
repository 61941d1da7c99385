-- ===== src/Chanutils/Order.antt =====
-- The queue of neutrino/chanutils/queue.go gives out what it was sent, in that order.
use nogocommons.Base.{ℕ, ◌≤◌, ◌≡◌, refl, ap, sym, ◌∙◌, arith, Bool, true, false, ◌&&◌}
use nogocommons.Base.{
  Option, none, some, List, [], ◌∷◌, ◌++◌, length, length-append, append_assoc, append-nil,
}
use nogocommons.Base.{ltb, if◌then◌else◌, inl, inr, Bool-cases}
use nogocommons.Chanutils.Queue.{
  Phase, reading, closed_out, Queue, is_empty, send, sent_or_kept, push_item, forward_front,
  pop_out, close_queue,
}

module _ {A : Type 0} where
  -- All that was sent, where it stands now.
  abbrev pub held : Queue A → List A
  held q = q.received ++ (q.chan_out ++ q.overflow)

  pub record IsOrdered (size : ℕ) (given : List A) (q : Queue A) : Type 0 where
    pub in_order : held q ≡ given
    pub out_fits : length q.chan_out ≤ size
    pub closed_empty : q.phase ≡ closed_out → q.overflow ≡ []

  abbrev pub After : ℕ → List A → Option (Queue A) → Type 0
  After size given none = Unit
  After size given (some q) = IsOrdered size given q

  -- A send puts the item behind what went out before it.
  abbrev Sends : ℕ → A → Queue A → Option (Queue A) → Type 0
  Sends size x q none = Unit
  Sends size x q (some q') =
      (q'.received ++ q'.chan_out ≡ (q.received ++ q.chan_out) ++ (x ∷ []))
      × (length q'.chan_out ≤ size)
      × (q'.overflow ≡ q.overflow)
      × (q'.phase ≡ q.phase)

  is_empty_lem : (xs : List A) → is_empty xs ≡ true → xs ≡ []
  is_empty_lem [] h = refl
  is_empty_lem (x ∷ xs) h = cc

  if_Sends :
      (b : Bool) (size : ℕ) (x : A) (q : Queue A) (y z : Option (Queue A))
      → (b ≡ true → Sends size x q y)
      → (b ≡ false → Sends size x q z)
      → Sends size x q (if b then y else z)
  if_Sends true size x q y z hy hz = hy refl
  if_Sends false size x q y z hy hz = hz refl

  send-Sends :
      (size : ℕ) (x : A) (waiting : Bool) (q : Queue A)
      → length q.chan_out ≤ size
      → Sends size x q (send size x waiting q)
  unfolding send
  send-Sends size x waiting q h =
      if_Sends (waiting && is_empty q.chan_out) size x q _ _
        (λ t.
          let e = is_empty_lem q.chan_out (ground (arith, t)) in
          (
            ap (λ o. (q.received ++ (x ∷ [])) ++ o) e
                ∙ append-nil (q.received ++ (x ∷ []))
                ∙ ap (λ o. o ++ (x ∷ [])) (sym (append-nil q.received))
                ∙ ap (λ o. (q.received ++ o) ++ (x ∷ [])) (sym e),
            h,
            refl,
            refl,
          ))
        (λ n.
          if_Sends (ltb (length q.chan_out) size) size x q _ _
            (λ t. (
              sym (append_assoc q.received q.chan_out (x ∷ [])),
              ground (arith, t, length-append q.chan_out (x ∷ [])),
              refl,
              refl,
            ))
            (λ n'. tt))

  -- The item goes in between what is out and the rest of the overflow.
  sent_before :
      (size : ℕ) (given rest : List A) (x : A) (q : Queue A) (o : Option (Queue A))
      → Sends size x q o
      → (q.received ++ q.chan_out) ++ (x ∷ rest) ≡ given
      → q.overflow ≡ rest
      → (q.phase ≡ closed_out → rest ≡ [])
      → After size given o
  sent_before size given rest x q none s e r c = tt
  sent_before size given rest x q (some q') (a, b, o, p) e r c = record {
    in_order =
        sym (append_assoc q'.received q'.chan_out q'.overflow)
        ∙ ap (λ t. t ++ q'.overflow) a
        ∙ ap (λ t. ((q.received ++ q.chan_out) ++ (x ∷ [])) ++ t) (o ∙ r)
        ∙ append_assoc (q.received ++ q.chan_out) (x ∷ []) rest
        ∙ e;
    out_fits = b;
    closed_empty = λ h. o ∙ r ∙ c (sym p ∙ h);
  }

  pub forward_front-After :
      (size : ℕ) (waiting : Bool) (given : List A) (q : Queue A) (xs : List A)
      → q.overflow ≡ xs
      → ((q.phase ≡ closed_out) → xs ≡ [])
      → IsOrdered size given q
      → After size given (forward_front size waiting q xs)
  unfolding forward_front
  forward_front-After size waiting given q [] e c i = tt
  forward_front-After size waiting given q (x ∷ rest) e c i =
      sent_before size given rest x (record q { overflow = rest }) _
        (send-Sends size x waiting (record q { overflow = rest }) i.out_fits)
        (append_assoc q.received q.chan_out (x ∷ rest)
          ∙ ap (λ o. q.received ++ (q.chan_out ++ o)) (sym e)
          ∙ i.in_order)
        refl (λ h. ground (arith, c h))

  -- The item goes behind the overflow.
  kept-IsOrdered :
      (size : ℕ) (x : A) (given : List A) (q : Queue A)
      → q.phase ≡ reading
      → IsOrdered size given q
      → IsOrdered size (given ++ (x ∷ [])) (record q { overflow = q.overflow ++ (x ∷ []) })
  kept-IsOrdered size x given q p i = record {
    in_order =
        ap (λ t. q.received ++ t) (sym (append_assoc q.chan_out q.overflow (x ∷ [])))
        ∙ sym (append_assoc q.received (q.chan_out ++ q.overflow) (x ∷ []))
        ∙ ap (λ t. t ++ (x ∷ [])) i.in_order;
    out_fits = i.out_fits;
    closed_empty = λ h. ground (arith, h, p);
  }

  sent_or_kept-IsOrdered :
      (size : ℕ) (x : A) (given : List A) (q : Queue A) (o : Option (Queue A))
      → q.phase ≡ reading
      → q.overflow ≡ []
      → IsOrdered size given q
      → Sends size x q o
      → IsOrdered size (given ++ (x ∷ [])) (sent_or_kept x q o)
  unfolding sent_or_kept
  sent_or_kept-IsOrdered size x given q none p e i s = kept-IsOrdered size x given q p i
  sent_or_kept-IsOrdered size x given q (some q') p e i s =
      sent_before size (given ++ (x ∷ [])) [] x q (some q') s
        (ap (λ t. t ++ (x ∷ []))
          (sym (append-nil (q.received ++ q.chan_out))
            ∙ append_assoc q.received q.chan_out []
            ∙ ap (λ o. q.received ++ (q.chan_out ++ o)) (sym e)
            ∙ i.in_order))
        e (λ h. refl)

  pub push_item-IsOrdered :
      (size : ℕ) (x : A) (waiting : Bool) (given : List A) (q : Queue A)
      → q.phase ≡ reading
      → IsOrdered size given q
      → IsOrdered size (given ++ (x ∷ [])) (push_item size x waiting q)
  unfolding push_item
  push_item-IsOrdered size x waiting given q p i = elim (Bool-cases (is_empty q.overflow)) [
    | inl t ↦ rw t (
        sent_or_kept-IsOrdered size x given q _ p (is_empty_lem q.overflow t) i
          (send-Sends size x waiting q i.out_fits))
    | inr n ↦ rw n (kept-IsOrdered size x given q p i)
  ]

  pub pop_out-After :
      (size : ℕ) (given : List A) (q : Queue A) (xs : List A)
      → q.chan_out ≡ xs
      → IsOrdered size given q
      → After size given (pop_out q xs)
  unfolding pop_out
  pop_out-After size given q [] e i = tt
  pop_out-After size given q (x ∷ rest) e i = record {
    in_order =
        append_assoc q.received (x ∷ []) (rest ++ q.overflow)
        ∙ ap (λ o. q.received ++ (o ++ q.overflow)) (sym e)
        ∙ i.in_order;
    out_fits = ground (arith, i.out_fits, ap length e);
    closed_empty = i.closed_empty;
  }

  -- The phase changes, and closes the channel only if the overflow is empty.
  pub phase-IsOrdered :
      (size : ℕ) (given : List A) (q : Queue A) (p : Phase)
      → (p ≡ closed_out → q.overflow ≡ [])
      → IsOrdered size given q
      → IsOrdered size given (record q { phase = p })
  phase-IsOrdered size given q p c i = record {
    in_order = i.in_order;
    out_fits = i.out_fits;
    closed_empty = c;
  }

  pub finish-After :
      (size : ℕ) (given : List A) (q : Queue A)
      → IsOrdered size given q
      → After size given (close_queue q)
  unfolding close_queue
  finish-After size given q i = elim (Bool-cases (is_empty q.overflow)) [
    | inl t ↦ rw t (phase-IsOrdered size given q closed_out (λ h. is_empty_lem q.overflow t) i)
    | inr n ↦ rw n tt
  ]
