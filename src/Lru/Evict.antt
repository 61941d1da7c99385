-- ===== src/Lru/Evict.antt =====
-- The eviction loop of neutrino/cache/lru/lru.go: it succeeds whenever the room that is needed is not
-- more than the capacity, and drops no more of the least recently used elements than it must.
use nogocommons.Base.{
  ℕ, ap, subst, ◌+◌, ◌-◌, ◌≤◌, ◌<◌, ◌≡◌, refl, sym, ◌∙◌, arith, Bool, true, false, ◌||◌, ◌++◌,
}
use nogocommons.Base.{List, [], ◌∷◌, All-imp, some, ltb}
use nogocommons.Base.{inl, inr, Bool-cases, sub64}
use nogocommons.Lru.Cache.{Interface, Element, Cache, Outcome, done, map_delete}
use nogocommons.Lru.Cache.{evict_from, evict}
use nogocommons.Lru.Recency.{total, trim, find_key, Distinct, view, size_or_zero, Ready}
use nogocommons.Lru.Recency.{is_nonempty, called_on}
use nogocommons.Lru.Elements.{sub64_lem, load-map_delete, find_key-other}

module _ {K V : Type 0} (inter : Interface K V) where
  -- What a successful eviction leaves of the elements `es`, and that it has called the callback on
  -- the others in turn and reports whether there are any, or `evicted`.
  pub record Evicted (k : K) (needed : ℕ) (evicted : Bool) (c : Cache K V) (es : List (Element K V))
      (r : Cache K V × Outcome) : Type 0 where
    pub dropped : List (K × V)
    pub split_is : view es ≡ dropped ++ view r.0.ll
    pub called : r.0.deleted ≡ called_on dropped c.deleted
    pub succeeds : r.1 ≡ done (evicted || is_nonempty dropped)
    pub ready : Ready inter k r.0 r.0.ll
    pub room : r.0.size + needed ≤ c.capacity
    pub capacity_is : r.0.capacity ≡ c.capacity
    pub view_is : view r.0.ll ≡ trim inter (c.capacity - needed) (view es)

  -- The cache after the element at the back has been evicted.
  abbrev without_last : ℕ → Cache K V → Element K V → Cache K V
  without_last n c e = record c {
    size = sub64 c.size n;
    deleted = (e.key, e.value) ∷ c.deleted;
    cache = map_delete inter e.key c.cache;
  }

  without_last-Ready :
      (k : K) (c : Cache K V) (e : Element K V) (es : List (Element K V))
      → Ready inter k c (e ∷ es)
      → Ready inter k (without_last (size_or_zero inter e.value) c e) es
  unfolding find_key total Distinct
  without_last-Ready k c e es r =
      let n = size_or_zero inter e.value in
      let smaller : sub64 c.size n ≡ total inter (view es) =
        sub64_lem c.size n (omega (arith, r.size_is)) (omega (arith, r.fits, r.capacity_fits))
        ∙ omega (arith, r.size_is) in
      record {
        capacity_fits = r.capacity_fits;
        size_is = smaller;
        fits = omega (arith, smaller, r.size_is, r.fits);
        held = r.held.1;
        distinct = r.distinct.1;
        absent = ground (arith, r.absent);
        mapped = λ j m. ground (
          arith,
          load-map_delete inter e.key j c.cache,
          r.mapped j m,
          find_key-other inter e.key j es (All-imp (λ _ h. h.0) es r.distinct.0),
        );
      }

  trim_fits : (room : ℕ) (m : List (K × V)) → total inter m ≤ room → trim inter room m ≡ m
  unfolding trim
  trim_fits room [] h = refl
  trim_fits room (x ∷ m) h = ground (arith, h)

  stop-Evicted :
      (k : K) (needed : ℕ) (evicted : Bool) (c : Cache K V) (es : List (Element K V))
      → Ready inter k c es
      → ltb (sub64 c.capacity c.size) needed ≡ false
      → Evicted k needed evicted c es (record c { ll = es }, done evicted)
  stop-Evicted k needed evicted c es r enough =
      let room : c.size + needed ≤ c.capacity =
        ground (arith, sub64_lem c.capacity c.size r.fits r.capacity_fits, enough, r.fits) in
      record {
        dropped = [];
        split_is = refl;
        called = refl;
        succeeds = ground arith;
        ready = record {
          capacity_fits = r.capacity_fits;
          size_is = r.size_is;
          fits = r.fits;
          held = r.held;
          distinct = r.distinct;
          absent = r.absent;
          mapped = r.mapped;
        };
        room = room;
        capacity_is = refl;
        view_is = sym (trim_fits (c.capacity - needed) (view es) (omega (arith, room, r.size_is)));
      }

  -- One round of the loop.
  evict_from_stop :
      (needed : ℕ) (evicted : Bool) (c : Cache K V) (es : List (Element K V))
      → ltb (sub64 c.capacity c.size) needed ≡ false
      → evict_from inter needed evicted c es ≡ (record c { ll = es }, done evicted)
  unfolding evict_from
  evict_from_stop needed evicted c [] h = ground (arith, h)
  evict_from_stop needed evicted c (e ∷ es) h = ground (arith, h)

  evict_from_go :
      (needed : ℕ) (evicted : Bool) (c : Cache K V) (e : Element K V) (es : List (Element K V))
      {n : ℕ}
      → ltb (sub64 c.capacity c.size) needed ≡ true
      → inter.size_of e.value ≡ some n
      → evict_from inter needed evicted c (e ∷ es)
        ≡ evict_from inter needed true (without_last n c e) es
  unfolding evict_from
  evict_from_go needed evicted c e es h s = ground (arith, h, s)

  trim_drop :
      (room : ℕ) (x : K × V) (m : List (K × V))
      → room < total inter (x ∷ m)
      → trim inter room (x ∷ m) ≡ trim inter room m
  unfolding trim
  trim_drop room x m h = ground (arith, h)

  pub evict_from-Evicted :
      (k : K) (needed : ℕ) (evicted : Bool) (c : Cache K V) (es : List (Element K V))
      → needed ≤ c.capacity
      → Ready inter k c es
      → Evicted k needed evicted c es (evict_from inter needed evicted c es)
  unfolding total
  evict_from-Evicted k needed evicted c [] h r =
      let enough : ltb (sub64 c.capacity c.size) needed ≡ false =
        ground (arith, sub64_lem c.capacity c.size r.fits r.capacity_fits, r.size_is) in
      subst (Evicted k needed evicted c []) (sym (evict_from_stop needed evicted c [] enough))
        (stop-Evicted k needed evicted c [] r enough)
  evict_from-Evicted k needed evicted c (e ∷ es) h r =
      elim (Bool-cases (ltb (sub64 c.capacity c.size) needed)) [
        | inr enough ↦
            subst (Evicted k needed evicted c (e ∷ es))
              (sym (evict_from_stop needed evicted c (e ∷ es) enough))
              (stop-Evicted k needed evicted c (e ∷ es) r enough)
        | inl short ↦
            let next = without_last (size_or_zero inter e.value) c e in
            let rest = evict_from-Evicted k needed true next es h (without_last-Ready k c e es r) in
            let over : c.capacity - needed < total inter (view (e ∷ es)) =
              ground
                (arith, short, sub64_lem c.capacity c.size r.fits r.capacity_fits, r.size_is, h) in
            subst (Evicted k needed evicted c (e ∷ es))
              (sym (evict_from_go needed evicted c e es short r.held.0.sized))
              (record {
                dropped = (e.key, e.value) ∷ rest.dropped;
                split_is = ap (λ m. (e.key, e.value) ∷ m) rest.split_is;
                called = rest.called;
                succeeds = rest.succeeds ∙ ground arith;
                ready = rest.ready;
                room = rest.room;
                capacity_is = rest.capacity_is;
                view_is =
                    rest.view_is
                    ∙ sym (trim_drop (c.capacity - needed) (e.key, e.value) (view es) over);
              })
      ]

  pub evict-Evicted :
      (k : K) (needed : ℕ) (c : Cache K V)
      → needed ≤ c.capacity
      → Ready inter k c c.ll
      → Evicted k needed false c c.ll (evict inter needed c)
  unfolding evict
  evict-Evicted k needed c h r =
      let small : ltb c.capacity needed ≡ false = ground (arith, h) in
      let same : evict inter needed c ≡ evict_from inter needed false c c.ll =
        ground (arith, small) in
      subst (Evicted k needed false c c.ll) (sym same)
        (evict_from-Evicted k needed false c c.ll h r)
