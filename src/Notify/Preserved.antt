-- ===== src/Notify/Preserved.antt =====
-- pool.go and client.go, NotifyClose and NotifyBlocked: every step keeps each connection's order.
use mathlib.Core.Path.{subst}
use mathlib.Core.List.{append_assoc}
use eamqp.Base.{
  ℕ, zero, suc, ◌≡◌, refl, sym, ◌∙◌, ap, inl, inr, Bool, true, false, Option, none, some, List, [],
  ◌∷◌, ◌++◌, map, length, get_elem?, set, get_elem?-set, ltb, arith, Bool-cases,
}
use eamqp.Notify.{
  Place, starting, reading, holding, finished, Source, Fan, Event, emits, ends, forwards, joins,
  takes, all_finished, is_finished, emit, finish, read, send, forward, forward_at, emit_unless,
  hear, register, leave_if, take_from, happen, run,
}
use eamqp.Notify.Order.{from, map-append, held, Good, IsGood, set_one, sent-Good, sent-Good_other}

module _ {E F : Type 0} (wrap : E → F) where
  heard-Good :
      (i : ℕ) (e : E) (src : Source E) (out : List (ℕ × F)) (closed : Bool)
      → src.ended ≡ false
      → Good wrap i src out closed
      → Good wrap i
          (record src { pending = src.pending ++ e ∷ []; emitted = src.emitted ++ e ∷ [] })
          out
          closed
  heard-Good i e src out closed more old =
      let a = from i out in
      let h = held wrap src.place in
      let p = map wrap src.pending in
      record {
        order =
            ap (λ t. a ++ (h ++ t)) (map-append wrap src.pending (e ∷ []))
            ∙ ap (λ t. a ++ t) (sym (append_assoc h p (wrap e ∷ [])))
            ∙ sym (append_assoc a (h ++ p) (wrap e ∷ []))
            ∙ ap (λ t. t ++ wrap e ∷ []) old.order
            ∙ sym (map-append wrap src.emitted (e ∷ []));
        drained = λ f. let over = (old.drained f).1 in ground arith;
        shut = old.shut;
      }

  hear-Good :
      (k : Place E) (i : ℕ) (e : E) (src : Source E) (out : List (ℕ × F)) (closed : Bool)
      → src.ended ≡ false
      → Good wrap i src out closed
      → Good wrap i (hear wrap k e src) out closed
  unfolding hear
  hear-Good starting i e src out closed more old = record {
    order = old.order;
    drained = old.drained;
    shut = old.shut;
  }
  hear-Good reading i e src out closed more old = heard-Good i e src out closed more old
  hear-Good (holding x) i e src out closed more old = heard-Good i e src out closed more old
  hear-Good finished i e src out closed more old = heard-Good i e src out closed more old

  emit_unless-IsGood :
      (b : Bool) (i : ℕ) (e : E) (src : Source E) (s : Fan E F)
      → src.ended ≡ b
      → get_elem? s.sources i ≡ some src
      → IsGood wrap s
      → IsGood wrap (emit_unless wrap b i e src s)
  unfolding emit_unless
  emit_unless-IsGood true i e src s more at g = g
  emit_unless-IsGood false i e src s more at g =
      set_one wrap i (hear wrap src.place e src) s g
        (hear-Good src.place i e src (s.received ++ s.buffer) s.closed more (g i src at))

  emit-IsGood :
      (i : ℕ) (e : E) (o : Option (Source E)) (s : Fan E F)
      → get_elem? s.sources i ≡ o
      → IsGood wrap s
      → IsGood wrap (emit wrap i e o s)
  unfolding emit
  emit-IsGood i e none s at g = g
  emit-IsGood i e (some src) s at g = emit_unless-IsGood src.ended i e src s refl at g

  finish-IsGood :
      (i : ℕ) (o : Option (Source E)) (s : Fan E F)
      → get_elem? s.sources i ≡ o
      → IsGood wrap s
      → IsGood wrap (finish wrap i o s)
  unfolding finish
  finish-IsGood i none s at g = g
  finish-IsGood i (some src) s at g =
      let old = g i src at in
      set_one wrap i (record src { ended = true }) s g
        (record { order = old.order; drained = λ f. ((old.drained f).0, refl); shut = old.shut })

  leave_if-IsGood :
      (b : Bool) (i : ℕ) (src : Source E) (s : Fan E F)
      → src.ended ≡ b
      → src.place ≡ reading
      → src.pending ≡ []
      → get_elem? s.sources i ≡ some src
      → IsGood wrap s
      → IsGood wrap (leave_if wrap b i src s)
  unfolding leave_if
  leave_if-IsGood false i src s over here empty at g = g
  leave_if-IsGood true i src s over here empty at g =
      let old = g i src at in
      set_one wrap i (record src { place = finished }) s g
        (record {
          order =
              ap (λ h. from i (s.received ++ s.buffer) ++ (h ++ map wrap src.pending))
                (sym (ap (held wrap) here))
              ∙ old.order;
          drained = λ f. (empty, over);
          shut = λ c. refl;
        })

  read-IsGood :
      (i : ℕ) (q : List E) (src : Source E) (s : Fan E F)
      → src.pending ≡ q
      → src.place ≡ reading
      → get_elem? s.sources i ≡ some src
      → IsGood wrap s
      → IsGood wrap (read wrap i q src s)
  unfolding read
  read-IsGood i [] src s q here at g = leave_if-IsGood src.ended i src s refl here q at g
  read-IsGood i (e ∷ rest) src s q here at g =
      let old = g i src at in
      set_one wrap i (record src { pending = rest; place = holding e }) s g
        (record {
          order =
              ap (λ h. from i (s.received ++ s.buffer) ++ h)
                (sym (ap (λ t. t ++ map wrap src.pending) (ap (held wrap) here) ∙ ap (map wrap) q))
              ∙ old.order;
          drained = λ f. ground arith;
          shut = λ c. let f = old.shut c in ground arith;
        })

  sent-IsGood :
      (i : ℕ) (e : E) (src : Source E) (s : Fan E F)
      → src.place ≡ holding e
      → get_elem? s.sources i ≡ some src
      → IsGood wrap s
      → IsGood wrap (record s {
        sources = set s.sources i (record src { place = reading });
        buffer = s.buffer ++ (i, wrap e) ∷ [];
      })
  sent-IsGood i e src s here at g = λ j x there.
      subst (λ l. Good wrap j x l s.closed) (append_assoc s.received s.buffer ((i, wrap e) ∷ []))
        (elim (get_elem?-set s.sources i (record src { place = reading }) j x there) [
          | inl (same, v) ↦
              rw (← same, ← v)
                (sent-Good wrap i e src (s.received ++ s.buffer) s.closed here (g i src at))
          | inr (n, old) ↦
              sent-Good_other wrap i j e x (s.received ++ s.buffer) s.closed n (g j x old)
        ])

  send-IsGood :
      (i : ℕ) (e : E) (src : Source E) (s : Fan E F)
      → src.place ≡ holding e
      → get_elem? s.sources i ≡ some src
      → IsGood wrap s
      → IsGood wrap (send wrap i e src s)
  unfolding send
  send-IsGood i e src s here at g = elim (Bool-cases (ltb (length s.buffer) s.capacity)) [
    | inl room ↦ simp room (sent-IsGood i e src s here at g)
    | inr full ↦ simp full g
  ]

  register-IsGood :
      (i : ℕ) (src : Source E) (s : Fan E F)
      → src.place ≡ starting
      → get_elem? s.sources i ≡ some src
      → IsGood wrap s
      → IsGood wrap (register wrap i src s)
  unfolding register
  register-IsGood i src s here at g =
      let old = g i src at in
      set_one wrap i (record src { place = reading }) s g
        (record {
          order =
              ap (λ h. from i (s.received ++ s.buffer) ++ (h ++ map wrap src.pending))
                (sym (ap (held wrap) here))
              ∙ old.order;
          drained = λ f. ground arith;
          shut = λ c. let f = old.shut c in ground arith;
        })

  forward-IsGood :
      (i : ℕ) (k : Place E) (src : Source E) (s : Fan E F)
      → src.place ≡ k
      → get_elem? s.sources i ≡ some src
      → IsGood wrap s
      → IsGood wrap (forward wrap i k src s)
  unfolding forward
  forward-IsGood i starting src s here at g = register-IsGood i src s here at g
  forward-IsGood i reading src s here at g = read-IsGood i src.pending src s refl here at g
  forward-IsGood i (holding e) src s here at g = send-IsGood i e src s here at g
  forward-IsGood i finished src s here at g = g

  forward_at-IsGood :
      (i : ℕ) (o : Option (Source E)) (s : Fan E F)
      → get_elem? s.sources i ≡ o
      → IsGood wrap s
      → IsGood wrap (forward_at wrap i o s)
  unfolding forward_at
  forward_at-IsGood i none s at g = g
  forward_at-IsGood i (some src) s at g = forward-IsGood i src.place src s refl at g

  take_from-IsGood :
      (b : List (ℕ × F)) (s : Fan E F)
      → s.buffer ≡ b
      → IsGood wrap s
      → IsGood wrap (take_from wrap b s)
  unfolding take_from
  take_from-IsGood [] s e g = g
  take_from-IsGood (x ∷ rest) s e g = λ j src at.
      subst (λ l. Good wrap j src l s.closed)
        (ap (λ t. s.received ++ t) e ∙ sym (append_assoc s.received (x ∷ []) rest)) (g j src at)

  is_finished-place : (k : Place E) → is_finished k ≡ true → k ≡ finished
  is_finished-place finished h = refl
  is_finished-place starting h = ground arith
  is_finished-place reading h = ground arith
  is_finished-place (holding e) h = ground arith

  all_finished-place :
      (ss : List (Source E)) (i : ℕ) (src : Source E)
      → all_finished ss ≡ true
      → get_elem? ss i ≡ some src
      → src.place ≡ finished
  all_finished-place [] i src h at = ground arith
  all_finished-place (s ∷ ss) zero src h at =
      let same : s ≡ src = ground arith in
      ap (λ t. t.place) (sym same) ∙ is_finished-place s.place (ground arith)
  all_finished-place (s ∷ ss) (suc i) src h at = all_finished-place ss i src (ground arith) at

  happen-IsGood : (e : Event E) (s : Fan E F) → IsGood wrap s → IsGood wrap (happen wrap e s)
  unfolding happen
  happen-IsGood (emits i e) s g = emit-IsGood i e (get_elem? s.sources i) s refl g
  happen-IsGood (ends i) s g = finish-IsGood i (get_elem? s.sources i) s refl g
  happen-IsGood (forwards i) s g = forward_at-IsGood i (get_elem? s.sources i) s refl g
  happen-IsGood takes s g = take_from-IsGood s.buffer s refl g
  happen-IsGood joins s g = elim (Bool-cases (all_finished s.sources)) [
    | inr some_left ↦ simp some_left g
    | inl over ↦ simp over (λ i src at.
        let old = g i src at in
        record {
          order = old.order;
          drained = old.drained;
          shut = λ c. all_finished-place s.sources i src over at;
        })
  ]

  pub run-IsGood : (es : List (Event E)) (s : Fan E F) → IsGood wrap s → IsGood wrap (run wrap es s)
  unfolding run
  run-IsGood [] s g = g
  run-IsGood (e ∷ es) s g = run-IsGood es (happen wrap e s) (happen-IsGood e s g)
