-- ===== src/Notify/Forwarded.antt =====
-- pool.go and client.go, NotifyClose and NotifyBlocked: what the caller gets.
use mathlib.Core.List.{append_assoc, append-nil}
use eamqp.Base.{
  ℕ, zero, suc, ◌≡◌, refl, sym, ◌∙◌, ap, true, false, Option, none, some, List, [], ◌∷◌, ◌++◌, map,
  get_elem?, arith,
}
use eamqp.Notify.{
  reading, Source, Fan, Event, source_of, sources_of, notify_pool, notify_client, run,
}
use eamqp.Notify.Order.{from, from-append, held, Good, IsGood}
use eamqp.Notify.Preserved.{run-IsGood}

module _ {E F : Type 0} (wrap : E → F) where
  source_of-Good : (i : ℕ) (c : Option ℕ) → Good wrap i (source_of c) [] false
  unfolding from
  source_of-Good i none = record { order = refl; drained = λ f. (refl, refl); shut = λ c. refl }
  source_of-Good i (some conn) = record {
    order = refl;
    drained = λ f. ground arith;
    shut = λ c. ground arith;
  }

  sources_of-Good :
      (cs : List (Option ℕ)) (j i : ℕ) (src : Source E)
      → get_elem? (sources_of cs) j ≡ some src
      → Good wrap i src [] false
  sources_of-Good [] j i src at = ground arith
  sources_of-Good (c ∷ cs) zero i src at =
      let same : source_of c ≡ src = ground arith in rw (← same) (source_of-Good i c)
  sources_of-Good (c ∷ cs) (suc j) i src at = sources_of-Good cs j i src at

  notify_pool-IsGood : (cs : List (Option ℕ)) → IsGood wrap (notify_pool cs)
  unfolding notify_pool
  notify_pool-IsGood [] i src at = ground arith
  notify_pool-IsGood (c ∷ cs) i src at = sources_of-Good (c ∷ cs) i i src at

  abbrev listening : Source E
  listening = record { pending = []; ended = false; place = reading; emitted = []; missed = [] }

  first-Good : (i : ℕ) (src : Source E) → listening ≡ src → Good wrap i src [] false
  unfolding from
  first-Good i src same =
      rw (← same) (record { order = refl; drained = λ f. ground arith; shut = λ c. ground arith })

  notify_client-IsGood : (chan : Option ℕ) → IsGood wrap (notify_client chan)
  unfolding notify_client
  notify_client-IsGood none i src at = ground arith
  notify_client-IsGood (some c) zero src at = first-Good 0 src (ground arith)
  notify_client-IsGood (some c) (suc i) src at = ground arith

  in_order :
      (s : Fan E F) (i : ℕ) (src : Source E)
      → IsGood wrap s
      → get_elem? s.sources i ≡ some src
      → (rest : List F) × (from i s.received ++ rest ≡ map wrap src.emitted)
  in_order s i src g at = (
    from i s.buffer ++ (held wrap src.place ++ map wrap src.pending),
    sym (append_assoc (from i s.received) (from i s.buffer) _)
        ∙ ap (λ t. t ++ (held wrap src.place ++ map wrap src.pending))
            (sym (from-append i s.received s.buffer))
        ∙ (g i src at).order,
  )

  complete :
      (s : Fan E F) (i : ℕ) (src : Source E)
      → IsGood wrap s
      → get_elem? s.sources i ≡ some src
      → s.closed ≡ true
      → s.buffer ≡ []
      → (src.ended ≡ true) × (from i s.received ≡ map wrap src.emitted)
  complete s i src g at closed empty =
      let good = g i src at in
      let place = good.shut closed in
      let (none_left, over) = good.drained place in
      let out = from i (s.received ++ s.buffer) in
      (
        over,
        ap (from i) (sym (append-nil s.received))
            ∙ ap (λ b. from i (s.received ++ b)) (sym empty)
            ∙ sym (append-nil out)
            ∙ ap (λ t. out ++ t)
                (sym (
                  ap (λ t. t ++ map wrap src.pending) (ap (held wrap) place)
                  ∙ ap (map wrap) none_left))
            ∙ good.order,
      )

  -- NotifyClose and NotifyBlocked of a pool: at any moment of any interleaving, what the caller has
  -- received from one connection is an initial part of what that connection has notified since its
  -- goroutine has registered, in its order, with nothing left out and nothing twice.
  pub pool_in_order :
      (connections : List (Option ℕ)) (es : List (Event E)) (i : ℕ) (src : Source E)
      → get_elem? (run wrap es (notify_pool connections)).sources i ≡ some src
      → (rest : List F) × (from i (run wrap es (notify_pool connections)).received ++ rest
          ≡ map wrap src.emitted)
  pool_in_order connections es i src at =
      in_order (run wrap es (notify_pool connections)) i src
        (run-IsGood wrap es (notify_pool connections) (notify_pool-IsGood connections)) at

  -- NotifyClose and NotifyBlocked of a pool: once the Go channel is closed and empty, every connection
  -- has given its last notification, and the caller has received exactly those that the connection has
  -- given since its goroutine has registered with it, in their order. (The goroutine may register only
  -- after the call has returned; what the connection gives before is lost.)
  pub pool_complete :
      (connections : List (Option ℕ)) (es : List (Event E)) (i : ℕ) (src : Source E)
      → get_elem? (run wrap es (notify_pool connections)).sources i ≡ some src
      → (run wrap es (notify_pool connections)).closed ≡ true
      → (run wrap es (notify_pool connections)).buffer ≡ []
      → (src.ended ≡ true)
        × (from i (run wrap es (notify_pool connections)).received ≡ map wrap src.emitted)
  pool_complete connections es i src at closed empty =
      complete (run wrap es (notify_pool connections)) i src
        (run-IsGood wrap es (notify_pool connections) (notify_pool-IsGood connections)) at closed
        empty

  -- A client's NotifyClose: once its Go channel is closed and empty, the connection, or the pool, has
  -- given its last notification, and the caller has received all of them, wrapped, in their order.
  pub client_complete :
      (chan : Option ℕ) (es : List (Event E)) (src : Source E)
      → get_elem? (run wrap es (notify_client chan)).sources 0 ≡ some src
      → (run wrap es (notify_client chan)).closed ≡ true
      → (run wrap es (notify_client chan)).buffer ≡ []
      → (src.ended ≡ true)
        × (from 0 (run wrap es (notify_client chan)).received ≡ map wrap src.emitted)
  client_complete chan es src at closed empty =
      complete (run wrap es (notify_client chan)) 0 src
        (run-IsGood wrap es (notify_client chan) (notify_client-IsGood chan)) at closed empty
