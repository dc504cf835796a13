-- ===== src/Consumer/Workers/Totals.antt =====
-- consumer.go, ConsumeWithWorkers: how often each delivery is settled. A measure `f` of what can be
-- settled stands for any way to count it.
use eamqp.Base.{
  ℕ, ◌+◌, ◌<◌, ◌≡◌, refl, ◌∙◌, ap, ◌⊎◌, inl, inr, String, Bool, true, false, not, Option, none,
  some, List, [], ◌∷◌, Error, workers_timeout, arith, length, get_elem?, set, sum_by, length-set,
  sum_by-others, sum_by-set, sum_by-append, others-lt-length, Bool-cases,
}
use eamqp.Amqp.Values.{Delivery}
use eamqp.Amqp.Raw.{Raw}
use eamqp.Channel.Quiet.{Quiet, IsQuiet, cancel-IsQuiet, close-IsQuiet}
use eamqp.Consumer.{Acknowledger, Handler}
use eamqp.Consumer.Settling.{Books}
use eamqp.Consumer.Workers.Measures.{stops, stops-le-1, all_stopped-stops, owed, load, settle_once}
use eamqp.Consumer.Workers.{
  Worker, ready, handling, settling, stopped, Caller, waiting, cancelling, closing, joining,
  returned, Work, Event, arrives, ends, cancels, works, proceeds, times_out, all_stopped, receive,
  arrive, work, proceed, time_out, happen, run,
}

module _ {S : Type 0} (raw : Raw S) (acks : Acknowledger S) (handler : Handler S) (tag : String)
    (settled : S → List (ℕ × Bool)) (fails : Delivery → Bool)
    (books : Books acks handler settled fails) (quiet : Quiet raw settled) (f : ℕ × Bool → ℕ) where
  -- What is settled, in hand and waiting, against what has arrived, from `base` on and for `n` workers.
  pub record Counted (base n : ℕ) (s : Work S) : Type 0 where
    pub total :
        sum_by f (settled s.world) + sum_by (load fails f) s.workers + sum_by (owed fails f) s.queue
        ≡ base + sum_by (owed fails f) s.arrived
    pub manual : s.consumer.opts.auto_ack ≡ false
    pub calm : IsQuiet raw settled s.consumer.channel
    pub dry : 0 < sum_by stops s.workers → (s.queue ≡ []) × (s.ended ≡ true)
    pub size : length s.workers ≡ n
    pub joined :
        (e : Option Error)
        → s.caller ≡ returned e
        → (e ≡ some workers_timeout) ⊎ (sum_by stops s.workers ≡ n)

  module _ (base n : ℕ) where
    arrive-Counted : (d : Delivery) (s : Work S) → Counted base n s → Counted base n (arrive d s)
    unfolding arrive
    arrive-Counted d s c = elim (Bool-cases s.ended) [
      | inl over ↦ simp over c
      | inr more ↦ simp more (record {
        total = omega (
          arith,
          c.total,
          sum_by-append (owed fails f) s.queue (d ∷ []),
          sum_by-append (owed fails f) s.arrived (d ∷ []),
        );
        manual = c.manual;
        calm = c.calm;
        dry = λ h. ground (arith, c.dry h);
        size = c.size;
        joined = c.joined;
      })
    ]

    -- A worker that has not stopped goes on to another place where it has not.
    moved-joined :
        (ws : List Worker) (i : ℕ) (w v : Worker) (P : Type 0)
        → get_elem? ws i ≡ some w
        → stops w ≡ 0
        → length ws ≡ n
        → P ⊎ (sum_by stops ws ≡ n)
        → P ⊎ (sum_by stops (set ws i v) ≡ n)
    moved-joined ws i w v P at z l (inl p) = inl p
    moved-joined ws i w v P at z l (inr all) =
        absurd (
          omega (arith, others-lt-length stops stops-le-1 ws i w at, sum_by-others stops ws i w at))

    moved-stops :
        (ws : List Worker) (i : ℕ) (w v : Worker)
        → get_elem? ws i ≡ some w
        → stops w ≡ 0
        → stops v ≡ 0
        → sum_by stops (set ws i v) ≡ sum_by stops ws
    moved-stops ws i w v at z y =
        omega (arith, sum_by-set stops ws i w v at, sum_by-others stops ws i w at)

    receive-Counted :
        (i : ℕ) (q : List Delivery) (s : Work S)
        → s.queue ≡ q
        → get_elem? s.workers i ≡ some ready
        → Counted base n s
        → Counted base n (receive i q s)
    unfolding receive
    receive-Counted i (d ∷ rest) s e at c = record {
      total = omega (
        arith,
        c.total,
        sum_by-set (load fails f) s.workers i ready (handling d) at,
        sum_by-others (load fails f) s.workers i ready at,
        ap (sum_by (owed fails f)) e,
      );
      manual = c.manual;
      calm = c.calm;
      dry = λ h.
          absurd (ground (arith, moved-stops s.workers i ready (handling d) at refl refl, c.dry));
      size = length-set s.workers i (handling d) ∙ c.size;
      joined = λ x r. moved-joined s.workers i ready (handling d) _ at refl c.size (c.joined x r);
    }
    receive-Counted i [] s e at c = elim (Bool-cases s.ended) [
      | inr more ↦ simp more c
      | inl over ↦ simp over (record {
        total = omega (
          arith,
          c.total,
          sum_by-set (load fails f) s.workers i ready stopped at,
          sum_by-others (load fails f) s.workers i ready at,
        );
        manual = c.manual;
        calm = c.calm;
        dry = λ h. (e, refl);
        size = length-set s.workers i stopped ∙ c.size;
        joined = λ x r. moved-joined s.workers i ready stopped _ at refl c.size (c.joined x r);
      })
    ]

    work-Counted :
        (i : ℕ) (o : Option Worker) (s : Work S)
        → get_elem? s.workers i ≡ o
        → Counted base n s
        → Counted base n (work raw acks handler tag i o s)
    unfolding work
    work-Counted i (some ready) s at c = receive-Counted i s.queue s refl at c
    work-Counted i (some (handling d)) s at c =
        let r = (handler d s.world).0 in
        record {
          total = omega (
            arith,
            c.total,
            sum_by-set (load fails f) s.workers i (handling d) (settling d r) at,
            sum_by-others (load fails f) s.workers i (handling d) at,
            ap (sum_by f) (books.handles d s.world),
            ap (λ b. f (d.tag, not b)) (books.fails_on d s.world),
          );
          manual = c.manual;
          calm = c.calm;
          dry = λ h.
              c.dry
                (omega (arith, moved-stops s.workers i (handling d) (settling d r) at refl refl));
          size = length-set s.workers i (settling d r) ∙ c.size;
          joined = λ x e.
              moved-joined s.workers i (handling d) (settling d r) _ at refl c.size (c.joined x e);
        }
    work-Counted i (some (settling d r)) s at c = record {
      total = omega (
        arith,
        c.total,
        sum_by-set (load fails f) s.workers i (settling d r) ready at,
        sum_by-others (load fails f) s.workers i (settling d r) at,
        settle_once acks handler settled fails books f s.consumer.opts.auto_ack d r s.world
            c.manual,
      );
      manual = c.manual;
      calm = c.calm;
      dry = λ h. c.dry (omega (arith, moved-stops s.workers i (settling d r) ready at refl refl));
      size = length-set s.workers i ready ∙ c.size;
      joined = λ x e. moved-joined s.workers i (settling d r) ready _ at refl c.size (c.joined x e);
    }
    work-Counted i (some stopped) s at c = c
    work-Counted i none s at c = c

    proceed-Counted :
        (k : Caller) (s : Work S)
        → s.caller ≡ k
        → Counted base n s
        → Counted base n (proceed raw acks handler tag k s)
    unfolding proceed
    proceed-Counted waiting s at c = elim (Bool-cases s.done) [
      | inr on ↦ simp on c
      | inl over ↦ simp over (record {
        total = c.total;
        manual = c.manual;
        calm = c.calm;
        dry = c.dry;
        size = c.size;
        joined = λ x e. ground arith;
      })
    ]
    proceed-Counted cancelling s at c =
        let (same, calm') =
          cancel-IsQuiet raw settled quiet tag s.consumer.channel s.world c.calm in
        record {
          total = omega (arith, c.total, ap (sum_by f) same);
          manual = c.manual;
          calm = calm';
          dry = c.dry;
          size = c.size;
          joined = λ x e. ground arith;
        }
    proceed-Counted (closing e₁) s at c =
        let (same, calm') = close-IsQuiet raw settled quiet s.consumer.channel s.world c.calm in
        record {
          total = omega (arith, c.total, ap (sum_by f) same);
          manual = c.manual;
          calm = calm';
          dry = c.dry;
          size = c.size;
          joined = λ x e. ground arith;
        }
    proceed-Counted (joining r) s at c = elim (Bool-cases (all_stopped s.workers)) [
      | inr some_left ↦ simp some_left c
      | inl over ↦ simp over (record {
        total = c.total;
        manual = c.manual;
        calm = c.calm;
        dry = c.dry;
        size = c.size;
        joined = λ x e. inr (all_stopped-stops s.workers over ∙ c.size);
      })
    ]
    proceed-Counted (returned r) s at c = c

    time_out-Counted :
        (k : Caller) (s : Work S)
        → Counted base n s
        → Counted base n (time_out raw acks handler tag k s)
    unfolding time_out
    time_out-Counted waiting s c = c
    time_out-Counted cancelling s c = c
    time_out-Counted (closing e₁) s c = c
    time_out-Counted (joining r) s c = record {
      total = c.total;
      manual = c.manual;
      calm = c.calm;
      dry = c.dry;
      size = c.size;
      joined = λ x e. inl (ground arith);
    }
    time_out-Counted (returned r) s c = c

    happen-Counted :
        (e : Event) (s : Work S)
        → Counted base n s
        → Counted base n (happen raw acks handler tag e s)
    unfolding happen
    happen-Counted (arrives d) s c = arrive-Counted d s c
    happen-Counted ends s c = record {
      total = c.total;
      manual = c.manual;
      calm = c.calm;
      dry = λ h. ((c.dry h).0, refl);
      size = c.size;
      joined = c.joined;
    }
    happen-Counted cancels s c = record {
      total = c.total;
      manual = c.manual;
      calm = c.calm;
      dry = c.dry;
      size = c.size;
      joined = c.joined;
    }
    happen-Counted (works i) s c = work-Counted i (get_elem? s.workers i) s refl c
    happen-Counted proceeds s c = proceed-Counted s.caller s refl c
    happen-Counted times_out s c = time_out-Counted s.caller s c

    pub run-Counted :
        (es : List Event) (s : Work S)
        → Counted base n s
        → Counted base n (run raw acks handler tag es s)
    unfolding run
    run-Counted [] s c = c
    run-Counted (e ∷ es) s c =
        run-Counted es (happen raw acks handler tag e s) (happen-Counted e s c)
