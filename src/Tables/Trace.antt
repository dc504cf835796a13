-- ===== src/Tables/Trace.antt =====
-- trace.go: the carrier of a trace context over the headers of a message, and InjectTraceHeaders and
-- ExtractTraceContext. The propagator and the tracer's registration are parameters.
use eamqp.Base.{
  ℕ, ◌≡◌, ◌≢◌, refl, ◌∙◌, sym, String, same, same_iff, Bool-cases, inl, inr, Bool, true, Option,
  none, some, List, [], ◌∷◌, All, if◌then◌else◌,
}
use eamqp.Amqp.Values.{Value, Table, null, text, bytes, number, flag, others}
use eamqp.Tables.{Entries, get, put, keys}
use eamqp.Tables.Lookup.{get-put, get-put_other}

-- string([]byte), and fmt.Sprint of a value of any other kind.
pub record Printing : Type 0 where
  pub of_bytes : List ℕ → String
  pub sprint : Value → String

-- otel's TextMapPropagator: the fields that Inject sets on a carrier, in their order; the
-- context that Extract makes, which reads the carrier only by Get; and the names that Fields documents.
-- A context is a number.
pub record Propagator : Type 0 where
  pub fields : ℕ → List (String × String)
  pub extract : ℕ → (String → String) → ℕ
  pub names : List String

-- amqp.Table{} in place of a nil map.
abbrev pub entries : Table → Entries
entries none = []
entries (some m) = m

module _ (printing : Printing) where
  carried : Option Value → String
  carried none = ""
  carried (some null) = ""
  carried (some (text t)) = t
  carried (some (bytes b)) = printing.of_bytes b
  carried (some (number n)) = printing.sprint (number n)
  carried (some (flag b)) = printing.sprint (flag b)
  carried (some (others n)) = printing.sprint (others n)

  -- amqpTableCarrier.Get
  unfoldable pub carrier_get : Entries → String → String
  unfolding carried
  carrier_get m key = carried (get key m)

-- amqpTableCarrier.Set
unfoldable pub carrier_set : String → String → Entries → Entries
carrier_set key value m = put key (text value) m

-- amqpTableCarrier.Keys
abbrev pub carrier_keys : Entries → List String
carrier_keys m = keys m

-- Inject's calls of Set.
unfoldable pub set_all : List (String × String) → Entries → Entries
unfolding carrier_set
set_all [] m = m
set_all ((k, v) ∷ fields) m = set_all fields (carrier_set k v m)

module _ (propagator : Propagator) (registered : Bool) where
  -- InjectTraceHeaders; the headers that it returns are not nil.
  unfoldable pub inject_trace_headers : ℕ → Table → Entries
  unfolding set_all
  inject_trace_headers ctx headers =
      if registered then set_all (propagator.fields ctx) (entries headers) else entries headers

  unfoldable pub extract_trace_context : Printing → ℕ → Table → ℕ
  unfolding carrier_get
  extract_trace_context printing ctx none = ctx
  extract_trace_context printing ctx (some m) =
      if registered then propagator.extract ctx (carrier_get printing m) else ctx

-- No field is named twice.
abbrev pub Distinct : List (String × String) → Type 0
Distinct [] = Unit {0}
Distinct ((k, v) ∷ fields) = All (λ p. p.0 ≢ k) fields × Distinct fields

-- The value of a field in a carrier that holds these alone, "" if it is not there.
abbrev pub value_of : List (String × String) → String → String
value_of [] key = ""
value_of ((k, v) ∷ fields) key = let rest = value_of fields key in if same key k then v else rest

-- A field that is not among those set is left.
set_all-other :
    (key : String) (fields : List (String × String)) (m : Entries)
    → All (λ p. p.0 ≢ key) fields
    → get key (set_all fields m) ≡ get key m
unfolding set_all
set_all-other key [] m n = refl
set_all-other key ((k, v) ∷ fields) m n =
    set_all-other key fields (put k (text v) m) n.1
    ∙ get-put_other key k (text v) m (λ e. n.0 (sym e))

-- Where the map has nothing for the field, the carrier answers what Inject sets, or nothing.
set_all-get :
    (printing : Printing) (key : String) (fields : List (String × String)) (m : Entries)
    → Distinct fields
    → get key m ≡ none
    → carrier_get printing (set_all fields m) key ≡ value_of fields key
unfolding set_all carrier_get
set_all-get printing key [] m d n = rw n refl
set_all-get printing key ((k, v) ∷ fields) m d n = elim (Bool-cases (same key k)) [
  | inl e ↦
      let k_is : k ≡ key = sym ((same_iff key k).0 e) in
      let first = set_all-other k fields (put k (text v) m) d.0 ∙ get-put k (text v) m in
      simp e (rw (← k_is, first) refl)
  | inr e ↦
      let other : key ≢ k = λ h. let t = (same_iff key k).1 h in cc in
      simp e (
        set_all-get printing key fields (put k (text v) m) d.1
          (get-put_other key k (text v) m other ∙ n))
]

set_all-agrees :
    (printing : Printing) (names : List String) (fields : List (String × String)) (m : Entries)
    → Distinct fields
    → All (λ k. get k m ≡ none) names
    → All (λ k. carrier_get printing (set_all fields m) k ≡ value_of fields k) names
set_all-agrees printing [] fields m d n = tt
set_all-agrees printing (k ∷ names) fields m d n =
    (set_all-get printing k fields m d n.0, set_all-agrees printing names fields m d n.1)

-- A trace context that InjectTraceHeaders writes into the headers of a message that hold none of the
-- propagator's documented fields, whatever else they hold, is what ExtractTraceContext reads from them,
-- where a tracer is registered. (The propagator sets no field twice; Extract reads only the documented
-- fields, and restores the context from a carrier that holds just what Inject has set.)
pub extract-inject :
    (propagator : Propagator) (printing : Printing) (ctx base restored : ℕ) (headers : Table)
    → Distinct (propagator.fields ctx)
    → ((read read' : String → String)
        → All (λ k. read k ≡ read' k) propagator.names
        → propagator.extract base read ≡ propagator.extract base read')
    → propagator.extract base (value_of (propagator.fields ctx)) ≡ restored
    → All (λ k. get k (entries headers) ≡ none) propagator.names
    → extract_trace_context propagator true printing base
        (some (inject_trace_headers propagator true ctx headers))
      ≡ restored
unfolding inject_trace_headers extract_trace_context
extract-inject propagator printing ctx base restored headers distinct reads restores absent =
    let fields = propagator.fields ctx in
    reads (carrier_get printing (set_all fields (entries headers))) (value_of fields)
      (set_all-agrees printing propagator.names fields (entries headers) distinct absent)
    ∙ restores
