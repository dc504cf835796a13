-- ===== src/Tests/TableRuns.antt =====
-- Runs of the trace headers.
use eamqp.Base.{◌≡◌, refl, true, some, [], ◌∷◌, same, if◌then◌else◌}
use eamqp.Amqp.Values.{text}
use eamqp.Tables.Trace.{
  Printing, Propagator, inject_trace_headers, extract_trace_context, extract-inject,
}

abbrev plainly : Printing
plainly = record { of_bytes = λ b. ""; sprint = λ v. "" }

-- One field; extraction finds context 7 where it is there.
abbrev one_field : Propagator
one_field = record {
  fields = λ ctx. ("traceparent", "00-7") ∷ [];
  extract = λ base read. if same (read "traceparent") "00-7" then 7 else base;
  names = "traceparent" ∷ [];
}

extract-inject_example :
    extract_trace_context one_field true plainly 0
      (some (inject_trace_headers one_field true 7 (some (("x-tenant", text "a") ∷ []))))
    ≡ 7
unfolding eamqp.Tables.get
extract-inject_example =
    extract-inject one_field plainly 7 0 7 (some (("x-tenant", text "a") ∷ [])) (tt, tt)
      (λ read read' a. rw a.0 refl) refl (refl, tt)
