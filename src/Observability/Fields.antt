-- ===== src/Observability/Fields.antt =====
-- observability.go, keyvalsToFields: which field each key-value becomes.
use eamqp.Base.{
  ℕ, zero, suc, ◌+◌, ◌*◌, ◌≡◌, refl, ap, sym, Option, none, some, List, [], ◌∷◌, arith, get_elem?,
}
use eamqp.Observability.{Loggable, null, Field, key_of, fields_from, keyvals_to_fields}

abbrev value_or_null : Option Loggable → Loggable
value_or_null none = null
value_or_null (some v) = v

-- The field whose key-value stands at position `n`, if there is one, with the value behind it.
abbrev field_of : ℕ → Option Loggable → Option Loggable → Option Field
field_of n none v = none
field_of n (some k) v = some (key_of n k, value_or_null v)

fields_from-field_of :
    (p q : ℕ) (keyvals : List Loggable) (i : ℕ)
    → q ≡ p + 2 * i
    → get_elem? (fields_from p keyvals) i
      ≡ field_of q (get_elem? keyvals (2 * i)) (get_elem? keyvals (suc (2 * i)))
unfolding fields_from
fields_from-field_of p q [] i h = refl
fields_from-field_of p q (k ∷ []) zero h =
    let here : q ≡ p = omega (arith, h) in ap (λ n. some (key_of n k, null)) (sym here)
fields_from-field_of p q (k ∷ []) (suc i) h = ground arith
fields_from-field_of p q (k ∷ v ∷ rest) zero h =
    let here : q ≡ p = omega (arith, h) in ap (λ n. some (key_of n k, v)) (sym here)
fields_from-field_of p q (k ∷ v ∷ rest) (suc i) h =
    let twice : 2 * suc i ≡ suc (suc (2 * i)) = omega arith in
    rw twice (fields_from-field_of (suc (suc p)) q rest i (omega (arith, h)))

-- keyvalsToFields makes one field of each two arguments, in their order: the i-th field has the name
-- that stands at position 2i, or "arg" and that position if no name stands there, and the argument
-- behind it; where the last argument is left alone, its field's value is nil.
pub keyvals_to_fields-field_of :
    (keyvals : List Loggable) (i : ℕ)
    → get_elem? (keyvals_to_fields keyvals) i
      ≡ field_of (2 * i) (get_elem? keyvals (2 * i)) (get_elem? keyvals (suc (2 * i)))
unfolding keyvals_to_fields
keyvals_to_fields-field_of keyvals i = fields_from-field_of 0 (2 * i) keyvals i (omega arith)
