-- ===== src/Tables/Lookup.antt =====
-- What a map holds after an assignment.
use eamqp.Base.{
  ◌≡◌, ◌≢◌, refl, sym, ◌∙◌, String, same, same_iff, same_refl, false, some, [], ◌∷◌, Bool-cases,
  inl, inr,
}
use eamqp.Amqp.Values.{Value}
use eamqp.Tables.{Entries, get, put}

pub same-≢ : (j k : String) → j ≢ k → same j k ≡ false
same-≢ j k n = elim (Bool-cases (same j k)) [ inl e ↦ absurd (n ((same_iff j k).0 e)) | inr e ↦ e ]

pub get-put : (k : String) (v : Value) (m : Entries) → get k (put k v m) ≡ some v
unfolding get put
get-put k v [] = simp (same_refl k) refl
get-put k v ((j, u) ∷ m) = elim (Bool-cases (same k j)) [
  | inl e ↦ simp (e, same_refl k) refl
  | inr e ↦ simp e (get-put k v m)
]

-- An assignment to one key leaves the others.
pub get-put_other : (j k : String) (v : Value) (m : Entries) → j ≢ k → get j (put k v m) ≡ get j m
unfolding get put
get-put_other j k v [] n = simp (same-≢ j k n) refl
get-put_other j k v ((i, u) ∷ m) n = elim (Bool-cases (same k i)) [
  | inl e ↦
      let k_i = (same_iff k i).0 e in
      simp (e, same-≢ j k n, same-≢ j i (λ j_i. n (j_i ∙ sym k_i))) refl
  | inr e ↦ simp (e, get-put_other j k v m n) refl
]
