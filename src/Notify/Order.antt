-- ===== src/Notify/Order.antt =====
-- pool.go and client.go, NotifyClose and NotifyBlocked: what is forwarded, and in which order.
use mathlib.Core.List.{append_assoc, append-nil}
use eamqp.Base.{
  ℕ, ◌≡◌, ◌≢◌, refl, sym, ◌∙◌, ap, inl, inr, Bool, true, some, List, [], ◌∷◌, ◌++◌, map, get_elem?,
  set, get_elem?-set, ◌==◌, ==_iff, arith, Bool-cases, if◌then◌else◌,
}
use eamqp.Notify.{Place, starting, reading, holding, finished, Source, Fan}

-- What has come from connection number `i`.
unfoldable pub from : {F : Type 0} → ℕ → List (ℕ × F) → List F
from i [] = []
from i ((j, x) ∷ l) = let rest = from i l in if j == i then x ∷ rest else rest

pub from-append :
    {F : Type 0} (i : ℕ) (xs ys : List (ℕ × F)) → from i (xs ++ ys) ≡ from i xs ++ from i ys
unfolding from
from-append i [] ys = refl
from-append i ((j, x) ∷ xs) ys = elim (Bool-cases (j == i)) [
  | inl e ↦ simp e (ap (λ l. x ∷ l) (from-append i xs ys))
  | inr e ↦ simp e (from-append i xs ys)
]

pub map-append :
    {E F : Type 0} (f : E → F) (xs ys : List E) → map f (xs ++ ys) ≡ map f xs ++ map f ys
map-append f [] ys = refl
map-append f (x ∷ xs) ys = ap (λ l. f x ∷ l) (map-append f xs ys)

module _ {E F : Type 0} (wrap : E → F) where
  abbrev pub held : Place E → List F
  held starting = []
  held reading = []
  held (holding e) = wrap e ∷ []
  held finished = []

  -- One connection: what has gone into `out`, what its goroutine holds, and what is still to be read
  -- are what it has given, in order.
  pub record Good (i : ℕ) (src : Source E) (out : List (ℕ × F)) (closed : Bool) : Type 0 where
    pub order : from i out ++ (held src.place ++ map wrap src.pending) ≡ map wrap src.emitted
    pub drained : src.place ≡ finished → (src.pending ≡ []) × (src.ended ≡ true)
    pub shut : closed ≡ true → src.place ≡ finished

  abbrev pub IsGood : Fan E F → Type 0
  IsGood s =
      (i : ℕ) (src : Source E)
      → get_elem? s.sources i ≡ some src
      → Good i src (s.received ++ s.buffer) s.closed

  pub set_one :
      (i : ℕ) (v : Source E) (s : Fan E F)
      → IsGood s
      → Good i v (s.received ++ s.buffer) s.closed
      → IsGood (record s { sources = set s.sources i v })
  set_one i v s g h j x at = elim (get_elem?-set s.sources i v j x at) [
    | inl (e, same) ↦ rw (← e, ← same) h
    | inr (n, there) ↦ g j x there
  ]

  -- What is sent from connection `i` comes after what has come from it, and nowhere else.
  from-sent : (i : ℕ) (l : List (ℕ × F)) (x : F) → from i (l ++ (i, x) ∷ []) ≡ from i l ++ x ∷ []
  unfolding from
  from-sent i l x =
      from-append i l ((i, x) ∷ []) ∙ ap (λ t. from i l ++ t) (rw ((==_iff i i).1 refl) refl)

  from-sent_other :
      (i j : ℕ) (l : List (ℕ × F)) (x : F) → i ≢ j → from j (l ++ (i, x) ∷ []) ≡ from j l
  unfolding from
  from-sent_other i j l x n = elim (Bool-cases (i == j)) [
    | inl e ↦ absurd (n ((==_iff i j).0 e))
    | inr e ↦
        from-append j l ((i, x) ∷ []) ∙ ap (λ t. from j l ++ t) (rw e refl) ∙ append-nil (from j l)
  ]

  pub sent-Good :
      (i : ℕ) (e : E) (src : Source E) (out : List (ℕ × F)) (closed : Bool)
      → src.place ≡ holding e
      → Good i src out closed
      → Good i (record src { place = reading }) (out ++ (i, wrap e) ∷ []) closed
  sent-Good i e src out closed here old = record {
    order =
        ap (λ t. t ++ map wrap src.pending) (from-sent i out (wrap e))
        ∙ append_assoc (from i out) (wrap e ∷ []) (map wrap src.pending)
        ∙ ap (λ h. from i out ++ (h ++ map wrap src.pending)) (sym (ap held here))
        ∙ old.order;
    drained = λ f. ground arith;
    shut = λ c. let f = old.shut c in ground arith;
  }

  pub sent-Good_other :
      (i j : ℕ) (e : E) (x : Source E) (out : List (ℕ × F)) (closed : Bool)
      → i ≢ j
      → Good j x out closed
      → Good j x (out ++ (i, wrap e) ∷ []) closed
  sent-Good_other i j e x out closed n old = record {
    order =
        ap (λ t. t ++ (held x.place ++ map wrap x.pending)) (from-sent_other i j out (wrap e) n)
        ∙ old.order;
    drained = old.drained;
    shut = old.shut;
  }
