-- ===== src/Text/Search.antt =====
-- Where `index` and `last_index` find a character, and what cutting there gives.
use eamqp.Base.{
  ℕ, zero, suc, ◌≡◌, ◌≢◌, refl, ap, true, none, some, List, [], ◌∷◌, ◌++◌, arith, All, length, take,
  ◌==◌, Bool-cases, inl, inr,
}
use eamqp.Text.{Text, split, join, push, starts_with, index, last_index, drop}

abbrev pub Lacks : ℕ → Text → Type 0
Lacks b = All (λ c. c ≢ b)

pub take-append {ℓ} : {A : Type ℓ} (xs ys : List A) → take (length xs) (xs ++ ys) ≡ xs
take-append [] ys = refl
take-append (x ∷ xs) ys = ap (λ l. x ∷ l) (take-append xs ys)

pub drop-append {ℓ} : {A : Type ℓ} (xs ys : List A) → drop (length xs) (xs ++ ys) ≡ ys
drop-append [] ys = refl
drop-append (x ∷ xs) ys = drop-append xs ys

-- A pattern that starts with `p` is found behind what lacks `p`.
pub index-append :
    (p : ℕ) (ps s t : Text)
    → Lacks p s
    → starts_with (p ∷ ps) t ≡ true
    → index (p ∷ ps) (s ++ t) ≡ some (length s)
unfolding index
index-append p ps [] [] l h = ground arith
index-append p ps [] (c ∷ t) l h = ground arith
index-append p ps (c ∷ s) t l h = ground (arith, index-append p ps s t l.1 h)

pub last_index-Lacks : (b : ℕ) (s : Text) → Lacks b s → last_index b s ≡ none
unfolding last_index
last_index-Lacks b [] l = refl
last_index-Lacks b (c ∷ s) l = ground (arith, last_index-Lacks b s l.1)

-- The last occurrence stands before what lacks the character, whatever is in front of it.
pub last_index-append :
    (b : ℕ) (s t : Text) → Lacks b t → last_index b (s ++ b ∷ t) ≡ some (length s)
unfolding last_index
last_index-append b [] t l = ground (arith, last_index-Lacks b t l)
last_index-append b (c ∷ s) t l = ground (arith, last_index-append b s t l)

join-push : (sep c : ℕ) (ps : List Text) → join sep (push c ps) ≡ c ∷ join sep ps
unfolding join push
join-push sep c [] = refl
join-push sep c (p ∷ []) = refl
join-push sep c (p ∷ q ∷ ps) = refl

split-cons : (sep : ℕ) (s : Text) → (p : Text) × (ps : List Text) × (split sep s ≡ p ∷ ps)
unfolding split
split-cons sep [] = ([], [], refl)
split-cons sep (c ∷ s) =
    let (p, ps, e) = split-cons sep s in
    elim (Bool-cases (c == sep)) [
      | inl h ↦ ([], p ∷ ps, ground arith)
      | inr h ↦ (c ∷ p, ps, ground arith)
    ]

join_behind_separator :
    (sep : ℕ) (p : Text) (ps : List Text) → join sep ([] ∷ p ∷ ps) ≡ sep ∷ join sep (p ∷ ps)
unfolding join
join_behind_separator sep p ps = refl

pub join-split : (sep : ℕ) (s : Text) → join sep (split sep s) ≡ s
unfolding split
join-split sep [] = unfold join in refl
join-split sep (c ∷ s) =
    let (p, ps, e) = split-cons sep s in
    ground (arith, join-split sep s, join-push sep c (split sep s), join_behind_separator sep p ps)

-- The same at a number that is the length.
pub take_at {ℓ} : {A : Type ℓ} (n : ℕ) (xs ys : List A) → n ≡ length xs → take n (xs ++ ys) ≡ xs
take_at n xs ys h = rw h (take-append xs ys)

pub drop_at {ℓ} : {A : Type ℓ} (n : ℕ) (xs ys : List A) → n ≡ length xs → drop n (xs ++ ys) ≡ ys
drop_at n xs ys h = rw h (drop-append xs ys)

pub drop_past {ℓ} :
    {A : Type ℓ} (n : ℕ) (xs ys : List A) (x : A) → n ≡ length xs → drop (suc n) (xs ++ x ∷ ys) ≡ ys
drop_past zero [] ys x h = refl
drop_past zero (z ∷ xs) ys x h = absurd (omega arith)
drop_past (suc n) [] ys x h = absurd (omega arith)
drop_past (suc n) (z ∷ xs) ys x h = drop_past n xs ys x (omega arith)
