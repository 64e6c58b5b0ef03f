-- ===== src/Common/Fallible.antt =====
-- Code that may raise: the value or the exception.
use mathlib.Core.Path.{◌≡◌, refl, ap}
use mathlib.Core.Logic.{◌⊎◌, ◌↔◌, inl, inr}
use mathlib.Core.Bool.{Bool, true, false}
use mathlib.Core.List.{List, [], ◌∷◌, ◌++◌}

pub data Result {ε α} (E : Type ε) (A : Type α) : Type (ε ⊔ α) where
  err : E → Result E A
  ok : A → Result E A

infixl 5 ◌>>=◌ ◌>>◌
abbrev pub ◌>>=◌ {ε α β} :
    {E : Type ε} {A : Type α} {B : Type β} → Result E A → (A → Result E B) → Result E B
err raised >>= next = err raised
ok value >>= next = next value

abbrev pub ◌>>◌ {ε β} : {E : Type ε} {B : Type β} → Result E (Unit {0}) → Result E B → Result E B
first >> second = first >>= λ done. second

-- `if test: raise e`
abbrev pub raise_if {ℓ} : {E : Type ℓ} → Bool → E → Result E (Unit {0})
raise_if true e = err e
raise_if false e = ok tt

-- What a chain that returns says of its first step.
pub >>=-eq-ok {ε α β} :
    {E : Type ε} {A : Type α} {B : Type β} (first : Result E A) (next : A → Result E B) {b : B}
    → (first >>= next) ≡ ok b
    → (a : A) × (first ≡ ok a) × (next a ≡ ok b)
>>=-eq-ok (err raised) next returned = cc
>>=-eq-ok (ok value) next returned = (value, refl, returned)

pub ok-injective {ℓ κ} :
    {E : Type ℓ} {A : Type κ} {a b : A} → ◌≡◌ {A = Result E A} (ok a) (ok b) → a ≡ b
ok-injective h = cc

pub Result-cases {ℓ κ} :
    {E : Type ℓ} {A : Type κ} (r : Result E A) → ((a : A) × (r ≡ ok a)) ⊎ ((e : E) × (r ≡ err e))
Result-cases (ok a) = inl (a, refl)
Result-cases (err e) = inr (e, refl)

-- `[f(x) for x in xs]` of an `f` that may raise.
unfoldable pub each {ε α β} :
    {E : Type ε} {A : Type α} {B : Type β} → (A → Result E B) → List A → Result E (List B)
each f [] = ok []
each f (x ∷ xs) = let rest = each f xs in f x >>= λ y. rest >>= λ ys. ok (y ∷ ys)

pub each-append {ε α β} :
    {E : Type ε} {A : Type α} {B : Type β} (f : A → Result E B) (xs zs : List A) (ys ws : List B)
    → each f xs ≡ ok ys
    → each f zs ≡ ok ws
    → each f (xs ++ zs) ≡ ok (ys ++ ws)
unfolding each
each-append f [] zs ys ws h k = rw (← ok-injective h) k
each-append f (x ∷ xs) zs ys ws h k =
    let (y, e, h1) = >>=-eq-ok (f x) (λ y. each f xs >>= λ ys. ok (y ∷ ys)) h in
    let (rest, r, h2) = >>=-eq-ok (each f xs) (λ ys. ok (y ∷ ys)) h1 in
    rw (e, each-append f xs zs rest ws r k) (ap (λ l. ok (l ++ ws)) (ok-injective h2))

-- The members of two lists are related one by one.
abbrev pub Paired {α β} : {A : Type α} {B : Type β} → (A → B → Type 0) → List A → List B → Type 0
Paired R [] [] = Unit
Paired R (x ∷ xs) (y ∷ ys) = R x y × Paired R xs ys
Paired R [] (y ∷ ys) = ⊥
Paired R (x ∷ xs) [] = ⊥

module _ {ε α β} {E : Type ε} {A : Type α} {B : Type β} (f : A → Result E B) (R : A → B → Type 0)
    (f_iff : (a : A) (b : B) → (f a ≡ ok b) ↔ R a b) where
  each-Paired : (xs : List A) (ys : List B) → each f xs ≡ ok ys → Paired R xs ys
  unfolding each
  each-Paired [] ys h = rw (← ok-injective h) tt
  each-Paired (x ∷ xs) ys h =
      let (y, e, h1) = >>=-eq-ok (f x) (λ y. each f xs >>= λ ys. ok (y ∷ ys)) h in
      let (rest, r, h2) = >>=-eq-ok (each f xs) (λ ys. ok (y ∷ ys)) h1 in
      rw (← ok-injective h2) ((f_iff x y).0 e, each-Paired xs rest r)

  Paired-each : (xs : List A) (ys : List B) → Paired R xs ys → each f xs ≡ ok ys
  unfolding each
  Paired-each [] [] p = refl
  Paired-each (x ∷ xs) (y ∷ ys) (p, ps) = rw ((f_iff x y).1 p, Paired-each xs ys ps) refl
  Paired-each [] (y ∷ ys) p = absurd p
  Paired-each (x ∷ xs) [] p = absurd p

  -- The loop returns exactly where each of its steps does.
  pub each_iff : (xs : List A) (ys : List B) → (each f xs ≡ ok ys) ↔ Paired R xs ys
  each_iff xs ys = (each-Paired xs ys, Paired-each xs ys)
