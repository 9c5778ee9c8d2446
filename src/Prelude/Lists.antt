-- ===== src/Prelude/Lists.antt =====
-- Lists measured by native numbers, Boolean filters and predicates over lists.
use Prim.Native.Nat.{ℕ, zero, suc, ◌+◌, ◌≤◌}
use mathlib.Core.Path.{◌≡◌, refl, ap, ◌∙◌, subst}
use mathlib.Core.Bool.{Bool, true, false}
use mathlib.Core.Option.{Option, none, some}
use mathlib.Core.List.{List, [], ◌∷◌, ◌++◌}
use native.Mathlib.Omega.{arith}
use ai_multimodal_platform.Prelude.Tests.{if◌then◌else◌, Bool-cases}
use mathlib.Core.Logic.{inl, inr}

module _ {ℓ} {A : Type ℓ} where
  abbrev pub length : List A → ℕ
  length [] = 0
  length (x ∷ xs) = suc (length xs)

  -- `[x for x in xs if p(x)]`, and the WHERE clause of a query
  abbrev pub filter : (A → Bool) → List A → List A
  filter p [] = []
  filter p (x ∷ xs) = if p x then x ∷ filter p xs else filter p xs

  -- `.first()` of a query
  abbrev pub find : (A → Bool) → List A → Option A
  find p [] = none
  find p (x ∷ xs) = if p x then some x else find p xs

  abbrev pub any : (A → Bool) → List A → Bool
  any p [] = false
  any p (x ∷ xs) = if p x then true else any p xs

  abbrev pub every : (A → Bool) → List A → Bool
  every p [] = true
  every p (x ∷ xs) = if p x then every p xs else false

  abbrev pub take : ℕ → List A → List A
  take zero xs = []
  take (suc n) [] = []
  take (suc n) (x ∷ xs) = x ∷ take n xs

  abbrev pub head? : List A → Option A
  head? [] = none
  head? (x ∷ xs) = some x

  pub length-append : (xs ys : List A) → length (xs ++ ys) ≡ length xs + length ys
  length-append [] ys = omega arith
  length-append (x ∷ xs) ys = omega (arith, length-append xs ys)

  pub length-filter : (p : A → Bool) (xs : List A) → length (filter p xs) ≤ length xs
  length-filter p [] = omega arith
  length-filter p (x ∷ xs) = ground (arith, length-filter p xs)

  pub length-take : (n : ℕ) (xs : List A) → length (take n xs) ≤ n
  length-take zero xs = omega arith
  length-take (suc n) [] = omega arith
  length-take (suc n) (x ∷ xs) = omega (arith, length-take n xs)

-- A predicate by recursion computes to tuples, which the tactics read and build.
abbrev pub All {ℓ κ} : {A : Type ℓ} → (A → Type κ) → List A → Type κ
All P [] = Unit
All P (x ∷ xs) = P x × All P xs

-- What holds of each part of a list.
module _ {ℓ κ} {A : Type ℓ} where
  pub All-filter :
      (P : A → Type κ) (p : A → Bool) (xs : List A)
      → All P (filter p xs)
      → All (λ x. p x ≡ true → P x) xs
  All-filter P p [] h = tt
  All-filter P p (x ∷ xs) h = elim (Bool-cases (p x)) [
    | inl e ↦ let h' = rw e at h in (λ q. h'.0, All-filter P p xs h'.1)
    | inr e ↦ (λ q. cc, All-filter P p xs (rw e at h))
  ]

  pub All-map : (P Q : A → Type κ) (xs : List A) → ((x : A) → P x → Q x) → All P xs → All Q xs
  All-map P Q [] f h = tt
  All-map P Q (x ∷ xs) f h = (f x h.0, All-map P Q xs f h.1)

  pub All-find :
      (P : A → Type κ) (p : A → Bool) (xs : List A) {x : A} → All P xs → find p xs ≡ some x → P x
  All-find P p [] h e = cc
  All-find P p (y ∷ ys) {x} h e = elim (Bool-cases (p y)) [
    | inl t ↦ let same : y ≡ x = ground (arith, t, e) in subst P same h.0
    | inr f ↦ All-find P p ys h.1 (ground (arith, f, e))
  ]

module _ {ℓ} {A : Type ℓ} where
  pub find-holds : (p : A → Bool) (xs : List A) {x : A} → find p xs ≡ some x → p x ≡ true
  find-holds p [] e = cc
  find-holds p (y ∷ ys) {x} e = elim (Bool-cases (p y)) [
    | inl t ↦ let same : y ≡ x = ground (arith, t, e) in rw (← same) t
    | inr f ↦ find-holds p ys (ground (arith, f, e))
  ]

-- ORDER BY and `sorted`: a stable insertion sort by a test `before` for "sorts before, or equal".
module _ {ℓ} {A : Type ℓ} where
  abbrev pub insert_by : (A → A → Bool) → A → List A → List A
  insert_by before x [] = x ∷ []
  insert_by before x (y ∷ ys) = if before x y then x ∷ y ∷ ys else y ∷ insert_by before x ys

  abbrev pub sort_by : (A → A → Bool) → List A → List A
  sort_by before [] = []
  sort_by before (x ∷ xs) = insert_by before x (sort_by before xs)

  pub length-insert_by :
      (before : A → A → Bool) (x : A) (ys : List A)
      → length (insert_by before x ys) ≡ suc (length ys)
  length-insert_by before x [] = refl
  length-insert_by before x (y ∷ ys) = ground (arith, length-insert_by before x ys)

  pub length-sort_by :
      (before : A → A → Bool) (xs : List A) → length (sort_by before xs) ≡ length xs
  length-sort_by before [] = refl
  length-sort_by before (x ∷ xs) =
      length-insert_by before x (sort_by before xs) ∙ ap suc (length-sort_by before xs)

module _ {ℓ κ} {A : Type ℓ} where
  All-insert_by :
      (P : A → Type κ) (before : A → A → Bool) (x : A) (ys : List A)
      → All P (insert_by before x ys)
      → P x × All P ys
  All-insert_by P before x [] h = h
  All-insert_by P before x (y ∷ ys) h = elim (Bool-cases (before x y)) [
    | inl e ↦ rw e at h
    | inr e ↦
        let h' = rw e at h in
        let (px, rest) = All-insert_by P before x ys h'.1 in (px, (h'.0, rest))
  ]

  pub All-sort_by :
      (P : A → Type κ) (before : A → A → Bool) (xs : List A) → All P (sort_by before xs) → All P xs
  All-sort_by P before [] h = tt
  All-sort_by P before (x ∷ xs) h =
      let (px, rest) = All-insert_by P before x (sort_by before xs) h in
      (px, All-sort_by P before xs rest)

module _ {ℓ} {A : Type ℓ} where
  pub every-All : (p : A → Bool) (xs : List A) → every p xs ≡ true → All (λ x. p x ≡ true) xs
  every-All p [] h = tt
  every-All p (x ∷ xs) h = elim (Bool-cases (p x)) [
    | inl e ↦ (e, every-All p xs (ground (arith, e, h)))
    | inr e ↦ absurd (ground (arith, e, h))
  ]

-- What taking, filtering and sorting keep.
module _ {ℓ κ} {A : Type ℓ} (P : A → Type κ) where
  pub All-take : (n : ℕ) (xs : List A) → All P xs → All P (take n xs)
  All-take zero xs h = tt
  All-take (suc n) [] h = tt
  All-take (suc n) (x ∷ xs) h = (h.0, All-take n xs h.1)

  pub filter-All : (p : A → Bool) (xs : List A) → All P xs → All P (filter p xs)
  filter-All p [] h = tt
  filter-All p (x ∷ xs) h = elim (Bool-cases (p x)) [
    | inl e ↦ rw e (h.0, filter-All p xs h.1)
    | inr e ↦ rw e (filter-All p xs h.1)
  ]

  insert_by-All :
      (before : A → A → Bool) (x : A) (ys : List A) → P x → All P ys → All P (insert_by before x ys)
  insert_by-All before x [] px h = (px, tt)
  insert_by-All before x (y ∷ ys) px h = elim (Bool-cases (before x y)) [
    | inl e ↦ rw e (px, h)
    | inr e ↦ rw e (h.0, insert_by-All before x ys px h.1)
  ]

  pub sort_by-All : (before : A → A → Bool) (xs : List A) → All P xs → All P (sort_by before xs)
  sort_by-All before [] h = tt
  sort_by-All before (x ∷ xs) h =
      insert_by-All before x (sort_by before xs) h.0 (sort_by-All before xs h.1)

module _ {ℓ} {A : Type ℓ} where
  pub filter_holds : (p : A → Bool) (xs : List A) → All (λ x. p x ≡ true) (filter p xs)
  filter_holds p [] = tt
  filter_holds p (x ∷ xs) = elim (Bool-cases (p x)) [
    | inl e ↦ rw e (e, filter_holds p xs)
    | inr e ↦ rw e (filter_holds p xs)
  ]
