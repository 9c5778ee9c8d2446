-- ===== src/Prelude/Pointwise.antt =====
-- Two versions of a table, row by row: what a write did to each row.
use ai_multimodal_platform.Prelude.{List, [], ◌∷◌, map}

pub data Pointwise {A : Type 0} (R : A → A → Type 0) : List A → List A → Type 0 where
  nil : Pointwise R [] []
  cons : {x y : A} {xs ys : List A} → R x y → Pointwise R xs ys → Pointwise R (x ∷ xs) (y ∷ ys)

module _ {A : Type 0} {R S : A → A → Type 0} where
  -- A further write of the rows.
  pub Pointwise-map :
      (f : A → A) {xs ys : List A}
      → ((x y : A) → R x y → S x (f y))
      → Pointwise R xs ys
      → Pointwise S xs (map f ys)
  Pointwise-map f each nil = nil
  Pointwise-map f each (cons {x} {y} r rest) = cons (each x y r) (Pointwise-map f each rest)

  pub Pointwise-weaken :
      {xs ys : List A} → ((x y : A) → R x y → S x y) → Pointwise R xs ys → Pointwise S xs ys
  Pointwise-weaken each nil = nil
  Pointwise-weaken each (cons {x} {y} r rest) = cons (each x y r) (Pointwise-weaken each rest)

pub Pointwise-same :
    {A : Type 0} {R : A → A → Type 0} (xs : List A) → ((x : A) → R x x) → Pointwise R xs xs
Pointwise-same [] each = nil
Pointwise-same (x ∷ xs) each = cons (each x) (Pointwise-same xs each)
