-- ===== src/Generation/Letters.antt =====
-- Texts of ids that count letters, as an instance of the parameter UuidText for runs.
use ai_multimodal_platform.Prelude.{
  ℕ, zero, suc, ◌≡◌, refl, ap, false, Option, none, some, String, str_eq, eq_iff, arith, inl, inr,
  Bool-cases,
}
use ai_multimodal_platform.Generation.{UuidText}

-- n + 1 letters
abbrev pub letters : ℕ → String
letters zero = "a"
letters (suc n) = String.◌∷◌ "a" (letters n)

abbrev pub size : String → ℕ
size String.[] = 0
size (String.◌∷◌ c s) = suc (size s)

abbrev pub less_one : ℕ → Option ℕ
less_one zero = none
less_one (suc n) = some n

pub size-letters : (n : ℕ) → size (letters n) ≡ suc n
size-letters zero = refl
size-letters (suc n) = ap suc (size-letters n)

pub letters_nonempty : (n : ℕ) → str_eq (letters n) "" ≡ false
letters_nonempty n = elim (Bool-cases (str_eq (letters n) "")) [
  | inl e ↦
      let same : letters n ≡ "" = (eq_iff (letters n) "").0 e in
      let sized : size (letters n) ≡ 0 = ap size same in
      absurd (omega (arith, sized, size-letters n))
  | inr e ↦ e
]

abbrev pub unary : UuidText
unary = record {
  str = letters;
  hex = letters;
  parse = λ t. less_one (size t);
  parse-str = λ n. ap less_one (size-letters n);
  str_nonempty = letters_nonempty;
}
