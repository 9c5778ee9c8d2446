-- ===== src/Credit/Accounting/Reserve/Allocation.antt =====
-- How a hold is spread over the grants: the loop of `_reserve` over `priority`.
use ai_multimodal_platform.Prelude.{
  ℕ, ◌+◌, ◌-◌, ◌≤◌, ◌≡◌, refl, min, List, [], ◌∷◌, All, arith, ltb, ◌==◌, if◌then◌else◌, inl, inr,
}
use ai_multimodal_platform.Prelude.Result.{ok, Result-cases}
use ai_multimodal_platform.Credit.Policy.{max_bigint}
use ai_multimodal_platform.Credit.Tables.{CreditGrant}
use ai_multimodal_platform.Credit.Lifecycle.{spent}
use ai_multimodal_platform.Credit.Accounting.Reserve.{allocate}

-- The microcredits of a list of allocations.
unfoldable pub taken_total : List (ℕ × ℕ) → ℕ
taken_total [] = 0
taken_total ((gid, n) ∷ as') = n + taken_total as'

-- What the grants still have to give.
pub available_total : List CreditGrant → ℕ
available_total [] = 0
available_total (g ∷ gs) = (g.granted_microcredits - spent g) + available_total gs

-- What the loop gives out and what it reports as missing add up to the amount it was asked for.
pub allocate-total :
    (gs : List CreditGrant) (remaining missing : ℕ) (out : List (ℕ × ℕ))
    → allocate gs remaining ≡ ok (out, missing)
    → taken_total out + missing ≡ remaining
unfolding allocate taken_total
allocate-total [] remaining missing out h = ground arith
allocate-total (g ∷ gs) remaining missing out h =
    let left = remaining - min (g.granted_microcredits - spent g) remaining in
    elim (Result-cases (allocate gs left)) [
      | inl (r, e) ↦ ground (arith, e, allocate-total gs left r.1 r.0 e)
      | inr (c, e) ↦ ground (arith, e)
    ]

-- What it reports as missing is what the grants together have too little, and 0 if they have enough.
pub allocate-missing :
    (gs : List CreditGrant) (remaining missing : ℕ) (out : List (ℕ × ℕ))
    → allocate gs remaining ≡ ok (out, missing)
    → missing ≡ remaining - available_total gs
unfolding allocate available_total
allocate-missing [] remaining missing out h = ground arith
allocate-missing (g ∷ gs) remaining missing out h =
    let left = remaining - min (g.granted_microcredits - spent g) remaining in
    elim (Result-cases (allocate gs left)) [
      | inl (r, e) ↦ ground (arith, e, allocate-missing gs left r.1 r.0 e)
      | inr (c, e) ↦ ground (arith, e)
    ]

-- The grants of the loop are the rows that the counters of a 64-bit column allow, and none is
-- overdrawn.
abbrev pub IsSound : CreditGrant → Type 0
IsSound g = (spent g ≤ g.granted_microcredits) × (g.granted_microcredits ≤ max_bigint)

-- On grants that spent no more than they were granted, and were granted no more than the 64-bit
-- column holds, the loop raises nothing.
pub allocate_total :
    (gs : List CreditGrant) (remaining : ℕ)
    → All IsSound gs
    → (r : List (ℕ × ℕ) × ℕ) × (allocate gs remaining ≡ ok r)
unfolding allocate
allocate_total [] remaining h = (([], remaining), refl)
allocate_total (g ∷ gs) remaining h =
    let taken = min (g.granted_microcredits - spent g) remaining in
    let (r, e) = allocate_total gs (remaining - taken) h.1 in
    let rest = if remaining - taken == 0 then ([], 0) else r in
    (((if ltb 0 taken then (g.id, taken) ∷ rest.0 else rest.0), rest.1), ground (arith, e))
