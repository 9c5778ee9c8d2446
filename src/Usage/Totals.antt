-- ===== src/Usage/Totals.antt =====
-- The totals of the grants and of the live holds of backend/app/personal_usage.py are the sums of the rows.

use ai_multimodal_platform.Prelude.{
  ℕ, ◌+◌, ◌-◌, ◌≤◌, ◌≡◌, ◌∙◌, not, List, [], ◌∷◌, length, map, ltb, arith,
}
use ai_multimodal_platform.Prelude.Result.{ok, fail_if, >>=-eq-ok, fail_if-eq-ok}
use ai_multimodal_platform.Credit.Tables.{CreditGrant, CreditReservation}
use ai_multimodal_platform.Credit.Lifecycle.{spent}
use ai_multimodal_platform.Credit.Accounting.{is_held}
use ai_multimodal_platform.Credit.Accounting.Sums.{sum}
use ai_multimodal_platform.Usage.{
  usage_unavailable, integer, add, grant_parts, grant_totals_from, reservation_totals_from,
  reservation_totals,
}

pub integer-eq-ok : (v n : ℕ) → integer v ≡ ok n → n ≡ v
unfolding integer
integer-eq-ok v n h = ground (arith, h)

pub add-eq-ok : (total v n : ℕ) → add total v ≡ ok n → n ≡ total + v
unfolding add integer
add-eq-ok total v n h = ground (arith, h)

grant_parts-eq-ok :
    (g : CreditGrant) (p : ℕ × ℕ)
    → grant_parts g ≡ ok p
    → (p.0 + spent g ≡ g.granted_microcredits) × (p.1 ≡ g.reserved_microcredits)
unfolding grant_parts
grant_parts-eq-ok g p h =
    let (granted, e1, h1) = >>=-eq-ok (integer g.granted_microcredits) _ h in
    let (reserved, e2, h2) = >>=-eq-ok (integer g.reserved_microcredits) _ h1 in
    let (consumed, e3, h3) = >>=-eq-ok (integer g.consumed_microcredits) _ h2 in
    let (expired, e4, h4) = >>=-eq-ok (integer g.expired_microcredits) _ h3 in
    let (used, e5, h5) = >>=-eq-ok (add reserved consumed) _ h4 in
    let (gone, e6, h6) = >>=-eq-ok (add used expired) _ h5 in
    let (_, e7, h7) = >>=-eq-ok (fail_if (ltb granted gone) usage_unavailable) _ h6 in
    let q1 = integer-eq-ok g.granted_microcredits granted e1 in
    let q2 = integer-eq-ok g.reserved_microcredits reserved e2 in
    let q3 = integer-eq-ok g.consumed_microcredits consumed e3 in
    let q4 = integer-eq-ok g.expired_microcredits expired e4 in
    let q5 = add-eq-ok reserved consumed used e5 in
    let q6 = add-eq-ok used expired gone e6 in
    let fits : gone ≤ granted =
      ground (arith, fail_if-eq-ok (ltb granted gone) usage_unavailable e7) in
    let p0 : p.0 ≡ granted - gone = cc in
    let p1 : p.1 ≡ reserved = cc in (omega (arith, q1, q2, q3, q4, q5, q6, fits, p0), p1 ∙ q2)

grant_totals_from-exact :
    (available held : ℕ) (grants : List CreditGrant) (out : ℕ × ℕ)
    → grant_totals_from available held grants ≡ ok out
    → (out.0 + sum (map (λ g. spent g) grants)
        ≡ available + sum (map (λ g. g.granted_microcredits) grants))
      × (out.1 ≡ held + sum (map (λ g. g.reserved_microcredits) grants))
unfolding grant_totals_from sum
grant_totals_from-exact available held [] out h =
    let p0 : out.0 ≡ available = cc in
    let p1 : out.1 ≡ held = cc in (omega (arith, p0), omega (arith, p1))
grant_totals_from-exact available held (g ∷ grants) out h =
    let (p, e1, h1) = >>=-eq-ok (grant_parts g) _ h in
    let (a, e2, h2) = >>=-eq-ok (add available p.0) _ h1 in
    let (b, e3, h3) = >>=-eq-ok (add held p.1) _ h2 in
    let (q1, q2) = grant_parts-eq-ok g p e1 in
    let qa = add-eq-ok available p.0 a e2 in
    let qb = add-eq-ok held p.1 b e3 in
    let (r1, r2) = grant_totals_from-exact a b grants out h3 in
    (omega (arith, q1, qa, r1), omega (arith, q2, qb, r2))

-- What is available and what is spent make up what was granted, and the held amount is the sum.
pub grant_totals-exact :
    (grants : List CreditGrant) (out : ℕ × ℕ)
    → grant_totals_from 0 0 grants ≡ ok out
    → (out.0 + sum (map (λ g. spent g) grants) ≡ sum (map (λ g. g.granted_microcredits) grants))
      × (out.1 ≡ sum (map (λ g. g.reserved_microcredits) grants))
grant_totals-exact grants out h =
    let (r1, r2) = grant_totals_from-exact 0 0 grants out h in
    (omega (arith, r1), omega (arith, r2))

reservation_totals_from-exact :
    (held n : ℕ) (rs : List CreditReservation)
    → reservation_totals_from held rs ≡ ok n
    → n ≡ held + sum (map (λ r. r.reserved_microcredits) rs)
unfolding reservation_totals_from sum
reservation_totals_from-exact held n [] h = let p : n ≡ held = cc in omega (arith, p)
reservation_totals_from-exact held n (r ∷ rs) h =
    let (_, e1, h1) = >>=-eq-ok (fail_if (not (is_held r.status)) usage_unavailable) _ h in
    let (a, e2, h2) = >>=-eq-ok (add held r.reserved_microcredits) _ h1 in
    let q = add-eq-ok held r.reserved_microcredits a e2 in
    omega (arith, q, reservation_totals_from-exact a n rs h2)

pub reservation_totals-exact :
    (rs : List CreditReservation) (out : ℕ × ℕ)
    → reservation_totals rs ≡ ok out
    → (out.0 ≡ length rs) × (out.1 ≡ sum (map (λ r. r.reserved_microcredits) rs))
unfolding reservation_totals
reservation_totals-exact rs out h =
    let (n, e, h1) = >>=-eq-ok (reservation_totals_from 0 rs) _ h in
    let p0 : out.0 ≡ length rs = cc in
    let p1 : out.1 ≡ n = cc in
    let q = reservation_totals_from-exact 0 n rs e in (p0, omega (arith, p1, q))
