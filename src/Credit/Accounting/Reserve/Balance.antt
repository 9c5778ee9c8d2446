-- ===== src/Credit/Accounting/Reserve/Balance.antt =====
-- The writes of a hold (`_reserve` of backend/app/credit_accounting.py) and the ledger's balance.
use ai_multimodal_platform.Prelude.{
  ℕ, suc, ◌≡◌, refl, String, List, [], ◌∷◌, arith, map, length, any, not, ◌<◌, false, sort_by, inl,
  inr,
}
use ai_multimodal_platform.Prelude.Int.{int_laws}
use ai_multimodal_platform.Prelude.Result.{ok, Result-cases}
use ai_multimodal_platform.Credit.Tables.{Session, grants_of}
use ai_multimodal_platform.Credit.Tables.Ledger.{IsBalanced, IsPosted-event, add_event-IsBalanced}
use ai_multimodal_platform.Credit.Policy.{PlanPolicy}
use ai_multimodal_platform.Credit.Accounting.{UsageEstimate, held_of, sum_positive}
use ai_multimodal_platform.Credit.Accounting.Check.{ledger_coherent}
use ai_multimodal_platform.Credit.Accounting.Reserve.{
  ReservationReceipt, post_allocation, post_allocations, write_hold, hold_within, quotes, allocate,
  grant_before,
}

post_allocation-IsBalanced :
    (uid rid now ordinal : ℕ) (a : ℕ × ℕ) (s : Session)
    → IsBalanced uid s
    → IsBalanced uid (post_allocation uid rid now ordinal a s)
unfolding post_allocation
post_allocation-IsBalanced uid rid now ordinal (gid, taken) s h = record {
  rows =
      (add_event-IsBalanced uid gid _ _ s refl
        (λ g same p own.
          IsPosted-event uid s.ledger_events _ g _ refl (ground arith)
            (record {
              id = refl;
              granted = omega int_laws;
              reserved = omega int_laws;
              consumed = omega int_laws;
              expired = omega int_laws;
            })
            (p own))
        h).rows;
}

post_allocations-IsBalanced :
    (uid rid now ordinal : ℕ) (as' : List (ℕ × ℕ)) (s : Session)
    → IsBalanced uid s
    → IsBalanced uid (post_allocations uid rid now ordinal as' s)
unfolding post_allocations
post_allocations-IsBalanced uid rid now ordinal [] s h = h
post_allocations-IsBalanced uid rid now ordinal (a ∷ as') s h =
    post_allocations-IsBalanced uid rid now (suc ordinal) as'
      (post_allocation uid rid now ordinal a s)
      (post_allocation-IsBalanced uid rid now ordinal a s h)

pub write_hold-IsBalanced :
    (uid : ℕ) (key : String) (now total : ℕ) (quoted : List (UsageEstimate × ℕ))
    (allocations : List (ℕ × ℕ)) (s : Session)
    → IsBalanced uid s
    → IsBalanced uid (write_hold uid key now total quoted allocations s).1
unfolding write_hold
write_hold-IsBalanced uid key now total quoted allocations s h =
    post_allocations-IsBalanced uid (s.uuid4 0) now 0 allocations _ (record { rows = h.rows })

-- What a successful hold has checked and computed.
pub record Parts (policy : PlanPolicy) (uid : ℕ) (key : String) (now : ℕ) (es : List UsageEstimate)
    (s : Session) (out : ReservationReceipt × Session) : Type 0 where
  pub quoted : List (UsageEstimate × ℕ)
  pub total : ℕ
  pub allocations : List (ℕ × ℕ)
  pub coherent : ledger_coherent uid (grants_of uid s) s ≡ ok tt
  pub room : length (held_of uid s) < policy.max_concurrent_requests
  pub permitted : any (λ e. not (policy.permits e.meter)) es ≡ false
  pub priced : quotes es ≡ ok quoted
  pub summed : sum_positive (map (λ q. q.1) quoted) ≡ ok total
  pub spread : allocate (sort_by grant_before (grants_of uid s)) total ≡ ok (allocations, 0)
  pub written : out ≡ write_hold uid key now total quoted allocations s

pub hold_within-Parts :
    (policy : PlanPolicy) (uid : ℕ) (key : String) (now : ℕ) (es : List UsageEstimate) (s : Session)
    (out : ReservationReceipt × Session)
    → hold_within policy uid key now es s ≡ ok out
    → Parts policy uid key now es s out
unfolding hold_within
hold_within-Parts policy uid key now es s out h =
    elim (Result-cases (ledger_coherent uid (grants_of uid s) s)) [
      | inr (c, e) ↦ absurd (ground (arith, e))
      | inl (u, e1) ↦ elim (Result-cases (quotes es)) [
        | inr (c, e) ↦ absurd (ground (arith, e1, e))
        | inl (quoted, e2) ↦ elim (Result-cases (sum_positive (map (λ q. q.1) quoted))) [
          | inr (c, e) ↦ absurd (ground (arith, e1, e2, e))
          | inl (total, e3) ↦
              elim (Result-cases (allocate (sort_by grant_before (grants_of uid s)) total)) [
                | inr (c, e) ↦ absurd (ground (arith, e1, e2, e3, e))
                | inl (r, e4) ↦ record {
                  quoted = quoted;
                  total = total;
                  allocations = r.0;
                  coherent = e1;
                  room = ground (arith, e1, e2, e3, e4);
                  permitted = ground (arith, e1, e2, e3, e4);
                  priced = e2;
                  summed = e3;
                  spread = ground (arith, e1, e2, e3, e4);
                  written = ground (arith, e1, e2, e3, e4);
                }
              ]
        ]
      ]
    ]
