-- ===== src/Credit/Accounting/Coherence.antt =====
-- What `_ledger_coherent` of backend/app/credit_accounting.py establishes about a user's grants.
use ai_multimodal_platform.Prelude.{
  ℕ, ◌+◌, ◌≤◌, ◌≡◌, refl, true, false, List, [], ◌∷◌, All, All-map, All-filter, All-sort_by, filter,
  insert_by, sort_by, arith, ◌==◌, if◌then◌else◌, inl, inr, Bool-cases,
}
use ai_multimodal_platform.Prelude.Int.{ℤ, pos, negsuc, ◌+ℤ◌, int_laws}
use ai_multimodal_platform.Prelude.Result.{ok, >>=-eq-ok}
use ai_multimodal_platform.Credit.Tables.{
  CreditGrant, CreditLedgerEvent, Session, event_before, events_of, grant_id_before, grants_of,
}
use ai_multimodal_platform.Credit.Tables.Ledger.{posted, IsPosted, IsBalanced}
use ai_multimodal_platform.Credit.Accounting.Check.{
  Totals, zeros, update, add_deltas, add_events, is_amount, grant_matches, check_grants,
  ledger_coherent,
}

abbrev Delta : Type 0
Delta = CreditLedgerEvent → ℤ

-- The sum of one delta over the events of a grant.
summed : Delta → ℕ → List CreditLedgerEvent → ℤ
summed delta gid [] = pos 0
summed delta gid (e ∷ es) =
    let rest = summed delta gid es in if e.grant_id == gid then delta e +ℤ rest else rest

summed-insert_by :
    (delta : Delta) (gid : ℕ) (e : CreditLedgerEvent) (es : List CreditLedgerEvent)
    → summed delta gid (insert_by event_before e es) ≡ summed delta gid (e ∷ es)
unfolding summed
summed-insert_by delta gid e [] = refl
summed-insert_by delta gid e (x ∷ xs) = elim (Bool-cases (event_before e x)) [
  | inl first ↦ rw first
  | inr later ↦ rw later (rw (summed-insert_by delta gid e xs) (swap_firsts delta gid e x xs))
]
  where
    swap_firsts :
        (d : Delta) (k : ℕ) (a b : CreditLedgerEvent) (r : List CreditLedgerEvent)
        → summed d k (b ∷ a ∷ r) ≡ summed d k (a ∷ b ∷ r)
    swap_firsts d k a b r = elim (Bool-cases (a.grant_id == k)) [
      | inl p ↦ elim (Bool-cases (b.grant_id == k)) [
        | inl q ↦ rw (p, q) (omega int_laws)
        | inr q ↦ rw (p, q)
      ]
      | inr p ↦ rw p
    ]

summed-sort_by :
    (delta : Delta) (gid : ℕ) (es : List CreditLedgerEvent)
    → summed delta gid (sort_by event_before es) ≡ summed delta gid es
unfolding summed
summed-sort_by delta gid [] = refl
summed-sort_by delta gid (e ∷ es) =
    rw (summed-insert_by delta gid e (sort_by event_before es)) (rw (summed-sort_by delta gid es))

summed-filter :
    (delta : Delta) (uid gid : ℕ) (es : List CreditLedgerEvent)
    → summed delta gid (filter (λ e. e.user_id == uid) es) ≡ posted delta uid gid es
unfolding summed posted
summed-filter delta uid gid [] = refl
summed-filter delta uid gid (e ∷ es) = elim (Bool-cases (e.user_id == uid)) [
  | inl own ↦ rw (own, summed-filter delta uid gid es)
  | inr foreign ↦ rw (foreign, summed-filter delta uid gid es)
]

summed-events_of :
    (delta : Delta) (uid gid : ℕ) (s : Session)
    → summed delta gid (events_of uid s) ≡ posted delta uid gid s.ledger_events
unfolding events_of
summed-events_of delta uid gid s =
    rw (summed-sort_by delta gid (filter (λ e. e.user_id == uid) s.ledger_events))
      (summed-filter delta uid gid s.ledger_events)

-- After the loop over the events, each total has grown by the sum of its deltas.
record Grown (es : List CreditLedgerEvent) (k : ℕ) (t u : Totals) : Type 0 where
  granted : u.granted ≡ t.granted +ℤ summed (λ e. e.granted_delta) k es
  reserved : u.reserved ≡ t.reserved +ℤ summed (λ e. e.reserved_delta) k es
  consumed : u.consumed ≡ t.consumed +ℤ summed (λ e. e.consumed_delta) k es
  expired : u.expired ≡ t.expired +ℤ summed (λ e. e.expired_delta) k es

regroup : (u t d r : ℤ) → u ≡ t +ℤ d +ℤ r → u ≡ t +ℤ (d +ℤ r)
regroup u t d r h = rw h (omega int_laws)

Grown-cons :
    (e : CreditLedgerEvent) (es : List CreditLedgerEvent) (k : ℕ) (totals : ℕ → Totals) (u : Totals)
    → Grown es k (update e.grant_id (add_deltas e (totals e.grant_id)) totals k) u
    → Grown (e ∷ es) k (totals k) u
unfolding summed update add_deltas
Grown-cons e es k totals u g = elim (Bool-cases (e.grant_id == k)) [
  | inl own ↦
      let back : (k == e.grant_id) ≡ true = ground arith in
      let same : e.grant_id ≡ k = ground arith in
      record {
        granted = rw own (regroup _ _ _ _ (rw (← same) (rw back at g.granted)));
        reserved = rw own (regroup _ _ _ _ (rw (← same) (rw back at g.reserved)));
        consumed = rw own (regroup _ _ _ _ (rw (← same) (rw back at g.consumed)));
        expired = rw own (regroup _ _ _ _ (rw (← same) (rw back at g.expired)));
      }
  | inr other ↦
      let back : (k == e.grant_id) ≡ false = ground arith in
      record {
        granted = rw other (rw back at g.granted);
        reserved = rw other (rw back at g.reserved);
        consumed = rw other (rw back at g.consumed);
        expired = rw other (rw back at g.expired);
      }
]

add_events-Grown :
    (grants : List CreditGrant) (es : List CreditLedgerEvent) (totals : ℕ → Totals)
    {after : ℕ → Totals} (k : ℕ)
    → add_events grants es totals ≡ ok after
    → Grown es k (totals k) (after k)
unfolding add_events summed
add_events-Grown grants [] totals {after} k h =
    let same : totals ≡ after = cc in
    rw (← same) (record {
      granted = omega int_laws;
      reserved = omega int_laws;
      consumed = omega int_laws;
      expired = omega int_laws;
    })
add_events-Grown grants (e ∷ es) totals {after} k h =
    let more : add_events grants es (update e.grant_id (add_deltas e (totals e.grant_id)) totals)
        ≡ ok after =
      ground arith in
    Grown-cons e es k totals (after k) (
      add_events-Grown grants es (update e.grant_id (add_deltas e (totals e.grant_id)) totals) k
        more)

-- A counter that the code accepts is the number that its total stands for.
is_amount-eq : (z : ℤ) (n : ℕ) → is_amount z n ≡ true → z ≡ pos n
is_amount-eq (pos m) n h = ground arith
is_amount-eq (negsuc m) n h = cc

-- A grant spends no more than it was granted.
abbrev pub IsCovered : CreditGrant → Type 0
IsCovered g =
    g.reserved_microcredits + g.consumed_microcredits + g.expired_microcredits
    ≤ g.granted_microcredits

record Matched (g : CreditGrant) (t : Totals) : Type 0 where
  granted : t.granted ≡ pos g.granted_microcredits
  reserved : t.reserved ≡ pos g.reserved_microcredits
  consumed : t.consumed ≡ pos g.consumed_microcredits
  expired : t.expired ≡ pos g.expired_microcredits
  covered : IsCovered g

grant_matches-Matched : (g : CreditGrant) (t : Totals) → grant_matches g t ≡ true → Matched g t
unfolding grant_matches
grant_matches-Matched g t h =
    let granted : is_amount t.granted g.granted_microcredits ≡ true = ground arith in
    let reserved : is_amount t.reserved g.reserved_microcredits ≡ true = ground arith in
    let consumed : is_amount t.consumed g.consumed_microcredits ≡ true = ground arith in
    let expired : is_amount t.expired g.expired_microcredits ≡ true = ground arith in
    record {
      granted = is_amount-eq t.granted g.granted_microcredits granted;
      reserved = is_amount-eq t.reserved g.reserved_microcredits reserved;
      consumed = is_amount-eq t.consumed g.consumed_microcredits consumed;
      expired = is_amount-eq t.expired g.expired_microcredits expired;
      covered = ground arith;
    }

check_grants-Matched :
    (gs : List CreditGrant) (totals : ℕ → Totals)
    → check_grants gs totals ≡ ok tt
    → All (λ g. Matched g (totals g.id)) gs
unfolding check_grants
check_grants-Matched [] totals h = tt
check_grants-Matched (g ∷ gs) totals h =
    let accepted : grant_matches g (totals g.id) ≡ true = ground arith in
    let more : check_grants gs totals ≡ ok tt = ground arith in
    (grant_matches-Matched g (totals g.id) accepted, check_grants-Matched gs totals more)

from_zero : (s t z : ℤ) (n : ℕ) → t ≡ pos 0 +ℤ s → s ≡ z → t ≡ pos n → z ≡ pos n
from_zero s t z n grown same m =
    let zero_first : pos 0 +ℤ s ≡ s = omega int_laws in rw (← same, ← zero_first, ← grown) m

Matched-IsPosted :
    (uid : ℕ) (s : Session) (g : CreditGrant) (t : Totals)
    → Grown (events_of uid s) g.id zeros t
    → Matched g t
    → IsPosted uid s.ledger_events g
Matched-IsPosted uid s g t grown m = record {
  granted =
      from_zero _ _ _ _ grown.granted (summed-events_of (λ e. e.granted_delta) uid g.id s)
        m.granted;
  reserved =
      from_zero _ _ _ _ grown.reserved (summed-events_of (λ e. e.reserved_delta) uid g.id s)
        m.reserved;
  consumed =
      from_zero _ _ _ _ grown.consumed (summed-events_of (λ e. e.consumed_delta) uid g.id s)
        m.consumed;
  expired =
      from_zero _ _ _ _ grown.expired (summed-events_of (λ e. e.expired_delta) uid g.id s)
        m.expired;
}

-- The rows of a user stand in `grants_of`.
pub All-grants_of :
    (P : CreditGrant → Type 0) (uid : ℕ) (s : Session)
    → All P (grants_of uid s)
    → All (λ g. g.user_id ≡ uid → P g) s.grants
unfolding grants_of
All-grants_of P uid s h =
    All-map _ _ s.grants (λ g f own. f (ground arith))
      (All-filter P (λ g. g.user_id == uid) s.grants
        (All-sort_by P grant_id_before (filter (λ g. g.user_id == uid) s.grants) h))

-- When `_ledger_coherent` passes on the user's grants, each counter of each of them is the sum of
-- the deltas that the ledger holds for it, and none spends more than it was granted.
pub ledger_coherent_sound :
    (uid : ℕ) (s : Session)
    → ledger_coherent uid (grants_of uid s) s ≡ ok tt
    → IsBalanced uid s × All (λ g. g.user_id ≡ uid → IsCovered g) s.grants
unfolding ledger_coherent
ledger_coherent_sound uid s h =
    let grants = grants_of uid s in
    let (totals, counted, checked) =
      >>=-eq-ok (add_events grants (events_of uid s) (λ k. zeros)) (check_grants grants) h in
    let matched = check_grants-Matched grants totals checked in
    let grown =
      λ (g : CreditGrant). add_events-Grown grants (events_of uid s) (λ k. zeros) g.id counted in
    (
      record {
        rows =
            All-grants_of (λ g. IsPosted uid s.ledger_events g) uid s
              (All-map _ _ grants (λ g m. Matched-IsPosted uid s g (totals g.id) (grown g) m)
                matched);
      },
      All-grants_of IsCovered uid s (All-map _ _ grants (λ g m. m.covered) matched),
    )
