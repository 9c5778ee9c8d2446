-- ===== src/Credit/Accounting/Reserve/Outcome.antt =====
-- What a call of `reserve` comes to.
use ai_multimodal_platform.Prelude.{
  ℕ, suc, ◌+◌, ◌<◌, ◌≡◌, refl, sym, ◌∙◌, String, true, false, not, some, List, [], ◌∷◌, ◌++◌, map,
  length, any, filter, ◌≤◌, arith, ◌⊎◌, inl, inr, Option-cases, ◌==◌, ◌&&◌, sort_by,
}
use mathlib.Core.List.{append_assoc, append-nil}
use ai_multimodal_platform.Prelude.Result.{ok, Result-cases}
use ai_multimodal_platform.Credit.Policy.{PlanPolicy, plan_policy}
use ai_multimodal_platform.Credit.Tables.{
  User, CreditAccount, Session, CreditReservation, CreditReservationAllocation, held, user_of,
  account_of, grants_of,
}
use ai_multimodal_platform.Credit.Tables.Ledger.{IsBalanced}
use ai_multimodal_platform.Credit.Lifecycle.Ensure.{ensure_cycle}
use ai_multimodal_platform.Credit.Lifecycle.Ensure.Keeps.{Keeps, ensure_cycle-Keeps}
use ai_multimodal_platform.Credit.Accounting.{
  RawEstimate, UsageEstimate, estimates, held_of, is_held,
}
use ai_multimodal_platform.Credit.Accounting.Sums.{sum_positive-exact}
use ai_multimodal_platform.Credit.Accounting.Coherence.{ledger_coherent_sound}
use ai_multimodal_platform.Credit.Accounting.Reserve.{
  ReservationReceipt, new_hold, add_hold, post_allocation, post_allocations, write_hold, fresh_hold,
  reserve_or_replay, reservation_with_key, reserve, cycle_of_view, grant_before,
}
use ai_multimodal_platform.Credit.Accounting.Reserve.Allocation.{taken_total, allocate-total}
use ai_multimodal_platform.Credit.Accounting.Reserve.Balance.{
  Parts, hold_within-Parts, write_hold-IsBalanced,
}

-- A hold that was made, and the session in which the cycle was current.
pub record Made (uid : ℕ) (key : String) (raw : List RawEstimate) (now : ℕ) (s : Session)
    (out : ReservationReceipt × Session) : Type 0 where
  pub estimated : List UsageEstimate
  pub account : CreditAccount
  pub policy : PlanPolicy
  pub current : Session
  pub checked : estimates raw ≡ ok estimated
  pub found : account_of uid current ≡ some account
  pub allowed : plan_policy account.plan ≡ ok policy
  pub kept : Keeps s current
  pub parts : Parts policy uid key now estimated current out

fresh_hold-Made :
    (uid : ℕ) (u : User) (key : String) (raw : List RawEstimate) (es : List UsageEstimate) (now : ℕ)
    (s : Session) (out : ReservationReceipt × Session)
    → estimates raw ≡ ok es
    → fresh_hold uid u key es now s ≡ ok out
    → Made uid key raw now s out
unfolding fresh_hold
fresh_hold-Made uid u key raw es now s out c h = elim (Result-cases (ensure_cycle uid now s)) [
  | inr (x, e) ↦ absurd (ground (arith, e))
  | inl (v, e1) ↦ elim (Option-cases (account_of uid v.1)) [
    | inl e ↦ absurd (ground (arith, e1, e))
    | inr (a, e2) ↦ elim (Option-cases (cycle_of_view uid v.0 v.1)) [
      | inl e ↦ absurd (ground (arith, e1, e2, e))
      | inr (y, e3) ↦ elim (Result-cases (plan_policy a.plan)) [
        | inr (x, e) ↦ absurd (ground (arith, e1, e2, e3, e))
        | inl (p, e4) ↦ record {
          estimated = es;
          account = a;
          policy = p;
          current = v.1;
          checked = c;
          found = e2;
          allowed = e4;
          kept = ensure_cycle-Keeps uid now s v e1;
          parts = hold_within-Parts p uid key now es v.1 out (ground (arith, e1, e2, e3, e4));
        }
      ]
    ]
  ]
]

-- A successful `reserve` is a replay that changes nothing, or a hold that was made.
pub reserve-Made :
    (uid : ℕ) (key : String) (raw : List RawEstimate) (now : ℕ) (s : Session)
    (out : ReservationReceipt × Session)
    → reserve uid key raw now s ≡ ok out
    → ((out.0.replayed ≡ true) × (out.1 ≡ s)) ⊎ Made uid key raw now s out
unfolding reserve reserve_or_replay
reserve-Made uid key raw now s out h = elim (Result-cases (estimates raw)) [
  | inr (c, e) ↦ absurd (ground (arith, e))
  | inl (es, e1) ↦ elim (Option-cases (user_of uid s)) [
    | inl e ↦ absurd (ground (arith, e1, e))
    | inr (u, e2) ↦ elim (Option-cases (reservation_with_key uid key s)) [
      | inr (r, e3) ↦ inl (ground (arith, e1, e2, e3), ground (arith, e1, e2, e3))
      | inl e3 ↦ inr (fresh_hold-Made uid u key raw es now s out e1 (ground (arith, e1, e2, e3)))
    ]
  ]
]

unfoldable pub rows_total : List CreditReservationAllocation → ℕ
rows_total [] = 0
rows_total (a ∷ as') = a.reserved_microcredits + rows_total as'

-- The loop that writes the allocations adds one row for each, and leaves these tables alone.
record Posted (as' : List (ℕ × ℕ)) (s t : Session) : Type 0 where
  rows : List CreditReservationAllocation
  appended : t.allocations ≡ s.allocations ++ rows
  total : rows_total rows ≡ taken_total as'
  reservations : t.reservations ≡ s.reservations
  accounts : t.accounts ≡ s.accounts

post_allocations-Posted :
    (uid rid now ordinal : ℕ) (as' : List (ℕ × ℕ)) (s : Session)
    → Posted as' s (post_allocations uid rid now ordinal as' s)
unfolding post_allocations rows_total taken_total
post_allocations-Posted uid rid now ordinal [] s = record {
  rows = [];
  appended = sym (append-nil s.allocations);
  total = refl;
  reservations = refl;
  accounts = refl;
}
post_allocations-Posted uid rid now ordinal (a ∷ as') s =
    let more =
      post_allocations-Posted uid rid now (suc ordinal) as'
        (post_allocation uid rid now ordinal a s) in
    record {
      rows =
          record {
            reservation_id = rid;
            grant_id = a.0;
            user_id = uid;
            ordinal = ordinal;
            reserved_microcredits = a.1;
          }
          ∷ more.rows;
      appended = more.appended ∙ append_assoc s.allocations _ more.rows;
      total = omega (arith, more.total);
      reservations = more.reservations;
      accounts = more.accounts;
    }

-- A session that gained one hold of the user, with the receipt's id and amount; the new allocations
-- add up to the amount, and the user's ledger is balanced.
pub record IsHold (uid : ℕ) (s : Session) (out : ReservationReceipt × Session) : Type 0 where
  pub reservation : CreditReservation
  pub rows : List CreditReservationAllocation
  pub reserved : out.1.reservations ≡ s.reservations ++ reservation ∷ []
  pub same_id : reservation.id ≡ out.0.reservation_id
  pub same_amount : reservation.reserved_microcredits ≡ out.0.reserved_microcredits
  pub owner : reservation.user_id ≡ uid
  pub live : reservation.status ≡ held
  pub positive : 0 < out.0.reserved_microcredits
  pub allocated : out.1.allocations ≡ s.allocations ++ rows
  pub backed : rows_total rows ≡ out.0.reserved_microcredits
  pub balanced : IsBalanced uid out.1
  pub fresh : out.0.replayed ≡ false

Made-IsHold :
    (uid : ℕ) (key : String) (raw : List RawEstimate) (now : ℕ) (s : Session)
    (out : ReservationReceipt × Session)
    → Made uid key raw now s out
    → IsHold uid s out
unfolding write_hold
Made-IsHold uid key raw now s out m =
    let p = m.parts in
    let amount = sum_positive-exact p.total (map (λ q. q.1) p.quoted) p.summed in
    let spread =
      allocate-total (sort_by grant_before (grants_of uid m.current)) p.total 0 p.allocations
        p.spread in
    let posted =
      post_allocations-Posted uid (m.current.uuid4 0) now 0 p.allocations
        (add_hold (new_hold (m.current.uuid4 0) uid key now p.total) p.quoted m.current) in
    rw p.written (record {
      reservation = new_hold (m.current.uuid4 0) uid key now p.total;
      rows = posted.rows;
      reserved = rw posted.reservations (rw m.kept.reservations refl);
      same_id = refl;
      same_amount = refl;
      owner = refl;
      live = refl;
      fresh = refl;
      positive = amount.2;
      allocated = rw (← m.kept.allocations) posted.appended;
      backed = omega (arith, posted.total, spread);
      balanced =
          write_hold-IsBalanced uid key now p.total p.quoted p.allocations m.current
            (ledger_coherent_sound uid m.current p.coherent).0;
    })

-- A successful `reserve` either replays an earlier call and changes nothing, or adds one live hold
-- of the user, of the receipt's id and a positive amount, whose new allocations add up to that
-- amount, and leaves every counter of the user's grants equal to the sum of its ledger events.
pub reserve-IsHold :
    (uid : ℕ) (key : String) (raw : List RawEstimate) (now : ℕ) (s : Session)
    (out : ReservationReceipt × Session)
    → reserve uid key raw now s ≡ ok out
    → ((out.0.replayed ≡ true) × (out.1 ≡ s)) ⊎ IsHold uid s out
reserve-IsHold uid key raw now s out h = elim (reserve-Made uid key raw now s out h) [
  | inl same ↦ inl same
  | inr made ↦ inr (Made-IsHold uid key raw now s out made)
]

length-held_of-append :
    (uid : ℕ) (r : CreditReservation) (rs : List CreditReservation)
    → r.user_id ≡ uid
    → r.status ≡ held
    → length (filter (λ x. x.user_id == uid && is_held x.status) (rs ++ r ∷ []))
      ≡ suc (length (filter (λ x. x.user_id == uid && is_held x.status) rs))
length-held_of-append uid r [] own live = ground arith
length-held_of-append uid r (x ∷ rs) own live =
    ground (arith, length-held_of-append uid r rs own live)

-- What the plan of the account promises of a hold that was just made: the user's live holds do not
-- outnumber the plan's requests, and the plan permits every meter of the request.
pub record IsAllowed (uid : ℕ) (raw : List RawEstimate) (out : ReservationReceipt × Session)
    : Type 0 where
  pub account : CreditAccount
  pub policy : PlanPolicy
  pub estimated : List UsageEstimate
  pub found : account_of uid out.1 ≡ some account
  pub known : plan_policy account.plan ≡ ok policy
  pub checked : estimates raw ≡ ok estimated
  pub concurrency : length (held_of uid out.1) ≤ policy.max_concurrent_requests
  pub permitted : any (λ e. not (policy.permits e.meter)) estimated ≡ false

Made-IsAllowed :
    (uid : ℕ) (key : String) (raw : List RawEstimate) (now : ℕ) (s : Session)
    (out : ReservationReceipt × Session)
    → Made uid key raw now s out
    → IsAllowed uid raw out
unfolding write_hold held_of
Made-IsAllowed uid key raw now s out m =
    let p = m.parts in
    let r = new_hold (m.current.uuid4 0) uid key now p.total in
    let posted =
      post_allocations-Posted uid (m.current.uuid4 0) now 0 p.allocations
        (add_hold (new_hold (m.current.uuid4 0) uid key now p.total) p.quoted m.current) in
    let counted = length-held_of-append uid r m.current.reservations refl refl in
    let room = p.room in
    rw p.written (record {
      account = m.account;
      policy = m.policy;
      estimated = m.estimated;
      found = rw posted.accounts m.found;
      known = m.allowed;
      checked = m.checked;
      concurrency = rw posted.reservations (omega (arith, counted, room));
      permitted = p.permitted;
    })

-- A hold that was made stays within the plan of the account: with it, the user has no more live
-- holds than the plan's concurrent requests, and every meter of the request is permitted.
pub reserve-IsAllowed :
    (uid : ℕ) (key : String) (raw : List RawEstimate) (now : ℕ) (s : Session)
    (out : ReservationReceipt × Session)
    → reserve uid key raw now s ≡ ok out
    → out.0.replayed ≡ false
    → IsAllowed uid raw out
reserve-IsAllowed uid key raw now s out h new = elim (reserve-Made uid key raw now s out h) [
  | inl same ↦ absurd (cc (same.0, new))
  | inr made ↦ Made-IsAllowed uid key raw now s out made
]
