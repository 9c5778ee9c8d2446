-- ===== src/Credit/Accounting/Terminal/Outcome.antt =====
-- What a call of `settle` or `release` comes to.
use ai_multimodal_platform.Prelude.{
  ℕ, ◌+◌, ◌-◌, ◌<◌, ◌≡◌, refl, ◌∙◌, ap, String, Bool, true, false, some, List, [], ◌∷◌, map, find,
  arith, ◌⊎◌, inl, inr, Option-cases, Bool-cases, find-holds, ◌==◌, ◌&&◌, if◌then◌else◌,
}
use ai_multimodal_platform.Prelude.Result.{ok, Result-cases}
use ai_multimodal_platform.Credit.Tables.{
  CreditAccount, CreditGrant, CreditReservation, CreditReservationItem, CreditReservationAllocation,
  ReservationStatus, held, Session, user_of, account_of, latest_cycle, grants_of,
}
use ai_multimodal_platform.Credit.Tables.Ledger.{IsBalanced}
use ai_multimodal_platform.Credit.Accounting.{
  UsageLine, sum_amounts, is_held, items_of, allocations_of, records_of,
}
use ai_multimodal_platform.Credit.Accounting.Sums.{sum, sum_amounts-exact}
use ai_multimodal_platform.Credit.Accounting.Check.{ledger_coherent, reservation_coherent}
use ai_multimodal_platform.Credit.Accounting.Coherence.{ledger_coherent_sound}
use ai_multimodal_platform.Credit.Accounting.Terminal.{
  Request, TerminalReceipt, terminal_receipt, replay_terminal, item_for, charge_of, charges,
  spent_of, write_close, close_allocation, close_allocations, record_rows, add_records,
  save_reservation, closed, close_hold, reservation_of, reservation_with_terminal_key,
  fresh_terminal, terminal_or_replay, terminal,
}
use ai_multimodal_platform.Credit.Accounting.Terminal.Balance.{
  close_allocation-Round, close_allocations-IsBalanced,
}

-- What closing a hold has checked and computed.
record Parts (q : Request) (r : CreditReservation) (s : Session) (out : TerminalReceipt × Session)
    : Type 0 where
  charged : List (UsageLine × ℕ)
  consumed : ℕ
  after : Session
  priced : charges q.charge r.rate_card_version (items_of r.id s) q.lines ≡ ok charged
  summed : sum_amounts (map (λ c. c.1) charged) ≡ ok consumed
  paid : q.charge ≡ true → 0 < consumed
  spread : close_allocations q r (allocations_of r.id s) consumed s ≡ ok (0, after)
  told : terminal_receipt (closed q r) (record_rows q r charged) false ≡ ok out.0
  written : out.1 ≡ save_reservation (closed q r) (add_records (record_rows q r charged) after)

close_hold-Parts :
    (q : Request) (r : CreditReservation) (s : Session) (out : TerminalReceipt × Session)
    → close_hold q r s ≡ ok out
    → Parts q r s out
unfolding close_hold
close_hold-Parts q r s out h =
    elim (Result-cases (charges q.charge r.rate_card_version (items_of r.id s) q.lines)) [
      | inr (c, e) ↦ absurd (ground (arith, e))
      | inl (cs, e1) ↦ elim (Result-cases (sum_amounts (map (λ c. c.1) cs))) [
        | inr (c, e) ↦ absurd (ground (arith, e1, e))
        | inl (consumed, e2) ↦
            elim (Result-cases (close_allocations q r (allocations_of r.id s) consumed s)) [
              | inr (c, e) ↦ absurd (ground (arith, e1, e2, e))
              | inl (o, e3) ↦
                  elim (Result-cases (terminal_receipt (closed q r) (record_rows q r cs) false)) [
                    | inr (c, e) ↦ absurd (ground (arith, e1, e2, e3, e))
                    | inl (t, e4) ↦ record {
                      charged = cs;
                      consumed = consumed;
                      after = o.1;
                      priced = e1;
                      summed = e2;
                      paid = ground (arith, e1, e2, e3, e4);
                      spread = ground (arith, e1, e2, e3, e4);
                      told = ground (arith, e1, e2, e3, e4);
                      written = ground (arith, e1, e2, e3, e4);
                    }
                  ]
            ]
      ]
    ]

map-record_rows :
    (q : Request) (r : CreditReservation) (cs : List (UsageLine × ℕ))
    → map (λ u. u.charged_microcredits) (record_rows q r cs) ≡ map (λ c. c.1) cs
unfolding record_rows
map-record_rows q r [] = refl
map-record_rows q r ((l, c) ∷ cs) = ap (λ x. c ∷ x) (map-record_rows q r cs)

-- A release charges nothing.
charges_free :
    (version : String) (items : List CreditReservationItem) (ls : List UsageLine)
    (cs : List (UsageLine × ℕ))
    → charges false version items ls ≡ ok cs
    → sum (map (λ c. c.1) cs) ≡ 0
unfolding charges charge_of sum
charges_free version items [] cs h = let same : cs ≡ [] = ground arith in rw same
charges_free version items (l ∷ ls) cs h = elim (Option-cases (item_for l items)) [
  | inl e ↦ absurd (ground (arith, e))
  | inr (i, e1) ↦ elim (Result-cases (charges false version items ls)) [
    | inr (c, e) ↦ absurd (ground (arith, e1, e))
    | inl (rest, e2) ↦
        let same : cs ≡ (l, 0) ∷ rest = ground (arith, e1, e2) in
        rw same (omega (arith, charges_free version items ls rest e2))
  ]
]

charges-unless :
    (charge : Bool)
    → charge ≡ false
    → (version : String) (items : List CreditReservationItem) (ls : List UsageLine)
      (cs : List (UsageLine × ℕ))
    → charges charge version items ls ≡ ok cs
    → sum (map (λ c. c.1) cs) ≡ 0
charges-unless true c version items ls cs h = cc
charges-unless false c version items ls cs h = charges_free version items ls cs h

-- The loop over the allocations leaves the reservations alone.
close_allocations-reservations :
    (q : Request) (r : CreditReservation) (as' : List CreditReservationAllocation) (remaining : ℕ)
    (s : Session) (out : ℕ × Session)
    → close_allocations q r as' remaining s ≡ ok out
    → out.1.reservations ≡ s.reservations
unfolding close_allocations write_close
close_allocations-reservations q r [] remaining s out e =
    let same : s ≡ out.1 = ground arith in rw same
close_allocations-reservations q r (a ∷ as') remaining s out e =
    elim (Result-cases (close_allocation q r a remaining s)) [
      | inr (c, p) ↦ absurd (ground (arith, p))
      | inl (t, p) ↦
          let d = close_allocation-Round q r a remaining s t p in
          let kept : t.reservations ≡ s.reservations = rw d.written refl in
          close_allocations-reservations q r as'
            (remaining - spent_of a.reserved_microcredits remaining) t out (ground (arith, p))
          ∙ kept
    ]

-- A row that is saved is the one that is found.
find-save :
    (uid rid : ℕ) (r r' : CreditReservation) (rs : List CreditReservation)
    → r'.id ≡ r.id
    → r'.user_id ≡ r.user_id
    → find (λ x. (x.id == rid) && x.user_id == uid) rs ≡ some r
    → find (λ x. (x.id == rid) && x.user_id == uid) (map (λ o. if o.id == r'.id then r' else o) rs)
      ≡ some r'
find-save uid rid r r' [] i u e = cc
find-save uid rid r r' (o ∷ rs) i u e =
    let own : ((r.id == rid) && (r.user_id == uid)) ≡ true =
      find-holds (λ x. (x.id == rid) && x.user_id == uid) (o ∷ rs) e in
    let own' : ((r'.id == rid) && (r'.user_id == uid)) ≡ true = ground arith in
    elim (Bool-cases (o.id == r'.id)) [
      | inl t ↦ rw (t, own')
      | inr f ↦
          let other : ((o.id == rid) && (o.user_id == uid)) ≡ false = ground arith in
          rw (f, other) (find-save uid rid r r' rs i u (rw other at e))
    ]

-- A hold of the user that was closed: what is consumed and what is released make up the hold, a
-- release consumes nothing and a settlement something, the hold is in its terminal status under the
-- request's key, and the user's ledger is balanced.
pub record IsClosed (q : Request) (s : Session) (out : TerminalReceipt × Session) : Type 0 where
  pub reservation : CreditReservation
  pub found : reservation_of q.user_id q.reservation_id s ≡ some reservation
  pub live : reservation.status ≡ held
  pub accounted :
      out.0.consumed_microcredits + out.0.released_microcredits ≡ reservation.reserved_microcredits
  pub free : q.charge ≡ false → out.0.consumed_microcredits ≡ 0
  pub paid : q.charge ≡ true → 0 < out.0.consumed_microcredits
  pub after : reservation_of q.user_id q.reservation_id out.1 ≡ some (closed q reservation)
  pub balanced : IsBalanced q.user_id out.1
  pub saved :
      out.1.reservations
      ≡ map (λ o. if o.id == reservation.id then closed q reservation else o) s.reservations

-- The receipt of a closed hold.
told_amounts :
    (q : Request) (r : CreditReservation) (cs : List (UsageLine × ℕ)) (t : TerminalReceipt)
    → terminal_receipt (closed q r) (record_rows q r cs) false ≡ ok t
    → (t.consumed_microcredits ≡ sum (map (λ c. c.1) cs))
      × (t.consumed_microcredits + t.released_microcredits ≡ r.reserved_microcredits)
unfolding terminal_receipt closed
told_amounts q r cs t h =
    elim (Result-cases (sum_amounts (map (λ u. u.charged_microcredits) (record_rows q r cs)))) [
      | inr (c, e) ↦ absurd (ground (arith, e))
      | inl (n, e) ↦
          let exact : n ≡ sum (map (λ c. c.1) cs) =
            rw (← map-record_rows q r cs) (sum_amounts-exact n _ e).0 in
          (ground (arith, e, exact), ground (arith, e))
    ]

is_held-eq : (st : ReservationStatus) → is_held st ≡ true → st ≡ held
is_held-eq st h = ground arith

close_hold-IsClosed :
    (q : Request) (r : CreditReservation) (s : Session) (out : TerminalReceipt × Session)
    → IsBalanced q.user_id s
    → reservation_of q.user_id q.reservation_id s ≡ some r
    → r.status ≡ held
    → close_hold q r s ≡ ok out
    → IsClosed q s out
unfolding reservation_of closed
close_hold-IsClosed q r s out b f live h =
    let p = close_hold-Parts q r s out h in
    let (consumed, accounted) = told_amounts q r p.charged out.0 p.told in
    let sum_eq = (sum_amounts-exact p.consumed (map (λ c. c.1) p.charged) p.summed).0 in
    let kept = close_allocations-reservations q r (allocations_of r.id s) p.consumed s _ p.spread in
    let swept =
      close_allocations-IsBalanced q r (allocations_of r.id s) p.consumed s _ b p.spread in
    record {
      reservation = r;
      found = f;
      live = live;
      accounted = accounted;
      free = λ c.
          consumed
          ∙ charges-unless q.charge c r.rate_card_version (items_of r.id s) q.lines p.charged
              p.priced;
      paid = λ c. omega (arith, p.paid c, consumed, sum_eq);
      after =
          rw (p.written, kept)
            (find-save q.user_id q.reservation_id r (closed q r) s.reservations refl refl f);
      balanced = rw p.written (record { rows = swept.rows });
      saved = rw (p.written, kept);
    }

fresh_terminal-IsClosed :
    (q : Request) (account : CreditAccount) (s : Session) (out : TerminalReceipt × Session)
    → IsBalanced q.user_id s
    → fresh_terminal q account (grants_of q.user_id s) s ≡ ok out
    → IsClosed q s out
unfolding fresh_terminal
fresh_terminal-IsClosed q account s out b h =
    elim (Option-cases (reservation_of q.user_id q.reservation_id s)) [
      | inl e ↦ absurd (ground (arith, e))
      | inr (r, e1) ↦
          elim (Result-cases (
            reservation_coherent r (items_of r.id s) (allocations_of r.id s)
              (grants_of q.user_id s))) [
                | inr (c, e) ↦ absurd (ground (arith, e1, e))
                | inl (u, e2) ↦
                    let live : is_held r.status ≡ true = ground (arith, e1, e2) in
                    let closing : close_hold q r s ≡ ok out = ground (arith, e1, e2) in
                    close_hold-IsClosed q r s out b e1 (is_held-eq r.status live) closing
              ]
    ]

replay_terminal-same :
    (q : Request) (r : CreditReservation) (grants : List CreditGrant) (s : Session)
    (out : TerminalReceipt × Session)
    → replay_terminal q r grants s ≡ ok out
    → (out.0.replayed ≡ true) × (out.1 ≡ s)
unfolding replay_terminal terminal_receipt
replay_terminal-same q r grants s out h =
    elim (Result-cases (reservation_coherent r (items_of r.id s) (allocations_of r.id s) grants)) [
      | inr (c, e) ↦ absurd (ground (arith, e))
      | inl (u, e1) ↦
          elim (Result-cases
            (sum_amounts (map (λ u. u.charged_microcredits) (records_of r.id s)))) [
              | inr (c, e) ↦ absurd (ground (arith, e1, e))
              | inl (n, e2) ↦ (ground (arith, e1, e2), ground (arith, e1, e2))
            ]
    ]

-- A successful terminal call either replays an earlier one and changes nothing, or closes a live
-- hold of the user as `IsClosed` says.
pub terminal-IsClosed :
    (q : Request) (s : Session) (out : TerminalReceipt × Session)
    → terminal q s ≡ ok out
    → ((out.0.replayed ≡ true) × (out.1 ≡ s)) ⊎ IsClosed q s out
unfolding terminal terminal_or_replay
terminal-IsClosed q s out h =
    let grants = grants_of q.user_id s in
    elim (Option-cases (user_of q.user_id s)) [
      | inl e ↦ absurd (ground (arith, e))
      | inr (u, e1) ↦ elim (Option-cases (account_of q.user_id s)) [
        | inl e ↦ absurd (ground (arith, e1, e))
        | inr (a, e2) ↦ elim (Option-cases (latest_cycle q.user_id s)) [
          | inl e ↦ absurd (ground (arith, e1, e2, e))
          | inr (c, e3) ↦ elim (Result-cases (ledger_coherent q.user_id grants s)) [
            | inr (x, e) ↦ absurd (ground (arith, e1, e2, e3, e))
            | inl (t, e4) ↦ elim (Option-cases (reservation_with_terminal_key q.user_id q.key s)) [
              | inr (r, e5) ↦
                  inl (replay_terminal-same q r grants s out (ground (arith, e1, e2, e3, e4, e5)))
              | inl e5 ↦ inr (
                  fresh_terminal-IsClosed q a s out (ledger_coherent_sound q.user_id s e4).0
                    (ground (arith, e1, e2, e3, e4, e5)))
            ]
          ]
        ]
      ]
    ]

-- A hold is closed once: after a successful call that was no replay, a successful call of the same
-- user for the same hold, on the session it left, can only be a replay that changes nothing,
-- whatever it asks for, under whatever key.
pub terminal_once :
    (q q' : Request) (s : Session) (out out' : TerminalReceipt × Session)
    → terminal q s ≡ ok out
    → out.0.replayed ≡ false
    → q'.user_id ≡ q.user_id
    → q'.reservation_id ≡ q.reservation_id
    → terminal q' out.1 ≡ ok out'
    → (out'.0.replayed ≡ true) × (out'.1 ≡ out.1)
unfolding closed
terminal_once q q' s out out' h fresh u i h' = elim (terminal-IsClosed q s out h) [
  | inl same ↦ absurd (cc (same.0, fresh))
  | inr first ↦ elim (terminal-IsClosed q' out.1 out' h') [
    | inl same ↦ same
    | inr second ↦
        let live = second.live in
        let found = rw (u, i) at second.found in absurd (ground (arith, first.after, found, live))
  ]
]
