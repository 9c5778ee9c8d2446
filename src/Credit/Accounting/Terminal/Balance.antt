-- ===== src/Credit/Accounting/Terminal/Balance.antt =====
-- The writes of `_terminal` of backend/app/credit_accounting.py and the ledger's balance.
use ai_multimodal_platform.Prelude.{
  ℕ, ◌-◌, ◌≤◌, ◌≡◌, refl, true, some, List, [], ◌∷◌, arith, ◌==◌, ◌&&◌, All-find, find-holds, inl,
  inr, Option-cases,
}
use ai_multimodal_platform.Prelude.Int.{int_laws}
use ai_multimodal_platform.Prelude.Result.{ok, Result-cases}
use ai_multimodal_platform.Credit.Tables.{
  CreditGrant, CreditReservation, CreditReservationAllocation, Session,
}
use ai_multimodal_platform.Credit.Tables.Ledger.{
  IsPosted, IsBalanced, IsPosted-event, add_event-IsBalanced,
}
use ai_multimodal_platform.Credit.Accounting.Terminal.{
  Request, grant_with_id, spent_of, gone_of, write_close, close_allocation, close_allocations,
}

-- The grant that a round of the loop finds is the user's, and is backed by the ledger.
found-IsPosted :
    (uid gid : ℕ) (s : Session) (g : CreditGrant)
    → IsBalanced uid s
    → grant_with_id uid gid s ≡ some g
    → (g.user_id ≡ uid) × IsPosted uid s.ledger_events g
unfolding grant_with_id
found-IsPosted uid gid s g h e =
    let mine : ((g.id == gid) && (g.user_id == uid)) ≡ true = find-holds _ s.grants e in
    let owner : g.user_id ≡ uid = ground arith in
    (
      owner,
      All-find (λ x. x.user_id ≡ uid → IsPosted uid s.ledger_events x) _ s.grants h.rows e owner,
    )

write_close-IsBalanced :
    (q : Request) (r : CreditReservation) (held_amount spent gone : ℕ) (g : CreditGrant)
    (s : Session)
    → held_amount ≤ g.reserved_microcredits
    → IsPosted q.user_id s.ledger_events g
    → IsBalanced q.user_id s
    → IsBalanced q.user_id (write_close q r held_amount spent gone g s)
unfolding write_close
write_close-IsBalanced q r held_amount spent gone g s covered p h = record {
  rows =
      (add_event-IsBalanced q.user_id g.id _ _ s refl
        (λ row same old own.
          IsPosted-event q.user_id s.ledger_events _ g _ refl refl
            (record {
              id = refl;
              granted = omega int_laws;
              reserved = omega int_laws;
              consumed = omega int_laws;
              expired = omega int_laws;
            })
            p)
        h).rows;
}

-- A round that succeeds closed the allocation on the grant that it found.
pub record Round (q : Request) (r : CreditReservation) (a : CreditReservationAllocation)
    (remaining : ℕ) (s t : Session) : Type 0 where
  pub grant : CreditGrant
  pub found : grant_with_id q.user_id a.grant_id s ≡ some grant
  pub covered : a.reserved_microcredits ≤ grant.reserved_microcredits
  pub written :
      (let spent = spent_of a.reserved_microcredits remaining in
        t
        ≡ write_close q r a.reserved_microcredits spent
            (gone_of q.now grant (a.reserved_microcredits - spent))
            grant
            s)

pub close_allocation-Round :
    (q : Request) (r : CreditReservation) (a : CreditReservationAllocation) (remaining : ℕ)
    (s t : Session)
    → close_allocation q r a remaining s ≡ ok t
    → Round q r a remaining s t
unfolding close_allocation
close_allocation-Round q r a remaining s t e =
    elim (Option-cases (grant_with_id q.user_id a.grant_id s)) [
      | inl missing ↦ absurd (ground (arith, missing))
      | inr (g, found) ↦ record {
        grant = g;
        found = found;
        covered = ground (arith, found);
        written = ground (arith, found);
      }
    ]

close_allocation-IsBalanced :
    (q : Request) (r : CreditReservation) (a : CreditReservationAllocation) (remaining : ℕ)
    (s t : Session)
    → IsBalanced q.user_id s
    → close_allocation q r a remaining s ≡ ok t
    → IsBalanced q.user_id t
close_allocation-IsBalanced q r a remaining s t h e =
    let d = close_allocation-Round q r a remaining s t e in
    let (owner, p) = found-IsPosted q.user_id a.grant_id s d.grant h d.found in
    rw d.written (write_close-IsBalanced q r a.reserved_microcredits _ _ d.grant s d.covered p h)

pub close_allocations-IsBalanced :
    (q : Request) (r : CreditReservation) (as' : List CreditReservationAllocation) (remaining : ℕ)
    (s : Session) (out : ℕ × Session)
    → IsBalanced q.user_id s
    → close_allocations q r as' remaining s ≡ ok out
    → IsBalanced q.user_id out.1
unfolding close_allocations
close_allocations-IsBalanced q r [] remaining s out h e =
    let same : s ≡ out.1 = ground arith in rw (← same) h
close_allocations-IsBalanced q r (a ∷ as') remaining s out h e =
    elim (Result-cases (close_allocation q r a remaining s)) [
      | inr (c, p) ↦ absurd (ground (arith, p))
      | inl (t, p) ↦
          close_allocations-IsBalanced q r as'
            (remaining - spent_of a.reserved_microcredits remaining) t out
            (close_allocation-IsBalanced q r a remaining s t h p) (ground (arith, p))
    ]
