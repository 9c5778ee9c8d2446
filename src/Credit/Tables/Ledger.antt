-- ===== src/Credit/Tables/Ledger.antt =====
-- The balance of a ledger of backend/app/credit_models.py: the counters of a grant against the
-- sums of its events' deltas.
use ai_multimodal_platform.Prelude.{
  ℕ, ◌≡◌, ◌≢◌, sym, true, false, List, [], ◌∷◌, ◌++◌, All, arith, ◌==◌, ◌&&◌, if◌then◌else◌, inl,
  inr, Bool-cases,
}
use ai_multimodal_platform.Prelude.Int.{ℤ, pos, ◌+ℤ◌, int_laws}
use ai_multimodal_platform.Credit.Tables.{
  CreditGrant, CreditLedgerEvent, Session, update_grants, update_grant, add_event,
}

-- The sum of one delta over the events of a user and a grant.
unfoldable pub posted : (CreditLedgerEvent → ℤ) → ℕ → ℕ → List CreditLedgerEvent → ℤ
posted delta uid gid [] = pos 0
posted delta uid gid (e ∷ es) =
    let rest = posted delta uid gid es in
    if e.user_id == uid && e.grant_id == gid then delta e +ℤ rest else rest

pub record IsPosted (uid : ℕ) (es : List CreditLedgerEvent) (g : CreditGrant) : Type 0 where
  pub granted : posted (λ e. e.granted_delta) uid g.id es ≡ pos g.granted_microcredits
  pub reserved : posted (λ e. e.reserved_delta) uid g.id es ≡ pos g.reserved_microcredits
  pub consumed : posted (λ e. e.consumed_delta) uid g.id es ≡ pos g.consumed_microcredits
  pub expired : posted (λ e. e.expired_delta) uid g.id es ≡ pos g.expired_microcredits

-- Every grant of the user is backed by the ledger.
pub record IsBalanced (uid : ℕ) (s : Session) : Type 0 where
  pub rows : All (λ g. g.user_id ≡ uid → IsPosted uid s.ledger_events g) s.grants

pub posted-append :
    (delta : CreditLedgerEvent → ℤ) (uid gid : ℕ) (xs ys : List CreditLedgerEvent)
    → posted delta uid gid (xs ++ ys) ≡ posted delta uid gid xs +ℤ posted delta uid gid ys
unfolding posted
posted-append delta uid gid [] ys = omega int_laws
posted-append delta uid gid (x ∷ xs) ys =
    elim (Bool-cases (x.user_id == uid && x.grant_id == gid)) [
      | inl e ↦ rw (e, posted-append delta uid gid xs ys) (omega int_laws)
      | inr e ↦ rw (e, posted-append delta uid gid xs ys)
    ]

-- One more event moves the sum of its own grant by its delta, and of no other.
pub posted-event :
    (delta : CreditLedgerEvent → ℤ) (uid gid : ℕ) (es : List CreditLedgerEvent)
    (e : CreditLedgerEvent)
    → e.user_id ≡ uid
    → e.grant_id ≡ gid
    → posted delta uid gid (es ++ e ∷ []) ≡ posted delta uid gid es +ℤ delta e
unfolding posted
posted-event delta uid gid es e u g = rw (posted-append delta uid gid es (e ∷ [])) (
    let own : (e.user_id == uid && e.grant_id == gid) ≡ true = ground arith in
    rw own (omega int_laws))

pub posted-event_ne :
    (delta : CreditLedgerEvent → ℤ) (uid gid : ℕ) (es : List CreditLedgerEvent)
    (e : CreditLedgerEvent)
    → e.grant_id ≢ gid
    → posted delta uid gid (es ++ e ∷ []) ≡ posted delta uid gid es
unfolding posted
posted-event_ne delta uid gid es e g = rw (posted-append delta uid gid es (e ∷ [])) (
    let foreign : (e.user_id == uid && e.grant_id == gid) ≡ false = ground arith in
    rw foreign (omega int_laws))

-- The counters of `h` are those of `g`, each moved by the event's delta.
pub record IsMoved (e : CreditLedgerEvent) (g h : CreditGrant) : Type 0 where
  pub id : h.id ≡ g.id
  pub granted : pos h.granted_microcredits ≡ pos g.granted_microcredits +ℤ e.granted_delta
  pub reserved : pos h.reserved_microcredits ≡ pos g.reserved_microcredits +ℤ e.reserved_delta
  pub consumed : pos h.consumed_microcredits ≡ pos g.consumed_microcredits +ℤ e.consumed_delta
  pub expired : pos h.expired_microcredits ≡ pos g.expired_microcredits +ℤ e.expired_delta

module _ (uid : ℕ) (es : List CreditLedgerEvent) (e : CreditLedgerEvent) where
  pub IsPosted-event :
      (g h : CreditGrant)
      → e.user_id ≡ uid
      → e.grant_id ≡ g.id
      → IsMoved e g h
      → IsPosted uid es g
      → IsPosted uid (es ++ e ∷ []) h
  IsPosted-event g h u own m p = record {
    granted =
        rw (m.id, posted-event (λ x. x.granted_delta) uid g.id es e u own, p.granted)
          (sym m.granted);
    reserved =
        rw (m.id, posted-event (λ x. x.reserved_delta) uid g.id es e u own, p.reserved)
          (sym m.reserved);
    consumed =
        rw (m.id, posted-event (λ x. x.consumed_delta) uid g.id es e u own, p.consumed)
          (sym m.consumed);
    expired =
        rw (m.id, posted-event (λ x. x.expired_delta) uid g.id es e u own, p.expired)
          (sym m.expired);
  }

  pub IsPosted-event_ne :
      (g : CreditGrant) → e.grant_id ≢ g.id → IsPosted uid es g → IsPosted uid (es ++ e ∷ []) g
  IsPosted-event_ne g ne p = record {
    granted = rw (posted-event_ne (λ x. x.granted_delta) uid g.id es e ne) p.granted;
    reserved = rw (posted-event_ne (λ x. x.reserved_delta) uid g.id es e ne) p.reserved;
    consumed = rw (posted-event_ne (λ x. x.consumed_delta) uid g.id es e ne) p.consumed;
    expired = rw (posted-event_ne (λ x. x.expired_delta) uid g.id es e ne) p.expired;
  }

abbrev pub AllPosted : ℕ → List CreditLedgerEvent → List CreditGrant → Type 0
AllPosted uid es = All (λ g. g.user_id ≡ uid → IsPosted uid es g)

update_grants-posted :
    (uid gid : ℕ) (f : CreditGrant → CreditGrant) (es : List CreditLedgerEvent)
    (e : CreditLedgerEvent) (gs : List CreditGrant)
    → e.grant_id ≡ gid
    → ((g : CreditGrant)
        → g.id ≡ gid
        → (g.user_id ≡ uid → IsPosted uid es g)
        → (f g).user_id ≡ uid
        → IsPosted uid (es ++ e ∷ []) (f g))
    → AllPosted uid es gs
    → AllPosted uid (es ++ e ∷ []) (update_grants gid f gs)
update_grants-posted uid gid f es e [] own keep h = tt
update_grants-posted uid gid f es e (g ∷ gs) own keep h = (
  elim (Bool-cases (g.id == gid)) [
    | inl same ↦ rw same (keep g (ground arith) h.0)
    | inr differs ↦ rw differs (λ u. IsPosted-event_ne uid es e g (ground arith) (h.0 u))
  ],
  update_grants-posted uid gid f es e gs own keep h.1,
)

-- A write to a grant together with the event that says so keeps the ledger balanced.
pub add_event-IsBalanced :
    (uid gid : ℕ) (f : CreditGrant → CreditGrant) (e : CreditLedgerEvent) (s : Session)
    → e.grant_id ≡ gid
    → ((g : CreditGrant)
        → g.id ≡ gid
        → (g.user_id ≡ uid → IsPosted uid s.ledger_events g)
        → (f g).user_id ≡ uid
        → IsPosted uid (s.ledger_events ++ e ∷ []) (f g))
    → IsBalanced uid s
    → IsBalanced uid (add_event e (update_grant gid f s))
add_event-IsBalanced uid gid f e s own keep h = record {
  rows = update_grants-posted uid gid f s.ledger_events e s.grants own keep h.rows;
}
