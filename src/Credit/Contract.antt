-- ===== src/Credit/Contract.antt =====
-- What the accounting of backend/app/credit_accounting.py promises its callers, without grants,
-- allocations, ledger or keys: each of a user's holds is absent, live with an amount, or ended.
use ai_multimodal_platform.Prelude.{
  ℕ, ◌<◌, ◌≡◌, refl, sym, ap, ◌∙◌, Bool, true, false, Option, none, some, List, [], ◌∷◌, ◌++◌,
  String, find, map, arith, inl, inr, Bool-cases, Option-cases, ◌==◌, ◌&&◌, if◌then◌else◌, ==_iff,
  find-holds,
}
use mathlib.Core.Path.{subst, fun_ext}
use ai_multimodal_platform.Prelude.Result.{Result, ok, ◌>>=◌, Result-cases}
use ai_multimodal_platform.Credit.Code.{Code}
use ai_multimodal_platform.Credit.Tables.{Session, CreditReservation, held, settled, released}
use ai_multimodal_platform.Credit.Lifecycle.Ensure.{ensure_cycle}
use ai_multimodal_platform.Credit.Lifecycle.Ensure.Keeps.{ensure_cycle-Keeps}
use ai_multimodal_platform.Credit.Accounting.{RawEstimate, RawLine}
use ai_multimodal_platform.Credit.Accounting.Reserve.{ReservationReceipt, reserve}
use ai_multimodal_platform.Credit.Accounting.Reserve.Outcome.{IsHold, reserve-IsHold}
use ai_multimodal_platform.Credit.Accounting.Terminal.{
  TerminalReceipt, Request, terminal, closed, reservation_of, settle, release,
}
use ai_multimodal_platform.Credit.Accounting.Terminal.Calls.{
  IsAsked, settle-IsAsked, release-IsAsked,
}
use ai_multimodal_platform.Credit.Accounting.Terminal.Outcome.{IsClosed, terminal-IsClosed}

pub data Phase : Type 0 where
  absent : Phase
  live : ℕ → Phase
  ended : Phase

abbrev pub View : Type 0
View = ℕ → Phase

abbrev pub set_phase : ℕ → Phase → View → View
set_phase rid p v id = if id == rid then p else v id

-- The abstract steps: nothing happens, a new hold opens, or a live one ends.
pub data Step (v w : View) : Type 0 where
  stay : w ≡ v → Step v w
  opens :
      (rid amount : ℕ) → v rid ≡ absent → 0 < amount → w ≡ set_phase rid (live amount) v → Step v w
  ends : (rid amount : ℕ) → v rid ≡ live amount → w ≡ set_phase rid ended v → Step v w

abbrev pub phase_of_row : CreditReservation → Phase
phase_of_row r = elim r.status [
  | held ↦ live r.reserved_microcredits
  | settled ↦ ended
  | released ↦ ended
]

abbrev pub phase_of : Option CreditReservation → Phase
phase_of none = absent
phase_of (some r) = phase_of_row r

-- The view of the tables.
abbrev pub view_of : ℕ → Session → View
view_of uid s rid = phase_of (reservation_of uid rid s)

find-append :
    (p : CreditReservation → Bool) (rs : List CreditReservation) (r : CreditReservation)
    → find p rs ≡ none
    → find p (rs ++ r ∷ []) ≡ (if p r then some r else none)
find-append p [] r h = refl
find-append p (x ∷ rs) r h = elim (Bool-cases (p x)) [
  | inl e ↦ ground (arith, e, h)
  | inr e ↦ rw e (find-append p rs r (ground (arith, e, h)))
]

find-append_found :
    (p : CreditReservation → Bool) (rs : List CreditReservation) (r x : CreditReservation)
    → find p rs ≡ some x
    → find p (rs ++ r ∷ []) ≡ some x
find-append_found p [] r x h = cc
find-append_found p (y ∷ rs) r x h = elim (Bool-cases (p y)) [
  | inl e ↦ ground (arith, e, h)
  | inr e ↦ rw e (find-append_found p rs r x (ground (arith, e, h)))
]

abbrev test : ℕ → ℕ → CreditReservation → Bool
test uid rid r = (r.id == rid) && r.user_id == uid

phase-append :
    (uid id : ℕ) (rs : List CreditReservation) (r : CreditReservation)
    → r.status ≡ held
    → r.user_id ≡ uid
    → find (test uid r.id) rs ≡ none
    → phase_of (find (test uid id) (rs ++ r ∷ []))
      ≡ (if id == r.id then live r.reserved_microcredits else phase_of (find (test uid id) rs))
phase-append uid id rs r h own new = elim (Bool-cases (id == r.id)) [
  | inl e ↦
      let same : id ≡ r.id = (==_iff id r.id).0 e in
      let appended = find-append (test uid id) rs r (rw same new) in
      ground (arith, e, appended, h, own)
  | inr e ↦ elim (Option-cases (find (test uid id) rs)) [
    | inl none_before ↦
        let appended = find-append (test uid id) rs r none_before in
        ground (arith, e, appended, none_before)
    | inr (x, before) ↦
        let appended = find-append_found (test uid id) rs r x before in
        ground (arith, e, appended, before)
  ]
]

-- A row saved under its id leaves what is found under the others.
find-saved :
    (uid id : ℕ) (rs : List CreditReservation) (r r' : CreditReservation)
    → r'.id ≡ r.id
    → (id == r.id) ≡ false
    → find (test uid id) (map (λ o. if o.id == r.id then r' else o) rs) ≡ find (test uid id) rs
find-saved uid id [] r r' same ne = refl
find-saved uid id (o ∷ rs) r r' same ne =
    let rest = find-saved uid id rs r r' same ne in
    elim (Bool-cases (o.id == r.id)) [
      | inl e ↦ ground (arith, e, rest, same, ne)
      | inr e ↦ ground (arith, e, rest)
    ]

hold-Step :
    (uid : ℕ) (s : Session) (out : ReservationReceipt × Session)
    → IsHold uid s out
    → reservation_of uid out.0.reservation_id s ≡ none
    → Step (view_of uid s) (view_of uid out.1)
unfolding reservation_of
hold-Step uid s out h new =
    let r = h.reservation in
    let unused : find (test uid r.id) s.reservations ≡ none = rw h.same_id new in
    opens r.id r.reserved_microcredits (ap phase_of unused) (rw h.same_amount h.positive)
      (fun_ext λ id. rw h.reserved (phase-append uid id s.reservations r h.live h.owner unused))

-- The phase of a row in its terminal status.
closed-ended : (q : Request) (r : CreditReservation) → phase_of_row (closed q r) ≡ ended
unfolding closed
closed-ended q r = elim (Bool-cases q.charge) [ inl e ↦ rw e | inr e ↦ rw e ]

row-live : (r : CreditReservation) → r.status ≡ held → phase_of_row r ≡ live r.reserved_microcredits
row-live r h = ground arith

closed-Step :
    (q : Request) (s : Session) (out : TerminalReceipt × Session)
    → IsClosed q s out
    → Step (view_of q.user_id s) (view_of q.user_id out.1)
unfolding reservation_of closed
closed-Step q s out c =
    let r = c.reservation in
    let own = find-holds (test q.user_id q.reservation_id) s.reservations c.found in
    let same : r.id ≡ q.reservation_id = ground arith in
    let lives : view_of q.user_id s r.id ≡ live r.reserved_microcredits =
      ap phase_of (subst (λ i. find (test q.user_id i) s.reservations ≡ some r) (sym same) c.found)
      ∙ row-live r c.live in
    ends r.id r.reserved_microcredits lives (
      fun_ext λ id. elim (Bool-cases (id == r.id)) [
        | inl e ↦
            let named : id ≡ q.reservation_id = (==_iff id r.id).0 e ∙ same in
            rw e (
              subst (λ i. phase_of (find (test q.user_id i) out.1.reservations) ≡ ended) (sym named)
                (ap phase_of c.after ∙ closed-ended q r))
        | inr e ↦
            rw (e, c.saved)
              (ap phase_of (find-saved q.user_id id s.reservations r (closed q r) refl e))
      ])

-- The calls that a client makes.
pub data Call : Type 0 where
  reserve_call : ℕ → String → List RawEstimate → ℕ → Call
  settle_call : ℕ → ℕ → List RawLine → String → String → ℕ → Call
  release_call : ℕ → ℕ → List RawLine → String → String → ℕ → Call
  ensure_call : ℕ → ℕ → Call

abbrev pub caller : Call → ℕ
caller (reserve_call uid key raw now) = uid
caller (settle_call uid rid raw delivery key now) = uid
caller (release_call uid rid raw reason key now) = uid
caller (ensure_call uid now) = uid

unfoldable pub perform : Call → Session → Result Code Session
perform (reserve_call uid key raw now) s = reserve uid key raw now s >>= λ out. ok out.1
perform (settle_call uid rid raw delivery key now) s =
    settle uid rid raw delivery key now s >>= λ out. ok out.1
perform (release_call uid rid raw reason key now) s =
    release uid rid raw reason key now s >>= λ out. ok out.1
perform (ensure_call uid now) s = ensure_cycle uid now s >>= λ out. ok out.1

-- `uuid4()` gives a new hold an id that the user has no hold under.
abbrev pub DrawsFresh : Call → Session → Type 0
DrawsFresh (reserve_call uid key raw now) s =
    (out : ReservationReceipt × Session)
    → reserve uid key raw now s ≡ ok out
    → out.0.replayed ≡ false
    → reservation_of uid out.0.reservation_id s ≡ none
DrawsFresh (settle_call uid rid raw delivery key now) s = Unit
DrawsFresh (release_call uid rid raw reason key now) s = Unit
DrawsFresh (ensure_call uid now) s = Unit

terminal-Step :
    (q : Request) (s : Session) (out : TerminalReceipt × Session)
    → terminal q s ≡ ok out
    → Step (view_of q.user_id s) (view_of q.user_id out.1)
terminal-Step q s out h = elim (terminal-IsClosed q s out h) [
  | inl same ↦ stay (ap (view_of q.user_id) same.1)
  | inr c ↦ closed-Step q s out c
]

asked-Step :
    (uid rid now : ℕ) (key : String) (charge : Bool) (s : Session) (out : TerminalReceipt × Session)
    → IsAsked uid rid now key charge s out
    → Step (view_of uid s) (view_of uid out.1)
asked-Step uid rid now key charge s out asked =
    subst (λ u. Step (view_of u s) (view_of u out.1)) asked.user
      (terminal-Step asked.request s out asked.answered)

reserve-Step :
    (uid : ℕ) (key : String) (raw : List RawEstimate) (now : ℕ) (s : Session)
    (out : ReservationReceipt × Session)
    → DrawsFresh (reserve_call uid key raw now) s
    → reserve uid key raw now s ≡ ok out
    → Step (view_of uid s) (view_of uid out.1)
reserve-Step uid key raw now s out fresh h = elim (reserve-IsHold uid key raw now s out h) [
  | inl same ↦ stay (ap (view_of uid) same.1)
  | inr made ↦ hold-Step uid s out made (fresh out h made.fresh)
]

unkept : (uid : ℕ) (s t : Session) → t.reservations ≡ s.reservations → view_of uid t ≡ view_of uid s
unfolding reservation_of
unkept uid s t h = rw h

-- Every call that succeeds is one abstract step of its caller's holds, provided that the id drawn
-- for a new hold is not in use.
pub perform-Step :
    (call : Call) (s s' : Session)
    → DrawsFresh call s
    → perform call s ≡ ok s'
    → Step (view_of (caller call) s) (view_of (caller call) s')
unfolding perform
perform-Step (reserve_call uid key raw now) s s' fresh h =
    elim (Result-cases (reserve uid key raw now s)) [
      | inr (c, e) ↦ absurd (ground (arith, e, h))
      | inl (out, e) ↦
          let same : out.1 ≡ s' = ground (arith, e, h) in
          rw (← same) (reserve-Step uid key raw now s out fresh e)
    ]
perform-Step (settle_call uid rid raw delivery key now) s s' fresh h =
    elim (Result-cases (settle uid rid raw delivery key now s)) [
      | inr (c, e) ↦ absurd (ground (arith, e, h))
      | inl (out, e) ↦
          let same : out.1 ≡ s' = ground (arith, e, h) in
          rw (← same) (
            asked-Step uid rid now key true s out
              (settle-IsAsked uid rid raw delivery key now s out e))
    ]
perform-Step (release_call uid rid raw reason key now) s s' fresh h =
    elim (Result-cases (release uid rid raw reason key now s)) [
      | inr (c, e) ↦ absurd (ground (arith, e, h))
      | inl (out, e) ↦
          let same : out.1 ≡ s' = ground (arith, e, h) in
          rw (← same) (
            asked-Step uid rid now key false s out
              (release-IsAsked uid rid raw reason key now s out e))
    ]
perform-Step (ensure_call uid now) s s' fresh h = elim (Result-cases (ensure_cycle uid now s)) [
  | inr (c, e) ↦ absurd (ground (arith, e, h))
  | inl (out, e) ↦
      let same : out.1 ≡ s' = ground (arith, e, h) in
      let kept = (ensure_cycle-Keeps uid now s out e).reservations in
      rw (← same) (stay (unkept uid s out.1 kept))
]
