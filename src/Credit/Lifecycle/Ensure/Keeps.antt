-- ===== src/Credit/Lifecycle/Ensure/Keeps.antt =====
-- The tables that `ensure_cycle` of backend/app/credit_lifecycle.py leaves alone, step by step.
use ai_multimodal_platform.Prelude.{
  ℕ, ◌≡◌, refl, ◌∙◌, Bool, true, false, Option, none, some, List, [], ◌∷◌, arith, ltb, ◌&&◌,
  if◌then◌else◌, inl, inr, Bool-cases, Option-cases, ◌⊎◌,
}
use ai_multimodal_platform.Prelude.Result.{ok, Result-cases}
use ai_multimodal_platform.Credit.Policy.{CycleBounds, cycle_bounds, plan_policy}
use ai_multimodal_platform.Credit.Tables.{
  User, CreditAccount, CreditCycle, CreditGrant, Session, grants_of, latest_cycle,
}
use ai_multimodal_platform.Credit.Lifecycle.{
  load, coherent, spent, is_expired, expire_grant, expire_grants, Ensured, open_cycle, rolled,
  save_account,
}
use ai_multimodal_platform.Credit.Lifecycle.Ensure.{
  Entry, first_entry, known_entry, entry, roll, current_cycle, ensure, CycleView, ensure_cycle,
}

pub record Keeps (s t : Session) : Type 0 where
  pub in_transaction : t.in_transaction ≡ s.in_transaction
  pub users : t.users ≡ s.users
  pub operations : t.operations ≡ s.operations
  pub reservations : t.reservations ≡ s.reservations
  pub items : t.items ≡ s.items
  pub allocations : t.allocations ≡ s.allocations
  pub usage_records : t.usage_records ≡ s.usage_records

pub Keeps-trans : {s t u : Session} → Keeps s t → Keeps t u → Keeps s u
Keeps-trans p q = record {
  in_transaction = q.in_transaction ∙ p.in_transaction;
  users = q.users ∙ p.users;
  operations = q.operations ∙ p.operations;
  reservations = q.reservations ∙ p.reservations;
  items = q.items ∙ p.items;
  allocations = q.allocations ∙ p.allocations;
  usage_records = q.usage_records ∙ p.usage_records;
}

pub Keeps-refl : (s : Session) → Keeps s s
Keeps-refl s = record {
  in_transaction = refl;
  users = refl;
  operations = refl;
  reservations = refl;
  items = refl;
  allocations = refl;
  usage_records = refl;
}

expire_grant-Keeps : (now : ℕ) (g : CreditGrant) (s : Session) → Keeps s (expire_grant now g s)
unfolding expire_grant
expire_grant-Keeps now g s = record {
  in_transaction = refl;
  users = refl;
  operations = refl;
  reservations = refl;
  items = refl;
  allocations = refl;
  usage_records = refl;
}

maybe_expire-Keeps :
    (b : Bool) (now : ℕ) (g : CreditGrant) (s : Session)
    → Keeps s (if b then expire_grant now g s else s)
maybe_expire-Keeps true now g s = expire_grant-Keeps now g s
maybe_expire-Keeps false now g s = Keeps-refl s

pub expire_grants-Keeps :
    (now : ℕ) (gs : List CreditGrant) (s t : Session) → expire_grants now gs s ≡ ok t → Keeps s t
unfolding expire_grants
expire_grants-Keeps now [] s t h = let same : s ≡ t = cc in rw (← same) (Keeps-refl s)
expire_grants-Keeps now (g ∷ gs) s t h =
    let test = is_expired now g && ltb (spent g) g.granted_microcredits in
    let s' = if test then expire_grant now g s else s in
    let more : expire_grants now gs s' ≡ ok t = ground arith in
    Keeps-trans (maybe_expire-Keeps test now g s) (expire_grants-Keeps now gs s' t more)

known_entry-session :
    (u : User) (a : CreditAccount) (b : CycleBounds) (now : ℕ) (s : Session) (e : Entry)
    → known_entry u a b now s ≡ ok e
    → e.session ≡ s
unfolding known_entry
known_entry-session u a b now s e h =
    elim (Result-cases (coherent u a (latest_cycle u.id s) (grants_of u.id s))) [
      | inr (c, p) ↦ absurd (ground (arith, p))
      | inl (g, p) ↦ elim (Option-cases (latest_cycle u.id s)) [
        | inl q ↦ absurd (ground (arith, p, q))
        | inr (c, q) ↦ ground (arith, p, q)
      ]
    ]

entry-Keeps :
    (u : User) (account : Option CreditAccount) (b : CycleBounds) (now : ℕ) (s : Session)
    (e : Entry)
    → entry u account b now s ≡ ok e
    → Keeps s e.session
unfolding entry first_entry
entry-Keeps u none b now s e h = record {
  in_transaction = ground arith;
  users = ground arith;
  operations = ground arith;
  reservations = ground arith;
  items = ground arith;
  allocations = ground arith;
  usage_records = ground arith;
}
entry-Keeps u (some a) b now s e h =
    let same : e.session ≡ s = known_entry-session u a b now s e h in rw same (Keeps-refl s)

open_cycle-Keeps :
    (uid now : ℕ) (b : CycleBounds) (a : CreditAccount) (allowance : ℕ) (s : Session)
    → Keeps s (open_cycle uid now b a allowance s).session
unfolding open_cycle
open_cycle-Keeps uid now b a allowance s = record {
  in_transaction = refl;
  users = refl;
  operations = refl;
  reservations = refl;
  items = refl;
  allocations = refl;
  usage_records = refl;
}

-- A successful `roll` is an opened cycle.
pub roll-eq :
    (uid now : ℕ) (b : CycleBounds) (a : CreditAccount) (s : Session) (r : Ensured)
    → roll uid now b a s ≡ ok r
    → (allowance : ℕ) × (r ≡ open_cycle uid now b (rolled a) allowance s)
unfolding roll
roll-eq uid now b a s r h = elim (Result-cases (plan_policy (rolled a).plan)) [
  | inl (p, e) ↦ (p.allowance_microcredits, ground (arith, e))
  | inr (c, e) ↦ absurd (ground (arith, e))
]

roll-Keeps :
    (uid now : ℕ) (b : CycleBounds) (a : CreditAccount) (s : Session) (r : Ensured)
    → roll uid now b a s ≡ ok r
    → Keeps s r.session
roll-Keeps uid now b a s r h =
    let (allowance, e) = roll-eq uid now b a s r h in
    rw e (open_cycle-Keeps uid now b (rolled a) allowance s)

-- `current_cycle` opens a cycle, or hands on what it was given.
pub current_cycle-eq :
    (uid now : ℕ) (b : CycleBounds) (a : CreditAccount)
    (current : Option (CreditCycle × CreditGrant)) (s : Session) (r : Ensured)
    → current_cycle uid now b a current s ≡ ok r
    → (roll uid now b a s ≡ ok r) ⊎ (r.session ≡ s)
unfolding current_cycle
current_cycle-eq uid now b a none s r h = inl h
current_cycle-eq uid now b a (some (c, g)) s r h = elim (Bool-cases (ltb c.cycle_index b.index)) [
  | inl e ↦ inl (ground (arith, e))
  | inr e ↦ inr (ground (arith, e))
]

current_cycle-Keeps :
    (uid now : ℕ) (b : CycleBounds) (a : CreditAccount)
    (current : Option (CreditCycle × CreditGrant)) (s : Session) (r : Ensured)
    → current_cycle uid now b a current s ≡ ok r
    → Keeps s r.session
current_cycle-Keeps uid now b a current s r h = elim (current_cycle-eq uid now b a current s r h) [
  | inl e ↦ roll-Keeps uid now b a s r e
  | inr e ↦ rw e (Keeps-refl s)
]

-- The stages of a successful `_ensure`.
pub record Stages (u : User) (account : Option CreditAccount) (now : ℕ) (s : Session) (r : Ensured)
    : Type 0 where
  pub bounds : CycleBounds
  pub start : Entry
  pub swept : Session
  pub opened : Ensured
  pub bounded : cycle_bounds u.signed_up_at now ≡ ok bounds
  pub entered : entry u account bounds now s ≡ ok start
  pub expired : expire_grants now (grants_of u.id start.session) start.session ≡ ok swept
  pub current : current_cycle u.id now bounds start.account start.current swept ≡ ok opened
  pub result : r ≡ (
      let touched : CreditAccount = record opened.account { updated_at = now } in
      record opened { account = touched; session = save_account touched opened.session })

pub ensure-Stages :
    (u : User) (account : Option CreditAccount) (now : ℕ) (s : Session) (r : Ensured)
    → ensure u account now s ≡ ok r
    → Stages u account now s r
unfolding ensure
ensure-Stages u account now s r h = elim (Result-cases (cycle_bounds u.signed_up_at now)) [
  | inr (c, e) ↦ absurd (ground (arith, e))
  | inl (b, e1) ↦ elim (Result-cases (entry u account b now s)) [
    | inr (c, e) ↦ absurd (ground (arith, e1, e))
    | inl (n, e2) ↦ elim (Result-cases (expire_grants now (grants_of u.id n.session) n.session)) [
      | inr (c, e) ↦ absurd (ground (arith, e1, e2, e))
      | inl (t, e3) ↦ elim (Result-cases (current_cycle u.id now b n.account n.current t)) [
        | inr (c, e) ↦ absurd (ground (arith, e1, e2, e3, e))
        | inl (o, e4) ↦ record {
          bounds = b;
          start = n;
          swept = t;
          opened = o;
          bounded = e1;
          entered = e2;
          expired = e3;
          current = e4;
          result = ground (arith, e1, e2, e3, e4);
        }
      ]
    ]
  ]
]

pub ensure-Keeps :
    (u : User) (account : Option CreditAccount) (now : ℕ) (s : Session) (r : Ensured)
    → ensure u account now s ≡ ok r
    → Keeps s r.session
ensure-Keeps u account now s r h =
    let st = ensure-Stages u account now s r h in
    let entered = entry-Keeps u account st.bounds now s st.start st.entered in
    let swept =
      expire_grants-Keeps now (grants_of u.id st.start.session) st.start.session st.swept
        st.expired in
    let opened =
      current_cycle-Keeps u.id now st.bounds st.start.account st.start.current st.swept st.opened
        st.current in
    let k = Keeps-trans entered (Keeps-trans swept opened) in
    rw st.result (record {
      in_transaction = k.in_transaction;
      users = k.users;
      operations = k.operations;
      reservations = k.reservations;
      items = k.items;
      allocations = k.allocations;
      usage_records = k.usage_records;
    })

-- A successful `ensure_cycle` leaves the users, operations, reservations, items, allocations and
-- usage records as they are, and the transaction open.
pub ensure_cycle-Keeps :
    (uid now : ℕ) (s : Session) (out : CycleView × Session)
    → ensure_cycle uid now s ≡ ok out
    → Keeps s out.1
unfolding ensure_cycle
ensure_cycle-Keeps uid now s out h = elim (Result-cases (load uid now s)) [
  | inr (c, e) ↦ absurd (ground (arith, e))
  | inl (l, e1) ↦ elim (Result-cases (ensure l.0 l.1 now s)) [
    | inr (c, e) ↦ absurd (ground (arith, e1, e))
    | inl (r, e2) ↦
        let same : out.1 ≡ r.session = ground (arith, e1, e2) in
        rw same (ensure-Keeps l.0 l.1 now s r e2)
  ]
]
