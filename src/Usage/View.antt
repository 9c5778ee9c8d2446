-- ===== src/Usage/View.antt =====
-- What `read_personal_usage` of backend/app/personal_usage.py shows.
use mathlib.Core.Path.{subst}
use ai_multimodal_platform.Prelude.{
  ℕ, ◌+◌, ◌≤◌, ◌<◌, ◌≡◌, refl, ◌∙◌, false, not, List, length, map, ltb, leb, ◌==◌, ◌||◌, arith,
  length-sort_by,
}
use ai_multimodal_platform.Prelude.Result.{Result, ok, err, fail_if, >>=-eq-ok, fail_if-eq-ok}
use ai_multimodal_platform.Credit.Policy.{PlanPolicy, plan_policy}
use ai_multimodal_platform.Credit.Tables.{Session, grants_of}
use ai_multimodal_platform.Credit.Lifecycle.{spent}
use ai_multimodal_platform.Credit.Lifecycle.Ensure.{CycleView, ensure_cycle}
use ai_multimodal_platform.Credit.Lifecycle.Ensure.Keeps.{ensure_cycle-Keeps}
use ai_multimodal_platform.Credit.Accounting.{held_of}
use ai_multimodal_platform.Credit.Accounting.Sums.{sum}
use ai_multimodal_platform.Usage.{
  usage_unavailable, usage_transaction_required, PersonalUsageView, MeterUsageView, meter_units,
  meter_view, integer, grant_totals_from, reservation_totals, usage_totals, or_usage,
  or_unavailable, reservation_before, reservations_of, records_since, read_view, view_of,
  read_personal_usage,
}
use ai_multimodal_platform.Usage.Totals.{grant_totals-exact, reservation_totals-exact}
use ai_multimodal_platform.Usage.Meters.{summed, usage_totals-exact}

-- A view agrees with the tables of the session: the user's grants, live holds and usage records.
pub record IsView (uid now : ℕ) (s : Session) (v : PersonalUsageView) : Type 0 where
  pub current : (v.cycle.starts_at ≤ now) × (now < v.cycle.renews_at)
  pub balance :
      v.credit.available_microcredits + sum (map (λ g. spent g) (grants_of uid s))
      ≡ sum (map (λ g. g.granted_microcredits) (grants_of uid s))
  pub held_by_grants :
      v.credit.held_microcredits ≡ sum (map (λ g. g.reserved_microcredits) (grants_of uid s))
  pub held_by_holds :
      v.credit.held_microcredits ≡ sum (map (λ r. r.reserved_microcredits) (reservations_of uid s))
  pub active : v.concurrency.active_requests ≡ length (held_of uid s)
  pub within : v.concurrency.active_requests ≤ v.concurrency.limit
  pub limit :
      (p : PlanPolicy) × (plan_policy v.plan ≡ ok p)
      × (p.max_concurrent_requests ≡ v.concurrency.limit)
  pub shown :
      v.usage ≡ map (meter_view (summed (records_since uid v.cycle.starts_at now s))) meter_units
  pub charged : v.cycle.charged_microcredits ≡ sum (map (λ m. m.charged_microcredits) v.usage)

or_unavailable-eq-ok :
    {A : Type 0} (r : Result ai_multimodal_platform.Credit.Code.Code A) {a : A}
    → or_unavailable r ≡ ok a
    → r ≡ ok a
or_unavailable-eq-ok (ok x) h = cc
or_unavailable-eq-ok (err e) h = cc

or_usage-eq-ok :
    {A : Type 0} (r : Result ai_multimodal_platform.Credit.Code.Code A) {a : A}
    → or_usage r ≡ ok a
    → r ≡ ok a
or_usage-eq-ok (ok x) h = cc
or_usage-eq-ok (err e) h = cc

matching : (a b c d : ℕ) → not (a == b) || ltb c d ≡ false → (a ≡ b) × (d ≤ c)
matching a b c d h = (ground (arith, h), ground (arith, h))

inside :
    (starts ends now : ℕ) → ltb now starts || leb ends now ≡ false → (starts ≤ now) × (now < ends)
inside starts ends now h = (ground (arith, h), ground (arith, h))

module _ (uid now : ℕ) (cycle : CycleView) (s : Session) where
  view_of-IsView :
      (p : PlanPolicy) (g r : ℕ × ℕ) (u : List MeterUsageView × ℕ) (allowance : ℕ)
      → plan_policy cycle.plan ≡ ok p
      → grant_totals_from 0 0 (grants_of uid s) ≡ ok g
      → reservation_totals (reservations_of uid s) ≡ ok r
      → usage_totals (records_since uid cycle.starts_at now s) ≡ ok u
      → not (g.1 == r.1) || ltb p.max_concurrent_requests r.0 ≡ false
      → ltb now cycle.starts_at || leb cycle.ends_at now ≡ false
      → IsView uid now s (view_of cycle p g r u allowance)
  view_of-IsView p g r u allowance e1 e2 e3 e4 agrees current =
      let (balance, held) = grant_totals-exact (grants_of uid s) g e2 in
      let (active, holds) = reservation_totals-exact (reservations_of uid s) r e3 in
      let (shown, _, charged) = usage_totals-exact (records_since uid cycle.starts_at now s) u e4 in
      let (agree, few) = matching g.1 r.1 p.max_concurrent_requests r.0 agrees in
      record {
        current = inside cycle.starts_at cycle.ends_at now current;
        balance = balance;
        held_by_grants = held;
        held_by_holds = agree ∙ holds;
        active = active ∙ length-sort_by reservation_before (held_of uid s);
        within = few;
        limit = (p, e1, refl);
        shown = shown;
        charged = charged;
      }

  read_view-IsView : (v : PersonalUsageView) → read_view uid now cycle s ≡ ok v → IsView uid now s v
  unfolding read_view
  read_view-IsView v h =
      let (p, e1, h1) = >>=-eq-ok (or_unavailable (plan_policy cycle.plan)) _ h in
      let (g, e2, h2) = >>=-eq-ok (grant_totals_from 0 0 (grants_of uid s)) _ h1 in
      let (r, e3, h3) = >>=-eq-ok (reservation_totals (reservations_of uid s)) _ h2 in
      let differs = not (g.1 == r.1) || ltb p.max_concurrent_requests r.0 in
      let (_, e4, h4) = >>=-eq-ok (fail_if differs usage_unavailable) _ h3 in
      let (u, e5, h5) = >>=-eq-ok (usage_totals (records_since uid cycle.starts_at now s)) _ h4 in
      let outside = ltb now cycle.starts_at || leb cycle.ends_at now in
      let (_, e6, h6) = >>=-eq-ok (fail_if outside usage_unavailable) _ h5 in
      let (allowance, e7, h7) = >>=-eq-ok (integer cycle.allowance_microcredits) _ h6 in
      let same : view_of cycle p g r u allowance ≡ v = cc in
      subst (λ v. IsView uid now s v) same
        (view_of-IsView p g r u allowance (or_unavailable-eq-ok (plan_policy cycle.plan) e1) e2 e3
          e5 (fail_if-eq-ok differs usage_unavailable e4)
          (fail_if-eq-ok outside usage_unavailable e6))

-- A usage view that is returned agrees with the tables that the call leaves: its cycle holds the
-- instant; what is available and what was spent make up what was granted; the amount held is both
-- what the grants reserve and what the live holds reserve; the live holds are counted and within the
-- plan; and each meter shows the sums of the user's records of the cycle, which make up the charge.
-- The call leaves the holds and the usage records as they were.
pub read_personal_usage-IsView :
    (uid now : ℕ) (s : Session) {v : PersonalUsageView} {t : Session}
    → read_personal_usage uid now s ≡ ok (v, t)
    → IsView uid now t v × (t.reservations ≡ s.reservations) × (t.usage_records ≡ s.usage_records)
unfolding read_personal_usage
read_personal_usage-IsView uid now s {v} {t} h =
    let (_, _, h1) = >>=-eq-ok (fail_if (not s.in_transaction) usage_transaction_required) _ h in
    let (c, e2, h2) = >>=-eq-ok (or_usage (ensure_cycle uid now s)) _ h1 in
    let (w, e3, h3) = >>=-eq-ok (read_view uid now c.0 c.1) _ h2 in
    let kept = ensure_cycle-Keeps uid now s c (or_usage-eq-ok (ensure_cycle uid now s) e2) in
    let same : ◌≡◌ {A = PersonalUsageView × Session} (w, c.1) (v, t) = cc in
    subst
      (λ o.
        IsView uid now o.1 o.0
        × ((o.1).reservations ≡ s.reservations)
        × ((o.1).usage_records ≡ s.usage_records))
      same (read_view-IsView uid now c.0 c.1 w e3, kept.reservations, kept.usage_records)
