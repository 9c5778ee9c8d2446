-- ===== src/Usage/Meters.antt =====
-- The totals of the usage records of backend/app/personal_usage.py, by meter.
use mathlib.Core.Path.{subst, fun_ext}
use ai_multimodal_platform.Prelude.{
  ℕ, zero, suc, ◌+◌, ◌≡◌, refl, sym, ap, ◌∙◌, ==_iff, Bool, true, false, not, List, [], ◌∷◌, map,
  filter, ◌==◌, ◌&&◌, ◌||◌, str_eq, if◌then◌else◌, arith, inl, inr, Bool-cases,
}
use ai_multimodal_platform.Prelude.Result.{ok, fail_if, >>=-eq-ok, fail_if-eq-ok}
use ai_multimodal_platform.Credit.Policy.{
  Meter, gemini_input_token, gemini_output_token, imagen_fast_image, imagen_standard_image,
  imagen_ultra_image, veo_fast_ms, veo_standard_ms, other, meter_eq, meter_rank, is_meter,
  rate_card_version,
}
use ai_multimodal_platform.Credit.Tables.{CreditUsageRecord}
use ai_multimodal_platform.Credit.Accounting.Sums.{sum}
use ai_multimodal_platform.Usage.{
  usage_unavailable, MeterUsageView, meter_units, integer, add, Totals, no_totals, put_total,
  is_known_delivery, record_parts, usage_totals_from, meter_view, usage_totals,
}
use ai_multimodal_platform.Usage.Totals.{integer-eq-ok, add-eq-ok}

known_of : (a b c : Bool) → not a || b || c ≡ false → a ≡ true
known_of a b c h = ground (arith, h)

record_parts-eq-ok :
    (r : CreditUsageRecord) (p : ℕ × ℕ)
    → record_parts r ≡ ok p
    → (p.0 ≡ r.actual_units) × (p.1 ≡ r.charged_microcredits) × (is_meter r.meter ≡ true)
unfolding record_parts
record_parts-eq-ok r p h =
    let wrong =
      not (is_meter r.meter)
      || not (str_eq r.rate_card_version rate_card_version)
      || not (is_known_delivery r.delivery) in
    let (_, e1, h1) = >>=-eq-ok (fail_if wrong usage_unavailable) _ h in
    let (observed, e2, h2) = >>=-eq-ok (integer r.actual_units) _ h1 in
    let (charged, e3, h3) = >>=-eq-ok (integer r.charged_microcredits) _ h2 in
    let (_, e4, h4) =
      >>=-eq-ok
        (fail_if (str_eq r.delivery "no_deliverable" && not (charged == 0)) usage_unavailable) _
        h3 in
    let known : is_meter r.meter ≡ true =
      known_of (is_meter r.meter) _ _ (fail_if-eq-ok wrong usage_unavailable e1) in
    let p0 : p.0 ≡ observed = cc in
    let p1 : p.1 ≡ charged = cc in
    (
      p0 ∙ integer-eq-ok r.actual_units observed e2,
      p1 ∙ integer-eq-ok r.charged_microcredits charged e3,
      known,
    )

-- A meter is known by where its name sorts.
abbrev meter_at : ℕ → Meter
meter_at zero = gemini_input_token
meter_at (suc zero) = gemini_output_token
meter_at (suc (suc zero)) = imagen_fast_image
meter_at (suc (suc (suc zero))) = imagen_standard_image
meter_at (suc (suc (suc (suc zero)))) = imagen_ultra_image
meter_at (suc (suc (suc (suc (suc zero))))) = veo_fast_ms
meter_at (suc (suc (suc (suc (suc (suc zero)))))) = veo_standard_ms
meter_at (suc (suc (suc (suc (suc (suc (suc n))))))) = other n

meter_at-meter_rank : (m : Meter) → meter_at (meter_rank m) ≡ m
meter_at-meter_rank gemini_input_token = refl
meter_at-meter_rank gemini_output_token = refl
meter_at-meter_rank imagen_fast_image = refl
meter_at-meter_rank imagen_standard_image = refl
meter_at-meter_rank imagen_ultra_image = refl
meter_at-meter_rank veo_fast_ms = refl
meter_at-meter_rank veo_standard_ms = refl
meter_at-meter_rank (other n) =
    let after : 7 + n ≡ suc (suc (suc (suc (suc (suc (suc n)))))) = omega arith in ap meter_at after

meter_eq-eq : (m k : Meter) → meter_eq m k ≡ true → m ≡ k
meter_eq-eq m k h =
    sym (meter_at-meter_rank m)
    ∙ ap meter_at ((==_iff (meter_rank m) (meter_rank k)).0 h)
    ∙ meter_at-meter_rank k

-- What a record of meter `k` adds at meter `m`.
abbrev part_at : Meter → Meter → ℕ → ℕ
part_at m k c = if meter_eq m k then c else 0

module _ (column : CreditUsageRecord → ℕ) where
  abbrev pub sum_at : Meter → List CreditUsageRecord → ℕ
  sum_at m rs = sum (map column (filter (λ r. meter_eq m r.meter) rs))

  sum_at-cons :
      (m : Meter) (r : CreditUsageRecord) (rs : List CreditUsageRecord)
      → sum_at m (r ∷ rs) ≡ part_at m r.meter (column r) + sum_at m rs
  unfolding sum
  sum_at-cons m r rs = elim (Bool-cases (meter_eq m r.meter)) [
    | inl e ↦ rw e refl
    | inr e ↦ rw e (omega arith)
  ]

-- The sum over the seven meters.
abbrev over_meters : (Meter → ℕ) → ℕ
over_meters f =
    f gemini_input_token
    + f gemini_output_token
    + f imagen_fast_image
    + f imagen_standard_image
    + f imagen_ultra_image
    + f veo_fast_ms
    + f veo_standard_ms

over_meters-part_at : (k : Meter) (c : ℕ) → is_meter k ≡ true → over_meters (λ m. part_at m k c) ≡ c
over_meters-part_at gemini_input_token c h = omega arith
over_meters-part_at gemini_output_token c h = omega arith
over_meters-part_at imagen_fast_image c h = omega arith
over_meters-part_at imagen_standard_image c h = omega arith
over_meters-part_at imagen_ultra_image c h = omega arith
over_meters-part_at veo_fast_ms c h = omega arith
over_meters-part_at veo_standard_ms c h = omega arith
over_meters-part_at (other n) c h = cc

-- What a run over the records adds to the totals of a meter, and to the charge.
record IsAdded (before after : Totals) (charged charged' : ℕ) (rs : List CreditUsageRecord)
    : Type 0 where
  observed_units : (m : Meter) → (after m).0 ≡ (before m).0 + sum_at (λ r. r.actual_units) m rs
  charged_units :
      (m : Meter) → (after m).1 ≡ (before m).1 + sum_at (λ r. r.charged_microcredits) m rs
  charged_total : charged' ≡ charged + sum (map (λ r. r.charged_microcredits) rs)
  known :
      over_meters (λ m. sum_at (λ r. r.charged_microcredits) m rs)
      ≡ sum (map (λ r. r.charged_microcredits) rs)

put_total-0 :
    (k m : Meter) (o c x : ℕ) (totals : Totals)
    → o ≡ (totals k).0 + x
    → (put_total k (o, c) totals m).0 ≡ (totals m).0 + part_at m k x
put_total-0 k m o c x totals h = elim (Bool-cases (meter_eq m k)) [
  | inl e ↦ let same = ap (λ k. (totals k).0) (meter_eq-eq m k e) in rw e (omega (arith, h, same))
  | inr e ↦ rw e (omega arith)
]

put_total-1 :
    (k m : Meter) (o c x : ℕ) (totals : Totals)
    → c ≡ (totals k).1 + x
    → (put_total k (o, c) totals m).1 ≡ (totals m).1 + part_at m k x
put_total-1 k m o c x totals h = elim (Bool-cases (meter_eq m k)) [
  | inl e ↦ let same = ap (λ k. (totals k).1) (meter_eq-eq m k e) in rw e (omega (arith, h, same))
  | inr e ↦ rw e (omega arith)
]

-- The charge of one more record, over all meters.
over_meters-cons :
    (r : CreditUsageRecord) (rs : List CreditUsageRecord)
    → is_meter r.meter ≡ true
    → over_meters (λ m. sum_at (λ r. r.charged_microcredits) m (r ∷ rs))
      ≡ r.charged_microcredits + over_meters (λ m. sum_at (λ r. r.charged_microcredits) m rs)
over_meters-cons r rs h =
    let one = λ (m : Meter). sum_at-cons (λ r. r.charged_microcredits) m r rs in
    omega (
      arith,
      over_meters-part_at r.meter r.charged_microcredits h,
      one gemini_input_token,
      one gemini_output_token,
      one imagen_fast_image,
      one imagen_standard_image,
      one imagen_ultra_image,
      one veo_fast_ms,
      one veo_standard_ms,
    )

usage_totals_from-IsAdded :
    (totals : Totals) (charged : ℕ) (rs : List CreditUsageRecord) (out : Totals × ℕ)
    → usage_totals_from totals charged rs ≡ ok out
    → IsAdded totals out.0 charged out.1 rs
unfolding usage_totals_from sum
usage_totals_from-IsAdded totals charged [] out h =
    let same : (totals, charged) ≡ out = cc in
    subst (λ o. IsAdded totals o.0 charged o.1 []) same
      (record {
        observed_units = λ m. omega arith;
        charged_units = λ m. omega arith;
        charged_total = omega arith;
        known = refl;
      })
usage_totals_from-IsAdded totals charged (r ∷ rs) out h =
    let (p, e1, h1) = >>=-eq-ok (record_parts r) _ h in
    let (o, e2, h2) = >>=-eq-ok (add (totals r.meter).0 p.0) _ h1 in
    let (c, e3, h3) = >>=-eq-ok (add (totals r.meter).1 p.1) _ h2 in
    let (t, e4, h4) = >>=-eq-ok (add charged p.1) _ h3 in
    let (q0, q1, meter) = record_parts-eq-ok r p e1 in
    let eo = add-eq-ok (totals r.meter).0 p.0 o e2 in
    let ec = add-eq-ok (totals r.meter).1 p.1 c e3 in
    let et = add-eq-ok charged p.1 t e4 in
    let next = put_total r.meter (o, c) totals in
    let rest = usage_totals_from-IsAdded next t rs out h4 in
    record {
      observed_units = λ m. omega (
        arith,
        rest.observed_units m,
        put_total-0 r.meter m o c r.actual_units totals (omega (arith, eo, q0)),
        sum_at-cons (λ r. r.actual_units) m r rs,
      );
      charged_units = λ m. omega (
        arith,
        rest.charged_units m,
        put_total-1 r.meter m o c r.charged_microcredits totals (omega (arith, ec, q1)),
        sum_at-cons (λ r. r.charged_microcredits) m r rs,
      );
      charged_total = omega (arith, rest.charged_total, et, q1);
      known = omega (arith, rest.known, over_meters-cons r rs meter);
    }

-- The sums of the records, by meter.
abbrev pub summed : List CreditUsageRecord → Totals
summed rs m = (sum_at (λ r. r.actual_units) m rs, sum_at (λ r. r.charged_microcredits) m rs)

pair_eq : (p : ℕ × ℕ) (a b : ℕ) → p.0 ≡ a → p.1 ≡ b → p ≡ (a, b)
pair_eq (x, y) a b h k = cc

over_views :
    (rs : List CreditUsageRecord)
    → over_meters (λ m. sum_at (λ r. r.charged_microcredits) m rs)
      ≡ sum (map (λ v. v.charged_microcredits) (map (meter_view (summed rs)) meter_units))
unfolding sum
over_views rs = omega arith

-- The views show the sums of each meter, and the charges that they show make up the total.
pub usage_totals-exact :
    (rs : List CreditUsageRecord) (out : List MeterUsageView × ℕ)
    → usage_totals rs ≡ ok out
    → (out.0 ≡ map (meter_view (summed rs)) meter_units)
      × (out.1 ≡ sum (map (λ r. r.charged_microcredits) rs))
      × (out.1 ≡ sum (map (λ v. v.charged_microcredits) out.0))
unfolding usage_totals sum
usage_totals-exact rs out h =
    let (t, e, h1) = >>=-eq-ok (usage_totals_from no_totals 0 rs) _ h in
    let added = usage_totals_from-IsAdded no_totals 0 rs t e in
    let totals : t.0 ≡ summed rs = fun_ext (λ m.
      pair_eq (t.0 m) _ _ (omega (arith, added.observed_units m))
        (omega (arith, added.charged_units m))) in
    let views : out.0 ≡ map (meter_view t.0) meter_units = cc in
    let shown = views ∙ ap (λ t. map (meter_view t) meter_units) totals in
    let charge : out.1 ≡ t.1 = cc in
    let total : out.1 ≡ sum (map (λ r. r.charged_microcredits) rs) =
      omega (arith, charge, added.charged_total) in
    (
      shown,
      total,
      total
          ∙ sym added.known
          ∙ over_views rs
          ∙ sym (ap (λ vs. sum (map (λ v. v.charged_microcredits) vs)) shown),
    )
