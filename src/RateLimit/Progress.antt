-- ===== src/RateLimit/Progress.antt =====
-- The loop of `acquire` in backend/app/services/vertex/rate_limit.py, for a caller alone.
use ai_multimodal_platform.Prelude.{
  ℕ, ◌+◌, ◌≤◌, ◌<◌, ◌≡◌, List, [], ◌∷◌, ◌++◌, length, length-append, arith, some, inl, inr,
}
use ai_multimodal_platform.RateLimit.Window.{attempt_room, attempt_admitted, Attempt-cases}
use ai_multimodal_platform.RateLimit.{
  SlidingWindowLimiter, drop_expired, prune, wait_for_oldest, wait_at, admitted, must_wait, attempt,
  acquire, estimate_wait,
}

-- The deque holds at most `capacity` instants, and the capacity is not 0.
pub record IsValid (l : SlidingWindowLimiter) : Type 0 where
  pub bounded : length l.events ≤ l.capacity
  pub positive : 0 < l.capacity

length-drop_expired : (w now : ℕ) (es : List ℕ) → length (drop_expired w now es) ≤ length es
unfolding drop_expired
length-drop_expired w now [] = omega arith
length-drop_expired w now (e ∷ es) = ground (arith, length-drop_expired w now es)

-- Once the oldest instant is `window` old, a pruning makes room.
length-drop_expired-lt :
    (w now e : ℕ) (es : List ℕ)
    → e + w ≤ now
    → length (drop_expired w now (e ∷ es)) < length (e ∷ es)
unfolding drop_expired
length-drop_expired-lt w now e es h = ground (arith, length-drop_expired w now es)

room_later :
    (w now later cap : ℕ) (es : List ℕ)
    → 0 < cap
    → length es ≤ cap
    → now + wait_for_oldest w now es ≤ later
    → length (drop_expired w later es) < cap
unfolding wait_for_oldest drop_expired
room_later w now later cap [] p b le = p
room_later w now later cap (e ∷ es) p b le =
    omega (arith, length-drop_expired-lt w later e es (omega arith))

attempt_of_room :
    (now : ℕ) (l : SlidingWindowLimiter)
    → length (drop_expired l.window_seconds now l.events) < l.capacity
    → attempt now l
      ≡ admitted (record l { events = drop_expired l.window_seconds now l.events ++ now ∷ [] })
unfolding attempt prune wait_at
attempt_of_room now l room = ground arith

attempt-wait :
    (now : ℕ) (l : SlidingWindowLimiter) {l' : SlidingWindowLimiter}
    → attempt now l ≡ admitted l'
    → (estimate_wait now l).0 ≡ 0
unfolding attempt estimate_wait
attempt-wait now l e = ground arith

attempt_must_wait :
    (now s : ℕ) (l : SlidingWindowLimiter) {l' : SlidingWindowLimiter}
    → IsValid l
    → attempt now l ≡ must_wait s l'
    → (s ≡ (estimate_wait now l).0)
      × (s ≡ wait_for_oldest l.window_seconds now l'.events)
      × (l'.events ≡ drop_expired l.window_seconds now l.events)
      × (l'.window_seconds ≡ l.window_seconds)
      × (l'.capacity ≡ l.capacity)
unfolding attempt estimate_wait
attempt_must_wait now s l v e = ground arith

attempt-IsValid :
    (now : ℕ) (l : SlidingWindowLimiter) {l' : SlidingWindowLimiter}
    → IsValid l
    → attempt now l ≡ admitted l'
    → IsValid l'
attempt-IsValid now l v e = rw (attempt_admitted now l e) (record {
  bounded =
      let kept = drop_expired l.window_seconds now l.events in
      omega (arith, attempt_room now l v.positive e, length-append kept (now ∷ []));
  positive = v.positive;
})

-- After the wait that an attempt asks for, or longer, the deque has room.
attempt_later :
    (now later s : ℕ) (l l' : SlidingWindowLimiter)
    → IsValid l
    → attempt now l ≡ must_wait s l'
    → now + s ≤ later
    → IsValid l' × (length (drop_expired l'.window_seconds later l'.events) < l'.capacity)
attempt_later now later s l l' v e le =
    let (same_wait, wait, kept, window, capacity) = attempt_must_wait now s l v e in
    let short : length l'.events ≤ l'.capacity =
      rw (kept, capacity)
        (omega (arith, length-drop_expired l.window_seconds now l.events, v.bounded)) in
    (
      record { bounded = short; positive = rw capacity v.positive },
      room_later l'.window_seconds now later l'.capacity l'.events (rw capacity v.positive) short
          (rw (window, ← wait) le),
    )

-- A caller with no competitor, on a limiter that holds at most its capacity, is let through at its
-- first attempt, or at its second if it sleeps at least as long as the first told it to: `acquire`
-- returns what it was told to wait, and the limiter again holds at most its capacity.
pub acquire_sleeps_once :
    (now later waited : ℕ) (l : SlidingWindowLimiter)
    → IsValid l
    → now + (estimate_wait now l).0 ≤ later
    → (l' : SlidingWindowLimiter) × (acquire (now ∷ later ∷ []) waited l
        ≡ some (waited + (estimate_wait now l).0, l'))
      × IsValid l'
unfolding acquire
acquire_sleeps_once now later waited l v le = elim (Attempt-cases (attempt now l)) [
  | inl (l', e) ↦ (l', ground (arith, e, attempt-wait now l e), attempt-IsValid now l v e)
  | inr (s, l', e) ↦
      let told : s ≡ (estimate_wait now l).0 = (attempt_must_wait now s l v e).0 in
      let (valid, room) = attempt_later now later s l l' v e (rw told le) in
      let second = attempt_of_room later l' room in
      (
        record l' { events = drop_expired l'.window_seconds later l'.events ++ later ∷ [] },
        ground (arith, e, second, told),
        attempt-IsValid later l' valid second,
      )
]
