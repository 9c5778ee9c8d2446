-- ===== src/RateLimit/Window.antt =====
-- The admissions of the limiter of backend/app/services/vertex/rate_limit.py in a window.
use ai_multimodal_platform.Prelude.{
  ℕ, ◌+◌, ◌≤◌, ◌<◌, ◌≡◌, refl, List, [], ◌∷◌, ◌++◌, length, arith, ltb, leb, if◌then◌else◌, ◌&&◌,
  inl, inr, ◌⊎◌,
}
use ai_multimodal_platform.RateLimit.{
  SlidingWindowLimiter, created, new, drop_expired, prune, wait_for_oldest, wait_at, Attempt,
  admitted, must_wait, attempt,
}

-- How many of these instants a window that ends at `now` still holds.
pub alive : ℕ → ℕ → List ℕ → ℕ
alive window now [] = 0
alive window now (e ∷ es) =
    let rest = alive window now es in if ltb now (e + window) then 1 + rest else rest

-- How many of these instants lie in the window that ends at `t`: later than `t - window`, up to `t`.
pub within : ℕ → ℕ → List ℕ → ℕ
within window t [] = 0
within window t (e ∷ es) =
    let rest = within window t es in if leb e t && ltb t (e + window) then 1 + rest else rest

pub alive-append : (w t : ℕ) (xs ys : List ℕ) → alive w t (xs ++ ys) ≡ alive w t xs + alive w t ys
unfolding alive
alive-append w t [] ys = omega arith
alive-append w t (x ∷ xs) ys = ground (arith, alive-append w t xs ys)

-- Pruning drops only what no later window holds.
pub alive-drop_expired :
    (w now t : ℕ) (es : List ℕ) → now ≤ t → alive w t (drop_expired w now es) ≡ alive w t es
unfolding alive drop_expired
alive-drop_expired w now t [] h = refl
alive-drop_expired w now t (e ∷ es) h = ground (arith, alive-drop_expired w now t es h)

pub alive-le-length : (w t : ℕ) (es : List ℕ) → alive w t es ≤ length es
unfolding alive
alive-le-length w t [] = omega arith
alive-le-length w t (e ∷ es) = ground (arith, alive-le-length w t es)

within-le-alive : (w t x : ℕ) (es : List ℕ) → x ≤ t → within w t es ≤ alive w x es
unfolding within alive
within-le-alive w t x [] h = omega arith
within-le-alive w t x (e ∷ es) h = ground (arith, within-le-alive w t x es h)

-- What is left of a pruned deque begins with an instant that the window still holds.
pub wait_for_oldest-pos :
    (w now : ℕ) (es : List ℕ)
    → 0 < length (drop_expired w now es)
    → 0 < wait_for_oldest w now (drop_expired w now es)
unfolding drop_expired wait_for_oldest
wait_for_oldest-pos w now [] h = elim h [ ]
wait_for_oldest-pos w now (e ∷ es) h = ground (arith, wait_for_oldest-pos w now es)

-- An admission finds a free place after pruning.
pub attempt_room :
    (now : ℕ) (l : SlidingWindowLimiter) {l' : SlidingWindowLimiter}
    → 0 < l.capacity
    → attempt now l ≡ admitted l'
    → length (drop_expired l.window_seconds now l.events) < l.capacity
unfolding attempt prune wait_at
attempt_room now l h e = ground (arith, wait_for_oldest-pos l.window_seconds now l.events)

-- Each admission, when it was made, was one of at most `cap` in the window behind it.
abbrev Spaced : ℕ → ℕ → List ℕ → Type 0
Spaced w cap [] = Unit
Spaced w cap (x ∷ rest) = (alive w x rest < cap) × Spaced w cap rest

within-le-cap : (w cap t : ℕ) (h : List ℕ) → Spaced w cap h → within w t h ≤ cap
unfolding within
within-le-cap w cap t [] s = omega arith
within-le-cap w cap t (x ∷ rest) s =
    ground (arith, within-le-cap w cap t rest s.1, within-le-alive w t x rest)

-- Calls of `acquire` in the order of their clock readings, from any number of callers; a caller
-- that has to wait comes back as a later reading. `history` collects the admissions, newest first.
unfoldable pub serve : List ℕ → SlidingWindowLimiter → List ℕ → SlidingWindowLimiter × List ℕ
serve [] l history = (l, history)
serve (now ∷ later) l history = elim (attempt now l) [
  | admitted l' ↦ serve later l' (now ∷ history)
  | must_wait s l' ↦ serve later l' history
]

-- The clock does not run backwards.
abbrev pub IsClock : ℕ → List ℕ → Type 0
IsClock now [] = Unit
IsClock now (next ∷ later) = (now ≤ next) × IsClock next later

-- The deque remembers every admission that a window from `clock` on can hold.
record Tracks (w cap clock : ℕ) (l : SlidingWindowLimiter) (history : List ℕ) : Type 0 where
  window : l.window_seconds ≡ w
  capacity : l.capacity ≡ cap
  covers : (t : ℕ) → clock ≤ t → alive w t history ≤ alive w t l.events
  spaced : Spaced w cap history

prune_covers :
    (w now clock : ℕ) (events history : List ℕ)
    → clock ≤ now
    → ((t : ℕ) → clock ≤ t → alive w t history ≤ alive w t events)
    → (t : ℕ) → now ≤ t
    → alive w t history ≤ alive w t (drop_expired w now events)
prune_covers w now clock events history h covers t le =
    omega (arith, covers t (omega arith), alive-drop_expired w now t events le)

admit_covers :
    (w now : ℕ) (events history : List ℕ)
    → ((t : ℕ) → now ≤ t → alive w t history ≤ alive w t events)
    → (t : ℕ) → now ≤ t
    → alive w t (now ∷ history) ≤ alive w t (events ++ now ∷ [])
unfolding alive
admit_covers w now events history covers t le =
    ground (arith, covers t le, alive-append w t events (now ∷ []))

pub attempt_admitted :
    (now : ℕ) (l : SlidingWindowLimiter) {l' : SlidingWindowLimiter}
    → attempt now l ≡ admitted l'
    → l' ≡ record l { events = drop_expired l.window_seconds now l.events ++ now ∷ [] }
unfolding attempt prune
attempt_admitted now l e = ground arith

attempt_must_wait :
    (now s : ℕ) (l : SlidingWindowLimiter) {l' : SlidingWindowLimiter}
    → attempt now l ≡ must_wait s l'
    → l' ≡ record l { events = drop_expired l.window_seconds now l.events }
unfolding attempt prune
attempt_must_wait now s l e = ground arith

step_admitted :
    (w cap clock now : ℕ) (l l' : SlidingWindowLimiter) (history : List ℕ)
    → 0 < cap
    → clock ≤ now
    → Tracks w cap clock l history
    → attempt now l ≡ admitted l'
    → Tracks w cap now l' (now ∷ history)
step_admitted w cap clock now l l' history pos_cap le t e =
    let pruned = prune_covers w now clock l.events history le t.covers in
    let kept : (x : ℕ) → now ≤ x → alive w x (now ∷ history) ≤ alive w x l'.events =
      rw (attempt_admitted now l e, t.window)
        (admit_covers w now (drop_expired w now l.events) history pruned) in
    let room : length (drop_expired w now l.events) < cap =
      let r = attempt_room now l (rw t.capacity pos_cap) e in rw (t.window, t.capacity) at r in
    record {
      window = rw (attempt_admitted now l e) t.window;
      capacity = rw (attempt_admitted now l e) t.capacity;
      covers = kept;
      spaced = (
        omega (
          arith,
          pruned now (omega arith),
          alive-le-length w now (drop_expired w now l.events),
          room,
        ),
        t.spaced,
      );
    }

step_must_wait :
    (w cap clock now s : ℕ) (l l' : SlidingWindowLimiter) (history : List ℕ)
    → clock ≤ now
    → Tracks w cap clock l history
    → attempt now l ≡ must_wait s l'
    → Tracks w cap now l' history
step_must_wait w cap clock now s l l' history le t e = record {
  window = rw (attempt_must_wait now s l e) t.window;
  capacity = rw (attempt_must_wait now s l e) t.capacity;
  covers =
      rw (attempt_must_wait now s l e, t.window)
        (prune_covers w now clock l.events history le t.covers);
  spaced = t.spaced;
}

pub Attempt-cases :
    (a : Attempt)
    → ((l : SlidingWindowLimiter) × (a ≡ admitted l))
      ⊎ ((s : ℕ) × (l : SlidingWindowLimiter) × (a ≡ must_wait s l))
Attempt-cases (admitted l) = inl (l, refl)
Attempt-cases (must_wait s l) = inr (s, l, refl)

serve-Spaced :
    (w limit clock : ℕ) (readings : List ℕ) (l : SlidingWindowLimiter) (history : List ℕ)
    → 0 < limit
    → IsClock clock readings
    → Tracks w limit clock l history
    → Spaced w limit (serve readings l history).1
unfolding serve
serve-Spaced w limit clock [] l history p c t = t.spaced
serve-Spaced w limit clock (now ∷ later) l history p c t = elim (Attempt-cases (attempt now l)) [
  | inl (l', e) ↦
      rw (e, Spaced)
        (serve-Spaced w limit now later l' (now ∷ history) p c.1
          (step_admitted w limit clock now l l' history p c.0 t e))
  | inr (s, l', e) ↦
      rw (e, Spaced)
        (serve-Spaced w limit now later l' history p c.1
          (step_must_wait w limit clock now s l l' history c.0 t e))
]

-- A new limiter, whatever callers come and go while the clock does not run backwards, lets at most
-- `capacity` calls through in any span of `window_seconds`: the number of admissions later than
-- `t - window_seconds` and up to `t` is at most the capacity, for every instant `t`.
pub serve-within_capacity :
    (l : SlidingWindowLimiter) (capacity window_seconds t : ℕ) (readings : List ℕ)
    → new capacity window_seconds ≡ created l
    → IsClock 0 readings
    → within window_seconds t (serve readings l []).1 ≤ capacity
unfolding new alive
serve-within_capacity l capacity window_seconds t readings e c =
    let fresh : (l.window_seconds ≡ window_seconds)
        × (l.capacity ≡ capacity)
        × (l.events ≡ [])
        × (0 < capacity) =
      (ground arith, ground arith, ground arith, ground arith) in
    within-le-cap window_seconds capacity t (serve readings l []).1 (
      serve-Spaced window_seconds capacity 0 readings l [] fresh.3 c (record {
        window = fresh.0;
        capacity = fresh.1;
        covers = λ t' le. omega arith;
        spaced = tt;
      }))
