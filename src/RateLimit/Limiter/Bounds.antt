-- ===== src/RateLimit/Limiter/Bounds.antt =====
-- How many requests of one key an `IPRateLimiter` lets through, whatever other keys and the
-- cleaner do in between.
use fin_arch.Base.{
  ℕ, ◌+◌, ◌-◌, ◌*◌, ◌≤◌, ◌<◌, min, ◌≡◌, refl, ◌&&◌, Option, none, some, List, [], ◌∷◌, arith, ltb,
  if◌then◌else◌, Text, text_eq, text_eq_iff, All, ◌⊎◌, inl, inr, ◌∙◌,
}
use fin_arch.RateLimit.Limiter.{
  FixedWindow, IpRateLimiter, Event, request, tick, time_of, allow, cleanup, step,
}

-- The hits of `key` that an event lets through: none or one.
abbrev pub hits : Text → IpRateLimiter → Event → ℕ
hits key l (request k now) = if text_eq k key && (allow l k now).1 then 1 else 0
hits key l (tick now) = 0

-- The requests of `key` that get through in a run.
abbrev pub allowed : Text → IpRateLimiter → List Event → ℕ
allowed key l [] = 0
allowed key l (e ∷ es) = hits key l e + allowed key (step l e) es

-- The requests of `key` in a list of events.
abbrev pub requests : Text → List Event → ℕ
requests key [] = 0
requests key (request k now ∷ es) = (if text_eq k key then 1 else 0) + requests key es
requests key (tick now ∷ es) = requests key es

requests_cons :
    (key : Text) (e : Event) (es : List Event)
    → requests key (e ∷ es) ≡ requests key (e ∷ []) + requests key es
requests_cons key (request k now) es = ground arith
requests_cons key (tick now) es = omega arith

requests-le-one : (key : Text) (e : Event) → requests key (e ∷ []) ≤ 1
requests-le-one key (request k now) = ground arith
requests-le-one key (tick now) = omega arith

-- All events fall in the span from `from` to `till`, both included.
abbrev pub Within : ℕ → ℕ → List Event → Type 0
Within from till = All (λ e. (from ≤ time_of e) × (time_of e ≤ till))

-- What may still get through until `till`: the rest of a window that lasts, and a whole window
-- more if this one ends before.
abbrev quota : ℕ → ℕ → Option FixedWindow → ℕ
quota m till none = m
quota m till (some w) = (m - w.count) + (if ltb w.window_end till then m else 0)

step-max : (l : IpRateLimiter) (e : Event) → (step l e).max ≡ l.max
unfolding step
step-max l (request k now) = ground arith
step-max l (tick now) = refl

step-duration : (l : IpRateLimiter) (e : Event) → (step l e).duration ≡ l.duration
unfolding step
step-duration l (request k now) = ground arith
step-duration l (tick now) = refl

module _ (key : Text) (from d m : ℕ) where
  step-quota :
      (l : IpRateLimiter) (e : Event)
      → l.duration ≡ d
      → l.max ≡ m
      → 0 < m
      → (from ≤ time_of e) × (time_of e ≤ from + d)
      → hits key l e + quota m (from + d) ((step l e).windows key)
        ≤ quota m (from + d) (l.windows key)
  unfolding step allow
  step-quota l (request k now) ed em pm h = ground (arith, text_eq_iff k key)
  step-quota l (tick now) ed em pm h = ground arith

  allowed-le-quota :
      (l : IpRateLimiter) (es : List Event)
      → l.duration ≡ d
      → l.max ≡ m
      → 0 < m
      → Within from (from + d) es
      → allowed key l es ≤ quota m (from + d) (l.windows key)
  allowed-le-quota l [] ed em pm h = omega arith
  allowed-le-quota l (e ∷ es) ed em pm h = omega (
    arith,
    step-quota l e ed em pm h.0,
    allowed-le-quota (step l e) es (step-duration l e ∙ ed) (step-max l e ∙ em) pm h.1,
  )

  -- In a window that lasts, a request counts one hit if the window is not full.
  step_in_window :
      (l : IpRateLimiter) (e : Event) (w : FixedWindow)
      → l.max ≡ m
      → time_of e ≤ from + d
      → l.windows key ≡ some w
      → from + d ≤ w.window_end
      → ((step l e).windows key ≡ some (record w { count = w.count + hits key l e }))
        × (hits key l e ≡ (if ltb w.count m then requests key (e ∷ []) else 0))
  unfolding step allow
  step_in_window l (request k now) w em h ew late = ground (arith, text_eq_iff k key)
  step_in_window l (tick now) w em h ew late = ground arith

  -- While a window of `key` lasts past the span, exactly its rest gets through.
  allowed_in_window :
      (l : IpRateLimiter) (es : List Event) (w : FixedWindow)
      → l.duration ≡ d
      → l.max ≡ m
      → Within from (from + d) es
      → l.windows key ≡ some w
      → from + d ≤ w.window_end
      → allowed key l es ≡ min (m - w.count) (requests key es)
  allowed_in_window l [] w ed em h ew late = omega arith
  allowed_in_window l (e ∷ es) w ed em h ew late =
      let (kept, hit) = step_in_window l e w em h.0.1 ew late in
      ground (
        arith,
        hit,
        requests_cons key e es,
        requests-le-one key e,
        allowed_in_window (step l e) es (record w { count = w.count + hits key l e })
            (step-duration l e ∙ ed) (step-max l e ∙ em) h.1 kept late,
      )

  -- The first request of a new key opens a window, and gets through.
  step_fresh :
      (l : IpRateLimiter) (e : Event)
      → l.windows key ≡ none
      → (((step l e).windows key ≡ none) × (hits key l e ≡ 0) × (requests key (e ∷ []) ≡ 0))
        ⊎ (((step l e).windows key
              ≡ some (record { count = 1; window_end = time_of e + l.duration }))
            × (hits key l e ≡ 1)
            × (requests key (e ∷ []) ≡ 1))
  unfolding step allow
  step_fresh l (request k now) new = ground (arith, text_eq_iff k key)
  step_fresh l (tick now) new = inl (ground arith, refl, refl)

  allowed_fresh :
      (l : IpRateLimiter) (es : List Event)
      → l.duration ≡ d
      → l.max ≡ m
      → 0 < m
      → Within from (from + d) es
      → l.windows key ≡ none
      → allowed key l es ≡ min m (requests key es)
  allowed_fresh l [] ed em pm h new = omega arith
  allowed_fresh l (e ∷ es) ed em pm h new = elim (step_fresh l e new) [
    | inl (still, miss, other) ↦ omega (
      arith,
      miss,
      other,
      requests_cons key e es,
      allowed_fresh (step l e) es (step-duration l e ∙ ed) (step-max l e ∙ em) pm h.1 still,
    )
    | inr (opened, hit, mine) ↦ omega (
      arith,
      hit,
      mine,
      requests_cons key e es,
      allowed_in_window (step l e) es _ (step-duration l e ∙ ed) (step-max l e ∙ em) h.1 opened
          (omega (arith, ed, h.0.0)),
    )
  ]

-- A limiter with a positive maximum lets through, of the requests of a key that has no window yet,
-- made within one duration, the first `max` and no more, whatever other keys and the cleaner do.
pub allowed_first_window :
    (key : Text) (from : ℕ) (l : IpRateLimiter) (es : List Event)
    → 0 < l.max
    → l.windows key ≡ none
    → Within from (from + l.duration) es
    → allowed key l es ≡ min l.max (requests key es)
allowed_first_window key from l es pm new h =
    allowed_fresh key from l.duration l.max l es refl refl pm h new

-- From any state of a limiter with a positive maximum, at most twice `max` requests of a key get
-- through in a span of one duration, whatever other keys and the cleaner do.
pub allowed-le-twice :
    (key : Text) (from : ℕ) (l : IpRateLimiter) (es : List Event)
    → 0 < l.max
    → Within from (from + l.duration) es
    → allowed key l es ≤ 2 * l.max
allowed-le-twice key from l es pm h =
    ground (arith, allowed-le-quota key from l.duration l.max l es refl refl pm h)

-- A tick of the cleaner that is not later than a request changes nothing for it: the answer is the
-- same, and so is the window of its key after it.
pub cleanup-allow :
    (key : Text) (l : IpRateLimiter) (ticked now : ℕ)
    → ticked ≤ now
    → ((allow (cleanup l ticked) key now).1 ≡ (allow l key now).1)
      × ((allow (cleanup l ticked) key now).0.windows key ≡ (allow l key now).0.windows key)
unfolding allow cleanup
cleanup-allow key l ticked now h = ground (arith, text_eq_iff key key)
