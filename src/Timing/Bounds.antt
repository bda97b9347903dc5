-- ===== src/Timing/Bounds.antt =====
-- event_timing.py: delays never fail and stay in the window of the event; time moves forward.
use daemon_supply_chain.Common.{
  ℕ, ◌+◌, ◌*◌, ◌≤◌, String, ◌≡◌, refl, Bool, true, ◌&&◌, ◌⊎◌, inl, inr, arith, leb, Option-cases,
  lookup, lookup-all, all, ok,
}
use daemon_supply_chain.Timing.{
  Window, event_delay_windows, window_of, at_least_one, delay_in, get_event_delay,
  get_future_event_time, microseconds_per_minute,
}

-- What Python documents of `random.randint(lo, hi)` for `lo <= hi`.
abbrev pub IsRandint : (ℕ → ℕ → ℕ) → Type 0
IsRandint randint = (lo hi : ℕ) → lo ≤ hi → (lo ≤ randint lo hi) × (randint lo hi ≤ hi)

is_sound : String → Window → Bool
is_sound event w = leb w.min_minutes w.max_minutes && leb w.max_minutes 1440

windows_sound : all (λ e. is_sound e.0 e.1) event_delay_windows ≡ true
unfolding is_sound event_delay_windows
windows_sound = refl

window_of_sound :
    (event_type : String)
    → ((window_of event_type).min_minutes ≤ (window_of event_type).max_minutes)
      × ((window_of event_type).max_minutes ≤ 1440)
unfolding is_sound window_of
window_of_sound event_type = elim (Option-cases (lookup event_type event_delay_windows)) [
  | inl absent ↦ rw (absent, window_of) (omega arith)
  | inr (w, found) ↦
      let sound = lookup-all is_sound event_type event_delay_windows w windows_sound found in
      rw (found, window_of) (ground arith)
]

module _ (randint : ℕ → ℕ → ℕ) (drawn : IsRandint randint) where
  -- A delay that the window allows, raised to one minute where the draw is 0.
  pub record IsDelay (w : Window) (d : ℕ) : Type 0 where
    pub positive : 1 ≤ d
    pub above : w.min_minutes ≤ d
    pub below : (d ≤ w.max_minutes) ⊎ (d ≡ 1)

  delay_in-IsDelay :
      (w : Window)
      → w.min_minutes ≤ w.max_minutes
      → (d : ℕ) × (delay_in randint w ≡ ok d) × IsDelay w d
  unfolding delay_in at_least_one
  delay_in-IsDelay w h =
      let (low, high) = drawn w.min_minutes w.max_minutes h in
      (at_least_one w (randint w.min_minutes w.max_minutes), ground arith, ground arith)

  -- For random numbers in the range asked for, a delay is found for every event type; it lies in
  -- the window of the event, or is the one minute to which a draw of 0 is raised, and is between a
  -- minute and a day.
  pub get_event_delay-IsDelay :
      (event_type : String)
      → (d : ℕ) × (get_event_delay randint event_type ≡ ok d)
        × IsDelay (window_of event_type) d
        × (d ≤ 1440)
  unfolding get_event_delay
  get_event_delay-IsDelay event_type =
      let (ordered, day) = window_of_sound event_type in
      let (d, e, fits) = delay_in-IsDelay (window_of event_type) ordered in
      (d, e, fits, ground arith)

  -- For random numbers in the range asked for, a follow-up event is at least a minute and at most a
  -- day later than its base time.
  pub get_future_event_time-later :
      (event_type : String) (base_time : ℕ)
      → (t : ℕ) × (get_future_event_time randint event_type base_time ≡ ok t)
        × (base_time + microseconds_per_minute ≤ t)
        × (t ≤ base_time + 1440 * microseconds_per_minute)
  unfolding get_future_event_time
  get_future_event_time-later event_type base_time =
      let (d, e, fits, day) = get_event_delay-IsDelay event_type in
      (base_time + d * microseconds_per_minute, rw e, ground arith, omega arith)
