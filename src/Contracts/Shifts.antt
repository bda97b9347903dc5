-- ===== src/Contracts/Shifts.antt =====
-- contracts.py, `validate_lms_sequence`: which orders of shift events are accepted.
use daemon_supply_chain.Common.{
  ℕ, ◌+◌, ◌≤◌, String, ◌≡◌, refl, Bool, true, false, ◌&&◌, not, Option, none, some, inl, inr, List,
  [], ◌∷◌, ◌++◌, arith, Option-cases, if◌then◌else◌,
}
use daemon_supply_chain.Contracts.{
  Kind, shift_start, shift_end, break_start, break_end, other, kind, Shift, off_duty, lms_step,
  lms_loop, validate_lms_sequence,
}

-- The state after the events, where none of them is refused.
run : Shift → List String → Option Shift
run s [] = some s
run s (e ∷ es) = elim (lms_step (kind e) s) [ none ↦ none | some s' ↦ run s' es ]

lms_loop-run :
    (s : Shift) (xs ys : List String)
    → lms_loop s (xs ++ ys) ≡ elim (run s xs) [ none ↦ false | some s' ↦ lms_loop s' ys ]
unfolding lms_loop run
lms_loop-run s [] ys = refl
lms_loop-run s (x ∷ xs) ys = elim (Option-cases (lms_step (kind x) s)) [
  | inl refused ↦ rw (refused, lms_loop, run) refl
  | inr (s', passed) ↦ rw (passed, lms_loop, run) (lms_loop-run s' xs ys)
]

-- An event that opens a shift, or opens or closes a break.
abbrev pub leaves_on_duty : Kind → Bool
leaves_on_duty shift_start = true
leaves_on_duty break_start = true
leaves_on_duty break_end = true
leaves_on_duty _ = false

last_step :
    (k : Kind) (s : Shift)
    → leaves_on_duty k ≡ true
    → elim (lms_step k s) [ none ↦ false | some s' ↦ not s'.active_break && not s'.active_shift ]
      ≡ false
unfolding lms_step
last_step shift_start s h = ground arith
last_step break_start s h = ground arith
last_step break_end s h = ground arith
last_step shift_end s h = cc
last_step other s h = cc

-- No sequence is accepted whose last event opens a shift, or opens or closes a break, whatever
-- comes before.
pub validate_lms_sequence_open :
    (events : List String) (event_name : String)
    → leaves_on_duty (kind event_name) ≡ true
    → validate_lms_sequence (events ++ event_name ∷ []) ≡ false
unfolding validate_lms_sequence lms_loop
validate_lms_sequence_open events event_name h = elim (Option-cases (run off_duty events)) [
  | inl refused ↦ rw (lms_loop-run off_duty events (event_name ∷ []), refused) refl
  | inr (s, passed) ↦
      rw (lms_loop-run off_duty events (event_name ∷ []), passed) (last_step (kind event_name) s h)
]

-- How many events of a kind a sequence has.
abbrev is_kind : Kind → Kind → Bool
is_kind shift_start shift_start = true
is_kind shift_end shift_end = true
is_kind break_start break_start = true
is_kind break_end break_end = true
is_kind other other = true
is_kind _ _ = false

pub count : Kind → List String → ℕ
count k [] = 0
count k (e ∷ es) = (if is_kind k (kind e) then 1 else 0) + count k es

abbrev bit : Bool → ℕ
bit b = if b then 1 else 0

step-balance :
    (s s' : Shift) (k : Kind)
    → lms_step k s ≡ some s'
    → ((bit s.active_shift + bit (is_kind shift_start k)
        ≡ bit s'.active_shift + bit (is_kind shift_end k)))
      × (bit s'.active_break + bit (is_kind break_end k)
          ≤ bit s.active_break + bit (is_kind break_start k))
unfolding lms_step
step-balance s s' shift_start h = ground arith
step-balance s s' shift_end h = ground arith
step-balance s s' break_start h = ground arith
step-balance s s' break_end h = ground arith
step-balance s s' other h = ground arith

loop-balance :
    (s : Shift) (xs : List String)
    → lms_loop s xs ≡ true
    → (bit s.active_shift + count shift_start xs ≡ count shift_end xs)
      × (count break_end xs ≤ bit s.active_break + count break_start xs)
unfolding lms_loop count
loop-balance s [] h = ground arith
loop-balance s (x ∷ xs) h = elim (Option-cases (lms_step (kind x) s)) [
  | inl refused ↦ let no_step : false ≡ true = rw (refused, lms_loop) at h in cc
  | inr (s', passed) ↦ omega (
    arith,
    (loop-balance s' xs (rw (passed, lms_loop) at h)).0,
    (loop-balance s' xs (rw (passed, lms_loop) at h)).1,
    (step-balance s s' (kind x) passed).0,
    (step-balance s s' (kind x) passed).1,
  )
]

-- An accepted sequence opens as many shifts as it closes, and closes no more breaks than it opens.
pub validate_lms_sequence-balance :
    (events : List String)
    → validate_lms_sequence events ≡ true
    → (count shift_start events ≡ count shift_end events)
      × (count break_end events ≤ count break_start events)
unfolding validate_lms_sequence
validate_lms_sequence-balance events h =
    let (shifts, breaks) = loop-balance off_duty events h in (omega arith, omega arith)
