-- ===== src/StateMachine/Laws.antt =====
-- event_state_machine.py: every life of an entity ends.
use daemon_supply_chain.Common.{
  ℕ, zero, suc, ◌≤◌, ◌<◌, String, ◌≡◌, ◌≢◌, refl, Bool, true, false, Option, none, some, inl, inr,
  List, [], ◌∷◌, arith, eq_iff, ◌==◌, ltb, leb, ltb→lt, leb→le, if◌then◌else◌, Bool-cases,
  Option-cases, lookup, lookup-all, elem, all, length,
}
use daemon_supply_chain.Common.Text.{upper}
use daemon_supply_chain.StateMachine.{
  States, state_machine, allows, allows_entity, normalize_entity_type, validate_transition,
}

-- How many steps a state is from the end of its machine, followed to a given depth.
steps_left : ℕ → States → String → ℕ
steps_left zero states s = 0
steps_left (suc depth) states s = elim (lookup s states) [
  | none ↦ 0
  | some followers ↦ longest (steps_left depth states) followers
]
  where
    longest : (String → ℕ) → List String → ℕ
    longest f [] = 0
    longest f (x ∷ xs) = let r = longest f xs in if leb r (suc (f x)) then suc (f x) else r

rank : States → String → ℕ
rank = steps_left 7

falls : States → String → List String → Bool
falls states s followers = all (λ next. ltb (rank states next) (rank states s)) followers

machine_falls : String → States → Bool
machine_falls entity states = all (λ e. falls states e.0 e.1) states

machines_fall : all (λ m. machine_falls m.0 m.1) state_machine ≡ true
unfolding machine_falls falls rank steps_left state_machine
machines_fall = refl

pub elem-falls :
    (p : String → Bool) (next : String) (followers : List String)
    → all p followers ≡ true
    → elem next followers ≡ true
    → p next ≡ true
elem-falls p next [] h e = cc
elem-falls p next (x ∷ xs) h e = elim (Bool-cases (next == x)) [
  | inl here ↦ ground (arith, eq_iff next x)
  | inr there ↦ elem-falls p next xs (ground arith) (ground arith)
]

-- In a machine whose every entry falls, an allowed step lowers the rank.
allows-falls :
    (entity : String) (states : States) (current next : String)
    → machine_falls entity states ≡ true
    → allows states current next ≡ true
    → rank states next < rank states current
unfolding allows machine_falls falls
allows-falls entity states current next h a = elim (Option-cases (lookup current states)) [
  | inl absent ↦ let no_rule : false ≡ true = rw (absent, allows) at a in cc
  | inr (followers, found) ↦ ltb→lt _ _ (
      elem-falls (λ n. ltb (rank states n) (rank states current)) next followers
        (lookup-all (falls states) current states followers h found) (rw (found, allows) at a))
]

allows_entity-falls :
    (entity current next : String)
    → allows_entity (some entity) current next ≡ true
    → (states : States) × (lookup entity state_machine ≡ some states)
      × (rank states next < rank states current)
unfolding allows_entity
allows_entity-falls entity current next h = elim (Option-cases (lookup entity state_machine)) [
  | inl absent ↦ let no_rule : false ≡ true = rw (absent, allows_entity) at h in cc
  | inr (states, found) ↦ (
    states,
    found,
    allows-falls entity states current next
        (lookup-all machine_falls entity state_machine states machines_fall found)
        (rw (found, allows_entity) at h),
  )
]

-- No state of any machine is further than six steps from its end.
machine_low : String → States → Bool
machine_low entity states = all (λ e. leb (rank states e.0) 6) states

machines_low : all (λ m. machine_low m.0 m.1) state_machine ≡ true
unfolding machine_low rank steps_left state_machine
machines_low = refl

-- A life of an entity: each state is reached from the one before by a step that is accepted.
pub data Chain (entity : String) : String → List String → Type 0 where
  rest : (s : String) → Chain entity s []
  step :
      {s t : String} {ts : List String}
      → validate_transition (some s) (some t) (some entity) ≡ true
      → Chain entity t ts
      → Chain entity s (t ∷ ts)

-- The rank of a state as it is spelled, in the machine of an entity as it is spelled.
rank_in : Option String → String → ℕ
rank_in none s = 0
rank_in (some entity) s = elim (lookup entity state_machine) [
  | some states ↦ rank states (upper s)
  | none ↦ 0
]

low_entry : (states : States) (s : String) → machine_low "" states ≡ true → rank states s ≤ 6
unfolding machine_low rank steps_left
low_entry states s h = elim (Option-cases (lookup s states)) [
  | inl absent ↦ rw (absent, rank, steps_left) (omega arith)
  | inr (followers, found) ↦
      leb→le _ _ (lookup-all (λ k v. leb (rank states k) 6) s states followers h found)
]

rank_in-le : (entity : Option String) (s : String) → rank_in entity s ≤ 6
unfolding rank_in machine_low
rank_in-le none s = omega arith
rank_in-le (some entity) s = elim (Option-cases (lookup entity state_machine)) [
  | inl absent ↦ rw (absent, rank_in) (omega arith)
  | inr (states, found) ↦
      rw (found, rank_in)
        (low_entry states (upper s)
          (lookup-all (λ e. machine_low "") entity state_machine states machines_low found))
]

pub normalize-some : (entity : String) → normalize_entity_type (some entity) ≢ none
unfolding normalize_entity_type
normalize-some entity h = ground arith

validate-falls :
    (s t entity : String)
    → validate_transition (some s) (some t) (some entity) ≡ true
    → rank_in (normalize_entity_type (some entity)) t
      < rank_in (normalize_entity_type (some entity)) s
unfolding validate_transition rank_in
validate-falls s t entity h = elim (Option-cases (normalize_entity_type (some entity))) [
  | inl absent ↦ absurd (normalize-some entity absent)
  | inr (name, found) ↦
      let (states, at_name, fall) = allows_entity-falls name (upper s) (upper t) (rw found at h) in
      rw (found, at_name, rank_in) fall
]

Chain-le-rank :
    (entity s : String) (ts : List String)
    → Chain entity s ts
    → length ts ≤ rank_in (normalize_entity_type (some entity)) s
Chain-le-rank entity s [] c = omega arith
Chain-le-rank entity s (t ∷ ts) (step ok c) =
    omega (arith, validate-falls s t entity ok, Chain-le-rank entity t ts c)

-- Whatever the entity and the spelling of names and states, at most six accepted transitions follow
-- one another.
pub Chain-length-le : (entity s : String) (ts : List String) → Chain entity s ts → length ts ≤ 6
Chain-length-le entity s ts c =
    omega (arith, Chain-le-rank entity s ts c, rank_in-le (normalize_entity_type (some entity)) s)
