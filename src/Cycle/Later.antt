-- ===== src/Cycle/Later.antt =====
-- master_simulator.py: a cycle schedules into the future only.
use daemon_supply_chain.Common.{
  append_assoc, ℕ, String, ◌≡◌, refl, ap, inl, inr, some, List, [], ◌∷◌, ◌++◌, ◌<◌, arith, leb,
  Option-cases, Bool-cases, find, All, All-append, Result, ok, err, ◌==◌, sym, ◌∙◌,
}
use daemon_supply_chain.Timing.Bounds.{IsRandint, get_future_event_time-later}
use daemon_supply_chain.Values.{Value}
use daemon_supply_chain.Queue.{Row, NewEvent, new_row, is_duplicate, insert_future_event}
use daemon_supply_chain.Executor.State.{Env, Sim, Created, Exec, pure, lift, continue, ◌>>=◌, draw}
use daemon_supply_chain.Executor.Resolve.{future_time}
use daemon_supply_chain.Cycle.Future.{
  scheduled_or, coerce_time, coerce_future_event, Scheduled, insert, schedule_event, schedule_typed,
  schedule_returned_events,
}

-- The queue has its old rows, and behind them rows that are scheduled after the time.
pub record Grows (base_time : ℕ) (old new : List Row) : Type 0 where
  pub added : List Row
  pub rows : new ≡ old ++ added
  pub later : All (λ (row : Row). base_time < row.scheduled_time) added

append_nil : (l : List Row) → l ≡ l ++ []
append_nil [] = refl
append_nil (x ∷ xs) = ap (◌∷◌ x) (append_nil xs)

module _ (base_time : ℕ) where
  Grows-refl : (l : List Row) → Grows base_time l l
  Grows-refl l = record { added = []; rows = append_nil l; later = tt }

  Grows-trans : (a b c : List Row) → Grows base_time a b → Grows base_time b c → Grows base_time a c
  Grows-trans a b c g h = record {
    added = g.added ++ h.added;
    rows = rw (h.rows, g.rows) (append_assoc a g.added h.added);
    later =
        All-append (λ (row : Row). base_time < row.scheduled_time) g.added h.added g.later h.later;
  }

  -- The code adds later rows only, and what it returns fits.
  pub record Adds {A : Type 0} (P : A → Type 0) (m : Exec A) : Type 0 where
    pub grows : (s : Sim) → Grows base_time s.queue.rows (m s).1.queue.rows
    pub gives : (s : Sim) (a : A) → (m s).0 ≡ ok a → P a

  module _ {A B : Type 0} (P : A → Type 0) (Q : B → Type 0) where
    bind-Grows :
        (r : Result A) (s : Sim) (f : A → Exec B)
        → ((a : A) → r ≡ ok a → Adds Q (f a))
        → Grows base_time s.queue.rows (continue f r s).1.queue.rows
    bind-Grows (ok a) s f h = (h a refl).grows s
    bind-Grows (err e) s f h = Grows-refl s.queue.rows

    bind_gives :
        (r : Result A) (s : Sim) (f : A → Exec B)
        → ((a : A) → r ≡ ok a → Adds Q (f a))
        → (b : B) → (continue f r s).0 ≡ ok b
        → Q b
    bind_gives (ok a) s f h b e = (h a refl).gives s b e
    bind_gives (err x) s f h b e = cc

    Adds-bind :
        (m : Exec A) (f : A → Exec B) → Adds P m → ((a : A) → P a → Adds Q (f a)) → Adds Q (m >>= f)
    unfolding ◌>>=◌
    Adds-bind m f hm hf = record {
      grows = λ s.
          Grows-trans s.queue.rows (m s).1.queue.rows ((m >>= f) s).1.queue.rows (hm.grows s)
            (bind-Grows (m s).0 (m s).1 f (λ a e. hf a (hm.gives s a e)));
      gives = λ s b e. bind_gives (m s).0 (m s).1 f (λ a e'. hf a (hm.gives s a e')) b e;
    }

  module _ {A : Type 0} (P : A → Type 0) where
    Adds-pure : (a : A) → P a → Adds P (pure a)
    Adds-pure a h = record {
      grows = λ s. Grows-refl s.queue.rows;
      gives = λ s b e. ground (arith, h, e);
    }

  lift-Adds : {A : Type 0} (r : Result A) → Adds (λ a. Unit {0}) (lift r)
  lift-Adds r = record { grows = λ s. Grows-refl s.queue.rows; gives = λ s a e. tt }

  -- A time after the base time.
  abbrev pub IsLater : ℕ → Type 0
  IsLater t = base_time < t

  -- The scheduled event's time is after the base time.
  abbrev pub IsFuture : Scheduled → Type 0
  IsFuture c = IsLater c.scheduled_time

  module _ (env : Env) (drawn : (n : ℕ) → IsRandint (env.randint n)) where
    future_time-Adds : (event_type : String) → Adds IsLater (future_time env event_type base_time)
    unfolding future_time draw
    future_time-Adds event_type = record {
      grows = λ s. Grows-refl s.queue.rows;
      gives = λ s t e.
          let (t', e', above, below) =
            get_future_event_time-later (env.randint s.drawn) (drawn s.drawn) event_type
              base_time in
          let same : ok t' ≡ ok t = sym e' ∙ e in ground (arith, above, same);
    }

    coerce_time-Adds :
        (event_type : String) (v : Value) → Adds IsLater (coerce_time env event_type base_time v)
    unfolding coerce_time
    coerce_time-Adds event_type v =
        Adds-bind (λ t. Unit) IsLater _ _ (lift-Adds (scheduled_or env.texts base_time v))
          λ t u. elim (Bool-cases (leb t base_time)) [
            | inl past ↦ rw past (future_time-Adds event_type)
            | inr future ↦ rw future (Adds-pure IsLater t (ground arith))
          ]

    new_row-IsLater :
        (now : ℕ) (uuid : String) (e : NewEvent) (t : ℕ)
        → e.scheduled_time ≡ some t
        → IsLater t
        → IsLater (new_row now uuid e).scheduled_time
    unfolding new_row
    new_row-IsLater now uuid e t h later = rw h later

    insert-Adds :
        (e : NewEvent) (t : ℕ)
        → e.scheduled_time ≡ some t
        → IsLater t
        → Adds (λ id. Unit) (insert env e)
    unfolding insert insert_future_event
    insert-Adds e t h later = record {
      grows = λ s. elim (Option-cases (find (is_duplicate e) s.queue.rows)) [
        | inl fresh ↦
            rw (fresh, insert_future_event)
              (record {
                added = new_row env.now (env.uuid s.drawn) e ∷ [];
                rows = refl;
                later = (new_row-IsLater env.now (env.uuid s.drawn) e t h later, tt);
              })
        | inr (row, found) ↦ rw (found, insert_future_event) (Grows-refl s.queue.rows)
      ];
      gives = λ s b e. tt;
    }

    schedule_event-Adds : (c : Created) → Adds IsFuture (schedule_event env base_time c)
    unfolding schedule_event coerce_future_event
    schedule_event-Adds c =
        Adds-bind IsLater IsFuture _ _ (coerce_time-Adds c.event_type c.scheduled_time) λ t later.
          Adds-bind (λ id. Unit) IsFuture _ _
            (insert-Adds (coerce_future_event env c t) t refl later)
            λ id u. Adds-pure IsFuture _ later

    schedule_typed-Adds : (c : Created) → Adds (All IsFuture) (schedule_typed env base_time c)
    unfolding schedule_typed
    schedule_typed-Adds c = elim (Bool-cases (c.event_type == "")) [
      | inl untyped ↦ rw untyped (Adds-pure (All IsFuture) [] tt)
      | inr typed ↦ rw typed (
          Adds-bind IsFuture (All IsFuture) _ _ (schedule_event-Adds c)
            λ s h. Adds-pure (All IsFuture) (s ∷ []) (h, tt))
    ]

    -- For random numbers in the range asked for: the events that an execution asks for are all
    -- scheduled for after the time of the cycle, and the queue only grows by rows of later times,
    -- also where one of the events raises.
    pub schedule_returned_events-Adds :
        (cs : List Created) → Adds (All IsFuture) (schedule_returned_events env base_time cs)
    unfolding schedule_returned_events
    schedule_returned_events-Adds [] = Adds-pure (All IsFuture) [] tt
    schedule_returned_events-Adds (c ∷ cs) =
        Adds-bind (All IsFuture) (All IsFuture) _ _ (schedule_typed-Adds c) λ l h.
          Adds-bind (All IsFuture) (All IsFuture) _ _ (schedule_returned_events-Adds cs)
            λ rest k. Adds-pure (All IsFuture) (l ++ rest) (All-append IsFuture l rest h k)
