-- ===== src/Stock/Rounds.antt =====
-- inventory_reserved.py: what the rounds of the loop over the allocations write.
use Prim.Native.String.{◌++◌ as text_append}
use daemon_supply_chain.Common.{
  ◌+◌, String, ◌≡◌, refl, sym, ap, subst, ◌∙◌, inl, inr, arith, ◌==◌, if◌then◌else◌, Bool,
  Bool-cases, Option-cases, List, [], ◌∷◌, ◌++◌, map, any, find, length, append_assoc, append_nil,
}
use daemon_supply_chain.Common.Stateful.{each, Holds, Does, Does-bind, ◌>>=◌, ◌>>◌}
use daemon_supply_chain.Stock.{Allocation, Db, Env, is_short}
use daemon_supply_chain.Stock.Queries.{has_inventory_id, has_allocation_id, insert_reservation}
use daemon_supply_chain.Stock.Reserve.{
  set_allocation_status, reservation_row, reserved_transaction, write_reservation,
  reserve_allocation,
}

-- The allocations of the list are reserved, the others stay.
abbrev pub mark_reserved : List Allocation → Allocation → Allocation
mark_reserved done a =
    if any (λ x. has_allocation_id x.allocation_id a) done
    then set_allocation_status "RESERVED" a
    else a

-- The allocations of the list are reserved and nothing else about allocations changes; each has its
-- reservation, and its transaction for its row and its quantity.
pub record Reserves (order_id correlation_id : String) (done : List Allocation) (s : Db) (t : Db)
    : Type 0 where
  pub marked : t.allocations ≡ map (mark_reserved done) s.allocations
  pub reservations : length t.reservations ≡ length s.reservations + length done
  pub transactions :
      t.transactions ≡ s.transactions ++ map (reserved_transaction order_id correlation_id) done

mark_both :
    (x : Allocation) (done : List Allocation) (a : Allocation)
    → mark_reserved done (mark_reserved (x ∷ []) a) ≡ mark_reserved (x ∷ done) a
mark_both x done a = elim (Bool-cases (has_allocation_id x.allocation_id a)) [
  | inl same ↦ elim (Bool-cases (any (λ y. has_allocation_id y.allocation_id a) done)) [
    | inl again ↦ rw (same, again) refl
    | inr once ↦ rw (same, once) refl
  ]
  | inr other ↦ rw other refl
]

map_both :
    (x : Allocation) (done rest : List Allocation)
    → map (mark_reserved done) (map (mark_reserved (x ∷ [])) rest)
      ≡ map (mark_reserved (x ∷ done)) rest
map_both x done [] = refl
map_both x done (a ∷ rest) = rw (mark_both x done a, map_both x done rest) refl

mark_nothing : (xs : List Allocation) → map (mark_reserved []) xs ≡ xs
mark_nothing [] = refl
mark_nothing (a ∷ rest) = ap (◌∷◌ a) (mark_nothing rest)

mark_one :
    (x : Allocation) (xs : List Allocation)
    → map
        (λ a. if has_allocation_id x.allocation_id a then set_allocation_status "RESERVED" a else a)
        xs
      ≡ map (mark_reserved (x ∷ [])) xs
mark_one x [] = refl
mark_one x (a ∷ rest) = elim (Bool-cases (has_allocation_id x.allocation_id a)) [
  | inl same ↦ rw (same, mark_one x rest) refl
  | inr other ↦ rw (other, mark_one x rest) refl
]

joined :
    (order_id correlation_id : String) (a : Allocation) (done : List Allocation) (s t u : Db)
    → Reserves order_id correlation_id (a ∷ []) s t
    → Reserves order_id correlation_id done t u
    → Reserves order_id correlation_id (a ∷ done) s u
joined order_id correlation_id a done s t u h k = record {
  marked = k.marked ∙ ap (map (mark_reserved done)) h.marked ∙ map_both a done s.allocations;
  reservations = omega (arith, h.reservations, k.reservations);
  transactions =
      k.transactions
      ∙ ap (λ l. l ++ map (reserved_transaction order_id correlation_id) done) h.transactions
      ∙ append_assoc s.transactions (reserved_transaction order_id correlation_id a ∷ []) _;
}

length_snoc : {A : Type 0} (xs : List A) (x : A) → length (xs ++ x ∷ []) ≡ length xs + 1
length_snoc [] x = omega arith
length_snoc (y ∷ ys) x = omega (arith, length_snoc ys x)

module _ (env : Env) (order_id correlation_id : String) where
  abbrev IsRound : Allocation → Db → List Allocation → Db → Type 0
  IsRound a s r t = (r ≡ a ∷ []) × Reserves order_id correlation_id (a ∷ []) s t

  abbrev is_taken : Db → Bool
  is_taken s =
      any (λ old. old.reservation_id == text_append "RESV-" (env.fresh s.drawn)) s.reservations

  write_reservation-IsRound :
      (a : Allocation) → Does (IsRound a) (write_reservation env order_id correlation_id a)
  unfolding write_reservation insert_reservation reservation_row ◌>>=◌ ◌>>◌
  write_reservation-IsRound a = record { at = λ s. by_key s }
    where
      by_key : (s : Db) → Holds (IsRound a) s (write_reservation env order_id correlation_id a s)
      by_key s = elim (Bool-cases (is_taken s)) [
        | inl taken ↦ rw taken tt
        | inr free ↦ rw free (
          refl,
          record {
            marked = mark_one a s.allocations;
            reservations = length_snoc s.reservations _;
            transactions = refl;
          },
        )
      ]

  reserve_allocation-IsRound :
      (a : Allocation) → Does (IsRound a) (reserve_allocation env order_id correlation_id a)
  unfolding reserve_allocation ◌>>=◌ ◌>>◌
  reserve_allocation-IsRound a = record { at = λ s. by_row s }
    where
      by_row : (s : Db) → Holds (IsRound a) s (reserve_allocation env order_id correlation_id a s)
      by_row s = elim (Option-cases (find (has_inventory_id a.inventory_id) s.inventory)) [
        | inl missing ↦ rw missing tt
        | inr (row, found) ↦ elim (Bool-cases (is_short a.allocated_quantity row)) [
          | inl short ↦ rw (found, short) tt
          | inr enough ↦ rw (found, enough) ((write_reservation-IsRound a).at s)
        ]
      ]

  unfoldable pub IsRun : List Allocation → Db → List Allocation → Db → Type 0
  IsRun done s r t = (r ≡ done) × Reserves order_id correlation_id done s t

  pub each-IsRun :
      (done : List Allocation)
      → Does (IsRun done) (each (reserve_allocation env order_id correlation_id) done)
  unfolding each IsRun
  each-IsRun [] = record {
    at = λ s. (
      refl,
      record {
        marked = sym (mark_nothing s.allocations);
        reservations = omega arith;
        transactions = sym (append_nil s.transactions);
      },
    );
  }
  each-IsRun (a ∷ done) =
      Does-bind (IsRound a)
        (λ xs t zs u. (zs ≡ xs ++ done) × Reserves order_id correlation_id done t u) _ _ _
        (reserve_allocation-IsRound a)
        (λ xs.
          Does-bind (IsRun done) (λ ys t zs u. (t ≡ u) × (zs ≡ xs ++ ys)) _ _ _ (each-IsRun done)
            (λ ys. record { at = λ s. (refl, refl) })
            λ s ys t zs u h e. (
              e.1 ∙ ap (λ l. xs ++ l) h.0,
              subst (Reserves order_id correlation_id done s) e.0 h.1,
            ))
        λ s xs t zs u h k.
          (k.0 ∙ ap (λ l. l ++ done) h.0, joined order_id correlation_id a done s t u h.1 k.1)
