-- ===== src/Queue/Due.antt =====
-- event_queue.py, `list_ready_events`: which events are listed.
use daemon_supply_chain.Common.{
  ℕ, zero, suc, ◌+◌, ◌≤◌, ◌≡◌, ◌⊎◌, ◌↔◌, refl, sym, ap, subst, ◌∙◌, inl, inr, ◌&&◌, Bool, true,
  false, Option, none, some, List, [], ◌∷◌, arith, leb, Bool-cases, filter, get_elem?,
}
use daemon_supply_chain.Values.{Texts}
use daemon_supply_chain.Queue.{
  Status, pending, retry_scheduled, started, completed, failed, skipped, Row, Ref, key, leb_key,
  number_from, insert_ref, sort_refs, is_waiting, retry_due, is_ready, ready_refs,
}

abbrev pub IsFrom : Option ℕ → ℕ → Type 0
IsFrom none scheduled = Unit
IsFrom (some t) scheduled = t ≤ scheduled

abbrev pub IsRetryDue : Status → Option ℕ → ℕ → Type 0
IsRetryDue retry_scheduled (some t) target = t ≤ target
IsRetryDue status next target = Unit

-- A row waits, is scheduled within the times asked for, and where it is a retry with a time of its own,
-- that time has come.
pub record IsDue (target : ℕ) (from_time : Option ℕ) (row : Row) : Type 0 where
  pub waits : (row.status ≡ pending) ⊎ (row.status ≡ retry_scheduled)
  pub begins : IsFrom from_time row.scheduled_time
  pub comes : row.scheduled_time ≤ target
  pub retries : IsRetryDue row.status row.next_retry_time target

-- The element stands in the list.
abbrev pub IsListed : Ref → List Ref → Type 0
IsListed z [] = ⊥
IsListed z (x ∷ xs) = (z ≡ x) ⊎ IsListed z xs

module _ (t : Texts) (z : Ref) where
  inserted : (x : Ref) (ys : List Ref) → (z ≡ x) ⊎ IsListed z ys → IsListed z (insert_ref t x ys)
  unfolding insert_ref
  inserted x [] h = h
  inserted x (y ∷ ys) h = elim (Bool-cases (leb_key (key t x.1) (key t y.1))) [
    | inl front ↦ rw front h
    | inr behind ↦ rw behind (elim h [
      | inl here ↦ inr (inserted x ys (inl here))
      | inr (inl next) ↦ inl next
      | inr (inr rest) ↦ inr (inserted x ys (inr rest))
    ])
  ]

  from_inserted :
      (x : Ref) (ys : List Ref) → IsListed z (insert_ref t x ys) → (z ≡ x) ⊎ IsListed z ys
  unfolding insert_ref
  from_inserted x [] h = h
  from_inserted x (y ∷ ys) h = elim (Bool-cases (leb_key (key t x.1) (key t y.1))) [
    | inl front ↦ rw front at h
    | inr behind ↦ elim (rw behind at h) [
      | inl next ↦ inr (inl next)
      | inr rest ↦ elim (from_inserted x ys rest) [
        | inl here ↦ inl here
        | inr later ↦ inr (inr later)
      ]
    ]
  ]

  sort_refs-IsListed : (xs : List Ref) → IsListed z (sort_refs t xs) ↔ IsListed z xs
  unfolding sort_refs
  sort_refs-IsListed [] = (λ h. h, λ h. h)
  sort_refs-IsListed (x ∷ xs) =
      let (there, back) = sort_refs-IsListed xs in
      (
        λ h. elim (from_inserted x (sort_refs t xs) h) [ inl e ↦ inl e | inr k ↦ inr (there k) ],
        λ h. inserted x (sort_refs t xs) (elim h [ inl e ↦ inl e | inr k ↦ inr (back k) ]),
      )

module _ (p : Ref → Bool) (z : Ref) where
  filter-IsListed : (xs : List Ref) → IsListed z (filter p xs) ↔ (IsListed z xs × (p z ≡ true))
  filter-IsListed [] = (λ h. absurd h, λ h. h.0)
  filter-IsListed (x ∷ xs) =
      let (there, back) = filter-IsListed xs in
      elim (Bool-cases (p x)) [
        | inl kept ↦ rw kept (
          λ h. elim h [
            | inl e ↦ (inl e, ap p e ∙ kept)
            | inr k ↦ let both = there k in (inr both.0, both.1)
          ],
          λ h. elim (h.0) [ inl e ↦ inl e | inr k ↦ inr (back (k, h.1)) ],
        )
        | inr dropped ↦ rw dropped (
          λ h. let both = there h in (inr both.0, both.1),
          λ h. elim (h.0) [
            | inl e ↦ absurd (let fails : p z ≡ false = ap p e ∙ dropped in let passes = h.1 in cc)
            | inr k ↦ back (k, h.1)
          ],
        )
      ]

number_from-IsListed :
    (n i : ℕ) (row : Row) (rows : List Row)
    → IsListed (n + i, row) (number_from n rows) ↔ (get_elem? rows i ≡ some row)
number_from-IsListed n i row rows = (there n i rows, back n i rows)
  where
    below :
        (n i k : ℕ) (rows : List Row) → i + k + 1 ≡ n → IsListed (i, row) (number_from n rows) → ⊥
    below n i k [] e h = h
    below n i k (r ∷ rows) e (inl same) =
        let at : i ≡ n = ap (λ (x : Ref). x.0) same in omega (arith, e, at)
    below n i k (r ∷ rows) e (inr rest) = below (suc n) i (suc k) rows (omega (arith, e)) rest

    there :
        (n i : ℕ) (rows : List Row)
        → IsListed (n + i, row) (number_from n rows)
        → get_elem? rows i ≡ some row
    there n i [] h = absurd h
    there n zero (r ∷ rows) (inl same) = ap (λ (x : Ref). some x.1) (sym same)
    there n (suc i) (r ∷ rows) (inl same) =
        let at : n + suc i ≡ n = ap (λ (x : Ref). x.0) same in absurd (omega (arith, at))
    there n zero (r ∷ rows) (inr rest) = absurd (below (suc n) (n + zero) 0 rows (omega arith) rest)
    there n (suc i) (r ∷ rows) (inr rest) =
        let moved : n + suc i ≡ suc n + i = omega arith in there (suc n) i rows (rw moved at rest)

    back :
        (n i : ℕ) (rows : List Row)
        → get_elem? rows i ≡ some row
        → IsListed (n + i, row) (number_from n rows)
    back n i [] h = cc
    back n zero (r ∷ rows) h =
        let same : r ≡ row = ground (arith, h) in
        let at : n + zero ≡ n = omega arith in
        inl (ap (λ (k : ℕ). (k, row)) at ∙ ap (λ (x : Row). (n, x)) (sym same))
    back n (suc i) (r ∷ rows) h =
        let moved : n + suc i ≡ suc n + i = omega arith in
        inr (
          subst (λ k. IsListed (k, row) (number_from (suc n) rows)) (sym moved)
            (back (suc n) i rows h))

abbrev Parts : ℕ → Option ℕ → Status → ℕ → Option ℕ → Type 0
Parts target from_time s scheduled next =
    ((s ≡ pending) ⊎ (s ≡ retry_scheduled))
    × IsFrom from_time scheduled
    × (scheduled ≤ target)
    × IsRetryDue s next target

never : (s : Status) → is_waiting s ≡ false → (s ≡ pending) ⊎ (s ≡ retry_scheduled) → ⊥
never s h (inl e) = let w : is_waiting s ≡ true = rw e refl in cc
never s h (inr e) = let w : is_waiting s ≡ true = rw e refl in cc

is_ready-Parts :
    (target : ℕ) (from_time : Option ℕ) (s : Status) (scheduled : ℕ) (next : Option ℕ)
    → ((is_waiting s
          && elim from_time [ none ↦ true | some t ↦ leb t scheduled ]
          && leb scheduled target
          && retry_due target s next)
        ≡ true)
      ↔ Parts target from_time s scheduled next
is_ready-Parts target none pending scheduled next =
    (λ h. (inl refl, tt, ground (arith, h), tt), λ h. ground (arith, h.2))
is_ready-Parts target (some t) pending scheduled next =
    (λ h. (inl refl, ground (arith, h), ground (arith, h), tt), λ h. ground (arith, h.1, h.2))
is_ready-Parts target none retry_scheduled scheduled none =
    (λ h. (inr refl, tt, ground (arith, h), tt), λ h. ground (arith, h.2))
is_ready-Parts target (some t) retry_scheduled scheduled none =
    (λ h. (inr refl, ground (arith, h), ground (arith, h), tt), λ h. ground (arith, h.1, h.2))
is_ready-Parts target none retry_scheduled scheduled (some n) =
    (λ h. (inr refl, tt, ground (arith, h), ground (arith, h)), λ h. ground (arith, h.2, h.3))
is_ready-Parts target (some t) retry_scheduled scheduled (some n) = (
  λ h. (inr refl, ground (arith, h), ground (arith, h), ground (arith, h)),
  λ h. ground (arith, h.1, h.2, h.3),
)
is_ready-Parts target from_time started scheduled next =
    (λ h. cc, λ h. absurd (never started refl h.0))
is_ready-Parts target from_time completed scheduled next =
    (λ h. cc, λ h. absurd (never completed refl h.0))
is_ready-Parts target from_time failed scheduled next =
    (λ h. cc, λ h. absurd (never failed refl h.0))
is_ready-Parts target from_time skipped scheduled next =
    (λ h. cc, λ h. absurd (never skipped refl h.0))

is_ready-IsDue :
    (target : ℕ) (from_time : Option ℕ) (row : Row)
    → (is_ready target from_time row ≡ true) ↔ IsDue target from_time row
unfolding is_ready
is_ready-IsDue target from_time row =
    let (there, back) =
      is_ready-Parts target from_time row.status row.scheduled_time row.next_retry_time in
    (
      λ h.
          let parts = there h in
          record { waits = parts.0; begins = parts.1; comes = parts.2; retries = parts.3 },
      λ d. back (d.waits, d.begins, d.comes, d.retries),
    )

-- A row is listed, with its position, exactly where it stands at that position in the queue, is
-- PENDING or RETRY_SCHEDULED, is scheduled no earlier than the start and no later than the time
-- asked for, and, for a retry with a time of its own, that time has come.
pub ready_refs-IsDue :
    (t : Texts) (target : ℕ) (from_time : Option ℕ) (rows : List Row) (i : ℕ) (row : Row)
    → IsListed (i, row) (ready_refs t target from_time rows)
      ↔ ((get_elem? rows i ≡ some row) × IsDue target from_time row)
unfolding ready_refs
ready_refs-IsDue t target from_time rows i row =
    let sorted = sort_refs-IsListed t (i, row) _ in
    let filtered =
      filter-IsListed (λ x. is_ready target from_time x.1) (i, row) (number_from 0 rows) in
    let numbered = number_from-IsListed 0 i row rows in
    let due = is_ready-IsDue target from_time row in
    let start : 0 + i ≡ i = omega arith in
    (
      λ h. let both = filtered.0 (sorted.0 h) in (rw start at (numbered.0) both.0, due.0 both.1),
      λ h. sorted.1 (filtered.1 (rw start at (numbered.1 h.0), due.1 h.1)),
    )
