-- ===== src/Outbound/Exclusive.antt =====
-- Vehicles, trailers and drivers: each carries one shipment at a time.
use daemon_supply_chain.Common.{
  ℕ, ◌+◌, ◌≤◌, String, ◌≡◌, refl, sym, subst, inl, inr, arith, ◌==◌, eq_refl, not, ◌&&◌,
  if◌then◌else◌, Bool, true, false, Bool-cases, Option, none, some, List, [], ◌∷◌, ◌++◌, map, any,
  find, All,
}
use daemon_supply_chain.Common.Sorting.{IsIn, IsIn-itself, filter-IsIn, All-sort_by}
use daemon_supply_chain.Stock.{Transportation, Resource}
use daemon_supply_chain.Stock.Capacity.{same_text}
use daemon_supply_chain.Stock.Chosen.{first-All}
use daemon_supply_chain.Outbound.{set_status, find_active}

abbrev names : String → Option String → Bool
names id none = false
names id (some v) = v == id

-- A transportation that is not delivered has the resource.
abbrev pub carries : (Transportation → Option String) → String → Transportation → Bool
carries ref id t = not (t.status == "DELIVERED") && names id (ref t)

-- How many transportations that are not delivered have it.
abbrev pub uses : (Transportation → Option String) → String → List Transportation → ℕ
uses ref id [] = 0
uses ref id (t ∷ ts) = (if carries ref id t then 1 else 0) + uses ref id ts

abbrev pub is_active : String → Resource → Bool
is_active id r = r.resource_id == id && r.status == "ACTIVE"

-- Whether a row of the id is active, as a number.
abbrev pub count_active : String → List Resource → ℕ
count_active id rows = if any (is_active id) rows then 1 else 0

-- No id is of two transportations that are not delivered, nor of one and of an active row.
abbrev pub IsExclusive :
    (Transportation → Option String) → List Transportation → List Resource → Type 0
IsExclusive ref ts rows = (id : String) → uses ref id ts + count_active id rows ≤ 1

any_taken :
    (v status : String) (rows : List Resource)
    → (status == "ACTIVE") ≡ false
    → any (is_active v) (set_status v status rows) ≡ false
any_taken v status [] h = refl
any_taken v status (r ∷ rows) h = elim (Bool-cases (r.resource_id == v)) [
  | inl mine ↦ rw (mine, mine, h) (any_taken v status rows h)
  | inr other ↦ rw (other, other) (any_taken v status rows h)
]

any_other :
    (v status id : String) (rows : List Resource)
    → (v == id) ≡ false
    → any (is_active id) (set_status v status rows) ≡ any (is_active id) rows
any_other v status id [] h = refl
any_other v status id (r ∷ rows) h = elim (Bool-cases (r.resource_id == v)) [
  | inl mine ↦
      let miss : (r.resource_id == id) ≡ false = rw (same_text _ _ mine) h in
      rw (mine, miss) (any_other v status id rows h)
  | inr other ↦ rw (other, any_other v status id rows h) refl
]

-- The rows of an id that are set to another status.
count_active-taken :
    (v status id : String) (rows : List Resource)
    → (status == "ACTIVE") ≡ false
    → count_active id (set_status v status rows) ≡ (if v == id then 0 else count_active id rows)
count_active-taken v status id rows h = elim (Bool-cases (v == id)) [
  | inl same ↦
      rw
        (
          same,
          subst (λ j. any (is_active j) (set_status v status rows) ≡ false) (same_text v id same)
              (any_taken v status rows h),
        )
        refl
  | inr other ↦ rw (other, any_other v status id rows other) refl
]

pub count_active-le : (id : String) (rows : List Resource) → count_active id rows ≤ 1
count_active-le id rows = ground arith

-- The row that a query for an active one finds.
pub find_active-is_active :
    (rows : List Resource) (r : Resource)
    → find_active rows ≡ some r
    → any (is_active r.resource_id) rows ≡ true
unfolding find_active
find_active-is_active rows r found =
    let (passes, is_in) : ((r.status == "ACTIVE") ≡ true) × IsIn rows r =
      first-All _ _ r
        (All-sort_by _ _ _ (filter-IsIn (λ r. r.status == "ACTIVE") rows rows (IsIn-itself rows)))
        found in
    is_in (is_active r.resource_id) (rw (eq_refl r.resource_id, passes) refl)

module _ (ref : Transportation → Option String) where
  uses-append :
      (id : String) (xs ys : List Transportation)
      → uses ref id (xs ++ ys) ≡ uses ref id xs + uses ref id ys
  uses-append id [] ys = omega arith
  uses-append id (t ∷ xs) ys = rw (uses-append id xs ys) (omega arith)

  module _ (id : String) (g : Transportation → Transportation) where
    -- No transportation takes it up.
    abbrev pub Kept : Transportation → Type 0
    Kept t = carries ref id (g t) ≡ true → carries ref id t ≡ true

    uses-map : (ts : List Transportation) → All Kept ts → uses ref id (map g ts) ≤ uses ref id ts
    uses-map [] h = omega arith
    uses-map (t ∷ ts) h = ground (arith, h.0, uses-map ts h.1)

    -- One gives it up.
    uses-released :
        (q : Transportation → Bool) (ts : List Transportation) (y : Transportation)
        → All Kept ts
        → ((t : Transportation) → q t ≡ true → carries ref id (g t) ≡ false)
        → find q ts ≡ some y
        → uses ref id (map g ts) + (if carries ref id y then 1 else 0) ≤ uses ref id ts
    uses-released q [] y h k found = cc
    uses-released q (t ∷ ts) y h k found = elim (Bool-cases (q t)) [
      | inl here ↦
          let same : t ≡ y = ground (arith, found) in
          let gone = k t here in
          let rest = uses-map ts h.1 in rw (sym same, gone) (omega (arith, rest))
      | inr other ↦
          let rest = uses-released q ts y h.1 k (rw other at found) in ground (arith, h.0, rest)
    ]

  -- The rows of an id are set to a status that is not active, while the transportations keep theirs.
  pub move-IsExclusive :
      (g : Transportation → Transportation) (ts : List Transportation) (rows : List Resource)
      → ((id : String) → All (Kept id g) ts)
      → IsExclusive ref ts rows
      → IsExclusive ref (map g ts) rows
  move-IsExclusive g ts rows kept h id = omega (arith, uses-map id g ts (kept id), h id)

  pub take-IsExclusive :
      (status : String) (v : Option String) (ts : List Transportation) (rows : List Resource)
      → (status == "ACTIVE") ≡ false
      → IsExclusive ref ts rows
      → IsExclusive ref ts (elim v [ none ↦ rows | some id ↦ set_status id status rows ])
  take-IsExclusive status none ts rows s h id = h id
  take-IsExclusive status (some v) ts rows s h id =
      ground (arith, count_active-taken v status id rows s, h id)

  -- A new transportation takes a row that was active.
  pub assign-IsExclusive :
      (status v : String) (new : Transportation) (ts : List Transportation) (rows : List Resource)
      → (status == "ACTIVE") ≡ false
      → ref new ≡ some v
      → any (is_active v) rows ≡ true
      → IsExclusive ref ts rows
      → IsExclusive ref (ts ++ new ∷ []) (set_status v status rows)
  assign-IsExclusive status v new ts rows s named active h id =
      rw (count_active-taken v status id rows s, uses-append id ts (new ∷ []), named)
        (elim (Bool-cases (v == id)) [
          | inl same ↦
              let here : any (is_active id) rows ≡ true =
                subst (λ j. any (is_active j) rows ≡ true) (same_text v id same) active in
              rw same (ground (arith, rw here at (h id)))
          | inr other ↦ rw other (ground (arith, h id))
        ])

  -- A transportation ends, and the rows of its id become active.
  pub release-IsExclusive :
      (q : Transportation → Bool) (g : Transportation → Transportation) (ts : List Transportation)
      (rows : List Resource) (y : Transportation)
      → ((id : String) → All (Kept id g) ts)
      → ((id : String) (t : Transportation) → q t ≡ true → carries ref id (g t) ≡ false)
      → find q ts ≡ some y
      → (y.status == "DELIVERED") ≡ false
      → IsExclusive ref ts rows
      → IsExclusive ref
          (map g ts)
          (elim (ref y) [ none ↦ rows | some id ↦ set_status id "ACTIVE" rows ])
  release-IsExclusive q g ts rows y kept gone found under_way h = by_name (ref y) refl
    where
      by_name :
          (v : Option String)
          → ref y ≡ v
          → IsExclusive ref
              (map g ts)
              (elim v [ none ↦ rows | some id ↦ set_status id "ACTIVE" rows ])
      by_name none named id = omega (arith, uses-map id g ts (kept id), h id)
      by_name (some v) named id = elim (Bool-cases (v == id)) [
        | inl same ↦
            let carried : carries ref id y ≡ true = rw (under_way, named) same in
            let left = uses-released id g q ts y (kept id) (gone id) found in
            omega (arith, rw carried at left, h id, count_active-le id (set_status v "ACTIVE" rows))
        | inr other ↦
            rw (any_other v "ACTIVE" id rows other)
              (omega (arith, uses-map id g ts (kept id), h id))
      ]
