-- ===== src/Common/Keyed.antt =====
-- Tables whose rows have a key of their own, and the updates of the row that a key names.
use mathlib.Core.Path.{◌≡◌, refl, sym, ap, ◌∙◌, subst}
use mathlib.Core.Logic.{inl, inr}
use mathlib.Core.Bool.{Bool, true, false, ◌&&◌, ◌||◌}
use mathlib.Core.Option.{Option, some}
use mathlib.Core.List.{List, [], ◌∷◌, ◌++◌, map}
use native.Mathlib.Omega.{arith}
use daemon_supply_chain.Common.Tests.{Bool-cases, if◌then◌else◌}
use daemon_supply_chain.Common.Lists.{All, any, find, map_option}

-- A column with a test for equality.
pub record Key (A K : Type 0) : Type 0 where
  pub key : A → K
  pub same : K → K → Bool
  pub same_eq : (a b : K) → same a b ≡ true → a ≡ b
  pub same_self : (a : K) → same a a ≡ true

module _ {A K : Type 0} (c : Key A K) where
  -- The row has the key.
  abbrev pub has_key : K → A → Bool
  has_key k row = c.same (c.key row) k

  -- The change of the rows with a key.
  abbrev pub at_key : K → (A → A) → A → A
  at_key k f row = if has_key k row then f row else row

  -- No two rows have one key.
  abbrev pub Keyed : List A → Type 0
  Keyed [] = Unit
  Keyed (row ∷ rows) = (any (has_key (c.key row)) rows ≡ false) × Keyed rows

  -- Each row is the one that its key finds.
  abbrev pub KeyedIn : List A → List A → Type 0
  KeyedIn whole rows = All (λ row. find (has_key (c.key row)) whole ≡ some row) rows

  same_sym : (a b : K) → c.same a b ≡ false → c.same b a ≡ false
  same_sym a b h = elim (Bool-cases (c.same b a)) [
    | inr other ↦ other
    | inl equal ↦
        let again : c.same a b ≡ true =
          subst (λ x. c.same x b ≡ true) (c.same_eq b a equal) (c.same_self b) in
        cc
  ]

  -- A row in front that has none of their keys hides no row.
  in_front :
      (first : A) (whole rows : List A)
      → any (has_key (c.key first)) rows ≡ false
      → KeyedIn whole rows
      → KeyedIn (first ∷ whole) rows
  in_front first whole [] free h = tt
  in_front first whole (row ∷ rows) free h = elim (Bool-cases (has_key (c.key first) row)) [
    | inl same ↦ absurd (ground arith)
    | inr other ↦ (
      rw (same_sym (c.key row) (c.key first) other) h.0,
      in_front first whole rows (rw other at free) h.1,
    )
  ]

  pub Keyed-KeyedIn : (rows : List A) → Keyed rows → KeyedIn rows rows
  Keyed-KeyedIn [] h = tt
  Keyed-KeyedIn (row ∷ rows) h =
      (rw (c.same_self (c.key row)) refl, in_front row rows rows h.0 (Keyed-KeyedIn rows h.1))

  -- Where no row has the key, nothing is changed.
  pub map-at_key_miss :
      (k : K) (f : A → A) (rows : List A)
      → any (has_key k) rows ≡ false
      → map (at_key k f) rows ≡ rows
  map-at_key_miss k f [] h = refl
  map-at_key_miss k f (row ∷ rows) h = elim (Bool-cases (has_key k row)) [
    | inl same ↦ absurd (ground arith)
    | inr other ↦ rw other (ap (λ l. row ∷ l) (map-at_key_miss k f rows (rw other at h)))
  ]

  pub find-has_key :
      (k : K) (rows : List A) (found : A)
      → find (has_key k) rows ≡ some found
      → has_key k found ≡ true
  find-has_key k [] found h = cc
  find-has_key k (row ∷ rows) found h = elim (Bool-cases (has_key k row)) [
    | inl same ↦ ground arith
    | inr miss ↦ find-has_key k rows found (ground arith)
  ]

  -- A row that a key and more finds has the key, and the key finds a row.
  pub find_both :
      (k : K) (q : A → Bool) (rows : List A) (row : A)
      → find (λ r. has_key k r && q r) rows ≡ some row
      → (k ≡ c.key row) × (x : A) × (find (has_key k) rows ≡ some x)
  find_both k q [] row h = cc
  find_both k q (r ∷ rows) row h = elim (Bool-cases (has_key k r)) [
    | inr miss ↦
        let rest = find_both k q rows row (rw miss at h) in (rest.0, rest.1, rw miss rest.2)
    | inl same ↦ elim (Bool-cases (q r)) [
      | inl more ↦ (
        subst (λ x. k ≡ c.key x) (ground (arith, rw (same, more) at h))
            (sym (c.same_eq (c.key r) k same)),
        r,
        rw same refl,
      )
      | inr less ↦
          let rest = find_both k q rows row (rw (same, less) at h) in (rest.0, r, rw same refl)
    ]
  ]

  -- A property of the rows of other keys and of the row that a key finds holds of all rows.
  module _ {ℓ} (P : A → Type ℓ) (k : K) (whole : List A) (found : A)
      (is_found : find (has_key k) whole ≡ some found) where
    pub found-All :
        (rows : List A)
        → KeyedIn whole rows
        → ((row : A) → has_key k row ≡ false → P row)
        → P found
        → All P rows
    found-All [] h other hit = tt
    found-All (row ∷ rows) h other hit = (
      elim (Bool-cases (has_key k row)) [
        | inr miss ↦ other row miss
        | inl same ↦
            let here : find (has_key k) whole ≡ some row =
              subst (λ j. find (has_key j) whole ≡ some row) (c.same_eq (c.key row) k same) h.0 in
            let equal : found ≡ row = cc in subst P equal hit
      ],
      found-All rows h.1 other hit,
    )

  module _ (k : K) (f : A → A) (same_key : (row : A) → c.key (f row) ≡ c.key row) where
    key-at_key : (row : A) → c.key (at_key k f row) ≡ c.key row
    key-at_key row = elim (Bool-cases (has_key k row)) [
      | inl same ↦ rw same (same_key row)
      | inr miss ↦ rw miss refl
    ]

    pub find-map :
        (j : K) (rows : List A)
        → find (has_key j) (map (at_key k f) rows) ≡ map_option (at_key k f) (find (has_key j) rows)
    find-map j [] = refl
    find-map j (row ∷ rows) =
        let kept : has_key j (at_key k f row) ≡ has_key j row =
          ap (λ x. c.same x j) (key-at_key row) in
        elim (Bool-cases (has_key j row)) [
          | inl same ↦
              rw same (ap (λ b. if b then some (at_key k f row) else rest row) (kept ∙ same))
          | inr miss ↦ rw miss (
              ap (λ b. if b then some (at_key k f row) else rest row) (kept ∙ miss)
              ∙ find-map j rows)
        ]
      where
        rest : A → Option A
        rest _ = find (has_key j) (map (at_key k f) rows)

    any-map :
        (j : K) (rows : List A) → any (has_key j) (map (at_key k f) rows) ≡ any (has_key j) rows
    any-map j [] = refl
    any-map j (row ∷ rows) =
        ap (λ x. c.same x j || any (has_key j) (map (at_key k f) rows)) (key-at_key row)
        ∙ ap (λ b. c.same (c.key row) j || b) (any-map j rows)

    pub Keyed-map : (rows : List A) → Keyed rows → Keyed (map (at_key k f) rows)
    Keyed-map [] h = tt
    Keyed-map (row ∷ rows) h = (
      ap (λ j. any (has_key j) (map (at_key k f) rows)) (key-at_key row)
          ∙ any-map (c.key row) rows
          ∙ h.0,
      Keyed-map rows h.1,
    )

  -- A row with a key that no row has.
  pub Keyed-snoc :
      (new : A) (rows : List A)
      → any (has_key (c.key new)) rows ≡ false
      → Keyed rows
      → Keyed (rows ++ new ∷ [])
  Keyed-snoc new [] free h = (refl, tt)
  Keyed-snoc new (row ∷ rows) free h = elim (Bool-cases (has_key (c.key new) row)) [
    | inl same ↦ absurd (ground arith)
    | inr other ↦ (
      any-snoc (c.key row) rows h.0 (same_sym (c.key row) (c.key new) other),
      Keyed-snoc new rows (rw other at free) h.1,
    )
  ]
    where
      any-snoc :
          (k : K) (rows : List A)
          → any (has_key k) rows ≡ false
          → has_key k new ≡ false
          → any (has_key k) (rows ++ new ∷ []) ≡ false
      any-snoc k [] h e = ground arith
      any-snoc k (r ∷ rows) h e = ground (arith, any-snoc k rows)

  pub find-any :
      (k : K) (rows : List A) (found : A)
      → find (has_key k) rows ≡ some found
      → any (has_key k) rows ≡ true
  find-any k [] found h = cc
  find-any k (row ∷ rows) found h = elim (Bool-cases (has_key k row)) [
    | inl same ↦ rw same refl
    | inr miss ↦ rw miss (find-any k rows found (rw miss at h))
  ]

pub All-map :
    {A B : Type 0} (P : A → Type 0) (Q : B → Type 0) (g : A → B) (rows : List A)
    → All (λ row. P row → Q (g row)) rows
    → All P rows
    → All Q (map g rows)
All-map P Q g [] k h = tt
All-map P Q g (row ∷ rows) k h = (k.0 h.0, All-map P Q g rows k.1 h.1)

pub find-All :
    {A : Type 0} (P : A → Type 0) (q : A → Bool) (rows : List A) (found : A)
    → find q rows ≡ some found
    → All P rows
    → P found
find-All P q [] found e h = cc
find-All P q (row ∷ rows) found e h = elim (Bool-cases (q row)) [
  | inl passes ↦ subst P (ground (arith, rw passes at e)) h.0
  | inr fails ↦ find-All P q rows found (rw fails at e) h.1
]

pub find-passes :
    {A : Type 0} (q : A → Bool) (rows : List A) (found : A)
    → find q rows ≡ some found
    → q found ≡ true
find-passes q [] found e = cc
find-passes q (row ∷ rows) found e = elim (Bool-cases (q row)) [
  | inl passes ↦ ground arith
  | inr fails ↦ find-passes q rows found (rw fails at e)
]
