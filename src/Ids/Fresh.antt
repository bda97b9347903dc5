-- ===== src/Ids/Fresh.antt =====
-- ids.py: an id is never drawn again.
use daemon_supply_chain.Common.{
  suc, ◌≤◌, ◌<◌, String, ◌≡◌, ◌≢◌, refl, arith, eq_refl, inl, inr, ◌==◌, true, Bool-cases, List, [],
  ◌∷◌,
}
use daemon_supply_chain.Ids.{Sequences, next_id, advance_sequence}
use daemon_supply_chain.Ids.RoundTrip.{format_id-injective}

-- Ids drawn one after the other: the sequence and the prefix of each.
unfoldable pub draw_all : List (String × String) → Sequences → Sequences
draw_all [] db = db
draw_all ((sequence_name, prefix) ∷ calls) db = draw_all calls (next_id sequence_name prefix db).1

advances :
    (sequence_name name : String) (db : Sequences)
    → db name ≤ advance_sequence sequence_name db name
advances sequence_name name db = elim (Bool-cases (name == sequence_name)) [
  | inl same ↦ rw same (omega arith)
  | inr other ↦ rw other (omega arith)
]

draw_all-advances :
    (calls : List (String × String)) (name : String) (db : Sequences)
    → db name ≤ draw_all calls db name
unfolding draw_all next_id
draw_all-advances [] name db = omega arith
draw_all-advances ((sequence_name, prefix) ∷ calls) name db = omega (
  arith,
  advances sequence_name name db,
  draw_all-advances calls name (advance_sequence sequence_name db),
)

drawn_is_less :
    (sequence_name prefix : String) (calls : List (String × String)) (db : Sequences)
    → db sequence_name < draw_all calls (next_id sequence_name prefix db).1 sequence_name
unfolding next_id
drawn_is_less sequence_name prefix calls db =
    let same : (sequence_name == sequence_name) ≡ true = eq_refl sequence_name in
    let step : advance_sequence sequence_name db sequence_name ≡ suc (db sequence_name) =
      rw same refl in
    omega (arith, step, draw_all-advances calls sequence_name (advance_sequence sequence_name db))

-- Whatever ids are drawn in between, from any sequences and with any prefixes, the next id of a
-- sequence with the same prefix differs from an earlier one.
pub next_id_fresh :
    (sequence_name prefix : String) (calls : List (String × String)) (db : Sequences)
    → (next_id sequence_name prefix db).0
      ≢ (next_id sequence_name prefix (draw_all calls (next_id sequence_name prefix db).1)).0
unfolding next_id
next_id_fresh sequence_name prefix calls db h =
    let same = format_id-injective prefix _ _ h in
    omega (arith, same, drawn_is_less sequence_name prefix calls db)
