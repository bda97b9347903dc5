-- ===== src/Ids.antt =====
-- simulator/core/ids.py: business ids from the sequences of PostgreSQL.
pub mod RoundTrip
pub mod Fresh
use Prim.Native.Nat.{◌/◌, ◌%◌}
use Prim.Native.Char.{Char, code}
use Prim.Native.String.{[], ◌∷◌, ◌++◌ as text_append}
use daemon_supply_chain.Common.{
  ℕ, zero, suc, ◌+◌, ◌-◌, ◌*◌, ◌≤◌, String, ◌≡◌, refl, ap, sym, ◌∙◌, arith, inl, inr, ◌==◌, nat_eq,
  if◌then◌else◌, Bool-cases,
}

-- The digit of a number below ten.
digit : ℕ → Char
digit zero = "0"
digit (suc zero) = "1"
digit (suc (suc zero)) = "2"
digit (suc (suc (suc zero))) = "3"
digit (suc (suc (suc (suc zero)))) = "4"
digit (suc (suc (suc (suc (suc zero))))) = "5"
digit (suc (suc (suc (suc (suc (suc zero)))))) = "6"
digit (suc (suc (suc (suc (suc (suc (suc zero))))))) = "7"
digit (suc (suc (suc (suc (suc (suc (suc (suc zero)))))))) = "8"
digit (suc (suc (suc (suc (suc (suc (suc (suc (suc zero))))))))) = "9"
digit (suc (suc (suc (suc (suc (suc (suc (suc (suc (suc n)))))))))) = "9"

-- The digits of a number in front of a text; the fuel is at least the number.
decimal : ℕ → ℕ → String → String
decimal zero n acc = digit (n % 10) ∷ acc
decimal (suc fuel) n acc =
    let rest = decimal fuel (n / 10) (digit (n % 10) ∷ acc) in
    if nat_eq (n / 10) 0 then digit (n % 10) ∷ acc else rest

-- `str(number)`
unfoldable pub str_number : ℕ → String
unfolding decimal digit
str_number n = decimal n n ""

text_length : String → ℕ
text_length [] = 0
text_length (c ∷ s) = suc (text_length s)

zeros : ℕ → String → String
zeros zero s = s
zeros (suc n) s = "0" ∷ zeros n s

-- `text.zfill(width)` of a text of digits.
unfoldable pub zfill : ℕ → String → String
unfolding zeros text_length
zfill width s = zeros (width - text_length s) s

abbrev pub id_padding_length : ℕ
id_padding_length = 9

unfoldable pub format_id : String → ℕ → String
format_id prefix number = text_append prefix ("-" ∷ zfill id_padding_length (str_number number))

-- The last value of each sequence.
abbrev pub Sequences : Type 0
Sequences = String → ℕ

-- `SELECT nextval(…)` advances the sequence and gives its new value.
abbrev pub advance_sequence : String → Sequences → Sequences
advance_sequence sequence_name db name = if name == sequence_name then suc (db name) else db name

unfoldable pub next_id : String → String → Sequences → String × Sequences
next_id sequence_name prefix db =
    (format_id prefix (suc (db sequence_name)), advance_sequence sequence_name db)

abbrev pub next_purchase_order_id : Sequences → String × Sequences
next_purchase_order_id = next_id "po_id_seq" "PO"

abbrev pub next_shipment_id : Sequences → String × Sequences
next_shipment_id = next_id "shipment_id_seq" "SHIP"

abbrev pub next_order_id : Sequences → String × Sequences
next_order_id = next_id "order_id_seq" "ORD"

abbrev pub next_payment_id : Sequences → String × Sequences
next_payment_id = next_id "payment_id_seq" "PAY"

abbrev pub next_task_id : Sequences → String × Sequences
next_task_id = next_id "task_id_seq" "TASK"

abbrev pub next_allocation_id : Sequences → String × Sequences
next_allocation_id = next_id "allocation_id_seq" "ALLOC"

abbrev pub next_driver_id : Sequences → String × Sequences
next_driver_id = next_id "driver_id_seq" "DRV"

abbrev pub next_trailer_id : Sequences → String × Sequences
next_trailer_id = next_id "trailer_id_seq" "TRL"

abbrev pub next_correlation_id : Sequences → String × Sequences
next_correlation_id = next_id "correlation_id_seq" "CORR"

abbrev pub next_worker_shift_id : Sequences → String × Sequences
next_worker_shift_id = next_id "worker_shift_id_seq" "SHIFT"

abbrev pub next_task_event_id : Sequences → String × Sequences
next_task_event_id = next_id "task_event_id_seq" "TE"

abbrev pub next_inventory_transaction_id : Sequences → String × Sequences
next_inventory_transaction_id = next_id "inventory_transaction_id_seq" "INVTX"

abbrev pub next_worker_productivity_id : Sequences → String × Sequences
next_worker_productivity_id = next_id "worker_productivity_id_seq" "WP"

abbrev pub next_fulfillment_id : Sequences → String × Sequences
next_fulfillment_id = next_id "fulfillment_id_seq" "FUL"

abbrev pub next_package_id : Sequences → String × Sequences
next_package_id = next_id "package_id_seq" "PKG"

abbrev pub next_adjustment_id : Sequences → String × Sequences
next_adjustment_id = next_id "adjustment_id_seq" "ADJ"
