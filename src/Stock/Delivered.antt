-- ===== src/Stock/Delivered.antt =====
-- supplier_shipment_delivered.py: what a delivery finds, when it is, and what it writes.
use daemon_supply_chain.Common.{
  ℕ, ◌+◌, ◌*◌, ◌≤◌, ◌≡◌, true, false, if◌then◌else◌, Option, none, some, map,
}
use daemon_supply_chain.Timing.{microseconds_per_minute}
use daemon_supply_chain.Timing.Bounds.{IsRandint}
use daemon_supply_chain.Stock.{Shipment, Db, Env}
use daemon_supply_chain.Stock.Queries.{max_time, has_shipment_id}
use daemon_supply_chain.Stock.Inbound.{
  is_under_way, find_under_way, has_no_items, get_delivery_time, mark_delivered, minutes_per_hour,
}

abbrev hour : ℕ
hour = minutes_per_hour * microseconds_per_minute

-- At least an hour behind a time, where there is one.
abbrev pub IsHourLater : Option ℕ → ℕ → Type 0
IsHourLater none t = Unit
IsHourLater (some a) t = a + hour ≤ t

pub record IsDelivery (env : Env) (s : Db) (x : Unit {0}) (u : Db) : Type 0 where
  pub shipment : Shipment
  pub found : find_under_way env s ≡ some shipment
  pub under_way : is_under_way env shipment ≡ true
  pub has_items : has_no_items shipment.shipment_id s ≡ false
  pub delivered_at : ℕ
  pub after_now : env.now + hour ≤ delivered_at
  pub after_update : IsHourLater shipment.updated_at delivered_at
  pub after_shipment : IsHourLater shipment.shipment_date delivered_at
  pub after_expected : IsHourLater shipment.expected_delivery delivered_at
  pub written :
      u.shipments
      ≡ map
          (λ row.
            if has_shipment_id shipment.shipment_id row
            then mark_delivered delivered_at row
            else row)
          s.shipments
  pub items : u.shipment_items ≡ s.shipment_items

module _ (env : Env) (drawn : (n : ℕ) → IsRandint (env.randint n)) where
  module _ (s : Db) (x : Shipment) (found : find_under_way env s ≡ some x)
      (full : has_no_items x.shipment_id s ≡ false) where
    abbrev at : ℕ
    at = get_delivery_time env.now x (env.randint s.drawn 1 24)

    abbrev by_expected : ℕ
    by_expected = max_time x.expected_delivery env.now

    abbrev by_shipment : ℕ
    by_shipment = max_time x.shipment_date by_expected
