-- ===== src/Handlers/Results.antt =====
-- event_handlers/base.py against event_executor.py: what the executor makes of a handler's work.
use daemon_supply_chain.Common.{
  ◌≡◌, refl, ◌↔◌, inl, inr, Bool, true, false, if◌then◌else◌, value_error, Result-cases, ok, err,
}
use daemon_supply_chain.Values.{text, dict, Fields, get, truthy, ◌or◌, Texts, str}
use daemon_supply_chain.Queue.{Row}
use daemon_supply_chain.Executor.Prepare.{dict_or_empty, ids_differ}
use daemon_supply_chain.Handlers.Calls.{check_purchase_order}

error_iff :
    (b differ c : Bool) (x y : Fields) (h : ok b ≡ ok differ)
    → ((if b then err value_error else if c then ok x else ok y) ≡ err value_error)
      ↔ (differ ≡ true)
error_iff true differ c x y h = (λ e. cc, λ e. refl)
error_iff false differ true x y h = (λ e. cc, λ e. cc)
error_iff false differ false x y h = (λ e. cc, λ e. cc)

-- For PurchaseOrderCreated, with the aggregate id and the payload of the row, the check at the head
-- of the handler raises ValueError exactly where the executor finds that the ids differ.
pub check_purchase_order-ids_differ :
    (t : Texts) (row : Row) (context : Fields) (differ : Bool)
    → get "aggregate_id" context ≡ text row.aggregate_id
    → get "payload" context ≡ dict row.payload
    → ids_differ t row row.payload ≡ ok differ
    → (check_purchase_order t context ≡ err value_error) ↔ (differ ≡ true)
unfolding check_purchase_order ids_differ truthy str ◌or◌ dict_or_empty
check_purchase_order-ids_differ t row context differ id payload h =
    elim (Result-cases (dict_or_empty (get "purchaseOrder" row.payload))) [
      | inl (e, bad) ↦ let never : err e ≡ ok differ = rw (bad, ids_differ) at h in cc
      | inr (order, good) ↦
          let h' = rw (good, ids_differ) at h in
          rw (id, payload, good, check_purchase_order) (error_iff _ differ _ _ _ h')
    ]
