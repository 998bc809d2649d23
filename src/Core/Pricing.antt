-- ===== src/Core/Pricing.antt =====
-- services/core/internal/handler/orders.go, `activePriceTx` and `recommendOutletID`.
use laundry_platform.Base.{
  String, Option, none, some, Bool, false, ◌&&◌, not, str_eq, find, is_some, if◌then◌else◌,
}
use laundry_platform.Base.Int.{ℤ}
use laundry_platform.Db.{M, Fetch, row, no_rows, unreadable, ◌>>=◌, query_tx, pure}
use laundry_platform.Core.Tables.{Tables, Outlet}

abbrev pub at_outlet : Option String → String → Bool
at_outlet none id = false
at_outlet (some o) id = str_eq o id

-- ... WHERE service_id = $1 AND outlet_id = $2 AND effective_to IS NULL
unfoldable pub outlet_price : String → String → Tables → Option ℤ
outlet_price service_id outlet_id t =
    elim (find
      (λ p.
        str_eq p.service_id service_id
        && at_outlet p.outlet_id outlet_id
        && not (is_some p.effective_to))
      t.service_prices) [ none ↦ none | some p ↦ some p.price_per_unit ]

-- ... WHERE service_id = $1 AND outlet_id IS NULL AND effective_to IS NULL
unfoldable pub default_price : String → Tables → Option ℤ
default_price service_id t =
    elim (find
      (λ p.
        str_eq p.service_id service_id && not (is_some p.outlet_id) && not (is_some p.effective_to))
      t.service_prices) [ none ↦ none | some p ↦ some p.price_per_unit ]

-- The error of the outlet's own price is not looked at: any error falls back to the default.
unfoldable pub active_price_tx : {R : Type 0} → String → String → M Tables R (Fetch ℤ)
active_price_tx service_id outlet_id =
    if not (str_eq outlet_id "")
    then (do
      own ← query_tx (outlet_price service_id outlet_id)
      elim own [
        | row price ↦ pure (row price)
        | no_rows ↦ query_tx (default_price service_id)
        | unreadable ↦ query_tx (default_price service_id)
      ])
    else query_tx (default_price service_id)

-- SELECT id FROM outlets WHERE is_active ORDER BY created_at LIMIT 1
unfoldable pub recommended_outlet : Tables → Option String
recommended_outlet t = elim (find (λ (o : Outlet). o.is_active) t.outlets) [
  | none ↦ none
  | some o ↦ some o.id
]
