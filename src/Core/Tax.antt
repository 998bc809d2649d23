-- ===== src/Core/Tax.antt =====
-- services/core/internal/handler/tax.go, `SetTaxRate`.
pub mod Effect
use laundry_platform.Base.{
  ℕ, String, List, [], ◌∷◌, ◌++◌, Option, none, some, Bool, true, false, ◌||◌, str_eq, exists,
  if◌then◌else◌,
}
use laundry_platform.Base.Int.{pos}
use laundry_platform.Db.{
  Exec, applied, duplicate_key, refused_row, ◌>>=◌, ◌>>◌, respond, respond_if, done_or, exec_tx,
  begin_tx, commit, need,
}
use laundry_platform.Shared.HttpAuth.{Principal}
use laundry_platform.Core.Tables.{Tables, Float64, TaxRate}
use laundry_platform.Core.Float.{FloatOps}
use laundry_platform.Core.Response.{Response, Handler, error, json, internal_error, tax_rate_body}

-- A row that is closed keeps its end.
abbrev pub closed : ℕ → TaxRate → TaxRate
closed now r = elim r.effective_to [ none ↦ record r { effective_to = some now } | some at ↦ r ]

-- UPDATE tax_rates SET effective_to = now() WHERE effective_to IS NULL
unfoldable pub close_all : ℕ → List TaxRate → List TaxRate
close_all now [] = []
close_all now (r ∷ rs) = closed now r ∷ close_all now rs

unfoldable pub close_rates : ℕ → Tables → Tables
unfolding close_all
close_rates now t = record t { tax_rates = close_all now t.tax_rates }

-- `rate < 0 || rate > 100`, in the handler and in the CHECK of the column.
unfoldable pub out_of_range : FloatOps → Float64 → Bool
out_of_range ops rate = ops.lt rate (ops.of_int64 (pos 0)) || ops.lt (ops.of_int64 (pos 100)) rate

abbrev pub new_rate : String → Float64 → String → String → TaxRate
new_rate id rate reason by = record {
  id = id;
  rate_percentage = rate;
  effective_to = none;
  reason = reason;
  created_by = by;
}

-- The row with the rate as the column keeps it. The unique index on `effective_to` is over rows
-- where it is NULL; NULLs differ from each other, so it refuses none.
unfoldable pub insert_kept :
    FloatOps → Option Float64 → String → String → String → Tables → Exec Tables
insert_kept ops none id reason by t = refused_row
insert_kept ops (some kept) id reason by t =
    if exists (λ (r : TaxRate). str_eq r.id id) t.tax_rates
    then duplicate_key
    else if out_of_range ops kept
    then refused_row
    else applied 1 (record t { tax_rates = t.tax_rates ++ new_rate id kept reason by ∷ [] })

unfoldable pub insert_rate : FloatOps → String → Float64 → String → String → Tables → Exec Tables
unfolding insert_kept
insert_rate ops id rate reason by t = insert_kept ops (ops.numeric_5_2 rate) id reason by t

unfoldable pub set_tax_rate :
    FloatOps → Float64 → String → String → ℕ → Principal → Handler Response
set_tax_rate ops rate reason id now principal = do
  respond_if (out_of_range ops rate || str_eq reason "") (error 422 "VALIDATION_ERROR")
  need internal_error begin_tx
  closed ← exec_tx (λ t. applied 1 (close_rates now t))
  done_or internal_error internal_error closed
  inserted ← exec_tx (insert_rate ops id rate reason principal.id)
  done_or internal_error internal_error inserted
  need internal_error commit
  respond (json 201 (tax_rate_body id rate reason))
