-- ===== src/Tests/Stations.antt =====
-- Runs of the theorems on batches of points.
use veristc.Prelude.{
  ℕ, zero, suc, ◌+◌, ◌≡◌, refl, arith, eq_iff, String, true, false, not, none, some, Option, List,
  [], ◌∷◌, map, filter, contains, ◌==◌, ◌||◌,
}
use veristc.Station.Types.{BindingPayload, ExternalVarRow}
use veristc.Station.Batch.{BatchEdit, batch_name}
use veristc.Station.Actions.{
  Request, Notice, BatchAction, run_batch, on_toggle_point, on_delete_point, edit_all,
}
use veristc.Station.Points.{Field}
use veristc.Lang.Decimal.{decimal}
use veristc.Station.Guarded.{answers, failures, IsBatch, run_batch-requests, on_toggle_point-guards}
use veristc.Station.Edits.{payloads_of, changed_by, first_refusal, after, edit_all-answers}
use veristc.Tests.Devices.{a_row}

-- A backend that counts its requests, and refuses all but the first.
abbrev refusing : Request → ℕ → ℕ × Option String
refusing r zero = (1, none)
refusing r (suc n) = (suc (suc n), some "refused")

abbrev three_points : List String
three_points = "P1" ∷ "P2" ∷ "P3" ∷ []

abbrev p2_bound : Option (List String)
p2_bound = some ("P2" ∷ [])

abbrev free_points : List String
free_points = filter (λ n. n == "" || not (contains ("P2" ∷ []) n)) three_points

run_batch-requests_example :
    IsBatch refusing three_points
      (λ n. Request.put_enabled n true)
      three_points
      0
      (run_batch refusing p2_bound BatchAction.enable three_points 0)
    × IsBatch refusing three_points
        (λ n. Request.put_enabled n false)
        free_points
        0
        (run_batch refusing p2_bound BatchAction.disable three_points 0)
    × IsBatch refusing three_points Request.delete_variable free_points 0
        (run_batch refusing p2_bound BatchAction.delete three_points 0)
    × IsBatch refusing three_points
        (λ n. Request.put_enabled n false)
        three_points
        0
        (run_batch refusing none BatchAction.disable three_points 0)
    × IsBatch refusing three_points Request.delete_variable three_points 0
        (run_batch refusing none BatchAction.delete three_points 0)
run_batch-requests_example =
    run_batch-requests refusing p2_bound ("P2" ∷ []) "P1" ("P2" ∷ "P3" ∷ []) 0

on_toggle_point-guards_example :
    ((on_toggle_point refusing p2_bound "P2" false 0) ≡ (0, Notice.warning ∷ []))
    × ((on_delete_point refusing p2_bound true "P2" 0) ≡ (0, Notice.warning ∷ []))
    × ((on_toggle_point refusing none "P2" false 0).0
        ≡ (refusing (Request.put_enabled "P2" false) 0).0)
on_toggle_point-guards_example =
    on_toggle_point-guards refusing ("P2" ∷ []) "P2" 0 (λ e. ground (arith, eq_iff "P2" "")) refl

abbrev known : List (String × ExternalVarRow)
known = ("P1", a_row "P1") ∷ ("P3", a_row "P3") ∷ []

abbrev unit_of : String → BatchEdit
unit_of name = record { name = name; patch = Field.unit "%" ∷ [] }

abbrev three_edits : List BatchEdit
three_edits = unit_of "P1" ∷ unit_of "P2" ∷ unit_of "P3" ∷ []

-- The point P2 is not known: P1 is changed and P3 refused.
edit_all-answers_example :
    (let payloads : List BindingPayload = payloads_of known three_edits in
      let outcomes : List (Option String) = answers refusing (map Request.put_mapping payloads) 0 in
      ((edit_all refusing known three_edits 0).state
        ≡ after refusing (map Request.put_mapping payloads) 0)
      × ((edit_all refusing known three_edits 0).changed ≡ changed_by payloads outcomes)
      × ((edit_all refusing known three_edits 0).failed ≡ failures outcomes)
      × ((edit_all refusing known three_edits 0).first_error ≡ first_refusal outcomes))
edit_all-answers_example = edit_all-answers refusing known three_edits 0

-- The numbers from nine on.
abbrev from_nine : String → ℕ → String
from_nine text index = decimal (9 + index)

abbrev renamed : String → ℕ → BatchEdit
renamed name index = record {
  name = name;
  patch = Field.point_name (batch_name from_nine "PV-" 2 "9" index) ∷ [];
}
