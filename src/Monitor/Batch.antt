-- ===== src/Monitor/Batch.antt =====
-- The values that are sent for several parameters at once (`handleBatchModify`,
-- components/monitor/ParameterEditor.tsx).
use veristc.Prelude.{◌≡◌, ◌≢◌, refl, String, ◌==◌, Option, some, List, find, lookup, eq_false}
use veristc.Chart.Types.{Scalar, Number}
use veristc.Monitor.Params.{Variable, batch_text, batch_entry, save_editing, ParamEditor}

module _ (parse_int parse_float : String → Option Number) (shown : Option Scalar → String) where
  -- A parameter for which a text was typed is sent as it would be sent alone.
  pub batch_entry-save_editing :
      (vs : List Variable) (v : Variable) (e : ParamEditor) (value : String)
      → find (λ (u : Variable). u.name == v.name) vs ≡ some v
      → lookup v.name e.param_values ≡ some value
      → value ≢ ""
      → v.data_type ≢ ""
      → batch_entry parse_int parse_float shown vs e.param_values v.name
        ≡ (save_editing parse_int parse_float v.name v.data_type value e).0
  unfolding batch_entry batch_text save_editing
  batch_entry-save_editing vs v e value found typed full known =
      rw (found, typed, eq_false value "" full, eq_false v.data_type "" known) refl
