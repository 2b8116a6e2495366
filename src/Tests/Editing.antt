-- ===== src/Tests/Editing.antt =====
-- Runs of the theorems on the editor page.
use Prim.Native.Char.{code}
use veristc.Chart.Pins.{pin_key}
use veristc.Chart.PinLaws.{NoDot}
use veristc.Prelude.{
  arith, ap, ◌++◌, ℕ, suc, ◌≡◌, refl, inl, inr, true, false, Option, none, some, or_else, [], ◌∷◌,
  All, contains, lookup, eq_iff, filter,
}
use veristc.Chart.Types.{PageDoc}
use veristc.Chart.Validity.{NoDangling}
use veristc.Editor.Names.{id_base, candidate, unique_id}
use veristc.Editor.Fresh.{counting, unique_id-IsFirst}
use veristc.Editor.Actions.{PortSeed}
use veristc.Editor.Inspector.{rename_block}
use veristc.Editor.Renaming.{rename_block-dangles}
use veristc.Editor.Session.{SaveRequest, Session, patch, fire, answer, loaded, select_tab}
use veristc.Editor.Saving.{
  edited, fired, Reach.here, Reach.next, answer_clean-saved, switch_drops_edit,
}
use veristc.Editor.Tabs.{Tabs, rename_page, relabelled, rename_page_drops_edit}
use veristc.Editor.Reports.{CheckReport, marks}
use veristc.Editor.Marking.{is_about, marks-filter}
use veristc.Editor.Palette.{ExternalVarRow, PaletteGroup, on_sheet, page_ports, groups}
use veristc.Editor.Offers.{IsOffer, groups-IsOffer}
use veristc.Tests.Samples.{small, wired, from_constant, a_finding}

unique_id-IsFirst_example :
    (k : ℕ) × (unique_id ("var1" ∷ "x" ∷ []) "VAR" ≡ candidate (id_base "VAR") (suc k))
    × (contains ("var1" ∷ "x" ∷ []) (unique_id ("var1" ∷ "x" ∷ []) "VAR") ≡ false)
    × All (λ i. contains ("var1" ∷ "x" ∷ []) (candidate (id_base "VAR") i) ≡ true) (counting k 1)
unique_id-IsFirst_example = unique_id-IsFirst ("var1" ∷ "x" ∷ []) "VAR"

abbrev no_seed : PortSeed
no_seed = record { name = none; type = none; scope = none; bind = none; unit = none }

rename_block-dangles_example : ¬ NoDangling (rename_block "add1" "sum" wired)
rename_block-dangles_example =
    rename_block-dangles "add1" "sum" wired from_constant
      (λ e. absurd (cc ((eq_iff "add1" "sum").1 e)))
      (λ e. absurd (cc ((eq_iff "add1" "__interface__").1 e))) refl (inl refl) (inr refl)

abbrev started : Session
started = record {
  page = some small;
  page_id = "p1";
  selected = none;
  dirty = false;
  rev = 0;
  analysis_stale = false;
  sim_stale = false;
  timer = none;
  in_flight = [];
  server = [];
}

abbrev to_wired : PageDoc → Option PageDoc
to_wired doc = some wired

abbrev wired_request : SaveRequest
wired_request = record { doc = wired; target = 1 }

answer_clean-saved_example :
    ((fire (patch to_wired started)).page ≡ some wired)
    × (lookup "p1" (answer wired_request [] (fire (patch to_wired started))).server ≡ some wired)
unfolding fire patch answer
answer_clean-saved_example =
    answer_clean-saved started (fire (patch to_wired started)) [] wired_request [] refl refl
      (next (next here (edited to_wired)) fired) refl refl refl

switch_drops_edit_example :
    ((loaded "p2" small (select_tab (patch to_wired started))).timer ≡ none)
    × ((loaded "p2" small (select_tab (patch to_wired started))).in_flight ≡ [])
    × ((loaded "p2" small (select_tab (patch to_wired started))).server ≡ [])
    × ((loaded "p2" small (select_tab (patch to_wired started))).page ≡ some small)
switch_drops_edit_example = switch_drops_edit started to_wired "p2" small

-- The sheet that is open, renamed with an edit of it pending.
abbrev renamed_tabs : Tabs
renamed_tabs =
    rename_page "p1" "Main" (some small) true (some []) (some (relabelled "Main" small))
      (record { pages = []; session = patch to_wired started; failed = false })

rename_page_drops_edit_example :
    (renamed_tabs.session.page ≡ some (relabelled "Main" small))
    × (renamed_tabs.session.timer ≡ none)
    × (renamed_tabs.session.in_flight ≡ [])
    × (renamed_tabs.failed ≡ false)
rename_page_drops_edit_example =
    rename_page_drops_edit (record { pages = []; session = started; failed = false }) to_wired
      "Main" small []

abbrev a_report : CheckReport
a_report = record {
  ok = false;
  errors = a_finding ∷ [];
  warnings = [];
  infos = [];
  pages = [];
  cross_page = [];
  station = none;
}

add1-NoDot : NoDot "add1"
add1-NoDot = (
  λ e. absurd (omega (arith, ap code e)),
  (
    λ e. absurd (omega (arith, ap code e)),
    (λ e. absurd (omega (arith, ap code e)), (λ e. absurd (omega (arith, ap code e)), tt)),
  ),
)

marks-filter_example :
    or_else (lookup (pin_key "add1" "B") (marks (some a_report) (some wired))) []
    ≡ filter (is_about "p1" "add1" "B") a_report.errors
      ++ (filter (is_about "p1" "add1" "B") a_report.warnings
          ++ filter (is_about "p1" "add1" "B") a_report.infos)
marks-filter_example =
    marks-filter a_report wired "add1" "B" (λ e. ground (arith, eq_iff "add1" "")) add1-NoDot
      (add1-NoDot, tt)

abbrev a_point : ExternalVarRow
a_point = record {
  name = "X";
  direction = "input";
  st_type = "REAL";
  io_kind = none;
  unit = none;
  description = none;
  mapped = some true;
  has_quality = none;
  enabled = none;
}

groups-IsOffer_example :
    All
      (λ (g : PaletteGroup). All (IsOffer (on_sheet (page_ports (some wired)))) g.rows)
      (groups (λ s. s) (λ a b. false) "S1" (a_point ∷ []) [] [] (page_ports (some wired)))
groups-IsOffer_example =
    groups-IsOffer (λ s. s) (λ a b. false) "S1" (a_point ∷ []) [] [] (page_ports (some wired))
