-- ===== src/Editor/Checking.antt =====
-- `runCheck` of the graph page (pages/GraphEditorPage.tsx): the check, the preview of the source, and the
-- measurement that a clean chart goes on to.
use veristc.Prelude.{◌≡◌, refl, String, if◌then◌else◌, Option, none, some, List, Bool, true, false}
use veristc.Editor.Reports.{
  CheckReport, CrossPageRow, PageRow, Analysis, AnalysisReport, ask_analysis, receive_analysis,
  fail_analysis,
}

-- The panels of the page.
pub data Panel : Type 0 where
  check st analysis sim stim : Panel

-- What a request comes back with.
pub data Outcome (A : Type 0) : Type 0 where
  came : A → Outcome A
  broke : String → Outcome A

pub record Bench : Type 0 where
  pub busy : Bool
  pub report : Option CheckReport
  pub cross_page : List CrossPageRow
  pub pages : List PageRow
  pub panel : Panel
  pub st_text : String
  pub st_error : Option String
  pub analysis : Analysis
  -- The message of the last failure that was shown.
  pub shown : Option String

-- `runAnalysis` once it is answered; it may leave the panel alone.
unfoldable pub run_analysis : Bool → Outcome AnalysisReport → Bench → Bench
unfolding ask_analysis receive_analysis fail_analysis
run_analysis switch_panel (Outcome.came result) b = record b {
  analysis = receive_analysis result (ask_analysis b.analysis);
  panel = if switch_panel then Panel.analysis else b.panel;
}
run_analysis switch_panel (Outcome.broke message) b = record b {
  analysis = fail_analysis message (ask_analysis b.analysis);
}

-- The report is there.
unfoldable pub checked : CheckReport → Bench → Bench
checked result b = record b {
  report = some result;
  cross_page = result.cross_page;
  pages = result.pages;
  panel = Panel.check;
  st_error = none;
}

-- The preview, or why there is none.
unfoldable pub previewed : Outcome String → Bench → Bench
previewed (Outcome.came text) b = record b { st_text = text }
previewed (Outcome.broke message) b = record b { st_error = some message }

-- `runCheck`, given what its three requests come back with; the measurement is asked for a clean chart.
unfoldable pub run_check :
    Outcome CheckReport → Outcome String → Outcome AnalysisReport → Bench → Bench
unfolding run_analysis checked previewed
run_check (Outcome.broke message) text measured b = record b { busy = false; shown = some message }
run_check (Outcome.came result) text measured b =
    let there : Bench = previewed text (checked result b) in
    let through : Bench = run_analysis false measured there in
    if result.ok then record through { busy = false } else record there { busy = false }

-- A check that is answered ends with its report on its panel, whatever becomes of the preview; a
-- measurement is taken only for a clean chart, and does not hide the report.
pub run_check-shows :
    (result : CheckReport) (text : Outcome String) (measured : Outcome AnalysisReport) (b : Bench)
    → (let after : Bench = run_check (Outcome.came result) text measured b in
        (after.report ≡ some result)
        × (after.panel ≡ Panel.check)
        × (after.busy ≡ false)
        × (result.ok ≡ false → after.analysis ≡ b.analysis))
unfolding run_check run_analysis checked previewed
run_check-shows result text measured b = shows result.ok refl text measured
  where
    shows :
        (ok : Bool)
        → result.ok ≡ ok
        → (text : Outcome String) (measured : Outcome AnalysisReport)
        → (let after : Bench = run_check (Outcome.came result) text measured b in
            (after.report ≡ some result)
            × (after.panel ≡ Panel.check)
            × (after.busy ≡ false)
            × (result.ok ≡ false → after.analysis ≡ b.analysis))
    shows true e (Outcome.came s) (Outcome.came r) = rw e (refl, refl, refl, λ h. absurd (cc h))
    shows true e (Outcome.came s) (Outcome.broke m) = rw e (refl, refl, refl, λ h. absurd (cc h))
    shows true e (Outcome.broke n) (Outcome.came r) = rw e (refl, refl, refl, λ h. absurd (cc h))
    shows true e (Outcome.broke n) (Outcome.broke m) = rw e (refl, refl, refl, λ h. absurd (cc h))
    shows false e (Outcome.came s) measured = rw e (refl, refl, refl, λ h. refl)
    shows false e (Outcome.broke n) measured = rw e (refl, refl, refl, λ h. refl)
