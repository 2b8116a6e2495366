-- ===== src/Editor/Reports.antt =====
-- What the checker answers, and the marks that it puts on the pins of a sheet (components/graph/types.ts,
-- pages/GraphEditorPage.tsx, components/graph/Sheet.tsx).
use Prim.Native.String
use veristc.Prelude.{
  ℕ, String, ◌==◌, ◌&&◌, not, if◌then◌else◌, Bool, true, false, Option, none, some, or_else, or_try,
  List, [], ◌∷◌, ◌++◌, find, lookup, insert,
}
use veristc.Sim.Types.{DiagnosticRow, RunStation}
use veristc.Chart.Types.{Number, Finding, Severity, PageDoc}

pub record PageRow : Type 0 where
  pub id : String
  pub index : ℕ
  pub label : String
  pub sheet : String
  pub name : String
  pub blocks : ℕ
  pub constants : ℕ
  pub connections : ℕ
  pub ports : List String

pub record CrossPageRow : Type 0 where
  pub name : String
  pub type : String
  pub scope : String
  pub direction : String
  pub pages : List String

pub record CheckReport : Type 0 where
  pub ok : Bool
  pub errors : List Finding
  pub warnings : List Finding
  pub infos : List Finding
  pub pages : List PageRow
  pub cross_page : List CrossPageRow
  pub station : Option String

-- The anonymous types of `AnalysisReport`.
pub record StackAnalysis : Type 0 where
  pub stack_depth : ℕ
  pub recursive_calls : Bool
  pub estimated_wcet : ℕ
  pub loops_bounded : Bool

pub record FunctionCost : Type 0 where
  pub func_idx : ℕ
  pub cycles : ℕ
  pub ns : ℕ

pub record WcetReport : Type 0 where
  pub functions : List FunctionCost
  pub total_cycles : ℕ
  pub total_ns : ℕ
  pub cycle_limit_instructions : Option ℕ
  pub station_cycle_ms : Option ℕ
  pub budget_ns : Option ℕ
  pub used_percent : Option Number
  pub fits_cycle : Option Bool
  pub within_instruction_limit : Option Bool

pub record MemorySegment : Type 0 where
  pub kind : String
  pub start : ℕ
  pub bytes : ℕ

pub record MemoryKind : Type 0 where
  pub bytes : ℕ
  pub count : ℕ
  pub start : ℕ

pub record MemoryReport : Type 0 where
  pub linear_memory_bytes : ℕ
  pub segments : List MemorySegment
  pub by_kind : List (String × MemoryKind)
  pub io_channels : ℕ
  pub symbols : ℕ
  pub global_slots : ℕ
  pub fb_fields : ℕ
  pub code_bytes : ℕ
  pub image_bytes : ℕ

pub record SyncRegion : Type 0 where
  pub page_size : ℕ
  pub tracked_pages : ℕ
  pub page_limit : ℕ
  pub mandatory_pages : List ℕ
  pub mandatory_page_count : ℕ
  pub bytes_per_cycle : ℕ
  pub snapshot_header_bytes : ℕ
  pub worst_case_bytes : ℕ
  pub within_page_limit : Bool
  pub note : Option String

pub data AnalysisStage : Type 0 where
  checker analysis compile : AnalysisStage

-- What the compiler measured for a chart; `safety.loop_bounds` is of type `unknown`, and only counted.
pub record AnalysisReport : Type 0 where
  pub ok : Bool
  pub stage : Option AnalysisStage
  pub exit_code : Option ℕ
  pub errors : Option (List Finding)
  pub warnings : Option (List Finding)
  pub diagnostics : Option (List DiagnosticRow)
  pub image_bytes : Option ℕ
  pub analysis : Option StackAnalysis
  pub wcet : Option WcetReport
  pub memory : Option MemoryReport
  pub sync_region : Option SyncRegion
  pub safety : Option (String × ℕ × ℕ)
  pub sections : Option (List (String × ℕ))
  pub station : Option RunStation

-- `runAnalysis`: the measurement that is kept, and what its end does.
pub record Analysis : Type 0 where
  pub report : Option AnalysisReport
  pub analysis_busy : Bool
  pub analysis_error : Option String
  pub analysis_stale : Bool

unfoldable pub ask_analysis : Analysis → Analysis
ask_analysis a = record a { analysis_busy = true; analysis_error = none }

unfoldable pub receive_analysis : AnalysisReport → Analysis → Analysis
receive_analysis report a = record a {
  report = some report;
  analysis_stale = false;
  analysis_busy = false;
}

unfoldable pub fail_analysis : String → Analysis → Analysis
fail_analysis message a = record a { analysis_error = some message; analysis_busy = false }

abbrev pub Marks : Type 0
Marks = List (String × List Finding)

-- `${finding.block}.${finding.port}`
abbrev pub finding_key : Finding → String
finding_key f = String.◌++◌ f.block (String.◌++◌ "." f.port)

-- The two early returns of the loop are not taken: a finding of no page or of this one, at a block.
abbrev pub is_marked : String → Finding → Bool
is_marked sheet f = (if f.page == "" then true else f.page == sheet) && not (f.block == "")

abbrev pub add_mark : Finding → Marks → Marks
add_mark f table =
    insert (finding_key f) (or_else (lookup (finding_key f) table) [] ++ f ∷ []) table

unfoldable pub marks_from : String → List Finding → Marks → Marks
marks_from sheet [] table = table
marks_from sheet (f ∷ fs) table =
    marks_from sheet fs (if is_marked sheet f then add_mark f table else table)

abbrev pub all_findings : CheckReport → List Finding
all_findings r = r.errors ++ (r.warnings ++ r.infos)

unfoldable pub marks : Option CheckReport → Option PageDoc → Marks
unfolding marks_from
marks none page = []
marks (some report) none = []
marks (some report) (some page) = marks_from page.page.id (all_findings report) []

abbrev pub is_error : Finding → Bool
is_error f = elim f.severity [
  | Severity.error ↦ true
  | Severity.warning ↦ false
  | Severity.info ↦ false
]

abbrev pub is_warning : Finding → Bool
is_warning f = elim f.severity [
  | Severity.error ↦ false
  | Severity.warning ↦ true
  | Severity.info ↦ false
]

unfoldable pub worst_finding : List Finding → Option Finding
worst_finding findings = or_try (find is_error findings) (find is_warning findings)

abbrev color_of : Option Finding → Option String
color_of none = none
color_of (some f) = some (if is_error f then "#f14c4c" else "#cca700")

-- The colour of a pin's mark.
unfoldable pub mark_color : List Finding → Option String
unfolding worst_finding
mark_color findings = color_of (worst_finding findings)
