-- ===== src/Editor/Marking.antt =====
-- The marks of a sheet (pages/GraphEditorPage.tsx, components/graph/Sheet.tsx).
use veristc.Prelude.{
  ◌≡◌, ◌≢◌, All, ◌||◌, refl, sym, ap, ◌∙◌, String, ◌==◌, eq_iff, ◌&&◌, arith, Bool-cases, inl, inr,
  if◌then◌else◌, Bool, true, false, none, some, or_else, List, [], ◌∷◌, ◌++◌, filter, any, find,
  lookup, lookup-insert, append_assoc, append-nil,
}
use veristc.Chart.Types.{Finding, Severity, PageDoc}
use veristc.Chart.Pins.{pin_key}
use veristc.Chart.PinLaws.{NoDot, pin_key_inj}
use veristc.Editor.Reports.{
  CheckReport, Marks, finding_key, is_marked, add_mark, marks_from, all_findings, marks, is_error,
  is_warning, worst_finding, mark_color,
}

abbrev at : String → Marks → List Finding
at key table = or_else (lookup key table) []

-- A finding of the sheet that is about a pin.
abbrev is_at : String → String → Finding → Bool
is_at sheet key f = is_marked sheet f && (finding_key f == key)

at-add_mark :
    (key : String) (f : Finding) (table : Marks)
    → at key (add_mark f table)
      ≡ (if finding_key f == key then at key table ++ f ∷ [] else at key table)
at-add_mark key f table = elim (Bool-cases (finding_key f == key)) [
  | inl e ↦
      rw (lookup-insert (finding_key f) key (at (finding_key f) table ++ f ∷ []) table, e)
        (ap (λ k. at k table ++ f ∷ []) ((eq_iff (finding_key f) key).0 e))
  | inr e ↦
      rw (lookup-insert (finding_key f) key (at (finding_key f) table ++ f ∷ []) table, e) refl
]

at-marks_from :
    (sheet key : String) (fs : List Finding) (table : Marks)
    → at key (marks_from sheet fs table) ≡ at key table ++ filter (is_at sheet key) fs
unfolding marks_from
at-marks_from sheet key [] table = sym (append-nil (at key table))
at-marks_from sheet key (f ∷ fs) table = elim (Bool-cases (is_marked sheet f)) [
  | inl m ↦ elim (Bool-cases (finding_key f == key)) [
    | inl e ↦
        rw (m, e)
          (at-marks_from sheet key fs (add_mark f table)
            ∙ ap (◌++ filter (is_at sheet key) fs) (at-add_mark key f table ∙ rw e refl)
            ∙ append_assoc (at key table) (f ∷ []) (filter (is_at sheet key) fs))
    | inr e ↦
        rw (m, e)
          (at-marks_from sheet key fs (add_mark f table)
            ∙ ap (◌++ filter (is_at sheet key) fs) (at-add_mark key f table ∙ rw e refl))
  ]
  | inr m ↦ rw m (at-marks_from sheet key fs table)
]

filter-append :
    (p : Finding → Bool) (xs ys : List Finding) → filter p (xs ++ ys) ≡ filter p xs ++ filter p ys
filter-append p [] ys = refl
filter-append p (x ∷ xs) ys = ground (arith, filter-append p xs ys)

-- A finding of a sheet, or of none, that is about a pin of an element.
abbrev pub is_about : String → String → String → Finding → Bool
is_about sheet block port f =
    (f.page == "" || f.page == sheet) && (f.block == block && f.port == port)

is_at-is_about :
    (sheet block port : String) (f : Finding)
    → block ≢ ""
    → NoDot block
    → NoDot f.block
    → is_at sheet (pin_key block port) f ≡ is_about sheet block port f
unfolding pin_key
is_at-is_about sheet block port f full h k = ground (
  arith,
  eq_iff f.block "",
  eq_iff f.block block,
  eq_iff f.port port,
  eq_iff (pin_key f.block f.port) (pin_key block port),
  pin_key_inj f.block block f.port port k h,
)

-- The marks of a pin of a named element are, errors first, then warnings, then infos, and each in the
-- order of the report, exactly the findings that name the open sheet or none, that element and that
-- port, where neither the element's name nor those of the findings hold a dot.
pub marks-filter :
    (report : CheckReport) (page : PageDoc) (block port : String)
    → block ≢ ""
    → NoDot block
    → All (λ (f : Finding). NoDot f.block) (report.errors ++ (report.warnings ++ report.infos))
    → or_else (lookup (pin_key block port) (marks (some report) (some page))) []
      ≡ filter (is_about page.page.id block port) report.errors
        ++ (filter (is_about page.page.id block port) report.warnings
            ++ filter (is_about page.page.id block port) report.infos)
unfolding marks
marks-filter report page block port full h k =
    at-marks_from page.page.id (pin_key block port) (all_findings report) []
    ∙ same (all_findings report) k
    ∙ filter-append about report.errors (report.warnings ++ report.infos)
    ∙ ap (filter about report.errors ++◌) (filter-append about report.warnings report.infos)
  where
    about : Finding → Bool
    about = is_about page.page.id block port

    same :
        (fs : List Finding)
        → All (λ (f : Finding). NoDot f.block) fs
        → filter (is_at page.page.id (pin_key block port)) fs ≡ filter about fs
    same [] m = refl
    same (f ∷ fs) m =
        rw (is_at-is_about page.page.id block port f full h m.0) (ground (arith, same fs m.1))

found :
    (p : Finding → Bool) (fs : List Finding)
    → any p fs ≡ true
    → (f : Finding) × (find p fs ≡ some f) × (p f ≡ true)
found p [] h = absurd (cc h)
found p (f ∷ fs) h = elim (Bool-cases (p f)) [
  | inl e ↦ (f, rw e refl, e)
  | inr e ↦ let (g, q, r) = found p fs (ground arith) in (g, rw e q, r)
]

not_found : (p : Finding → Bool) (fs : List Finding) → any p fs ≡ false → find p fs ≡ none
not_found p [] h = refl
not_found p (f ∷ fs) h = elim (Bool-cases (p f)) [
  | inl e ↦ absurd (ground arith)
  | inr e ↦ rw e (not_found p fs (ground arith))
]

warning_no_error : (f : Finding) → is_warning f ≡ true → is_error f ≡ false
warning_no_error f h = of f.severity h
  where
    of :
        (s : Severity)
        → (elim s [ Severity.error ↦ false | Severity.warning ↦ true | Severity.info ↦ false ])
          ≡ true
        → (elim s [ Severity.error ↦ true | Severity.warning ↦ false | Severity.info ↦ false ])
          ≡ false
    of Severity.error e = absurd (cc e)
    of Severity.warning e = refl
    of Severity.info e = refl

-- A pin is marked red exactly when a finding on it is an error, yellow exactly when one is a warning
-- and none an error, and not at all otherwise.
pub mark_color-worst :
    (findings : List Finding)
    → mark_color findings ≡ (
        if any is_error findings
        then some "#f14c4c"
        else if any is_warning findings
        then some "#cca700"
        else none)
unfolding mark_color worst_finding
mark_color-worst findings = elim (Bool-cases (any is_error findings)) [
  | inl e ↦ let (f, q, h) = found is_error findings e in rw (e, q, h) refl
  | inr e ↦ elim (Bool-cases (any is_warning findings)) [
    | inl w ↦
        let (f, q, h) = found is_warning findings w in
        rw (e, not_found is_error findings e, w, q, warning_no_error f h) refl
    | inr w ↦ rw (e, not_found is_error findings e, w, not_found is_warning findings w) refl
  ]
]
