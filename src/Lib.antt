-- ===== src/Lib.antt =====
-- VeriIDE, the web front end of the veristc repository (veri-ide/web/src): the function-chart editor
-- with its sheet, inspector, checker marks and simulation panels, the block library's editor, the
-- device view, and what all pages share.
--
-- The parts and their files:
--   Chart    components/graph/types.ts: the page document, its pins, deletion and the wire tests.
--            Chart.Validity says what a good page is: no wire hangs, no input has two sources.
--   Wiring   components/graph/Sheet.tsx: drawing a wire (`add_wire` is the mutation of `commitDraft`,
--            `move_draft` is `moveDraft`) and dragging elements (`move_element` is `moveElement`).
--   Editor   pages/GraphEditorPage.tsx and components/graph/Inspector.tsx: new names (`unique_id`),
--            additions, renaming; Editor.Session is the open page with its save timer and the requests
--            that are out, Editor.Runs a simulation run and the edits around it, Editor.Reports the
--            marks of the checker's findings, Editor.Palette the variables that can be dropped,
--            Editor.Jump where a finding leads, Editor.Library the index of the block library,
--            Editor.Tabs the list of sheets, Editor.Checking the run of the checker.
--            Editor.Valid says what a valid page is, Editor.Reaching which edits lead to a page, and
--            Editor.Unwired is about new ids of elements that no wire ends on.
--   Sim      the end of components/graph/types.ts, components/graph/SimPanel.tsx and
--            components/graph/StimulusPanel.tsx: what pins show, what a run request carries, the
--            scrubber of the timeline.
--   Blocks   components/library/BlockEditor.tsx: undo and redo (Blocks.History, and Blocks.Zipper as
--            what they promise), the simulation tab (Blocks.Symbols, Blocks.Grid, Blocks.Truth,
--            Blocks.Cycles, and Blocks.Held as the runner's reading of a stimulus), the port tables
--            (Blocks.Ports), the skeleton of a source, the symbol; and the list of blocks of
--            components/library/BlockLibrary.tsx (Blocks.Shelf), with pages/LibraryPage.tsx and
--            components/library/LibraryListPanel.tsx (Blocks.Libraries).
--   Station  pages/DevicePage.tsx, components/device/types.ts, components/device/PointBoard.tsx: the
--            point board with its batch edits (Station.Batch), and what the page asks of the backend
--            (Station.Actions, Station.Commands; Station.Guarded and Station.Edits are about their
--            batches), how it reads its station (Station.Refreshing), and the form of
--            components/device/BindingProperties.tsx (Station.Form).
--   Monitor  components/monitor/ParameterEditor.tsx (Monitor.Params), pages/MonitorPage.tsx
--            (Monitor.Watching), pages/WaveformPage.tsx (Monitor.Channels) and pages/DownloadPage.tsx
--            (Monitor.Wizard); components/monitor/ForceControlPanel.tsx and VariableInspector.tsx
--            (Monitor.Forces).
--   Shell    lib/shortcuts.ts, lib/eventBus.ts, project/ProjectProvider.tsx (Shell.Project), and the
--            names of new blocks of pages/HomePage.tsx (Shell.PouNames).
--   Lang     the methods of texts and numbers that the source calls: `trim`, `toLowerCase` as far as
--            it is observed, `split`, `padStart`, decimal numerals, grouping by a key.
--   Prelude  notation, lists, texts, integers. Tests holds runs at concrete inputs.
--
-- The parts meet as in the source: Editor.Actions and Wiring.Draft make mutations of the page document
-- of Chart, and `patch` of Editor.Session applies one, marks the page and sets the save timer;
-- Editor.Runs shows the tables that Sim.Values computes. Editor.Reaching takes the edits of all parts
-- together, and Blocks.Cycles sends what Blocks.Grid and Blocks.Truth compute for the symbols of
-- Blocks.Symbols. The header that Blocks.Skeleton writes is the one that Editor.Names reads.
--
-- Modelling. Each operation is a function by clauses, in the order of the source's early returns; what
-- is `undefined` or `null` is `none`. A `Record<string, T>` is an association list. A React state is a
-- record that is passed on; an effect runs where React would run it, after the state that it depends
-- on has changed. The save protocol and the life of a simulation run are step relations: timers,
-- answers and refusals come in any order. Coordinates are whole pixels; `Math.hypot` is compared by its
-- square, radius included. `Number.prototype.toPrecision`, `String` of a number (`shown`), `parseInt`,
-- `parseFloat`, `Number` of a text, the numbers that a batch rename prints, the translator, lower case
-- of texts and keys, and the backend
-- (`send`, a request's effect on its state and its failure) are parameters. The loop of `uniqueId` and
-- that of `portSymbol` run on as many rounds as there are names taken, and the candidate after the last
-- round needs no test: of one candidate more than there are names, one is free.
--
-- Not modelled: JSX and styles, translations, what the sidecar does with a request, the watch
-- table, the home page's projects, the library manager, the waveform's curves, syntax colouring; of the
-- repository, the compiler (veri-stc), the runtime (veri-runtime), the Python sidecar (veri-ide/src)
-- and the Tauri shell.
pub mod Prelude
pub mod Lang
pub mod Chart
pub mod Wiring
pub mod Editor
pub mod Sim
pub mod Blocks
pub mod Station
pub mod Monitor
pub mod Shell
pub mod Tests
