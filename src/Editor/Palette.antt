-- ===== src/Editor/Palette.antt =====
-- The variable palette (pages/GraphEditorPage.tsx, components/graph/types.ts). The translated words and
-- the order of names of `localeCompare` are parameters.
use Prim.Native.String
use veristc.Prelude.{
  String, ◌==◌, ◌&&◌, ltb, not, if◌then◌else◌, Bool, true, false, Option, none, some, or_else, List,
  [], ◌∷◌, ◌++◌, map, filter, contains, lookup, insert, length,
}
use veristc.Chart.Types.{PageDoc, Port, PortDirection, Scope, ports}
use veristc.Editor.Actions.{PortSeed}
use veristc.Editor.Reports.{CrossPageRow}

-- The rows that the sidecar answers for the variables of a station and of the runtime.
pub record ExternalVarRow : Type 0 where
  pub name : String
  pub direction : String
  pub st_type : String
  pub io_kind : Option String
  pub unit : Option String
  pub description : Option String
  pub mapped : Option Bool
  pub has_quality : Option Bool
  pub enabled : Option Bool

pub record SystemVarRow : Type 0 where
  pub name : String
  pub st_type : String
  pub description : String
  pub readonly : Bool

pub record PaletteAction : Type 0 where
  pub label : String
  pub direction : PortDirection
  pub title : String

pub record PaletteRow : Type 0 where
  pub key : String
  pub name : String
  pub type : String
  pub title : String
  pub badge : Option String
  pub seed : PortSeed
  pub actions : List PaletteAction

pub record PaletteCreate : Type 0 where
  pub label : String
  pub seed : PortSeed
  pub title : String

pub record PaletteGroup : Type 0 where
  pub title : String
  pub note : Option String
  pub create : Option PaletteCreate
  pub empty : String
  pub rows : List PaletteRow

pub record PagePort : Type 0 where
  pub port : Port
  pub direction : PortDirection

abbrev pub ports_of : PageDoc → PortDirection → List PagePort
ports_of page direction =
    map (λ (p : Port). record { port = p; direction = direction }) (ports page.interface direction)

abbrev pub page_ports : Option PageDoc → List PagePort
page_ports none = []
page_ports (some page) =
    ports_of page PortDirection.input
    ++ (ports_of page PortDirection.in_out ++ ports_of page PortDirection.output)

abbrev pub on_sheet : List PagePort → List String
on_sheet rows = map (λ (p : PagePort). p.port.name) rows

abbrev pub pins_for : List String → String → List PaletteAction → List PaletteAction
pins_for sheet name actions = if contains sheet name then [] else actions

abbrev pub not_false : Option Bool → Bool
not_false o = or_else o true

abbrev pub no_seed : PortSeed
no_seed = record { name = none; type = none; scope = none; bind = none; unit = none }

abbrev pub has_scope : Scope → Option Scope → Bool
has_scope Scope.external (some Scope.external) = true
has_scope Scope.intermediate (some Scope.intermediate) = true
has_scope Scope.local (some Scope.local) = true
has_scope _ _ = false

abbrev joined : List String → String
joined [] = ""
joined (s ∷ []) = s
joined (s ∷ r ∷ rest) = String.◌++◌ s (String.◌++◌ "、" (joined (r ∷ rest)))

abbrev pub text_or : String → String → String
text_or s other = if s == "" then other else s

-- `set` of the map of page variables.
pub record CrossVar : Type 0 where
  pub name : String
  pub type : String
  pub pages : List String

abbrev pub CrossVars : Type 0
CrossVars = List (String × CrossVar)

abbrev pub add_crossing : List CrossPageRow → CrossVars → CrossVars
add_crossing [] table = table
add_crossing (row ∷ rows) table = add_crossing rows (
    if row.scope == "intermediate"
    then insert row.name (record { name = row.name; type = row.type; pages = row.pages }) table
    else table)

abbrev pages_of : Option CrossVar → List String
pages_of none = []
pages_of (some v) = v.pages

abbrev pub add_own : List PagePort → CrossVars → CrossVars
add_own [] table = table
add_own (p ∷ ps) table = add_own ps (
    if has_scope Scope.intermediate p.port.scope
    then insert p.port.name
        (record {
          name = p.port.name;
          type = p.port.type;
          pages = pages_of (lookup p.port.name table);
        })
        table
    else table)

module _ (t : String → String) (before : String → String → Bool) where
  abbrev pub read : PaletteAction
  read = record { label = "IN"; direction = PortDirection.input; title = t "graph.readHere" }

  abbrev pub write : PaletteAction
  write = record { label = "OUT"; direction = PortDirection.output; title = t "graph.writeHere" }

  -- `rows.sort((a, b) => a.name.localeCompare(b.name))`, which is stable.
  abbrev pub insert_row : PaletteRow → List PaletteRow → List PaletteRow
  insert_row r [] = r ∷ []
  insert_row r (s ∷ rows) = if before s.name r.name then s ∷ insert_row r rows else r ∷ s ∷ rows

  abbrev pub sort : List PaletteRow → List PaletteRow
  sort [] = []
  sort (r ∷ rows) = insert_row r (sort rows)

  abbrev pub point_row : String → List String → PaletteAction → ExternalVarRow → PaletteRow
  point_row station sheet action row = record {
    key = row.name;
    name = row.name;
    type = row.st_type;
    title = String.◌++◌ row.name (
        String.◌++◌ " · " (
          String.◌++◌ (text_or (or_else row.description "") (t "graph.noPointName"))
            (if or_else row.mapped false then "" else String.◌++◌ " · " (t "graph.noChannel"))));
    badge = none;
    seed = record {
      name = some row.name;
      type = some row.st_type;
      scope = some Scope.external;
      bind = some (record { station = some station; variable = some row.name });
      unit = some (or_else row.unit "");
    };
    actions = pins_for sheet row.name (action ∷ []);
  }

  abbrev pub is_point : String → ExternalVarRow → Bool
  is_point direction row = (row.direction == direction) && not_false row.enabled

  abbrev pub points :
      String → List String → String → PaletteAction → List ExternalVarRow → List PaletteRow
  points station sheet direction action external =
      map (point_row station sheet action) (filter (is_point direction) external)

  abbrev pub crossing_row : List String → CrossVar → PaletteRow
  crossing_row sheet v = record {
    key = v.name;
    name = v.name;
    type = v.type;
    title = String.◌++◌ v.name (
        String.◌++◌ " · " (
          String.◌++◌ (t "graph.connectPage")
            (String.◌++◌ " " (text_or (joined v.pages) (t "graph.thisPage")))));
    badge = none;
    seed = record no_seed {
      name = some v.name;
      type = some v.type;
      scope = some Scope.intermediate;
    };
    actions = pins_for sheet v.name (read ∷ write ∷ []);
  }

  abbrev pub local_row : PagePort → PaletteRow
  local_row p = record {
    key = String.◌++◌ "local" p.port.name;
    name = p.port.name;
    type = p.port.type;
    title = String.◌++◌ p.port.name (String.◌++◌ " · " (t "graph.privateHint"));
    badge = none;
    seed = record no_seed {
      name = some p.port.name;
      type = some p.port.type;
      scope = some Scope.local;
    };
    actions = [];
  }

  abbrev pub system_row : List String → SystemVarRow → PaletteRow
  system_row sheet row = record {
    key = row.name;
    name = row.name;
    type = row.st_type;
    title = String.◌++◌ row.name (String.◌++◌ " · " row.description);
    badge = some (t "graph.readonly");
    seed = record no_seed {
      name = some row.name;
      type = some row.st_type;
      scope = some Scope.external;
    };
    actions = pins_for sheet row.name (read ∷ []);
  }

  abbrev pub is_disabled_input : ExternalVarRow → Bool
  is_disabled_input row = (row.direction == "input") && not (not_false row.enabled)

  unfoldable pub groups :
      String
      → List ExternalVarRow
      → List CrossPageRow
      → List SystemVarRow
      → List PagePort
      → List PaletteGroup
  groups station external cross_page system_vars own =
      record {
        title = t "graph.inputVars";
        note =
            if ltb 0 (length (filter is_disabled_input external))
            then some (t "graph.inputVarsNote")
            else none;
        create = none;
        empty = t "graph.noInputVars";
        rows = points station (on_sheet own) "input" read external;
      }
      ∷ record {
        title = t "graph.outputVars";
        note = none;
        create = none;
        empty = t "graph.noOutputVars";
        rows = points station (on_sheet own) "output" write external;
      }
      ∷ record {
        title = t "graph.middleVars";
        note = none;
        create = some (record {
          label = t "graph.newMiddle";
          seed = record no_seed { scope = some Scope.intermediate };
          title = t "graph.newMiddleHint";
        });
        empty = t "graph.noMiddleVars";
        rows = sort (
            map (λ (e : String × CrossVar). crossing_row (on_sheet own) e.1)
              (add_own own (add_crossing cross_page [])));
      }
      ∷ record {
        title = t "graph.privateVars";
        note = none;
        create = some (record {
          label = t "graph.newPrivate";
          seed = record no_seed { scope = some Scope.local };
          title = t "graph.newPrivateHint";
        });
        empty = t "graph.noPrivateVars";
        rows =
            sort
              (map local_row (filter (λ (p : PagePort). has_scope Scope.local p.port.scope) own));
      }
      ∷ record {
        title = t "graph.systemVars";
        note = some (t "graph.systemVarsNote");
        create = none;
        empty = t "graph.noSystemVars";
        rows = map (system_row (on_sheet own)) system_vars;
      }
      ∷ []
