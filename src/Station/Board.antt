-- ===== src/Station/Board.antt =====
-- The board of channel cards (components/device/PointBoard.tsx). The translated words
-- are a parameter; the table of points is an association list in the order of its keys.
use Prim.Native.String
use veristc.Prelude.{
  ℕ, leb, String, ◌==◌, if◌then◌else◌, not, Option, none, some, or_else, List, [], ◌∷◌, ◌++◌, map,
  filter, contains, lookup, length,
}
use veristc.Lang.Decimal.{decimal}
use veristc.Station.Types.{ChannelInfo, ModuleView, ExternalVarRow, io_kind_label}

-- `-1` stands for no channel on the card of a point without one: `none` here.
pub data Cell : Type 0 where
  point : ExternalVarRow → Option ℕ → Cell
  empty : ℕ → Cell

pub record Lane : Type 0 where
  pub id : String
  pub io_kind : String
  pub label : String
  pub range : String
  pub cells : List Cell

-- `sort((a, b) => a.first_channel - b.first_channel)`, which is stable.
abbrev pub insert_module : ModuleView → List ModuleView → List ModuleView
insert_module m [] = m ∷ []
insert_module m (n ∷ ns) =
    if leb m.first_channel n.first_channel then m ∷ n ∷ ns else n ∷ insert_module m ns

abbrev pub sort_modules : List ModuleView → List ModuleView
sort_modules [] = []
sort_modules (m ∷ ms) = insert_module m (sort_modules ms)

abbrev pub ByName : Type 0
ByName = List (String × ExternalVarRow)

abbrev pub row_of : Option String → ByName → Option ExternalVarRow
row_of none by_name = none
row_of (some var_name) by_name = if var_name == "" then none else lookup var_name by_name

abbrev pub cell_for : Option ExternalVarRow → ℕ → Cell
cell_for none channel = empty channel
cell_for (some row) channel = point row (some channel)

abbrev pub cells_of : ByName → List ChannelInfo → List Cell
cells_of by_name [] = []
cells_of by_name (c ∷ cs) = cell_for (row_of c.var_name by_name) c.channel ∷ cells_of by_name cs

abbrev pub point_names : List Cell → List String
point_names [] = []
point_names (point row channel ∷ cells) = row.name ∷ point_names cells
point_names (empty channel ∷ cells) = point_names cells

-- `CH${first}–${last}`
abbrev pub channel_range : ModuleView → String
channel_range m =
    String.◌++◌ "CH"
      (String.◌++◌ (decimal m.first_channel) (String.◌++◌ "–" (decimal m.last_channel)))

abbrev pub lane_of : ByName → ModuleView → Lane
lane_of by_name m = record {
  id = m.module_id;
  io_kind = m.kind;
  label = or_else (lookup m.kind io_kind_label) m.label;
  range = channel_range m;
  cells = cells_of by_name m.channel_list;
}

-- `lanes.flatMap(...)`: the order of range selection. Of the lanes of modules, these are the covered
-- names too.
unfoldable pub order : List Lane → List String
order [] = []
order (lane ∷ lanes) = point_names lane.cells ++ order lanes

abbrev pub values : ByName → List ExternalVarRow
values by_name = map (λ (p : String × ExternalVarRow). p.1) by_name

-- The points that no channel of a module shows.
unfoldable pub orphans : ByName → List Lane → List ExternalVarRow
unfolding order
orphans by_name built =
    filter (λ (row : ExternalVarRow). not (contains (order built) row.name)) (values by_name)

abbrev pub orphan_cell : ExternalVarRow → Cell
orphan_cell row = point row row.channel

-- The lane of the points without a channel.
unfoldable pub orphan_lane : (String → String) → List ExternalVarRow → List Lane
orphan_lane t [] = []
orphan_lane t (row ∷ rows) =
    record {
      id = t "pointBoard.noChannel";
      io_kind = row.io_kind;
      label = t "pointBoard.noChannelDesc";
      range = String.◌++◌ (decimal (length (row ∷ rows))) (String.◌++◌ " " (t "pointBoard.point"));
      cells = map orphan_cell (row ∷ rows);
    }
    ∷ []

unfoldable pub lanes : (String → String) → List ModuleView → ByName → List Lane
unfolding orphans orphan_lane
lanes t modules by_name =
    let built : List Lane = map (lane_of by_name) (sort_modules modules) in
    built ++ orphan_lane t (orphans by_name built)
