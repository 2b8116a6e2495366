-- ===== src/Station/Types.antt =====
-- The rows of the device view (components/device/types.ts). A `null` is `none`.
use veristc.Prelude.{ℕ, String, Bool, Option, List, [], ◌∷◌, lookup, or_else}
use veristc.Chart.Types.{Number}

pub record ChannelInfo : Type 0 where
  pub channel : ℕ
  pub var_name : Option String
  pub bound : Bool
  pub name : String
  pub signal_type : String
  pub enabled : Bool

pub record ModuleView : Type 0 where
  pub module_id : String
  pub kind : String
  pub first_channel : ℕ
  pub channel_count : ℕ
  pub last_channel : ℕ
  pub label : String
  pub channel_list : List ChannelInfo

pub record ExternalVarRow : Type 0 where
  pub name : String
  pub direction : String
  pub st_type : String
  pub io_kind : String
  pub description : String
  pub enabled : Bool
  pub mapped : Bool
  pub channel : Option ℕ
  pub module_id : Option String
  pub point_name : String
  pub unit : String
  pub has_quality : Bool
  pub scale : Number
  pub bias : Number
  pub safety_min : Option Number
  pub safety_max : Option Number
  pub fault_hold : String
  pub preset_value : Option Number
  pub signal_type : String

pub record ValidationIssue : Type 0 where
  pub code : String
  pub severity : String
  pub message : String
  pub var_name : Option String
  pub channel : Option ℕ

pub record BindingPayload : Type 0 where
  pub var_name : String
  pub channel : ℕ
  pub scale : Number
  pub bias : Number
  pub safety_min : Option Number
  pub safety_max : Option Number
  pub point_name : String
  pub unit : String
  pub has_quality : Bool
  pub fault_hold : String
  pub preset_value : Option Number
  pub signal_type : String

abbrev pub io_kind_label : List (String × String)
io_kind_label = ("AI", "模拟量输入") ∷ ("AO", "模拟量输出") ∷ ("DI", "开关量输入") ∷ ("DO", "开关量输出") ∷ []

abbrev pub issue_label : List (String × String)
issue_label =
    ("invalid_name", "标识符不合法")
    ∷ ("unknown_var", "变量未声明")
    ∷ ("channel_out_of_range", "通道越界")
    ∷ ("no_hardware", "通道无硬件")
    ∷ ("non_finite_cal", "量程/偏置非有限值")
    ∷ ("bad_safety_limit", "幅值限制倒置")
    ∷ ("bad_hold_mode", "异常保持方式非法")
    ∷ ("preset_missing", "缺少预设值")
    ∷ ("quality_not_in_artifact", "质量位不落制品")
    ∷ ("hold_not_in_artifact", "异常保持不落制品")
    ∷ ("duplicate_channel", "通道重复绑定")
    ∷ ("kind_mismatch", "模块类型不符")
    ∷ ("unmapped_variable", "点位未映射通道")
    ∷ ("duplicate_point", "点名称重复")
    ∷ []

abbrev pub issue_title : ValidationIssue → String
issue_title issue = or_else (lookup issue.code issue_label) issue.code

pub record StationRow : Type 0 where
  pub station_id : String
  pub label : String
  pub device_type : String
  pub cycle_ms : ℕ
  pub comm_interface : String
  pub comm_address : String
  pub modules : ℕ
  pub variables : ℕ
  pub mapped : ℕ
  pub errors : ℕ
  pub warnings : ℕ

pub record ValidationResult : Type 0 where
  pub ok : Bool
  pub errors : List ValidationIssue
  pub warnings : List ValidationIssue
