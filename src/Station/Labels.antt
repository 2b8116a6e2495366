-- ===== src/Station/Labels.antt =====
-- The fixed words and colours of the device view (components/device/types.ts).
use veristc.Prelude.{String, List, [], ◌∷◌, lookup, or_else}

abbrev pub kind_color : List (String × String)
kind_color =
    ("AI", "rgb(var(--ide-hue-teal))")
    ∷ ("AO", "rgb(var(--ide-hue-yellow))")
    ∷ ("DI", "rgb(var(--ide-hue-blue))")
    ∷ ("DO", "rgb(var(--ide-hue-purple))")
    ∷ []

abbrev pub device_types : List String
device_types = "DCU" ∷ "RPS" ∷ "ESFAS" ∷ "SIM" ∷ []

abbrev pub comm_interfaces : List String
comm_interfaces = "backplane" ∷ "modbus_tcp" ∷ "profibus_dp" ∷ "iec61850" ∷ "none" ∷ []

abbrev pub hold_labels : List (String × String)
hold_labels = ("", "未配置") ∷ ("last_value", "保持上周期值") ∷ ("preset", "预设值") ∷ []

abbrev pub signal_types : List String
signal_types = "" ∷ "voltage" ∷ "current" ∷ "4-20mA" ∷ "0-5V" ∷ []

abbrev pub signal_type_labels : List (String × String)
signal_type_labels =
    ("", "未配置")
    ∷ ("voltage", "电压")
    ∷ ("current", "电流")
    ∷ ("4-20mA", "4-20mA")
    ∷ ("0-5V", "0-5V")
    ∷ []

abbrev pub severity_labels : List (String × String)
severity_labels = ("error", "错误") ∷ ("warning", "提醒") ∷ []

abbrev pub severity_label : String → String
severity_label severity = or_else (lookup severity severity_labels) severity
