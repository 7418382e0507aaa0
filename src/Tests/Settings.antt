-- ===== src/Tests/Settings.antt =====
-- A name of a data format.
use modbusmq.Base.{◌≡◌, ◌≢◌, ◌↔◌}
use modbusmq.Codec.{format_unknown, format_int16_ba}
use modbusmq.Settings.{dataformat, dataformat_name}
use modbusmq.Settings.Names.{dataformat_iff}

known : format_int16_ba ≢ format_unknown
known e = cc e

dataformat_iff_example :
    (dataformat "int_ba" ≡ format_int16_ba) ↔ ("int_ba" ≡ dataformat_name format_int16_ba)
dataformat_iff_example = dataformat_iff "int_ba" format_int16_ba known
