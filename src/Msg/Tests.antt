-- ===== src/Msg/Tests.antt =====
-- Examples of values that go through messages.
use rtdbus.Attribute.{AttrVal, no_value}

-- 1000 is 0x03E8, and its low byte is -24 as an int8.
abbrev thousand : AttrVal
thousand = record no_value { fixed = 1000 }
