-- ===== src/Rules/Keep.antt =====
-- hald/device_info.c: the rules keep the invariant of the index.
use hal.Property.Utf8.{Utf8}
use hal.World.{World}
