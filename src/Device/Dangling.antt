-- ===== src/Device/Dangling.antt =====
-- hald/device.c with hald/device_store.c: the setter and the removal free a string that keys an
-- entry of an index.
use hal.Property.Utf8.{Utf8}
use hal.World.{World}
