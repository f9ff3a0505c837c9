-- ===== src/Service/Claims.antt =====
-- hald/hald_dbus.c: an add-on that has claimed an interface of a device gets its messages.
use hal.Prelude.{ℕ, Bytes}
use hal.Service.{Request}
use hal.Service.Helper.{Handler}

abbrev claimant : ℕ → Request → Bytes → Bytes → Handler
claimant connection r name xml = record {
  connection = connection;
  udi = r.path;
  interface_name = name;
  introspection_xml = xml;
}
