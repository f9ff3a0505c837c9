-- ===== src/Tests/Helpers.antt =====
-- Runs of the interfaces of hald/hald_dbus.c that helpers implement.
use hal.Prelude.{
  lookup, insert, contains, ◌≡◌, refl, true, false, none, some, [], ◌∷◌, Bytes, codes, str_eq,
}
use hal.Property
use hal.World.{World, property_find, table_insert}
use hal.World.Emit.{emit, deliver}
use hal.Device.{device_new, get_strlist, get_strlist_elem}
use hal.Device.Strlist.{strlist_append, emit_unless}
use hal.Access.{Site, computer_udi}
use hal.Service.{Request}
use hal.Service.Helper.{
  Helpers, program_at, program_of, find_program, method_names, method_execpaths, method_signatures,
  device_claim_interface,
}
use hal.Service.Programs.{Program, find_program-Program, find_program_lem}
use hal.Tests.Fixture.{one_device, two_devices}

abbrev volume : Bytes
volume = codes "Volume"

abbrev mount : Bytes
mount = codes "Mount"

abbrev tool : Bytes
tool = codes "hal-mount"

-- One method of one interface.
abbrev mountable : World
mountable =
    let w1 = (strlist_append 0 (method_names volume) mount false one_device).1 in
    let w2 = (strlist_append 0 (method_execpaths volume) tool false w1).1 in
    (strlist_append 0 (method_signatures volume) (codes "s") false w2).1

tool-Program : Program 0 volume mount (codes "s") tool mountable
unfolding strlist_append property_find device_new emit deliver emit_unless table_insert insert
    lookup str_eq get_strlist get_strlist_elem Property.strlist_append
tool-Program = record { num = 0; name = refl; path = refl; signed = refl }

volume_listed : contains volume (volume ∷ []) ≡ true
unfolding contains str_eq
volume_listed = refl

find_program_lem_example :
    (path : Bytes) × (find_program 0 volume mount (codes "s") (volume ∷ []) mountable ≡ some path)
    × Program 0 volume mount (codes "s") path mountable
find_program_lem_example =
    find_program_lem 0 volume mount (codes "s") mountable (volume ∷ []) tool volume_listed
      tool-Program

tool_found : find_program 0 volume mount (codes "s") (volume ∷ []) mountable ≡ some tool
unfolding strlist_append property_find device_new emit deliver emit_unless table_insert insert
    lookup str_eq get_strlist get_strlist_elem Property.strlist_append find_program program_of
    program_at
tool_found = refl

find_program-Program_example :
    (contains volume (volume ∷ []) ≡ true) × Program 0 volume mount (codes "s") tool mountable
find_program-Program_example =
    find_program-Program 0 volume mount (codes "s") mountable (volume ∷ []) tool tool_found

-- Users in active local sessions.
abbrev site : Site
site = record {
  have_conkit = true;
  euid = 68;
  get_info = λ name. some (record {
    uid = 1000;
    session_objpath = some (codes "/Session1");
    is_local = true;
    in_active_session = true;
  });
}

abbrev of_helper : Request
of_helper = record { path = computer_udi; sender = none; local_interface = true }

abbrev of_alice : Request
of_alice = record { path = computer_udi; sender = some (codes ":1.1"); local_interface = false }

abbrev start : Helpers
start = record { world = two_devices; handlers = [] }

abbrev claimed : Helpers
claimed = (device_claim_interface 5 of_helper (some (volume, codes "<interface/>")) start).1
