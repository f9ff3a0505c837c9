-- ===== src/Service/Helper.antt =====
-- hald/hald_dbus.c: the interfaces of a device that helpers implement, add-ons that have claimed them
-- or programs that the daemon runs.
use hal.Prelude.{
  ℕ, ◌+◌, Bool, true, false, not, ◌&&◌, ◌||◌, contains, Option, none, some, List, [], ◌∷◌, ◌++◌,
  if◌then◌else◌, Bytes, codes, str_eq,
}
use hal.World.{World}
use hal.Device.{get_strlist, get_strlist_elem}
use hal.Device.Strlist.{strlist_add}
use hal.Access.{Site, find_computer, holders_of, global_lock_name, caller_locked_out}
use hal.Rules.Path.{find_device}
use hal.Service.{Reply, Request, no_such_device, permission_denied, syntax_error, returned_bool}

-- `HelperInterfaceHandler`: a connection is a number, its pointer.
pub record Handler : Type 0 where
  pub connection : ℕ
  pub udi : Bytes
  pub interface_name : Bytes
  pub introspection_xml : Bytes

-- The world and `helper_interface_handlers`.
pub record Helpers : Type 0 where
  pub world : World
  pub handlers : List Handler

unfoldable pub device_claim_interface :
    ℕ → Request → Option (Bytes × Bytes) → Helpers → Reply × Helpers
device_claim_interface connection r args h =
    if not r.local_interface then (permission_denied, h) else elim args [
      | none ↦ (syntax_error, h)
      | some (name, xml) ↦ elim (find_device r.path h.world) [
        | none ↦ (no_such_device r.path, h)
        | some d ↦ (
          returned_bool true,
          record {
            world = (strlist_add d (codes "info.interfaces") name h.world).1;
            handlers =
                h.handlers
                ++ (record {
                  connection = connection;
                  udi = r.path;
                  interface_name = name;
                  introspection_xml = xml;
                }
                    ∷ []);
          },
        )
      ]
    ]

abbrev pub is_for : Bytes → Bytes → Handler → Bool
is_for udi interface hih = str_eq hih.udi udi && str_eq hih.interface_name interface

-- The first add-on that has claimed the interface of the device.
unfoldable pub first_handler : Bytes → Bytes → List Handler → Option ℕ
first_handler udi interface [] = none
first_handler udi interface (hih ∷ rest) =
    if is_for udi interface hih then some hih.connection else first_handler udi interface rest

abbrev pub method_names : Bytes → Bytes
method_names interface = interface ++ codes ".method_names"

abbrev pub method_execpaths : Bytes → Bytes
method_execpaths interface = interface ++ codes ".method_execpaths"

abbrev pub method_signatures : Bytes → Bytes
method_signatures interface = interface ++ codes ".method_signatures"

-- The program at a place of the three lists, where the signature is that of the message.
unfoldable pub program_at : ℕ → Bytes → Bytes → ℕ → World → Option Bytes
program_at d interface signature num w =
    elim (get_strlist_elem d (method_execpaths interface) num w) [
      | none ↦ none
      | some execpath ↦ elim (get_strlist_elem d (method_signatures interface) num w) [
        | none ↦ none
        | some sig ↦ if str_eq sig signature then some execpath else none
      ]
    ]

-- The loop over the names, from a number on.
unfoldable pub program_of : ℕ → Bytes → Bytes → Bytes → ℕ → List Bytes → World → Option Bytes
unfolding program_at
program_of d interface method signature num [] w = none
program_of d interface method signature num (name ∷ rest) w =
    let later = program_of d interface method signature (num + 1) rest w in
    if str_eq name method
    then elim (program_at d interface signature num w) [
      | none ↦ later
      | some execpath ↦ some execpath
    ]
    else later

-- The loop over the interfaces of the device.
unfoldable pub find_program : ℕ → Bytes → Bytes → Bytes → List Bytes → World → Option Bytes
unfolding program_of
find_program d interface method signature [] w = none
find_program d interface method signature (ifname ∷ rest) w =
    let later = find_program d interface method signature rest w in
    if str_eq ifname interface
    then elim (program_of d interface method signature 0 (get_strlist d (method_names interface) w)
        w) [ none ↦ later | some execpath ↦ some execpath ]
    else later

-- What becomes of a message: it is for a method of the daemon's own; it is not for an interface of a device; the interface is locked;
-- an add-on gets it; a program is run. `compared_null`: a holder of a lock is compared with the
-- missing name of the caller.
pub data Verdict : Type 0 where
  built_in not_ours interface_locked compared_null : Verdict
  forwarded : ℕ → Verdict
  executed : Bytes → Verdict

-- `access_check_caller_locked_out`, also for a caller without a name: `none` where its name is read.
unfoldable pub locked_out : Site → ℕ → Option Bytes → Bytes → World → Option Bool
locked_out site d (some caller) interface w = some (caller_locked_out site d caller interface w)
locked_out site d none interface w = elim (find_computer w) [
  | none ↦ some true
  | some computer ↦ elim (holders_of d interface w) [
    | holder ∷ rest ↦ none
    | [] ↦ elim (holders_of computer (global_lock_name interface) w) [
      | holder ∷ rest ↦ none
      | [] ↦ some false
    ]
  ]
]

abbrev pub is_known : Site → Request → Bool
is_known site r = if r.local_interface then true else elim (r.sender) [
  | none ↦ false
  | some caller ↦ elim (site.get_info caller) [ none ↦ false | some ci ↦ true ]
]

abbrev manager_methods : List Bytes
manager_methods =
    codes "GetAllDevices"
    ∷ codes "GetAllDevicesWithProperties"
    ∷ codes "DeviceExists"
    ∷ codes "FindDeviceStringMatch"
    ∷ codes "FindDeviceByCapability"
    ∷ codes "NewDevice"
    ∷ codes "Remove"
    ∷ codes "CommitToGdl"
    ∷ codes "AcquireGlobalInterfaceLock"
    ∷ codes "ReleaseGlobalInterfaceLock"
    ∷ codes "SingletonAddonIsReady"
    ∷ []

abbrev device_methods : List Bytes
device_methods =
    codes "AcquireInterfaceLock"
    ∷ codes "ReleaseInterfaceLock"
    ∷ codes "IsCallerLockedOut"
    ∷ codes "IsCallerPrivileged"
    ∷ codes "IsLockedByOthers"
    ∷ codes "GetAllProperties"
    ∷ codes "SetMultipleProperties"
    ∷ codes "GetProperty"
    ∷ codes "GetPropertyString"
    ∷ codes "GetPropertyStringList"
    ∷ codes "GetPropertyInteger"
    ∷ codes "GetPropertyBoolean"
    ∷ codes "GetPropertyDouble"
    ∷ codes "SetProperty"
    ∷ codes "SetPropertyString"
    ∷ codes "SetPropertyInteger"
    ∷ codes "SetPropertyBoolean"
    ∷ codes "SetPropertyDouble"
    ∷ codes "RemoveProperty"
    ∷ codes "GetPropertyType"
    ∷ codes "PropertyExists"
    ∷ codes "AddCapability"
    ∷ codes "QueryCapability"
    ∷ codes "Lock"
    ∷ codes "Unlock"
    ∷ codes "StringListAppend"
    ∷ codes "StringListPrepend"
    ∷ codes "StringListRemove"
    ∷ codes "Rescan"
    ∷ codes "Reprobe"
    ∷ codes "EmitCondition"
    ∷ codes "ClaimInterface"
    ∷ codes "ReleaseInterface"
    ∷ codes "AddonIsReady"
    ∷ []

-- The tests of `hald_dbus_filter_handle_methods` before that for other interfaces: the methods of
-- the manager at the manager's path, those of a device, and Introspect, at any path.
unfoldable pub is_built_in : Bytes → Bytes → Bytes → Bool
is_built_in path interface method =
    (str_eq interface (codes "org.freedesktop.Hal.Manager")
      && contains method manager_methods
      && str_eq path (codes "/org/freedesktop/Hal/Manager"))
    || ((str_eq interface (codes "org.freedesktop.Hal.Device") && contains method device_methods)
        || (str_eq interface (codes "org.freedesktop.DBus.Introspectable")
            && str_eq method (codes "Introspect")))

unfoldable pub handle_interface : Site → Request → Bytes → Bytes → Bytes → Helpers → Verdict
unfolding find_program first_handler locked_out is_built_in
handle_interface site r interface method signature h =
    if is_built_in r.path interface method
    then built_in
    else if not (is_known site r)
    then not_ours
    else elim (find_device r.path h.world) [
      | none ↦ not_ours
      | some d ↦ elim (locked_out site d r.sender interface h.world) [
        | none ↦ compared_null
        | some true ↦ interface_locked
        | some false ↦ elim (first_handler r.path interface h.handlers) [
          | some connection ↦ forwarded connection
          | none ↦
              elim (find_program d interface method signature
                (get_strlist d (codes "info.interfaces") h.world) h.world) [
                  | some execpath ↦ executed execpath
                  | none ↦ not_ours
                ]
        ]
      ]
    ]
