-- ===== src/Lib.antt =====
-- The HAL daemon: devices with typed properties, device stores with an index of string properties,
-- named locks on devices, the rules of device information files, and the requests over D-Bus.
--
-- The parts. A device (hald/device.c) is a table from property keys to typed values with a UDI and
-- counters of add-ons; every change of a property emits signals. A device store
-- (hald/device_store.c) holds devices, connects five handlers to the signals of each, keeps an
-- index from property values to devices for chosen keys, and answers searches. The daemon has two
-- stores, the global and the temporary list (hald/hald.c). The access checks (hald/access-check.c)
-- read the stores and the locks. The rules of the device information files (hald/device_info.c) match
-- and change devices, in the stores and by the setters. The D-Bus service (hald/hald_dbus.c) finds the
-- device of a request in the stores, asks the access checks, and calls the operations of devices and
-- locks. A named lock of a device is kept in properties of the device itself, so that every lock operation goes through the property setters
-- and their signals; a global set of locked devices is what the release of a vanished client walks.
--
-- The files.
--   Prelude      bytes, lists, tables keyed by strings (GHashTable), Boolean tests
--   Property     HalProperty: `hal_property_get_*`, `hal_property_strlist_*`, `hal_property_to_string`
--     Utf8       the loop of `hal_property_set_string` that replaces invalid bytes
--     Strlists   the removal of a string from a list
--   World        the shared state: heap of devices, stores, connections, locked devices; the
--                lookup of a property
--     Index      the string index, `property_index_modify_string`
--     Emit       `g_signal_emit` and the handlers of device_store.c
--     Kept, Listed, Owners   what the handlers leave as it was, and what the index lists after them
--     Consistent the invariant that ties the index to the properties
--   Device       reads of a device: `hal_device_property_get_*`, list iteration, add-on counters
--     Set        `hal_device_property_set_*`, `hal_device_property_remove`, `hal_device_copy_property`
--     Strlist    `hal_device_property_strlist_*`, `hal_device_add_capability`
--     Merge      `hal_device_merge_with_rewrite`
--     Keep       each of these keeps the invariant
--     Print      `hal_device_property_get_as_string`
--     Dangling   the setter frees a string that keys an entry of an index
--     Quiet, Place, Failing   what the operations leave of the stores' lists and of the UDIs, and that
--                one that fails changes nothing
--     Find       what is found under a key after an operation
--     Locked     what an operation leaves of the locked set
--   Store        `hal_device_store_*`; Check, Members, Keep and Search hold the proofs
--   Lock         `hal_device_acquire_lock`, `hal_device_release_lock`,
--                `hal_device_client_disconnected` and the queries
--     Key        the property keys of locks
--     View       the specification: the state of a lock, and how properties represent it
--     Refine, Entered, Acquire, Leaving, Left, Release   the operations implement the specification
--     Sequence, Client           several operations one after the other
--     Keep, Place     the lock operations keep the invariant of the indexes, and the UDIs
--   Access       hald/access-check.c: privileged callers, access to a device, and the two tests of
--                locks; over the stores and locks above
--     Locked     the tests as conditions on the holders
--     Granted    the tests after a lock is granted
--   Rules        hald/rule.h, and the walk of hald/device_info.c over the rules of a cache:
--                `di_next`, `di_jump`, `rules_match_and_merge_device`
--     Text, Path, Match, Merge, Search   the C functions that it uses; `resolve_udiprop_path`;
--                `handle_match`; `handle_merge`; `di_search_and_merge`
--     Tree, Sections   the rules as nested blocks, and that the walk does what the blocks say
--     Compare, Keep   the comparisons of numbers; the invariant of the indexes
--   Service      hald/hald_dbus.c: requests and replies, and the shape of the handlers
--     Manager, Properties, Change, Interface, Owner   the handlers: `manager_*`, the readers and the
--                changes of properties, the locks of interfaces, the lock of a device
--     Methods    `hald_dbus_filter_handle_methods`, for the methods that are modelled
--     Every      a relation between the state before and after that each operation meets holds of
--                every method; Keep, Refused, Privilege and Place use it or its shape
--     Cases, Held, Release   the ends of a request to lock a device; the lock taken; the lock given back
--     Sequence, Roundtrip, Matches   several requests; the answers
--     Removal    `manager_remove`
--     Helper, Programs, Claims   the interfaces that programs and add-ons implement
--   System       all operations as one step type, the states that sequences of them reach
--   Tests        runs on concrete devices
--
-- A device is a number, its pointer. An operation that changes state is a function from a world to
-- a result and a world. Signals run their handlers at the place of the emission, in the order of
-- connection; the events that a store passes on are recorded in the world. A string is a list of
-- bytes. A double is its IEEE 754 bit pattern. Integers are as the callers give them; the counters
-- of add-ons are not bounded.
--
-- Fuel. `sanitize` runs the replacement loop for one round more than the text has bytes: each round
-- moves the end of the valid part on, which is what is documented of `g_utf8_validate`, a parameter
-- of the model (the record `Utf8`). `decimal` runs one round more than the number, which has fewer
-- digits. `walk` has a round for each rule of the cache, and two more, which the theorem on sections
-- shows to be enough. The depth of a search bounds how deep spawned devices spawn others in turn: the
-- code has no bound, and the theorems are for any depth. All other loops are structural.
--
-- Bounds. A lock's property keys are cut to 255 bytes, as in the code; the theorems on locks are for
-- names of at most 228 bytes, for which no key is cut.
--
-- Freed memory. The index tables do not own their keys: the key of an entry is the string of the device
-- that made the entry. The world records these owners, and its flag `may_dangle` is set when such a
-- string is freed, by a setter, by the removal of a property, or with a device when a store drops its
-- reference, which may be the last; it is set, too, by a merge of a device into itself. What is said of
-- the indexes after an operation is said for worlds whose flag is not set. No file of hald indexes
-- a key at present. The flag `is_corrupt` of the service's state is set when the table of the services
-- with locks runs `g_object_unref` on a node of a list.
--
-- Not modelled: the PolicyKit build of the access checks, and the cache of caller information
-- (hald/ci-tracker.c), which the record `Site` stands for; reference counts and finalisation; GObject
-- type registration; logs and the two print functions; NULL passed where the code asserts that there
-- is none. Of the rules: the XML parser and the
-- builder of the cache (hald/create_cache.c), the mapping of the file (hald/mmap_cache.c), the value
-- of `errno` and the whole-number rules of `strtol`. A call out for a spawned device that
-- has programs to call is recorded, and `callouts_add_done` is what its end does; a device without such
-- programs is moved at once. Nothing is shown of the indexes after a spawn. Of D-Bus: the texts of errors, the order in which a table
-- is walked, signals and the atomic updates that hold them back, requests whose handler needs a sender
-- and that have none; the methods NewDevice, CommitToGdl, Rescan, Reprobe, EmitCondition,
-- AddonIsReady and SingletonAddonIsReady, what a helper program or an add-on replies, and
-- introspection. The rest of the daemon (hald/hald_runner.c and the backends
-- hald/linux, hald/freebsd, hald/solaris, hald/dummy), the libraries libhal and libhal-storage, the
-- programs of tools, hald-runner, partutil, the add-ons and the probers.
pub mod Prelude
pub mod Property
pub mod World
pub mod Device
pub mod Store
pub mod Lock
pub mod Access
pub mod Rules
pub mod Service
pub mod System
pub mod Tests
