-- ===== src/Tests/Devices.antt =====
-- Runs of the operations on the values and properties of hald/device.c.
use hal.Prelude.{
  true, some, lookup, inl, ◌≡◌, refl, none, some, [], ◌∷◌, Bytes, codes, contains, remove_first,
  length, get_elem?, ◌⊎◌,
}
use hal.World.{property_find}
use hal.Device.{device_new}
use hal.Device.Set.{set_string}
use hal.Device.Find.{entry, text_after, find-set_string}
use hal.Property.{string, strlist, strlist_remove}
use hal.Property.Utf8.{sanitize, sanitize-valid}
use hal.Property.Strlists.{strlist_remove_lem}
use hal.Tests.Fixture.{ascii, ascii_validate, subsystem, one_device}

-- Two bytes that are not ASCII.
abbrev name : Bytes
name = b'a' ∷ 195 ∷ 169 ∷ b'b' ∷ []

sanitize-valid_example :
    (ascii_validate (sanitize ascii name) ≡ none)
    × (length (sanitize ascii name) ≡ length name)
    × ((get_elem? (sanitize ascii name) 1 ≡ get_elem? name 1)
        ⊎ (get_elem? (sanitize ascii name) 1 ≡ some b'?'))
sanitize-valid_example = sanitize-valid ascii name 1

sanitize-name : sanitize ascii name ≡ codes "a??b"
unfolding sanitize
sanitize-name = refl

strlist_remove_lem_example :
    strlist_remove (codes "b") (strlist (codes "a" ∷ codes "b" ∷ codes "b" ∷ [])) ≡ (
      contains (codes "b") (codes "a" ∷ codes "b" ∷ codes "b" ∷ []),
      strlist (remove_first (codes "b") (codes "a" ∷ codes "b" ∷ codes "b" ∷ [])),
    )
strlist_remove_lem_example = strlist_remove_lem (codes "b") (codes "a" ∷ codes "b" ∷ codes "b" ∷ [])

no_subsystem : property_find 0 subsystem one_device ≡ none
unfolding property_find device_new lookup
no_subsystem = refl

find-set_string_example :
    ((set_string ascii 0 subsystem (some name) one_device).0 ≡ true)
    × (property_find 0 subsystem (set_string ascii 0 subsystem (some name) one_device).1
        ≡ entry 0 subsystem
            (some (string (text_after ascii 0 subsystem (some name) one_device)))
            0
            subsystem
            one_device)
find-set_string_example =
    find-set_string ascii 0 subsystem (some name) 0 subsystem one_device (inl no_subsystem)
