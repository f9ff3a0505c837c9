-- ===== src/Rules/Path.antt =====
-- hald/device_info.c: `resolve_udiprop_path`, from a path of an .fdi file to a device and a property.
use hal.Prelude.{
  ℕ, Bool, true, false, Option, none, some, List, [], ◌∷◌, ◌==◌, if◌then◌else◌, Bytes, str_eq, take,
}
use hal.World.{World, gdl, tdl}
use hal.World.Index.{device_get_string}
use hal.Device.{get_udi}
use hal.Store.{store_find}
use hal.Rules.Text.{strsplit, hal_path_max}

-- The device with the UDI, in the global list or else in the temporary one.
unfoldable pub find_device : Bytes → World → Option ℕ
find_device udi w = elim (store_find gdl udi w) [ none ↦ store_find tdl udi w | some d ↦ some d ]

-- The UDI that a token leads to: `@key` is the value of the device's property.
unfoldable pub follow_token : ℕ → Bytes → World → Option Bytes
follow_token d [] w = some []
follow_token d (c ∷ token) w =
    if c == b'@'
    then elim (device_get_string d token w) [
      | none ↦ none
      | some newudi ↦ some (take hal_path_max newudi)
    ]
    else some (take hal_path_max (c ∷ token))

-- The loop over the tokens: the last one names the property.
unfoldable pub follow_tokens : Bytes → List Bytes → World → Option (Bytes × Bytes)
unfolding find_device follow_token
follow_tokens udi [] w = none
follow_tokens udi (token ∷ []) w = elim (find_device udi w) [
  | none ↦ none
  | some d ↦ some (udi, take hal_path_max token)
]
follow_tokens udi (token ∷ next ∷ more) w = elim (find_device udi w) [
  | none ↦ none
  | some d ↦ elim (follow_token d token w) [
    | none ↦ none
    | some udi' ↦ follow_tokens udi' (next ∷ more) w
  ]
]

unfoldable pub has_colon : Bytes → Bool
has_colon [] = false
has_colon (c ∷ s) = if c == b':' then true else has_colon s

-- `resolve_udiprop_path_old`, for a path with a ':'.
unfoldable pub resolve_udiprop_path_old : Bytes → Bytes → World → Option (Bytes × Bytes)
unfolding follow_tokens strsplit
resolve_udiprop_path_old path source_udi w = elim (strsplit b':' 64 path) [
  | [] ↦ some (take hal_path_max source_udi, take hal_path_max path)
  | token ∷ [] ↦ some (take hal_path_max source_udi, take hal_path_max path)
  | token ∷ next ∷ rest ↦ follow_tokens (take hal_path_max source_udi) (token ∷ next ∷ rest) w
]

unfoldable pub resolve_udiprop_path : Bytes → Bytes → World → Option (Bytes × Bytes)
unfolding has_colon resolve_udiprop_path_old
resolve_udiprop_path path source_udi w =
    if has_colon path then resolve_udiprop_path_old path source_udi w else some (source_udi, path)

-- The device and the property that a path names, for a rule on the device `d`.
unfoldable pub resolve_device : Bytes → ℕ → World → Option (ℕ × Bytes)
unfolding resolve_udiprop_path find_device
resolve_device path d w = elim (resolve_udiprop_path path (get_udi d w) w) [
  | none ↦ none
  | some (udi, key) ↦
      if str_eq udi (get_udi d w)
      then some (d, key)
      else elim (find_device udi w) [ none ↦ none | some e ↦ some (e, key) ]
]
