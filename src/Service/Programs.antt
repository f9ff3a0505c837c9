-- ===== src/Service/Programs.antt =====
-- hald/hald_dbus.c: which program, and which add-on, gets a message for an interface of a device.
use hal.Prelude.{
  ◌∙◌, ap, sym, ℕ, zero, suc, ◌+◌, ◌≡◌, refl, true, some, List, [], ◌∷◌, Bytes, arith, str_eq,
  eq_iff, eq_refl, get_elem?, contains, Bool-cases, Option-cases, inl, inr,
}
use hal.World.{World}
use hal.Device.{get_strlist, get_strlist_elem}
use hal.Service.Helper.{
  program_at, program_of, find_program, method_names, method_execpaths, method_signatures,
}

-- The method is in the list of names, and the program at the same place of the other lists.
pub record Program (d : ℕ) (interface method signature execpath : Bytes) (w : World) : Type 0 where
  pub num : ℕ
  pub name : get_elem? (get_strlist d (method_names interface) w) num ≡ some method
  pub path : get_strlist_elem d (method_execpaths interface) num w ≡ some execpath
  pub signed : get_strlist_elem d (method_signatures interface) num w ≡ some signature

module _ (d : ℕ) (interface method signature : Bytes) (w : World) where
  program_at-found :
      (num : ℕ) (execpath : Bytes)
      → program_at d interface signature num w ≡ some execpath
      → (get_strlist_elem d (method_execpaths interface) num w ≡ some execpath)
        × (get_strlist_elem d (method_signatures interface) num w ≡ some signature)
  unfolding program_at
  program_at-found num execpath h =
      elim (Option-cases (get_strlist_elem d (method_execpaths interface) num w)) [
        | inl no_path ↦ absurd (ground (arith, no_path, h))
        | inr (path, p) ↦
            elim (Option-cases (get_strlist_elem d (method_signatures interface) num w)) [
              | inl no_sig ↦ absurd (ground (arith, p, no_sig, h))
              | inr (sig, q) ↦ elim (Bool-cases (str_eq sig signature)) [
                | inl same ↦ (
                  p ∙ ground (arith, p, q, same, h),
                  q ∙ ap some (ground (arith, eq_iff sig signature, same)),
                )
                | inr other ↦ absurd (ground (arith, p, q, other, h))
              ]
            ]
      ]

  program_at-there :
      (num : ℕ) (execpath : Bytes)
      → get_strlist_elem d (method_execpaths interface) num w ≡ some execpath
      → get_strlist_elem d (method_signatures interface) num w ≡ some signature
      → program_at d interface signature num w ≡ some execpath
  unfolding program_at
  program_at-there num execpath p q = rw (p, q, eq_refl signature, program_at) refl

  -- The loop from a number on finds a program of a name of the rest.
  program_of-found :
      (start : ℕ) (names : List Bytes) (execpath : Bytes)
      → program_of d interface method signature start names w ≡ some execpath
      → (j : ℕ) × (get_elem? names j ≡ some method)
        × (program_at d interface signature (start + j) w ≡ some execpath)
  unfolding program_of
  program_of-found start [] execpath h = absurd (ground arith)
  program_of-found start (name ∷ rest) execpath h = elim (Bool-cases (str_eq name method)) [
    | inr other ↦ later (program_of-found (start + 1) rest execpath (ground (arith, other, h)))
    | inl same ↦ elim (Option-cases (program_at d interface signature start w)) [
      | inl nothing ↦
          later (program_of-found (start + 1) rest execpath (ground (arith, same, nothing, h)))
      | inr (path, p) ↦
          let start_here : start + 0 ≡ start = omega arith in
          (
            zero,
            ap some (ground (arith, eq_iff name method, same)),
            ap (λ n. program_at d interface signature n w) start_here
                ∙ p
                ∙ ground (arith, same, p, h),
          )
    ]
  ]
    where
      later :
          (j : ℕ) × (get_elem? rest j ≡ some method)
            × (program_at d interface signature (start + 1 + j) w ≡ some execpath)
          → (j : ℕ) × (get_elem? (name ∷ rest) j ≡ some method)
            × (program_at d interface signature (start + j) w ≡ some execpath)
      later (j, named, found) =
          let place : start + suc j ≡ start + 1 + j = omega arith in
          (suc j, named, ap (λ n. program_at d interface signature n w) place ∙ found)

  program_of-there :
      (start j : ℕ) (names : List Bytes) (execpath : Bytes)
      → get_elem? names j ≡ some method
      → program_at d interface signature (start + j) w ≡ some execpath
      → (path : Bytes) × (program_of d interface method signature start names w ≡ some path)
  unfolding program_of
  program_of-there start j [] execpath named found = absurd (ground arith)
  program_of-there start zero (name ∷ rest) execpath named found =
      let same : str_eq name method ≡ true = ground (arith, eq_iff name method, named) in
      let start_here : start + 0 ≡ start = omega arith in
      let here : program_at d interface signature start w ≡ some execpath =
        ap (λ n. program_at d interface signature n w) (sym start_here) ∙ found in
      (execpath, rw (same, here, program_of) refl)
  program_of-there start (suc j) (name ∷ rest) execpath named found =
      let place : start + 1 + j ≡ start + suc j = omega arith in
      let (path, later) =
        program_of-there (start + 1) j rest execpath named
          (ap (λ n. program_at d interface signature n w) place ∙ found) in
      elim (Bool-cases (str_eq name method)) [
        | inr other ↦ (path, rw (other, program_of) later)
        | inl same ↦ elim (Option-cases (program_at d interface signature start w)) [
          | inl nothing ↦ (path, rw (same, nothing, program_of) later)
          | inr (first, p) ↦ (first, rw (same, p, program_of) refl)
        ]
      ]

  from_zero :
      (j : ℕ) → program_at d interface signature (0 + j) w ≡ program_at d interface signature j w
  from_zero j =
      let same : 0 + j ≡ j = omega arith in ap (λ n. program_at d interface signature n w) same

  -- A program that is found for a message stands in the interface's list of programs where the
  -- method stands in its list of names and the signature in its list of signatures, and the interface
  -- is one of those given.
  pub find_program-Program :
      (ifs : List Bytes) (execpath : Bytes)
      → find_program d interface method signature ifs w ≡ some execpath
      → (contains interface ifs ≡ true) × Program d interface method signature execpath w
  unfolding find_program contains
  find_program-Program [] execpath h = absurd (ground arith)
  find_program-Program (ifname ∷ rest) execpath h =
      let names = get_strlist d (method_names interface) w in
      elim (Bool-cases (str_eq ifname interface)) [
        | inr other ↦
            let (listed, program) = find_program-Program rest execpath (ground (arith, other, h)) in
            (rw other listed, program)
        | inl same ↦ elim (Option-cases (program_of d interface method signature 0 names w)) [
          | inl nothing ↦
              let (listed, program) =
                find_program-Program rest execpath (ground (arith, same, nothing, h)) in
              (rw same refl, program)
          | inr (path, p) ↦
              let (j, named, found) =
                program_of-found 0 names execpath (p ∙ ground (arith, same, p, h)) in
              let (path_there, signed) = program_at-found j execpath (sym (from_zero j) ∙ found) in
              (rw same refl, record { num = j; name = named; path = path_there; signed = signed })
        ]
      ]

  find_program-there :
      (ifs : List Bytes) (execpath : Bytes)
      → contains interface ifs ≡ true
      → Program d interface method signature execpath w
      → (path : Bytes) × (find_program d interface method signature ifs w ≡ some path)
  unfolding find_program contains
  find_program-there [] execpath listed program = absurd (ground arith)
  find_program-there (ifname ∷ rest) execpath listed program =
      let names = get_strlist d (method_names interface) w in
      elim (Bool-cases (str_eq ifname interface)) [
        | inr other ↦
            let (path, later) =
              find_program-there rest execpath (ground (arith, other, listed)) program in
            (path, rw (other, find_program) later)
        | inl same ↦
            let (path, found) = program_of-there 0 program.num names execpath program.name (
              from_zero program.num
              ∙ program_at-there program.num execpath program.path program.signed) in
            (path, rw (same, found, find_program) refl)
      ]

  -- Where the interface is one of those given, and one of its programs is for the method and the
  -- signature of a message, a program for them is found.
  pub find_program_lem :
      (ifs : List Bytes) (execpath : Bytes)
      → contains interface ifs ≡ true
      → Program d interface method signature execpath w
      → (path : Bytes) × (find_program d interface method signature ifs w ≡ some path)
        × Program d interface method signature path w
  find_program_lem ifs execpath listed program =
      let (path, found) = find_program-there ifs execpath listed program in
      (path, found, (find_program-Program ifs path found).1)
