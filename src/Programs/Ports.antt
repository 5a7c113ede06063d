-- ===== src/Programs/Ports.antt =====
-- With which arguments the disk of step1/disk.cpp is launched.
use coursework_file_system.Prelude.{
  ℕ, ◌≤◌, ◌<◌, ◌≡◌, ◌⊎◌, inl, inr, refl, Bool, true, false, List, [], ◌∷◌, ◌++◌, ◌-◌, ◌%◌, ◌^◌,
  ◌&&◌, ◌==◌, ◌≢◌, sym, ap, ◌∙◌, subst, length, take, drop, leb, take-append-drop, arith,
  Bool-cases, Option-cases,
}
use coursework_file_system.Bytes.{Bytes}
use coursework_file_system.CString.{same_text}
use coursework_file_system.CString.Laws.{eq_of_same_text}
use coursework_file_system.Shell.{chars}
use coursework_file_system.Programs.{
  Start, usage, crash, invalid_port, malformed, launch, Options, defaults, stoull, Flag, flag_c,
  flag_s, flag_b, flag_d, flag_p, has_suffix, is_empty, is_port, set_flag, flag_before, is_name,
  checked, disk_args,
}

-- What the checks of `main` leave of the values that a disk is launched with.
abbrev pub Launchable : Start Options → Type 0
Launchable usage = Unit {0}
Launchable crash = Unit {0}
Launchable (invalid_port n) = Unit {0}
Launchable (malformed arg) = Unit {0}
Launchable (launch o) =
    (0 < o.cylinders)
    × (0 < o.sectors_per_cylinder)
    × (1000 ≤ o.port)
    × (o.port ≤ 65535)
    × ((name : Bytes) × (o.filename ≡ name ++ chars ".raw"))

abbrev PortFits : Options → Type 0
PortFits o = (o.port ≡ 0) ⊎ ((1000 ≤ o.port) × (o.port ≤ 65535))

abbrev options_of : Options → Start Options → Options
options_of o (launch o') = o'
options_of o _ = o

positive : (n : ℕ) → (n == 0) ≡ false → 0 < n
positive n h = ground arith

ends_raw :
    (name : Bytes) → has_suffix name ≡ true → (front : Bytes) × (name ≡ front ++ chars ".raw")
ends_raw name h = (
  take (length name - 4) name,
  sym (take-append-drop (length name - 4) name)
      ∙ ap (λ rest. take (length name - 4) name ++ rest)
          (eq_of_same_text (drop (length name - 4) name) (chars ".raw") (
            right (leb 4 (length name)) (same_text (drop (length name - 4) name) (chars ".raw"))
              h)),
)
  where
    right : (a b : Bool) → (a && b) ≡ true → b ≡ true
    right true b e = e
    right false b e = cc

checked-Launchable : (o : Options) → PortFits o → Launchable (checked o)
checked-Launchable o fits = elim (Bool-cases (o.cylinders == 0)) [
  | inl e ↦ rw e tt
  | inr c0 ↦ elim (Bool-cases (o.sectors_per_cylinder == 0)) [
    | inl e ↦ rw (c0, e) tt
    | inr s0 ↦ elim (Bool-cases (o.port == 0)) [
      | inl e ↦ rw (c0, s0, e) tt
      | inr p0 ↦ elim (Bool-cases (is_empty o.filename)) [
        | inl e ↦ rw (c0, s0, p0, e) tt
        | inr f0 ↦
            let cylinders = positive o.cylinders c0 in
            let sectors = positive o.sectors_per_cylinder s0 in
            let port : (1000 ≤ o.port) × (o.port ≤ 65535) =
              omega (arith, fits, positive o.port p0) in
            elim (Bool-cases (has_suffix o.filename)) [
              | inl h ↦
                  rw (c0, s0, p0, f0, h) (cylinders, sectors, port.0, port.1, ends_raw o.filename h)
              | inr h ↦
                  rw (c0, s0, p0, f0, h) (cylinders, sectors, port.0, port.1, (o.filename, refl))
            ]
      ]
    ]
  ]
]

-- The number of a flag leaves a port that fits.
set_flag-PortFits :
    (flag : Flag) (n : ℕ) (o o' : Options)
    → PortFits o
    → set_flag flag n o ≡ launch o'
    → PortFits o'
set_flag-PortFits flag_c n o o' fits h = subst PortFits (ap (options_of o) h) fits
set_flag-PortFits flag_s n o o' fits h = subst PortFits (ap (options_of o) h) fits
set_flag-PortFits flag_b n o o' fits h = subst PortFits (ap (options_of o) h) fits
set_flag-PortFits flag_d n o o' fits h = subst PortFits (ap (options_of o) h) fits
set_flag-PortFits flag_p n o o' fits h = elim (Bool-cases (is_port n)) [
  | inl e ↦
      let run : set_flag flag_p n o ≡ launch (record o { port = n % 2 ^ 16 }) = rw e refl in
      subst PortFits (ap (options_of o) (sym run ∙ h)) (inr (in_range n e))
  | inr e ↦
      let run : set_flag flag_p n o ≡ invalid_port n = rw e refl in
      absurd (not_launched (sym run ∙ h))
]
  where
    in_range : (n : ℕ) → is_port n ≡ true → (1000 ≤ n % 2 ^ 16) × (n % 2 ^ 16 ≤ 65535)
    in_range n e = ground arith

    not_launched : {p : ℕ} {o : Options} → invalid_port p ≢ launch o
    not_launched e = cc

abbrev go_on : List Bytes → Start Options → Start Options
go_on rest usage = usage
go_on rest crash = crash
go_on rest (invalid_port p) = invalid_port p
go_on rest (malformed a) = malformed a
go_on rest (launch o) = disk_args rest o

flagged :
    (rest : List Bytes) (step : Start Options)
    → ((o : Options) → step ≡ launch o → Launchable (disk_args rest o))
    → Launchable (go_on rest step)
flagged rest usage h = tt
flagged rest crash h = tt
flagged rest (invalid_port p) h = tt
flagged rest (malformed a) h = tt
flagged rest (launch o) h = h o refl

disk_args-PortFits : (args : List Bytes) (o : Options) → PortFits o → Launchable (disk_args args o)
unfolding disk_args
disk_args-PortFits [] o fits = checked-Launchable o fits
disk_args-PortFits (arg ∷ []) o fits = elim (Bool-cases (is_name arg)) [
  | inl e ↦ rw e (checked-Launchable (record o { filename = arg }) fits)
  | inr e ↦ rw e tt
]
disk_args-PortFits (arg ∷ next ∷ rest) o fits = elim (Option-cases (flag_before arg next)) [
  | inl e ↦ elim (Bool-cases (is_name arg)) [
    | inl named ↦
        rw (disk_args, e, named)
          (disk_args-PortFits (next ∷ rest) (record o { filename = arg }) fits)
    | inr unnamed ↦ rw (disk_args, e, unnamed) tt
  ]
  | inr (flag, e) ↦ elim (Option-cases (stoull next)) [
    | inl f ↦ rw (disk_args, e, f) tt
    | inr (n, f) ↦
        rw (disk_args, e, f)
          (flagged rest (set_flag flag n o)
            (λ o' h. disk_args-PortFits rest o' (set_flag-PortFits flag n o o' fits h)))
  ]
]

-- Whatever the arguments of step1/disk.cpp are: a disk is launched only with at least one cylinder
-- and one sector in it, with a port from 1000 to 65535, and with a file whose name ends in ".raw".
pub disk_args-Launchable : (args : List Bytes) → Launchable (disk_args args defaults)
disk_args-Launchable args = disk_args-PortFits args defaults (inl refl)
