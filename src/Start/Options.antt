-- ===== src/Start/Options.antt =====
-- The loops over `getopt` in the main functions of rmsgw/rmsgw.c, rmsgw_aci/rmsgw_aci.c and
-- rmsgwmon/rmsgwmon.c. What `getopt` returns is an argument: a list of letters with their `optarg`,
-- where it returns `?` for an unknown option or a missing argument. `strdup` succeeds.
use rmsgw.Prelude.{
  ℕ, zero, suc, ◌+◌, ◌≤◌, ◌≡◌, refl, ◌⊎◌, inl, inr, Bool, true, false, not, ◌&&◌, ◌||◌, Option,
  none, some, List, [], ◌∷◌, arith, ltb, ◌==◌, if◌then◌else◌, Bool-cases, length, Str, ℤ, pos,
  negsuc, atoi,
}

-- The variables that the options set; `none` is NULL.
pub record Options : Type 0 where
  pub configfilearg : Option Str
  pub logmaskarg : Option Str
  pub gwcallarg : Option Str
  pub bannerfilearg : Option Str
  pub ax25port : Option Str
  pub paclen_arg : ℤ

-- The end of the loop; `misused` and `helped` end the process.
pub data Opts : Type 0 where
  parsed : Options → Opts
  helped : Opts
  misused : Opts

abbrev pub dfltpaclen : ℕ
dfltpaclen = 128

abbrev pub no_options : Options
no_options = record {
  configfilearg = none;
  logmaskarg = none;
  gwcallarg = none;
  bannerfilearg = none;
  ax25port = none;
  paclen_arg = pos dfltpaclen;
}

-- The variables after an option of rmsgw; `none` for the default case.
unfoldable pub gw_option : ℕ → Str → Options → Option Options
gw_option opt optarg o =
    if opt == b'c'
    then some (record o { configfilearg = some optarg })
    else if opt == b'o' || opt == b'p'
    then some (record o { paclen_arg = atoi optarg })
    else if opt == b'l'
    then some (record o { logmaskarg = some optarg })
    else if opt == b'g'
    then some (record o { gwcallarg = some optarg })
    else if opt == b'b'
    then some (record o { bannerfilearg = some optarg })
    else if opt == b'P'
    then some (record o { ax25port = some optarg })
    else none

-- The variables after an option of rmsgw_aci.
unfoldable pub aci_option : ℕ → Str → Options → Option Options
aci_option opt optarg o =
    if opt == b'c'
    then some (record o { configfilearg = some optarg })
    else if opt == b'l'
    then some (record o { logmaskarg = some optarg })
    else if opt == b'g'
    then some (record o { gwcallarg = some optarg })
    else none

-- A loop, with what it does at an option other than `h`.
unfoldable pub getopt_loop : (ℕ → Str → Options → Option Options) → List (ℕ × Str) → Options → Opts
getopt_loop step [] o = parsed o
getopt_loop step ((opt, optarg) ∷ opts) o =
    if opt == b'h'
    then helped
    else elim (step opt optarg o) [ none ↦ misused | some o' ↦ getopt_loop step opts o' ]

-- `if (paclen < 1) paclen = DFLTPACLEN`
unfoldable pub sane_paclen : ℤ → ℕ
sane_paclen (pos zero) = dfltpaclen
sane_paclen (pos (suc n)) = suc n
sane_paclen (negsuc n) = dfltpaclen

pub sane_paclen_lem : (paclen : ℤ) → 1 ≤ sane_paclen paclen
unfolding sane_paclen
sane_paclen_lem (pos zero) = omega arith
sane_paclen_lem (pos (suc n)) = omega arith
sane_paclen_lem (negsuc n) = omega arith

-- The options of rmsgwmon: the interval, the text copied into `logmask`, and whether to dump. `none` is
-- a write behind the 64 bytes of `logmask`.
pub record MonOptions : Type 0 where
  pub interval : ℤ
  pub logmask : Str
  pub dump : ℕ

unfoldable pub mon_option : ℕ → Str → MonOptions → Option MonOptions
mon_option opt optarg o =
    if opt == b'i'
    then some (record o { interval = atoi optarg })
    else if opt == b'l'
    then if ltb (length optarg) 64 then some (record o { logmask = optarg }) else none
    else if opt == b'd'
    then some (record o { dump = o.dump + 1 })
    else some o

unfoldable pub mon_options : List (ℕ × Str) → MonOptions → Option MonOptions
unfolding mon_option
mon_options [] o = some o
mon_options ((opt, optarg) ∷ opts) o = elim (mon_option opt optarg o) [
  | none ↦ none
  | some o' ↦ mon_options opts o'
]

-- Every argument of -l leaves room for its null in the 64 bytes.
abbrev pub all_fit : List (ℕ × Str) → Bool
all_fit [] = true
all_fit ((opt, optarg) ∷ opts) = (not (opt == b'l') || ltb (length optarg) 64) && all_fit opts

abbrev pub is_overrun : Option MonOptions → Bool
is_overrun none = true
is_overrun (some o) = false

-- What one option does.
mon_option_lem :
    (opt : ℕ) (optarg : Str) (o : MonOptions)
    → ((mon_option opt optarg o ≡ none) × ((not (opt == b'l') || ltb (length optarg) 64) ≡ false))
      ⊎ ((o' : MonOptions) × (mon_option opt optarg o ≡ some o')
          × ((not (opt == b'l') || ltb (length optarg) 64) ≡ true))
unfolding mon_option
mon_option_lem opt optarg o = elim (Bool-cases (opt == b'i')) [
  | inl e ↦ let other : (opt == b'l') ≡ false = ground arith in rw (e, other) (inr (_, refl, refl))
  | inr e ↦ elim (Bool-cases (opt == b'l')) [
    | inl k ↦ elim (Bool-cases (ltb (length optarg) 64)) [
      | inl short ↦ rw (e, k, short) (inr (_, refl, refl))
      | inr long ↦ rw (e, k, long) (inl (refl, refl))
    ]
    | inr k ↦ elim (Bool-cases (opt == b'd')) [
      | inl d ↦ rw (e, k, d) (inr (_, refl, refl))
      | inr d ↦ rw (e, k, d) (inr (_, refl, refl))
    ]
  ]
]

-- The options of the monitor are read to their end exactly when each argument of -l fits its buffer;
-- otherwise bytes are written behind it.
pub mon_options-all_fit :
    (opts : List (ℕ × Str)) (o : MonOptions) → is_overrun (mon_options opts o) ≡ not (all_fit opts)
unfolding mon_options
mon_options-all_fit [] o = refl
mon_options-all_fit ((opt, optarg) ∷ opts) o = elim (mon_option_lem opt optarg o) [
  | inl (overrun, long) ↦ rw (overrun, mon_options, long) refl
  | inr (o', next, short) ↦ rw (next, mon_options, short) (mon_options-all_fit opts o')
]
