-- ===== src/Aci/Hooks.antt =====
-- The arguments that wl2k_aci (rmsgw_aci/wl2k_aci.c) gives to the hooks before and after the update of a
-- channel, and what of them runhook (lib/runhook.c) passes on.
use rmsgw.Prelude.{
  ℕ, zero, suc, ◌<◌, ◌≡◌, refl, sym, ap, ◌∙◌, inl, inr, Bool, true, false, Option, none, some, List,
  [], ◌∷◌, ◌++◌, append_assoc, arith, if◌then◌else◌, Bool-cases, length, length-append, Str, codes,
}
use rmsgw.Channel.File.{
  Field, basecall, callsign, gridsquare, frequency, mode, autoonly, baud, power, height, gain,
  direction, hours, groupreference, servicecode, statuschecker, Channel,
}
use rmsgw.Files.Hook.{gather}

-- The fields of the channel, in their order; the password is not among them.
abbrev pub hook_fields : List Field
hook_fields =
    basecall ∷ callsign ∷ gridsquare ∷ frequency ∷ mode ∷ autoonly ∷ baud ∷ power ∷ height ∷ gain
    ∷ direction ∷ hours ∷ groupreference ∷ servicecode ∷ statuschecker ∷ []

abbrev pub values_of : Channel → List Field → List (Option Str)
values_of c [] = []
values_of c (f ∷ fields) = c.ch_field f ∷ values_of c fields

-- The arguments that both hooks get: the configuration file, the channel file, the status file, and
-- the fields.
unfoldable pub channel_args : Str → Option Str → Str → Channel → List (Option Str)
channel_args config_path channelfile statfile c =
    some config_path ∷ channelfile ∷ some statfile ∷ values_of c hook_fields

unfoldable pub pre_update_args : Str → Option Str → Str → Channel → List (Option Str)
unfolding channel_args
pre_update_args config_path channelfile statfile c =
    channel_args config_path channelfile statfile c ++ (none ∷ [])

-- `channel_updated` is "updated" when sendChannel succeeded.
unfoldable pub channel_updated : Bool → Str
channel_updated ok = if ok then codes "updated" else codes "not-updated"

unfoldable pub post_update_args : Str → Option Str → Str → Channel → Bool → List (Option Str)
unfolding channel_args channel_updated
post_update_args config_path channelfile statfile c ok =
    channel_args config_path channelfile statfile c ++ (some (channel_updated ok) ∷ none ∷ [])

-- The strings before the first NULL.
abbrev pub before_null : List (Option Str) → List Str
before_null [] = []
before_null (none ∷ given) = []
before_null (some s ∷ given) = s ∷ before_null given

-- No argument is NULL.
abbrev pub all_set : List (Option Str) → Bool
all_set [] = true
all_set (none ∷ given) = false
all_set (some s ∷ given) = all_set given

-- The strings before the first NULL are passed on, when they have their places.
gather-before_null :
    (front later : List (Option Str)) (room : ℕ)
    → length front < room
    → gather room (front ++ (none ∷ later)) ≡ some (before_null (front ++ (none ∷ later)))
unfolding gather
gather-before_null front later zero h = absurd (omega arith)
gather-before_null [] later (suc room) h = refl
gather-before_null (none ∷ front) later (suc room) h = refl
gather-before_null (some s ∷ front) later (suc room) h =
    rw (gather-before_null front later room (omega (arith, h))) refl

before_null-last :
    (front : List (Option Str)) (s : Str)
    → before_null (front ++ (some s ∷ none ∷ [])) ≡ (
        if all_set front
        then before_null (front ++ (none ∷ [])) ++ (s ∷ [])
        else before_null (front ++ (none ∷ [])))
before_null-last [] s = refl
before_null-last (none ∷ front) s = refl
before_null-last (some t ∷ front) s =
    let later = before_null-last front s in
    elim (Bool-cases (all_set front)) [
      | inl whole ↦ rw (whole, later, whole) refl
      | inr cut ↦ rw (cut, later, cut) refl
    ]

length-channel_args :
    (config_path : Str) (channelfile : Option Str) (statfile : Str) (c : Channel)
    → length (channel_args config_path channelfile statfile c) ≡ 18
unfolding channel_args
length-channel_args config_path channelfile statfile c = refl

shift_last :
    (front : List (Option Str)) (s : Str)
    → front ++ (some s ∷ none ∷ []) ≡ (front ++ (some s ∷ [])) ++ (none ∷ [])
shift_last front s = sym (append_assoc front (some s ∷ []) (none ∷ []))

-- The hook behind an update is told its result behind the arguments of the hook before it, when the
-- channel file is known and no field of the channel is NULL; otherwise both get the same arguments,
-- which end before the first NULL.
pub post_update_args_lem :
    (config_path : Str) (channelfile : Option Str) (statfile : Str) (c : Channel) (ok : Bool)
    → let args = before_null (pre_update_args config_path channelfile statfile c) in
      (gather 126 (pre_update_args config_path channelfile statfile c) ≡ some args)
      × (gather 126 (post_update_args config_path channelfile statfile c ok)
          ≡ some (
              if all_set (channel_args config_path channelfile statfile c)
              then args ++ (channel_updated ok ∷ [])
              else args))
unfolding pre_update_args post_update_args
post_update_args_lem config_path channelfile statfile c ok =
    let front = channel_args config_path channelfile statfile c in
    let u = channel_updated ok in
    let size : length front ≡ 18 = length-channel_args config_path channelfile statfile c in
    let passed : gather 126 ((front ++ (some u ∷ [])) ++ (none ∷ []))
        ≡ some (before_null ((front ++ (some u ∷ [])) ++ (none ∷ []))) =
      gather-before_null (front ++ (some u ∷ [])) [] 126
        (omega (arith, size, length-append front (some u ∷ []))) in
    (
      gather-before_null front [] 126 (omega (arith, size)),
      (rw (← shift_last front u) at passed) ∙ ap some (before_null-last front u),
    )
