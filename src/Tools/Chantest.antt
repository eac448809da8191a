-- ===== src/Tools/Chantest.antt =====
-- devutils/rmsgwchantest.c: the channels of a file as lines. What `printf` makes of NULL is an argument.
use rmsgw.Prelude.{
  ℕ, zero, suc, ◌<◌, refl, ◌≢◌, inl, inr, Option, none, some, List, [], ◌∷◌, ◌++◌, arith, length,
  Str, codes,
}
use rmsgw.Channel.File.{
  Field, basecall, callsign, gridsquare, frequency, mode, autoonly, baud, power, height, gain,
  direction, hours, groupreference, servicecode, statuschecker, Channel, Node, Doc, ChanState, Got,
  got, no_more, crashed, getchanent,
}
use rmsgw.Channel.Walk.{IsOpen, getchanent-Forward}
use rmsgw.Channel.File.{following}
use rmsgw.Aci.Client.{default_service}

-- The fields in the order in which they are printed, with the titles before them.
abbrev pub titles : List (Field × Str)
titles =
    (basecall, codes "\t      basecall = ")
    ∷ (callsign, codes "\t      callsign = ")
    ∷ (gridsquare, codes "\t    gridsquare = ")
    ∷ (frequency, codes "\t     frequency = ")
    ∷ (mode, codes "\t          mode = ")
    ∷ (autoonly, codes "\t      autoonly = ")
    ∷ (baud, codes "\t          baud = ")
    ∷ (power, codes "\t         power = ")
    ∷ (height, codes "\t        height = ")
    ∷ (gain, codes "\t          gain = ")
    ∷ (direction, codes "\t     direction = ")
    ∷ (hours, codes "\t         hours = ")
    ∷ (groupreference, codes "\tgroupreference = ")
    ∷ (servicecode, codes "\t   servicecode = ")
    ∷ (statuschecker, codes "\t statuschecker = ")
    ∷ []

abbrev pub shown : Str → Option Str → Str
shown null none = null
shown null (some s) = s

abbrev pub field_lines : Str → Channel → List (Field × Str) → List Str
field_lines null c [] = []
field_lines null c ((f, title) ∷ rest) =
    (title ++ shown null (c.ch_field f)) ∷ field_lines null c rest

-- The lines of a channel behind a title; an active mark that is NULL is shown as the code says.
unfoldable pub channel_lines : Str → Str → Channel → List Str
channel_lines null title c =
    (title
      ++ (shown null c.ch_name
          ++ (codes "' (active=" ++ (shown (codes "(null)") c.ch_active ++ codes ")"))))
    ∷ field_lines null c titles

-- The lines, and whether the loop came to its end, met a fault, or had too little fuel.
pub data Listing : Type 0 where
  listed_all : List Str → Listing
  broke_off : Listing
  out_of_fuel : Listing

abbrev pub before : List Str → Listing → Listing
before lines (listed_all later) = listed_all (lines ++ later)
before lines broke_off = broke_off
before lines out_of_fuel = out_of_fuel

abbrev pub list_entry : Str → (ChanState → Listing) → Got → Listing
list_entry null next crashed = broke_off
list_entry null next (no_more st) = listed_all []
list_entry null next (got st) =
    let c = default_service st.curent in
    before (channel_lines null (codes "Found channel '") c) (next (record st { curent = c }))

-- `while ((ch = getchanent()) != NULL)`; the entry is static, so that a default service stays in it.
unfoldable pub list_channels : Str → ℕ → Option Doc → ChanState → Listing
unfolding channel_lines getchanent default_service
list_channels null zero parsed st = out_of_fuel
list_channels null (suc fuel) parsed st =
    list_entry null (list_channels null fuel parsed) (getchanent parsed st)

before-fuel : (lines : List Str) (x : Listing) → x ≢ out_of_fuel → before lines x ≢ out_of_fuel
before-fuel lines (listed_all later) h e = cc
before-fuel lines broke_off h e = cc
before-fuel lines out_of_fuel h e = h refl

-- With more fuel than there are nodes left in the file, the listing comes to an end.
list_channels-fuel :
    (null : Str) (fuel : ℕ) (parsed : Option Doc) (st : ChanState) (root : List Node)
    → IsOpen root st
    → length (following root st.cur_node) < fuel
    → list_channels null fuel parsed st ≢ out_of_fuel
unfolding list_channels
list_channels-fuel null zero parsed st root o b = λ e. absurd (omega arith)
list_channels-fuel null (suc fuel) parsed st root o b = elim (getchanent-Forward root parsed st o) [
  | inl bad ↦ rw bad (λ e. cc)
  | inr (inl (st', last)) ↦ rw last (λ e. cc)
  | inr (inr (st', found, o', less)) ↦ rw found (
      before-fuel (channel_lines null (codes "Found channel '") (default_service st'.curent)) _ (
        list_channels-fuel null fuel parsed (record st' { curent = default_service st'.curent })
          root o' (omega arith)))
]
