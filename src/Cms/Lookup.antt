-- ===== src/Cms/Lookup.antt =====
-- lib/getcms.c: opening and closing the host file, getcmsent and getcmsnam. `fopen` gives the
-- lines of the file of a name, or `none`.
use rmsgw.Prelude.{
  ◌≡◌, refl, Bool, true, false, Option, none, some, List, [], ◌∷◌, if◌then◌else◌, length, Str,
  strneq,
}
use rmsgw.Cms.Node.{Cms}
use rmsgw.Cms.Entry.{
  Round, skipped, entry, fault, read_line, Next, found, at_end, faulted, next_round, nextent,
}

-- `cmsfile`, and `cmsfp` with the lines of the file and those that are left, and the parser's buffer.
pub record CmsFile : Type 0 where
  pub cmsfile : Str
  pub cmsfp : Option (List Str)
  pub left : List Str
  pub cbuf : Str

unfoldable pub setcmsfile : Str → CmsFile → CmsFile
setcmsfile p f = record f { cmsfile = p }

unfoldable pub setcmsent : (Str → Option (List Str)) → CmsFile → CmsFile × Bool
setcmsent fopen f = elim f.cmsfp [
  | some lines ↦ (record f { left = lines }, true)
  | none ↦ elim (fopen f.cmsfile) [
    | none ↦ (f, false)
    | some lines ↦ (record f { cmsfp = some lines; left = lines }, true)
  ]
]

unfoldable pub endcmsent : CmsFile → CmsFile
endcmsent f = record f { cmsfp = none }

-- An entry, no entry, or a fault.
pub data Answer : Type 0 where
  given : Cms → CmsFile → Answer
  null : CmsFile → Answer
  crash : Answer

abbrev pub answer_of : CmsFile → Next → Answer
answer_of f (found c cbuf lines) = given c (record f { left = lines; cbuf = cbuf })
answer_of f (at_end cbuf) = null (record f { left = []; cbuf = cbuf })
answer_of f faulted = crash

unfoldable pub getcmsent : (Str → Option (List Str)) → CmsFile → Answer
unfolding setcmsent nextent
getcmsent fopen f = elim f.cmsfp [
  | some lines ↦ answer_of f (nextent f.cbuf f.left)
  | none ↦
      let (g, ok) = setcmsent fopen f in if ok then answer_of g (nextent g.cbuf g.left) else null g
]

abbrev pub named_round : Str → List Str → Round → (Str → Next) → Next
named_round name lines (skipped cbuf) again = again cbuf
named_round name lines (entry c cbuf) again =
    if strneq c.cms_host name (length name) then found c cbuf lines else again cbuf
named_round name lines fault again = faulted

-- `while (nextent())` with the test of the name, over the rounds of the loop of `nextent`.
unfoldable pub named_loop : Str → Str → List Str → Next
unfolding read_line
named_loop name cbuf [] = at_end cbuf
named_loop name cbuf (line ∷ lines) =
    named_round name lines (read_line cbuf line) (λ cbuf'. named_loop name cbuf' lines)

unfoldable pub getcmsnam : (Str → Option (List Str)) → Str → CmsFile → Answer
unfolding setcmsent named_loop
getcmsnam fopen name f =
    let (g, ok) = setcmsent fopen f in
    if ok then answer_of g (named_loop name g.cbuf g.left) else null g

-- The loop as the code makes it: `nextent`, and again when the name is another.
abbrev pub tested : Str → Next → (Str → List Str → Next) → Next
tested name (found c cbuf lines) again =
    if strneq c.cms_host name (length name) then found c cbuf lines else again cbuf lines
tested name (at_end cbuf) again = at_end cbuf
tested name faulted again = faulted

named_loop-round :
    (name : Str) (r : Round) (lines : List Str)
    → ((cbuf : Str)
        → named_loop name cbuf lines ≡ tested name (nextent cbuf lines) (named_loop name))
    → named_round name lines r (λ cbuf. named_loop name cbuf lines)
      ≡ tested name (next_round r lines (λ cbuf. nextent cbuf lines)) (named_loop name)
unfolding next_round
named_loop-round name (skipped cbuf) lines ih = ih cbuf
named_loop-round name (entry c cbuf) lines ih = refl
named_loop-round name fault lines ih = refl

-- The search makes the rounds that the code does: it takes the next entry of the file, and goes on behind it
-- when the entry's host does not begin with the name.
pub named_loop-nextent :
    (name cbuf : Str) (lines : List Str)
    → named_loop name cbuf lines ≡ tested name (nextent cbuf lines) (named_loop name)
unfolding nextent named_loop
named_loop-nextent name cbuf [] = refl
named_loop-nextent name cbuf (line ∷ lines) =
    named_loop-round name (read_line cbuf line) lines (λ cbuf'. named_loop-nextent name cbuf' lines)
