-- ===== src/Cms/Hosts.antt =====
-- lib/getcmslist.c: the list of hosts to be tried, least recently used first. `stat` of a host's
-- status file, under the directory of those files, is an argument.
use rmsgw.Prelude.{
  ℕ, ◌≡◌, refl, Bool, false, not, ◌&&◌, Option, none, some, List, [], ◌∷◌, ltb, leb, if◌then◌else◌,
  length, Str, ℤ, pos, negsuc,
}
use rmsgw.Cms.Node.{Cms, CmsNode, Alloc, addcmsnode}
use rmsgw.Cms.Entry.{
  Round, skipped, entry, fault, read_line, Next, found, at_end, faulted, next_round, nextent,
}

-- The outcome of `stat`: the access time, ENOENT, or another error.
pub data Stat : Type 0 where
  accessed : ℕ → Stat
  missing : Stat
  unreadable : Stat

-- 1024 ≤ port ≤ 65535
unfoldable pub port_allowed : ℤ → Bool
port_allowed (pos n) = leb 1024 n && leb n 65535
port_allowed (negsuc n) = false

-- The tests of the loop that skip an entry: no host, a bad port, no password.
unfoldable pub accepts : Cms → Bool
unfolding port_allowed
accepts c =
    not (ltb (length c.cms_host) 1)
    && (port_allowed c.cms_port && not (ltb (length c.cms_passwd) 1))

-- The time that the list is ordered by. No status file counts as time 0, and an entry whose status
-- file cannot be examined is skipped.
abbrev pub stat_time : Stat → Option ℕ
stat_time (accessed t) = some t
stat_time missing = some 0
stat_time unreadable = none

-- One round of the loop, with the allocations that it makes.
unfoldable pub add_host : (Str → Stat) → Alloc → List CmsNode → Cms → List CmsNode
unfolding accepts
add_host stat alloc cmslist c =
    if accepts c
    then elim (stat_time (stat c.cms_host)) [
      | none ↦ cmslist
      | some t ↦ addcmsnode alloc cmslist c t
    ]
    else cmslist

unfoldable pub host_round :
    Round
    → List CmsNode
    → (Cms → List CmsNode)
    → (Str → List CmsNode → Option (List CmsNode))
    → Option (List CmsNode)
host_round (skipped cbuf) cmslist add again = again cbuf cmslist
host_round (entry c cbuf) cmslist add again = again cbuf (add c)
host_round fault cmslist add again = none

-- The loop of `getcmslist` over the rounds of the loop of `nextent`; `none` is a fault.
unfoldable pub host_loop :
    (Str → Stat) → Alloc → Str → List Str → List CmsNode → Option (List CmsNode)
unfolding host_round
host_loop stat alloc cbuf [] cmslist = some cmslist
host_loop stat alloc cbuf (line ∷ lines) cmslist =
    host_round (read_line cbuf line) cmslist (add_host stat alloc cmslist)
      (λ cbuf' cmslist'. host_loop stat alloc cbuf' lines cmslist')

-- With no host file the list is empty. `cbuf` is the parser's static buffer.
unfoldable pub getcmslist : (Str → Stat) → Alloc → Str → Option (List Str) → Option (List CmsNode)
getcmslist stat alloc cbuf none = some []
getcmslist stat alloc cbuf (some lines) = host_loop stat alloc cbuf lines []

-- What is done with the result of `getcmsent`.
abbrev after_next :
    Next → List CmsNode → (Cms → Str → List Str → Option (List CmsNode)) → Option (List CmsNode)
after_next (found c cbuf lines) cmslist go_on = go_on c cbuf lines
after_next (at_end cbuf) cmslist go_on = some cmslist
after_next faulted cmslist go_on = none

module _ (stat : Str → Stat) (alloc : Alloc) where
  -- The round that the code makes for an entry, and the loop after it.
  abbrev next_host : List CmsNode → Cms → Str → List Str → Option (List CmsNode)
  next_host cmslist c cbuf lines = host_loop stat alloc cbuf lines (add_host stat alloc cmslist c)

  after_next-round :
      (r : Round) (lines : List Str) (cmslist : List CmsNode)
      → ((cbuf : Str)
          → host_loop stat alloc cbuf lines cmslist
            ≡ after_next (nextent cbuf lines) cmslist (next_host cmslist))
      → host_round r cmslist
          (add_host stat alloc cmslist)
          (λ cbuf' cmslist'. host_loop stat alloc cbuf' lines cmslist')
        ≡ after_next (next_round r lines (λ cbuf'. nextent cbuf' lines)) cmslist (next_host cmslist)
  unfolding host_round next_round
  after_next-round (skipped cbuf') lines cmslist ih = ih cbuf'
  after_next-round (entry c cbuf') lines cmslist ih = refl
  after_next-round fault lines cmslist ih = refl

  -- The loop over the lines is the loop of the code: `getcmsent` until it returns NULL, with one
  -- round for each entry.
  pub host_loop-nextent :
      (cbuf : Str) (lines : List Str) (cmslist : List CmsNode)
      → host_loop stat alloc cbuf lines cmslist
        ≡ after_next (nextent cbuf lines) cmslist (next_host cmslist)
  unfolding host_loop nextent
  host_loop-nextent cbuf [] cmslist = refl
  host_loop-nextent cbuf (line ∷ lines) cmslist =
      after_next-round (read_line cbuf line) lines cmslist
        (λ cbuf'. host_loop-nextent cbuf' lines cmslist)
