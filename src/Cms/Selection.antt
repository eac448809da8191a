-- ===== src/Cms/Selection.antt =====
-- Which hosts `getcmslist` of lib/getcmslist.c lists, and in which order.
use rmsgw.Prelude.{
  ℕ, ◌≡◌, refl, sym, ap, ◌∙◌, inl, inr, Bool, true, false, not, ◌&&◌, Option, none, some, List, [],
  ◌∷◌, ◌++◌, append-nil, append_assoc, arith, ltb, ◌==◌, if◌then◌else◌, Bool-cases, Option-cases,
  length, Str, streq, within, ℤ, pos, negsuc,
}
use mathlib.Core.List.{Perm, perm_middle}
use mathlib.Core.List.Perm
use rmsgw.Cms.Node.{Cms, CmsNode, Alloc, mk_node, addcmsnode}
use rmsgw.Cms.Entry.{Round, skipped, entry, fault, read_line}
use rmsgw.Cms.Order.{IsOrdered, at_time, addcmsnode-IsOrdered}
use rmsgw.Cms.Hosts.{
  Stat, stat_time, port_allowed, accepts, add_host, host_round, host_loop, getcmslist,
}

cons_entry : Cms → Option (List Cms) → Option (List Cms)
cons_entry c none = none
cons_entry c (some es) = some (c ∷ es)

round_entries : Round → (Str → Option (List Cms)) → Option (List Cms)
round_entries (skipped cbuf) again = again cbuf
round_entries (entry c cbuf) again = cons_entry c (again cbuf)
round_entries fault again = none

-- All entries of a host file, in the order of the file; `none` where the parser runs out of its
-- buffer.
unfoldable pub entries : Str → List Str → Option (List Cms)
unfolding round_entries cons_entry
entries cbuf [] = some []
entries cbuf (line ∷ lines) = round_entries (read_line cbuf line) (λ cbuf'. entries cbuf' lines)

-- A port from 1024 to 65535.
abbrev pub is_user_port : ℤ → Bool
is_user_port (pos n) = within 1024 65535 n
is_user_port (negsuc n) = false

-- A host and a password that are not empty, and such a port.
abbrev pub wanted : Cms → Bool
wanted c = is_user_port c.cms_port && (not (streq c.cms_host []) && not (streq c.cms_passwd []))

empty_lem : (s : Str) → ltb (length s) 1 ≡ streq s []
unfolding streq
empty_lem [] = refl
empty_lem (c ∷ s) = ground arith

port_allowed_lem : (port : ℤ) → port_allowed port ≡ is_user_port port
unfolding port_allowed
port_allowed_lem (pos n) = refl
port_allowed_lem (negsuc n) = refl

pub and-and_swap : (a b c : Bool) → (a && (b && c)) ≡ (b && (a && c))
and-and_swap true true c = refl
and-and_swap true false c = refl
and-and_swap false true c = refl
and-and_swap false false c = refl

accepts_lem : (c : Cms) → accepts c ≡ wanted c
unfolding accepts
accepts_lem c =
    rw (empty_lem c.cms_host, empty_lem c.cms_passwd, port_allowed_lem c.cms_port)
      (and-and_swap (not (streq c.cms_host [])) (is_user_port c.cms_port)
        (not (streq c.cms_passwd [])))

-- The nodes of the entries with a host, a password, a port from 1024 to 65535 and a status file that
-- is missing or can be examined.
abbrev pub listed : (Str → Stat) → List Cms → List CmsNode
listed stat [] = []
listed stat (c ∷ es) =
    if wanted c
    then elim (stat_time (stat c.cms_host)) [
      | none ↦ listed stat es
      | some t ↦ mk_node c t ∷ listed stat es
    ]
    else listed stat es

-- `l` is an ordered arrangement of `old` and then `new` that keeps the order among equal times.
pub record IsMerged (old new l : List CmsNode) : Type 0 where
  pub ordered : IsOrdered l
  pub perm : Perm l (new ++ old)
  pub stable : (n : ℕ) → at_time n l ≡ at_time n old ++ at_time n new

abbrev pub all_succeed : Alloc
all_succeed = record { node = true; host = true; passwd = true }

IsMerged-nil : (l : List CmsNode) → IsOrdered l → IsMerged l [] l
IsMerged-nil l h = record { ordered = h; perm = Perm.refl l; stable = λ n. sym (append-nil _) }

at_time-mk_node :
    (n : ℕ) (old new : List CmsNode) (c : Cms) (t : ℕ)
    → (at_time n old ++ (if t == n then mk_node c t ∷ [] else [])) ++ at_time n new
      ≡ at_time n old ++ at_time n (mk_node c t ∷ new)
at_time-mk_node n old new c t = elim (Bool-cases (t == n)) [
  | inl e ↦ rw e (append_assoc (at_time n old) (mk_node c t ∷ []) (at_time n new))
  | inr e ↦ rw e (append_assoc (at_time n old) [] (at_time n new))
]

IsMerged-cons :
    (old new l : List CmsNode) (c : Cms) (t : ℕ)
    → IsOrdered old
    → IsMerged (addcmsnode all_succeed old c t) new l
    → IsMerged old (mk_node c t ∷ new) l
IsMerged-cons old new l c t h m =
    let (ordered, perm, stable) = addcmsnode-IsOrdered all_succeed old c t refl h in
    record {
      ordered = m.ordered;
      perm =
          Perm.trans m.perm (Perm.trans (Perm.append (Perm.refl new) perm) (perm_middle new old));
      stable =
          λ n. m.stable n ∙ ap (λ y. y ++ at_time n new) (stable n) ∙ at_time-mk_node n old new c t;
    }

-- The loop from `cmslist` ends, with the entries of `es` merged into it.
abbrev Merges : (Str → Stat) → List CmsNode → List Cms → Option (List CmsNode) → Type 0
Merges stat cmslist es result =
    (l : List CmsNode) × (result ≡ some l) × IsMerged cmslist (listed stat es) l

module _ (stat : Str → Stat) where
  add_host-IsOrdered :
      (cmslist : List CmsNode) (c : Cms)
      → IsOrdered cmslist
      → IsOrdered (add_host stat all_succeed cmslist c)
  unfolding add_host
  add_host-IsOrdered cmslist c h = elim (Bool-cases (accepts c)) [
    | inl e ↦ elim (Option-cases (stat_time (stat c.cms_host))) [
      | inl none_there ↦ rw (e, none_there) h
      | inr (t, time) ↦ rw (e, time) ((addcmsnode-IsOrdered all_succeed cmslist c t refl h).0)
    ]
    | inr e ↦ rw e h
  ]

  IsMerged-add_host :
      (cmslist : List CmsNode) (c : Cms) (es : List Cms) (l : List CmsNode)
      → IsOrdered cmslist
      → IsMerged (add_host stat all_succeed cmslist c) (listed stat es) l
      → IsMerged cmslist (listed stat (c ∷ es)) l
  unfolding add_host
  IsMerged-add_host cmslist c es l h m = elim (Bool-cases (accepts c)) [
    | inl e ↦ elim (Option-cases (stat_time (stat c.cms_host))) [
      | inl none_there ↦ rw (sym (accepts_lem c), e, none_there) (rw (e, none_there) at m)
      | inr (t, time) ↦
          rw (sym (accepts_lem c), e, time)
            (IsMerged-cons cmslist (listed stat es) l c t h (rw (e, time) at m))
    ]
    | inr e ↦ rw (sym (accepts_lem c), e) (rw e at m)
  ]

  Merges-round :
      (r : Round) (lines : List Str) (cmslist : List CmsNode) (es : List Cms)
      → ((cbuf : Str) (cmslist' : List CmsNode) (es' : List Cms)
          → IsOrdered cmslist'
          → entries cbuf lines ≡ some es'
          → Merges stat cmslist' es' (host_loop stat all_succeed cbuf lines cmslist'))
      → IsOrdered cmslist
      → round_entries r (λ cbuf. entries cbuf lines) ≡ some es
      → Merges stat cmslist es (
          host_round r cmslist
            (add_host stat all_succeed cmslist)
            (λ cbuf cmslist'. host_loop stat all_succeed cbuf lines cmslist'))
  unfolding host_round round_entries cons_entry
  Merges-round (skipped cbuf) lines cmslist es ih h e = ih cbuf cmslist es h e
  Merges-round fault lines cmslist es ih h e = cc
  Merges-round (entry c cbuf) lines cmslist es ih h e = elim (Option-cases (entries cbuf lines)) [
    | inl faults ↦ cc
    | inr (es', rest) ↦
        let (l, ends, m) =
          ih cbuf (add_host stat all_succeed cmslist c) es' (add_host-IsOrdered cmslist c h) rest in
        let whole : c ∷ es' ≡ es = cc in
        (l, ends, rw (← whole) (IsMerged-add_host cmslist c es' l h m))
  ]

  host_loop-Merges :
      (lines : List Str) (cbuf : Str) (cmslist : List CmsNode) (es : List Cms)
      → IsOrdered cmslist
      → entries cbuf lines ≡ some es
      → Merges stat cmslist es (host_loop stat all_succeed cbuf lines cmslist)
  unfolding host_loop entries
  host_loop-Merges [] cbuf cmslist es h e =
      let whole : [] ≡ es = cc in (cmslist, refl, rw (← whole) (IsMerged-nil cmslist h))
  host_loop-Merges (line ∷ lines) cbuf cmslist es h e =
      Merges-round (read_line cbuf line) lines cmslist es
        (λ cbuf' cmslist' es' h' e'. host_loop-Merges lines cbuf' cmslist' es' h' e') h e

-- When the allocations succeed and no line makes the parser leave its buffer, `getcmslist` lists
-- exactly the entries with a host, a password, a port from 1024 to 65535 and a status file that is
-- missing or can be examined: ordered by access time, with 0 for a missing file, and among equal
-- times in the order of the host file.
pub getcmslist-listed :
    (stat : Str → Stat) (cbuf : Str) (lines : List Str) {es : List Cms}
    → entries cbuf lines ≡ some es
    → (l : List CmsNode) × (getcmslist stat all_succeed cbuf (some lines) ≡ some l)
      × IsOrdered l
      × Perm l (listed stat es)
      × ((n : ℕ) → at_time n l ≡ at_time n (listed stat es))
unfolding getcmslist
getcmslist-listed stat cbuf lines {es} e =
    let (l, ends, m) = host_loop-Merges stat lines cbuf [] es tt e in
    (l, ends, m.ordered, rw append-nil at m.perm, m.stable)
