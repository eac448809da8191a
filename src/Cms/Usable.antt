-- ===== src/Cms/Usable.antt =====
-- What every host of the list of lib/getcmslist.c has.
use rmsgw.Prelude.{
  ℕ, ◌≤◌, ◌≡◌, refl, ◌≢◌, inl, inr, true, ◌&&◌, Option, none, some, List, [], ◌∷◌, arith, leb,
  Bool-cases, Option-cases, All, Str, ℤ, pos, negsuc,
}
use rmsgw.Cms.Node.{Cms, CmsNode, Alloc, mk_node, insert_node, addcmsnode}
use rmsgw.Cms.Entry.{Round, skipped, entry, fault, read_line}
use rmsgw.Cms.Hosts.{Stat, stat_time, accepts, add_host, host_round, host_loop, getcmslist}

-- A host name, a password, and a port outside the well-known services and in range.
pub record IsUsable (p : CmsNode) : Type 0 where
  pub port : ℕ
  pub port_is : p.cms_port ≡ pos port
  pub port_low : 1024 ≤ port
  pub port_high : port ≤ 65535
  pub has_host : p.cms_host ≢ []
  pub has_passwd : p.cms_passwd ≢ []

All-insert_node :
    (P : CmsNode → Type 0) (t : CmsNode) (l : List CmsNode)
    → P t
    → All P l
    → All P (insert_node t l)
unfolding insert_node
All-insert_node P t [] h k = (h, tt)
All-insert_node P t (p ∷ l) h k = elim (Bool-cases (leb p.cms_stat_time t.cms_stat_time)) [
  | inl e ↦ rw e (k.0, All-insert_node P t l h k.1)
  | inr e ↦ rw e (h, k)
]

accepts-IsUsable :
    (host passwd : Str) (port : ℤ) (t : ℕ)
    → accepts (record { cms_host = host; cms_port = port; cms_passwd = passwd }) ≡ true
    → IsUsable (record { cms_host = host; cms_port = port; cms_passwd = passwd; cms_stat_time = t })
unfolding accepts
accepts-IsUsable (x ∷ host) (y ∷ passwd) (pos n) t e = record {
  port = n;
  port_is = refl;
  port_low = ground arith;
  port_high = ground arith;
  has_host = λ p. cc;
  has_passwd = λ p. cc;
}
accepts-IsUsable host passwd (negsuc n) t e = ground arith
accepts-IsUsable [] passwd (pos n) t e = ground arith
accepts-IsUsable (x ∷ host) [] (pos n) t e = ground arith

module _ (stat : Str → Stat) (alloc : Alloc) where
  add_host-IsUsable :
      (cmslist : List CmsNode) (c : Cms)
      → All IsUsable cmslist
      → All IsUsable (add_host stat alloc cmslist c)
  unfolding add_host addcmsnode
  add_host-IsUsable cmslist c h = elim (Bool-cases (accepts c)) [
    | inl e ↦ elim (Option-cases (stat_time (stat c.cms_host))) [
      | inl none_there ↦ rw (e, none_there) h
      | inr (t, time) ↦ elim (Bool-cases (alloc.node && (alloc.host && alloc.passwd))) [
        | inl room ↦
            rw (e, time, room)
              (All-insert_node IsUsable (mk_node c t) cmslist
                (accepts-IsUsable c.cms_host c.cms_passwd c.cms_port t e) h)
        | inr full ↦ rw (e, time, full) tt
      ]
    ]
    | inr e ↦ rw e h
  ]

  IsUsable-round :
      (r : Round) (lines : List Str) (cmslist : List CmsNode) {l : List CmsNode}
      → ((cbuf : Str) (cmslist' : List CmsNode)
          → All IsUsable cmslist'
          → host_loop stat alloc cbuf lines cmslist' ≡ some l
          → All IsUsable l)
      → All IsUsable cmslist
      → host_round r cmslist
          (add_host stat alloc cmslist)
          (λ cbuf cmslist'. host_loop stat alloc cbuf lines cmslist')
        ≡ some l
      → All IsUsable l
  unfolding host_round
  IsUsable-round (skipped cbuf) lines cmslist ih h e = ih cbuf cmslist h e
  IsUsable-round (entry c cbuf) lines cmslist ih h e =
      ih cbuf (add_host stat alloc cmslist c) (add_host-IsUsable cmslist c h) e
  IsUsable-round fault lines cmslist ih h e = cc

  host_loop-IsUsable :
      (lines : List Str) (cbuf : Str) (cmslist : List CmsNode) {l : List CmsNode}
      → All IsUsable cmslist
      → host_loop stat alloc cbuf lines cmslist ≡ some l
      → All IsUsable l
  unfolding host_loop
  host_loop-IsUsable [] cbuf cmslist {l} h e = let whole : cmslist ≡ l = cc in rw (← whole) h
  host_loop-IsUsable (line ∷ lines) cbuf cmslist {l} h e =
      IsUsable-round (read_line cbuf line) lines cmslist
        (λ cbuf' cmslist' h' e'. host_loop-IsUsable lines cbuf' cmslist' {l = l} h' e') h e

  -- Every host that `getcmslist` lists has a name, a password and a port from 1024 to 65535, also
  -- when an allocation fails or the host file is missing.
  pub getcmslist-IsUsable :
      (cbuf : Str) (file : Option (List Str)) {l : List CmsNode}
      → getcmslist stat alloc cbuf file ≡ some l
      → All IsUsable l
  unfolding getcmslist
  getcmslist-IsUsable cbuf none {l} e = let whole : [] ≡ l = cc in rw (← whole) tt
  getcmslist-IsUsable cbuf (some lines) e = host_loop-IsUsable lines cbuf [] tt e
