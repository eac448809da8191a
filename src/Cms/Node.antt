-- ===== src/Cms/Node.antt =====
-- lib/cmsnode.c and the `cmsnode` of include/rmslib.h: a linked list of hosts in the order of their
-- status times. The list behind a `cmsnode *` is the list of nodes.
use rmsgw.Prelude.{ℕ, Bool, ◌&&◌, List, [], ◌∷◌, leb, if◌then◌else◌, Str, ℤ}

-- An entry of the host file, `struct _cms`.
pub record Cms : Type 0 where
  pub cms_host : Str
  pub cms_port : ℤ
  pub cms_passwd : Str

pub record CmsNode : Type 0 where
  pub cms_host : Str
  pub cms_port : ℤ
  pub cms_passwd : Str
  pub cms_stat_time : ℕ

-- The three allocations of a node: the node, its host and its password.
pub record Alloc : Type 0 where
  pub node : Bool
  pub host : Bool
  pub passwd : Bool

abbrev pub mk_node : Cms → ℕ → CmsNode
mk_node c stime = record {
  cms_host = c.cms_host;
  cms_port = c.cms_port;
  cms_passwd = c.cms_passwd;
  cms_stat_time = stime;
}

-- The walk with `p` and `q` and the insertion behind `q`: `t` goes behind every node at the front
-- with a time that is not larger.
unfoldable pub insert_node : CmsNode → List CmsNode → List CmsNode
insert_node t [] = t ∷ []
insert_node t (p ∷ next) =
    if leb p.cms_stat_time t.cms_stat_time then p ∷ insert_node t next else t ∷ p ∷ next

-- NULL is the empty list.
unfoldable pub addcmsnode : Alloc → List CmsNode → Cms → ℕ → List CmsNode
addcmsnode a clist c stime =
    if a.node && (a.host && a.passwd) then insert_node (mk_node c stime) clist else []
