-- ===== src/Cms/Order.antt =====
-- The order of the host list: by status time, and among equal times by the order of insertion.
use rmsgw.Prelude.{
  ℕ, suc, ◌≤◌, ◌≡◌, refl, sym, inl, inr, true, List, [], ◌∷◌, ◌++◌, append-nil, arith, leb, ◌==◌,
  if◌then◌else◌, Bool-cases, All,
}
use mathlib.Core.List.{Perm}
use mathlib.Core.List.Perm
use rmsgw.Cms.Node.{Cms, CmsNode, Alloc, mk_node, insert_node, addcmsnode}

-- Times increase, not strictly, along the list.
abbrev pub IsOrdered : List CmsNode → Type 0
IsOrdered [] = Unit
IsOrdered (p ∷ l) = All (λ q. p.cms_stat_time ≤ q.cms_stat_time) l × IsOrdered l

-- The nodes with one time, in the order in which they stand.
abbrev pub at_time : ℕ → List CmsNode → List CmsNode
at_time n [] = []
at_time n (p ∷ l) = if p.cms_stat_time == n then p ∷ at_time n l else at_time n l

All-le :
    (n m : ℕ) (l : List CmsNode)
    → n ≤ m
    → All (λ q. m ≤ q.cms_stat_time) l
    → All (λ q. n ≤ q.cms_stat_time) l
All-le n m [] h k = tt
All-le n m (q ∷ l) h k = (omega (arith, k.0), All-le n m l h k.1)

All-insert_node :
    (n : ℕ) (t : CmsNode) (l : List CmsNode)
    → n ≤ t.cms_stat_time
    → All (λ q. n ≤ q.cms_stat_time) l
    → All (λ q. n ≤ q.cms_stat_time) (insert_node t l)
unfolding insert_node
All-insert_node n t [] h k = (h, tt)
All-insert_node n t (p ∷ l) h k = elim (Bool-cases (leb p.cms_stat_time t.cms_stat_time)) [
  | inl e ↦ rw e (k.0, All-insert_node n t l h k.1)
  | inr e ↦ rw e (h, k)
]

insert_node-IsOrdered : (t : CmsNode) (l : List CmsNode) → IsOrdered l → IsOrdered (insert_node t l)
unfolding insert_node
insert_node-IsOrdered t [] h = (tt, tt)
insert_node-IsOrdered t (p ∷ l) h = elim (Bool-cases (leb p.cms_stat_time t.cms_stat_time)) [
  | inl e ↦
      rw e (All-insert_node p.cms_stat_time t l (ground arith) h.0, insert_node-IsOrdered t l h.1)
  | inr e ↦
      let le : t.cms_stat_time ≤ p.cms_stat_time = ground arith in
      rw e ((le, All-le _ _ l le h.0), h)
]

at_time-below : (n : ℕ) (l : List CmsNode) → All (λ q. suc n ≤ q.cms_stat_time) l → at_time n l ≡ []
at_time-below n [] h = refl
at_time-below n (p ∷ l) h = ground (arith, h.0, at_time-below n l h.1)

at_time-insert_node :
    (n : ℕ) (t : CmsNode) (l : List CmsNode)
    → IsOrdered l
    → at_time n (insert_node t l) ≡ at_time n l ++ at_time n (t ∷ [])
unfolding insert_node
at_time-insert_node n t [] h = refl
at_time-insert_node n t (p ∷ l) h = elim (Bool-cases (leb p.cms_stat_time t.cms_stat_time)) [
  | inl e ↦ ground (arith, at_time-insert_node n t l h.1)
  | inr e ↦ elim (Bool-cases (t.cms_stat_time == n)) [
    | inl same ↦
        let later : suc n ≤ p.cms_stat_time = ground arith in
        rw (e, same)
          (let none_there : at_time n (p ∷ l) ≡ [] =
              at_time-below n (p ∷ l) (later, All-le (suc n) p.cms_stat_time l later h.0) in
            rw none_there)
    | inr other ↦ rw (e, other) (sym (append-nil _))
  ]
]

insert_node-perm : (t : CmsNode) (l : List CmsNode) → Perm (insert_node t l) (t ∷ l)
unfolding insert_node
insert_node-perm t [] = Perm.refl (t ∷ [])
insert_node-perm t (p ∷ l) = elim (Bool-cases (leb p.cms_stat_time t.cms_stat_time)) [
  | inl e ↦ rw e (Perm.trans (Perm.cons p (insert_node-perm t l)) (Perm.swap t p l))
  | inr e ↦ rw e (Perm.refl (t ∷ p ∷ l))
]

-- When the three allocations succeed, adding a host to an ordered list gives an ordered list of the
-- old nodes and the new one, in which the new node stands behind every node of its own time and the
-- nodes of each time keep their order.
pub addcmsnode-IsOrdered :
    (a : Alloc) (l : List CmsNode) (c : Cms) (stime : ℕ)
    → a ≡ record { node = true; host = true; passwd = true }
    → IsOrdered l
    → IsOrdered (addcmsnode a l c stime)
      × Perm (addcmsnode a l c stime) (mk_node c stime ∷ l)
      × ((n : ℕ)
          → at_time n (addcmsnode a l c stime)
            ≡ at_time n l ++ (if stime == n then mk_node c stime ∷ [] else []))
unfolding addcmsnode
addcmsnode-IsOrdered a l c stime e h = rw e (
  insert_node-IsOrdered (mk_node c stime) l h,
  insert_node-perm (mk_node c stime) l,
  λ n. at_time-insert_node n (mk_node c stime) l h,
)
