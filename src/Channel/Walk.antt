-- ===== src/Channel/Walk.antt =====
-- That the walk over the channels of a file (lib/getchan.c) comes forward.
use rmsgw.Prelude.{
  ℕ, ◌≤◌, ◌<◌, ◌≡◌, refl, ◌⊎◌, inl, inr, Option, some, List, [], ◌∷◌, arith, Option-cases, length,
}
use rmsgw.Channel.File.{
  Node, node, other_node, Doc, ChanState, next_channel, load_entry, Got, got, no_more, crashed,
  at_node, following, next_entry, with_doc, getchanent,
}
use rmsgw.Channel.Search.{length-next_channel}

-- An open document, with its root's children.
abbrev pub IsOpen : List Node → ChanState → Type 0
IsOpen root st = st.doc ≡ some root

-- A fault, the end, or an entry with fewer nodes behind it.
abbrev pub Forward : List Node → ℕ → Got → Type 0
Forward root n g =
    (g ≡ crashed)
    ⊎ (((st' : ChanState) × (g ≡ no_more st'))
        ⊎ ((st' : ChanState) × (g ≡ got st')
            × IsOpen root st'
            × (length (following root st'.cur_node) < n)))

at_node-Forward :
    (root : List Node) (st : ChanState) (nodes : List Node) (n : ℕ)
    → IsOpen root st
    → length nodes ≤ n
    → Forward root n (at_node st nodes)
unfolding at_node
at_node-Forward root st [] n h b = inr (inl (_, refl))
at_node-Forward root st (other_node ∷ nodes) n h b = inl refl
at_node-Forward root st (node name props children ∷ nodes) n h b =
    elim (Option-cases (load_entry props children st.curent)) [
      | inl bad ↦ rw bad (inl refl)
      | inr (c, good) ↦ rw good (inr (inr (_, refl, h, omega arith)))
    ]

next_entry-Forward :
    (root : List Node) (st : ChanState)
    → IsOpen root st
    → Forward root (length (following root st.cur_node)) (next_entry root st)
unfolding next_entry
next_entry-Forward root st h =
    at_node-Forward root st (next_channel (following root st.cur_node)) _ h
      (length-next_channel (following root st.cur_node))

with_doc-some :
    (o : Option (List Node)) (entries : List Node → Got) (other : Got) {root : List Node}
    → o ≡ some root
    → with_doc o entries other ≡ entries root
with_doc-some o entries other e = rw e refl

getchanent-open :
    (root : List Node) (parsed : Option Doc) (st : ChanState)
    → IsOpen root st
    → getchanent parsed st ≡ next_entry root st
unfolding getchanent
getchanent-open root parsed st h = with_doc-some st.doc (λ r. next_entry r st) _ h

-- In an open document, `getchanent` faults, or it finds no entry, or it finds one with fewer
-- nodes behind it than before.
pub getchanent-Forward :
    (root : List Node) (parsed : Option Doc) (st : ChanState)
    → IsOpen root st
    → Forward root (length (following root st.cur_node)) (getchanent parsed st)
getchanent-Forward root parsed st h =
    rw (getchanent-open root parsed st h) (next_entry-Forward root st h)
