-- ===== src/Channel/Search.antt =====
-- getchannam of lib/getchan.c: the search for the channel of a name and a call sign.
use rmsgw.Prelude.{
  ℕ, zero, suc, ◌≤◌, ◌<◌, ◌≡◌, refl, sym, ap, ◌∙◌, inl, inr, Bool, true, false, ◌&&◌, Option, none,
  some, List, [], ◌∷◌, arith, ◌==◌, if◌then◌else◌, Bool-cases, Option-cases, length, Str, codes,
  streq, strneq, tolower,
}
use rmsgw.Channel.File.{
  callsign, Channel, Node, node, other_node, Doc, ChanState, setchanent, next_channel, bind,
  load_entry, Got, got, no_more, crashed, at_node, following, next_entry,
}

-- !strncasecmp(a, b, n)
unfoldable pub strncaseeq : Str → Str → ℕ → Bool
strncaseeq a b zero = true
strncaseeq [] [] (suc n) = true
strncaseeq [] (y ∷ ys) (suc n) = false
strncaseeq (x ∷ xs) [] (suc n) = false
strncaseeq (x ∷ xs) (y ∷ ys) (suc n) = tolower x == tolower y && strncaseeq xs ys n

-- The test of the loop. `none` is a NULL pointer handed to a comparison.
unfoldable pub is_wanted : Str → Str → Channel → Option Bool
unfolding strncaseeq
is_wanted chname call c = bind c.ch_name (λ name.
    if strneq name chname (length chname)
    then bind (c.ch_field callsign) (λ own. some (strncaseeq own call (length call)))
    else some false)

-- How the search ends, with the entry that the pointer refers to.
pub data Search : Type 0 where
  found : ChanState → Search
  absent : ChanState → Search
  fault : Search
  unfinished : Search

abbrev pub decide : Option Bool → Search → Search → Search
decide none here later = fault
decide (some true) here later = here
decide (some false) here later = later

-- `while (nextent())`, on fuel.
unfoldable pub search : Str → Str → ℕ → List Node → ChanState → Search
unfolding next_entry
search chname call zero root st = unfinished
search chname call (suc fuel) root st = elim (next_entry root st) [
  | got st' ↦
      decide (is_wanted chname call st'.curent) (found st') (search chname call fuel root st')
  | no_more st' ↦ absent st'
  | crashed ↦ fault
]

-- getchannam, when `xmlParseFile` returns `parsed`.
unfoldable pub getchannam : ℕ → Option Doc → Str → Str → ChanState → Search
unfolding search setchanent
getchannam fuel parsed chname call st =
    let (opened, ok) = setchanent parsed st in
    elim opened.doc [
      | none ↦ absent opened
      | some root ↦ if ok then search chname call fuel root opened else absent opened
    ]

-- An answer without the state of the search.
pub data Answer : Type 0 where
  hit : Channel → Answer
  miss : Answer
  broken : Answer
  endless : Answer

abbrev pub answer : Search → Answer
answer (found st) = hit st.curent
answer (absent st) = miss
answer fault = broken
answer unfinished = endless

abbrev pub judged : Option Bool → Answer → Answer → Answer
judged none here later = broken
judged (some true) here later = here
judged (some false) here later = later

abbrev pub loaded : Option Channel → (Channel → Answer) → Answer
loaded none visit = broken
loaded (some c) visit = visit c

-- The first wanted channel of a list of nodes, where each channel is read over the one before it.
abbrev pub first_wanted : Str → Str → List Node → Channel → Answer
first_wanted chname call [] c = miss
first_wanted chname call (other_node ∷ nodes) c = first_wanted chname call nodes c
first_wanted chname call (node name props children ∷ nodes) c =
    let skipped = first_wanted chname call nodes c in
    let visit = λ (e : Channel).
      judged (is_wanted chname call e) (hit e) (first_wanted chname call nodes e) in
    if streq name (codes "channel") then loaded (load_entry props children c) visit else skipped

-- The step of the search at the node that the walk finds.
abbrev at_first : Str → Str → List Node → Channel → Answer
at_first chname call [] c = miss
at_first chname call (other_node ∷ nodes) c = broken
at_first chname call (node name props children ∷ nodes) c =
    loaded (load_entry props children c)
      (λ e. judged (is_wanted chname call e) (hit e) (first_wanted chname call nodes e))

first_wanted-next_channel :
    (chname call : Str) (nodes : List Node) (c : Channel)
    → first_wanted chname call nodes c ≡ at_first chname call (next_channel nodes) c
unfolding next_channel
first_wanted-next_channel chname call [] c = refl
first_wanted-next_channel chname call (other_node ∷ nodes) c =
    first_wanted-next_channel chname call nodes c
first_wanted-next_channel chname call (node name props children ∷ nodes) c =
    elim (Bool-cases (streq name (codes "channel"))) [
      | inl is ↦ rw is refl
      | inr other ↦ rw other (first_wanted-next_channel chname call nodes c)
    ]

pub length-next_channel : (nodes : List Node) → length (next_channel nodes) ≤ length nodes
unfolding next_channel
length-next_channel [] = omega arith
length-next_channel (other_node ∷ nodes) = omega (arith, length-next_channel nodes)
length-next_channel (node name props children ∷ nodes) =
    elim (Bool-cases (streq name (codes "channel"))) [
      | inl is ↦ rw is (omega arith)
      | inr other ↦ rw other (omega (arith, length-next_channel nodes))
    ]

answer-decide :
    (o : Option Bool) (here later : Search)
    → answer (decide o here later) ≡ judged o (answer here) (answer later)
answer-decide none here later = refl
answer-decide (some true) here later = refl
answer-decide (some false) here later = refl

judged-later :
    (o : Option Bool) (here : Answer) {a b : Answer} → a ≡ b → judged o here a ≡ judged o here b
judged-later o here e = ap (judged o here) e

-- What a round does with what it has found.
abbrev round : Str → Str → (ChanState → Search) → Got → Search
round chname call later (got st) = decide (is_wanted chname call st.curent) (found st) (later st)
round chname call later (no_more st) = absent st
round chname call later crashed = fault

search-first :
    (chname call : Str) (fuel : ℕ) (root here : List Node) (st : ChanState)
    → ((st' : ChanState)
        → length (following root st'.cur_node) < fuel
        → answer (search chname call fuel root st')
          ≡ first_wanted chname call (following root st'.cur_node) st'.curent)
    → length here ≤ fuel
    → answer (round chname call (search chname call fuel root) (at_node st here))
      ≡ at_first chname call here st.curent
unfolding at_node
search-first chname call fuel root [] st ih h = refl
search-first chname call fuel root (other_node ∷ nodes) st ih h = refl
search-first chname call fuel root (node name props children ∷ nodes) st ih h =
    elim (Option-cases (load_entry props children st.curent)) [
      | inl bad ↦ rw bad refl
      | inr (e, good) ↦
          let st' : ChanState = record st {
            cur_node = node name props children ∷ nodes;
            curent = e;
          } in
          rw good (
            answer-decide (is_wanted chname call e) (found st') (search chname call fuel root st')
            ∙ judged-later (is_wanted chname call e) (hit e) (ih st' (omega arith)))
    ]

search-round :
    (chname call : Str) (fuel : ℕ) (root : List Node) (st : ChanState)
    → search chname call (suc fuel) root st
      ≡ round chname call
          (search chname call fuel root)
          (at_node st (next_channel (following root st.cur_node)))
unfolding search next_entry
search-round chname call fuel root st =
    elim (at_node st (next_channel (following root st.cur_node)))
      as (λ g.
        elim g [
          | got st' ↦
              decide (is_wanted chname call st'.curent) (found st')
                (search chname call fuel root st')
          | no_more st' ↦ absent st'
          | crashed ↦ fault
        ]
        ≡ round chname call (search chname call fuel root) g) [
          | got st' ↦ refl
          | no_more st' ↦ refl
          | crashed ↦ refl
        ]

search-first_wanted :
    (chname call : Str) (fuel : ℕ) (root : List Node) (st : ChanState)
    → length (following root st.cur_node) < fuel
    → answer (search chname call fuel root st)
      ≡ first_wanted chname call (following root st.cur_node) st.curent
search-first_wanted chname call zero root st h = absurd (omega arith)
search-first_wanted chname call (suc fuel) root st h =
    let nodes : List Node = following root st.cur_node in
    let one : search chname call (suc fuel) root st
        ≡ round chname call (search chname call fuel root) (at_node st (next_channel nodes)) =
      search-round chname call fuel root st in
    ap answer one
    ∙ search-first chname call fuel root (next_channel nodes) st
        (λ st' less. search-first_wanted chname call fuel root st' less)
        (omega (arith, length-next_channel nodes))
    ∙ sym (first_wanted-next_channel chname call nodes st.curent)

-- With the root named as it is to be, no current node where no document is open, and more rounds
-- than the root has children, the search for a channel finds the first child that is wanted in the
-- file's order, with the channels before it read over the static entry one after the other; it
-- finds none when no child is wanted, and faults exactly where reading or comparing one does.
pub getchannam_lem :
    (chname call : Str) (fuel : ℕ) (parsed : Doc) (st : ChanState)
    → parsed.root_name ≡ some (codes "rmschannels")
    → (st.doc ≡ none → st.cur_node ≡ [])
    → length parsed.children < fuel
    → answer (getchannam fuel (some parsed) chname call st)
      ≡ first_wanted chname call parsed.children st.curent
unfolding getchannam setchanent streq
getchannam_lem chname call fuel parsed st named closed h =
    let begun =
      search-first_wanted chname call fuel parsed.children
        (record st { doc = some parsed.children; cur_node = [] }) h in
    elim (Option-cases st.doc) [
      | inl shut ↦ rw (named, shut, closed shut) begun
      | inr (root, opened) ↦ rw (named, opened) begun
    ]
