-- ===== src/Channel/File.antt =====
-- lib/getchan.c: the entries of the channel file. What libxml2 makes of the file is a tree: for the
-- children of the root, the attributes and the child elements with their contents. `strdup`
-- succeeds, and releasing memory is left out.
use rmsgw.Prelude.{
  ℕ, Bool, true, false, Option, none, some, List, [], ◌∷◌, ltb, leb, ◌==◌, if◌then◌else◌, length,
  take, Str, codes, streq, c_str, pos, negsuc,
}
use rmsgw.Text.Trim.{strtrim}
use rmsgw.Text.Symbol.{Symbol, sym_add}
use rmsgw.Text.Var.{varsubst}

-- The elements of a channel that are stored, under their names in the file.
pub data Field : Type 0 where
  basecall callsign password gridsquare frequency mode autoonly baud power height gain : Field
  direction hours groupreference servicecode statuschecker : Field

abbrev pub number : Field → ℕ
number basecall = 0
number callsign = 1
number password = 2
number gridsquare = 3
number frequency = 4
number mode = 5
number autoonly = 6
number baud = 7
number power = 8
number height = 9
number gain = 10
number direction = 11
number hours = 12
number groupreference = 13
number servicecode = 14
number statuschecker = 15

-- The static entry `curent`: three attributes, and the `char *` of each element, where NULL is `none`.
pub record Channel : Type 0 where
  pub ch_name : Option Str
  pub ch_type : Option Str
  pub ch_active : Option Str
  pub ch_field : Field → Option Str

-- A child of a channel: an element with its name and content, or another kind of node.
pub data Child : Type 0 where
  element : Str → Str → Child
  other_child : Child

-- A child of the root: an element with its name, its attributes and its children, or another node.
pub data Node : Type 0 where
  node : Str → (Str → Option Str) → List Child → Node
  other_node : Node

-- What `xmlParseFile` gives, with the name of the root element.
pub record Doc : Type 0 where
  pub root_name : Option Str
  pub children : List Node

-- The static variables. `cur_node` is the current node with its later siblings, or [] for NULL.
pub record ChanState : Type 0 where
  pub doc : Option (List Node)
  pub cur_node : List Node
  pub curent : Channel

-- setchanent, when `xmlParseFile` returns `parsed`. The symbol table is thrown away by `nextent`.
unfoldable pub setchanent : Option Doc → ChanState → ChanState × Bool
unfolding streq
setchanent none st =
    (record st { doc = none; cur_node = elim st.doc [ none ↦ st.cur_node | some d ↦ [] ] }, false)
setchanent (some parsed) st =
    let here : List Node = elim st.doc [ none ↦ st.cur_node | some d ↦ [] ] in
    elim parsed.root_name [
      | none ↦ (record st { doc = none; cur_node = [] }, false)
      | some name ↦
          if streq name (codes "rmschannels")
          then (record st { doc = some parsed.children; cur_node = here }, true)
          else (record st { doc = none; cur_node = [] }, false)
    ]

-- The walk to the next channel node, from a node on.
unfoldable pub next_channel : List Node → List Node
next_channel [] = []
next_channel (other_node ∷ nodes) = next_channel nodes
next_channel (node name props children ∷ nodes) =
    let rest = next_channel nodes in
    if streq name (codes "channel") then node name props children ∷ nodes else rest

abbrev pub name_of : Field → Str
name_of basecall = codes "basecall"
name_of callsign = codes "callsign"
name_of password = codes "password"
name_of gridsquare = codes "gridsquare"
name_of frequency = codes "frequency"
name_of mode = codes "mode"
name_of autoonly = codes "autoonly"
name_of baud = codes "baud"
name_of power = codes "power"
name_of height = codes "height"
name_of gain = codes "gain"
name_of direction = codes "direction"
name_of hours = codes "hours"
name_of groupreference = codes "groupreference"
name_of servicecode = codes "servicecode"
name_of statuschecker = codes "statuschecker"

-- The names in the order in which an element's is compared with them.
abbrev pub all_fields : List Field
all_fields =
    basecall ∷ callsign ∷ password ∷ gridsquare ∷ frequency ∷ mode ∷ autoonly ∷ baud ∷ power
    ∷ height ∷ gain ∷ direction ∷ hours ∷ groupreference ∷ servicecode ∷ statuschecker ∷ []

unfoldable pub field_in : List Field → Str → Option Field
field_in [] name = none
field_in (f ∷ fields) name =
    let rest = field_in fields name in if streq name (name_of f) then some f else rest

-- The field that an element's content goes to.
unfoldable pub field_of : Str → Option Field
unfolding field_in
field_of name = field_in all_fields name

-- At most MAXSERVICECODE bytes of a service code are kept.
abbrev pub limited : Field → Str → Str
limited servicecode content = take 16 content
limited f content = content

unfoldable pub store : Field → Str → Channel → Channel
store f content c = record c {
  ch_field = λ g. if number f == number g then some content else c.ch_field g;
}

abbrev pub blanks : Str
blanks = codes " \t\n"

abbrev pub bigbuf : ℕ
bigbuf = 2048

-- `strtrim(cbuf, content, " \t\n", 0)`, which copies what stands behind the leading blanks before it
-- cuts the end. `none` is a write behind the end of `cbuf`.
unfoldable pub trimmed : Str → Option Str
trimmed content =
    if ltb (length (strtrim content blanks (negsuc 0))) bigbuf
    then some (strtrim content blanks (pos 0))
    else none

-- The symbol table and the entry.
pub record Loading : Type 0 where
  pub chan_sym_tab : List Symbol
  pub entry : Channel

-- `symAdd` with an allocation that succeeds; an empty name is refused and nothing changes.
unfoldable pub add_symbol : List Symbol → Str → Str → List Symbol
unfolding sym_add
add_symbol symtab s v = elim (sym_add true symtab (some s) (some v)) [ none ↦ symtab | some t ↦ t ]

-- The field of an element, where it has one, is stored.
abbrev pub store_at : Option Field → Str → Channel → Channel
store_at none content c = c
store_at (some f) content c = store f (limited f content) c

-- What an element with a trimmed content does.
unfoldable pub take_element : Str → Str → Loading → Loading
unfolding field_of store add_symbol
take_element name content l = record {
  chan_sym_tab = add_symbol l.chan_sym_tab name content;
  entry = store_at (field_of name) content l.entry;
}

abbrev pub bind {ℓ} : {A : Type 0} {B : Type ℓ} → Option A → (A → Option B) → Option B
bind none f = none
bind (some a) f = f a

-- The loop over the children of a channel node.
unfoldable pub take_children : List Child → Loading → Option Loading
unfolding trimmed take_element
take_children [] l = some l
take_children (other_child ∷ children) l = take_children children l
take_children (element name content ∷ children) l =
    bind (trimmed content) (λ text. take_children children (take_element name text l))

-- An attribute in the symbol table.
abbrev pub add_attribute : List Symbol → Str → Option Str → List Symbol
add_attribute symtab name none = symtab
add_attribute symtab name (some v) = add_symbol symtab name v

unfoldable pub attributes : (Str → Option Str) → Channel → Loading
attributes props c = record {
  chan_sym_tab =
      add_attribute
        (add_attribute (add_attribute [] (codes "name") (props (codes "name"))) (codes "type")
          (props (codes "type")))
        (codes "active") (props (codes "active"));
  entry = record c {
    ch_name = props (codes "name");
    ch_type = props (codes "type");
    ch_active = props (codes "active");
  };
}

-- The substitution in the status checker. `none` is a read of NULL, or an access outside a buffer.
unfoldable pub finish : Loading → Option Channel
unfolding store
finish l = bind (l.entry.ch_field statuschecker) (λ checker.
    bind (varsubst l.chan_sym_tab checker) (λ cbuf.
      if leb (length cbuf) bigbuf then some (store statuschecker (c_str cbuf) l.entry) else none))

-- The entry of a channel node, over the entry that was there before.
unfoldable pub load_entry : (Str → Option Str) → List Child → Channel → Option Channel
unfolding attributes take_children finish
load_entry props children c = bind (take_children children (attributes props c)) finish

-- What a call of `nextent` or `getchanent` finds: an entry, nothing, or a fault.
pub data Got : Type 0 where
  got : ChanState → Got
  no_more : ChanState → Got
  crashed : Got

abbrev pub got_entry : ChanState → List Node → Option Channel → Got
got_entry st nodes none = crashed
got_entry st nodes (some c) = got (record st { cur_node = nodes; curent = c })

-- The work at the node that the walk has found.
unfoldable pub at_node : ChanState → List Node → Got
unfolding load_entry
at_node st [] = no_more (record st { cur_node = [] })
at_node st (other_node ∷ nodes) = crashed
at_node st (node name props children ∷ nodes) =
    got_entry st (node name props children ∷ nodes) (load_entry props children st.curent)

-- `cur_node = cur_node == NULL ? root->children : cur_node->next`
abbrev pub following : List Node → List Node → List Node
following root [] = root
following root (n ∷ nodes) = nodes

-- nextent of lib/getchan.c, with the file open.
unfoldable pub next_entry : List Node → ChanState → Got
unfolding next_channel at_node
next_entry root st = at_node st (next_channel (following root st.cur_node))

abbrev pub with_doc : Option (List Node) → (List Node → Got) → Got → Got
with_doc none entries other = other
with_doc (some root) entries other = entries root

-- getchanent, which opens the file if there is no document.
unfoldable pub getchanent : Option Doc → ChanState → Got
unfolding next_entry setchanent
getchanent parsed st =
    let (opened, ok) = setchanent parsed st in
    with_doc st.doc (λ root. next_entry root st)
      (with_doc opened.doc (λ root. next_entry root opened) (no_more opened))
