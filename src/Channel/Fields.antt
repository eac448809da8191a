-- ===== src/Channel/Fields.antt =====
-- What an entry of the channel file (lib/getchan.c) has in each field.
use rmsgw.Prelude.{
  ℕ, zero, suc, ◌≡◌, refl, sym, ap, ◌∙◌, ◌≢◌, inl, inr, Bool, true, false, Option, none, some, List,
  [], ◌∷◌, arith, ltb, leb, ◌==◌, if◌then◌else◌, ==_iff, Bool-cases, Option-cases, length, take,
  Str, codes, streq, streq_iff, c_str, pos, negsuc,
}
use rmsgw.Text.Trim.{strtrim}
use rmsgw.Text.Var.{varsubst}
use rmsgw.Channel.File.{
  Field, basecall, callsign, password, gridsquare, frequency, mode, autoonly, baud, power, height,
  gain, direction, hours, groupreference, servicecode, statuschecker, number, attributes, Channel,
  Child, element, other_child, name_of, all_fields, field_in, field_of, limited, store, store_at,
  blanks, bigbuf, trimmed, Loading, take_element, bind, take_children, finish, load_entry,
}

-- What is kept of a trimmed content: at most 16 bytes of a service code.
abbrev pub kept_of : Field → Str → Str
kept_of f content = if streq (name_of f) (codes "servicecode") then take 16 content else content

-- The content that the children give a field: that of the last element with its name, trimmed.
abbrev pub content_of : Field → List Child → Option Str
content_of f [] = none
content_of f (other_child ∷ children) = content_of f children
content_of f (element name content ∷ children) = elim (content_of f children) [
  | some v ↦ some v
  | none ↦
      if streq name (name_of f) then some (kept_of f (strtrim content blanks (pos 0))) else none
]

abbrev pub or_else {ℓ} : {A : Type ℓ} → Option A → Option A → Option A
or_else none o = o
or_else (some a) o = some a

-- The place of a field in the order of the comparisons, by its name and back.
name_at : List Field → ℕ → Str
name_at [] n = []
name_at (f ∷ fields) zero = name_of f
name_at (f ∷ fields) (suc n) = name_at fields n

place_of : List Field → Str → ℕ
place_of [] name = 0
place_of (f ∷ fields) name = if streq (name_of f) name then 0 else suc (place_of fields name)

name_at-number : (f : Field) → name_at all_fields (number f) ≡ name_of f
unfolding name_at
name_at-number basecall = refl
name_at-number _ = refl

place_of-name_of : (f : Field) → place_of all_fields (name_of f) ≡ number f
unfolding place_of streq
place_of-name_of basecall = refl
place_of-name_of _ = refl

streq-name_of : (g f : Field) → streq (name_of g) (name_of f) ≡ (number g == number f)
streq-name_of g f = elim (Bool-cases (streq (name_of g) (name_of f))) [
  | inl same ↦
      let names : name_of g ≡ name_of f = (streq_iff (name_of g) (name_of f)).0 same in
      let numbers : number g ≡ number f =
        sym (place_of-name_of g) ∙ ap (place_of all_fields) names ∙ place_of-name_of f in
      rw same (sym ((==_iff (number g) (number f)).1 numbers))
  | inr other ↦ elim (Bool-cases (number g == number f)) [
    | inl equal ↦
        let numbers : number g ≡ number f = (==_iff (number g) (number f)).0 equal in
        let names : name_of g ≡ name_of f =
          sym (name_at-number g) ∙ ap (name_at all_fields) numbers ∙ name_at-number f in
        absurd (cc ((streq_iff (name_of g) (name_of f)).1 names))
    | inr unequal ↦ rw (other, unequal) refl
  ]
]

field_of-name_of : (f : Field) → field_of (name_of f) ≡ some f
unfolding field_of streq
field_of-name_of basecall = refl
field_of-name_of _ = refl

field_in-some :
    (fields : List Field) (name : Str) {g : Field}
    → field_in fields name ≡ some g
    → name ≡ name_of g
unfolding field_in
field_in-some [] name {g = g} e = cc
field_in-some (f ∷ fields) name {g = g} e = elim (Bool-cases (streq name (name_of f))) [
  | inl same ↦
      let found : f ≡ g = cc (rw same at e) in
      (streq_iff name (name_of f)).0 same ∙ ap name_of found
  | inr other ↦ field_in-some fields name (rw other at e)
]

abbrev holds : Option Field → Field → Bool
holds none f = false
holds (some g) f = number g == number f

-- What the field of a name says of another field's name.
field_of-test : (name : Str) (f : Field) → streq name (name_of f) ≡ holds (field_of name) f
field_of-test name f = elim (Option-cases (field_of name)) [
  | inl missing ↦ elim (Bool-cases (streq name (name_of f))) [
    | inl same ↦ absurd (cc (field_of-name_of f, ap field_of ((streq_iff name (name_of f)).0 same)))
    | inr other ↦ rw missing other
  ]
  | inr (g, found) ↦
      let e : name ≡ name_of g = unfold field_of in field_in-some all_fields name found in
      rw found (rw e (streq-name_of g f))
]

same_field : (g f : Field) → number g ≡ number f → name_of g ≡ name_of f
same_field g f e = sym (name_at-number g) ∙ ap (name_at all_fields) e ∙ name_at-number f

limited_servicecode :
    (f : Field) (content : Str)
    → limited f content ≡ (if number f == 14 then take 16 content else content)
limited_servicecode basecall content = refl
limited_servicecode callsign content = refl
limited_servicecode password content = refl
limited_servicecode gridsquare content = refl
limited_servicecode frequency content = refl
limited_servicecode mode content = refl
limited_servicecode autoonly content = refl
limited_servicecode baud content = refl
limited_servicecode power content = refl
limited_servicecode height content = refl
limited_servicecode gain content = refl
limited_servicecode direction content = refl
limited_servicecode hours content = refl
limited_servicecode groupreference content = refl
limited_servicecode servicecode content = refl
limited_servicecode statuschecker content = refl

limited-same :
    (g f : Field) (content : Str) → number g ≡ number f → limited g content ≡ limited f content
limited-same g f content e =
    rw (limited_servicecode g content, limited_servicecode f content, e) refl

store_at-field :
    (o : Option Field) (content : Str) (c : Channel) (f : Field)
    → (store_at o content c).ch_field f
      ≡ (if holds o f then some (limited f content) else c.ch_field f)
unfolding store
store_at-field none content c f = refl
store_at-field (some g) content c f = elim (Bool-cases (number g == number f)) [
  | inl equal ↦
      rw equal (ap some (limited-same g f content ((==_iff (number g) (number f)).0 equal)))
  | inr unequal ↦ rw unequal refl
]

take_element-field :
    (name content : Str) (l : Loading) (f : Field)
    → (take_element name content l).entry.ch_field f
      ≡ (if streq name (name_of f) then some (limited f content) else l.entry.ch_field f)
unfolding take_element
take_element-field name content l f =
    rw (field_of-test name f) (store_at-field (field_of name) content l.entry f)

-- One element, after the ones behind it.
element_first :
    (later before : Option Str) {now : Option Str} (t : Bool) (text : Str)
    → now ≡ (if t then some text else before)
    → or_else later now
      ≡ or_else (elim later [ some v ↦ some v | none ↦ if t then some text else none ]) before
element_first none before true text e = e
element_first none before false text e = e
element_first (some v) before t text e = refl

kept_of-limited : (f : Field) (content : Str) → kept_of f content ≡ limited f content
unfolding streq
kept_of-limited basecall content = refl
kept_of-limited servicecode content = refl
kept_of-limited _ content = refl

take_children-field :
    (children : List Child) (l : Loading) {l' : Loading} (f : Field)
    → take_children children l ≡ some l'
    → l'.entry.ch_field f ≡ or_else (content_of f children) (l.entry.ch_field f)
unfolding take_children trimmed
take_children-field [] l {l' = l'} f e =
    let same : l ≡ l' = cc in ap (λ (x : Loading). x.entry.ch_field f) (sym same)
take_children-field (other_child ∷ children) l f e = take_children-field children l f e
take_children-field (element name content ∷ children) l {l' = l'} f e =
    elim (Bool-cases (ltb (length (strtrim content blanks (negsuc 0))) 2048)) [
      | inl fits ↦
          let text : Str = strtrim content blanks (pos 0) in
          take_children-field children (take_element name text l) f (rw fits at e)
          ∙ element_first (content_of f children) (l.entry.ch_field f) (streq name (name_of f))
              (kept_of f text)
              (take_element-field name text l f
                ∙ ap (λ x. if streq name (name_of f) then some x else l.entry.ch_field f)
                    (sym (kept_of-limited f text)))
      | inr long ↦ absurd (cc (rw long at e))
    ]

bind-some :
    {A B : Type 0} (o : Option A) (f : A → Option B) {b : B}
    → bind o f ≡ some b
    → (a : A) × (o ≡ some a) × (f a ≡ some b)
bind-some none f {b = b} e = absurd (cc)
bind-some (some a) f {b = b} e = (a, refl, e)

store_at-ch_name :
    (o : Option Field) (content : Str) (c : Channel) → (store_at o content c).ch_name ≡ c.ch_name
unfolding store
store_at-ch_name none content c = refl
store_at-ch_name (some g) content c = refl

take_children-ch_name :
    (children : List Child) (l : Loading) {l' : Loading}
    → take_children children l ≡ some l'
    → l'.entry.ch_name ≡ l.entry.ch_name
unfolding take_children take_element
take_children-ch_name [] l {l' = l'} e =
    let same : l ≡ l' = cc in ap (λ (x : Loading). x.entry.ch_name) (sym same)
take_children-ch_name (other_child ∷ children) l e = take_children-ch_name children l e
take_children-ch_name (element name content ∷ children) l {l' = l'} e =
    let (text, fits, later) =
      bind-some (trimmed content) (λ t. take_children children (take_element name t l)) e in
    take_children-ch_name children (take_element name text l) later
    ∙ store_at-ch_name (field_of name) text l.entry

finish-kept :
    (l : Loading) {e : Channel} (f : Field)
    → finish l ≡ some e
    → number f ≢ number statuschecker
    → (e.ch_field f ≡ l.entry.ch_field f) × (e.ch_name ≡ l.entry.ch_name)
unfolding finish store
finish-kept l {e = e} f done other =
    let (checker, had, after) = bind-some (l.entry.ch_field statuschecker) _ done in
    let (cbuf, substituted, last) = bind-some (varsubst l.chan_sym_tab checker) _ after in
    elim (Bool-cases (leb (length cbuf) bigbuf)) [
      | inl fits ↦
          let stored : store statuschecker (c_str cbuf) l.entry ≡ e = cc (rw fits at last) in
          let apart : (number statuschecker == number f) ≡ false = ground arith in
          (
            ap (λ (x : Channel). x.ch_field f) (sym stored) ∙ rw apart refl,
            ap (λ (x : Channel). x.ch_name) (sym stored),
          )
      | inr long ↦ absurd (cc (rw long at last))
    ]

-- The entry of a channel node, against the one that it is written over (`c`): its name is the
-- attribute, and each field but the status checker has the content of the last element with the
-- field's name, trimmed and, for the service code, cut to 16 bytes; where no element has the name, the field is what it was before.
pub load_entry_lem :
    (props : Str → Option Str) (children : List Child) (c : Channel) {e : Channel} (f : Field)
    → load_entry props children c ≡ some e
    → number f ≢ number statuschecker
    → (e.ch_field f ≡ or_else (content_of f children) (c.ch_field f))
      × (e.ch_name ≡ props (codes "name"))
unfolding load_entry attributes
load_entry_lem props children c {e = e} f loaded other =
    let (l, taken, finished) =
      bind-some (take_children children (attributes props c)) finish loaded in
    let (kept, named) = finish-kept l f finished other in
    (
      kept ∙ take_children-field children (attributes props c) f taken,
      named ∙ take_children-ch_name children (attributes props c) taken,
    )
