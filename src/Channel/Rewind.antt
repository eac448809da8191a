-- ===== src/Channel/Rewind.antt =====
-- endchanent of lib/getchan.c, and getchanent behind it.
use rmsgw.Prelude.{◌≡◌, refl, Option, none, some, List, [], codes}
use rmsgw.Channel.File.{Node, ChanState, Channel, setchanent, next_entry, getchanent}

-- `cur_node` without a document stays as it is.
abbrev pub closed_node : Option (List Node) → List Node → List Node
closed_node none nodes = nodes
closed_node (some root) nodes = []

unfoldable pub endchanent : ChanState → ChanState
endchanent st = record st { doc = none; cur_node = closed_node st.doc st.cur_node }

-- Behind endchanent an open file is walked from its start again, as it then is; the static entry is kept.
pub getchanent-endchanent :
    (children root nodes : List Node) (c : Channel)
    → getchanent
        (some (record { root_name = some (codes "rmschannels"); children = children }))
        (endchanent (record { doc = some root; cur_node = nodes; curent = c }))
      ≡ next_entry children (record { doc = some children; cur_node = []; curent = c })
unfolding getchanent endchanent setchanent
getchanent-endchanent children root nodes c = refl
