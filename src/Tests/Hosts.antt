-- ===== src/Tests/Hosts.antt =====
-- The host list on concrete inputs.
use rmsgw.Prelude.{
  ℕ, ◌≡◌, refl, some, List, [], ◌∷◌, ◌++◌, arith, ◌==◌, if◌then◌else◌, Str, codes, streq, isspace,
  overlay, pos, decimal, atoi, skip_spaces, fgets_lines,
}
use mathlib.Core.List.{Perm}
use rmsgw.Cms.Node.{Cms, CmsNode, mk_node, addcmsnode}
use rmsgw.Cms.Entry.{
  entry, field, parse_fields, host_field, is_ignored, read_line, found, nextent, putcmsent, bufsize,
}
use rmsgw.Cms.Entry.RoundTrip.{IsHost, nextent-putcmsent}
use rmsgw.Cms.Entry.Stale.{read_line_stale}
use rmsgw.Cms.Order.{IsOrdered, at_time, addcmsnode-IsOrdered}
use rmsgw.Cms.Hosts.{Stat, accessed, missing, getcmslist}
use rmsgw.Cms.Selection.{entries, listed, all_succeed, getcmslist-listed}

abbrev cms_a : Cms
cms_a = record { cms_host = codes "a"; cms_port = pos 8772; cms_passwd = codes "p" }

abbrev cms_b : Cms
cms_b = record { cms_host = codes "b"; cms_port = pos 8772; cms_passwd = codes "q" }

abbrev two_nodes : List CmsNode
two_nodes = mk_node cms_a 3 ∷ mk_node cms_b 5 ∷ []

addcmsnode-IsOrdered_example :
    IsOrdered (addcmsnode all_succeed two_nodes cms_b 3)
    × Perm (addcmsnode all_succeed two_nodes cms_b 3) (mk_node cms_b 3 ∷ two_nodes)
    × ((n : ℕ)
        → at_time n (addcmsnode all_succeed two_nodes cms_b 3)
          ≡ at_time n two_nodes ++ (if 3 == n then mk_node cms_b 3 ∷ [] else []))
addcmsnode-IsOrdered_example =
    addcmsnode-IsOrdered all_succeed two_nodes cms_b 3 refl ((omega arith, tt), (tt, tt))

IsHost-a : IsHost (codes "a")
IsHost-a = record { runs = (refl, tt); no_comment = λ c s e. (λ h. ground arith) }

nextent-putcmsent_example :
    (cbuf' : Str) × (nextent []
        (fgets_lines bufsize (putcmsent (codes "a") 8772 (codes "p") ++ codes "b:1:q\n"))
      ≡ found cms_a cbuf' (fgets_lines bufsize (codes "b:1:q\n")))
unfolding decimal
nextent-putcmsent_example =
    nextent-putcmsent [] (codes "a") (codes "p") (codes "b:1:q\n") 8772 IsHost-a
      ((λ e. omega arith), tt) (refl, tt) (omega arith)

-- The buffer holds the NUL-separated fields of an earlier, longer line.
abbrev stale_buffer : Str
stale_buffer = codes "hos" ++ (0 ∷ codes "8772" ++ (0 ∷ codes "secret" ++ (0 ∷ [])))

read_line_stale_example :
    (cbuf' : Str) × (read_line stale_buffer (codes "xy\n")
      ≡ entry
          (record {
            cms_host = codes "xy\n";
            cms_port = atoi (codes "8772" ++ (0 ∷ codes "secret" ++ (0 ∷ [])));
            cms_passwd = codes "secret";
          })
          cbuf')
unfolding isspace field atoi
read_line_stale_example =
    read_line_stale stale_buffer (codes "y") b'x' (refl, (refl, tt)) refl (λ e. omega arith) refl
      refl

abbrev stat_of : Str → Stat
stat_of host = if streq host (codes "a") then accessed 7 else missing

abbrev host_lines : List Str
host_lines = codes "a:8772:p\n" ∷ codes "# none\n" ∷ codes "b:8772:q\n" ∷ codes "c:80:r\n" ∷ []

getcmslist-listed_example :
    (l : List CmsNode) × (getcmslist stat_of all_succeed [] (some host_lines) ≡ some l)
    × IsOrdered l
    × Perm l (
        listed stat_of (
          cms_a
          ∷ cms_b
          ∷ record { cms_host = codes "c"; cms_port = pos 80; cms_passwd = codes "r" }
          ∷ []))
    × ((n : ℕ)
        → at_time n l
          ≡ at_time n (
              listed stat_of (
                cms_a
                ∷ cms_b
                ∷ record { cms_host = codes "c"; cms_port = pos 80; cms_passwd = codes "r" }
                ∷ [])))
unfolding entries read_line is_ignored overlay skip_spaces isspace parse_fields host_field field
    atoi
getcmslist-listed_example = getcmslist-listed stat_of [] host_lines refl
