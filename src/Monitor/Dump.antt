-- ===== src/Monitor/Dump.antt =====
-- dumpshm of rmsgwmon/rmsgwmon.c, as the lines that it prints.
use rmsgw.Prelude.{
  ℕ, suc, ◌+◌, ◌-◌, ◌*◌, ◌^◌, ◌≡◌, refl, sym, ◌∙◌, List, [], ◌∷◌, ◌++◌, arith, ltb, if◌then◌else◌,
  length, take, length-append, Str, codes, decimal,
}
use rmsgw.Status.Block.{AciHostStat, AciStat, RmsgwStat, RmsStatus, rms_maxhostname}
use rmsgw.Status.StateText.{gw_number, aci_number}
use rmsgw.Monitor.{number_text, long_text}

-- `%d` on a counter of 32 bits
unfoldable pub int_text : ℕ → Str
int_text n = if ltb n (2 ^ 31) then decimal n else b'-' ∷ decimal (2 ^ 32 - n)

-- "%s[%d].%s: %s", with a place of a table and a field.
abbrev pub field_line : Str → ℕ → Str → Str → Str
field_line table i field value =
    table ++ (b'[' ∷ (decimal i ++ (codes "]." ++ (field ++ (codes ": " ++ value)))))

-- "\"%.*s\""
abbrev pub quoted : ℕ → Str → Str
quoted n s = b'"' ∷ (take n s ++ (b'"' ∷ []))

unfoldable pub host_dump : ℕ → AciHostStat → List Str
unfolding long_text int_text
host_dump i h =
    field_line (codes "aci.aci_host") i (codes "aci_host") (quoted rms_maxhostname h.aci_host)
    ∷ field_line (codes "aci.aci_host") i (codes "aci_host_last_ci") (long_text h.aci_host_last_ci)
    ∷ field_line (codes "aci.aci_host") i (codes "aci_host_last_failure")
        (long_text h.aci_host_last_failure)
    ∷ field_line (codes "aci.aci_host") i (codes "aci_host_tot_fail_count")
        (long_text h.aci_host_tot_fail_count)
    ∷ field_line (codes "aci.aci_host") i (codes "aci_host_cur_fail_count")
        (long_text h.aci_host_cur_fail_count)
    ∷ field_line (codes "aci.aci_host") i (codes "aci_host_cur_channel_updates")
        (int_text h.aci_host_cur_channel_updates)
    ∷ field_line (codes "aci.aci_host") i (codes "aci_host_cur_channel_errors")
        (int_text h.aci_host_cur_channel_errors)
    ∷ []

unfoldable pub gw_dump : ℕ → RmsgwStat → List Str
unfolding long_text
gw_dump i g =
    field_line (codes "rmsgw") i (codes "gw_pid") (number_text g.gw_pid)
    ∷ field_line (codes "rmsgw") i (codes "gw_state") (decimal (gw_number g.gw_state))
    ∷ field_line (codes "rmsgw") i (codes "gw_call") (quoted 10 g.gw_gwcall)
    ∷ field_line (codes "rmsgw") i (codes "gw_client") (quoted 10 g.gw_client)
    ∷ field_line (codes "rmsgw") i (codes "gw_cms") (quoted rms_maxhostname g.gw_cms)
    ∷ field_line (codes "rmsgw") i (codes "gw_connects") (long_text g.gw_connects)
    ∷ field_line (codes "rmsgw") i (codes "gw_bytes_in") (long_text g.gw_bytes_in)
    ∷ field_line (codes "rmsgw") i (codes "gw_bytes_out") (long_text g.gw_bytes_out)
    ∷ []

-- A loop over a table, from a place on.
unfoldable pub dump_table {ℓ} : {A : Type ℓ} → (ℕ → A → List Str) → ℕ → List A → List Str
dump_table dump i [] = []
dump_table dump i (e ∷ table) = dump i e ++ dump_table dump (i + 1) table

abbrev aci_lines : AciStat → List Str
aci_lines aci =
    (codes "aci.aci_pid: " ++ number_text aci.aci_pid)
    ∷ (codes "aci.aci_state: " ++ decimal (aci_number aci.aci_state))
    ∷ (codes "aci.aci_hostidx: " ++ number_text aci.aci_hostidx)
    ∷ dump_table host_dump 0 aci.aci_hosts

unfoldable pub dumpshm : RmsStatus → List Str
unfolding host_dump gw_dump dump_table
dumpshm p =
    codes "*** Linux RMS Gateway Shared Memory Dump***"
    ∷ codes "-------------------------------------------"
    ∷ (codes "hdr.rms_hdr_magic: " ++ take 8 p.rms_hdr_magic)
    ∷ (aci_lines p.aci ++ dump_table gw_dump 0 p.rmsgw)

suc_mul : (n k : ℕ) → suc n * k ≡ k + n * k
suc_mul n k = grind arith

length-dump_table {ℓ} :
    {A : Type ℓ}
    → (dump : ℕ → A → List Str) (k i : ℕ) (table : List A)
    → ((j : ℕ) (e : A) → length (dump j e) ≡ k)
    → length (dump_table dump i table) ≡ length table * k
unfolding dump_table
length-dump_table dump k i [] h = omega arith
length-dump_table dump k i (e ∷ table) h =
    let later = length-dump_table dump k (i + 1) table h in
    length-append (dump i e) (dump_table dump (i + 1) table)
    ∙ rw (h i e, later) (sym (suc_mul (length table) k))

host_lines : (i : ℕ) (h : AciHostStat) → length (host_dump i h) ≡ 7
unfolding host_dump
host_lines i h = refl

gw_lines : (i : ℕ) (g : RmsgwStat) → length (gw_dump i g) ≡ 8
unfolding gw_dump
gw_lines i g = refl

-- The dump of a block has six lines, seven for each host and eight for each gateway.
pub length-dumpshm :
    (p : RmsStatus) → length (dumpshm p) ≡ 6 + length p.aci.aci_hosts * 7 + length p.rmsgw * 8
unfolding dumpshm
length-dumpshm p = omega (
  arith,
  length-append (dump_table host_dump 0 p.aci.aci_hosts) (dump_table gw_dump 0 p.rmsgw),
  length-dump_table host_dump 7 0 p.aci.aci_hosts host_lines,
  length-dump_table gw_dump 8 0 p.rmsgw gw_lines,
)
