-- ===== src/Status/Block.antt =====
-- The status block of include/rmsshm.h and the operations of lib/statblock.c on it.
use rmsgw.Prelude.{
  ℕ, suc, ◌+◌, ◌-◌, ◌%◌, ◌^◌, refl, Bool, Option, none, some, List, [], if◌then◌else◌, modify, take,
  replicate, Str, codes, strneq, ℤ, pos, negsuc, to_size,
}
use rmsgw.Status.Slots.{Named, find_slot}

abbrev pub maxgwcall : ℕ
maxgwcall = 9

abbrev pub maxusercall : ℕ
maxusercall = 9

abbrev pub rms_maxhostname : ℕ
rms_maxhostname = 64

abbrev pub rms_cms_table_size : ℕ
rms_cms_table_size = 10

abbrev pub rms_gw_table_size : ℕ
rms_gw_table_size = 10

pub data GwState : Type 0 where
  gw_unused gw_running gw_idle gw_connecting gw_authorizing gw_connected gw_login gw_loggedin :
      GwState
  gw_commwait gw_sending gw_receiving gw_disconnecting gw_disconnected : GwState

pub data AciState : Type 0 where
  aci_unused aci_running aci_idle aci_connecting aci_connected aci_channeladd : AciState
  aci_channelupdate aci_versionupdate aci_disconnecting aci_disconnected : AciState

pub record AciHostStat : Type 0 where
  pub aci_host : Str
  pub aci_host_last_ci : ℕ
  pub aci_host_ci_count : ℕ
  pub aci_host_last_failure : ℕ
  pub aci_host_tot_fail_count : ℕ
  pub aci_host_cur_fail_count : ℕ
  pub aci_host_cur_channel_updates : ℕ
  pub aci_host_cur_channel_errors : ℕ

pub record AciStat : Type 0 where
  pub aci_pid : ℤ
  pub aci_state : AciState
  pub aci_hostidx : ℤ
  pub aci_hosts : List AciHostStat

pub record RmsgwStat : Type 0 where
  pub gw_pid : ℤ
  pub gw_state : GwState
  pub gw_gwcall : Str
  pub gw_client : Str
  pub gw_cms : Str
  pub gw_connects : ℕ
  pub gw_bytes_in : ℕ
  pub gw_bytes_out : ℕ

pub record RmsStatus : Type 0 where
  pub rms_hdr_magic : Str
  pub aci : AciStat
  pub rmsgw : List RmsgwStat

abbrev pub u32_mod : ℕ
u32_mod = 2 ^ 32

abbrev pub u64_mod : ℕ
u64_mod = 2 ^ 64

-- An int converted to `unsigned int`.
abbrev pub to_u32 : ℤ → ℕ
to_u32 (pos k) = k % u32_mod
to_u32 (negsuc k) = u32_mod - suc (k % u32_mod)

abbrev pub aci_named : Named AciHostStat
aci_named = record {
  name = λ e. e.aci_host;
  rename = λ e s. record e { aci_host = s };
  name-rename = λ e s. refl;
}

abbrev pub gw_named : Named RmsgwStat
gw_named = record {
  name = λ e. e.gw_gwcall;
  rename = λ e s. record e { gw_gwcall = s };
  name-rename = λ e s. refl;
}

-- sbset_aci_state, sbset_aci_pid
unfoldable pub sbset_aci_state : RmsStatus → AciState → RmsStatus
sbset_aci_state p s = let aci = p.aci in record p { aci = record aci { aci_state = s } }

unfoldable pub sbset_aci_pid : RmsStatus → ℤ → RmsStatus
sbset_aci_pid p getpid = let aci = p.aci in record p { aci = record aci { aci_pid = getpid } }

-- The index is published only when a slot is found.
unfoldable pub publish_slot : RmsStatus → List AciHostStat × Option ℕ → RmsStatus × Option ℕ
publish_slot p (hosts, none) =
    let aci = p.aci in (record p { aci = record aci { aci_hosts = hosts } }, none)
publish_slot p (hosts, some i) =
    let aci = p.aci in
    (record p { aci = record aci { aci_hosts = hosts; aci_hostidx = pos i } }, some i)

unfoldable pub get_cms_slot : RmsStatus → Str → RmsStatus × Option ℕ
unfolding publish_slot
get_cms_slot p cms_host =
    publish_slot p (find_slot aci_named rms_maxhostname p.aci.aci_hosts cms_host 0)

-- `if (… < 0) return;` and then a change of the slot's entry.
unfoldable pub change_host : RmsStatus × Option ℕ → (AciHostStat → AciHostStat) → RmsStatus
change_host (q, none) change = q
change_host (q, some i) change =
    let aci = q.aci in record q { aci = record aci { aci_hosts = modify aci.aci_hosts i change } }

unfoldable pub at_cms_slot : RmsStatus → Str → (AciHostStat → AciHostStat) → RmsStatus
unfolding get_cms_slot change_host
at_cms_slot p cms_host change = change_host (get_cms_slot p cms_host) change

unfoldable pub sb_incr_aci_error : RmsStatus → Str → ℕ → RmsStatus
unfolding at_cms_slot
sb_incr_aci_error p cms_host now = at_cms_slot p cms_host (λ h. record h {
  aci_host_last_failure = now;
  aci_host_tot_fail_count = (h.aci_host_tot_fail_count + 1) % u64_mod;
  aci_host_cur_fail_count = (h.aci_host_cur_fail_count + 1) % u64_mod;
})

unfoldable pub sb_incr_aci_checkin : RmsStatus → Str → ℕ → RmsStatus
unfolding at_cms_slot
sb_incr_aci_checkin p cms_host now = at_cms_slot p cms_host (λ h. record h {
  aci_host_last_ci = now;
  aci_host_ci_count = (h.aci_host_ci_count + 1) % u64_mod;
  aci_host_cur_fail_count = 0;
})

unfoldable pub sbset_channel_stats : RmsStatus → Str → ℤ → ℤ → RmsStatus
unfolding at_cms_slot
sbset_channel_stats p cms_host updates errors = at_cms_slot p cms_host (λ h. record h {
  aci_host_cur_channel_updates = to_u32 updates;
  aci_host_cur_channel_errors = to_u32 errors;
})

unfoldable pub get_gw_slot : RmsStatus → Str → RmsStatus × Option ℕ
get_gw_slot p gwcall =
    let (table, slot) = find_slot gw_named maxgwcall p.rmsgw gwcall 0 in
    (record p { rmsgw = table }, slot)

-- `if ((i = get_gw_slot(p, gwcall)) < 0) return;` and then a change of the slot's entry.
unfoldable pub at_gw_slot : RmsStatus → Str → (RmsgwStat → RmsgwStat) → RmsStatus
unfolding get_gw_slot
at_gw_slot p gwcall change =
    let (q, slot) = get_gw_slot p gwcall in
    elim slot [ none ↦ q | some i ↦ record q { rmsgw = modify q.rmsgw i change } ]

unfoldable pub sbset_gw_state : RmsStatus → GwState → Str → RmsStatus
unfolding at_gw_slot
sbset_gw_state p s gwcall = at_gw_slot p gwcall (λ g. record g { gw_state = s })

unfoldable pub sbset_gw_pid : RmsStatus → Str → ℤ → RmsStatus
unfolding at_gw_slot
sbset_gw_pid p gwcall getpid = at_gw_slot p gwcall (λ g. record g { gw_pid = getpid })

-- A NULL user call is `none`.
unfoldable pub sbset_gw_usercall : RmsStatus → Str → Option Str → RmsStatus
unfolding at_gw_slot
sbset_gw_usercall p gwcall usercall =
    at_gw_slot p gwcall
      (λ g. elim usercall [ none ↦ g | some call ↦ record g { gw_client = take maxusercall call } ])

unfoldable pub sbset_gw_cms : RmsStatus → Str → Option Str → RmsStatus
unfolding at_gw_slot
sbset_gw_cms p gwcall cms_host =
    at_gw_slot p gwcall (λ g. elim cms_host [
      | none ↦ g
      | some host ↦ record g { gw_cms = take rms_maxhostname host }
    ])

unfoldable pub sb_incr_gw_connects : RmsStatus → Str → RmsStatus
unfolding at_gw_slot
sb_incr_gw_connects p gwcall =
    at_gw_slot p gwcall (λ g. record g { gw_connects = (g.gw_connects + 1) % u64_mod })

-- The count is a `long`; adding it to an unsigned counter adds its 64-bit pattern.
unfoldable pub sb_add_gw_bytes_in : RmsStatus → Str → ℤ → RmsStatus
unfolding at_gw_slot
sb_add_gw_bytes_in p gwcall count =
    at_gw_slot p gwcall (λ g. record g { gw_bytes_in = (g.gw_bytes_in + to_size count) % u64_mod })

unfoldable pub sb_add_gw_bytes_out : RmsStatus → Str → ℤ → RmsStatus
unfolding at_gw_slot
sb_add_gw_bytes_out p gwcall count =
    at_gw_slot p gwcall
      (λ g. record g { gw_bytes_out = (g.gw_bytes_out + to_size count) % u64_mod })

abbrev pub rms_shm_magic : Str
rms_shm_magic = codes "!RMSGW00"

abbrev pub zero_host : AciHostStat
zero_host = record {
  aci_host = [];
  aci_host_last_ci = 0;
  aci_host_ci_count = 0;
  aci_host_last_failure = 0;
  aci_host_tot_fail_count = 0;
  aci_host_cur_fail_count = 0;
  aci_host_cur_channel_updates = 0;
  aci_host_cur_channel_errors = 0;
}

abbrev pub zero_gw : RmsgwStat
zero_gw = record {
  gw_pid = negsuc 0;
  gw_state = gw_unused;
  gw_gwcall = [];
  gw_client = [];
  gw_cms = [];
  gw_connects = 0;
  gw_bytes_in = 0;
  gw_bytes_out = 0;
}

-- The magic number stands at the front of the segment.
abbrev pub has_magic : RmsStatus → Bool
has_magic b = strneq b.rms_hdr_magic rms_shm_magic 8

-- What `statblock_attach` writes into a new segment.
unfoldable pub initial_block : RmsStatus
initial_block = record {
  rms_hdr_magic = rms_shm_magic;
  aci = record {
    aci_pid = negsuc 0;
    aci_state = aci_unused;
    aci_hostidx = negsuc 0;
    aci_hosts = replicate rms_cms_table_size zero_host;
  };
  rmsgw = replicate rms_gw_table_size zero_gw;
}

-- `statblock_attach`, from what `shm_get` and `shm_attach` return: `none` for their failure, and
-- otherwise the segment with the flag that says that this call made it.
unfoldable pub statblock_attach : Option Bool → Option RmsStatus → Option RmsStatus
statblock_attach none segment = none
statblock_attach (some must_init) none = none
statblock_attach (some must_init) (some block) =
    some (if must_init then (if has_magic block then block else initial_block) else block)
