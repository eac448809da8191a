-- ===== src/Status/Segment.antt =====
-- lib/shm.c: getting the segment of shared memory, and its attachment by two processes (with
-- statblock_attach of lib/statblock.c) whose steps interleave. The results of the system calls are
-- inputs; what a new segment holds is a parameter.
pub mod Sound
pub mod Once
use rmsgw.Prelude.{
  ℕ, Bool, true, false, Option, none, some, List, [], ◌∷◌, ◌++◌, if◌then◌else◌, replicate, Str,
  strneq, ℤ, pos, negsuc, is_neg, is_zero,
}
use rmsgw.Status.Block.{
  has_magic, RmsStatus, AciHostStat, RmsgwStat, aci_unused, gw_unused, zero_host, zero_gw,
  rms_shm_magic, rms_cms_table_size, rms_gw_table_size,
}
use rmsgw.Status.Gateways.{run_op}
use rmsgw.Status.Gateways.Trace.{GwEvent}

-- The result of `shmget` without IPC_CREAT: an id, ENOENT, or another error.
pub data Probe : Type 0 where
  found_id : ℕ → Probe
  no_entry : Probe
  probe_error : Probe

-- shm_getkey, with `ftok` of libc.
unfoldable pub shm_getkey : (Str → ℕ → ℤ) → Str → ℕ → ℤ
shm_getkey ftok pathname proj_id = ftok pathname proj_id

-- shm_get, from the key, the probe and the result of `shmget` with IPC_CREAT: -1, or the id; and `doinit`.
unfoldable pub shm_get : ℤ → Probe → ℤ → ℤ × Bool
shm_get shmkey probe created = if is_neg shmkey then (negsuc 0, false) else elim probe [
  | found_id id ↦ (pos id, false)
  | no_entry ↦ if is_neg created then (negsuc 0, false) else (created, true)
  | probe_error ↦ (negsuc 0, false)
]

-- shm_attach: the segment that `shmat` gives, or its failure.
unfoldable pub shm_attach : Option RmsStatus → Option RmsStatus
shm_attach none = none
shm_attach (some segment) = some segment

-- shm_detach, from the result of `shmdt`.
unfoldable pub shm_detach : ℤ → ℤ
shm_detach rc = if is_neg rc then negsuc 0 else pos 0

-- statblock_detach, from the result of `shmdt`, and set_shm_debug, from that of `stat`, of
-- lib/statblock.c.
unfoldable pub statblock_detach : ℤ → ℤ
unfolding shm_detach
statblock_detach rc = shm_detach rc

unfoldable pub set_shm_debug : ℤ → ℤ
set_shm_debug rc = if is_zero rc then pos 1 else pos 0

-- Where a process is: in front of the two calls of `shmget`, and then in `statblock_attach` in front of
-- `shmat`, of the test of the magic number, of the memset, of the strncpy of the magic number, and of
-- the initialisation of the tables; or it has attached the block. The flag is `shm_must_init`.
pub data ShmState : Type 0 where
  not_begun : ShmState
  saw_none : ShmState
  has_id : Bool → ShmState
  at_test : Bool → ShmState
  clearing : ShmState
  naming : ShmState
  filling : ShmState
  is_attached : Bool → ShmState

-- The segment, if there is one, the two processes, and the operations made on it, the first one first.
pub record World : Type 0 where
  pub segment : Option RmsStatus
  pub one : ShmState
  pub two : ShmState
  pub log : List GwEvent

-- Whose turn is next, and the operation that it makes when it has attached the block.
pub record Move : Type 0 where
  pub who : Bool
  pub event : GwEvent

-- memset(*addr, 0, sizeof(rms_status))
abbrev pub cleared : RmsStatus
cleared = record {
  rms_hdr_magic = [];
  aci = record {
    aci_pid = pos 0;
    aci_state = aci_unused;
    aci_hostidx = pos 0;
    aci_hosts = replicate rms_cms_table_size zero_host;
  };
  rmsgw = replicate rms_gw_table_size (record zero_gw { gw_pid = pos 0 });
}

abbrev pub named : RmsStatus → RmsStatus
named b = record b { rms_hdr_magic = rms_shm_magic }

abbrev fill_hosts : List AciHostStat → List AciHostStat
fill_hosts [] = []
fill_hosts (h ∷ hosts) =
    record h {
      aci_host_last_ci = 0;
      aci_host_last_failure = 0;
      aci_host_tot_fail_count = 0;
      aci_host_cur_fail_count = 0;
      aci_host_cur_channel_updates = 0;
      aci_host_cur_channel_errors = 0;
    }
    ∷ fill_hosts hosts

abbrev fill_gateways : List RmsgwStat → List RmsgwStat
fill_gateways [] = []
fill_gateways (g ∷ gateways) =
    record g {
      gw_pid = negsuc 0;
      gw_state = gw_unused;
      gw_connects = 0;
      gw_bytes_in = 0;
      gw_bytes_out = 0;
    }
    ∷ fill_gateways gateways

-- The tables are initialised over what stands there.
abbrev pub filled : RmsStatus → RmsStatus
filled b = record b {
  aci = record b.aci {
    aci_pid = negsuc 0;
    aci_state = aci_unused;
    aci_hostidx = negsuc 0;
    aci_hosts = fill_hosts b.aci.aci_hosts;
  };
  rmsgw = fill_gateways b.rmsgw;
}

module _ (blank : RmsStatus) where
  -- The next step of a process: where it is then, and the segment. Without IPC_EXCL the second
  -- `shmget` succeeds also when another process has made the segment in between.
  unfoldable pub shm_step : GwEvent → ShmState → Option RmsStatus → ShmState × Option RmsStatus
  unfolding run_op
  shm_step e not_begun none = (saw_none, none)
  shm_step e not_begun (some b) = (has_id false, some b)
  shm_step e saw_none none = (has_id true, some blank)
  shm_step e saw_none (some b) = (has_id true, some b)
  shm_step e (has_id doinit) (some b) = (at_test doinit, some b)
  shm_step e (at_test false) (some b) = (is_attached false, some b)
  shm_step e (at_test true) (some b) =
      ((if has_magic b then is_attached true else clearing), some b)
  shm_step e clearing (some b) = (naming, some cleared)
  shm_step e naming (some b) = (filling, some (named b))
  shm_step e filling (some b) = (is_attached true, some (filled b))
  shm_step e (is_attached doinit) (some b) = (is_attached doinit, some (run_op e.op e.call b))
  shm_step e s none = (s, none)

  -- The operation that is made in a step, if it is one.
  abbrev pub made_in : GwEvent → ShmState → List GwEvent
  made_in e (is_attached doinit) = e ∷ []
  made_in e s = []

  unfoldable pub world_step : Move → World → World
  unfolding shm_step
  world_step m w =
      let (s, now) = shm_step m.event w.one w.segment in
      let (t, later) = shm_step m.event w.two w.segment in
      if m.who
      then record w { segment = now; one = s; log = w.log ++ made_in m.event w.one }
      else record w { segment = later; two = t; log = w.log ++ made_in m.event w.two }

  unfoldable pub run_world : List Move → World → World
  unfolding world_step
  run_world [] w = w
  run_world (m ∷ moves) w = run_world moves (world_step m w)

abbrev pub no_segment : World
no_segment = record { segment = none; one = not_begun; two = not_begun; log = [] }
