-- ===== src/Tests/Disk.antt =====
-- The files, the hooks and the list of the next run on concrete inputs.
use rmsgw.Prelude.{
  ℕ, ◌≡◌, refl, true, ◌||◌, none, some, List, [], ◌∷◌, ◌++◌, arith, if◌then◌else◌, Str, codes,
  isspace, overlay, pos, negsuc, leb_ℤ, atoi, skip_spaces,
}
use rmsgw.Cms.Node.{Cms, CmsNode}
use rmsgw.Cms.Hosts.{getcmslist}
use rmsgw.Cms.Entry.{field, parse_fields, host_field, is_ignored, read_line}
use mathlib.Core.List.{Perm}
use rmsgw.Cms.Selection.{entries, listed, all_succeed}
use rmsgw.Cms.Rotation.{IsRotated}
use rmsgw.Channel.File.{password, store, Channel, ChanState}
use rmsgw.Channel.Search.{found}
use rmsgw.Status.Block.{initial_block}
use rmsgw.Gateway.Conversation.{started, returned}
use rmsgw.Session.Cms.{cms_session, is_missing, connect_and_talk}
use rmsgw.Session.Main.{Host, is_sess_fatal}
use rmsgw.Session.Rotation.{goes_on, host_files, tries_of, host_files-IsRotated}
use rmsgw.Aci.Client.{Aci, no_stats, wexitstatus, channel_available, is_due}
use rmsgw.Aci.Due.{
  channel_statfile, due_at, channels_age_of, channel_round, newer, channel_round_again,
}
use rmsgw.Aci.Hooks.{
  channel_args, pre_update_args, post_update_args, before_null, all_set, channel_updated,
  post_update_args_lem,
}
use rmsgw.Files.{no_entry, Fs, Allowed, age_at, fileage, cms_statfile, host_stat}
use rmsgw.Files.Hook.{gather}
use rmsgw.Files.Redirect.{null_input, null_output, file_of, redirect, redirect_lem}

abbrev no_files : Fs
no_files path = no_entry

abbrev allowed : Allowed
allowed = record { opens = λ path. true; sets_times = λ path. true }

abbrev no_channel : Channel
no_channel = record { ch_name = none; ch_type = none; ch_active = none; ch_field = λ f. none }

abbrev looked_up : ChanState
looked_up = record { doc = none; cur_node = []; curent = store password (codes "pw") no_channel }

abbrev host_of : Str → Host
host_of name = record {
  cmsp = record { cms_host = name; cms_port = pos 8772; cms_passwd = codes "x"; cms_stat_time = 0 };
  attempt = record {
    lookup = found looked_up;
    cms_sock = negsuc 0;
    talk = returned (started 128 0 0 []);
  };
}

abbrev disk_lines : List Str
disk_lines = codes "a:8772:p\n" ∷ codes "b:8772:q\n" ∷ []

abbrev disk_hosts : List Cms
disk_hosts =
    record { cms_host = codes "a"; cms_port = pos 8772; cms_passwd = codes "p" }
    ∷ record { cms_host = codes "b"; cms_port = pos 8772; cms_passwd = codes "q" }
    ∷ []

abbrev at_five : Host → ℕ
at_five h = 5

abbrev tried : List Host
tried = host_of (codes "a") ∷ []

host_files-IsRotated_example :
    (l : List CmsNode) × (getcmslist
        (host_stat
          (codes "/s")
          (host_files (codes "/s") allowed at_five (some (codes "2m")) tried no_files))
        all_succeed
        []
        (some disk_lines)
      ≡ some l)
    × Perm l (
        listed
          (host_stat
            (codes "/s")
            (host_files (codes "/s") allowed at_five (some (codes "2m")) tried no_files))
          disk_hosts)
    × IsRotated (tries_of at_five (some (codes "2m")) tried) l
unfolding entries read_line is_ignored overlay skip_spaces isspace parse_fields host_field field
    atoi goes_on is_sess_fatal cms_session is_missing connect_and_talk store host_stat cms_statfile
host_files-IsRotated_example =
    host_files-IsRotated (codes "/s") allowed at_five (some (codes "2m")) tried 3 no_files []
      disk_lines disk_hosts refl (omega arith) (λ host t e. cc)
      (record { fits = omega arith; opens = refl; sets_times = refl; late = omega arith }, tt)
      (omega arith, (omega arith, tt))

abbrev two_metres : Aci
two_metres = record {
  chnl = record no_channel { ch_name = some (codes "2m") };
  chanstats = no_stats;
  sp = initial_block;
  touched = [];
}

channel_round_again_example :
    let fs' =
      (channel_round
        (codes "/s")
        allowed
        (pos 7140)
        (some (codes "/c"))
        9000
        9001
        (pos 0)
        (pos 0)
        (codes "2m")
        two_metres
        no_files).1 in
    (channel_round
      (codes "/s")
      allowed
      (pos 7140)
      (some (codes "/c"))
      9100
      9101
      (pos 0)
      (pos 0)
      (codes "2m")
      two_metres
      fs').0.touched
    ≡ (if leb_ℤ (pos 7140) (age_at 9101 9001) || newer (some (codes "/c")) 9001 9100 9101 no_files
        then two_metres.chnl.ch_name ∷ two_metres.touched
        else two_metres.touched)
unfolding due_at is_due channels_age_of fileage age_at channel_available wexitstatus
    channel_statfile
channel_round_again_example =
    channel_round_again (codes "/s") allowed (pos 7140) (some (codes "/c")) (codes "2m") 9000 9001
      9100 9101 (pos 0) (pos 0) (pos 0) (pos 0) two_metres two_metres no_files refl refl refl refl
      (λ e. cc) refl

redirect_lem_example :
    redirect (some (file_of 0) ∷ some (file_of 1) ∷ some (file_of 2) ∷ some (file_of 7) ∷ none ∷ [])
    ≡ (some null_input ∷ some null_output ∷ some null_output ∷ some (file_of 7) ∷ none ∷ [])
redirect_lem_example =
    redirect_lem (file_of 0) (file_of 1) (file_of 2) (some (file_of 7) ∷ none ∷ [])

post_update_args_lem_example :
    let args = before_null (pre_update_args (codes "/g") none (codes "/s/x") no_channel) in
    (gather 126 (pre_update_args (codes "/g") none (codes "/s/x") no_channel) ≡ some args)
    × (gather 126 (post_update_args (codes "/g") none (codes "/s/x") no_channel true)
        ≡ some (
            if all_set (channel_args (codes "/g") none (codes "/s/x") no_channel)
            then args ++ (channel_updated true ∷ [])
            else args))
post_update_args_lem_example = post_update_args_lem (codes "/g") none (codes "/s/x") no_channel true
