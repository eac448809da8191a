-- ===== src/Lib.antt =====
-- A model of the RMS Gateway, which connects packet radio users to the Common Message Servers (CMS) of
-- Winlink: the parts of its C library that keep state, parse files and talk to the CMS.
--
-- The gateway process, one for each radio connection, loads its configuration (lib/loadconfig.c, by
-- the mapping of names in lib/mapname.c), lists the CMS hosts by the time of their last use
-- (lib/getcms.c, lib/getcmslist.c, lib/cmsnode.c), logs in at one (lib/cmslogin.c with lib/readln.c
-- and lib/sglchallenge.c) with the password of its channel (lib/getchan.c) and relays between it and
-- the radio link (rmsgw/gateway.c), to which its own messages go through lib/sendrf.c; one session
-- (rmsgw/session.c) after another until one succeeds (rmsgw/rmsgw.c). It and the ACI process, which
-- reports channels to Winlink, write what they do into a block of shared memory (lib/statblock.c) that a monitor displays.
-- Strings go through lib/strtrim.c, lib/set.c, lib/symbol.c and lib/var.c.
--
-- Modules:
-- Prelude: the library's names that the others share, Boolean tests, lists over the native numbers,
--   C strings, signed integers, `%d` and `atoi`, and the results of `fgets`.
-- Text: Text.CharSet is lib/set.c, Text.Trim is lib/strtrim.c, Text.Symbol is lib/symbol.c (symLookup,
--   symAdd) and Text.Var is lib/var.c (_varassign, varassign, varsubst), and Text.Convert is
--   lib/downcase.c, lib/strcvt.c, lib/syslogmap.c and lib/fgetlinecr.c.
-- Cms: Cms.Node is lib/cmsnode.c (addcmsnode), Cms.Entry (nextent, putcmsent) and
--   Cms.Lookup (getcmsent, getcmsnam) are lib/getcms.c,
--   Cms.Hosts is lib/getcmslist.c; Cms.Order, Cms.Selection, Cms.Usable and Cms.Rotation are about the list.
-- Status: Status.Slots is the search loop that get_cms_slot and get_gw_slot share, Status.Block has the
--   structures of include/rmsshm.h and the functions of lib/statblock.c under their names,
--   Status.StateText has the tables of texts; Status.Gateways (with Status.Gateways.Trace for sequences
--   of operations), Status.AciHosts and Status.Attach are about the tables; Status.Segment is lib/shm.c, with
--   the steps of statblock_attach one by one, and Status.Segment.Sound and Status.Segment.Once are about
--   two processes that interleave them.
-- Login: Login.Readln is lib/readln.c, Login.Challenge is lib/sglchallenge.c, Login.Sgl and Login.Expect are
--   lib/cmslogin.c (sglProcess; the wait of expectsend, cmslogin), and Login.Sgl.Dialogue, Login.Sgl.Sending,
--   Login.Sgl.Answers and Login.Sgl.Unasked are about what they write and how they end.
-- Radio: Radio.Sendrf is lib/sendrf.c and Radio.Err is lib/err.c.
-- Gateway: Gateway.Conversation is gateway of rmsgw/gateway.c, with Gateway.Relay for the loop that
--   writes to the radio side; Gateway.Passing is about the bytes passed on, Gateway.Handshake about its
--   end, and Gateway.States about the states that it sets.
-- Channel: Channel.File and Channel.Search are lib/getchan.c (setchanent, nextent, getchanent,
--   getchannam), with endchanent in Channel.Rewind; Channel.Fields and Channel.Walk are about the entries.
-- Session: Session.Cms is cmsSession of rmsgw/session.c, Session.Main is fmtucall and main of
--   rmsgw/rmsgw.c, Session.Connect is lib/cmsconnect.c and rmsgw/gwinit.c, Session.Datagram
--   is lib/senddatagram.c, Session.Greeting is rmsgw/greet.c and rmsgw/banner.c, Session.Logs has
--   the texts of a session and is rmsgw/log_login.c and rmsgw/log_logout.c; Session.Outcome, Session.Block and Session.Counters are about the hosts tried
--   and the status block, Session.Login about the login in a session, Session.Rotation about their status files and the list of the next run.
-- Aci: Aci.Client is rmsgw_aci/wl2k_aci.c, rmsgw_aci/run_python_script.c, rmsgw_aci/sendchannel.c,
--   rmsgw_aci/sendversion.c and the end of main in rmsgw_aci/rmsgw_aci.c; Aci.Due joins it with the
--   status files, Aci.Hooks with the arguments of its hooks, Aci.Script has the command line of its
--   scripts; Aci.Counts and Aci.Frame are about them.
-- Config: Config.Mapname and Config.Messages are lib/mapname.c with lib/fgetline.c, and Config.Load is lib/loadconfig.c,
--   lib/loadversion.c and lib/upcase.c; Config.Env is lib/loadenv.c.
-- Monitor: the rows that rmsgwmon/rmsgwmon.c prints (aciStatus, gwStatus), with Monitor.Columns for the
--   headings, Monitor.Keys and Monitor.Layout for gwStatRun, and Monitor.Dump for dumpshm.
-- Files: the times of files as lib/fileage.c, lib/file_exists.c, lib/statfile.c and lib/setcmsstat.c
--   see and set them, and lib/printfile.c; Files.Times and Files.Tries are about them. Files.Hook and
--   Files.Redirect are lib/runhook.c.
-- Start: the main functions of rmsgw/rmsgw.c (Start.Gateway), rmsgw_aci/rmsgw_aci.c (Start.Aci) and
--   rmsgwmon/rmsgwmon.c (Start.Monitor), with their options in Start.Options; Start.Ready is about
--   the first.
-- Tools: rmsfinddev/rmsfinddev.c, and devutils/rmsgwchantest.c in Tools.Chantest.
-- Tests: the theorems on concrete inputs.
--
-- A C string is the list of its bytes without the terminating null, and a `char` is read as its unsigned
-- value. A buffer whose old contents matter, as the line buffer of lib/getcms.c, is a list that is passed
-- on, and an access outside a buffer is a value of its own (`none`, `fault`). A file is its text or
-- the list of the strings that `fgets` returns; the results of `read`, `write`, `stat` and `malloc` are
-- arguments, and so are the MD5 digest (lib/md5.c is a copy of another project's code), the
-- build's HOOKDIR and the segment of shared memory. Counters are kept modulo 2 ^ 64 or 2 ^ 32 as in C, and
-- the machine is little-endian with 64-bit longs. Logging is left out.
--
-- Loops are recursions on the list that they read: the rounds of the login on the results of its
-- reads, where a login that has used them up still waits, the writes of sendrf and of the conversation on the
-- results of `write`, where a run that has used them up has not returned, the conversation on its
-- rounds. Fuel is used for the printing of a number, one more than the number, where each digit
-- divides it by ten, and for the loops over the channel file, more than the root has children, where
-- each entry leaves fewer behind it. The tree that libxml2 makes of the channel file is an argument, and
-- so are the results of the scripts. Of the file system the times of the files are kept, as a function of
-- their paths; whether open and utime succeed is an argument, as is what getopt returns.
--
-- Not modelled: the help texts, logging and the formatting of floating point, which is an argument; the calls of
-- curses that draw the monitor's screen; the signals and sleeps; and lib/md5.c. The hooks are modelled
-- by themselves, and left out where they are called, since no result of theirs is used.
pub mod Prelude
pub mod Text
pub mod Cms
pub mod Start
pub mod Status
pub mod Login
pub mod Radio
pub mod Config
pub mod Tests
pub mod Files
pub mod Gateway
pub mod Session
pub mod Aci
pub mod Monitor
pub mod Channel
pub mod Tools
