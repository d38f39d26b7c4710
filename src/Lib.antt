-- ===== src/Lib.antt =====
-- Verification of wlan-opc, the control daemon of a wireless bridge and its wire protocol.
--
-- A client sends UDP requests to the daemon, opcd. The protocol library protocol/ builds and parses
-- the frames; the daemon opcd/ takes the frame out of a datagram, finds the handler of the request,
-- checks that the client holds the login session, changes its state and answers. It sends
-- indications to a recipient that the client configured.
--
-- The files and the code they model:
--   Protocol/Ids: protocol/proto.h and ids.h, the constants.
--   Protocol/Codec: protocol/codec.c, big-endian integers and headers.
--   Protocol/CString: the text fields of protocol/strutil.h and protocol/commands.c.
--   Protocol/Frame: protocol/frame.c (opc_frame_build, opc_empty_frame_build, opc_frame_parse).
--   Protocol/Commands: protocol/commands.c; Records has the structs of commands.h, Simple the
--     acknowledgments of two fields and the empty requests, Requests, DeviceInfo and IpConfig the
--     other messages, Wire the laws that all of them share.
--   Protocol/Indications: protocol/indications.c.
--   Protocol/ScanChlist: protocol/scan_chlist.c, the channel bitmaps.
--   Opcd/State: the fields of opcd_state_t (opcd/opcd_state.h) that are used, and the sending of
--     indications (opcd/indication.c).
--   Opcd/Validators, Session, IpList, IpChange, Intake: opcd/handler.c: the checks on values, the
--     session with Login, GetBasicInfo and Reset, the staging loop of SetIpConfigList, the change of
--     the address with ChangeIpAddress and Logout, the intake of a datagram and the dispatch.
--   Opcd/Dispatch: opcd/handler.c, opcd_dispatch_table and opcd_reject_bad_length.
--   Opcd/RadioChecks: opcd/handler.c, the checks on a radio configuration (valid_wlan_mode,
--     check_priority_ch, radio_cfg_differs, radio_baseline_covers).
--   Opcd/IplistText: opcd/iplist_text.c, the text form of the address list, written by
--     opc_iplist_text_format and read by opc_iplist_text_parse (Parse).
--   Opcd/IplistLoad: opcd/handler.c, iplist_from_text, and in Start the files at the start of the
--     daemon (iplist_convert_legacy, iplist_load_own, opcd_iplist_load).
--   Opcd/RadioRestore: opcd/handler.c, the restore of radio.conf at the start (opcd_radio_conf_decode,
--     opcd_radio_conf_migrate_lists, opcd_radio_conf_restore, opcd_radio_conf_load).
--   Opcd/Persist: opcd/handler.c, the writes: persist_admit, persist_blob, opcd_radio_revert_drain
--     and opcd_store_async_on_ready, in ListHandler handle_set_ip_config_list, in Password
--     handle_set_password and in Radio handle_set_radio_config.
--   Opcd/IndicationConfig: opcd/handler.c, handle_set_indication_config, and the calls of it in
--     opcd/indication.c.
--   Opcd/Indication, Opcd/Tick: opcd/indication.c, the events of the link and of congestion, the
--     changes that wait for the end of a period, and the periodic tick.
--   Opcd/FaultProbe: opcd/fault_probe.c, the congestion probe; Sample has opcd_fault_probe_sample.
--   Opcd/Machine: the runs of the daemon as sequences of these operations (Step, Reaches), and the
--     invariant of every run.
--   Opcd/Channel: opcd/chan_encode.c.
--   Opcd/DeviceInfo: opcd/handler.c, handle_get_device_info.
--   Base: lists, byte buffers, signed bytes and tests that the files share. Tests: concrete runs.
--
-- How code is written here. A byte is a number below 256 and a buffer the list of its bytes; an
-- integer of w bits is a number, with its wrap-around written out as a remainder; an int8_t is an
-- integer. A pack function returns the bytes that it writes, or none where the C function returns -1;
-- its argument `frame_room` is the capacity of the buffer. A message is a zeroed buffer with writes
-- at offsets, as in the code. An unpack function returns the struct or none. A handler takes the
-- state and returns the new state, the datagrams sent by it and its response, none for the length
-- 0. Pointers are not NULL. Whether sendto sent all of a datagram, the clock, the result of a platform
-- call and the capacity of the response buffer are arguments. Loops are recursion on the list or on
-- the number of bits that are left (32 to a row), so no fuel is involved; small tables, the 64 bits
-- of a channel list and the 256 values of a byte, are checked by evaluation.
--
-- Not modelled: logging, the sockets and the main loop (opcd/opcd.c), the platform calls
-- (opcd/platform_nxp.c), the file store and its writer thread (opcd/store.c, opcd/store_async.c), the
-- parsers of kernel events and device files. The answers of the file store and of the platform are
-- arguments, so a theorem holds whatever they are; of the marker file of a radio change only whether
-- it is there, or could be written, is an argument.
pub mod Base
pub mod Protocol
pub mod Opcd
mod Tests
