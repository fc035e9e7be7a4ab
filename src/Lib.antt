-- ===== src/Lib.antt =====
-- OsmoBSC, the GSM base station controller: a model of the parts of src/osmo-bsc that decide.
--
-- What the parts are and how they meet. An MS is given a logical channel (lchan) of a BTS: a BTS has
-- transceivers, each with eight timeslots, each with a few lchans. Channel selection looks for a free
-- one that a timeslot can serve now. The lchan then asks its timeslot, which may first have to switch
-- from packet data (PDCH) to speech; the FSMs of the two call each other. On a dedicated channel the BTS
-- reports measurements; they go into a ring of the lchan, and handover algorithm 1 keeps a table of
-- neighbours and decides when and where to hand over. Penalty timers keep a handover from being tried
-- again too soon, and a list of neighbour identities says which cell of another BSS a reported neighbour
-- is. A subscriber is paged at a BTS from a queue, as fast as the BTS has room. Access classes are let
-- into a cell step by step when its first transceiver comes into service. The connection to the MSC is
-- reset when too many connections are lost. For a call, a speech codec is chosen that MSC, BTS and MS
-- have in common. Two connections of one call may be switched to each other
-- within the BSS, on request of the MSC.
--
-- Which file models what. The state of a struct is a record with the fields that the code at hand reads
-- or writes, an enum is a data type, a function that changes a struct returns the new one, an error code
-- or NULL is none. Log messages, statistics and talloc failures are left out.
-- Base: names of the library, tests on numbers, lists, searches, bits, integers; Faults is code that may
-- abort, an Option that is none where an assertion fails.
-- Chan: Types and Kinds are include/osmocom/bsc/gsm_data.h and the tables of src/osmo-bsc/gsm_data.c;
-- Usable is trx_is_usable(), ts_is_usable(), the lchan loop macro and ts_usable_as_pchan() of
-- src/osmo-bsc/timeslot_fsm.c; Select is src/osmo-bsc/lchan_select.c, where a pointer to an lchan is its
-- place in the BTS. Loops over arrays and lists are searches in a list of positions.
-- Fsm: osmo_fsm of libosmocore as a parameter of the FSMs, a record of its two functions and of what is
-- documented of them.
-- Timeslot: the FSM of src/osmo-bsc/timeslot_fsm.c, with the answers of src/osmo-bsc/lchan_fsm.c to the two
-- events that a timeslot sends an lchan. The record TsFsm has the timeslot and its array of lchans; Lchans
-- is what an lchan does, Enter what entering a state does, Handlers the actions of the states. An lchan
-- that becomes unused tells its timeslot at once, also inside a loop of the timeslot over its lchans: each
-- of these functions is given unused_event, what the timeslot then does. Of its children, Calm, Quiet and
-- Told say which lchans can wait after each part, Unused, InUse, Actions, States and Dispatch put these
-- together, and Steps has the runs of a timeslot and its lchans.
-- Meas: Ring and Report are src/osmo-bsc/meas_rep.c with the ring of reports that src/osmo-bsc/abis_rsl.c
-- fills (lchan_next_meas_rep(), rsl_rx_meas_res()); the parsing of the message is a parameter, its
-- outcome. Neigh and Hodec1 are src/osmo-bsc/handover_decision.c; rxlev2dbm() of libosmocore is a
-- parameter, and the values of ho_get_*() are those of a configuration record.
-- Neighbor: src/osmo-bsc/neighbor_ident.c; the type of a cell identifier list and
-- gsm0808_cell_id_list_add() of libosmocore are parameters.
-- AccRamp: src/osmo-bsc/acc_ramp.c and include/osmocom/bsc/acc_ramp.h, the masks as numbers with the bits
-- of Base.Bits; Signal is the callback for state changes, Classes the mask as a list of classes, Steps and
-- Ramp what loops and ramps do to it. A pending timer is the interval for which it is scheduled.
-- Reset: src/osmo-bsc/a_reset.c, the FSM of the connection to the MSC; osmo_fsm of libosmocore is an
-- interface, a record of its two functions and of what is documented of them.
-- Load: src/osmo-bsc/chan_alloc.c, counters of lchans by kind and the average that AccRamp reads.
-- Paging: src/osmo-bsc/paging.c, the queue of requests of a BTS, which reads the load; Keeps, Requests and
-- Works say what each function does to the order of the queue, Runs and Rounds what follows for any sequence
-- of calls and for the worker, Network has the loops over all BTSs. A timer is whether it is pending, and
-- references to subscribers are counted; the expiry of T3113 is a call with the position of the request.
-- Subscriber: src/osmo-bsc/bsc_subscriber.c, the list of counted structs, each with its address.
-- Codec: src/osmo-bsc/codec_pref.c. Choose is match_codec_pref() with its helpers, a turn of its loop being a
-- Tried; Advertise has gen_bss_supported_codec_list(), calc_amr_rate_intersection() and
-- check_codec_pref(). The record Gsm0808 has the two functions of libosmocore that are called.
-- Lcls: src/osmo-bsc/osmo_bsc_lcls.c, local call, local switch, with bssmap_handle_ass_req_lcls() and
-- bssmap_handle_lcls_connect_ctrl() of src/osmo-bsc/osmo_bsc_bssap.c and the start and end of a connection
-- in src/osmo-bsc/bsc_subscr_conn_fsm.c. A connection has a number, and following a pointer to one that was
-- freed is a fault. Switch and Correlate are the functions that the states share, Handlers and Active the
-- actions of the states, Calls what is called from outside. Each action is given dispatch, which sends an
-- event to the other connection. InOrder, Updates, Answers and Actions say what the parts keep, Runs what
-- follows for runs; Events, Deaths and Pairs are about two connections, Depth about events inside events, those that are Told and those that are Asked for.
-- Penalty: src/osmo-bsc/penalty_timers.c, with the time of each call as an argument.
--
-- Bounds. Loops are structural recursion and need no fuel. Where an FSM
-- dispatches an event while it handles another one, the code recurses without a bound. The model bounds
-- it, for LCLS to three events inside one another (dispatch_within, which aborts beyond), for a timeslot
-- that is told of unused lchans to two (unused_event, which ignores more). Each Depth module has the
-- code's equation, where an event goes to the same function again, and compares its solutions with the
-- model's function. Indices
-- of rings are computed as the code does it, with the wrap of unsigned int; the arrays have 10 elements.
-- The end of a penalty wraps at 32 bits, and the theorem about it says where it does not.
--
-- Not modelled. What an lchan does beyond its answers to the timeslot, the FSMs of assignment, handover
-- and connections, handover algorithm 2 and the message filter are state machines and
-- decisions of the same kind, which do not have a model yet. A-bis, BSSAP, RR messages and system
-- information are coded and parsed with libosmocore; BTS models, the VTY, the control interface, sockets
-- and tools mostly pass data on.
pub mod Base
pub mod Chan
pub mod Meas
pub mod Neighbor
pub mod Penalty
pub mod AccRamp
pub mod Reset
pub mod Load
pub mod Fsm
pub mod Timeslot
pub mod Paging
pub mod Subscriber
pub mod Lcls
pub mod Codec
