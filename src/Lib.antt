-- ===== src/Lib.antt =====
-- A model of the modbusmq library (lib/): a Modbus client that polls the registers of devices over a
-- serial line or over TCP, with a queue of requests, a backoff from devices that do not answer, and
-- rounds that spread the polls.
--
-- A request is built in a frame (lib/modbusmq.c, modbusmq_frame_*), which calls the transport's
-- builder through a table of functions; posting it numbers it, lets the transport complete it
-- (msg_prepare) and puts it on the queue. What comes back is checked against the request at the head
-- by the transport (msg_check_header while it comes in, msg_check when it is complete). An answer
-- that is refused is given to frame_drain, which knows whether it is the answer to an earlier
-- request. The outcome of a poll goes to modbusmq_slave_update, and modbusmq_slave_gate decides
-- whether the next poll of that slave may be posted. In the query mode rounds,
-- modbusmq_loop_prepare_rounds decides when all are posted.
--
-- Which file models which part:
--   Frame, Frame/Function   modbusmq_frame_t and modbusmq_msg_t of lib/modbusmq.h, the function codes
--                           and the context of lib/modbusmq_internal.h
--   Rtu/Crc                 modbusmq_rtu_crc16 of lib/modbusmq_rtu.c
--   Rtu/Request, Rtu/Check, Rtu/Drain
--                           the frames of lib/modbusmq_rtu.c: the functions have the source's names
--                           without the prefix modbusmq_rtu_
--   Tcp/Request, Tcp/Check, Tcp/Drain
--                           the frames of lib/modbusmq_tcp.c, likewise
--   Transport               modbusmq_cb_t of lib/modbusmq_internal.h, and its two tables
--   Queue                   modbusmq_post_internal and the queue of lib/modbusmq.c
--   Timer, Slave            the timers, modbusmq_slave_update, modbusmq_slave_gate,
--                           modbusmq_frame_delay_left and modbusmq_once_rearm of lib/modbusmq.c
--   Round                   the query mode rounds of lib/modbusmq.c
--   Build                   modbusmq_frame_read_* and modbusmq_frame_write_* of lib/modbusmq.c
--   Exchange                modbusmq_frame_incomplete and modbusmq_handle_write_read of
--                           lib/modbusmq.c
--   Subscribe               modbusmq_subscribe of lib/modbusmq.c
--   Loop                    modbusmq_report_error, modbusmq_handle_msg, modbusmq_loop_write_read and
--                           modbusmq_reset_queue of lib/modbusmq.c
--   Prepare                 modbusmq_loop_prepare and modbusmq_loop_prepare_subscription of
--                           lib/modbusmq.c
--   Raw                     modbusmq_raw_request of lib/modbusmq.c, over strtol as an argument
--   Send                    modbusmq_send of lib/modbusmq.c
--   Codec                   the number formats of lib/modbusmq.c, modbusmq_channel_in_range and
--                           modbusmq_encode_value; Codec/Text has the packed decimal formats, and
--                           Codec/Encode and Codec/Decode modbusmq_encode_text and
--                           modbusmq_read_channel_text
--   Publish                 modbusmq_channel_publish_decide of lib/modbusmq.c, and what it calls
--   Server                  modbusmq_prepare_response of programs/modbusmq_server.c
--   Settings                the names of the data formats, the meaning of the old ones and the defaults
--                           of the publish settings, of lib/modbusmq_config.c
--   System                  the calls of an application, as a step relation: those above, and
--                           modbusmq_frame_timeout, modbusmq_close and the functions that set the
--                           slave, the configuration and the callbacks
-- The modules below these hold the proofs: Rtu/Accept, Rtu/Damage, Rtu/Stale, Rtu/Sending, and so on.
-- Base holds the lemmas that they share, Tests runs the models on concrete inputs.
--
-- How the code is read. A buffer is a function from indices to bytes, and a store cuts to 8 bits; a
-- pointer into it is an index. An int that is only cut to bytes is its bit pattern. A configured
-- limit is a number, 0 where it is off or where there is no configuration. A slave that may be -1 is
-- an Option. The linked lists of wrappers and timers are lists; a timer is stored back by its place.
-- Loops are structural: over the bytes that are left, over a list, or over a count of places that
-- the source's loop has as its bound, so no fuel can run out. Counters of 8, 16 and 32 bits wrap as
-- in the source; times in milliseconds are far below 2 ^ 64 and do not. The clock is read once for
-- each pass. The tests for a NULL argument, errno and the log lines are left out, and memory is
-- assumed to be there.
--
-- In Exchange the result of the system call that writes and the effect of modbusmq_read are
-- arguments, so that what is shown holds whatever they give.
--
-- Loop, Prepare and System are over any transport that has the laws of Transport/Laws, which both
-- tables have. What a callback is told is a report; what a callback calls is a step of its own, behind
-- the call that it came from, so that none resets the queue, or posts while it is being reset. A post
-- from a callback goes behind the next head of the queue, where the source, which frees the old head
-- last, puts it ahead of a poll there.
--
-- The decision to publish is over a type of floats with the operations of C on them, and
-- modbusmq_encode_text and modbusmq_read_channel_text over strtoul, strtoull, sscanf, snprintf,
-- strftime, gmtime_r and localtime_r; both are arguments. The turns of the loop of
-- modbusmq_send are a list, with what poll, the clock and the device do in each. The loop that counts
-- the zeros of a divisor has the divisor as a bound on its turns, and that of
-- modbusmq_encode_version the length of its field.
--
-- Not modelled: the scaling of values in float, the text of the reply to a raw request, and
-- connection strings; the parser of the configuration, but for what Settings has; and, since they are
-- input and output only, the sockets, the serial ports, the log, the clock and the programs around the
-- library, but for the responses of the virtual server.
pub mod Base
pub mod Frame
pub mod Rtu
pub mod Tcp
pub mod Transport
pub mod Queue
pub mod Timer
pub mod Send
pub mod Server
pub mod Settings
pub mod Slave
pub mod Round
pub mod Build
pub mod Tests
pub mod Codec
pub mod Raw
pub mod Exchange
pub mod Subscribe
pub mod Loop
pub mod Prepare
pub mod Publish
pub mod System
