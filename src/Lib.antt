-- ===== src/Lib.antt =====
-- A model of rsiprtp, an audio-focused SIP user-agent stack (crates/rsiprtp/src), and of the
-- properties that make its parts correct.
--
-- The program is a tower: the transport carries SIP messages to and from the transactions, which
-- retransmit requests and responses and keep the timers of RFC 3261; dialogs and calls stand on the
-- transactions; and a call sends its audio and its key presses in RTP packets, which SRTP may protect.
-- The files model these parts of it:
--
-- Transaction (crates/rsiprtp/src/transaction) has the four state machines, sans-IO: a call such as
--   `handle_response` changes the state and queues actions, which `poll_actions` hands over.
--   Timer and TimerValues are timer.rs; Client/Invite, Client/NonInvite, Server/Invite and
--   Server/NonInvite are the files of these names. Each has `new`, `handle_timeout`,
--   `handle_transport_error` and the handlers of messages under the names of the source; the match on the
--   state is a function by clauses, `dispatch_...`. Messages is the interface to a SIP message, which the
--   source has in crates/rsiprtp/src/sip: the fields that the transactions read and the bytes they send.
--   Server/Invite/Provisional is the buffer of reliable provisional responses of server/invite.rs.
--   Action is the queue, with the set of running timers that a caller keeps while it carries the
--   actions out; a timer fires only if it runs.
--   Manager is manager.rs, the table of all transactions with the routing of messages, PRACK and timers to
--   them. A hash map is a list of entries with distinct keys; a loop over a hash map, whose order the source
--   leaves open, follows the order of the list. Manager/View reads the tables as one function from
--   handles to transactions, and Manager/Labels says under which handle an action is queued.
-- Dialog (crates/rsiprtp/src/dialog): State is state.rs, the identifiers, CSeq numbers and route sets;
--   Invite is invite.rs, the INVITE dialog, whose requests are built in Invite/Requests; Manager is
--   manager.rs, the table of dialogs, with the routing of requests and responses to them. Messages is the
--   interface to what they read and build of a SIP message, with the law of its builder that a request has
--   the CSeq it was built with. The branches and tags that the source makes
--   at random are arguments. Invite/Run and Manager/Run are sequences of calls, after each of which the
--   user of a dialog drains its actions.
-- Rtp (crates/rsiprtp/src/rtp): Packet is the packet of packet.rs with `parse` and `build`, Sequence is
--   the comparison of sequence numbers, Dtmf and its children are the digits, events, sender and receiver
--   of dtmf.rs. Dtmf/Described lists the packets of a digit
--   one by one. Dtmf/Delivery composes the sender, `parse` and the receiver. Session and Congestion are
--   session.rs: the packets that a session sends, the statistics of those that it receives, and the
--   congestion controller; Session/Losses has a sender and a receiver with a network that loses packets.
--   Times are arguments, and the floating-point arithmetic is an interface.
-- Srtp (crates/rsiprtp/src/srtp): Context and Srtcp are the SRTP and SRTCP contexts of context.rs with
--   `protect` and `unprotect`; Crypto is the interface to AES in counter mode and HMAC-SHA1, with their laws: applying
--   the same keystream twice changes nothing, lengths are kept, a tag has 20 bytes.
-- Media (crates/rsiprtp/src/media): Jitter is the jitter buffer of jitter.rs with `push`, `pop` and `reset`;
--   the ordered map of packets is a list of entries, whose least key `first_key` finds. Values has the
--   configuration and the arithmetic, and the interface to floating-point numbers, of which the estimate of
--   the jitter and the fading of a concealed frame are made. `Instant::now()` is an argument of `push`.
--   Mixer is mixer.rs, the mixer of audio sources and the conference on top of it.
-- Ice (crates/rsiprtp/src/ice): Candidate is candidate.rs, the candidates and their priorities, and Pairs
--   is the forming of candidate pairs in agent.rs. The type of socket addresses is a parameter.
--
-- Numbers. The unsigned integers u8 to u64 are natural numbers, with the wrap-around of the source
-- written out as a remainder, and subtraction as the source guards it. An arithmetic overflow wraps
-- around, as in a release build. A `Duration` is a number of nanoseconds. A panic is `none`, or `panic`
-- in `Packet.Outcome`.
--
-- Bounds. There is no fuel: the loops are by recursion on a list or on the number of rounds left. For
-- the firings of Timer N the bound is 64 for each reliable provisional: an entry is abandoned once its
-- elapsed time has reached 64 times T1, and each firing that sends it adds at least T1.
--
-- The managers of transactions and of dialogs give out handles of 64 bits and their counters wrap around,
-- so the theorems on their tables are about fewer than 2^64 - 1 calls.
--
-- The counters of the jitter buffer have 64 bits too, so its theorems are about fewer than 2^64 calls.
--
-- Not modelled: calls, RTCP packets, the active speaker detector, the media codecs, SDP, the connectivity
-- checks of ICE, STUN and TURN, and digest authentication; the key derivation of SRTP; SIP text, of which
-- the transactions and dialogs see the interface only; sockets, DNS and files. The headers that
-- `stamp_reliable_headers` sets are a member of the interface to messages.
pub mod Common
pub mod Transaction
pub mod Rtp
pub mod Srtp
pub mod Media
pub mod Dialog
pub mod Ice
