-- ===== src/Lib.antt =====
-- OpenSLP: the SLPv2 message parser, the library's request writer, escaping, service URLs, the string
-- comparison, the linked list, the daemon's registration handlers, its database and its index tree.
--
-- OpenSLP has a library (openslp/libslp) that sends requests, a daemon (openslp/slpd) that answers them, and
-- code that both use (openslp/common). A request is written by NetworkRqstRply of libslp_network.c around a
-- body that ProcessSrvRqst, ProcessAttrRqst, ProcessSrvTypeRqst, ProcessSrvDeReg or ProcessSrvReg wrote. The
-- receiver parses it with SLPMessageParseBuffer of slp_message.c, which calls slp_v2message.c, and compares the
-- strings and the string lists of the message with the routines of slp_compare.c.
--
-- Base: shared names, Boolean tests, lists over the native numbers, the integers of a comparison.
-- Wire: SLPBuffer of common/slp_buffer.h as a memory with a position, the monad of the parsers (a routine
--   returns 0 or an error code), and the readers of common/slp_message.c (get_uint16 is slp_GetUINT16).
--   Wire.Put has the writers of common/slp_message.c and libslp/libslp_parse.c, as the bytes they append.
--   Wire.Ensures, Wire.Safe and Wire.Reads have the rules for runs of a parser.
-- Message: the structures of common/slp_message.h (Types), the routines of common/slp_v2message.c (Fields,
--   Bodies, Parse; parse_srv_rqst is v2ParseSrvRqst, parse_v2_message is SLPv2MessageParseBuffer) and
--   SLPMessageParseBuffer and SLPMessageFreeInternals of common/slp_message.c (Parse). Within says where the
--   parts of a message lie, Safe proves what a parser touches, Reads what it finds, Overread where it goes too
--   far. Put has the header that is written.
-- Request: CalcBufferSize and the SLPv2 branch of NetworkRqstRply of libslp/libslp_network.c, with the bodies of
--   libslp_findsrvs.c, libslp_findattrs.c, libslp_findsrvtypes.c, libslp_dereg.c and libslp_reg.c. Size is on
--   what is allocated, RoundTrip, Attrs and SrvTypes on what the parser makes of it.
-- Compare: common/slp_compare.c. Chars and Text have SLPCompareString and its parts, Items the string lists,
--   Normalize SLPNormalizeString, IntersectRemove SLPIntersectRemoveStringList,
--   SrvType SLPCompareSrvType, NamingAuth SLPCompareNamingAuth. Fold, Canon, Trimmed, Decoded and Canonical are on
--   SLPCompareString, Contains, Unite and United on the lists, Untagged is on SLPCompareSrvType.
-- Escape: SLPEscape and SLPUnescape of libslp/libslp_parse.c. Sizes is on the buffers that they allocate,
--   RoundTrip on the one after the other, Overflow on input that SLPUnescape refuses too late.
-- Url: SLPParseSrvUrl of common/slp_parse.c and SLPParseSrvURL of libslp/libslp_parse.c, with atoi as a parameter;
--   RoundTrip puts a URL together and takes it apart.
-- Linked: the list of common/slp_linkedlist.c, on a store of addresses. Links is on segments of items, Steps on
--   the statements of SLPListUnlink, Refines and Unlink on the operations.
-- MessageDatabase: the handles of common/slp_database.c on such a list; Sweep is on the loops over all entries.
-- Index: the tree of slpd/slpd_index.c as a value, with insertion (Index), deletion (Remove), the searches (Search)
--   and the comparison of strings (Compare, Order). A read through a null pointer is `none`. Entries has the sorted
--   list that a tree stands for, Rotations, Bounded and Balance are on rebalance_tree, Insert, Growth and Failure on
--   add_to_index, Extract and Delete on index_tree_delete, Lookup, Leading and RoundTrip on the searches.
-- Daemon: ProcessSrvReg, ProcessSrvDeReg and ProcessSrvAck of slpd/slpd_process.c, over an interface to the
--   database. Ack is on the acknowledgement that they write, Guards on what reaches the database. Service puts the
--   database of Database behind the interface.
-- Database: SLPDDatabaseReg, SLPDDatabaseDeReg and SLPDDatabaseAge of slpd/slpd_database.c on the list of the entries,
--   with SLPCheckAttributeListSyntax of common/slp_compare.c; Requests has SLPDDatabaseSrvRqstStart by a scan,
--   Types SLPDDatabaseSrvTypeRqstStart.
--   Malformed, Identical and Replaces are on the first two, Finds, Found, Listing and Lists on requests, Aging and Lifetimes on what time does.
-- Tests: runs at concrete inputs.
--
-- A byte is a number, and a buffer of `size` bytes has one byte more behind it, which the parsers overwrite
-- with a terminator. The highest offset that was read is a field of the model's buffer and not of the
-- source's. The allocator, the size of a structure and what a union holds of an older message are the
-- parameters of the record Platform. A counted string outside a message is the list of its bytes.
--
-- Bounds: v2ParseExtension takes 5 bytes of the buffer's size in every round, so its loop is a recursion on that
-- size and needs no fuel. The loops of slp_compare.c pass one character in each round at least, so their fuel is
-- the length of the string. The lengths of strings fit an int, so the casts to int are left out; the widths of
-- the wire's fields are written out in the writers. The depths of an index tree are compared as `unsigned`, and
-- its theorems ask for heights far below 2 to the 31. The loop of SLPDDatabaseSrvRqstStart has fuel: one round
-- more than the matches is enough, since every round doubles the array; so it is with the text of
-- SLPDDatabaseSrvTypeRqstStart and the length of the types. A lifetime is a number from 0 on, because
-- an entry whose lifetime would fall to 0 or below is removed at once.
--
-- Not modelled: SLPv1 (ENABLE_SLPv1), ICU (HAVE_ICU) and authentication (ENABLE_SLPv2_SECURITY), which are
-- build options, as is ENABLE_PREDICATES; sockets, threads, files and configuration, which are the system's; the
-- rest of the daemon's processing, the database's use of the index (net.slp.indexSrvtype, off by default) and its
-- attribute requests, and the predicates. SLPDDatabaseDeReg copies a service type into 512
-- bytes; how many more a longer one overwrites is an event, what they held is left out. So are the parent pointers
-- of the index tree. Whether a comparison's copies get memory is a function of the two strings. What is left of
-- a message whose parse failed is left out too.
pub mod Base
pub mod Wire
pub mod Message
pub mod Request
pub mod Compare
pub mod Escape
pub mod Index
pub mod Url
pub mod Linked
pub mod MessageDatabase
pub mod Daemon
pub mod Database
mod Tests
