-- ===== src/Lib.antt =====
-- The Jabber client library jabberoo: a model of its core and what is proved of it.
--
-- The program. A Session is connected to a server through a socket that its client owns. The
-- client pushes the text that arrives; the parser of libjudo turns it into elements; the session
-- routes each element, keeps the presence database and the roster, answers queries, fires signals,
-- and sends text by a signal of its own. A JabberID is a text with up to three parts, and its
-- order sorts the presences of one user.
--
-- The files.
--   Base, Base/*           texts as lists of bytes, `std::map` as a list of entries in order of
--                          their keys, `int` and `atoi`, lists with native lengths.
--   Jid, Jid/*             src/jabberoo-JID.cc: getResource, getUserHost, getHost, getUser, the
--                          validity tests, compare.
--   Judo, Judo/*           libjudo (libjudo/src/Element.cpp) as a parameter, a record of the
--                          operations that the code calls with their documented laws; Judo/Tree has
--                          an instance that satisfies them.
--   Packet, Packet/*       src/jabberoo-packet.cc: accessors, setters, addX, findX, eraseX on an
--                          element.
--   Presence, Presence/*   src/jabberoo-presence.cc: a record of the element and the members.
--   PresenceDb, ...        src/jabberoo-presencedb.cc: insert, remove, find, findExact, available,
--                          send_unavailable, clear; Resources is the list of one user, View the map
--                          from JIDs to presences that the lists stand for.
--   Roster, Roster/*       src/jabberoo-roster.cc: items and the index of groups; Push is the
--                          handling of a roster push.
--   Session, Session/*     src/jabberoo-session.cc: Requests what the roster sends, Auth the login,
--                          Routing the dispatch of elements, Stream the connection, Ids the ids,
--                          Database the presence database in all states that are reached by the
--                          calls of a client, which Steps lists,
--                          Informed what the client is told of the connection in them,
--                          Login and AutoLogin the ways to a login.
--   Sha, Sha/*             src/sha.c: SHA-1 on bytes; Standard is the Secure Hash Standard that it is
--                          compared with.
--   Component, ...         src/jabberoo-component-session.cpp: connect, the handshake, the queries.
--   Filters, Filters/*     src/jabberoox-filter.cc: rules, read from elements and printed.
--   Files, Files/*         src/jabberoo-filestream.cc: a file, pushed in chunks into the parser.
--   Messages, Messages/*   src/jabberoo-message.cc: constructors, setters, replies, event messages.
--   Disco, Disco/*         src/jabberoo-disco.cpp: the cache of discovered items, a client of Session.
--   Agents, Agents/*       src/jabberoox-agent.cc: agents and their copies in lists.
--   TimeStamps, ...        src/jutil.cc: the time stamp of getTimeStamp.
--   VCards, VCards/*       src/jabberoox-vcard.cc: the fields of a card and their elements.
--   Tests, Tests/*         concrete inputs.
--
-- The shape of the model. An operation that changes an object takes the object's record and
-- returns the new one. A signal is an event: a session keeps the log of what was fired, the newest
-- first, and the roster and the presence database return what they fire. An exception
-- XCP_InvalidJID is `none`; in Session, Component, Disco, Agents, Files and eraseX `none` is
-- undefined behaviour (a read through a null or freed pointer, the step of an erased iterator, the
-- read of an unset member), an assert that fails, or a loop without fuel; Disco.get has `none` for
-- XCP_NotCached. A callback is a constructor for a function of the library, or a number for one of
-- a client.
--
-- Bounds and fuel. `size_t` wraps modulo 2 ^ 64, in getHost. The ids of a session are cut to seven
-- characters, as snprintf cuts them; the counter itself is a natural number. The digits of n take
-- n rounds at most, which are given. The loop over the callbacks of one id takes fuel; one unit
-- for each callback is enough where the callbacks are a client's. An `int` of src/sha.c is a
-- number below 2 ^ 32; its loop over the blocks of a string takes the length of the string as
-- fuel, a round takes a byte at least; the lengths of its strings, ints in the source, are natural
-- numbers here, and the length in bits is written as its low 64 bits. atoi of a text beyond the
-- range of an `int`, undefined in the source, is the number itself. The loop over the
-- chunks of a file takes fuel, more than the file has bytes.
--
-- Not modelled. What a client does inside a signal handler or a callback, so that nothing is
-- called again while an operation runs; the parser, whose events come with the pushed text, or in
-- Files from a parameter with the laws of a parser that reads bit by bit; the XPath queries, which
-- are parameters, in VCards with the elements as objects in a store; SHA-1 in Session, a parameter
-- too (Sha defines it, and Component uses that); the clock and the C library's dates.
-- src/jabberoo-browse.cpp, which the build does not compile, is left out.
pub mod Base
pub mod Jid
pub mod Judo
pub mod Packet
pub mod Presence
pub mod PresenceDb
pub mod Roster
pub mod Session
pub mod Sha
pub mod Component
pub mod Files
pub mod Filters
pub mod Messages
pub mod Disco
pub mod Agents
pub mod VCards
pub mod TimeStamps
pub mod Tests
