-- ===== src/Lib.antt =====
-- A verification library for gxmpp, an XMPP client library in C++. The program has four layers:
-- talk/base, general helpers, tasks and sockets; talk/xmllite, a small XML library over the
-- third-party parser expat; talk/xmpp, the protocol: JIDs, the engine that holds a session with a
-- server, and the tasks and modules that use it; and gxmpp, the thread that pumps a client. The
-- library has models of the XML library, of the core of the protocol, of the roster module, and of
-- the byte buffer, Base64, the hexadecimal and UTF-8 codecs, tasks and their runner, and the message
-- queue.
--
-- - Prelude: the lists, options, Boolean tests and texts that all parts share. A `std::string` is
--   the list of its bytes. Prelude.Int has the signed integers and their text in a stream.
-- - Base.ByteBuffer: talk/base/bytebuffer.cc and the orders of bytes of talk/base/byteorder.h.
-- - Base.Base64Chars, Base.Base64: the tables, the encoder and the decoder of talk/base/base64.cc, with
--   `GetNextQuantum` as `get_next_quantum` and the loop of the decoder as `decode_from` on fuel.
-- - Base.StringEncode: the hexadecimal and the UTF-8 codecs of talk/base/stringencode.cc.
-- - Base.Task: talk/base/task.cc, one task under the calls of its runner and its subclass.
-- - Base.TaskRunner: talk/base/taskrunner.cc, the list of tasks and the next timeout. `choose_task` is
--   the choice in `UpdateTaskTimeout`, `remove_done` the second half of `InternalRunTasks`, and an
--   `Event` what a step of a task does to the runner.
-- - Base.Times, Base.MessageQueue, Base.MessageQueue.Receive: the 32-bit times of
--   talk/base/timeutils.cc, and talk/base/messagequeue.cc, a function for each method of
--   `MessageQueue`. `attempt` is the inner loop of `Get` and `get_loop` the outer one, over a list of what
--   its waits end with, so that it needs no fuel.
-- - Jid: talk/xmpp/jid.cc. `parse` and `from_parts` are the constructors of `Jid`, `prep_node`,
--   `prep_domain` and `prep_resource` the preparation of the parts, `str`, `bare_jid` and
--   `compare_jid` the methods `Str`, `BareJid` and `Compare`.
-- - Xml.QName, Xml.Element, Xml.NsStack, Xml.Printer: talk/xmllite/qname.cc, xmlelement.cc,
--   xmlnsstack.cc and xmlprinter.cc, a function for each method. The linked lists of an element are
--   lists, and a copy of an element is the same value.
-- - Xml.Builder: talk/xmllite/xmlbuilder.cc and the context of talk/xmllite/xmlparser.cc.
-- - Xmpp.Names, Xmpp.State: the constants of talk/xmpp/constants.cc, and the fields of
--   `XmppEngineImpl` and `XmppLoginTask`.
-- - Xmpp.Output: what the operations of the engine share, with `EnterExit` as `enter` and
--   `leave_from`.
-- - Xmpp.LoginStanzas, Xmpp.Login: `XmppLoginTask` of talk/xmpp/xmpplogintask.cc. A round of
--   `Advance` is `step`, by the state of the task, and the loop is `advance` on fuel.
-- - Xmpp.Sasl: the mechanisms PLAIN and cookie and the handler of talk/xmpp/plainsaslhandler.h, values
--   of the two interfaces.
-- - Xmpp.Send, Xmpp.Iq: the sending of stanzas and of error replies, and the requests that wait for
--   an answer, talk/xmpp/xmppengineimpl_iq.cc.
-- - Xmpp.Engine: the other operations of talk/xmpp/xmppengineimpl.cc. A method that changes the
--   engine takes it and returns its status and the engine.
-- - Xmpp.Stanzas: talk/xmpp/xmppstanzaparser.cc on top of talk/xmllite/xmlparser.cc, from the callbacks
--   of expat to the events that `handle_input` of the engine takes.
-- - Xmpp.RosterNames, Xmpp.Presence, Xmpp.Contact, Xmpp.Roster, Xmpp.RosterRequests: the constants,
--   `XmppPresenceImpl`, `XmppRosterContactImpl` and `XmppRosterModuleImpl` of
--   talk/xmpp/rostermoduleimpl.cc, the last in its state and in its requests to the engine. The
--   presences that two containers share are kept by address.
-- - Xmpp.Session: the calls of a client as values, and sequences of them.
-- - Tests: runs at concrete inputs.
--
-- The parts meet as in the program: the engine parses JIDs when the login has bound one, prints
-- elements with the printer on its stack of namespaces, and hands stanzas to the login until that is
-- done. A call of a client's handler, of the output or of the session is an entry of the list
-- `effects`. What a stanza handler answers is a parameter, and a SASL handler is a record of
-- functions.
--
-- Where the program would follow a null pointer or take from an empty vector, the model returns
-- `none`, as it does where a loop on fuel has no fuel left. `advance_fuel` is 4, the most rounds that
-- a stanza can take. `find_new` of Xml.NsStack gets one round for each binding and four more, since
-- each round but the last meets a prefix that is bound or is one of the reserved ones. `decode_from`
-- gets one round for each character of the text and one more, since each round but the last reads one.
--
-- Not modelled: that a handler calls the engine back from within a call, that a counter of type
-- `int` overflows, expat itself, sockets, threads, locks and logging, the children of a task, and of
-- what is above the engine the XMPP tasks and the modules other than the roster. An `ASSERT` is no
-- part of the model.
pub mod Prelude
pub mod Base
pub mod Jid
pub mod Xml
pub mod Xmpp
mod Tests
