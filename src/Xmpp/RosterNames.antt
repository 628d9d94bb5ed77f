-- ===== src/Xmpp/RosterNames.antt =====
-- The names of talk/xmpp/constants.cc that presences and the roster use.
use gxmpp.Prelude.{Bytes, codes, []}
use gxmpp.Xml.QName.{QName}
use gxmpp.Xml.NsStack.{ns_xml}
use gxmpp.Xmpp.Names.{ns_client}

unfoldable pub ns_roster : Bytes
ns_roster = codes "jabber:iq:roster"

unfoldable pub ns_google_pstn_conference : Bytes
ns_google_pstn_conference = codes "http://www.google.com/pstn-conference"

unfoldable pub ns_muc_user : Bytes
ns_muc_user = codes "http://jabber.org/protocol/muc#user"

unfoldable pub ns_nickname : Bytes
ns_nickname = codes "http://jabber.org/protocol/nick"

unfoldable pub qn_presence : QName
qn_presence = record { ns = ns_client; local = codes "presence" }

unfoldable pub qn_show : QName
qn_show = record { ns = ns_client; local = codes "show" }

unfoldable pub qn_status : QName
qn_status = record { ns = ns_client; local = codes "status" }

unfoldable pub qn_priority : QName
qn_priority = record { ns = ns_client; local = codes "priority" }

unfoldable pub qn_roster_query : QName
qn_roster_query = record { ns = ns_roster; local = codes "query" }

unfoldable pub qn_roster_item : QName
qn_roster_item = record { ns = ns_roster; local = codes "item" }

unfoldable pub qn_roster_group : QName
qn_roster_group = record { ns = ns_roster; local = codes "group" }

unfoldable pub qn_name : QName
qn_name = record { ns = []; local = codes "name" }

unfoldable pub qn_xml_lang : QName
qn_xml_lang = record { ns = ns_xml; local = codes "lang" }

unfoldable pub qn_ask : QName
qn_ask = record { ns = []; local = codes "ask" }

unfoldable pub qn_jid : QName
qn_jid = record { ns = []; local = codes "jid" }

unfoldable pub qn_subscription : QName
qn_subscription = record { ns = []; local = codes "subscription" }

unfoldable pub str_show_away : Bytes
str_show_away = codes "away"

unfoldable pub str_show_chat : Bytes
str_show_chat = codes "chat"

unfoldable pub str_show_dnd : Bytes
str_show_dnd = codes "dnd"

unfoldable pub str_show_xa : Bytes
str_show_xa = codes "xa"

unfoldable pub qn_google_pstn_conference_status : QName
qn_google_pstn_conference_status = record { ns = ns_google_pstn_conference; local = codes "status" }

unfoldable pub qn_attr_status : QName
qn_attr_status = record { ns = []; local = codes "status" }

unfoldable pub str_pstn_conference_status_connecting : Bytes
str_pstn_conference_status_connecting = codes "connecting"

unfoldable pub str_pstn_conference_status_connected : Bytes
str_pstn_conference_status_connected = codes "connected"

unfoldable pub str_pstn_conference_status_hangup : Bytes
str_pstn_conference_status_hangup = codes "hangup"

unfoldable pub qn_google_user_id : QName
qn_google_user_id = record { ns = []; local = codes "google-user-id" }

unfoldable pub qn_muc_user_x : QName
qn_muc_user_x = record { ns = ns_muc_user; local = codes "x" }

unfoldable pub qn_muc_user_item : QName
qn_muc_user_item = record { ns = ns_muc_user; local = codes "item" }

unfoldable pub qn_nickname : QName
qn_nickname = record { ns = ns_nickname; local = codes "nick" }
