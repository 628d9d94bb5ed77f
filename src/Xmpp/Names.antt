-- ===== src/Xmpp/Names.antt =====
-- The namespaces and names of talk/xmpp/constants.cc that the engine, its login and the iq code use.
use gxmpp.Prelude.{Bytes, codes, []}
use gxmpp.Xml.QName.{QName}

unfoldable pub ns_client : Bytes
ns_client = codes "jabber:client"

unfoldable pub ns_stream : Bytes
ns_stream = codes "http://etherx.jabber.org/streams"

unfoldable pub ns_tls : Bytes
ns_tls = codes "urn:ietf:params:xml:ns:xmpp-tls"

unfoldable pub ns_sasl : Bytes
ns_sasl = codes "urn:ietf:params:xml:ns:xmpp-sasl"

unfoldable pub ns_bind : Bytes
ns_bind = codes "urn:ietf:params:xml:ns:xmpp-bind"

unfoldable pub ns_session : Bytes
ns_session = codes "urn:ietf:params:xml:ns:xmpp-session"

unfoldable pub ns_stanza : Bytes
ns_stanza = codes "urn:ietf:params:xml:ns:xmpp-stanzas"

unfoldable pub ns_google_auth_protocol : Bytes
ns_google_auth_protocol = codes "http://www.google.com/talk/protocol/auth"

unfoldable pub qn_stream_stream : QName
qn_stream_stream = record { ns = ns_stream; local = codes "stream" }

unfoldable pub qn_stream_features : QName
qn_stream_features = record { ns = ns_stream; local = codes "features" }

unfoldable pub qn_stream_error : QName
qn_stream_error = record { ns = ns_stream; local = codes "error" }

unfoldable pub qn_tls_starttls : QName
qn_tls_starttls = record { ns = ns_tls; local = codes "starttls" }

unfoldable pub qn_tls_proceed : QName
qn_tls_proceed = record { ns = ns_tls; local = codes "proceed" }

unfoldable pub qn_sasl_mechanisms : QName
qn_sasl_mechanisms = record { ns = ns_sasl; local = codes "mechanisms" }

unfoldable pub qn_sasl_mechanism : QName
qn_sasl_mechanism = record { ns = ns_sasl; local = codes "mechanism" }

unfoldable pub qn_sasl_challenge : QName
qn_sasl_challenge = record { ns = ns_sasl; local = codes "challenge" }

unfoldable pub qn_sasl_success : QName
qn_sasl_success = record { ns = ns_sasl; local = codes "success" }

unfoldable pub qn_sasl_auth : QName
qn_sasl_auth = record { ns = ns_sasl; local = codes "auth" }

unfoldable pub qn_sasl_abort : QName
qn_sasl_abort = record { ns = ns_sasl; local = codes "abort" }

unfoldable pub qn_google_auth_client_uses_full_bind_result : QName
qn_google_auth_client_uses_full_bind_result = record {
  ns = ns_google_auth_protocol;
  local = codes "client-uses-full-bind-result";
}

unfoldable pub qn_google_allow_non_google_id_xmpp_login : QName
qn_google_allow_non_google_id_xmpp_login = record {
  ns = ns_google_auth_protocol;
  local = codes "allow-non-google-login";
}

unfoldable pub qn_stanza_bad_request : QName
qn_stanza_bad_request = record { ns = ns_stanza; local = codes "bad-request" }

unfoldable pub qn_stanza_conflict : QName
qn_stanza_conflict = record { ns = ns_stanza; local = codes "conflict" }

unfoldable pub qn_stanza_feature_not_implemented : QName
qn_stanza_feature_not_implemented = record {
  ns = ns_stanza;
  local = codes "feature-not-implemented";
}

unfoldable pub qn_stanza_forbidden : QName
qn_stanza_forbidden = record { ns = ns_stanza; local = codes "forbidden" }

unfoldable pub qn_stanza_gone : QName
qn_stanza_gone = record { ns = ns_stanza; local = codes "gone" }

unfoldable pub qn_stanza_internal_server_error : QName
qn_stanza_internal_server_error = record { ns = ns_stanza; local = codes "internal-server-error" }

unfoldable pub qn_stanza_item_not_found : QName
qn_stanza_item_not_found = record { ns = ns_stanza; local = codes "item-not-found" }

unfoldable pub qn_stanza_jid_malformed : QName
qn_stanza_jid_malformed = record { ns = ns_stanza; local = codes "jid-malformed" }

unfoldable pub qn_stanza_not_acceptable : QName
qn_stanza_not_acceptable = record { ns = ns_stanza; local = codes "not-acceptable" }

unfoldable pub qn_stanza_not_allowed : QName
qn_stanza_not_allowed = record { ns = ns_stanza; local = codes "not-allowed" }

unfoldable pub qn_stanza_payment_required : QName
qn_stanza_payment_required = record { ns = ns_stanza; local = codes "payment-required" }

unfoldable pub qn_stanza_recipient_unavailable : QName
qn_stanza_recipient_unavailable = record { ns = ns_stanza; local = codes "recipient-unavailable" }

unfoldable pub qn_stanza_redirect : QName
qn_stanza_redirect = record { ns = ns_stanza; local = codes "redirect" }

unfoldable pub qn_stanza_registration_required : QName
qn_stanza_registration_required = record { ns = ns_stanza; local = codes "registration-required" }

unfoldable pub qn_stanza_remote_server_not_found : QName
qn_stanza_remote_server_not_found = record {
  ns = ns_stanza;
  local = codes "remote-server-not-found";
}

unfoldable pub qn_stanza_remote_server_timeout : QName
qn_stanza_remote_server_timeout = record { ns = ns_stanza; local = codes "remote-server-timeout" }

unfoldable pub qn_stanza_resource_constraint : QName
qn_stanza_resource_constraint = record { ns = ns_stanza; local = codes "resource-constraint" }

unfoldable pub qn_stanza_service_unavailable : QName
qn_stanza_service_unavailable = record { ns = ns_stanza; local = codes "service-unavailable" }

unfoldable pub qn_stanza_subscription_required : QName
qn_stanza_subscription_required = record { ns = ns_stanza; local = codes "subscription-required" }

unfoldable pub qn_stanza_undefined_condition : QName
qn_stanza_undefined_condition = record { ns = ns_stanza; local = codes "undefined-condition" }

unfoldable pub qn_stanza_unexpected_request : QName
qn_stanza_unexpected_request = record { ns = ns_stanza; local = codes "unexpected-request" }

unfoldable pub qn_stanza_text : QName
qn_stanza_text = record { ns = ns_stanza; local = codes "text" }

unfoldable pub qn_bind_bind : QName
qn_bind_bind = record { ns = ns_bind; local = codes "bind" }

unfoldable pub qn_bind_resource : QName
qn_bind_resource = record { ns = ns_bind; local = codes "resource" }

unfoldable pub qn_bind_jid : QName
qn_bind_jid = record { ns = ns_bind; local = codes "jid" }

unfoldable pub qn_session_session : QName
qn_session_session = record { ns = ns_session; local = codes "session" }

unfoldable pub qn_iq : QName
qn_iq = record { ns = ns_client; local = codes "iq" }

unfoldable pub qn_error : QName
qn_error = record { ns = ns_client; local = codes "error" }

unfoldable pub qn_version : QName
qn_version = record { ns = []; local = codes "version" }

unfoldable pub qn_to : QName
qn_to = record { ns = []; local = codes "to" }

unfoldable pub qn_from : QName
qn_from = record { ns = []; local = codes "from" }

unfoldable pub qn_type : QName
qn_type = record { ns = []; local = codes "type" }

unfoldable pub qn_id : QName
qn_id = record { ns = []; local = codes "id" }

unfoldable pub qn_code : QName
qn_code = record { ns = []; local = codes "code" }
