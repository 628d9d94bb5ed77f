-- ===== src/Xmpp/Sasl.antt =====
-- The SASL mechanisms that the client brings: talk/xmpp/saslmechanism.cc,
-- talk/xmpp/saslplainmechanism.h, talk/xmpp/saslcookiemechanism.h and talk/xmpp/plainsaslhandler.h. A
-- `CryptString` is the text that it holds.
pub mod Plain
pub mod Start
use gxmpp.Prelude.{
  ℕ, Bool, true, false, not, ◌&&◌, ◌||◌, Option, none, some, List, [], ◌∷◌, ◌++◌, Bytes, codes,
  equal, is_empty, if◌then◌else◌,
}
use gxmpp.Base.Base64.{encode}
use gxmpp.Jid.{Jid}
use gxmpp.Xml.QName.{QName}
use gxmpp.Xml.Element.{Element, new_with_ns, add_attr, add_text}
use gxmpp.Xml.NsStack.{qn_xmlns}
use gxmpp.Xmpp.Names.{ns_google_auth_protocol, qn_sasl_auth, qn_sasl_abort}
use gxmpp.Xmpp.State.{SaslMechanism, SaslHandler}

unfoldable pub qn_mechanism : QName
qn_mechanism = record { ns = []; local = codes "mechanism" }

unfoldable pub qn_google_auth_service : QName
qn_google_auth_service = record { ns = ns_google_auth_protocol; local = codes "service" }

-- `SaslMechanism::HandleSaslChallenge`, which no mechanism here overrides.
unfoldable pub handle_challenge : Element → Option Element
handle_challenge challenge = some (new_with_ns qn_xmlns qn_sasl_abort true)

unfoldable pub plain : Bytes
plain = codes "PLAIN"

-- What both mechanisms send: the two parts, each behind a NUL.
unfoldable pub credential : Bytes → Bytes → Bytes
credential user secret = 0 ∷ user ++ 0 ∷ secret

unfoldable pub start_plain : Jid → Bytes → Element
unfolding credential
start_plain user password =
    add_text (encode (credential user.node password))
      (add_attr qn_mechanism plain (new_with_ns qn_xmlns qn_sasl_auth true))

-- `SaslPlainMechanism`
unfoldable pub plain_mechanism : Jid → Bytes → SaslMechanism
unfolding start_plain handle_challenge
plain_mechanism user password = record {
  start_sasl_auth = some (start_plain user password);
  handle_sasl_challenge = handle_challenge;
}

abbrev pub add_service : Bytes → Element → Element
add_service service x = if is_empty service then x else add_attr qn_google_auth_service service x

unfoldable pub start_cookie : Bytes → Bytes → Bytes → Bytes → Element
unfolding credential
start_cookie mechanism username cookie service =
    add_text (encode (credential username cookie)) (
      add_service service
        (add_attr qn_mechanism mechanism (new_with_ns qn_xmlns qn_sasl_auth true)))

-- `SaslCookieMechanism`
unfoldable pub cookie_mechanism : Bytes → Bytes → Bytes → Bytes → SaslMechanism
unfolding start_cookie handle_challenge
cookie_mechanism mechanism username cookie service = record {
  start_sasl_auth = some (start_cookie mechanism username cookie service);
  handle_sasl_challenge = handle_challenge;
}

-- `std::find`
unfoldable pub offers : Bytes → List Bytes → Bool
offers m [] = false
offers m (k ∷ ks) = equal k m || offers m ks

unfoldable pub choose_plain : Bool → List Bytes → Bool → Bytes
unfolding offers
choose_plain allow_plain mechanisms encrypted =
    if not encrypted && not allow_plain then [] else if offers plain mechanisms then plain else []

unfoldable pub create_plain : Jid → Bytes → Bytes → Option SaslMechanism
unfolding plain_mechanism
create_plain user password mechanism =
    if equal mechanism plain then some (plain_mechanism user password) else none

-- `PlainSaslHandler`
unfoldable pub plain_handler : Jid → Bytes → Bool → SaslHandler
unfolding choose_plain create_plain
plain_handler user password allow_plain = record {
  choose_best_sasl_mechanism = choose_plain allow_plain;
  create_sasl_mechanism = create_plain user password;
}
