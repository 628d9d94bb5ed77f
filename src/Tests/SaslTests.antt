-- ===== src/Tests/SaslTests.antt =====
-- Runs of the SASL mechanisms of talk/xmpp.
use gxmpp.Prelude.{
  compare_bytes, ◌≡◌, ◌≢◌, ◌<◌, refl, false, some, [], ◌∷◌, All, codes, Bytes, arith, List,
  if◌then◌else◌, ◌&&◌, ◌||◌,
}
use gxmpp.Base.Base64.{encode}
use gxmpp.Base.Base64Chars.{to_char}
use gxmpp.Jid.{Jid}
use gxmpp.Xml.Element.{
  Element, elem, text, child, nil, first_of_children, find_child, body_text, only_text, add_text,
  append_text, add_attr, new_with_ns,
}
use gxmpp.Xmpp.Sasl.{
  start_plain, plain_handler, offers, start_cookie, choose_plain, plain, credential,
}
use gxmpp.Xmpp.Sasl.Plain.{read_auth, read_auth-start}
use gxmpp.Xmpp.Sasl.Start.{sends_password, step_auth_init-plain}
use gxmpp.Xmpp.Login.{step_auth_init, failure, get_feature}
use gxmpp.Xmpp.LoginStanzas.{offered}
use gxmpp.Xml.QName.{eq_qname}
use gxmpp.Xmpp.Names.{ns_sasl, qn_sasl_mechanism, qn_sasl_mechanisms}
use gxmpp.Xmpp.State.{Engine, Login, new_engine, new_login, error_auth}

abbrev tim : Jid
tim = record { node = codes "tim"; domain = codes "example.org"; resource = [] }

abbrev secret : Bytes
secret = codes "tanstaaftanstaaf"

-- The example of RFC 4616.
start_plain-tim : body_text (start_plain tim secret) ≡ codes "AHRpbQB0YW5zdGFhZnRhbnN0YWFm"
unfolding start_plain encode to_char credential only_text add_text append_text add_attr new_with_ns
start_plain-tim = refl

abbrev mechanisms : List Bytes
mechanisms = codes "X-GOOGLE-TOKEN" ∷ plain ∷ []

choose_unencrypted : choose_plain false mechanisms false ≡ []
unfolding choose_plain
choose_unencrypted = refl

tim-small : All (λ c. c < 256) tim.node
tim-small = (omega arith, (omega arith, (omega arith, tt)))

tim-no_nul : All (λ c. c ≢ 0) tim.node
tim-no_nul = (omega arith, (omega arith, (omega arith, tt)))

abbrev short : Bytes
short = codes "ab"

read_auth-start_example :
    (read_auth (start_plain tim short) ≡ some ([], tim.node, short))
    × (read_auth (start_cookie (codes "X-COOKIE") tim.node short []) ≡ some ([], tim.node, short))
read_auth-start_example =
    read_auth-start tim (codes "X-COOKIE") short [] tim-small (omega arith, (omega arith, tt))
      tim-no_nul

-- The features of a server that offers two mechanisms, and an engine that has seen them.
abbrev mechanism : Bytes → Element
mechanism m = elem qn_sasl_mechanism [] (text m nil) false

abbrev offer : Element
offer =
    elem qn_sasl_mechanisms []
      (child (mechanism (codes "X-GOOGLE-TOKEN")) (child (mechanism plain) nil)) false

abbrev seen : Login
seen = record new_login { features = some (elem qn_sasl_mechanisms [] (child offer nil) false) }

abbrev strict_engine : Engine
strict_engine = record new_engine { sasl_handler = some (plain_handler tim short false) }

get_feature-seen : get_feature qn_sasl_mechanisms seen ≡ some (some offer)
unfolding new_login first_of_children find_child get_feature qn_sasl_mechanisms eq_qname
    compare_bytes ns_sasl
get_feature-seen = refl

step_auth_init-plain_example : step_auth_init seen strict_engine ≡ (
    if offers plain (offered offer) && (strict_engine.encrypted || false)
    then sends_password tim short seen strict_engine
    else some (failure error_auth seen strict_engine))
step_auth_init-plain_example =
    step_auth_init-plain tim short false seen strict_engine offer refl get_feature-seen
