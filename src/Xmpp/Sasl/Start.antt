-- ===== src/Xmpp/Sasl/Start.antt =====
-- The login with the handler of talk/xmpp/plainsaslhandler.h: when it sends the password.
use gxmpp.Prelude.{
  ◌≡◌, refl, ap, ◌∙◌, Bool, ◌&&◌, ◌||◌, Option, some, Bytes, equal, if◌then◌else◌, ◌>>=◌, >>=-rule,
  [], inl, inr, arith, if-rule,
}
use gxmpp.Jid.{Jid}
use gxmpp.Xml.Element.{Element}
use gxmpp.Xmpp.Names.{qn_sasl_mechanisms}
use gxmpp.Xmpp.State.{SaslHandler, Engine, Login, error_auth, sasl_running}
use gxmpp.Xmpp.Output.{internal_send_stanza}
use gxmpp.Xmpp.LoginStanzas.{offered, decorate_auth}
use gxmpp.Xmpp.Login.{
  Outcome, again, failure, get_feature, start_mechanism, try_mechanism, step_auth_init,
}
use gxmpp.Xmpp.Sasl.{
  plain, plain_handler, plain_mechanism, start_plain, choose_plain, create_plain, offers,
}
use gxmpp.Xmpp.Sasl.Plain.{choose_plain-Choice}

-- The round that sends what PLAIN sends first.
abbrev pub sends_password : Jid → Bytes → Login → Engine → Option Outcome
sends_password user password l e = do
  e' ← internal_send_stanza (decorate_auth l.allow_non_google_login (start_plain user password)) e
  some (
      again (record l { sasl_mech = some (plain_mechanism user password); state = sasl_running })
        e')

try_mechanism-plain :
    (user : Jid) (password : Bytes) (allow_plain : Bool) (l : Login) (e : Engine)
    → try_mechanism plain (plain_handler user password allow_plain) l e
      ≡ sends_password user password l e
unfolding try_mechanism start_mechanism plain_handler plain_mechanism create_plain plain equal
try_mechanism-plain user password allow_plain l e = refl

try_mechanism-none :
    (h : SaslHandler) (l : Login) (e : Engine)
    → try_mechanism [] h l e ≡ some (failure error_auth l e)
unfolding try_mechanism
try_mechanism-none h l e = refl

try_mechanism_lem :
    (user : Jid) (password : Bytes) (allow_plain : Bool) (l : Login) (e : Engine) (x : Element)
    → try_mechanism
        (choose_plain allow_plain (offered x) e.encrypted)
        (plain_handler user password allow_plain)
        l
        e
      ≡ (if offers plain (offered x) && (e.encrypted || allow_plain)
          then sends_password user password l e
          else some (failure error_auth l e))
try_mechanism_lem user password allow_plain l e x =
    let handler = plain_handler user password allow_plain in
    let may = offers plain (offered x) && (e.encrypted || allow_plain) in
    let refused = some (failure error_auth l e) in
    elim (choose_plain-Choice user password allow_plain e.encrypted (offered x)) [
      | inl (chosen, offered_plain, allowed, _) ↦
          ap (λ choice. try_mechanism choice handler l e) chosen
          ∙ try_mechanism-plain user password allow_plain l e
          ∙ if-rule (λ r. sends_password user password l e ≡ r) may (λ _. refl)
              (λ no. absurd (ground (arith, offered_plain, allowed, no)))
      | inr (chosen, none_fits) ↦
          ap (λ choice. try_mechanism choice handler l e) chosen
          ∙ try_mechanism-none handler l e
          ∙ if-rule (λ r. refused ≡ r) may (λ yes. absurd (ground (arith, none_fits, yes)))
              (λ _. refl)
    ]

-- Where the SASL handler is PlainSaslHandler and the features of the server name mechanisms, the
-- round of the login that begins the authentication sends what PLAIN sends first just if PLAIN
-- is among them and the connection is encrypted or plain text is allowed; in every other case it
-- ends with the error AUTH and sends nothing.
pub step_auth_init-plain :
    (user : Jid) (password : Bytes) (allow_plain : Bool) (l : Login) (e : Engine) (x : Element)
    → e.sasl_handler ≡ some (plain_handler user password allow_plain)
    → get_feature qn_sasl_mechanisms l ≡ some (some x)
    → step_auth_init l e ≡ (
        if offers plain (offered x) && (e.encrypted || allow_plain)
        then sends_password user password l e
        else some (failure error_auth l e))
unfolding step_auth_init plain_handler
step_auth_init-plain user password allow_plain l e x handler feature =
    let Ends : Option Outcome → Type 0 = λ r. r ≡ (
      if offers plain (offered x) && (e.encrypted || allow_plain)
      then sends_password user password l e
      else some (failure error_auth l e)) in
    >>=-rule Ends (get_feature qn_sasl_mechanisms l) _ (some x) feature (
      >>=-rule Ends e.sasl_handler _ (plain_handler user password allow_plain) handler
        (try_mechanism_lem user password allow_plain l e x))
