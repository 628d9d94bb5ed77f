-- ===== src/Xmpp/Sasl/Plain.antt =====
-- What a server reads from the first element of a mechanism, and what the handler chooses.
use gxmpp.Prelude.{
  suc, ◌<◌, ◌≡◌, ◌≢◌, refl, Bool, true, false, not, ◌&&◌, ◌||◌, Option, none, some, List, [], ◌∷◌,
  ◌>>=◌, All, All-append, Bytes, find, find-append, take, drop, take-append_left, drop-append_suc,
  equal_self, arith, if◌then◌else◌, if-rule, ◌⊎◌, inl, inr,
}
use gxmpp.Base.Base64.{encode, decode, do_strict, Decoded}
use gxmpp.Base.Base64.Encoding.{decode-encode}
use gxmpp.Jid.{Jid}
use gxmpp.Xml.QName.{QName}
use gxmpp.Xml.Element.{
  Element, Attr, elem, nil, body_text, only_text, append_text, add_text, add_attr, new_with_ns,
}
use gxmpp.Xmpp.Sasl.{
  credential, start_plain, start_cookie, plain, plain_mechanism, choose_plain, create_plain, offers,
}

-- A reader of the message of RFC 4616: the identity to act as, the user and the password.
unfoldable pub read_credential : Bytes → Option (Bytes × Bytes × Bytes)
unfolding find
read_credential s = do
  i ← find 0 s
  j ← find 0 (drop (suc i) s)
  some (take i s, take j (drop (suc i) s), drop (suc j) (drop (suc i) s))

abbrev decoded_text : Decoded → Option Bytes
decoded_text d = if d.success then some d.result else none

-- It decodes the text of the element strictly.
unfoldable pub read_auth : Element → Option (Bytes × Bytes × Bytes)
unfolding read_credential decode
read_auth x = do d ← decode do_strict (body_text x); s ← decoded_text d; read_credential s

read_credential-credential :
    (user secret : Bytes)
    → All (λ x. x ≢ 0) user
    → read_credential (credential user secret) ≡ some ([], user, secret)
unfolding read_credential credential find
read_credential-credential user secret no_nul =
    rw
      (
        find-append 0 user secret no_nul,
        take-append_left user (0 ∷ secret),
        drop-append_suc user 0 secret,
      )
      refl

credential-small :
    (user secret : Bytes)
    → All (λ x. x < 256) user
    → All (λ x. x < 256) secret
    → All (λ x. x < 256) (credential user secret)
unfolding credential
credential-small user secret u s =
    (omega arith, All-append (λ x. x < 256) user (0 ∷ secret) u (omega arith, s))

read_auth-encode :
    (x : Element) (user secret : Bytes)
    → body_text x ≡ encode (credential user secret)
    → All (λ c. c < 256) user
    → All (λ c. c < 256) secret
    → All (λ c. c ≢ 0) user
    → read_auth x ≡ some ([], user, secret)
unfolding read_auth
read_auth-encode x user secret e u s no_nul =
    rw
      (
        e,
        decode-encode do_strict (credential user secret) (credential-small user secret u s)
            (omega arith),
      )
      (read_credential-credential user secret no_nul)

body_text-add_text :
    (t : Bytes) (q : QName) (attrs : List Attr) (cdata : Bool)
    → body_text (add_text t (elem q attrs nil cdata)) ≡ t
unfolding add_text only_text append_text
body_text-add_text [] q attrs cdata = refl
body_text-add_text (c ∷ t) q attrs cdata = refl

start_cookie_text :
    (mechanism user secret service : Bytes)
    → body_text (start_cookie mechanism user secret service) ≡ encode (credential user secret)
unfolding start_cookie add_attr new_with_ns
start_cookie_text mechanism user secret [] = body_text-add_text _ _ _ _
start_cookie_text mechanism user secret (c ∷ service) = body_text-add_text _ _ _ _

-- A reader of RFC 4616, over the strict Base64 decoder, reads back from what PLAIN and the
-- cookie mechanism send first the user and the secret, with no identity to act as, where both
-- are bytes and the user has no NUL.
pub read_auth-start :
    (user : Jid) (mechanism secret service : Bytes)
    → All (λ c. c < 256) user.node
    → All (λ c. c < 256) secret
    → All (λ c. c ≢ 0) user.node
    → (read_auth (start_plain user secret) ≡ some ([], user.node, secret))
      × (read_auth (start_cookie mechanism user.node secret service) ≡ some ([], user.node, secret))
unfolding start_plain add_attr new_with_ns
read_auth-start user mechanism secret service u s no_nul = (
  read_auth-encode _ user.node secret (body_text-add_text _ _ _ _) u s no_nul,
  read_auth-encode _ user.node secret (start_cookie_text mechanism user.node secret service) u s
      no_nul,
)

-- What a choice of the handler means.
abbrev pub Choice : Jid → Bytes → Bool → Bool → List Bytes → Bytes → Type 0
Choice user password allow_plain encrypted mechanisms choice =
    ((choice ≡ plain)
      × (offers plain mechanisms ≡ true)
      × ((encrypted || allow_plain) ≡ true)
      × (create_plain user password choice ≡ some (plain_mechanism user password)))
    ⊎ ((choice ≡ []) × ((offers plain mechanisms && (encrypted || allow_plain)) ≡ false))

-- PlainSaslHandler chooses PLAIN just if the server offers it and the connection is encrypted or
-- plain text is allowed, and then creates the mechanism for its user; in every other case it
-- chooses nothing.
pub choose_plain-Choice :
    (user : Jid) (password : Bytes) (allow_plain encrypted : Bool) (mechanisms : List Bytes)
    → Choice user password allow_plain encrypted mechanisms
        (choose_plain allow_plain mechanisms encrypted)
unfolding choose_plain create_plain
choose_plain-Choice user password allow_plain encrypted mechanisms =
    if-rule (Choice user password allow_plain encrypted mechanisms)
      (not encrypted && not allow_plain) (λ e. inr (refl, ground (arith, e)))
      (λ e.
        if-rule (Choice user password allow_plain encrypted mechanisms) (offers plain mechanisms)
          (λ o. inl (refl, o, ground (arith, e), rw (equal_self plain) refl))
          (λ o. inr (refl, ground (arith, o))))
