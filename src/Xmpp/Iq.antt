-- ===== src/Xmpp/Iq.antt =====
-- The entries of talk/xmpp/xmppengineimpl_iq.cc for the requests that wait for an answer. An
-- entry has a fresh address, which the client keeps as its cookie.
pub mod Match
use gxmpp.Prelude.{
  ℕ, suc, Bool, ◌&&◌, ◌||◌, Option, none, some, List, [], ◌∷◌, ◌++◌, ◌==◌, if◌then◌else◌, ◌>>=◌,
  Bytes, codes, equal,
}
use gxmpp.Xml.QName.{eq_qname}
use gxmpp.Xml.Element.{Element, name, attr, has_attr}
use gxmpp.Xmpp.Names.{qn_iq, qn_to, qn_from, qn_type, qn_id}
use gxmpp.Xmpp.State.{
  ReturnStatus, return_ok, return_badargument, return_badstate, state_closed, eq_state, IqEntry,
  iq_response, Engine,
}
use gxmpp.Xmpp.Output.{emit}
use gxmpp.Xmpp.Send.{Result, send_stanza}

-- The tests on the element of `SendIq`.
unfoldable pub is_request : Element → Bool
is_request x =
    eq_qname (name x) qn_iq
    && (equal (attr qn_type x) (codes "get") || equal (attr qn_type x) (codes "set"))
    && has_attr qn_id x

-- `new XmppIqEntry`, and `push_back`
unfoldable pub push_entry : Element → ℕ → Engine → Engine
push_entry x handler e =
    let entry : IqEntry = record {
      cookie = e.next_cookie;
      id = attr qn_id x;
      to = attr qn_to x;
      iq_handler = handler;
    } in
    record e { iq_entries = e.iq_entries ++ entry ∷ []; next_cookie = suc e.next_cookie }

-- A null handler or element is `none`; the cookie is the address of the entry that is pushed.
unfoldable pub send_iq : Option Element → Option ℕ → Engine → Option Result
send_iq x handler e =
    if eq_state e.state state_closed then some (return_badstate, e) else elim handler [
      | none ↦ some (return_badargument, e)
      | some h ↦ elim x [
        | none ↦ some (return_badargument, e)
        | some el ↦
            if is_request el
            then (do r ← send_stanza el (push_entry el h e); some (return_ok, r.1))
            else some (return_badargument, e)
      ]
    ]

-- `std::find` and `erase`: the handler of the entry, and the entries without it.
unfoldable pub erase_entry : ℕ → List IqEntry → Option (ℕ × List IqEntry)
erase_entry c [] = none
erase_entry c (entry ∷ rest) =
    let later = erase_entry c rest in
    if entry.cookie == c
    then some (entry.iq_handler, rest)
    else (do r ← later; some (r.0, entry ∷ r.1))

-- With the status, the handler that is handed back.
unfoldable pub remove_iq_handler : ℕ → Engine → ReturnStatus × Option ℕ × Engine
remove_iq_handler c e = elim (erase_entry c e.iq_entries) [
  | none ↦ (return_badargument, none, e)
  | some r ↦ (return_ok, some r.0, record e { iq_entries = r.1 })
]

unfoldable pub delete_iq_cookies : Engine → Engine
delete_iq_cookies e = record e { iq_entries = [] }

-- The tests of `HandleIqResponse` on the element.
unfoldable pub is_response : Element → Bool
is_response x =
    eq_qname (name x) qn_iq
    && (equal (attr qn_type x) (codes "result") || equal (attr qn_type x) (codes "error"))
    && has_attr qn_id x

unfoldable pub answers : Bytes → Bytes → IqEntry → Bool
answers id from entry = equal entry.id id && equal entry.to from

-- The first entry that the response answers, and the entries without it.
unfoldable pub take_entry : Bytes → Bytes → List IqEntry → Option (IqEntry × List IqEntry)
take_entry id from [] = none
take_entry id from (entry ∷ rest) =
    let later = take_entry id from rest in
    if answers id from entry then some (entry, rest) else (do r ← later; some (r.0, entry ∷ r.1))

-- `none` is the result false, where the engine stays as it is. An empty vector has no entry.
unfoldable pub handle_iq_response : Element → Engine → Option Engine
handle_iq_response x e =
    if is_response x
    then (do
      r ← take_entry (attr qn_id x) (attr qn_from x) e.iq_entries
      some (emit (iq_response r.0 x) (record e { iq_entries = r.1 })))
    else none
