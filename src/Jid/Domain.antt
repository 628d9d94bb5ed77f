-- ===== src/Jid/Domain.antt =====
-- `PrepDomain` of talk/xmpp/jid.cc: the labels it accepts, and its effect on a normal form.
use gxmpp.Prelude.{
  ◌-◌, ◌<◌, ◌≡◌, inl, inr, sym, ap, ◌∙◌, subst, true, false, [], ◌∷◌, ◌++◌, append-nil,
  append_assoc, arith, ◌==◌, length, get_or, All, All-append, Bytes, Bool-cases, length-append,
  get_or-append_right,
}
use native.Mathlib.Nat.{add-zero}
use gxmpp.Jid.Prep.{
  prep_label_char, check_label, prep_label_from, prep_domain_label, prep_domain_from, prep_domain,
}
use gxmpp.Jid.Normal.{
  IsLabelChar, IsLabel, Labels, last, more, IsDomain, prep_label_char-IsLabelChar,
  prep_label_char_fixed, check_length_fixed, check_length_valid,
}

module _ (buf l : Bytes) where
  length_grown : length (buf ++ l) - length buf ≡ length l
  length_grown = omega (arith, length-append buf l)

  get_or_first : get_or (buf ++ l) (length buf) 0 ≡ get_or l 0 0
  get_or_first = rw add-zero at (get_or-append_right buf l 0 0)

  get_or_last :
      0 < length l → get_or (buf ++ l) (length (buf ++ l) - 1) 0 ≡ get_or l (length l - 1) 0
  get_or_last h =
      subst (λ i. get_or (buf ++ l) i 0 ≡ get_or l (length l - 1) 0)
        (omega (arith, length-append buf l)) (get_or-append_right buf l (length l - 1) 0)

  -- On a buffer that ends in the label, the checks are those of a label.
  check_label_valid :
      All IsLabelChar l
      → (check_label (length buf) (buf ++ l)).1 ≡ true
      → IsLabel l × (check_label (length buf) (buf ++ l) ≡ (buf ++ l, true))
  unfolding check_label
  check_label_valid a h = ground (arith, length_grown, get_or_first, get_or_last)

  check_label_fixed : IsLabel l → check_label (length buf) (buf ++ l) ≡ (buf ++ l, true)
  unfolding check_label
  check_label_fixed h = ground (arith, length_grown, get_or_first, get_or_last)

prep_label_from-IsLabel :
    (buf done s : Bytes)
    → All IsLabelChar done
    → (prep_label_from (length buf) (buf ++ done) s).1 ≡ true
    → (l : Bytes) × IsLabel l × (prep_label_from (length buf) (buf ++ done) s ≡ (buf ++ l, true))
unfolding prep_label_from
prep_label_from-IsLabel buf done [] a h =
    let (ok, e) = check_label_valid buf done a h in (done, ok, e)
prep_label_from-IsLabel buf done (c ∷ s) a h = elim (Bool-cases (prep_label_char c).1) [
  | inl valid ↦
      rw (valid, append_assoc)
        (prep_label_from-IsLabel buf (done ++ (prep_label_char c).0 ∷ []) s
          (All-append IsLabelChar done _ a (prep_label_char-IsLabelChar c valid, tt))
          (rw (valid, append_assoc) at h))
  | inr bad ↦ cc (rw bad at h)
]

prep_label_from_fixed :
    (buf done s : Bytes)
    → IsLabel (done ++ s)
    → All IsLabelChar s
    → prep_label_from (length buf) (buf ++ done) s ≡ (buf ++ (done ++ s), true)
unfolding prep_label_from
prep_label_from_fixed buf done [] h a =
    rw append-nil (check_label_fixed buf done (rw append-nil at h))
prep_label_from_fixed buf done (c ∷ s) h a =
    rw (prep_label_char_fixed c a.0, append_assoc)
      (prep_label_from_fixed buf (done ++ c ∷ []) s (rw append_assoc h) a.1 ∙ rw append_assoc)

-- A call that succeeds appends a label in normal form.
prep_domain_label-IsLabel :
    (label buf : Bytes)
    → (prep_domain_label label buf).1 ≡ true
    → (l : Bytes) × IsLabel l × (prep_domain_label label buf ≡ (buf ++ l, true))
unfolding prep_domain_label
prep_domain_label-IsLabel label buf h =
    subst
      (λ b.
        (prep_label_from (length buf) b label).1 ≡ true
        → (l : Bytes) × IsLabel l × (prep_label_from (length buf) b label ≡ (buf ++ l, true)))
      (append-nil buf) (prep_label_from-IsLabel buf [] label tt) h

prep_domain_label_fixed : (l buf : Bytes) → IsLabel l → prep_domain_label l buf ≡ (buf ++ l, true)
unfolding prep_domain_label
prep_domain_label_fixed l buf h =
    subst (λ b. prep_label_from (length buf) b l ≡ (buf ++ l, true)) (append-nil buf)
      (prep_label_from_fixed buf [] l h h.0)

prep_domain_from-Labels :
    (buf label s : Bytes)
    → (prep_domain_from buf label s).1 ≡ true
    → (d : Bytes) × Labels d × (prep_domain_from buf label s ≡ (buf ++ d, true))
unfolding prep_domain_from
prep_domain_from-Labels buf label [] h =
    let (l, ok, e) = prep_domain_label-IsLabel label buf h in (l, last l ok, e)
prep_domain_from-Labels buf label (c ∷ s) h = elim (Bool-cases (c == b'.')) [
  | inl dot ↦ elim (Bool-cases (prep_domain_label label buf).1) [
    | inl valid ↦
        let (l, ok, e) = prep_domain_label-IsLabel label buf valid in
        let (d, ds, e') =
          prep_domain_from-Labels ((buf ++ l) ++ b'.' ∷ []) [] s (rw (dot, e) at h) in
        (l ++ (b'.' ∷ d), more l ok ds, rw (dot, e) (e' ∙ simp append_assoc))
    | inr bad ↦ cc (rw (dot, bad) at h)
  ]
  | inr other ↦ rw other (prep_domain_from-Labels buf (label ++ c ∷ []) s (rw other at h))
]

-- The characters of a label are collected up to the next dot.
prep_domain_from-append :
    (buf label l rest : Bytes)
    → All IsLabelChar l
    → prep_domain_from buf label (l ++ rest) ≡ prep_domain_from buf (label ++ l) rest
unfolding prep_domain_from
prep_domain_from-append buf label [] rest a = rw append-nil
prep_domain_from-append buf label (c ∷ l) rest a =
    let e : (c == b'.') ≡ false = ground arith in
    rw e (prep_domain_from-append buf (label ++ c ∷ []) l rest a.1 ∙ rw append_assoc)

prep_domain_from_dot :
    (buf l rest : Bytes)
    → IsLabel l
    → prep_domain_from buf l (b'.' ∷ rest) ≡ prep_domain_from ((buf ++ l) ++ b'.' ∷ []) [] rest
unfolding prep_domain_from
prep_domain_from_dot buf l rest h = rw (prep_domain_label_fixed l buf h)

prep_domain_from_end : (buf l : Bytes) → IsLabel l → prep_domain_from buf l [] ≡ (buf ++ l, true)
unfolding prep_domain_from
prep_domain_from_end buf l h = prep_domain_label_fixed l buf h

prep_domain_from_fixed :
    {d : Bytes} (buf : Bytes) → Labels d → prep_domain_from buf [] d ≡ (buf ++ d, true)
prep_domain_from_fixed buf (last l h) =
    ap (prep_domain_from buf []) (sym (append-nil l))
    ∙ prep_domain_from-append buf [] l [] h.0
    ∙ prep_domain_from_end buf l h
prep_domain_from_fixed buf (more l {d} h rest) =
    prep_domain_from-append buf [] l (b'.' ∷ d) h.0
    ∙ prep_domain_from_dot buf l d h
    ∙ prep_domain_from_fixed ((buf ++ l) ++ b'.' ∷ []) rest
    ∙ simp append_assoc

pub prep_domain-IsDomain : (s : Bytes) → (prep_domain s).1 ≡ true → IsDomain (prep_domain s).0
unfolding prep_domain
prep_domain-IsDomain s h = elim (Bool-cases (prep_domain_from [] [] s).1) [
  | inl valid ↦
      let (d, ds, e) = prep_domain_from-Labels [] [] s valid in
      let (kept, short) = check_length_valid d (rw (e, prep_domain) at h) in
      rw (e, kept) (ds, short)
  | inr bad ↦ cc (rw bad at h)
]

pub prep_domain_fixed : (d : Bytes) → IsDomain d → prep_domain d ≡ (d, true)
unfolding prep_domain
prep_domain_fixed d h = rw (prep_domain_from_fixed [] h.0, check_length_fixed d h.1)
