-- ===== src/Jid/Split.antt =====
-- `Jid(jid_string)` of talk/xmpp/jid.cc cuts a text at the first `/` and at an `@` before it.
use gxmpp.Prelude.{
  drop-append_suc, ℕ, suc, ◌+◌, ◌-◌, ◌≡◌, ◌≢◌, ap, ◌∙◌, false, [], ◌∷◌, ◌++◌, Option, none, some,
  append_assoc, arith, ◌==◌, length, take, drop, All, All-append, Bytes, find, find-append,
  find-none, length-append, take-append_left, take_all, Option-cases, inl, inr,
}
use mathlib.Core.Option
use native.Mathlib.Nat.{zero-add, suc-add, sub-zero}
use gxmpp.Jid.{node_end, cut, split}

abbrev pub Without : ℕ → Bytes → Type 0
Without c = All (λ x. x ≢ c)

find-append_right :
    (c : ℕ) (xs ys : Bytes)
    → Without c xs
    → find c (xs ++ ys) ≡ Option.map (λ i. length xs + i) (find c ys)
unfolding find
find-append_right c [] ys h = elim (Option-cases (find c ys)) [
  | inl e ↦ rw e
  | inr (i, e) ↦ rw (e, zero-add)
]
find-append_right c (x ∷ xs) ys h =
    let e : (x == c) ≡ false = ground arith in
    rw (e, find-append_right c xs ys h.1)
      (elim (Option-cases (find c ys)) [ inl e ↦ rw e | inr (i, e) ↦ rw (e, suc-add) ])

module _ (s : Bytes) where
  split_eq :
      (slash at : Option ℕ)
      → find b'/' s ≡ slash
      → node_end (find b'@' s) slash ≡ at
      → split s ≡ cut s slash at
  unfolding split
  split_eq slash at e e' = rw (e, e')

module _ (n d r : Bytes) where
  cut_full :
      cut (n ++ (b'@' ∷ (d ++ (b'/' ∷ r)))) (some (suc (length n) + length d)) (some (length n))
      ≡ record { node = n; domain = d; resource = r }
  unfolding cut
  cut_full = λ i. record {
    node = take-append_left n (b'@' ∷ (d ++ (b'/' ∷ r))) i;
    domain = middle i;
    resource = after_slash i;
  }
    where
      middle :
          take
            (suc (length n) + length d - suc (length n))
            (drop (suc (length n)) (n ++ (b'@' ∷ (d ++ (b'/' ∷ r)))))
          ≡ d
      middle =
          let e : suc (length n) + length d - suc (length n) ≡ length d = omega arith in
          rw (e, drop-append_suc) (take-append_left d (b'/' ∷ r))

      after_slash : drop (suc (suc (length n) + length d)) (n ++ (b'@' ∷ (d ++ (b'/' ∷ r)))) ≡ r
      after_slash =
          let e : suc (length n) + length d ≡ length (n ++ (b'@' ∷ d)) =
            omega (arith, length-append n (b'@' ∷ d)) in
          rw (e, ← append_assoc n (b'@' ∷ d) (b'/' ∷ r)) (drop-append_suc (n ++ (b'@' ∷ d)) b'/' r)

  cut_node :
      cut (n ++ (b'@' ∷ d)) none (some (length n)) ≡ record { node = n; domain = d; resource = [] }
  unfolding cut
  cut_node = λ i. record { node = take-append_left n (b'@' ∷ d) i; domain = rest i; resource = [] }
    where
      rest :
          take (length (n ++ (b'@' ∷ d)) - suc (length n)) (drop (suc (length n)) (n ++ (b'@' ∷ d)))
          ≡ d
      rest =
          let e : length (n ++ (b'@' ∷ d)) - suc (length n) ≡ length d =
            omega (arith, length-append n (b'@' ∷ d)) in
          rw (e, drop-append_suc) (take_all d)

  cut_resource :
      cut (d ++ (b'/' ∷ r)) (some (length d)) none ≡ record { node = []; domain = d; resource = r }
  unfolding cut
  cut_resource = λ i. record { node = []; domain = whole i; resource = drop-append_suc d b'/' r i }
    where
      whole : take (length d - 0) (d ++ (b'/' ∷ r)) ≡ d
      whole = rw sub-zero (take-append_left d (b'/' ∷ r))

cut_domain : (d : Bytes) → cut d none none ≡ record { node = []; domain = d; resource = [] }
unfolding cut
cut_domain d = λ i. record { node = []; domain = whole i; resource = [] }
  where
    whole : take (length d - 0) d ≡ d
    whole = let e : length d - 0 ≡ length d = omega arith in rw e (take_all d)

module _ (n d r : Bytes) where
  pub split_full :
      Without b'@' n
      → Without b'/' n
      → Without b'/' d
      → split (n ++ (b'@' ∷ (d ++ (b'/' ∷ r)))) ≡ record { node = n; domain = d; resource = r }
  unfolding node_end
  split_full at sn sd = split_eq _ _ _ slash (rw found (ground arith)) ∙ cut_full n d r
    where
      found : find b'@' (n ++ (b'@' ∷ (d ++ (b'/' ∷ r)))) ≡ some (length n)
      found = find-append b'@' n _ at

      slash : find b'/' (n ++ (b'@' ∷ (d ++ (b'/' ∷ r)))) ≡ some (suc (length n) + length d)
      slash = rw (← append_assoc n (b'@' ∷ d) (b'/' ∷ r)) (
          find-append b'/' (n ++ (b'@' ∷ d)) r (All-append _ n (b'@' ∷ d) sn ((λ e. cc), sd))
          ∙ ap some (omega (arith, length-append n (b'@' ∷ d))))

  pub split_node :
      Without b'@' n
      → Without b'/' n
      → Without b'/' d
      → split (n ++ (b'@' ∷ d)) ≡ record { node = n; domain = d; resource = [] }
  unfolding node_end
  split_node at sn sd =
      split_eq (n ++ (b'@' ∷ d)) none (some (length n))
        (find-none b'/' (n ++ (b'@' ∷ d)) (All-append _ n (b'@' ∷ d) sn ((λ e. cc), sd)))
        (rw (find-append b'@' n d at))
      ∙ cut_node n d r

  pub split_resource :
      Without b'@' d
      → Without b'/' d
      → split (d ++ (b'/' ∷ r)) ≡ record { node = []; domain = d; resource = r }
  unfolding node_end
  split_resource at sd =
      split_eq (d ++ (b'/' ∷ r)) (some (length d)) none (find-append b'/' d r sd) (
        rw (find-append_right b'@' d (b'/' ∷ r) at) (elim (Option-cases (find b'@' (b'/' ∷ r))) [
          | inl e ↦ rw e
          | inr (i, e) ↦ rw e (ground arith)
        ]))
      ∙ cut_resource d d r

pub split_domain :
    (d : Bytes)
    → Without b'@' d
    → Without b'/' d
    → split d ≡ record { node = []; domain = d; resource = [] }
unfolding node_end
split_domain d at sd =
    split_eq d none none (find-none b'/' d sd) (rw (find-none b'@' d at)) ∙ cut_domain d
