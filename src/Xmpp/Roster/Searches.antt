-- ===== src/Xmpp/Roster/Searches.antt =====
-- The searches of the roster module (talk/xmpp/rostermoduleimpl.cc) in its map of presences.
use gxmpp.Prelude.{
  ℕ, zero, suc, ◌<◌, ◌≡◌, refl, ap, sym, ◌∙◌, subst, Bool, true, false, inl, inr, Option, none,
  some, List, [], ◌∷◌, ◌++◌, if◌then◌else◌, ◌==◌, arith, All, length, get_elem?, set, Bool-cases,
  Option-cases, some_injective, none-ne-some,
}
use gxmpp.Jid.{Jid, eq_jid}
use gxmpp.Jid.Order.{eq_jid_iff}
use gxmpp.Xmpp.Presence
use gxmpp.Xmpp.Presence.{Presence, new_presence, set_raw_xml}
use gxmpp.Xmpp.Roster.{Bucket, find_bucket, put_bucket, is_from, find_presence}

pub find_bucket-put :
    (k j : Jid) (ads : List ℕ) (m : List Bucket)
    → find_bucket k (put_bucket j ads m) ≡ (if eq_jid j k then some ads else find_bucket k m)
unfolding find_bucket put_bucket
find_bucket-put k j ads [] = refl
find_bucket-put k j ads (b ∷ m) =
    ground
      (arith, eq_jid_iff b.bare j, eq_jid_iff b.bare k, eq_jid_iff j k, find_bucket-put k j ads m)

module _ {ℓ} {A : Type ℓ} where
  get_elem?-append_left :
      (xs ys : List A) (i : ℕ) → i < length xs → get_elem? (xs ++ ys) i ≡ get_elem? xs i
  get_elem?-append_left [] ys i h = absurd (omega arith)
  get_elem?-append_left (x ∷ xs) ys zero h = refl
  get_elem?-append_left (x ∷ xs) ys (suc i) h = get_elem?-append_left xs ys i (omega (arith, h))

  pub get_elem?-append_some :
      (xs ys : List A) (i : ℕ) {a : A} → get_elem? xs i ≡ some a → get_elem? (xs ++ ys) i ≡ some a
  get_elem?-append_some [] ys i h = none-ne-some h
  get_elem?-append_some (x ∷ xs) ys zero h = h
  get_elem?-append_some (x ∷ xs) ys (suc i) h = get_elem?-append_some xs ys i h

  pub get_elem?-append_length :
      (xs : List A) (a : A) → get_elem? (xs ++ a ∷ []) (length xs) ≡ some a
  get_elem?-append_length [] a = refl
  get_elem?-append_length (x ∷ xs) a = get_elem?-append_length xs a

  pub get_elem?-set :
      (xs : List A) (i k : ℕ) (v : A) {a : A}
      → get_elem? xs i ≡ some a
      → get_elem? (set xs i v) k ≡ (if i == k then some v else get_elem? xs k)
  get_elem?-set [] i k v h = ground arith
  get_elem?-set (x ∷ xs) zero zero v h = ground arith
  get_elem?-set (x ∷ xs) zero (suc k) v h = ground arith
  get_elem?-set (x ∷ xs) (suc i) zero v h = ground arith
  get_elem?-set (x ∷ xs) (suc i) (suc k) v h = ground (arith, get_elem?-set xs i k v h)

  pub length-set : (xs : List A) (i : ℕ) (v : A) → length (set xs i v) ≡ length xs
  length-set [] i v = refl
  length-set (x ∷ xs) zero v = refl
  length-set (x ∷ xs) (suc i) v = ap suc (length-set xs i v)

-- A search that goes on to one more address.
abbrev pub extend : Bool → ℕ → Option ℕ → Option ℕ
extend hit a (some b) = some b
extend hit a none = if hit then some a else none

pub extend-false : (a : ℕ) (o : Option ℕ) → extend false a o ≡ o
extend-false a none = refl
extend-false a (some b) = refl

module _ (k : Jid) where
  pub is_from-same :
      (ps qs : List Presence) (a b : ℕ)
      → get_elem? ps a ≡ get_elem? qs b
      → is_from k ps a ≡ is_from k qs b
  unfolding is_from
  is_from-same ps qs a b e =
      ap (λ o. elim o [ none ↦ false | some p ↦ eq_jid (Presence.jid p) k ]) e

  pub is_from-at :
      (ps : List Presence) (a : ℕ) {p : Presence}
      → get_elem? ps a ≡ some p
      → is_from k ps a ≡ eq_jid (Presence.jid p) k
  unfolding is_from
  is_from-at ps a e = ap (λ o. elim o [ none ↦ false | some p ↦ eq_jid (Presence.jid p) k ]) e

  is_from-at_none : (ps : List Presence) (a : ℕ) → get_elem? ps a ≡ none → is_from k ps a ≡ false
  unfolding is_from
  is_from-at_none ps a e = ap (λ o. elim o [ none ↦ false | some p ↦ eq_jid (Presence.jid p) k ]) e

  pub is_from-inverse :
      (ps : List Presence) (a : ℕ)
      → is_from k ps a ≡ true
      → (p : Presence) × (get_elem? ps a ≡ some p) × (Presence.jid p ≡ k)
  unfolding is_from
  is_from-inverse ps a h = elim (Option-cases (get_elem? ps a)) [
    | inl e ↦ cc (is_from-at_none ps a e, h)
    | inr (p, e) ↦ (p, e, (eq_jid_iff (Presence.jid p) k).0 (sym (is_from-at ps a e) ∙ h))
  ]

  is_from-append_left :
      (ps : List Presence) (p : Presence) (a : ℕ)
      → a < length ps
      → is_from k (ps ++ p ∷ []) a ≡ is_from k ps a
  unfolding is_from
  is_from-append_left ps p a h =
      is_from-same (ps ++ p ∷ []) ps a a (get_elem?-append_left ps (p ∷ []) a h)

  pub find_presence-append_left :
      (ps : List Presence) (p : Presence) (ads : List ℕ)
      → All (λ a. a < length ps) ads
      → find_presence k (ps ++ p ∷ []) ads ≡ find_presence k ps ads
  unfolding find_presence
  find_presence-append_left ps p [] h = refl
  find_presence-append_left ps p (a ∷ ads) h =
      rw (is_from-append_left ps p a h.0, find_presence-append_left ps p ads h.1)

  pub find_presence-append :
      (ps : List Presence) (ads : List ℕ) (a : ℕ)
      → find_presence k ps (ads ++ a ∷ []) ≡ extend (is_from k ps a) a (find_presence k ps ads)
  unfolding find_presence
  find_presence-append ps [] a = refl
  find_presence-append ps (b ∷ ads) a = ground (arith, find_presence-append ps ads a)

  pub find_presence-is_from :
      (ps : List Presence) (ads : List ℕ) {a : ℕ}
      → find_presence k ps ads ≡ some a
      → is_from k ps a ≡ true
  unfolding find_presence
  find_presence-is_from ps [] h = ground arith
  find_presence-is_from ps (b ∷ ads) h = elim (Bool-cases (is_from k ps b)) [
    | inl hit ↦ subst (λ b. is_from k ps b ≡ true) (some_injective (rw hit at h)) hit
    | inr miss ↦ find_presence-is_from ps ads (rw miss at h)
  ]

  pub find_presence-same :
      (ps qs : List Presence) (ads : List ℕ)
      → ((a : ℕ) → is_from k qs a ≡ is_from k ps a)
      → find_presence k qs ads ≡ find_presence k ps ads
  unfolding find_presence
  find_presence-same ps qs [] h = refl
  find_presence-same ps qs (a ∷ ads) h = rw (h a, find_presence-same ps qs ads h)
