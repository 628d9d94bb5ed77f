-- ===== src/Xml/NsStack/Fresh.antt =====
-- The candidates of the loop of `AddNewPrefix` (talk/xmllite/xmlnsstack.cc), and its end.
use gxmpp.Prelude.{
  ℕ, zero, suc, ◌+◌, ◌-◌, ◌*◌, ◌/◌, ◌%◌, ◌≤◌, ◌<◌, ◌≡◌, ◌≢◌, inl, inr, refl, sym, ap, ◌∙◌, Bool,
  true, false, ◌||◌, [], ◌∷◌, ◌++◌, List, map, none, some, arith, if◌then◌else◌, ltb, length, Bytes,
  equal, equal_iff, Bool-cases, Option-cases, subst, length-append, length-map, some_injective,
}
use native.Mathlib.Nat.{add-zero, zero-add}
use gxmpp.Xml.NsStack.{
  Binding, NsStack, str_xml, str_xmlns, ns_for_prefix, lookup_prefix, decimal_from, decimal,
  find_new,
}

value : ℕ → Bytes → ℕ
value acc [] = acc
value acc (c ∷ cs) = value (acc * 10 + (c - b'0')) cs

value-append :
    (acc : ℕ) (s : Bytes) (c : ℕ) → value acc (s ++ c ∷ []) ≡ value acc s * 10 + (c - b'0')
unfolding value
value-append acc [] c = refl
value-append acc (x ∷ s) c = value-append (acc * 10 + (x - b'0')) s c

value-decimal_from : (fuel n : ℕ) → n < fuel → value 0 (decimal_from fuel n) ≡ n
unfolding decimal_from
value-decimal_from zero n h = elim h [ ]
value-decimal_from (suc fuel) n h = elim (Bool-cases (ltb n 10)) [
  | inl small ↦ rw small (unfold value in ground arith)
  | inr large ↦
      rw (large, value-append 0 (decimal_from fuel (n / 10)) (b'0' + n % 10))
        (ground (arith, value-decimal_from fuel (n / 10)))
]

decimal_injective : (m n : ℕ) → decimal m ≡ decimal n → m ≡ n
unfolding decimal
decimal_injective m n e =
    sym (value-decimal_from (suc m) m (omega arith))
    ∙ ap (value 0) e
    ∙ value-decimal_from (suc n) n (omega arith)

length-decimal_pos : (n : ℕ) → 0 < length (decimal n)
unfolding decimal decimal_from
length-decimal_pos n =
    ground (arith, length-append (decimal_from n (n / 10)) ((b'0' + n % 10) ∷ []))

append_injective : (s t u : Bytes) → s ++ t ≡ s ++ u → t ≡ u
append_injective [] t u e = e
append_injective (x ∷ s) t u e = append_injective s t u (ground arith)

-- The `k`-th text that the loop tries.
pub candidate : Bytes → ℕ → Bytes
candidate base zero = base
candidate base (suc k) = base ++ decimal (k + 2)

candidate_injective : (base : Bytes) (i j : ℕ) → candidate base i ≡ candidate base j → i ≡ j
unfolding candidate
candidate_injective base zero zero e = refl
candidate_injective base zero (suc j) e =
    omega (arith, ap length e, length-append base (decimal (j + 2)), length-decimal_pos (j + 2))
candidate_injective base (suc i) zero e =
    omega (arith, ap length e, length-append base (decimal (i + 2)), length-decimal_pos (i + 2))
candidate_injective base (suc i) (suc j) e =
    omega (arith, decimal_injective (i + 2) (j + 2) (append_injective base _ _ e))

mem_name : Bytes → List Bytes → Bool
mem_name p [] = false
mem_name p (q ∷ qs) = equal q p || mem_name p qs

remove_name : Bytes → List Bytes → List Bytes
remove_name p [] = []
remove_name p (q ∷ qs) = if equal q p then qs else q ∷ remove_name p qs

length-remove_name :
    (p : Bytes) (qs : List Bytes)
    → mem_name p qs ≡ true
    → suc (length (remove_name p qs)) ≡ length qs
unfolding mem_name remove_name
length-remove_name p [] h = cc
length-remove_name p (q ∷ qs) h = ground (arith, length-remove_name p qs)

mem_name-remove :
    (p r : Bytes) (qs : List Bytes)
    → p ≢ r
    → mem_name r qs ≡ true
    → mem_name r (remove_name p qs) ≡ true
unfolding mem_name remove_name
mem_name-remove p r [] ne h = h
mem_name-remove p r (q ∷ qs) ne h =
    ground (arith, equal_iff q p, equal_iff q r, mem_name-remove p r qs ne)

-- Distinct names fit into a list only as often as it is long.
pigeonhole :
    (n : ℕ) (qs : List Bytes) (f : ℕ → Bytes)
    → ((i j : ℕ) → f i ≡ f j → i ≡ j)
    → ((i : ℕ) → i < n → mem_name (f i) qs ≡ true)
    → n ≤ length qs
pigeonhole zero qs f inj mem = omega arith
pigeonhole (suc n) qs f inj mem = omega (
  arith,
  length-remove_name (f n) qs (mem n (omega arith)),
  pigeonhole n (remove_name (f n) qs) f inj (λ i h.
      mem_name-remove (f n) (f i) qs (λ e. absurd (omega (arith, inj n i e)))
        (mem i (omega arith))),
)

-- The prefixes that resolve: those that are bound, and three more.
taken : NsStack → List Bytes
taken s = str_xml ∷ str_xmlns ∷ [] ∷ map (λ b. b.prefix) s.bindings

lookup_prefix-mem :
    (p : Bytes) (bs : List Binding)
    → (lookup_prefix p bs).1 ≡ true
    → mem_name p ([] ∷ map (λ b. b.prefix) bs) ≡ true
unfolding lookup_prefix mem_name
lookup_prefix-mem p [] h = ground (arith, equal_iff [] p)
lookup_prefix-mem p (b ∷ bs) h = ground (arith, lookup_prefix-mem p bs)

ns_for_prefix-taken :
    (s : NsStack) (p : Bytes) → (ns_for_prefix s p).1 ≡ true → mem_name p (taken s) ≡ true
unfolding taken mem_name ns_for_prefix
ns_for_prefix-taken s p h = ground (
  arith,
  equal_iff p str_xml,
  equal_iff str_xml p,
  equal_iff p str_xmlns,
  equal_iff str_xmlns p,
  lookup_prefix-mem p s.bindings,
)

find_new_next :
    (fuel : ℕ) (s : NsStack) (base : Bytes) (k : ℕ)
    → find_new (suc fuel) s base (candidate base k) (k + 2) ≡ none
    → ((ns_for_prefix s (candidate base k)).1 ≡ true)
      × (find_new fuel s base (candidate base (suc k)) (suc k + 2) ≡ none)
unfolding find_new candidate
find_new_next fuel s base k e = elim (Bool-cases (ns_for_prefix s (candidate base k)).1) [
  | inl more ↦ (
    more,
    subst (λ j. find_new fuel s base (base ++ decimal (k + 2)) j ≡ none) (omega arith)
        (rw more at e),
  )
  | inr free ↦ cc (rw free at e)
]

-- If the loop runs out of fuel, every candidate that it tried was taken.
find_new-none :
    (fuel : ℕ) (s : NsStack) (base : Bytes) (k : ℕ)
    → find_new fuel s base (candidate base k) (k + 2) ≡ none
    → (i : ℕ) → i < fuel
    → mem_name (candidate base (k + i)) (taken s) ≡ true
find_new-none zero s base k e i h = elim h [ ]
find_new-none (suc fuel) s base k e zero h =
    rw add-zero (ns_for_prefix-taken s (candidate base k) (find_new_next fuel s base k e).0)
find_new-none (suc fuel) s base k e (suc i) h =
    subst (λ j. mem_name (candidate base j) (taken s) ≡ true) (omega arith)
      (find_new-none fuel s base (suc k) (find_new_next fuel s base k e).1 i (omega arith))

length-taken : (s : NsStack) → length (taken s) ≡ length s.bindings + 3
unfolding taken
length-taken s = omega (arith, length-map (λ (b : Binding). b.prefix) s.bindings)

-- Where the loop ends: at the `n`-th candidate from the `k`-th on, the first that does not resolve.
pub record EndsAt (s : NsStack) (base : Bytes) (k : ℕ) (p : Bytes) : Type 0 where
  pub n : ℕ
  pub its_text : p ≡ candidate base (k + n)
  pub is_free : (ns_for_prefix s p).1 ≡ false
  pub all_taken : (i : ℕ) → i < n → (ns_for_prefix s (candidate base (k + i))).1 ≡ true

all_taken-next :
    (s : NsStack) (base : Bytes) (k n : ℕ)
    → (ns_for_prefix s (candidate base k)).1 ≡ true
    → ((i : ℕ) → i < n → (ns_for_prefix s (candidate base (suc k + i))).1 ≡ true)
    → (i : ℕ) → i < suc n
    → (ns_for_prefix s (candidate base (k + i))).1 ≡ true
all_taken-next s base k n taken_here later zero h = rw add-zero taken_here
all_taken-next s base k n taken_here later (suc i) h =
    subst (λ j. (ns_for_prefix s (candidate base j)).1 ≡ true) (omega arith)
      (later i (omega (arith, h)))

EndsAt-next :
    (s : NsStack) (base : Bytes) (k : ℕ) (p : Bytes)
    → (ns_for_prefix s (candidate base k)).1 ≡ true
    → EndsAt s base (suc k) p
    → EndsAt s base k p
EndsAt-next s base k p taken_here later = record {
  n = suc later.n;
  its_text = later.its_text ∙ ap (candidate base) (omega arith);
  is_free = later.is_free;
  all_taken = all_taken-next s base k later.n taken_here later.all_taken;
}

EndsAt-here :
    (s : NsStack) (base : Bytes) (k : ℕ) (p : Bytes)
    → (ns_for_prefix s (candidate base k)).1 ≡ false
    → candidate base k ≡ p
    → EndsAt s base k p
EndsAt-here s base k p free e = record {
  n = 0;
  its_text = sym e ∙ ap (candidate base) (omega arith);
  is_free = subst (λ q. (ns_for_prefix s q).1 ≡ false) e free;
  all_taken = λ i h. elim h [ ];
}

find_new-EndsAt :
    (fuel : ℕ) (s : NsStack) (base : Bytes) (k : ℕ) (p : Bytes)
    → find_new fuel s base (candidate base k) (k + 2) ≡ some p
    → EndsAt s base k p
unfolding find_new candidate
find_new-EndsAt zero s base k p e = absurd (cc)
find_new-EndsAt (suc fuel) s base k p e = elim (Bool-cases (ns_for_prefix s (candidate base k)).1) [
  | inl more ↦ EndsAt-next s base k p more (
      find_new-EndsAt fuel s base (suc k) p (
        subst (λ j. find_new fuel s base (base ++ decimal (k + 2)) j ≡ some p) (omega arith)
          (rw more at e)))
  | inr free ↦ EndsAt-here s base k p free (some_injective (rw free at e))
]

-- The loop of AddNewPrefix ends within as many rounds as there are bindings, and four more, with
-- the first of the suggested prefix and the suggested prefix with 2, 3, 4 and so on behind it
-- that does not resolve.
pub find_new_total :
    (s : NsStack) (base : Bytes)
    → (p : Bytes) × (find_new (length s.bindings + 4) s base base 2 ≡ some p) × EndsAt s base 0 p
unfolding candidate
find_new_total s base = elim (Option-cases (find_new (length s.bindings + 4) s base base 2)) [
  | inr (p, e) ↦ (p, e, find_new-EndsAt (length s.bindings + 4) s base 0 p (rw zero-add e))
  | inl out ↦ absurd (
      omega (
        arith,
        length-taken s,
        pigeonhole (length s.bindings + 4) (taken s) (candidate base) (candidate_injective base)
            (λ i h.
              rw zero-add at
                (find_new-none (length s.bindings + 4) s base 0 (rw zero-add out) i h)),
      ))
]
