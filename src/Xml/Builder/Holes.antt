-- ===== src/Xml/Builder/Holes.antt =====
-- The place of `pelCurrent_` in the tree of talk/xmllite/xmlbuilder.cc.
use gxmpp.Prelude.{ℕ, zero, suc, ◌+◌, ◌≡◌, refl, ◌∙◌, subst, Option, some, arith}
use gxmpp.Xml.Element.{
  Element, Children, elem, nil, text, child, add_element, append_child, on_last, at_depth,
}
use gxmpp.Xml.Builder.{Builder, on_current}

on_last-append_child :
    (f : Element → Option Element) (cs : Children) (c d : Element)
    → f c ≡ some d
    → on_last f (append_child cs c) ≡ some (append_child cs d)
unfolding on_last append_child
on_last-append_child f nil c d h = rw h refl
on_last-append_child f (text s nil) c d h = rw h refl
on_last-append_child f (text s (text s' rest)) c d h =
    rw (on_last-append_child f (text s' rest) c d h) refl
on_last-append_child f (text s (child e rest)) c d h =
    rw (on_last-append_child f (child e rest) c d h) refl
on_last-append_child f (child e nil) c d h = rw h refl
on_last-append_child f (child e (text s rest)) c d h =
    rw (on_last-append_child f (text s rest) c d h) refl
on_last-append_child f (child e (child e' rest)) c d h =
    rw (on_last-append_child f (child e' rest) c d h) refl

pub at_depth-add_element :
    (depth : ℕ) (f : Element → Element) (c d x : Element)
    → at_depth depth f c ≡ some d
    → at_depth (suc depth) f (add_element c x) ≡ some (add_element d x)
unfolding at_depth add_element
at_depth-add_element depth f c d (elem n attrs cs cdata) h =
    rw (on_last-append_child (at_depth depth f) cs c d h) refl

-- `deeper n k` is `n + k`, the way the places are built.
abbrev pub deeper : ℕ → ℕ → ℕ
deeper zero k = k
deeper (suc n) k = deeper n (suc k)

pub deeper_lem : (n k : ℕ) → deeper n k ≡ n + k
deeper_lem zero k = omega arith
deeper_lem (suc n) k = deeper_lem n (suc k) ∙ omega arith

-- A root with a place at a depth.
abbrev pub IsHole : ℕ → (Element → Element) → Type 0
IsHole n context =
    (k : ℕ) (f : Element → Element) (x y : Element)
    → at_depth k f x ≡ some y
    → at_depth (deeper n k) f (context x) ≡ some (context y)

pub root-IsHole : IsHole 0 (λ x. x)
root-IsHole k f x y h = h

pub add_element-IsHole :
    (n : ℕ) (context : Element → Element) (x : Element)
    → IsHole n context
    → IsHole (suc n) (λ c. context (add_element c x))
add_element-IsHole n context x hole k f c d h =
    hole (suc k) f (add_element c x) (add_element d x) (at_depth-add_element k f c d x h)

pub on_current-context :
    (n : ℕ) (context : Element → Element) (f : Element → Element) (x : Element) (b : Builder)
    → IsHole n context
    → b.root ≡ some (context x)
    → on_current n f b ≡ some (record b { root = some (context (f x)) })
unfolding on_current at_depth
on_current-context n context f x b hole r =
    let e : deeper n 0 ≡ n = deeper_lem n 0 ∙ omega arith in
    let h : at_depth n f (context x) ≡ some (context (f x)) =
      subst (λ m. at_depth m f (context x) ≡ some (context (f x))) e (hole 0 f x (f x) refl) in
    rw (r, h) refl
