-- ===== src/Base/ByteBuffer/Integers.antt =====
-- The integers of talk/base/bytebuffer.cc, in both orders of bytes.
use gxmpp.Prelude.{
  ℕ, zero, suc, ◌+◌, ◌*◌, ◌/◌, ◌%◌, ◌<◌, ◌≡◌, refl, ap, ◌∙◌, subst, inl, inr, Bool, ◌||◌, some, [],
  ◌∷◌, ◌++◌, arith, Bool-cases, Option-cases, length, take, drop, Bytes,
}
use gxmpp.Prelude.{length-append}
use gxmpp.Base.ByteBuffer.{
  ByteBuffer, ByteOrder, is_network, unread, read_bytes, write_bytes, big_endian, little_endian,
  from_big, from_little, in_memory, from_memory, write_uint, read_uint, write_uint24, read_uint24,
}
use gxmpp.Base.ByteBuffer.Queue.{IsValid, write_bytes-unread, read_written}

-- How many numbers have that many bytes.
abbrev pub bound : ℕ → ℕ
bound zero = 1
bound (suc k) = 256 * bound k

from_big-append : (n : ℕ) (cs : Bytes) (c : ℕ) → from_big n (cs ++ c ∷ []) ≡ from_big n cs * 256 + c
unfolding from_big
from_big-append n [] c = refl
from_big-append n (x ∷ cs) c = from_big-append (n * 256 + x) cs c

big_endian-value : (k v : ℕ) → v < bound k → from_big 0 (big_endian k v) ≡ v
unfolding big_endian from_big
big_endian-value zero v h = omega (arith, h)
big_endian-value (suc k) v h =
    let q : v / 256 < bound k = omega (arith, h) in
    from_big-append 0 (big_endian k (v / 256)) (v % 256)
    ∙ omega (arith, big_endian-value k (v / 256) q)

little_endian-value : (k v : ℕ) → v < bound k → from_little (little_endian k v) ≡ v
unfolding little_endian from_little
little_endian-value zero v h = omega (arith, h)
little_endian-value (suc k) v h =
    let q : v / 256 < bound k = omega (arith, h) in omega (arith, little_endian-value k (v / 256) q)

length-big_endian : (k v : ℕ) → length (big_endian k v) ≡ k
unfolding big_endian
length-big_endian zero v = refl
length-big_endian (suc k) v =
    length-append (big_endian k (v / 256)) (v % 256 ∷ [])
    ∙ omega (arith, length-big_endian k (v / 256))

length-little_endian : (k v : ℕ) → length (little_endian k v) ≡ k
unfolding little_endian
length-little_endian zero v = refl
length-little_endian (suc k) v = ap suc (length-little_endian k (v / 256))

in_memory-value :
    (host_is_big : Bool) (order : ByteOrder) (k v : ℕ)
    → v < bound k
    → (from_memory host_is_big order (in_memory host_is_big order k v) ≡ v)
      × (length (in_memory host_is_big order k v) ≡ k)
unfolding from_memory in_memory
in_memory-value host_is_big order k v h = elim (Bool-cases (is_network order || host_is_big)) [
  | inl y ↦ rw y (big_endian-value k v h, length-big_endian k v)
  | inr n ↦ rw n (little_endian-value k v h, length-little_endian k v)
]

-- A buffer within its bounds and with all its bytes read gives back an integer that was written
-- to it, for every number of bytes that can hold the integer, in network order and in the order
-- of the host, whatever that is; then all is read again.
pub read_uint-write_uint :
    (host_is_big : Bool) (k v : ℕ) (b : ByteBuffer)
    → v < bound k
    → IsValid b
    → unread b ≡ []
    → (b' : ByteBuffer) × (read_uint host_is_big k (write_uint host_is_big k v b) ≡ some (v, b'))
      × (unread b' ≡ [])
unfolding read_uint write_uint
read_uint-write_uint host_is_big k v b h valid n =
    let bs = in_memory host_is_big b.byte_order k v in
    let (e, l) = in_memory-value host_is_big b.byte_order k v h in
    let (x, w, o) = write_bytes-unread bs b valid in
    let (b', r, u, c) = read_written bs b valid n in
    let r' : read_bytes k (write_bytes bs b) ≡ some (bs, b') =
      subst (λ m. read_bytes m (write_bytes bs b) ≡ some (bs, b')) l r in
    (b', rw (r', o, e) refl, u)

-- The three bytes of `WriteUInt24` are those of a number of three bytes.
big_endian-drop : (v : ℕ) → drop 1 (big_endian 4 v) ≡ big_endian 3 v
unfolding big_endian
big_endian-drop v = refl

little_endian-take : (v : ℕ) → take 3 (little_endian 4 v) ≡ little_endian 3 v
unfolding little_endian
little_endian-take v = refl

from_little-append : (cs : Bytes) → from_little (cs ++ 0 ∷ []) ≡ from_little cs
unfolding from_little
from_little-append [] = omega arith
from_little-append (c ∷ cs) = omega (arith, from_little-append cs)

write_uint24-write_uint :
    (host_is_big : Bool) (v : ℕ) (b : ByteBuffer)
    → write_uint24 host_is_big v b ≡ write_uint host_is_big 3 v b
unfolding write_uint24 write_uint in_memory
write_uint24-write_uint host_is_big v b =
    elim (Bool-cases (is_network b.byte_order || host_is_big)) [
      | inl y ↦ rw (y, big_endian-drop v) refl
      | inr n ↦ rw (n, little_endian-take v) refl
    ]

read_uint24-read_uint :
    (host_is_big : Bool) (b : ByteBuffer) → read_uint24 host_is_big b ≡ read_uint host_is_big 3 b
unfolding read_uint24 read_uint from_memory from_big
read_uint24-read_uint host_is_big b = elim (Bool-cases (is_network b.byte_order || host_is_big)) [
  | inl y ↦ rw y refl
  | inr n ↦ elim (Option-cases (read_bytes 3 b)) [
    | inl m ↦ rw (n, m) refl
    | inr (r, m) ↦ rw (n, m, from_little-append r.0) refl
  ]
]

-- A buffer within its bounds and with all its bytes read gives back a number below 2 to the 24
-- that WriteUInt24 has written to it, in network order and in the order of the host, whatever
-- that is; then all is read again.
pub read_uint24-write_uint24 :
    (host_is_big : Bool) (v : ℕ) (b : ByteBuffer)
    → v < bound 3
    → IsValid b
    → unread b ≡ []
    → (b' : ByteBuffer) × (read_uint24 host_is_big (write_uint24 host_is_big v b) ≡ some (v, b'))
      × (unread b' ≡ [])
read_uint24-write_uint24 host_is_big v b h valid n =
    let (b', k, u) = read_uint-write_uint host_is_big 3 v b h valid n in
    (
      b',
      ap (read_uint24 host_is_big) (write_uint24-write_uint host_is_big v b)
          ∙ read_uint24-read_uint host_is_big (write_uint host_is_big 3 v b)
          ∙ k,
      u,
    )
