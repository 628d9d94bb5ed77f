-- ===== src/Tests/BaseTests.antt =====
-- The byte buffer (talk/base/bytebuffer.cc).
use gxmpp.Prelude.{◌≡◌, refl, false, some, [], ◌∷◌, arith, codes}
use gxmpp.Base.ByteBuffer.{
  ByteBuffer, order_network, order_host, unread, construct, construct_empty, read_uint, write_uint,
  read_uint24, write_uint24, write_bytes, in_memory, big_endian, reserve,
}
use gxmpp.Base.ByteBuffer.Queue.{
  IsValid, QueueLaws, PositionLaws, buffer-QueueLaws, position-PositionLaws,
}
use gxmpp.Base.ByteBuffer.Integers.{read_uint-write_uint, read_uint24-write_uint24}

abbrev full : ByteBuffer
full = construct (codes "abc") order_host

abbrev fresh : ByteBuffer
fresh = construct_empty order_network

full-IsValid : IsValid full
unfolding construct
full-IsValid = (omega arith, omega arith)

fresh-IsValid : IsValid fresh
unfolding construct_empty
fresh-IsValid = (omega arith, omega arith)

fresh-unread : unread fresh ≡ []
unfolding construct_empty unread
fresh-unread = refl

buffer-QueueLaws_example : QueueLaws (codes "de") 2 full
buffer-QueueLaws_example = buffer-QueueLaws (codes "de") 2 full full-IsValid

position-PositionLaws_example : PositionLaws 2 10 full
position-PositionLaws_example = position-PositionLaws 2 10 full

read_uint-write_uint_example :
    (b : ByteBuffer) × (read_uint false 4 (write_uint false 4 305419896 fresh)
      ≡ some (305419896, b))
    × (unread b ≡ [])
read_uint-write_uint_example =
    read_uint-write_uint false 4 305419896 fresh (omega arith) fresh-IsValid fresh-unread

read_uint24-write_uint24_example :
    (b : ByteBuffer) × (read_uint24 false (write_uint24 false 66051 fresh) ≡ some (66051, b))
    × (unread b ≡ [])
read_uint24-write_uint24_example =
    read_uint24-write_uint24 false 66051 fresh (omega arith) fresh-IsValid fresh-unread

write_network : (write_uint false 4 305419896 fresh).content ≡ 18 ∷ 52 ∷ 86 ∷ 120 ∷ []
unfolding write_uint write_bytes reserve in_memory big_endian construct_empty
write_network = refl
