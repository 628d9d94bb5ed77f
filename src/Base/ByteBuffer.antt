-- ===== src/Base/ByteBuffer.antt =====
-- `ByteBuffer` of talk/base/bytebuffer.cc. `content` are the bytes of `bytes_` before `end_`, and `size`
-- is `size_`. The order of the bytes in an integer of the host is a parameter.
pub mod Queue
pub mod Integers
use gxmpp.Prelude.{
  ℕ, zero, suc, ◌+◌, ◌-◌, ◌*◌, ◌/◌, ◌%◌, ◌^◌, ◌≤◌, ◌<◌, ◌≡◌, refl, sym, ap, ◌∙◌, subst, ◌≢◌, ◌↔◌,
  ◌⊎◌, inl, inr, Bool, true, false, not, ◌&&◌, ◌||◌, Option, none, some, List, [], ◌∷◌, ◌++◌, map,
  append-nil, append_assoc, arith, ltb, leb, ◌==◌, if◌then◌else◌, Bool-cases, Option-cases, ◌>>=◌,
  length, get_elem?, get_or, take, drop, All, Bytes, codes, equal, equal_iff, equal_self, is_empty,
  find, substr, ==_iff,
}
use gxmpp.Prelude.{min, max}

pub data ByteOrder : Type 0 where
  order_network : ByteOrder
  order_host : ByteOrder

pub record ByteBuffer : Type 0 where
  pub content : Bytes
  pub size : ℕ
  pub start : ℕ
  pub version : ℕ
  pub byte_order : ByteOrder

-- `Construct`, without and with bytes.
unfoldable pub construct_empty : ByteOrder → ByteBuffer
construct_empty order = record {
  content = [];
  size = 4096;
  start = 0;
  version = 0;
  byte_order = order;
}

unfoldable pub construct : Bytes → ByteOrder → ByteBuffer
construct bytes order = record {
  content = bytes;
  size = length bytes;
  start = 0;
  version = 0;
  byte_order = order;
}

-- The bytes from `Data()` on, `Length()` of them.
unfoldable pub unread : ByteBuffer → Bytes
unread b = drop b.start b.content

abbrev pub unread_length : ByteBuffer → ℕ
unread_length b = length b.content - b.start

abbrev pub capacity : ByteBuffer → ℕ
capacity b = b.size - b.start

-- With the bytes, the buffer; `none` is the result false, where the buffer stays as it is.
unfoldable pub read_bytes : ℕ → ByteBuffer → Option (Bytes × ByteBuffer)
read_bytes len b =
    if ltb (unread_length b) len
    then none
    else some (substr b.content b.start len, record b { start = b.start + len })

-- `ReadString`, which appends to the text.
unfoldable pub read_string : Bytes → ℕ → ByteBuffer → Option (Bytes × ByteBuffer)
read_string val len b =
    if ltb (unread_length b) len
    then none
    else some (val ++ substr b.content b.start len, record b { start = b.start + len })

unfoldable pub resize : ℕ → ByteBuffer → ByteBuffer
resize wanted b =
    let len = min (unread_length b) wanted in
    record b {
      content = substr b.content b.start len;
      size = if leb wanted b.size then b.size else max wanted (3 * b.size / 2);
      start = 0;
      version = suc b.version;
    }

-- `ReserveWriteBuffer`, up to the move of `end_`.
unfoldable pub reserve : ℕ → ByteBuffer → ByteBuffer
unfolding resize
reserve len b =
    if ltb (capacity b) (unread_length b + len) then resize (unread_length b + len) b else b

unfoldable pub write_bytes : Bytes → ByteBuffer → ByteBuffer
write_bytes val b =
    let reserved = reserve (length val) b in record reserved { content = reserved.content ++ val }

unfoldable pub consume : ℕ → ByteBuffer → Bool × ByteBuffer
consume n b =
    if ltb (unread_length b) n then (false, b) else (true, record b { start = b.start + n })

pub record ReadPosition : Type 0 where
  pub at : ℕ
  pub for_version : ℕ

unfoldable pub get_read_position : ByteBuffer → ReadPosition
get_read_position b = record { at = b.start; for_version = b.version }

unfoldable pub set_read_position : ReadPosition → ByteBuffer → Bool × ByteBuffer
set_read_position position b =
    if position.for_version == b.version
    then (true, record b { start = position.at })
    else (false, b)

unfoldable pub clear : ByteBuffer → ByteBuffer
clear b = record b { content = []; start = 0; version = suc b.version }

-- The last bytes of a number in big-endian and the first in little-endian order.
unfoldable pub big_endian : ℕ → ℕ → Bytes
big_endian zero v = []
big_endian (suc k) v = big_endian k (v / 256) ++ v % 256 ∷ []

unfoldable pub little_endian : ℕ → ℕ → Bytes
little_endian zero v = []
little_endian (suc k) v = v % 256 ∷ little_endian k (v / 256)

unfoldable pub from_big : ℕ → Bytes → ℕ
from_big n [] = n
from_big n (c ∷ cs) = from_big (n * 256 + c) cs

unfoldable pub from_little : Bytes → ℕ
from_little [] = 0
from_little (c ∷ cs) = c + 256 * from_little cs

abbrev pub is_network : ByteOrder → Bool
is_network order_network = true
is_network order_host = false

module _ (host_is_big : Bool) where
  -- An integer in memory, after `HostToNetwork` where the order asks for that.
  unfoldable pub in_memory : ByteOrder → ℕ → ℕ → Bytes
  in_memory order k v =
      if is_network order || host_is_big then big_endian k v else little_endian k v

  unfoldable pub from_memory : ByteOrder → Bytes → ℕ
  from_memory order bs = if is_network order || host_is_big then from_big 0 bs else from_little bs

  -- `WriteUInt8`, `WriteUInt16`, `WriteUInt32` and `WriteUInt64`, of one, two, four and eight bytes.
  unfoldable pub write_uint : ℕ → ℕ → ByteBuffer → ByteBuffer
  write_uint k v b = write_bytes (in_memory b.byte_order k v) b

  unfoldable pub read_uint : ℕ → ByteBuffer → Option (ℕ × ByteBuffer)
  read_uint k b = do r ← read_bytes k b; some (from_memory b.byte_order r.0, r.1)

  -- `WriteUInt24`: three of the four bytes.
  unfoldable pub write_uint24 : ℕ → ByteBuffer → ByteBuffer
  write_uint24 v b =
      let bs = in_memory b.byte_order 4 v in
      write_bytes (if is_network b.byte_order || host_is_big then drop 1 bs else take 3 bs) b

  unfoldable pub read_uint24 : ByteBuffer → Option (ℕ × ByteBuffer)
  read_uint24 b = do
    r ← read_bytes 3 b
    let bs = if is_network b.byte_order || host_is_big then 0 ∷ r.0 else r.0 ++ 0 ∷ []
    some (from_memory b.byte_order bs, r.1)
