-- ===== src/Base/ByteBuffer/Queue.antt =====
-- The buffer of talk/base/bytebuffer.cc as a queue of bytes.
use gxmpp.Prelude.{
  ℕ, suc, ◌+◌, ◌≤◌, ◌<◌, ◌≡◌, refl, ap, ◌∙◌, Bool, true, false, Option, none, some, [], ◌++◌, arith,
  ltb, ◌==◌, if◌then◌else◌, length, take, drop, Bytes,
}
use gxmpp.Prelude.{
  min, if-rule, length-append, length-take, length-drop, drop-append_le, drop-drop, take_more,
  drop_all,
}
use gxmpp.Base.ByteBuffer.{
  ByteBuffer, ByteOrder, unread, unread_length, capacity, read_bytes, resize, reserve, write_bytes,
  consume, clear, get_read_position, set_read_position,
}

-- `start_` is not behind `end_`, and that not behind `size_`.
abbrev pub IsValid : ByteBuffer → Type 0
IsValid b = (b.start ≤ length b.content) × (length b.content ≤ b.size)

-- A reservation keeps what is unread and makes room.
reserve-Room :
    (n : ℕ) (b : ByteBuffer)
    → IsValid b
    → (unread (reserve n b) ≡ unread b)
      × ((reserve n b).start ≤ length (reserve n b).content)
      × (length (reserve n b).content + n ≤ (reserve n b).size)
      × ((reserve n b).byte_order ≡ b.byte_order)
unfolding reserve resize unread
reserve-Room n b v =
    if-rule
      (λ r.
        (unread r ≡ unread b)
        × (r.start ≤ length r.content)
        × (length r.content + n ≤ r.size)
        × (r.byte_order ≡ b.byte_order))
      (ltb (capacity b) (unread_length b + n))
      (λ h.
        let len = min (unread_length b) (unread_length b + n) in
        let e = length-take len (drop b.start b.content) in
        let d = length-drop b.start b.content in
        (
          take_more len (drop b.start b.content) (omega (arith, d)),
          omega (arith, e),
          ground (arith, e, d),
          refl,
        ))
      (λ h. (refl, v.0, ground (arith, v), refl))

pub write_bytes-unread :
    (val : Bytes) (b : ByteBuffer)
    → IsValid b
    → (unread (write_bytes val b) ≡ unread b ++ val)
      × IsValid (write_bytes val b)
      × ((write_bytes val b).byte_order ≡ b.byte_order)
unfolding write_bytes unread
write_bytes-unread val b v =
    let r = reserve (length val) b in
    let (e, s, n, o) = reserve-Room (length val) b v in
    (
      drop-append_le r.start r.content val s ∙ ap (λ t. t ++ val) e,
      (
        omega (arith, length-append r.content val, s),
        omega (arith, length-append r.content val, n),
      ),
      o,
    )

-- A read takes from the front, or there is too little.
abbrev pub Takes : ℕ → ByteBuffer → Option (Bytes × ByteBuffer) → Type 0
Takes len b none = length (unread b) < len
Takes len b (some r) =
    (r.0 ≡ take len (unread b))
    × (unread r.1 ≡ drop len (unread b))
    × IsValid r.1
    × (r.1.byte_order ≡ b.byte_order)

pub read_bytes-Takes : (len : ℕ) (b : ByteBuffer) → IsValid b → Takes len b (read_bytes len b)
unfolding read_bytes unread
read_bytes-Takes len b v =
    if-rule (Takes len b) (ltb (unread_length b) len)
      (λ h. ground (arith, length-drop b.start b.content))
      (λ h. (refl, drop-drop b.start len b.content, (ground (arith, v), v.1), refl))

consume-unread :
    (n : ℕ) (b : ByteBuffer)
    → IsValid b
    → (unread (consume n b).1 ≡ (if (consume n b).0 then drop n (unread b) else unread b))
      × IsValid (consume n b).1
unfolding consume unread
consume-unread n b v =
    if-rule {A = Bool × ByteBuffer}
      (λ r. (unread r.1 ≡ (if r.0 then drop n (unread b) else unread b)) × IsValid r.1)
      (ltb (unread_length b) n) (λ h. (refl, v))
      (λ h. (drop-drop b.start n b.content, (ground (arith, v), v.1)))

-- The buffer as a queue: a write goes to the end, a read or `Consume` takes from the front.
abbrev pub QueueLaws : Bytes → ℕ → ByteBuffer → Type 0
QueueLaws val len b =
    (unread (write_bytes val b) ≡ unread b ++ val)
    × IsValid (write_bytes val b)
    × Takes len b (read_bytes len b)
    × (unread (consume len b).1 ≡ (if (consume len b).0 then drop len (unread b) else unread b))
    × IsValid (consume len b).1

-- In a buffer whose start is not behind its end and that not behind its size, a write appends
-- its bytes to those that are unread, whether the buffer is moved, grown or neither; a read
-- gives the first of them and leaves the others, or fails where there are too few; Consume drops
-- as many or leaves all; and all of them keep the bounds.
pub buffer-QueueLaws : (val : Bytes) (len : ℕ) (b : ByteBuffer) → IsValid b → QueueLaws val len b
buffer-QueueLaws val len b v =
    let (e, w, o) = write_bytes-unread val b v in
    let (c, d) = consume-unread len b v in (e, w, read_bytes-Takes len b v, c, d)

taken :
    (len : ℕ) (val : Bytes) (b : ByteBuffer) (order : ByteOrder) (o : Option (Bytes × ByteBuffer))
    → len ≡ length val
    → Takes len b o
    → unread b ≡ val
    → b.byte_order ≡ order
    → (b' : ByteBuffer) × (o ≡ some (val, b')) × (unread b' ≡ []) × (b'.byte_order ≡ order)
taken len val b order none l t u c =
    let e : length (unread b) ≡ length val = ap length u in ground (arith, t, l, e)
taken len val b order (some r) l t u c =
    let e : take len (unread b) ≡ val = ap (take len) u ∙ take_more len val (omega (arith, l)) in
    let d : drop len (unread b) ≡ [] = ap (drop len) u ∙ ap (λ n. drop n val) l ∙ drop_all val in
    (r.1, ap (λ x. some (x, r.1)) (t.0 ∙ e), t.1 ∙ d, t.3 ∙ c)

-- A buffer with all read takes the bytes and gives them back.
pub read_written :
    (val : Bytes) (b : ByteBuffer)
    → IsValid b
    → unread b ≡ []
    → (b' : ByteBuffer) × (read_bytes (length val) (write_bytes val b) ≡ some (val, b'))
      × (unread b' ≡ [])
      × (b'.byte_order ≡ b.byte_order)
read_written val b v n =
    let (e, w, o) = write_bytes-unread val b v in
    let t = read_bytes-Takes (length val) (write_bytes val b) w in
    taken (length val) val (write_bytes val b) b.byte_order
      (read_bytes (length val) (write_bytes val b)) refl t (e ∙ ap (λ s. s ++ val) n) o

-- A remembered position: reads after it are taken back, a resize in between makes it invalid.
abbrev pub PositionLaws : ℕ → ℕ → ByteBuffer → Type 0
PositionLaws n wanted b =
    (set_read_position (get_read_position b) (consume n b).1 ≡ (true, b))
    × (set_read_position (get_read_position b) (resize wanted b) ≡ (false, resize wanted b))
    × (set_read_position (get_read_position b) (clear b) ≡ (false, clear b))

-- A read position takes back a Consume, and is refused with no effect after a Resize or a Clear.
pub position-PositionLaws : (n wanted : ℕ) (b : ByteBuffer) → PositionLaws n wanted b
unfolding set_read_position get_read_position consume resize clear
position-PositionLaws n wanted b =
    let same : (b.version == b.version) ≡ true = ground arith in
    let other : (b.version == suc b.version) ≡ false = ground arith in
    (
      if-rule {A = Bool × ByteBuffer} (λ r. set_read_position (get_read_position b) r.1 ≡ (true, b))
          (ltb (unread_length b) n) (λ h. rw same refl) (λ h. rw same refl),
      rw other refl,
      rw other refl,
    )
