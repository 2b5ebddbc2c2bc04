-- ===== src/Thrift/Messages.antt =====
-- The message header of libsax/sax/net/thrift_binary_protocol.h, written into a buffer, and read from
-- it after it was turned round.
use xlibsax.Prelude.{
  ℕ, ◌+◌, ◌-◌, ◌*◌, ◌/◌, ◌%◌, ◌^◌, ◌<◌, bit_or, ◌≡◌, sym, ◌≢◌, true, false, Option, none, some,
  List, [], ◌∷◌, ◌++◌, append-nil, arith, bit_or_join, length, length-append, take_all, ltb, ◌==◌,
  if◌then◌else◌, add32,
}
use xlibsax.Buffer.{Buffer, invalid}
use xlibsax.Buffer.Valid.{unread, view, IsValid}
use xlibsax.Thrift.Monad.{M, pure, ◌>>=◌, ◌>>◌}
use xlibsax.Thrift.{
  version_1, store, store_num, write_i32, write_string, write_message_begin, read_i32, read_string,
  read_message_begin,
}
use xlibsax.Thrift.Steps.{
  big, Reads, pure-Reads, bind-Reads, last-Reads, IsReady, Writes, pure-Writes, bind-Writes,
  last-Writes, store-Writes, store_num-Writes, length-big,
}
use xlibsax.Thrift.Round.{Back, Back_lem}
use xlibsax.Thrift.Headers.{string_bytes, message_bytes, read_i32-Reads, read_string-Reads}

-- What follows the version.
abbrev after_version : ℕ → List ℕ → ℕ → ℕ × ℕ → M (Option ((List ℕ × ℕ × ℕ) × ℕ))
after_version unset old old_id x =
    if x.0 / 2 ^ 16 * 2 ^ 16 == version_1
    then (read_string unset old >>= λ y.
        read_i32 old_id >>= λ z. pure (some ((y.0, x.0 % 256, z.0), add32 (add32 x.1 y.1) z.1)))
    else pure none

module _ (unset : ℕ) where
  read_message_begin-none :
      (old : List ℕ) (old_id word : ℕ)
      → word < 2 ^ 32
      → word / 2 ^ 16 * 2 ^ 16 ≢ version_1
      → Reads (read_message_begin unset old old_id) (big 4 word) none
  unfolding read_message_begin
  read_message_begin-none old old_id word h other =
      let is_other : (word / 2 ^ 16 * 2 ^ 16 == version_1) ≡ false = ground (arith, other) in
      rw (sym (append-nil (big 4 word))) (
        bind-Reads (read_i32 unset) (after_version unset old old_id) (big 4 word) [] (word, 4) none
          (read_i32-Reads unset unset word h) (rw is_other (pure-Reads none)))

  -- On a valid buffer whose unread bytes begin with a word of 32 bits that has not the version,
  -- `readMessageBegin` throws, after it took that word and nothing else.
  pub read_message_begin_throws :
      (old : List ℕ) (old_id word : ℕ) (b : Buffer) (rest : List ℕ)
      → word < 2 ^ 32
      → word / 2 ^ 16 * 2 ^ 16 ≢ version_1
      → IsValid b
      → view b ≡ unread (big 4 word ++ rest)
      → (b' : Buffer) × ((read_message_begin unset old old_id b ≡ some (none, b'))
          × IsValid b'
          × (view b' ≡ unread rest))
  read_message_begin_throws old old_id word b rest h other valid e =
      read_message_begin-none old old_id word h other b rest valid e

  pub read_message_begin-Reads :
      (old name : List ℕ) (old_id message_type seqid : ℕ)
      → length name < 2 ^ 32 - 12
      → message_type < 256
      → seqid < 2 ^ 32
      → Reads
          (read_message_begin unset old old_id)
          (message_bytes name message_type seqid)
          (some ((name, message_type, seqid), 12 + length name))
  unfolding read_message_begin
  read_message_begin-Reads old name old_id message_type seqid h k l =
      let word = version_1 + message_type in
      let is_version : (word / 2 ^ 16 * 2 ^ 16 == version_1) ≡ true = ground (arith, k) in
      let low : word % 256 ≡ message_type = omega (arith, k) in
      let sum : add32 (add32 4 (4 + length name)) 4 ≡ 12 + length name = omega (arith, h) in
      bind-Reads (read_i32 unset) (after_version unset old old_id) (big 4 word)
        (string_bytes name ++ big 4 seqid) (word, 4)
        (some ((name, message_type, seqid), 12 + length name))
        (read_i32-Reads unset unset word (omega (arith, k)))
        (rw (is_version, low, sym sum)
          (bind-Reads (read_string unset old)
            (λ y. read_i32 old_id >>= λ z.
              pure (some ((y.0, message_type, z.0), add32 (add32 4 y.1) z.1)))
            (string_bytes name) (big 4 seqid) (name, 4 + length name)
            (some ((name, message_type, seqid), add32 (add32 4 (4 + length name)) 4))
            (read_string-Reads unset old name (omega (arith, h)))
            (last-Reads (read_i32 old_id)
              (λ z. some ((name, message_type, z.0), add32 (add32 4 (4 + length name)) z.1))
              (big 4 seqid) (seqid, 4) (read_i32-Reads unset old_id seqid l))))

module _ (alloc : ℕ → Option (ℕ × List ℕ)) (unit : ℕ) where
  write_i32-Writes : (num : ℕ) → Writes alloc unit (write_i32 alloc num) (big 4 num) 4
  unfolding write_i32
  write_i32-Writes num =
      last-Writes alloc unit (store_num alloc 4 true num) (λ _. 4) (big 4 num) tt
        (store_num-Writes alloc unit 4 num)

  body-Writes :
      (s : List ℕ) → Writes alloc unit (if ltb 0 (length s) then store alloc s else pure tt) s tt
  body-Writes [] = pure-Writes alloc unit tt
  body-Writes (x ∷ s) =
      let some_bytes : ltb 0 (length (x ∷ s)) ≡ true = ground arith in
      rw some_bytes (store-Writes alloc unit (x ∷ s))

  write_string-Writes :
      (s : List ℕ)
      → length s < 2 ^ 32 - 4
      → Writes alloc unit (write_string alloc s) (string_bytes s) (4 + length s)
  unfolding write_string
  write_string-Writes s h =
      let size : length s % 2 ^ 32 ≡ length s = omega (arith, h) in
      let sum : add32 4 (length s) ≡ 4 + length s = omega (arith, h) in
      rw (size, take_all s, sym sum)
        (bind-Writes alloc unit (write_i32 alloc (length s))
          (λ result.
            (if ltb 0 (length s) then store alloc s else pure tt) >> pure (add32 result (length s)))
          (big 4 (length s)) s 4 (add32 4 (length s)) (write_i32-Writes (length s))
          (last-Writes alloc unit (if ltb 0 (length s) then store alloc s else pure tt)
            (λ _. add32 4 (length s)) s tt (body-Writes s)))

  write_message_begin-Writes :
      (name : List ℕ) (message_type seqid : ℕ)
      → length name < 2 ^ 32 - 12
      → message_type < 256
      → Writes alloc unit
          (write_message_begin alloc name message_type seqid)
          (message_bytes name message_type seqid)
          (12 + length name)
  unfolding write_message_begin
  write_message_begin-Writes name message_type seqid h k =
      let version : bit_or version_1 message_type ≡ version_1 + message_type =
        bit_or_join 16 0x8001 message_type (omega (arith, k)) in
      let sum : add32 (add32 4 (4 + length name)) 4 ≡ 12 + length name = omega (arith, h) in
      rw (version, sym sum)
        (bind-Writes alloc unit (write_i32 alloc (version_1 + message_type))
          (λ n. write_string alloc name >>= λ k.
            write_i32 alloc seqid >>= λ l. pure (add32 (add32 n k) l))
          (big 4 (version_1 + message_type)) (string_bytes name ++ big 4 seqid) 4
          (add32 (add32 4 (4 + length name)) 4) (write_i32-Writes (version_1 + message_type))
          (bind-Writes alloc unit (write_string alloc name)
            (λ k. write_i32 alloc seqid >>= λ l. pure (add32 (add32 4 k) l)) (string_bytes name)
            (big 4 seqid) (4 + length name) (add32 (add32 4 (4 + length name)) 4)
            (write_string-Writes name (omega (arith, h)))
            (last-Writes alloc unit (write_i32 alloc seqid)
              (λ l. add32 (add32 4 (4 + length name)) l) (big 4 seqid) 4 (write_i32-Writes seqid))))

  length-message :
      (name : List ℕ) (message_type seqid : ℕ)
      → length (message_bytes name message_type seqid) ≡ 12 + length name
  length-message name message_type seqid =
      let first = length-big 4 (version_1 + message_type) in
      omega (
        arith,
        first,
        length-big 4 (length name),
        length-big 4 seqid,
        length-append (big 4 (version_1 + message_type)) (string_bytes name ++ big 4 seqid),
        length-append (string_bytes name) (big 4 seqid),
        length-append (big 4 (length name)) name,
      )

  -- On a valid empty buffer with room in 32 bits and an allocator that grants, a message's name,
  -- its type below 256 and its number of 32 bits are read as they were written, after the buffer
  -- was turned round, and nothing is left; both sizes are the number of bytes on the wire.
  pub message_round_trip :
      (unset : ℕ) (old name : List ℕ) (old_id message_type seqid : ℕ) (b : Buffer)
      → IsReady alloc unit b []
      → length name + 12 + unit < invalid
      → message_type < 256
      → seqid < 2 ^ 32
      → Back
          (write_message_begin alloc name message_type seqid)
          (12 + length name)
          (read_message_begin unset old old_id)
          (some ((name, message_type, seqid), 12 + length name))
          b
  message_round_trip unset old name old_id message_type seqid b ready room k l =
      let len : length (message_bytes name message_type seqid) ≡ 12 + length name =
        length-message name message_type seqid in
      Back_lem alloc unit (write_message_begin alloc name message_type seqid) (12 + length name)
        (read_message_begin unset old old_id) (some ((name, message_type, seqid), 12 + length name))
        (message_bytes name message_type seqid)
        (write_message_begin-Writes name message_type seqid (omega (arith, room)) k)
        (read_message_begin-Reads unset old name old_id message_type seqid (omega (arith, room)) k
          l)
        b ready (omega (arith, room, len))
