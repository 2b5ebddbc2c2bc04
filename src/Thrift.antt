-- ===== src/Thrift.antt =====
-- The binary protocol of libsax/sax/net/thrift_binary_protocol.h over the buffer of Buffer. What the
-- buffer's `put`, `get` and `skip` return is ignored there, and so it is here.
pub mod Monad
pub mod Steps
pub mod Headers
pub mod Messages
pub mod Value
pub mod Skip
pub mod Whole
pub mod Round
mod Tests
use xlibsax.Prelude.{
  ℕ, zero, suc, ◌+◌, ◌-◌, ◌*◌, ◌/◌, ◌%◌, ◌^◌, bit_or, Bool, true, false, not, ◌||◌, Option, none,
  some, List, [], ◌++◌, length, take, replicate, ltb, ◌==◌, if◌then◌else◌, add32,
}
use xlibsax.Buffer.{Buffer, put, get, skip}
use xlibsax.Buffer.Numbers.{get_num, put_num}
use xlibsax.Thrift.Monad.{M, pure, ◌>>=◌, ◌>>◌}

-- `TType`, as the numbers on the wire.
abbrev pub t_stop : ℕ
t_stop = 0

abbrev pub t_bool : ℕ
t_bool = 2

abbrev pub t_byte : ℕ
t_byte = 3

abbrev pub t_double : ℕ
t_double = 4

abbrev pub t_i16 : ℕ
t_i16 = 6

abbrev pub t_i32 : ℕ
t_i32 = 8

abbrev pub t_i64 : ℕ
t_i64 = 10

abbrev pub t_string : ℕ
t_string = 11

abbrev pub t_struct : ℕ
t_struct = 12

abbrev pub t_map : ℕ
t_map = 13

abbrev pub t_set : ℕ
t_set = 14

abbrev pub t_list : ℕ
t_list = 15

-- `VERSION_1`
abbrev pub version_1 : ℕ
version_1 = 0x80010000

-- `alloc` is what `g_shm_alloc_pages` returns to the buffer. A number of the source is its bits.
module _ (alloc : ℕ → Option (ℕ × List ℕ)) where
  -- `_buf->put(...)`
  unfoldable pub store : List ℕ → M (Unit {0})
  store bytes b = elim (put alloc b bytes) [ none ↦ none | some (ok, b') ↦ some (tt, b') ]

  unfoldable pub store_num : ℕ → Bool → ℕ → M (Unit {0})
  store_num width bigendian num b = elim (put_num alloc b width bigendian num) [
    | none ↦ none
    | some (ok, b') ↦ some (tt, b')
  ]

  unfoldable pub write_bool : Bool → M ℕ
  write_bool value = do store_num 1 false (if value then 1 else 0); pure 1

  unfoldable pub write_byte : ℕ → M ℕ
  write_byte byte = do store_num 1 false byte; pure 1

  unfoldable pub write_i16 : ℕ → M ℕ
  write_i16 i16 = do store_num 2 true i16; pure 2

  unfoldable pub write_i32 : ℕ → M ℕ
  write_i32 i32 = do store_num 4 true i32; pure 4

  unfoldable pub write_i64 : ℕ → M ℕ
  write_i64 i64 = do store_num 8 true i64; pure 8

  unfoldable pub write_double : ℕ → M ℕ
  write_double bits = do store_num 8 true bits; pure 8

  unfoldable pub write_string : List ℕ → M ℕ
  write_string str =
      let size = length str % 2 ^ 32 in
      do
        result ← write_i32 size
        if ltb 0 size then store (take size str) else pure tt
        pure (add32 result size)

  unfoldable pub write_message_begin : List ℕ → ℕ → ℕ → M ℕ
  write_message_begin name message_type seqid = do
    n ← write_i32 (bit_or version_1 message_type)
    k ← write_string name
    l ← write_i32 seqid
    pure (add32 (add32 n k) l)

  unfoldable pub write_field_begin : ℕ → ℕ → M ℕ
  write_field_begin field_type field_id = do
    n ← write_byte field_type
    k ← write_i16 field_id
    pure (add32 n k)

  unfoldable pub write_field_stop : M ℕ
  write_field_stop = write_byte t_stop

  unfoldable pub write_map_begin : ℕ → ℕ → ℕ → M ℕ
  write_map_begin key_type val_type size = do
    n ← write_byte key_type
    k ← write_byte val_type
    l ← write_i32 size
    pure (add32 (add32 n k) l)

  -- `writeListBegin`, and `writeSetBegin`, which has the same body.
  unfoldable pub write_list_begin : ℕ → ℕ → M ℕ
  write_list_begin elem_type size = do
    n ← write_byte elem_type
    k ← write_i32 size
    pure (add32 n k)

-- `_buf->get(...)` into a variable that holds `old`.
unfoldable pub load : ℕ → ℕ → M ℕ
load width old b = elim (get_num b width (ltb 1 width)) [
  | none ↦ none
  | some (none, b') ↦ some (old, b')
  | some (some num, b') ↦ some (num, b')
]

unfoldable pub load_bytes : ℕ → List ℕ → M (List ℕ)
load_bytes n old b = elim (get b n) [
  | none ↦ none
  | some (none, b') ↦ some (old, b')
  | some (some bytes, b') ↦ some (bytes, b')
]

-- Each read returns the value that its variable then holds, and the size.
unfoldable pub read_byte : ℕ → M (ℕ × ℕ)
read_byte old = do x ← load 1 old; pure (x, 1)

unfoldable pub read_i16 : ℕ → M (ℕ × ℕ)
read_i16 old = do x ← load 2 old; pure (x, 2)

unfoldable pub read_i32 : ℕ → M (ℕ × ℕ)
read_i32 old = do x ← load 4 old; pure (x, 4)

unfoldable pub read_i64 : ℕ → M (ℕ × ℕ)
read_i64 old = do x ← load 8 old; pure (x, 8)

-- `(TType)type` of an `int8_t`: the sign is extended to the 32 bits of the enumeration.
abbrev pub enum_of : ℕ → ℕ
enum_of byte = if ltb byte 128 then byte else byte + (2 ^ 32 - 256)

-- `std::string::resize`
abbrev pub resize : ℕ → List ℕ → List ℕ
resize n str = take n str ++ replicate (n - length str) 0

-- `unset` is what a variable holds that was not set.
module _ (unset : ℕ) where
  unfoldable pub read_bool : M (Bool × ℕ)
  read_bool = do x ← load 1 unset; pure (not (x == 0), 1)

  unfoldable pub read_double : M (ℕ × ℕ)
  read_double = do x ← load 8 unset; pure (x, 8)

  unfoldable pub read_string_body : List ℕ → ℕ → M (List ℕ × ℕ)
  read_string_body str size =
      if size == 0 then pure ([], 0) else do s ← load_bytes size (resize size str); pure (s, size)

  unfoldable pub read_string : List ℕ → M (List ℕ × ℕ)
  read_string str = do
    (size, n) ← read_i32 unset
    (s, k) ← read_string_body str size
    pure (s, add32 n k)

  -- The name, the type and the number of a message; `none` is the exception.
  unfoldable pub read_message_begin : List ℕ → ℕ → M (Option ((List ℕ × ℕ × ℕ) × ℕ))
  read_message_begin name seqid = do
    (sz, n) ← read_i32 unset
    if sz / 2 ^ 16 * 2 ^ 16 == version_1
        then (do
          (s, k) ← read_string name
          (i, l) ← read_i32 seqid
          pure (some ((s, sz % 256, i), add32 (add32 n k) l)))
        else pure none

  -- The type and the number of a field.
  unfoldable pub read_field_begin : ℕ → M ((ℕ × ℕ) × ℕ)
  read_field_begin field_id = do
    (type, n) ← read_byte unset
    if enum_of type == t_stop
        then pure ((enum_of type, 0), n)
        else (do (id, k) ← read_i16 field_id; pure ((enum_of type, id), add32 n k))

  unfoldable pub read_map_begin : M ((ℕ × ℕ × ℕ) × ℕ)
  read_map_begin = do
    (k, n) ← read_byte unset
    (v, m) ← read_byte unset
    (size, l) ← read_i32 unset
    pure ((enum_of k, enum_of v, size), add32 (add32 n m) l)

  -- `readListBegin`, and `readSetBegin`, which has the same body.
  unfoldable pub read_list_begin : M ((ℕ × ℕ) × ℕ)
  read_list_begin = do
    (e, n) ← read_byte unset
    (size, k) ← read_i32 unset
    pure ((enum_of e, size), add32 n k)

module _ (alloc : ℕ → Option (ℕ × List ℕ)) (unset : ℕ) where
  -- `_buf->skip(n)`
  unfoldable pub skip_bytes : ℕ → M (Unit {0})
  skip_bytes n b = elim (skip alloc b n) [ none ↦ none | some (ok, b') ↦ some (tt, b') ]

  -- The loops of `skip`, by what it does for each element.
  unfoldable pub skip_items : M ℕ → ℕ → M ℕ
  skip_items element zero = pure 0
  skip_items element (suc size) = do n ← element; k ← skip_items element size; pure (add32 n k)

  unfoldable pub skip_fields : (ℕ → M ℕ) → ℕ → M ℕ
  skip_fields element zero = λ b. none
  skip_fields element (suc fuel) = do
    ((type, id), n) ← read_field_begin unset unset
    if type == t_stop
        then pure n
        else (do k ← element type; l ← skip_fields element fuel; pure (add32 (add32 n k) l))

  -- `skip`, on fuel for the depth and for the fields of a struct.
  unfoldable pub skip_value : ℕ → ℕ → M ℕ
  skip_value zero type = λ b. none
  skip_value (suc fuel) type =
      if type == t_bool || type == t_byte
      then (do skip_bytes 1; pure 1)
      else if type == t_i16
      then (do skip_bytes 2; pure 2)
      else if type == t_i32
      then (do skip_bytes 4; pure 4)
      else if type == t_i64 || type == t_double
      then (do skip_bytes 8; pure 8)
      else if type == t_string
      then (do (size, n) ← read_i32 unset; skip_bytes size; pure (add32 n size))
      else if type == t_struct
      then skip_fields (skip_value fuel) fuel
      else if type == t_map
      then (do
        ((key_type, val_type, size), n) ← read_map_begin unset
        k ←
            skip_items
              (do i ← skip_value fuel key_type; j ← skip_value fuel val_type; pure (add32 i j)) size
        pure (add32 n k))
      else if type == t_set || type == t_list
      then (do
        ((elem_type, size), n) ← read_list_begin unset
        k ← skip_items (skip_value fuel elem_type) size
        pure (add32 n k))
      else pure 0
