-- ===== src/Thrift/Headers.antt =====
-- What the writes of libsax/sax/net/thrift_binary_protocol.h append, and that the reads take it.
use xlibsax.Prelude.{
  ℕ, ◌+◌, ◌-◌, ◌^◌, ◌<◌, ◌≡◌, sym, false, List, [], ◌∷◌, ◌++◌, arith, length, ◌==◌, if◌then◌else◌,
  add32,
}
use xlibsax.Thrift.Monad.{pure, ◌>>=◌}
use xlibsax.Thrift.{
  enum_of, t_stop, version_1, load, load_bytes, read_byte, read_i16, read_i32, read_string_body,
  read_string, read_field_begin, read_map_begin, read_list_begin, resize,
}
use xlibsax.Thrift.Steps.{
  big, Reads, pure-Reads, bind-Reads, last-Reads, load_bytes-Reads, load-Reads, load_byte-Reads,
}

-- A string and the headers on the wire.
abbrev pub string_bytes : List ℕ → List ℕ
string_bytes s = big 4 (length s) ++ s

abbrev pub message_bytes : List ℕ → ℕ → ℕ → List ℕ
message_bytes name message_type seqid =
    big 4 (version_1 + message_type) ++ (string_bytes name ++ big 4 seqid)

abbrev pub field_bytes : ℕ → ℕ → List ℕ
field_bytes field_type field_id = (field_type ∷ []) ++ big 2 field_id

abbrev pub map_bytes : ℕ → ℕ → ℕ → List ℕ
map_bytes key_type val_type size = (key_type ∷ []) ++ ((val_type ∷ []) ++ big 4 size)

abbrev pub list_bytes : ℕ → ℕ → List ℕ
list_bytes elem_type size = (elem_type ∷ []) ++ big 4 size

-- The reads.
module _ (unset : ℕ) where
  pub read_i32-Reads : (old num : ℕ) → num < 2 ^ 32 → Reads (read_i32 old) (big 4 num) (num, 4)
  unfolding read_i32
  read_i32-Reads old num h =
      last-Reads (load 4 old) (λ x. (x, 4)) (big 4 num) num
        (load-Reads 4 old num (omega arith) (omega arith) h)

  pub read_byte-Reads : (old num : ℕ) → num < 256 → Reads (read_byte old) (num ∷ []) (num, 1)
  unfolding read_byte
  read_byte-Reads old num h =
      last-Reads (load 1 old) (λ x. (x, 1)) (num ∷ []) num (load_byte-Reads old num h)

  pub read_i16-Reads : (old num : ℕ) → num < 2 ^ 16 → Reads (read_i16 old) (big 2 num) (num, 2)
  unfolding read_i16
  read_i16-Reads old num h =
      last-Reads (load 2 old) (λ x. (x, 2)) (big 2 num) num
        (load-Reads 2 old num (omega arith) (omega arith) h)

  read_string_body-Reads :
      (old s : List ℕ)
      → length s < 2 ^ 32
      → Reads (read_string_body unset old (length s)) s (s, length s)
  unfolding read_string_body
  read_string_body-Reads old [] h = pure-Reads ([], 0)
  read_string_body-Reads old (x ∷ s) h =
      let some_bytes : (length (x ∷ s) == 0) ≡ false = ground arith in
      rw some_bytes (
        last-Reads (load_bytes (length (x ∷ s)) (resize (length (x ∷ s)) old))
          (λ t. (t, length (x ∷ s))) (x ∷ s) (x ∷ s)
          (load_bytes-Reads (resize (length (x ∷ s)) old) (x ∷ s) h))

  pub read_string-Reads :
      (old s : List ℕ)
      → length s < 2 ^ 32 - 4
      → Reads (read_string unset old) (string_bytes s) (s, 4 + length s)
  unfolding read_string
  read_string-Reads old s h =
      let sum : add32 4 (length s) ≡ 4 + length s = omega (arith, h) in
      rw (sym sum) (
        bind-Reads (read_i32 unset)
          (λ x. read_string_body unset old x.0 >>= λ y. pure (y.0, add32 x.1 y.1))
          (big 4 (length s)) s (length s, 4) (s, add32 4 (length s))
          (read_i32-Reads unset (length s) (omega (arith, h)))
          (last-Reads (read_string_body unset old (length s)) (λ y. (y.0, add32 4 y.1)) s
            (s, length s) (read_string_body-Reads old s (omega (arith, h)))))

  -- The field, map and list headers.
  pub read_field_begin-Reads :
      (old field_type field_id : ℕ)
      → 0 < field_type
      → field_type < 128
      → field_id < 2 ^ 16
      → Reads
          (read_field_begin unset old)
          (field_bytes field_type field_id)
          ((field_type, field_id), 3)
  unfolding read_field_begin
  read_field_begin-Reads old field_type field_id pos h k =
      let same : enum_of field_type ≡ field_type = ground (arith, h) in
      let field : (field_type == t_stop) ≡ false = ground (arith, pos) in
      bind-Reads (read_byte unset)
        (λ x.
          if enum_of x.0 == t_stop
          then pure ((enum_of x.0, 0), x.1)
          else (read_i16 old >>= λ y. pure ((enum_of x.0, y.0), add32 x.1 y.1)))
        (field_type ∷ []) (big 2 field_id) (field_type, 1) ((field_type, field_id), 3)
        (read_byte-Reads unset field_type (omega (arith, h)))
        (rw (same, field)
          (last-Reads (read_i16 old) (λ y. ((field_type, y.0), add32 1 y.1)) (big 2 field_id)
            (field_id, 2) (read_i16-Reads old field_id k)))

  pub read_field_stop-Reads :
      (old : ℕ) → Reads (read_field_begin unset old) (t_stop ∷ []) ((t_stop, 0), 1)
  unfolding read_field_begin
  read_field_stop-Reads old =
      bind-Reads (read_byte unset)
        (λ x.
          if enum_of x.0 == t_stop
          then pure ((enum_of x.0, 0), x.1)
          else (read_i16 old >>= λ y. pure ((enum_of x.0, y.0), add32 x.1 y.1)))
        (t_stop ∷ []) [] (t_stop, 1) ((t_stop, 0), 1) (read_byte-Reads unset t_stop (omega arith))
        (pure-Reads ((t_stop, 0), 1))

  pub read_list_begin-Reads :
      (elem_type size : ℕ)
      → elem_type < 256
      → size < 2 ^ 32
      → Reads (read_list_begin unset) (list_bytes elem_type size) ((enum_of elem_type, size), 5)
  unfolding read_list_begin
  read_list_begin-Reads elem_type size h k =
      bind-Reads (read_byte unset)
        (λ x. read_i32 unset >>= λ y. pure ((enum_of x.0, y.0), add32 x.1 y.1)) (elem_type ∷ [])
        (big 4 size) (elem_type, 1) ((enum_of elem_type, size), 5)
        (read_byte-Reads unset elem_type h)
        (last-Reads (read_i32 unset) (λ y. ((enum_of elem_type, y.0), add32 1 y.1)) (big 4 size)
          (size, 4) (read_i32-Reads unset size k))

  pub read_map_begin-Reads :
      (key_type val_type size : ℕ)
      → key_type < 256
      → val_type < 256
      → size < 2 ^ 32
      → Reads
          (read_map_begin unset)
          (map_bytes key_type val_type size)
          ((enum_of key_type, enum_of val_type, size), 6)
  unfolding read_map_begin
  read_map_begin-Reads key_type val_type size h k l =
      bind-Reads (read_byte unset)
        (λ x. read_byte unset >>= λ y.
          read_i32 unset >>= λ z. pure ((enum_of x.0, enum_of y.0, z.0), add32 (add32 x.1 y.1) z.1))
        (key_type ∷ []) ((val_type ∷ []) ++ big 4 size) (key_type, 1)
        ((enum_of key_type, enum_of val_type, size), 6) (read_byte-Reads unset key_type h)
        (bind-Reads (read_byte unset)
          (λ y. read_i32 unset >>= λ z.
            pure ((enum_of key_type, enum_of y.0, z.0), add32 (add32 1 y.1) z.1))
          (val_type ∷ []) (big 4 size) (val_type, 1) ((enum_of key_type, enum_of val_type, size), 6)
          (read_byte-Reads unset val_type k)
          (last-Reads (read_i32 unset)
            (λ z. ((enum_of key_type, enum_of val_type, z.0), add32 2 z.1)) (big 4 size) (size, 4)
            (read_i32-Reads unset size l)))
