-- ===== src/Thrift/Round.antt =====
-- Numbers and headers of libsax/sax/net/thrift_binary_protocol.h, written into a buffer and read from
-- it after it was turned round.
use xlibsax.Prelude.{
  ℕ, ◌+◌, ◌%◌, ◌^◌, ◌≤◌, ◌<◌, ◌≡◌, refl, sym, ap, ap₂, ◌∙◌, Bool, true, false, not, Option, some,
  List, [], ◌∷◌, ◌++◌, append-nil, arith, length, run, ◌==◌, if◌then◌else◌, add32,
}
use mathlib.Core.Path.{subst}
use xlibsax.Buffer.{Buffer, invalid, flip}
use xlibsax.Buffer.Valid.{written, unread, view}
use xlibsax.Buffer.Modes.{Flips, flip_lem}
use xlibsax.Buffer.Numbers.{bytes_of, put_num}
use xlibsax.Thrift.Monad.{M, pure, ◌>>=◌, ◌>>◌}
use xlibsax.Thrift.{
  enum_of, store, store_num, write_bool, write_byte, write_i16, write_i32, write_i64, write_double,
  write_field_begin, write_map_begin, write_list_begin, load, read_bool, read_byte, read_i16,
  read_i32, read_i64, read_double, read_field_begin, read_map_begin, read_list_begin,
}
use xlibsax.Thrift.Steps.{
  big, Reads, last-Reads, IsReady, Writes, bind-Writes, last-Writes, store-Writes, store_num-Writes,
  load-Reads, load_byte-Reads, length-big,
}
use xlibsax.Thrift.Value.{length-list_bytes, length-map_bytes, length-field_bytes}
use xlibsax.Thrift.Headers.{
  field_bytes, map_bytes, list_bytes, read_byte-Reads, read_field_begin-Reads,
  read_list_begin-Reads, read_map_begin-Reads,
}

-- `m` returns `n` on the buffer, and after `flip` the read returns `a` and leaves nothing.
abbrev pub Back : {A : Type 0} → M ℕ → ℕ → M A → A → Buffer → Type 0
Back m n r a b =
    (b₁ : Buffer) × ((m b ≡ some (n, b₁))
      × ((b₂ : Buffer) × ((r (flip b₁).1 ≡ some (a, b₂)) × (view b₂ ≡ unread []))))

module _ (alloc : ℕ → Option (ℕ × List ℕ)) (unit : ℕ) where
  pub Back_lem :
      {A : Type 0} (m : M ℕ) (n : ℕ) (r : M A) (a : A) (enc : List ℕ)
      → Writes alloc unit m enc n
      → Reads r enc a
      → (b : Buffer) → IsReady alloc unit b []
      → length enc + unit < invalid
      → Back m n r a b
  Back_lem m n r a enc w reads b ready room =
      let (b₁, (run₁, after)) = w b [] ready (omega (arith, room)) in
      let turned_round : Flips b₁ (written enc) (flip b₁) =
        subst (λ f. Flips b₁ f (flip b₁)) after.writes (flip_lem b₁ after.valid) in
      let (ok, u, v) = turned_round in
      let (b₂, (run₂, v₂, u₂)) = reads (flip b₁).1 [] v (u ∙ ap unread (sym (append-nil enc))) in
      (b₁, (run₁, (b₂, (run₂, u₂))))

  big-Writes :
      (width n num : ℕ)
      → Writes alloc unit (store_num alloc width true num >> pure n) (big width num) n
  big-Writes width n num =
      last-Writes alloc unit (store_num alloc width true num) (λ _. n) (big width num) tt
        (store_num-Writes alloc unit width num)

  store_num-store :
      (x : ℕ) (b : Buffer) → x < 256 → store_num alloc 1 false x b ≡ store alloc (x ∷ []) b
  unfolding store_num store put_num bytes_of
  store_num-store x b h =
      let low : x % 256 ≡ x = omega (arith, h) in rw (store_num, put_num, store, low) refl

  byte-Writes :
      (x : ℕ) → x < 256 → Writes alloc unit {A = ℕ} (store_num alloc 1 false x >> pure 1) (x ∷ []) 1
  byte-Writes x h =
      last-Writes alloc unit (store_num alloc 1 false x) (λ _. 1) (x ∷ []) tt
        (λ b w ready room.
          let (b', (run, after)) = store-Writes alloc unit (x ∷ []) b w ready room in
          (b', (store_num-store x b h ∙ run, after)))

  write_bool-Writes :
      (x : Bool) → Writes alloc unit (write_bool alloc x) ((if x then 1 else 0) ∷ []) 1
  unfolding write_bool
  write_bool-Writes x = byte-Writes (if x then 1 else 0) (ground arith)

  field-Writes :
      (type id : ℕ)
      → type < 256
      → Writes alloc unit (write_field_begin alloc type id) (field_bytes type id) 3
  unfolding write_field_begin write_byte write_i16
  field-Writes type id h =
      bind-Writes alloc unit (write_byte alloc type)
        (λ n. write_i16 alloc id >>= λ k. pure (add32 n k)) (type ∷ []) (big 2 id) 1 3
        (byte-Writes type h)
        (last-Writes alloc unit (write_i16 alloc id) (λ k. add32 1 k) (big 2 id) 2
          (big-Writes 2 2 id))

  list-Writes :
      (t size : ℕ)
      → t < 256
      → Writes alloc unit (write_list_begin alloc t size) (list_bytes t size) 5
  unfolding write_list_begin write_byte write_i32
  list-Writes t size h =
      bind-Writes alloc unit (write_byte alloc t)
        (λ n. write_i32 alloc size >>= λ k. pure (add32 n k)) (t ∷ []) (big 4 size) 1 5
        (byte-Writes t h)
        (last-Writes alloc unit (write_i32 alloc size) (λ k. add32 1 k) (big 4 size) 4
          (big-Writes 4 4 size))

  map-Writes :
      (a c size : ℕ)
      → a < 256
      → c < 256
      → Writes alloc unit (write_map_begin alloc a c size) (map_bytes a c size) 6
  unfolding write_map_begin write_byte write_i32
  map-Writes a c size h k =
      bind-Writes alloc unit (write_byte alloc a)
        (λ n. write_byte alloc c >>= λ k. write_i32 alloc size >>= λ l. pure (add32 (add32 n k) l))
        (a ∷ []) ((c ∷ []) ++ big 4 size) 1 6 (byte-Writes a h)
        (bind-Writes alloc unit (write_byte alloc c)
          (λ k. write_i32 alloc size >>= λ l. pure (add32 (add32 1 k) l)) (c ∷ []) (big 4 size) 1 6
          (byte-Writes c k)
          (last-Writes alloc unit (write_i32 alloc size) (λ l. add32 2 l) (big 4 size) 4
            (big-Writes 4 4 size)))

  module _ (unset : ℕ) where
    read_bool-Reads : (x : Bool) → Reads (read_bool unset) ((if x then 1 else 0) ∷ []) (x, 1)
    unfolding read_bool
    read_bool-Reads true =
        last-Reads (load 1 unset) (λ x. (not (x == 0), 1)) (1 ∷ []) 1
          (load_byte-Reads unset 1 (omega arith))
    read_bool-Reads false =
        last-Reads (load 1 unset) (λ x. (not (x == 0), 1)) (0 ∷ []) 0
          (load_byte-Reads unset 0 (omega arith))

    big-Reads :
        (width n old num : ℕ)
        → 1 < width
        → width < 2 ^ 32
        → num < 256 ^ width
        → Reads {A = ℕ × ℕ} (load width old >>= λ x. pure (x, n)) (big width num) (num, n)
    big-Reads width n old num wide small h =
        last-Reads (load width old) (λ x. (x, n)) (big width num) num
          (load-Reads width old num wide small h)

    -- On a valid empty buffer with room and an allocator that grants, a Boolean, a byte, an
    -- integer of 16, 32 and 64 bits that fits its width and the 64 bits of a double are read as
    -- they were written, both sizes are the width, and nothing is left.
    pub numbers_round_trip :
        (x : Bool) (n8 n16 n32 n64 double old : ℕ) (b : Buffer)
        → IsReady alloc unit b []
        → 8 + unit < invalid
        → n8 < 256
        → n16 < 2 ^ 16
        → n32 < 2 ^ 32
        → n64 < 2 ^ 64
        → double < 2 ^ 64
        → Back (write_bool alloc x) 1 (read_bool unset) (x, 1) b
          × Back (write_byte alloc n8) 1 (read_byte old) (n8, 1) b
          × Back (write_i16 alloc n16) 2 (read_i16 old) (n16, 2) b
          × Back (write_i32 alloc n32) 4 (read_i32 old) (n32, 4) b
          × Back (write_i64 alloc n64) 8 (read_i64 old) (n64, 8) b
          × Back (write_double alloc double) 8 (read_double unset) (double, 8) b
    unfolding write_bool write_byte write_i16 write_i32 write_i64 write_double read_byte read_i16
        read_i32 read_i64 read_double
    numbers_round_trip x n8 n16 n32 n64 double old b ready room h8 h16 h32 h64 hd = (
      Back_lem (write_bool alloc x) 1 (read_bool unset) (x, 1) ((if x then 1 else 0) ∷ [])
          (write_bool-Writes x) (read_bool-Reads x) b ready (omega (arith, room)),
      Back_lem (write_byte alloc n8) 1 (read_byte old) (n8, 1) (n8 ∷ []) (byte-Writes n8 h8)
          (read_byte-Reads unset old n8 h8) b ready (omega (arith, room)),
      wide 2 n16 old (omega arith) (omega arith) h16,
      wide 4 n32 old (omega arith) (omega arith) h32,
      wide 8 n64 old (omega arith) (omega arith) h64,
      wide 8 double unset (omega arith) (omega arith) hd,
    )
      where
        wide :
            (width num old : ℕ)
            → 1 < width
            → width ≤ 8
            → num < 256 ^ width
            → Back {A = ℕ × ℕ}
                (store_num alloc width true num >> pure width)
                width
                (load width old >>= λ x. pure (x, width))
                (num, width)
                b
        wide width num old lower upper h =
            Back_lem (store_num alloc width true num >> pure width) width
              (load width old >>= λ x. pure (x, width)) (num, width) (big width num)
              (big-Writes width width num)
              (big-Reads width width old num lower (omega (arith, upper)) h) b ready
              (omega (arith, room, upper, length-big width num))

    -- On a valid empty buffer with room and an allocator that grants, the headers of a field whose
    -- type is not that of the end, of a map and of a list, with types below 128, a field number of
    -- 16 bits and a size of 32 bits, are read as they were written, in 3, 6 and 5 bytes, and
    -- nothing is left.
    pub headers_round_trip :
        (type id key_type val_type elem_type size old : ℕ) (b : Buffer)
        → IsReady alloc unit b []
        → 6 + unit < invalid
        → 0 < type
        → type < 128
        → id < 2 ^ 16
        → key_type < 128
        → val_type < 128
        → elem_type < 128
        → size < 2 ^ 32
        → Back (write_field_begin alloc type id) 3 (read_field_begin unset old) ((type, id), 3) b
          × Back
              (write_map_begin alloc key_type val_type size)
              6
              (read_map_begin unset)
              ((key_type, val_type, size), 6)
              b
          × Back
              (write_list_begin alloc elem_type size)
              5
              (read_list_begin unset)
              ((elem_type, size), 5)
              b
    headers_round_trip type id key_type val_type elem_type size old b ready room pos ht hi hk hv he
          hs =
        (
          Back_lem (write_field_begin alloc type id) 3 (read_field_begin unset old) ((type, id), 3)
              (field_bytes type id) (field-Writes type id (omega (arith, ht)))
              (read_field_begin-Reads unset old type id pos ht hi) b ready
              (omega (arith, room, length-field_bytes type id)),
          Back_lem (write_map_begin alloc key_type val_type size) 6 (read_map_begin unset)
              ((key_type, val_type, size), 6) (map_bytes key_type val_type size)
              (map-Writes key_type val_type size (omega (arith, hk)) (omega (arith, hv)))
              (subst
                (λ (x : ℕ × ℕ).
                  Reads (read_map_begin unset) (map_bytes key_type val_type size)
                    ((x.0, x.1, size), 6))
                (ap₂ (λ x y. (x, y)) (same key_type hk) (same val_type hv))
                (read_map_begin-Reads unset key_type val_type size (omega (arith, hk))
                  (omega (arith, hv)) hs))
              b ready (omega (arith, room, length-map_bytes key_type val_type size)),
          Back_lem (write_list_begin alloc elem_type size) 5 (read_list_begin unset)
              ((elem_type, size), 5) (list_bytes elem_type size)
              (list-Writes elem_type size (omega (arith, he)))
              (subst (λ x. Reads (read_list_begin unset) (list_bytes elem_type size) ((x, size), 5))
                (same elem_type he)
                (read_list_begin-Reads unset elem_type size (omega (arith, he)) hs))
              b ready (omega (arith, room, length-list_bytes elem_type size)),
        )
      where
        same : (t : ℕ) → t < 128 → enum_of t ≡ t
        same t h = ground (arith, h)
