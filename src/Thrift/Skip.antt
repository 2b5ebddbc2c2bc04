-- ===== src/Thrift/Skip.antt =====
-- `skip` of libsax/sax/net/thrift_binary_protocol.h on the bytes of a value.
use xlibsax.Prelude.{
  ℕ, suc, ◌+◌, ◌^◌, ◌≤◌, ◌<◌, ◌≡◌, sym, false, Option, List, [], ◌∷◌, ◌++◌, arith, length,
  length-append, ◌==◌, if◌then◌else◌, add32,
}
use mathlib.Core.Path.{subst}
use xlibsax.Thrift.Monad.{M, pure, ◌>>=◌, ◌>>◌}
use xlibsax.Thrift.{
  enum_of, t_stop, read_i32, read_field_begin, read_map_begin, read_list_begin, skip_bytes,
  skip_items, skip_fields,
}
use xlibsax.Thrift.Steps.{
  big, Reads, pure-Reads, bind-Reads, last-Reads, skip_bytes-Reads, length-big,
}
use xlibsax.Thrift.Headers.{
  field_bytes, map_bytes, list_bytes, read_i32-Reads, read_field_begin-Reads, read_field_stop-Reads,
  read_list_begin-Reads, read_map_begin-Reads,
}
use xlibsax.Thrift.Value.{string, encode, length-list_bytes, length-map_bytes, length-field_bytes}

-- What takes some bytes and returns their number.
abbrev pub Sizes : M ℕ → List ℕ → Type 0
Sizes m enc = Reads m enc (length enc)

Reads-same : {A : Type 0} (m : M A) (enc : List ℕ) (a c : A) → a ≡ c → Reads m enc a → Reads m enc c
Reads-same m enc a c e r = subst (λ x. Reads m enc x) e r

pub two-Sizes :
    (m k : M ℕ) (e₁ e₂ : List ℕ)
    → Sizes m e₁
    → Sizes k e₂
    → length (e₁ ++ e₂) < 2 ^ 32
    → Sizes (m >>= λ n. k >>= λ l. pure (add32 n l)) (e₁ ++ e₂)
two-Sizes m k e₁ e₂ r₁ r₂ h =
    let both =
      bind-Reads m (λ n. k >>= λ l. pure (add32 n l)) e₁ e₂ (length e₁)
        (add32 (length e₁) (length e₂)) r₁
        (last-Reads k (λ l. add32 (length e₁) l) e₂ (length e₂) r₂) in
    Reads-same (m >>= λ n. k >>= λ l. pure (add32 n l)) (e₁ ++ e₂) (add32 (length e₁) (length e₂))
      (length (e₁ ++ e₂)) (omega (arith, h, length-append e₁ e₂)) both

module _ (alloc : ℕ → Option (ℕ × List ℕ)) (unset : ℕ) where
  -- A value of a fixed size.
  pub fixed-Sizes :
      (n : ℕ) (enc : List ℕ)
      → length enc ≡ n
      → n < 2 ^ 32
      → Sizes (skip_bytes alloc unset n >> pure n) enc
  fixed-Sizes n enc e h =
      let taken : Reads (skip_bytes alloc unset n) enc tt =
        subst (λ k. Reads (skip_bytes alloc unset k) enc tt) e
          (skip_bytes-Reads alloc unset enc (omega (arith, h, e))) in
      Reads-same (skip_bytes alloc unset n >> pure n) enc n (length enc) (sym e)
        (last-Reads (skip_bytes alloc unset n) (λ _. n) enc tt taken)

  pub string-Sizes :
      (s : List ℕ)
      → length (encode (string s)) < 2 ^ 32
      → Sizes
          (read_i32 unset >>= λ x. skip_bytes alloc unset x.0 >> pure (add32 x.1 x.0))
          (encode (string s))
  unfolding encode
  string-Sizes s h =
      let len : length (big 4 (length s) ++ s) ≡ 4 + length s =
        omega (arith, length-append (big 4 (length s)) s, length-big 4 (length s)) in
      Reads-same (read_i32 unset >>= λ x. skip_bytes alloc unset x.0 >> pure (add32 x.1 x.0))
        (big 4 (length s) ++ s) (add32 4 (length s)) (length (big 4 (length s) ++ s))
        (omega (arith, h, len))
        (bind-Reads (read_i32 unset) (λ x. skip_bytes alloc unset x.0 >> pure (add32 x.1 x.0))
          (big 4 (length s)) s (length s, 4) (add32 4 (length s))
          (read_i32-Reads unset unset (length s) (omega (arith, h, len)))
          (last-Reads (skip_bytes alloc unset (length s)) (λ _. add32 4 (length s)) s tt
            (skip_bytes-Reads alloc unset s (omega (arith, h, len)))))

  -- The header of a set or a list before its items, and that of a map before its pairs.
  pub list-Sizes :
      (element : ℕ → M ℕ) (t size : ℕ) (enc : List ℕ)
      → t < 256
      → size ≤ length enc
      → length (list_bytes t size ++ enc) < 2 ^ 32
      → Sizes (skip_items alloc unset (element (enum_of t)) size) enc
      → Sizes
          (read_list_begin unset >>= λ x.
            skip_items alloc unset (element x.0.0) x.0.1 >>= λ k. pure (add32 x.1 k))
          (list_bytes t size ++ enc)
  list-Sizes element t size enc small few h r =
      let len : length (list_bytes t size ++ enc) ≡ 5 + length enc =
        omega (arith, length-append (list_bytes t size) enc, length-list_bytes t size) in
      let body : (ℕ × ℕ) × ℕ → M ℕ =
        λ x. skip_items alloc unset (element x.0.0) x.0.1 >>= λ k. pure (add32 x.1 k) in
      Reads-same (read_list_begin unset >>= body) (list_bytes t size ++ enc) (add32 5 (length enc))
        (length (list_bytes t size ++ enc)) (omega (arith, h, len))
        (bind-Reads (read_list_begin unset) body (list_bytes t size) enc ((enum_of t, size), 5)
          (add32 5 (length enc))
          (read_list_begin-Reads unset t size small (omega (arith, few, h, len)))
          (last-Reads (skip_items alloc unset (element (enum_of t)) size) (λ k. add32 5 k) enc
            (length enc) r))

  pub map-Sizes :
      (element : ℕ → ℕ → M ℕ) (a b size : ℕ) (enc : List ℕ)
      → a < 256
      → b < 256
      → size ≤ length enc
      → length (map_bytes a b size ++ enc) < 2 ^ 32
      → Sizes (skip_items alloc unset (element (enum_of a) (enum_of b)) size) enc
      → Sizes
          (read_map_begin unset >>= λ x.
            skip_items alloc unset (element x.0.0 x.0.1) x.0.2 >>= λ k. pure (add32 x.1 k))
          (map_bytes a b size ++ enc)
  map-Sizes element a b size enc small_a small_b few h r =
      let len : length (map_bytes a b size ++ enc) ≡ 6 + length enc =
        omega (arith, length-append (map_bytes a b size) enc, length-map_bytes a b size) in
      let body : (ℕ × ℕ × ℕ) × ℕ → M ℕ =
        λ x. skip_items alloc unset (element x.0.0 x.0.1) x.0.2 >>= λ k. pure (add32 x.1 k) in
      Reads-same (read_map_begin unset >>= body) (map_bytes a b size ++ enc) (add32 6 (length enc))
        (length (map_bytes a b size ++ enc)) (omega (arith, h, len))
        (bind-Reads (read_map_begin unset) body (map_bytes a b size) enc
          ((enum_of a, enum_of b, size), 6) (add32 6 (length enc))
          (read_map_begin-Reads unset a b size small_a small_b (omega (arith, few, h, len)))
          (last-Reads (skip_items alloc unset (element (enum_of a) (enum_of b)) size)
            (λ k. add32 6 k) enc (length enc) r))

  -- A field before the rest of its struct, and the end of one.
  pub field-Sizes :
      (element : ℕ → M ℕ) (fuel t id : ℕ) (enc rest : List ℕ)
      → 0 < t
      → t < 128
      → id < 2 ^ 16
      → length (field_bytes t id ++ (enc ++ rest)) < 2 ^ 32
      → Sizes (element t) enc
      → Sizes (skip_fields alloc unset element fuel) rest
      → Sizes (skip_fields alloc unset element (suc fuel)) (field_bytes t id ++ (enc ++ rest))
  unfolding skip_fields
  field-Sizes element fuel t id enc rest pos small few h r₁ r₂ =
      let len : length (field_bytes t id ++ (enc ++ rest)) ≡ 3 + length enc + length rest = omega (
        arith,
        length-append (field_bytes t id) (enc ++ rest),
        length-append enc rest,
        length-field_bytes t id,
      ) in
      let other : (t == t_stop) ≡ false = ground (arith, pos) in
      let rest_of : (ℕ × ℕ) × ℕ → M ℕ = λ x. element x.0.0 >>= λ k.
      skip_fields alloc unset element fuel >>= λ l. pure (add32 (add32 x.1 k) l) in
      let body : (ℕ × ℕ) × ℕ → M ℕ = λ x. if x.0.0 == t_stop then pure x.1 else rest_of x in
      Reads-same (skip_fields alloc unset element (suc fuel)) (field_bytes t id ++ (enc ++ rest))
        (add32 (add32 3 (length enc)) (length rest)) (length (field_bytes t id ++ (enc ++ rest)))
        (omega (arith, h, len))
        (bind-Reads (read_field_begin unset unset) body (field_bytes t id) (enc ++ rest)
          ((t, id), 3) (add32 (add32 3 (length enc)) (length rest))
          (read_field_begin-Reads unset unset t id pos small few)
          (rw other (
            bind-Reads (element t)
              (λ k. skip_fields alloc unset element fuel >>= λ l. pure (add32 (add32 3 k) l)) enc
              rest (length enc) (add32 (add32 3 (length enc)) (length rest)) r₁
              (last-Reads (skip_fields alloc unset element fuel)
                (λ l. add32 (add32 3 (length enc)) l) rest (length rest) r₂))))

  pub stop-Sizes :
      (element : ℕ → M ℕ) (fuel : ℕ)
      → Sizes (skip_fields alloc unset element (suc fuel)) (t_stop ∷ [])
  unfolding skip_fields
  stop-Sizes element fuel =
      let rest_of : (ℕ × ℕ) × ℕ → M ℕ = λ x. element x.0.0 >>= λ k.
      skip_fields alloc unset element fuel >>= λ l. pure (add32 (add32 x.1 k) l) in
      let body : (ℕ × ℕ) × ℕ → M ℕ = λ x. if x.0.0 == t_stop then pure x.1 else rest_of x in
      bind-Reads (read_field_begin unset unset) body (t_stop ∷ []) [] ((t_stop, 0), 1) 1
        (read_field_stop-Reads unset unset) (pure-Reads 1)
