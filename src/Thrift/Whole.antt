-- ===== src/Thrift/Whole.antt =====
-- `skip` of libsax/sax/net/thrift_binary_protocol.h on values of every depth.
use xlibsax.Prelude.{
  ℕ, zero, suc, ◌+◌, ◌^◌, ◌≤◌, ◌<◌, ◌≡◌, refl, Option, some, List, ◌++◌, arith, length,
  length-append, add32,
}
use mathlib.Core.Path.{subst}
use xlibsax.Buffer.{Buffer}
use xlibsax.Buffer.Valid.{unread, view, IsValid}
use xlibsax.Thrift.Monad.{M, pure, ◌>>=◌}
use xlibsax.Thrift.{enum_of, skip_items, skip_fields, skip_value}
use xlibsax.Thrift.Steps.{big, pure-Reads, length-big}
use xlibsax.Thrift.Headers.{field_bytes, map_bytes, list_bytes}
use xlibsax.Thrift.Value.{
  Value, bool, byte, i16, i32, i64, double, string, struct, map, set, list, Fields, stop, field,
  Pairs, no_pairs, pair, Items, no_items, item, type_of, pairs_size, items_size, encode,
  encode_fields, encode_pairs, encode_items, IsTyped, TypedFields, TypedPairs, TypedItems,
  TypedItems-enum_of, TypedPairs-enum_of, type_of_bounds, length-list_bytes, length-map_bytes,
  length-field_bytes, items_size-le, pairs_size-le,
}
use xlibsax.Thrift.Skip.{
  Sizes, two-Sizes, fixed-Sizes, string-Sizes, list-Sizes, map-Sizes, field-Sizes, stop-Sizes,
}

length-listed : (t size : ℕ) (enc : List ℕ) → length (list_bytes t size ++ enc) ≡ 5 + length enc
length-listed t size enc =
    omega (arith, length-append (list_bytes t size) enc, length-list_bytes t size)

module _ (alloc : ℕ → Option (ℕ × List ℕ)) (unset : ℕ) where
  abbrev both : ℕ → ℕ → ℕ → M ℕ
  both fuel a b =
      skip_value alloc unset fuel a >>= λ i. skip_value alloc unset fuel b >>= λ j. pure (add32 i j)

  mutual
    unfolding skip_value skip_items encode IsTyped

    value-Sizes :
        (v : Value) (fuel : ℕ)
        → IsTyped v
        → length (encode v) < fuel
        → length (encode v) < 2 ^ 32
        → Sizes (skip_value alloc unset fuel (type_of v)) (encode v)
    value-Sizes v zero typed enough h = absurd (omega arith)
    value-Sizes (bool x) (suc fuel) typed enough h =
        fixed-Sizes alloc unset 1 (encode (bool x)) refl (omega arith)
    value-Sizes (byte x) (suc fuel) typed enough h =
        fixed-Sizes alloc unset 1 (encode (byte x)) refl (omega arith)
    value-Sizes (i16 x) (suc fuel) typed enough h =
        fixed-Sizes alloc unset 2 (big 2 x) (length-big 2 x) (omega arith)
    value-Sizes (i32 x) (suc fuel) typed enough h =
        fixed-Sizes alloc unset 4 (big 4 x) (length-big 4 x) (omega arith)
    value-Sizes (i64 x) (suc fuel) typed enough h =
        fixed-Sizes alloc unset 8 (big 8 x) (length-big 8 x) (omega arith)
    value-Sizes (double x) (suc fuel) typed enough h =
        fixed-Sizes alloc unset 8 (big 8 x) (length-big 8 x) (omega arith)
    value-Sizes (string s) (suc fuel) typed enough h = string-Sizes alloc unset s h
    value-Sizes (struct fs) (suc fuel) typed enough h =
        fields-Sizes fs fuel fuel typed (omega (arith, enough)) (omega (arith, enough)) h
    value-Sizes (map k v ps) (suc fuel) (small_k, small_v, typed) enough h =
        let len : length (map_bytes k v (pairs_size ps) ++ encode_pairs ps)
            ≡ 6 + length (encode_pairs ps) =
          omega (
            arith,
            length-append (map_bytes k v (pairs_size ps)) (encode_pairs ps),
            length-map_bytes k v (pairs_size ps),
          ) in
        map-Sizes alloc unset (both fuel) k v (pairs_size ps) (encode_pairs ps) small_k small_v
          (pairs_size-le ps) h
          (pairs-Sizes ps (enum_of k) (enum_of v) fuel (TypedPairs-enum_of ps k v typed)
            (omega (arith, enough, len)) (omega (arith, h, len)))
    value-Sizes (set t is) (suc fuel) (small, typed) enough h =
        let len = length-listed t (items_size is) (encode_items is) in
        list-Sizes alloc unset (skip_value alloc unset fuel) t (items_size is) (encode_items is)
          small (items_size-le is) h
          (items-Sizes is (enum_of t) fuel (TypedItems-enum_of is t typed)
            (omega (arith, enough, len)) (omega (arith, h, len)))
    value-Sizes (list t is) (suc fuel) (small, typed) enough h =
        let len = length-listed t (items_size is) (encode_items is) in
        list-Sizes alloc unset (skip_value alloc unset fuel) t (items_size is) (encode_items is)
          small (items_size-le is) h
          (items-Sizes is (enum_of t) fuel (TypedItems-enum_of is t typed)
            (omega (arith, enough, len)) (omega (arith, h, len)))

    fields-Sizes :
        (fs : Fields) (depth fuel : ℕ)
        → TypedFields fs
        → length (encode_fields fs) ≤ depth
        → length (encode_fields fs) ≤ fuel
        → length (encode_fields fs) < 2 ^ 32
        → Sizes (skip_fields alloc unset (skip_value alloc unset depth) fuel) (encode_fields fs)
    fields-Sizes stop depth zero typed deep enough h = absurd (omega (arith, enough))
    fields-Sizes stop depth (suc fuel) typed deep enough h =
        stop-Sizes alloc unset (skip_value alloc unset depth) fuel
    fields-Sizes (field id v fs) depth zero typed deep enough h = absurd (omega (arith, enough))
    fields-Sizes (field id v fs) depth (suc fuel) (few, typed, others) deep enough h =
        let len : length (field_bytes (type_of v) id ++ (encode v ++ encode_fields fs))
            ≡ 3 + length (encode v) + length (encode_fields fs) =
          omega (
            arith,
            length-append (field_bytes (type_of v) id) (encode v ++ encode_fields fs),
            length-append (encode v) (encode_fields fs),
            length-field_bytes (type_of v) id,
          ) in
        field-Sizes alloc unset (skip_value alloc unset depth) fuel (type_of v) id (encode v)
          (encode_fields fs) ((type_of_bounds v).0) ((type_of_bounds v).1) few h
          (value-Sizes v depth typed (omega (arith, deep, len)) (omega (arith, h, len)))
          (fields-Sizes fs depth fuel others (omega (arith, deep, len)) (omega (arith, enough, len))
            (omega (arith, h, len)))

    pairs-Sizes :
        (ps : Pairs) (a b fuel : ℕ)
        → TypedPairs ps a b
        → length (encode_pairs ps) < fuel
        → length (encode_pairs ps) < 2 ^ 32
        → Sizes (skip_items alloc unset (both fuel a b) (pairs_size ps)) (encode_pairs ps)
    pairs-Sizes no_pairs a b fuel typed enough h = pure-Reads 0
    pairs-Sizes (pair k v ps) a b fuel (same_k, same_v, typed_k, typed_v, others) enough h =
        let len = length-append (encode k ++ encode v) (encode_pairs ps) in
        let len' = length-append (encode k) (encode v) in
        two-Sizes (both fuel a b) (skip_items alloc unset (both fuel a b) (pairs_size ps))
          (encode k ++ encode v) (encode_pairs ps)
          (two-Sizes (skip_value alloc unset fuel a) (skip_value alloc unset fuel b) (encode k)
            (encode v)
            (subst (λ x. Sizes (skip_value alloc unset fuel x) (encode k)) same_k
              (value-Sizes k fuel typed_k (omega (arith, enough, len, len'))
                (omega (arith, h, len, len'))))
            (subst (λ x. Sizes (skip_value alloc unset fuel x) (encode v)) same_v
              (value-Sizes v fuel typed_v (omega (arith, enough, len, len'))
                (omega (arith, h, len, len'))))
            (omega (arith, h, len)))
          (pairs-Sizes ps a b fuel others (omega (arith, enough, len)) (omega (arith, h, len))) h

    items-Sizes :
        (is : Items) (t fuel : ℕ)
        → TypedItems is t
        → length (encode_items is) < fuel
        → length (encode_items is) < 2 ^ 32
        → Sizes
            (skip_items alloc unset (skip_value alloc unset fuel t) (items_size is))
            (encode_items is)
    items-Sizes no_items t fuel typed enough h = pure-Reads 0
    items-Sizes (item v is) t fuel (same, typed, others) enough h =
        let len = length-append (encode v) (encode_items is) in
        two-Sizes (skip_value alloc unset fuel t)
          (skip_items alloc unset (skip_value alloc unset fuel t) (items_size is)) (encode v)
          (encode_items is)
          (subst (λ x. Sizes (skip_value alloc unset fuel x) (encode v)) same
            (value-Sizes v fuel typed (omega (arith, enough, len)) (omega (arith, h, len))))
          (items-Sizes is t fuel others (omega (arith, enough, len)) (omega (arith, h, len))) h

  -- On a valid buffer whose unread bytes begin with those of a well-typed value, fewer than 2^32, `skip` of
  -- its type ends, takes just these bytes, to any depth, and returns their number. Fuel for each byte
  -- and one more is enough.
  pub skip_value_lem :
      (v : Value) (fuel : ℕ) (b : Buffer) (rest : List ℕ)
      → IsTyped v
      → length (encode v) < fuel
      → length (encode v) < 2 ^ 32
      → IsValid b
      → view b ≡ unread (encode v ++ rest)
      → (b' : Buffer) × ((skip_value alloc unset fuel (type_of v) b ≡ some (length (encode v), b'))
          × IsValid b'
          × (view b' ≡ unread rest))
  skip_value_lem v fuel b rest typed enough h valid e =
      value-Sizes v fuel typed enough h b rest valid e
