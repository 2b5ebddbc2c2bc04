-- ===== src/Thrift/Value.antt =====
-- The values of the binary protocol of libsax/sax/net/thrift_binary_protocol.h and their bytes on the
-- wire, a description apart from the code that writes them.
use xlibsax.Prelude.{
  ℕ, suc, ◌^◌, ◌≤◌, ◌<◌, ◌≡◌, Bool, List, [], ◌∷◌, ◌++◌, arith, length, length-append,
  if◌then◌else◌,
}
use xlibsax.Thrift.{
  enum_of, t_stop, t_bool, t_byte, t_double, t_i16, t_i32, t_i64, t_string, t_struct, t_map, t_set,
  t_list,
}
use xlibsax.Thrift.Steps.{big, length-big}
use xlibsax.Thrift.Headers.{string_bytes, field_bytes, map_bytes, list_bytes}

-- A number is its bits. A map, a set and a list say the types of what they hold.
mutual
  pub data Value : Type 0 where
    bool : Bool → Value
    byte i16 i32 i64 double : ℕ → Value
    string : List ℕ → Value
    struct : Fields → Value
    map : ℕ → ℕ → Pairs → Value
    set list : ℕ → Items → Value

  pub data Fields : Type 0 where
    stop : Fields
    field : ℕ → Value → Fields → Fields

  pub data Pairs : Type 0 where
    no_pairs : Pairs
    pair : Value → Value → Pairs → Pairs

  pub data Items : Type 0 where
    no_items : Items
    item : Value → Items → Items

abbrev pub type_of : Value → ℕ
type_of (bool x) = t_bool
type_of (byte x) = t_byte
type_of (i16 x) = t_i16
type_of (i32 x) = t_i32
type_of (i64 x) = t_i64
type_of (double x) = t_double
type_of (string s) = t_string
type_of (struct fs) = t_struct
type_of (map k v ps) = t_map
type_of (set t is) = t_set
type_of (list t is) = t_list

abbrev pub pairs_size : Pairs → ℕ
pairs_size no_pairs = 0
pairs_size (pair k v ps) = suc (pairs_size ps)

abbrev pub items_size : Items → ℕ
items_size no_items = 0
items_size (item v is) = suc (items_size is)

unfoldable mutual
  pub encode : Value → List ℕ
  encode (bool x) = (if x then 1 else 0) ∷ []
  encode (byte x) = x ∷ []
  encode (i16 x) = big 2 x
  encode (i32 x) = big 4 x
  encode (i64 x) = big 8 x
  encode (double x) = big 8 x
  encode (string s) = string_bytes s
  encode (struct fs) = encode_fields fs
  encode (map k v ps) = map_bytes k v (pairs_size ps) ++ encode_pairs ps
  encode (set t is) = list_bytes t (items_size is) ++ encode_items is
  encode (list t is) = list_bytes t (items_size is) ++ encode_items is

  pub encode_fields : Fields → List ℕ
  encode_fields stop = t_stop ∷ []
  encode_fields (field id v fs) = field_bytes (type_of v) id ++ (encode v ++ encode_fields fs)

  pub encode_pairs : Pairs → List ℕ
  encode_pairs no_pairs = []
  encode_pairs (pair k v ps) = (encode k ++ encode v) ++ encode_pairs ps

  pub encode_items : Items → List ℕ
  encode_items no_items = []
  encode_items (item v is) = encode v ++ encode_items is

-- Field numbers have 16 bits, types have 8, and what a map, a set or a list holds is of its types.
unfoldable mutual
  pub IsTyped : Value → Type 0
  IsTyped (struct fs) = TypedFields fs
  IsTyped (map k v ps) = (k < 256) × (v < 256) × TypedPairs ps k v
  IsTyped (set t is) = (t < 256) × TypedItems is t
  IsTyped (list t is) = (t < 256) × TypedItems is t
  IsTyped _ = Unit

  pub TypedFields : Fields → Type 0
  TypedFields stop = Unit
  TypedFields (field id v fs) = (id < 2 ^ 16) × IsTyped v × TypedFields fs

  pub TypedPairs : Pairs → ℕ → ℕ → Type 0
  TypedPairs no_pairs a b = Unit
  TypedPairs (pair k v ps) a b =
      (type_of k ≡ a) × (type_of v ≡ b) × IsTyped k × IsTyped v × TypedPairs ps a b

  pub TypedItems : Items → ℕ → Type 0
  TypedItems no_items a = Unit
  TypedItems (item v is) a = (type_of v ≡ a) × IsTyped v × TypedItems is a

pub type_of_bounds : (v : Value) → (0 < type_of v) × (type_of v < 128)
type_of_bounds v = (ground arith, ground arith)

enum_of-type_of : (v : Value) (t : ℕ) → type_of v ≡ t → type_of v ≡ enum_of t
enum_of-type_of v t e = ground (arith, e, (type_of_bounds v).1)

-- The types that a reader of the header has are those of the values.
pub TypedItems-enum_of : (is : Items) (t : ℕ) → TypedItems is t → TypedItems is (enum_of t)
unfolding IsTyped
TypedItems-enum_of no_items t h = tt
TypedItems-enum_of (item v is) t (e, typed, others) =
    (enum_of-type_of v t e, typed, TypedItems-enum_of is t others)

pub TypedPairs-enum_of :
    (ps : Pairs) (a b : ℕ) → TypedPairs ps a b → TypedPairs ps (enum_of a) (enum_of b)
unfolding IsTyped
TypedPairs-enum_of no_pairs a b h = tt
TypedPairs-enum_of (pair k v ps) a b (ek, ev, typed_k, typed_v, others) = (
  enum_of-type_of k a ek,
  enum_of-type_of v b ev,
  typed_k,
  typed_v,
  TypedPairs-enum_of ps a b others,
)

pub length-list_bytes : (t n : ℕ) → length (list_bytes t n) ≡ 5
length-list_bytes t n = omega (arith, length-big 4 n)

pub length-map_bytes : (k v n : ℕ) → length (map_bytes k v n) ≡ 6
length-map_bytes k v n = omega (arith, length-big 4 n)

pub length-field_bytes : (t id : ℕ) → length (field_bytes t id) ≡ 3
length-field_bytes t id = omega (arith, length-big 2 id)

-- No value is without bytes.
pub encode_lower : (v : Value) → 0 < length (encode v)
unfolding encode
encode_lower (bool x) = omega arith
encode_lower (byte x) = omega arith
encode_lower (i16 x) = omega (arith, length-big 2 x)
encode_lower (i32 x) = omega (arith, length-big 4 x)
encode_lower (i64 x) = omega (arith, length-big 8 x)
encode_lower (double x) = omega (arith, length-big 8 x)
encode_lower (string s) = omega (arith, length-append (big 4 (length s)) s, length-big 4 (length s))
encode_lower (struct stop) = omega arith
encode_lower (struct (field id v fs)) = omega arith
encode_lower (map k v ps) = omega arith
encode_lower (set t is) = omega arith
encode_lower (list t is) = omega arith

-- So there are at most as many as their bytes.
pub items_size-le : (is : Items) → items_size is ≤ length (encode_items is)
unfolding encode
items_size-le no_items = omega arith
items_size-le (item v is) =
    omega (arith, items_size-le is, encode_lower v, length-append (encode v) (encode_items is))

pub pairs_size-le : (ps : Pairs) → pairs_size ps ≤ length (encode_pairs ps)
unfolding encode
pairs_size-le no_pairs = omega arith
pairs_size-le (pair k v ps) = omega (
  arith,
  pairs_size-le ps,
  encode_lower k,
  length-append (encode k) (encode v),
  length-append (encode k ++ encode v) (encode_pairs ps),
)
