-- ===== src/Thrift/Tests.antt =====
-- Runs of the protocol of libsax/sax/net/thrift_binary_protocol.h.
use xlibsax.Prelude.{
  ℕ, ◌*◌, ◌≡◌, refl, sym, ap, ◌∙◌, inl, inr, true, Option, none, some, List, [], ◌∷◌, arith, length,
  replicate, length-replicate, some-eq,
}
use xlibsax.Buffer.{Buffer, invalid}
use xlibsax.Buffer.Valid.{unread, view, IsValid}
use xlibsax.Buffer.Store.{Pages}
use xlibsax.Buffer.Numbers.{bytes_of, turned}
use xlibsax.Thrift.{
  t_i16, t_bool, write_bool, write_byte, write_i16, write_i32, write_i64, write_double,
  write_message_begin, write_field_begin, write_map_begin, write_list_begin, read_bool, read_byte,
  read_i16, read_i32, read_i64, read_double, read_message_begin, read_field_begin, read_map_begin,
  read_list_begin, skip_value,
}
use xlibsax.Thrift.Steps.{IsReady}
use xlibsax.Thrift.Value.{
  Value, bool, i16, struct, list, stop, field, no_items, item, encode, type_of, IsTyped,
}
use xlibsax.Thrift.Messages.{read_message_begin_throws, message_round_trip}
use xlibsax.Thrift.Round.{Back, numbers_round_trip, headers_round_trip}
use xlibsax.Thrift.Whole.{skip_value_lem}

abbrev pages : ℕ → Option (ℕ × List ℕ)
pages k = some (8192, replicate (k * 4) 0)

pages-Pages : Pages pages 4
pages-Pages k base fresh e =
    let q : replicate (k * 4) 0 ≡ fresh = ap (λ (x : ℕ × List ℕ). x.1) (some-eq e) in
    ap length (sym q) ∙ length-replicate (k * 4) 0

-- A buffer on one page, with nothing written.
abbrev empty : Buffer
empty = record {
  base = 4096;
  buf = 0 ∷ 0 ∷ 0 ∷ 0 ∷ [];
  current = 0;
  mark = invalid;
  limit = invalid;
  capacity = 4;
  block_size = 4;
}

empty-IsReady : IsReady pages 4 empty []
unfolding view
empty-IsReady = record {
  valid = record {
    paged = omega arith;
    held = refl;
    small = omega arith;
    position = omega arith;
    limited = inl refl;
    marked = inl refl;
  };
  writes = refl;
  unit_same = refl;
  pages = pages-Pages;
  granted = λ k e. ground (arith, e);
}

message_round_trip_example :
    Back
      (write_message_begin pages (112 ∷ 113 ∷ []) 1 7)
      14
      (read_message_begin 0 [] 0)
      (some ((112 ∷ 113 ∷ [], 1, 7), 14))
      empty
message_round_trip_example =
    message_round_trip pages 4 0 [] (112 ∷ 113 ∷ []) 0 1 7 empty empty-IsReady (omega arith)
      (omega arith) (omega arith)

numbers_round_trip_example :
    Back (write_bool pages true) 1 (read_bool 0) (true, 1) empty
    × Back (write_byte pages 200) 1 (read_byte 0) (200, 1) empty
    × Back (write_i16 pages 1000) 2 (read_i16 0) (1000, 2) empty
    × Back (write_i32 pages 70000) 4 (read_i32 0) (70000, 4) empty
    × Back (write_i64 pages 5000000000) 8 (read_i64 0) (5000000000, 8) empty
    × Back (write_double pages 3) 8 (read_double 0) (3, 8) empty
numbers_round_trip_example =
    numbers_round_trip pages 4 0 true 200 1000 70000 5000000000 3 0 empty empty-IsReady
      (omega arith) (omega arith) (omega arith) (omega arith) (omega arith) (omega arith)

headers_round_trip_example :
    Back (write_field_begin pages t_i16 5) 3 (read_field_begin 0 0) ((t_i16, 5), 3) empty
    × Back (write_map_begin pages t_bool t_i16 2) 6 (read_map_begin 0) ((t_bool, t_i16, 2), 6) empty
    × Back (write_list_begin pages t_i16 2) 5 (read_list_begin 0) ((t_i16, 2), 5) empty
headers_round_trip_example =
    headers_round_trip pages 4 0 t_i16 5 t_bool t_i16 t_i16 2 0 empty empty-IsReady (omega arith)
      (omega arith) (omega arith) (omega arith) (omega arith) (omega arith) (omega arith)
      (omega arith)

-- A struct with a Boolean and a list of one number.
abbrev sample : Value
sample = struct (field 1 (bool true) (field 2 (list t_i16 (item (i16 7) no_items)) stop))

abbrev sent : Buffer
sent = record {
  base = 4096;
  buf = 2 ∷ 0 ∷ 1 ∷ 1 ∷ 15 ∷ 0 ∷ 2 ∷ 6 ∷ 0 ∷ 0 ∷ 0 ∷ 1 ∷ 0 ∷ 7 ∷ 0 ∷ 9 ∷ [];
  current = 0;
  mark = invalid;
  limit = 16;
  capacity = 16;
  block_size = 4;
}

sent-IsValid : IsValid sent
sent-IsValid = record {
  paged = omega arith;
  held = refl;
  small = omega arith;
  position = omega arith;
  limited = inr (omega arith);
  marked = inl refl;
}

skip_value_lem_example :
    (b' : Buffer) × ((skip_value pages 0 16 (type_of sample) sent
        ≡ some (length (encode sample), b'))
      × IsValid b'
      × (view b' ≡ unread (9 ∷ [])))
unfolding view encode IsTyped bytes_of turned
skip_value_lem_example =
    skip_value_lem pages 0 sample 16 sent (9 ∷ [])
      (omega arith, tt, (omega arith, (omega arith, (refl, tt, tt)), tt)) (omega arith)
      (omega arith) sent-IsValid refl

read_message_begin_throws_example :
    (b' : Buffer) × ((read_message_begin 0 [] 0 sent ≡ some (none, b'))
      × IsValid b'
      × (view b' ≡ unread (15 ∷ 0 ∷ 2 ∷ 6 ∷ 0 ∷ 0 ∷ 0 ∷ 1 ∷ 0 ∷ 7 ∷ 0 ∷ 9 ∷ [])))
unfolding view bytes_of turned
read_message_begin_throws_example =
    read_message_begin_throws 0 [] 0 0x02000101 sent
      (15 ∷ 0 ∷ 2 ∷ 6 ∷ 0 ∷ 0 ∷ 0 ∷ 1 ∷ 0 ∷ 7 ∷ 0 ∷ 9 ∷ []) (omega arith) (λ e. ground (arith, e))
      sent-IsValid refl
