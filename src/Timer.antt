-- ===== src/Timer.antt =====
-- The hierarchical timing wheel of libsax/sax/timer.c. A node is a record with its address, a ring of
-- nodes is the list from `list_head->next` on, and `lv1` to `lv4` are functions from a slot. A node
-- has `prev == NULL` exactly when it stands on no ring.
pub mod Place
pub mod Wheel
pub mod Keep
pub mod Cascade
pub mod Start
pub mod Serve
pub mod Tick
pub mod Poll
pub mod OnTime
mod Tests
use xlibsax.Prelude.{
  ℕ, zero, suc, ◌/◌, ◌%◌, ◌^◌, Bool, true, false, not, ◌&&◌, Option, none, some, List, [], ◌∷◌,
  ◌++◌, map, ltb, leb, ◌==◌, if◌then◌else◌, add32, sub32,
}
use xlibsax.Pool.Xslab
use xlibsax.Pool.Xslab.{Xslab}

pub record Node : Type 0 where
  pub addr : ℕ
  pub user_data : ℕ
  pub expire : ℕ

pub data Level : Type 0 where
  lv1 lv2 lv3 lv4 : Level

abbrev pub same_level : Level → Level → Bool
same_level lv1 lv1 = true
same_level lv2 lv2 = true
same_level lv3 lv3 = true
same_level lv4 lv4 = true
same_level _ _ = false

abbrev pub Wheel : Type 0
Wheel = Level → ℕ → List Node

-- `fired` is the sequence of calls of `node->func`, first first.
pub record Timer : Type 0 where
  pub wheel : Wheel
  pub pool : Xslab
  pub last : ℕ
  pub count : ℕ
  pub fired : List Node

-- The write of one ring.
abbrev pub put_ring : Wheel → Level → ℕ → List Node → Wheel
put_ring w lv i ring lv' j = if same_level lv lv' && i == j then ring else w lv' j

-- The level that `schedule` chooses by the delay, and the slot there.
unfoldable pub level_of : ℕ → Level
level_of delay =
    if leb delay 0xffff
    then (if ltb 0xff delay then lv2 else lv1)
    else (if leb delay 0xffffff then lv3 else lv4)

abbrev pub slot_of : Level → ℕ → ℕ
slot_of lv1 expire = expire % 256
slot_of lv2 expire = expire / 2 ^ 8 % 256
slot_of lv3 expire = expire / 2 ^ 16 % 256
slot_of lv4 expire = expire / 2 ^ 24 % 256

-- The node goes right behind the list head.
unfoldable pub schedule : Wheel → Node → ℕ → Wheel
schedule w node delay =
    let lv = level_of delay in let i = slot_of lv node.expire in put_ring w lv i (node ∷ w lv i)

-- The walk of `reschedule` over the nodes that its ring had at the start.
unfoldable pub reschedule_nodes : Wheel → List Node → ℕ → Wheel
unfolding schedule
reschedule_nodes w [] now = w
reschedule_nodes w (node ∷ rest) now =
    reschedule_nodes (schedule w node (sub32 node.expire now)) rest now

-- In the end the head is linked to itself, whatever was put behind it on the way.
unfoldable pub reschedule : Wheel → Level → ℕ → ℕ → Wheel
unfolding reschedule_nodes
reschedule w lv i now = put_ring (reschedule_nodes w (w lv i) now) lv i []

-- `created` and `rings` say whether the two `malloc`s succeeded, `pooled` whether that of
-- `g_xslab_init` did. The code does not test `rings`: its loop then writes through a null pointer,
-- a fault, which is the outer `none`.
pub create2 : Bool → Bool → Bool → ℕ → Option (Option Timer)
unfolding Xslab.init
create2 false rings pooled now = some none
create2 true rings pooled now = elim (Xslab.init pooled 40) [
  | none ↦ some none
  | some pool ↦
      if rings
      then some
          (some (record { wheel = λ lv i. []; pool = pool; last = now; count = 0; fired = [] }))
      else none
]

-- `g_timer_start`: the handle is the node's address, `none` stands for NULL.
unfoldable pub start : Timer → Option ℕ → ℕ → ℕ → Option (Option ℕ × Timer)
start t answer delay_ticks user_data = elim (Xslab.alloc t.pool answer) [
  | none ↦ none
  | some (none, pool) ↦ some (none, record t { pool = pool })
  | some (some p, pool) ↦
      let node : Node = record {
        addr = p;
        user_data = user_data;
        expire = add32 t.last delay_ticks;
      } in
      some (
        some p,
        record t {
          wheel = schedule t.wheel node delay_ticks;
          pool = pool;
          count = add32 t.count 1;
        },
      )
]

abbrev pub find_node : ℕ → List Node → Option Node
find_node p [] = none
find_node p (node ∷ rest) = if node.addr == p then some node else find_node p rest

-- The search for the ring on which the node stands stands for the links that the node has itself.
abbrev pub find_slot : ℕ → (ℕ → List Node) → ℕ → Option (ℕ × Node)
find_slot p rings zero = none
find_slot p rings (suc i) = elim (find_node p (rings i)) [
  | some node ↦ some (i, node)
  | none ↦ find_slot p rings i
]

abbrev pub find_level : ℕ → Wheel → List Level → Option (Level × ℕ × Node)
find_level p w [] = none
find_level p w (lv ∷ lvs) = elim (find_slot p (w lv) 256) [
  | some (i, node) ↦ some (lv, i, node)
  | none ↦ find_level p w lvs
]

unfoldable pub pending : Wheel → ℕ → Option (Level × ℕ × Node)
pending w p = find_level p w (lv1 ∷ lv2 ∷ lv3 ∷ lv4 ∷ [])

abbrev pub unlink : ℕ → List Node → List Node
unlink p [] = []
unlink p (node ∷ rest) = if node.addr == p then rest else node ∷ unlink p rest

-- `g_timer_cancel`: 1 if the node stands on no ring, else 0 and the user data.
unfoldable pub cancel : Timer → ℕ → (ℕ × Option ℕ) × Timer
cancel t p = elim (pending t.wheel p) [
  | none ↦ ((1, none), t)
  | some (lv, i, node) ↦ (
    (0, some node.user_data),
    record t {
      wheel = put_ring t.wheel lv i (unlink p (t.wheel lv i));
      pool = Xslab.free t.pool p;
      count = sub32 t.count 1;
    },
  )
]

-- What a callback does to the timer: `node->func` is given by its calls.
pub data Request : Type 0 where
  starts : Option ℕ → ℕ → ℕ → Request
  cancels : ℕ → Request

unfoldable pub serve : Timer → Request → Option Timer
serve t (starts answer delay data') = elim (start t answer delay data') [
  | none ↦ none
  | some (h, t') ↦ some t'
]
serve t (cancels p) = some (cancel t p).1

unfoldable pub serve_all : Timer → List Request → Option Timer
serve_all t [] = some t
serve_all t (r ∷ rs) = elim (serve t r) [ none ↦ none | some t' ↦ serve_all t' rs ]

module _ (func : Node → List Request) where
  -- One round of `fire`: unlink the node, call it, free it.
  unfoldable pub fire_node : Timer → ℕ → Node → List Node → Option Timer
  fire_node t i node rest =
      let t₁ : Timer = record t {
        wheel = put_ring t.wheel lv1 i rest;
        count = sub32 t.count 1;
        fired = t.fired ++ (node ∷ []);
      } in
      elim (serve_all t₁ (func node)) [
        | none ↦ none
        | some t₂ ↦ some (record t₂ { pool = Xslab.free t₂.pool node.addr })
      ]

  -- `fire` reads the head of the ring again in each round. `none` is a fault, or the fuel ran out.
  unfoldable pub fire : ℕ → Timer → ℕ → Option Timer
  fire zero t i = none
  fire (suc fuel) t i = elim (t.wheel lv1 i) [
    | [] ↦ some t
    | node ∷ rest ↦ elim (fire_node t i node rest) [ none ↦ none | some t' ↦ fire fuel t' i ]
  ]

-- The rings that fall due when the clock has come to `now`.
unfoldable pub cascade : Wheel → ℕ → Wheel
unfolding reschedule
cascade w now =
    if not (now % 2 ^ 8 == 0)
    then w
    else if not (now % 2 ^ 16 == 0)
    then reschedule w lv2 (now / 2 ^ 8 % 256) now
    else if not (now % 2 ^ 24 == 0)
    then reschedule (reschedule w lv3 (now / 2 ^ 16 % 256) now) lv2 0 now
    else reschedule (reschedule (reschedule w lv4 (now / 2 ^ 24 % 256) now) lv3 0 now) lv2 0 now

module _ (func : Node → List Request) (fuel : ℕ) where
  -- One round of the loop of `g_timer_poll`.
  unfoldable pub tick : Timer → Option Timer
  tick t =
      let now = add32 t.last 1 in
      fire func fuel (record t { wheel = cascade t.wheel now; last = now }) (now % 256)

  unfoldable pub poll : ℕ → Timer → Option Timer
  poll zero t = some t
  poll (suc lapsed) t = elim (tick t) [ none ↦ none | some t' ↦ poll lapsed t' ]

-- The nodes of the first `i` rings of a level, ring by ring.
unfoldable pub rings_below : (ℕ → List Node) → ℕ → List Node
rings_below rings zero = []
rings_below rings (suc i) = rings_below rings i ++ rings i

unfoldable pub all_rings : Wheel → List Node
all_rings w =
    rings_below (w lv1) 256
    ++ (rings_below (w lv2) 256 ++ (rings_below (w lv3) 256 ++ rings_below (w lv4) 256))

-- `g_timer_destroy`: the user data handed to `free_func`, first first, and the pool at its end.
unfoldable pub destroy : Timer → List ℕ × Option Xslab
destroy t =
    let nodes = all_rings t.wheel in
    (
      map (λ (n : Node). n.user_data) nodes,
      Xslab.destroy (Xslab.free_all t.pool (map (λ (n : Node). n.addr) nodes)),
    )

-- `g_timer_count`
unfoldable pub timer_count : Timer → ℕ
timer_count t = t.count

-- `g_timer_shrink_mempool`
unfoldable pub shrink_mempool : (ℕ → ℕ) → Timer → Timer
shrink_mempool kept t = record t { pool = Xslab.shrink kept t.pool }
