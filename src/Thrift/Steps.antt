-- ===== src/Thrift/Steps.antt =====
-- Operations of libsax/sax/net/thrift_binary_protocol.h that read or write some bytes, and how they
-- follow one another.
use xlibsax.Prelude.{
  ℕ, zero, suc, ◌+◌, ◌/◌, ◌^◌, ◌≤◌, ◌<◌, ◌≡◌, refl, sym, ap, ◌∙◌, ◌≢◌, inl, inr, Bool, true, false,
  Option, none, some, List, [], ◌∷◌, ◌++◌, append-nil, append_assoc, arith, length, take, drop, All,
  length-append, length-take, take-append, drop-append, All-append, run, ltb, Bool-cases,
}
use mathlib.Core.Path.{subst}
use xlibsax.Buffer.{Buffer, invalid, writing, get, put, skip}
use xlibsax.Buffer.Valid.{written, unread, view, IsValid}
use xlibsax.Buffer.Store.{Pages, Puts, put_lem}
use xlibsax.Buffer.Transfer.{Gets, get_lem, Skips, skip_lem}
use xlibsax.Buffer.Numbers.{
  bytes_of, number_of, turned, bswap, get_num, put_num, number_of-bytes_of, bytes_of-number_of,
}
use xlibsax.Thrift.Monad.{M, pure, ◌>>=◌}
use xlibsax.Thrift.{store, store_num, load, load_bytes, skip_bytes}

-- A number on the wire, with its highest byte first.
abbrev pub big : ℕ → ℕ → List ℕ
big width num = turned (bytes_of width num)

-- The bytes of a number, turned or not.
length-bytes_of : (width num : ℕ) → length (bytes_of width num) ≡ width
unfolding bytes_of
length-bytes_of zero num = refl
length-bytes_of (suc width) num = ap suc (length-bytes_of width (num / 256))

All-bytes_of : (width num : ℕ) → All (λ x. x < 256) (bytes_of width num)
unfolding bytes_of
All-bytes_of zero num = tt
All-bytes_of (suc width) num = (omega arith, All-bytes_of width (num / 256))

turned-append : (xs ys : List ℕ) → turned (xs ++ ys) ≡ turned ys ++ turned xs
unfolding turned
turned-append [] ys = sym (append-nil (turned ys))
turned-append (x ∷ xs) ys = rw (turned-append xs ys) (append_assoc (turned ys) (turned xs) (x ∷ []))

turned-turned : (xs : List ℕ) → turned (turned xs) ≡ xs
unfolding turned
turned-turned [] = refl
turned-turned (x ∷ xs) = rw (turned-append (turned xs) (x ∷ []), turned-turned xs) refl

length-turned : (xs : List ℕ) → length (turned xs) ≡ length xs
unfolding turned
length-turned [] = refl
length-turned (x ∷ xs) = omega (arith, length-append (turned xs) (x ∷ []), length-turned xs)

All-turned : (xs : List ℕ) → All (λ x. x < 256) xs → All (λ x. x < 256) (turned xs)
unfolding turned
All-turned [] h = tt
All-turned (x ∷ xs) (p, h) =
    All-append (λ y. y < 256) (turned xs) (x ∷ []) (All-turned xs h) (p, tt)

pub length-big : (width num : ℕ) → length (big width num) ≡ width
length-big width num = length-turned (bytes_of width num) ∙ length-bytes_of width num

bytes_of-bswap : (width num : ℕ) → bytes_of width (bswap width num) ≡ big width num
unfolding bswap
bytes_of-bswap width num =
    let back =
      bytes_of-number_of (big width num)
        (All-turned (bytes_of width num) (All-bytes_of width num)) in
    ap (λ n. bytes_of n (number_of (big width num))) (sym (length-big width num)) ∙ back

-- On a valid buffer whose unread bytes begin with `enc`, `m` takes these and returns `a`.
abbrev pub Reads : {A : Type 0} → M A → List ℕ → A → Type 0
Reads m enc a =
    (b : Buffer) (rest : List ℕ)
    → IsValid b
    → view b ≡ unread (enc ++ rest)
    → (b' : Buffer) × ((m b ≡ some (a, b')) × IsValid b' × (view b' ≡ unread rest))

pub pure-Reads : {A : Type 0} (a : A) → Reads (pure a) [] a
pure-Reads a b rest v e = (b, (refl, v, e))

module _ {A B : Type 0} where
  pub bind-Reads :
      (m : M A) (f : A → M B) (e₁ e₂ : List ℕ) (a : A) (c : B)
      → Reads m e₁ a
      → Reads (f a) e₂ c
      → Reads (m >>= f) (e₁ ++ e₂) c
  bind-Reads m f e₁ e₂ a c r₁ r₂ b rest v e =
      let (b₁, (run₁, v₁, u₁)) = r₁ b (e₂ ++ rest) v (e ∙ ap unread (append_assoc e₁ e₂ rest)) in
      let (b₂, (run₂, v₂, u₂)) = r₂ b₁ rest v₁ u₁ in (b₂, (rw (run₁, ◌>>=◌) run₂, v₂, u₂))

  -- What comes last returns a value.
  pub last-Reads :
      (m : M A) (f : A → B) (enc : List ℕ) (a : A)
      → Reads m enc a
      → Reads (m >>= λ x. pure (f x)) enc (f a)
  last-Reads m f enc a r b rest v e =
      let (b₁, (run₁, v₁, u₁)) = r b rest v e in (b₁, (rw (run₁, ◌>>=◌) refl, v₁, u₁))

-- What is written reaches up to the position.
written_length : (b : Buffer) (w : List ℕ) → IsValid b → view b ≡ written w → length w ≡ b.current
unfolding view
written_length b w v e = elim (Bool-cases (writing b)) [
  | inr q ↦ absurd (other q)
  | inl q ↦ ap length (sym (same q)) ∙ whole q
]
  where
    other : writing b ≡ false → ⊥
    other q = ground (arith, q, e)

    same : writing b ≡ true → take b.current b.buf ≡ w
    same q = ground (arith, q, e)

    whole : writing b ≡ true → length (take b.current b.buf) ≡ b.current
    whole q =
        let low : b.current ≤ b.capacity = ground (arith, q, v.position) in
        omega (arith, length-take b.current b.buf, v.held, low)

-- The buffer is valid and written up to `w`, and its pages can be had.
pub record IsReady (alloc : ℕ → Option (ℕ × List ℕ)) (unit : ℕ) (b : Buffer) (w : List ℕ)
    : Type 0 where
  pub valid : IsValid b
  pub writes : view b ≡ written w
  pub unit_same : b.block_size ≡ unit
  pub pages : Pages alloc unit
  pub granted : (k : ℕ) → alloc k ≢ none

module _ (alloc : ℕ → Option (ℕ × List ℕ)) (unit : ℕ) where
  -- On a buffer that is written, with room for it in 32 bits, `m` appends `enc` and returns `a`.
  abbrev pub Writes : {A : Type 0} → M A → List ℕ → A → Type 0
  Writes m enc a =
      (b : Buffer) (w : List ℕ)
      → IsReady alloc unit b w
      → length w + length enc + unit < invalid
      → (b' : Buffer) × ((m b ≡ some (a, b')) × IsReady alloc unit b' (w ++ enc))

  pub pure-Writes : {A : Type 0} (a : A) → Writes (pure a) [] a
  pure-Writes a b w v room = (b, (refl, rw (append-nil w) v))

  module _ {A B : Type 0} where
    pub bind-Writes :
        (m : M A) (f : A → M B) (e₁ e₂ : List ℕ) (a : A) (c : B)
        → Writes m e₁ a
        → Writes (f a) e₂ c
        → Writes (m >>= f) (e₁ ++ e₂) c
    bind-Writes m f e₁ e₂ a c r₁ r₂ b w v room =
        let (b₁, (run₁, v₁)) = r₁ b w v (omega (arith, room, length-append e₁ e₂)) in
        let (b₂, (run₂, v₂)) =
          r₂ b₁ (w ++ e₁) v₁ (omega (arith, room, length-append e₁ e₂, length-append w e₁)) in
        (b₂, (rw (run₁, ◌>>=◌) run₂, rw (sym (append_assoc w e₁ e₂)) v₂))

  pub store-Writes : (bytes : List ℕ) → Writes (store alloc bytes) bytes tt
  store-Writes bytes b w v room =
      let length_w = written_length b w v.valid v.writes in
      let (r, run, res) =
        put_lem alloc b bytes w (rw v.unit_same v.pages) v.valid v.writes
          (omega (arith, room, length_w, v.unit_same)) in
      finish r run res
    where
      finish :
          (r : Bool × Buffer)
          → put alloc b bytes ≡ some r
          → Puts alloc b bytes w r
          → (b' : Buffer) × ((store alloc bytes b ≡ some (tt, b'))
              × IsReady alloc unit b' (w ++ bytes))
      finish (true, b') run res = (
        b',
        (
          unfold store in rw (run, store) refl,
          record {
            valid = res.valid;
            writes = res.stored refl;
            unit_same = res.unit ∙ v.unit_same;
            pages = v.pages;
            granted = v.granted;
          },
        ),
      )
      finish (false, b') run res = absurd (v.granted _ ((res.refused refl).2))

  pub last-Writes :
      {A B : Type 0} (m : M A) (f : A → B) (enc : List ℕ) (a : A)
      → Writes m enc a
      → Writes (m >>= λ x. pure (f x)) enc (f a)
  last-Writes m f enc a r b w v room =
      let (b₁, (run₁, v₁)) = r b w v room in (b₁, (rw (run₁, ◌>>=◌) refl, v₁))

  store_num-store :
      (width num : ℕ) (b : Buffer)
      → store_num alloc width true num b ≡ store alloc (big width num) b
  unfolding store_num store put_num
  store_num-store width num b = rw (bytes_of-bswap width num, store_num, put_num, store) refl

  pub store_num-Writes :
      (width num : ℕ) → Writes (store_num alloc width true num) (big width num) tt
  store_num-Writes width num b w v room =
      let (b', (run, v')) = store-Writes (big width num) b w v room in
      (b', (store_num-store width num b ∙ run, v'))

-- The bytes that `get` takes.
gets :
    (b : Buffer) (n : ℕ) (enc rest : List ℕ)
    → length enc ≡ n
    → n < 2 ^ 32
    → IsValid b
    → view b ≡ unread (enc ++ rest)
    → (b' : Buffer) × ((get b n ≡ some (some enc, b')) × IsValid b' × (view b' ≡ unread rest))
gets b n enc rest len h v e =
    let g : Gets b n (unread (enc ++ rest)) (get b n) =
      subst (λ f. Gets b n f (get b n)) e (get_lem b n v h) in
    let (b', run, u, v') = g.0 (omega (arith, length-append enc rest, len)) in
    let taken : take n (enc ++ rest) ≡ enc = rw (sym len) (take-append enc rest) in
    let left : drop n (enc ++ rest) ≡ rest = rw (sym len) (drop-append enc rest) in
    (b', (run ∙ ap (λ x. some (some x, b')) taken, v', u ∙ ap unread left))

pub load_bytes-Reads : (old s : List ℕ) → length s < 2 ^ 32 → Reads (load_bytes (length s) old) s s
load_bytes-Reads old s h b rest v e =
    let (b', (run, v', u)) = gets b (length s) s rest refl h v e in
    (b', (unfold load_bytes in rw (run, load_bytes) refl, v', u))

bswap-big : (width num : ℕ) → num < 256 ^ width → bswap width (number_of (big width num)) ≡ num
unfolding bswap
bswap-big width num h =
    let back =
      bytes_of-number_of (big width num)
        (All-turned (bytes_of width num) (All-bytes_of width num)) in
    let same : bytes_of width (number_of (big width num)) ≡ big width num =
      ap (λ n. bytes_of n (number_of (big width num))) (sym (length-big width num)) ∙ back in
    rw (same, turned-turned (bytes_of width num)) (number_of-bytes_of width num h)

pub load-Reads :
    (width old num : ℕ)
    → 1 < width
    → width < 2 ^ 32
    → num < 256 ^ width
    → Reads (load width old) (big width num) num
load-Reads width old num wide small h b rest v e =
    let len = length-big width num in
    let (b', (run, v', u)) = gets b width (big width num) rest len small v e in
    let order : ltb 1 width ≡ true = ground (arith, wide) in
    (
      b',
      (
        unfold load get_num in rw (load, get_num, run) (rw order (rw (bswap-big width num h) refl)),
        v',
        u,
      ),
    )

number_of_one : (num : ℕ) → number_of (num ∷ []) ≡ num
unfolding number_of
number_of_one num = omega arith

pub load_byte-Reads : (old num : ℕ) → num < 256 → Reads (load 1 old) (num ∷ []) num
load_byte-Reads old num h b rest v e =
    let (b', (run, v', u)) = gets b 1 (num ∷ []) rest refl (omega arith) v e in
    let one : number_of (num ∷ []) ≡ num = number_of_one num in
    (b', (unfold load get_num in rw (load, get_num, run) (rw one refl), v', u))

pub skip_bytes-Reads :
    (alloc : ℕ → Option (ℕ × List ℕ)) (unset : ℕ) (s : List ℕ)
    → length s < 2 ^ 32
    → Reads (skip_bytes alloc unset (length s)) s tt
skip_bytes-Reads alloc unset s h b rest v e =
    let g : Skips (length s) (unread (s ++ rest)) (skip alloc b (length s)) b =
      subst (λ f. Skips (length s) f (skip alloc b (length s)) b) e
        (skip_lem alloc b (length s) v h) in
    let (b', run, u, v') = g.0 (omega (arith, length-append s rest)) in
    (b', (unfold skip_bytes in rw (run, skip_bytes) refl, v', u ∙ ap unread (drop-append s rest)))
