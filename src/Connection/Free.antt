-- ===== src/Connection/Free.antt =====
-- The free list of connections.
use libcn.Prelude.{
  ℕ, zero, suc, ◌+◌, ◌-◌, ◌%◌, ◌^◌, ◌<◌, ◌≡◌, ◌≢◌, refl, Ptr, null, true, false, Option, some, List,
  [], ◌∷◌, arith, length, has, Distinct, not, ◌==◌, leb, ◌&&◌, ap, sym, ◌∙◌, Bool-cases, inl, inr,
  ==→eq,
}
use libcn.World.{zero_event, Connection, zero_connection, World}
use mathlib.Core.Bool.{false≢true}
use libcn.Queue.{queue_empty}
use package.libcn.Connection.{
  has_files, free_connection, take_connection, get_connection, drain_connections, drain_loop,
  drain_count,
}

-- From `p` the links `next` lead through `cs` to NULL.
abbrev pub FreeFrom : (Ptr → Ptr) → Ptr → List Ptr → Type 0
FreeFrom next p [] = p ≡ null
FreeFrom next p (c ∷ cs) = (p ≡ c) × (c ≢ null) × FreeFrom next (next c) cs

-- `c->data`, the link of the free list.
abbrev pub data_of : World → Ptr → Ptr
data_of w c = (w.connections c).data_ptr

-- The free connections are `cs`, each once, and they are counted.
pub record IsFree (w : World) (cs : List Ptr) : Type 0 where
  pub chain : FreeFrom (data_of w) w.free_connections cs
  pub distinct : Distinct cs
  pub count : w.free_connection_n ≡ length cs
  pub few : length cs < 2 ^ 32

pub FreeFrom-frame :
    (f g : Ptr → Ptr) (p : Ptr) (cs : List Ptr)
    → FreeFrom f p cs
    → ((c : Ptr) → has c cs ≡ true → g c ≡ f c)
    → FreeFrom g p cs
FreeFrom-frame f g p [] h same = h
FreeFrom-frame f g p (c ∷ cs) (e, n, h) same = (
  e,
  n,
  rw (same c (ground arith)) (FreeFrom-frame f g (f c) cs h (λ d i. same d (ground arith))),
)

-- The free list is read at four places only.
pub IsFree-frame :
    (w v : World) (cs : List Ptr)
    → IsFree w cs
    → v.free_connections ≡ w.free_connections
    → v.free_connection_n ≡ w.free_connection_n
    → ((d : Ptr) → data_of v d ≡ data_of w d)
    → IsFree v cs
IsFree-frame w v cs f head count same = record {
  chain =
      rw head
        (FreeFrom-frame (data_of w) (data_of v) w.free_connections cs f.chain (λ d _. same d));
  distinct = f.distinct;
  count = count ∙ f.count;
  few = f.few;
}

-- What `free_connection` does to the free list.
record Freed (w v : World) (c : Ptr) : Type 0 where
  head : v.free_connections ≡ c
  link : data_of v c ≡ w.free_connections
  others : (d : Ptr) → (d == c) ≡ false → data_of v d ≡ data_of w d
  counted : v.free_connection_n ≡ (w.free_connection_n + 1) % 2 ^ 32
  fd : (v.connections c).fd ≡ (w.connections c).fd

free_connection-Freed : (w : World) (c : Ptr) → Freed w (free_connection w c) c
unfolding free_connection
free_connection-Freed w c = record {
  head = ground arith;
  link = ground arith;
  others = λ d n. ground arith;
  counted = ground arith;
  fd = ground arith;
}

-- A connection that is not free becomes the first free one, and the count is right.
pub free_connection-IsFree :
    (w : World) (c : Ptr) (cs : List Ptr)
    → IsFree w cs
    → c ≢ null
    → has c cs ≡ false
    → length cs + 1 < 2 ^ 32
    → IsFree (free_connection w c) (c ∷ cs)
free_connection-IsFree w c cs f n out few =
    let v = free_connection-Freed w c in
    let count = f.count in
    let counted = v.counted in
    record {
      chain = (
        v.head,
        n,
        rw v.link (
            FreeFrom-frame (data_of w) (data_of (free_connection w c)) w.free_connections cs f.chain
              (λ d i. v.others d (ground arith))),
      );
      distinct = (out, f.distinct);
      count = omega arith;
      few = omega arith;
    }

-- What `take_connection` does: the free list, the connection, and its two events.
pub record Taken (w v : World) (c : Ptr) (s : ℕ) : Type 0 where
  pub head : v.free_connections ≡ data_of w c
  pub counted : v.free_connection_n ≡ (w.free_connection_n + 2 ^ 32 - 1) % 2 ^ 32
  pub connection : v.connections c ≡ record zero_connection {
    read = (w.connections c).read;
    write = (w.connections c).write;
    fd = some s;
  }
  pub others : (d : Ptr) → (d == c) ≡ false → v.connections d ≡ w.connections d
  pub read_event : v.events (w.connections c).read ≡ record zero_event {
    instance_bit = not (w.events (w.connections c).read).instance_bit;
    data_ptr = c;
  }
  pub write_event : v.events (w.connections c).write ≡ record zero_event {
    instance_bit = not (w.events (w.connections c).read).instance_bit;
    data_ptr = c;
    write = true;
  }
  pub other_events :
      (e : Ptr)
      → (e == (w.connections c).read) ≡ false
      → (e == (w.connections c).write) ≡ false
      → v.events e ≡ w.events e

pub take_connection-Taken :
    (w : World) (c : Ptr) (s : ℕ)
    → w.free_connections ≡ c
    → ((w.connections c).read == (w.connections c).write) ≡ false
    → Taken w (take_connection w s) c s
unfolding take_connection
take_connection-Taken w c s e apart = record {
  head = ground arith;
  counted = ground arith;
  connection = ground arith;
  others = λ d n. ground arith;
  read_event = ground arith;
  write_event = ground arith;
  other_events = λ d n m. ground arith;
}

take_connection-IsFree :
    (w : World) (c : Ptr) (cs : List Ptr) (s : ℕ)
    → IsFree w (c ∷ cs)
    → Taken w (take_connection w s) c s
    → IsFree (take_connection w s) cs
take_connection-IsFree w c cs s f t =
    let (_, _, chain) = f.chain in
    let count = f.count in
    let counted = t.counted in
    let few = f.few in
    record {
      chain = rw t.head (
          FreeFrom-frame (data_of w) (data_of (take_connection w s)) (data_of w c) cs chain
            (λ d i. ap (λ (x : Connection). x.data_ptr) (t.others d (apart d i))));
      distinct = f.distinct.1;
      count = omega arith;
      few = omega arith;
    }
  where
    apart : (d : Ptr) → has d cs ≡ true → (d == c) ≡ false
    apart d i = elim (Bool-cases (d == c)) [
      | inl e ↦ absurd (false≢true (sym f.distinct.0 ∙ rw (==→eq d c e) at i))
      | inr n ↦ n
    ]

-- A descriptor below `files_n`, or no `files`.
abbrev pub Fits : World → ℕ → Type 0
Fits w s = (has_files w && leb w.files_n s) ≡ false

-- With a sound free list that is not empty, a descriptor that fits, and two different events of the
-- first free connection, `get_connection` takes that one and calls no handler: it is
-- cleared but for its two events and has the descriptor, the events are cleared and carry the other
-- instance bit than before, no other connection and no other event changes, and the free list is one
-- shorter.
pub get_connection-Taken :
    (handle : Ptr → World → Option World) (w : World) (c : Ptr) (cs : List Ptr) (s : ℕ)
    → IsFree w (c ∷ cs)
    → Fits w s
    → ((w.connections c).read == (w.connections c).write) ≡ false
    → (get_connection handle w s ≡ some (c, take_connection w s))
      × Taken w (take_connection w s) c s
      × IsFree (take_connection w s) cs
unfolding get_connection
get_connection-Taken handle w c cs s f fits apart =
    let (e, n, _) = f.chain in
    let t = take_connection-Taken w c s e apart in
    let used : (w.free_connections == null) ≡ false = ground arith in
    (rw (fits, used) (rw used (rw e)), t, take_connection-IsFree w c cs s f t)

drain_loop-none :
    (n : ℕ) (handle : Ptr → World → Option World) (w : World)
    → queue_empty w.reusable_links w.reusable_queue ≡ true
    → drain_loop n handle w ≡ some w
unfolding drain_loop
drain_loop-none zero handle w empty = refl
drain_loop-none (suc n) handle w empty = rw (empty, drain_loop) refl

drain_connections-none :
    (handle : Ptr → World → Option World) (w : World)
    → queue_empty w.reusable_links w.reusable_queue ≡ true
    → drain_connections handle w ≡ some w
unfolding drain_connections
drain_connections-none handle w empty =
    drain_loop-none (drain_count w.reusable_connections_n) handle w empty

-- Where no connection is free and none is reusable, `get_connection` returns NULL and changes nothing,
-- whatever the descriptor.
pub get_connection-null :
    (handle : Ptr → World → Option World) (w : World) (s : ℕ)
    → w.free_connections ≡ null
    → queue_empty w.reusable_links w.reusable_queue ≡ true
    → get_connection handle w s ≡ some (null, w)
unfolding get_connection
get_connection-null handle w s e empty =
    let nothing = drain_connections-none handle w empty in
    let is_null : (w.free_connections == null) ≡ true = ground arith in
    elim (Bool-cases (has_files w && leb w.files_n s)) [
      | inl out ↦ rw out refl
      | inr fits ↦ rw (fits, is_null, nothing) (rw is_null refl)
    ]

-- A connection that is freed into a sound free list, and was not in it, is the next one given out,
-- with the descriptor asked for if that fits, and the free list is then what it was.
pub get-free_connection :
    (handle : Ptr → World → Option World) (w : World) (c : Ptr) (cs : List Ptr) (s : ℕ)
    → IsFree w cs
    → c ≢ null
    → has c cs ≡ false
    → length cs + 1 < 2 ^ 32
    → Fits (free_connection w c) s
    → (((free_connection w c).connections c).read == ((free_connection w c).connections c).write)
      ≡ false
    → (v : World) × (get_connection handle (free_connection w c) s ≡ some (c, v))
      × IsFree v cs
      × ((v.connections c).fd ≡ some s)
get-free_connection handle w c cs s f n out few fits apart =
    let f' = free_connection-IsFree w c cs f n out few in
    let (e, t, g) = get_connection-Taken handle (free_connection w c) c cs s f' fits apart in
    (take_connection (free_connection w c) s, e, g, ap (λ (x : Connection). x.fd) t.connection)
