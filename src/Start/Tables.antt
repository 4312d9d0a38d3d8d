-- ===== src/Start/Tables.antt =====
-- The free list after the tables are filled.
use libcn.Prelude.{
  ℕ, zero, suc, ◌+◌, ◌^◌, ◌≤◌, ◌<◌, ◌≡◌, refl, Ptr, null, true, false, none, List, [], ◌∷◌, arith,
  length, has, Distinct, ◌==◌, ◌∙◌, sym, Bool-cases, inl, inr, ==→eq,
}
use libcn.World.{World, set_connection}
use libcn.Connection.Free.{FreeFrom, FreeFrom-frame, data_of, IsFree}
use package.libcn.Start.{
  sizeof_connection, sizeof_event, item, init_read_events, init_write_events, link_connections,
  fill_tables,
}

-- The connections of index below `n`, in front of others.
abbrev pub in_front : Ptr → ℕ → List Ptr → List Ptr
in_front conns zero cs = cs
in_front conns (suc i) cs = in_front conns i (item conns sizeof_connection i ∷ cs)

-- The links of `cs` from `next`, each address once and past the first `n` connections.
record Chain (w : World) (conns : Ptr) (n : ℕ) (next : Ptr) (cs : List Ptr) : Type 0 where
  links : FreeFrom (data_of w) next cs
  distinct : Distinct cs
  past : (a : Ptr) → has a cs ≡ true → item conns sizeof_connection n ≤ a

-- What the loop does to one of the connections below `n`, and to all else.
pub record Linked (w v : World) (conns revs wevs : Ptr) (n : ℕ) : Type 0 where
  pub reads :
      (i : ℕ)
      → i < n
      → (v.connections (item conns sizeof_connection i)).read ≡ item revs sizeof_event i
  pub writes :
      (i : ℕ)
      → i < n
      → (v.connections (item conns sizeof_connection i)).write ≡ item wevs sizeof_event i
  pub fds : (i : ℕ) → i < n → (v.connections (item conns sizeof_connection i)).fd ≡ none
  pub events : v.events ≡ w.events
  pub files : v.files ≡ w.files
  pub above : (c : Ptr) → item conns sizeof_connection n ≤ c → v.connections c ≡ w.connections c

abbrev link : World → (conns revs wevs : Ptr) → ℕ → Ptr → World
link w conns revs wevs i next =
    let c = item conns sizeof_connection i in
    set_connection w c (record (w.connections c) {
      data_ptr = next;
      read = item revs sizeof_event i;
      write = item wevs sizeof_event i;
      fd = none;
    })

other_data :
    (w : World) (conns revs wevs : Ptr) (i : ℕ) (next d : Ptr)
    → (d == item conns sizeof_connection i) ≡ false
    → data_of (link w conns revs wevs i next) d ≡ data_of w d
other_data w conns revs wevs i next d n = ground arith

Chain-link :
    (w : World) (conns revs wevs : Ptr) (i : ℕ) (next : Ptr) (cs : List Ptr)
    → 0 < conns
    → Chain w conns (suc i) next cs
    → Chain
        (link w conns revs wevs i next)
        conns
        i
        (item conns sizeof_connection i)
        (item conns sizeof_connection i ∷ cs)
Chain-link w conns revs wevs i next cs real h =
    let c = item conns sizeof_connection i in
    let out : has c cs ≡ false = elim (Bool-cases (has c cs)) [
      | inl e ↦ absurd (omega (arith, h.past c e))
      | inr e ↦ e
    ] in
    let same : (d : Ptr)
        → has d cs ≡ true
        → data_of (link w conns revs wevs i next) d ≡ data_of w d =
      λ d e. elim (Bool-cases (d == c)) [
        | inl f ↦ absurd (omega (arith, h.past d e, ==→eq d c f))
        | inr f ↦ other_data w conns revs wevs i next d f
      ] in
    let here : data_of (link w conns revs wevs i next) c ≡ next = ground arith in
    record {
      links = (
        refl,
        λ e. omega (arith, e),
        rw here (
            FreeFrom-frame (data_of w) (data_of (link w conns revs wevs i next)) next cs h.links
              same),
      );
      distinct = (out, h.distinct);
      past = λ a e. elim (Bool-cases (a == c)) [
        | inl f ↦ omega (arith, ==→eq a c f)
        | inr f ↦ omega (arith, h.past a (ground arith))
      ];
    }

Linked-link :
    (w v : World) (conns revs wevs : Ptr) (i : ℕ) (next : Ptr)
    → Linked (link w conns revs wevs i next) v conns revs wevs i
    → Linked w v conns revs wevs (suc i)
Linked-link w v conns revs wevs i next h =
    let c = item conns sizeof_connection i in
    let w' = link w conns revs wevs i next in
    let here : v.connections c ≡ record (w.connections c) {
      data_ptr = next;
      read = item revs sizeof_event i;
      write = item wevs sizeof_event i;
      fd = none;
    } =
      h.above c (omega arith) ∙ ground arith in
    record {
      reads = λ j lt. elim (Bool-cases (j == i)) [
        | inl e ↦ rw (==→eq j i e) (rw here refl)
        | inr e ↦ h.reads j (below j e lt)
      ];
      writes = λ j lt. elim (Bool-cases (j == i)) [
        | inl e ↦ rw (==→eq j i e) (rw here refl)
        | inr e ↦ h.writes j (below j e lt)
      ];
      fds = λ j lt. elim (Bool-cases (j == i)) [
        | inl e ↦ rw (==→eq j i e) (rw here refl)
        | inr e ↦ h.fds j (below j e lt)
      ];
      events = h.events;
      files = h.files;
      above = λ d le. h.above d (omega arith) ∙ other d le;
    }
  where
    below : (j : ℕ) → (j == i) ≡ false → j < suc i → j < i
    below j n lt = ground arith

    other :
        (d : Ptr)
        → item conns sizeof_connection (suc i) ≤ d
        → (link w conns revs wevs i next).connections d ≡ w.connections d
    other d le =
        let apart : (d == item conns sizeof_connection i) ≡ false = ground arith in rw (apart) refl

length-in_front :
    (conns : Ptr) (n : ℕ) (cs : List Ptr) → length (in_front conns n cs) ≡ n + length cs
length-in_front conns zero cs = omega arith
length-in_front conns (suc i) cs =
    omega (arith, length-in_front conns i (item conns sizeof_connection i ∷ cs))

link_connections-Linked :
    (w : World) (conns revs wevs : Ptr) (n : ℕ) (next : Ptr) (cs : List Ptr)
    → 0 < conns
    → Chain w conns n next cs
    → (let (v, first) = link_connections conns revs wevs n next w in
        FreeFrom (data_of v) first (in_front conns n cs)
        × Distinct (in_front conns n cs)
        × Linked w v conns revs wevs n)
unfolding link_connections
link_connections-Linked w conns revs wevs zero next cs real h = (
  h.links,
  h.distinct,
  record {
    reads = λ i lt. absurd (omega arith);
    writes = λ i lt. absurd (omega arith);
    fds = λ i lt. absurd (omega arith);
    events = refl;
    files = refl;
    above = λ c le. refl;
  },
)
link_connections-Linked w conns revs wevs (suc i) next cs real h =
    let c = item conns sizeof_connection i in
    let (links, distinct, linked) =
      link_connections-Linked (link w conns revs wevs i next) conns revs wevs i c (c ∷ cs) real
        (Chain-link w conns revs wevs i next cs real h) in
    (links, distinct, Linked-link w _ conns revs wevs i next linked)

-- The tables of events leave the connections alone.
init_read_events-connections :
    (revs : Ptr) (n : ℕ) (w : World)
    → ((init_read_events revs n w).connections ≡ w.connections)
      × ((init_read_events revs n w).files ≡ w.files)
unfolding init_read_events
init_read_events-connections revs zero w = (refl, refl)
init_read_events-connections revs (suc i) w = init_read_events-connections revs i _

init_write_events-connections :
    (wevs : Ptr) (n : ℕ) (w : World)
    → ((init_write_events wevs n w).connections ≡ w.connections)
      × ((init_write_events wevs n w).files ≡ w.files)
unfolding init_write_events
init_write_events-connections wevs zero w = (refl, refl)
init_write_events-connections wevs (suc i) w = init_write_events-connections wevs i _

-- After the tables of fewer than 2^32 connections are filled, the free list holds all connections once, in
-- their order, and is counted; each connection has its two events and no descriptor.
pub fill_tables-IsFree :
    (conns revs wevs : Ptr) (n : ℕ) (w : World)
    → 0 < conns
    → n < 2 ^ 32
    → IsFree (fill_tables conns revs wevs n w) (in_front conns n [])
      × ((i : ℕ)
          → i < n
          → ((fill_tables conns revs wevs n w).connections (item conns sizeof_connection i)).read
            ≡ item revs sizeof_event i)
      × ((i : ℕ)
          → i < n
          → ((fill_tables conns revs wevs n w).connections (item conns sizeof_connection i)).write
            ≡ item wevs sizeof_event i)
      × ((i : ℕ)
          → i < n
          → ((fill_tables conns revs wevs n w).connections (item conns sizeof_connection i)).fd
            ≡ none)
      × ((fill_tables conns revs wevs n w).files ≡ w.files)
unfolding fill_tables
fill_tables-IsFree conns revs wevs n w real lt =
    let w1 = init_read_events revs n w in
    let w2 = init_write_events wevs n w1 in
    let (_, files1) = init_read_events-connections revs n w in
    let (_, files2) = init_write_events-connections wevs n w1 in
    let (links, distinct, linked) =
      link_connections-Linked w2 conns revs wevs n null [] real
        (record { links = refl; distinct = tt; past = λ a e. absurd (ground arith) }) in
    let counted : length (in_front conns n []) ≡ n = omega (arith, length-in_front conns n []) in
    (
      record { chain = links; distinct = distinct; count = sym counted; few = omega arith },
      linked.reads,
      linked.writes,
      linked.fds,
      linked.files ∙ files2 ∙ files1,
    )

-- The connections of index from 1 to `n`, in front of others.
abbrev pub behind : Ptr → ℕ → List Ptr → List Ptr
behind conns zero cs = cs
behind conns (suc i) cs = behind conns i (item conns sizeof_connection (suc i) ∷ cs)

pub in_front-behind :
    (conns : Ptr) (n : ℕ) (cs : List Ptr)
    → in_front conns (suc n) cs ≡ item conns sizeof_connection 0 ∷ behind conns n cs
in_front-behind conns zero cs = refl
in_front-behind conns (suc n) cs =
    in_front-behind conns n (item conns sizeof_connection (suc n) ∷ cs)
