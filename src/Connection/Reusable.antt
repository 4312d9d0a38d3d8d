-- ===== src/Connection/Reusable.antt =====
-- The queue of reusable connections.
use libcn.Prelude.{
  ℕ, ◌+◌, ◌^◌, ◌<◌, ◌≡◌, refl, Ptr, Bool, true, false, List, [], ◌∷◌, ◌++◌, arith, length, has,
  Distinct, ◌==◌, if◌then◌else◌, ap, sym, ◌∙◌, Bool-cases, inl, inr, ==→eq, u32, sub32,
}
use libcn.World.{World}
use libcn.Queue.{Links, queue_remove, queue_insert_head}
use libcn.Queue.Ring.{Ring}
use libcn.Queue.Edit.{remove-Ring, insert_head-Ring}
use package.libcn.Connection.{reusable_connection}

abbrev pub delete : Ptr → List Ptr → List Ptr
delete c [] = []
delete c (x ∷ xs) = if c == x then xs else x ∷ delete c xs

delete-none : (c : Ptr) (cs : List Ptr) → has c cs ≡ false → delete c cs ≡ cs
delete-none c [] out = refl
delete-none c (x ∷ xs) out = ground (arith, delete-none c xs)

-- Where a node of the list stands.
record Place (c : Ptr) (cs : List Ptr) : Type 0 where
  before : List Ptr
  after : List Ptr
  here : cs ≡ before ++ c ∷ after
  rest : delete c cs ≡ before ++ after

later-Place : (c x : Ptr) (xs : List Ptr) → (c == x) ≡ false → Place c xs → Place c (x ∷ xs)
later-Place c x xs n p = record {
  before = x ∷ p.before;
  after = p.after;
  here = ap (λ zs. x ∷ zs) p.here;
  rest = rw n (ap (λ zs. x ∷ zs) p.rest);
}

first-Place : (c x : Ptr) (xs : List Ptr) → (c == x) ≡ true → Place c (x ∷ xs)
first-Place c x xs e = record {
  before = [];
  after = xs;
  here = ap (λ z. z ∷ xs) (sym (==→eq c x e));
  rest = rw e refl;
}

has-Place : (c : Ptr) (cs : List Ptr) → has c cs ≡ true → Place c cs
has-Place c [] i = absurd (ground arith)
has-Place c (x ∷ xs) i = elim (Bool-cases (c == x)) [
  | inl e ↦ first-Place c x xs e
  | inr n ↦ later-Place c x xs n (has-Place c xs (ground arith))
]

has-delete :
    (c d : Ptr) (cs : List Ptr)
    → Distinct cs
    → has d (delete c cs) ≡ (if d == c then false else has d cs)
has-delete c d [] u = ground arith
has-delete c d (x ∷ xs) u = ground (arith, has-delete c d xs u.1)

length-delete :
    (c : Ptr) (cs : List Ptr) → length cs ≡ length (delete c cs) + (if has c cs then 1 else 0)
length-delete c [] = refl
length-delete c (x ∷ xs) = ground (arith, length-delete c xs)

-- The reusable connections are `cs`, from the one that was made reusable last to the one that has
-- waited longest: they are the ones with the flag, and they are counted.
pub record IsReusable (w : World) (cs : List Ptr) : Type 0 where
  pub ring : Ring w.reusable_links w.reusable_queue cs
  pub flag : (d : Ptr) → (w.connections d).reusable ≡ has d cs
  pub count : w.reusable_connections_n ≡ length cs
  pub few : length cs < 2 ^ 32

pub IsReusable-frame :
    (w v : World) (cs : List Ptr)
    → IsReusable w cs
    → v.reusable_links ≡ w.reusable_links
    → v.reusable_queue ≡ w.reusable_queue
    → v.reusable_connections_n ≡ w.reusable_connections_n
    → ((d : Ptr) → (v.connections d).reusable ≡ (w.connections d).reusable)
    → IsReusable v cs
IsReusable-frame w v cs r links queue count same = record {
  ring = rw links (rw queue r.ring);
  flag = λ d. same d ∙ r.flag d;
  count = count ∙ r.count;
  few = r.few;
}

-- The links after the first half of `reusable_connection`, and the count.
abbrev unlinked : World → Ptr → Links
unlinked w c =
    if (w.connections c).reusable then queue_remove w.reusable_links c else w.reusable_links

abbrev uncounted : World → Ptr → ℕ
uncounted w c =
    if (w.connections c).reusable
    then sub32 w.reusable_connections_n 1
    else w.reusable_connections_n

-- What `reusable_connection` does to the queue.
record Marked (w v : World) (c : Ptr) (b : Bool) : Type 0 where
  links :
      v.reusable_links
      ≡ (if b then queue_insert_head (unlinked w c) w.reusable_queue c else unlinked w c)
  queue : v.reusable_queue ≡ w.reusable_queue
  counted : v.reusable_connections_n ≡ (if b then u32 (uncounted w c + 1) else uncounted w c)
  flag : (d : Ptr) → (v.connections d).reusable ≡ (if d == c then b else (w.connections d).reusable)

reusable_connection-Marked :
    (w : World) (c : Ptr) (b : Bool) → Marked w (reusable_connection w c b) c b
unfolding reusable_connection
reusable_connection-Marked w c b = record {
  links = ground arith;
  queue = ground arith;
  counted = ground arith;
  flag = λ d. ground arith;
}

unlinked-Ring :
    (w : World) (c : Ptr) (cs : List Ptr)
    → IsReusable w cs
    → Ring (unlinked w c) w.reusable_queue (delete c cs)
unlinked-Ring w c cs r = elim (Bool-cases (has c cs)) [
  | inl i ↦
      let p = has-Place c cs i in
      rw (r.flag c) (
        rw i (
          rw p.rest (
            remove-Ring w.reusable_links w.reusable_queue c p.before p.after
              (rw p.here at r.ring))))
  | inr o ↦ rw (r.flag c) (rw o (rw (delete-none c cs o) r.ring))
]

uncounted-length :
    (w : World) (c : Ptr) (cs : List Ptr) → IsReusable w cs → uncounted w c ≡ length (delete c cs)
uncounted-length w c cs r =
    let count = r.count in
    let few = r.few in
    let n = length-delete c cs in
    rw (r.flag c) (elim (Bool-cases (has c cs)) [
      | inl i ↦ rw i (let n' = rw i at n in omega arith)
      | inr o ↦ rw o (let n' = rw o at n in omega arith)
    ])

-- From a sound queue, a connection made reusable moves to the front of the queue, wherever it was
-- before; one made not reusable leaves the queue, if it was in it. The flags and the count stay
-- right.
pub reusable_connection-IsReusable :
    (w : World) (c : Ptr) (cs : List Ptr)
    → IsReusable w cs
    → (c == w.reusable_queue) ≡ false
    → length cs + 1 < 2 ^ 32
    → IsReusable (reusable_connection w c true) (c ∷ delete c cs)
      × IsReusable (reusable_connection w c false) (delete c cs)
reusable_connection-IsReusable w c cs r o few =
    let t = reusable_connection-Marked w c true in
    let f = reusable_connection-Marked w c false in
    let k = uncounted-length w c cs r in
    let k1 = t.counted in
    let k2 = f.counted in
    let n = length-delete c cs in
    let distinct = r.ring.distinct.1 in
    let ring = unlinked-Ring w c cs r in
    (
      record {
        ring = rw t.queue (
            rw t.links (
              insert_head-Ring (unlinked w c) w.reusable_queue c (delete c cs) ring
                (ground (arith, has-delete c c cs distinct))));
        flag = λ d. ground (arith, t.flag d, r.flag d, has-delete c d cs distinct);
        count = ground arith;
        few = ground arith;
      },
      record {
        ring = rw f.queue (rw f.links ring);
        flag = λ d. ground (arith, f.flag d, r.flag d, has-delete c d cs distinct);
        count = ground arith;
        few = ground arith;
      },
    )
