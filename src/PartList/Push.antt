-- ===== src/PartList/Push.antt =====
-- Where `list_push` puts the new element, and what it keeps.
use native.Mathlib.Nat.{mul_comm, mul-suc, mul-le-mul_left}
use libcn.Prelude.{
  ℕ, suc, ◌+◌, ◌*◌, ◌^◌, ◌≤◌, ◌<◌, ◌≡◌, refl, inl, inr, Ptr, true, false, Option, none, some, List,
  [], ◌∷◌, arith, ◌==◌, Bool-cases, u32, u64, mul64,
}
use libcn.Alloc.{Libc}
use libcn.Pool.{Pool, blocks, palloc}
use libcn.Pool.Blocks.{Region, region}
use libcn.Pool.Serve.{IsPool, Live, MayAnswer, first_answer, Granted}
use libcn.Array.Memory.{InSome-word, palloc-Granted}
use package.libcn.PartList.{
  sizeof_part, sizeof_list, Part, PartList, last_of, last, take, add_part, new_part, list_push,
}

-- The memory of the parts, of `bytes` bytes each, and of their headers, from the last part back.
abbrev pub of_parts : ℕ → List Part → List Region → List Region
of_parts bytes [] rs = rs
of_parts bytes (b ∷ bs) rs = region b.elts bytes ∷ region b.at sizeof_part ∷ of_parts bytes bs rs

abbrev pub regions : PartList → List Region → List Region
regions l rs =
    of_parts (l.size * l.nalloc) l.later
      (region l.part.elts (l.size * l.nalloc) ∷ region l.at sizeof_list ∷ rs)

-- No part holds more elements than fit, and the parts and headers are in the pool and overlap neither
-- each other nor the regions `rs`.
abbrev pub AreFilled : ℕ → List Part → Type 0
AreFilled n [] = Unit
AreFilled n (b ∷ bs) = (b.nelts ≤ n) × AreFilled n bs

pub record Holds (p : Pool) (l : PartList) (rs : List Region) : Type 0 where
  pub sound : IsPool p
  pub first : l.part.nelts ≤ l.nalloc
  pub filled : AreFilled l.nalloc l.later
  pub word : l.nalloc < 2 ^ 32
  pub live : Live (blocks p) (regions l rs)

abbrev pub count_parts : List Part → ℕ
count_parts [] = 0
count_parts (b ∷ bs) = b.nelts + count_parts bs

-- The number of elements.
abbrev pub count : PartList → ℕ
count l = l.part.nelts + count_parts l.later

-- The list has one more element, at `e`, which is the last of the last part and in that part's memory.
pub record Pushed (p : Pool) (l l' : PartList) (rs : List Region) (e : Ptr) : Type 0 where
  pub holds : Holds p l' rs
  pub size : l'.size ≡ l.size
  pub nalloc : l'.nalloc ≡ l.nalloc
  pub more : count l' ≡ suc (count l)
  pub element : e + l.size ≡ (last l').elts + l.size * (last l').nelts
  pub inside : e + l.size ≤ (last l').elts + l.size * l.nalloc

-- `NULL` leaves the list as it is and all regions handed out.
abbrev pub Outcome : PartList → List Region → Option Ptr × PartList × Pool × Libc → Type 0
Outcome l rs (none, l', p', s') = (l' ≡ l) × Holds p' l rs
Outcome l rs (some e, l', p', s') = Pushed p' l l' rs e

place_lem :
    (elts size nelts nalloc : ℕ)
    → elts + size * nalloc < 2 ^ 64
    → nelts < nalloc
    → nalloc < 2 ^ 32
    → (u32 (nelts + 1) ≡ suc nelts)
      × (u64 (elts + mul64 size nelts) + size ≡ elts + size * suc nelts)
      × (u64 (elts + mul64 size nelts) + size ≤ elts + size * nalloc)
place_lem elts size nelts nalloc word lt word32 =
    let step : size * suc nelts ≡ size * nelts + size = mul-suc size nelts in
    let below : size * suc nelts ≤ size * nalloc = mul-le-mul_left size (omega arith) in
    (omega arith, omega arith, omega arith)

-- There is a free place in the last part.
take-Outcome :
    (s : Libc) (p : Pool) (l : PartList) (rs : List Region)
    → Holds p l rs
    → (last l).nelts < l.nalloc
    → Outcome l rs (take l p s)
take-Outcome s p l rs h lt = at_parts l.later h lt
  where
    at_parts :
        (later : List Part)
        → Holds p (record l { later = later }) rs
        → (last_of l.part later).nelts < l.nalloc
        → Outcome (record l { later = later }) rs (take (record l { later = later }) p s)
    at_parts [] h' lt' =
        let word =
          InSome-word (region l.part.elts (l.size * l.nalloc)) (blocks p) h'.sound.sound
            h'.live.0 in
        let (next, end, inside) =
          place_lem l.part.elts l.size l.part.nelts l.nalloc word lt' h'.word in
        record {
          holds = record {
            sound = h'.sound;
            first = rw next lt';
            filled = tt;
            word = h'.word;
            live = h'.live;
          };
          size = refl;
          nalloc = refl;
          more = omega arith;
          element = rw next end;
          inside = inside;
        }
    at_parts (b ∷ bs) h' lt' =
        let word =
          InSome-word (region b.elts (l.size * l.nalloc)) (blocks p) h'.sound.sound h'.live.0 in
        let (next, end, inside) = place_lem b.elts l.size b.nelts l.nalloc word lt' h'.word in
        record {
          holds = record {
            sound = h'.sound;
            first = h'.first;
            filled = (rw next lt', h'.filled.1);
            word = h'.word;
            live = h'.live;
          };
          size = refl;
          nalloc = refl;
          more = omega arith;
          element = rw next end;
          inside = inside;
        }

-- The list with a new part, after the request for the part's elements.
add_part-Outcome :
    (p : Pool) (l : PartList) (at : Ptr) (rs : List Region) (r : Option Ptr × Pool × Libc)
    → Holds p l rs
    → Live (blocks p) (region at sizeof_part ∷ regions l rs)
    → 0 < l.nalloc
    → Granted true (l.size * l.nalloc) p r
    → Outcome l rs (add_part l at r)
unfolding add_part
add_part-Outcome p l at rs (none, q, t) h live some_room g = (refl, rw g h)
add_part-Outcome p l at rs (some e, q, t) h live some_room (v, _, _, kept) =
    let l1 = record l { later = record { at = at; elts = e; nelts = 0 } ∷ l.later } in
    let h1 : Holds q l1 rs = record {
      sound = v;
      first = h.first;
      filled = (omega arith, h.filled);
      word = h.word;
      live = kept (region at sizeof_part ∷ regions l rs) live;
    } in
    let pushed = take-Outcome t q l1 rs h1 some_room in
    record {
      holds = pushed.holds;
      size = refl;
      nalloc = refl;
      more = omega (arith, pushed.more);
      element = pushed.element;
      inside = pushed.inside;
    }

new_part-Outcome :
    (p : Pool) (l : PartList) (rs : List Region) (r : Option Ptr × Pool × Libc)
    → Holds p l rs
    → 0 < l.nalloc
    → l.size * l.nalloc ≤ p.max
    → Granted true sizeof_part p r
    → MayAnswer r.1 (first_answer r.2.answers)
    → Outcome l rs (new_part l r)
unfolding new_part
new_part-Outcome p l rs (none, q, t) h some_room small g may = (refl, rw g h)
new_part-Outcome p l rs (some at, q, t) h some_room small (v, _, same, kept) may =
    let room = h.sound.room in
    let word = h.sound.sound.0.word in
    let bytes : mul64 l.nalloc l.size ≡ l.size * l.nalloc =
      rw (mul_comm l.nalloc l.size) (omega arith) in
    let (g, _) = palloc-Granted (l.size * l.nalloc) t q v may (omega arith) in
    let live = kept (regions l rs) h.live in
    let h1 : Holds q l rs = record {
      sound = v;
      first = h.first;
      filled = h.filled;
      word = h.word;
      live = live.2;
    } in
    rw bytes (add_part-Outcome q l at rs (palloc t q (l.size * l.nalloc)) h1 live some_room g)

-- For a list whose parts have at least one place and are below the pool's limit for small requests,
-- in a sound pool, where the allocator answers both requests with unused memory or not at all:
-- `list_push` returns NULL, and the list and all regions stay as they are, or the address of the new
-- last element, which lies in the memory of the last part; the list has one more element, and its
-- parts are in the pool and overlap neither each other nor any other region.
pub list_push-Outcome :
    (s : Libc) (p : Pool) (l : PartList) (rs : List Region)
    → Holds p l rs
    → MayAnswer p (first_answer s.answers)
    → MayAnswer (palloc s p sizeof_part).1 (first_answer (palloc s p sizeof_part).2.answers)
    → sizeof_part ≤ p.max
    → 0 < l.nalloc
    → l.size * l.nalloc ≤ p.max
    → Outcome l rs (list_push s p l)
unfolding list_push
list_push-Outcome s p l rs h may may' header some_room small =
    let (g, _) = palloc-Granted sizeof_part s p h.sound may header in
    let filled = last_lem l.part l.later h.first h.filled in
    elim (Bool-cases ((last l).nelts == l.nalloc)) [
      | inl e ↦ rw e (new_part-Outcome p l rs (palloc s p sizeof_part) h some_room small g may')
      | inr e ↦ rw e (take-Outcome s p l rs h (not_full (last l).nelts l.nalloc filled e))
    ]
  where
    last_lem :
        (part : Part) (later : List Part)
        → part.nelts ≤ l.nalloc
        → AreFilled l.nalloc later
        → (last_of part later).nelts ≤ l.nalloc
    last_lem part [] le a = le
    last_lem part (b ∷ bs) le a = a.0

    not_full : (n m : ℕ) → n ≤ m → (n == m) ≡ false → n < m
    not_full n m le ne = ground arith
