-- ===== src/Master/Layout.antt =====
-- The words that `event_master_init` lays out.
use libcn.Prelude.{
  ℕ, zero, suc, ◌+◌, ◌*◌, ◌^◌, ◌<◌, ◌≤◌, ◌≡◌, ◌≢◌, refl, Ptr, null, true, false, Option, some, List,
  [], ◌∷◌, arith, has, Distinct, ◌==◌, ne→==, ==→eq, eq→==, Bool-cases, inl, inr, sym, ◌∙◌, ap,
}
use mathlib.Core.Path.{subst}
use libcn.Mutex.{no_spin}
use package.libcn.Master.{
  Statics, map_failed, timer_interval, cache_line, shared_size, line, lay_out, event_master_init,
}

abbrev pub words_of : Statics → List Ptr
words_of v =
    v.accept_mutex_ptr ∷ v.connection_counter ∷ v.stat_accepted ∷ v.stat_handled ∷ v.stat_requests
    ∷ v.stat_active ∷ v.stat_reading ∷ v.stat_writing ∷ []

-- What is laid out from `p` on.
pub record Laid (p : Ptr) (s v : Statics) : Type 0 where
  pub lock : v.accept_mutex.lock ≡ p
  pub unspun : v.accept_mutex.spin ≡ no_spin
  pub inside : (a : Ptr) → has a (words_of v) ≡ true → (p ≤ a) × (a + cache_line ≤ p + shared_size)
  pub apart : Distinct (words_of v)
  pub beyond : v.stat_waiting ≡ p + shared_size
  pub counted : s.words v.connection_counter ≡ 0 → v.words v.connection_counter ≡ 1
  pub others : (a : Ptr) → a ≢ v.connection_counter → v.words a ≡ s.words a

line_lem : (p : Ptr) (i : ℕ) → i ≤ 8 → p + shared_size < 2 ^ 64 → line p i ≡ p + i * cache_line
line_lem p i le fits = omega arith

abbrev lines : Ptr → ℕ → List Ptr
lines p zero = []
lines p (suc k) = p ∷ lines (p + cache_line) k

lines-inside :
    (p : Ptr) (k : ℕ) (a : Ptr)
    → has a (lines p k) ≡ true
    → (p ≤ a) × (a + cache_line ≤ p + k * cache_line)
lines-inside p zero a h = absurd (ground arith)
lines-inside p (suc k) a h = elim (Bool-cases (a == p)) [
  | inl same ↦ let e : a ≡ p = ==→eq a p same in (omega arith, omega arith)
  | inr apart ↦
      let later : has a (lines (p + cache_line) k) ≡ true = ground arith in
      let (low, high) = lines-inside (p + cache_line) k a later in (omega arith, omega arith)
]

Distinct-lines : (p : Ptr) (k : ℕ) → Distinct (lines p k)
Distinct-lines p zero = tt
Distinct-lines p (suc k) = (
  elim (Bool-cases (has p (lines (p + cache_line) k))) [
    | inl h ↦ let (low, high) = lines-inside (p + cache_line) k p h in absurd (omega arith)
    | inr h ↦ h
  ],
  Distinct-lines (p + cache_line) k,
)

abbrev wrapped_lines : Ptr → ℕ → ℕ → List Ptr
wrapped_lines p i zero = []
wrapped_lines p i (suc k) = line p i ∷ wrapped_lines p (suc i) k

wrapped_lines_lem :
    (p : Ptr) (i k : ℕ)
    → i + k ≤ 8
    → p + shared_size < 2 ^ 64
    → wrapped_lines p i k ≡ lines (p + i * cache_line) k
wrapped_lines_lem p i zero le fits = refl
wrapped_lines_lem p i (suc k) le fits =
    let next : p + suc i * cache_line ≡ p + i * cache_line + cache_line = omega arith in
    rw (line_lem p i (omega arith) fits) (
      ap (λ xs. (p + i * cache_line) ∷ xs)
        (wrapped_lines_lem p (suc i) k (omega arith) fits ∙ ap (λ q. lines q k) next))

words_of-lay_out :
    (p : Ptr) (s : Statics) → p + shared_size < 2 ^ 64 → words_of (lay_out p s) ≡ lines p 8
unfolding lay_out
words_of-lay_out p s fits =
    let from : p + 1 * cache_line ≡ p + cache_line = omega arith in
    ap (λ xs. p ∷ xs) (wrapped_lines_lem p 1 7 (omega arith) fits ∙ ap (λ q. lines q 7) from)

lay_out-Laid : (p : Ptr) (s : Statics) → p + shared_size < 2 ^ 64 → Laid p s (lay_out p s)
unfolding lay_out
lay_out-Laid p s fits =
    let placed = words_of-lay_out p s fits in
    record {
      lock = refl;
      unspun = refl;
      inside = λ a h. lines-inside p 8 a (ap (has a) (sym placed) ∙ h);
      apart = subst (λ xs. Distinct xs) (sym placed) (Distinct-lines p 8);
      beyond = line_lem p 8 (omega arith) fits;
      counted = λ z. ground arith;
      others = λ a n. ground arith;
    }

-- Where `accept_mutex_ptr` is NULL and the two system calls succeed, `event_master_init` returns 0 and
-- the mutex, the counter and the first six statistics have a cache line each inside the shared memory,
-- no two the same; the counter is 1 if its word was 0, and no other word is written. `stat_waiting`
-- points to the end of the shared memory, past its last byte. A second call changes nothing.
pub event_master_init-Laid :
    (at p : Ptr) (s : Statics)
    → at ≢ map_failed
    → p ≢ null
    → p + shared_size < 2 ^ 64
    → s.accept_mutex_ptr ≡ null
    → (v : Statics) × (event_master_init true at (some p) s ≡ (true, v))
      × Laid p s v
      × ((again : Ptr) (mapped : Option Ptr) → event_master_init true again mapped v ≡ (true, v))
unfolding event_master_init lay_out
event_master_init-Laid at p s n q fits z =
    let fresh : (s.accept_mutex_ptr == null) ≡ true = eq→== _ _ z in
    let stored : (at == map_failed) ≡ false = ne→== _ _ n in
    let set : (p == null) ≡ false = ne→== _ _ q in
    let s1 = record s { timer_resolution = timer_interval } in
    let done = lay_out-Laid p s1 fits in
    (
      lay_out p s1,
      rw fresh (rw stored refl),
      record {
        lock = done.lock;
        unspun = done.unspun;
        inside = done.inside;
        apart = done.apart;
        beyond = done.beyond;
        counted = done.counted;
        others = done.others;
      },
      λ again mapped. rw set refl,
    )
