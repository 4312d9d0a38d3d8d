-- ===== src/Pool/Grow.antt =====
-- A block is added behind the others, whose failure counts change.
use libcn.Prelude.{
  ℕ, zero, suc, ◌+◌, ◌%◌, ◌^◌, ◌≤◌, ◌<◌, ◌≡◌, refl, inl, inr, List, [], ◌∷◌, ◌++◌, arith, ltb,
  if◌then◌else◌, Bool-cases, length,
}
use package.libcn.Pool.{
  sizeof_data, sizeof_pool, Block, alignment, align_ptr, new_block, count_failures, count_past,
}
use package.libcn.Pool.Blocks.{IsBlock, Apart, ApartAll, AreBlocks, Region, region, In, InSome}

-- The same blocks but for their failure counts.
abbrev pub Same : List Block → List Block → Type 0
Same [] [] = Unit
Same (b ∷ bs) (c ∷ cs) = (c.base ≡ b.base) × (c.last ≡ b.last) × (c.end ≡ b.end) × Same bs cs
Same _ _ = ⊥

pub Same-refl : (bs : List Block) → Same bs bs
Same-refl [] = tt
Same-refl (b ∷ bs) = (refl, refl, refl, Same-refl bs)

count_failures-Same : (i current : ℕ) (bs : List Block) → Same bs (count_failures i current bs).0
unfolding count_failures
count_failures-Same i current [] = tt
count_failures-Same i current (b ∷ []) = (refl, refl, refl, tt)
count_failures-Same i current (b ∷ b' ∷ bs) = (
  refl,
  refl,
  refl,
  count_failures-Same (suc i) (if ltb 4 b.failed then suc i else current) (b' ∷ bs),
)

pub count_past-Same :
    (skip i current : ℕ) (bs : List Block) → Same bs (count_past skip i current bs).0
unfolding count_past
count_past-Same zero i current bs = count_failures-Same i current bs
count_past-Same (suc skip) i current [] = tt
count_past-Same (suc skip) i current (b ∷ bs) =
    (refl, refl, refl, count_past-Same skip (suc i) current bs)

-- `pool->current` stays an index of the chain, and never moves back.
count_failures-current :
    (i current : ℕ) (bs : List Block)
    → current ≤ i
    → i < i + length bs
    → (current ≤ (count_failures i current bs).1)
      × ((count_failures i current bs).1 < i + length bs)
unfolding count_failures
count_failures-current i current [] le lt = absurd (omega arith)
count_failures-current i current (b ∷ []) le lt = omega arith
count_failures-current i current (b ∷ b' ∷ bs) le lt = elim (Bool-cases (ltb 4 b.failed)) [
  | inl often ↦
      rw often (
        omega (arith, count_failures-current (suc i) (suc i) (b' ∷ bs) (omega arith) (omega arith)))
  | inr seldom ↦
      rw seldom (
        omega (arith, count_failures-current (suc i) current (b' ∷ bs) (omega arith) (omega arith)))
]

pub count_past-current :
    (skip i current : ℕ) (bs : List Block)
    → current ≡ skip + i
    → skip < length bs
    → (current ≤ (count_past skip i current bs).1)
      × ((count_past skip i current bs).1 < i + length bs)
unfolding count_past
count_past-current zero i current bs e lt =
    count_failures-current i current bs (omega arith) (omega arith)
count_past-current (suc skip) i current [] e lt = absurd (omega arith)
count_past-current (suc skip) i current (b ∷ bs) e lt =
    omega (arith, count_past-current skip (suc i) current bs (omega arith) (omega arith))

pub Same-length : (bs cs : List Block) → Same bs cs → length cs ≡ length bs
Same-length [] [] s = refl
Same-length [] (c ∷ cs) s = absurd s
Same-length (b ∷ bs) [] s = absurd s
Same-length (b ∷ bs) (c ∷ cs) s = omega (arith, Same-length bs cs s.3)

pub ApartAll-Same :
    (b c : Block) (bs cs : List Block)
    → c.base ≡ b.base
    → c.end ≡ b.end
    → Same bs cs
    → ApartAll b bs
    → ApartAll c cs
ApartAll-Same b c [] [] e f s a = tt
ApartAll-Same b c [] (d ∷ cs) e f s a = absurd s
ApartAll-Same b c (d ∷ bs) [] e f s a = absurd s
ApartAll-Same b c (d ∷ bs) (d' ∷ cs) e f (g, _, k, s) (a, as') =
    (omega arith, ApartAll-Same b c bs cs e f s as')

pub AreBlocks-Same : (bs cs : List Block) → Same bs cs → AreBlocks bs → AreBlocks cs
AreBlocks-Same [] [] s v = tt
AreBlocks-Same [] (c ∷ cs) s v = absurd s
AreBlocks-Same (b ∷ bs) [] s v = absurd s
AreBlocks-Same (b ∷ bs) (c ∷ cs) (e, f, g, s) (v, a, vs) =
    (omega arith, ApartAll-Same b c bs cs e g s a, AreBlocks-Same bs cs s vs)

pub InSome-Same : (r : Region) (bs cs : List Block) → Same bs cs → InSome r bs → InSome r cs
InSome-Same r [] cs s i = elim i [ ]
InSome-Same r (b ∷ bs) [] s i = absurd s
InSome-Same r (b ∷ bs) (c ∷ cs) (e, f, g, s) (inl i) = inl (omega arith)
InSome-Same r (b ∷ bs) (c ∷ cs) (e, f, g, s) (inr i) = inr (InSome-Same r bs cs s i)

-- The block `n` behind blocks that it is apart from.
ApartAll-append :
    (b n : Block) (bs : List Block) → ApartAll b bs → Apart b n → ApartAll b (bs ++ n ∷ [])
ApartAll-append b n [] a h = (h, tt)
ApartAll-append b n (c ∷ bs) a h = (a.0, ApartAll-append b n bs a.1 h)

Apart-symm : (b c : Block) → Apart b c → Apart c b
Apart-symm b c (inl h) = inr h
Apart-symm b c (inr h) = inl h

pub AreBlocks-append :
    (n : Block) (bs : List Block)
    → IsBlock n
    → AreBlocks bs
    → ApartAll n bs
    → AreBlocks (bs ++ n ∷ [])
AreBlocks-append n [] v vs a = (v, tt, tt)
AreBlocks-append n (b ∷ bs) v (w, apart, vs) (a, as') =
    (w, ApartAll-append b n bs apart (Apart-symm n b a), AreBlocks-append n bs v vs as')

pub InSome-append :
    (r : Region) (n : Block) (bs : List Block) → InSome r bs → InSome r (bs ++ n ∷ [])
InSome-append r n [] i = elim i [ ]
InSome-append r n (b ∷ bs) (inl i) = inl i
InSome-append r n (b ∷ bs) (inr i) = inr (InSome-append r n bs i)

pub InSome-last : (r : Region) (n : Block) (bs : List Block) → In r n → InSome r (bs ++ n ∷ [])
InSome-last r n [] i = inl i
InSome-last r n (b ∷ bs) i = inr (InSome-last r n bs i)

-- What the first region of a new block meets: it is inside, aligned and apart from the others.
pub new_block-IsBlock :
    (a psize size : ℕ)
    → a % 16 ≡ 0
    → psize % 8 ≡ 0
    → a + psize < 2 ^ 64
    → size + sizeof_pool ≤ psize
    → IsBlock (new_block a psize size)
      × In (region (align_ptr (a + sizeof_data) alignment) size) (new_block a psize size)
      × (align_ptr (a + sizeof_data) alignment % 8 ≡ 0)
new_block-IsBlock a psize size even even' word room = (omega arith, omega arith, omega arith)
