-- ===== src/Pool/Blocks.antt =====
-- The blocks of a pool and the regions that have been carved out of them.
use libcn.Prelude.{
  ℕ, zero, suc, ◌+◌, ◌%◌, ◌^◌, ◌≤◌, ◌<◌, ◌≡◌, refl, ◌⊎◌, inl, inr, Ptr, Bool, true, false, Option,
  none, some, List, [], ◌∷◌, arith, leb, leb→le, sub64, Bool-cases, length,
}
use package.libcn.Pool.{sizeof_data, sizeof_pool, Block, place, alloc_from, alloc_past}

-- A block ends at a multiple of the alignment, and its free part lies inside.
pub record IsBlock (b : Block) : Type 0 where
  pub low : b.base + sizeof_data ≤ b.last
  pub high : b.last ≤ b.end
  pub wide : b.base + sizeof_pool ≤ b.end
  pub even : b.end % 8 ≡ 0
  pub word : b.end < 2 ^ 64

-- Two blocks that do not overlap.
abbrev pub Apart : Block → Block → Type 0
Apart b c = (b.end ≤ c.base) ⊎ (c.end ≤ b.base)

abbrev pub ApartAll : Block → List Block → Type 0
ApartAll b [] = Unit
ApartAll b (c ∷ cs) = Apart b c × ApartAll b cs

abbrev pub AreBlocks : List Block → Type 0
AreBlocks [] = Unit
AreBlocks (b ∷ bs) = IsBlock b × ApartAll b bs × AreBlocks bs

-- A region of memory: its address and its size.
pub record Region : Type 0 where
  pub at : Ptr
  pub size : ℕ

abbrev pub region : Ptr → ℕ → Region
region a n = record { at = a; size = n }

-- The region lies in the used part of the block, behind the block's header.
abbrev pub In : Region → Block → Type 0
In r b = (b.base + sizeof_data ≤ r.at) × (r.at + r.size ≤ b.last)

abbrev pub InSome : Region → List Block → Type 0
InSome r [] = ⊥
InSome r (b ∷ bs) = In r b ⊎ InSome r bs

abbrev pub Disjoint : Region → Region → Type 0
Disjoint r t = (r.at + r.size ≤ t.at) ⊎ (t.at + t.size ≤ r.at)

-- The same blocks but for what has been used of them.
abbrev pub SameFrame : List Block → List Block → Type 0
SameFrame [] [] = Unit
SameFrame (b ∷ bs) (c ∷ cs) = (c.base ≡ b.base) × (c.end ≡ b.end) × SameFrame bs cs
SameFrame _ _ = ⊥

SameFrame-refl : (bs : List Block) → SameFrame bs bs
SameFrame-refl [] = tt
SameFrame-refl (b ∷ bs) = (refl, refl, SameFrame-refl bs)

pub SameFrame-length : (bs cs : List Block) → SameFrame bs cs → length cs ≡ length bs
SameFrame-length [] [] s = refl
SameFrame-length [] (c ∷ cs) s = absurd s
SameFrame-length (b ∷ bs) [] s = absurd s
SameFrame-length (b ∷ bs) (c ∷ cs) s = omega (arith, SameFrame-length bs cs s.2)

-- What a request of `size` bytes that was served at `m` did to the blocks.
pub record Carved (align : Bool) (size : ℕ) (m : Ptr) (bs cs : List Block) : Type 0 where
  pub blocks : AreBlocks cs
  pub frame : SameFrame bs cs
  pub aligned : align ≡ true → m % 8 ≡ 0
  pub inside : InSome (region m size) cs
  pub kept : (r : Region) → InSome r bs → InSome r cs × Disjoint r (region m size)
  pub apart : (b : Block) → ApartAll b bs → ApartAll b cs

-- A region of one block and a region of a block apart from it.
pub InSome-apart :
    (b : Block) (r t : Region) (bs : List Block)
    → In r b
    → b.last ≤ b.end
    → ApartAll b bs
    → AreBlocks bs
    → InSome t bs
    → Disjoint t r
InSome-apart b r t [] i h a v s = elim s [ ]
InSome-apart b r t (c ∷ bs) i h (a, as') (v, _, vs) (inl j) = let hc = v.high in omega arith
InSome-apart b r t (c ∷ bs) i h (a, as') (v, _, vs) (inr j) = InSome-apart b r t bs i h as' vs j

pub Disjoint-symm : (r t : Region) → Disjoint r t → Disjoint t r
Disjoint-symm r t (inl h) = inr h
Disjoint-symm r t (inr h) = inl h

-- The test of `palloc_small` on a block whose end is aligned: the request fits.
place_fits :
    (align : Bool) (b : Block) (size : ℕ)
    → IsBlock b
    → leb size (sub64 b.end (place align b)) ≡ true
    → (b.last ≤ place align b)
      × (place align b + size ≤ b.end)
      × (align ≡ true → place align b % 8 ≡ 0)
place_fits true b size v h =
    let le = leb→le size (sub64 b.end (place true b)) h in
    (omega arith, omega arith, λ _. omega arith)
place_fits false b size v h =
    let le = leb→le size (sub64 b.end (place false b)) h in (omega arith, omega arith, λ e. cc)

module _ (align : Bool) (size : ℕ) (b : Block) (bs : List Block) (all : AreBlocks (b ∷ bs)) where
  kept_here :
      (m : Ptr) (r : Region)
      → b.last ≤ m
      → m + size ≤ b.end
      → InSome r (b ∷ bs)
      → InSome r (record b { last = m + size } ∷ bs) × Disjoint r (region m size)
  kept_here m r low high (inl i) = (inl (omega arith), inl (omega arith))
  kept_here m r low high (inr i) =
      let own : Block = record b { last = m + size } in
      let new = region m size in
      let within : In new own = omega arith in
      (inr i, InSome-apart own new r bs within high all.1 all.2 i)

  Carved-here :
      b.last ≤ place align b
      → place align b + size ≤ b.end
      → (align ≡ true → place align b % 8 ≡ 0)
      → Carved align size (place align b) (b ∷ bs) (record b { last = place align b + size } ∷ bs)
  Carved-here low high even = record {
    blocks = (
      record {
        low = omega arith;
        high = high;
        wide = all.0.wide;
        even = all.0.even;
        word = all.0.word;
      },
      all.1,
      all.2,
    );
    frame = (refl, refl, SameFrame-refl bs);
    aligned = even;
    inside = inl (omega arith);
    kept = λ r s. kept_here (place align b) r low high s;
    apart = λ b' h. h;
  }

  kept_there :
      (m : Ptr) (cs : List Block) (r : Region)
      → Carved align size m bs cs
      → InSome r (b ∷ bs)
      → InSome r (b ∷ cs) × Disjoint r (region m size)
  kept_there m cs r c (inl i) =
      let new = region m size in
      (
        inl i,
        Disjoint-symm new r
            (InSome-apart b r new cs i all.0.high (c.apart b all.1) c.blocks c.inside),
      )
  kept_there m cs r c (inr i) = let (j, d) = c.kept r i in (inr j, d)

  Carved-there :
      (m : Ptr) (cs : List Block)
      → Carved align size m bs cs
      → Carved align size m (b ∷ bs) (b ∷ cs)
  Carved-there m cs c = record {
    blocks = (all.0, c.apart b all.1, c.blocks);
    frame = (refl, refl, c.frame);
    aligned = c.aligned;
    inside = inr c.inside;
    kept = λ r s. kept_there m cs r c s;
    apart = λ b' h. (h.0, c.apart b' h.1);
  }

-- What a search of the blocks promises: a region carved out of one of them, if it finds one.
abbrev pub Served : Bool → ℕ → List Block → Option (Ptr × List Block) → Type 0
Served align size bs none = Unit
Served align size bs (some (m, cs)) = Carved align size m bs cs

Served-there :
    (align : Bool) (size : ℕ) (b : Block) (bs : List Block) (o : Option (Ptr × List Block))
    → AreBlocks (b ∷ bs)
    → Served align size bs o
    → Served align size (b ∷ bs) (elim o [ none ↦ none | some (q, bs') ↦ some (q, b ∷ bs') ])
Served-there align size b bs none v s = tt
Served-there align size b bs (some (m, cs)) v s = Carved-there align size b bs v m cs s

alloc_from-Served :
    (align : Bool) (size : ℕ) (bs : List Block)
    → AreBlocks bs
    → Served align size bs (alloc_from size align bs)
unfolding alloc_from
alloc_from-Served align size [] v = tt
alloc_from-Served align size (b ∷ bs) v =
    elim (Bool-cases (leb size (sub64 b.end (place align b)))) [
      | inl fits ↦
          let (low, high, even) = place_fits align b size v.0 fits in
          rw fits (Carved-here align size b bs v low high even)
      | inr full ↦ rw full (
          Served-there align size b bs (alloc_from size align bs) v
            (alloc_from-Served align size bs v.2))
    ]

pub alloc_past-Served :
    (skip : ℕ) (align : Bool) (size : ℕ) (bs : List Block)
    → AreBlocks bs
    → Served align size bs (alloc_past skip size align bs)
unfolding alloc_past
alloc_past-Served zero align size bs v = alloc_from-Served align size bs v
alloc_past-Served (suc skip) align size [] v = tt
alloc_past-Served (suc skip) align size (b ∷ bs) v =
    Served-there align size b bs (alloc_past skip size align bs) v
      (alloc_past-Served skip align size bs v.2)
