-- ===== src/Rangeset/Ranges/Laws.antt =====
-- Canonical lists of ranges: how they behave from a bound on, and that each set of values has one.
use tlsn_utils.Base.{ℕ, suc, ◌≤◌, ◌<◌, ◌≡◌, false, ◌||◌, ◌++◌, refl, ap₂, List, [], ◌∷◌, arith}
use tlsn_utils.Rangeset.Range.{Range}
use tlsn_utils.Rangeset.Ranges.{covers, From, Canonical}

pub From-mono : (lo lo' : ℕ) (rs : List Range) → lo' ≤ lo → From lo rs → From lo' rs
From-mono lo lo' [] h k = tt
From-mono lo lo' (r ∷ rs) h k = (omega arith, k.1, k.2)

pub covers_below : (lo : ℕ) (rs : List Range) (x : ℕ) → From lo rs → x < lo → covers rs x ≡ false
covers_below lo [] x h k = refl
covers_below lo (r ∷ rs) x h k = ground (arith, covers_below (suc r.end) rs x)

pub covers-append :
    (rs ss : List Range) (x : ℕ) → covers (rs ++ ss) x ≡ (covers rs x || covers ss x)
covers-append [] ss x = refl
covers-append (r ∷ rs) ss x = ground (arith, covers-append rs ss x)

pub Range-ext : (a b : Range) → a.start ≡ b.start → a.end ≡ b.end → a ≡ b
Range-ext a b h k = ground arith

module _ (a b : Range) (xs ys : List Range) (lo : ℕ) (ha : From lo (a ∷ xs)) (hb : From lo (b ∷ ys))
    (same : (x : ℕ) → covers (a ∷ xs) x ≡ covers (b ∷ ys) x) where
  start_eq : a.start ≡ b.start
  start_eq = ground (
    arith,
    same a.start,
    same b.start,
    covers_below (suc a.end) xs b.start ha.2,
    covers_below (suc b.end) ys a.start hb.2,
  )

  end_eq : a.end ≡ b.end
  end_eq = ground (
    arith,
    start_eq,
    same a.end,
    same b.end,
    covers_below (suc a.end) xs a.end ha.2,
    covers_below (suc b.end) ys b.end hb.2,
  )

  rest_same : (x : ℕ) → covers xs x ≡ covers ys x
  rest_same x = ground (
    arith,
    start_eq,
    end_eq,
    same x,
    covers_below (suc a.end) xs x ha.2,
    covers_below (suc b.end) ys x hb.2,
  )

From-ext :
    (lo : ℕ) (xs ys : List Range)
    → From lo xs
    → From lo ys
    → ((x : ℕ) → covers xs x ≡ covers ys x)
    → xs ≡ ys
From-ext lo [] [] ha hb same = refl
From-ext lo [] (b ∷ ys) ha hb same = absurd (ground (arith, same b.start))
From-ext lo (a ∷ xs) [] ha hb same = absurd (ground (arith, same a.start))
From-ext lo (a ∷ xs) (b ∷ ys) ha hb same =
    let e = end_eq a b xs ys lo ha hb same in
    ap₂ ◌∷◌ (Range-ext a b (start_eq a b xs ys lo ha hb same) e) (
      From-ext (suc a.end) xs ys ha.2 (From-mono (suc b.end) (suc a.end) ys (omega arith) hb.2)
        (rest_same a b xs ys lo ha hb same))

-- Two canonical lists that contain the same values are equal: the derived `==` of `RangeSet`
-- decides equality of the sets of values.
pub Canonical-ext :
    (xs ys : List Range)
    → Canonical xs
    → Canonical ys
    → ((x : ℕ) → covers xs x ≡ covers ys x)
    → xs ≡ ys
Canonical-ext xs ys = From-ext 0 xs ys
