-- ===== src/Quorum/IncluderSet/Order.antt =====
-- `Less` is a strict order of includers in which two that are not ordered are equal.
use unison.Base.{◌≡◌, refl, true, false, [], ◌∷◌, arith}
use unison.Base.Int.{ℤ, pos, negsuc, leb_ℤ}
use unison.Base.Key.{Bytes}
use unison.Quorum.{Includer}
use unison.Quorum.IncluderSet.{bytes_less, less}

pub bytes_less-irreflexive : (a : Bytes) → bytes_less a a ≡ false
unfolding bytes_less
bytes_less-irreflexive [] = refl
bytes_less-irreflexive (x ∷ xs) = ground (arith, bytes_less-irreflexive xs)

bytes_less_trans :
    (a b c : Bytes) → bytes_less a b ≡ true → bytes_less b c ≡ true → bytes_less a c ≡ true
unfolding bytes_less
bytes_less_trans [] [] c h k = cc
bytes_less_trans [] (y ∷ ys) [] h k = cc
bytes_less_trans [] (y ∷ ys) (z ∷ zs) h k = refl
bytes_less_trans (x ∷ xs) [] c h k = cc
bytes_less_trans (x ∷ xs) (y ∷ ys) [] h k = cc
bytes_less_trans (x ∷ xs) (y ∷ ys) (z ∷ zs) h k = ground (arith, bytes_less_trans xs ys zs)

-- Two strings of bytes are equal, or one is less.
pub bytes_less_total : (a b : Bytes) → bytes_less a b ≡ false → bytes_less b a ≡ false → a ≡ b
unfolding bytes_less
bytes_less_total [] [] h k = refl
bytes_less_total [] (y ∷ ys) h k = cc
bytes_less_total (x ∷ xs) [] h k = cc
bytes_less_total (x ∷ xs) (y ∷ ys) h k = ground (arith, bytes_less_total xs ys)

same_stake : (a b : ℤ) → leb_ℤ a b ≡ true → leb_ℤ b a ≡ true → a ≡ b
same_stake (pos a) (pos b) h k = ground arith
same_stake (pos a) (negsuc b) h k = ground arith
same_stake (negsuc a) (pos b) h k = ground arith
same_stake (negsuc a) (negsuc b) h k = ground arith

pub less-irreflexive : (a : Includer) → less a a ≡ false
unfolding less
less-irreflexive a = ground (arith, bytes_less-irreflexive a.pub_key)

pub less_trans : (a b c : Includer) → less a b ≡ true → less b c ≡ true → less a c ≡ true
unfolding less
less_trans a b c h k = ground (arith, bytes_less_trans a.pub_key b.pub_key c.pub_key)

-- Includers that are not ordered are equal.
pub less_total : (a b : Includer) → less a b ≡ false → less b a ≡ false → a ≡ b
unfolding less
less_total a b h k =
    ground (arith, bytes_less_total a.pub_key b.pub_key, same_stake a.stake b.stake)
