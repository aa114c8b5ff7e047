-- ===== src/Prelude/Bytes.antt =====
-- Byte arrays as lists of numbers, compared byte by byte, and little-endian numbers of eight bytes.
use Prim.Native.Nat.{ℕ, zero, suc, ◌+◌, ◌*◌, ◌/◌, ◌%◌, ◌^◌, ◌<◌}
use mathlib.Core.Path.{◌≡◌, refl, sym, ap, ap₂}
use mathlib.Core.Bool.{Bool, true, false, ◌&&◌}
use mathlib.Core.Logic.{◌↔◌, inl, inr}
use mathlib.Core.List.{List, [], ◌∷◌, Memᴰ}
use native.Mathlib.Omega.{arith}
use native.Mathlib.Nat.{pow-suc}
use ika_pre_alpha.Prelude.Tests.{◌==◌, Bool-cases}
use ika_pre_alpha.Prelude.Lists.{length, any, All}

abbrev pub Bytes : Type 0
Bytes = List ℕ

abbrev pub IsByte : ℕ → Type 0
IsByte b = b < 256

-- Equal lengths and equal bytes at every index.
abbrev pub same_bytes : Bytes → Bytes → Bool
same_bytes [] [] = true
same_bytes [] (y ∷ ys) = false
same_bytes (x ∷ xs) [] = false
same_bytes (x ∷ xs) (y ∷ ys) = x == y && same_bytes xs ys

same_bytes→eq : (xs ys : Bytes) → same_bytes xs ys ≡ true → xs ≡ ys
same_bytes→eq [] [] h = refl
same_bytes→eq [] (y ∷ ys) h = cc
same_bytes→eq (x ∷ xs) [] h = cc
same_bytes→eq (x ∷ xs) (y ∷ ys) h =
    let e : x ≡ y = ground arith in
    let r : xs ≡ ys = same_bytes→eq xs ys (ground arith) in ap₂ ◌∷◌ e r

pub same_bytes_refl : (xs : Bytes) → same_bytes xs xs ≡ true
same_bytes_refl [] = refl
same_bytes_refl (x ∷ xs) = ground (arith, same_bytes_refl xs)

pub same_bytes_iff : (xs ys : Bytes) → (same_bytes xs ys ≡ true) ↔ (xs ≡ ys)
same_bytes_iff xs ys = (same_bytes→eq xs ys, λ e. rw e (same_bytes_refl ys))

-- The `k` lowest bytes of a number, lowest first, and the number that bytes spell.
abbrev pub to_le : ℕ → ℕ → Bytes
to_le zero n = []
to_le (suc k) n = (n % 256) ∷ to_le k (n / 256)

abbrev pub from_le : Bytes → ℕ
from_le [] = 0
from_le (b ∷ bs) = b + 256 * from_le bs

pub length-to_le : (k n : ℕ) → length (to_le k n) ≡ k
length-to_le zero n = refl
length-to_le (suc k) n = ap suc (length-to_le k (n / 256))

pub to_le-IsByte : (k n : ℕ) → All IsByte (to_le k n)
to_le-IsByte zero n = tt
to_le-IsByte (suc k) n = (omega arith, to_le-IsByte k (n / 256))

pub from_le-to_le : (k n : ℕ) → n < 256 ^ k → from_le (to_le k n) ≡ n
from_le-to_le zero n h = omega arith
from_le-to_le (suc k) n h = omega (arith, from_le-to_le k (n / 256) (omega (arith, pow-suc 256 k)))

pub to_le-from_le : (bs : Bytes) → All IsByte bs → to_le (length bs) (from_le bs) ≡ bs
to_le-from_le [] h = refl
to_le-from_le (b ∷ bs) (p, h) =
    let low : (b + 256 * from_le bs) % 256 ≡ b = omega arith in
    let high : (b + 256 * from_le bs) / 256 ≡ from_le bs = omega arith in
    ap₂ ◌∷◌ low (rw high (to_le-from_le bs h))

pub from_le-lt : (bs : Bytes) → All IsByte bs → from_le bs < 256 ^ length bs
from_le-lt [] h = omega arith
from_le-lt (b ∷ bs) (p, h) = omega (arith, from_le-lt bs h, pow-suc 256 (length bs))

-- `keys.some((key) => equalBytes(key, bytes))`
abbrev pub among : Bytes → List Bytes → Bool
among bytes keys = any (λ key. same_bytes key bytes) keys

Memᴰ-of_among : (bytes : Bytes) (keys : List Bytes) → among bytes keys ≡ true → Memᴰ bytes keys
Memᴰ-of_among bytes [] h = absurd (ground arith)
Memᴰ-of_among bytes (key ∷ keys) h = elim (Bool-cases (same_bytes key bytes)) [
  | inl e ↦ Memᴰ.head (sym (same_bytes→eq key bytes e))
  | inr e ↦ Memᴰ.tail (Memᴰ-of_among bytes keys (ground arith))
]

among-of_Memᴰ : (bytes : Bytes) (keys : List Bytes) → Memᴰ bytes keys → among bytes keys ≡ true
among-of_Memᴰ bytes [] h = elim h [ ]
among-of_Memᴰ bytes (key ∷ keys) (Memᴰ.head e) = rw e (ground (arith, same_bytes_refl key))
among-of_Memᴰ bytes (key ∷ keys) (Memᴰ.tail h) =
    let rest : among bytes keys ≡ true = among-of_Memᴰ bytes keys h in
    elim (Bool-cases (same_bytes key bytes)) [ inl e ↦ ground arith | inr e ↦ ground arith ]

pub among_iff : (bytes : Bytes) (keys : List Bytes) → (among bytes keys ≡ true) ↔ Memᴰ bytes keys
among_iff bytes keys = (Memᴰ-of_among bytes keys, among-of_Memᴰ bytes keys)
