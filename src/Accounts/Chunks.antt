-- ===== src/Accounts/Chunks.antt =====
-- Fields that stand one after another, read at their places.
use ika_pre_alpha.Prelude.{
  ℕ, zero, suc, ◌+◌, ◌-◌, ◌/◌, ◌%◌, ◌^◌, ◌<◌, ◌≡◌, refl, sym, ap, ◌∙◌, Bool, true, false, List, [],
  ◌∷◌, ◌++◌, ◌==◌, length, take, drop, get_or, length-append, take-length_append, arith,
}
use mathlib.Core.Path.{ap₂}
use ika_pre_alpha.Prelude.Bytes.{Bytes, to_le, from_le, length-to_le, from_le-to_le}
use ika_pre_alpha.Accounts.{slice, byte_at, read_u16, read_u64}

-- The fields before a place, one after another, and their length.
abbrev pub joined : List Bytes → Bytes → Bytes
joined [] rest = rest
joined (field ∷ fields) rest = field ++ joined fields rest

abbrev pub total : List Bytes → ℕ
total [] = 0
total (field ∷ fields) = length field + total fields

drop-past : (xs ys : Bytes) (n : ℕ) → drop (length xs + n) (xs ++ ys) ≡ drop n ys
drop-past [] ys n = let e : 0 + n ≡ n = omega arith in ap (λ m. drop m ys) e
drop-past (x ∷ xs) ys n =
    let e : suc (length xs) + n ≡ suc (length xs + n) = omega arith in
    ap (λ m. drop m (x ∷ (xs ++ ys))) e ∙ drop-past xs ys n

pub drop-joined :
    (fields : List Bytes) (rest : Bytes) → drop (total fields) (joined fields rest) ≡ rest
drop-joined [] rest = refl
drop-joined (field ∷ fields) rest =
    drop-past field (joined fields rest) (total fields) ∙ drop-joined fields rest

pub length-joined :
    (fields : List Bytes) (rest : Bytes) → length (joined fields rest) ≡ total fields + length rest
length-joined [] rest = omega arith
length-joined (field ∷ fields) rest =
    omega (arith, length-append field (joined fields rest), length-joined fields rest)

pub slice-joined :
    (fields : List Bytes) (x rest : Bytes) (from to : ℕ)
    → total fields ≡ from
    → from + length x ≡ to
    → slice (joined fields (x ++ rest)) from to ≡ x
slice-joined fields x rest from to at until =
    let size : to - from ≡ length x = omega arith in
    ap₂ (λ n ys. take n ys) size
      (ap (λ n. drop n (joined fields (x ++ rest))) (sym at) ∙ drop-joined fields (x ++ rest))
    ∙ take-length_append x rest

get_or-drop : (xs : Bytes) (n k : ℕ) → get_or xs (n + k) 0 ≡ get_or (drop n xs) k 0
get_or-drop xs zero k = let e : 0 + k ≡ k = omega arith in ap (λ m. get_or xs m 0) e
get_or-drop [] (suc n) k = refl
get_or-drop (x ∷ xs) (suc n) k =
    let e : suc n + k ≡ suc (n + k) = omega arith in
    ap (λ m. get_or (x ∷ xs) m 0) e ∙ get_or-drop xs n k

pub byte_at-joined :
    (fields : List Bytes) (rest : Bytes) (from k : ℕ)
    → total fields ≡ from
    → byte_at (joined fields rest) (from + k) ≡ get_or rest k 0
byte_at-joined fields rest from k at =
    get_or-drop (joined fields rest) from k
    ∙ ap (λ n. get_or (drop n (joined fields rest)) k 0) (sym at)
    ∙ ap (λ ys. get_or ys k 0) (drop-joined fields rest)

pub read_u16-joined :
    (fields : List Bytes) (rest : Bytes) (from n : ℕ)
    → total fields ≡ from
    → n < 65_536
    → read_u16 (joined fields (to_le 2 n ++ rest)) from ≡ n
unfolding read_u16
read_u16-joined fields rest from n at small =
    let bytes = joined fields (to_le 2 n ++ rest) in
    let start : from + 0 ≡ from = omega arith in
    let low : byte_at bytes from ≡ n % 256 =
      ap (byte_at bytes) (sym start) ∙ byte_at-joined fields (to_le 2 n ++ rest) from 0 at in
    let high : byte_at bytes (from + 1) ≡ (n / 256) % 256 =
      byte_at-joined fields (to_le 2 n ++ rest) from 1 at in
    omega arith

pub read_u64-joined :
    (fields : List Bytes) (rest : Bytes) (from n : ℕ)
    → total fields ≡ from
    → n < 2 ^ 64
    → read_u64 (joined fields (to_le 8 n ++ rest)) from ≡ n
unfolding read_u64
read_u64-joined fields rest from n at small =
    let width : from + length (to_le 8 n) ≡ from + 8 = ap (λ k. from + k) (length-to_le 8 n) in
    ap from_le (slice-joined fields (to_le 8 n) rest from (from + 8) at width)
    ∙ from_le-to_le 8 n (omega arith)

abbrev pub flag : Bool → ℕ
flag true = 1
flag false = 0

pub flag-read : (b : Bool) → (flag b == 1) ≡ b
flag-read true = refl
flag-read false = refl
