-- ===== src/Committee/Order.antt =====
-- `compareBytes` is a total order of byte arrays.
use ika_pre_alpha.Prelude.{
  ◌<◌, ◌≡◌, refl, Bool, true, false, arith, [], ◌∷◌, ap, ◌⊎◌, inl, inr, ◌↔◌, ◌≢◌, Bool-cases,
}
use ika_pre_alpha.Prelude.Bytes.{Bytes, same_bytes, same_bytes_iff}
use ika_pre_alpha.Prelude.Int.{pos, ltb_ℤ, leb_ℤ}
use ika_pre_alpha.Committee.{compare_bytes}

abbrev pub sorts_at_most : Bytes → Bytes → Bool
sorts_at_most a b = leb_ℤ (compare_bytes a b) (pos 0)

abbrev pub sorts_before : Bytes → Bytes → Bool
sorts_before a b = ltb_ℤ (compare_bytes a b) (pos 0)

pub sorts_at_most_total : (a b : Bytes) → sorts_at_most a b ≡ false → sorts_at_most b a ≡ true
unfolding compare_bytes
sorts_at_most_total [] b h = ground arith
sorts_at_most_total (x ∷ a) [] h = ground arith
sorts_at_most_total (x ∷ a) (y ∷ b) h = ground (arith, sorts_at_most_total a b)

pub sorts_at_most_antisymm :
    (a b : Bytes) → sorts_at_most a b ≡ true → sorts_at_most b a ≡ true → a ≡ b
unfolding compare_bytes
sorts_at_most_antisymm [] [] h k = refl
sorts_at_most_antisymm [] (y ∷ b) h k = ground arith
sorts_at_most_antisymm (x ∷ a) [] h k = ground arith
sorts_at_most_antisymm (x ∷ a) (y ∷ b) h k = ground (arith, sorts_at_most_antisymm a b)

pub sorts_at_most_trans :
    (a b c : Bytes) → sorts_at_most a b ≡ true → sorts_at_most b c ≡ true → sorts_at_most a c ≡ true
unfolding compare_bytes
sorts_at_most_trans [] b c h k = ground arith
sorts_at_most_trans (x ∷ a) [] c h k = ground arith
sorts_at_most_trans (x ∷ a) (y ∷ b) [] h k = ground arith
sorts_at_most_trans (x ∷ a) (y ∷ b) (z ∷ c) h k = ground (arith, sorts_at_most_trans a b c)

pub sorts_before_of_ne :
    (a b : Bytes) → sorts_at_most a b ≡ true → same_bytes a b ≡ false → sorts_before a b ≡ true
unfolding compare_bytes
sorts_before_of_ne [] [] h k = cc
sorts_before_of_ne [] (y ∷ b) h k = ground arith
sorts_before_of_ne (x ∷ a) [] h k = ground arith
sorts_before_of_ne (x ∷ a) (y ∷ b) h k = ground (arith, sorts_before_of_ne a b)

pub sorts_before_irrefl : (a : Bytes) → sorts_before a a ≡ false
unfolding compare_bytes
sorts_before_irrefl [] = refl
sorts_before_irrefl (x ∷ a) = ground (arith, sorts_before_irrefl a)

sorts_at_most_of_before : (a b : Bytes) → sorts_before a b ≡ true → sorts_at_most a b ≡ true
sorts_at_most_of_before a b h = ground arith

either_at_most : (a b : Bytes) → (sorts_at_most a b ≡ true) ⊎ (sorts_at_most b a ≡ true)
either_at_most a b = elim (Bool-cases (sorts_at_most a b)) [
  | inl le ↦ inl le
  | inr gt ↦ inr (sorts_at_most_total a b gt)
]

sorts_before_ne : (a b : Bytes) → sorts_before a b ≡ true → a ≢ b
sorts_before_ne a b h e = cc (sorts_before_irrefl b, ap (λ (x : Bytes). sorts_before x b) e)

sorts_before_of_at_most :
    (a b : Bytes) → (sorts_at_most a b ≡ true) × (a ≢ b) → sorts_before a b ≡ true
sorts_before_of_at_most a b (h, d) = elim (Bool-cases (same_bytes a b)) [
  | inl same ↦ absurd (d ((same_bytes_iff a b).0 same))
  | inr other ↦ sorts_before_of_ne a b h other
]

-- `compareBytes` orders the byte arrays totally: of two arrays one sorts at most at the other, two
-- arrays that sort at most at one another are equal, sorting at most is transitive, and
-- sorting strictly before is sorting at most and being another array.
pub compare_bytes_order :
    (a b c : Bytes)
    → ((sorts_at_most a b ≡ true) ⊎ (sorts_at_most b a ≡ true))
      × (sorts_at_most a b ≡ true → sorts_at_most b a ≡ true → a ≡ b)
      × (sorts_at_most a b ≡ true → sorts_at_most b c ≡ true → sorts_at_most a c ≡ true)
      × ((sorts_before a b ≡ true) ↔ ((sorts_at_most a b ≡ true) × (a ≢ b)))
compare_bytes_order a b c = (
  either_at_most a b,
  sorts_at_most_antisymm a b,
  sorts_at_most_trans a b c,
  (λ h. (sorts_at_most_of_before a b h, sorts_before_ne a b h), sorts_before_of_at_most a b),
)

-- The dictionary order of byte arrays: the first byte that differs decides, and a proper prefix comes
-- first.
abbrev pub IsBefore : Bytes → Bytes → Type 0
IsBefore left [] = ⊥
IsBefore [] (y ∷ right) = Unit
IsBefore (x ∷ left) (y ∷ right) = (x < y) ⊎ ((x ≡ y) × IsBefore left right)

pub sorts_before_iff : (a b : Bytes) → (sorts_before a b ≡ true) ↔ IsBefore a b
unfolding compare_bytes
sorts_before_iff [] [] = (λ h. ground arith, λ h. absurd h)
sorts_before_iff [] (y ∷ b) = (λ h. tt, λ h. ground arith)
sorts_before_iff (x ∷ a) [] = (λ h. ground arith, λ h. absurd h)
sorts_before_iff (x ∷ a) (y ∷ b) = ground (arith, sorts_before_iff a b)
