-- ===== src/Client/Submit/Indexes.antt =====
-- The order in which the validators are tried, each once, and the record of refused keys.
use ika_pre_alpha.Prelude.{
  ℕ, zero, suc, ◌<◌, ◌≡◌, ◌≢◌, refl, sym, some, List, [], ◌∷◌, ◌==◌, if◌then◌else◌, arith, All,
  All-append, take, drop, take-append-drop, ◌++◌,
}
use ika_pre_alpha.Client.{Refused, refused_at, set_refused, indexes_from, validator_indexes}

pub refused_at-set_refused :
    (j i time : ℕ) (refused : Refused)
    → refused_at j (set_refused i time refused)
      ≡ (if i == j then some time else refused_at j refused)
unfolding refused_at set_refused
refused_at-set_refused j i time [] = refl
refused_at-set_refused j i time ((k, old_time) ∷ refused) =
    ground (arith, refused_at-set_refused j i time refused)

-- Every index stands once.
abbrev pub Distinct : List ℕ → Type 0
Distinct [] = Unit
Distinct (i ∷ rest) = All (λ (j : ℕ). i ≢ j) rest × Distinct rest

-- The two records say the same of the indexes.
abbrev pub AgreeOn : Refused → Refused → List ℕ → Type 0
AgreeOn refused first = All (λ (j : ℕ). refused_at j refused ≡ refused_at j first)

pub AgreeOn-refl : (refused : Refused) (rest : List ℕ) → AgreeOn refused refused rest
AgreeOn-refl refused [] = tt
AgreeOn-refl refused (j ∷ rest) = (refl, AgreeOn-refl refused rest)

pub AgreeOn-set_refused :
    (i time : ℕ) (refused first : Refused) (rest : List ℕ)
    → All (λ (j : ℕ). i ≢ j) rest
    → AgreeOn refused first rest
    → AgreeOn (set_refused i time refused) first rest
AgreeOn-set_refused i time refused first [] d a = tt
AgreeOn-set_refused i time refused first (j ∷ rest) (n, d) (e, a) = (
  ground (arith, refused_at-set_refused j i time refused),
  AgreeOn-set_refused i time refused first rest d a,
)

above_index : (i first count : ℕ) → i < first → All (λ (j : ℕ). i ≢ j) (indexes_from first count)
above_index i first zero h = tt
above_index i first (suc count) h =
    (λ e. omega arith, above_index i (suc first) count (omega arith))

indexes_from-Distinct : (first count : ℕ) → Distinct (indexes_from first count)
indexes_from-Distinct first zero = tt
indexes_from-Distinct first (suc count) =
    (above_index first (suc first) count (omega arith), indexes_from-Distinct (suc first) count)

pub validator_indexes-Distinct : (further : ℕ) → Distinct (validator_indexes further)
unfolding validator_indexes
validator_indexes-Distinct further = indexes_from-Distinct 0 (suc further)

module _ (P : ℕ → Type 0) where
  All-halves : (xs ys : List ℕ) → All P (xs ++ ys) → All P xs × All P ys
  All-halves [] ys a = (tt, a)
  All-halves (x ∷ xs) ys (p, a) = let (b, c) = All-halves xs ys a in ((p, b), c)

  All-swap : (xs ys : List ℕ) → All P (xs ++ ys) → All P (ys ++ xs)
  All-swap xs ys a = let (b, c) = All-halves xs ys a in All-append P ys xs c b

Distinct-insert :
    (x : ℕ) (ys xs : List ℕ)
    → All (λ (j : ℕ). x ≢ j) (ys ++ xs)
    → Distinct (ys ++ xs)
    → Distinct (ys ++ (x ∷ xs))
Distinct-insert x [] xs a d = (a, d)
Distinct-insert x (y ∷ ys) xs (n, a) (m, d) =
    let (b, c) = All-halves (λ (j : ℕ). y ≢ j) ys xs m in
    (All-append _ ys (x ∷ xs) b (λ e. n (sym e), c), Distinct-insert x ys xs a d)

Distinct-nil : (ys : List ℕ) → Distinct ys → Distinct (ys ++ [])
Distinct-nil [] d = tt
Distinct-nil (y ∷ ys) (n, d) = (All-append _ ys [] n tt, Distinct-nil ys d)

Distinct-swap : (xs ys : List ℕ) → Distinct (xs ++ ys) → Distinct (ys ++ xs)
Distinct-swap [] ys d = Distinct-nil ys d
Distinct-swap (x ∷ xs) ys (n, d) =
    Distinct-insert x ys xs (All-swap _ xs ys n) (Distinct-swap xs ys d)

-- The order of a read that starts at the validator `from`.
pub rotated-Distinct :
    (from : ℕ) (xs : List ℕ) → Distinct xs → Distinct (drop from xs ++ take from xs)
rotated-Distinct from xs d =
    Distinct-swap (take from xs) (drop from xs) (rw (take-append-drop from xs) d)
