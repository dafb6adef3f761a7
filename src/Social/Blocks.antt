-- ===== src/Social/Blocks.antt =====
-- The block check of backend/app/shared/policies.py against the unique constraint of the table.
use lc_connect.Base.{
  ℕ, ◌+◌, ◌≡◌, Bool, true, false, ◌||◌, List, [], ◌∷◌, arith, Result, ok, err, count_if,
  filter_rows, find?, ◌≤◌, ◌≢◌, is_some, length, refl, scalar_one_or_none, ◌>>=◌, weight,
}
use lc_connect.Social.{Block, is_block, users_are_blocked}

-- `uq_block_pair`: one row for each ordered pair.
abbrev pub IsUnique : List Block → Type 0
IsUnique blocks = (a b : ℕ) → count_if (is_block a b) blocks ≤ 1

abbrev pub has_block : ℕ → ℕ → List Block → Bool
has_block a b blocks = is_some (find? (is_block a b) blocks)

-- The answer of the check, from the two rows that a pair can have.
abbrev pub verdict : {E : Type 0} → E → Bool → Bool → Result E Bool
verdict multiple true true = err multiple
verdict multiple true false = ok true
verdict multiple false b = ok b

rows-verdict :
    {E : Type 0} (multiple : E) (rows : List Block) (x y : Bool)
    → length rows ≡ weight x + weight y
    → (scalar_one_or_none multiple rows >>= λ row. ok (is_some row)) ≡ verdict multiple x y
rows-verdict multiple [] x y h = ground arith
rows-verdict multiple (r ∷ []) x y h = ground arith
rows-verdict multiple (r ∷ s ∷ rows) x y h = ground arith

length-filter_rows :
    (p : Block → Bool) (xs : List Block) → length (filter_rows p xs) ≡ count_if p xs
unfolding filter_rows count_if
length-filter_rows p [] = refl
length-filter_rows p (x ∷ xs) = ground (arith, length-filter_rows p xs)

count_if-either :
    (a b : ℕ) (xs : List Block)
    → a ≢ b
    → count_if (λ r. is_block a b r || is_block b a r) xs
      ≡ count_if (is_block a b) xs + count_if (is_block b a) xs
unfolding count_if
count_if-either a b [] ne = refl
count_if-either a b (x ∷ xs) ne = ground (arith, count_if-either a b xs ne)

has_block-count :
    (a b : ℕ) (xs : List Block)
    → count_if (is_block a b) xs ≤ 1
    → count_if (is_block a b) xs ≡ weight (has_block a b xs)
unfolding count_if find?
has_block-count a b [] h = refl
has_block-count a b (x ∷ xs) h = ground (arith, has_block-count a b xs)

-- For two people and at most one row for each ordered pair, the check answers from the two rows:
-- not blocked without a row, blocked with one, and an exception where each has blocked the other.
pub users_are_blocked-verdict :
    {E : Type 0} (multiple : E) (blocks : List Block) (a b : ℕ)
    → a ≢ b
    → IsUnique blocks
    → users_are_blocked multiple blocks a b
      ≡ verdict multiple (has_block a b blocks) (has_block b a blocks)
unfolding users_are_blocked
users_are_blocked-verdict multiple blocks a b ne unique =
    rows-verdict multiple (filter_rows (λ r. is_block a b r || is_block b a r) blocks)
      (has_block a b blocks) (has_block b a blocks)
      (omega (
        arith,
        length-filter_rows (λ r. is_block a b r || is_block b a r) blocks,
        count_if-either a b blocks ne,
        has_block-count a b blocks (unique a b),
        has_block-count b a blocks (unique b a),
      ))
