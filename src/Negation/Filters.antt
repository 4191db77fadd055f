-- ===== src/Negation/Filters.antt =====
-- Assertions that count states, "no more than n times" and "no fewer than n times", under
-- `compileAssert` (llvm/compiler.go).
use fault.Common.{
  ℕ, zero, suc, ◌+◌, ◌<◌, ◌≡◌, refl, Bool, not, none, some, arith, leb, ◌⊎◌, inl, inr,
}
use fault.Common.Int.{pos}
use fault.Common.Text.{Text, text, text_key}
use fault.Negation.{Expr, Arithmetic, Assertion, compile_assert}

-- `k` states are no more, or no fewer, than `n`.
pub data Filter : Type 0 where
  nmt nft : Filter

abbrev pub filter_text : Filter → Text
filter_text nmt = text "nmt"
filter_text nft = text "nft"

abbrev pub meets : Filter → ℕ → ℕ → Bool
meets nmt n k = leb k n
meets nft n k = leb n k

module _ {F : Type 0} (left right : Expr F) (operator : Text) where
  abbrev pub counting : Filter → ℕ → Assertion F
  counting f n = record {
    left = left;
    operator = operator;
    right = right;
    temporal_filter = filter_text f;
    temporal_n = pos n;
  }

module _ {F : Type 0} (go : Arithmetic F) (left right : Expr F) (operator : Text) where
  compile_at_most :
      (n : ℕ)
      → compile_assert go (counting left right operator nmt n)
        ≡ some (counting left right operator nft (n + 1))
  unfolding compile_assert
  compile_at_most n = refl

  compile_at_least :
      (n : ℕ)
      → compile_assert go (counting left right operator nft (suc n))
        ≡ some (counting left right operator nmt n)
  unfolding compile_assert
  compile_at_least n = refl

  -- An assertion that counts states is compiled to the one that counts the other way and that fails
  -- at every number of states at which the first is met. "No fewer than 0 times" is a panic.
  pub compile_assert-counting :
      (compile_assert go (counting left right operator nft 0) ≡ none)
      × ((f : Filter) (n : ℕ)
          → (f ≡ nmt) ⊎ (0 < n)
          → (f' : Filter) × (n' : ℕ) × (compile_assert go (counting left right operator f n)
              ≡ some (counting left right operator f' n'))
            × ((k : ℕ) → meets f' n' k ≡ not (meets f n k)))
  unfolding compile_assert
  compile_assert-counting = (refl, counted)
    where
      counted :
          (f : Filter) (n : ℕ)
          → (f ≡ nmt) ⊎ (0 < n)
          → (f' : Filter) × (n' : ℕ) × (compile_assert go (counting left right operator f n)
              ≡ some (counting left right operator f' n'))
            × ((k : ℕ) → meets f' n' k ≡ not (meets f n k))
      counted nmt n h = (nft, n + 1, compile_at_most n, λ k. ground arith)
      counted nft (suc n) h = (nmt, n, compile_at_least n, λ k. ground arith)
      counted nft zero (inl e) = cc
      counted nft zero (inr h) = elim h [ ]
