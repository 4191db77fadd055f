-- ===== src/Responses/Idents.antt =====
-- The symbols of the solver's model are the names that `AdvanceSSA` gave.
use fault.Common.{◌≡◌, refl, ap, ◌∙◌, some, arith, last?-append, init-append}
use fault.Common.Text.{Text, split, itoa, split-append, has-itoa, atoi-itoa, join-split}
use fault.Common.Int.{ℤ, pos, negsuc, IsInt16}
use fault.Variables.{ssa_name}
use fault.Responses.{split_ident, symbol_of, read_key}

split_ident-ssa_name : (id : Text) (n : ℤ) → split_ident (ssa_name id n) ≡ (itoa n, id)
unfolding split_ident ssa_name
split_ident-ssa_name id n = rw (split-append b'_' id (itoa n) (has-itoa n)) (
    rw (last?-append (split b'_' id) (itoa n), init-append (split b'_' id) (itoa n))
      (rw (join-split b'_' id) refl))

read_key-itoa : (id : Text) (n : ℤ) → IsInt16 n → read_key (itoa n, id) ≡ some (id, n)
read_key-itoa id (pos n) h = rw (atoi-itoa (pos n) h) (ground (arith, h))
read_key-itoa id (negsuc n) h = rw (atoi-itoa (negsuc n) h) (ground (arith, h))

-- The listener reads the name that `AdvanceSSA` gave a variable at a version as that variable and that
-- version: the value goes into the trace of the variable, at the index of the version.
pub symbol_of-ssa_name : (id : Text) (n : ℤ) → IsInt16 n → symbol_of (ssa_name id n) ≡ some (id, n)
unfolding symbol_of
symbol_of-ssa_name id n h = ap read_key (split_ident-ssa_name id n) ∙ read_key-itoa id n h
