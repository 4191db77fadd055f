-- ===== src/Record/Longest.antt =====
-- What `GetStructType` of preprocess/record.go finds, and what `Update` does with it.
use fault.Common.{
  ℕ, zero, suc, ◌≡◌, ◌≤◌, ◌<◌, refl, sym, ◌∙◌, ap, inl, inr, ◌⊎◌, true, false, ◌&&◌, List, [], ◌∷◌,
  none, some, arith, if◌then◌else◌, length, init, take, same, Option-cases, subst,
}
use fault.Common.Text.{Text, text_key}
use fault.Common.Dict.{lookup-insert, lookup, insert, is_some}
use fault.Record.{StructType, stock, nil_type, ok, Struct, SpecRecord, underscored, fetch_stock}
use fault.Record.Types.{
  named, struct_type_loop, get_struct_type, update_stock, update_struct, update,
}

absurd {ℓ} : {A : Type ℓ} → true ≡ false → A
absurd e = cc

length-init : (x : Text) (xs : List Text) → length (init (x ∷ xs)) ≡ length xs
length-init x [] = refl
length-init x (y ∷ xs) = ap suc (length-init y xs)

take-length : (xs : List Text) → take (length xs) xs ≡ xs
take-length [] = refl
take-length (x ∷ xs) = ap (λ t. x ∷ t) (take-length xs)

take-init :
    (j : ℕ) (x : Text) (xs : List Text) → j ≤ length xs → take j (init (x ∷ xs)) ≡ take j (x ∷ xs)
take-init zero x xs h = refl
take-init (suc j) x [] h = ground arith
take-init (suc j) x (y ∷ xs) h = ap (λ t. x ∷ t) (take-init j y xs (omega arith))

shorter_or_all : (j n : ℕ) → j ≤ suc (suc n) → (j ≤ suc n) ⊎ (j ≡ suc (suc n))
shorter_or_all j n h = ground arith

module _ {N : Type 0} where
  -- The first `k` parts of the id are named `ty`, or nothing is and `ty` is NIL, and no more parts
  -- than `k` are named.
  pub record IsLongest (sr : SpecRecord N) (ids : List Text) (ty : StructType) (k : ℕ)
      : Type 0 where
    pub positive : 0 < k
    pub within : k ≤ length ids
    pub longer : (j : ℕ) → k < j → j ≤ length ids → named sr (take j ids) ≡ none
    pub found :
        (named sr (take k ids) ≡ some ty)
        ⊎ ((ty ≡ nil_type) × (k ≡ 1) × (named sr (take k ids) ≡ none))

  -- The whole id is named.
  whole :
      (sr : SpecRecord N) (a : Text) (ids : List Text) (ty : StructType)
      → named sr (a ∷ ids) ≡ some ty
      → IsLongest sr (a ∷ ids) ty (suc (length ids))
  whole sr a ids ty e = record {
    positive = omega arith;
    within = omega arith;
    longer = λ j h l. absurd (ground (arith, h, l));
    found = inl (ap (named sr) (take-length (a ∷ ids)) ∙ e);
  }

  -- The whole id is not named, and what the id without its last part gives is the result.
  shortened :
      (sr : SpecRecord N) (a b : Text) (ids : List Text) (ty : StructType) (k : ℕ)
      → named sr (a ∷ b ∷ ids) ≡ none
      → IsLongest sr (a ∷ init (b ∷ ids)) ty k
      → IsLongest sr (a ∷ b ∷ ids) ty k
  shortened sr a b ids ty k e longest = record {
    positive = longest.positive;
    within = omega (arith, longest.within, length-init b ids);
    longer = λ j h l. elim (shorter_or_all j (length ids) l) [
      | inl m ↦
          ap (named sr) (sym (take-init j a (b ∷ ids) m))
          ∙ longest.longer j h (omega (arith, m, length-init b ids))
      | inr q ↦
          ap (λ i. named sr (take i (a ∷ b ∷ ids))) q
          ∙ ap (named sr) (take-length (a ∷ b ∷ ids))
          ∙ e
    ];
    found =
        subst (λ x. (named sr x ≡ some ty) ⊎ ((ty ≡ nil_type) × (k ≡ 1) × (named sr x ≡ none)))
          (take-init k a (b ∷ ids) (omega (arith, longest.within, length-init b ids)))
          longest.found;
  }

  -- Nothing of the id is named.
  nowhere :
      (sr : SpecRecord N) (a : Text) → named sr (a ∷ []) ≡ none → IsLongest sr (a ∷ []) nil_type 1
  nowhere sr a e = record {
    positive = omega arith;
    within = omega arith;
    longer = λ j h l. absurd (ground (arith, h, l));
    found = inr (refl, refl, e);
  }

  loop_shorter :
      (n : ℕ) (sr : SpecRecord N) (spec a b : Text) (ids : List Text)
      → named sr (a ∷ b ∷ ids) ≡ none
      → struct_type_loop (suc n) sr (spec ∷ a ∷ b ∷ ids)
        ≡ struct_type_loop n sr (spec ∷ a ∷ init (b ∷ ids))
  unfolding struct_type_loop
  loop_shorter n sr spec a b ids e = rw (struct_type_loop, e) (ground arith)

  struct_type_loop-IsLongest :
      (n : ℕ) (sr : SpecRecord N) (spec a : Text) (ids : List Text)
      → length ids < n
      → (ty : StructType) × (k : ℕ) × (struct_type_loop n sr (spec ∷ a ∷ ids)
          ≡ ok (ty, spec ∷ take k (a ∷ ids)))
        × IsLongest sr (a ∷ ids) ty k
  unfolding struct_type_loop
  struct_type_loop-IsLongest zero sr spec a ids h = absurd (ground (arith, h))
  struct_type_loop-IsLongest (suc n) sr spec a [] h = elim (Option-cases (named sr (a ∷ []))) [
    | inr (ty, e) ↦ (ty, 1, rw (struct_type_loop, e) refl, whole sr a [] ty e)
    | inl e ↦ (nil_type, 1, rw (struct_type_loop, e) refl, nowhere sr a e)
  ]
  struct_type_loop-IsLongest (suc n) sr spec a (b ∷ ids) h =
      elim (Option-cases (named sr (a ∷ b ∷ ids))) [
        | inr (ty, e) ↦ (
          ty,
          suc (length (b ∷ ids)),
          rw (struct_type_loop, e) (ap (λ t. ok (ty, spec ∷ t)) (sym (take-length (a ∷ b ∷ ids)))),
          whole sr a (b ∷ ids) ty e,
        )
        | inl e ↦
            let (ty, k, found, longest) =
              struct_type_loop-IsLongest n sr spec a (init (b ∷ ids))
                (omega (arith, h, length-init b ids)) in
            (
              ty,
              k,
              loop_shorter n sr spec a b ids e
                  ∙ found
                  ∙ ap (λ t. ok (ty, spec ∷ t))
                      (take-init k a (b ∷ ids) (omega (arith, longest.within, length-init b ids))),
              shortened sr a b ids ty k e longest,
            )
      ]

  -- `GetStructType` of an id with a part behind the spec does not panic. It gives the longest beginning
  -- of the id that is a constant or stands in the order of the structs, with its type, and NIL if there
  -- is none.
  pub get_struct_type-IsLongest :
      (sr : SpecRecord N) (spec a : Text) (ids : List Text)
      → (ty : StructType) × (k : ℕ) × (get_struct_type sr (spec ∷ a ∷ ids)
          ≡ ok (ty, spec ∷ take k (a ∷ ids)))
        × IsLongest sr (a ∷ ids) ty k
  unfolding get_struct_type
  get_struct_type-IsLongest sr spec a ids =
      struct_type_loop-IsLongest (length (spec ∷ a ∷ ids)) sr spec a ids (omega arith)

  -- `Update` of an id that the order has as a stock returns no error. It writes the stock if the map
  -- of stocks has it; if it has not, nothing is written, and no error tells so.
  pub update_stock_lem :
      (sr : SpecRecord N) (spec a : Text) (ids : List Text) (val : Struct N)
      → named sr (a ∷ ids) ≡ some stock
      → (sr' : SpecRecord N) × (update sr (spec ∷ a ∷ ids) val ≡ ok sr')
        × ((name : Text)
            → fetch_stock sr' name ≡ (
                if same (underscored (a ∷ ids)) name
                  && is_some (lookup (underscored (a ∷ ids)) sr.stocks)
                then ok val
                else fetch_stock sr name))
  unfolding update get_struct_type struct_type_loop update_struct update_stock fetch_stock
  update_stock_lem sr spec a ids val e =
      elim (Option-cases (lookup (underscored (a ∷ ids)) sr.stocks)) [
        | inl m ↦ (sr, rw (struct_type_loop, e, update_stock, m) refl, λ name. ground (arith, m))
        | inr (s, m) ↦ (
          record sr { stocks = insert (underscored (a ∷ ids)) val sr.stocks },
          rw (struct_type_loop, e, update_stock, m) refl,
          λ name. ground (arith, m, lookup-insert (underscored (a ∷ ids)) name val sr.stocks),
        )
      ]
