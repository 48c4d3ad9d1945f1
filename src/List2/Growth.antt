-- ===== src/List2/Growth.antt =====
-- What `append` does to the elements, however the capacity grows.
use clip_share_desktop.Prelude.{
  ℕ, suc, ◌+◌, ◌-◌, ◌*◌, ◌≤◌, ◌<◌, ◌≡◌, refl, sym, ◌∙◌, true, Option, none, some, List, [], ◌∷◌,
  ◌++◌, length, length-append, append_assoc, append-nil, arith, leb, Bool-cases, inl, inr,
}
use clip_share_desktop.List2.{List2, new_cap, new_list, put, append}

new_cap-bigger :
    (c : ℕ)
    → 0 < c
    → c < 4294967295
    → (n : ℕ) × (new_cap c ≡ some (suc n)) × (c ≤ n) × (suc n ≤ 4294967295)
new_cap-bigger c p s = elim (Bool-cases (leb c 2147483647)) [
  | inl small ↦ (c * 2 - 1, ground arith, ground arith, ground arith)
  | inr big ↦ (4294967294, ground arith, ground arith, omega arith)
]

module _ {ℓ} {A : Type ℓ} where
  -- A list has a capacity, and keeps within it.
  pub record IsRoomy (lst : List2 A) : Type 0 where
    pub positive : 0 < lst.capacity
    pub within : length lst.array ≤ lst.capacity
    pub small : lst.capacity ≤ 4294967295

  -- The call succeeded, with the elements `xs`.
  abbrev pub Has : List A → Option (List2 A) → Type ℓ
  Has xs o = (lst : List2 A) × (o ≡ some lst) × (lst.array ≡ xs) × IsRoomy lst

  put-Has :
      (e : A) (lst : List2 A)
      → length lst.array < lst.capacity
      → lst.capacity ≤ 4294967295
      → Has (lst.array ++ (e ∷ [])) (some (put e lst))
  put-Has e lst h s = (
    put e lst,
    refl,
    refl,
    record {
      positive = omega arith;
      within = omega (arith, length-append lst.array (e ∷ []));
      small = s;
    },
  )

  append-full :
      (e : A) (lst : List2 A) (n : ℕ)
      → leb lst.capacity (length lst.array) ≡ true
      → new_cap lst.capacity ≡ some (suc n)
      → append true e lst ≡ some (put e (record lst { capacity = suc n }))
  unfolding append
  append-full e lst n f c = rw (f, c) refl

  append-Has :
      (e : A) (lst : List2 A)
      → IsRoomy lst
      → length lst.array < 4294967295
      → Has (lst.array ++ (e ∷ [])) (append true e lst)
  unfolding append
  append-Has e lst r h = elim (Bool-cases (leb lst.capacity (length lst.array))) [
    | inl full ↦
        let (n, c, b, s) = new_cap-bigger lst.capacity r.positive (ground (arith, r.within)) in
        rw (append-full e lst n full c)
          (put-Has e (record lst { capacity = suc n }) (omega arith) s)
    | inr room ↦ rw (append, room) (put-Has e lst (ground arith) r.small)
  ]

  unfoldable pub append_each : Option (List2 A) → List A → Option (List2 A)
  unfolding append
  append_each none es = none
  append_each (some lst) [] = some lst
  append_each (some lst) (e ∷ es) = append_each (append true e lst) es

  append_each-Has :
      (es xs : List A) (o : Option (List2 A))
      → Has xs o
      → length xs + length es ≤ 4294967295
      → Has (xs ++ es) (append_each o es)
  unfolding append_each
  append_each-Has [] xs none (lst, e, _, _) h = absurd (cc)
  append_each-Has [] xs (some l) (lst, e, p, r) h = (lst, e, p ∙ sym (append-nil xs), r)
  append_each-Has (x ∷ es) xs none (lst, e, _, _) h = absurd (cc)
  append_each-Has (x ∷ es) xs (some l) (lst, e, p, r) h =
      rw (e, ← append_assoc xs (x ∷ []) es)
        (append_each-Has es (xs ++ (x ∷ [])) (append true x lst)
          (rw (← p) (append-Has x lst r (rw p (omega arith))))
          (omega (arith, length-append xs (x ∷ []))))

  -- With a capacity to begin with, and memory for the larger arrays, `append` called for each of at
  -- most 2^32 - 1 elements gives the list of these elements, in their order.
  pub append_each-new_list :
      (capacity : ℕ) (es : List A)
      → 0 < capacity
      → capacity ≤ 4294967295
      → length es ≤ 4294967295
      → Has es (append_each (some (new_list capacity)) es)
  append_each-new_list capacity es p s h =
      append_each-Has es [] (some (new_list capacity))
        (new_list capacity, refl, refl, record { positive = p; within = omega arith; small = s })
        (omega arith)
